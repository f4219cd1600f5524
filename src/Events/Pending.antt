-- ===== src/Events/Pending.antt =====
-- reservePendingEvent and releasePendingEvent: eventPending is a channel whose elements are the
-- handshakes under way, of a capacity that the server chooses, and eventPendingIP counts them for
-- each client.
use nginx_atlas.Prelude.{
  ==_iff, ==_refl, Bool, Dict, Text, arith, delete, false, if◌then◌else◌, insert, leb, lookup,
  lookup-delete, lookup-insert, true, value_or, ℕ, ◌+◌, ◌-◌, ◌==◌, ◌≡◌, ◌≤◌,
}

pub record PendingEvents : Type 0 where
  pub capacity : ℕ
  pub under_way : ℕ
  pub by_ip : Dict ℕ

unfoldable pub reserve_pending_event : Text → PendingEvents → PendingEvents × Bool
reserve_pending_event ip p =
    let mine = value_or 0 (lookup ip p.by_ip) in
    if leb p.capacity p.under_way
    then (p, false)
    else if leb 2 mine
    then (p, false)
    else (record p { under_way = p.under_way + 1; by_ip = insert ip (mine + 1) p.by_ip }, true)

-- The receive from the channel would wait on an empty one; a release follows a reservation.
unfoldable pub release_pending_event : Text → PendingEvents → PendingEvents
release_pending_event ip p =
    let mine = value_or 0 (lookup ip p.by_ip) in
    record p {
      under_way = p.under_way - 1;
      by_ip = if leb mine 1 then delete ip p.by_ip else insert ip (mine - 1) p.by_ip;
    }

abbrev pub pending_of : Text → PendingEvents → ℕ
pending_of ip p = value_or 0 (lookup ip p.by_ip)

-- A handshake that is accepted stays within the capacity, is one of two of its client at most, and
-- counts for no other client; after its release the count of every client is what it was before.
pub reserve_pending_event-accepted :
    (ip other : Text) (p : PendingEvents)
    → (reserve_pending_event ip p).1 ≡ true
    → ((reserve_pending_event ip p).0.under_way ≤ p.capacity)
      × (pending_of ip (reserve_pending_event ip p).0 ≤ 2)
      × (pending_of other (reserve_pending_event ip p).0
          ≡ pending_of other p + (if ip == other then 1 else 0))
      × (pending_of other (release_pending_event ip (reserve_pending_event ip p).0)
          ≡ pending_of other p)
unfolding reserve_pending_event release_pending_event
reserve_pending_event-accepted ip other p h = ground (
  arith,
  lookup-insert ip other (pending_of ip p + 1) p.by_ip,
  lookup-insert ip ip (pending_of ip p + 1) p.by_ip,
  lookup-insert ip other (pending_of ip p) (insert ip (pending_of ip p + 1) p.by_ip),
  lookup-delete ip other (insert ip (pending_of ip p + 1) p.by_ip),
  ==_refl ip,
  ==_iff ip other,
)
