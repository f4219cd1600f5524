-- ===== src/Events/Tickets.antt =====
-- createEventTicket and consumeEventTicket. The hash of a ticket, sha256.Sum256, is a parameter.
use nginx_atlas.Model.{Time, second}
use nginx_atlas.Prelude.{
  ==_refl, Bool, Dict, Text, [], arith, delete, false, if◌then◌else◌, insert, length, lookup,
  lookup-insert, ltb, non_empty, none, not, some, trim_space, true, ℕ, ◌*◌, ◌+◌, ◌<◌, ◌||◌, ◌∷◌,
  ◌≡◌, ◌≤◌,
}

abbrev pub event_ticket_ttl : ℕ
event_ticket_ttl = 30 * second

-- The tickets that have not expired.
unfoldable pub purge : Time → Dict Time → Dict Time
purge now [] = []
purge now ((k, expiry) ∷ rest) =
    let kept = purge now rest in if ltb now expiry then (k, expiry) ∷ kept else kept

module _ (hash : Text → Text) where
  unfoldable pub create_event_ticket : Text → Time → Dict Time → Dict Time
  unfolding purge
  create_event_ticket ticket now tickets =
      insert (hash ticket) (now + event_ticket_ttl) (purge now tickets)

  -- A ticket is looked up and removed at once.
  unfoldable pub consume_event_ticket : Text → Time → Dict Time → Dict Time × Bool
  consume_event_ticket given now tickets =
      let ticket = trim_space given in
      let found : Bool = elim (lookup (hash ticket) tickets) [
        | none ↦ false
        | some expiry ↦ ltb now expiry
      ] in
      if not (non_empty ticket) || ltb 128 (length ticket)
      then (tickets, false)
      else (delete (hash ticket) tickets, found)

  -- A ticket without spaces round it, of 1 to 128 bytes, that was just created is accepted within
  -- its 30 seconds.
  pub create-consume :
      (ticket : Text) (now later : Time) (tickets : Dict Time)
      → trim_space ticket ≡ ticket
      → non_empty ticket ≡ true
      → length ticket ≤ 128
      → later < now + event_ticket_ttl
      → (consume_event_ticket ticket later (create_event_ticket ticket now tickets)).1 ≡ true
  unfolding consume_event_ticket create_event_ticket
  create-consume ticket now later tickets plain full short soon = rw plain (
      ground (
        arith,
        lookup-insert (hash ticket) (hash ticket) (now + event_ticket_ttl) (purge now tickets),
        ==_refl (hash ticket),
      ))
