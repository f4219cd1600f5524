-- ===== src/Events/Spent.antt =====
-- A ticket that was presented once, under whatever is done with other tickets.
use nginx_atlas.Events.Tickets.{consume_event_ticket, create_event_ticket, event_ticket_ttl, purge}
use nginx_atlas.Model.{Time}
use nginx_atlas.Prelude.{
  ==_iff, ==_refl, All, Dict, List, Text, [], arith, delete, false, lookup, lookup-delete,
  lookup-insert, none, refl, trim_space, ◌+◌, ◌∷◌, ◌≡◌, ◌≢◌,
}

-- What may be done with the tickets.
pub data TicketStep : Type 0 where
  creates : Text → Time → TicketStep
  consumes : Text → Time → TicketStep

lookup-purge :
    (k : Text) (now : Time) (m : Dict Time) → lookup k m ≡ none → lookup k (purge now m) ≡ none
unfolding lookup purge
lookup-purge k now [] e = refl
lookup-purge k now ((j, expiry) ∷ m) e = ground (arith, lookup-purge k now m)

module _ (hash : Text → Text) where
  unfoldable pub run_tickets : List TicketStep → Dict Time → Dict Time
  run_tickets [] tickets = tickets
  run_tickets (creates ticket now ∷ rest) tickets =
      run_tickets rest (create_event_ticket hash ticket now tickets)
  run_tickets (consumes given now ∷ rest) tickets =
      run_tickets rest (consume_event_ticket hash given now tickets).0

  -- The step creates no ticket with the hash.
  abbrev pub LeavesHash : Text → TicketStep → Type 0
  LeavesHash h (creates ticket now) = hash ticket ≢ h
  LeavesHash h (consumes given now) = Unit

  run_tickets-none :
      (h : Text) (steps : List TicketStep) (tickets : Dict Time)
      → All (LeavesHash h) steps
      → lookup h tickets ≡ none
      → lookup h (run_tickets steps tickets) ≡ none
  unfolding run_tickets create_event_ticket consume_event_ticket
  run_tickets-none h [] tickets q e = e
  run_tickets-none h (creates ticket now ∷ rest) tickets (other, q) e =
      run_tickets-none h rest (create_event_ticket hash ticket now tickets) q (
        ground (
          arith,
          other,
          lookup-purge h now tickets e,
          ==_iff (hash ticket) h,
          lookup-insert (hash ticket) h (now + event_ticket_ttl) (purge now tickets),
        ))
  run_tickets-none h (consumes given now ∷ rest) tickets (other, q) e =
      run_tickets-none h rest (consume_event_ticket hash given now tickets).0 q
        (ground (arith, e, lookup-delete (hash (trim_space given)) h tickets))

  -- A ticket that was presented once is refused ever after, whatever the first answer was: after
  -- any tickets were created, none of them with its hash, and any tickets presented, all at any
  -- times.
  pub consume_once :
      (ticket : Text) (now later : Time) (steps : List TicketStep) (tickets : Dict Time)
      → All (LeavesHash (hash (trim_space ticket))) steps
      → (consume_event_ticket hash ticket later
          (run_tickets steps (consume_event_ticket hash ticket now tickets).0)).1
        ≡ false
  unfolding consume_event_ticket
  consume_once ticket now later steps tickets q =
      let h = hash (trim_space ticket) in
      ground
        (arith, run_tickets-none h steps (delete h tickets) q, lookup-delete h h tickets, ==_refl h)
