-- ===== src/Tests/Limits.antt =====
-- The store, the limits, tickets, versions and system updates at concrete states.
use nginx_atlas.Commands.{
  check_system_update, queue_system_update, update_node_system, update_node_system_once,
}
use nginx_atlas.Effects.{Result, World, conflict, enqueue_job, err, ok}
use nginx_atlas.Events.{
  PendingEvents, TicketStep, consume_event_ticket, consume_once, consumes, create-consume,
  create_event_ticket, creates, pending_of, release_pending_event, reserve_pending_event,
  reserve_pending_event-accepted, run_tickets,
}
use nginx_atlas.Jobs.Queries.{has_active_node_job}
use nginx_atlas.Logins.{
  LoginWindow, Logins, Netip, count_accepted, count_accepted_limited, max_login_attempts_per_client,
  max_tracked_login_clients, reserve_login_attempt, reserve_login_attempt-tracked,
}
use nginx_atlas.Model.{Job, Node, State, Time, node_offline, second}
use nginx_atlas.Prelude.{
  Bool, List, Text, [], ap, arith, bytes, cut, false, if◌then◌else◌, keys, length, lookup, none,
  refl, split, trim_prefix, trim_space, true, values, values_at, ℕ, ◌*◌, ◌+◌, ◌==◌, ◌∷◌, ◌≡◌, ◌≤◌,
}
use nginx_atlas.Release.{
  newer, parse_release_version, update_asym, update_trans, version_update_available,
}
use nginx_atlas.Reports.{
  ReportFits, append_status_sample, append_status_sample_bounded, check_addresses,
  check_certificates, check_sites, max_status_samples, validate_node_report,
  validate_node_report_fits,
}
use nginx_atlas.Store.{Store}
use nginx_atlas.Tests.{answer, env, job_a, late, node, node_a, now, queued_job, report, state_with}
use native.Mathlib.Decide.{ℕ_discrete}

pub State-discrete : Discrete State
State-discrete = hlevel ℕ_discrete

abbrev is_yes : {A : Type 0} → Dec A → Bool
is_yes (yes a) = true
is_yes (no n) = false

is_yes-sound : {A : Type 0} (d : Dec A) → is_yes d ≡ true → A
is_yes-sound (yes a) h = a
is_yes-sound (no n) h = absurd (cc)

abbrev pub same_state : State → State → Bool
same_state a b = is_yes (State-discrete a b)

pub same_state_sound : (a b : State) → same_state a b ≡ true → a ≡ b
same_state_sound a b = is_yes-sound (State-discrete a b)

abbrev pub store : Store
store = record {
  state = state_with queued_job;
  revision = 18446744073709551615;
  next_subscriber_id = 1;
  subscribers = (1, none) ∷ [];
}

abbrev pub rename : State → Result State
rename state = ok (record state { admin_password_hash = 120 ∷ [] })

abbrev net : Netip
net = record {
  Addr = Unit;
  parse_addr = λ ip. none;
  unmap = λ a. a;
  is6 = λ a. false;
  network64 = λ a. [];
  show_addr = λ a. [];
}

abbrev window : LoginWindow
window = record { started_at = now; last_seen_at = now; blocked_until = 0; attempts = 1 }

abbrev logins : Logins
logins = record { clients = (node_a, window) ∷ []; cleanup_at = now }

-- Two attempts of the client, and one of another between them.
abbrev attempts : List (Text × Time)
attempts = (node_a, now) ∷ (job_a, now + second) ∷ (node_a, now + 59 * second) ∷ []

count_accepted_limited_example :
    1 + count_accepted net node_a attempts logins ≤ max_login_attempts_per_client
unfolding lookup ◌==◌
count_accepted_limited_example =
    count_accepted_limited net node_a now attempts window logins (omega arith)
      ((omega arith, omega arith), ((omega arith, omega arith), ((omega arith, omega arith), tt)))
      (omega arith) (record { begun = refl; seen = omega arith; within = omega arith }) refl

reserve_login_attempt-tracked_example :
    length (reserve_login_attempt net node_a now logins).0.clients ≤ max_tracked_login_clients
reserve_login_attempt-tracked_example =
    reserve_login_attempt-tracked net node_a now logins (omega arith)

validate_node_report_fits_example : ReportFits (λ ip. true) report
unfolding validate_node_report check_addresses check_certificates check_sites
validate_node_report_fits_example = validate_node_report_fits (λ ip. true) report refl

abbrev pending : PendingEvents
pending = record { capacity = 64; under_way = 1; by_ip = (node_a, 1) ∷ [] }

reserve_pending_event-accepted_example :
    ((reserve_pending_event node_a pending).0.under_way ≤ 64)
    × (pending_of node_a (reserve_pending_event node_a pending).0 ≤ 2)
    × (pending_of node_a (reserve_pending_event node_a pending).0
        ≡ pending_of node_a pending + (if node_a == node_a then 1 else 0))
    × (pending_of node_a (release_pending_event node_a (reserve_pending_event node_a pending).0)
        ≡ pending_of node_a pending)
unfolding reserve_pending_event lookup ◌==◌
reserve_pending_event-accepted_example = reserve_pending_event-accepted node_a node_a pending refl

abbrev plain_hash : Text → Text
plain_hash ticket = 35 ∷ ticket

-- Another ticket is created, and the first one presented once more.
abbrev second_byte : Text → ℕ
second_byte (a ∷ b ∷ s) = b
second_byte s = 0

abbrev between : List TicketStep
between = creates job_a late ∷ consumes node_a late ∷ []

consume_once_example :
    (consume_event_ticket plain_hash node_a late (
      run_tickets plain_hash between
        (consume_event_ticket plain_hash node_a now
          (create_event_ticket plain_hash node_a now [])).0)).1
    ≡ false
unfolding trim_space
consume_once_example =
    consume_once plain_hash node_a now late between (create_event_ticket plain_hash node_a now [])
      (λ e. absurd (omega (arith, ap second_byte e)), (tt, tt))

create-consume_example :
    (consume_event_ticket plain_hash node_a
      (now + second)
      (create_event_ticket plain_hash node_a now [])).1
    ≡ true
unfolding trim_space
create-consume_example =
    create-consume plain_hash node_a now (now + second) [] refl refl (omega arith) (omega arith)

update_trans_example : version_update_available (bytes "v1.2.3-rc1") (bytes "1.10") ≡ true
unfolding version_update_available bytes parse_release_version trim_space trim_prefix ◌==◌ split cut
    newer
update_trans_example = update_trans (bytes "v1.2.3-rc1") (bytes "v1.2.3") (bytes "1.10") refl refl

update_asym_example : version_update_available (bytes "1.10") (bytes "v1.2.3") ≡ false
unfolding version_update_available bytes parse_release_version trim_space trim_prefix ◌==◌ split cut
    newer
update_asym_example = update_asym (bytes "v1.2.3") (bytes "1.10") refl

append_status_sample_bounded_example :
    length (append_status_sample node node_offline now).status_history ≤ max_status_samples
append_status_sample_bounded_example = append_status_sample_bounded node node_offline now

abbrev apt_node : Node
apt_node = record node { package_manager = 97 ∷ 112 ∷ 116 ∷ [] }

abbrev apt_world : World
apt_world = record {
  state = record (state_with queued_job) { nodes = (node_a, apt_node) ∷ []; jobs = [] };
  reads = 0;
}

abbrev system_queued : Job × World
system_queued = answer (queued_job, apt_world) (update_node_system env node_a apt_world)

update_node_system_once_example : update_node_system env node_a system_queued.1 ≡ err conflict
unfolding update_node_system lookup ◌==◌ bytes check_system_update has_active_node_job values
    values_at keys queue_system_update enqueue_job
update_node_system_once_example =
    update_node_system_once env env node_a apt_world system_queued.1 system_queued.0 refl
