-- ===== src/Effects/Audit.antt =====
-- The audit trail: addAudit of internal/server/server.go, and AppendAudit of
-- internal/store/store.go.
use nginx_atlas.Effects.Environment.{Env}
use nginx_atlas.Effects.Worlds.{World}
use nginx_atlas.Model.{AuditEvent, State, Time, second}
use nginx_atlas.Prelude.{
  List, Text, [], bytes, if◌then◌else◌, length, ltb, none, some, suc, take, zero, ℕ, ◌%◌, ◌*◌, ◌++◌,
  ◌+◌, ◌-◌, ◌/◌, ◌∷◌,
}

abbrev pub max_audit_events : ℕ
max_audit_events = 500

unfoldable pub append_audit : State → AuditEvent → State
append_audit state event =
    let audit = event ∷ state.audit in
    record state {
      audit = if ltb max_audit_events (length audit) then take max_audit_events audit else audit;
    }

-- A number in decimal; the fuel bounds its digits, and 20 are enough for an int64.
digits : ℕ → ℕ → Text
digits zero n = []
digits (suc fuel) n =
    let more = digits fuel (n / 10) in
    if ltb n 10 then (48 + n) ∷ [] else more ++ (48 + n % 10) ∷ []

unfoldable pub decimal : ℕ → Text
unfolding digits
decimal n = digits 20 n

-- UnixNano: the nanoseconds since 1970.
abbrev pub unix_nano : Time → ℕ
unix_nano t = t - 62_135_596_800 * second

abbrev reference : ℕ → List Text → Text
reference n [] = []
reference zero (r ∷ rs) = r
reference (suc n) (r ∷ rs) = reference n rs

module _ (env : Env) where
  unfoldable pub audit_id : ℕ → Text
  audit_id n = elim (env.fresh_id n (bytes "evt")) [
    | some k ↦ k
    | none ↦ bytes "evt_" ++ decimal (unix_nano (env.clock n))
  ]

  -- The references are the node, the domain and the job, as many of them as there are.
  unfoldable pub add_audit : Text → Text → Text → List Text → World → World
  unfolding append_audit
  add_audit level action message references w = record w {
    state = append_audit w.state (record {
      id = audit_id w.reads;
      level = level;
      action = action;
      message = message;
      node_id = reference 0 references;
      domain_id = reference 1 references;
      job_id = reference 2 references;
      created_at = env.clock (w.reads + 1);
    });
    reads = w.reads + 2;
  }
