-- ===== src/Lifecycle/Results.antt =====
-- The jobs under handleAgentJobResult.
use nginx_atlas.Agents.{
  accept_update, agent_job_result, complete_successful_job, fail, failed_job, succeed, take_result,
}
use nginx_atlas.Effects.{Env, World, add_audit, bind-ok, conflict, err, ok, ok_inj}
use nginx_atlas.Jobs.Queries.{awaiting_update_confirmation}
use nginx_atlas.Lifecycle.Advance.{Keyed}
use nginx_atlas.Model.{
  Certificate, Job, Node, Time, is_running, is_update_atlas, succeeded, zero_node,
}
use nginx_atlas.Prelude.{
  ==_refl, Bool-cases, Dict, Option, Option-cases, Text, [], arith, false, inl, inr, insert, lookup,
  lookup-insert, not, refl, some, some_inj, subst, sym, true, value_or, ◌==◌, ◌||◌, ◌∙◌, ◌≡◌, ◌⊎◌,
}
use nginx_atlas.Protocol.{JobResultRequest}

-- Nothing is expected of the job any more, but the confirmation of an update that was accepted.
abbrev pub IsSettled : Job → Type 0
IsSettled job = (is_running job.status ≡ false) ⊎ (awaiting_update_confirmation job ≡ true)

abbrev pub SettledAt : Text → World → Type 0
SettledAt k w = (job : Job) × (lookup k w.jobs ≡ some job) × IsSettled job

written_at :
    (k : Text) (job : Job) (m : Dict Job) → job.id ≡ k → lookup k (insert job.id job m) ≡ some job
written_at k job m e = rw (lookup-insert job.id k job m, e, ==_refl k) refl

module _ (env : Env) (node_id k : Text) (current : Job) (now : Time) (same : current.id ≡ k) where
  accept_update-settled :
      (node : Node) (w w' : World)
      → is_update_atlas current.type ≡ true
      → is_running current.status ≡ true
      → accept_update env node_id current node now w ≡ ok w'
      → SettledAt k w'
  unfolding accept_update add_audit awaiting_update_confirmation
  accept_update-settled node w w' u r e =
      let job = record current { update_accepted_at = some now; error = [] } in
      (job, ground (arith, written_at k job w.jobs same), inr (ground arith))

  pub succeed_at :
      (node : Node) (request : JobResultRequest) (prepared : Option Certificate) (w w' : World)
      → succeed env node_id current node request prepared now w ≡ ok w'
      → lookup k w'.jobs
        ≡ some (record current { status = succeeded; error = []; finished_at = some now })
  unfolding succeed add_audit
  succeed_at node request prepared w w' e =
      let job = record current { status = succeeded; error = []; finished_at = some now } in
      let (mid, h, g) = bind-ok (complete_successful_job env job prepared w) _ e in
      subst (λ (u : World). lookup k u.jobs ≡ some job) (ok_inj g) (written_at k job mid.jobs same)

  succeed-settled :
      (node : Node) (request : JobResultRequest) (prepared : Option Certificate) (w w' : World)
      → succeed env node_id current node request prepared now w ≡ ok w'
      → SettledAt k w'
  succeed-settled node request prepared w w' e =
      let job = record current { status = succeeded; error = []; finished_at = some now } in
      (job, succeed_at node request prepared w w' e, inl refl)

  fail-settled :
      (node : Node) (message : Text) (w : World)
      → SettledAt k (fail env node_id current node message now w)
  unfolding fail failed_job
  fail-settled node message w =
      let job = failed_job current message now in
      (job, written_at k job _ (ground arith), inl (ground arith))

module _ (env : Env) (node_id k : Text) (request : JobResultRequest) (prepared : Option Certificate)
    (now : Time) (w : World) where
  settled_answer :
      SettledAt k w
      → (agent_job_result env node_id k request prepared now w ≡ err conflict)
        ⊎ (agent_job_result env node_id k request prepared now w ≡ ok w)
  unfolding agent_job_result
  settled_answer (job, e, h) = rw (e, agent_job_result) (ground (arith, h))

-- How a result is taken: it changes nothing, starts the confirmation of an update, ends the job
-- well, or notes its failure.
pub data Taken (env : Env) (node_id : Text) (request : JobResultRequest)
    (prepared : Option Certificate) (now : Time) (w w' : World) (current : Job) : Type 0 where
  waits :
      awaiting_update_confirmation current ≡ true
      → w ≡ w'
      → Taken env node_id request prepared now w w' current
  accepts :
      (node : Node)
      → is_running current.status ≡ true
      → is_update_atlas current.type ≡ true
      → accept_update env node_id current node now w ≡ ok w'
      → Taken env node_id request prepared now w w' current
  succeeds :
      (node : Node)
      → is_running current.status ≡ true
      → succeed env node_id current node request prepared now w ≡ ok w'
      → Taken env node_id request prepared now w w' current
  fails :
      (node : Node)
      → is_running current.status ≡ true
      → request.success ≡ false
      → fail env node_id current node request.error now w ≡ w'
      → Taken env node_id request prepared now w w' current

module _ (env : Env) (node_id : Text) (request : JobResultRequest) (prepared : Option Certificate)
    (now : Time) (w w' : World) (current : Job) where
  take_failure :
      take_result env node_id request prepared now w current ≡ ok w'
      → request.success ≡ false
      → is_running current.status ≡ true
      → awaiting_update_confirmation current ≡ false
      → (not (current.node_id == node_id) || not (is_running current.status)) ≡ false
      → Taken env node_id request prepared now w w' current
  unfolding take_result
  take_failure e s live a r =
      fails (value_or zero_node (lookup node_id w.nodes)) live s
        (ok_inj (rw (r, a, s, take_result) at e))

  take_success :
      take_result env node_id request prepared now w current ≡ ok w'
      → request.success ≡ true
      → is_running current.status ≡ true
      → awaiting_update_confirmation current ≡ false
      → (not (current.node_id == node_id) || not (is_running current.status)) ≡ false
      → Taken env node_id request prepared now w w' current
  unfolding take_result
  take_success e s live a r =
      let node = value_or zero_node (lookup node_id w.nodes) in
      elim (Bool-cases (is_update_atlas current.type)) [
        | inl u ↦ accepts node live u (ground (arith, e))
        | inr n ↦ succeeds node live (ground (arith, e))
      ]

  pub result-Taken :
      take_result env node_id request prepared now w current ≡ ok w'
      → Taken env node_id request prepared now w w' current
  unfolding take_result
  result-Taken e =
      elim (Bool-cases (not (current.node_id == node_id) || not (is_running current.status))) [
        | inl rejected ↦ absurd (cc (rw (rejected, take_result) at e))
        | inr r ↦ elim (Bool-cases (awaiting_update_confirmation current)) [
          | inl a ↦ waits a (ok_inj (rw (r, a, take_result) at e))
          | inr a ↦ elim (Bool-cases request.success) [
            | inl s ↦ take_success e s (ground arith) a r
            | inr s ↦ take_failure e s (ground arith) a r
          ]
        ]
      ]

module _ (env : Env) (node_id k : Text) (request : JobResultRequest) (prepared : Option Certificate)
    (now : Time) (w w' : World) where
  pub result_found :
      agent_job_result env node_id k request prepared now w ≡ ok w'
      → (current : Job) × (lookup k w.jobs ≡ some current)
        × Taken env node_id request prepared now w w' current
  unfolding agent_job_result
  result_found e = elim (Option-cases (lookup k w.jobs)) [
    | inl missing ↦ absurd (cc (rw (missing, agent_job_result) at e))
    | inr (current, f) ↦ (
      current,
      f,
      result-Taken env node_id request prepared now w w' current (rw (f, agent_job_result) at e),
    )
  ]

  Taken-settled :
      (current : Job)
      → current.id ≡ k
      → lookup k w.jobs ≡ some current
      → Taken env node_id request prepared now w w' current
      → SettledAt k w'
  Taken-settled current same f (waits a e) = subst (SettledAt k) e (current, f, inr a)
  Taken-settled current same f (accepts node live u e) =
      accept_update-settled env node_id k current now same node w w' u live e
  Taken-settled current same f (succeeds node live e) =
      succeed-settled env node_id k current now same node request prepared w w' e
  Taken-settled current same f (fails node live s e) =
      subst (SettledAt k) e (fail-settled env node_id k current now same node request.error w)

  -- A success that is not that of an update.
  Taken-succeeded :
      (current : Job)
      → current.id ≡ k
      → is_update_atlas current.type ≡ false
      → request.success ≡ true
      → Taken env node_id request prepared now w w' current
      → lookup k w'.jobs
        ≡ some (record current { status = succeeded; error = []; finished_at = some now })
  unfolding awaiting_update_confirmation
  Taken-succeeded current same other good (waits a e) = absurd (ground (arith, a, other))
  Taken-succeeded current same other good (accepts node live u e) = absurd (cc (u, other))
  Taken-succeeded current same other good (succeeds node live e) =
      succeed_at env node_id k current now same node request prepared w w' e
  Taken-succeeded current same other good (fails node live s e) = absurd (cc (s, good))

  pub result_succeeded :
      (current : Job)
      → Keyed w.jobs
      → lookup k w.jobs ≡ some current
      → is_update_atlas current.type ≡ false
      → request.success ≡ true
      → agent_job_result env node_id k request prepared now w ≡ ok w'
      → lookup k w'.jobs
        ≡ some (record current { status = succeeded; error = []; finished_at = some now })
  result_succeeded current keyed held other good e =
      let (found, f, taken) = result_found e in
      let same : found ≡ current = some_inj (sym f ∙ held) in
      Taken-succeeded current (keyed k current held) other good
        (subst (Taken env node_id request prepared now w w') same taken)

  result_settled :
      Keyed w.jobs → agent_job_result env node_id k request prepared now w ≡ ok w' → SettledAt k w'
  result_settled keyed e =
      let (current, f, taken) = result_found e in Taken-settled current (keyed k current f) f taken

-- If every job stands under its id: after the result of a job was taken, another result of the
-- same job from the same node is refused as a conflict, or it changes nothing, which is so while
-- an accepted update waits for its confirmation.
pub agent_job_result_once :
    (env later_env : Env) (node_id job_id : Text) (request other : JobResultRequest)
    (prepared other_prepared : Option Certificate) (now later : Time) (w w' : World)
    → Keyed w.jobs
    → agent_job_result env node_id job_id request prepared now w ≡ ok w'
    → (agent_job_result later_env node_id job_id other other_prepared later w' ≡ err conflict)
      ⊎ (agent_job_result later_env node_id job_id other other_prepared later w' ≡ ok w')
agent_job_result_once env later_env node_id job_id request other prepared other_prepared now later w
      w' keyed e =
    settled_answer later_env node_id job_id other other_prepared later w'
      (result_settled env node_id job_id request prepared now w w' keyed e)
