-- ===== src/Commands/Rollout.antt =====
-- What a request to update all nodes keeps from node to node, and what its answer holds.
use nginx_atlas.Commands.Batch.{
  IsCandidate, IsUpdating, Offered, batch_run, offer_updates_invariant, passed_over, put_off,
  sent_to, update_all_refused,
}
use nginx_atlas.Commands.Updates.{
  UpdateBatch, canary_succeeded, candidate_freshness, live_nodes, sort_nodes,
  update_all_nodes_atlas,
}
use nginx_atlas.Effects.{Env, World, conflict, err, ok}
use nginx_atlas.Model.{Job, State, queued, update_atlas}
use nginx_atlas.Prelude.{
  All, List, Text, [], ap, arith, false, if◌then◌else◌, is_empty, length, length-append, refl, true,
  ℕ, ◌++◌, ◌+◌, ◌∙◌, ◌∷◌, ◌≡◌, ◌≤◌,
}
use nginx_atlas.Release.{ReleaseBundle}
use nginx_atlas.Scheduler.{Config}

All-snoc : (P : Job → Type 0) (xs : List Job) (x : Job) → All P xs → P x → All P (xs ++ x ∷ [])
All-snoc P [] x h q = (q, tt)
All-snoc P (y ∷ ys) x (r, h) q = (r, All-snoc P ys x h q)

nothing_yet : {A : Type 0} → true ≡ false → A
nothing_yet h = absurd (cc)

-- A queued update of a node that may be updated.
abbrev pub IsUpdateOf : ReleaseBundle → World → Job → Type 0
IsUpdateOf release w job =
    (job.type ≡ update_atlas) × (job.status ≡ queued) × IsCandidate release job.node_id w

abbrev counted : UpdateBatch → ℕ
counted b = length b.queued_jobs + length b.skipped + b.deferred

module _ (to_lower : Text → Text) (env : Env) (release : ReleaseBundle) (freshness limit : ℕ) where
  Offered-limited :
      (node_id : Text) (b b' : UpdateBatch) (w w' : World)
      → Offered to_lower env release freshness limit node_id b w b' w'
      → length b.queued_jobs ≤ limit
      → length b'.queued_jobs ≤ limit
  Offered-limited node_id b b' w w' (passed_over skip j s d u) h = rw j h
  Offered-limited node_id b b' w w' (put_off full j s d u) h = rw j h
  Offered-limited node_id b b' w w' (sent_to job room good made j s d) h =
      rw (j, length-append b.queued_jobs (job ∷ [])) (omega arith)

  Offered-updating :
      (node_id : Text) (b b' : UpdateBatch) (w w' : World)
      → Offered to_lower env release freshness limit node_id b w b' w'
      → (is_empty b.queued_jobs ≡ false → IsUpdating w)
      → is_empty b'.queued_jobs ≡ false
      → IsUpdating w'
  Offered-updating node_id b b' w w' (passed_over skip j s d u) h some_job =
      let (k, job, e, t, a) = h (rw j at some_job) in (k, job, rw u e, t, a)
  Offered-updating node_id b b' w w' (put_off full j s d u) h some_job =
      let (k, job, e, t, a) = h (rw j at some_job) in (k, job, rw u e, t, a)
  Offered-updating node_id b b' w w' (sent_to job room good made j s d) h some_job = made.updating

  Offered-Candidates :
      (w0 : World) (node_id : Text) (b b' : UpdateBatch) (w w' : World)
      → Offered to_lower env release freshness limit node_id b w b' w'
      → (w.nodes ≡ w0.nodes) × All (IsUpdateOf release w0) b.queued_jobs
      → (w'.nodes ≡ w0.nodes) × All (IsUpdateOf release w0) b'.queued_jobs
  Offered-Candidates w0 node_id b b' w w' (passed_over skip j s d u) (n, h) =
      (ap (λ (t : State). t.nodes) u ∙ n, rw j h)
  Offered-Candidates w0 node_id b b' w w' (put_off full j s d u) (n, h) =
      (ap (λ (t : State). t.nodes) u ∙ n, rw j h)
  Offered-Candidates w0 node_id b b' w w' (sent_to job room good made j s d) (n, h) =
      let (node, found, online, well, old) = good in
      (
        made.nodes ∙ n,
        rw j (
            All-snoc (IsUpdateOf release w0) b.queued_jobs job h
              (made.of_type, made.is_new, (node, rw (made.at_node, ← n) found, online, well, old))),
      )

-- A request that is answered queues five jobs at most; and one at most, if no update to the
-- version, the latest one of its node, has succeeded on a node that reports the version.
pub update_all_limited :
    (to_lower : Text → Text) (env : Env) (config : Config) (release : ReleaseBundle) (w w' : World)
    (batch : UpdateBatch)
    → update_all_nodes_atlas to_lower env config release w ≡ ok (batch, w')
    → length batch.queued_jobs ≤ (if canary_succeeded to_lower env release.version w then 5 else 1)
update_all_limited to_lower env config release w w' batch e =
    let limit = if canary_succeeded to_lower env release.version w then 5 else 1 in
    let freshness = candidate_freshness config w.state in
    offer_updates_invariant to_lower env release freshness limit
      (λ b u. length b.queued_jobs ≤ limit) (Offered-limited to_lower env release freshness limit)
      (sort_nodes to_lower w (live_nodes w)) _ batch w w' (omega arith)
      (batch_run to_lower env config release w w' batch e)

-- The jobs of an answer are queued updates of nodes that are there and online, whose nginx is well
-- and which do not run the version of the release, or a later one, yet.
pub update_all_nodes_atlas-IsUpdateOf :
    (to_lower : Text → Text) (env : Env) (config : Config) (release : ReleaseBundle) (w w' : World)
    (batch : UpdateBatch)
    → update_all_nodes_atlas to_lower env config release w ≡ ok (batch, w')
    → All (IsUpdateOf release w) batch.queued_jobs
update_all_nodes_atlas-IsUpdateOf to_lower env config release w w' batch e =
    let limit = if canary_succeeded to_lower env release.version w then 5 else 1 in
    let freshness = candidate_freshness config w.state in
    let kept =
      offer_updates_invariant to_lower env release freshness limit
        (λ b u. (u.nodes ≡ w.nodes) × All (IsUpdateOf release w) b.queued_jobs)
        (Offered-Candidates to_lower env release freshness limit w)
        (sort_nodes to_lower w (live_nodes w)) _ batch w w' (refl, tt)
        (batch_run to_lower env config release w w' batch e) in
    kept.1

-- After a request that queued a job, a second one is refused as a conflict, whatever the release.
pub update_all_once :
    (to_lower : Text → Text) (env later_env : Env) (config later_config : Config)
    (release later_release : ReleaseBundle) (w w' : World) (batch : UpdateBatch)
    → update_all_nodes_atlas to_lower env config release w ≡ ok (batch, w')
    → is_empty batch.queued_jobs ≡ false
    → update_all_nodes_atlas to_lower later_env later_config later_release w' ≡ err conflict
update_all_once to_lower env later_env config later_config release later_release w w' batch e
      some_job =
    let limit = if canary_succeeded to_lower env release.version w then 5 else 1 in
    let freshness = candidate_freshness config w.state in
    update_all_refused to_lower later_env later_release later_config w' (
      offer_updates_invariant to_lower env release freshness limit
        (λ b u. is_empty b.queued_jobs ≡ false → IsUpdating u)
        (Offered-updating to_lower env release freshness limit)
        (sort_nodes to_lower w (live_nodes w)) _ batch w w' nothing_yet
        (batch_run to_lower env config release w w' batch e) some_job)
