-- ===== src/Commands/Single.antt =====
-- Two requests for a system update of one node.
use nginx_atlas.Commands.Defs.{check_system_update, queue_system_update, update_node_system}
use nginx_atlas.Effects.{Env, World, add_audit, conflict, enqueue_job, err, fresh_job, ok, ok_inj}
use nginx_atlas.Jobs.Queries.{has_active_node_job}
use nginx_atlas.Model.{Job, Node, is_same_type_refl, queued, update_system}
use nginx_atlas.Prelude.{
  ==_refl, All, All-lookup, Bool, Bool-cases, Dict, List, Option, Option-cases, Text, [], any, ap,
  arith, bytes, false, inl, inr, insert, lookup, lookup-insert, none, refl, some, subst, sym, true,
  values, ◌+◌, ◌∷◌, ◌≡◌,
}
use nginx_atlas.Protocol.{system_spec}

any-All : (p : Job → Bool) (xs : List Job) → any p xs ≡ false → All (λ x. p x ≡ false) xs
any-All p [] h = tt
any-All p (x ∷ xs) h = ground (arith, any-All p xs)

pub any-values :
    (p : Job → Bool) (m : Dict Job) (k : Text) (job : Job)
    → lookup k m ≡ some job
    → p job ≡ true
    → any p (values m) ≡ true
any-values p m k job e h = elim (Bool-cases (any p (values m))) [
  | inl t ↦ t
  | inr f ↦ absurd (cc (All-lookup (λ x. p x ≡ false) m k job (any-All p (values m) f) e, h))
]

queued_busy :
    (node_id : Text) (job : Job) (m : Dict Job)
    → job.node_id ≡ node_id
    → job.type ≡ update_system
    → job.status ≡ queued
    → has_active_node_job (insert job.id job m) node_id update_system ≡ true
unfolding has_active_node_job
queued_busy node_id job m n t s =
    any-values _ (insert job.id job m) job.id job
      (rw (lookup-insert job.id job.id job m, ==_refl job.id) refl)
      (rw (n, t, s, ==_refl node_id, is_same_type_refl update_system) refl)

-- What is left behind by an update that was queued.
queue_system_update-busy :
    (env : Env) (node_id : Text) (w w' : World) (job : Job)
    → queue_system_update env node_id w ≡ ok (job, w')
    → (w'.nodes ≡ w.nodes) × (has_active_node_job w'.jobs node_id update_system ≡ true)
unfolding queue_system_update enqueue_job add_audit
queue_system_update-busy env node_id w w' job e =
    let spec = system_spec (record { package_manager = bytes "apt" }) in
    elim (Option-cases (env.fresh_id w.reads (bytes "job"))) [
      | inl n ↦ absurd (cc (rw (n, queue_system_update, enqueue_job) at e))
      | inr (id, f) ↦ elim (Option-cases (env.encode spec)) [
        | inl n ↦ absurd (cc (rw (f, n, queue_system_update, enqueue_job) at e))
        | inr (payload, g) ↦
            let made = fresh_job id node_id [] update_system payload (env.clock (w.reads + 1)) in
            let done = ok_inj (rw (f, g, queue_system_update, enqueue_job) at e) in
            let same_jobs : insert id made w.jobs ≡ w'.jobs =
              ap (λ (q : Job × World). q.1.jobs) done in
            (
              ap (λ (q : Job × World). q.1.nodes) (sym done),
              subst (λ m. has_active_node_job m node_id update_system ≡ true) same_jobs
                  (queued_busy node_id made w.jobs refl refl refl),
            )
      ]
    ]

check_system_update-again :
    (node_id : Text) (w w' : World)
    → check_system_update node_id w (lookup node_id w.nodes) ≡ none
    → w'.nodes ≡ w.nodes
    → has_active_node_job w'.jobs node_id update_system ≡ true
    → check_system_update node_id w' (lookup node_id w'.nodes) ≡ some conflict
unfolding check_system_update
check_system_update-again node_id w w' e same busy = rw same (go (lookup node_id w.nodes) e)
  where
    go :
        (o : Option Node)
        → check_system_update node_id w o ≡ none
        → check_system_update node_id w' o ≡ some conflict
    go none h = absurd (cc)
    go (some node) h = ground (arith, busy)

-- After a system update of a node was queued, a second one is refused as a conflict.
pub update_node_system_once :
    (env later_env : Env) (node_id : Text) (w w' : World) (job : Job)
    → update_node_system env node_id w ≡ ok (job, w')
    → update_node_system later_env node_id w' ≡ err conflict
unfolding update_node_system
update_node_system_once env later_env node_id w w' job e =
    elim (Option-cases (check_system_update node_id w (lookup node_id w.nodes))) [
      | inr (reason, h) ↦ absurd (cc (rw (h, update_node_system) at e))
      | inl h ↦
          let (same, busy) =
            queue_system_update-busy env node_id w w' job (rw (h, update_node_system) at e) in
          rw (check_system_update-again node_id w w' h same busy, update_node_system) refl
    ]
