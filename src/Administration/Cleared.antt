-- ===== src/Administration/Cleared.antt =====
-- The jobs after handleClearPendingJobs.
use nginx_atlas.Administration.Jobs.{
  clear_pending_jobs, forget_job, is_pending, release_domain, remove_job, remove_pending,
}
use nginx_atlas.Effects.{
  Env, World, add_audit, not-contains-keys, put_domain, put_node, range, range_invariant,
}
use nginx_atlas.Model.{Job, Node, Time}
use nginx_atlas.Prelude.{
  ==_iff, Bool, Bool-cases, Dict, List, Option, Text, [], ap, arith, bytes, contains, false,
  if◌then◌else◌, inl, inr, keep, keys, length, lookup, lookup-delete, ltb, none, refl, some, sym,
  true, values, ◌==◌, ◌||◌, ◌∙◌, ◌∷◌, ◌≡◌, ◌⊎◌,
}

forget_job-jobs : (k : Text) (job : Job) (w : World) → (forget_job k job w).jobs ≡ w.jobs
unfolding forget_job
forget_job-jobs k job w = go (lookup job.node_id w.nodes)
  where
    go :
        (o : Option Node)
        → (elim o as (λ x. World) [
          | none ↦ w
          | some node ↦
              if node.running_job_id == k
              then put_node node.id (record node { running_job_id = [] }) w
              else w
        ]).jobs
          ≡ w.jobs
    go none = refl
    go (some node) = ground arith

-- What a visit of a key leaves of the jobs.
abbrev pub kept_job : Option Job → Option Job
kept_job none = none
kept_job (some job) = if is_pending job then none else some job

visit_pending : Text → World → World
visit_pending k w = elim (lookup k w.jobs) [
  | none ↦ w
  | some job ↦ if is_pending job then forget_job k job (remove_job k w) else w
]

visited :
    (j k : Text) (w : World)
    → lookup j (visit_pending k w).jobs
      ≡ (if k == j then kept_job (lookup j w.jobs) else lookup j w.jobs)
unfolding visit_pending
visited j k w = go (lookup k w.jobs) refl (Bool-cases (k == j))
  where
    go :
        (o : Option Job)
        → lookup k w.jobs ≡ o
        → ((k == j) ≡ true) ⊎ ((k == j) ≡ false)
        → lookup j
            (elim o as (λ x. World) [
              | none ↦ w
              | some job ↦ if is_pending job then forget_job k job (remove_job k w) else w
            ]).jobs
          ≡ (if k == j then kept_job (lookup j w.jobs) else lookup j w.jobs)
    go none e (inr f) = rw f refl
    go none e (inl t) =
        let here = ap (λ x. lookup x w.jobs) (sym ((==_iff k j).0 t)) ∙ e in rw (t, here) refl
    go (some job) e c = elim (Bool-cases (is_pending job)) [
      | inr stays ↦ elim c [
        | inr f ↦ rw (stays, f) refl
        | inl t ↦
            let here = ap (λ x. lookup x w.jobs) (sym ((==_iff k j).0 t)) ∙ e in
            rw (stays, t, here) (rw stays refl)
      ]
      | inl goes ↦
          let removed =
            ap (lookup j) (forget_job-jobs k job (remove_job k w)) ∙ lookup-delete k j w.jobs in
          elim c [
            | inr f ↦ rw goes (removed ∙ rw f refl)
            | inl t ↦
                let here = ap (λ x. lookup x w.jobs) (sym ((==_iff k j).0 t)) ∙ e in
                rw goes (removed ∙ rw (t, here) (rw goes refl))
          ]
    ]

kept_twice : (o : Option Job) → kept_job (kept_job o) ≡ kept_job o
kept_twice none = refl
kept_twice (some job) = elim (Bool-cases (is_pending job)) [
  | inl t ↦ rw t refl
  | inr f ↦ rw f (rw f refl)
]

combined :
    (here later : Bool) (o p : Option Job)
    → p ≡ (if here then kept_job o else o)
    → (if later then kept_job p else p) ≡ (if here || later then kept_job o else o)
combined true true o p e = ap kept_job e ∙ kept_twice o
combined true false o p e = e
combined false true o p e = ap kept_job e
combined false false o p e = e

remove_pending-jobs :
    (j : Text) (ks : List Text) (w : World)
    → lookup j (remove_pending ks w).jobs
      ≡ (if contains j ks then kept_job (lookup j w.jobs) else lookup j w.jobs)
unfolding remove_pending contains visit_pending
remove_pending-jobs j [] w = refl
remove_pending-jobs j (k ∷ ks) w =
    remove_pending-jobs j ks (visit_pending k w)
    ∙ combined (k == j) (contains j ks) (lookup j w.jobs) (lookup j (visit_pending k w).jobs)
        (visited j k w)

abbrev released_domains : Dict Job → Time → World → World
released_domains before now w =
    range (λ v. v.domains) (λ k domain. put_domain k (release_domain before now domain))
      (keys w.domains) w

either_jobs :
    (b : Bool) (m : Dict Job) (u v : World)
    → u.jobs ≡ m
    → v.jobs ≡ m
    → (if b then u else v).jobs ≡ m
either_jobs true m u v p q = p
either_jobs false m u v p q = q

release_domains-jobs :
    (before : Dict Job) (now : Time) (w : World) → (released_domains before now w).jobs ≡ w.jobs
release_domains-jobs before now w =
    range_invariant (λ v. v.domains) (λ k domain. put_domain k (release_domain before now domain))
      (λ u. u.jobs ≡ w.jobs) (λ k v u e h. h) (keys w.domains) w refl

-- After the pending jobs were cleared, there is no queued and no failed job; every other job is as
-- it was, and none is new.
pub clear_pending_jobs_sound :
    (env : Env) (now : Time) (w : World) (k : Text)
    → lookup k (clear_pending_jobs env now w).0.jobs ≡ kept_job (lookup k w.jobs)
unfolding clear_pending_jobs add_audit
clear_pending_jobs_sound env now w k =
    let w1 = remove_pending (keys w.jobs) w in
    ap (lookup k) (
      either_jobs (ltb 0 (length (keep is_pending (values w.jobs)))) w1.jobs
        (add_audit env (bytes "warning") (bytes "jobs.cleared") (bytes "排队与失败任务已清除") []
          (released_domains w.jobs now w1))
        (released_domains w.jobs now w1) (release_domains-jobs w.jobs now w1)
        (release_domains-jobs w.jobs now w1))
    ∙ remove_pending-jobs k (keys w.jobs) w
    ∙ at_key (Bool-cases (contains k (keys w.jobs)))
  where
    at_key :
        (contains k (keys w.jobs) ≡ true) ⊎ (contains k (keys w.jobs) ≡ false)
        → (if contains k (keys w.jobs) then kept_job (lookup k w.jobs) else lookup k w.jobs)
          ≡ kept_job (lookup k w.jobs)
    at_key (inl t) = rw t refl
    at_key (inr f) = let gone = not-contains-keys k w.jobs f in rw (f, gone) refl
