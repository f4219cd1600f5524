-- ===== src/Lifecycle/Retries.antt =====
-- The jobs under handleRetryJob of internal/server/admin.go.
use nginx_atlas.Administration.{commit_retry, note_retry, retried_job, retry_found, retry_job}
use nginx_atlas.Effects.{
  Env, World, add_audit, bind-ok, conflict, err, id_error, ok, ok_inj, put_domain, put_job,
}
use nginx_atlas.Lifecycle.Adds.{AddsAt-ExtendsAt, AddsAt-insert, Sound}
use nginx_atlas.Lifecycle.Advance.{KeepsAt, KeepsAt-advance, MayBecome-refl}
use nginx_atlas.Lifecycle.Extends.{Extends, ExtendsAt-later, ExtendsAt-trans, KeepsAt-ExtendsAt}
use nginx_atlas.Model.{Domain, Job, Time, is_delete, is_failed}
use nginx_atlas.Prelude.{
  ==_iff, ==_refl, Bool-cases, Dict, Option, Option-cases, Text, [], ap, arith, bytes, false,
  if◌then◌else◌, inl, inr, insert, le_refl, lookup, lookup-insert, non_empty, none, not, refl, some,
  sym, true, ℕ, ◌+◌, ◌==◌, ◌||◌, ◌∙◌, ◌≡◌, ◌⊎◌,
}
use nginx_atlas.Removal.{is_live_node}
use nginx_atlas.SecureBox.{Box}
use nginx_atlas.Wire.{Coding, build_wire_job}

module _ (box : Box) (coding : Coding) (env : Env) where
  -- The parts of a retry that succeeds.
  retry_parts :
      (job_id : Text) (w w' : World) (retried : Job)
      → retry_job box coding env job_id w ≡ ok (retried, w')
      → (id : Text) × (job : Job) × (env.fresh_id w.reads (bytes "job") ≡ some id)
        × (lookup job_id w.jobs ≡ some job)
        × (commit_retry box coding env id
              (env.clock (w.reads + 1))
              job
              (record w { reads = w.reads + 2 })
            ≡ ok (retried, w'))
  unfolding retry_job retry_found
  retry_parts job_id w w' retried e = elim (Option-cases (env.fresh_id w.reads (bytes "job"))) [
    | inl n ↦ absurd (cc (rw (n, retry_job) at e))
    | inr (id, f) ↦ go id f (lookup job_id w.jobs) refl (rw (f, retry_job) at e)
  ]
    where
      go :
          (id : Text)
          → env.fresh_id w.reads (bytes "job") ≡ some id
          → (o : Option Job) → lookup job_id w.jobs ≡ o
          → retry_found box coding env id
              (env.clock (w.reads + 1))
              (record w { reads = w.reads + 2 })
              o
            ≡ ok (retried, w')
          → (id : Text) × (job : Job) × (env.fresh_id w.reads (bytes "job") ≡ some id)
            × (lookup job_id w.jobs ≡ some job)
            × (commit_retry box coding env id
                  (env.clock (w.reads + 1))
                  job
                  (record w { reads = w.reads + 2 })
                ≡ ok (retried, w'))
      go id f none g h = absurd (cc)
      go id f (some job) g h =
          elim (Bool-cases (not (is_failed job.status) || non_empty job.retry_job_id)) [
            | inl t ↦ absurd (cc (rw t at h))
            | inr n ↦
                elim (Bool-cases (is_live_node job.node_id (record w { reads = w.reads + 2 }))) [
                  | inl t ↦ (id, job, f, g, rw (n, t) at h)
                  | inr d ↦ absurd (cc (rw (n, d) at h))
                ]
          ]

  note_retry-jobs :
      (retried : Job) (now : Time) (w : World) → (note_retry retried now w).jobs ≡ w.jobs
  unfolding note_retry
  note_retry-jobs retried now w = go (lookup retried.domain_id w.domains)
    where
      go :
          (o : Option Domain)
          → (elim o as (λ x. World) [
            | none ↦ w
            | some found ↦
                let domain = record found {
                  last_job_id = retried.id;
                  last_error = [];
                  updated_at = now;
                } in
                put_domain domain.id
                  (if is_delete retried.type
                    then record domain { deleting = true; enabled = false }
                    else domain)
                  w
          ]).jobs
            ≡ w.jobs
      go none = refl
      go (some found) = refl

  note_retry-reads :
      (retried : Job) (now : Time) (w : World) → (note_retry retried now w).reads ≡ w.reads
  unfolding note_retry
  note_retry-reads retried now w = go (lookup retried.domain_id w.domains)
    where
      go :
          (o : Option Domain)
          → (elim o as (λ x. World) [
            | none ↦ w
            | some found ↦
                let domain = record found {
                  last_job_id = retried.id;
                  last_error = [];
                  updated_at = now;
                } in
                put_domain domain.id
                  (if is_delete retried.type
                    then record domain { deleting = true; enabled = false }
                    else domain)
                  w
          ]).reads
            ≡ w.reads
      go none = refl
      go (some found) = refl

  -- What the commit writes.
  commit_retry-jobs :
      (id : Text) (now : Time) (job : Job) (w w' : World) (retried : Job)
      → commit_retry box coding env id now job w ≡ ok (retried, w')
      → (retried ≡ retried_job id now job)
        × (w'.jobs
            ≡ insert id
                (retried_job id now job)
                (insert job.id (record job { retry_job_id = id }) w.jobs))
        × (w'.reads ≡ w.reads + 2)
  unfolding commit_retry add_audit retried_job
  commit_retry-jobs id now job w w' retried e =
      let (wired, f, g) =
        bind-ok (build_wire_job box env coding (retried_job id now job) w.state) _ e in
      let fresh = retried_job id now job in
      let linked = record job { retry_job_id = id } in
      let w1 = put_job fresh.id fresh (put_job linked.id linked w) in
      let outcome = ok_inj g in
      (
        ap (λ (q : Job × World). q.0) (sym outcome),
        ap (λ (q : Job × World). q.1.jobs) (sym outcome) ∙ note_retry-jobs fresh now w1,
        ap (λ (q : Job × World). q.1.reads) (sym outcome)
            ∙ ap (λ n. n + 2) (note_retry-reads fresh now w1),
      )

  module _ (job_id : Text) (w w' : World) (retried : Job) (sound : Sound env w.jobs w.reads)
      (e : retry_job box coding env job_id w ≡ ok (retried, w')) where
    linked-Keeps :
        (id : Text) (job : Job)
        → lookup job_id w.jobs ≡ some job
        → KeepsAt w.jobs w.reads (insert job.id (record job { retry_job_id = id }) w.jobs) w.reads
    linked-Keeps id job held =
        KeepsAt-advance w.reads job (record job { retry_job_id = id }) sound.keyed (job_id, held)
          (ground (arith, MayBecome-refl job.status))

    pub retry_job-Extends : Extends env w w'
    unfolding retried_job
    retry_job-Extends =
        let (id, job, drawn, held, commits) = retry_parts job_id w w' retried e in
        let now = env.clock (w.reads + 1) in
        let (same, jobs, reads) =
          commit_retry-jobs id now job (record w { reads = w.reads + 2 }) w' retried commits in
        let linked = linked-Keeps id job held in
        let gone =
          linked.no_new id (sound.unused w.reads (bytes "job") id (le_refl w.reads) drawn) in
        let added =
          AddsAt-insert w.reads (w.reads + 1) (retried_job id now job) linked.keyed gone
            (w.reads, bytes "job", omega arith, omega arith, drawn)
            (record { within = omega arith; one_left = λ h. ground arith }) in
        rw (jobs, reads)
          (ExtendsAt-later (ExtendsAt-trans (KeepsAt-ExtendsAt env linked) (AddsAt-ExtendsAt added))
            (omega arith))

overwritten :
    (id k : Text) (job fresh : Job) (m : Dict Job)
    → lookup id m ≡ none
    → lookup k m ≡ some job
    → job.id ≡ k
    → lookup k (insert id fresh (insert job.id (record job { retry_job_id = id }) m))
      ≡ some (record job { retry_job_id = id })
overwritten id k job fresh m gone held same =
    let apart : (id == k) ≡ false = elim (Bool-cases (id == k)) [
      | inl t ↦ absurd (cc ((==_iff id k).0 t, gone, held))
      | inr f ↦ f
    ] in
    let linked = record job { retry_job_id = id } in
    rw
      (
        lookup-insert id k fresh (insert job.id linked m),
        apart,
        lookup-insert job.id k linked m,
        same,
        ==_refl k,
      )
      refl

-- If every job stands under its id, no id to come is in use, and ids are not empty: after a failed
-- job was retried, a second retry of it is refused.
pub retry_job_once :
    (box : Box) (coding later_coding : Coding) (env later_env : Env) (job_id : Text) (w w' : World)
    (retried : Job)
    → Sound env w.jobs w.reads
    → ((n : ℕ) (p k : Text) → env.fresh_id n p ≡ some k → non_empty k ≡ true)
    → retry_job box coding env job_id w ≡ ok (retried, w')
    → (retry_job box later_coding later_env job_id w' ≡ err conflict)
      ⊎ (retry_job box later_coding later_env job_id w' ≡ err id_error)
unfolding retry_job retry_found
retry_job_once box coding later_coding env later_env job_id w w' retried sound full e =
    let (id, job, drawn, held, commits) = retry_parts box coding env job_id w w' retried e in
    let now = env.clock (w.reads + 1) in
    let (same, jobs, reads) =
      commit_retry-jobs box coding env id now job (record w { reads = w.reads + 2 }) w' retried
        commits in
    let gone = sound.unused w.reads (bytes "job") id (le_refl w.reads) drawn in
    let there : lookup job_id w'.jobs ≡ some (record job { retry_job_id = id }) =
      ap (lookup job_id) jobs
      ∙ overwritten id job_id job (retried_job id now job) w.jobs gone held
          (sound.keyed job_id job held) in
    elim (Option-cases (later_env.fresh_id w'.reads (bytes "job"))) [
      | inl n ↦ inr (rw (n, retry_job) refl)
      | inr (other, f) ↦
          inl (rw (f, there, full w.reads (bytes "job") id drawn, retry_job) (ground arith))
    ]
