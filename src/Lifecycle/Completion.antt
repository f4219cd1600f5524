-- ===== src/Lifecycle/Completion.antt =====
-- The jobs that completeSuccessfulJob adds.
use nginx_atlas.Agents.{
  applied_domain, apply_found, capture_domain, complete_apply, complete_by_type, complete_capture,
  complete_issue, complete_successful_job, complete_sync, enqueue_sync_jobs, issue_for_domain,
  issue_standalone, note_deployed,
}
use nginx_atlas.Effects.{
  Env, World, bind-ok, decode_error, enqueue_job, not_found, ok, ok_inj, put_certificate, require,
}
use nginx_atlas.Lifecycle.Adds.{
  Adds, AddsAt-Sound, AddsAt-refl, AddsAt-trans, Sound, Sound-later, enqueue_job-Adds,
}
use nginx_atlas.Lifecycle.Advance.{Keyed}
use nginx_atlas.Lifecycle.Extends.{Distinct}
use nginx_atlas.Model.{
  Certificate, Domain, Job, JobType, Time, apply_domain, capture_certificate, delete_domain,
  issue_certificate, other_job_type, reload_nginx, sync_certificate, update_atlas, update_system,
}
use nginx_atlas.Prelude.{
  Bool-cases, List, Option, Text, [], ap, arith, inl, inr, le_refl, lookup, non_empty, none, refl,
  some, subst, sym, ◌+◌, ◌∷◌, ◌≡◌,
}

module _ (env : Env) (apart : Distinct env) where
  -- A state with the same jobs, after a read of the clock perhaps.
  unchanged :
      (w v w' : World)
      → Keyed w.jobs
      → v.jobs ≡ w.jobs
      → v.reads ≡ w.reads
      → ok v ≡ ok w'
      → Adds env w w'
  unchanged w v w' keyed jobs reads e =
      subst (Adds env w) (ok_inj e)
        (rw (jobs, reads) (AddsAt-refl env w.jobs w.reads w.reads keyed (le_refl w.reads)))

  pub enqueue_sync_jobs-Adds :
      (domain_id certificate_id name : Text) (node_ids : List Text) (w w' : World)
      → Sound env w.jobs w.reads
      → enqueue_sync_jobs env domain_id certificate_id name node_ids w ≡ ok w'
      → Adds env w w'
  unfolding enqueue_sync_jobs
  enqueue_sync_jobs-Adds domain_id certificate_id name [] w w' sound e =
      subst (Adds env w) (ok_inj e)
        (AddsAt-refl env w.jobs w.reads w.reads sound.keyed (le_refl w.reads))
  enqueue_sync_jobs-Adds domain_id certificate_id name (node_id ∷ rest) w w' sound e =
      let (sent, f, g) = bind-ok (enqueue_job env node_id domain_id sync_certificate _ w) _ e in
      let (added, gone, there) =
        enqueue_job-Adds env node_id domain_id sync_certificate _ w sent.1 sent.0 sound f in
      AddsAt-trans added (
        enqueue_sync_jobs-Adds domain_id certificate_id name rest sent.1 w'
          (AddsAt-Sound added apart sound) g)

  issue_for_domain-Adds :
      (job : Job) (prepared : Certificate) (now : Time) (w w' : World)
      → Sound env w.jobs w.reads
      → issue_for_domain env job prepared now w ≡ ok w'
      → Adds env w w'
  unfolding issue_for_domain
  issue_for_domain-Adds job prepared now w w' sound e =
      let (domain, f, g) = bind-ok (require not_found (lookup job.domain_id w.domains)) _ e in
      let (sent, h, i) = bind-ok (enqueue_job env domain.node_id domain.id apply_domain _ w) _ g in
      let (added, gone, there) =
        enqueue_job-Adds env domain.node_id domain.id apply_domain _ w sent.1 sent.0 sound h in
      subst (Adds env w) (ok_inj i) added

  issue_standalone-Adds :
      (job : Job) (prepared : Certificate) (w w' : World)
      → Sound env w.jobs w.reads
      → issue_standalone env job prepared w ≡ ok w'
      → Adds env w w'
  unfolding issue_standalone
  issue_standalone-Adds job prepared w w' sound e =
      let (spec, f, g) = bind-ok (require decode_error (env.decode_issue job.payload)) _ e in
      enqueue_sync_jobs-Adds [] prepared.id prepared.domain _ w w' sound g

  complete_issue-Adds :
      (job : Job) (o : Option Certificate) (now : Time) (w w' : World)
      → Sound env w.jobs w.reads
      → complete_issue env job o now w ≡ ok w'
      → Adds env w w'
  unfolding complete_issue
  complete_issue-Adds job none now w w' sound e = absurd (cc)
  complete_issue-Adds job (some prepared) now w w' sound e =
      elim (Bool-cases (non_empty job.domain_id)) [
        | inl t ↦ issue_for_domain-Adds job prepared now w w' sound (rw (t, complete_issue) at e)
        | inr f ↦ issue_standalone-Adds job prepared w w' sound (rw (f, complete_issue) at e)
      ]

  -- The writes of a domain or a certificate leave the jobs alone.
  capture_domain-same :
      (job : Job) (prepared : Certificate) (now : Time) (w w' : World)
      → capture_domain env job prepared now w ≡ ok w'
      → (w'.jobs ≡ w.jobs) × (w'.reads ≡ w.reads)
  unfolding capture_domain
  capture_domain-same job prepared now w w' e = elim (Bool-cases (non_empty job.domain_id)) [
    | inl t ↦
        let (domain, f, g) =
          bind-ok (require not_found (lookup job.domain_id w.domains)) _
            (rw (t, capture_domain) at e) in
        let same = ok_inj g in (ap (λ u. u.jobs) (sym same), ap (λ u. u.reads) (sym same))
    | inr f ↦
        let same = ok_inj (rw (f, capture_domain) at e) in
        (ap (λ (u : World). u.jobs) (sym same), ap (λ (u : World). u.reads) (sym same))
  ]

  complete_capture-Adds :
      (job : Job) (o : Option Certificate) (now : Time) (w w' : World)
      → Sound env w.jobs w.reads
      → complete_capture env job o now w ≡ ok w'
      → Adds env w w'
  unfolding complete_capture
  complete_capture-Adds job none now w w' sound e = absurd (cc)
  complete_capture-Adds job (some prepared) now w w' sound e =
      let (spec, f, g) = bind-ok (require decode_error (env.decode_capture job.payload)) _ e in
      let (mid, h, i) = bind-ok (capture_domain env job prepared now w) _ g in
      let (jobs, reads) = capture_domain-same job prepared now w mid h in
      let sound' : Sound env mid.jobs mid.reads = rw (jobs, reads) sound in
      let added =
        enqueue_sync_jobs-Adds [] prepared.id prepared.domain spec.sync_node_ids mid w' sound' i in
      rw (jobs, reads) at added

  apply_found-Adds :
      (now : Time) (domain : Domain) (w w' : World)
      → Sound env w.jobs w.reads
      → apply_found env now domain w ≡ ok w'
      → Adds env w w'
  unfolding apply_found note_deployed
  apply_found-Adds now domain w w' sound e = elim (Bool-cases (non_empty domain.certificate_id)) [
    | inl t ↦
        enqueue_sync_jobs-Adds domain.id domain.certificate_id domain.name domain.sync_node_ids _ w'
          sound (rw (t, apply_found) at e)
    | inr n ↦ unchanged w _ w' sound.keyed refl refl (rw (n, apply_found) at e)
  ]

  complete_apply-Adds :
      (job : Job) (o : Option Certificate) (now : Time) (w w' : World)
      → Sound env w.jobs w.reads
      → complete_apply env job o now w ≡ ok w'
      → Adds env w w'
  unfolding complete_apply
  complete_apply-Adds job o now w w' sound e =
      let (found, f, g) = bind-ok (require not_found (lookup job.domain_id w.domains)) _ e in
      let (spec, h, i) = bind-ok (require decode_error (env.decode_apply job.payload)) _ g in
      apply_found-Adds now (applied_domain o now spec found) w w' sound i

  complete_sync-Adds :
      (job : Job) (now : Time) (w w' : World)
      → Sound env w.jobs w.reads
      → complete_sync env job now w ≡ ok w'
      → Adds env w w'
  unfolding complete_sync note_deployed
  complete_sync-Adds job now w w' sound e =
      let (spec, f, g) = bind-ok (require decode_error (env.decode_sync job.payload)) _ e in
      subst (Adds env w) (ok_inj g) (kept (lookup spec.certificate_id w.certificates))
    where
      kept :
          (o : Option Certificate)
          → Adds env w
              (elim o [ none ↦ w | some certificate ↦ note_deployed job.node_id now certificate w ])
      kept none = AddsAt-refl env w.jobs w.reads w.reads sound.keyed (le_refl w.reads)
      kept (some c) = AddsAt-refl env w.jobs w.reads w.reads sound.keyed (le_refl w.reads)

  complete_by_type-Adds :
      (type : JobType) (job : Job) (o : Option Certificate) (now : Time) (w w' : World)
      → Sound env w.jobs w.reads
      → complete_by_type env type job o now w ≡ ok w'
      → Adds env w w'
  unfolding complete_by_type
  complete_by_type-Adds issue_certificate job o now w w' sound e =
      complete_issue-Adds job o now w w' sound e
  complete_by_type-Adds capture_certificate job o now w w' sound e =
      complete_capture-Adds job o now w w' sound e
  complete_by_type-Adds apply_domain job o now w w' sound e =
      complete_apply-Adds job o now w w' sound e
  complete_by_type-Adds sync_certificate job o now w w' sound e =
      complete_sync-Adds job now w w' sound e
  complete_by_type-Adds delete_domain job o now w w' sound e =
      unchanged w _ w' sound.keyed refl refl e
  complete_by_type-Adds reload_nginx job o now w w' sound e =
      unchanged w _ w' sound.keyed refl refl e
  complete_by_type-Adds update_atlas job o now w w' sound e =
      unchanged w _ w' sound.keyed refl refl e
  complete_by_type-Adds update_system job o now w w' sound e =
      unchanged w _ w' sound.keyed refl refl e
  complete_by_type-Adds (other_job_type t) job o now w w' sound e =
      unchanged w _ w' sound.keyed refl refl e

  -- The completion of a job adds jobs at most.
  pub complete_successful_job-Adds :
      (job : Job) (o : Option Certificate) (w w' : World)
      → Sound env w.jobs w.reads
      → complete_successful_job env job o w ≡ ok w'
      → Adds env w w'
  unfolding complete_successful_job
  complete_successful_job-Adds job none w w' sound e =
      AddsAt-trans (AddsAt-refl env w.jobs w.reads (w.reads + 1) sound.keyed (omega arith)) (
        complete_by_type-Adds job.type job none (env.clock w.reads)
          (record w { reads = w.reads + 1 }) w' (Sound-later sound (omega arith)) e)
  complete_successful_job-Adds job (some c) w w' sound e =
      AddsAt-trans (AddsAt-refl env w.jobs w.reads (w.reads + 1) sound.keyed (omega arith)) (
        complete_by_type-Adds job.type job (some c) (env.clock w.reads)
          (put_certificate c.id c (record w { reads = w.reads + 1 })) w'
          (Sound-later sound (omega arith)) e)
