-- ===== src/Lifecycle/Dispatch.antt =====
-- The jobs under failDispatch, when its job is still there and running, and under a change of the
-- state that leaves the jobs as they were.
use nginx_atlas.Agents.{fail_dispatch, free_node}
use nginx_atlas.Effects.{Env, World, add_audit, put_job}
use nginx_atlas.Lifecycle.Advance.{
  Advances, Evolves, Evolves-refl, KeepsAt-insert, Keyed, MayBecome,
}
use nginx_atlas.Lifecycle.Extends.{Extends, ExtendsAt, ExtendsAt-later, KeepsAt-ExtendsAt}
use nginx_atlas.Model.{Job, Time, failed, running, zero_job}
use nginx_atlas.Prelude.{
  Option-cases, Text, ap, arith, inl, inr, insert, lookup, refl, some, subst, sym, value_or, ◌+◌,
  ◌∙◌, ◌≡◌, ◌≤◌,
}
use nginx_atlas.Reports.{truncate}

fail-Advances :
    (current : Job) (message : Text) (now : Time)
    → current.status ≡ running
    → Advances current (record current { status = failed; error = message; finished_at = some now })
fail-Advances current message now h = record {
  same_id = refl;
  same_node = refl;
  same_domain = refl;
  same_type = refl;
  same_payload = refl;
  same_budget = refl;
  grows = omega arith;
  follows = subst (λ s. MayBecome s failed) (sym h) tt;
  budgeted = λ p. record { within = p.within; one_left = λ e. absurd (cc) };
}

module _ (env : Env) where
  free_node_lem :
      (node_id : Text) (w : World)
      → ((free_node env node_id w).jobs ≡ w.jobs) × ((free_node env node_id w).reads ≡ w.reads)
  unfolding free_node
  free_node_lem node_id w = elim (Option-cases (lookup node_id w.nodes)) [
    | inl n ↦ rw (n, free_node) (refl, refl)
    | inr (node, f) ↦ rw (f, free_node) (refl, refl)
  ]

  -- What failDispatch writes, if its job is there.
  pub dispatched :
      (job current : Job) (message : Text) (w : World)
      → lookup job.id w.jobs ≡ some current
      → ((fail_dispatch env job message w).jobs
          ≡ insert current.id
              (record current {
                status = failed;
                error = truncate message 2048;
                finished_at = some (env.clock w.reads);
              })
              w.jobs)
        × (w.reads ≤ (fail_dispatch env job message w).reads)
  unfolding fail_dispatch add_audit
  dispatched job current message w there =
      let ended = λ (u : Job).
        put_job u.id
          (record u {
            status = failed;
            error = truncate message 2048;
            finished_at = some (env.clock w.reads);
          })
          (record w { reads = w.reads + 1 }) in
      let found = value_or zero_job (lookup job.id w.jobs) in
      let (jobs, reads) = free_node_lem job.node_id (ended found) in
      (jobs ∙ ap (λ o. (ended (value_or zero_job o)).jobs) there, omega (arith, reads))

  pub fail_dispatch-Extends :
      (job current : Job) (message : Text) (w w' : World)
      → Keyed w.jobs
      → lookup job.id w.jobs ≡ some current
      → current.status ≡ running
      → fail_dispatch env job message w ≡ w'
      → Extends env w w'
  fail_dispatch-Extends job current message w w' keyed there h e =
      let (jobs, later) = dispatched job current message w there in
      let held : lookup current.id w.jobs ≡ some current =
        subst (λ k. lookup k w.jobs ≡ some current) (sym (keyed job.id current there)) there in
      let ended = fail-Advances current (truncate message 2048) (env.clock w.reads) h in
      subst (Extends env w) e (
        ExtendsAt-later
          (subst (λ m. ExtendsAt env w.jobs w.reads m w.reads) (sym jobs)
            (KeepsAt-ExtendsAt env (KeepsAt-insert w.reads current.id current _ keyed held ended)))
          later)

  pub elsewhere-Extends :
      (w w' : World)
      → Keyed w.jobs
      → ((k : Text) → lookup k w'.jobs ≡ lookup k w.jobs)
      → w.reads ≤ w'.reads
      → Extends env w w'
  elsewhere-Extends w w' keyed same later = KeepsAt-ExtendsAt env (record {
    keyed = λ k job e. keyed k job (sym (same k) ∙ e);
    evolves =
        λ k. subst (Evolves (lookup k w.jobs)) (sym (same k)) (Evolves-refl (lookup k w.jobs));
    no_new = λ k e. same k ∙ e;
    later = later;
  })
