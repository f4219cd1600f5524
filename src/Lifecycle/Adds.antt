-- ===== src/Lifecycle/Adds.antt =====
-- Operations that leave the jobs that are there alone, and add queued ones: enqueueJob, and loops
-- of it.
use nginx_atlas.Effects.{Env, World, enqueue_job, fresh_job, ok, ok_inj, put_job}
use nginx_atlas.Lifecycle.Advance.{Advances-refl, Evolves, InBudget, Keyed, Keyed-insert}
use nginx_atlas.Lifecycle.Extends.{
  Distinct, Drawn, ExtendsAt, ExtendsAt-Unused, ExtendsAt-trans, Unused,
}
use nginx_atlas.Model.{Job, JobType}
use nginx_atlas.Prelude.{
  ==_iff, ==_refl, Bool-cases, Dict, Option, Option-cases, Text, arith, bytes, false, inl, inr,
  insert, le_refl, le_trans, lookup, lookup-insert, none, refl, some, some_inj, subst, true, ℕ, ◌+◌,
  ◌==◌, ◌≡◌, ◌≤◌, ◌⊎◌,
}
use nginx_atlas.Protocol.{JobSpec}

pub record AddsAt (env : Env) (m : Dict Job) (r : ℕ) (m' : Dict Job) (r' : ℕ) : Type 0 where
  pub keyed : Keyed m'
  pub same : (k : Text) (a : Job) → lookup k m ≡ some a → lookup k m' ≡ some a
  pub drawn : (k : Text) → lookup k m ≡ none → (lookup k m' ≡ none) ⊎ Drawn env r r' k
  pub in_budget : (k : Text) (b : Job) → lookup k m ≡ none → lookup k m' ≡ some b → InBudget b
  pub later : r ≤ r'

abbrev pub Adds : Env → World → World → Type 0
Adds env w w' = AddsAt env w.jobs w.reads w'.jobs w'.reads

-- What an operation may rely on: jobs stand under their ids, and no id to come is in use.
pub record Sound (env : Env) (m : Dict Job) (r : ℕ) : Type 0 where
  pub keyed : Keyed m
  pub unused : Unused env m r

module _ {env : Env} {m m' : Dict Job} {r r' : ℕ} (p : AddsAt env m r m' r') where
  same-Evolves : (k : Text) (o : Option Job) → lookup k m ≡ o → Evolves o (lookup k m')
  same-Evolves k none e = tt
  same-Evolves k (some a) e = rw (p.same k a e) (Advances-refl a)

  pub AddsAt-ExtendsAt : ExtendsAt env m r m' r'
  AddsAt-ExtendsAt = record {
    keyed = p.keyed;
    evolves = λ k. same-Evolves k (lookup k m) refl;
    drawn = p.drawn;
    in_budget = p.in_budget;
    later = p.later;
  }

  pub AddsAt-Sound : Distinct env → Sound env m r → Sound env m' r'
  AddsAt-Sound apart sound = record {
    keyed = p.keyed;
    unused = ExtendsAt-Unused AddsAt-ExtendsAt apart sound.unused;
  }

pub Sound-later : {env : Env} {m : Dict Job} {r r' : ℕ} → Sound env m r → r ≤ r' → Sound env m r'
Sound-later sound l = record {
  keyed = sound.keyed;
  unused = λ n p k from e. sound.unused n p k (le_trans l from) e;
}

pub AddsAt-refl : (env : Env) (m : Dict Job) (r r' : ℕ) → Keyed m → r ≤ r' → AddsAt env m r m r'
AddsAt-refl env m r r' h l = record {
  keyed = h;
  same = λ k a e. e;
  drawn = λ k e. inl e;
  in_budget = λ k b e f. absurd (cc (e, f));
  later = l;
}

pub AddsAt-trans :
    {env : Env} {m m' m'' : Dict Job} {r r' r'' : ℕ}
    → AddsAt env m r m' r'
    → AddsAt env m' r' m'' r''
    → AddsAt env m r m'' r''
AddsAt-trans {env} {m} {m'} p q =
    let both = ExtendsAt-trans (AddsAt-ExtendsAt p) (AddsAt-ExtendsAt q) in
    record {
      keyed = q.keyed;
      same = λ k a e. q.same k a (p.same k a e);
      drawn = both.drawn;
      in_budget = both.in_budget;
      later = both.later;
    }

-- A new job under its id.
pub AddsAt-insert :
    {env : Env} {m : Dict Job} (r r' : ℕ) (job : Job)
    → Keyed m
    → lookup job.id m ≡ none
    → Drawn env r r' job.id
    → InBudget job
    → AddsAt env m r (insert job.id job m) r'
AddsAt-insert {env} {m} r r' job keyed gone draw budget = record {
  keyed = Keyed-insert m job.id job keyed refl;
  same = λ k a e. ground (arith, lookup-insert job.id k job m, ==_iff job.id k);
  drawn = λ k e. at_key k e (Bool-cases (job.id == k));
  in_budget = λ k b e f. new_only k b e (Bool-cases (job.id == k)) f;
  later = omega (arith, draw);
}
  where
    at_key :
        (k : Text)
        → lookup k m ≡ none
        → ((job.id == k) ≡ true) ⊎ ((job.id == k) ≡ false)
        → (lookup k (insert job.id job m) ≡ none) ⊎ Drawn env r r' k
    at_key k e (inl t) = inr (subst (Drawn env r r') ((==_iff job.id k).0 t) draw)
    at_key k e (inr f) = inl (rw (lookup-insert job.id k job m, f) e)

    new_only :
        (k : Text) (b : Job)
        → lookup k m ≡ none
        → ((job.id == k) ≡ true) ⊎ ((job.id == k) ≡ false)
        → lookup k (insert job.id job m) ≡ some b
        → InBudget b
    new_only k b e (inl t) f =
        subst InBudget (some_inj (rw (lookup-insert job.id k job m, t) at f)) budget
    new_only k b e (inr n) f = absurd (cc (rw (lookup-insert job.id k job m, n) at f, e))

module _ (env : Env) (node_id domain_id : Text) (type : JobType) (spec : JobSpec) where
  -- enqueueJob adds the job that it returns.
  pub enqueue_job-Adds :
      (w w' : World) (job : Job)
      → Sound env w.jobs w.reads
      → enqueue_job env node_id domain_id type spec w ≡ ok (job, w')
      → Adds env w w' × (lookup job.id w.jobs ≡ none) × (lookup job.id w'.jobs ≡ some job)
  unfolding enqueue_job
  enqueue_job-Adds w w' job sound e = elim (Option-cases (env.fresh_id w.reads (bytes "job"))) [
    | inl n ↦ absurd (cc (rw (n, enqueue_job) at e))
    | inr (id, f) ↦ elim (Option-cases (env.encode spec)) [
      | inl n ↦ absurd (cc (rw (f, n, enqueue_job) at e))
      | inr (payload, g) ↦ added id payload f (ok_inj (rw (f, g, enqueue_job) at e))
    ]
  ]
    where
      added :
          (id payload : Text)
          → env.fresh_id w.reads (bytes "job") ≡ some id
          → let made = fresh_job id node_id domain_id type payload (env.clock (w.reads + 1)) in
            let q : Job × World = (made, put_job id made (record w { reads = w.reads + 2 })) in
            q ≡ (job, w')
            → Adds env w w' × (lookup job.id w.jobs ≡ none) × (lookup job.id w'.jobs ≡ some job)
      added id payload f e =
          let made = fresh_job id node_id domain_id type payload (env.clock (w.reads + 1)) in
          let gone = sound.unused w.reads (bytes "job") id (le_refl w.reads) f in
          subst
            (λ (q : Job × World).
              Adds env w q.1 × (lookup q.0.id w.jobs ≡ none) × (lookup q.0.id q.1.jobs ≡ some q.0))
            e
            (
              AddsAt-insert w.reads (w.reads + 2) made sound.keyed gone
                  (w.reads, bytes "job", omega arith, omega arith, f)
                  (record { within = omega arith; one_left = λ h. omega arith }),
              gone,
              rw (lookup-insert id id made w.jobs, ==_refl id) refl,
            )
