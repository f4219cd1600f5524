-- ===== src/Lifecycle/Advance.antt =====
-- The relation of a job to a later state of it, and of a map of jobs to a later one.
use nginx_atlas.Effects.{World}
use nginx_atlas.Model.{Job, JobStatus, failed, other_status, queued, running, succeeded}
use nginx_atlas.Prelude.{
  ==_iff, Bool-cases, Dict, Held, Option, Text, arith, false, if◌then◌else◌, inl, inr, insert,
  lookup, lookup-insert, none, refl, some, subst, sym, true, ℕ, ◌<◌, ◌==◌, ◌∙◌, ◌≡◌, ◌≤◌, ◌⊎◌,
}
use native.Mathlib.Nat.{le_refl, le_trans}

-- Which status may follow: a job that is queued or running may come to any of the four, and one
-- that is done stays as it is.

abbrev pub MayBecome : JobStatus → JobStatus → Type 0
MayBecome queued (other_status s) = ⊥
MayBecome queued _ = Unit
MayBecome running (other_status s) = ⊥
MayBecome running _ = Unit
MayBecome succeeded t = t ≡ succeeded
MayBecome failed t = t ≡ failed
MayBecome (other_status s) t = t ≡ other_status s

-- The attempts of a job: they are within its budget, with one left while it is queued.
pub record InBudget (job : Job) : Type 0 where
  pub within : job.attempts ≤ job.max_attempts
  pub one_left : job.status ≡ queued → job.attempts < job.max_attempts

pub record Advances (a b : Job) : Type 0 where
  pub same_id : b.id ≡ a.id
  pub same_node : b.node_id ≡ a.node_id
  pub same_domain : b.domain_id ≡ a.domain_id
  pub same_type : b.type ≡ a.type
  pub same_payload : b.payload ≡ a.payload
  pub same_budget : b.max_attempts ≡ a.max_attempts
  pub grows : a.attempts ≤ b.attempts
  pub follows : MayBecome a.status b.status
  pub budgeted : InBudget a → InBudget b

pub MayBecome-refl : (s : JobStatus) → MayBecome s s
MayBecome-refl queued = tt
MayBecome-refl running = tt
MayBecome-refl succeeded = refl
MayBecome-refl failed = refl
MayBecome-refl (other_status s) = refl

MayBecome-trans : (r s t : JobStatus) → MayBecome r s → MayBecome s t → MayBecome r t
MayBecome-trans succeeded s t p q = rw p at q
MayBecome-trans failed s t p q = rw p at q
MayBecome-trans (other_status u) s t p q = rw p at q
MayBecome-trans queued s t p q = ground arith
MayBecome-trans running s t p q = ground arith

pub Advances-refl : (a : Job) → Advances a a
Advances-refl a = record {
  same_id = refl;
  same_node = refl;
  same_domain = refl;
  same_type = refl;
  same_payload = refl;
  same_budget = refl;
  grows = omega arith;
  follows = MayBecome-refl a.status;
  budgeted = λ h. h;
}

pub Advances-trans : {a b c : Job} → Advances a b → Advances b c → Advances a c
Advances-trans {a} {b} {c} p q = record {
  same_id = q.same_id ∙ p.same_id;
  same_node = q.same_node ∙ p.same_node;
  same_domain = q.same_domain ∙ p.same_domain;
  same_type = q.same_type ∙ p.same_type;
  same_payload = q.same_payload ∙ p.same_payload;
  same_budget = q.same_budget ∙ p.same_budget;
  grows = omega arith;
  follows = MayBecome-trans a.status b.status c.status p.follows q.follows;
  budgeted = λ h. q.budgeted (p.budgeted h);
}

-- At one key: a job is never lost, and where there was none one may come.
abbrev pub Evolves : Option Job → Option Job → Type 0
Evolves none o = Unit
Evolves (some a) none = ⊥
Evolves (some a) (some b) = Advances a b

pub Evolves-refl : (o : Option Job) → Evolves o o
Evolves-refl none = tt
Evolves-refl (some a) = Advances-refl a

pub Evolves-trans : (o p q : Option Job) → Evolves o p → Evolves p q → Evolves o q
Evolves-trans none p q h k = tt
Evolves-trans (some a) none q h k = absurd h
Evolves-trans (some a) (some b) none h k = absurd k
Evolves-trans (some a) (some b) (some c) h k = Advances-trans h k

-- Every job stands under its id.
abbrev pub Keyed : Dict Job → Type 0
Keyed m = (k : Text) (job : Job) → lookup k m ≡ some job → job.id ≡ k

-- From a map of jobs, at a number of reads of the environment, to a later one: the jobs evolve,
-- still stand under their ids, and no key is new.
pub record KeepsAt (m : Dict Job) (r : ℕ) (m' : Dict Job) (r' : ℕ) : Type 0 where
  pub keyed : Keyed m'
  pub evolves : (k : Text) → Evolves (lookup k m) (lookup k m')
  pub no_new : (k : Text) → lookup k m ≡ none → lookup k m' ≡ none
  pub later : r ≤ r'

abbrev pub Keeps : World → World → Type 0
Keeps w w' = KeepsAt w.jobs w.reads w'.jobs w'.reads

pub KeepsAt-refl : (m : Dict Job) (r r' : ℕ) → Keyed m → r ≤ r' → KeepsAt m r m r'
KeepsAt-refl m r r' h l = record {
  keyed = h;
  evolves = λ k. Evolves-refl (lookup k m);
  no_new = λ k e. e;
  later = l;
}

pub KeepsAt-trans :
    {m m' m'' : Dict Job} {r r' r'' : ℕ}
    → KeepsAt m r m' r'
    → KeepsAt m' r' m'' r''
    → KeepsAt m r m'' r''
KeepsAt-trans {m} {m'} {m''} p q = record {
  keyed = q.keyed;
  evolves =
      λ k. Evolves-trans (lookup k m) (lookup k m') (lookup k m'') (p.evolves k) (q.evolves k);
  no_new = λ k e. q.no_new k (p.no_new k e);
  later = le_trans p.later q.later;
}

pub KeepsAt-later :
    {m m' : Dict Job} {r r' r'' : ℕ} → KeepsAt m r m' r' → r' ≤ r'' → KeepsAt m r m' r''
KeepsAt-later p l = record {
  keyed = p.keyed;
  evolves = p.evolves;
  no_new = p.no_new;
  later = le_trans p.later l;
}

-- A write under the key of a job: the keys stay the ids.
pub Keyed-insert : (m : Dict Job) (k : Text) (b : Job) → Keyed m → b.id ≡ k → Keyed (insert k b m)
Keyed-insert m k b h same j job e = at_key (Bool-cases (k == j)) (sym (lookup-insert k j b m) ∙ e)
  where
    at_key :
        ((k == j) ≡ true) ⊎ ((k == j) ≡ false)
        → (if k == j then some b else lookup j m) ≡ some job
        → job.id ≡ j
    at_key (inl t) p = ground (arith, ==_iff k j)
    at_key (inr f) p = h j job (rw f at p)

-- And the jobs evolve, if what stood there evolves to what is written.
pub Evolves-insert :
    (m : Dict Job) (k : Text) (b : Job)
    → Evolves (lookup k m) (some b)
    → (j : Text) → Evolves (lookup j m) (lookup j (insert k b m))
Evolves-insert m k b step j = at_key (Bool-cases (k == j))
  where
    at_key : ((k == j) ≡ true) ⊎ ((k == j) ≡ false) → Evolves (lookup j m) (lookup j (insert k b m))
    at_key (inl t) = rw (lookup-insert k j b m, t) (rw ((==_iff k j).0 t) at step)
    at_key (inr f) = rw (lookup-insert k j b m, f) (Evolves-refl (lookup j m))

no_new-insert :
    (m : Dict Job) (k : Text) (a b : Job)
    → lookup k m ≡ some a
    → (j : Text) → lookup j m ≡ none
    → lookup j (insert k b m) ≡ none
no_new-insert m k a b e j f = ground (arith, lookup-insert k j b m, ==_iff k j)

Evolves-at : {a b : Job} (o : Option Job) → o ≡ some a → Advances a b → Evolves o (some b)
Evolves-at {a} {b} o e step = subst (λ p. Evolves p (some b)) (sym e) step

-- A write of the next state of a job that stands under a key.
pub KeepsAt-insert :
    {m : Dict Job} (r : ℕ) (k : Text) (a b : Job)
    → Keyed m
    → lookup k m ≡ some a
    → Advances a b
    → KeepsAt m r (insert k b m) r
KeepsAt-insert {m} r k a b keyed e step = record {
  keyed = Keyed-insert m k b keyed (step.same_id ∙ keyed k a e);
  evolves = Evolves-insert m k b (Evolves-at (lookup k m) e step);
  no_new = no_new-insert m k a b e;
  later = le_refl r;
}

-- The job held under its id.
pub Held-at : (m : Dict Job) (job : Job) → Keyed m → Held m job → lookup job.id m ≡ some job
Held-at m job keyed (k, e) = subst (λ j. lookup j m ≡ some job) (sym (keyed k job e)) e

-- The same write under the job's own id.
pub KeepsAt-advance :
    {m : Dict Job} (r : ℕ) (a b : Job)
    → Keyed m
    → Held m a
    → Advances a b
    → KeepsAt m r (insert b.id b m) r
KeepsAt-advance {m} r a b keyed held step =
    KeepsAt-insert r b.id a b keyed
      (subst (λ k. lookup k m ≡ some a) (sym step.same_id) (Held-at m a keyed held)) step
