-- ===== src/Lifecycle/Extends.antt =====
-- The relation of a map of jobs to a later one to which jobs may have been added, under the
-- identifiers that the random source answered in the meantime.
use nginx_atlas.Effects.{AllAt, Env, World}
use nginx_atlas.Lifecycle.Advance.{
  Advances, Evolves, Evolves-trans, InBudget, KeepsAt, KeepsAt-refl, Keyed,
}
use nginx_atlas.Model.{Job}
use nginx_atlas.Prelude.{
  Dict, Option, Text, all, arith, inl, inr, le_trans, lookup, none, refl, some, ℕ, ◌<◌, ◌≡◌, ◌≤◌,
  ◌⊎◌,
}

-- The random source never answers twice with one identifier.
abbrev pub Distinct : Env → Type 0
Distinct env =
    (n n' : ℕ) (p p' k : Text) → env.fresh_id n p ≡ some k → env.fresh_id n' p' ≡ some k → n ≡ n'

-- No identifier that is still to come is in use.
abbrev pub Unused : Env → Dict Job → ℕ → Type 0
Unused env m r = (n : ℕ) (p k : Text) → r ≤ n → env.fresh_id n p ≡ some k → lookup k m ≡ none

-- The identifier was answered at a read from the first number on and before the second.
abbrev pub Drawn : Env → ℕ → ℕ → Text → Type 0
Drawn env r r' k = (n : ℕ) × (p : Text) × (r ≤ n) × (n < r') × (env.fresh_id n p ≡ some k)

pub record ExtendsAt (env : Env) (m : Dict Job) (r : ℕ) (m' : Dict Job) (r' : ℕ) : Type 0 where
  pub keyed : Keyed m'
  pub evolves : (k : Text) → Evolves (lookup k m) (lookup k m')
  pub drawn : (k : Text) → lookup k m ≡ none → (lookup k m' ≡ none) ⊎ Drawn env r r' k
  pub in_budget : (k : Text) (b : Job) → lookup k m ≡ none → lookup k m' ≡ some b → InBudget b
  pub later : r ≤ r'

abbrev pub Extends : Env → World → World → Type 0
Extends env w w' = ExtendsAt env w.jobs w.reads w'.jobs w'.reads

pub KeepsAt-ExtendsAt :
    (env : Env) {m m' : Dict Job} {r r' : ℕ} → KeepsAt m r m' r' → ExtendsAt env m r m' r'
KeepsAt-ExtendsAt env p = record {
  keyed = p.keyed;
  evolves = p.evolves;
  drawn = λ k e. inl (p.no_new k e);
  in_budget = λ k b e f. absurd (cc (p.no_new k e, f));
  later = p.later;
}

pub ExtendsAt-refl :
    (env : Env) (m : Dict Job) (r r' : ℕ) → Keyed m → r ≤ r' → ExtendsAt env m r m r'
ExtendsAt-refl env m r r' h l = KeepsAt-ExtendsAt env (KeepsAt-refl m r r' h l)

module _ {env : Env} {m m' m'' : Dict Job} {r r' r'' : ℕ} (p : ExtendsAt env m r m' r')
    (q : ExtendsAt env m' r' m'' r'') where
  Drawn-later : (k : Text) → Drawn env r r' k → Drawn env r r'' k
  Drawn-later k (n, prefix, from, to, e) = (n, prefix, from, omega (arith, q.later), e)

  Drawn-before : (k : Text) → Drawn env r' r'' k → Drawn env r r'' k
  Drawn-before k (n, prefix, from, to, e) = (n, prefix, omega (arith, p.later), to, e)

  trans-Drawn : (k : Text) → lookup k m ≡ none → (lookup k m'' ≡ none) ⊎ Drawn env r r'' k
  trans-Drawn k e = elim (p.drawn k e) [
    | inr d ↦ inr (Drawn-later k d)
    | inl f ↦ elim (q.drawn k f) [ inl g ↦ inl g | inr d ↦ inr (Drawn-before k d) ]
  ]

  trans-InBudget : (k : Text) (b : Job) → lookup k m ≡ none → lookup k m'' ≡ some b → InBudget b
  trans-InBudget k b e f = go (lookup k m') refl (q.evolves k)
    where
      go : (o : Option Job) → lookup k m' ≡ o → Evolves (lookup k m') (lookup k m'') → InBudget b
      go none g step = q.in_budget k b g f
      go (some a) g step =
          let next : Advances a b = rw (g, f) at step in next.budgeted (p.in_budget k a e g)

  pub ExtendsAt-trans : ExtendsAt env m r m'' r''
  ExtendsAt-trans = record {
    keyed = q.keyed;
    evolves =
        λ k. Evolves-trans (lookup k m) (lookup k m') (lookup k m'') (p.evolves k) (q.evolves k);
    drawn = trans-Drawn;
    in_budget = trans-InBudget;
    later = le_trans p.later q.later;
  }

module _ {env : Env} {m m' : Dict Job} {r r' : ℕ} (p : ExtendsAt env m r m' r') where
  pub ExtendsAt-Unused : Distinct env → Unused env m r → Unused env m' r'
  ExtendsAt-Unused apart unused n prefix k l e =
      elim (p.drawn k (unused n prefix k (le_trans p.later l) e)) [
        | inl f ↦ f
        | inr (n', prefix', from, to, f) ↦ absurd (omega (arith, apart n n' prefix prefix' k e f))
      ]

  pub ExtendsAt-InBudget : AllAt InBudget m → AllAt InBudget m'
  ExtendsAt-InBudget all k b e = go (lookup k m) refl (p.evolves k)
    where
      go : (o : Option Job) → lookup k m ≡ o → Evolves (lookup k m) (lookup k m') → InBudget b
      go none g step = p.in_budget k b g e
      go (some a) g step = let next : Advances a b = rw (g, e) at step in next.budgeted (all k a g)

  pub ExtendsAt-later : {r'' : ℕ} → r' ≤ r'' → ExtendsAt env m r m' r''
  ExtendsAt-later l = ExtendsAt-trans p (ExtendsAt-refl env m' r' _ p.keyed l)
