-- ===== src/Store/Runs.antt =====
-- Transactions one after the other, against the states that their functions make of one another.
use nginx_atlas.Effects.{Result, err, ok}
use nginx_atlas.Model.{State}
use nginx_atlas.Prelude.{
  Bool, Bool-cases, List, [], ap, if◌then◌else◌, inl, inr, nat_eq, refl, subst, sym, true, ◌∙◌, ◌∷◌,
  ◌≡◌,
}
use nginx_atlas.Store.Defs.{Store, commit, normalize, update}

-- A transaction: whether the file can be written at its time, and its function.
abbrev pub Request : Type 0
Request = Bool × (State → Result State)

-- What Update promises for one request, and for a list of them.
abbrev pub effect : Request → State → State
effect (written, fn) state = elim (fn state) [
  | err e ↦ state
  | ok result ↦ if written then normalize result else state
]

abbrev pub effects : List Request → State → State
effects [] state = state
effects (request ∷ rest) state = effects rest (effect request state)

abbrev pub updates : (State → State → Bool) → List Request → Store → Store
updates same [] store = store
updates same ((written, fn) ∷ rest) store = updates same rest (update same written fn store).0

normalize_twice : (s : State) → normalize (normalize s) ≡ normalize s
unfolding normalize
normalize_twice s = elim (Bool-cases (nat_eq s.version 0)) [
  | inl t ↦ rw (t, normalize) refl
  | inr f ↦ rw (f, normalize) (rw (f, normalize) refl)
]

module _ (same : State → State → Bool) (same_sound : (a b : State) → same a b ≡ true → a ≡ b) where
  commit-effect :
      (written : Bool) (fn : State → Result State) (store : Store) (r : Result State)
      → normalize store.state ≡ store.state
      → fn store.state ≡ r
      → ((commit same written store r).0.state ≡ effect (written, fn) store.state)
        × (normalize (effect (written, fn) store.state) ≡ effect (written, fn) store.state)
  unfolding commit
  commit-effect written fn store (err e) clean f = rw f (refl, clean)
  commit-effect written fn store (ok result) clean f =
      elim (Bool-cases (same (normalize result) store.state)) [
        | inl t ↦
            let equal = same_sound (normalize result) store.state t in
            elim (Bool-cases written) [
              | inl v ↦ rw (f, t, v) (sym equal, normalize_twice result)
              | inr v ↦ rw (f, t, v) (refl, clean)
            ]
        | inr n ↦ elim (Bool-cases written) [
          | inl v ↦ rw (f, n, v) (refl, normalize_twice result)
          | inr v ↦ rw (f, n, v) (refl, clean)
        ]
      ]

  -- If reflect.DeepEqual answers yes on equal states alone, and the stored state is normalized:
  -- after any list of transactions the store holds what their functions make of one another's
  -- results, each normalized, where a function that fails, or whose result cannot be written, makes
  -- no change.
  pub updates_refine :
      (requests : List Request) (store : Store)
      → normalize store.state ≡ store.state
      → (updates same requests store).state ≡ effects requests store.state
  unfolding update
  updates_refine [] store clean = refl
  updates_refine ((written, fn) ∷ rest) store clean =
      let (here, clean') = commit-effect written fn store (fn store.state) clean refl in
      let after = ap (λ s. (commit same written store (fn s)).0.state) clean ∙ here in
      updates_refine rest (update same written fn store).0
        (subst (λ s. normalize s ≡ s) (sym after) clean')
      ∙ ap (effects rest) after
