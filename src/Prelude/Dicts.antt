-- ===== src/Prelude/Dicts.antt =====
-- Go maps with string keys as association lists: the order of the list is the order in which a
-- range visits the keys, which a theorem over every list leaves open.
use mathlib.Core.Path.{◌≡◌, refl, sym, ap, subst, ◌∙◌}
use mathlib.Core.Logic.{◌⊎◌, inl, inr}
use mathlib.Core.Bool.{false, true}
use mathlib.Core.Option.{Option, none, some}
use mathlib.Core.List.{List, [], ◌∷◌}
use native.Mathlib.Omega.{arith}
use nginx_atlas.Prelude.Tests.{Bool-cases, if◌then◌else◌, some_inj}
use nginx_atlas.Prelude.Lists.{All}
use nginx_atlas.Prelude.Texts.{Text, ◌==◌, ==_iff, contains}

abbrev pub Dict {ℓ} : Type ℓ → Type ℓ
Dict V = List (Text × V)

module _ {ℓ} {V : Type ℓ} where
  unfoldable pub delete : Text → Dict V → Dict V
  delete key [] = []
  delete key (entry ∷ rest) = if entry.0 == key then delete key rest else entry ∷ delete key rest

  unfoldable pub lookup : Text → Dict V → Option V
  lookup key [] = none
  lookup key (entry ∷ rest) = if entry.0 == key then some entry.1 else lookup key rest

  -- A key that is there keeps its place.
  unfoldable pub insert : Text → V → Dict V → Dict V
  insert key value [] = (key, value) ∷ []
  insert key value (entry ∷ rest) =
      if entry.0 == key then (key, value) ∷ rest else entry ∷ insert key value rest

  unfoldable pub keys : Dict V → List Text
  keys [] = []
  keys ((j, w) ∷ m) = j ∷ keys m

  -- The values that the map holds at the keys, in their order.
  unfoldable pub values_at : List Text → Dict V → List V
  values_at [] m = []
  values_at (k ∷ ks) m =
      let rest = values_at ks m in elim (lookup k m) [ none ↦ rest | some v ↦ v ∷ rest ]

  -- What a range over the map visits.
  unfoldable pub values : Dict V → List V
  values m = values_at (keys m) m

  pub lookup-delete :
      (key other : Text) (m : Dict V)
      → lookup other (delete key m) ≡ (if key == other then none else lookup other m)
  unfolding lookup delete
  lookup-delete key other [] = ground arith
  lookup-delete key other (entry ∷ rest) = ground (
    arith,
    lookup-delete key other rest,
    ==_iff entry.0 other,
    ==_iff entry.0 key,
    ==_iff key other,
  )

  pub lookup-insert :
      (key other : Text) (value : V) (m : Dict V)
      → lookup other (insert key value m) ≡ (if key == other then some value else lookup other m)
  unfolding lookup insert
  lookup-insert key other value [] = refl
  lookup-insert key other value (entry ∷ rest) = ground (
    arith,
    lookup-insert key other value rest,
    ==_iff entry.0 other,
    ==_iff entry.0 key,
    ==_iff key other,
  )

  pub contains-keys :
      (k : Text) (m : Dict V) {v : V} → lookup k m ≡ some v → contains k (keys m) ≡ true
  unfolding lookup keys contains
  contains-keys k [] h = cc
  contains-keys k ((j, w) ∷ m) {v} h = ground (arith, contains-keys k m {v = v})

  -- A value that stands somewhere in the map.
  abbrev pub Held : Dict V → V → Type ℓ
  Held m v = (k : Text) × (lookup k m ≡ some v)

  pub All-values_at : (ks : List Text) (m : Dict V) → All (Held m) (values_at ks m)
  unfolding values_at
  All-values_at [] m = tt
  All-values_at (k ∷ ks) m = go (All-values_at ks m) (lookup k m) refl
    where
      go :
          All (Held m) (values_at ks m)
          → (o : Option V) → lookup k m ≡ o
          → All (Held m) (elim o [ none ↦ values_at ks m | some v ↦ v ∷ values_at ks m ])
      go rest none e = rest
      go rest (some v) e = ((k, e), rest)

  pub All-values : (m : Dict V) → All (Held m) (values m)
  unfolding values
  All-values m = All-values_at (keys m) m

  All-lookup_at :
      (P : V → Type ℓ) (ks : List Text) (m : Dict V) (k : Text) (v : V)
      → All P (values_at ks m)
      → contains k ks ≡ true
      → lookup k m ≡ some v
      → P v
  unfolding values_at contains
  All-lookup_at P [] m k v h c e = absurd (cc)
  All-lookup_at P (j ∷ js) m k v h c e =
      go (lookup j m) refl h (Bool-cases (j == k)) (All-lookup_at P js m k v)
    where
      go :
          (o : Option V)
          → lookup j m ≡ o
          → All P (elim o [ none ↦ values_at js m | some u ↦ u ∷ values_at js m ])
          → ((j == k) ≡ true) ⊎ ((j == k) ≡ false)
          → (All P (values_at js m) → contains k js ≡ true → lookup k m ≡ some v → P v)
          → P v
      go none f q (inl t) ih = absurd (cc ((==_iff j k).0 t))
      go none f q (inr t) ih = ih q (rw t at c) e
      go (some u) f q (inl t) ih =
          subst P (some_inj (sym f ∙ ap (λ x. lookup x m) ((==_iff j k).0 t) ∙ e)) q.0
      go (some u) f q (inr t) ih = ih q.1 (rw t at c) e

  -- What holds of all that a range visits holds at every key.
  pub All-lookup :
      (P : V → Type ℓ) (m : Dict V) (k : Text) (v : V)
      → All P (values m)
      → lookup k m ≡ some v
      → P v
  unfolding values
  All-lookup P m k v h e = All-lookup_at P (keys m) m k v h (contains-keys k m e) e
