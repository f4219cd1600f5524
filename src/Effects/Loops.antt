-- ===== src/Effects/Loops.antt =====
-- Rules for the loops over the maps of the state.
use nginx_atlas.Effects.Worlds.{World, range}
use nginx_atlas.Prelude.{
  ==_iff, ==_refl, Bool-cases, Dict, List, Option, Text, [], ap, contains, contains-keys, false,
  if◌then◌else◌, inl, inr, insert, keys, lookup, lookup-insert, none, refl, some, some_inj, subst,
  sym, true, ◌==◌, ◌∙◌, ◌∷◌, ◌≡◌, ◌⊎◌,
}

-- Every value of a map.
abbrev pub AllAt {ℓ κ} : {V : Type ℓ} → (V → Type κ) → Dict V → Type (ℓ ⊔ κ)
AllAt {V} Q m = (k : Text) (v : V) → lookup k m ≡ some v → Q v

pub AllAt-insert {ℓ κ} :
    {V : Type ℓ} (Q : V → Type κ) (m : Dict V) (k : Text) (v : V)
    → AllAt Q m
    → Q v
    → AllAt Q (insert k v m)
AllAt-insert Q m k v h q j u e = at_key (Bool-cases (k == j)) (sym (lookup-insert k j v m) ∙ e)
  where
    at_key :
        ((k == j) ≡ true) ⊎ ((k == j) ≡ false)
        → (if k == j then some v else lookup j m) ≡ some u
        → Q u
    at_key (inl t) p = subst Q (some_inj (rw t at p)) q
    at_key (inr f) p = h j u (rw f at p)

module _ {V : Type 0} (field : World → Dict V) (body : Text → V → World → World) where
  abbrev pub visit : Text → World → World
  visit k w = elim (lookup k (field w)) [ none ↦ w | some v ↦ body k v w ]

  -- What every round stays, the loop stays.
  pub range_invariant {κ} :
      (P : World → Type κ)
      → ((k : Text) (v : V) (w : World) → lookup k (field w) ≡ some v → P w → P (body k v w))
      → (ks : List Text) (w : World) → P w
      → P (range field body ks w)
  unfolding range
  range_invariant P stay [] w h = h
  range_invariant P stay (k ∷ ks) w h =
      range_invariant P stay ks (visit k w) (round (lookup k (field w)) refl)
    where
      round :
          (o : Option V) → lookup k (field w) ≡ o → P (elim o [ none ↦ w | some v ↦ body k v w ])
      round none e = h
      round (some v) e = stay k v w e h

  -- What a round establishes at its key, and every round stays at each key, holds at all keys
  -- when the loop is over; at a key that is not visited it has to hold before.
  pub range_all {κ} :
      (P : Text → World → Type κ)
      → ((k : Text) (v : V) (w : World) → lookup k (field w) ≡ some v → P k (body k v w))
      → ((k : Text) (w : World) → lookup k (field w) ≡ none → P k w)
      → ((j k : Text) (v : V) (w : World) → lookup k (field w) ≡ some v → P j w → P j (body k v w))
      → (ks : List Text) (w : World) → ((j : Text) → contains j ks ≡ false → P j w)
      → (j : Text) → P j (range field body ks w)
  unfolding range
  range_all P establish missing stay [] w before j = before j (unfold contains in refl)
  range_all P establish missing stay (k ∷ ks) w before i =
      range_all P establish missing stay ks (visit k w)
        (λ j h. round j h (lookup k (field w)) refl (Bool-cases (k == j))) i
    where
      round :
          (j : Text)
          → contains j ks ≡ false
          → (o : Option V) → lookup k (field w) ≡ o
          → ((k == j) ≡ true) ⊎ ((k == j) ≡ false)
          → P j (elim o [ none ↦ w | some v ↦ body k v w ])
      round j h none e (inl t) = subst (λ x. P x w) ((==_iff k j).0 t) (missing k w e)
      round j h (some v) e (inl t) =
          subst (λ x. P x (body k v w)) ((==_iff k j).0 t) (establish k v w e)
      round j h none e (inr f) = before j (unfold contains in rw f h)
      round j h (some v) e (inr f) = stay j k v w e (before j (unfold contains in rw f h))

pub not-contains-keys :
    {V : Type 0} (k : Text) (m : Dict V) → contains k (keys m) ≡ false → lookup k m ≡ none
not-contains-keys {V} k m h = go (lookup k m) refl
  where
    go : (o : Option V) → lookup k m ≡ o → o ≡ none
    go none e = refl
    go (some v) e = absurd (cc (contains-keys k m e))

-- A loop that writes to each key what a function makes of its value.
module _ {V : Type 0} (field : World → Dict V) (put : Text → V → World → World) (f : V → V)
    (writes : (k : Text) (v : V) (w : World) → field (put k v w) ≡ insert k v (field w)) where
  written :
      (Q : V → Type 0) (j k : Text) (v : V) (w : World)
      → Q (f v)
      → ((u : V) → lookup j (field w) ≡ some u → Q u) ⊎ ((k == j) ≡ true)
      → (u : V) → lookup j (field (put k (f v) w)) ≡ some u
      → Q u
  written Q j k v w q h u e =
      at_key h (Bool-cases (k == j))
        (sym (lookup-insert k j (f v) (field w)) ∙ ap (lookup j) (sym (writes k (f v) w)) ∙ e)
    where
      at_key :
          ((u : V) → lookup j (field w) ≡ some u → Q u) ⊎ ((k == j) ≡ true)
          → ((k == j) ≡ true) ⊎ ((k == j) ≡ false)
          → (if k == j then some (f v) else lookup j (field w)) ≡ some u
          → Q u
      at_key g (inl t) p = subst Q (some_inj (rw t at p)) q
      at_key (inl g) (inr n) p = g u (rw n at p)
      at_key (inr t) (inr n) p = absurd (cc (t, n))

  pub range_map :
      (Q : V → Type 0)
      → ((v : V) → Q (f v))
      → (w : World) → AllAt Q (field (range field (λ k v. put k (f v)) (keys (field w)) w))
  range_map Q q w k u e =
      range_all field (λ k v. put k (f v)) (λ j x. (v : V) → lookup j (field x) ≡ some v → Q v)
        (λ k v x h. written Q k k v x (q v) (inr (==_refl k))) (λ k x h v g. absurd (cc (h, g)))
        (λ j k v x h g. written Q j k v x (q v) (inl g)) (keys (field w)) w
        (λ j h v g. absurd (cc (not-contains-keys j (field w) h, g))) k u e
