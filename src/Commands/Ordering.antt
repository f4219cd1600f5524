-- ===== src/Commands/Ordering.antt =====
-- The order in which handleUpdateAllNodesAtlas offers its update to the nodes.
use nginx_atlas.Commands.Defs.{text_lt}
use nginx_atlas.Commands.Updates.{insert_node, node_less, sort_nodes}
use nginx_atlas.Effects.{World}
use nginx_atlas.Model.{zero_node}
use nginx_atlas.Prelude.{
  All, Bool, Bool-cases, List, Text, [], arith, false, inl, inr, lookup, refl, true, value_or, ◌∷◌,
  ◌≡◌,
}
use mathlib.Core.List.{Perm}
use mathlib.Core.List.Perm

text_lt_asym : (s t : Text) → text_lt s t ≡ true → text_lt t s ≡ false
unfolding text_lt
text_lt_asym [] [] h = refl
text_lt_asym [] (b ∷ t) h = refl
text_lt_asym (a ∷ s) [] h = absurd (cc)
text_lt_asym (a ∷ s) (b ∷ t) h = ground (arith, text_lt_asym s t)

text_lt_trans : (s t u : Text) → text_lt t s ≡ false → text_lt u t ≡ false → text_lt u s ≡ false
unfolding text_lt
text_lt_trans [] [] u h k = k
text_lt_trans [] (b ∷ t) [] h k = refl
text_lt_trans [] (b ∷ t) (c ∷ u) h k = refl
text_lt_trans (a ∷ s) [] u h k = absurd (cc)
text_lt_trans (a ∷ s) (b ∷ t) [] h k = absurd (cc)
text_lt_trans (a ∷ s) (b ∷ t) (c ∷ u) h k = ground (arith, text_lt_trans s t u)

abbrev pub has_controller : World → Text → Bool
has_controller w k = (value_or zero_node (lookup k w.nodes)).controller_installed

module _ (to_lower : Text → Text) (w : World) where
  abbrev pub sort_name : Text → Text
  sort_name k = to_lower (value_or zero_node (lookup k w.nodes)).name

  -- The first may stand before the second: it has no controller, if the second has none; and where
  -- both have one, or neither, its name is not after that of the second.
  abbrev pub MayPrecede : Text → Text → Type 0
  MayPrecede a b =
      (has_controller w b ≡ false → has_controller w a ≡ false)
      × (has_controller w a ≡ has_controller w b → text_lt (sort_name b) (sort_name a) ≡ false)

  abbrev pub IsOrdered : List Text → Type 0
  IsOrdered [] = Unit
  IsOrdered (a ∷ rest) = All (MayPrecede a) rest × IsOrdered rest

  less_first : (a b : Text) → node_less to_lower w a b ≡ true → MayPrecede a b
  unfolding node_less
  less_first a b h = ground (arith, h, text_lt_asym (sort_name a) (sort_name b))

  not_less_first : (a b : Text) → node_less to_lower w b a ≡ false → MayPrecede a b
  unfolding node_less
  not_less_first a b h = ground (arith, h)

  MayPrecede-trans : (a b c : Text) → MayPrecede a b → MayPrecede b c → MayPrecede a c
  MayPrecede-trans a b c p q =
      ground (arith, p, q, text_lt_trans (sort_name a) (sort_name b) (sort_name c))

  All-MayPrecede :
      (a b : Text) (xs : List Text) → MayPrecede a b → All (MayPrecede b) xs → All (MayPrecede a) xs
  All-MayPrecede a b [] p q = tt
  All-MayPrecede a b (c ∷ xs) p (q, r) = (MayPrecede-trans a b c p q, All-MayPrecede a b xs p r)

  All-insert_node :
      (P : Text → Type 0) (a : Text) (xs : List Text)
      → P a
      → All P xs
      → All P (insert_node to_lower w a xs)
  unfolding insert_node
  All-insert_node P a [] p q = (p, tt)
  All-insert_node P a (b ∷ xs) p (q, r) = elim (Bool-cases (node_less to_lower w b a)) [
    | inl t ↦ rw t (q, All-insert_node P a xs p r)
    | inr f ↦ rw f (p, (q, r))
  ]

  insert_node-IsOrdered :
      (a : Text) (xs : List Text) → IsOrdered xs → IsOrdered (insert_node to_lower w a xs)
  unfolding insert_node
  insert_node-IsOrdered a [] q = (tt, tt)
  insert_node-IsOrdered a (b ∷ xs) (q, r) = elim (Bool-cases (node_less to_lower w b a)) [
    | inl t ↦
        rw t
          (All-insert_node (MayPrecede b) a xs (less_first b a t) q, insert_node-IsOrdered a xs r)
    | inr f ↦
        let first_one = not_less_first a b f in
        rw f ((first_one, All-MayPrecede a b xs first_one q), (q, r))
  ]

  insert_node-perm : (a : Text) (xs : List Text) → Perm (insert_node to_lower w a xs) (a ∷ xs)
  unfolding insert_node
  insert_node-perm a [] = Perm.rfl
  insert_node-perm a (b ∷ xs) = elim (Bool-cases (node_less to_lower w b a)) [
    | inl t ↦ rw t (Perm.trans (Perm.cons b (insert_node-perm a xs)) (Perm.swap a b xs))
    | inr f ↦ rw f Perm.rfl
  ]

  -- The nodes are sorted: each as often as it was given; none that has a controller comes before
  -- one that has none; and among those with one, and among those without, the lower-case names do
  -- not fall.
  pub sort_nodes-IsOrdered :
      (node_ids : List Text)
      → Perm (sort_nodes to_lower w node_ids) node_ids × IsOrdered (sort_nodes to_lower w node_ids)
  unfolding sort_nodes
  sort_nodes-IsOrdered [] = (Perm.rfl, tt)
  sort_nodes-IsOrdered (a ∷ rest) =
      let (same, ordered) = sort_nodes-IsOrdered rest in
      (
        Perm.trans (insert_node-perm a (sort_nodes to_lower w rest)) (Perm.cons a same),
        insert_node-IsOrdered a (sort_nodes to_lower w rest) ordered,
      )
