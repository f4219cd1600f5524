-- ===== src/Administration/Selected.antt =====
-- The ids that a request names, after decodeBatchIDs and validateNodeIDs.
use nginx_atlas.Administration.Selections.{
  decode_batch_ids, gather_ids, gather_nodes, is_valid_id, validate_node_ids,
}
use nginx_atlas.Effects.{World, ok, ok_inj}
use nginx_atlas.Prelude.{
  ==_iff, All, Bool-cases, List, Text, [], arith, contains, false, inl, inr, is_empty, length,
  length-append, ltb, non_empty, not, refl, some, some_inj, trim_space, true, ◌++◌, ◌+◌, ◌==◌, ◌||◌,
  ◌∷◌, ◌≡◌, ◌≤◌,
}
use nginx_atlas.Removal.{is_live_node}

-- No id stands twice.
abbrev pub AllDistinct : List Text → Type 0
AllDistinct [] = Unit
AllDistinct (x ∷ xs) = (contains x xs ≡ false) × AllDistinct xs

contains-snoc :
    (s t : Text) (xs : List Text) → contains s (xs ++ t ∷ []) ≡ (contains s xs || t == s)
unfolding contains
contains-snoc s t [] = ground arith
contains-snoc s t (x ∷ xs) = ground (arith, contains-snoc s t xs)

AllDistinct-snoc :
    (xs : List Text) (t : Text)
    → AllDistinct xs
    → contains t xs ≡ false
    → AllDistinct (xs ++ t ∷ [])
unfolding contains
AllDistinct-snoc [] t h f = (refl, tt)
AllDistinct-snoc (x ∷ xs) t (g, h) f = (
  ground (arith, contains-snoc x t xs, ==_iff x t, ==_iff t x),
  AllDistinct-snoc xs t h (ground arith),
)

All-append_one :
    (P : Text → Type 0) (xs : List Text) (t : Text) → All P xs → P t → All P (xs ++ t ∷ [])
All-append_one P [] t h p = (p, tt)
All-append_one P (x ∷ xs) t (q, h) p = (q, All-append_one P xs t h p)

gathered :
    (request ids out : List Text)
    → AllDistinct ids
    → All (λ k. is_valid_id k ≡ true) ids
    → gather_ids request ids ≡ some out
    → AllDistinct out
      × All (λ k. is_valid_id k ≡ true) out
      × (length out ≤ length ids + length request)
unfolding gather_ids
gathered [] ids out d v e = rw (← some_inj e) (d, v, omega arith)
gathered (raw ∷ rest) ids out d v e =
    let value = trim_space raw in
    elim (Bool-cases (is_valid_id value)) [
      | inr n ↦ absurd (cc (rw n at e))
      | inl t ↦ elim (Bool-cases (contains value ids)) [
        | inl seen ↦
            let (a, b, c) = gathered rest ids out d v (rw (t, seen) at e) in
            (a, b, omega (arith, c))
        | inr new ↦
            let (a, b, c) =
              gathered rest (ids ++ value ∷ []) out (AllDistinct-snoc ids value d new)
                (All-append_one (λ k. is_valid_id k ≡ true) ids value v t) (rw (t, new) at e) in
            (a, b, omega (arith, c, length-append ids (value ∷ [])))
      ]
    ]

-- The ids of a selection that is accepted are 100 at most, none stands twice, and each is not
-- empty, of 128 bytes at most, and without a line break or a null byte.
pub decode_batch_ids_sound :
    (request ids : List Text)
    → decode_batch_ids request ≡ some ids
    → AllDistinct ids × All (λ k. is_valid_id k ≡ true) ids × (length ids ≤ 100)
unfolding decode_batch_ids
decode_batch_ids_sound request ids e =
    elim (Bool-cases (is_empty request || ltb 100 (length request))) [
      | inl t ↦ absurd (cc (rw t at e))
      | inr f ↦
          let (a, b, c) = gathered request [] ids tt tt (rw f at e) in (a, b, ground (arith, c, f))
    ]

-- A node that is there and not revoked, and is not the excluded one.
abbrev pub IsTarget : World → Text → Text → Type 0
IsTarget w exclude k = (is_live_node k w ≡ true) × ((k == exclude) ≡ false)

gathered_nodes :
    (w : World) (exclude : Text) (values seen out : List Text)
    → AllDistinct seen
    → All (IsTarget w exclude) seen
    → gather_nodes w exclude values seen ≡ ok out
    → AllDistinct out × All (IsTarget w exclude) out
unfolding gather_nodes
gathered_nodes w exclude [] seen out d v e = rw (← ok_inj e) (d, v)
gathered_nodes w exclude (raw ∷ rest) seen out d v e =
    let k = trim_space raw in
    elim (Bool-cases (not (non_empty k) || k == exclude || contains k seen)) [
      | inl t ↦ gathered_nodes w exclude rest seen out d v (rw t at e)
      | inr f ↦ elim (Bool-cases (is_live_node k w)) [
        | inr n ↦ absurd (cc (rw (f, n) at e))
        | inl t ↦
            gathered_nodes w exclude rest (seen ++ k ∷ []) out
              (AllDistinct-snoc seen k d (ground (arith, f)))
              (All-append_one (IsTarget w exclude) seen k v (t, ground (arith, f))) (rw (f, t) at e)
      ]
    ]

-- The nodes of a selection that is accepted are there and not revoked, none is the excluded one,
-- and none stands twice.
pub validate_node_ids_sound :
    (w : World) (request : List Text) (exclude : Text) (ids : List Text)
    → validate_node_ids w request exclude ≡ ok ids
    → AllDistinct ids × All (IsTarget w exclude) ids
unfolding validate_node_ids
validate_node_ids_sound w request exclude ids e = gathered_nodes w exclude request [] ids tt tt e
