-- ===== src/Administration/Selections.antt =====
-- decodeBatchIDs and validateNodeIDs: the ids that a request names.
use nginx_atlas.Effects.{Result, World, err, not_found, ok}
use nginx_atlas.Prelude.{
  Bool, List, Option, Text, [], contains, false, if◌then◌else◌, is_empty, leb, length, ltb, nat_eq,
  non_empty, none, not, some, trim_space, values, ◌&&◌, ◌++◌, ◌==◌, ◌||◌, ◌∷◌,
}
use nginx_atlas.Removal.{is_live_node}

-- strings.ContainsAny(s, "\r\n\x00")
abbrev pub has_control : Text → Bool
has_control [] = false
has_control (c ∷ s) = nat_eq c 13 || nat_eq c 10 || nat_eq c 0 || has_control s

unfoldable pub is_valid_id : Text → Bool
is_valid_id value = non_empty value && leb (length value) 128 && not (has_control value)

-- The loop: every id is trimmed and has to be valid; one that was seen is left out.
unfoldable pub gather_ids : List Text → List Text → Option (List Text)
gather_ids [] ids = some ids
gather_ids (raw ∷ rest) ids =
    let value = trim_space raw in
    let with_it = gather_ids rest (ids ++ value ∷ []) in
    let without = gather_ids rest ids in
    if is_valid_id value then (if contains value ids then without else with_it) else none

unfoldable pub decode_batch_ids : List Text → Option (List Text)
decode_batch_ids request =
    if is_empty request || ltb 100 (length request) then none else gather_ids request []

-- Blank ids, the excluded one and those seen before are left out; the nodes of the others have to
-- be there and not revoked.
unfoldable pub gather_nodes : World → Text → List Text → List Text → Result (List Text)
gather_nodes w exclude [] seen = ok seen
gather_nodes w exclude (raw ∷ rest) seen =
    let node_id = trim_space raw in
    let with_it = gather_nodes w exclude rest (seen ++ node_id ∷ []) in
    let without = gather_nodes w exclude rest seen in
    if not (non_empty node_id) || node_id == exclude || contains node_id seen
    then without
    else if is_live_node node_id w
    then with_it
    else err not_found

unfoldable pub validate_node_ids : World → List Text → Text → Result (List Text)
validate_node_ids w values exclude = gather_nodes w exclude values []
