-- ===== src/Versions/Agree.antt =====
-- The agent and the controller agree on which version updates which.
use nginx_atlas.Prelude.{
  ==_iff, Bool, Bool-cases, Option, Text, [], ap, arith, bytes, cut, false, if◌then◌else◌, inl, inr,
  non_empty, none, not, refl, some, split, trim_prefix, trim_space, true, ◌==◌, ◌||◌, ◌↔◌, ◌∙◌, ◌∷◌,
  ◌≡◌,
}
use nginx_atlas.Release.{
  Version, atoi, newer, offered, parse_release_version, version_of_parts, version_part,
  version_update_available,
}
use nginx_atlas.Versions.Defs.{
  compare_parsed, compare_parts, parse_agent_version, require_version_upgrade,
}

-- No space follows the "v" of the version.
abbrev pub IsTight : Text → Type 0
IsTight value =
    trim_space (trim_prefix (bytes "v") (trim_space value))
    ≡ trim_prefix (bytes "v") (trim_space value)

parts-newer : (a b : Version) → (compare_parts a b ≡ none) ↔ (newer a b ≡ true)
unfolding compare_parts newer
parts-newer a b = (λ h. ground (arith, h), λ h. ground (arith, h))

-- What is left of a version without its spaces and its "v".
abbrev parse_core : Text → Option Version
parse_core v =
    let (numbered, build) = cut b'+' v in
    let (core, prerelease) = cut b'-' numbered in version_of_parts (split b'.' core) prerelease

core_of_dev : parse_core (bytes "dev") ≡ none
unfolding version_of_parts split cut version_part atoi bytes
core_of_dev = refl

core_unless :
    (v : Text)
    → parse_core v ≡ (if not (non_empty v) || v == bytes "dev" then none else parse_core v)
unfolding version_of_parts split cut version_part atoi
core_unless [] = refl
core_unless (c ∷ s) = elim (Bool-cases ((c ∷ s) == bytes "dev")) [
  | inr f ↦ rw f refl
  | inl t ↦ rw t (ap parse_core ((==_iff (c ∷ s) (bytes "dev")).0 t) ∙ core_of_dev)
]

parsed_alike :
    (value : Text) → IsTight value → parse_agent_version value ≡ parse_release_version value
unfolding parse_agent_version parse_release_version
parsed_alike value tight = rw tight (core_unless (trim_prefix (bytes "v") (trim_space value)))

-- If no space follows the "v" of either version, and the version that runs is no development build:
-- the agent accepts an update exactly when the controller offers it.
pub upgrade_offered :
    (is_dev : Text → Bool) (current target : Text)
    → IsTight current
    → IsTight target
    → is_dev (trim_space current) ≡ false
    → (require_version_upgrade is_dev current target ≡ none)
      ↔ (version_update_available current target ≡ true)
unfolding require_version_upgrade version_update_available compare_parsed
upgrade_offered is_dev current target tight tight' released =
    rw (released, parsed_alike current tight, parsed_alike target tight')
      (go (parse_release_version current) (parse_release_version target))
  where
    go : (a b : Option Version) → (compare_parsed a b ≡ none) ↔ (offered a b ≡ true)
    go none b = (λ h. absurd (cc), λ h. absurd (cc))
    go (some a) none = (λ h. absurd (cc), λ h. absurd (cc))
    go (some a) (some b) = parts-newer a b
