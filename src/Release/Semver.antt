-- ===== src/Release/Semver.antt =====
-- parseReleaseVersion and versionUpdateAvailable, with strconv.Atoi on the bytes of a text.
use nginx_atlas.Prelude.{
  Bool, List, Option, Text, [], bytes, cut, false, if◌then◌else◌, leb, ltb, nat_eq, non_empty, none,
  not, some, split, trim_prefix, trim_space, true, ℕ, ◌&&◌, ◌*◌, ◌+◌, ◌-◌, ◌==◌, ◌||◌, ◌∷◌,
}

pub record Version : Type 0 where
  pub major : ℕ
  pub minor : ℕ
  pub patch : ℕ
  pub prerelease : Text

-- The value of a run of decimal digits, to which acc stands in front.
decimal_value : ℕ → Text → Option ℕ
decimal_value acc [] = some acc
decimal_value acc (c ∷ s) =
    let rest = decimal_value (10 * acc + (c - 48)) s in if leb 48 c && leb c 57 then rest else none

-- The digits of a number, which are one at least, in the range of an int64: 0 is given for a
-- negative number in range, with the flag that says so.
signed_value : Bool → Text → Option (Bool × ℕ)
signed_value negative [] = none
signed_value negative (c ∷ s) = elim (decimal_value 0 (c ∷ s)) [
  | none ↦ none
  | some n ↦
      if leb n (if negative then 9223372036854775808 else 9223372036854775807)
      then some (negative && ltb 0 n, n)
      else none
]

-- strconv.Atoi: whether the number is negative, and its magnitude.
unfoldable pub atoi : Text → Option (Bool × ℕ)
unfolding decimal_value signed_value
atoi [] = none
atoi (c ∷ s) =
    if nat_eq c b'-'
    then signed_value true s
    else if nat_eq c b'+'
    then signed_value false s
    else signed_value false (c ∷ s)

-- A part of the version: a number that is not negative.
unfoldable pub version_part : Text → Option ℕ
unfolding atoi
version_part part = elim (atoi part) [
  | none ↦ none
  | some (negative, n) ↦ if negative then none else some n
]

infixl 5 ◌>>=◌
abbrev ◌>>=◌ {ℓ κ} : {A : Type ℓ} {B : Type κ} → Option A → (A → Option B) → Option B
none >>= f = none
some a >>= f = f a

-- One to three parts; those that are left out are 0.
unfoldable pub version_of_parts : List Text → Text → Option Version
version_of_parts (a ∷ []) pre = do
  x ← version_part a
  some (record { major = x; minor = 0; patch = 0; prerelease = pre })
version_of_parts (a ∷ b ∷ []) pre = do
  x ← version_part a
  y ← version_part b
  some (record { major = x; minor = y; patch = 0; prerelease = pre })
version_of_parts (a ∷ b ∷ c ∷ []) pre = do
  x ← version_part a
  y ← version_part b
  z ← version_part c
  some (record { major = x; minor = y; patch = z; prerelease = pre })
version_of_parts _ pre = none

unfoldable pub parse_release_version : Text → Option Version
unfolding version_of_parts version_part
parse_release_version value =
    let v = trim_space (trim_prefix (bytes "v") (trim_space value)) in
    if not (non_empty v) || v == bytes "dev"
    then none
    else let (numbered, build) = cut b'+' v in
      let (core, prerelease) = cut b'-' numbered in version_of_parts (split b'.' core) prerelease

-- The comparison of two versions that parse: the first number that differs decides, and of equal
-- numbers a stable release is newer than a prerelease.
unfoldable pub newer : Version → Version → Bool
newer current latest =
    if not (nat_eq latest.major current.major)
    then ltb current.major latest.major
    else if not (nat_eq latest.minor current.minor)
    then ltb current.minor latest.minor
    else if not (nat_eq latest.patch current.patch)
    then ltb current.patch latest.patch
    else non_empty current.prerelease && not (non_empty latest.prerelease)

-- With two versions that parse; any other is never an update, nor has one.
abbrev pub offered : Option Version → Option Version → Bool
offered (some current) (some latest) = newer current latest
offered _ _ = false

unfoldable pub version_update_available : Text → Text → Bool
version_update_available current latest =
    offered (parse_release_version current) (parse_release_version latest)
