-- ===== src/Prelude/Texts.antt =====
-- Go strings as lists of bytes, and the functions of package strings that the program calls on
-- them: equality, prefixes, TrimSpace (with the spaces of Unicode), Cut and Split.
use Prim.Native.Char.{code}
use Prim.Native.String.{String}
use Prim.Native.Nat.{ℕ, ◌+◌, ◌/◌, ◌%◌}
use mathlib.Core.Path.{◌≡◌, refl}
use mathlib.Core.Logic.{◌↔◌}
use mathlib.Core.Bool.{Bool, true, false, ◌&&◌, ◌||◌}
use mathlib.Core.Option.{Option, none, some}
use mathlib.Core.List.{List, [], ◌∷◌, ◌++◌, reverse}
use native.Mathlib.Omega.{arith}
use nginx_atlas.Prelude.Tests.{ltb, leb, nat_eq, if◌then◌else◌}

abbrev pub Text : Type 0
Text = List ℕ

-- The UTF-8 bytes of a code point.
utf8 : ℕ → Text
utf8 c =
    if ltb c 0x80
    then c ∷ []
    else if ltb c 0x800
    then (0xc0 + c / 64) ∷ (0x80 + c % 64) ∷ []
    else if ltb c 0x1_0000
    then (0xe0 + c / 4096) ∷ (0x80 + c / 64 % 64) ∷ (0x80 + c % 64) ∷ []
    else (0xf0 + c / 262144) ∷ (0x80 + c / 4096 % 64) ∷ (0x80 + c / 64 % 64) ∷ (0x80 + c % 64) ∷ []

-- The bytes of a string literal.
unfoldable pub bytes : String → Text
unfolding utf8
bytes String.[] = []
bytes (String.◌∷◌ c s) = utf8 (code c) ++ bytes s

infix 50 ◌==◌
unfoldable pub ◌==◌ : Text → Text → Bool
[] == [] = true
[] == (b ∷ t) = false
(a ∷ s) == [] = false
(a ∷ s) == (b ∷ t) = nat_eq a b && s == t

==-sound : (s t : Text) → (s == t) ≡ true → s ≡ t
unfolding ◌==◌
==-sound [] [] h = refl
==-sound [] (b ∷ t) h = cc
==-sound (a ∷ s) [] h = cc
==-sound (a ∷ s) (b ∷ t) h = ground (arith, ==-sound s t)

pub ==_refl : (s : Text) → (s == s) ≡ true
unfolding ◌==◌
==_refl [] = refl
==_refl (a ∷ s) = ground (arith, ==_refl s)

pub ==_iff : (s t : Text) → ((s == t) ≡ true) ↔ (s ≡ t)
==_iff s t = (==-sound s t, λ (e : s ≡ t). rw e (==_refl t))

-- s != ""
abbrev pub non_empty : Text → Bool
non_empty [] = false
non_empty (c ∷ s) = true

unfoldable pub contains : Text → List Text → Bool
contains s [] = false
contains s (t ∷ ts) = t == s || contains s ts

-- strings.HasPrefix and strings.TrimPrefix.
unfoldable pub strip_prefix : Text → Text → Option Text
strip_prefix [] s = some s
strip_prefix (p ∷ ps) [] = none
strip_prefix (p ∷ ps) (c ∷ s) = if nat_eq p c then strip_prefix ps s else none

unfoldable pub trim_prefix : Text → Text → Text
unfolding strip_prefix
trim_prefix p s = elim (strip_prefix p s) [ none ↦ s | some rest ↦ rest ]

-- The one-byte spaces: \t \n \v \f \r and the blank.
is_space : ℕ → Bool
is_space c = (leb 9 c && leb c 13) || nat_eq c 32

-- U+0085 and U+00A0.
is_space2 : ℕ → ℕ → Bool
is_space2 a b = nat_eq a 0xc2 && (nat_eq b 0x85 || nat_eq b 0xa0)

-- U+1680, U+2000 to U+200A, U+2028, U+2029, U+202F, U+205F, U+3000.
is_space3 : ℕ → ℕ → ℕ → Bool
is_space3 a b c =
    (nat_eq a 0xe1 && nat_eq b 0x9a && nat_eq c 0x80)
    || (nat_eq a 0xe2 && nat_eq b 0x80 && leb 0x80 c && leb c 0x8a)
    || (nat_eq a 0xe2 && nat_eq b 0x80 && (nat_eq c 0xa8 || nat_eq c 0xa9 || nat_eq c 0xaf))
    || (nat_eq a 0xe2 && nat_eq b 0x81 && nat_eq c 0x9f)
    || (nat_eq a 0xe3 && nat_eq b 0x80 && nat_eq c 0x80)

-- Drops the spaces at the front: the encodings of one, two and three bytes.
trim_front : Text → Text
trim_front [] = []
trim_front (a ∷ []) = if is_space a then [] else a ∷ []
trim_front (a ∷ b ∷ []) =
    let one = trim_front (b ∷ []) in
    if is_space a then one else if is_space2 a b then [] else a ∷ b ∷ []
trim_front (a ∷ b ∷ c ∷ s) =
    let one = trim_front (b ∷ c ∷ s) in
    let two = trim_front (c ∷ s) in
    let three = trim_front s in
    if is_space a
    then one
    else if is_space2 a b
    then two
    else if is_space3 a b c
    then three
    else a ∷ b ∷ c ∷ s

-- The same at the end, on the reversed bytes.
trim_back : Text → Text
trim_back [] = []
trim_back (a ∷ []) = if is_space a then [] else a ∷ []
trim_back (b ∷ a ∷ []) =
    let one = trim_back (a ∷ []) in
    if is_space b then one else if is_space2 a b then [] else b ∷ a ∷ []
trim_back (c ∷ b ∷ a ∷ s) =
    let one = trim_back (b ∷ a ∷ s) in
    let two = trim_back (a ∷ s) in
    let three = trim_back s in
    if is_space c
    then one
    else if is_space2 b c
    then two
    else if is_space3 a b c
    then three
    else c ∷ b ∷ a ∷ s

-- strings.TrimSpace
unfoldable pub trim_space : Text → Text
unfolding trim_front trim_back is_space is_space2 is_space3
trim_space s = reverse (trim_back (reverse (trim_front s)))

-- strings.Cut at one byte: what stands before it, and after it (nothing, if it does not occur).
unfoldable pub cut : ℕ → Text → Text × Text
cut sep [] = ([], [])
cut sep (c ∷ s) =
    let (before, after) = cut sep s in if nat_eq c sep then ([], s) else (c ∷ before, after)

-- strings.Split at one byte: never empty.
unfoldable pub split : ℕ → Text → List Text
split sep [] = [] ∷ []
split sep (c ∷ s) = elim (split sep s) [
  | [] ↦ (c ∷ []) ∷ []
  | part ∷ parts ↦ if nat_eq c sep then [] ∷ part ∷ parts else (c ∷ part) ∷ parts
]
