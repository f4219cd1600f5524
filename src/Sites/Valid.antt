-- ===== src/Sites/Valid.antt =====
-- What Render, ValidateSite and ConfigFileName say together of a site that is rendered.
use nginx_atlas.Effects.{Result, err, ok, ok_inj, other_error}
use nginx_atlas.Prelude.{
  All, Bool, Bool-cases, List, Option, Text, [], all, arith, bytes, false, if◌then◌else◌, inl, inr,
  int_lt, length, nat_eq, negsuc, none, pos, refl, some, split, subst, sym, trim_space, true, ℕ, ℤ,
  ◌++◌, ◌||◌, ◌∷◌, ◌≡◌, ◌≤◌,
}
use nginx_atlas.Sites.Names.{
  Site, SiteLibrary, config_file_name, ends_label, is_alnum, is_label, matches_domain,
  matches_hostname, validate_site,
}
use nginx_atlas.Sites.Template.{normalize_site, render, site_lines, unlines}

taken : (test : Bool) (name : Text) → test ≡ true → (if test then some name else none) ≡ some name
taken true name e = refl
taken false name e = absurd (cc)

-- The bytes of a host name: lower-case letters, digits, the hyphen and the dot.
abbrev pub IsNameByte : ℕ → Type 0
IsNameByte c = (is_alnum c || nat_eq c b'-' || nat_eq c b'.') ≡ true

split-All : (P : ℕ → Type 0) (sep : ℕ) (s : Text) → P sep → All (All P) (split sep s) → All P s
unfolding split
split-All P sep [] p q = tt
split-All P sep (c ∷ s) p q = go (split sep s) (split-All P sep s p) q
  where
    go :
        (r : List Text)
        → (All (All P) r → All P s)
        → All (All P) (elim r as (λ x. List Text) [
          | [] ↦ (c ∷ []) ∷ []
          | part ∷ parts ↦ if nat_eq c sep then [] ∷ part ∷ parts else (c ∷ part) ∷ parts
        ])
        → P c × All P s
    go [] ih ((pc, u), v) = (pc, ih tt)
    go (part ∷ parts) ih h = elim (Bool-cases (nat_eq c sep)) [
      | inl t ↦ let same : sep ≡ c = ground arith in (subst P same p, ih ((rw t at h).1))
      | inr f ↦ let ((pc, u), v) = rw f at h in (pc, ih (u, v))
    ]

ends_label-All : (s : Text) → ends_label s ≡ true → All IsNameByte s
unfolding ends_label
ends_label-All [] h = tt
ends_label-All (c ∷ []) h = (ground arith, tt)
ends_label-All (c ∷ d ∷ s) h = (ground arith, ends_label-All (d ∷ s) (ground arith))

is_label-All : (s : Text) → is_label s ≡ true → All IsNameByte s
unfolding is_label
is_label-All [] h = tt
is_label-All (c ∷ s) h = (ground arith, ends_label-All s (ground arith))

labels-All : (xs : List Text) → all is_label xs ≡ true → All (All IsNameByte) xs
labels-All [] h = tt
labels-All (x ∷ xs) h = (is_label-All x (ground arith), labels-All xs (ground arith))

matches_domain-All : (s : Text) → matches_domain s ≡ true → All IsNameByte s
unfolding matches_domain matches_hostname
matches_domain-All s h = split-All IsNameByte b'.' s refl (labels-All (split b'.' s) (ground arith))

-- A number from 1 to 65535.
abbrev pub IsPort : ℤ → Type 0
IsPort port = (n : ℕ) × (port ≡ pos n) × (1 ≤ n) × (n ≤ 65535)

int_lt-IsPort : (port : ℤ) → (int_lt port (pos 1) || int_lt (pos 65535) port) ≡ false → IsPort port
int_lt-IsPort (pos n) h = (n, refl, ground arith, ground arith)
int_lt-IsPort (negsuc n) h = absurd (cc)

module _ (lib : SiteLibrary) (site : Site) (valid : validate_site lib site ≡ none) where
  valid-domain : (matches_domain site.domain ≡ true) × (length site.domain ≤ 253)
  unfolding validate_site
  valid-domain = ground arith

  valid-IsPort : IsPort site.upstream_port
  unfolding validate_site
  valid-IsPort = int_lt-IsPort site.upstream_port (ground arith)

rendered-valid :
    (lib : SiteLibrary) (site : Site) (text : Text)
    → render lib site ≡ ok text
    → validate_site lib (normalize_site lib site) ≡ none
unfolding render
rendered-valid lib site text e = go (validate_site lib (normalize_site lib site)) text _ e
  where
    go :
        (r : Option Text) (text q : Text)
        → elim r as (λ x. Result Text) [
          | some complaint ↦ err (other_error complaint)
          | none ↦ ok q
        ]
          ≡ ok text
        → r ≡ none
    go none text q h = refl
    go (some complaint) text q h = absurd (cc)

-- If Render succeeds: ConfigFileName accepts the site's domain and names the file after its trimmed
-- lower-case form, which is what the configuration carries; that form has 253 bytes at most, all of
-- them lower-case letters, digits, hyphens and dots; and the port, which may be any integer in the
-- request, is from 1 to 65535.
pub render-config_file_name :
    (lib : SiteLibrary) (site : Site) (text : Text)
    → render lib site ≡ ok text
    → let domain = lib.to_lower (trim_space site.domain) in
      (text ≡ unlines (site_lines lib (normalize_site lib site)))
      × ((normalize_site lib site).domain ≡ domain)
      × (config_file_name lib site.domain ≡ some (bytes "atlas-" ++ domain ++ bytes ".conf"))
      × (length domain ≤ 253)
      × All IsNameByte domain
      × IsPort site.upstream_port
unfolding config_file_name normalize_site render
render-config_file_name lib site text e =
    let written = normalize_site lib site in
    let valid = rendered-valid lib site text e in
    let (matches, short) = valid-domain lib written valid in
    (
      ok_inj (sym (rw (valid, render) at e)),
      refl,
      taken _ _ matches,
      short,
      matches_domain-All written.domain matches,
      valid-IsPort lib written valid,
    )
