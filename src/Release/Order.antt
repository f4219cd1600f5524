-- ===== src/Release/Order.antt =====
-- The order of the versions of internal/server/release.go.
use nginx_atlas.Prelude.{Option, Text, arith, false, none, refl, some, true, ◌≡◌}
use nginx_atlas.Release.Semver.{
  Version, newer, offered, parse_release_version, version_update_available,
}

newer_trans : (a b c : Version) → newer a b ≡ true → newer b c ≡ true → newer a c ≡ true
unfolding newer
newer_trans a b c p q = ground arith

newer_asym : (a b : Version) → newer a b ≡ true → newer b a ≡ false
unfolding newer
newer_asym a b p = ground arith

-- If the second version is an update of the first and the third of the second, the third is an
-- update of the first.
pub update_trans :
    (a b c : Text)
    → version_update_available a b ≡ true
    → version_update_available b c ≡ true
    → version_update_available a c ≡ true
unfolding version_update_available
update_trans a b c =
    go (parse_release_version a) (parse_release_version b) (parse_release_version c)
  where
    go : (x y z : Option Version) → offered x y ≡ true → offered y z ≡ true → offered x z ≡ true
    go (some x) (some y) (some z) p q = newer_trans x y z p q
    go none y z p q = cc
    go (some x) none z p q = cc
    go (some x) (some y) none p q = cc

-- Of two versions, one that is an update of the other never has that other as its update.
pub update_asym :
    (a b : Text) → version_update_available a b ≡ true → version_update_available b a ≡ false
unfolding version_update_available
update_asym a b = go (parse_release_version a) (parse_release_version b)
  where
    go : (x y : Option Version) → offered x y ≡ true → offered y x ≡ false
    go (some x) (some y) p = newer_asym x y p
    go none none p = cc
    go none (some y) p = refl
    go (some x) none p = cc
