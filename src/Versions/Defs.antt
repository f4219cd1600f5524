-- ===== src/Versions/Defs.antt =====
-- requireVersionUpgrade and parseAgentVersion. strings.EqualFold with "dev" is a parameter.
use nginx_atlas.Prelude.{
  Bool, Option, Text, bytes, cut, if◌then◌else◌, ltb, non_empty, none, not, some, split,
  trim_prefix, trim_space, ◌&&◌,
}
use nginx_atlas.Release.{Version, version_of_parts}

unfoldable pub parse_agent_version : Text → Option Version
parse_agent_version value =
    let v = trim_prefix (bytes "v") (trim_space value) in
    let (numbered, build) = cut b'+' v in
    let (core, prerelease) = cut b'-' numbered in version_of_parts (split b'.' core) prerelease

pub data UpgradeError : Type 0 where
  development_build invalid_version downgrade not_newer : UpgradeError

-- The loop over the three numbers, and what follows it.
unfoldable pub compare_parts : Version → Version → Option UpgradeError
compare_parts current target =
    if ltb current.major target.major
    then none
    else if ltb target.major current.major
    then some downgrade
    else if ltb current.minor target.minor
    then none
    else if ltb target.minor current.minor
    then some downgrade
    else if ltb current.patch target.patch
    then none
    else if ltb target.patch current.patch
    then some downgrade
    else if non_empty current.prerelease && not (non_empty target.prerelease)
    then none
    else some not_newer

unfoldable pub compare_parsed : Option Version → Option Version → Option UpgradeError
compare_parsed (some current) (some target) = compare_parts current target
compare_parsed _ _ = some invalid_version

-- None if the upgrade is accepted.
unfoldable pub require_version_upgrade : (Text → Bool) → Text → Text → Option UpgradeError
require_version_upgrade is_dev current target =
    if is_dev (trim_space current)
    then some development_build
    else compare_parsed (parse_agent_version current) (parse_agent_version target)
