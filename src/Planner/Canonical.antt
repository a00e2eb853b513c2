-- ===== src/Planner/Canonical.antt =====
-- The canonical form of a DNS name, and the test of `NormalizeZones` and `NormalizeHostnames`.
-- `is_subdomain s` stands for `len(validation.IsDNS1123Subdomain(s)) == 0`, of apimachinery.
use kflared.Base.{Bool, not, ◌&&◌, Text, bytes, text_eq, ◌==◌, []}
use kflared.Base.Strings.{to_lower, trim_space, trim_suffix, has_prefix}

unfoldable pub canonical : Text → Text
unfolding to_lower trim_suffix trim_space
canonical name = to_lower (trim_suffix (trim_space name) (bytes "."))

module _ (is_subdomain : Text → Bool) where
  -- Not empty, not a wildcard, and a DNS subdomain.
  unfoldable pub is_concrete : Text → Bool
  unfolding has_prefix
  is_concrete name = not (name == []) && not (has_prefix name (bytes "*.")) && is_subdomain name
