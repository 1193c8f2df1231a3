-- ===== src/Compat.antt =====
-- src/compat.rs: the version of a proxy that the hub is willing to talk to.
pub mod Order
use adbproxy_rs.Base.{
  ℕ, ◌-◌, ◌^◌, Bool, true, false, ◌&&◌, ◌||◌, Option, none, some, List, [], ◌∷◌, ◌++◌, ltb, leb,
  ◌==◌, if◌then◌else◌, ◌>>=◌,
}
use adbproxy_rs.Text.{Text, codes, strip_prefix, split_once, split}
use adbproxy_rs.Text.Number.{to_decimal, from_str_radix}
use adbproxy_rs.Text.Whitespace.{trim}
use adbproxy_rs.Addr.{SocketAddr, show_addr}

unfoldable pub min_proxy_version : Text
min_proxy_version = codes "0.4.4"

-- `PROXY_VERSION_SERVICE`.
unfoldable pub proxy_version_service : Text
proxy_version_service = codes "proxy:version"

pub record SemVer : Type 0 where
  pub major : ℕ
  pub minor : ℕ
  pub patch : ℕ

abbrev pub u32_max : ℕ
u32_max = 2 ^ 32 - 1

-- The number of a part of the version.
unfoldable pub number_of : Text → Option ℕ
number_of s = from_str_radix 10 u32_max s

-- `s.split_once(c).map(|(a, _)| a).unwrap_or(s)`.
unfoldable pub before : ℕ → Text → Text
before c s = elim (split_once c s) [ none ↦ s | some (a, b) ↦ a ]

unfoldable pub without_v : Text → Text
without_v s = elim (strip_prefix (codes "v") s) [ none ↦ s | some rest ↦ rest ]

-- A third part that is missing is read as `0`; a fourth is refused.
unfoldable pub version_of : List Text → Option SemVer
version_of (a ∷ b ∷ []) = do
  major ← number_of a
  minor ← number_of b
  patch ← number_of (codes "0")
  some (record { major = major; minor = minor; patch = patch })
version_of (a ∷ b ∷ c ∷ []) = do
  major ← number_of a
  minor ← number_of b
  patch ← number_of c
  some (record { major = major; minor = minor; patch = patch })
version_of _ = none

unfoldable pub parse_version : Text → Option SemVer
parse_version s = version_of (split b'.' (before b'+' (before b'-' (without_v (trim s)))))

unfoldable pub show_version : SemVer → Text
show_version v =
    to_decimal v.major ++ (codes "." ++ (to_decimal v.minor ++ (codes "." ++ to_decimal v.patch)))

-- The derived order: by major, then minor, then patch.
unfoldable pub version_le : SemVer → SemVer → Bool
version_le a b =
    ltb a.major b.major
    || ((a.major == b.major)
        && (ltb a.minor b.minor || ((a.minor == b.minor) && leb a.patch b.patch)))

pub data ProxyCompat : Type 0 where
  compatible too_old : (version : Text) → ProxyCompat
  unknown : (reason : Text) → ProxyCompat

unfoldable pub is_compatible : ProxyCompat → Bool
is_compatible (compatible v) = true
is_compatible _ = false

about_backend : Text → SocketAddr → Text
about_backend backend addr =
    codes "backend '" ++ (backend ++ (codes "' (" ++ (show_addr addr ++ codes ")")))

unfoldable pub user_message : ProxyCompat → Text → SocketAddr → Text
unfolding about_backend
user_message (compatible v) backend addr =
    about_backend backend addr ++ (codes " adb-proxy " ++ (v ++ codes " OK"))
user_message (too_old v) backend addr =
    about_backend backend addr
    ++ (codes " runs adb-proxy "
        ++ (v
            ++ (codes ", but this hub requires adb-proxy >= "
                ++ (min_proxy_version
                    ++ codes
                        ". Please upgrade adb-proxy on that host (and keep the same pair code)."))))
user_message (unknown reason) backend addr =
    about_backend backend addr
    ++ (codes " did not report a version ("
        ++ (reason
            ++ (codes "). This hub requires adb-proxy >= "
                ++ (min_proxy_version
                    ++ codes
                        ". Please upgrade adb-proxy on that host (older builds have no proxy:version)."))))

-- The verdict on a version that was read, against the least one.
unfoldable pub judge : Text → SemVer → Option SemVer → ProxyCompat
judge reported got none = compatible (trim reported)
judge reported got (some least) =
    if version_le least got then compatible (trim reported) else too_old (trim reported)

unfoldable pub evaluate_proxy_version : Text → ProxyCompat
evaluate_proxy_version reported = elim (parse_version reported) [
  | none ↦ unknown (codes "invalid version string '" ++ (reported ++ codes "'"))
  | some got ↦ judge reported got (parse_version min_proxy_version)
]
