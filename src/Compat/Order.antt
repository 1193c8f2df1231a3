-- ===== src/Compat/Order.antt =====
-- Which versions the hub accepts.
use adbproxy_rs.Base.{
  ◌≡◌, ◌≤◌, ◌<◌, ◌↔◌, ◌⊎◌, inl, inr, refl, sym, subst, Option, true, none, some, arith,
  Option-cases,
}
use adbproxy_rs.Text.{Text, codes, strip_prefix, split_once, split}
use adbproxy_rs.Text.Number.{from_str_radix}
use adbproxy_rs.Text.Whitespace.{trim}
use adbproxy_rs.Compat.{
  SemVer, number_of, before, without_v, version_of, parse_version, min_proxy_version, version_le,
  is_compatible, judge, evaluate_proxy_version,
}

abbrev least : SemVer
least = record { major = 0; minor = 4; patch = 4 }

parse-min_proxy_version : parse_version min_proxy_version ≡ some least
unfolding parse_version min_proxy_version version_of number_of before without_v trim split
    split_once strip_prefix from_str_radix codes
parse-min_proxy_version = refl

-- A version from 0.4.4 on.
abbrev pub IsRecent : SemVer → Type 0
IsRecent v = (0 < v.major) ⊎ (4 < v.minor) ⊎ ((v.minor ≡ 4) × (4 ≤ v.patch))

version_le-IsRecent : (v : SemVer) → (version_le least v ≡ true) ↔ IsRecent v
unfolding version_le
version_le-IsRecent v = ground arith

judge-IsRecent :
    (s : Text) (v : SemVer) → (is_compatible (judge s v (some least)) ≡ true) ↔ IsRecent v
unfolding judge is_compatible
judge-IsRecent s v = ground (arith, version_le-IsRecent v)

-- A version that was read, from 0.4.4 on.
abbrev RecentIn : Option SemVer → Type 0
RecentIn none = ⊥
RecentIn (some v) = IsRecent v

-- A proxy is accepted exactly if the version that it reports is read as one from 0.4.4 on; a text that is no
-- version is not accepted.
pub evaluate_proxy_version_iff :
    (reported : Text)
    → (is_compatible (evaluate_proxy_version reported) ≡ true)
      ↔ ((v : SemVer) × (parse_version reported ≡ some v) × IsRecent v)
unfolding evaluate_proxy_version is_compatible
evaluate_proxy_version_iff reported = elim (Option-cases (parse_version reported)) [
  | inl e ↦
      rw (e, is_compatible)
        (λ h. absurd (ground (arith, h)), λ (v, p, r). absurd (subst RecentIn (sym p) r))
  | inr (v, e) ↦
      rw (e, is_compatible, evaluate_proxy_version, parse-min_proxy_version)
        (
          λ h. (v, refl, (judge-IsRecent reported v).0 h),
          λ (w, p, r). (judge-IsRecent reported v).1 (subst RecentIn (sym p) r),
        )
]
