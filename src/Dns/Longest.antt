-- ===== src/Dns/Longest.antt =====
-- About `describeDNSPolicy` of dns_policy.go: the choice of a split-DNS rule.
use womprat.Base.{
  Bytes, codes, ℕ, true, false, Option, none, some, List, length, All, Elem, ◌≡◌, ◌⊎◌, ◌≤◌, ◌<◌,
}
use womprat.Platform.{Platform}
use womprat.Text.Search.{trim_suffix}
use womprat.Dns.Defs.{DnsRoute, matches_suffix}

abbrev pub IsAscii : Bytes → Type 0
IsAscii s = All (λ c. c < 128) s

module _ (p : Platform) (keeps : (s : Bytes) → IsAscii s → length (p.to_lower s) ≡ length s) where
  -- the length of the part of the name that a route is about
  abbrev pub reach : DnsRoute → ℕ
  reach (suffix, _) = length (trim_suffix suffix (codes "."))

  -- A route that does not match, or reaches no further than `best`.
  abbrev pub Beaten : Bytes → ℕ → DnsRoute → Type 0
  Beaten name far route = (matches_suffix p name route.0 ≡ false) ⊎ (reach route ≤ far)

  -- The best of some routes: one that is among them, matches, and beats all others.
  abbrev pub IsBest : Bytes → List DnsRoute → Option DnsRoute → Type 0
  IsBest name routes none = All (λ r. matches_suffix p name r.0 ≡ false) routes
  IsBest name routes (some best) =
      (Elem best routes)
      × (matches_suffix p name best.0 ≡ true)
      × (All (Beaten name (reach best)) routes)
