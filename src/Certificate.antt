-- ===== src/Certificate.antt =====
-- certificate.go: exceptions for HTTPS certificates, as the user approves them. Each method of
-- `certificateDecision` is a function from the decision to the next one and the method's results.
pub mod Consent
use womprat.Base.{
  Bytes, codes, ℕ, ℤ, pos, Bool, true, false, not, ◌&&◌, ◌||◌, Option, none, some, [], ◌∷◌, ◌==◌,
  ◌!=◌, bytes_eq, int_eq, if◌then◌else◌,
}
use womprat.Platform.{Platform, Url, Userinfo}
use womprat.Text.Host.{hostname}

pub record CertificatePrompt : Type 0 where
  pub url : Bytes
  pub pem : Bytes
  pub token : Bytes

abbrev pub no_prompt : CertificatePrompt
no_prompt = record { url = []; pem = []; token = [] }

pub record CertificateDecision : Type 0 where
  pub current : Bytes
  pub pending : CertificatePrompt
  pub grant : CertificatePrompt

abbrev pub is_nil : Option Userinfo → Bool
is_nil none = true
is_nil (some _) = false

module _ (p : Platform) where
  unfoldable pub canonical : Url → Bytes
  canonical u =
      if not (p.equal_fold u.scheme (codes "https")) || hostname u.host == [] || not (is_nil u.user)
      then []
      else p.url_string (record u {
        scheme = codes "https";
        host = p.to_lower u.host;
        fragment = [];
        path = if u.path == [] then codes "/" else u.path;
      })

  unfoldable pub certificate_url : Bytes → Bytes
  unfolding canonical
  certificate_url raw = elim (p.parse_url raw) [ none ↦ [] | some u ↦ canonical u ]

  unfoldable pub starting : CertificateDecision → Bytes → CertificateDecision
  starting d raw =
      let current = certificate_url raw in
      record {
        current = current;
        pending = no_prompt;
        grant = if d.grant.url != current then no_prompt else d.grant;
      }

-- `clear` resets the decision.
unfoldable pub cleared : CertificateDecision
cleared = record { current = []; pending = no_prompt; grant = no_prompt }

-- webErrorStatusCertificateCommonNameWrong, …Expired, …Invalid (browser_nav.go)
abbrev pub eligible : ℤ → Bool
eligible status = status == pos 1 || status == pos 2 || status == pos 5

-- the part of `detected` behind the test for the tracked navigation
unfoldable pub decide_tracked :
    CertificateDecision → Bytes → Bytes → ℤ → Bytes → CertificateDecision × Bool
decide_tracked d uri pem status token =
    let fresh = record d { pending = no_prompt; grant = no_prompt } in
    if pem == [] || not (eligible status)
    then (fresh, false)
    else if d.grant.url == uri && d.grant.pem == pem
    then (fresh, true)
    else if token != []
    then (record fresh { pending = record { url = uri; pem = pem; token = token } }, false)
    else (fresh, false)

unfoldable pub detected :
    Platform → CertificateDecision → Bytes → Bytes → ℤ → Bytes → CertificateDecision × Bool
unfolding decide_tracked
detected p d raw pem status token =
    let uri = certificate_url p raw in
    if uri == [] || uri != d.current then (d, false) else decide_tracked d uri pem status token

unfoldable pub proceed : CertificateDecision → Bytes → CertificateDecision × (Bytes × Bool)
proceed d token =
    if token == [] || token != d.pending.token || d.pending.url != d.current
    then (d, ([], false))
    else (record d { grant = d.pending; pending = no_prompt }, (d.pending.url, true))
