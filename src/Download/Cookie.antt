-- ===== src/Download/Cookie.antt =====
-- `http.Cookie` as far as the downloads read it, and the copies that they make.
use womprat.Base.{
  Bytes, codes, ℕ, Bool, false, not, ◌&&◌, ◌||◌, Option, none, some, List, [], ◌∷◌, ◌≡◌, refl, ap,
  ltb, ◌!=◌, bytes_eq, if◌then◌else◌, All, ◌⊎◌, arith, eqb_iff,
}
use womprat.Platform.{Url}

-- `expires` is `none` for the zero time; times are in nanoseconds.
pub record Cookie : Type 0 where
  pub name : Bytes
  pub value : Bytes
  pub path : Bytes
  pub domain : Bytes
  pub expires : Option ℕ
  pub secure : Bool
  pub http_only : Bool

-- A nil pointer is `none`; a copy of a cookie is the cookie.
unfoldable pub clone_cookies : List (Option Cookie) → List (Option Cookie)
clone_cookies [] = []
clone_cookies (none ∷ cs) = clone_cookies cs
clone_cookies (some c ∷ cs) = some c ∷ clone_cookies cs

-- A clone holds no nil, so it is its own clone.
pub clone_cookies_idem :
    (cs : List (Option Cookie)) → clone_cookies (clone_cookies cs) ≡ clone_cookies cs
unfolding clone_cookies
clone_cookies_idem [] = refl
clone_cookies_idem (none ∷ cs) = clone_cookies_idem cs
clone_cookies_idem (some c ∷ cs) = ap (◌∷◌ (some c)) (clone_cookies_idem cs)

pub expired : ℕ → Cookie → Bool
expired now c = elim c.expires [ none ↦ false | some t ↦ not (ltb now t) ]

-- The cookies that a download may send to `target`, made host-only.
pub cookies_for_download_url : Url → ℕ → List (Option Cookie) → List Cookie
unfolding expired
cookies_for_download_url target now [] = []
cookies_for_download_url target now (none ∷ cs) = cookies_for_download_url target now cs
cookies_for_download_url target now (some c ∷ cs) =
    let rest = cookies_for_download_url target now cs in
    if c.secure && target.scheme != codes "https" || expired now c
    then rest
    else record c { domain = [] } ∷ rest

-- What a cookie for `target` must satisfy at time `now`.
abbrev pub MaySend : Url → ℕ → Cookie → Type 0
MaySend target now c =
    (c.domain ≡ [])
    × ((c.secure ≡ false) ⊎ (target.scheme ≡ codes "https"))
    × (expired now c ≡ false)

-- A download sends cookies to a target only if each is host-only, has not expired, and, if it is
-- secure, the target is an HTTPS address.
pub cookies_for_download_url-MaySend :
    (target : Url) (now : ℕ) (cs : List (Option Cookie))
    → All (MaySend target now) (cookies_for_download_url target now cs)
unfolding cookies_for_download_url
cookies_for_download_url-MaySend target now [] = tt
cookies_for_download_url-MaySend target now (none ∷ cs) =
    cookies_for_download_url-MaySend target now cs
cookies_for_download_url-MaySend target now (some c ∷ cs) =
    ground
      (arith, cookies_for_download_url-MaySend target now cs, eqb_iff target.scheme (codes "https"))
