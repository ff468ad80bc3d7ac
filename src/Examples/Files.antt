-- ===== src/Examples/Files.antt =====
-- Download names on concrete inputs.
use womprat.Base.{
  [], ◌∷◌, List, Option, some, none, Bool, ◌==◌, bytes_eq, Bytes, codes, ℕ, true, false, ◌++◌, ◌≡◌,
  ◌⊎◌, ◌≤◌, ◌<◌, All, length,
}
use womprat.Platform.{Url}
use womprat.Examples.Toy.{toy, page_url}
use womprat.Download.Cookie.{
  Cookie, MaySend, cookies_for_download_url, cookies_for_download_url-MaySend,
}
use womprat.Download.Filename.{
  clean_name, avoid_reserved, sanitize_download_filename, numbered_path, unique_download_path,
}
use womprat.Download.Filename.Safe.{
  Safe, IsFileName, EndsWell, sanitize-Safe, unique_download_path_free,
}

sanitize-Safe_example :
    All Safe (sanitize_download_filename toy (codes "../a:b"))
    × (length (sanitize_download_filename toy (codes "../a:b")) ≤ 180)
    × (IsFileName (sanitize_download_filename toy (codes "../a:b")))
    × (EndsWell (sanitize_download_filename toy (codes "../a:b"))
        ⊎ (180 < length (avoid_reserved toy (clean_name (codes "../a:b")))))
sanitize-Safe_example = sanitize-Safe toy (codes "../a:b")

abbrev slash : Bytes → Bytes → Bytes
slash dir name = dir ++ codes "/" ++ name

abbrev taken : Bytes → Bool
taken path = path == codes "d/f"

unique_download_path_free_example :
    (taken (unique_download_path toy taken slash 7 (codes "d") (codes "f")) ≡ false)
    ⊎ ((taken (slash (codes "d") (sanitize_download_filename toy (codes "f"))) ≡ true)
        × ((i : ℕ)
            → 1 ≤ i
            → i < 10000
            → taken (numbered_path toy slash (codes "d") (codes "f") i) ≡ true)
        × (unique_download_path toy taken slash 7 (codes "d") (codes "f")
            ≡ numbered_path toy slash (codes "d") (codes "f") 7))
unique_download_path_free_example =
    unique_download_path_free toy taken slash 7 (codes "d") (codes "f")

-- A secure cookie for a plain page, and one that may be sent.
abbrev jar : List (Option Cookie)
jar =
    some (record {
      name = codes "a";
      value = [];
      path = [];
      domain = codes "h";
      expires = none;
      secure = true;
      http_only = false;
    })
    ∷ some (record {
      name = codes "b";
      value = [];
      path = [];
      domain = codes "h";
      expires = none;
      secure = false;
      http_only = false;
    })
    ∷ []

abbrev plain_page : Url
plain_page = record page_url { scheme = codes "http" }

cookies_for_download_url-MaySend_example :
    All (MaySend plain_page 5) (cookies_for_download_url plain_page 5 jar)
cookies_for_download_url-MaySend_example = cookies_for_download_url-MaySend plain_page 5 jar
