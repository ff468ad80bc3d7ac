-- ===== src/Download/Transfer.antt =====
-- download.go and download_origin.go: one download at a time, and its transfer into a file.
pub mod Fetch
pub mod Refused
pub mod Whole
pub mod Single
use womprat.Base.{
  Bytes, codes, ℕ, ℤ, pos, ◌+◌, Bool, true, false, not, ◌&&◌, ◌||◌, Option, none, some, List, [],
  ◌∷◌, ◌++◌, ◌==◌, ◌!=◌, bytes_eq, nat_eq, ltb, leb, length, if◌then◌else◌, Result, ok, err, lookup,
  insert, delete,
}
use womprat.Platform.{Platform, Url, Userinfo}
use womprat.Text.Space.{trim_space}
use womprat.Text.Host.{hostname, port}
use womprat.Download.Cookie.{Cookie}
use womprat.Download.Ticket.{TicketError, Tickets, consume_download_ticket}
use womprat.Download.Filename.{filename_from_url, unique_download_path}

pub data Status : Type 0 where
  downloading complete failed : Status

-- downloadState
pub record DownloadState : Type 0 where
  pub filename : Bytes
  pub size : ℤ
  pub done : ℕ
  pub status : Status
  pub error : Bytes
  pub path : Bytes

-- `currentDownload` and `downloadStarting`
pub record Downloads : Type 0 where
  pub current : Option DownloadState
  pub starting : Bool

abbrev pub is_downloading : Option DownloadState → Bool
is_downloading none = false
is_downloading (some st) = elim st.status [ downloading ↦ true | _ ↦ false ]

abbrev has_user : Option Userinfo → Bool
has_user none = false
has_user (some _) = true

-- What a web request that begins a download may be refused for.
pub data Refusal : Type 0 where
  bad_url busy no_directory : Refusal
  bad_ticket : TicketError → Refusal

module _ (p : Platform) where
  unfoldable pub parse_download_url : Bytes → Option Url
  parse_download_url raw = elim (p.parse_url (trim_space raw)) [
    | none ↦ none
    | some parsed ↦
        if parsed.scheme != codes "http" && parsed.scheme != codes "https"
        then none
        else if parsed.host == [] || has_user parsed.user || parsed.fragment != []
        then none
        else some parsed
  ]

  abbrev origin_port : Url → Bytes
  origin_port parsed =
      if port parsed.host != []
      then port parsed.host
      else if parsed.scheme == codes "https"
      then codes "443"
      else codes "80"

  pub same_origin : Url → Url → Bool
  same_origin source target =
      if has_user source.user || has_user target.user
      then false
      else if source.scheme != codes "http" && source.scheme != codes "https"
          || source.scheme != target.scheme
      then false
      else p.equal_fold (hostname source.host) (hostname target.host)
        && origin_port source == origin_port target

  pub same_http_origin : Bytes → Bytes → Bool
  same_http_origin source target = elim (p.parse_url source) [
    | none ↦ false
    | some source_url ↦ elim (p.parse_url target) [
      | none ↦ false
      | some target_url ↦ same_origin source_url target_url
    ]
  ]

-- The first section of `handleDownload` under the lock: a place, unless there is a download.
unfoldable pub reserve : Downloads → Option Downloads
reserve d =
    if d.starting || is_downloading d.current then none else some (record d { starting = true })

-- The deferred section, where the request failed behind the first one.
pub release : Downloads → Downloads
release d = record d { starting = false }

-- The last section: the download is the current one.
pub begin : DownloadState → Downloads → Downloads
begin st d = record d { current = some st; starting = false }

-- `setDownloadError`
pub set_download_error : Bytes → DownloadState → DownloadState
set_download_error e st = record st { status = failed; error = e }

-- What is around the start of a download: the directory and its paths, and the name that the URL ends
-- with, `filepath.Base` of the escaped path and what `url.PathUnescape` makes of it.
pub record Place : Type 0 where
  pub dir : Bytes
  pub makes_dir : Bool
  pub exists_path : Bytes → Bool
  pub join : Bytes → Bytes → Bytes
  pub base : Bytes → Bytes
  pub url_base : Url → Bytes
  pub url_unescaped : Url → Option Bytes
  pub now : ℕ

-- The part of `handleDownload` between its sections: the state of the new download and the cookies.
pub prepare :
    Platform
    → Place
    → Bytes
    → Url
    → Tickets
    → Result Refusal (DownloadState × List (Option Cookie)) × Tickets
prepare p place ticket parsed tickets =
    let (redeemed, left) = consume_download_ticket ticket (p.url_string parsed) place.now tickets in
    elim redeemed [
      | err e ↦ (err (bad_ticket e), left)
      | ok cookies ↦
          let name = filename_from_url p (place.url_base parsed) (place.url_unescaped parsed) in
          let save_path =
            unique_download_path p place.exists_path place.join place.now place.dir name in
          if not place.makes_dir then (err no_directory, left) else (
            ok (
              record {
                filename = place.base save_path;
                size = pos 0;
                done = 0;
                status = downloading;
                error = [];
                path = save_path;
              },
              cookies,
            ),
            left,
          )
    ]

-- a missing target is no URL
unfoldable pub parse_target : Platform → Bytes → Option Url
parse_target p [] = none
parse_target p (c ∷ target) = parse_download_url p (c ∷ target)

-- `handleDownload` behind its checks of the method, where nothing comes between its sections
unfoldable pub handle_download :
    Platform
    → Place
    → Bytes
    → Bytes
    → Tickets
    → Downloads
    → Result Refusal (DownloadState × List (Option Cookie)) × (Tickets × Downloads)
handle_download p place target ticket tickets d = elim (parse_target p target) [
  | none ↦ (err bad_url, (tickets, d))
  | some parsed ↦ elim (reserve d) [
    | none ↦ (err busy, (tickets, d))
    | some held ↦
        let (prepared, left) = prepare p place ticket parsed tickets in
        elim prepared [
          | err e ↦ (err e, (left, release held))
          | ok (st, cookies) ↦ (ok (st, cookies), (left, begin st held))
        ]
  ]
]
