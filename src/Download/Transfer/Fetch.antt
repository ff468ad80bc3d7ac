-- ===== src/Download/Transfer/Fetch.antt =====
-- `downloadToFile`, over the answer of a server and a map from paths to the contents of files.
use womprat.Base.{
  Bytes, ℕ, ℤ, ◌+◌, Bool, true, false, ◌||◌, Option, none, some, List, [], ◌∷◌, ◌++◌, ltb, leb,
  length, if◌then◌else◌, Result, ok, err, lookup, insert, delete,
}
use womprat.Platform.{Url}
use womprat.Download.Cookie.{Cookie, cookies_for_download_url}
use womprat.Download.Transfer.{DownloadState, complete, set_download_error}

abbrev pub Files : Type 0
Files = List (Bytes × Bytes)

-- What the reads of a body come to, each with a failed write's error and the part it wrote: more to
-- come, or the end, with the error of the last read unless it is the end of the file.
pub data Body : Type 0 where
  more : Bytes → Option (Bytes × Bytes) → Body → Body
  last : Bytes → Option (Bytes × Bytes) → Option Bytes → Body

pub record Answer : Type 0 where
  pub status_code : ℕ
  pub status_text : Bytes
  pub content_length : ℤ
  -- the error of `os.OpenFile`, and whether it comes although there is no such file
  pub open_error : Bytes
  pub cannot_open : Bool
  pub body : Body
  pub close_error : Option Bytes
  pub removes : Bool

-- The HTTP client with its cookie jar.
pub record HttpClient : Type 0 where
  pub jar_error : Option Bytes
  pub request : Result Bytes Url
  pub sends : List Cookie → Result Bytes Answer
  pub now : ℕ

abbrev pub write_failure : Bytes → Option (Bytes × Bytes) → Option (Bytes × Bytes)
write_failure [] failure = none
write_failure (_ ∷ _) failure = failure

abbrev pub count : Bytes → DownloadState → DownloadState
count chunk st = record st { done = st.done + length chunk }

-- the loop over the body: whether it completed, the state, and what the file holds
unfoldable pub copy_body : Body → DownloadState → Bytes → Bool × (DownloadState × Bytes)
copy_body (more chunk failure rest) st content = elim (write_failure chunk failure) [
  | some (e, part) ↦ (false, (set_download_error e st, content ++ part))
  | none ↦ copy_body rest (count chunk st) (content ++ chunk)
]
copy_body (last chunk failure end) st content = elim (write_failure chunk failure) [
  | some (e, part) ↦ (false, (set_download_error e st, content ++ part))
  | none ↦ elim end [
    | none ↦ (true, (count chunk st, content ++ chunk))
    | some e ↦ (false, (set_download_error e (count chunk st), content ++ chunk))
  ]
]

-- the deferred function behind the loop
unfoldable pub close_file : Answer → Bool → DownloadState → Bytes → Files → DownloadState × Files
close_file a completed st content files =
    let discarded = if a.removes then delete st.path files else insert st.path content files in
    elim a.close_error [
      | some e ↦ (set_download_error e st, discarded)
      | none ↦
          if completed
          then (record st { status = complete }, insert st.path content files)
          else (st, discarded)
    ]

abbrev pub is_present : Option Bytes → Bool
is_present none = false
is_present (some _) = true

unfoldable pub receive : Answer → DownloadState → Files → DownloadState × Files
receive a st files =
    if ltb a.status_code 200 || leb 300 a.status_code
    then (set_download_error a.status_text st, files)
    else let sized = record st { size = a.content_length } in
      if is_present (lookup st.path files) || a.cannot_open
      then (set_download_error a.open_error sized, files)
      else let (completed, (copied, content)) = copy_body a.body sized [] in
        close_file a completed copied content files

unfoldable pub download_to_file :
    HttpClient → List (Option Cookie) → DownloadState → Files → DownloadState × Files
download_to_file c cookies st files = elim c.jar_error [
  | some e ↦ (set_download_error e st, files)
  | none ↦ elim c.request [
    | err e ↦ (set_download_error e st, files)
    | ok url ↦ elim (c.sends (cookies_for_download_url url c.now cookies)) [
      | err e ↦ (set_download_error e st, files)
      | ok a ↦ receive a st files
    ]
  ]
]
