-- ===== src/Download/Transfer/Whole.antt =====
-- About `downloadToFile` of download.go: the files that a transfer leaves.
use womprat.Base.{
  Bytes, Bool, true, false, ◌||◌, Option, none, some, List, [], ◌++◌, ltb, leb, append_assoc, ok,
  lookup, insert, delete, lookup-insert, lookup-delete, eqb, eqb_iff, eqb_refl, Bool-cases,
  Option-cases, Result-cases, ◌≡◌, refl, sym, ap, subst, ◌∙◌, ◌⊎◌, inl, inr, arith,
}
use womprat.Download.Cookie.{Cookie, cookies_for_download_url}
use womprat.Download.Transfer.{DownloadState, complete, failed, set_download_error}
use womprat.Download.Transfer.Fetch.{
  Files, Body, more, last, Answer, HttpClient, write_failure, count, copy_body, close_file,
  is_present, receive, download_to_file,
}

-- all bytes of a body
abbrev pub bytes_of : Body → Bytes
bytes_of (more chunk failure rest) = chunk ++ bytes_of rest
bytes_of (last chunk failure end) = chunk

copy_body-cases :
    (body : Body) (st : DownloadState) (content : Bytes)
    → ((copy_body body st content).1.0.path ≡ st.path)
      × ((((copy_body body st content).0 ≡ false)
            × ((copy_body body st content).1.0.status ≡ failed))
          ⊎ (((copy_body body st content).0 ≡ true)
              × ((copy_body body st content).1.1 ≡ content ++ bytes_of body)))
unfolding copy_body set_download_error
copy_body-cases (more chunk failure rest) st content =
    elim (Option-cases (write_failure chunk failure)) [
      | inr (w, q) ↦ rw (copy_body, q) (refl, inl (refl, refl))
      | inl q ↦
          let h = copy_body-cases rest (count chunk st) (content ++ chunk) in
          rw (copy_body, q)
            (
              h.0,
              elim h.1 [
                | inl bad ↦ inl bad
                | inr (done, whole) ↦ inr (done, whole ∙ append_assoc content chunk (bytes_of rest))
              ],
            )
    ]
copy_body-cases (last chunk failure end) st content =
    elim (Option-cases (write_failure chunk failure)) [
      | inr (w, q) ↦ rw (copy_body, q) (refl, inl (refl, refl))
      | inl q ↦ elim (Option-cases end) [
        | inl u ↦ rw (copy_body, q, u) (refl, inr (refl, refl))
        | inr (e, u) ↦ rw (copy_body, q, u) (refl, inl (refl, refl))
      ]
    ]

-- The download failed and the files are as they were, or it is complete: there was no file at its
-- path, there is one with the whole body of an answer of success that was given, and the others are as they were.
abbrev pub IsWhole : (Answer → Type 0) → Bytes → Files → DownloadState × Files → Type 0
IsWhole Gave path files r =
    ((r.0.status ≡ failed) × ((j : Bytes) → lookup j r.1 ≡ lookup j files))
    ⊎ ((a : Answer) × (Gave a)
        × ((ltb a.status_code 200 || leb 300 a.status_code) ≡ false)
        × (r.0.status ≡ complete)
        × (lookup path files ≡ none)
        × (lookup path r.1 ≡ some (bytes_of a.body))
        × ((j : Bytes) → (j ≡ path) ⊎ (lookup j r.1 ≡ lookup j files)))

-- a file that was made and removed again
discard :
    (path : Bytes) (files : Files)
    → lookup path files ≡ none
    → (j : Bytes) → lookup j (delete path files) ≡ lookup j files
discard path files free j = elim (Bool-cases (eqb path j)) [
  | inr q ↦ lookup-delete path j files ∙ rw q refl
  | inl q ↦
      lookup-delete path j files
      ∙ rw q (sym (subst (λ x. lookup x files ≡ none) ((eqb_iff path j).0 q) free))
]

lookup-other :
    (path j content : Bytes) (files : Files)
    → (j ≡ path) ⊎ (lookup j (insert path content files) ≡ lookup j files)
lookup-other path j content files = elim (Bool-cases (eqb path j)) [
  | inl q ↦ inl (sym ((eqb_iff path j).0 q))
  | inr q ↦ inr (lookup-insert path j content files ∙ rw q refl)
]

lookup-same :
    (path content : Bytes) (files : Files) → lookup path (insert path content files) ≡ some content
lookup-same path content files = lookup-insert path path content files ∙ rw (eqb_refl path) refl

close_file-cases :
    (a : Answer) (completed : Bool) (st : DownloadState) (content : Bytes) (files : Files)
    → a.removes ≡ true
    → lookup st.path files ≡ none
    → (((close_file a completed st content files).1 ≡ delete st.path files)
        × (((close_file a completed st content files).0.status ≡ failed)
            ⊎ ((completed ≡ false)
                × ((close_file a completed st content files).0.status ≡ st.status))))
      ⊎ ((completed ≡ true)
          × ((close_file a completed st content files).0.status ≡ complete)
          × ((close_file a completed st content files).1 ≡ insert st.path content files))
unfolding close_file set_download_error
close_file-cases a completed st content files removes free = elim (Option-cases a.close_error) [
  | inr (e, q) ↦ rw (close_file, q, removes) (inl (refl, inl refl))
  | inl q ↦ elim (Bool-cases completed) [
    | inl u ↦ rw (close_file, q, removes, u) (inr (refl, refl, refl))
    | inr u ↦ rw (close_file, q, removes, u) (inl (refl, inr (refl, refl)))
  ]
]

close_file-IsWhole :
    (Gave : Answer → Type 0) (a : Answer) (completed : Bool) (st : DownloadState) (content : Bytes)
    (files : Files)
    → Gave a
    → a.removes ≡ true
    → (ltb a.status_code 200 || leb 300 a.status_code) ≡ false
    → lookup st.path files ≡ none
    → ((completed ≡ false) × (st.status ≡ failed))
      ⊎ ((completed ≡ true) × (content ≡ bytes_of a.body))
    → IsWhole Gave st.path files (close_file a completed st content files)
close_file-IsWhole Gave a completed st content files gave removes good free h =
    let r : DownloadState × Files = close_file a completed st content files in
    let kept : r.1 ≡ delete st.path files → (j : Bytes) → lookup j r.1 ≡ lookup j files =
      λ e j. ap (lookup j) e ∙ discard st.path files free j in
    elim (close_file-cases a completed st content files removes free) [
      | inl (gone, inl bad) ↦ inl (bad, kept gone)
      | inl (gone, inr (part, same)) ↦ elim h [
        | inl (_, bad) ↦ inl (same ∙ bad, kept gone)
        | inr (done, _) ↦ ground (arith, part, done)
      ]
      | inr (done, finished, written) ↦ elim h [
        | inl (part, _) ↦ ground (arith, part, done)
        | inr (_, whole) ↦ inr (
          a,
          gave,
          good,
          finished,
          free,
          ap (lookup st.path) written ∙ lookup-same st.path content files ∙ ap some whole,
          λ j. elim (lookup-other st.path j content files) [
            | inl same ↦ inl same
            | inr kept ↦ inr (ap (lookup j) written ∙ kept)
          ],
        )
      ]
    ]

receive-IsWhole :
    (Gave : Answer → Type 0) (a : Answer) (st : DownloadState) (files : Files)
    → Gave a
    → a.removes ≡ true
    → IsWhole Gave st.path files (receive a st files)
unfolding receive set_download_error
receive-IsWhole Gave a st files gave removes =
    elim (Bool-cases (ltb a.status_code 200 || leb 300 a.status_code)) [
      | inl q ↦ rw (receive, q) (inl (refl, λ j. refl))
      | inr q ↦ elim (Bool-cases (is_present (lookup st.path files) || a.cannot_open)) [
        | inl u ↦ rw (receive, q, u) (inl (refl, λ j. refl))
        | inr u ↦
            let sized : DownloadState = record st { size = a.content_length } in
            let copied : DownloadState = (copy_body a.body sized []).1.0 in
            let h = copy_body-cases a.body sized [] in
            let free : lookup st.path files ≡ none = ground (arith, u) in
            rw (receive, q, u)
              (subst
                (λ x. IsWhole Gave x files (
                  close_file a (copy_body a.body sized []).0 copied (copy_body a.body sized []).1.1
                    files))
                h.0
                (close_file-IsWhole Gave a (copy_body a.body sized []).0 copied
                  (copy_body a.body sized []).1.1 files gave removes q
                  (subst (λ x. lookup x files ≡ none) (sym h.0) free) h.1))
      ]
    ]

-- A transfer ends as a failure that leaves all files as they were, or complete: then the server
-- answered with success, there was no file at the path of the download, there is one with exactly the
-- bytes of the answer, and every other file is as it was. An incomplete file can be removed.
pub download_to_file-IsWhole :
    (c : HttpClient) (cookies : List (Option Cookie)) (st : DownloadState) (files : Files)
    → ((sent : List Cookie) (a : Answer) → c.sends sent ≡ ok a → a.removes ≡ true)
    → IsWhole
        (λ a. (sent : List Cookie) × (c.sends sent ≡ ok a))
        st.path
        files
        (download_to_file c cookies st files)
unfolding download_to_file set_download_error
download_to_file-IsWhole c cookies st files removes = elim (Option-cases c.jar_error) [
  | inr (e, q) ↦ rw (download_to_file, q) (inl (refl, λ j. refl))
  | inl q ↦ elim (Result-cases c.request) [
    | inl (e, u) ↦ rw (download_to_file, q, u) (inl (refl, λ j. refl))
    | inr (url, u) ↦ elim (Result-cases (c.sends (cookies_for_download_url url c.now cookies))) [
      | inl (e, w) ↦ rw (download_to_file, q, u, w) (inl (refl, λ j. refl))
      | inr (a, w) ↦
          rw (download_to_file, q, u, w)
            (receive-IsWhole (λ x. (sent : List Cookie) × (c.sends sent ≡ ok x)) a st files
              (cookies_for_download_url url c.now cookies, w) (removes _ a w))
    ]
  ]
]
