-- ===== src/Address/Resolved.antt =====
-- About `resolveAddressInput` of address_search.go: the kinds of its results.
use womprat.Base.{
  Bytes, true, false, none, some, [], ◌==◌, bytes_eq, ltb, length, Result, ok, err, is_ok,
  Bool-cases, Option-cases, ◌≡◌, ◌⊎◌, inl, inr, arith, ◌≤◌, ◌<◌, eqb_iff,
}
use womprat.Platform.{Platform, Url, Addr}
use womprat.Text.Space.{trim_space}
use womprat.CustomUrl.{parse_custom_url}
use womprat.Address.Defs.{
  AddressError, Names, control, empty, too_long, credentials, bad_target, local_path, bad_scheme,
  is_custom, is_local_path, has_scheme, is_blocked, candidate, has_password, looks_like_address,
  search_url, literal, resolve_word, resolve_trimmed, resolve_address_input, normalize_address_url,
}

module _ (p : Platform) (n : Names) where
  -- The input holds a white space, where no password is looked for; or as an address it holds none.
  abbrev pub NoPassword : Bytes → Type 0
  NoPassword input =
      (n.has_space input ≡ true)
      ⊎ (p.parse_url (candidate p n input) ≡ none)
      ⊎ ((u : Url) × (p.parse_url (candidate p n input) ≡ some u)
          × (has_password p n u.user ≡ false))

  -- An input that may be sent to a search engine.
  pub record Searchable (input : Bytes) : Type 0 where
    pub short : length input ≤ 4096
    pub printable : n.has_control input ≡ false
    pub no_custom : is_custom p n input ≡ false
    pub no_path : is_local_path p n input ≡ false
    pub no_scheme : has_scheme p n input ≡ false
    pub no_blocked : is_blocked p n input ≡ false
    pub no_password : NoPassword input

  -- What is opened as an address: an input with a scheme as it is, any other one behind `http://`,
  -- where it holds no white space and no password and looks like an address.
  pub data IsCandidate (input : Bytes) : Bytes → Type 0 where
    whole : has_scheme p n input ≡ true → IsCandidate input input
    prefixed :
        (u : Url)
        → has_scheme p n input ≡ false
        → n.has_space input ≡ false
        → p.parse_url (candidate p n input) ≡ some u
        → has_password p n u.user ≡ false
        → looks_like_address p n input u ≡ true
        → IsCandidate input (candidate p n input)

  -- Why an input is refused.
  pub data IsRefused (input : Bytes) : AddressError → Type 0 where
    nothing_typed : input ≡ [] → IsRefused input empty
    longer : 4096 < length input → IsRefused input too_long
    controls : n.has_control input ≡ true → IsRefused input control
    no_target :
        is_custom p n input ≡ true
        → is_ok (parse_custom_url p input) ≡ false
        → IsRefused input bad_target
    path_typed : is_local_path p n input ≡ true → IsRefused input local_path
    scheme_blocked : is_blocked p n input ≡ true → IsRefused input bad_scheme
    password_typed :
        (u : Url)
        → p.parse_url (candidate p n input) ≡ some u
        → has_password p n u.user ≡ true
        → IsRefused input credentials

  pub data IsResolved (provider input : Bytes) : Result AddressError Bytes → Type 0 where
    refused : (e : AddressError) → IsRefused input e → IsResolved provider input (err e)
    custom_target :
        is_custom p n input ≡ true
        → is_ok (parse_custom_url p input) ≡ true
        → IsResolved provider input (ok input)
    web_address :
        (raw : Bytes)
        → IsCandidate input raw
        → IsResolved provider input (normalize_address_url p n raw)
    literal_address :
        (ip : Addr) → p.parse_addr input ≡ some ip → IsResolved provider input (literal p n ip)
    search_words : Searchable input → IsResolved provider input (ok (search_url p n provider input))

  -- The word is not searched for where it is an address, or holds a password.
  resolve_word-IsResolved :
      (provider input : Bytes)
      → has_scheme p n input ≡ false
      → n.has_space input ≡ false
      → (NoPassword input → Searchable input)
      → IsResolved provider input (resolve_word p n input (search_url p n provider input))
  unfolding resolve_word
  resolve_word-IsResolved provider input plain one searchable =
      elim (Option-cases (p.parse_addr input)) [
        | inr (ip, q) ↦ rw (resolve_word, q) (literal_address ip q)
        | inl q ↦ elim (Option-cases (p.parse_url (candidate p n input))) [
          | inl u ↦ rw (resolve_word, q, u) (search_words (searchable (inr (inl u))))
          | inr (parsed, u) ↦ elim (Bool-cases (has_password p n parsed.user)) [
            | inl w ↦ rw (resolve_word, q, u, w) (refused credentials (password_typed parsed u w))
            | inr w ↦ elim (Bool-cases (looks_like_address p n input parsed)) [
              | inl v ↦
                  rw (resolve_word, q, u, w, v)
                    (web_address (candidate p n input) (prefixed parsed plain one u w v))
              | inr v ↦
                  rw (resolve_word, q, u, w, v)
                    (search_words (searchable (inr (inr (parsed, u, w)))))
            ]
          ]
        ]
      ]

  resolve_trimmed-IsResolved :
      (provider input : Bytes)
      → length input ≤ 4096
      → n.has_control input ≡ false
      → IsResolved provider input (resolve_trimmed p n input provider)
  unfolding resolve_trimmed
  resolve_trimmed-IsResolved provider input short printable =
      elim (Bool-cases (is_custom p n input)) [
        | inl q ↦ elim (Bool-cases (is_ok (parse_custom_url p input))) [
          | inl u ↦ rw (resolve_trimmed, q, u) (custom_target q u)
          | inr u ↦ rw (resolve_trimmed, q, u) (refused bad_target (no_target q u))
        ]
        | inr q ↦ elim (Bool-cases (is_local_path p n input)) [
          | inl u ↦ rw (resolve_trimmed, q, u) (refused local_path (path_typed u))
          | inr u ↦ elim (Bool-cases (has_scheme p n input)) [
            | inl w ↦ rw (resolve_trimmed, q, u, w) (web_address input (whole w))
            | inr w ↦ elim (Bool-cases (is_blocked p n input)) [
              | inl v ↦ rw (resolve_trimmed, q, u, w, v) (refused bad_scheme (scheme_blocked v))
              | inr v ↦
                  let searchable : NoPassword input → Searchable input = λ h. record {
                    short = short;
                    printable = printable;
                    no_custom = q;
                    no_path = u;
                    no_scheme = w;
                    no_blocked = v;
                    no_password = h;
                  } in
                  elim (Bool-cases (n.has_space input)) [
                    | inl x ↦
                        rw (resolve_trimmed, q, u, w, v, x) (search_words (searchable (inl x)))
                    | inr x ↦
                        rw (resolve_trimmed, q, u, w, v, x)
                          (resolve_word-IsResolved provider input w x searchable)
                  ]
            ]
          ]
        ]
      ]

  -- Whatever is typed, it is refused for one of the reasons of `IsRefused`; or it is an address for
  -- ssh, vnc or rdp that parses; or it comes out of `normalizeAddressURL`, as it was typed where it has
  -- a scheme, and else behind `http://` where it has no white space, no password and looks like an
  -- address; or it is a literal address, without a zone or with an error; or it is searched for, and
  -- then it is short, without control characters, no local path, has no scheme, begins with none of
  -- the blocked ones, and unless it holds a white space it would hold no password as an address.
  pub resolve_address_input-IsResolved :
      (raw provider : Bytes)
      → IsResolved provider (trim_space raw) (resolve_address_input p n raw provider)
  unfolding resolve_address_input
  resolve_address_input-IsResolved raw provider =
      let input : Bytes = trim_space raw in
      elim (Bool-cases (input == [])) [
        | inl q ↦
            rw (resolve_address_input, q) (refused empty (nothing_typed ((eqb_iff input []).0 q)))
        | inr q ↦ elim (Bool-cases (ltb 4096 (length input))) [
          | inl u ↦ rw (resolve_address_input, q, u) (refused too_long (longer (ground (arith, u))))
          | inr u ↦ elim (Bool-cases (n.has_control input)) [
            | inl w ↦ rw (resolve_address_input, q, u, w) (refused control (controls w))
            | inr w ↦
                rw (resolve_address_input, q, u, w)
                  (resolve_trimmed-IsResolved provider input (ground (arith, u)) w)
          ]
        ]
      ]
