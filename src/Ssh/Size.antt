-- ===== src/Ssh/Size.antt =====
-- ws_terminal.go: sizes of terminals, and the messages of the web socket.
use womprat.Base.{
  Bytes, codes, ℤ, pos, negsuc, Bool, true, ◌&&◌, ◌||◌, Option, none, some, [], ◌==◌, ◌!=◌,
  bytes_eq, int_eq, leb_ℤ, ltb_ℤ, if◌then◌else◌, ◌≡◌, refl, ◌⊎◌, inl, inr, arith, Bool-cases,
  Option-cases,
}
use womprat.Text.Space.{trim_space}
use womprat.Text.Search.{has_prefix}
use womprat.Text.Decimal.{atoi}

abbrev pub min_terminal_cols : ℤ
min_terminal_cols = pos 20

abbrev pub max_terminal_cols : ℤ
max_terminal_cols = pos 500

abbrev pub min_terminal_rows : ℤ
min_terminal_rows = pos 5

abbrev pub max_terminal_rows : ℤ
max_terminal_rows = pos 200

pub clamp_terminal_dimension : ℤ → ℤ → ℤ → ℤ
clamp_terminal_dimension value min max =
    if leb_ℤ value (pos 0) || leb_ℤ min (pos 0) || ltb_ℤ max min
    then pos 0
    else if ltb_ℤ value min
    then min
    else if ltb_ℤ max value
    then max
    else value

-- the number of columns or of rows in a control message
pub record Resize : Type 0 where
  pub kind : Bytes
  pub cols : ℤ
  pub rows : ℤ

-- What a message from the web socket does to the session.
pub data TerminalAct : Type 0 where
  window_change : ℤ → ℤ → TerminalAct
  write_input : Bytes → TerminalAct
  ignore : TerminalAct

-- a control message, if it is one
pub resize : Resize → TerminalAct
resize msg =
    let cols = clamp_terminal_dimension msg.cols min_terminal_cols max_terminal_cols in
    let rows = clamp_terminal_dimension msg.rows min_terminal_rows max_terminal_rows in
    if msg.kind != codes "resize"
    then ignore
    else if ltb_ℤ (pos 0) cols && ltb_ℤ (pos 0) rows
    then window_change rows cols
    else ignore

-- A message of the loop from the web socket to the shell; `unmarshal` is `json.Unmarshal`.
pub terminal_message : (Bytes → Option Resize) → Bool → Bytes → TerminalAct
terminal_message unmarshal is_text text =
    if is_text && has_prefix (trim_space text) (codes "{")
    then elim (unmarshal text) [ none ↦ ignore | some msg ↦ resize msg ]
    else write_input text

pub parse_terminal_dimension : Bytes → ℤ → ℤ → ℤ → ℤ
unfolding clamp_terminal_dimension
parse_terminal_dimension raw fallback min max = if raw == [] then fallback else elim (atoi raw) [
  | none ↦ fallback
  | some value ↦
      let clamped = clamp_terminal_dimension value min max in
      if clamped == pos 0 then fallback else clamped
]

-- Between two bounds.
abbrev pub Within : ℤ → ℤ → ℤ → Type 0
Within min max n = (leb_ℤ min n ≡ true) × (leb_ℤ n max ≡ true)

clamp-Within :
    (value min max : ℤ)
    → ltb_ℤ (pos 0) min ≡ true
    → leb_ℤ min max ≡ true
    → (clamp_terminal_dimension value min max ≡ pos 0)
      ⊎ Within min max (clamp_terminal_dimension value min max)
unfolding clamp_terminal_dimension
clamp-Within (negsuc value) min max low order = inl refl
clamp-Within (pos value) (negsuc min) max low order = ground (arith, low)
clamp-Within (pos value) (pos min) (negsuc max) low order = ground (arith, order)
clamp-Within (pos value) (pos min) (pos max) low order = ground (arith, low, order)

-- The window sizes that a shell may be told.
abbrev pub IsSized : TerminalAct → Type 0
IsSized (window_change rows cols) =
    Within min_terminal_rows max_terminal_rows rows
    × Within min_terminal_cols max_terminal_cols cols
IsSized (write_input text) = Unit
IsSized ignore = Unit

clamped-Within :
    (value min max : ℤ)
    → ltb_ℤ (pos 0) min ≡ true
    → leb_ℤ min max ≡ true
    → ltb_ℤ (pos 0) (clamp_terminal_dimension value min max) ≡ true
    → Within min max (clamp_terminal_dimension value min max)
clamped-Within value min max low order big = elim (clamp-Within value min max low order) [
  | inr within ↦ within
  | inl zero ↦ ground (arith, rw zero at big)
]

resize-IsSized : (msg : Resize) → IsSized (resize msg)
unfolding resize
resize-IsSized msg = elim (Bool-cases (msg.kind != codes "resize")) [
  | inl q ↦ rw (resize, q) tt
  | inr q ↦
      let cols : ℤ = clamp_terminal_dimension msg.cols min_terminal_cols max_terminal_cols in
      let rows : ℤ = clamp_terminal_dimension msg.rows min_terminal_rows max_terminal_rows in
      elim (Bool-cases (ltb_ℤ (pos 0) cols)) [
        | inr u ↦ rw (resize, q, u) tt
        | inl u ↦ elim (Bool-cases (ltb_ℤ (pos 0) rows)) [
          | inr w ↦ rw (resize, q, u, w) tt
          | inl w ↦
              rw (resize, q, u, w)
                (
                  clamped-Within msg.rows min_terminal_rows max_terminal_rows refl refl w,
                  clamped-Within msg.cols min_terminal_cols max_terminal_cols refl refl u,
                )
        ]
      ]
]

-- Whatever a message from the web socket says, the shell is only told a size of 5 to 200 rows and 20
-- to 500 columns.
pub terminal_message-IsSized :
    (unmarshal : Bytes → Option Resize) (is_text : Bool) (text : Bytes)
    → IsSized (terminal_message unmarshal is_text text)
unfolding terminal_message
terminal_message-IsSized unmarshal is_text text =
    elim (Bool-cases (is_text && has_prefix (trim_space text) (codes "{"))) [
      | inr q ↦ rw (terminal_message, q) tt
      | inl q ↦ elim (Option-cases (unmarshal text)) [
        | inl u ↦ rw (terminal_message, q, u) tt
        | inr (msg, u) ↦ rw (terminal_message, q, u) (resize-IsSized msg)
      ]
    ]
