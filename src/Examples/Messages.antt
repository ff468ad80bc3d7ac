-- ===== src/Examples/Messages.antt =====
-- Messages of failed navigations, and the end of a log.
use womprat.Base.{
  Bytes, codes, ℕ, true, [], ◌∷◌, ◌++◌, ◌≡◌, ◌⊎◌, ◌≤◌, length, all, false, All, drop, ◌<◌, ◌-◌,
}
use womprat.Text.Search.{has_prefix}
use womprat.Navigation.{
  chromium_navigation_message, explained, is_symbol_byte, is_symbol, symbol_of,
}
use womprat.Navigation.Named.{Explains, IsPlain, chromium_navigation_message-Named}
use womprat.Logs.{AtLine, tail_bytes_at_line_boundary, tail_bytes-AtLine}

abbrev event : Bytes
event = codes " net::ERR_CONNECTION_RESET "

chromium_navigation_message-Named_example :
    ((is_symbol (symbol_of event) ≡ false) × (chromium_navigation_message event ≡ []))
    ⊎ ((text : Bytes) × (chromium_navigation_message event
          ≡ text ++ codes " (" ++ symbol_of event ++ codes ")")
        × (Explains explained (symbol_of event) text)
        × (has_prefix (symbol_of event) (codes "ERR_") ≡ true)
        × (length (symbol_of event) ≤ 96)
        × (all is_symbol_byte (symbol_of event) ≡ true)
        × (All IsPlain (chromium_navigation_message event)))
chromium_navigation_message-Named_example = chromium_navigation_message-Named event

abbrev limit : ℕ
limit = 4

abbrev log : Bytes
log = codes "ab" ++ (10 ∷ codes "cd")

tail_bytes-AtLine_example :
    (((limit ≡ 0) ⊎ (length log ≤ limit)) × (tail_bytes_at_line_boundary log limit ≡ log))
    ⊎ ((limit < length log)
        × (0 < limit)
        × ((front : Bytes) × (drop (length log - limit) log
              ≡ front ++ tail_bytes_at_line_boundary log limit)
            × (length (tail_bytes_at_line_boundary log limit) ≤ limit)
            × AtLine front (tail_bytes_at_line_boundary log limit)))
tail_bytes-AtLine_example = tail_bytes-AtLine log limit
