-- ===== src/Examples/Proxies.antt =====
-- A client that asks the proxy for a name.
use womprat.Base.{Bytes, codes, true, none, [], ◌∷◌, ◌++◌, All}
use womprat.Examples.Toy.{toy}
use womprat.Socks.{Proxy, handle_socks_5}
use womprat.Socks.Dials.{IsProper, handle_socks_5-IsProper}

abbrev proxy : Proxy
proxy = record { writes = λ _ _. true; has_node = true; dial = λ _ _. none; ip_string = λ b. b }

-- CONNECT to port 22 of `host`, with no authentication
abbrev client : Bytes
client = 5 ∷ 1 ∷ 0 ∷ 5 ∷ 1 ∷ 0 ∷ 3 ∷ 4 ∷ (codes "host" ++ 0 ∷ 22 ∷ [])

handle_socks_5-IsProper_example : All (IsProper toy proxy) (handle_socks_5 toy proxy client)
handle_socks_5-IsProper_example = handle_socks_5-IsProper toy proxy client
