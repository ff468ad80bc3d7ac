-- ===== src/Handlers.antt =====
-- The handlers that only report, and the one that resolves an address: search_settings.go, download.go
-- and main.go. The lists of a reply are values of the model; the encoding as JSON is left out.
use womprat.Base.{
  Bytes, codes, Bool, Option, none, some, List, [], ◌∷◌, Result, ok, err, if◌then◌else◌, not,
}
use womprat.Platform.{Platform}
use womprat.Text.Search.{trim_suffix}
use womprat.Config.{normalize_search_provider}
use womprat.Server.{Server, Request, Response, failure, success, require_get, require_post, posted}
use womprat.Address.{Names, resolve_address_input}
use womprat.Download.Transfer.{Downloads, DownloadState}

-- `handleResolveAddress`
unfoldable pub handle_resolve_address :
    Platform → Names → Request Bytes → Server → Response × Server
handle_resolve_address p n r = posted r λ input s.
    elim (resolve_address_input p n input
      (normalize_search_provider s.app.config.search_provider)) [
        | err _ ↦ (failure 400 (codes "invalid address"), s)
        | ok target ↦ (success ((codes "url", target) ∷ []), s)
      ]

-- `handleSSHResize`: `none` is the answer 204 without a body.
pub handle_ssh_resize : Bytes → Option Response
handle_ssh_resize method = require_post method

-- `handleDownloadStatus`: a refusal, or the current download, if there is one
pub handle_download_status : Bytes → Downloads → Result Response (Option DownloadState)
handle_download_status method d = elim (require_get method) [
  | some refused ↦ err refused
  | none ↦ ok d.current
]

-- What the node's own client answers about itself: its name and its addresses.
pub record PeerInfo : Type 0 where
  pub name : Bytes
  pub ips : List Bytes
  pub online : Bool
  pub os : Bytes
  pub exit_node_option : Bool

pub record LocalClient : Type 0 where
  pub connects : Server → Option Bytes
  pub status : Server → Result Bytes (Bytes × List Bytes)
  pub peers : Server → Result Bytes (List PeerInfo)

pub data TsStatus : Type 0 where
  disconnected : Bytes → Bool → TsStatus
  failing : Bytes → TsStatus
  connected : Bytes → List Bytes → Bytes → Bool → TsStatus

-- `handleTSStatus`
pub handle_ts_status : LocalClient → Bytes → Server → Result Response TsStatus
handle_ts_status c method s = elim (require_get method) [
  | some refused ↦ err refused
  | none ↦
      if not s.has_node then ok (disconnected s.ts_last_error s.retrying) else elim (c.connects s) [
        | some e ↦ ok (failing e)
        | none ↦ elim (c.status s) [
          | err e ↦ ok (failing e)
          | ok (name, ips) ↦ ok (connected name ips s.ts_last_error s.retrying)
        ]
      ]
]

peer_list : List PeerInfo → List PeerInfo
peer_list [] = []
peer_list (peer ∷ peers) =
    record peer { name = trim_suffix peer.name (codes ".") } ∷ peer_list peers

-- `handleTSPeers`
pub handle_ts_peers : LocalClient → Bytes → Server → Result Response (List PeerInfo)
handle_ts_peers c method s = elim (require_get method) [
  | some refused ↦ err refused
  | none ↦ if not s.has_node then ok [] else elim (c.connects s) [
    | some e ↦ err (failure 500 e)
    | none ↦ elim (c.peers s) [ err e ↦ err (failure 500 e) | ok peers ↦ ok (peer_list peers) ]
  ]
]
