-- ===== src/Server/Defs.antt =====
-- `App` as the handlers see it, requests, responses, and what is around the server.
use womprat.Base.{Bytes, codes, ℕ, ℤ, Bool, Option, List, [], ◌∷◌, Result}
use womprat.Config.{AppConfig, HostConfig}
use womprat.Tabs.{Session, Env}

-- masterHashRecord
pub record MasterHashRecord : Type 0 where
  pub kdf : Bytes
  pub iterations : ℤ
  pub salt : Bytes
  pub hash : Bytes

pub record SshKeyEntry : Type 0 where
  pub name : Bytes
  pub fingerprint : Bytes
  pub hosts : List Bytes

-- pendingSSH
pub record PendingSsh : Type 0 where
  pub host : Bytes
  pub user : Bytes
  pub port : ℤ
  pub cols : ℤ
  pub rows : ℤ

-- The fields of `App` behind the handlers: those of the tabs with the settings and their file, the
-- files of the credentials as their decrypted contents, and the state of the embedded node.
pub record Server : Type 0 where
  pub app : Session
  pub credentials : List (Bytes × Bytes)
  pub has_node : Bool
  pub ts_last_error : Bytes
  pub exit_node_active : Bool
  pub retrying : Bool
  pub recovering : Bool
  pub pending_auth : List (Bytes × PendingSsh)
  pub ssh_conns : List Bytes

-- What a JSON decoder finds in a body: a value, nothing at all, or something invalid.
pub data Decoded (B : Type 0) : Type 0 where
  json_value : B → Decoded B
  json_empty json_invalid : Decoded B

-- A request, as far as a handler that expects a `B` reads it; `ends` says that nothing follows the
-- first JSON value.
pub record Request (B : Type 0) : Type 0 where
  pub method : Bytes
  pub path : Bytes
  pub body : Decoded B
  pub ends : Bool

pub data Payload : Type 0 where
  text_reply : Bytes → Payload
  fields_reply : List (Bytes × Bytes) → Payload
  history_reply : List Bytes → Payload
  hosts_reply : List (Bytes × HostConfig) → Payload
  keys_reply : List SshKeyEntry → Payload
  config_reply : AppConfig → Payload

pub record Response : Type 0 where
  pub status : ℕ
  pub payload : Payload

abbrev pub status_ok : Response
status_ok = record { status = 200; payload = fields_reply ((codes "status", codes "ok") ∷ []) }

abbrev pub failure : ℕ → Bytes → Response
failure status message = record { status = status; payload = text_reply message }

abbrev pub success : List (Bytes × Bytes) → Response
success pairs = record { status = 200; payload = fields_reply pairs }

-- What is around the handlers. An answer may depend on the state before the call.
pub record Backend : Type 0 where
  -- the settings file, the native views and the address bar, as the tabs see them
  pub env : Env
  -- encryption and the files of the credentials: whether one can be written, read, removed
  pub writes_credential : Server → Bytes → Bytes → Bool
  pub reads_credential : Server → Bytes → Bool
  pub removes_credential : Server → Bytes → Bool
  -- the directory of the SSH keys: names, and whether each is a directory
  pub key_files : Server → Option (List (Bytes × Bool))
  -- rand.Read, pbkdf2.Key with SHA-256, base64.StdEncoding, encoding/json on the record
  pub random_salt : Server → Option Bytes
  pub derive : Bytes → Bytes → ℤ → ℕ → Bytes
  pub encode_base64 : Bytes → Bytes
  pub decode_base64 : Bytes → Option Bytes
  pub encode_record : MasterHashRecord → Option Bytes
  pub decode_record : Bytes → Option MasterHashRecord
  -- ssh.ParseRawPrivateKey with ssh.NewSignerFromKey, and a new key: its PEM and its fingerprint
  pub parses_key : Bytes → Bool
  pub key_fingerprint : Bytes → Option Bytes
  pub generate_key : Server → Bytes → Option (Bytes × (Bytes × Bytes))
  -- (*tsnet.Server).Up, `exitNodeApply` and `exitNodeState`: an error's text is `some`, `err`
  pub node_up : Server → Bytes → Option Bytes
  pub apply_exit_node : Server → Bytes → Option Bytes
  pub exit_node_state : Server → Result Bytes Bool
  -- fmt.Sprintf("%q", …)
  pub quote : Bytes → Bytes
