-- ===== src/Examples/Servers.antt =====
-- Requests to the local server, and secure shells.
use womprat.Base.{
  Bytes, codes, pos, true, false, ◌&&◌, if◌then◌else◌, int_eq, Option, none, some, List, [], ◌∷◌,
  ◌++◌, ◌≡◌, ◌⊎◌, refl, arith, eqb, eqb_iff, int_eqb_iff, length-take, length-append, ok, take,
  ◌==◌, bytes_eq,
}
use womprat.Examples.Toy.{toy, names}
use womprat.Text.Search.{has_prefix, contains, split}
use womprat.Text.Path.{clean, clean_parts, push_parts, push_part, join}
use womprat.Config.{
  default_config, normalize_config, validate_credential_name, matches_credential_name, save_config,
}
use womprat.Tabs.{Session, Env}
use womprat.Server.{
  Server, Backend, Request, json_value, MasterHashRecord, handle_set_master_password, recover,
  Round, local_host_guard, posted, require_post, decode_settings_json,
  decode_settings_json_internal, set_master, validate_master_password_input, store_master,
  save_credential, commit, commit_written,
}
use womprat.Server.Outcome.{Submits}
use womprat.Api.{Access, Route, to_search, to_exit_node, to_unlock, to_ssh, handle}
use womprat.Ssh.Stored.{FirstKey}
use womprat.Api.Guarded.{Effect, handle-Settled, Saved, serve_all, handle-Atomic, serve_all-Saved}
use womprat.Api.Admitted.{Presents, handle-Guarded}
use womprat.Server.Recovery.{Restored, recover-Restored}
use womprat.Server.Password.{ReadsBack, Accepts, handle_set_master_password-Accepts}
use womprat.Ssh.{
  KeyFormat, Remote, presented, SshRequest, connect_request, password_request, serve_ssh,
  terminal_message, Resize,
}
use womprat.Ssh.Size.{IsSized, terminal_message-IsSized}
use womprat.Ssh.Trusted.{Trusted, serve_ssh-Trusted}

abbrev env : Env
env = record {
  has_views = true;
  has_view = λ _ _. false;
  makes_view = λ _ _. true;
  writes = λ _. true;
  resolves = λ _. true;
}

abbrev zeros : Bytes
zeros = codes "00000000000000000000000000000000"

-- The one record that is written and read: the password "secret".
abbrev stored : MasterHashRecord
stored = record {
  kdf = codes "pbkdf2-sha256";
  iterations = pos 310000;
  salt = take 16 (codes "0123456789abcdef");
  hash = take 32 (codes "secret" ++ zeros);
}

abbrev encode : MasterHashRecord → Option Bytes
encode m =
    if m.kdf == stored.kdf
      && (m.iterations == stored.iterations && (m.salt == stored.salt && m.hash == stored.hash))
    then some (codes "record")
    else none

abbrev decode : Bytes → Option MasterHashRecord
decode x = if x == codes "record" then some stored else none

-- Every salt is the same, a key is 32 bytes of the password, and the node takes every route.
abbrev backend : Backend
backend = record {
  env = env;
  writes_credential = λ _ _ _. true;
  reads_credential = λ _ _. true;
  removes_credential = λ _ _. true;
  key_files = λ _. none;
  random_salt = λ _. some (take 16 (codes "0123456789abcdef"));
  derive = λ password _ _ _. take 32 (password ++ zeros);
  encode_base64 = λ x. x;
  decode_base64 = λ x. some x;
  encode_record = encode;
  decode_record = decode;
  parses_key = λ _. false;
  key_fingerprint = λ _. none;
  generate_key = λ _ _. none;
  node_up = λ _ _. none;
  apply_exit_node = λ _ _. none;
  exit_node_state = λ _. ok true;
  quote = λ x. x;
}

abbrev session : Session
session = record {
  tabs = [];
  active_tab = [];
  config = default_config;
  file = some (normalize_config toy env.resolves default_config);
  session_restored = false;
  locked = false;
  last_close_tab = [];
  last_close_at = none;
  sequence = 0;
  calls = [];
}

abbrev server : Server
server = record {
  app = session;
  credentials = [];
  has_node = true;
  ts_last_error = [];
  exit_node_active = false;
  retrying = false;
  recovering = false;
  pending_auth = [];
  ssh_conns = [];
}

abbrev format : KeyFormat
format = record {
  authorized = λ key. b's' ∷ key;
  fingerprint = λ key. key;
  parse_authorized = λ line. elim line [ [] ↦ none | _ ∷ key ↦ some key ];
  signer = λ _. none;
}

abbrev remote : Remote
remote = record {
  format = format;
  allow_direct_dial = false;
  now = 7;
  dials = λ _ _ _. true;
  handshake = λ _ _ _ _ _. presented (codes "key") true;
}

abbrev address : Bytes
address = codes "127.0.0.1:4000"

abbrev token : Bytes
token = codes "token"

abbrev access : Access
access = record { host = address; header_token = token; query_token = [] }

abbrev post : Bytes → Request Bytes
post body = record { method = codes "POST"; path = []; body = json_value body; ends = true }

abbrev locked_server : Server
locked_server = record server { app = record session { locked = true } }

handle-Guarded_example :
    ((handle toy backend names remote true address token access
        (to_unlock (post (codes "secret")))
        locked_server).1
      ≡ locked_server)
    ⊎ ((access.host ≡ address)
        × (Presents token access)
        × ((locked_server.app.locked ≡ false)
            ⊎ ((r : Request Bytes) × (to_unlock (post (codes "secret")) ≡ to_unlock r)
                × (Submits backend r locked_server))))
handle-Guarded_example =
    handle-Guarded toy backend names remote true address token access
      (to_unlock (post (codes "secret"))) locked_server

abbrev foreign : Access
foreign = record access { host = codes "evil" }

foreign_status :
    (handle toy backend names remote true address token foreign
      (to_search (post (codes "bing")))
      server).0.status
    ≡ 403
foreign_status = unfold handle local_host_guard eqb in refl

handle-Atomic_example :
    ((handle toy backend names remote true address token foreign
        (to_search (post (codes "bing")))
        server).1.app
      ≡ server.app)
    ⊎ ((request : Request (Bytes × Bytes)) × (to_search (post (codes "bing"))
          ≡ to_ssh (password_request request))
        × (FirstKey toy backend remote server.app.sequence server
            (handle toy backend names remote true address token foreign
              (to_search (post (codes "bing")))
              server).1.app))
handle-Atomic_example =
    handle-Atomic toy backend names remote true (λ t h. refl) address token foreign
      (to_search (post (codes "bing"))) server (λ e. omega (arith, e, foreign_status))

abbrev requests : List (Access × Route)
requests =
    (access, to_search (post (codes "bing"))) ∷ (access, to_exit_node (post (codes "exit"))) ∷ []

serve_all-Saved_example :
    Saved toy backend
      (serve_all toy backend names remote true (λ t h. refl) address token requests server).app
serve_all-Saved_example =
    serve_all-Saved toy backend names remote true (λ t h. refl) address token requests server refl

abbrev lost : Server
lost = record server {
  recovering = true;
  app = record session { config = record default_config { exit_node = codes "exit" } };
}

abbrev busy : Round
busy = record { backend = backend; free = false; cancelled = false }

abbrev quiet : Round
quiet = record busy { free = true }

recover-Restored_example : Restored (recover (busy ∷ quiet ∷ []) lost)
recover-Restored_example =
    recover-Restored (codes "exit") (λ e. ground (arith, e)) (busy ∷ []) quiet [] lost (refl, tt)
      refl refl (λ t. refl) (refl, refl, refl, refl)

decode-encode : (m : MasterHashRecord) (x : Bytes) → encode m ≡ some x → decode x ≡ some m
decode-encode m x e = ground (
  arith,
  e,
  eqb_iff m.kdf stored.kdf,
  int_eqb_iff m.iterations stored.iterations,
  eqb_iff m.salt stored.salt,
  eqb_iff m.hash stored.hash,
  eqb_iff x (codes "record"),
)

reads : ReadsBack backend
reads = record {
  base64 = λ x. refl;
  json = decode-encode;
  derived = λ password salt.
      omega (arith, length-take 32 (password ++ zeros), length-append password zeros);
}

handle_set_master_password-Accepts_example :
    Accepts toy backend reads
      (codes "secret")
      server
      (handle_set_master_password toy backend (post (codes "secret")) server)
handle_set_master_password-Accepts_example =
    handle_set_master_password-Accepts toy backend reads (post (codes "secret")) (codes "secret")
      server refl
      (unfold handle_set_master_password posted require_post eqb decode_settings_json
          decode_settings_json_internal set_master validate_master_password_input store_master
          save_credential validate_credential_name matches_credential_name commit commit_written
          save_config has_prefix contains clean clean_parts push_parts push_part join split in
        refl)
      refl (λ salt e. ground (arith, e))

abbrev connects : SshRequest
connects = connect_request (record {
  method = codes "POST";
  path = [];
  body =
      json_value
        (record { host = codes "server"; user = []; port = pos 0; cols = pos 9; rows = pos 999 });
  ends = true;
})

serve_ssh-Trusted_example :
    Trusted toy backend remote (λ key. refl) server (serve_ssh toy backend remote connects server).1
serve_ssh-Trusted_example = serve_ssh-Trusted toy backend remote (λ key. refl) connects server

abbrev unmarshal : Bytes → Option Resize
unmarshal _ = some (record { kind = codes "resize"; cols = pos 9; rows = pos 999 })

terminal_message-IsSized_example : IsSized (terminal_message unmarshal true (codes "{}"))
terminal_message-IsSized_example = terminal_message-IsSized unmarshal true (codes "{}")

handle-Settled_example :
    Effect toy backend names remote true
      (λ t h. refl)
      (to_ssh connects)
      server
      (handle toy backend names remote true address token access (to_ssh connects) server)
handle-Settled_example =
    handle-Settled toy backend names remote true (λ t h. refl) address token access
      (to_ssh connects) server
