-- ===== src/Examples/Toy.antt =====
-- A small platform for the examples: ASCII text is left as it is, and two texts parse.
use womprat.Base.{Bytes, codes, none, some, [], ◌==◌, nat_eq, bytes_eq, if◌then◌else◌, false, eqb}
use womprat.Address.{Names}
use womprat.Text.Search.{contains}
use womprat.Platform.{Platform, Url, Addr}

abbrev pub ssh_url : Url
ssh_url = record {
  scheme = codes "ssh";
  opaque = [];
  user = some (record { username = codes "root"; password = none });
  host = codes "server:2222";
  path = [];
  raw_path = [];
  omit_host = false;
  force_query = false;
  raw_query = [];
  fragment = [];
  raw_fragment = [];
}

abbrev pub page : Bytes
page = codes "https://a/"

abbrev pub page_url : Url
page_url = record ssh_url {
  scheme = codes "https";
  user = none;
  host = codes "a";
  path = codes "/";
}

abbrev pub peer : Addr
peer = record { text = codes "100.64.0.2"; is_6 = false; zone = [] }

abbrev pub toy : Platform
toy = record {
  to_lower = λ s. s;
  to_upper = λ s. s;
  equal_fold = λ s t. eqb s t;
  parse_url = λ s.
      if s == codes "ssh://root@server:2222"
      then some ssh_url
      else if s == page
      then some page_url
      else none;
  url_string = λ u. if u.host == codes "a" then page else [];
  user_string = λ s. s;
  parse_ip = λ _. none;
  parse_addr = λ s. if s == codes "100.64.0.2" then some peer else none;
}

abbrev pub names : Names
names = record {
  has_control = λ _. false;
  has_space = λ s. contains s (codes " ");
  to_ascii = λ host. some host;
  query_escape = λ s. s;
}
