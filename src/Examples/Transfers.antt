-- ===== src/Examples/Transfers.antt =====
-- A download, and inputs of the address bar.
use womprat.Base.{codes, pos, true, false, none, some, List, [], ◌∷◌, ◌++◌, ◌≡◌, refl, eqb, ok}
use womprat.Examples.Toy.{names, toy, page, page_url}
use womprat.Text.Search.{contains, has_prefix, split, trim_suffix, has_suffix}
use womprat.CustomUrl.{normalize_browser_url, check_browser_url}
use womprat.Text.Space.{trim_space}
use womprat.Text.Host.{hostname, port, split_host_port, cut_last}
use womprat.Download.Cookie.{Cookie}
use womprat.Download.Transfer.{
  DownloadState, Downloads, Place, downloading, reserve, begin, busy, handle_download, parse_target,
  parse_download_url,
}
use womprat.Download.Transfer.Refused.{handle_download-Refused}
use womprat.Download.Transfer.Fetch.{more, last, Answer, HttpClient, download_to_file}
use womprat.Download.Transfer.Whole.{IsWhole, download_to_file-IsWhole}
use womprat.Download.Transfer.Single.{fresh, reserves, begins, Single, Reached-Single}
use womprat.Address.{
  resolve_address_input, normalize_address_url, check_address, ascii_host, is_address_label,
}
use womprat.Address.Resolved.{IsResolved, resolve_address_input-IsResolved}
use womprat.Address.Hosted.{IsHosted, normalize_address_url-IsHosted}

abbrev started : DownloadState
started = record {
  filename = codes "a";
  size = pos 0;
  done = 0;
  status = downloading;
  error = [];
  path = codes "/d/a";
}

abbrev answer : Answer
answer = record {
  status_code = 200;
  status_text = codes "200 OK";
  content_length = pos 4;
  open_error = [];
  cannot_open = false;
  body = more (codes "ab") none (last (codes "cd") none none);
  close_error = none;
  removes = true;
}

abbrev client : HttpClient
client = record { jar_error = none; request = ok page_url; sends = λ _. ok answer; now = 0 }

download_to_file-IsWhole_example :
    IsWhole
      (λ a. (sent : List Cookie) × (client.sends sent ≡ ok a))
      started.path
      ((codes "/d/b", []) ∷ [])
      (download_to_file client [] started ((codes "/d/b", []) ∷ []))
download_to_file-IsWhole_example =
    download_to_file-IsWhole client [] started ((codes "/d/b", []) ∷ []) (λ sent a e. cc)

abbrev held : Downloads
held = record { current = none; starting = true }

Reached-Single_example : Single 0 1 (begin started held)
Reached-Single_example =
    Reached-Single (begins started refl (reserves {d' = held} fresh (unfold reserve in refl)))

resolve_address_input-IsResolved_example :
    IsResolved toy names
      (codes "bing")
      (trim_space (codes " javascript:x "))
      (resolve_address_input toy names (codes " javascript:x ") (codes "bing"))
resolve_address_input-IsResolved_example =
    resolve_address_input-IsResolved toy names (codes " javascript:x ") (codes "bing")

normalize_address_url-IsHosted_example : IsHosted toy names page
normalize_address_url-IsHosted_example = normalize_address_url-IsHosted toy names page page (
    unfold normalize_address_url normalize_browser_url check_browser_url check_address ascii_host
      is_address_label contains has_prefix hostname port split_host_port cut_last trim_space eqb
      split trim_suffix has_suffix in
    refl)

abbrev place : Place
place = record {
  dir = codes "/d";
  makes_dir = true;
  exists_path = λ _. false;
  join = λ dir name. dir ++ codes "/" ++ name;
  base = λ path. path;
  url_base = λ _. codes "a";
  url_unescaped = λ _. none;
  now = 0;
}

abbrev running : Downloads
running = record { current = some started; starting = false }

handle_download-Refused_example : (handle_download toy place page [] [] running).1.1 ≡ running
handle_download-Refused_example =
    handle_download-Refused toy place page [] [] running busy
      (unfold handle_download parse_target parse_download_url reserve trim_space eqb in refl)
