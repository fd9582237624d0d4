-- ===== src/Tests/Program.antt =====
-- The options, the bars and the hosts at concrete data.
use mfsync.Common.{
  ℕ, ◌+◌, ◌≡◌, refl, true, false, not, ◌&&◌, Option, none, some, is_some, List, [], ◌∷◌, Bytes,
  codes, arith, ok,
}
use mfsync.Info.{HostInformation}
use mfsync.Json.Sample.{sample, sample_runs, encode}
use mfsync.Crypto.{is_allowed}
use mfsync.Protocol.{wrap_with_header, announcement_json, version}
use mfsync.Protocol.Fields.{get_host_info_from_message}
use mfsync.CommandLine.{Mode, Options, System, goes, is_fetch, is_no_mode, mode_of}
use mfsync.CommandLine.Plans.{Plan, main}
use mfsync.CommandLine.Parts.{parts, parts_of, main-parts}
use mfsync.Progress.{FileProgress, Bar, update_bar, create_file_progress, new_progress, new_bar}
use mfsync.Progress
use mfsync.Progress.Settling.{update_bar-settles}
use mfsync.Fetcher.{Fetcher, Received, handle_receive_from, print_all}
use mfsync.Fetcher.Hosts.{AllNew, print_all-AllNew, session_allowed}
use mfsync.Tests.Downloads.{host, file_info}

abbrev options : Options
options = record {
  version = false;
  help = false;
  show_public_key = false;
  list_hosts = false;
  trace = false;
  verbose = false;
  mode = some (codes "share");
  destination = some (codes "/s" ∷ []);
  port = some 9000;
  multicast_port = none;
  concurrent_downloads = none;
  key_file = none;
  config = none;
  multicast_address = none;
  multicast_listen_address = none;
  server_tls = none;
  client_tls = none;
  trusted_keys = some (codes "ab" ∷ []);
  outbound_addresses = none;
  outbound_interfaces = none;
}

abbrev system : System
system = record {
  home = some (codes "/h");
  exists = λ path. true;
  create_directory = λ path. true;
  join = λ a b. b;
  init_key = λ path. codes "cd";
  read_config = λ path. some [];
  make_address = λ text. some text;
  is_unspecified = λ a. false;
  is_v4 = λ a. true;
  is_multicast = λ a. true;
  interfaces = [];
}

abbrev sharing : Plan
sharing = record {
  mode = mfsync.CommandLine.share;
  public_key = codes "cd";
  allowed_keys = codes "ab" ∷ [];
  port = 9000;
  multicast_port = 30001;
  addresses = record { listen = codes "0.0.0.0"; senders = none ∷ []; group = codes "239.255.0.1" };
  storage = some (codes "/s");
  senders = none ∷ [];
  serves = true;
  server_tls = none;
  fetches = false;
  receiver = none;
  lists_hosts = false;
  prints_availables = false;
}

shares : main options system ≡ goes sharing
unfolding main mfsync.Common.str_eq
shares = refl

main-parts_example :
    (parts sharing ≡ parts_of sharing.mode)
    × (mode_of false (some (codes "share")) ≡ goes sharing.mode)
    × (is_no_mode sharing.mode ≡ false)
    × ((not (is_fetch sharing.mode) && not (is_some options.destination)) ≡ false)
main-parts_example = main-parts options system sharing shares

abbrev percent : ℕ → ℕ → ℕ
percent transferred size = 50

abbrev progress : FileProgress
progress = record (new_progress file_info) { bytes_transferred = 1; status = Progress.downloading }

update_bar-settles_example :
    let q = (update_bar percent (update_bar percent progress).1).1 in
    ((update_bar percent q).0 ≡ false)
    × (q.status ≡ Progress.downloading)
    × (q.bytes_transferred ≡ 1)
    × (q.old_bytes_transferred ≡ 1)
update_bar-settles_example = update_bar-settles percent progress new_bar refl

abbrev announcement : Bytes
unfolding sample_runs
announcement = encode (announcement_json sample (codes "ab") 8000) []

abbrev info : HostInformation
info = record { public_key = codes "ab"; version = version; ip = codes "::1"; port = 8000 }

abbrev fetcher : Fetcher
fetcher = record { crypto = host 1; list_host_infos = false; host_infos = [] }

abbrev started : Received
started = record { printed = none; session = some info; receives = true; fetcher = fetcher }

starts :
    handle_receive_from sample fetcher (some (wrap_with_header announcement, codes "::1"))
    ≡ ok started
unfolding handle_receive_from wrap_with_header announcement mfsync.Common.find mfsync.Common.str_eq
starts = refl

session_allowed_example :
    (is_allowed (host 1) (codes "ab") ≡ true)
    × (false ≡ false)
    × (get_host_info_from_message sample (wrap_with_header announcement) (codes "::1")
        ≡ ok (some info))
    × (started.printed ≡ none)
session_allowed_example =
    session_allowed sample fetcher (wrap_with_header announcement) (codes "::1") started info starts
      refl

abbrev lister : Fetcher
lister = record fetcher { list_host_infos = true }

abbrev datagrams : List (Option (Bytes × Bytes))
datagrams =
    some (wrap_with_header announcement, codes "::1")
    ∷ some (wrap_with_header announcement, codes "::1")
    ∷ []

printed : print_all sample lister datagrams ≡ ok (codes "ab" ∷ [])
unfolding print_all wrap_with_header announcement mfsync.Common.find mfsync.Common.str_eq
printed = refl

print_all-AllNew_example : AllNew [] (codes "ab" ∷ [])
print_all-AllNew_example = print_all-AllNew sample lister datagrams (codes "ab" ∷ []) printed
