-- ===== src/Tests/Hosts.antt =====
-- A program with two downloads, of which both hold a stream.
use mathlib.Core.Path.{subst}
use mfsync.Common.{
  ℕ, zero, suc, str_eq, ◌≡◌, refl, sym, ap, ◌∙◌, true, false, Option, none, some, List, [], ◌∷◌,
  Bytes, codes, arith, ok, get_elem?,
}
use mfsync.Info.{RequestedFile, file_information_eq}
use mfsync.Json.Sample.{sample, sample-IsLawful, sample_runs, encode}
use mfsync.Disk.{Entries, nil, entry, directory, regular}
use mfsync.Crypto.{get_public_key, seal_text}
use mfsync.Crypto.Sample
use mfsync.Crypto.Exchange.{get_public_key-derive}
use mfsync.FileHandler.{is_blocked}
use mfsync.FileHandler.Operations.{OfstreamWrapper, create_file}
use mfsync.Protocol.{file_message_json, wrap_with_header}
use mfsync.Protocol.Fields.{requested_file_json}
use mfsync.Protocol.Converter.{wrapper_json}
use mfsync.Protocol.Ends.{RequestText}
use mfsync.Protocol.Framing.{IsClean}
use mfsync.ClientSession
use mfsync.Dialogue.Greeting.{connecting_to}
use mfsync.Dialogue.Greeting
use mfsync.Dialogue.Asking.{after_two, client_asks}
use mfsync.Server
use mfsync.Host.{Host, Step, Reach, start, later, Idle, after_download}
use mfsync.Host.Places.{some-injective}
use mfsync.Host.Offers.{Offered}
use mfsync.Host.Names.{names_exclusive}
use mfsync.ClientSession.Frames.{file_in}
use mfsync.Host.Downloads.{downloads_exclusive, held_blocked, blocked_held}
use mfsync.Tests.Downloads
use mfsync.Tests.Downloads.{
  other_info, offered, host, client_before, client_after, locked, request_text, answer_text,
  file_info, secret, stream,
}
use mfsync.Tests.Clients.{key, d₀, held₀, hash, ready, asking, asks}

abbrev other : RequestedFile
other = record { file_info = other_info; offset = 0; chunksize = 1024 }

abbrev other_stream : OfstreamWrapper
other_stream = record {
  path = codes "/s/g.mfsync";
  requested_file = other;
  position = 0;
  write_token = some 1;
}

abbrev plain_other : Bytes
unfolding sample_runs requested_file_json
plain_other = encode (requested_file_json sample other) []

abbrev sealed_other : Bytes
unfolding sample_runs wrapper_json
sealed_other =
    encode
      (wrapper_json sample (seal_text Sample.sample secret (wrap_with_header plain_other) 1 [])) []

abbrev other_text : Bytes
unfolding sample_runs
other_text = encode (file_message_json sample (2 ∷ []) sealed_other) []

plain_other-IsClean : IsClean plain_other
unfolding mfsync.Common.find plain_other
plain_other-IsClean = refl

other_text-IsClean : IsClean other_text
unfolding mfsync.Common.find other_text sealed_other seal_text wrap_with_header plain_other
other_text-IsClean = refl

plain_other_text : sample.dump (requested_file_json sample other) ≡ ok plain_other
unfolding plain_other encode
plain_other_text = refl

sealed_other_text :
    sample.dump
      (wrapper_json sample (seal_text Sample.sample secret (wrap_with_header plain_other) 1 []))
    ≡ ok sealed_other
unfolding sealed_other encode
sealed_other_text = refl

other_dump : sample.dump (file_message_json sample (2 ∷ []) sealed_other) ≡ ok other_text
unfolding other_text encode
other_dump = refl

asked_other : RequestText sample Sample.sample (2 ∷ []) secret 1 other other_text
asked_other = record {
  plain = plain_other;
  plain_text = (plain_other_text, plain_other-IsClean);
  sealed = sealed_other;
  sealed_text = sealed_other_text;
  framed = (other_dump, other_text-IsClean);
}

abbrev first : Host
first = record {
  root = client_before.root;
  handler = client_before.handler;
  queue = [];
  receive_iv = none;
  send_iv = none;
  downloads = ready ∷ Greeting.greeted (connecting_to (host 1) key other) d₀ ∷ [];
  uploads = [];
  lists = [];
  server = Server.created 8000 (host 1);
  fetcher = record { crypto = host 1; list_host_infos = false; host_infos = [] };
}

first-Idle : Idle first
first-Idle = (refl, (refl, (refl, tt)))

abbrev ready_other : ClientSession.Connection
ready_other = Greeting.greeted (connecting_to (host 1) key other) d₀

abbrev files_after : Entries
files_after =
    entry (codes "s")
      (directory (
        entry (codes "f.mfsync") (regular true (10 ∷ []))
          (entry (codes "g.mfsync") (regular true []) nil)))
      nil

abbrev last_shared : ClientSession.Shared
last_shared = record client_after {
  root = files_after;
  handler = record locked {
    locked_files =
        record { file_info = file_info; token = 0; active = true }
        ∷ record { file_info = other_info; token = 1; active = true }
        ∷ [];
    next_token = 2;
  };
}

made_other : create_file locked client_before.root client_before.answers other ≡ record {
  result = ok (some other_stream);
  requested = other;
  handler = last_shared.handler;
  root = files_after;
}
unfolding create_file mfsync.FileHandler.is_stored mfsync.NameSet.contains
    mfsync.FileHandler.is_blocked mfsync.Disk.node_at mfsync.FileHandler.get_storage_path
    mfsync.FileHandler.get_tmp_path mfsync.Common.parent mfsync.Disk.put_at
made_other = refl

request_other :
    RequestText sample Sample.sample
      (get_public_key Sample.sample d₀)
      secret
      1
      (create_file locked client_before.root client_before.answers other).requested
      other_text
unfolding get_public_key
request_other = rw made_other (
    subst (λ k. RequestText sample Sample.sample k secret 1 other other_text)
      (sym (get_public_key-derive Sample.sample (host 1) key (9 ∷ []))) asked_other)

abbrev asking_other : ClientSession.Connection
asking_other = record ready_other {
  requested = other;
  derived = some (after_two d₀ key);
  phase = ClientSession.requesting other_stream;
}

abbrev last_reaction : ClientSession.Reaction
last_reaction = record {
  sent = some (wrap_with_header other_text);
  connection = asking_other;
  shared = last_shared;
}

asks_other :
    ClientSession.step sample Sample.sample hash ready_other client_after
      (ClientSession.arrived (wrap_with_header (answer_text 0)))
    ≡ ok last_reaction
unfolding ClientSession.step
asks_other =
    client_asks sample sample-IsLawful Sample.sample Sample.sample-IsLawful hash secret (host 1) key
      (answer_text 0) other_text other d₀ client_after other_stream held₀
      (Downloads.answered 0 Downloads.answers-IsClean.0) (ap (λ c. c.result) made_other)
      request_other
    ∙ ap
        (λ c. ok (record {
          sent = some (wrap_with_header other_text);
          connection = record ready_other {
            requested = c.requested;
            derived = some (after_two d₀ key);
            phase = ClientSession.requesting other_stream;
          };
          shared = record client_after { handler = c.handler; root = c.root };
        }))
        made_other

abbrev first_reaction : ClientSession.Reaction
first_reaction = record {
  sent = some (wrap_with_header request_text);
  connection = asking;
  shared = client_after;
}

abbrev last : Host
last = record first {
  root = files_after;
  handler = last_shared.handler;
  downloads = asking ∷ asking_other ∷ [];
}

reached : Reach sample Sample.sample hash false (host 1) first last
unfolding after_download
reached =
    later
      (later start (
        Step.downloads 0 ready client_before.answers
          (ClientSession.arrived (wrap_with_header (answer_text 0))) first_reaction refl asks))
      (Step.downloads 1 ready_other client_before.answers
        (ClientSession.arrived (wrap_with_header (answer_text 0))) last_reaction refl asks_other)

downloads_exclusive_example : file_information_eq file_info other_info ≡ false
downloads_exclusive_example =
    downloads_exclusive sample Sample.sample hash false (host 1) first last 0 1 asking asking_other
      stream other_stream first-Idle reached refl refl (omega arith) refl refl

settled_at :
    (i : ℕ) (s : ClientSession.Connection)
    → get_elem? first.downloads i ≡ some s
    → Offered first.handler (file_in s.phase s.requested.file_info)
unfolding mfsync.NameSet.find mfsync.Common.str_eq mfsync.Common.str_lt
settled_at zero s e =
    subst (λ c. Offered first.handler (file_in c.phase c.requested.file_info))
      (some-injective ready s e) (offered file_info, refl, refl)
settled_at (suc zero) s e =
    subst (λ c. Offered first.handler (file_in c.phase c.requested.file_info))
      (some-injective ready_other s e) (offered other_info, refl, refl)
settled_at (suc (suc i)) s e = cc

names_exclusive_example :
    str_eq asking.requested.file_info.file_name asking_other.requested.file_info.file_name ≡ false
names_exclusive_example =
    names_exclusive sample Sample.sample hash false (host 1) first last 0 1 asking asking_other
      stream other_stream first-Idle (tt, settled_at) reached refl refl (omega arith) refl refl

held_blocked_example : is_blocked last.handler other_info ≡ true
held_blocked_example =
    held_blocked sample Sample.sample hash false (host 1) first last 1 asking_other other_stream
      first-Idle reached refl refl

blocked_held_example :
    (i : ℕ) × (s : ClientSession.Connection) × (p : OfstreamWrapper) × (get_elem? last.downloads i
      ≡ some s)
    × (ClientSession.held s.phase ≡ some p)
    × (file_information_eq s.requested.file_info other_info ≡ true)
unfolding is_blocked mfsync.Common.str_eq
blocked_held_example =
    blocked_held sample Sample.sample hash false (host 1) first last other_info first-Idle reached
      refl
