-- ===== src/Tests/Downloads.antt =====
-- A download of a file of three bytes, of which the client has the first.
use mfsync.Common.{
  ℕ, ◌≡◌, refl, true, false, Option, none, some, List, [], ◌∷◌, Bytes, codes, arith, ok, suc,
}
use mfsync.Info.{FileInformation, RequestedFile, AvailableFile}
use mfsync.Json.Sample.{sample, sample-IsLawful, sample_runs, encode}
use mfsync.Disk.{Entries, nil, entry, directory, regular}
use mfsync.Crypto
use mfsync.Crypto.{CryptoHandler, EncryptionWrapper, get_public_key, seal_text}
use mfsync.Crypto.Sample
use mfsync.Crypto.Exchange.{Meeting}
use mfsync.FileHandler.{FileHandler, empty_handler, is_stored}
use mfsync.FileHandler.Operations.{OfstreamWrapper, create_file, makes}
use mfsync.FileHandler.Sharing.{read_file}
use mfsync.Protocol.{handshake_json, file_message_json, wrap_with_header}
use mfsync.Protocol.Fields.{requested_file_json}
use mfsync.Protocol.Converter.{answer_json, wrapper_json}
use mfsync.Protocol.Ends.{AnswerText, RequestText, Framed}
use mfsync.Protocol.Framing.{IsClean}
use mfsync.Transfer
use mfsync.Transfer.{read_file_chunk, reads, receive, send}
use mfsync.Transfer.Stored.{Finished}
use mfsync.ClientSession
use mfsync.ServerSession
use mfsync.ServerSession.{accepted}
use mfsync.Dialogue.{Dialogue, fetch}
use mfsync.Dialogue.Greeting.{connecting_to}
use mfsync.Dialogue.Fetching.{Texts}
use mfsync.Dialogue.Downloads.{Continues, fetch-Finished}

abbrev pub host : ℕ → CryptoHandler
host n = record {
  private_key = n ∷ [];
  public_key = n ∷ [];
  trust_all = true;
  trusted_keys = [];
  allowed_keys = [];
}

abbrev pub file_info : FileInformation
file_info = record { file_name = codes "f"; sha256sum = none; size = 3 }

abbrev pub wanted : RequestedFile
wanted = record { file_info = file_info; offset = 0; chunksize = 1024 }

abbrev pub requested : RequestedFile
requested = record { file_info = file_info; offset = 1; chunksize = 1024 }

abbrev pub other_info : FileInformation
other_info = record { file_name = codes "g"; sha256sum = none; size = 3 }

abbrev pub offered : FileInformation → AvailableFile
offered f = record {
  file_info = f;
  source_address = codes "::1";
  source_port = 8000;
  public_key = 3 ∷ [];
}

abbrev handler : FileHandler
handler = record empty_handler {
  storage_path = codes "/s";
  storage_initialized = true;
  available_files = offered file_info ∷ offered other_info ∷ [];
}

abbrev pub locked : FileHandler
locked = record handler {
  locked_files = record { file_info = file_info; token = 0; active = true } ∷ [];
  next_token = 1;
}

abbrev pub files : Entries
files = entry (codes "s") (directory (entry (codes "f.mfsync") (regular true (10 ∷ [])) nil)) nil

abbrev pub stream : OfstreamWrapper
stream = record {
  path = codes "/s/f.mfsync";
  requested_file = requested;
  position = 1;
  write_token = some 0;
}

abbrev served : Entries
served =
    entry (codes "s") (directory (entry (codes "f") (regular true (10 ∷ 11 ∷ 12 ∷ [])) nil)) nil

abbrev pub client_before : ClientSession.Shared
client_before = record {
  root = files;
  handler = handler;
  queue = [];
  answers = record { available = 100; mkdir = makes; can_open = true };
  static_iv = none;
}

abbrev pub client_after : ClientSession.Shared
client_after = record client_before { handler = locked }

abbrev pub server_shared : ServerSession.Shared
server_shared = record {
  root = served;
  handler = record handler { stored_files = file_info ∷ [] };
  static_iv = none;
}

abbrev pub secret : Bytes
secret = 11 ∷ []

abbrev pub plain_answer : Bytes
unfolding sample_runs
plain_answer = encode (answer_json sample true) []

abbrev pub answer_text : ℕ → Bytes
unfolding sample_runs wrapper_json
answer_text n = encode (wrapper_json sample (seal_text Sample.sample secret plain_answer n [])) []

abbrev pub greeting_text : Bytes
unfolding sample_runs
greeting_text = encode (handshake_json sample (2 ∷ []) (9 ∷ [])) []

abbrev pub plain_request : Bytes
unfolding sample_runs requested_file_json
plain_request = encode (requested_file_json sample requested) []

abbrev pub sealed_request : Bytes
unfolding sample_runs wrapper_json
sealed_request =
    encode
      (wrapper_json sample (seal_text Sample.sample secret (wrap_with_header plain_request) 1 []))
      []

abbrev pub request_text : Bytes
unfolding sample_runs
request_text = encode (file_message_json sample (2 ∷ []) sealed_request) []

pub greeting_text-IsClean : IsClean greeting_text
unfolding mfsync.Common.find greeting_text
greeting_text-IsClean = refl

plain_request-IsClean : IsClean plain_request
unfolding mfsync.Common.find plain_request
plain_request-IsClean = refl

request_text-IsClean : IsClean request_text
unfolding mfsync.Common.find request_text sealed_request seal_text wrap_with_header plain_request
request_text-IsClean = refl

pub answers-IsClean :
    (IsClean (answer_text 0)) × (IsClean (answer_text 2)) × IsClean (answer_text 3)
unfolding mfsync.Common.find answer_text seal_text
answers-IsClean = (refl, refl, refl)

pub answered :
    (n : ℕ) → IsClean (answer_text n) → AnswerText sample Sample.sample secret n (answer_text n)
unfolding plain_answer encode answer_text wrapper_json
answered n c = record { plain = plain_answer; plain_text = refl; framed = (refl, c) }

pub plain_request_text : Framed sample (requested_file_json sample requested) plain_request
unfolding plain_request encode
plain_request_text = (refl, plain_request-IsClean)

pub sealed_request_text :
    sample.dump
      (wrapper_json sample (seal_text Sample.sample secret (wrap_with_header plain_request) 1 []))
    ≡ ok sealed_request
unfolding sealed_request encode
sealed_request_text = refl

pub request-Framed : Framed sample (file_message_json sample (2 ∷ []) sealed_request) request_text
unfolding request_text encode
request-Framed = (refl, request_text-IsClean)

pub asked : RequestText sample Sample.sample (2 ∷ []) secret 1 requested request_text
asked = record {
  plain = plain_request;
  plain_text = plain_request_text;
  sealed = sealed_request;
  sealed_text = sealed_request_text;
  framed = request-Framed;
}

pub meeting : Meeting Sample.sample Sample.sample-IsLawful (host 1) (host 2) (9 ∷ []) (3 ∷ []) 8 []
unfolding Crypto.is_allowed
meeting = record {
  pair_a = refl;
  pair_b = refl;
  allowed_by_a = refl;
  allowed_by_b = refl;
  agreed = refl;
  some_salt = refl;
}

pub greeting : Framed sample (handshake_json sample (2 ∷ []) (9 ∷ [])) greeting_text
unfolding greeting_text encode
greeting = (refl, greeting_text-IsClean)

texts :
    Texts sample sample-IsLawful Sample.sample
      (λ a b. a ≡ b)
      Sample.sample-IsLawful
      (λ t. [])
      (get_public_key Sample.sample (host 1))
      (9 ∷ [])
      secret
      requested
      greeting_text
      (answer_text 0)
      request_text
      (answer_text 2)
      (answer_text 3)
unfolding greeting_text encode get_public_key
texts = record {
  greeting = (refl, greeting_text-IsClean);
  accepted_text = answered 0 answers-IsClean.0;
  request = asked;
  confirmation = answered 2 answers-IsClean.1;
  start = answered 3 answers-IsClean.2;
}

pub made : (create_file handler files client_before.answers wanted).result ≡ ok (some stream)
unfolding create_file is_stored mfsync.NameSet.contains mfsync.FileHandler.is_blocked
    mfsync.Disk.node_at mfsync.FileHandler.get_storage_path mfsync.FileHandler.get_tmp_path
    mfsync.Common.parent
made = refl

made_request : (create_file handler files client_before.answers wanted).requested ≡ requested
unfolding create_file is_stored mfsync.NameSet.contains mfsync.FileHandler.is_blocked
    mfsync.Disk.node_at mfsync.FileHandler.get_storage_path mfsync.FileHandler.get_tmp_path
    mfsync.Common.parent
made_request = refl

pub stored : is_stored server_shared.handler file_info ≡ true
unfolding is_stored mfsync.NameSet.contains mfsync.Common.str_lt
stored = refl

abbrev pub reader : FileHandler
reader = (read_file served server_shared.handler file_info).1

pub opens :
    read_file served server_shared.handler file_info ≡ (ok (some (10 ∷ 11 ∷ 12 ∷ [])), reader)
unfolding read_file mfsync.Disk.node_at mfsync.NameSet.contains mfsync.Common.str_lt
    mfsync.FileHandler.get_storage_path
opens = refl

pub continues : Continues requested client_after stream (10 ∷ []) (11 ∷ 12 ∷ [])
unfolding mfsync.FileHandler.get_tmp_path mfsync.Disk.node_at
continues = record {
  at_tmp = refl;
  on_disk = refl;
  offset = refl;
  size = refl;
  size_fits = omega arith;
  some_chunksize = omega arith;
  more = omega arith;
}

fetch-Finished_example :
    (d : Dialogue) × (c : Transfer.ClientSession) × (s : Transfer.ServerSession) × (n : ℕ)
    × (sent : Bytes) × (fetch sample Sample.sample
          (λ t. [])
          (record {
            client = connecting_to (host 1) (3 ∷ []) wanted;
            server = accepted 8000 (host 2);
            reply = none;
          })
          (client_before, server_shared)
          (client_before, server_shared)
          (client_after, server_shared)
          (8 ∷ [])
          (1 ∷ [], 0 ∷ 2 ∷ [])
        ≡ ok (d, client_after))
    × (d.client.phase ≡ ClientSession.receiving stream n c)
    × (read_file_chunk c.requested c.bytes_written ≡ reads n)
    × (d.server.phase ≡ ServerSession.streaming (Transfer.write_file Sample.sample s).1)
    × (d.reply ≡ (Transfer.write_file Sample.sample s).0)
    × (send Sample.sample 4 s ≡ some sent)
    × Finished
        (λ t. [])
        c
        (10 ∷ 11 ∷ 12 ∷ [])
        (receive Sample.sample 3 (λ t. []) (read_file_chunk c.requested c.bytes_written, c) sent)
unfolding create_file is_stored mfsync.NameSet.contains mfsync.FileHandler.is_blocked
    mfsync.Disk.node_at mfsync.FileHandler.get_storage_path mfsync.FileHandler.get_tmp_path
    mfsync.Common.parent get_public_key
fetch-Finished_example =
    fetch-Finished sample sample-IsLawful Sample.sample (λ a b. a ≡ b) Sample.sample-IsLawful
      (λ t. []) (host 1) (host 2) (3 ∷ []) greeting_text (answer_text 0) request_text
      (answer_text 2) (answer_text 3) (10 ∷ []) (11 ∷ 12 ∷ []) [] (1 ∷ [], 0 ∷ 2 ∷ []) 8 8000 wanted
      (client_before, server_shared) (client_before, server_shared) (client_after, server_shared)
      stream reader meeting texts made (omega arith, omega arith, omega arith) stored opens
      continues refl
