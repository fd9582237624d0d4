-- ===== src/Tests/Lists.antt =====
-- The encrypted request and the list of files at concrete data.
use mfsync.Common.{
  ◌++◌, ℕ, ◌≡◌, refl, true, false, Option, none, some, List, [], ◌∷◌, Bytes, codes, arith, ok, map,
}
use mfsync.Info.{FileInformation, file_information_named}
use mfsync.Json.Sample.{sample, sample-IsLawful, sample_runs, encode}
use mfsync.Crypto.{
  CryptoHandler, EncryptionWrapper, encrypt, decrypt, set_count, seal_text, is_allowed,
}
use mfsync.Crypto.Sample
use mfsync.Crypto.Exchange.{Synced}
use mfsync.Disk.{nil}
use mfsync.FileHandler.{empty_handler}
use mfsync.FileHandler.Sharing.{add_available_files}
use mfsync.NameSet.Order.{IsSorted}
use mfsync.Protocol.{wrap_with_header, file_list_json}
use mfsync.Protocol.Fields.{create_message_from_file_info, elements_json}
use mfsync.Protocol.Framing.{IsClean}
use mfsync.Protocol.Listing.{available_of}
use mfsync.Protocol.Converter.{wrapper_json, files_to_message, files_from_message}
use mfsync.Protocol.Lists.{files-roundtrip}
use mfsync.Protocol.Ends.{Framed, Holds}
use mfsync.ServerSession
use mfsync.ServerSession.{accepted, handle_read_header}
use mfsync.ListSession
use mfsync.ListSession.{handle_read_encrypted_response, offered}
use mfsync.ListSession.Delivery.{list-delivered}
use mfsync.Tests.Downloads.{host, secret, plain_request}

abbrev knowing : ℕ → Bytes → ℕ → CryptoHandler
knowing n k count = record (host n) {
  trusted_keys = (k, record { key = secret; count = count }) ∷ [];
}

abbrev client : CryptoHandler
client = knowing 1 (3 ∷ []) 1

abbrev server : CryptoHandler
server = knowing 2 (2 ∷ []) 1

in_step : Synced client (3 ∷ []) server (2 ∷ [])
unfolding mfsync.Dict.lookup mfsync.Common.str_eq
in_step = (record { key = secret; count = 1 }, refl, refl)

sealed :
    (encrypt Sample.sample client (3 ∷ []) (wrap_with_header plain_request) []).0
    ≡ some (seal_text Sample.sample secret (wrap_with_header plain_request) 1 [])
unfolding encrypt mfsync.Dict.lookup mfsync.Common.str_eq
sealed = refl

abbrev files : List FileInformation
files =
    record { file_name = codes "f"; sha256sum = none; size = 3 }
    ∷ record { file_name = codes "g"; sha256sum = some (codes "00"); size = 7 }
    ∷ []

abbrev list_text : Bytes
unfolding create_message_from_file_info sample_runs
list_text = encode (sample.array (elements_json sample 8000 files)) []

abbrev wrapper : EncryptionWrapper
wrapper = seal_text Sample.sample secret list_text 1 []

abbrev message : Bytes
unfolding sample_runs wrapper_json
message = encode (wrapper_json sample wrapper) []

abbrev asking : Bytes
unfolding sample_runs
asking = encode (file_list_json sample (2 ∷ [])) []

listed : create_message_from_file_info sample files 8000 ≡ ok list_text
unfolding create_message_from_file_info list_text encode
listed = refl

message-IsClean : IsClean message
unfolding mfsync.Common.find message seal_text list_text
message-IsClean = refl

message-Framed : Framed sample (wrapper_json sample wrapper) message
unfolding message encode
message-Framed = (refl, message-IsClean)

asking-IsClean : IsClean asking
unfolding mfsync.Common.find asking
asking-IsClean = refl

asking-Framed : Framed sample (file_list_json sample (2 ∷ [])) asking
unfolding asking encode
asking-Framed = (refl, asking-IsClean)

sorted : IsSorted files
unfolding mfsync.Common.str_lt
sorted = ((refl, tt), (tt, tt))

allowed : is_allowed server (2 ∷ []) ≡ true
unfolding is_allowed
allowed = refl

held : Holds server (2 ∷ []) secret 1
unfolding mfsync.Dict.lookup mfsync.Common.str_eq
held = refl

-- The client's counter is behind.
abbrev behind : CryptoHandler
behind = knowing 1 (3 ∷ []) 0

held_behind : Holds behind (3 ∷ []) secret 0
unfolding mfsync.Dict.lookup mfsync.Common.str_eq
held_behind = refl

list_sealed : (encrypt Sample.sample server (2 ∷ []) list_text []).0 ≡ some wrapper
unfolding encrypt mfsync.Dict.lookup mfsync.Common.str_eq
list_sealed = refl

files-roundtrip_example :
    (files_to_message sample Sample.sample files 8000 (2 ∷ []) server
      ≡ ok (wrap_with_header message, (encrypt Sample.sample server (2 ∷ []) list_text []).1))
    × (files_from_message sample Sample.sample
          (wrap_with_header message)
          (3 ∷ [])
          behind
          (codes "::1")
          true
        ≡ ok (
          some (map (available_of (codes "::1") 8000 (3 ∷ [])) files),
          (decrypt Sample.sample (set_count behind (3 ∷ []) 1) (3 ∷ []) wrapper).1,
        ))
files-roundtrip_example =
    files-roundtrip sample sample-IsLawful Sample.sample (λ a b. a ≡ b) Sample.sample-IsLawful
      server behind (3 ∷ []) (2 ∷ []) (codes "::1") list_text message secret 1 0 8000 files wrapper
      allowed held held_behind (omega arith) (omega arith) (omega arith, (omega arith, tt)) sorted
      listed list_sealed message-Framed.0 message-Framed.1

abbrev connection : ServerSession.Connection
connection = record (accepted 8000 (host 2)) {
  derived = some server;
  phase = ServerSession.awaits_header;
}

abbrev session : ListSession.Connection
session = record {
  crypto = host 1;
  derived = some behind;
  host_info = record {
    public_key = 3 ∷ [];
    version = codes "0.2.0";
    ip = codes "::1";
    port = 8000;
  };
  address = codes "::1";
  phase = ListSession.awaits_list;
}

list-delivered_example :
    (r : ServerSession.Reaction) × (handle_read_header sample Sample.sample connection
        (record empty_handler { stored_files = files })
        (wrap_with_header asking ++ (0 ∷ 2 ∷ []))
      ≡ ok r)
    × (r.sent ≡ some (wrap_with_header message))
    × (d' : CryptoHandler) × (handle_read_encrypted_response sample Sample.sample session nil
          empty_handler
          (wrap_with_header message)
        ≡ offered sample Sample.sample
            (record session { derived = some d' })
            (add_available_files nil empty_handler
              (map (available_of (codes "::1") 8000 (3 ∷ [])) files)))
list-delivered_example =
    list-delivered sample sample-IsLawful Sample.sample (λ a b. a ≡ b) Sample.sample-IsLawful
      connection session server behind (record empty_handler { stored_files = files }) empty_handler
      nil (2 ∷ []) secret list_text asking message (0 ∷ 2 ∷ []) 1 0 refl refl allowed held
      held_behind (omega arith) (omega arith) (omega arith, (omega arith, tt)) sorted asking-Framed
      listed message-Framed
