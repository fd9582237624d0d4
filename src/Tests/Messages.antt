-- ===== src/Tests/Messages.antt =====
-- Messages at concrete data, over the sample of the JSON library.
use mfsync.Common.{
  ℕ, ◌≡◌, refl, Bool, true, false, Option, none, some, List, [], ◌∷◌, Bytes, codes, arith,
}
use mfsync.Common.{Outcome, ok, undefined, throws, out_of_range, map}
use mfsync.Info.{FileInformation, RequestedFile}
use mfsync.Json.Sample.{
  sample, sample-IsLawful, sample_runs, encode, text, number, field, item, end,
}
use mfsync.Crypto.{CryptoHandler, EncryptionWrapper, encrypt}
use mfsync.Crypto.Sample
use mfsync.Crypto.Exchange.{Synced}
use mfsync.Protocol.{
  wrap_with_header, create_error_message, handshake_json, file_list_json, file_message_json,
  denied_json, announcement_json, get_message_type, get_json_from_message, handshake, file_list,
  file, denied, create_handshake_message, create_file_list_message, create_file_message,
  create_denied_message,
}
use mfsync.Protocol.Fields.{
  requested_file_json, get_requested_file_from_message, get_host_info_from_message,
  create_message_from_file_info, get_available_files_from_message, elements_json,
  create_messages_from_file_info, element_json,
}
use mfsync.Protocol.Framing.{IsClean, create_error_message-IsClean}
use mfsync.Protocol.Kinds.{get_message_type-create}
use mfsync.Protocol.Listing.{available_of, file_list-roundtrip, missing_port-throws}
use mfsync.Protocol.Batches.{Packs, create_messages-Packs}
use mfsync.Protocol.Converter.{answer_json, wrapper_json}
use mfsync.NameSet.Order.{IsSorted}
use mfsync.Info.{file_information_named}

abbrev key : Bytes
key = codes "ab"

abbrev salt : Bytes
salt = codes "cd"

abbrev file_info : FileInformation
file_info = record { file_name = codes "f"; sha256sum = some (codes "00"); size = 3 }

abbrev other_info : FileInformation
other_info = record { file_name = codes "g"; sha256sum = none; size = 7 }

abbrev requested : RequestedFile
requested = record { file_info = file_info; offset = 1; chunksize = 1024 }

abbrev handshake_text : Bytes
unfolding sample_runs
handshake_text = encode (handshake_json sample key salt) []

abbrev file_list_text : Bytes
unfolding sample_runs
file_list_text = encode (file_list_json sample key) []

abbrev file_text : Bytes
unfolding sample_runs
file_text = encode (file_message_json sample key salt) []

abbrev denied_text : Bytes
unfolding sample_runs
denied_text = encode (denied_json sample) []

abbrev requested_text : Bytes
unfolding sample_runs requested_file_json
requested_text = encode (requested_file_json sample requested) []

abbrev announcement_text : Bytes
unfolding sample_runs
announcement_text = encode (announcement_json sample key 8000) []

handshake_text-IsClean : IsClean handshake_text
unfolding mfsync.Common.find handshake_text
handshake_text-IsClean = refl

file_list_text-IsClean : IsClean file_list_text
unfolding mfsync.Common.find file_list_text
file_list_text-IsClean = refl

file_text-IsClean : IsClean file_text
unfolding mfsync.Common.find file_text
file_text-IsClean = refl

denied_text-IsClean : IsClean denied_text
unfolding mfsync.Common.find denied_text
denied_text-IsClean = refl

requested_text-IsClean : IsClean requested_text
unfolding mfsync.Common.find requested_text
requested_text-IsClean = refl

announcement_text-IsClean : IsClean announcement_text
unfolding mfsync.Common.find announcement_text
announcement_text-IsClean = refl

reason-IsClean : IsClean (codes "file doesnt exists")
unfolding mfsync.Common.find
reason-IsClean = refl

create_error_message-IsClean_example : IsClean (create_error_message (codes "file doesnt exists"))
create_error_message-IsClean_example =
    create_error_message-IsClean (codes "file doesnt exists") reason-IsClean

get_message_type-create_example :
    (create_handshake_message sample key salt ≡ ok (wrap_with_header handshake_text))
    × (get_message_type sample (wrap_with_header handshake_text) ≡ ok handshake)
    × (create_file_list_message sample key ≡ ok (wrap_with_header file_list_text))
    × (get_message_type sample (wrap_with_header file_list_text) ≡ ok file_list)
    × (create_file_message sample key salt ≡ ok (wrap_with_header file_text))
    × (get_message_type sample (wrap_with_header file_text) ≡ ok file)
    × (create_denied_message sample ≡ ok (wrap_with_header denied_text))
    × (get_message_type sample (wrap_with_header denied_text) ≡ ok denied)
unfolding handshake_text encode
get_message_type-create_example =
    get_message_type-create sample sample-IsLawful key salt salt handshake_text file_list_text
      file_text denied_text refl refl refl refl handshake_text-IsClean file_list_text-IsClean
      file_text-IsClean denied_text-IsClean

abbrev infos : List FileInformation
infos = file_info ∷ other_info ∷ []

abbrev listing_text : Bytes
unfolding sample_runs elements_json element_json
listing_text = encode (sample.array (elements_json sample 8000 infos)) []

infos-IsSorted : IsSorted infos
unfolding mfsync.Common.str_lt
infos-IsSorted = ((refl, tt), (tt, tt))

listing : create_message_from_file_info sample infos 8000 ≡ ok listing_text
unfolding create_message_from_file_info listing_text encode
listing = refl

file_list-roundtrip_example :
    get_available_files_from_message sample listing_text (codes "::1") key
    ≡ ok (
        some (
          available_of (codes "::1") 8000 key file_info
          ∷ available_of (codes "::1") 8000 key other_info
          ∷ []))
file_list-roundtrip_example =
    file_list-roundtrip sample sample-IsLawful (codes "::1") key 8000 (omega arith) infos
      listing_text (omega arith, (omega arith, tt)) infos-IsSorted listing

abbrev portless : Bytes
unfolding sample_runs
portless =
    encode
      (item (element_json sample 8000 file_info) (item (field (codes "size") (number 3) end) end))
      []

missing_port-throws_example :
    get_available_files_from_message sample portless (codes "::1") key ≡ throws out_of_range
unfolding mfsync.Json.Sample.parse portless mfsync.Common.str_eq element_json
    mfsync.Protocol.Fields.available_file_of_json
missing_port-throws_example =
    missing_port-throws sample sample-IsLawful portless (codes "::1") key
      (element_json sample 8000 file_info ∷ []) [] ((codes "size", number 3) ∷ []) refl
      (available_of (codes "::1") 8000 key file_info, refl, tt) refl

create_messages-Packs_example :
    Packs sample
      (elements_json sample 8000 infos)
      []
      (create_messages_from_file_info sample infos 8000)
create_messages-Packs_example = create_messages-Packs sample infos 8000

abbrev speaker : Bytes → CryptoHandler
speaker other = record {
  private_key = [];
  public_key = [];
  trust_all = true;
  trusted_keys = (other, record { key = 3 ∷ []; count = 5 }) ∷ [];
  allowed_keys = [];
}

speakers-Synced : Synced (speaker salt) salt (speaker key) key
unfolding mfsync.Dict.lookup mfsync.Common.str_eq
speakers-Synced = (record { key = 3 ∷ []; count = 5 }, refl, refl)

abbrev answer_text : Bytes
unfolding sample_runs
answer_text = encode (answer_json sample true) []

abbrev wrapper_of : Option EncryptionWrapper → EncryptionWrapper
wrapper_of none = record { cipher_text = []; mac = []; count = 0; aad = [] }
wrapper_of (some w) = w

abbrev wrapper : EncryptionWrapper
unfolding encrypt
wrapper = wrapper_of (encrypt Sample.sample (speaker salt) salt answer_text []).0

abbrev wrapper_text : Bytes
unfolding sample_runs wrapper_json
wrapper_text = encode (wrapper_json sample wrapper) []

encrypted : (encrypt Sample.sample (speaker salt) salt answer_text []).0 ≡ some wrapper
unfolding encrypt mfsync.Dict.lookup mfsync.Common.str_eq
encrypted = refl

wrapper_text-IsClean : IsClean wrapper_text
unfolding mfsync.Common.find wrapper_text wrapper mfsync.Dict.lookup mfsync.Common.str_eq
wrapper_text-IsClean = refl

wrapper_dump : sample.dump (wrapper_json sample wrapper) ≡ ok wrapper_text
unfolding wrapper_json wrapper_text encode
wrapper_dump = refl
