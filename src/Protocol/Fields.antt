-- ===== src/Protocol/Fields.antt =====
-- The `to_json` and `from_json` functions of include/mfsync/file_information.h, and the readers of
-- src/protocol.cpp that are built on them.
use mfsync.Common.{ℕ, Bool, true, false, Option, none, some, List, [], ◌∷◌, ◌++◌, Bytes, codes}
use mfsync.Common.{Outcome, ok, ◌>>=◌, catch_any, catch_parse, if◌then◌else◌, length, ltb}
use mfsync.Info.{FileInformation, AvailableFile, RequestedFile, HostInformation}
use mfsync.Info.{available_file_named}
use mfsync.NameSet
use mfsync.Json.{JsonLib}
use mfsync.Protocol.{mfsync_header_size, max_message_size, payload, get_json_from_message}
use mfsync.Protocol.{dump_wrapped}

module _ (J : JsonLib) where
  open J use {Json}

  unfoldable pub sum_field : Option Bytes → List (Bytes × Json)
  sum_field none = []
  sum_field (some sum) = (codes "sha256sum", J.text sum) ∷ []

  -- The fields that `to_json` of a file information sets.
  unfoldable pub file_information_fields : FileInformation → List (Bytes × Json)
  unfolding sum_field
  file_information_fields f =
      (codes "file_name", J.text f.file_name)
      ∷ (codes "size", J.number f.size)
      ∷ sum_field f.sha256sum

  unfoldable pub file_information_json : FileInformation → Json
  unfolding file_information_fields
  file_information_json f = J.object (file_information_fields f)

  unfoldable pub read_sum : Json → Outcome (Option Bytes)
  read_sum j =
      if J.contains j (codes "sha256sum")
      then (do s ← J.at j (codes "sha256sum"); sum ← J.get_text s; ok (some sum))
      else ok none

  unfoldable pub file_information_of_json : Json → Outcome FileInformation
  unfolding read_sum
  file_information_of_json j = do
    n ← J.at j (codes "file_name")
    file_name ← J.get_text n
    s ← J.at j (codes "size")
    size ← J.get_number 64 s
    sha256sum ← read_sum j
    ok (record { file_name = file_name; sha256sum = sha256sum; size = size })

  unfoldable pub requested_file_json : RequestedFile → Json
  unfolding file_information_json
  requested_file_json r = J.object (
      (codes "offset", J.number r.offset)
      ∷ (codes "chunksize", J.number r.chunksize)
      ∷ (codes "file_info", file_information_json r.file_info)
      ∷ [])

  unfoldable pub requested_file_of_json : Json → Outcome RequestedFile
  unfolding file_information_of_json
  requested_file_of_json j = do
    o ← J.at j (codes "offset")
    offset ← J.get_number 64 o
    c ← J.at j (codes "chunksize")
    chunksize ← J.get_number 32 c
    i ← J.at j (codes "file_info")
    file_info ← file_information_of_json i
    ok (record { file_info = file_info; offset = offset; chunksize = chunksize })

  -- The address and the key are filled in by the caller.
  unfoldable pub available_file_of_json : Json → Bytes → Bytes → Outcome AvailableFile
  unfolding file_information_of_json
  available_file_of_json j address pub_key = do
    p ← J.at j (codes "port")
    port ← J.get_number 16 p
    file_info ← file_information_of_json j
    ok (record {
      file_info = file_info;
      source_address = address;
      source_port = port;
      public_key = pub_key;
    })

  -- The address is filled in by the caller.
  unfoldable pub host_information_of_json : Json → Bytes → Outcome HostInformation
  host_information_of_json j ip = do
    k ← J.at j (codes "public_key")
    public_key ← J.get_text k
    p ← J.at j (codes "port")
    port ← J.get_number 16 p
    v ← J.at j (codes "version")
    version ← J.get_text v
    ok (record { public_key = public_key; version = version; ip = ip; port = port })

  unfoldable pub create_message_from_requested_file : RequestedFile → Outcome Bytes
  unfolding dump_wrapped requested_file_json
  create_message_from_requested_file file = dump_wrapped J (requested_file_json file)

  -- A reader of the form that three functions of the source share: the length check, the view, and
  -- a conversion whose exceptions mean that there is no value.
  abbrev read_message {ℓ} : {A : Type ℓ} → (Json → Outcome A) → Bytes → Outcome (Option A)
  read_message convert message = if ltb (length message) mfsync_header_size then ok none else do
    view ← payload message
    catch_any (do j ← J.parse view; a ← convert j; ok (some a)) none

  unfoldable pub get_requested_file_from_message : Bytes → Outcome (Option RequestedFile)
  unfolding payload requested_file_of_json
  get_requested_file_from_message message = read_message requested_file_of_json message

  unfoldable pub get_host_info_from_message : Bytes → Bytes → Outcome (Option HostInformation)
  unfolding payload host_information_of_json
  get_host_info_from_message message address =
      read_message (λ j. host_information_of_json j address) message

  -- One element of the list of stored files, with the port that is announced for it.
  unfoldable pub element_json : ℕ → FileInformation → Json
  unfolding file_information_fields
  element_json port f = J.object (file_information_fields f ++ ((codes "port", J.number port) ∷ []))

  unfoldable pub elements_json : ℕ → List FileInformation → List Json
  elements_json port [] = []
  elements_json port (f ∷ fs) = element_json port f ∷ elements_json port fs

  unfoldable pub create_message_from_file_info : List FileInformation → ℕ → Outcome Bytes
  unfolding elements_json element_json
  create_message_from_file_info file_infos port = J.dump (J.array (elements_json port file_infos))

  abbrev pub is_empty {ℓ} : {A : Type ℓ} → List A → Bool
  is_empty [] = true
  is_empty (a ∷ as') = false

  -- The loop of `create_messages_from_file_info` over what is left, the pending array and the
  -- messages so far, with the flush at its end.
  unfoldable pub batch_loop :
      ℕ → List FileInformation → List Json → List Bytes → Outcome (List Bytes)
  batch_loop port [] json_array result =
      if is_empty json_array
      then ok result
      else do t ← J.dump (J.array json_array); ok (result ++ (t ∷ []))
  batch_loop port (f ∷ fs) json_array result = do
    let element = element_json port f
    let tmp_size_check = json_array ++ (element ∷ [])
    size_check ← J.dump (J.array tmp_size_check)
    elim (ltb max_message_size (length size_check)) [
      | true ↦ do
        t ← J.dump (J.array json_array)
        batch_loop port fs (element ∷ []) (result ++ (t ∷ []))
      | false ↦ batch_loop port fs tmp_size_check result
    ]

  unfoldable pub create_messages_from_file_info : List FileInformation → ℕ → Outcome (List Bytes)
  unfolding batch_loop element_json
  create_messages_from_file_info file_infos port = batch_loop port file_infos [] []

  unfoldable pub insert_availables :
      Bytes → Bytes → List Json → List AvailableFile → Outcome (List AvailableFile)
  insert_availables address pub_key [] result = ok result
  insert_availables address pub_key (j ∷ js) result = do
    av ← available_file_of_json j address pub_key
    insert_availables address pub_key js (NameSet.insert av result)

  unfoldable pub get_available_files_from_message :
      Bytes → Bytes → Bytes → Outcome (Option (List AvailableFile))
  unfolding insert_availables available_file_of_json
  get_available_files_from_message message address pub_key =
      if is_empty message
      then ok none
      else catch_parse
          (do
            j ← J.parse message
            result ← insert_availables address pub_key (J.elements j) []
            ok (some result))
          none

  -- `j.value().at("count").get<size_t>()`, where the message is JSON.
  unfoldable pub read_count : Option Json → Outcome (Option ℕ)
  read_count none = ok none
  read_count (some j) = do c ← J.at j (codes "count"); n ← J.get_number 64 c; ok (some n)

  unfoldable pub get_count_from_message : Bytes → Outcome (Option ℕ)
  unfolding get_json_from_message read_count
  get_count_from_message message =
      if is_empty message
      then ok none
      else catch_parse (do j ← get_json_from_message J message; read_count j) none
