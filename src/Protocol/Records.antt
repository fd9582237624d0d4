-- ===== src/Protocol/Records.antt =====
-- Round trips of the records that travel as one message, and the messages that no reader survives.
use mathlib.Core.Path.{subst}
use mathlib.Core.List.{append-nil}
use native.Mathlib.Nat.{mod-eq_of_lt}
use mfsync.Common.{ℕ, ◌^◌, ◌<◌, ◌≡◌, refl, Option, none, some}
use mfsync.Common.{Bytes, codes, ok, str_eq, List, [], ◌∷◌, ◌++◌}
use mfsync.Info.{FileInformation, RequestedFile}
use mfsync.Json.{JsonLib, IsLawful, field_of}
use mfsync.Protocol.{wrap_with_header, announcement_json, version}
use mfsync.Protocol.{create_host_announcement_message}
use mfsync.Protocol.Framing.{IsClean, payload-wrap_with_header, wrap_with_header-long}
use mfsync.Protocol.Fields.{
  file_information_fields, file_information_json, file_information_of_json, requested_file_json,
  requested_file_of_json, create_message_from_requested_file, get_requested_file_from_message,
  host_information_of_json, get_host_info_from_message, read_sum, sum_field,
}

module _ (J : JsonLib) (L : IsLawful J) where
  read_sum-sum_field :
      (a b : J.Json) (sum : Option Bytes) (extra : List (Bytes × J.Json))
      → field_of (codes "sha256sum") extra ≡ none
      → read_sum J
          (J.object ((codes "file_name", a) ∷ (codes "size", b) ∷ (sum_field J sum ++ extra)))
        ≡ ok sum
  unfolding read_sum sum_field str_eq
  read_sum-sum_field a b none extra h = rw (L.contains-object, h) refl
  read_sum-sum_field a b (some sum) extra h =
      rw (L.contains-object, L.at-object, L.get_text-text) refl

  -- A file information is read back from an object that has more fields behind its own.
  pub file_information_of_json-fields :
      (f : FileInformation) (extra : List (Bytes × J.Json))
      → f.size < 2 ^ 64
      → field_of (codes "sha256sum") extra ≡ none
      → file_information_of_json J (J.object (file_information_fields J f ++ extra)) ≡ ok f
  unfolding file_information_of_json file_information_fields str_eq
  file_information_of_json-fields f extra h e =
      rw
        (
          read_sum-sum_field _ _ f.sha256sum extra e,
          L.at-object _ (codes "file_name"),
          L.get_text-text,
          L.at-object _ (codes "size"),
          L.get_number-number,
          mod-eq_of_lt h,
        )
        refl

  file_information-roundtrip :
      (f : FileInformation)
      → f.size < 2 ^ 64
      → file_information_of_json J (file_information_json J f) ≡ ok f
  unfolding file_information_json
  file_information-roundtrip f h =
      subst (λ fs. file_information_of_json J (J.object fs) ≡ ok f) (append-nil _)
        (file_information_of_json-fields f [] h refl)

  pub requested_file_of_json-json :
      (r : RequestedFile)
      → r.file_info.size < 2 ^ 64
      → r.offset < 2 ^ 64
      → r.chunksize < 2 ^ 32
      → requested_file_of_json J (requested_file_json J r) ≡ ok r
  unfolding requested_file_of_json requested_file_json str_eq
  requested_file_of_json-json r hs ho hc =
      rw
        (
          L.at-object _ (codes "offset"),
          L.get_number-number,
          mod-eq_of_lt ho,
          L.at-object _ (codes "chunksize"),
          L.get_number-number,
          mod-eq_of_lt hc,
          L.at-object _ (codes "file_info"),
          file_information-roundtrip r.file_info hs,
        )
        refl

  host_information_of_json-json :
      (public_key address : Bytes) (port : ℕ)
      → port < 2 ^ 16
      → host_information_of_json J (announcement_json J public_key port) address
        ≡ ok (record { public_key = public_key; version = version; ip = address; port = port })
  unfolding host_information_of_json str_eq
  host_information_of_json-json public_key address port h =
      rw
        (
          L.at-object _ (codes "public_key"),
          L.get_text-text,
          L.at-object _ (codes "port"),
          L.get_number-number,
          mod-eq_of_lt h,
          L.at-object _ (codes "version"),
          L.get_text-text,
        )
        refl

  -- A request is read back as it was sent, checksum included, if its numbers fit their C++ types and
  -- the JSON text has no end mark.
  pub requested_file-roundtrip :
      (r : RequestedFile) (t : Bytes)
      → r.file_info.size < 2 ^ 64
      → r.offset < 2 ^ 64
      → r.chunksize < 2 ^ 32
      → J.dump (requested_file_json J r) ≡ ok t
      → IsClean t
      → (create_message_from_requested_file J r ≡ ok (wrap_with_header t))
        × (get_requested_file_from_message J (wrap_with_header t) ≡ ok (some r))
  unfolding create_message_from_requested_file get_requested_file_from_message requested_file_json
      requested_file_of_json str_eq
  requested_file-roundtrip r t hs ho hc d c = (
    rw d,
    rw (wrap_with_header-long t, payload-wrap_with_header t c, L.parse-dump _ t d)
        (rw (requested_file_of_json-json r hs ho hc)),
  )

  -- A host's announcement is read back with its key, its port and the version, and with the address
  -- that it came from.
  pub host_information-roundtrip :
      (public_key address t : Bytes) (port : ℕ)
      → port < 2 ^ 16
      → J.dump (announcement_json J public_key port) ≡ ok t
      → IsClean t
      → (create_host_announcement_message J public_key port ≡ ok (wrap_with_header t))
        × (get_host_info_from_message J (wrap_with_header t) address
            ≡ ok (
                some (record {
                  public_key = public_key;
                  version = version;
                  ip = address;
                  port = port;
                })))
  unfolding create_host_announcement_message get_host_info_from_message str_eq
  host_information-roundtrip public_key address t port h d c = (
    rw d,
    rw (wrap_with_header-long t, payload-wrap_with_header t c, L.parse-dump _ t d)
        (rw (host_information_of_json-json public_key address port h)),
  )
