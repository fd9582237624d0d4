-- ===== src/Protocol/Lists.antt =====
-- The encrypted list of the stored files of include/mfsync/protocol.h: what a server sends by
-- `converter<file_handler::available_files>` the client reads.
use mathlib.Core.Option.{some-injective}
use native.Mathlib.Nat.{mod-eq_of_lt}
use mfsync.Common.{ℕ, ◌^◌, ◌<◌, ◌≡◌, refl, ◌∙◌, true, Option, none, some}
use mfsync.Common.{[], List, Bytes, str_eq, ok, map, str_eq_refl}
use mfsync.Info.{FileInformation, AvailableFile, file_information_named}
use mfsync.Json.{JsonLib, IsLawful}
use mfsync.Dict.{lookup-insert}
use mfsync.Crypto.{
  CryptoLib, CryptoHandler, KeyCountPair, EncryptionWrapper, encrypt, decrypt, trust_key,
  is_allowed, set_count,
}
use mfsync.Crypto
use mfsync.Crypto.Keys.{entry}
use mfsync.Crypto.Trust.{trust_key_held}
use mfsync.Crypto.Exchange.{decrypt_sent, encrypt_count, length-encrypt_mac}
use mfsync.NameSet.Order.{IsSorted}
use mfsync.Protocol.{wrap_with_header}
use mfsync.Protocol.Framing.{IsClean, get_json-wrap}
use mfsync.Protocol.Listing.{SizesFit, available_of, file_list-roundtrip}
use mfsync.Protocol.Fields.{
  create_message_from_file_info, get_available_files_from_message, get_count_from_message,
  read_count,
}
use mfsync.Protocol.Answers.{get_message_type-wrapper, wrap_encrypted-some, get_decrypted-wrap}
use mfsync.Protocol.Converter.{
  wrapper_json, files_to_message, files_from_message, count_from, read_decrypted_files,
}

set_count-entry :
    (h : CryptoHandler) (k : Bytes) (kc : KeyCountPair) (n : ℕ)
    → entry h k ≡ some kc
    → entry (set_count h k n) k ≡ some (record kc { count = n })
unfolding set_count
set_count-entry h k kc n e =
    rw (e, set_count)
      (lookup-insert k k (record kc { count = n }) h.trusted_keys ∙ rw (str_eq_refl k) refl)

module _ (J : JsonLib) (L : IsLawful J) where
  get_count-wrap :
      (w : EncryptionWrapper) (m : Bytes)
      → w.count < 2 ^ 64
      → J.dump (wrapper_json J w) ≡ ok m
      → IsClean m
      → get_count_from_message J (wrap_with_header m) ≡ ok (some w.count)
  unfolding get_count_from_message read_count wrap_with_header str_eq wrapper_json
  get_count-wrap w m h d c =
      rw (get_json-wrap J L (wrapper_json J w) m d c)
        (rw (L.at-object, L.get_number-number, mod-eq_of_lt h) refl)

  read_decrypted_files-some :
      (C : CryptoLib) (k address t : Bytes) (files : List AvailableFile)
      (q : Option Bytes × CryptoHandler)
      → q.0 ≡ some t
      → get_available_files_from_message J t address k ≡ ok (some files)
      → read_decrypted_files J C k address q ≡ ok (some files, q.1)
  unfolding read_decrypted_files
  read_decrypted_files-some C k address t files (none, h) e g = cc
  read_decrypted_files-some C k address t files (some u, h) e g = rw (some-injective _ _ e, g) refl

  -- The list that a server encrypts for a key that it allows and holds is read by the client that
  -- holds the same secret, whatever the client's counter is: it takes over the counter of the
  -- message. It gets the files of the server in their order, with the server's port and with the
  -- address and the key that it knows the server by. The numbers must fit their C++ types, the
  -- files must be sorted by name, and the JSON texts must be dumped, the framed one without an end
  -- mark.
  pub files-roundtrip :
      (C : CryptoLib) (IsPair : Bytes → Bytes → Type 0) (K : Crypto.IsLawful C IsPair)
      (a b : CryptoHandler) (ka kb address t m : Bytes) (secret : Bytes) (n n' port : ℕ)
      (files : List FileInformation) (w : EncryptionWrapper)
      → is_allowed a kb ≡ true
      → entry a kb ≡ some (record { key = secret; count = n })
      → entry b ka ≡ some (record { key = secret; count = n' })
      → n < 2 ^ 64
      → port < 2 ^ 16
      → SizesFit files
      → IsSorted files
      → create_message_from_file_info J files port ≡ ok t
      → (encrypt C a kb t []).0 ≡ some w
      → J.dump (wrapper_json J w) ≡ ok m
      → IsClean m
      → (files_to_message J C files port kb a ≡ ok (wrap_with_header m, (encrypt C a kb t []).1))
        × (files_from_message J C (wrap_with_header m) ka b address true
            ≡ ok (
              some (map (available_of address port ka) files),
              (decrypt C (set_count b ka n) ka w).1,
            ))
  unfolding files_to_message files_from_message count_from
  files-roundtrip C IsPair K a b ka kb address t m secret n n' port files w allowed ea eb hn hp fits
        sorted dt e dw c =
      let b' = set_count b ka n in
      let got =
        decrypt_sent C K a b' ka kb t [] w
          (record { key = secret; count = n }, ea, set_count-entry b ka _ n eb) e in
      let count : w.count ≡ n = encrypt_count C K a kb t [] _ w ea e in
      let count_fits : w.count < 2 ^ 64 = rw count hn in
      (
        rw (trust_key_held C a kb _ allowed ea, dt)
            (wrap_encrypted-some J L C (encrypt C a kb t []) w m e dw),
        rw
            (
              get_message_type-wrapper J L w m dw c,
              get_count-wrap w m count_fits dw c,
              count,
              get_decrypted-wrap J L C b' ka m w (length-encrypt_mac C K a kb t [] w e) count_fits
                  dw c,
            )
            (read_decrypted_files-some C ka address t _ (decrypt C b' ka w) got
              (file_list-roundtrip J L address ka port hp files t fits sorted dt)),
      )
