-- ===== src/Protocol/Answers.antt =====
-- The encrypted answers of include/mfsync/protocol.h: what one end sends by `converter<bool>` the other
-- end reads.
use native.Mathlib.Nat.{mod-eq_of_lt}
use mathlib.Core.Option.{some-injective}
use mfsync.Common.{◌^◌, ◌<◌, ◌≡◌, refl, Bool, true, false, Option, none, some}
use mfsync.Common.{[], Bytes, codes, str_eq, ok, length}
use mfsync.Json.{JsonLib, IsLawful}
use mfsync.Crypto.{CryptoLib, CryptoHandler, EncryptionWrapper, encrypt, decrypt}
use mfsync.Crypto
use mfsync.Crypto.Exchange.{Synced, decrypt_sent, length-encrypt_mac}
use mfsync.Protocol.{wrap_with_header, get_message_type, no_type, dump_wrapped}
use mfsync.Protocol.Framing.{
  IsClean, payload-wrap_with_header, wrap_with_header-long, get_json-wrap,
}
use mfsync.Protocol.Converter.{
  wrapper_json, wrapper_of_json, answer_json, answer_to_message, answer_from_message,
  wrap_encrypted, get_decrypted_message_from, read_decrypted_answer, decrypt_json, read_answer,
}

module _ (J : JsonLib) (L : IsLawful J) where
  pub wrapper_of_json-json :
      (w : EncryptionWrapper)
      → length w.mac ≡ 16
      → w.count < 2 ^ 64
      → wrapper_of_json J (wrapper_json J w) ≡ ok w
  unfolding wrapper_of_json wrapper_json str_eq
  wrapper_of_json-json w m h =
      rw
        (
          L.at-object _ (codes "cipher_text"),
          L.get_blob-blob,
          L.at-object _ (codes "mac"),
          L.get_array-blob 16 w.mac m,
          L.at-object _ (codes "aad"),
          L.get_text-text,
          L.at-object _ (codes "count"),
          L.get_number-number,
          mod-eq_of_lt h,
        )
        refl

  pub get_message_type-wrapper :
      (w : EncryptionWrapper) (m : Bytes)
      → J.dump (wrapper_json J w) ≡ ok m
      → IsClean m
      → get_message_type J (wrap_with_header m) ≡ ok no_type
  unfolding get_message_type wrapper_json str_eq
  get_message_type-wrapper w m d c =
      rw (wrap_with_header-long m, payload-wrap_with_header m c, L.parse-dump _ m d)
        (rw (L.contains-object) refl)

  pub read_answer-json :
      (accepted : Bool) (t : Bytes)
      → J.dump (answer_json J accepted) ≡ ok t
      → read_answer J t ≡ ok (some accepted)
  unfolding read_answer str_eq
  read_answer-json true t d = rw (L.parse-dump _ t d, L.at-object, L.is_text-text) refl
  read_answer-json false t d = rw (L.parse-dump _ t d, L.at-object, L.is_text-text) refl

  pub wrap_encrypted-some :
      (C : CryptoLib) (r : Option EncryptionWrapper × CryptoHandler) (w : EncryptionWrapper)
      (m : Bytes)
      → r.0 ≡ some w
      → J.dump (wrapper_json J w) ≡ ok m
      → wrap_encrypted J C r ≡ ok (wrap_with_header m, r.1)
  unfolding wrap_encrypted dump_wrapped
  wrap_encrypted-some C (none, h) w m e d = cc
  wrap_encrypted-some C (some v, h) w m e d = rw (some-injective _ _ e, d) refl

  pub get_decrypted-wrap :
      (C : CryptoLib) (b : CryptoHandler) (ka m : Bytes) (w : EncryptionWrapper)
      → length w.mac ≡ 16
      → w.count < 2 ^ 64
      → J.dump (wrapper_json J w) ≡ ok m
      → IsClean m
      → get_decrypted_message_from J C (wrap_with_header m) ka b ≡ ok (decrypt C b ka w)
  unfolding get_decrypted_message_from decrypt_json
  get_decrypted-wrap C b ka m w len h d c =
      rw (get_json-wrap J L (wrapper_json J w) m d c, wrapper_of_json-json w len h) refl

  pub read_decrypted_answer-some :
      (C : CryptoLib) (r : Option Bytes × CryptoHandler) (t : Bytes) (accepted : Bool)
      → r.0 ≡ some t
      → J.dump (answer_json J accepted) ≡ ok t
      → read_decrypted_answer J C r ≡ ok (some accepted, r.1)
  unfolding read_decrypted_answer
  read_decrypted_answer-some C (none, h) t accepted e d = cc
  read_decrypted_answer-some C (some u, h) t accepted e d =
      rw (some-injective _ _ e, read_answer-json accepted t d) refl

  -- An answer to a peer whose table is in step is read by the peer as it was given, if its
  -- counter fits the C++ type, its JSON can be dumped and the JSON text of the encrypted answer
  -- has no end mark.
  pub answer-roundtrip :
      (C : CryptoLib) (IsPair : Bytes → Bytes → Type 0) (K : Crypto.IsLawful C IsPair)
      (a b : CryptoHandler) (ka kb t m : Bytes) (accepted : Bool) (w : EncryptionWrapper)
      → Synced a kb b ka
      → J.dump (answer_json J accepted) ≡ ok t
      → (encrypt C a kb t []).0 ≡ some w
      → w.count < 2 ^ 64
      → J.dump (wrapper_json J w) ≡ ok m
      → IsClean m
      → (answer_to_message J C accepted kb a ≡ ok (wrap_with_header m, (encrypt C a kb t []).1))
        × (answer_from_message J C (wrap_with_header m) ka b
            ≡ ok (some accepted, (decrypt C b ka w).1))
  unfolding answer_to_message answer_from_message
  answer-roundtrip C IsPair K a b ka kb t m accepted w s dt e h dw c =
      let got = decrypt_sent C K a b ka kb t [] w s e in
      (
        rw dt (wrap_encrypted-some C (encrypt C a kb t []) w m e dw),
        rw
            (
              get_message_type-wrapper w m dw c,
              get_decrypted-wrap C b ka m w (length-encrypt_mac C K a kb t [] w e) h dw c,
            )
            (read_decrypted_answer-some C (decrypt C b ka w) t accepted got dt),
      )
