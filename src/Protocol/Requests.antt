-- ===== src/Protocol/Requests.antt =====
-- The encrypted request for a file of include/mfsync/protocol.h: what a client sends by
-- `converter<requested_file>` the server reads, with the key of the client.
use mathlib.Core.Option.{some-injective}
use mfsync.Common.{◌^◌, ◌<◌, ◌≡◌, refl, ap, ◌∙◌, Option, none, some}
use mfsync.Common.{[], Bytes, codes, str_eq, ok, length}
use mfsync.Info.{RequestedFile}
use mfsync.Json.{JsonLib, IsLawful}
use mfsync.Crypto.{CryptoLib, CryptoHandler, EncryptionWrapper, encrypt, decrypt, get_public_key}
use mfsync.Crypto
use mfsync.Crypto.Exchange.{Synced, decrypt_sent, length-encrypt_mac, get_public_key-encrypt}
use mfsync.Protocol.{
  wrap_with_header, get_message_type, file, file_message_json, create_file_message, dump_wrapped,
  type_of_text,
}
use mfsync.Protocol.Framing.{IsClean, get_json-wrap}
use mfsync.Protocol.Kinds.{get_message_type-wrap}
use mfsync.Protocol.Fields.{requested_file_json, create_message_from_requested_file}
use mfsync.Protocol.Records.{requested_file_of_json-json}
use mfsync.Protocol.Answers.{wrapper_of_json-json}
use mfsync.Protocol.Converter.{
  wrapper_json, request_to_message, request_from_message, wrap_request, decompose_message,
  decompose_json, get_decrypted_message, decrypt_decomposed, read_decrypted_request,
}

module _ (J : JsonLib) (L : IsLawful J) where
  pub decompose-wrap :
      (k m text : Bytes) (w : EncryptionWrapper)
      → length w.mac ≡ 16
      → w.count < 2 ^ 64
      → J.dump (wrapper_json J w) ≡ ok text
      → J.dump (file_message_json J k text) ≡ ok m
      → IsClean m
      → decompose_message J (wrap_with_header m) ≡ ok (some (k, w))
  unfolding decompose_message decompose_json str_eq
  decompose-wrap k m text w mac count dw dm c =
      rw
        (
          get_json-wrap J L (file_message_json J k text) m dm c,
          L.at-object _ (codes "message"),
          L.get_text-text,
          L.parse-dump _ text dw,
          wrapper_of_json-json J L w mac count,
          L.at-object _ (codes "public_key"),
          L.get_text-text,
        )
        refl

  pub wrap_request-some :
      (C : CryptoLib) (q : Option EncryptionWrapper × CryptoHandler) (w : EncryptionWrapper)
      (text m : Bytes)
      → q.0 ≡ some w
      → J.dump (wrapper_json J w) ≡ ok text
      → J.dump (file_message_json J (get_public_key C q.1) text) ≡ ok m
      → wrap_request J C q ≡ ok (wrap_with_header m, q.1)
  unfolding wrap_request create_file_message dump_wrapped
  wrap_request-some C (none, h) w text m e dw dm = cc
  wrap_request-some C (some v, h) w text m e dw dm = rw (some-injective _ _ e, dw, dm) refl

  pub read_decrypted-wrap :
      (C : CryptoLib) (k t : Bytes) (r : RequestedFile) (q : Option Bytes × CryptoHandler)
      → q.0 ≡ some (wrap_with_header t)
      → r.file_info.size < 2 ^ 64
      → r.offset < 2 ^ 64
      → r.chunksize < 2 ^ 32
      → J.dump (requested_file_json J r) ≡ ok t
      → IsClean t
      → read_decrypted_request J C k q ≡ ok (some (r, k), q.1)
  unfolding read_decrypted_request
  read_decrypted-wrap C k t r (none, h) e hs ho hc d c = cc
  read_decrypted-wrap C k t r (some u, h) e hs ho hc d c =
      rw
        (
          some-injective _ _ e,
          get_json-wrap J L (requested_file_json J r) t d c,
          requested_file_of_json-json J L r hs ho hc,
        )
        refl

  -- A request to a peer whose table is in step is recognised as a request for a file, and read by
  -- the peer as it was made, with the key of the sender, if the numbers fit their C++ types, the
  -- three JSON texts can be dumped, and the texts that are framed have no end mark.
  pub request-roundtrip :
      (C : CryptoLib) (IsPair : Bytes → Bytes → Type 0) (K : Crypto.IsLawful C IsPair)
      (a b : CryptoHandler) (kb t text m : Bytes) (r : RequestedFile) (w : EncryptionWrapper)
      → let ka = get_public_key C a in
        Synced a kb b ka
        → r.file_info.size < 2 ^ 64
        → r.offset < 2 ^ 64
        → r.chunksize < 2 ^ 32
        → J.dump (requested_file_json J r) ≡ ok t
        → IsClean t
        → (encrypt C a kb (wrap_with_header t) []).0 ≡ some w
        → w.count < 2 ^ 64
        → J.dump (wrapper_json J w) ≡ ok text
        → J.dump (file_message_json J ka text) ≡ ok m
        → IsClean m
        → (request_to_message J C r kb a
            ≡ ok (wrap_with_header m, (encrypt C a kb (wrap_with_header t) []).1))
          × (get_message_type J (wrap_with_header m) ≡ ok file)
          × (request_from_message J C (wrap_with_header m) b
              ≡ ok (some (r, ka), (decrypt C b ka w).1))
  unfolding request_to_message request_from_message type_of_text str_eq
      create_message_from_requested_file dump_wrapped get_decrypted_message decrypt_decomposed
  request-roundtrip C IsPair K a b kb t text m r w s hs ho hc dt ct e count dw dm cm =
      let ka = get_public_key C a in
      let plain = wrap_with_header t in
      let got = decrypt_sent C K a b ka kb plain [] w s e in
      let opened =
        decompose-wrap ka m text w (length-encrypt_mac C K a kb plain [] w e) count dw dm cm in
      (
        rw dt (
            wrap_request-some C (encrypt C a kb plain []) w text m e dw (
              ap (λ k. J.dump (file_message_json J k text))
                (get_public_key-encrypt C K a kb plain [])
              ∙ dm)),
        get_message_type-wrap J L (codes "file") _ m dm cm,
        rw opened (read_decrypted-wrap C ka t r (decrypt C b ka w) got hs ho hc dt ct),
      )
