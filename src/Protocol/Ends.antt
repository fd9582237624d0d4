-- ===== src/Protocol/Ends.antt =====
-- Each end of an encrypted message of include/mfsync/protocol.h by itself, for a secret and a counter
-- that are known: the texts that are sent, and what is read of them.
use mfsync.Common.{ℕ, ◌%◌, ◌+◌, ◌^◌, ◌<◌, ◌≡◌, refl, ap, ◌∙◌, true, some}
use mfsync.Common.{[], ◌++◌, Bytes, codes, str_eq, ok, str_eq_refl, arith}
use mfsync.Info.{RequestedFile}
use mfsync.Json.{JsonLib, IsLawful}
use mfsync.Crypto.{
  CryptoLib, CryptoHandler, KeyCountPair, EncryptionWrapper, encrypt, decrypt, get_public_key,
  get_count, seal_text,
}
use mfsync.Crypto
use mfsync.Crypto.Keys.{entry, entry-get_count}
use mfsync.Crypto.Exchange.{encrypt-entry, decrypt-entry, get_public_key-encrypt, unseal-seal_text}
use mfsync.Protocol.{
  wrap_with_header, get_message_type, file, file_message_json, dump_wrapped, type_of_text,
}
use mfsync.Protocol.Framing.{IsClean, get_json-tail}
use mfsync.Protocol.Kinds.{get_message_type-wrap}
use mfsync.Protocol.Fields.{requested_file_json, create_message_from_requested_file}
use mfsync.Protocol.Requests.{decompose-wrap, wrap_request-some, read_decrypted-wrap}
use mfsync.Protocol.Answers.{
  get_message_type-wrapper, wrap_encrypted-some, get_decrypted-wrap, read_decrypted_answer-some,
}
use mfsync.Protocol.Converter.{
  wrapper_json, request_to_message, request_from_message, answer_json, answer_to_message,
  answer_from_message, get_decrypted_message, decrypt_decomposed, decompose_message,
}

-- The table holds this secret under this counter.
abbrev pub Holds : CryptoHandler → Bytes → Bytes → ℕ → Type 0
Holds h k secret n = entry h k ≡ some (record { key = secret; count = n })

pub Holds-next :
    (h : CryptoHandler) (k secret : Bytes) (n : ℕ)
    → Holds h k secret n
    → Holds (get_count h k).1 k secret ((n + 1) % 2 ^ 64)
Holds-next h k secret n e =
    entry-get_count h k k (record { key = secret; count = n }) e ∙ rw (str_eq_refl k) refl

pub get_public_key-get_count :
    (C : CryptoLib) (h : CryptoHandler) (k : Bytes)
    → get_public_key C (get_count h k).1 ≡ get_public_key C h
unfolding get_public_key get_count
get_public_key-get_count C h k = ground arith

-- A JSON value that is dumped as this text, which may stand in a frame.
abbrev pub Framed : (J : JsonLib) → J.Json → Bytes → Type 0
Framed J j t = (J.dump j ≡ ok t) × IsClean t

-- The text of a positive answer under this secret and this counter.
pub record AnswerText (J : JsonLib) (C : CryptoLib) (secret : Bytes) (n : ℕ) (m : Bytes)
    : Type 0 where
  pub plain : Bytes
  pub plain_text : J.dump (answer_json J true) ≡ ok plain
  pub framed : Framed J (wrapper_json J (seal_text C secret plain n [])) m

-- The text of a request under this secret and this counter.
pub record RequestText (J : JsonLib) (C : CryptoLib) (k secret : Bytes) (n : ℕ) (r : RequestedFile)
    (m : Bytes) : Type 0 where
  pub plain : Bytes
  pub plain_text : Framed J (requested_file_json J r) plain
  pub sealed : Bytes
  pub sealed_text :
      J.dump (wrapper_json J (seal_text C secret (wrap_with_header plain) n [])) ≡ ok sealed
  pub framed : Framed J (file_message_json J k sealed) m

-- The numbers of a request fit their C++ types.
abbrev pub Fits : RequestedFile → Type 0
Fits r = (r.file_info.size < 2 ^ 64) × (r.offset < 2 ^ 64) × (r.chunksize < 2 ^ 32)

pub request_from_message-tail :
    (J : JsonLib) (L : IsLawful J) (C : CryptoLib) (h : CryptoHandler) (m tail : Bytes)
    → IsClean m
    → request_from_message J C (wrap_with_header m ++ tail) h
      ≡ request_from_message J C (wrap_with_header m) h
unfolding request_from_message get_decrypted_message decompose_message
request_from_message-tail J L C h m tail c = rw (get_json-tail J L m tail c) refl

module _ (J : JsonLib) (L : IsLawful J) (C : CryptoLib) {IsPair : Bytes → Bytes → Type 0}
    (K : Crypto.IsLawful C IsPair) (secret : Bytes) (n : ℕ) where
  pub answer_to_message-Holds :
      (h : CryptoHandler) (k m : Bytes)
      → Holds h k secret n
      → AnswerText J C secret n m
      → answer_to_message J C true k h ≡ ok (wrap_with_header m, (get_count h k).1)
  unfolding answer_to_message
  answer_to_message-Holds h k m e a =
      let sealed = encrypt-entry C K h k a.plain [] _ e in
      rw a.plain_text (
        wrap_encrypted-some J L C (encrypt C h k a.plain []) _ m (ap (λ r. r.0) sealed) a.framed.0
        ∙ ap (λ r. ok (wrap_with_header m, r.1)) sealed)

  pub answer_from_message-Holds :
      (h : CryptoHandler) (k m : Bytes)
      → n < 2 ^ 64
      → Holds h k secret n
      → AnswerText J C secret n m
      → answer_from_message J C (wrap_with_header m) k h ≡ ok (some true, (get_count h k).1)
  unfolding answer_from_message seal_text
  answer_from_message-Holds h k m small e a =
      let w = seal_text C secret a.plain n [] in
      let opened = decrypt-entry C K h k w _ e in
      rw
        (
          get_message_type-wrapper J L w m a.framed.0 a.framed.1,
          get_decrypted-wrap J L C h k m w (K.length-tag secret _ [] a.plain) small a.framed.0
              a.framed.1,
        )
        (read_decrypted_answer-some J L C (decrypt C h k w) a.plain true
            (ap (λ r. r.0) opened ∙ unseal-seal_text C K secret a.plain [] n) a.plain_text
          ∙ ap (λ r. ok (some true, r.1)) opened)

  pub request_to_message-Holds :
      (h : CryptoHandler) (k m : Bytes) (r : RequestedFile)
      → Holds h k secret n
      → RequestText J C (get_public_key C h) secret n r m
      → request_to_message J C r k h ≡ ok (wrap_with_header m, (get_count h k).1)
  unfolding request_to_message create_message_from_requested_file dump_wrapped
  request_to_message-Holds h k m r e q =
      let plain = wrap_with_header q.plain in
      let sealed = encrypt-entry C K h k plain [] _ e in
      rw q.plain_text.0 (
        wrap_request-some J L C (encrypt C h k plain []) _ q.sealed m (ap (λ r. r.0) sealed)
          q.sealed_text
          (ap (λ j. J.dump (file_message_json J j q.sealed))
              (get_public_key-encrypt C K h k plain [])
            ∙ q.framed.0)
        ∙ ap (λ r. ok (wrap_with_header m, r.1)) sealed)

  pub get_message_type-RequestText :
      (k m : Bytes) (r : RequestedFile)
      → RequestText J C k secret n r m
      → get_message_type J (wrap_with_header m) ≡ ok file
  unfolding type_of_text str_eq
  get_message_type-RequestText k m r q =
      get_message_type-wrap J L (codes "file") _ m q.framed.0 q.framed.1

  pub request_from_message-Holds :
      (h : CryptoHandler) (k m : Bytes) (r : RequestedFile)
      → n < 2 ^ 64
      → Fits r
      → Holds h k secret n
      → RequestText J C k secret n r m
      → request_from_message J C (wrap_with_header m) h ≡ ok (some (r, k), (get_count h k).1)
  unfolding request_from_message get_decrypted_message decrypt_decomposed seal_text
  request_from_message-Holds h k m r small (hs, ho, hc) e q =
      let plain = wrap_with_header q.plain in
      let w = seal_text C secret plain n [] in
      let opened = decrypt-entry C K h k w _ e in
      rw
        (decompose-wrap J L k m q.sealed w (K.length-tag secret _ [] plain) small q.sealed_text
          q.framed.0 q.framed.1)
        (read_decrypted-wrap J L C k q.plain r (decrypt C h k w)
            (ap (λ r. r.0) opened ∙ unseal-seal_text C K secret plain [] n) hs ho hc q.plain_text.0
            q.plain_text.1
          ∙ ap (λ d. ok (some (r, k), d.1)) opened)
