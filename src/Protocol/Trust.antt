-- ===== src/Protocol/Trust.antt =====
-- Which keys the crypto handler holds behind the encrypted converters of include/mfsync/protocol.h: no
-- converter adds one, and what is read comes from a key that is held.
use mathlib.Core.Option.{some-injective}
use mfsync.Common.{
  ℕ, ◌≡◌, refl, Bool, true, false, Option, none, some, List, [], Bytes, Bool-cases, inl, inr,
}
use mfsync.Common.{value, Post, Post-bind, Post-after, Post-known, Post-catch_parse, ok, ◌>>=◌}
use mfsync.Info.{FileInformation, RequestedFile}
use mfsync.Json.{JsonLib}
use mfsync.Crypto.{
  CryptoLib, CryptoHandler, EncryptionWrapper, encrypt, decrypt, trust_key, get_public_key,
}
use mfsync.Crypto.Trust.{
  knows, Keeps, Keeps-refl, encrypt-Keeps, decrypt-Keeps, decrypt-knows, trust_key_unchanged,
}
use mfsync.Protocol.{
  create_denied_message, create_file_message, dump_wrapped, get_json_from_message, get_message_type,
}
use mfsync.Protocol.Fields.{
  create_message_from_file_info, create_message_from_requested_file, requested_file_of_json,
}
use mfsync.Protocol.Converter.{
  wrap_request, request_to_message, answer_json, answer_to_message, answer_from_message,
  wrap_encrypted, is_denied, get_decrypted_message_from, read_decrypted_answer, read_answer,
  decrypt_json, request_from_message, read_decrypted_request, get_decrypted_message,
  decompose_message, decrypt_decomposed, files_to_message, sender, wrapper_of_json, wrapper_json,
}

-- A result beside a handler that holds no new key, and the key that must be held for a result.
abbrev pub Reads : {A : Type 0} → CryptoHandler → (A → Bytes) → Option A × CryptoHandler → Type 0
Reads {A = A} h from r = Keeps h r.1 × ((a : A) → r.0 ≡ some a → knows h (from a) ≡ true)

module _ (J : JsonLib) (C : CryptoLib) where
  wrap_encrypted-Keeps :
      (h : CryptoHandler) (r : Option EncryptionWrapper × CryptoHandler)
      → Keeps h r.1
      → Post (λ m. Keeps h m.1) (wrap_encrypted J C r)
  unfolding wrap_encrypted
  wrap_encrypted-Keeps h (none, h') k =
      Post-after (λ m. Keeps h m.1) (create_denied_message J) (λ m. ok (m, h')) (λ m. k)
  wrap_encrypted-Keeps h (some w, h') k =
      Post-after (λ m. Keeps h m.1) (dump_wrapped J (wrapper_json J w)) (λ m. ok (m, h')) (λ m. k)

  pub answer_to_message-Keeps :
      (h : CryptoHandler) (accepted : Bool) (k : Bytes)
      → Post (λ m. Keeps h m.1) (answer_to_message J C accepted k h)
  unfolding answer_to_message
  answer_to_message-Keeps h accepted k =
      Post-after (λ m. Keeps h m.1) (J.dump (answer_json J accepted))
        (λ t. wrap_encrypted J C (encrypt C h k t []))
        (λ t. wrap_encrypted-Keeps h (encrypt C h k t []) (encrypt-Keeps C h k t []))

  wrap_request-Keeps :
      (h : CryptoHandler) (r : Option EncryptionWrapper × CryptoHandler)
      → Keeps h r.1
      → Post (λ m. Keeps h m.1) (wrap_request J C r)
  unfolding wrap_request
  wrap_request-Keeps h (none, h') k =
      Post-after (λ m. Keeps h m.1) (create_denied_message J) (λ m. ok (m, h')) (λ m. k)
  wrap_request-Keeps h (some w, h') k =
      Post-after (λ m. Keeps h m.1) (J.dump (wrapper_json J w))
        (λ t. create_file_message J (get_public_key C h') t >>= (λ m. ok (m, h')))
        (λ t.
          Post-after (λ m. Keeps h m.1) (create_file_message J (get_public_key C h') t)
            (λ m. ok (m, h')) (λ m. k))

  pub request_to_message-Keeps :
      (h : CryptoHandler) (r : RequestedFile) (k : Bytes)
      → Post (λ m. Keeps h m.1) (request_to_message J C r k h)
  unfolding request_to_message
  request_to_message-Keeps h r k =
      Post-after (λ m. Keeps h m.1) (create_message_from_requested_file J r)
        (λ t. wrap_request J C (encrypt C h k t []))
        (λ t. wrap_request-Keeps h (encrypt C h k t []) (encrypt-Keeps C h k t []))

  pub files_to_message-Keeps :
      (h : CryptoHandler) (files : List FileInformation) (port : ℕ) (k : Bytes)
      → Post (λ m. Keeps h m.1) (files_to_message J C files port k h)
  unfolding files_to_message
  files_to_message-Keeps h files port k = elim (Bool-cases (trust_key C h k none).0) [
    | inl held ↦
        rw (held, trust_key_unchanged C h k)
          (Post-after (λ m. Keeps h m.1) (create_message_from_file_info J files port)
            (λ t. wrap_encrypted J C (encrypt C h k t []))
            (λ t. wrap_encrypted-Keeps h (encrypt C h k t []) (encrypt-Keeps C h k t [])))
    | inr not_held ↦
        rw (not_held, trust_key_unchanged C h k)
          (Post-after (λ m. Keeps h m.1) (create_denied_message J) (λ m. ok (m, h))
            (λ m. Keeps-refl h))
  ]

  decrypt-Reads :
      (h : CryptoHandler) (k : Bytes) (w : EncryptionWrapper) → Reads h (λ t. k) (decrypt C h k w)
  decrypt-Reads h k w = (decrypt-Keeps C h k w, λ t e. decrypt-knows C h k t w e)

  decrypt_json-Reads :
      (h : CryptoHandler) (k : Bytes) (j : Option J.Json)
      → Post (Reads h (λ t. k)) (decrypt_json J C k h j)
  unfolding decrypt_json
  decrypt_json-Reads h k none = (Keeps-refl h, λ t e. cc)
  decrypt_json-Reads h k (some j) =
      Post-after (Reads h (λ t. k)) (wrapper_of_json J j) (λ w. ok (decrypt C h k w))
        (λ w. decrypt-Reads h k w)

  get_decrypted-Reads :
      (h : CryptoHandler) (k message : Bytes)
      → Post (Reads h (λ t. k)) (get_decrypted_message_from J C message k h)
  unfolding get_decrypted_message_from
  get_decrypted-Reads h k message =
      Post-catch_parse (Reads h (λ t. k)) (get_json_from_message J message >>= decrypt_json J C k h)
        (none, h)
        (Post-after (Reads h (λ t. k)) (get_json_from_message J message) (decrypt_json J C k h)
          (decrypt_json-Reads h k))
        (Keeps-refl h, λ t e. cc)

  read_decrypted_answer-Reads :
      (h : CryptoHandler) (k : Bytes) (r : Option Bytes × CryptoHandler)
      → Reads h (λ t. k) r
      → Post (Reads h (λ a. k)) (read_decrypted_answer J C r)
  unfolding read_decrypted_answer
  read_decrypted_answer-Reads h k (none, h') q = (q.0, λ a e. cc)
  read_decrypted_answer-Reads h k (some t, h') q =
      Post-after (Reads h (λ a. k)) (read_answer J t) (λ a. ok (a, h'))
        (λ a. (q.0, λ b e. q.1 t refl))

  pub answer_from_message-Reads :
      (h : CryptoHandler) (k message : Bytes)
      → Post (Reads h (λ a. k)) (answer_from_message J C message k h)
  unfolding answer_from_message
  answer_from_message-Reads h k message =
      Post-after (Reads h (λ a. k)) (get_message_type J message)
        (λ type. elim (is_denied J type) [
          | true ↦ ok (none, h)
          | false ↦ get_decrypted_message_from J C message k h >>= read_decrypted_answer J C
        ])
        (λ type. elim (Bool-cases (is_denied J type)) [
          | inl held ↦ rw held (Keeps-refl h, λ a e. cc)
          | inr not_held ↦ rw not_held (
              Post-bind (Reads h (λ t. k)) (Reads h (λ a. k))
                (get_decrypted_message_from J C message k h) (read_decrypted_answer J C)
                (get_decrypted-Reads h k message) (read_decrypted_answer-Reads h k))
        ])

  get_decrypted_message-Reads :
      (h : CryptoHandler) (message : Bytes) (d : Option (Bytes × EncryptionWrapper))
      → decompose_message J message ≡ ok d
      → Post (Reads h (λ t. sender J C d)) (get_decrypted_message J C message h)
  unfolding get_decrypted_message decrypt_decomposed
  get_decrypted_message-Reads h message none e = rw e (Keeps-refl h, λ t f. cc)
  get_decrypted_message-Reads h message (some (k, w)) e = rw e (decrypt-Reads h k w)

  read_decrypted_request-Reads :
      (h : CryptoHandler) (k : Bytes) (r : Option Bytes × CryptoHandler)
      → Reads h (λ t. k) r
      → Post (Reads h (λ q. q.1)) (read_decrypted_request J C k r)
  unfolding read_decrypted_request
  read_decrypted_request-Reads h k (none, h') q = (q.0, λ a e. cc)
  read_decrypted_request-Reads h k (some t, h') q =
      Post-after (Reads h (λ q. q.1)) (get_json_from_message J t)
        (λ file_j.
          value file_j >>= (λ j. requested_file_of_json J j >>= (λ r. ok (some (r, k), h'))))
        (λ file_j.
          Post-after (Reads h (λ q. q.1)) (value file_j)
            (λ j. requested_file_of_json J j >>= (λ r. ok (some (r, k), h')))
            (λ j.
              Post-after (Reads h (λ q. q.1)) (requested_file_of_json J j)
                (λ r. ok (some (r, k), h'))
                (λ r. (q.0, λ a e. rw (← some-injective _ _ e) (q.1 t refl)))))

  pub request_from_message-Reads :
      (h : CryptoHandler) (message : Bytes)
      → Post (Reads h (λ q. q.1)) (request_from_message J C message h)
  unfolding request_from_message
  request_from_message-Reads h message =
      Post-known (Reads h (λ q. q.1)) (decompose_message J message)
        (λ d. get_decrypted_message J C message h >>= read_decrypted_request J C (sender J C d))
        (λ d e.
          Post-bind (Reads h (λ t. sender J C d)) (Reads h (λ q. q.1))
            (get_decrypted_message J C message h) (read_decrypted_request J C (sender J C d))
            (get_decrypted_message-Reads h message d e)
            (read_decrypted_request-Reads h (sender J C d)))
