-- ===== src/Crypto.antt =====
-- src/crypto.cpp and include/mfsync/crypto.h: the table of trusted keys with their counters, and the
-- use of the cipher. The primitives come from Crypto++, which is not part of the repository.
pub mod Nonce
pub mod Keys
pub mod Exchange
pub mod Blocks
pub mod Sample
pub mod Trust
pub mod KeyFile
use mfsync.Common.{
  Exn, ℕ, zero, suc, ◌+◌, ◌/◌, ◌%◌, ◌^◌, ◌≡◌, Bool, true, false, not, ◌&&◌, Option, none, some,
}
use mfsync.Common.{
  List, [], ◌∷◌, ◌++◌, Bytes, str_eq, if◌then◌else◌, is_some, any_of, length, take, drop,
}
use mfsync.Dict.{Dict}
use mfsync.Dict

-- Crypto++: X25519 `Agree` on a private and a public key, HKDF on a secret and a salt, ChaCha20Poly1305
-- on a key, a nonce, the additional data and the text (with the text and the tag as the result), the
-- hex filters, and the filter chains that turn one block of a file: `Pump`, and `PumpAll` with what it
-- writes and what it throws.
pub record CryptoLib : Type 0 where
  pub agree : Bytes → Bytes → Option Bytes
  pub derive_key : Bytes → Bytes → Bytes
  pub seal : Bytes → Bytes → Bytes → Bytes → Bytes × Bytes
  pub unseal : Bytes → Bytes → Bytes → Bytes → Bytes → Option Bytes
  pub hex_encode : Bytes → Bytes
  pub hex_decode : Bytes → Bytes
  pub encrypt_block : Bytes → Bytes → Bytes → Bytes
  pub decrypt_block : Bytes → Bytes → Bytes → Bytes
  pub decrypt_whole : Bytes → Bytes → Bytes → Bytes
  pub whole_error : Bytes → Bytes → Bytes → Option Exn

-- What the program relies on: both ends agree on a secret, an authentic text is recovered, the tag
-- has 16 bytes, hex digits decode, and a block keeps its length and is recovered.
pub record IsLawful (C : CryptoLib) (IsPair : Bytes → Bytes → Type 0) : Type 0 where
  pub agree_comm : (a x b y : Bytes) → IsPair a x → IsPair b y → C.agree a y ≡ C.agree b x
  pub unseal-seal :
      (k n a t : Bytes) → C.unseal k n a (C.seal k n a t).1 (C.seal k n a t).0 ≡ some t
  pub length-tag : (k n a t : Bytes) → length (C.seal k n a t).1 ≡ 16
  pub hex_decode-encode : (t : Bytes) → C.hex_decode (C.hex_encode t) ≡ t
  pub decrypt-encrypt_block : (k n t : Bytes) → C.decrypt_block k n (C.encrypt_block k n t) ≡ t
  pub length-encrypt_block : (k n t : Bytes) → length (C.encrypt_block k n t) ≡ length t

pub record EncryptionWrapper : Type 0 where
  pub cipher_text : Bytes
  pub mac : Bytes
  pub count : ℕ
  pub aad : Bytes

pub record KeyCountPair : Type 0 where
  pub key : Bytes
  pub count : ℕ

-- The key pair stands as its two members.
pub record CryptoHandler : Type 0 where
  pub private_key : Bytes
  pub public_key : Bytes
  pub trust_all : Bool
  pub trusted_keys : Dict KeyCountPair
  pub allowed_keys : List Bytes

-- The lowest bytes of a number, the lowest first.
le_bytes : ℕ → ℕ → Bytes
le_bytes zero n = []
le_bytes (suc k) n = (n % 256) ∷ le_bytes k (n / 256)

-- The eight bytes of a `size_t`, grown to twelve by zeros.
unfoldable pub get_nonce_from_count : ℕ → Bytes
unfolding le_bytes
get_nonce_from_count count = le_bytes 8 count ++ (0 ∷ 0 ∷ 0 ∷ 0 ∷ [])

abbrev is_empty {ℓ} : {A : Type ℓ} → List A → Bool
is_empty [] = true
is_empty (a ∷ as') = false

unfoldable pub add_allowed_key : CryptoHandler → Bytes → CryptoHandler
add_allowed_key h pub_key = record h { allowed_keys = h.allowed_keys ++ (pub_key ∷ []) }

unfoldable pub is_allowed : CryptoHandler → Bytes → Bool
is_allowed h pub_key =
    if is_empty h.allowed_keys
    then true
    else if not (any_of (λ key. str_eq key pub_key) h.allowed_keys)
    then false
    else true

unfoldable pub set_count : CryptoHandler → Bytes → ℕ → CryptoHandler
set_count h pub_key count = elim (Dict.lookup pub_key h.trusted_keys) [
  | none ↦ h
  | some kc ↦ record h {
    trusted_keys = Dict.insert pub_key (record kc { count = count }) h.trusted_keys;
  }
]

-- `count++` on a `size_t`.
unfoldable pub get_count : CryptoHandler → Bytes → ℕ × CryptoHandler
get_count h pub_key = elim (Dict.lookup pub_key h.trusted_keys) [
  | none ↦ (0, h)
  | some kc ↦ (
    kc.count,
    record h {
      trusted_keys =
          Dict.insert pub_key (record kc { count = (kc.count + 1) % 2 ^ 64 }) h.trusted_keys;
    },
  )
]

-- What a call makes of a block of a file: the static nonce and the handler after it, and the output.
-- A key that is not trusted gives no output.
pub record BlockResult : Type 0 where
  pub static_iv : Option Bytes
  pub handler : CryptoHandler
  pub out : Bytes

module _ (C : CryptoLib) where
  unfoldable pub get_public_key : CryptoHandler → Bytes
  get_public_key h = C.hex_encode h.public_key

  unfoldable pub get_shared_secret : Bytes → Bytes → Bytes → Option Bytes
  get_shared_secret private_key other_public_key salt =
      elim (C.agree private_key other_public_key) [
        | none ↦ none
        | some shared_key ↦ if is_empty salt then none else some (C.derive_key shared_key salt)
      ]

  -- The branch of `trust_key` that makes a new entry.
  agree_on : CryptoHandler → Bytes → Option Bytes → Bool × CryptoHandler
  unfolding get_shared_secret
  agree_on h pub_key none = (false, h)
  agree_on h pub_key (some salt) =
      elim (get_shared_secret h.private_key (C.hex_decode pub_key) (C.hex_decode salt)) [
        | none ↦ (false, h)
        | some shared_secret ↦ (
          true,
          record h {
            trusted_keys =
                Dict.insert pub_key (record { key = shared_secret; count = 0 }) h.trusted_keys;
          },
        )
      ]

  unfoldable pub trust_key : CryptoHandler → Bytes → Option Bytes → Bool × CryptoHandler
  unfolding agree_on
  trust_key h pub_key salt =
      if not (is_empty h.allowed_keys) && not (any_of (λ key. str_eq key pub_key) h.allowed_keys)
      then (false, h)
      else if is_some (Dict.lookup pub_key h.trusted_keys)
      then (true, h)
      else agree_on h pub_key salt

  -- The result of `trust_key` is not used, and the pointer that comes back is never null.
  unfoldable pub derive : CryptoHandler → Bytes → Bytes → CryptoHandler
  unfolding trust_key
  derive h pub_key salt = (trust_key (record h { trusted_keys = [] }) pub_key (some salt)).1

  unfoldable pub seal_text : Bytes → Bytes → ℕ → Bytes → EncryptionWrapper
  unfolding get_nonce_from_count
  seal_text secret plain count arbitary_data =
      let (cipher, tag) = C.seal secret (get_nonce_from_count count) arbitary_data plain in
      record { cipher_text = cipher; mac = tag; count = count; aad = arbitary_data }

  -- The text that `decrypt` puts into the `cipher_text` of its result.
  unfoldable pub unseal_text : Bytes → EncryptionWrapper → ℕ → Option Bytes
  unfolding get_nonce_from_count
  unseal_text secret wrapper count =
      C.unseal secret (get_nonce_from_count count) wrapper.aad wrapper.mac wrapper.cipher_text

  unfoldable pub encrypt :
      CryptoHandler → Bytes → Bytes → Bytes → Option EncryptionWrapper × CryptoHandler
  unfolding get_count seal_text
  encrypt h pub_key plain aad = elim (Dict.lookup pub_key h.trusted_keys) [
    | none ↦ (none, h)
    | some kc ↦
        let (count, h') = get_count h pub_key in (some (seal_text kc.key plain count aad), h')
  ]

  unfoldable pub decrypt : CryptoHandler → Bytes → EncryptionWrapper → Option Bytes × CryptoHandler
  unfolding get_count unseal_text
  decrypt h pub_key wrapper = elim (Dict.lookup pub_key h.trusted_keys) [
    | none ↦ (none, h)
    | some kc ↦ let (count, h') = get_count h pub_key in (unseal_text kc.key wrapper count, h')
  ]

  -- A function-local `static` nonce: set by the first call in the process, from the counter of that
  -- call's key, and used by all later ones.
  unfoldable pub static_nonce : Option Bytes → CryptoHandler → Bytes → Bytes × CryptoHandler
  unfolding get_count get_nonce_from_count
  static_nonce (some iv) h pub_key = (iv, h)
  static_nonce none h pub_key =
      let (count, h') = get_count h pub_key in (get_nonce_from_count count, h')

  unfoldable pub block_with :
      (Bytes → Bytes → Bytes → Bytes) → Option Bytes → CryptoHandler → Bytes → Bytes → BlockResult
  unfolding static_nonce
  block_with turn static_iv h pub_key text = elim (Dict.lookup pub_key h.trusted_keys) [
    | none ↦ record { static_iv = static_iv; handler = h; out = [] }
    | some kc ↦
        let (iv, h') = static_nonce static_iv h pub_key in
        record { static_iv = some iv; handler = h'; out = turn kc.key iv text }
  ]

  -- One call on a file stream that holds `input` from its position on.
  unfoldable pub encrypt_file_to_buf :
      Option Bytes → CryptoHandler → Bytes → Bytes → ℕ → BlockResult
  unfolding block_with
  encrypt_file_to_buf static_iv h pub_key input block_size =
      block_with C.encrypt_block static_iv h pub_key (take block_size input)

  -- One call on a buffer of received bytes; the output is what goes to the file. The test is
  -- `pump_all`: `PumpAll` ends the message as well, and may throw.
  unfoldable pub decrypt_file_to_buf :
      Option Bytes → CryptoHandler → Bytes → ℕ → Bytes → Bool → BlockResult
  unfolding block_with
  decrypt_file_to_buf static_iv h pub_key block_size input pump_all =
      let turn = if pump_all then C.decrypt_whole else C.decrypt_block in
      block_with turn static_iv h pub_key (take block_size input)

  -- What this call throws.
  unfoldable pub decrypt_file_error :
      Option Bytes → CryptoHandler → Bytes → ℕ → Bytes → Bool → Option Exn
  unfolding static_nonce
  decrypt_file_error static_iv h pub_key block_size input false = none
  decrypt_file_error static_iv h pub_key block_size input true =
      elim (Dict.lookup pub_key h.trusted_keys) [
        | none ↦ none
        | some kc ↦
            C.whole_error kc.key (static_nonce static_iv h pub_key).0 (take block_size input)
      ]
