-- ===== src/Crypto/Trust.antt =====
-- Which keys a handler of src/crypto.cpp can hold: `derive` takes an allowed key or none, and using a
-- handler adds none.
use mfsync.Common.{
  ◌≡◌, Bool, true, Option, none, some, arith, Bytes, str_eq_iff, is_some, Option-cases, inl, inr,
}
use mfsync.Dict.{lookup, insert}
use mfsync.Crypto.{
  CryptoLib, CryptoHandler, KeyCountPair, EncryptionWrapper, is_allowed, get_count, trust_key,
  derive, agree_on, encrypt, decrypt, block_with, static_nonce,
}
use mfsync.Crypto.Keys.{entry, entry-get_count}

abbrev pub knows : CryptoHandler → Bytes → Bool
knows h k = is_some (entry h k)

-- The second handler holds no key that the first does not hold.
abbrev pub Keeps : CryptoHandler → CryptoHandler → Type 0
Keeps h h' = (k : Bytes) → knows h' k ≡ true → knows h k ≡ true

-- Every key that the second handler holds is allowed by the first.
abbrev pub OnlyAllowed : CryptoHandler → CryptoHandler → Type 0
OnlyAllowed crypto d = (k : Bytes) → knows d k ≡ true → is_allowed crypto k ≡ true

pub Keeps-refl : (h : CryptoHandler) → Keeps h h
Keeps-refl h k e = e

pub Keeps-trans : (h h' h'' : CryptoHandler) → Keeps h h' → Keeps h' h'' → Keeps h h''
Keeps-trans h h' h'' p q k e = p k (q k e)

pub OnlyAllowed-Keeps :
    (crypto d d' : CryptoHandler) → OnlyAllowed crypto d → Keeps d d' → OnlyAllowed crypto d'
OnlyAllowed-Keeps crypto d d' o k j e = o j (k j e)

pub get_count-Keeps : (h : CryptoHandler) (k : Bytes) → Keeps h (get_count h k).1
unfolding get_count
get_count-Keeps h k j e = elim (Option-cases (entry h k)) [
  | inl missing ↦ rw (missing, get_count) at e
  | inr (kc, there) ↦ ground (arith, there, entry-get_count h k j kc, str_eq_iff k j, e)
]

module _ (C : CryptoLib) where
  pub encrypt-Keeps :
      (h : CryptoHandler) (k plain aad : Bytes) → Keeps h (encrypt C h k plain aad).1
  unfolding encrypt
  encrypt-Keeps h k plain aad j e = ground (arith, get_count-Keeps h k j)

  pub decrypt-Keeps :
      (h : CryptoHandler) (k : Bytes) (w : EncryptionWrapper) → Keeps h (decrypt C h k w).1
  unfolding decrypt
  decrypt-Keeps h k w j e = ground (arith, get_count-Keeps h k j)

  -- Only a text from a key that is held is decrypted.
  pub decrypt-knows :
      (h : CryptoHandler) (k t : Bytes) (w : EncryptionWrapper)
      → (decrypt C h k w).0 ≡ some t
      → knows h k ≡ true
  unfolding decrypt
  decrypt-knows h k t w e = ground arith

  pub trust_key_unchanged : (h : CryptoHandler) (k : Bytes) → (trust_key C h k none).1 ≡ h
  unfolding trust_key agree_on
  trust_key_unchanged h k = ground arith

  pub trust_key_held :
      (h : CryptoHandler) (k : Bytes) (kc : KeyCountPair)
      → is_allowed h k ≡ true
      → entry h k ≡ some kc
      → trust_key C h k none ≡ (true, h)
  unfolding trust_key is_allowed agree_on
  trust_key_held h k kc a e = ground (arith, e)

  pub block_with-Keeps :
      (turn : Bytes → Bytes → Bytes → Bytes) (iv : Option Bytes) (h : CryptoHandler)
      (k text : Bytes)
      → Keeps h (block_with C turn iv h k text).handler
  unfolding block_with static_nonce
  block_with-Keeps turn none h k text j e = ground (arith, get_count-Keeps h k j)
  block_with-Keeps turn (some v) h k text j e = ground arith

  -- A derived handler holds only a key that its origin allows.
  pub derive-OnlyAllowed : (h : CryptoHandler) (k salt : Bytes) → OnlyAllowed h (derive C h k salt)
  unfolding derive trust_key agree_on is_allowed lookup insert
  derive-OnlyAllowed h k salt j e = ground (arith, str_eq_iff k j)
