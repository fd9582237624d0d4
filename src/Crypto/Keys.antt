-- ===== src/Crypto/Keys.antt =====
-- Which keys a handler comes to trust, and what each operation leaves in the table.
use mfsync.Common.{◌+◌, ◌%◌, ◌^◌, ◌≡◌, ◌⊎◌, true, false, Option, none, some, arith}
use mfsync.Common.{Bytes, str_eq, if◌then◌else◌, is_some, inl, inr}
use mfsync.Common.{Option-cases, str_eq_refl}
use mfsync.Dict
use mfsync.Dict.{lookup-insert, lookup, insert}
use mfsync.Crypto.{
  CryptoLib, CryptoHandler, KeyCountPair, is_allowed, get_count, trust_key, derive,
  get_shared_secret, agree_on,
}

abbrev pub entry : CryptoHandler → Bytes → Option KeyCountPair
entry h k = Dict.lookup k h.trusted_keys

-- The entry after a use: its counter has gone up by one, modulo the size of `size_t`.
abbrev pub used : KeyCountPair → KeyCountPair
used kc = record { key = kc.key; count = (kc.count + 1) % 2 ^ 64 }

pub entry-get_count :
    (h : CryptoHandler) (k j : Bytes) (kc : KeyCountPair)
    → entry h k ≡ some kc
    → entry (get_count h k).1 j ≡ (if str_eq k j then some (used kc) else entry h j)
unfolding get_count
entry-get_count h k j kc e = rw (e, get_count) (lookup-insert k j (used kc) h.trusted_keys)

module _ (C : CryptoLib) where
  agree_on-entry :
      (h : CryptoHandler) (k salt : Bytes)
      → ((agree_on C h k (some salt)).0 ≡ true)
          × (is_some (entry (agree_on C h k (some salt)).1 k) ≡ true)
        ⊎ ((agree_on C h k (some salt)).0 ≡ false) × ((agree_on C h k (some salt)).1 ≡ h)
  unfolding agree_on
  agree_on-entry h k salt =
      elim (Option-cases (get_shared_secret C h.private_key (C.hex_decode k) (C.hex_decode salt))) [
        | inl e ↦ inr (rw (e, agree_on), rw (e, agree_on))
        | inr (secret, e) ↦ inl (
          rw (e, agree_on),
          rw (e, agree_on)
              (rw (
                lookup-insert k k (record { key = secret; count = 0 }) h.trusted_keys,
                str_eq_refl k,
              )),
        )
      ]

  -- A handler only comes to trust a key that it allows: if `trust_key` succeeds the key is allowed
  -- and in the table, and if it fails the table is as before.
  pub trust_key-allowed :
      (h : CryptoHandler) (k : Bytes) (salt : Option Bytes)
      → ((trust_key C h k salt).0 ≡ true)
          × (is_allowed h k ≡ true)
          × (is_some (entry (trust_key C h k salt).1 k) ≡ true)
        ⊎ ((trust_key C h k salt).0 ≡ false) × ((trust_key C h k salt).1 ≡ h)
  unfolding trust_key is_allowed
  trust_key-allowed h k none = ground arith
  trust_key-allowed h k (some salt) = ground (arith, agree_on-entry h k salt)

  -- The derived handler holds the agreed secret, under a counter that starts at 0.
  pub entry-derive :
      (h : CryptoHandler) (k salt secret : Bytes)
      → is_allowed h k ≡ true
      → get_shared_secret C h.private_key (C.hex_decode k) (C.hex_decode salt) ≡ some secret
      → entry (derive C h k salt) k ≡ some (record { key = secret; count = 0 })
  unfolding derive trust_key is_allowed lookup insert
  entry-derive h k salt secret a e = ground (arith, str_eq_refl k)
