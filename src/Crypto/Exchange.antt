-- ===== src/Crypto/Exchange.antt =====
-- Two ends of a connection whose tables agree: what one encrypts the other decrypts.
use mfsync.Common.{ℕ, ◌≡◌, refl, sym, ap, ◌∙◌, Bool, true, false, Option, none, some, arith}
use mfsync.Common.{List, [], ◌∷◌, Bytes, str_eq_refl, map, length, Option-cases, inl, inr}
use mathlib.Core.Option.{some-injective}
use mfsync.Crypto.{
  CryptoLib, IsLawful, CryptoHandler, KeyCountPair, EncryptionWrapper, is_allowed, get_count,
  derive, encrypt, decrypt, get_shared_secret, get_public_key, seal_text, unseal_text, trust_key,
  agree_on,
}
use mfsync.Crypto.Keys.{entry, used, entry-get_count, entry-derive}

-- Each end has an entry for the other's key, with the same secret and the same counter.
abbrev pub Synced : CryptoHandler → Bytes → CryptoHandler → Bytes → Type 0
Synced a kb b ka = (kc : KeyCountPair) × (entry a kb ≡ some kc) × (entry b ka ≡ some kc)

module _ (C : CryptoLib) {IsPair : Bytes → Bytes → Type 0} (L : IsLawful C IsPair) where
  pub encrypt-entry :
      (h : CryptoHandler) (k plain aad : Bytes) (kc : KeyCountPair)
      → entry h k ≡ some kc
      → encrypt C h k plain aad ≡ (some (seal_text C kc.key plain kc.count aad), (get_count h k).1)
  unfolding encrypt get_count
  encrypt-entry h k plain aad kc e = rw (e, encrypt, get_count, e) refl

  pub decrypt-entry :
      (h : CryptoHandler) (k : Bytes) (w : EncryptionWrapper) (kc : KeyCountPair)
      → entry h k ≡ some kc
      → decrypt C h k w ≡ (unseal_text C kc.key w kc.count, (get_count h k).1)
  unfolding decrypt get_count
  decrypt-entry h k w kc e = rw (e, decrypt, get_count, e) refl

  pub entry-used :
      (h : CryptoHandler) (k : Bytes) (kc : KeyCountPair)
      → entry h k ≡ some kc
      → entry (get_count h k).1 k ≡ some (used kc)
  entry-used h k kc e = entry-get_count h k k kc e ∙ rw (str_eq_refl k) refl

  pub unseal-seal_text :
      (key plain aad : Bytes) (count : ℕ)
      → unseal_text C key (seal_text C key plain count aad) count ≡ some plain
  unfolding unseal_text seal_text
  unseal-seal_text key plain aad count = L.unseal-seal key _ aad plain

  -- Whatever is encrypted has a tag of 16 bytes.
  pub length-encrypt_mac :
      (h : CryptoHandler) (k plain aad : Bytes) (w : EncryptionWrapper)
      → (encrypt C h k plain aad).0 ≡ some w
      → length w.mac ≡ 16
  unfolding encrypt seal_text
  length-encrypt_mac h k plain aad w e = elim (Option-cases (entry h k)) [
    | inl missing ↦ ground (arith, missing)
    | inr (kc, there) ↦
        rw (← some-injective _ _ (sym (ap (λ r. r.0) (encrypt-entry h k plain aad kc there)) ∙ e))
          (L.length-tag kc.key _ aad plain)
  ]

  -- A text is sent under the counter of the table.
  pub encrypt_count :
      (h : CryptoHandler) (k plain aad : Bytes) (kc : KeyCountPair) (w : EncryptionWrapper)
      → entry h k ≡ some kc
      → (encrypt C h k plain aad).0 ≡ some w
      → w.count ≡ kc.count
  unfolding seal_text
  encrypt_count h k plain aad kc w there e =
      rw (← some-injective _ _ (sym (ap (λ r. r.0) (encrypt-entry h k plain aad kc there)) ∙ e))
        refl

  -- An encryption leaves the key pair as it is.
  pub get_public_key-encrypt :
      (h : CryptoHandler) (k plain aad : Bytes)
      → get_public_key C (encrypt C h k plain aad).1 ≡ get_public_key C h
  unfolding encrypt get_public_key get_count
  get_public_key-encrypt h k plain aad = ground arith

  -- One message from either end to the other is recovered, and leaves the ends in step.
  pub encrypt-decrypt :
      (a b : CryptoHandler) (ka kb plain aad : Bytes)
      → Synced a kb b ka
      → (w : EncryptionWrapper) × ((encrypt C a kb plain aad).0 ≡ some w)
        × ((decrypt C b ka w).0 ≡ some plain)
        × Synced (encrypt C a kb plain aad).1 kb (decrypt C b ka w).1 ka
  encrypt-decrypt a b ka kb plain aad (kc, ea, eb) =
      let w = seal_text C kc.key plain kc.count aad in
      (
        w,
        rw (encrypt-entry a kb plain aad kc ea) refl,
        rw (decrypt-entry b ka w kc eb) (unseal-seal_text kc.key plain aad kc.count),
        (
          used kc,
          rw (encrypt-entry a kb plain aad kc ea) (entry-used a kb kc ea),
          rw (decrypt-entry b ka w kc eb) (entry-used b ka kc eb),
        ),
      )

  -- Whatever was sent is recovered.
  pub decrypt_sent :
      (a b : CryptoHandler) (ka kb plain aad : Bytes) (w : EncryptionWrapper)
      → Synced a kb b ka
      → (encrypt C a kb plain aad).0 ≡ some w
      → (decrypt C b ka w).0 ≡ some plain
  decrypt_sent a b ka kb plain aad w s e =
      let ex = encrypt-decrypt a b ka kb plain aad s in
      let same : ex.0 ≡ w = some-injective _ _ (sym ex.1 ∙ e) in rw (← same) ex.2

module _ (C : CryptoLib) where
  -- One message from the first handler to the second: what the second recovers, and both afterwards.
  deliver :
      (a b : CryptoHandler) (ka kb plain : Bytes) → Option Bytes × CryptoHandler × CryptoHandler
  deliver a b ka kb plain =
      let (sealed, a') = encrypt C a kb plain [] in
      elim sealed [
        | none ↦ (none, a', b)
        | some w ↦ let (got, b') = decrypt C b ka w in (got, a', b')
      ]

  -- A conversation: each message goes from the first end (`true`) to the second, or the other way.
  -- The result is what was recovered of each.
  unfoldable pub converse :
      (a b : CryptoHandler) (ka kb : Bytes) → List (Bool × Bytes) → List (Option Bytes)
  unfolding deliver
  converse a b ka kb [] = []
  converse a b ka kb ((true, plain) ∷ ms) =
      let (got, a', b') = deliver a b ka kb plain in got ∷ converse a' b' ka kb ms
  converse a b ka kb ((false, plain) ∷ ms) =
      let (got, b', a') = deliver b a kb ka plain in got ∷ converse a' b' ka kb ms

module _ (C : CryptoLib) {IsPair : Bytes → Bytes → Type 0} (L : IsLawful C IsPair) where
  deliver-Synced :
      (a b : CryptoHandler) (ka kb plain : Bytes)
      → Synced a kb b ka
      → ((deliver C a b ka kb plain).0 ≡ some plain)
        × Synced (deliver C a b ka kb plain).1 kb (deliver C a b ka kb plain).2 ka
  unfolding deliver
  deliver-Synced a b ka kb plain s =
      let (w, e, d, next) = encrypt-decrypt C L a b ka kb plain [] s in
      (rw (e, deliver) d, rw (e, deliver) next)

  Synced-swap : (a b : CryptoHandler) (ka kb : Bytes) → Synced a kb b ka → Synced b ka a kb
  Synced-swap a b ka kb (kc, p, q) = (kc, q, p)

  -- Between two ends whose tables hold the same secret and the same counter for each other, every
  -- message of a conversation is recovered, in whatever direction each goes.
  pub converse-recovers :
      (a b : CryptoHandler) (ka kb : Bytes) (ms : List (Bool × Bytes))
      → Synced a kb b ka
      → converse C a b ka kb ms ≡ map (λ m. some m.1) ms
  unfolding converse
  converse-recovers a b ka kb [] s = refl
  converse-recovers a b ka kb ((true, plain) ∷ ms) s =
      let (got, next) = deliver-Synced a b ka kb plain s in
      let r = deliver C a b ka kb plain in rw (got, converse-recovers r.1 r.2 ka kb ms next) refl
  converse-recovers a b ka kb ((false, plain) ∷ ms) s =
      let (got, next) = deliver-Synced b a kb ka plain (Synced-swap a b ka kb s) in
      let r = deliver C b a kb ka plain in
      rw (got, converse-recovers r.2 r.1 ka kb ms (Synced-swap r.1 r.2 kb ka next)) refl

  -- Two hosts that can agree: proper key pairs, each allows the other's key, they reach a shared
  -- secret, and the salt is not empty.
  pub record Meeting (a b : CryptoHandler) (salt shared : Bytes) (n : ℕ) (rest : Bytes)
      : Type 0 where
    pub pair_a : IsPair a.private_key a.public_key
    pub pair_b : IsPair b.private_key b.public_key
    pub allowed_by_a : is_allowed a (get_public_key C b) ≡ true
    pub allowed_by_b : is_allowed b (get_public_key C a) ≡ true
    pub agreed : C.agree a.private_key b.public_key ≡ some shared
    pub some_salt : C.hex_decode salt ≡ n ∷ rest

  -- What each of them then holds for the other.
  pub derive-entry :
      (a b : CryptoHandler) (salt shared : Bytes) (n : ℕ) (rest : Bytes)
      → Meeting a b salt shared n rest
      → let kb = get_public_key C b in
        let ka = get_public_key C a in
        let kc : KeyCountPair = record { key = C.derive_key shared (n ∷ rest); count = 0 } in
        (entry (derive C a kb salt) kb ≡ some kc) × (entry (derive C b ka salt) ka ≡ some kc)
  unfolding get_public_key get_shared_secret
  derive-entry a b salt shared n rest m = (
    entry-derive C a _ salt _ m.allowed_by_a
        (rw (L.hex_decode-encode, get_shared_secret, m.agreed, m.some_salt) refl),
    entry-derive C b _ salt _ m.allowed_by_b (
        rw
          (
            L.hex_decode-encode,
            get_shared_secret,
            sym (L.agree_comm _ _ _ _ m.pair_a m.pair_b) ∙ m.agreed,
            m.some_salt,
          )
          refl),
  )

  -- Two hosts with proper key pairs that allow each other's key, that reach a shared secret, and
  -- that derive from the same salt, which is not empty, are in step: both tables hold the key that is
  -- derived from the shared secret and the salt, with both counters at 0.
  pub derive-Synced :
      (a b : CryptoHandler) (salt : Bytes) (n : ℕ) (rest shared : Bytes)
      → IsPair a.private_key a.public_key
      → IsPair b.private_key b.public_key
      → is_allowed a (get_public_key C b) ≡ true
      → is_allowed b (get_public_key C a) ≡ true
      → C.agree a.private_key b.public_key ≡ some shared
      → C.hex_decode salt ≡ n ∷ rest
      → let kb = get_public_key C b in
        let ka = get_public_key C a in
        let kc : KeyCountPair = record { key = C.derive_key shared (n ∷ rest); count = 0 } in
        (entry (derive C a kb salt) kb ≡ some kc)
        × (entry (derive C b ka salt) ka ≡ some kc)
        × Synced (derive C a kb salt) kb (derive C b ka salt) ka
  derive-Synced a b salt n rest shared pa pb ha hb e d =
      let held = derive-entry a b salt shared n rest (record {
        pair_a = pa;
        pair_b = pb;
        allowed_by_a = ha;
        allowed_by_b = hb;
        agreed = e;
        some_salt = d;
      }) in
      (held.0, held.1, (record { key = C.derive_key shared (n ∷ rest); count = 0 }, held.0, held.1))

module _ (C : CryptoLib) where
  pub get_public_key-derive :
      (h : CryptoHandler) (k salt : Bytes)
      → get_public_key C (derive C h k salt) ≡ get_public_key C h
  unfolding get_public_key derive trust_key agree_on
  get_public_key-derive h k salt = ground arith
