-- ===== src/Tests/Keys.antt =====
-- Two hosts that trust each other.
use mfsync.Common.{
  ℕ, ◌≡◌, ◌⊎◌, refl, Bool, true, false, Option, none, some, List, [], ◌∷◌, Bytes, codes, arith, map,
  is_some,
}
use mfsync.Dict
use mfsync.Crypto.{CryptoHandler, is_allowed, derive, get_public_key}
use mfsync.Crypto.Sample.{sample, sample-IsLawful}
use mfsync.Crypto.Keys.{entry}
use mfsync.Crypto.Nonce.{get_nonce_from_count-injective}
use mfsync.Crypto.Exchange.{Synced, converse, converse-recovers, derive-Synced}

abbrev host : ℕ → CryptoHandler
host n = record {
  private_key = n ∷ [];
  public_key = n ∷ [];
  trust_all = true;
  trusted_keys = [];
  allowed_keys = [];
}

abbrev talking : Bytes → CryptoHandler
talking other = record (host 1) { trusted_keys = (other, record { key = 3 ∷ []; count = 5 }) ∷ [] }

abbrev messages : List (Bool × Bytes)
messages = (true, codes "hello") ∷ (true, codes "file?") ∷ (false, codes "yes") ∷ []

synced : Synced (talking (20 ∷ [])) (20 ∷ []) (talking (10 ∷ [])) (10 ∷ [])
unfolding Dict.lookup mfsync.Common.str_eq
synced = (record { key = 3 ∷ []; count = 5 }, refl, refl)

allowed : is_allowed (host 1) (get_public_key sample (host 2)) ≡ true
unfolding is_allowed
allowed = refl

allowed' : is_allowed (host 2) (get_public_key sample (host 1)) ≡ true
unfolding is_allowed
allowed' = refl

converse-recovers_example :
    converse sample (talking (20 ∷ [])) (talking (10 ∷ [])) (10 ∷ []) (20 ∷ []) messages
    ≡ some (codes "hello") ∷ some (codes "file?") ∷ some (codes "yes") ∷ []
converse-recovers_example =
    converse-recovers sample sample-IsLawful (talking (20 ∷ [])) (talking (10 ∷ [])) (10 ∷ [])
      (20 ∷ []) messages synced

derive-Synced_example :
    let a = derive sample (host 1) (3 ∷ []) (9 ∷ []) in
    let b = derive sample (host 2) (2 ∷ []) (9 ∷ []) in
    (entry a (3 ∷ []) ≡ some (record { key = 11 ∷ []; count = 0 }))
    × (entry b (2 ∷ []) ≡ some (record { key = 11 ∷ []; count = 0 }))
    × Synced a (3 ∷ []) b (2 ∷ [])
unfolding get_public_key
derive-Synced_example =
    derive-Synced sample sample-IsLawful (host 1) (host 2) (9 ∷ []) 8 [] (3 ∷ []) refl refl allowed
      allowed' refl refl

get_nonce_from_count-injective_example : ◌≡◌ {A = ℕ} 300 300
get_nonce_from_count-injective_example =
    get_nonce_from_count-injective 300 300 (omega arith) (omega arith) refl
