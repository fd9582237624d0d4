-- ===== src/Crypto/Nonce.antt =====
-- The nonces that the counters give.
use mfsync.Common.{ℕ, zero, suc, ◌+◌, ◌*◌, ◌/◌, ◌^◌, ◌<◌, ◌≡◌, refl, ap, [], ◌∷◌, arith, Bytes}
use mfsync.Common.{length, take}
use mfsync.Crypto.{le_bytes, get_nonce_from_count}

length-le_bytes : (k n : ℕ) → length (le_bytes k n) ≡ k
unfolding le_bytes
length-le_bytes zero n = refl
length-le_bytes (suc k) n = ap suc (length-le_bytes k (n / 256))

-- The number that eight bytes stand for.
abbrev of_bytes : Bytes → ℕ
of_bytes [] = 0
of_bytes (b ∷ bs) = b + 256 * of_bytes bs

of_bytes-le_bytes_eight : (n : ℕ) → n < 2 ^ 64 → of_bytes (le_bytes 8 n) ≡ n
unfolding le_bytes
of_bytes-le_bytes_eight n h = omega arith

of_nonce : (n : ℕ) → n < 2 ^ 64 → of_bytes (take 8 (get_nonce_from_count n)) ≡ n
unfolding get_nonce_from_count le_bytes
of_nonce n h = omega arith

-- Different counts of 64 bits give different nonces.
pub get_nonce_from_count-injective :
    (m n : ℕ) → m < 2 ^ 64 → n < 2 ^ 64 → get_nonce_from_count m ≡ get_nonce_from_count n → m ≡ n
get_nonce_from_count-injective m n hm hn e =
    omega (arith, of_nonce m hm, of_nonce n hn, ap (λ (t : Bytes). of_bytes (take 8 t)) e)

-- A nonce has twelve bytes.
pub length-get_nonce_from_count : (n : ℕ) → length (get_nonce_from_count n) ≡ 12
unfolding get_nonce_from_count le_bytes
length-get_nonce_from_count n = refl
