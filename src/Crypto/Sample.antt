-- ===== src/Crypto/Sample.antt =====
-- A small stand-in for Crypto++ that meets the interface, for runs at concrete data. It hides nothing.
use mfsync.Common.{crypto_error, suc, ◌+◌, ◌-◌, ◌≡◌, refl, ap, some, [], ◌∷◌, Bytes, arith, length}
use mfsync.Crypto.{CryptoLib, IsLawful}

abbrev sum : Bytes → Bytes → Bytes
sum [] ys = ys
sum (x ∷ xs) [] = x ∷ xs
sum (x ∷ xs) (y ∷ ys) = (x + y) ∷ sum xs ys

abbrev up : Bytes → Bytes
up [] = []
up (x ∷ xs) = (x + 1) ∷ up xs

abbrev down : Bytes → Bytes
down [] = []
down (x ∷ xs) = (x - 1) ∷ down xs

abbrev tag : Bytes
tag = 0 ∷ 1 ∷ 2 ∷ 3 ∷ 4 ∷ 5 ∷ 6 ∷ 7 ∷ 8 ∷ 9 ∷ 10 ∷ 11 ∷ 12 ∷ 13 ∷ 14 ∷ 15 ∷ []

sum_comm : (xs ys : Bytes) → sum xs ys ≡ sum ys xs
sum_comm [] [] = refl
sum_comm [] (y ∷ ys) = refl
sum_comm (x ∷ xs) [] = refl
sum_comm (x ∷ xs) (y ∷ ys) = let e : x + y ≡ y + x = omega arith in rw (e, sum_comm xs ys) refl

down-up : (xs : Bytes) → down (up xs) ≡ xs
down-up [] = refl
down-up (x ∷ xs) = let e : x + 1 - 1 ≡ x = omega arith in rw (e, down-up xs) refl

length-up : (xs : Bytes) → length (up xs) ≡ length xs
length-up [] = refl
length-up (x ∷ xs) = ap suc (length-up xs)

abbrev pub sample : CryptoLib
sample = record {
  agree = λ a b. some (sum a b);
  derive_key = λ secret salt. sum secret salt;
  seal = λ k n a t. (up t, tag);
  unseal = λ k n a m t. some (down t);
  hex_encode = up;
  hex_decode = down;
  encrypt_block = λ k n t. up t;
  decrypt_block = λ k n t. down t;
  decrypt_whole = λ k n t. [];
  whole_error = λ k n t. some crypto_error;
}

-- The sample meets what is asked of the library; its public keys are the private ones.
pub sample-IsLawful : IsLawful sample (λ private_key public_key. private_key ≡ public_key)
sample-IsLawful = record {
  agree_comm = λ a x b y p q. rw (p, q) (ap some (sum_comm x y));
  unseal-seal = λ k n a t. ap some (down-up t);
  length-tag = λ k n a t. refl;
  hex_decode-encode = down-up;
  decrypt-encrypt_block = λ k n t. down-up t;
  length-encrypt_block = λ k n t. length-up t;
}
