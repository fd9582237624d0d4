-- ===== src/Host/Places.antt =====
-- The places of a host's sessions, and the locks of the streams that they hold.
use mfsync.Common.{
  ℕ, ◌≡◌, ◌≢◌, sym, ap, ◌∙◌, true, Option, none, some, List, [], ◌∷◌, ◌++◌, arith, get_elem?, set,
  get_elem?-set_self, get_elem?-set_other, ◌⊎◌, inl, inr,
}
use native.Mathlib.Decide.{ℕ_discrete}
use mfsync.Info.{FileInformation}
use mfsync.FileHandler.{Lock}
use mfsync.FileHandler.Operations.{OfstreamWrapper, clear_token}
use mfsync.FileHandler.Tokens.{
  lock_of, lock_of-append_some, lock_of-append_none, lock_of-clear_token,
}
use mfsync.Host.Ownership.{token_of, HasLock}

pub some-injective {ℓ} : {A : Type ℓ} (a b : A) → some a ≡ some b → a ≡ b
some-injective a b e = cc

pub some-ne-none {ℓ κ} : {A : Type ℓ} {B : Type κ} (a : A) → some a ≡ none → B
some-ne-none a e = cc

-- What stands at a place after one is replaced.
pub set_cases {ℓ} :
    {A : Type ℓ} (xs : List A) (i j : ℕ) (a b c : A)
    → get_elem? xs i ≡ some c
    → get_elem? (set xs i a) j ≡ some b
    → ((i ≡ j) × (a ≡ b)) ⊎ ((i ≢ j) × (get_elem? xs j ≡ some b))
set_cases xs i j a b c there e = elim (ℕ_discrete i j) [
  | yes same ↦ inl (
    same,
    some-injective a b
        (sym (get_elem?-set_self xs i a c there) ∙ ap (get_elem? (set xs i a)) same ∙ e),
  )
  | no other ↦ inr (other, sym (get_elem?-set_other xs i j a other) ∙ e)
]

pub new_token :
    (t n : ℕ) (f g : FileInformation) (ls : List Lock)
    → lock_of t ls ≡ none
    → lock_of t (ls ++ (record { file_info = f; token = n; active = true } ∷ [])) ≡ some g
    → n ≡ t
new_token t n f g ls before e =
    ground
      (arith, lock_of-append_none t ls (record { file_info = f; token = n; active = true }) before)

pub not_cleared :
    (t u : ℕ) (g : FileInformation) (ls : List Lock)
    → lock_of u (clear_token t ls) ≡ some g
    → (t ≢ u) × (lock_of u ls ≡ some g)
not_cleared t u g ls e = (
  (λ same. some-ne-none g (sym e ∙ lock_of-clear_token u t ls ∙ ground arith)),
  ground (arith, lock_of-clear_token u t ls),
)

pub clear-HasLock :
    (t : ℕ) (ls base : List Lock) (f : FileInformation) (x : Option OfstreamWrapper)
    → ((u : ℕ) → t ≢ u → lock_of u ls ≡ some f → lock_of u base ≡ some f)
    → (token_of x ≡ some t → ⊥)
    → HasLock ls f x
    → HasLock (clear_token t base) f x
clear-HasLock t ls base f none keeps other b = tt
clear-HasLock t ls base f (some o) keeps other (u, e, found) =
    let apart : t ≢ u = λ same. other (e ∙ ap some (sym same)) in
    (u, e, (lock_of-clear_token u t base ∙ ground (arith, keeps u apart found)))

pub append-HasLock :
    (ls : List Lock) (m : Lock) (f : FileInformation) (x : Option OfstreamWrapper)
    → HasLock ls f x
    → HasLock (ls ++ (m ∷ [])) f x
append-HasLock ls m f none b = tt
append-HasLock ls m f (some o) (t, e, found) = (t, e, lock_of-append_some t ls m f found)

-- The lock of a session's token is the one of its file.
pub lock_of-token :
    (ls : List Lock) (f : FileInformation) (x : Option OfstreamWrapper) (t : ℕ)
    → HasLock ls f x
    → token_of x ≡ some t
    → lock_of t ls ≡ some f
lock_of-token ls f none t b e = cc
lock_of-token ls f (some o) t (u, e, found) q =
    ap (λ v. lock_of v ls) (some-injective t u (sym q ∙ e)) ∙ found
