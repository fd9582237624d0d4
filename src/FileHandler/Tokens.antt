-- ===== src/FileHandler/Tokens.antt =====
-- The live locks of src/file_handler.cpp by their tokens.
use mfsync.Common.{
  ℕ, ◌≡◌, ◌≢◌, refl, Bool, true, false, ◌&&◌, Option, none, some, List, [], ◌∷◌, ◌++◌, arith,
  erase_if, if◌then◌else◌, ◌==◌, Bool-cases, inl, inr, str_eq_refl,
}
use mfsync.Info.{FileInformation, file_information_eq}
use mfsync.FileHandler.{Lock}
use mfsync.FileHandler.Operations.{clear_token}
use mfsync.FileHandler.Invariant.{held, Exclusive, file_information_eq_symm}

-- The file of the first live lock with this token.
unfoldable pub lock_of : ℕ → List Lock → Option FileInformation
lock_of t [] = none
lock_of t (l ∷ ls) = if l.active && l.token == t then some l.file_info else lock_of t ls

-- No two live locks have one token.
abbrev pub Distinct : List Lock → Type 0
Distinct [] = Unit {0}
Distinct (l ∷ ls) = (l.active ≡ true → lock_of l.token ls ≡ none) × Distinct ls

pub lock_of-append_some :
    (t : ℕ) (ls : List Lock) (m : Lock) (f : FileInformation)
    → lock_of t ls ≡ some f
    → lock_of t (ls ++ (m ∷ [])) ≡ some f
unfolding lock_of
lock_of-append_some t [] m f e = cc
lock_of-append_some t (l ∷ ls) m f e = ground (arith, lock_of-append_some t ls m f)

pub lock_of-append_none :
    (t : ℕ) (ls : List Lock) (m : Lock)
    → lock_of t ls ≡ none
    → lock_of t (ls ++ (m ∷ [])) ≡ (if m.active && m.token == t then some m.file_info else none)
unfolding lock_of
lock_of-append_none t [] m e = ground arith
lock_of-append_none t (l ∷ ls) m e = ground (arith, lock_of-append_none t ls m)

pub lock_of-clear_token :
    (t u : ℕ) (ls : List Lock)
    → lock_of t (clear_token u ls) ≡ (if u == t then none else lock_of t ls)
unfolding lock_of clear_token
lock_of-clear_token t u [] = ground arith
lock_of-clear_token t u (l ∷ ls) = ground (arith, lock_of-clear_token t u ls)

pub lock_of-erase_if-none :
    (t : ℕ) (p : Lock → Bool) (ls : List Lock)
    → lock_of t ls ≡ none
    → lock_of t (erase_if p ls) ≡ none
unfolding lock_of
lock_of-erase_if-none t p [] e = refl
lock_of-erase_if-none t p (l ∷ ls) e = ground (arith, lock_of-erase_if-none t p ls)

pub lock_of-erase_if_other :
    (t : ℕ) (f g : FileInformation) (ls : List Lock)
    → lock_of t ls ≡ some g
    → file_information_eq f g ≡ false
    → lock_of t (erase_if (λ l. file_information_eq f l.file_info) ls) ≡ some g
unfolding lock_of
lock_of-erase_if_other t f g [] e d = cc
lock_of-erase_if_other t f g (l ∷ ls) e d = ground (arith, lock_of-erase_if_other t f g ls)

pub append-Distinct :
    (ls : List Lock) (m : Lock)
    → lock_of m.token ls ≡ none
    → Distinct ls
    → Distinct (ls ++ (m ∷ []))
unfolding lock_of
append-Distinct [] m e d = (λ a. refl, tt)
append-Distinct (l ∷ ls) m e d = (
  λ a. ground (arith, lock_of-append_none l.token ls m (d.0 a)),
  append-Distinct ls m (ground arith) d.1,
)

pub clear_token-Distinct : (t : ℕ) (ls : List Lock) → Distinct ls → Distinct (clear_token t ls)
unfolding clear_token
clear_token-Distinct t [] d = tt
clear_token-Distinct t (l ∷ ls) d =
    (ground (arith, lock_of-clear_token l.token t ls, d.0), clear_token-Distinct t ls d.1)

pub erase_if-Distinct : (p : Lock → Bool) (ls : List Lock) → Distinct ls → Distinct (erase_if p ls)
erase_if-Distinct p [] d = tt
erase_if-Distinct p (l ∷ ls) d =
    ground (arith, erase_if-Distinct p ls d.1, lock_of-erase_if-none l.token p ls, d.0)

pub held-lock_of :
    (t : ℕ) (f : FileInformation) (ls : List Lock) → lock_of t ls ≡ some f → held f ls ≡ true
unfolding lock_of file_information_eq
held-lock_of t f [] e = cc
held-lock_of t f (l ∷ ls) e = ground (arith, held-lock_of t f ls, str_eq_refl f.file_name)

unheld-lock_of :
    (u : ℕ) (f g : FileInformation) (ls : List Lock)
    → held f ls ≡ false
    → lock_of u ls ≡ some g
    → file_information_eq f g ≡ false
unfolding lock_of
unheld-lock_of u f g [] h e = cc
unheld-lock_of u f g (l ∷ ls) h e =
    ground (arith, unheld-lock_of u f g ls, file_information_eq_symm f l.file_info)

-- Two live locks with different tokens are not for the same file.
pub Exclusive-lock_of :
    (t u : ℕ) (f g : FileInformation) (ls : List Lock)
    → Exclusive ls
    → lock_of t ls ≡ some f
    → lock_of u ls ≡ some g
    → t ≢ u
    → file_information_eq f g ≡ false
unfolding lock_of
Exclusive-lock_of t u f g [] x e d n = cc
Exclusive-lock_of t u f g (l ∷ ls) x e d n = ground (
  arith,
  x.0,
  x.1,
  Exclusive-lock_of t u f g ls,
  unheld-lock_of u l.file_info g ls,
  unheld-lock_of t l.file_info f ls,
  file_information_eq_symm f l.file_info,
  file_information_eq_symm f g,
)

-- A lock that holds the file is found under its token.
pub lock_of-held :
    (f : FileInformation) (ls : List Lock)
    → Distinct ls
    → held f ls ≡ true
    → (t : ℕ) × (g : FileInformation) × (lock_of t ls ≡ some g) × (file_information_eq g f ≡ true)
unfolding lock_of
lock_of-held f [] d e = cc
lock_of-held f (l ∷ ls) d e = elim (Bool-cases (file_information_eq l.file_info f && l.active)) [
  | inl here ↦ (l.token, l.file_info, ground (arith, here), ground (arith, here))
  | inr other ↦
      let (t, g, found, same) = lock_of-held f ls d.1 (ground (arith, e, other)) in
      (t, g, ground (arith, d.0, found), same)
]
