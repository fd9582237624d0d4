-- ===== src/Common/Text.antt =====
-- `std::string` as the list of its bytes, with the order and the searches that the source uses.
use Prim.Native.Nat.{ℕ, suc}
use Prim.Native.Char.{code}
use Prim.Native.String.{String}
use mathlib.Core.Path.{◌≡◌, refl}
use mathlib.Core.Logic.{◌≢◌, ◌↔◌}
use mathlib.Core.Bool.{Bool, true, false, ◌&&◌}
use mathlib.Core.Option
use mathlib.Core.Option.{Option, none, some}
use mathlib.Core.List.{List, [], ◌∷◌, ◌++◌, reverse}
use native.Mathlib.Omega.{arith}
use mfsync.Common.Tests.{◌==◌, ltb, if◌then◌else◌}
use mfsync.Common.Lists.{length}

abbrev pub Bytes : Type 0
Bytes = List ℕ

abbrev pub codes : String → Bytes
codes String.[] = []
codes (String.◌∷◌ c s) = code c ∷ codes s

-- `==` on strings.
unfoldable pub str_eq : Bytes → Bytes → Bool
str_eq [] [] = true
str_eq [] (b ∷ bs) = false
str_eq (a ∷ as') [] = false
str_eq (a ∷ as') (b ∷ bs) = (a == b) && str_eq as' bs

-- `<` on strings: lexicographic.
unfoldable pub str_lt : Bytes → Bytes → Bool
str_lt [] [] = false
str_lt [] (b ∷ bs) = true
str_lt (a ∷ as') [] = false
str_lt (a ∷ as') (b ∷ bs) = if ltb a b then true else (a == b) && str_lt as' bs

-- `text.starts_with(prefix)`, the prefix first.
unfoldable pub starts_with : Bytes → Bytes → Bool
starts_with [] t = true
starts_with (p ∷ ps) [] = false
starts_with (p ∷ ps) (c ∷ t) = (p == c) && starts_with ps t

-- `text.ends_with(suffix)`, the suffix first.
unfoldable pub ends_with : Bytes → Bytes → Bool
unfolding starts_with
ends_with s t = starts_with (reverse s) (reverse t)

-- `text.find(needle)`, the needle first; `none` is `npos`.
unfoldable pub find : Bytes → Bytes → Option ℕ
unfolding starts_with
find p [] = if starts_with p [] then some 0 else none
find p (c ∷ t) =
    let later = Option.map suc (find p t) in if starts_with p (c ∷ t) then some 0 else later

-- What stands before the last `/`.
parent_of : Bytes → Bytes
parent_of [] = []
parent_of (c ∷ r) = if c == b'/' then reverse r else parent_of r

unfoldable pub parent : Bytes → Bytes
unfolding parent_of
parent p = parent_of (reverse p)

pub str_eq_refl : (a : Bytes) → str_eq a a ≡ true
unfolding str_eq
str_eq_refl [] = refl
str_eq_refl (x ∷ a) = ground (arith, str_eq_refl a)

pub str_eq_iff : (a b : Bytes) → (str_eq a b ≡ true) ↔ (a ≡ b)
unfolding str_eq
str_eq_iff [] [] = (λ _. refl, λ _. refl)
str_eq_iff [] (b ∷ bs) = (λ h. cc, λ h. cc)
str_eq_iff (a ∷ as') [] = (λ h. cc, λ h. cc)
str_eq_iff (a ∷ as') (b ∷ bs) = ground (arith, str_eq_iff as' bs)

pub str_lt_irrefl : (a : Bytes) → str_lt a a ≡ false
unfolding str_lt
str_lt_irrefl [] = refl
str_lt_irrefl (x ∷ a) = ground (arith, str_lt_irrefl a)

pub str_lt_trans : (a b c : Bytes) → str_lt a b ≡ true → str_lt b c ≡ true → str_lt a c ≡ true
unfolding str_lt
str_lt_trans [] [] c h k = cc
str_lt_trans [] (y ∷ b) [] h k = k
str_lt_trans [] (y ∷ b) (z ∷ c) h k = refl
str_lt_trans (x ∷ a) [] c h k = cc
str_lt_trans (x ∷ a) (y ∷ b) [] h k = k
str_lt_trans (x ∷ a) (y ∷ b) (z ∷ c) h k = ground (arith, str_lt_trans a b c)

-- Neither is less than the other only if they are equal.
pub str_lt_total : (a b : Bytes) → str_lt a b ≡ false → str_lt b a ≡ false → a ≡ b
unfolding str_lt
str_lt_total [] [] h k = refl
str_lt_total [] (y ∷ b) h k = cc
str_lt_total (x ∷ a) [] h k = cc
str_lt_total (x ∷ a) (y ∷ b) h k = ground (arith, str_lt_total a b)

-- The byte does not occur.
abbrev pub NoByte : ℕ → Bytes → Type 0
NoByte c [] = Unit {0}
NoByte c (x ∷ t) = (c ≢ x) × NoByte c t

pub starts_with-append : (p t : Bytes) → starts_with p (p ++ t) ≡ true
unfolding starts_with
starts_with-append [] t = refl
starts_with-append (c ∷ p) t = ground (arith, starts_with-append p t)

-- A match that reaches the byte `c` would contain it.
starts_with-straddle :
    (c : ℕ) (p t u : Bytes)
    → NoByte c p
    → starts_with p t ≡ false
    → starts_with p (t ++ c ∷ u) ≡ false
unfolding starts_with
starts_with-straddle c [] t u n h = h
starts_with-straddle c (x ∷ p) [] u n h = ground arith
starts_with-straddle c (x ∷ p) (y ∷ t) u n h = ground (arith, starts_with-straddle c p t u n.1)

-- A needle whose first byte does not come again, and that is not in the text, is found right
-- behind the text.
pub find-append :
    (c : ℕ) (p t u : Bytes)
    → NoByte c p
    → find (c ∷ p) t ≡ none
    → find (c ∷ p) (t ++ (c ∷ (p ++ u))) ≡ some (length t)
unfolding find starts_with
find-append c p [] u n h = ground (arith, starts_with-append p u)
find-append c p (x ∷ t) u n h =
    ground (arith, starts_with-straddle c p t (p ++ u) n, find-append c p t u n)

-- The needle is not found in two texts that hold it neither, if the second begins with its first
-- byte.
pub find-append_none :
    (c : ℕ) (p t u : Bytes)
    → NoByte c p
    → find (c ∷ p) t ≡ none
    → find (c ∷ p) (c ∷ u) ≡ none
    → find (c ∷ p) (t ++ c ∷ u) ≡ none
unfolding find starts_with
find-append_none c p [] u n h k = k
find-append_none c p (x ∷ t) u n h k =
    ground (arith, starts_with-straddle c p t u n, find-append_none c p t u n)
