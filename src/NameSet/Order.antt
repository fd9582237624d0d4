-- ===== src/NameSet/Order.antt =====
-- The order of the elements of a set is strict, and the operations keep it.
use mfsync.Common.{Bool, true, List, [], ◌∷◌, ◌++◌, Bytes, arith, ◌≡◌, refl}
use mfsync.Common.{str_lt, str_lt_trans, erase_if}
use mfsync.Info.{Named, name_of}
use mfsync.NameSet.{insert, erase}

module _ {A : Type 0} ⦃n : Named A⦄ where
  -- Every name in the list comes after `k`.
  abbrev pub Above : Bytes → List A → Type 0
  Above k [] = Unit {0}
  Above k (x ∷ s) = (str_lt k (name_of x) ≡ true) × Above k s

  abbrev pub IsSorted : List A → Type 0
  IsSorted [] = Unit {0}
  IsSorted (x ∷ s) = Above (name_of x) s × IsSorted s

  pub Above-trans : (j k : Bytes) (s : List A) → str_lt j k ≡ true → Above k s → Above j s
  Above-trans j k [] h a = tt
  Above-trans j k (x ∷ s) h a = (str_lt_trans j k (name_of x) h a.0, Above-trans j k s h a.1)

  insert-Above :
      (k : Bytes) (a : A) (s : List A)
      → str_lt k (name_of a) ≡ true
      → Above k s
      → Above k (insert a s)
  unfolding insert
  insert-Above k a [] h b = (h, tt)
  insert-Above k a (x ∷ s) h b = ground (arith, insert-Above k a s h)

  pub insert-IsSorted : (a : A) (s : List A) → IsSorted s → IsSorted (insert a s)
  unfolding insert
  insert-IsSorted a [] b = (tt, tt)
  insert-IsSorted a (x ∷ s) b = ground (
    arith,
    insert-IsSorted a s,
    insert-Above (name_of x) a s,
    Above-trans (name_of a) (name_of x) s,
  )

  erase-Above : (k j : Bytes) (s : List A) → Above k s → Above k (erase j s)
  unfolding erase
  erase-Above k j [] b = tt
  erase-Above k j (x ∷ s) b = ground (arith, erase-Above k j s)

  pub erase-IsSorted : (j : Bytes) (s : List A) → IsSorted s → IsSorted (erase j s)
  unfolding erase
  erase-IsSorted j [] b = tt
  erase-IsSorted j (x ∷ s) b = ground (arith, erase-IsSorted j s, erase-Above (name_of x) j s)

  erase_if-Above : (p : A → Bool) (k : Bytes) (s : List A) → Above k s → Above k (erase_if p s)
  erase_if-Above p k [] b = tt
  erase_if-Above p k (x ∷ s) b = ground (arith, erase_if-Above p k s)

  pub erase_if-IsSorted : (p : A → Bool) (s : List A) → IsSorted s → IsSorted (erase_if p s)
  erase_if-IsSorted p [] b = tt
  erase_if-IsSorted p (x ∷ s) b =
      ground (arith, erase_if-IsSorted p s, erase_if-Above p (name_of x) s)

  -- Every name in the list comes before `k`.
  abbrev pub Before : Bytes → List A → Type 0
  Before k [] = Unit {0}
  Before k (x ∷ s) = (str_lt (name_of x) k ≡ true) × Before k s

  -- An element that comes after all others is inserted at the end.
  pub insert_last : (a : A) (s : List A) → Before (name_of a) s → insert a s ≡ s ++ (a ∷ [])
  unfolding insert
  insert_last a [] b = refl
  insert_last a (x ∷ s) b = rw (b.0, insert_last a s b.1)

  pub Before-append :
      (j k : Bytes) (a : A) (s : List A)
      → Before j s
      → str_lt j k ≡ true
      → str_lt (name_of a) k ≡ true
      → Before k (s ++ (a ∷ []))
  Before-append j k a [] b h g = (g, tt)
  Before-append j k a (x ∷ s) b h g =
      (str_lt_trans (name_of x) j k b.0 h, Before-append j k a s b.1 h g)
