-- ===== src/NameSet/Lookup.antt =====
-- What a lookup finds after each operation: the set is a map from names to elements.
use mfsync.Common.{Bool, none, some, List, [], ◌∷◌, Bytes, arith, ◌≡◌, refl}
use mfsync.Common.{str_eq, if◌then◌else◌, ◌||◌, str_lt_trans, str_lt_irrefl, str_lt_total}
use mfsync.Common.{str_eq_iff, erase_if}
use mathlib.Core.Option.{or_else}
use mfsync.Info.{Named, name_of}
use mfsync.NameSet.{find, insert, erase, contains}
use mfsync.NameSet.Order.{Above, IsSorted, Above-trans}

module _ {A : Type 0} ⦃n : Named A⦄ where
  pub find-Above : (k : Bytes) (s : List A) → Above k s → find k s ≡ none
  unfolding find
  find-Above k [] b = refl
  find-Above k (x ∷ s) b = ground (arith, str_lt_trans k (name_of x) k, str_lt_irrefl k, b.0)

  -- What is found has the name.
  pub find-name : (k : Bytes) (s : List A) {x : A} → find k s ≡ some x → name_of x ≡ k
  unfolding find
  find-name k [] h = cc
  find-name k (y ∷ s) {x} h = ground (arith, find-name k s {x = x}, str_lt_total (name_of y) k)

  pub find-insert :
      (k : Bytes) (a : A) (s : List A)
      → find k (insert a s)
        ≡ (if str_eq (name_of a) k then or_else (find k s) (some a) else find k s)
  unfolding find insert or_else
  find-insert k a [] =
      ground (arith, str_eq_iff (name_of a) k, str_lt_irrefl k, str_lt_total (name_of a) k)
  find-insert k a (x ∷ s) = ground (
    arith,
    find-insert k a s,
    str_eq_iff (name_of a) k,
    str_lt_irrefl k,
    str_lt_total (name_of a) k,
    str_lt_total (name_of a) (name_of x),
    str_lt_total (name_of x) k,
    str_lt_trans k (name_of a) (name_of x),
    str_lt_trans (name_of a) (name_of x) k,
  )

  pub contains-insert :
      (k : Bytes) (a : A) (s : List A)
      → contains k (insert a s) ≡ (str_eq (name_of a) k || contains k s)
  unfolding contains or_else
  contains-insert k a s = ground (arith, find-insert k a s)

  -- In a sorted set no other name is touched by an erasure.
  pub find-erase :
      (k j : Bytes) (s : List A)
      → IsSorted s
      → find k (erase j s) ≡ (if str_eq j k then none else find k s)
  unfolding find erase
  find-erase k j [] b = ground arith
  find-erase k j (x ∷ s) b = ground (
    arith,
    find-erase k j s b.1,
    str_eq_iff j k,
    str_lt_irrefl k,
    str_lt_total (name_of x) j,
    str_lt_total (name_of x) k,
    str_lt_trans k j (name_of x),
    str_lt_trans j (name_of x) k,
    find-Above k s,
    Above-trans k (name_of x) s,
  )

  -- An erasure by a test of the name takes exactly the names that pass it.
  pub find-erase_if :
      (q : Bytes → Bool) (k : Bytes) (s : List A)
      → IsSorted s
      → find k (erase_if (λ x. q (name_of x)) s) ≡ (if q k then none else find k s)
  unfolding find
  find-erase_if q k [] b = ground arith
  find-erase_if q k (x ∷ s) b = ground (
    arith,
    find-erase_if q k s b.1,
    str_lt_total (name_of x) k,
    find-Above k s,
    Above-trans k (name_of x) s,
    str_lt_irrefl k,
  )
