-- ===== src/NameSet.antt =====
-- `std::set<T, std::less<>>` of elements that are ordered by a file name: a list in the order of
-- iteration. `insert` leaves an element of the same name in place, as the library does.
pub mod Order
pub mod Lookup
use mfsync.Common.{ℕ, Bool, true, false, Option, none, some, List, [], ◌∷◌, Bytes}
use mfsync.Common.{str_lt, if◌then◌else◌, is_some}
use mfsync.Info.{Named, name_of}

module _ {A : Type 0} ⦃n : Named A⦄ where
  -- `set.find(name)`
  unfoldable pub find : Bytes → List A → Option A
  find k [] = none
  find k (x ∷ s) =
      if str_lt (name_of x) k then find k s else if str_lt k (name_of x) then none else some x

  -- `set.contains(name)`
  unfoldable pub contains : Bytes → List A → Bool
  unfolding find
  contains k s = is_some (find k s)

  -- The set after `set.insert(element)`; the result's flag is `not (contains ...)` before it.
  unfoldable pub insert : A → List A → List A
  insert a [] = a ∷ []
  insert a (x ∷ s) =
      if str_lt (name_of x) (name_of a)
      then x ∷ insert a s
      else if str_lt (name_of a) (name_of x)
      then a ∷ x ∷ s
      else x ∷ s

  -- `set.erase(element)`
  unfoldable pub erase : Bytes → List A → List A
  erase k [] = []
  erase k (x ∷ s) =
      if str_lt (name_of x) k then x ∷ erase k s else if str_lt k (name_of x) then x ∷ s else s
