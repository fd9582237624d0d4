-- ===== src/FileHandler/Offers.antt =====
-- What the offers of other hosts leave in the set of available files (src/file_handler.cpp).
use mathlib.Core.Option.{or_else}
use mfsync.Common.{
  ◌≡◌, refl, Bool, true, ◌&&◌, Option, none, some, arith, List, [], ◌∷◌, Bytes, str_eq, str_eq_iff,
  if◌then◌else◌, Bool-cases, inl, inr,
}
use mfsync.Info.{AvailableFile, available_file_named, file_information_named}
use mfsync.NameSet
use mfsync.NameSet.Lookup.{find-insert}
use mfsync.FileHandler.{FileHandler, is_stored}
use mfsync.FileHandler.Sharing.{offer, offer_all}

-- The first offer of that name.
abbrev pub offered : Bytes → List AvailableFile → Option AvailableFile
offered k [] = none
offered k (a ∷ available) = if str_eq a.file_info.file_name k then some a else offered k available

abbrev after_offer :
    FileHandler → Bytes → Option AvailableFile → Option AvailableFile → Option AvailableFile
after_offer h k old new = or_else old (if NameSet.contains k h.stored_files then none else new)

or_else-none : (o : Option AvailableFile) → or_else o none ≡ o
unfolding or_else
or_else-none none = refl
or_else-none (some f) = refl

find-offer :
    (h : FileHandler) (k : Bytes) (a : AvailableFile)
    → NameSet.find k (offer h a).0.available_files
      ≡ after_offer h k
          (NameSet.find k h.available_files)
          (if str_eq a.file_info.file_name k then some a else none)
unfolding offer is_stored or_else NameSet.contains
find-offer h k a = elim (Bool-cases (is_stored h a.file_info)) [
  | inl e ↦ ground (
    arith,
    e,
    str_eq_iff a.file_info.file_name k,
    or_else-none (NameSet.find k h.available_files),
  )
  | inr e ↦ ground (
    arith,
    e,
    str_eq_iff a.file_info.file_name k,
    or_else-none (NameSet.find k h.available_files),
    find-insert k a h.available_files,
  )
]

stored-offer : (h : FileHandler) (a : AvailableFile) → (offer h a).0.stored_files ≡ h.stored_files
unfolding offer
stored-offer h a = ground (arith, is_stored h a.file_info)

-- After the offers of a host, the available file of a name is the one from before, or else the first
-- offer of that name, unless a file of that name is stored.
pub find-offer_all :
    (h : FileHandler) (available : List AvailableFile) (changed : Bool) (k : Bytes)
    → NameSet.find k (offer_all h available changed).0.available_files
      ≡ or_else
          (NameSet.find k h.available_files)
          (if NameSet.contains k h.stored_files then none else offered k available)
unfolding offer_all or_else
find-offer_all h [] changed k = ground (arith, or_else-none (NameSet.find k h.available_files))
find-offer_all h (a ∷ available) changed k = ground (
  arith,
  find-offer_all (offer h a).0 available
      (if (offer h a).1 && h.print_availables then true else changed) k,
  find-offer h k a,
  stored-offer h a,
)
