-- ===== src/Protocol/Listing.antt =====
-- The list of stored files as one host sends it and another reads it.
use mathlib.Core.List.{append_assoc, append-nil}
use native.Mathlib.Nat.{mod-eq_of_lt}
use mfsync.Common.{ℕ, ◌^◌, ◌<◌, ◌≡◌, refl, ap, ◌∙◌, Option, none, some, Bytes}
use mfsync.Common.{codes, ok, throws, out_of_range, str_eq, List, [], ◌∷◌, ◌++◌, map}
use mfsync.Info.{FileInformation, AvailableFile, available_file_named, file_information_named}
use mfsync.NameSet.Order.{Above, IsSorted, Before, insert_last, Before-append}
use mfsync.NameSet
use mfsync.Json.{JsonLib, IsLawful, field_of}
use mfsync.Protocol.Fields.{
  element_json, elements_json, create_message_from_file_info, available_file_of_json,
  insert_availables, get_available_files_from_message, sum_field,
}
use mfsync.Protocol.Records.{file_information_of_json-fields}

-- What the receiver makes of a stored file of the sender.
abbrev pub available_of : Bytes → ℕ → Bytes → FileInformation → AvailableFile
available_of address port pub_key f = record {
  file_info = f;
  source_address = address;
  source_port = port;
  public_key = pub_key;
}

-- Every size is a `size_t`.
abbrev pub SizesFit : List FileInformation → Type 0
SizesFit [] = Unit {0}
SizesFit (f ∷ fs) = (f.size < 2 ^ 64) × SizesFit fs

-- Every name in `s` comes before the first of the list.
abbrev Starts : List FileInformation → List AvailableFile → Type 0
Starts [] s = Unit {0}
Starts (f ∷ fs) s = Before f.file_name s

Starts-append :
    (address pub_key : Bytes) (port : ℕ) (f : FileInformation) (fs : List FileInformation)
    (s : List AvailableFile)
    → Above f.file_name fs
    → Before f.file_name s
    → Starts fs (s ++ (available_of address port pub_key f ∷ []))
Starts-append address pub_key port f [] s b r = tt
Starts-append address pub_key port f (g ∷ fs) s b r =
    Before-append f.file_name g.file_name (available_of address port pub_key f) s r b.0 b.0

Starts-nil : (fs : List FileInformation) → Starts fs []
Starts-nil [] = tt
Starts-nil (f ∷ fs) = tt

module _ (J : JsonLib) (L : IsLawful J) (address pub_key : Bytes) (port : ℕ)
    (fits : port < 2 ^ 16) where
  at-port :
      (a b : J.Json) (sum : Option Bytes)
      → J.at
          (J.object (
            (codes "file_name", a)
            ∷ (codes "size", b)
            ∷ (sum_field J sum ++ ((codes "port", J.number port) ∷ []))))
          (codes "port")
        ≡ ok (J.number port)
  unfolding sum_field str_eq
  at-port a b none = L.at-object _ _
  at-port a b (some sum) = L.at-object _ _

  available_file_of_json-element :
      (f : FileInformation)
      → f.size < 2 ^ 64
      → available_file_of_json J (element_json J port f) address pub_key
        ≡ ok (available_of address port pub_key f)
  unfolding available_file_of_json element_json str_eq
  available_file_of_json-element f h =
      rw
        (
          at-port (J.text f.file_name) (J.number f.size) f.sha256sum,
          L.get_number-number,
          mod-eq_of_lt fits,
          file_information_of_json-fields J L f ((codes "port", J.number port) ∷ []) h refl,
        )
        refl

  insert_availables-elements :
      (fs : List FileInformation) (s : List AvailableFile)
      → SizesFit fs
      → IsSorted fs
      → Starts fs s
      → insert_availables J address pub_key (elements_json J port fs) s
        ≡ ok (s ++ map (available_of address port pub_key) fs)
  unfolding insert_availables elements_json
  insert_availables-elements [] s h b r = rw append-nil
  insert_availables-elements (f ∷ fs) s h b r = rw (available_file_of_json-element f h.0) (
      rw (insert_last (available_of address port pub_key f) s r) (
        insert_availables-elements fs _ h.1 b.1 (Starts-append address pub_key port f fs s b.0 r)
        ∙ ap ok (append_assoc s _ _)))

  -- If the port and the sizes fit their C++ types and the files are in order, as a set's are, the
  -- reader of the dumped list gets exactly the sender's files, each with the port that was
  -- announced and with the address and the key that the reader knows the sender by.
  pub file_list-roundtrip :
      (fs : List FileInformation) (t : Bytes)
      → SizesFit fs
      → IsSorted fs
      → create_message_from_file_info J fs port ≡ ok t
      → get_available_files_from_message J t address pub_key
        ≡ ok (some (map (available_of address port pub_key) fs))
  unfolding create_message_from_file_info get_available_files_from_message
  file_list-roundtrip fs [] h b d = cc (L.parse-nil, L.parse-dump _ [] d)
  file_list-roundtrip fs (c ∷ t) h b d =
      rw
        (
          L.parse-dump _ (c ∷ t) d,
          L.elements-array,
          insert_availables-elements fs [] h b (Starts-nil fs),
        )
        refl

module _ (J : JsonLib) (L : IsLawful J) where
  -- Every element is read as an available file.
  abbrev pub AllRead : Bytes → Bytes → List J.Json → Type 0
  AllRead address pub_key [] = Unit {0}
  AllRead address pub_key (j ∷ js) =
      (a : AvailableFile) × (available_file_of_json J j address pub_key ≡ ok a)
      × AllRead address pub_key js

  insert_availables_missing :
      (address pub_key : Bytes) (before js : List J.Json) (fs : List (Bytes × J.Json))
      (s : List AvailableFile)
      → AllRead address pub_key before
      → field_of (codes "port") fs ≡ none
      → insert_availables J address pub_key (before ++ (J.object fs ∷ js)) s ≡ throws out_of_range
  unfolding insert_availables available_file_of_json
  insert_availables_missing address pub_key [] js fs s all n =
      rw (L.at-object _ (codes "port"), n) refl
  insert_availables_missing address pub_key (j ∷ before) js fs s (a, e, all) n =
      rw e (insert_availables_missing address pub_key before js fs (NameSet.insert a s) all n)

  -- A list in which an object without a port stands behind elements that are read makes the reader throw
  -- `out_of_range`, which its handler, for parse errors only, lets pass.
  pub missing_port-throws :
      (message address pub_key : Bytes) (before js : List J.Json) (fs : List (Bytes × J.Json))
      → J.parse message ≡ ok (J.array (before ++ (J.object fs ∷ js)))
      → AllRead address pub_key before
      → field_of (codes "port") fs ≡ none
      → get_available_files_from_message J message address pub_key ≡ throws out_of_range
  unfolding get_available_files_from_message
  missing_port-throws [] address pub_key before js fs p all n = cc (L.parse-nil, p)
  missing_port-throws (c ∷ t) address pub_key before js fs p all n =
      rw (p, L.elements-array, insert_availables_missing address pub_key before js fs [] all n) refl
