-- ===== src/Info.antt =====
-- include/mfsync/file_information.h: the records that every part of the program hands on, their
-- comparisons, and what `std::set` with `std::less<>` needs of them. Addresses are their text.
use mfsync.Common.{ℕ, Bool, ◌&&◌, Option, Bytes}
use mfsync.Common.{str_eq, str_lt, ◌==◌}

pub record FileInformation : Type 0 where
  pub file_name : Bytes
  pub sha256sum : Option Bytes
  pub size : ℕ

pub record AvailableFile : Type 0 where
  pub file_info : FileInformation
  pub source_address : Bytes
  pub source_port : ℕ
  pub public_key : Bytes

pub record RequestedFile : Type 0 where
  pub file_info : FileInformation
  pub offset : ℕ
  pub chunksize : ℕ

pub record HostInformation : Type 0 where
  pub public_key : Bytes
  pub version : Bytes
  pub ip : Bytes
  pub port : ℕ

-- `operator==` compares the name and the size, and leaves the checksum out.
unfoldable pub file_information_eq : FileInformation → FileInformation → Bool
file_information_eq a b = str_eq a.file_name b.file_name && a.size == b.size

-- `operator==` of requested files.
unfoldable pub requested_file_eq : RequestedFile → RequestedFile → Bool
unfolding file_information_eq
requested_file_eq a b =
    file_information_eq a.file_info b.file_info
    && (a.chunksize == b.chunksize && a.offset == b.offset)

-- What a transparent set orders its elements by: each `operator<` compares the file names.
pub record Named (A : Type 0) : Type 0 where
  pub name : A → Bytes

abbrev pub name_of : {A : Type 0} ⦃n : Named A⦄ → A → Bytes
name_of ⦃n⦄ = n.name

instance abbrev pub file_information_named : Named FileInformation
file_information_named = record { name = λ f. f.file_name }

instance abbrev pub available_file_named : Named AvailableFile
available_file_named = record { name = λ a. a.file_info.file_name }

-- `operator<`, between elements and between an element and a name.
abbrev pub less : {A : Type 0} ⦃n : Named A⦄ → A → A → Bool
less a b = str_lt (name_of a) (name_of b)
