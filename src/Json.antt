-- ===== src/Json.antt =====
-- The JSON library (nlohmann::json, not part of the repository) as an interface: the operations that
-- the sources call, and, as hypotheses, what its documentation says of them. An operation that throws
-- gives the exception.
pub mod Sample
use mfsync.Common.{ℕ, ◌%◌, ◌^◌, ◌≡◌, Bool, true, false, Option, none, some, List, [], ◌∷◌, Bytes}
use mfsync.Common.{
  Outcome, ok, throws, out_of_range, parse_error, str_eq, if◌then◌else◌, length, is_some, ◌<◌,
}

-- The first field of that key.
abbrev pub field_of {ℓ} : {A : Type ℓ} → Bytes → List (Bytes × A) → Option A
field_of k [] = none
field_of k ((j, v) ∷ fs) = if str_eq j k then some v else field_of k fs

abbrev pub found {ℓ} : {A : Type ℓ} → Option A → Outcome A
found none = throws out_of_range
found (some v) = ok v

pub record JsonLib : Type 1 where
  pub Json : Type 0
  -- `json::parse`, `dump`
  pub parse : Bytes → Outcome Json
  pub dump : Json → Outcome Bytes
  -- Values from strings, numbers, byte vectors, arrays and `{key, value}` lists.
  pub text : Bytes → Json
  pub number : ℕ → Json
  pub blob : Bytes → Json
  pub array : List Json → Json
  pub object : List (Bytes × Json) → Json
  -- `contains`, `at`, a range-based `for`, `==` with a string
  pub contains : Json → Bytes → Bool
  pub at : Json → Bytes → Outcome Json
  pub elements : Json → List Json
  pub is_text : Json → Bytes → Bool
  -- `get<std::string>`, `get` of an unsigned integer of that many bits, `get<std::vector<byte>>`,
  -- `get<std::array<byte, n>>`
  pub get_text : Json → Outcome Bytes
  pub get_number : ℕ → Json → Outcome ℕ
  pub get_blob : Json → Outcome Bytes
  pub get_array : ℕ → Json → Outcome Bytes

pub record IsLawful (J : JsonLib) : Type 0 where
  pub parse-dump : (j : J.Json) (t : Bytes) → J.dump j ≡ ok t → J.parse t ≡ ok j
  pub parse-nil : J.parse [] ≡ throws parse_error
  pub contains-object :
      (fs : List (Bytes × J.Json)) (k : Bytes)
      → J.contains (J.object fs) k ≡ is_some (field_of k fs)
  pub at-object :
      (fs : List (Bytes × J.Json)) (k : Bytes) → J.at (J.object fs) k ≡ found (field_of k fs)
  pub elements-array : (js : List J.Json) → J.elements (J.array js) ≡ js
  pub is_text-text : (t s : Bytes) → J.is_text (J.text t) s ≡ str_eq t s
  pub get_text-text : (t : Bytes) → J.get_text (J.text t) ≡ ok t
  pub get_number-number : (w n : ℕ) → J.get_number w (J.number n) ≡ ok (n % 2 ^ w)
  pub get_blob-blob : (t : Bytes) → J.get_blob (J.blob t) ≡ ok t
  pub get_array-blob : (n : ℕ) (t : Bytes) → length t ≡ n → J.get_array n (J.blob t) ≡ ok t
