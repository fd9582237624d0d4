-- ===== src/Json/Sample.antt =====
-- A small JSON library that meets the interface, for runs at concrete data: values are trees, and
-- their text is a prefix code with lengths.
use mfsync.Common.{
  ℕ, zero, suc, ◌+◌, ◌%◌, ◌^◌, ◌≤◌, ◌≡◌, refl, Bool, true, false, Option, none, some,
}
use mfsync.Common.{List, [], ◌∷◌, ◌++◌, Bytes, Outcome, ok, throws, parse_error, type_error, arith}
use mfsync.Common.{str_eq, if◌then◌else◌, length, length-append, is_some, take, drop, ◌==◌}
use mfsync.Common.{take-append, drop-append, ap, out_of_range}
use mathlib.Core.Path.{subst}
use mfsync.Json.{JsonLib, IsLawful, field_of, found}

-- Arrays and objects are chains that end in `end`.
pub data Value : Type 0 where
  text : Bytes → Value
  number : ℕ → Value
  blob : Bytes → Value
  end : Value
  item : Value → Value → Value
  field : Bytes → Value → Value → Value

size : Value → ℕ
size (text t) = 1
size (number n) = 1
size (blob t) = 1
size end = 1
size (item v w) = 1 + size v + size w
size (field k v w) = 1 + size v + size w

-- The text, in front of what follows.
unfoldable pub encode : Value → Bytes → Bytes
encode (text t) r = 0 ∷ length t ∷ (t ++ r)
encode (number n) r = 1 ∷ n ∷ r
encode (blob t) r = 2 ∷ length t ∷ (t ++ r)
encode end r = 3 ∷ r
encode (item v w) r = 4 ∷ encode v (encode w r)
encode (field k v w) r = 5 ∷ length k ∷ (k ++ encode v (encode w r))

infixl 5 ◌>>=◌
abbrev ◌>>=◌ {ℓ κ} : {A : Type ℓ} {B : Type κ} → Option A → (A → Option B) → Option B
none >>= f = none
some a >>= f = f a

pattern abbrev four+ : ℕ → ℕ
four+ n = suc (suc (suc (suc n)))

-- A value and the text that follows it.
decode : ℕ → Bytes → Option (Value × Bytes)
decode zero ts = none
decode (suc f) [] = none
decode (suc f) (zero ∷ []) = none
decode (suc f) (zero ∷ n ∷ ts) = some (text (take n ts), drop n ts)
decode (suc f) (suc zero ∷ []) = none
decode (suc f) (suc zero ∷ n ∷ ts) = some (number n, ts)
decode (suc f) (suc (suc zero) ∷ []) = none
decode (suc f) (suc (suc zero) ∷ n ∷ ts) = some (blob (take n ts), drop n ts)
decode (suc f) (suc (suc (suc zero)) ∷ ts) = some (end, ts)
decode (suc f) (four+ zero ∷ ts) = do
  (v, r) ← decode f ts
  (w, r') ← decode f r
  some (item v w, r')
decode (suc f) (four+ (suc zero) ∷ []) = none
decode (suc f) (four+ (suc zero) ∷ n ∷ ts) = do
  (v, r) ← decode f (drop n ts)
  (w, r') ← decode f r
  some (field (take n ts) v w, r')
decode (suc f) (four+ (suc (suc n)) ∷ ts) = none

size_pos : (v : Value) → 1 ≤ size v
unfolding size
size_pos (text t) = omega arith
size_pos _ = omega arith

decode-encode : (v : Value) (f : ℕ) (r : Bytes) → size v ≤ f → decode f (encode v r) ≡ some (v, r)
unfolding size encode decode
decode-encode v zero r h = absurd (omega (arith, size_pos v))
decode-encode (text t) (suc f) r h = rw (take-append t r, drop-append t r)
decode-encode (number n) (suc f) r h = refl
decode-encode (blob t) (suc f) r h = rw (take-append t r, drop-append t r)
decode-encode end (suc f) r h = refl
decode-encode (item v w) (suc f) r h =
    rw (decode-encode v f (encode w r) (omega arith), decode-encode w f r (omega arith))
decode-encode (field k v w) (suc f) r h = rw (
  take-append k (encode v (encode w r)),
  drop-append k (encode v (encode w r)),
  decode-encode v f (encode w r) (omega arith),
  decode-encode w f r (omega arith),
)

size-le : (v : Value) (r : Bytes) → size v + length r ≤ length (encode v r)
unfolding size encode
size-le (text t) r = omega (arith, length-append t r)
size-le (number n) r = omega arith
size-le (blob t) r = omega (arith, length-append t r)
size-le end r = omega arith
size-le (item v w) r = omega (arith, size-le v (encode w r), size-le w r)
size-le (field k v w) r =
    omega (arith, size-le v (encode w r), size-le w r, length-append k (encode v (encode w r)))

whole : Option (Value × Bytes) → Outcome Value
whole (some (v, [])) = ok v
whole (some (v, c ∷ r)) = throws parse_error
whole none = throws parse_error

unfoldable pub parse : Bytes → Outcome Value
unfolding decode whole
parse t = whole (decode (length t) t)

parse-encode : (v : Value) → parse (encode v []) ≡ ok v
unfolding parse
parse-encode v = rw (decode-encode v (length (encode v [])) [] (omega (arith, size-le v []))) refl

unfoldable pub contains : Value → Bytes → Bool
contains (field j v w) k = if str_eq j k then true else contains w k
contains _ k = false

unfoldable pub at : Value → Bytes → Outcome Value
at (field j v w) k = if str_eq j k then ok v else at w k
at end k = throws out_of_range
at _ k = throws type_error

unfoldable pub elements : Value → List Value
elements (item v w) = v ∷ elements w
elements (field k v w) = v ∷ elements w
elements _ = []

unfoldable pub array : List Value → Value
array [] = end
array (v ∷ vs) = item v (array vs)

unfoldable pub object : List (Bytes × Value) → Value
object [] = end
object ((k, v) ∷ fs) = field k v (object fs)

unfoldable pub is_text : Value → Bytes → Bool
is_text (text t) s = str_eq t s
is_text _ s = false

unfoldable pub get_text : Value → Outcome Bytes
get_text (text t) = ok t
get_text _ = throws type_error

unfoldable pub get_number : ℕ → Value → Outcome ℕ
get_number w (number n) = ok (n % 2 ^ w)
get_number w _ = throws type_error

unfoldable pub get_blob : Value → Outcome Bytes
get_blob (blob t) = ok t
get_blob _ = throws type_error

unfoldable pub get_array : ℕ → Value → Outcome Bytes
get_array n (blob t) = if length t == n then ok t else throws out_of_range
get_array n _ = throws type_error

abbrev pub sample : JsonLib
sample = record {
  Json = Value;
  parse = parse;
  dump = λ v. ok (encode v []);
  text = text;
  number = number;
  blob = blob;
  array = array;
  object = object;
  contains = contains;
  at = at;
  elements = elements;
  is_text = is_text;
  get_text = get_text;
  get_number = get_number;
  get_blob = get_blob;
  get_array = get_array;
}

-- A run at concrete data unfolds this name, and with it all operations of the sample.
unfoldable pub sample_runs : Unit {0}
unfolding parse encode contains at elements array object is_text get_text get_number get_blob
    get_array
sample_runs = tt

at-object : (fs : List (Bytes × Value)) (k : Bytes) → at (object fs) k ≡ found (field_of k fs)
unfolding at object
at-object [] k = refl
at-object ((j, v) ∷ fs) k = ground (arith, at-object fs k)

contains-object :
    (fs : List (Bytes × Value)) (k : Bytes) → contains (object fs) k ≡ is_some (field_of k fs)
unfolding contains object
contains-object [] k = refl
contains-object ((j, v) ∷ fs) k = ground (arith, contains-object fs k)

elements-array : (vs : List Value) → elements (array vs) ≡ vs
unfolding elements array
elements-array [] = refl
elements-array (v ∷ vs) = ap (◌∷◌ v) (elements-array vs)

parse-dump : (v : Value) (t : Bytes) → sample.dump v ≡ ok t → parse t ≡ ok v
parse-dump v t h = subst (λ u. parse u ≡ ok v) (ground arith) (parse-encode v)

-- The sample meets what is asked of the library.
pub sample-IsLawful : IsLawful sample
unfolding parse is_text get_text get_number get_blob get_array
sample-IsLawful = record {
  parse-dump = parse-dump;
  parse-nil = refl;
  contains-object = contains-object;
  at-object = at-object;
  elements-array = elements-array;
  is_text-text = λ t s. refl;
  get_text-text = λ t. refl;
  get_number-number = λ w n. refl;
  get_blob-blob = λ t. refl;
  get_array-blob = λ n t h. ground arith;
}
