-- ===== src/Common/Results.antt =====
-- What a call of the C++ code comes to: a value, an exception, or undefined behaviour.
use mathlib.Core.Path.{◌≡◌, refl, subst}
use mathlib.Core.Option.{Option, none, some}
use mathlib.Core.Logic.{◌⊎◌, inl, inr}

-- `parse_error`, `type_error` and `out_of_range` are those of `nlohmann::json`;
-- `bad_optional_access` is that of `std::optional::value`, `filesystem_error` that of
-- `std::filesystem`, `crypto_error` one of Crypto++.
pub data Exn : Type 0 where
  parse_error type_error out_of_range bad_optional_access filesystem_error crypto_error : Exn

pub data Outcome {ℓ} (A : Type ℓ) : Type ℓ where
  ok : A → Outcome A
  throws : Exn → Outcome A
  undefined : Outcome A

infixl 5 ◌>>=◌
abbrev pub ◌>>=◌ {ℓ κ} : {A : Type ℓ} {B : Type κ} → Outcome A → (A → Outcome B) → Outcome B
ok a >>= f = f a
throws e >>= f = throws e
undefined >>= f = undefined

-- `catch (std::exception&)`
abbrev pub catch_any {ℓ} : {A : Type ℓ} → Outcome A → A → Outcome A
catch_any (ok a) d = ok a
catch_any (throws e) d = ok d
catch_any undefined d = undefined

-- `catch (nlohmann::json::parse_error&)`
abbrev pub catch_parse {ℓ} : {A : Type ℓ} → Outcome A → A → Outcome A
catch_parse (ok a) d = ok a
catch_parse (throws parse_error) d = ok d
catch_parse (throws type_error) d = throws type_error
catch_parse (throws out_of_range) d = throws out_of_range
catch_parse (throws bad_optional_access) d = throws bad_optional_access
catch_parse (throws filesystem_error) d = throws filesystem_error
catch_parse (throws crypto_error) d = throws crypto_error
catch_parse undefined d = undefined

-- `optional.value()`
abbrev pub value {ℓ} : {A : Type ℓ} → Option A → Outcome A
value none = throws bad_optional_access
value (some a) = ok a

-- The call gave no value.
abbrev pub Fails {ℓ} : {A : Type ℓ} → Outcome A → Type 0
Fails (ok a) = ⊥
Fails (throws e) = Unit {0}
Fails undefined = Unit {0}

pub Outcome-cases {ℓ} : {A : Type ℓ} (o : Outcome A) → ((a : A) × (o ≡ ok a)) ⊎ Fails o
Outcome-cases (ok a) = inl (a, refl)
Outcome-cases (throws e) = inr tt
Outcome-cases undefined = inr tt

pub ok-injective {ℓ} : {A : Type ℓ} (a b : A) → ok a ≡ ok b → a ≡ b
ok-injective a b e = cc

-- What a call gives, if it gives anything, satisfies the predicate.
abbrev pub Post {ℓ κ} : {A : Type ℓ} → (A → Type κ) → Outcome A → Type κ
Post P (ok a) = P a
Post P (throws e) = Unit
Post P undefined = Unit

pub Post-bind {ℓ κ ι} :
    {A : Type ℓ} {B : Type κ} (Q : A → Type ι) (P : B → Type ι) (m : Outcome A) (f : A → Outcome B)
    → Post Q m
    → ((a : A) → Q a → Post P (f a))
    → Post P (m >>= f)
Post-bind Q P (ok a) f q k = k a q
Post-bind Q P (throws e) f q k = tt
Post-bind Q P undefined f q k = tt

-- The same, where nothing is known of the first call.
pub Post-after {ℓ κ ι} :
    {A : Type ℓ} {B : Type κ} (P : B → Type ι) (m : Outcome A) (f : A → Outcome B)
    → ((a : A) → Post P (f a))
    → Post P (m >>= f)
Post-after P (ok a) f k = k a
Post-after P (throws e) f k = tt
Post-after P undefined f k = tt

pub Post-catch_parse {ℓ κ} :
    {A : Type ℓ} (P : A → Type κ) (m : Outcome A) (d : A)
    → Post P m
    → P d
    → Post P (catch_parse m d)
Post-catch_parse P (ok a) d q h = q
Post-catch_parse P (throws parse_error) d q h = h
Post-catch_parse P (throws type_error) d q h = tt
Post-catch_parse P (throws out_of_range) d q h = tt
Post-catch_parse P (throws bad_optional_access) d q h = tt
Post-catch_parse P (throws filesystem_error) d q h = tt
Post-catch_parse P (throws crypto_error) d q h = tt
Post-catch_parse P undefined d q h = tt

-- What holds of each result holds of the one that was given.
pub Post-ok {ℓ κ} :
    {A : Type ℓ} (P : A → Type κ) (m : Outcome A) (a : A) → Post P m → m ≡ ok a → P a
Post-ok P (ok b) a q e = subst P (ok-injective b a e) q
Post-ok P (throws x) a q e = cc
Post-ok P undefined a q e = cc

-- The same, with the equation of the first call.
pub Post-known {ℓ κ} :
    {A : Type ℓ} {B : Type ℓ} (P : B → Type κ) (m : Outcome A) (f : A → Outcome B)
    → ((a : A) → m ≡ ok a → Post P (f a))
    → Post P (m >>= f)
Post-known P (ok a) f k = k a refl
Post-known P (throws e) f k = tt
Post-known P undefined f k = tt
