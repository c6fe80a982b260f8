-- ===== src/Prelude/Errors.antt =====
-- What a call gives that may throw: the error that it throws, or a value.
use mathlib.Core.Path.{◌≡◌, refl}
use mathlib.Core.Logic.{◌⊎◌, inl, inr}
use mathlib.Core.Bool.{Bool, true, false}

pub data Result (Error Value : Type 0) : Type 0 where
  err : Error → Result Error Value
  ok : Value → Result Error Value

-- `if (test) { throw error; }`
abbrev pub throw_if : {Error : Type 0} → Bool → Error → Result Error (Unit {0})
throw_if false error = ok tt
throw_if true error = err error

abbrev pub map_ok :
    {Error Value Other : Type 0} → (Value → Other) → Result Error Value → Result Error Other
map_ok f (err error) = err error
map_ok f (ok value) = ok (f value)

-- Statement after statement: the first error ends the call.
infixl 5 ◌>>=◌ ◌>>◌
abbrev pub ◌>>=◌ :
    {E : Type 0} {A : Type 0} {B : Type 0} → Result E A → (A → Result E B) → Result E B
err error >>= next = err error
ok value >>= next = next value

abbrev pub ◌>>◌ : {E : Type 0} {B : Type 0} → Result E (Unit {0}) → Result E B → Result E B
statement >> rest = statement >>= λ _. rest

-- A call that returns has returned from its first part.
pub >>=-eq-ok :
    {Error Value Other : Type 0} (call : Result Error Value) (next : Value → Result Error Other)
    {out : Other}
    → (call >>= next) ≡ ok out
    → (value : Value) × (call ≡ ok value) × (next value ≡ ok out)
>>=-eq-ok (err error) next returned = cc
>>=-eq-ok (ok value) next returned = (value, refl, returned)

-- A call whose first part returns goes on with its value.
pub >>=-ok :
    {Error Value Other : Type 0} {call : Result Error Value} (next : Value → Result Error Other)
    {value : Value}
    → call ≡ ok value
    → (call >>= next) ≡ next value
>>=-ok next returned = rw returned refl

-- The first of two statements throws, or the second.
pub >>-eq-err :
    {Error Value : Type 0} (first : Result Error (Unit {0})) (second : Result Error Value)
    {error : Error}
    → (first >> second) ≡ err error
    → (first ≡ err error) ⊎ (second ≡ err error)
>>-eq-err (err other) second thrown = inl cc
>>-eq-err (ok value) second thrown = inr thrown

pub Result-cases :
    {Error Value : Type 0} (call : Result Error Value)
    → ((value : Value) × (call ≡ ok value)) ⊎ ((error : Error) × (call ≡ err error))
Result-cases (err error) = inr (error, refl)
Result-cases (ok value) = inl (value, refl)

-- A call returns one value.
pub returns_once :
    {Error Value : Type 0} {call : Result Error Value} {a b : Value}
    → call ≡ ok a
    → call ≡ ok b
    → a ≡ b
returns_once first second = cc

pub ok-injective :
    {Error Value : Type 0} {a b : Value} → ◌≡◌ {A = Result Error Value} (ok a) (ok b) → a ≡ b
ok-injective same = cc
