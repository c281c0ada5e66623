-- ===== src/Prelude/Errors.antt =====
-- The exceptions of NestJS as values. The text of a message is left out; its class is kept.
use mathlib.Core.Path.{◌≡◌, refl, ap}
use mathlib.Core.Logic.{◌⊎◌, inl, inr}
use mathlib.Core.Bool.{Bool, true, false}
use mathlib.Core.Option.{Option, none, some}

-- `internal` is an exception that no handler turns into an HTTP answer.
pub data Error : Type 0 where
  bad_request unauthorized forbidden not_found conflict too_large too_many unavailable internal :
      Error

-- What an operation gives back, or the exception that it throws.
pub data Result {ℓ} (T : Type ℓ) : Type ℓ where
  err : Error → Result T
  ok : T → Result T

module _ {ℓ κ} {T : Type ℓ} {U : Type κ} where
  infixl 5 ◌>>=◌
  -- `await`: the rest runs on the value, and an exception passes.
  abbrev pub ◌>>=◌ : Result T → (T → Result U) → Result U
  err x >>= rest = err x
  ok v >>= rest = rest v

  pub >>=-eq-ok :
      (r : Result T) (rest : T → Result U) {u : U}
      → (r >>= rest) ≡ ok u
      → (v : T) × (r ≡ ok v) × (rest v ≡ ok u)
  >>=-eq-ok (err x) rest h = cc
  >>=-eq-ok (ok v) rest h = (v, refl, h)

module _ {ℓ} {U : Type ℓ} where
  infixl 5 ◌>>◌
  abbrev pub ◌>>◌ : Result (Unit {0}) → Result U → Result U
  check >> rest = check >>= λ done. rest

-- `if (test) throw e;`
abbrev pub throw_if : Bool → Error → Result (Unit {0})
throw_if true e = err e
throw_if false e = ok tt

abbrev pub or_throw {ℓ} : {A : Type ℓ} → Option A → Error → Result A
or_throw none e = err e
or_throw (some a) e = ok a

-- `value ?? instead`
abbrev pub or_else {ℓ} : {A : Type ℓ} → Option A → A → A
or_else none a = a
or_else (some b) a = b

-- A row that is missing is answered like one of another version.
abbrev pub as_conflict {ℓ} : {A : Type ℓ} → Result A → Result A
as_conflict (ok a) = ok a
as_conflict (err e) = err conflict

-- A transaction that throws is rolled back.
abbrev pub after {ℓ} : {S : Type ℓ} → S → Result S → S
after s (ok t) = t
after s (err e) = s

abbrev pub is_ok {ℓ} : {A : Type ℓ} → Result A → Bool
is_ok (ok a) = true
is_ok (err e) = false

pub ok-injective {ℓ} : {A : Type ℓ} {a b : A} → ok a ≡ ok b → a ≡ b
ok-injective {A} {a} {b} e = ap value e
  where
    value : Result A → A
    value (ok x) = x
    value (err x) = a

pub Result-cases {ℓ} :
    {A : Type ℓ} (r : Result A) → ((e : Error) × (r ≡ err e)) ⊎ ((a : A) × (r ≡ ok a))
Result-cases (ok a) = inr (a, refl)
Result-cases (err e) = inl (e, refl)

-- What follows a test runs only if the test fails.
pub throw_if-eq-ok {ℓ} :
    {A : Type ℓ} (b : Bool) (e : Error) (m : Result A) {a : A}
    → (throw_if b e >> m) ≡ ok a
    → (b ≡ false) × (m ≡ ok a)
throw_if-eq-ok true e m h = cc
throw_if-eq-ok false e m h = (refl, h)
