-- ===== src/Prelude/Select.antt =====
-- Rows found by a test: `findFirst`, `updateMany` on the row that was found, and `count`.
use mathlib.Core.Path.{◌≡◌, subst}
use mathlib.Core.Logic.{inl, inr}
use mathlib.Core.Bool.{Bool, true, false}
use mathlib.Core.List.{List, [], ◌∷◌}
use mathlib.Core.Option.{Option, none, some}
use bash_builder.Prelude.Tests.{if◌then◌else◌, Bool-cases}
use bash_builder.Prelude.Lists.{All}
use bash_builder.Prelude.Errors.{Result, ok, err, not_found, ◌>>=◌, >>=-eq-ok, ok-injective}

module _ {ℓ} {A : Type ℓ} where
  unfoldable pub find_first : (A → Bool) → List A → Option A
  find_first p [] = none
  find_first p (x ∷ xs) = if p x then some x else find_first p xs

  -- `filter`, or the rows of a `where` clause.
  unfoldable pub select : (A → Bool) → List A → List A
  select p [] = []
  select p (x ∷ xs) = let rest = select p xs in if p x then x ∷ rest else rest

  -- The body runs on the first row of the test; a missing row throws.
  unfoldable pub update_first : (A → Bool) → (A → Result A) → List A → Result (List A)
  update_first p body [] = err not_found
  update_first p body (x ∷ xs) =
      if p x then (body x >>= λ y. ok (y ∷ xs)) else (update_first p body xs >>= λ ys. ok (x ∷ ys))

  -- An update inside rows that another test leaves out is not seen by that test.
  pub select-update_first :
      (q p : A → Bool) (body : A → Result A)
      → ((a b : A) → p a ≡ true → body a ≡ ok b → (q a ≡ false) × (q b ≡ false))
      → (xs ys : List A) → update_first p body xs ≡ ok ys
      → select q ys ≡ select q xs
  unfolding update_first select
  select-update_first q p body outside [] ys e = cc
  select-update_first q p body outside (x ∷ xs) ys e = elim (Bool-cases (p x)) [
    | inl hit ↦
        let (y, r, s) = >>=-eq-ok (body x) (λ y. ok (y ∷ xs)) (rw hit at e) in
        subst (λ l. select q l ≡ select q (x ∷ xs)) (ok-injective s)
          (rw ((outside x y hit r).0, (outside x y hit r).1))
    | inr miss ↦
        let (zs, r, s) = >>=-eq-ok (update_first p body xs) (λ zs. ok (x ∷ zs)) (rw miss at e) in
        subst (λ l. select q l ≡ select q (x ∷ xs)) (ok-injective s)
          (rw (select-update_first q p body outside xs zs r))
  ]

  pub find_first-update_first :
      (q p : A → Bool) (body : A → Result A)
      → ((a b : A) → p a ≡ true → body a ≡ ok b → (q a ≡ false) × (q b ≡ false))
      → (xs ys : List A) → update_first p body xs ≡ ok ys
      → find_first q ys ≡ find_first q xs
  unfolding update_first find_first
  find_first-update_first q p body outside [] ys e = cc
  find_first-update_first q p body outside (x ∷ xs) ys e = elim (Bool-cases (p x)) [
    | inl hit ↦
        let (y, r, s) = >>=-eq-ok (body x) (λ y. ok (y ∷ xs)) (rw hit at e) in
        subst (λ l. find_first q l ≡ find_first q (x ∷ xs)) (ok-injective s)
          (rw ((outside x y hit r).0, (outside x y hit r).1))
    | inr miss ↦
        let (zs, r, s) = >>=-eq-ok (update_first p body xs) (λ zs. ok (x ∷ zs)) (rw miss at e) in
        subst (λ l. find_first q l ≡ find_first q (x ∷ xs)) (ok-injective s)
          (rw (find_first-update_first q p body outside xs zs r))
  ]

  -- What every body keeps, the table keeps.
  pub update_first-All {κ} :
      (P : A → Type κ) (p : A → Bool) (body : A → Result A)
      → ((a b : A) → p a ≡ true → P a → body a ≡ ok b → P b)
      → (xs ys : List A) → All P xs
      → update_first p body xs ≡ ok ys
      → All P ys
  unfolding update_first
  update_first-All P p body keep [] ys h e = cc
  update_first-All P p body keep (x ∷ xs) ys h e = elim (Bool-cases (p x)) [
    | inl hit ↦
        let (y, r, s) = >>=-eq-ok (body x) (λ y. ok (y ∷ xs)) (rw hit at e) in
        subst (All P) (ok-injective s) (keep x y hit h.0 r, h.1)
    | inr miss ↦
        let (zs, r, s) = >>=-eq-ok (update_first p body xs) (λ zs. ok (x ∷ zs)) (rw miss at e) in
        subst (All P) (ok-injective s) (h.0, update_first-All P p body keep xs zs h.1 r)
  ]

  -- A successful update ran its body on the first row of the test.
  pub update_first-ran :
      (p : A → Bool) (body : A → Result A) (xs ys : List A)
      → update_first p body xs ≡ ok ys
      → (a : A) × (b : A) × (find_first p xs ≡ some a) × (body a ≡ ok b)
  unfolding update_first find_first
  update_first-ran p body [] ys e = cc
  update_first-ran p body (x ∷ xs) ys e = elim (Bool-cases (p x)) [
    | inl hit ↦
        let (y, r, _) = >>=-eq-ok (body x) (λ y. ok (y ∷ xs)) (rw hit at e) in (x, y, rw hit, r)
    | inr miss ↦
        let (zs, r, _) = >>=-eq-ok (update_first p body xs) (λ zs. ok (x ∷ zs)) (rw miss at e) in
        let (a, b, f, g) = update_first-ran p body xs zs r in (a, b, rw miss f, g)
  ]

  -- A row that still passes the test is the first to pass it.
  pub update_first-found :
      (p : A → Bool) (body : A → Result A)
      → ((a b : A) → p a ≡ true → body a ≡ ok b → p b ≡ true)
      → (xs ys : List A) → update_first p body xs ≡ ok ys
      → (a : A) × (b : A) × (body a ≡ ok b)
        × (find_first p xs ≡ some a)
        × (find_first p ys ≡ some b)
  unfolding update_first find_first
  update_first-found p body keep [] ys e = cc
  update_first-found p body keep (x ∷ xs) ys e = elim (Bool-cases (p x)) [
    | inl hit ↦
        let (y, r, s) = >>=-eq-ok (body x) (λ y. ok (y ∷ xs)) (rw hit at e) in
        (
          x,
          y,
          r,
          rw hit,
          subst (λ l. find_first p l ≡ some y) (ok-injective s) (rw (keep x y hit r)),
        )
    | inr miss ↦
        let (zs, r, s) = >>=-eq-ok (update_first p body xs) (λ zs. ok (x ∷ zs)) (rw miss at e) in
        let (a, b, g, h, k) = update_first-found p body keep xs zs r in
        (a, b, g, rw miss h, subst (λ l. find_first p l ≡ some b) (ok-injective s) (rw miss k))
  ]
