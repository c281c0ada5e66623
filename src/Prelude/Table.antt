-- ===== src/Prelude/Table.antt =====
-- Rows of one tenant with a primary key: `findFirst` and `updateMany` by identifier.
use Prim.Native.Nat.{ℕ}
use mathlib.Core.Path.{◌≡◌, refl, sym, subst, ◌∙◌}
use mathlib.Core.Logic.{◌≢◌, ◌⊎◌, inl, inr}
use mathlib.Core.Bool.{true, false}
use mathlib.Core.List.{List, [], ◌∷◌}
use mathlib.Core.Option.{Option, none, some}
use native.Mathlib.Omega.{arith}
use bash_builder.Prelude.Tests.{◌==◌, if◌then◌else◌, Bool-cases, ==_iff, of_some-eq}
use bash_builder.Prelude.Lists.{All, All-mono, any}
use bash_builder.Prelude.Errors.{Result, ok, err, not_found, ◌>>=◌, >>=-eq-ok, ok-injective}

module _ {ℓ} {A : Type ℓ} (key : A → ℕ) where
  -- `findFirst({ where: { id } })`
  unfoldable pub find_row : ℕ → List A → Option A
  find_row id [] = none
  find_row id (x ∷ xs) = if key x == id then some x else find_row id xs

  -- Finds the row with this identifier, runs the body on it, and writes the result back. A body
  -- that throws, or a row that is missing, throws.
  unfoldable pub update_row : ℕ → (A → Result A) → List A → Result (List A)
  update_row id body [] = err not_found
  update_row id body (x ∷ xs) =
      if key x == id
      then (body x >>= λ y. ok (y ∷ xs))
      else (update_row id body xs >>= λ ys. ok (x ∷ ys))

  -- What every body keeps, the table keeps.
  pub update_row-All {κ} :
      (P : A → Type κ) (id : ℕ) (body : A → Result A)
      → ((a b : A) → P a → body a ≡ ok b → P b)
      → (xs ys : List A) → All P xs
      → update_row id body xs ≡ ok ys
      → All P ys
  unfolding update_row
  update_row-All P id body keep [] ys h e = cc
  update_row-All P id body keep (x ∷ xs) ys h e = elim (Bool-cases (key x == id)) [
    | inl hit ↦
        let (y, e₁, e₂) = >>=-eq-ok (body x) (λ y. ok (y ∷ xs)) (rw hit at e) in
        subst (All P) (ok-injective e₂) (keep x y h.0 e₁, h.1)
    | inr miss ↦
        let (zs, e₁, e₂) = >>=-eq-ok (update_row id body xs) (λ zs. ok (x ∷ zs)) (rw miss at e) in
        subst (All P) (ok-injective e₂) (h.0, update_row-All P id body keep xs zs h.1 e₁)
  ]

  -- A successful update found its row, ran the body on it, and left the other rows alone.
  pub update_row-find :
      (id : ℕ) (body : A → Result A)
      → ((a b : A) → body a ≡ ok b → key b ≡ key a)
      → (xs ys : List A) → update_row id body xs ≡ ok ys
      → (a : A) × (b : A) × (find_row id xs ≡ some a) × (body a ≡ ok b) × (find_row id ys ≡ some b)
  unfolding update_row find_row
  update_row-find id body keep [] ys e = cc
  update_row-find id body keep (x ∷ xs) ys e = elim (Bool-cases (key x == id)) [
    | inl hit ↦
        let (y, e₁, e₂) = >>=-eq-ok (body x) (λ y. ok (y ∷ xs)) (rw hit at e) in
        (x, y, rw hit, e₁, found y hit (keep x y e₁) (ok-injective e₂))
    | inr miss ↦
        let (zs, e₁, e₂) = >>=-eq-ok (update_row id body xs) (λ zs. ok (x ∷ zs)) (rw miss at e) in
        let (a, b, f, r, g) = update_row-find id body keep xs zs e₁ in
        (a, b, rw miss f, r, passed zs b miss g (ok-injective e₂))
  ]
    where
      found :
          (y : A) → (key x == id) ≡ true → key y ≡ key x → (y ∷ xs) ≡ ys → find_row id ys ≡ some y
      found y hit k p = subst (λ l. find_row id l ≡ some y) p (rw (k, hit))

      passed :
          (zs : List A) (b : A)
          → (key x == id) ≡ false
          → find_row id zs ≡ some b
          → (x ∷ zs) ≡ ys
          → find_row id ys ≡ some b
      passed zs b miss g p = subst (λ l. find_row id l ≡ some b) p (rw miss g)

  pub update_row-find_ne :
      (id j : ℕ) (body : A → Result A)
      → ((a b : A) → body a ≡ ok b → key b ≡ key a)
      → (xs ys : List A) → id ≢ j
      → update_row id body xs ≡ ok ys
      → find_row j ys ≡ find_row j xs
  unfolding update_row find_row
  update_row-find_ne id j body keep [] ys ne e = cc
  update_row-find_ne id j body keep (x ∷ xs) ys ne e = elim (Bool-cases (key x == id)) [
    | inl hit ↦
        let (y, e₁, e₂) = >>=-eq-ok (body x) (λ y. ok (y ∷ xs)) (rw hit at e) in
        subst (λ l. find_row j l ≡ find_row j (x ∷ xs)) (ok-injective e₂)
          (other y (keep x y e₁) ((==_iff (key x) id).0 hit))
    | inr miss ↦
        let (zs, e₁, e₂) = >>=-eq-ok (update_row id body xs) (λ zs. ok (x ∷ zs)) (rw miss at e) in
        subst (λ l. find_row j l ≡ find_row j (x ∷ xs)) (ok-injective e₂)
          (rw (update_row-find_ne id j body keep xs zs ne e₁))
  ]
    where
      other : (y : A) → key y ≡ key x → key x ≡ id → find_row j (y ∷ xs) ≡ find_row j (x ∷ xs)
      other y k p = rw k (ground arith)

  -- A body that succeeds on the row that is found is written back.
  pub update_row-runs :
      (id : ℕ) (body : A → Result A) (xs : List A) (a b : A)
      → find_row id xs ≡ some a
      → body a ≡ ok b
      → key b ≡ key a
      → (ys : List A) × (update_row id body xs ≡ ok ys) × (find_row id ys ≡ some b)
  unfolding update_row find_row
  update_row-runs id body [] a b f r k = cc
  update_row-runs id body (x ∷ xs) a b f r k = elim (Bool-cases (key x == id)) [
    | inl hit ↦
        let same = of_some-eq (rw hit at f) in
        let ran : body x ≡ ok b = subst (λ z. body z ≡ ok b) (sym same) r in
        let kept : (key b == id) ≡ true = rw k (subst (λ z. (key z == id) ≡ true) same hit) in
        (b ∷ xs, rw (hit, ran) refl, rw kept refl)
    | inr miss ↦
        let (ys, done, found) = update_row-runs id body xs a b (rw miss at f) r k in
        (x ∷ ys, rw (miss, done) refl, rw miss found)
  ]

  -- A row that is not there is an error.
  pub update_row-missing :
      (id : ℕ) (body : A → Result A) (xs : List A)
      → find_row id xs ≡ none
      → update_row id body xs ≡ err not_found
  unfolding update_row find_row
  update_row-missing id body [] e = refl
  update_row-missing id body (x ∷ xs) e = ground (arith, update_row-missing id body xs)

  pub find_row-All {κ} :
      (P : A → Type κ) (id : ℕ) (xs : List A) {a : A} → All P xs → find_row id xs ≡ some a → P a
  unfolding find_row
  find_row-All P id [] h e = cc
  find_row-All P id (x ∷ xs) h e = elim (Bool-cases (key x == id)) [
    | inl hit ↦ subst P (of_some-eq (rw hit at e)) h.0
    | inr miss ↦ find_row-All P id xs h.1 (rw miss at e)
  ]

  -- A row found in the rest of a table is found behind a row with a new key.
  pub find_row-fresh :
      (id : ℕ) (x : A) (xs : List A) {a : A}
      → any (λ y. key y == key x) xs ≡ false
      → find_row id xs ≡ some a
      → find_row id (x ∷ xs) ≡ some a
  unfolding find_row
  find_row-fresh id x xs f e = elim (Bool-cases (key x == id)) [
    | inl hit ↦ absurd (no_clash xs f e ((==_iff (key x) id).0 hit))
    | inr miss ↦ rw miss e
  ]
    where
      no_clash :
          (ys : List A) {b : A}
          → any (λ y. key y == key x) ys ≡ false
          → find_row id ys ≡ some b
          → key x ≡ id
          → ⊥
      no_clash [] f e p = cc
      no_clash (y ∷ ys) {b} f e p = ground (arith, no_clash ys {b = b})

  -- What the body makes of the row that is found, with what the others keep.
  pub update_row-All_found {κ μ} :
      (P : A → Type κ) (Q : A → Type μ) (id : ℕ) (body : A → Result A)
      → ((a : A) → P a → Q a)
      → (xs ys : List A) → ((a b : A) → find_row id xs ≡ some a → P a → body a ≡ ok b → Q b)
      → All P xs
      → update_row id body xs ≡ ok ys
      → All Q ys
  unfolding update_row find_row
  update_row-All_found P Q id body stay [] ys makes h e = cc
  update_row-All_found P Q id body stay (x ∷ xs) ys makes h e = elim (Bool-cases (key x == id)) [
    | inl hit ↦
        let (y, e₁, e₂) = >>=-eq-ok (body x) (λ y. ok (y ∷ xs)) (rw hit at e) in
        subst (All Q) (ok-injective e₂) (makes x y (rw hit refl) h.0 e₁, All-mono P Q stay xs h.1)
    | inr miss ↦
        let (zs, e₁, e₂) = >>=-eq-ok (update_row id body xs) (λ zs. ok (x ∷ zs)) (rw miss at e) in
        subst (All Q) (ok-injective e₂) (
          stay x h.0,
          update_row-All_found P Q id body stay xs zs (λ a b f. makes a b (rw miss f)) h.1 e₁,
        )
  ]

  pub find_row-key : (id : ℕ) (xs : List A) {a : A} → find_row id xs ≡ some a → key a ≡ id
  unfolding find_row
  find_row-key id [] e = cc
  find_row-key id (x ∷ xs) {a} e = ground (arith, find_row-key id xs {a = a})

  -- An update seen from one row: it is the same, or the body ran on it.
  pub update_row-row :
      (id j : ℕ) (body : A → Result A)
      → ((a b : A) → body a ≡ ok b → key b ≡ key a)
      → (xs ys : List A) (a : A) → update_row id body xs ≡ ok ys
      → find_row j xs ≡ some a
      → (b : A) × (find_row j ys ≡ some b) × ((b ≡ a) ⊎ (body a ≡ ok b))
  update_row-row id j body keep xs ys a e f = elim (Bool-cases (id == j)) [
    | inl hit ↦ hit_case ((==_iff id j).0 hit)
    | inr miss ↦ (
      a,
      update_row-find_ne id j body keep xs ys (λ p. ground (arith, (==_iff id j).1 p)) e ∙ f,
      inl refl,
    )
  ]
    where
      hit_case : id ≡ j → (b : A) × (find_row j ys ≡ some b) × ((b ≡ a) ⊎ (body a ≡ ok b))
      hit_case p =
          let (x, b, g, r, h) = update_row-find id body keep xs ys e in
          let same : x ≡ a = of_some-eq (sym g ∙ subst (λ k. find_row k xs ≡ some a) (sym p) f) in
          (b, subst (λ k. find_row k ys ≡ some b) p h, inr (subst (λ z. body z ≡ ok b) same r))
