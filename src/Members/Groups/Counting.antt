-- ===== src/Members/Groups/Counting.antt =====
-- Lists of different numbers, counted.
use bash_builder.Prelude.{
  ℕ, suc, ◌≤◌, ◌≡◌, refl, sym, ◌∙◌, subst, inl, inr, true, false, not, ◌&&◌, ◌==◌, ==_iff, List, [],
  ◌∷◌, includes, length, if◌then◌else◌, Bool-cases, arith,
}
use bash_builder.Members.Groups.Service.{are_distinct}

-- A list without one number.
remove : ℕ → List ℕ → List ℕ
remove x [] = []
remove x (y ∷ ys) = let rest = remove x ys in if x == y then rest else y ∷ rest

includes-remove :
    (x z : ℕ) (ys : List ℕ) → includes (remove x ys) z ≡ (includes ys z && not (x == z))
unfolding remove
includes-remove x z [] = refl
includes-remove x z (y ∷ ys) = ground (arith, includes-remove x z ys)

remove-same : (x : ℕ) (ys : List ℕ) → includes ys x ≡ false → remove x ys ≡ ys
unfolding remove
remove-same x [] h = refl
remove-same x (y ∷ ys) h = ground (arith, h, remove-same x ys)

length-remove :
    (x : ℕ) (ys : List ℕ)
    → are_distinct ys ≡ true
    → includes ys x ≡ true
    → suc (length (remove x ys)) ≡ length ys
unfolding remove are_distinct
length-remove x [] d h = cc
length-remove x (y ∷ ys) d h = elim (Bool-cases (x == y)) [
  | inl hit ↦
      let new : includes ys y ≡ false = ground (arith, d) in
      let same = subst (λ v. includes ys v ≡ false) (sym ((==_iff x y).0 hit)) new in
      rw (hit, remove-same x ys same) refl
  | inr miss ↦ rw miss (ground (arith, h, d, miss, length-remove x ys))
]

are_distinct-remove :
    (x : ℕ) (ys : List ℕ) → are_distinct ys ≡ true → are_distinct (remove x ys) ≡ true
unfolding remove are_distinct
are_distinct-remove x [] d = refl
are_distinct-remove x (y ∷ ys) d =
    ground (arith, d, are_distinct-remove x ys, includes-remove x y ys)

in_and_out :
    (x w : ℕ) (xs : List ℕ) → includes xs w ≡ true → includes xs x ≡ false → (x == w) ≡ false
in_and_out x w xs k new = elim (Bool-cases (x == w)) [
  | inr miss ↦ miss
  | inl hit ↦ absurd (clash (subst (λ v. includes xs v ≡ true) (sym ((==_iff x w).0 hit)) k) new)
]
  where
    clash : includes xs x ≡ true → includes xs x ≡ false → ⊥
    clash p q = cc

-- As many different numbers as a list has, all from it, are all of it.
pub all_of_them :
    (xs ys : List ℕ)
    → are_distinct xs ≡ true
    → are_distinct ys ≡ true
    → ((z : ℕ) → includes xs z ≡ true → includes ys z ≡ true)
    → length ys ≤ length xs
    → (z : ℕ) → includes ys z ≡ true
    → includes xs z ≡ true
unfolding are_distinct
all_of_them [] [] dx dy sub le z h = cc
all_of_them [] (y ∷ ys) dx dy sub le z h = absurd (omega (arith, le))
all_of_them (x ∷ xs) ys dx dy sub le z h = elim (Bool-cases (x == z)) [
  | inl hit ↦ rw hit refl
  | inr miss ↦
      let there : includes ys x ≡ true = sub x (ground (arith, (==_iff x x).1 refl)) in
      let count = length-remove x ys dy there in
      let new : includes xs x ≡ false = ground (arith, dx) in
      let rest =
        all_of_them xs (remove x ys) (ground (arith, dx)) (are_distinct-remove x ys dy)
          (λ w k. kept w k new) (omega (arith, count, le)) z
          (includes-remove x z ys ∙ ground (arith, h, miss)) in
      rw (miss, rest) refl
]
  where
    kept : (w : ℕ) → includes xs w ≡ true → includes xs x ≡ false → includes (remove x ys) w ≡ true
    kept w k new =
        let there : includes ys w ≡ true = sub w (ground (arith, k)) in
        let other : (x == w) ≡ false = in_and_out x w xs k new in
        includes-remove x w ys ∙ ground (arith, there, other)
