-- ===== src/Changes/Marks.antt =====
-- What marking a workflow step does to the rows of the steps.
use bash_builder.Prelude.{
  ℕ, zero, suc, ◌<◌, ◌≡◌, ◌≢◌, refl, sym, ap, ◌∙◌, subst, inl, inr, ◌==◌, Bool, true, false, Option,
  some, none, List, [], ◌∷◌, if◌then◌else◌, Bool-cases, of_some-eq, arith,
}
use bash_builder.Prelude.Select.{find_first}
use bash_builder.Changes.Types.{StepName, step_number, StepRow}
use bash_builder.Changes.Rows.{is_open, is_marked, mark}
use bash_builder.Changes.Stages.{flags, flags_of}

-- The row of the step with this number.
abbrev pub row_of_step : ℕ → List StepRow → Option StepRow
row_of_step n = find_first (λ r. step_number r.step == n)

-- Marking one step leaves the rows of the others.
pub mark-row_of_step_ne :
    (s : StepName) (change : StepRow → StepRow)
    → ((r : StepRow) → (change r).step ≡ r.step)
    → (k : ℕ) (rows : List StepRow) → k ≢ step_number s
    → row_of_step k (mark s change rows) ≡ row_of_step k rows
unfolding mark find_first
mark-row_of_step_ne s change keeps k [] ne = refl
mark-row_of_step_ne s change keeps k (r ∷ rows) ne =
    let rest = mark-row_of_step_ne s change keeps k rows ne in
    elim (Bool-cases (is_marked s r)) [
      | inr miss ↦ rw (miss, rest) refl
      | inl hit ↦
          let other : (step_number r.step == k) ≡ false = ground (arith, hit, ne) in
          rw (hit, keeps r, other, rest) refl
    ]

-- The pending row of a step is replaced.
mark-row_of_step :
    (s : StepName) (change : StepRow → StepRow)
    → ((r : StepRow) → (change r).step ≡ r.step)
    → (rows : List StepRow) (r : StepRow) → row_of_step (step_number s) rows ≡ some r
    → is_open r.status ≡ true
    → row_of_step (step_number s) (mark s change rows) ≡ some (change r)
unfolding mark find_first
mark-row_of_step s change keeps [] r f o = cc
mark-row_of_step s change keeps (x ∷ rows) r f o =
    elim (Bool-cases (step_number x.step == step_number s)) [
      | inr miss ↦ rw (miss, miss) (mark-row_of_step s change keeps rows r (rw miss at f) o)
      | inl hit ↦
          let same = of_some-eq (rw hit at f) in
          let pending : is_open x.status ≡ true =
            subst (λ (y : StepRow). is_open y.status ≡ true) (sym same) o in
          let kept : (step_number (change x).step == step_number s) ≡ true =
            ap (λ z. step_number z == step_number s) (keeps x) ∙ hit in
          rw (hit, pending, kept) (ap (λ y. some (change y)) same)
    ]

abbrev flag_of_step : ℕ → List (ℕ × Bool) → Option Bool
flag_of_step n [] = none
flag_of_step n ((m, b) ∷ fs) = let rest = flag_of_step n fs in if m == n then some b else rest

flag_of_step-flags :
    (n : ℕ) (rows : List StepRow) (b : Bool)
    → flag_of_step n (flags rows) ≡ some b
    → (r : StepRow) × (row_of_step n rows ≡ some r) × (is_open r.status ≡ b)
unfolding find_first
flag_of_step-flags n [] b h = cc
flag_of_step-flags n (r ∷ rows) b h = elim (Bool-cases (step_number r.step == n)) [
  | inl hit ↦ (r, rw hit refl, of_some-eq (rw hit at h))
  | inr miss ↦
      let (x, found, open_) = flag_of_step-flags n rows b (rw miss at h) in
      (x, rw miss found, open_)
]

flag_of_step-flags_of : (k : ℕ) → k < 6 → flag_of_step (suc k) (flags_of k) ≡ some true
flag_of_step-flags_of zero h = refl
flag_of_step-flags_of (suc zero) h = refl
flag_of_step-flags_of (suc (suc zero)) h = refl
flag_of_step-flags_of (suc (suc (suc zero))) h = refl
flag_of_step-flags_of (suc (suc (suc (suc zero)))) h = refl
flag_of_step-flags_of (suc (suc (suc (suc (suc zero))))) h = refl
flag_of_step-flags_of (suc (suc (suc (suc (suc (suc k)))))) h = absurd (omega arith)

-- Marking the next step in order replaces its row.
pub mark-row_of_step_next :
    (s : StepName) (change : StepRow → StepRow)
    → ((r : StepRow) → (change r).step ≡ r.step)
    → (rows : List StepRow) (k : ℕ) → k < 6
    → step_number s ≡ suc k
    → flags rows ≡ flags_of k
    → (r : StepRow) × (row_of_step (step_number s) (mark s change rows) ≡ some (change r))
mark-row_of_step_next s change keeps rows k h e f =
    let flag : flag_of_step (step_number s) (flags rows) ≡ some true =
      rw (e, f) (flag_of_step-flags_of k h) in
    let (r, found, pending) = flag_of_step-flags (step_number s) rows true flag in
    (r, mark-row_of_step s change keeps rows r found pending)
