-- ===== src/Changes/Stages.antt =====
-- The workflow steps of a change against its status and its current step.
use bash_builder.Prelude.{
  ℕ, zero, suc, ◌<◌, ◌≡◌, refl, ap, ap₂, ◌∙◌, ◌==◌, ◌&&◌, leb, Bool, false, List, [], ◌∷◌, map,
  if◌then◌else◌, arith,
}
use bash_builder.Changes.Types.{StepName, StepStatus, step_number, StepRow}
use bash_builder.Changes.Rows.{is_open, mark, mark_count, completed_count}

-- Each row as the number of its step and whether it is still pending.
abbrev pub flags : List StepRow → List (ℕ × Bool)
flags = map (λ r. (step_number r.step, is_open r.status))

-- The six rows when exactly the first `k` steps are completed.
abbrev pub flags_of : ℕ → List (ℕ × Bool)
flags_of k =
    (1, leb k 0) ∷ (2, leb k 1) ∷ (3, leb k 2) ∷ (4, leb k 3) ∷ (5, leb k 4) ∷ (6, leb k 5) ∷ []

abbrev mark_flags : ℕ → List (ℕ × Bool) → List (ℕ × Bool)
mark_flags n [] = []
mark_flags n ((m, b) ∷ fs) = (m, if m == n then false else b) ∷ mark_flags n fs

-- A change of a row that keeps its step and completes it.
pub record Completes (change : StepRow → StepRow) : Type 0 where
  pub step : (r : StepRow) → (change r).step ≡ r.step
  pub closed : (r : StepRow) → (change r).status ≡ StepStatus.completed

pub flags-mark :
    (s : StepName) (change : StepRow → StepRow) (rows : List StepRow)
    → Completes change
    → flags (mark s change rows) ≡ mark_flags (step_number s) (flags rows)
unfolding mark
flags-mark s change [] c = refl
flags-mark s change (r ∷ rows) c = ground (arith, flags-mark s change rows c, c.step r, c.closed r)

mark_flags-flags_of : (k : ℕ) → k < 6 → mark_flags (suc k) (flags_of k) ≡ flags_of (suc k)
mark_flags-flags_of zero h = refl
mark_flags-flags_of (suc zero) h = refl
mark_flags-flags_of (suc (suc zero)) h = refl
mark_flags-flags_of (suc (suc (suc zero))) h = refl
mark_flags-flags_of (suc (suc (suc (suc zero)))) h = refl
mark_flags-flags_of (suc (suc (suc (suc (suc zero))))) h = refl
mark_flags-flags_of (suc (suc (suc (suc (suc (suc k)))))) h = absurd (omega arith)

-- Completing the next step in order completes one more of the six rows.
pub flags-mark_next :
    (s : StepName) (change : StepRow → StepRow) (rows : List StepRow) (k : ℕ)
    → Completes change
    → k < 6
    → step_number s ≡ suc k
    → flags rows ≡ flags_of k
    → flags (mark s change rows) ≡ flags_of (suc k)
flags-mark_next s change rows k c h e f =
    flags-mark s change rows c ∙ ap₂ mark_flags e f ∙ mark_flags-flags_of k h

abbrev count_closed : List (ℕ × Bool) → ℕ
count_closed [] = 0
count_closed ((n, b) ∷ fs) = let rest = count_closed fs in if b then rest else suc rest

completed_count-flags : (rows : List StepRow) → completed_count rows ≡ count_closed (flags rows)
unfolding completed_count
completed_count-flags [] = refl
completed_count-flags (r ∷ rows) = ground (arith, completed_count-flags rows)

abbrev count_marked : ℕ → List (ℕ × Bool) → ℕ
count_marked n [] = 0
count_marked n ((m, b) ∷ fs) =
    let rest = count_marked n fs in if (m == n) && b then suc rest else rest

mark_count-flags :
    (s : StepName) (rows : List StepRow)
    → mark_count s rows ≡ count_marked (step_number s) (flags rows)
unfolding mark_count
mark_count-flags s [] = refl
mark_count-flags s (r ∷ rows) = ground (arith, mark_count-flags s rows)

count_marked-flags_of : (k : ℕ) → k < 6 → count_marked (suc k) (flags_of k) ≡ 1
count_marked-flags_of zero h = refl
count_marked-flags_of (suc zero) h = refl
count_marked-flags_of (suc (suc zero)) h = refl
count_marked-flags_of (suc (suc (suc zero))) h = refl
count_marked-flags_of (suc (suc (suc (suc zero)))) h = refl
count_marked-flags_of (suc (suc (suc (suc (suc zero))))) h = refl
count_marked-flags_of (suc (suc (suc (suc (suc (suc k)))))) h = absurd (omega arith)

-- The next step in order is pending, and is one row.
pub mark_count-next :
    (s : StepName) (rows : List StepRow) (k : ℕ)
    → k < 6
    → step_number s ≡ suc k
    → flags rows ≡ flags_of k
    → mark_count s rows ≡ 1
mark_count-next s rows k h e f =
    mark_count-flags s rows ∙ ap₂ count_marked e f ∙ count_marked-flags_of k h

pub completed_count-five :
    (rows : List StepRow) → flags rows ≡ flags_of 5 → completed_count rows ≡ 5
completed_count-five rows f = completed_count-flags rows ∙ ap count_closed f

pub completed_count-six : (rows : List StepRow) → flags rows ≡ flags_of 6 → completed_count rows ≡ 6
completed_count-six rows f = completed_count-flags rows ∙ ap count_closed f
