-- ===== src/Changes/Journey.antt =====
-- Requests that bring a well-prepared change to its completion.
use bash_builder.Prelude.{
  ℕ, ◌+◌, ◌-◌, ◌≤◌, ◌≡◌, ◌≢◌, refl, ap, ◌∙◌, subst, true, false, ok, arith, all, is_empty, some,
  Identity,
}
use bash_builder.Prelude.Table.{find_row}
use bash_builder.Changes.Types.{
  Change, Tables, draft, in_review, approved, implementing, completed, StepName, StepStatus,
  StepRow, verification, step_number,
}
use bash_builder.Changes.Schema.{StepInput, parse_step}
use bash_builder.Changes.Rows.{
  completed_count, step_completed, transitioned, mark, step_done, next_status, next_step,
}
use bash_builder.Changes.Service.{complete_change_workflow_step, transition_change}
use bash_builder.Changes.Stages.{flags, flags_of, completed_count-six}
use bash_builder.Changes.Invariant.{
  IsValid, is_approved, transitioned-IsValid, step_completed-IsValid,
}
use bash_builder.Changes.Marks.{row_of_step, mark-row_of_step_ne, mark-row_of_step_next}
use bash_builder.Changes.Passes.{
  IsComplete, step_completed-draft, approved_change, transitioned-approved,
  transitioned-implementing, step_completed-verification, complete_change_workflow_step-runs,
  transition_change-runs,
}

-- What a request to complete step `n` makes of a draft: its version is one higher, it stands at the
-- next step, in review after step 4 and as a draft before, the row of the step is completed with what
-- the request brings, and the rows of the other steps are the same.
pub record IsStepped (who : Identity) (now n : ℕ) (input : StepInput) (c d : Change) : Type 0 where
  pub version : d.version ≡ c.version + 1
  pub current_step : d.current_step ≡ n + 1
  pub earlier : n ≤ 3 → d.status ≡ draft
  pub last : n ≡ 4 → d.status ≡ in_review
  pub row : StepRow
  pub there : row_of_step n d.steps ≡ some row
  pub closed : row.status ≡ StepStatus.completed
  pub notes : row.notes ≡ some input.notes
  pub fields : row.fields ≡ input.fields
  pub completed_at : row.completed_at ≡ some now
  pub completed_by : row.completed_by ≡ some who.user
  pub others : (k : ℕ) → k ≢ n → row_of_step k d.steps ≡ row_of_step k c.steps

abbrev stepped : ℕ → ℕ → ℕ → StepName → StepInput → Change → Change
stepped actor now n s input c = record c {
  status = next_status n;
  current_step = next_step n;
  version = c.version + 1;
  steps = mark s (step_done actor now input) c.steps;
}

in_draft : (c : Change) → IsValid c → c.status ≡ draft → (1 ≤ c.current_step) × (c.current_step ≤ 4)
in_draft c v st = ground (arith, v.staged, st)

flags_draft :
    (c : Change) → IsValid c → c.status ≡ draft → flags c.steps ≡ flags_of (c.current_step - 1)
flags_draft c v st = ground (arith, v.flagged, st)

stepped-IsStepped :
    (who : Identity) (now n : ℕ) (s : StepName) (input : StepInput) (c : Change)
    → IsValid c
    → c.status ≡ draft
    → c.current_step ≡ n
    → step_number s ≡ n
    → IsStepped who now n input c (stepped who.user now n s input c)
stepped-IsStepped who now n s input c v st cur num =
    let (low, high) = in_draft c v st in
    let change = step_done who.user now input in
    let steps = mark s change c.steps in
    let bounds : (1 ≤ n) × (n ≤ 4) = (omega (arith, low, cur), omega (arith, high, cur)) in
    let (row, there) =
      mark-row_of_step_next s change (λ r. refl) c.steps (n - 1) (omega (arith, bounds.0, bounds.1))
        (num ∙ omega (arith, bounds.0)) (flags_draft c v st ∙ ap (λ k. flags_of (k - 1)) cur) in
    record {
      version = refl;
      current_step = ground (arith, bounds.1);
      earlier = λ h. ground (arith, h);
      last = λ h. ground (arith, h);
      row = change row;
      there = subst (λ k. row_of_step k steps ≡ some (change row)) num there;
      closed = refl;
      notes = refl;
      fields = refl;
      completed_at = refl;
      completed_by = refl;
      others = λ k ne. mark-row_of_step_ne s change (λ r. refl) k c.steps (λ p. ne (p ∙ num));
    }

-- A request to complete the current step of a draft succeeds whenever the schema accepts its body, it
-- expects the version of the change, it brings the required fields and, at step 4, the change has a
-- risk. The change has then taken the step.
pub complete_change_workflow_step-IsStepped :
    (who : Identity) (now id n : ℕ) (s : StepName) (raw input : StepInput) (t : Tables) (c : Change)
    → find_row (λ x. x.id) id t.changes ≡ some c
    → IsValid c
    → c.status ≡ draft
    → c.current_step ≡ n
    → step_number s ≡ n
    → (n ≡ 4 → is_empty c.risks ≡ false)
    → parse_step raw ≡ ok input
    → IsComplete s input
    → input.expected_version ≡ c.version
    → (u : Tables) × (d : Change) × (complete_change_workflow_step who now id n raw t ≡ ok u)
      × (find_row (λ x. x.id) id u.changes ≡ some d)
      × IsStepped who now n input c d
complete_change_workflow_step-IsStepped who now id n s raw input t c found v st cur num risk read
      complete version =
    let (u, ran, there) =
      complete_change_workflow_step-runs who now id n s raw input t c
        (stepped who.user now n s input c) found read (not_five n (in_draft c v st).1 cur) num
        (step_completed-draft who.user now n s input c v st cur num risk complete version) refl in
    (
      u,
      stepped who.user now n s input c,
      ran,
      there,
      stepped-IsStepped who now n s input c v st cur num,
    )
  where
    not_five : (n : ℕ) → c.current_step ≤ 4 → c.current_step ≡ n → n ≢ 5
    not_five n h e p = omega (arith, h, e, p)

-- Once a change in review has approvals and all of them are APPROVED, the requests that approve it,
-- start its implementation and verify it succeed one after the other, each with the version that the
-- one before left, whoever makes them, if the schema accepts the body of the last and it brings the
-- required fields. The change is then completed with all of its six steps.
pub review_completes :
    (approver starter verifier : Identity) (time₁ time₂ time₃ id : ℕ) (raw input : StepInput)
    (t : Tables) (c : Change)
    → find_row (λ x. x.id) id t.changes ≡ some c
    → IsValid c
    → c.status ≡ in_review
    → is_empty c.approvals ≡ false
    → all is_approved c.approvals ≡ true
    → parse_step raw ≡ ok input
    → IsComplete verification input
    → input.expected_version ≡ c.version + 2
    → (t₁ : Tables) × (t₂ : Tables) × (t₃ : Tables) × (f : Change) × (transition_change approver
          time₁ id approved c.version t
        ≡ ok t₁)
      × (transition_change starter time₂ id implementing (c.version + 1) t₁ ≡ ok t₂)
      × (complete_change_workflow_step verifier time₃ id 6 raw t₂ ≡ ok t₃)
      × (find_row (λ x. x.id) id t₃.changes ≡ some f)
      × (f.status ≡ completed)
      × (f.version ≡ c.version + 3)
      × (completed_count f.steps ≡ 6)
review_completes approver starter verifier time₁ time₂ time₃ id raw input t c found v st
      some_approval all_approved read complete version =
    let (t₁, ran₁, found₁) =
      transition_change-runs approver time₁ id approved c.version t c d found v.versioned p refl in
    let (t₂, ran₂, found₂) =
      transition_change-runs starter time₂ id implementing (c.version + 1) t₁ d e found₁
        (omega arith) q refl in
    let (t₃, ran₃, found₃) =
      complete_change_workflow_step-runs verifier time₃ id 6 verification raw input t₂ e f found₂
        read (omega arith) refl r refl in
    (
      t₁,
      t₂,
      t₃,
      f,
      ran₁,
      ran₂,
      ran₃,
      found₃,
      refl,
      omega arith,
      completed_count-six f.steps f-IsValid.flagged,
    )
  where
    d : Change
    d = approved_change approver.user time₁ c

    p : transitioned approver.user time₁ approved c.version c ≡ ok d
    p = transitioned-approved approver.user time₁ c v st some_approval all_approved

    d-IsValid : IsValid d
    d-IsValid = transitioned-IsValid approver.user time₁ approved c.version c d v p

    e : Change
    e = record d { status = implementing; current_step = 6; version = d.version + 1 }

    q : transitioned starter.user time₂ implementing (c.version + 1) d ≡ ok e
    q = transitioned-implementing starter.user time₂ d d-IsValid refl

    e-IsValid : IsValid e
    e-IsValid = transitioned-IsValid starter.user time₂ implementing (c.version + 1) d e d-IsValid q

    f : Change
    f = record e {
      status = completed;
      current_step = 6;
      version = e.version + 1;
      steps = mark verification (step_done verifier.user time₃ input) e.steps;
    }

    r : step_completed verifier.user time₃ 6 verification input e ≡ ok f
    r =
        step_completed-verification verifier.user time₃ input e e-IsValid refl complete
          (omega arith)

    f-IsValid : IsValid f
    f-IsValid =
        step_completed-IsValid verifier.user time₃ 6 verification input (omega arith) refl e f
          e-IsValid r
