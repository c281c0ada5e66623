-- ===== src/Changes/Passes.antt =====
-- When the guards of the workflow let a request on a change through.
use bash_builder.Prelude.{
  ℕ, ◌+◌, ◌-◌, ◌<◌, ◌≡◌, ◌≢◌, refl, true, false, List, [], ◌∷◌, Result, ok, arith, all, any,
  is_empty, some, Identity, String, write, positive, ltb, ◌||◌, ◌==◌,
}
use bash_builder.Prelude.Table.{find_row, update_row-runs}
use bash_builder.Changes.Types.{
  Change, ChangeStatus, Tables, Approval, draft, in_review, approved, implementing, completed,
  StepName, approval, verification, step_number, is_pending, is_rejected,
}
use bash_builder.Changes.Schema.{StepInput, parse_step}
use bash_builder.Changes.Service.{on_change, complete_change_workflow_step, transition_change}
use bash_builder.Changes.Rows.{
  is_missing, required_fields, step_completed, transitioned, mark, step_done, formal_approval,
  next_status, next_step, step_of,
}
use bash_builder.Changes.Stages.{mark_count-next, completed_count-five}
use bash_builder.Changes.Invariant.{IsValid, is_approved}

-- `data` has a value with a visible character for each field that the step requires.
abbrev pub IsComplete : StepName → StepInput → Type 0
IsComplete s input = any (is_missing input.fields) (required_fields s) ≡ false

pub step_completed-draft :
    (actor now n : ℕ) (s : StepName) (input : StepInput) (c : Change)
    → IsValid c
    → c.status ≡ draft
    → c.current_step ≡ n
    → step_number s ≡ n
    → (n ≡ 4 → is_empty c.risks ≡ false)
    → IsComplete s input
    → input.expected_version ≡ c.version
    → step_completed actor now n s input c
      ≡ ok (record c {
        status = next_status n;
        current_step = next_step n;
        version = c.version + 1;
        steps = mark s (step_done actor now input) c.steps;
      })
unfolding step_completed
step_completed-draft actor now n s input c v st cur num risk complete version =
    ground (arith, mark_count-next s c.steps (n - 1))

none_pending :
    (l : List Approval)
    → all is_approved l ≡ true
    → (any (λ a. is_pending a.decision) l ≡ false) × (any (λ a. is_rejected a.decision) l ≡ false)
none_pending [] h = (refl, refl)
none_pending (a ∷ l) h = ground (arith, none_pending l)

abbrev pub approved_change : ℕ → ℕ → Change → Change
approved_change actor now c = record c {
  status = approved;
  current_step = 6;
  version = c.version + 1;
  steps = mark approval (formal_approval actor now) c.steps;
}

pub transitioned-approved :
    (actor now : ℕ) (c : Change)
    → IsValid c
    → c.status ≡ in_review
    → is_empty c.approvals ≡ false
    → all is_approved c.approvals ≡ true
    → transitioned actor now approved c.version c ≡ ok (approved_change actor now c)
unfolding transitioned
transitioned-approved actor now c v st some_approval all_approved =
    ground (arith, mark_count-next approval c.steps 4, none_pending c.approvals)

pub transitioned-implementing :
    (actor now : ℕ) (c : Change)
    → IsValid c
    → c.status ≡ approved
    → transitioned actor now implementing c.version c
      ≡ ok (record c { status = implementing; current_step = 6; version = c.version + 1 })
unfolding transitioned
transitioned-implementing actor now c v st = ground (arith, completed_count-five c.steps)

pub step_completed-verification :
    (actor now : ℕ) (input : StepInput) (c : Change)
    → IsValid c
    → c.status ≡ implementing
    → IsComplete verification input
    → input.expected_version ≡ c.version
    → step_completed actor now 6 verification input c
      ≡ ok (record c {
        status = completed;
        current_step = 6;
        version = c.version + 1;
        steps = mark verification (step_done actor now input) c.steps;
      })
unfolding step_completed
step_completed-verification actor now input c v st complete version =
    ground (arith, mark_count-next verification c.steps 5)

-- A request whose body succeeds on the change that it names.
on_change-runs :
    (who : Identity) (id : ℕ) (body : Change → Result Change) (action type : String) (resource : ℕ)
    (t : Tables) (c d : Change)
    → find_row (λ x. x.id) id t.changes ≡ some c
    → body c ≡ ok d
    → d.id ≡ c.id
    → (u : Tables) × (on_change who id body action type resource t ≡ ok u)
      × (find_row (λ x. x.id) id u.changes ≡ some d)
on_change-runs who id body action type resource t c d found ran same =
    let (changes, done, there) = update_row-runs (λ x. x.id) id body t.changes c d found ran same in
    (
      record t { changes = changes; journal = write who action type resource t.journal },
      rw done refl,
      there,
    )

step_of-eq : (n : ℕ) (s : StepName) → step_number s ≡ n → step_of n ≡ some s
unfolding step_of
step_of-eq n s h = by_step s h
  where
    by_step : (r : StepName) → step_number r ≡ n → step_of n ≡ some r
    by_step r h = ground (arith, h)

pub complete_change_workflow_step-runs :
    (who : Identity) (now id n : ℕ) (s : StepName) (raw input : StepInput) (t : Tables)
    (c d : Change)
    → find_row (λ x. x.id) id t.changes ≡ some c
    → parse_step raw ≡ ok input
    → n ≢ 5
    → step_number s ≡ n
    → step_completed who.user now n s input c ≡ ok d
    → d.id ≡ c.id
    → (u : Tables) × (complete_change_workflow_step who now id n raw t ≡ ok u)
      × (find_row (λ x. x.id) id u.changes ≡ some d)
unfolding complete_change_workflow_step
complete_change_workflow_step-runs who now id n s raw input t c d found read ne num ran same =
    let (u, done, there) =
      on_change-runs who id (step_completed who.user now n s input) "change.workflow_step_completed"
        "change_workflow_step" id t c d found ran same in
    let (low, five) = numbers s n num ne in
    (u, rw (read, low, five, step_of-eq n s num) done, there)
  where
    numbers :
        (s : StepName) (n : ℕ)
        → step_number s ≡ n
        → n ≢ 5
        → ((ltb n 1 || ltb 6 n) ≡ false) × ((n == 5) ≡ false)
    numbers s n num ne = ground (arith, num, ne)

pub transition_change-runs :
    (who : Identity) (now id : ℕ) (target : ChangeStatus) (expected : ℕ) (t : Tables) (c d : Change)
    → find_row (λ x. x.id) id t.changes ≡ some c
    → 0 < expected
    → transitioned who.user now target expected c ≡ ok d
    → d.id ≡ c.id
    → (u : Tables) × (transition_change who now id target expected t ≡ ok u)
      × (find_row (λ x. x.id) id u.changes ≡ some d)
unfolding transition_change positive
transition_change-runs who now id target expected t c d found more ran same =
    let (u, done, there) =
      on_change-runs who id (transitioned who.user now target expected) "change.status_changed"
        "change" id t c d found ran same in
    let some_version : (expected == 0) ≡ false = ground (arith, more) in
    (u, rw some_version done, there)
