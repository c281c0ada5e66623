-- ===== src/Changes/Versions.antt =====
-- The version of a change against its status: the status diagram.
pub mod Stale
use bash_builder.Prelude.{
  ℕ, ◌+◌, ◌≤◌, ◌≡◌, sym, ap, ◌∙◌, ◌≢◌, ◌⊎◌, inl, inr, false, ◌==◌, some, List, Result, ok, is_ok,
  arith, Result-cases, Identity, >>=-eq-ok, or_throw, throw_if-eq-ok, of_some-eq, positive,
  bad_request, ltb, ◌||◌, ok-injective,
}
use bash_builder.Prelude.Table.{find_row, update_row, update_row-find}
use bash_builder.Changes.Types.{
  Change, Tables, ChangeStatus, draft, in_review, approved, implementing, completed, rejected,
  StepName, step_number,
}
use bash_builder.Changes.Schema.{StepInput, parse_step}
use bash_builder.Changes.Rows.{
  risk_added, approval_added, decision_made, evidence_added, step_completed, transitioned, step_of,
}
use bash_builder.Changes.Service.{
  Call, complete_step, transition, handle, serve, complete_change_workflow_step, transition_change,
}
use bash_builder.Changes.Invariant.{step_of-number}
use bash_builder.Changes.Histories.{Body}
use bash_builder.Changes.RowSteps.{RowStep, Body-id, handle-RowStep, serve-related}

-- The edges of the status diagram. A workflow step 1, 2 or 3 stays in `draft`.
pub data Moves : ChangeStatus → ChangeStatus → Type 0 where
  prepare : Moves draft draft
  submit : Moves draft in_review
  discard : Moves draft rejected
  approve : Moves in_review approved
  refuse : Moves in_review rejected
  implement : Moves approved implementing
  finish : Moves implementing completed

-- What is left of a row when its status may not move: version, status, step and steps.
pub record SameStage (c d : Change) : Type 0 where
  pub version : d.version ≡ c.version
  pub status : d.status ≡ c.status
  pub current_step : d.current_step ≡ c.current_step
  pub steps : d.steps ≡ c.steps

ruleset edges = (prepare, submit, discard, approve, refuse, implement, finish)

-- The three edges that a workflow step can take.
pub step_completed-stages :
    (actor now n : ℕ) (s : StepName) (input : StepInput)
    → n ≢ 5
    → step_number s ≡ n
    → (c d : Change) → step_completed actor now n s input c ≡ ok d
    → (((c.status ≡ draft) × (d.status ≡ draft))
        ⊎ ((c.status ≡ draft) × (d.status ≡ in_review))
        ⊎ ((c.status ≡ implementing) × (d.status ≡ completed)))
      × (d.version ≡ c.version + 1)
unfolding step_completed
step_completed-stages actor now n s input ne p c d e = ground arith

step_completed-Moves :
    (actor now n : ℕ) (s : StepName) (input : StepInput)
    → n ≢ 5
    → step_number s ≡ n
    → (c d : Change) → step_completed actor now n s input c ≡ ok d
    → Moves c.status d.status × (d.version ≡ c.version + 1)
unfolding step_completed
step_completed-Moves actor now n s input ne p c d e =
    let (stages, version) = step_completed-stages actor now n s input ne p c d e in
    (
      elim stages [
        | inl (from, to) ↦ rw (from, to) prepare
        | inr (inl (from, to)) ↦ rw (from, to) submit
        | inr (inr (from, to)) ↦ rw (from, to) finish
      ],
      version,
    )

pub transitioned-Moves :
    (actor now : ℕ) (target : ChangeStatus) (expected : ℕ) (c d : Change)
    → transitioned actor now target expected c ≡ ok d
    → Moves c.status d.status × (d.version ≡ c.version + 1)
unfolding transitioned
transitioned-Moves actor now target expected c d e = grind (arith, edges)

pub Body-Moves :
    {who : Identity} {now : ℕ} {body : Change → Result Change}
    → Body who now body
    → (c d : Change) → body c ≡ ok d
    → SameStage c d ⊎ (Moves c.status d.status × (d.version ≡ c.version + 1))
unfolding risk_added approval_added decision_made evidence_added step_completed transitioned
Body-Moves (Body.risk id input) c d e = inl (ground arith)
Body-Moves (Body.approval id input found) c d e = inl (ground arith)
Body-Moves (Body.decision id raw input p) c d e = inl (ground arith)
Body-Moves (Body.evidence id input is_ready) c d e = inl (ground arith)
Body-Moves {who} {now} (Body.step n s input ne p) c d e =
    inr (step_completed-Moves who.user now n s input ne p c d e)
Body-Moves {who} {now} (Body.move target expected) c d e =
    inr (transitioned-Moves who.user now target expected c d e)

-- A row after one request: its stage is the same, or has moved along one edge of the status diagram
-- and its version has been counted up by one.
abbrev pub Advances : Change → Change → Type 0
Advances c d = SameStage c d ⊎ (Moves c.status d.status × (d.version ≡ c.version + 1))

RowStep-Advances : {who : Identity} {now : ℕ} (c d : Change) → RowStep who now c d → Advances c d
RowStep-Advances c d (RowStep.stays p) = inl (ground arith)
RowStep-Advances c d (RowStep.runs body b r) = Body-Moves b c d r

-- Every request either leaves the stage of a change alone, or moves it along one edge of the status
-- diagram and counts its version up by one.
pub handle-Advances :
    (who : Identity) (now : ℕ) (call : Call) (t u : Tables) (id : ℕ) (c : Change)
    → handle who now call t ≡ ok u
    → find_row (λ c. c.id) id t.changes ≡ some c
    → (d : Change) × (find_row (λ c. c.id) id u.changes ≡ some d) × Advances c d
handle-Advances who now call t u id c e f =
    let (d, g, s) = handle-RowStep who now call t u id c e f in (d, g, RowStep-Advances c d s)

Advances-version : (c d : Change) → Advances c d → c.version ≤ d.version
Advances-version c d (inl same) = omega arith
Advances-version c d (inr (edge, e)) = omega arith

-- A row survives every history, and its version never falls.
pub serve-version_le :
    (t : Tables) (calls : List (Identity × ℕ × Call)) (id : ℕ) (c : Change)
    → find_row (λ c. c.id) id t.changes ≡ some c
    → (d : Change) × (find_row (λ c. c.id) id (serve t calls).changes ≡ some d)
      × (c.version ≤ d.version)
serve-version_le =
    serve-related (λ c d. c.version ≤ d.version) (λ c. omega arith) (λ c d e p q. omega arith)
      (λ who now body b c d r. Advances-version c d (Body-Moves b c d r))
