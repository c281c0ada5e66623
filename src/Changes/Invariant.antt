-- ===== src/Changes/Invariant.antt =====
-- What holds of every change row between two requests.
use bash_builder.Prelude.{
  ℕ, ◌-◌, ◌≤◌, ◌<◌, ◌≡◌, refl, Bool, true, false, not, ◌&&◌, List, [], ◌∷◌, Result, ok, arith, All,
  all, any, is_empty, Option, some, ◌≢◌, Result-cases, inl, inr,
}
use bash_builder.Prelude.Table.{update_row, update_row-All}
use bash_builder.Changes.Types.{
  ChangeStatus, draft, in_review, approved, implementing, completed, rejected, StepName, Approver,
  approval, step_number, Change, Approval, is_pending, is_rejected, ChangeInput, RiskInput,
  EvidenceInput, ApprovalInput,
}
use bash_builder.Changes.Schema.{
  is_blank, DecisionInput, parse_decision, parse_decision_lem, StepInput,
}
use bash_builder.Changes.Rows.{
  is_creator, new_change, risk_added, approval_added, approval_decided, decision_made,
  evidence_added, step_done, formal_approval, step_completed, transitioned, step_of,
}
use bash_builder.Changes.Stages.{flags, flags_of, Completes, flags-mark_next}

-- The current step that a status allows.
abbrev pub InStage : ChangeStatus → ℕ → Type 0
InStage draft n = (1 ≤ n) × (n ≤ 4)
InStage in_review n = n ≡ 5
InStage approved n = n ≡ 6
InStage implementing n = n ≡ 6
InStage completed n = n ≡ 6
InStage rejected n = (1 ≤ n) × (n ≤ 5)

-- How many of the six steps are completed.
abbrev pub progress : ChangeStatus → ℕ → ℕ
progress completed n = 6
progress _ n = n - 1

abbrev pub is_assessed : ChangeStatus → Bool
is_assessed draft = false
is_assessed rejected = false
is_assessed _ = true

abbrev pub is_cleared : ChangeStatus → Bool
is_cleared approved = true
is_cleared implementing = true
is_cleared completed = true
is_cleared _ = false

abbrev pub is_approved : Approval → Bool
is_approved a = not (is_pending a.decision) && not (is_rejected a.decision)

-- An approval whose approver is not the change's creator, and that gives a reason if it rejects.
abbrev pub IsSound : Option ℕ → Approval → Type 0
IsSound creator a =
    (is_creator a.approver.user creator ≡ false)
    × ((is_rejected a.decision && is_blank a.comment) ≡ false)

pub record IsValid (c : Change) : Type 0 where
  pub staged : InStage c.status c.current_step
  pub flagged : flags c.steps ≡ flags_of (progress c.status c.current_step)
  pub assessed : is_assessed c.status ≡ true → is_empty c.risks ≡ false
  pub unreviewed : c.status ≡ draft → c.approvals ≡ []
  pub decided : is_cleared c.status ≡ true → is_empty c.approvals ≡ false
  pub cleared : is_cleared c.status ≡ true → all is_approved c.approvals ≡ true
  pub sound : All (IsSound c.created_by) c.approvals
  pub versioned : 0 < c.version

pub new_change-IsValid :
    (id creator : ℕ) (input : ChangeInput) → IsValid (new_change id creator input)
unfolding new_change
new_change-IsValid id creator input = record {
  staged = omega arith;
  flagged = refl;
  assessed = λ e. cc;
  unreviewed = λ e. refl;
  decided = λ e. cc;
  cleared = λ e. cc;
  sound = tt;
  versioned = omega arith;
}

pub risk_added-IsValid :
    (id : ℕ) (input : RiskInput) (c d : Change)
    → IsValid c
    → risk_added id input c ≡ ok d
    → IsValid d
unfolding risk_added
risk_added-IsValid id input c d v e = ground arith

pub evidence_added-IsValid :
    (id : ℕ) (input : EvidenceInput) (is_ready : Bool) (c d : Change)
    → IsValid c
    → evidence_added id input is_ready c ≡ ok d
    → IsValid d
unfolding evidence_added
evidence_added-IsValid id input is_ready c d v e = ground arith

pub approval_added-IsValid :
    (actor id : ℕ) (input : ApprovalInput) (found : Option Approver) (c d : Change)
    → IsValid c
    → approval_added actor id input found c ≡ ok d
    → IsValid d
unfolding approval_added
approval_added-IsValid actor id input found c d v e = ground arith

-- A decision keeps the approver, and gives a reason where it rejects.
approval_decided-IsSound :
    (actor now : ℕ) (raw input : DecisionInput) (creator : Option ℕ)
    → parse_decision raw ≡ ok input
    → (a b : Approval) → IsSound creator a
    → approval_decided actor now input a ≡ ok b
    → IsSound creator b
unfolding approval_decided
approval_decided-IsSound actor now raw input creator p a b s e =
    ground (arith, parse_decision_lem raw input p)

pub decision_made-IsValid :
    (actor now id : ℕ) (raw input : DecisionInput)
    → parse_decision raw ≡ ok input
    → (c d : Change) → IsValid c
    → decision_made actor now id input c ≡ ok d
    → IsValid d
unfolding decision_made
decision_made-IsValid actor now id raw input p c d v e = elim (Result-cases decisions) [
  | inl (x, missed) ↦ absurd (ground (arith, missed))
  | inr (approvals, found) ↦ ground (
    arith,
    found,
    update_row-All (λ a. a.id) (IsSound c.created_by) id (approval_decided actor now input)
        (approval_decided-IsSound actor now raw input c.created_by p) c.approvals approvals v.sound
        found,
  )
]
  where
    decisions : Result (List Approval)
    decisions = update_row (λ a. a.id) id (approval_decided actor now input) c.approvals

step_done-Completes : (actor now : ℕ) (input : StepInput) → Completes (step_done actor now input)
step_done-Completes actor now input = record { step = λ r. refl; closed = λ r. refl }

formal_approval-Completes : (actor now : ℕ) → Completes (formal_approval actor now)
formal_approval-Completes actor now = record { step = λ r. refl; closed = λ r. refl }

pub step_of-number : (n : ℕ) (s : StepName) → step_of n ≡ some s → step_number s ≡ n
unfolding step_of
step_of-number n s e = ground arith

pub step_completed-IsValid :
    (actor now n : ℕ) (s : StepName) (input : StepInput)
    → n ≢ 5
    → step_number s ≡ n
    → (c d : Change) → IsValid c
    → step_completed actor now n s input c ≡ ok d
    → IsValid d
unfolding step_completed
step_completed-IsValid actor now n s input ne p c d v e = ground (
  arith,
  flags-mark_next s (step_done actor now input) c.steps (n - 1)
      (step_done-Completes actor now input),
)

all_approved :
    (l : List Approval)
    → any (λ a. is_pending a.decision) l ≡ false
    → any (λ a. is_rejected a.decision) l ≡ false
    → all is_approved l ≡ true
all_approved [] p r = refl
all_approved (a ∷ l) p r = ground (arith, all_approved l)

pub transitioned-IsValid :
    (actor now : ℕ) (target : ChangeStatus) (expected : ℕ) (c d : Change)
    → IsValid c
    → transitioned actor now target expected c ≡ ok d
    → IsValid d
unfolding transitioned
transitioned-IsValid actor now target expected c d v e = ground (
  arith,
  flags-mark_next approval (formal_approval actor now) c.steps 4
      (formal_approval-Completes actor now),
  all_approved c.approvals,
)
