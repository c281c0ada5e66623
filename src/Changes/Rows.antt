-- ===== src/Changes/Rows.antt =====
-- The bodies of the change operations on the row that `findFirst` returned. Inside a transaction
-- the row keeps its version between the read and `updateMany({ where: { id, version } })`, so the
-- count of updated rows is 1 exactly when the version is the expected one.
use bash_builder.Prelude.{
  ℕ, suc, ◌+◌, ◌==◌, ltb, Bool, true, false, not, ◌&&◌, ◌||◌, Option, none, some, List, [], ◌∷◌,
  is_empty, any, if◌then◌else◌, Result, ok, ◌>>=◌, ◌>>◌, throw_if, or_throw, bad_request, forbidden,
  not_found, conflict, internal, Text, codes, text_eq, trim,
}
use bash_builder.Prelude.Table.{update_row}
use bash_builder.Changes.Schema.{DecisionInput, StepInput}
use bash_builder.Changes.Types.{
  ChangeStatus, draft, in_review, approved, implementing, completed, rejected, Decision, StepName,
  general_information, triggers, implementation_plan, risk_assessment, approval, verification,
  StepStatus, step_number, same_status, is_pending, is_rejected, ChangeInput, RiskInput,
  ApprovalInput, Approver, Approval, EvidenceInput, StepRow, Change,
}

-- `changeTransitionAllowed`
abbrev pub allowed_targets : ChangeStatus → List ChangeStatus
allowed_targets draft = rejected ∷ []
allowed_targets in_review = approved ∷ rejected ∷ []
allowed_targets approved = implementing ∷ []
allowed_targets implementing = []
allowed_targets completed = []
allowed_targets rejected = []

unfoldable pub change_transition_allowed : ChangeStatus → ChangeStatus → Bool
change_transition_allowed from to = any (same_status to) (allowed_targets from)

abbrev pub is_open : StepStatus → Bool
is_open StepStatus.pending = true
is_open StepStatus.completed = false

-- `changeWorkflowStep.count({ where: { changeId, status: 'COMPLETED' } })`
unfoldable pub completed_count : List StepRow → ℕ
completed_count [] = 0
completed_count (r ∷ rs) =
    let rest = completed_count rs in if is_open r.status then rest else suc rest

abbrev pub is_marked : StepName → StepRow → Bool
is_marked s r = (step_number r.step == step_number s) && is_open r.status

-- `changeWorkflowStep.updateMany({ where: { changeId, step, status: 'PENDING' }, data })`, and the
-- count of rows that it updates.
unfoldable pub mark : StepName → (StepRow → StepRow) → List StepRow → List StepRow
mark s change [] = []
mark s change (r ∷ rs) = (if is_marked s r then change r else r) ∷ mark s change rs

unfoldable pub mark_count : StepName → List StepRow → ℕ
mark_count s [] = 0
mark_count s (r ∷ rs) = let rest = mark_count s rs in if is_marked s r then suc rest else rest

-- `Object.values(ChangeWorkflowStepName).map((step) => ({ step }))`
abbrev pub new_step : StepName → StepRow
new_step s = record {
  step = s;
  status = StepStatus.pending;
  notes = none;
  fields = [];
  completed_at = none;
  completed_by = none;
}

unfoldable pub new_steps : List StepRow
new_steps =
    new_step general_information
    ∷ new_step triggers
    ∷ new_step implementation_plan
    ∷ new_step risk_assessment
    ∷ new_step approval
    ∷ new_step verification
    ∷ []

-- `requiredFields[stepNumber]`
unfoldable pub required_fields : StepName → List Text
required_fields general_information = codes "scope" ∷ codes "requester" ∷ []
required_fields triggers = codes "trigger" ∷ codes "impact" ∷ []
required_fields implementation_plan = codes "implementationPlan" ∷ codes "rollbackPlan" ∷ []
required_fields risk_assessment = codes "residualRiskAcceptance" ∷ []
required_fields approval = []
required_fields verification = codes "verificationResult" ∷ codes "closureDecision" ∷ []

unfoldable pub lookup_field : List (Text × Text) → Text → Option Text
lookup_field [] k = none
lookup_field ((j, v) ∷ m) k = if text_eq j k then some v else lookup_field m k

-- `!data.data[field]?.trim()`
unfoldable pub is_missing : List (Text × Text) → Text → Bool
unfolding lookup_field trim
is_missing m k = elim (lookup_field m k) [ none ↦ true | some v ↦ is_empty (trim v) ]

-- `Object.values(ChangeWorkflowStepName)[stepNumber - 1]`
unfoldable pub step_of : ℕ → Option StepName
step_of n =
    if n == 1
    then some general_information
    else if n == 2
    then some triggers
    else if n == 3
    then some implementation_plan
    else if n == 4
    then some risk_assessment
    else if n == 5
    then some approval
    else if n == 6
    then some verification
    else none

-- The row that `createChange` creates.
unfoldable pub new_change : ℕ → ℕ → ChangeInput → Change
unfolding new_steps
new_change id creator input = record {
  id = id;
  created_by = some creator;
  details = input;
  status = draft;
  current_step = 1;
  version = 1;
  risks = [];
  approvals = [];
  evidence = [];
  steps = new_steps;
}

-- `addChangeRisk`
unfoldable pub risk_added : ℕ → RiskInput → Change → Result Change
risk_added id input c = do
  throw_if (not (same_status c.status draft) && not (same_status c.status in_review)) bad_request
  ok (record c { risks = record { id = id; details = input } ∷ c.risks })

-- `change.createdById === approver.identity_user_id`
abbrev pub is_creator : ℕ → Option ℕ → Bool
is_creator user none = false
is_creator user (some creator) = creator == user

-- `addChangeApproval`, with the answer of `app.resolve_active_approver_membership`. A second row for
-- one approver violates `@@unique([changeId, approverUserId])`, and one with a known identifier the
-- primary key; the handler catches neither.
unfoldable pub approval_added : ℕ → ℕ → ApprovalInput → Option Approver → Change → Result Change
approval_added actor id input found c = do
  throw_if (not (same_status c.status in_review) || not (c.current_step == 5)) bad_request
  approver ← or_throw found bad_request
  throw_if (approver.user == actor) forbidden
  throw_if (is_creator approver.user c.created_by) forbidden
  throw_if (any (λ a. a.approver.user == approver.user || (a.id == id)) c.approvals) internal
  ok (record c { approvals = fresh approver ∷ c.approvals })
  where
    fresh : Approver → Approval
    fresh approver = record {
      id = id;
      details = input;
      approver = approver;
      decision = Decision.pending;
      comment = none;
      decided_at = none;
      version = 1;
    }

-- The part of `decideChangeApproval` that is about the approval's row.
unfoldable pub approval_decided : ℕ → ℕ → DecisionInput → Approval → Result Approval
approval_decided actor now input a = do
  throw_if (not (a.approver.user == actor)) forbidden
  throw_if (not (is_pending a.decision && (a.version == input.expected_version))) conflict
  ok (record a {
    decision = input.decision;
    comment = input.comment;
    decided_at = some now;
    version = a.version + 1;
  })

-- `decideChangeApproval`
unfoldable pub decision_made : ℕ → ℕ → ℕ → DecisionInput → Change → Result Change
decision_made actor now id input c = do
  throw_if (not (same_status c.status in_review)) bad_request
  approvals ← update_row (λ a. a.id) id (approval_decided actor now input) c.approvals
  ok (record c { approvals = approvals })

-- `addChangeEvidence`; a second link of one file violates `@@unique([changeId, fileId])`.
unfoldable pub evidence_added : ℕ → EvidenceInput → Bool → Change → Result Change
evidence_added id input is_ready c = do
  throw_if (not is_ready) not_found
  throw_if (any (λ e. e.details.file == input.file) c.evidence) conflict
  ok (record c { evidence = record { id = id; details = input } ∷ c.evidence })

-- `changeRequest.updateMany({ where: { id, version }, data: { status, currentStep, version } })`
unfoldable pub claim_version : ℕ → ChangeStatus → ℕ → Change → Result Change
claim_version expected status step c = do
  throw_if (not (c.version == expected)) conflict
  ok (record c { status = status; current_step = step; version = c.version + 1 })

abbrev pub step_done : ℕ → ℕ → StepInput → StepRow → StepRow
step_done actor now input r = record r {
  status = StepStatus.completed;
  notes = some input.notes;
  fields = input.fields;
  completed_at = some now;
  completed_by = some actor;
}

abbrev pub next_status : ℕ → ChangeStatus
next_status n = if n == 4 then in_review else if n == 6 then completed else draft

abbrev pub next_step : ℕ → ℕ
next_step n = if n == 6 then 6 else n + 1

-- `completeChangeWorkflowStep` after `findFirst`; the number has been read from the path.
unfoldable pub step_completed : ℕ → ℕ → ℕ → StepName → StepInput → Change → Result Change
unfolding required_fields is_missing claim_version
step_completed actor now n s input c = do
  throw_if (not (c.current_step == n)) bad_request
  throw_if
      ((ltb n 5 && not (same_status c.status draft))
        || ((n == 6) && not (same_status c.status implementing)))
      bad_request
  throw_if ((n == 4) && is_empty c.risks) bad_request
  throw_if (any (is_missing input.fields) (required_fields s)) bad_request
  throw_if (not (mark_count s c.steps == 1)) conflict
  claim_version input.expected_version (next_status n) (next_step n)
      (record c { steps = mark s (step_done actor now input) c.steps })

-- The note that an approval by decisions leaves on its step.
abbrev pub formal_approval : ℕ → ℕ → StepRow → StepRow
formal_approval actor now r = record r {
  status = StepStatus.completed;
  notes = some (codes "Aprovação formal concluída com todas as decisões aprovadas.");
  completed_at = some now;
  completed_by = some actor;
}

-- The guards of `transitionChange` on `IMPLEMENTING` and on `APPROVED`, with what they write.
unfoldable pub enter_implementing : Change → Result (Unit {0})
enter_implementing c = do
  throw_if (not (c.current_step == 6)) bad_request
  throw_if (ltb (completed_count c.steps) 5) bad_request

unfoldable pub enter_approved : ℕ → ℕ → Change → Result (List StepRow)
enter_approved actor now c = do
  throw_if (not (c.current_step == 5)) bad_request
  throw_if (is_empty c.risks) bad_request
  throw_if (is_empty c.approvals) bad_request
  throw_if (any (λ a. is_pending a.decision) c.approvals) bad_request
  throw_if (any (λ a. is_rejected a.decision) c.approvals) bad_request
  throw_if (not (mark_count approval c.steps == 1)) conflict
  ok (mark approval (formal_approval actor now) c.steps)

-- `transitionChange`
unfoldable pub transitioned : ℕ → ℕ → ChangeStatus → ℕ → Change → Result Change
unfolding change_transition_allowed enter_implementing enter_approved claim_version
transitioned actor now target expected c = do
  throw_if (not (change_transition_allowed c.status target)) bad_request
  throw_if (same_status target in_review) bad_request
  throw_if (same_status target completed) bad_request
  (if same_status target implementing then enter_implementing c else ok tt)
  steps ← (if same_status target approved then enter_approved actor now c else ok c.steps)
  claim_version expected target
      (if same_status target approved || same_status target implementing then 6 else c.current_step)
      (record c { steps = steps })
