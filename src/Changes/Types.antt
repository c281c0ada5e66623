-- ===== src/Changes/Types.antt =====
-- prisma/schema.prisma and the enums of @prisma/client: a change request with its child rows. The
-- child tables are reached by the identifier of their change only, so a change holds its own rows.
use bash_builder.Prelude.{ℕ, Bool, true, false, Option, List, ◌==◌, Text, Journal}
use bash_builder.Contracts.Roles.{Role}

pub data ChangeStatus : Type 0 where
  draft in_review approved implementing completed rejected : ChangeStatus

pub data Decision : Type 0 where
  pending approved rejected : Decision

pub data StepName : Type 0 where
  general_information triggers implementation_plan risk_assessment approval verification : StepName

pub data StepStatus : Type 0 where
  pending completed : StepStatus

abbrev pub step_number : StepName → ℕ
step_number general_information = 1
step_number triggers = 2
step_number implementation_plan = 3
step_number risk_assessment = 4
step_number approval = 5
step_number verification = 6

abbrev pub status_rank : ChangeStatus → ℕ
status_rank draft = 0
status_rank in_review = 1
status_rank approved = 2
status_rank implementing = 3
status_rank completed = 4
status_rank rejected = 5

-- `===` on statuses.
abbrev pub same_status : ChangeStatus → ChangeStatus → Bool
same_status a b = status_rank a == status_rank b

abbrev pub is_pending : Decision → Bool
is_pending pending = true
is_pending _ = false

abbrev pub is_rejected : Decision → Bool
is_rejected rejected = true
is_rejected _ = false

-- What `createChangeSchema` lets through.
pub record ChangeInput : Type 0 where
  pub public_code : Text
  pub title : Text
  pub description : Option Text
  pub requested_by : Option Text
  pub owner : Option Text
  pub due_at : Option ℕ

pub record RiskInput : Type 0 where
  pub hazard : Text
  pub consequence : Option Text
  pub probability : ℕ
  pub severity : ℕ
  pub controls : Option Text
  pub owner : Option Text
  pub due_at : Option ℕ
  pub position : Option ℕ

pub record Risk : Type 0 where
  pub id : ℕ
  pub details : RiskInput

pub record ApprovalInput : Type 0 where
  pub approver_name : Text
  pub approver_email : Text
  pub role : Option Text

-- A row of `app.resolve_active_approver_membership`.
pub record Approver : Type 0 where
  pub membership : ℕ
  pub user : ℕ
  pub role : Role

pub record Approval : Type 0 where
  pub id : ℕ
  pub details : ApprovalInput
  pub approver : Approver
  pub decision : Decision
  pub comment : Option Text
  pub decided_at : Option ℕ
  pub version : ℕ

pub record EvidenceInput : Type 0 where
  pub file : ℕ
  pub category : Option Text
  pub description : Option Text

pub record Evidence : Type 0 where
  pub id : ℕ
  pub details : EvidenceInput

pub record StepRow : Type 0 where
  pub step : StepName
  pub status : StepStatus
  pub notes : Option Text
  pub fields : List (Text × Text)
  pub completed_at : Option ℕ
  pub completed_by : Option ℕ

pub record Change : Type 0 where
  pub id : ℕ
  pub created_by : Option ℕ
  pub details : ChangeInput
  pub status : ChangeStatus
  pub current_step : ℕ
  pub version : ℕ
  pub risks : List Risk
  pub approvals : List Approval
  pub evidence : List Evidence
  pub steps : List StepRow

-- The rows of one tenant that the service reads or writes; a file is listed once it is READY.
pub record Tables : Type 0 where
  pub changes : List Change
  pub ready_files : List ℕ
  pub journal : Journal
