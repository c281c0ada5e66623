-- ===== src/Safety/Types.antt =====
-- prisma/schema.prisma: safety events and classifications of one tenant. An event's actions and
-- attachments, tables of their own there, stand in its row.
use bash_builder.Prelude.{ℕ, Bool, true, false, Option, List, Text, Journal}

pub data EventStatus : Type 0 where
  draft opened in_review resolved closed : EventStatus

abbrev pub same_status : EventStatus → EventStatus → Bool
same_status draft draft = true
same_status opened opened = true
same_status in_review in_review = true
same_status resolved resolved = true
same_status closed closed = true
same_status _ _ = false

pub record Classification : Type 0 where
  pub id : ℕ
  pub category : Text
  pub label : Text
  pub value : Text
  pub active : Bool
  pub position : ℕ
  pub version : ℕ

pub record Action : Type 0 where
  pub id : ℕ
  pub title : Text
  pub owner : Option Text
  pub due_at : Option ℕ
  pub completed_at : Option ℕ

pub record Attachment : Type 0 where
  pub id : ℕ
  pub file : ℕ
  pub category : Option Text
  pub description : Option Text

pub record Details : Type 0 where
  pub code : Text
  pub title : Text
  pub description : Option Text
  pub occurred_at : ℕ
  pub site : Option Text
  pub area : Option Text
  pub origin : Text
  pub reporter_name : Option Text
  pub reporter_email : Option Text

-- A classification that an event refers to, by identifier and value.
pub record Chosen : Type 0 where
  pub id : ℕ
  pub value : Text

pub record Event : Type 0 where
  pub id : ℕ
  pub created_by : Option ℕ
  pub details : Details
  pub status : EventStatus
  pub actual : Option Chosen
  pub potential : Option Chosen
  pub sla_due_at : Option ℕ
  pub actions : List Action
  pub attachments : List Attachment
  pub version : ℕ

pub record Tables : Type 0 where
  pub classifications : List Classification
  pub events : List Event
  pub ready_files : List ℕ
  pub journal : Journal
