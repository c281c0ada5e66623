-- ===== src/Hht/Types.antt =====
-- prisma/schema.prisma: the HHT tables of one tenant. Hours are numbers of hundredths, as in the
-- columns DECIMAL(18, 2).
use bash_builder.Prelude.{ℕ, Bool, true, false, ◌&&◌, ◌==◌, Option, List, Text, Journal}

pub data WindowStatus : Type 0 where
  opened closed : WindowStatus

pub data ReportStatus : Type 0 where
  draft submitted locked : ReportStatus

abbrev pub is_open : WindowStatus → Bool
is_open opened = true
is_open closed = false

abbrev pub is_locked : ReportStatus → Bool
is_locked locked = true
is_locked _ = false

abbrev pub is_submitted : ReportStatus → Bool
is_submitted submitted = true
is_submitted _ = false

abbrev pub is_draft : ReportStatus → Bool
is_draft draft = true
is_draft _ = false

pub record Period : Type 0 where
  pub year : ℕ
  pub month : ℕ

abbrev pub same_period : Period → Period → Bool
same_period p q = (p.year == q.year) && (p.month == q.month)

pub record Company : Type 0 where
  pub id : ℕ
  pub name : Text
  pub document : Option Text
  pub site : Text
  pub coordination : Option Text

pub record Window : Type 0 where
  pub id : ℕ
  pub period : Period
  pub opens_at : ℕ
  pub closes_at : ℕ
  pub status : WindowStatus
  pub closed_at : Option ℕ
  pub closed_by : Option ℕ
  pub version : ℕ

pub record Figures : Type 0 where
  pub hht_worked : ℕ
  pub hht_meal : ℕ
  pub workforce : ℕ
  pub lost_days : ℕ
  pub lti : ℕ

pub record Report : Type 0 where
  pub id : ℕ
  pub company : ℕ
  pub period : Period
  pub figures : Figures
  pub status : ReportStatus
  pub submitted_at : Option ℕ
  pub version : ℕ

pub record LateException : Type 0 where
  pub id : ℕ
  pub company : ℕ
  pub period : Period
  pub expires_at : ℕ
  pub reason : Text
  pub granted_by : ℕ
  pub revoked_at : Option ℕ
  pub version : ℕ

-- The consolidated figures of a published period, without the rates.
pub record Snapshot : Type 0 where
  pub period : Period
  pub closed_at : Option ℕ
  pub companies : ℕ
  pub totals : Figures

pub record Publication : Type 0 where
  pub id : ℕ
  pub period : Period
  pub published : Bool
  pub token_hash : Option ℕ
  pub snapshot : Option Snapshot
  pub published_at : Option ℕ
  pub expires_at : Option ℕ
  pub revoked_at : Option ℕ
  pub version : ℕ

pub record Tables : Type 0 where
  pub companies : List Company
  pub windows : List Window
  pub reports : List Report
  pub exceptions : List LateException
  pub publications : List Publication
  pub journal : Journal
