-- ===== src/Hht/Requests.antt =====
-- One request on worked hours, and a history of them.
use bash_builder.Prelude.{ℕ, List, [], ◌∷◌, Result, after, Identity}
use bash_builder.Hht.Types.{Period, ReportStatus, Tables}
use bash_builder.Hht.Schema.{
  CompanyInput, ReportInput, WindowInput, ExceptionInput, PublicationInput,
}
use bash_builder.Hht.Service.{
  create_company, upsert_report, set_report_status, upsert_window, grant_exception,
  revoke_exception,
}
use bash_builder.Hht.Closing.{close_window, publish_period}

-- One request of a client; the identifiers of new rows and a new token's hash come with it.
pub data Call : Type 0 where
  add_company : ℕ → CompanyInput → Call
  put_report : ℕ → ReportInput → Call
  set_status : ℕ → ReportStatus → ℕ → Call
  put_window : ℕ → WindowInput → Call
  grant : ℕ → ExceptionInput → Call
  revoke : ℕ → ℕ → Call
  close : ℕ → Period → ℕ → Call
  publish : ℕ → ℕ → Period → PublicationInput → Call

unfoldable pub handle : Identity → ℕ → Call → Tables → Result Tables
handle who now (add_company id input) = create_company who id input
handle who now (put_report id input) = upsert_report who now id input
handle who now (set_status id target expected) = set_report_status who now id target expected
handle who now (put_window id input) = upsert_window who id input
handle who now (grant id input) = grant_exception who now id input
handle who now (revoke id expected) = revoke_exception who now id expected
handle who now (close id period expected) = close_window who now id period expected
handle who now (publish id token period input) = publish_period who now id token period input

-- Requests in the order of their transactions; one that throws leaves the tables as they were.
unfoldable pub serve : Tables → List (Identity × ℕ × Call) → Tables
serve t [] = t
serve t ((who, now, call) ∷ calls) = serve (after t (handle who now call t)) calls
