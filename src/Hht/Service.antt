-- ===== src/Hht/Service.antt =====
-- The HHT operations as transactions on a tenant's tables. `lockHhtPeriod` orders the transactions of
-- one period; a new row's identifier, the time and a publication's token hash are arguments.
use bash_builder.Prelude.{
  ℕ, ◌+◌, ◌==◌, ltb, Bool, false, not, ◌&&◌, ◌||◌, Option, none, some, is_none, List, ◌∷◌, any,
  text_eq, if◌then◌else◌, Result, ok, ◌>>=◌, ◌>>◌, throw_if, or_throw, bad_request, not_found,
  conflict, internal, Identity, write, positive,
}
use bash_builder.Prelude.Select.{find_first, select, update_first}
use bash_builder.Hht.Types.{
  opened, is_open, ReportStatus, draft, is_locked, is_submitted, is_draft, Period, same_period,
  Window, Report, LateException, Tables,
}
use bash_builder.Hht.Schema.{
  CompanyInput, parse_company, ReportInput, parse_report, WindowInput, parse_window, ExceptionInput,
  parse_exception,
}

abbrev pub window_of : Period → List Window → Option Window
window_of p = find_first (λ w. same_period w.period p)

abbrev pub reports_of : Period → List Report → List Report
reports_of p = select (λ r. same_period r.period p)

-- `hasActiveHhtLateException`
unfoldable pub has_active_exception : ℕ → ℕ → Period → List LateException → Bool
has_active_exception now company p = any (λ x.
    (x.company == company)
    && same_period x.period p
    && is_none x.revoked_at
    && ltb now x.expires_at)

-- The test on the window that opens `upsertHhtReport` and `setHhtReportStatus`, negated.
unfoldable pub window_admits : ℕ → ℕ → Period → Tables → Bool
unfolding has_active_exception
window_admits now company p t = elim (window_of p t.windows) [
  | none ↦ false
  | some w ↦
      is_open w.status
      && not (ltb now w.opens_at)
      && (not (ltb w.closes_at now) || has_active_exception now company p t.exceptions)
]

-- `createHhtCompany`; `@@unique([organizationId, name, site])` is not answered by the handler.
unfoldable pub create_company : Identity → ℕ → CompanyInput → Tables → Result Tables
create_company who id input t = do
  c ← parse_company input
  throw_if (any (λ k. text_eq k.name c.name && text_eq k.site c.site) t.companies) internal
  ok (record t {
    companies =
        record {
          id = id;
          name = c.name;
          document = c.document;
          site = c.site;
          coordination = c.coordination;
        }
        ∷ t.companies;
    journal = write who "hht_company.created" "hht_company" id t.journal;
  })

abbrev pub is_report_of : ReportInput → Report → Bool
is_report_of input r = (r.company == input.company) && same_period r.period input.period

abbrev pub new_report : ℕ → ReportInput → Report
new_report id input = record {
  id = id;
  company = input.company;
  period = input.period;
  figures = input.figures;
  status = draft;
  submitted_at = none;
  version = 1;
}

-- The branch of `upsertHhtReport` on an existing report.
unfoldable pub report_edited : ReportInput → Report → Result Report
report_edited input r = do
  throw_if (is_locked r.status) conflict
  version ← or_throw input.expected_version bad_request
  throw_if (not ((r.version == version) && is_draft r.status)) conflict
  ok (record r { figures = input.figures; version = r.version + 1 })

-- `upsertHhtReport`
unfoldable pub upsert_report : Identity → ℕ → ℕ → ReportInput → Tables → Result Tables
unfolding window_admits report_edited
upsert_report who now id raw t = do
  input ← parse_report raw
  throw_if (not (any (λ c. c.id == input.company) t.companies)) not_found
  throw_if (not (window_admits now input.company input.period t)) bad_request
  elim (find_first (is_report_of input) t.reports) [
    | none ↦ ok (record t {
      reports = new_report id input ∷ t.reports;
      journal = write who "hht_report.created" "hht_report" id t.journal;
    })
    | some existing ↦
        update_first (is_report_of input) (report_edited input) t.reports >>= λ reports.
        ok (record t {
          reports = reports;
          journal = write who "hht_report.updated" "hht_report" existing.id t.journal;
        })
  ]

-- `setHhtReportStatus` on the report that `findFirst` returned.
unfoldable pub report_status_set : ℕ → Tables → ReportStatus → ℕ → Report → Result Report
unfolding window_admits
report_status_set now t target expected r = do
  throw_if (is_locked r.status) conflict
  throw_if (not (window_admits now r.company r.period t)) bad_request
  throw_if (is_locked target && not (is_submitted r.status)) bad_request
  throw_if (not (r.version == expected)) conflict
  ok (record r {
    status = target;
    submitted_at = if is_submitted target then some now else r.submitted_at;
    version = r.version + 1;
  })

unfoldable pub set_report_status : Identity → ℕ → ℕ → ReportStatus → ℕ → Tables → Result Tables
set_report_status who now id target expected t = do
  throw_if (is_draft target) bad_request
  version ← positive expected
  reports ← update_first (λ r. r.id == id) (report_status_set now t target version) t.reports
  ok (record t {
    reports = reports;
    journal = write who "hht_report.status_changed" "hht_report" id t.journal;
  })

abbrev pub new_window : ℕ → WindowInput → Window
new_window id input = record {
  id = id;
  period = input.period;
  opens_at = input.opens_at;
  closes_at = input.closes_at;
  status = opened;
  closed_at = none;
  closed_by = none;
  version = 1;
}

-- The branch of `upsertHhtWindow` on an existing window. The version is not counted up.
unfoldable pub window_edited : WindowInput → Window → Result Window
window_edited input w = do
  throw_if (not (is_open w.status)) conflict
  ok (record w { opens_at = input.opens_at; closes_at = input.closes_at })

-- `upsertHhtWindow`
unfoldable pub upsert_window : Identity → ℕ → WindowInput → Tables → Result Tables
unfolding window_edited
upsert_window who id raw t = do
  input ← parse_window raw
  elim (window_of input.period t.windows) [
    | none ↦ ok (record t {
      windows = new_window id input ∷ t.windows;
      journal = write who "hht_window.upserted" "hht_window" id t.journal;
    })
    | some existing ↦
        update_first (λ w. same_period w.period input.period) (window_edited input) t.windows
        >>= λ windows. ok (record t {
          windows = windows;
          journal = write who "hht_window.upserted" "hht_window" existing.id t.journal;
        })
  ]

-- `grantHhtLateException`
unfoldable pub grant_exception : Identity → ℕ → ℕ → ExceptionInput → Tables → Result Tables
grant_exception who now id raw t = do
  input ← parse_exception now raw
  throw_if (not (any (λ c. c.id == input.company) t.companies)) not_found
  window ← or_throw (window_of input.period t.windows) bad_request
  throw_if (not (is_open window.status)) bad_request
  throw_if
      (any (λ x. (x.company == input.company) && same_period x.period input.period) t.exceptions)
      conflict
  ok (record t {
    exceptions =
        record {
          id = id;
          company = input.company;
          period = input.period;
          expires_at = input.expires_at;
          reason = input.reason;
          granted_by = who.user;
          revoked_at = none;
          version = 1;
        }
        ∷ t.exceptions;
    journal = write who "hht_late_exception.granted" "hht_late_exception" id t.journal;
  })

unfoldable pub exception_revoked : ℕ → ℕ → LateException → Result LateException
exception_revoked now expected x = do
  throw_if (not ((x.version == expected) && is_none x.revoked_at)) conflict
  ok (record x { revoked_at = some now; version = x.version + 1 })

-- `revokeHhtLateException`
unfoldable pub revoke_exception : Identity → ℕ → ℕ → ℕ → Tables → Result Tables
revoke_exception who now id expected t = do
  version ← positive expected
  exceptions ← update_first (λ x. x.id == id) (exception_revoked now version) t.exceptions
  ok (record t {
    exceptions = exceptions;
    journal = write who "hht_late_exception.revoked" "hht_late_exception" id t.journal;
  })
