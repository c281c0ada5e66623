-- ===== src/Hht/Tests.antt =====
-- A period from its window to its publication, and the theorems at it.
use bash_builder.Prelude.{
  ℕ, ◌≡◌, refl, Bool, true, Option, none, some, List, [], ◌∷◌, ◌++◌, ok, is_ok, map, after, codes,
  trim, text, optional_text, positive, write, Identity,
}
use bash_builder.Prelude.Select.{find_first, select, update_first}
use bash_builder.Hht.Types.{Period, Window, Figures, Tables, closed, submitted, is_locked}
use bash_builder.Hht.Schema.{
  parse_period, parse_company, parse_report, parse_window, parse_exception, parse_publication,
  ReportInput, PublicationInput,
}
use bash_builder.Hht.Service.{
  window_of, reports_of, has_active_exception, window_admits, create_company, report_edited,
  upsert_report, report_status_set, set_report_status, window_edited, upsert_window,
  grant_exception, exception_revoked, revoke_exception,
}
use bash_builder.Hht.Closing.{
  lock_report, lock_reports, window_closed, close_window, sum_figures, snapshot_of,
  publication_revoked, publication_made, publishable, store_publication, publish_period,
}
use bash_builder.Hht.Requests.{
  Call, add_company, put_report, set_status, put_window, close, publish, handle, serve,
}
use bash_builder.Hht.Periods.{IsClosed}
use bash_builder.Hht.Frozen.{serve-Same}
use bash_builder.Hht.Locked.{ClosedBy, drafts_of, all_locked, close_window-locks}
use bash_builder.Hht.Published.{AllCurrent, serve-AllCurrent}

-- Opens what a run of the service calls.
run : Unit {0}
unfolding serve handle create_company upsert_report set_report_status upsert_window grant_exception
    revoke_exception close_window publish_period store_publication publishable publication_made
    publication_revoked snapshot_of sum_figures window_closed lock_reports lock_report
    exception_revoked window_edited report_status_set report_edited window_admits
    has_active_exception parse_period parse_company parse_report parse_window parse_exception
    parse_publication trim text optional_text positive write find_first select update_first
run = tt

abbrev ann : Identity
ann = record { user = 1; email = codes "ann@x"; organization = 9; membership = 11 }

abbrev may : Period
may = record { year = 2025; month = 5 }

abbrev figures : ℕ → Figures
figures n = record { hht_worked = n; hht_meal = 10; workforce = 4; lost_days = 0; lti = 0 }

abbrev report : ℕ → Option ℕ → ReportInput
report n version = record {
  company = 1;
  period = may;
  figures = figures n;
  expected_version = version;
}

abbrev empty : Tables
empty = record {
  companies = [];
  windows = [];
  reports = [];
  exceptions = [];
  publications = [];
  journal = record { audit = []; outbox = [] };
}

abbrev reporting : List (Identity × ℕ × Call)
reporting =
    (
      ann,
      1,
      add_company 1 (record {
        name = codes "Acme";
        document = none;
        site = codes "North";
        coordination = none;
      }),
    )
    ∷ (ann, 1, put_window 2 (record { period = may; opens_at = 0; closes_at = 50 }))
    ∷ (ann, 10, put_report 3 (report 700 none))
    ∷ (ann, 11, put_report 4 (report 800 (some 1)))
    ∷ (ann, 12, set_status 3 submitted 2)
    ∷ []

abbrev reported : Tables
reported = serve empty reporting

abbrev ended : Tables
ended = after reported (close_window ann 60 2 may 1 reported)

abbrev publication : Bool → Option ℕ → PublicationInput
publication on version = record { published = on; expected_version = version; expires_at = none }

abbrev later : List (Identity × ℕ × Call)
later =
    (ann, 61, publish 5 77 may (publication true none))
    ∷ (ann, 62, put_report 6 (report 1 (some 3)))
    ∷ (ann, 63, put_window 7 (record { period = may; opens_at = 0; closes_at = 99 }))
    ∷ (ann, 64, publish 8 78 may (publication true (some 1)))
    ∷ []

ended_is_ok : is_ok (close_window ann 60 2 may 1 reported) ≡ true
unfolding run
ended_is_ok = refl

published_totals :
    map {B = ℕ × Bool} (λ p. (p.version, p.published)) (serve ended later).publications
    ≡ (2, true) ∷ []
unfolding run
published_totals = refl

reports_locked :
    map {B = ℕ × Bool} (λ r. (r.figures.hht_worked, is_locked r.status)) (serve ended later).reports
    ≡ (800, true) ∷ []
unfolding run
reports_locked = refl

-- An edited window keeps its version.
edited_window_version :
    map {B = ℕ × ℕ}
      (λ w. (w.closes_at, w.version))
      (serve reported (
        (ann, 13, put_window 9 (record { period = may; opens_at = 0; closes_at = 40 }))
        ∷ [])).windows
    ≡ (40, 1) ∷ []
unfolding run
edited_window_version = refl

closed_window : Window
closed_window = record {
  id = 2;
  period = may;
  opens_at = 0;
  closes_at = 50;
  status = closed;
  closed_at = some 60;
  closed_by = some 1;
  version = 2;
}

ended-IsClosed : IsClosed may closed_window ended
unfolding run closed_window
ended-IsClosed = (refl, refl)

serve-Same_example :
    (window_of may (serve ended later).windows ≡ some closed_window)
    × (reports_of may (serve ended later).reports ≡ reports_of may ended.reports)
serve-Same_example = serve-Same may closed_window ended later ended-IsClosed

ended-closed : close_window ann 60 2 may 1 reported ≡ ok ended
unfolding run
ended-closed = refl

close_window-locks_example :
    (w : Window) × (window_of may (serve ended later).windows ≡ some w)
    × ClosedBy 1 60 1 (drafts_of may reported.reports) w
    × (all_locked may (serve ended later).reports ≡ true)
    × (map (λ r. r.figures) (reports_of may (serve ended later).reports)
        ≡ map (λ r. r.figures) (reports_of may reported.reports))
close_window-locks_example = close_window-locks ann 60 2 may 1 reported ended later ended-closed

abbrev whole : List (Identity × ℕ × Call)
whole = reporting ++ (ann, 60, close 2 may 1) ∷ later

serve-AllCurrent_example : AllCurrent (serve empty whole)
serve-AllCurrent_example = serve-AllCurrent empty whole tt
