-- ===== src/Hht/Closing.antt =====
-- `closeHhtWindow` and `publishHhtPeriod`.
use bash_builder.Prelude.{
  ℕ, ◌+◌, ◌==◌, ltb, true, false, not, ◌&&◌, ◌||◌, Option, none, some, is_none, List, [], ◌∷◌, all,
  length, is_empty, if◌then◌else◌, Result, ok, ◌>>=◌, ◌>>◌, throw_if, or_throw, bad_request,
  conflict, Identity, write, positive,
}
use bash_builder.Prelude.Select.{find_first, select, update_first}
use bash_builder.Hht.Types.{
  closed, is_open, locked, is_locked, is_submitted, is_draft, Period, same_period, Window, Figures,
  Report, Snapshot, Publication, Tables,
}
use bash_builder.Hht.Schema.{parse_period, PublicationInput, parse_publication}
use bash_builder.Hht.Service.{window_of, reports_of}

-- `hhtReport.updateMany({ where: { year, month, status: 'SUBMITTED' }, data: { status: 'LOCKED' } })`
unfoldable pub lock_report : Period → Report → Report
lock_report p r =
    if same_period r.period p && is_submitted r.status
    then record r { status = locked; version = r.version + 1 }
    else r

unfoldable pub lock_reports : Period → List Report → List Report
lock_reports p [] = []
lock_reports p (r ∷ rs) = lock_report p r ∷ lock_reports p rs

unfoldable pub window_closed : ℕ → ℕ → List Report → ℕ → Window → Result Window
window_closed actor now drafts expected w = do
  throw_if (not (is_open w.status)) conflict
  throw_if (ltb now w.closes_at) bad_request
  throw_if (not (is_empty drafts)) bad_request
  throw_if (not (w.version == expected)) conflict
  ok (record w {
    status = closed;
    closed_at = some now;
    closed_by = some actor;
    version = w.version + 1;
  })

-- `closeHhtWindow`
unfoldable pub close_window : Identity → ℕ → ℕ → Period → ℕ → Tables → Result Tables
unfolding window_closed lock_reports
close_window who now id period expected t = do
  version ← positive expected
  p ← parse_period period
  windows ←
      update_first (λ w. same_period w.period p)
        (window_closed who.user now (select (λ r. is_draft r.status) (reports_of p t.reports))
          version)
        t.windows
  ok (record t {
    windows = windows;
    reports = lock_reports p t.reports;
    journal = write who "hht_window.closed" "hht_window" id t.journal;
  })

abbrev pub add_figures : Figures → Figures → Figures
add_figures a b = record {
  hht_worked = a.hht_worked + b.hht_worked;
  hht_meal = a.hht_meal + b.hht_meal;
  workforce = a.workforce + b.workforce;
  lost_days = a.lost_days + b.lost_days;
  lti = a.lti + b.lti;
}

-- `hhtReport.aggregate({ _sum })`, where a sum over no rows is read as 0.
unfoldable pub sum_figures : List Report → Figures
sum_figures [] = record { hht_worked = 0; hht_meal = 0; workforce = 0; lost_days = 0; lti = 0 }
sum_figures (r ∷ rs) = add_figures r.figures (sum_figures rs)

abbrev pub locked_of : Period → List Report → List Report
locked_of p rs = select (λ r. is_locked r.status) (reports_of p rs)

-- The snapshot of `publishHhtPeriod`, from the period's reports.
unfoldable pub snapshot_of : Period → Option ℕ → List Report → Snapshot
unfolding sum_figures
snapshot_of p closed_at rs = record {
  period = p;
  closed_at = closed_at;
  companies = length (select (λ r. is_locked r.status) rs);
  totals = sum_figures (select (λ r. is_locked r.status) rs);
}

unfoldable pub publication_revoked : ℕ → Option ℕ → Publication → Result Publication
publication_revoked now expected p = do
  version ← or_throw expected bad_request
  throw_if (not (p.version == version)) conflict
  ok (record p {
    published = false;
    token_hash = none;
    snapshot = none;
    revoked_at = some now;
    version = p.version + 1;
  })

unfoldable pub publication_made :
    ℕ → ℕ → Snapshot → PublicationInput → Publication → Result Publication
publication_made now token snapshot input p = do
  version ← or_throw input.expected_version bad_request
  throw_if (not (p.version == version)) conflict
  ok (record p {
    published = true;
    token_hash = some token;
    snapshot = some snapshot;
    published_at = some now;
    expires_at = input.expires_at;
    revoked_at = none;
    version = p.version + 1;
  })

abbrev pub new_publication : ℕ → Period → ℕ → ℕ → Snapshot → PublicationInput → Publication
new_publication id p now token snapshot input = record {
  id = id;
  period = p;
  published = true;
  token_hash = some token;
  snapshot = some snapshot;
  published_at = some now;
  expires_at = input.expires_at;
  revoked_at = none;
  version = 1;
}

-- The part of `publishHhtPeriod` that reads the window and the reports.
unfoldable pub publishable : Period → Tables → Result Snapshot
unfolding snapshot_of
publishable p t = do
  window ← or_throw (window_of p t.windows) bad_request
  throw_if (is_open window.status) bad_request
  throw_if
      (is_empty (locked_of p t.reports)
        || not (all (λ r. is_locked r.status) (reports_of p t.reports)))
      bad_request
  ok (snapshot_of p window.closed_at (reports_of p t.reports))

-- The two branches of `publishHhtPeriod`, on input that has been read.
unfoldable pub store_publication :
    Identity → ℕ → ℕ → ℕ → Period → PublicationInput → Tables → Result Tables
unfolding publication_revoked publication_made publishable
store_publication who now id token p input t =
    if not input.published
    then (update_first (λ x. same_period x.period p)
          (publication_revoked now input.expected_version) t.publications
        >>= λ publications. ok (record t {
          publications = publications;
          journal =
              write who "hht_period.publication_revoked" "hht_period_publication" id t.journal;
        }))
    else (publishable p t >>= λ snapshot.
        (if is_none (find_first (λ x. same_period x.period p) t.publications)
          then ok (new_publication id p now token snapshot input ∷ t.publications)
          else update_first (λ x. same_period x.period p)
              (publication_made now token snapshot input) t.publications)
        >>= λ publications. ok (record t {
          publications = publications;
          journal = write who "hht_period.published" "hht_period_publication" id t.journal;
        }))

-- `publishHhtPeriod`
unfoldable pub publish_period :
    Identity → ℕ → ℕ → ℕ → Period → PublicationInput → Tables → Result Tables
unfolding store_publication
publish_period who now id token period raw t = do
  input ← parse_publication now raw
  p ← parse_period period
  throw_if
      (not (is_none (find_first (λ x. same_period x.period p) t.publications))
        && is_none input.expected_version)
      bad_request
  store_publication who now id token p input t
