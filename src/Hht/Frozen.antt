-- ===== src/Hht/Frozen.antt =====
-- What requests leave of a period whose window is closed.
pub mod Reports
pub mod Windows
use bash_builder.Prelude.{
  ℕ, ◌≡◌, refl, ap, sym, ◌∙◌, subst, inl, inr, true, false, not, ◌&&◌, ◌==◌, any, some, none, List,
  [], ◌∷◌, Bool-cases, Option-cases, Result-cases, of_some-eq, Result, ok, ◌>>=◌, >>=-eq-ok,
  throw_if-eq-ok, ok-injective, after, arith, Identity, write, positive, bad_request, conflict,
  not_found, internal, text_eq,
}
use bash_builder.Prelude.Select.{
  find_first, select, update_first, select-update_first, find_first-update_first, update_first-ran,
}
use bash_builder.Hht.Types.{
  Period, same_period, Window, closed, Report, ReportStatus, is_locked, is_draft, Tables,
}
use bash_builder.Hht.Schema.{
  CompanyInput, ReportInput, WindowInput, ExceptionInput, PublicationInput, parse_company,
  parse_report, parse_window, parse_period,
}
use bash_builder.Hht.Service.{
  window_of, reports_of, window_admits, create_company, upsert_report, set_report_status,
  upsert_window, grant_exception, revoke_exception, is_report_of, report_edited, new_report,
  report_status_set, window_edited, new_window,
}
use bash_builder.Hht.Closing.{window_closed, close_window, publish_period}
use bash_builder.Hht.Requests.{
  Call, add_company, put_report, set_status, put_window, grant, revoke, close, publish, handle,
  serve,
}
use bash_builder.Hht.Periods.{
  same_period-eq, same_period-other, IsClosed, window_admits-other, reports_of-lock_reports, Same,
}
use bash_builder.Hht.Frozen.Reports.{
  create_company-Same, grant_exception-Same, revoke_exception-Same, publish_period-Same,
  upsert_report-Same, set_report_status-Same,
}
use bash_builder.Hht.Frozen.Windows.{upsert_window-Same, close_window-Same}

pub handle-Same :
    (who : Identity) (now : ℕ) (call : Call) (p : Period) (w : Window) (t u : Tables)
    → IsClosed p w t
    → handle who now call t ≡ ok u
    → Same p t u
unfolding handle
handle-Same who now (add_company id input) p w t u c e = create_company-Same who id input p t u e
handle-Same who now (put_report id input) p w t u c e =
    upsert_report-Same who now id input p w t u c e
handle-Same who now (set_status id target expected) p w t u c e =
    set_report_status-Same who now id target expected p w t u c e
handle-Same who now (put_window id input) p w t u c e = upsert_window-Same who id input p w t u c e
handle-Same who now (grant id input) p w t u c e = grant_exception-Same who now id input p t u e
handle-Same who now (revoke id expected) p w t u c e =
    revoke_exception-Same who now id expected p t u e
handle-Same who now (close id q expected) p w t u c e =
    close_window-Same who now id q expected p w t u c e
handle-Same who now (publish id token q input) p w t u c e =
    publish_period-Same who now id token q input p t u e

pub after-Same :
    (who : Identity) (now : ℕ) (call : Call) (p : Period) (w : Window) (t : Tables)
    → IsClosed p w t
    → Same p t (after t (handle who now call t))
after-Same who now call p w t c = elim (Result-cases (handle who now call t)) [
  | inl (x, e) ↦ rw e (refl, refl)
  | inr (u, e) ↦ rw e (handle-Same who now call p w t u c e)
]

-- Once the window of a period is closed, whatever requests follow, from anyone and at any time,
-- leave the window and every report of that period, its figures and status included, as they are.
pub serve-Same :
    (p : Period) (w : Window) (t : Tables) (calls : List (Identity × ℕ × Call))
    → IsClosed p w t
    → (window_of p (serve t calls).windows ≡ some w)
      × (reports_of p (serve t calls).reports ≡ reports_of p t.reports)
unfolding serve
serve-Same p w t [] c = (c.0, refl)
serve-Same p w t ((who, now, call) ∷ calls) c =
    let s = after-Same who now call p w t c in
    let k = serve-Same p w (after t (handle who now call t)) calls (s.0 ∙ c.0, c.1) in
    (k.0, k.1 ∙ s.1)
