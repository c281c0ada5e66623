-- ===== src/Hht/Frozen/Reports.antt =====
-- Companies, reports, exceptions and publications: what a request leaves of a closed period.
use bash_builder.Prelude.{
  ℕ, ◌≡◌, ap, sym, ◌∙◌, subst, inl, inr, true, false, not, ◌&&◌, ◌==◌, any, ◌∷◌, Option-cases, ok,
  ◌>>=◌, >>=-eq-ok, throw_if-eq-ok, ok-injective, arith, Identity, write, positive, bad_request,
  conflict, not_found, internal, text_eq,
}
use bash_builder.Prelude.Select.{find_first, select, update_first, select-update_first}
use bash_builder.Hht.Types.{
  Period, same_period, Window, Report, ReportStatus, is_locked, is_draft, Tables,
}
use bash_builder.Hht.Schema.{
  CompanyInput, ReportInput, ExceptionInput, PublicationInput, parse_company, parse_report,
}
use bash_builder.Hht.Service.{
  reports_of, window_admits, create_company, upsert_report, set_report_status, grant_exception,
  revoke_exception, is_report_of, report_edited, new_report, report_status_set,
}
use bash_builder.Hht.Closing.{publish_period}
use bash_builder.Hht.Periods.{same_period-other, IsClosed, window_admits-other, Same}

-- Neither table is touched.
by_tables : (p : Period) (t u : Tables) → u.windows ≡ t.windows → u.reports ≡ t.reports → Same p t u
by_tables p t u e f = (rw e, rw f)

pub create_company-Same :
    (who : Identity) (id : ℕ) (input : CompanyInput) (p : Period) (t u : Tables)
    → create_company who id input t ≡ ok u
    → Same p t u
unfolding create_company
create_company-Same who id input p t u e =
    let (c, _, e₁) = >>=-eq-ok (parse_company input) _ e in
    let (_, e₂) =
      throw_if-eq-ok (any (λ k. text_eq k.name c.name && text_eq k.site c.site) t.companies)
        internal _ e₁ in
    by_tables p t u (sym (ap (λ (x : Tables). x.windows) (ok-injective e₂)))
      (sym (ap (λ (x : Tables). x.reports) (ok-injective e₂)))

pub grant_exception-Same :
    (who : Identity) (now id : ℕ) (input : ExceptionInput) (p : Period) (t u : Tables)
    → grant_exception who now id input t ≡ ok u
    → Same p t u
unfolding grant_exception
grant_exception-Same who now id input p t u e = ground arith

pub revoke_exception-Same :
    (who : Identity) (now id expected : ℕ) (p : Period) (t u : Tables)
    → revoke_exception who now id expected t ≡ ok u
    → Same p t u
unfolding revoke_exception
revoke_exception-Same who now id expected p t u e = ground arith

pub publish_period-Same :
    (who : Identity) (now id token : ℕ) (q : Period) (input : PublicationInput) (p : Period)
    (t u : Tables)
    → publish_period who now id token q input t ≡ ok u
    → Same p t u
unfolding publish_period
publish_period-Same who now id token q input p t u e = ground arith

edited_other :
    (input : ReportInput) (p : Period)
    → same_period input.period p ≡ false
    → (a b : Report) → is_report_of input a ≡ true
    → report_edited input a ≡ ok b
    → (same_period a.period p ≡ false) × (same_period b.period p ≡ false)
unfolding report_edited
edited_other input p ne a b hit e =
    let other = same_period-other a.period input.period p ne (ground (arith, hit)) in
    let kept : b.period ≡ a.period = ground (arith, e) in
    (other, subst (λ x. same_period x p ≡ false) (sym kept) other)

pub upsert_report-Same :
    (who : Identity) (now id : ℕ) (raw : ReportInput) (p : Period) (w : Window) (t u : Tables)
    → IsClosed p w t
    → upsert_report who now id raw t ≡ ok u
    → Same p t u
unfolding upsert_report select
upsert_report-Same who now id raw p w t u c e =
    let (input, _, e₁) = >>=-eq-ok (parse_report raw) _ e in
    let (_, e₂) =
      throw_if-eq-ok (not (any (λ c. c.id == input.company) t.companies)) not_found _ e₁ in
    let (admits, e₃) =
      throw_if-eq-ok (not (window_admits now input.company input.period t)) bad_request _ e₂ in
    let ne = window_admits-other now input.company input.period p w t c (ground (arith, admits)) in
    elim (Option-cases (find_first (is_report_of input) t.reports)) [
      | inl missing ↦ created input ne (ground (arith, missing, e₃))
      | inr (old, found) ↦ edited input old ne (rw found at e₃)
    ]
  where
    created :
        (input : ReportInput)
        → same_period input.period p ≡ false
        → (u.windows ≡ t.windows) × (u.reports ≡ new_report id input ∷ t.reports)
        → Same p t u
    created input ne h = (rw h.0, rw (h.1, ne))

    edited :
        (input : ReportInput) (old : Report)
        → same_period input.period p ≡ false
        → (update_first (is_report_of input) (report_edited input) t.reports >>= λ reports.
            ok (record t {
              reports = reports;
              journal = write who "hht_report.updated" "hht_report" old.id t.journal;
            }))
          ≡ ok u
        → Same p t u
    edited input old ne h =
        let (rs, r, done) =
          >>=-eq-ok (update_first (is_report_of input) (report_edited input) t.reports) _ h in
        let kept =
          select-update_first (λ r. same_period r.period p) (is_report_of input)
            (report_edited input) (edited_other input p ne) t.reports rs r in
        (
          rw (sym (ap (λ (x : Tables). x.windows) (ok-injective done))),
          ap (λ (x : Tables). reports_of p x.reports) (sym (ok-injective done)) ∙ kept,
        )

status_other :
    (now : ℕ) (target : ReportStatus) (expected : ℕ) (p : Period) (w : Window) (t : Tables)
    → IsClosed p w t
    → (a b : Report) → report_status_set now t target expected a ≡ ok b
    → (same_period a.period p ≡ false) × (same_period b.period p ≡ false)
unfolding report_status_set
status_other now target expected p w t c a b e =
    let (_, e₁) = throw_if-eq-ok (is_locked a.status) conflict _ e in
    let (admits, e₂) =
      throw_if-eq-ok (not (window_admits now a.company a.period t)) bad_request _ e₁ in
    let other = window_admits-other now a.company a.period p w t c (ground (arith, admits)) in
    let kept : b.period ≡ a.period = ground (arith, e₂) in
    (other, subst (λ x. same_period x p ≡ false) (sym kept) other)

pub set_report_status-Same :
    (who : Identity) (now id : ℕ) (target : ReportStatus) (expected : ℕ) (p : Period) (w : Window)
    (t u : Tables)
    → IsClosed p w t
    → set_report_status who now id target expected t ≡ ok u
    → Same p t u
unfolding set_report_status
set_report_status-Same who now id target expected p w t u c e =
    let (_, e₁) = throw_if-eq-ok (is_draft target) bad_request _ e in
    let (version, _, e₂) = >>=-eq-ok (positive expected) _ e₁ in
    let (rs, r, done) =
      >>=-eq-ok (update_first (λ r. r.id == id) (report_status_set now t target version) t.reports)
        _ e₂ in
    let kept =
      select-update_first (λ r. same_period r.period p) (λ r. r.id == id)
        (report_status_set now t target version)
        (λ a b hit. status_other now target version p w t c a b) t.reports rs r in
    (
      rw (sym (ap (λ (x : Tables). x.windows) (ok-injective done))),
      ap (λ (x : Tables). reports_of p x.reports) (sym (ok-injective done)) ∙ kept,
    )
