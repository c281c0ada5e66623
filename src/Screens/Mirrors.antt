-- ===== src/Screens/Mirrors.antt =====
-- Published displays mirror published dashboards.
pub mod Rows
use bash_builder.Prelude.{
  ◌+◌, ℕ, ◌≡◌, refl, sym, subst, inl, inr, Bool, true, false, not, ◌&&◌, ◌||◌, ◌==◌, ==_iff, Option,
  some, none, is_none, List, [], ◌∷◌, All, All-mono, any, if◌then◌else◌, Bool-cases, Result, ok,
  err, ◌>>=◌, ◌>>◌, >>=-eq-ok, throw_if-eq-ok, throw_if, or_throw, or_else, ok-injective, arith,
  conflict, bad_request, internal, Text, All-map, Result-cases, after, Identity, as_conflict, Text,
  or_else,
}
use bash_builder.Prelude.Table.{find_row, update_row, update_row-All, update_row-find_ne}
use bash_builder.Screens.Widgets.{Source, Filters, assert_dashboard_analytics_widgets}
use bash_builder.Screens.Snapshots.{sanitize_tv_display_snapshot}
use bash_builder.Screens.Types.{released, withdrawn, Dashboard, Display, Tables}
use bash_builder.Screens.Schema.{
  DashboardInput, DashboardUpdate, PublishInput, DisplayInput, DisplayUpdate, parse_dashboard,
  parse_dashboard_update, parse_publish, parse_display, parse_display_update,
}
use bash_builder.Screens.Dashboards.{
  create_dashboard, dashboard_updated, update_dashboard, dashboard_published, publish_dashboard,
  withdraw_display, withdraw_derived, was_published,
}
use bash_builder.Screens.Displays.{
  create_tv_display, display_updated, update_tv_display, display_published, publish_tv_display,
  is_unavailable, is_published,
}
use bash_builder.Screens.Playlists.{create_tv_playlist, publish_tv_playlist, earliest_expiry}
use bash_builder.Screens.Requests.{
  Call, add_dashboard, edit_dashboard, release_dashboard, add_display, edit_display,
  release_display, add_playlist, release_playlist, handle, serve,
}
use bash_builder.Screens.Shown.{
  AllShown, Derived, IsShown, IsShown-dashboards, IsShown-fresh, withdraw_display-IsShown,
  dashboard_updated-id, dashboard_published-id,
}
use bash_builder.Screens.Mirrors.Rows.{
  display_updated-IsShown, display_published-IsShown, edited-IsShown,
  parse_dashboard_update-changes,
}

-- Neither table is touched.
by_tables :
    (t u : Tables) → AllShown t → u.dashboards ≡ t.dashboards → u.displays ≡ t.displays → AllShown u
by_tables t u h e f = rw (e, f) h

-- Only the displays are.
by_displays :
    (t u : Tables)
    → All (IsShown t.dashboards) u.displays
    → u.dashboards ≡ t.dashboards
    → AllShown u
by_displays t u h e = rw e h

create_dashboard-AllShown :
    (who : Identity) (id : ℕ) (raw : DashboardInput) (t u : Tables)
    → AllShown t
    → create_dashboard who id raw t ≡ ok u
    → AllShown u
unfolding create_dashboard
create_dashboard-AllShown who id raw t u h e =
    let (d, _, e₁) = >>=-eq-ok (parse_dashboard raw) _ e in
    let (_, _, e₂) = >>=-eq-ok (assert_dashboard_analytics_widgets d.widgets) _ e₁ in
    let (fresh, e₃) = throw_if-eq-ok (any (λ x. x.id == id) t.dashboards) internal _ e₂ in
    subst AllShown (ok-injective e₃)
      (All-mono (IsShown t.dashboards) _ (λ x. IsShown-fresh _ t.dashboards x fresh) t.displays h)

create_tv_display-AllShown :
    (who : Identity) (id : ℕ) (raw : DisplayInput) (t u : Tables)
    → AllShown t
    → create_tv_display who id raw t ≡ ok u
    → AllShown u
unfolding create_tv_display
create_tv_display-AllShown who id raw t u h e =
    let (d, _, e₁) = >>=-eq-ok (parse_display raw) _ e in
    let (_, e₂) =
      throw_if-eq-ok (not (is_published (find_row (λ d. d.id) d.dashboard t.dashboards)))
        bad_request _ e₁ in
    let (_, e₃) = throw_if-eq-ok (any (λ x. x.id == id) t.displays) internal _ e₂ in
    subst AllShown (ok-injective e₃) (tt, h)

as_conflict-eq-ok : {A : Type 0} (r : Result A) (a : A) → as_conflict r ≡ ok a → r ≡ ok a
as_conflict-eq-ok (ok b) a e = e
as_conflict-eq-ok (err x) a e = cc

update_tv_display-AllShown :
    (who : Identity) (now id : ℕ) (raw : DisplayUpdate) (t u : Tables)
    → AllShown t
    → update_tv_display who now id raw t ≡ ok u
    → AllShown u
unfolding update_tv_display
update_tv_display-AllShown who now id raw t u h e =
    let (d, _, e₁) = >>=-eq-ok (parse_display_update raw) _ e in
    let (xs, ran, done) =
      >>=-eq-ok (as_conflict (update_row (λ d. d.id) id (display_updated now d) t.displays)) _ e₁ in
    subst AllShown (ok-injective done) (
      update_row-All (λ d. d.id) (IsShown t.dashboards) id (display_updated now d)
        (display_updated-IsShown t.dashboards now d) t.displays xs h (as_conflict-eq-ok _ xs ran))

publish_tv_display-AllShown :
    (who : Identity) (now token id : ℕ) (raw : PublishInput) (t u : Tables)
    → AllShown t
    → publish_tv_display who now token id raw t ≡ ok u
    → AllShown u
unfolding publish_tv_display
publish_tv_display-AllShown who now token id raw t u h e =
    let (d, _, e₁) = >>=-eq-ok (parse_publish now raw) _ e in
    let (xs, ran, done) =
      >>=-eq-ok (update_row (λ d. d.id) id (display_published now token d t.dashboards) t.displays)
        _ e₁ in
    subst AllShown (ok-injective done) (
      update_row-All (λ d. d.id) (IsShown t.dashboards) id
        (display_published now token d t.dashboards)
        (display_published-IsShown t.dashboards now token d) t.displays xs h ran)

publish_dashboard-AllShown :
    (who : Identity) (figures : Source → Filters → Text → Option Text) (now token id : ℕ)
    (raw : PublishInput) (t u : Tables)
    → AllShown t
    → publish_dashboard who figures now token id raw t ≡ ok u
    → AllShown u
unfolding publish_dashboard withdraw_derived
publish_dashboard-AllShown who figures now token id raw t u h e =
    let (d, _, e₁) = >>=-eq-ok (parse_publish now raw) _ e in
    let body = dashboard_published figures now token d in
    let (ds, ran, done) = >>=-eq-ok (update_row (λ d. d.id) id body t.dashboards) _ e₁ in
    subst AllShown (ok-injective done) (
      All-map (IsShown t.dashboards) (IsShown ds) (withdraw_display now id)
        (withdraw_display-IsShown now id body t.dashboards ds
          (dashboard_published-id figures now token d) ran)
        t.displays h)

update_dashboard-AllShown :
    (who : Identity) (now id : ℕ) (raw : DashboardUpdate) (t u : Tables)
    → AllShown t
    → update_dashboard who now id raw t ≡ ok u
    → AllShown u
unfolding update_dashboard
update_dashboard-AllShown who now id raw t u h e =
    let (d, parsed, e₁) = >>=-eq-ok (parse_dashboard_update raw) _ e in
    let (_, _, e₂) = >>=-eq-ok (assert_dashboard_analytics_widgets (or_else d.widgets [])) _ e₁ in
    let (ds, ran, done) =
      >>=-eq-ok (update_row (λ d. d.id) id (dashboard_updated d) t.dashboards) _ e₂ in
    subst AllShown (ok-injective done)
      (edited-IsShown now id d t ds _ h (parse_dashboard_update-changes raw d parsed) ran)

handle-AllShown :
    (who : Identity) (now : ℕ) (call : Call) (t u : Tables)
    → AllShown t
    → handle who now call t ≡ ok u
    → AllShown u
unfolding handle create_tv_playlist publish_tv_playlist
handle-AllShown who now (add_dashboard id input) t u h e =
    create_dashboard-AllShown who id input t u h e
handle-AllShown who now (edit_dashboard id input) t u h e =
    update_dashboard-AllShown who now id input t u h e
handle-AllShown who now (release_dashboard figures token id input) t u h e =
    publish_dashboard-AllShown who figures now token id input t u h e
handle-AllShown who now (add_display id input) t u h e =
    create_tv_display-AllShown who id input t u h e
handle-AllShown who now (edit_display id input) t u h e =
    update_tv_display-AllShown who now id input t u h e
handle-AllShown who now (release_display token id input) t u h e =
    publish_tv_display-AllShown who now token id input t u h e
handle-AllShown who now (add_playlist id input) t u h e =
    by_tables t u h (ground arith) (ground arith)
handle-AllShown who now (release_playlist token id input) t u h e =
    by_tables t u h (ground arith) (ground arith)

-- If every published display mirrors its dashboard, this holds after any history of requests: a
-- display that is published is active, its dashboard is published and not revoked, and it shows
-- exactly what sanitising the dashboard's public snapshot gives.
pub serve-AllShown :
    (t : Tables) (calls : List (Identity × ℕ × Call)) → AllShown t → AllShown (serve t calls)
unfolding serve
serve-AllShown t [] h = h
serve-AllShown t ((who, now, call) ∷ calls) h =
    serve-AllShown (after t (handle who now call t)) calls
      (elim (Result-cases (handle who now call t)) [
        | inl (x, e) ↦ rw e h
        | inr (u, e) ↦ rw e (handle-AllShown who now call t u h e)
      ])
