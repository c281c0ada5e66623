-- ===== src/Screens/Dashboards.antt =====
-- Dashboards: `createDashboard`, `updateDashboard` and `publishDashboard`.
use bash_builder.Prelude.{
  ℕ, ◌+◌, ◌==◌, ltb, Bool, false, not, ◌&&◌, ◌||◌, Option, none, some, is_none, List, [], ◌∷◌, map,
  any, length, if◌then◌else◌, Result, ok, ◌>>=◌, ◌>>◌, throw_if, or_else, bad_request, conflict,
  internal, Text, Identity, write,
}
use bash_builder.Prelude.Table.{find_row, update_row}
use bash_builder.Screens.Widgets.{Source, Filters, assert_dashboard_analytics_widgets}
use bash_builder.Screens.Snapshots.{public_widgets}
use bash_builder.Screens.Types.{
  unreleased, released, withdrawn, Dashboard, Display, Playlist, Tables,
}
use bash_builder.Screens.Schema.{
  DashboardInput, parse_dashboard, DashboardUpdate, parse_dashboard_update, PublishInput,
  parse_publish,
}
use bash_builder.Screens.Playlists.{invalidate}

-- `createDashboard`
unfoldable pub create_dashboard : Identity → ℕ → DashboardInput → Tables → Result Tables
create_dashboard who id raw t = do
  d ← parse_dashboard raw
  assert_dashboard_analytics_widgets d.widgets
  throw_if (any (λ x. x.id == id) t.dashboards) internal
  ok (record t {
    dashboards =
        record {
          id = id;
          title = d.title;
          description = d.description;
          widgets = d.widgets;
          release = unreleased;
          version = 1;
        }
        ∷ t.dashboards;
    journal = write who "dashboard.created" "dashboard" id t.journal;
  })

unfoldable pub dashboard_updated : DashboardUpdate → Dashboard → Result Dashboard
dashboard_updated u d = do
  throw_if (not (d.version == u.expected_version)) conflict
  ok (record d {
    title = or_else u.title d.title;
    description = or_else u.description d.description;
    widgets = or_else u.widgets d.widgets;
    version = d.version + 1;
  })

-- `tvDisplay.updateMany({ where: { dashboardId, published: true }, … })`
unfoldable pub withdraw_display : ℕ → ℕ → Display → Display
withdraw_display now dashboard x =
    if (x.dashboard == dashboard) && x.release.published
    then record x { release = withdrawn now x.release; version = x.version + 1 }
    else x

-- `Promise.all(affectedDisplays.map(…invalidateTvPlaylistsForDisplay…))`
unfoldable pub invalidate_all : ℕ → ℕ → List Display → List Playlist → List Playlist
unfolding invalidate
invalidate_all now dashboard [] ps = ps
invalidate_all now dashboard (x ∷ xs) ps =
    let first =
      if (x.dashboard == dashboard) && x.release.published
      then map (invalidate now x.id) ps
      else ps in
    invalidate_all now dashboard xs first

-- Both statements, which end what is derived from a dashboard.
unfoldable pub withdraw_derived : ℕ → ℕ → Tables → Tables
unfolding withdraw_display invalidate_all
withdraw_derived now dashboard t = record t {
  displays = map (withdraw_display now dashboard) t.displays;
  playlists = invalidate_all now dashboard t.displays t.playlists;
}

abbrev pub was_published : Option Dashboard → Bool
was_published none = false
was_published (some d) = d.release.published

-- `updateDashboard`; the schema demands a change, so that a published dashboard is always followed
-- by the end of what is derived from it.
unfoldable pub update_dashboard : Identity → ℕ → ℕ → DashboardUpdate → Tables → Result Tables
unfolding dashboard_updated withdraw_derived
update_dashboard who now id raw t = do
  u ← parse_dashboard_update raw
  assert_dashboard_analytics_widgets (or_else u.widgets [])
  dashboards ← update_row (λ d. d.id) id (dashboard_updated u) t.dashboards
  let u' =
      if was_published (find_row (λ d. d.id) id t.dashboards)
        && (not (is_none u.widgets) || not (is_none u.title) || not (is_none u.description))
      then withdraw_derived now id t
      else t
  ok (record u' {
    dashboards = dashboards;
    journal = write who "dashboard.updated" "dashboard" id t.journal;
  })

-- The row that `publishDashboard` writes.
unfoldable pub dashboard_published :
    (Source → Filters → Text → Option Text) → ℕ → ℕ → PublishInput → Dashboard → Result Dashboard
unfolding public_widgets
dashboard_published figures now token input d =
    if not input.published
    then (throw_if (not (d.version == input.expected_version)) conflict
        >> ok (record d { release = withdrawn now d.release; version = d.version + 1 }))
    else (throw_if (ltb 24 (length d.widgets)) bad_request
        >> (public_widgets figures d.widgets >>= λ widgets.
            throw_if (not (d.version == input.expected_version)) conflict
            >> ok (record d {
              release =
                  released now token input.expires_at
                    (record { title = d.title; description = d.description; widgets = widgets });
              version = d.version + 1;
            })))

-- `publishDashboard`
unfoldable pub publish_dashboard :
    Identity
    → (Source → Filters → Text → Option Text)
    → ℕ
    → ℕ
    → ℕ
    → PublishInput
    → Tables
    → Result Tables
unfolding dashboard_published withdraw_derived
publish_dashboard who figures now token id raw t = do
  input ← parse_publish now raw
  dashboards ← update_row (λ d. d.id) id (dashboard_published figures now token input) t.dashboards
  ok (record (withdraw_derived now id t) {
    dashboards = dashboards;
    journal =
        write who
          (if input.published
            then "dashboard.publication_created"
            else "dashboard.publication_revoked")
          "dashboard" id t.journal;
  })
