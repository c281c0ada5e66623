-- ===== src/Screens/Requests.antt =====
-- One request on dashboards, displays or playlists, and a history of them.
use bash_builder.Prelude.{ℕ, List, [], ◌∷◌, Option, Text, Result, after, Identity}
use bash_builder.Screens.Widgets.{Source, Filters}
use bash_builder.Screens.Types.{Tables}
use bash_builder.Screens.Schema.{
  DashboardInput, DashboardUpdate, PublishInput, DisplayInput, DisplayUpdate, PlaylistInput,
}
use bash_builder.Screens.Dashboards.{create_dashboard, update_dashboard, publish_dashboard}
use bash_builder.Screens.Displays.{create_tv_display, update_tv_display, publish_tv_display}
use bash_builder.Screens.Playlists.{create_tv_playlist, publish_tv_playlist}

-- One request; a new token's hash, and the figures that a publication reads, come with it.
pub data Call : Type 0 where
  add_dashboard : ℕ → DashboardInput → Call
  edit_dashboard : ℕ → DashboardUpdate → Call
  release_dashboard : (Source → Filters → Text → Option Text) → ℕ → ℕ → PublishInput → Call
  add_display : ℕ → DisplayInput → Call
  edit_display : ℕ → DisplayUpdate → Call
  release_display : ℕ → ℕ → PublishInput → Call
  add_playlist : ℕ → PlaylistInput → Call
  release_playlist : ℕ → ℕ → PublishInput → Call

unfoldable pub handle : Identity → ℕ → Call → Tables → Result Tables
handle who now (add_dashboard id input) = create_dashboard who id input
handle who now (edit_dashboard id input) = update_dashboard who now id input
handle who now (release_dashboard figures token id input) =
    publish_dashboard who figures now token id input
handle who now (add_display id input) = create_tv_display who id input
handle who now (edit_display id input) = update_tv_display who now id input
handle who now (release_display token id input) = publish_tv_display who now token id input
handle who now (add_playlist id input) = create_tv_playlist who id input
handle who now (release_playlist token id input) = publish_tv_playlist who now token id input

-- Requests in the order of their transactions; one that throws leaves the tables as they were.
unfoldable pub serve : Tables → List (Identity × ℕ × Call) → Tables
serve t [] = t
serve t ((who, now, call) ∷ calls) = serve (after t (handle who now call t)) calls
