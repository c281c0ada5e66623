-- ===== src/Screens/Tests.antt =====
-- A dashboard on a display, and the theorems at it.
use bash_builder.Prelude.{
  ℕ, leb, ◌≡◌, refl, Bool, true, false, Option, none, some, List, [], ◌∷◌, ok, map, length, codes,
  Text, Identity, trim, text, optional_text, positive, write, subst, of_some-eq, Result, err,
}
use bash_builder.Prelude.Table.{find_row, update_row}
use bash_builder.Prelude.Select.{select}
use bash_builder.Screens.Widgets.{
  string, Source, Filters, Widget, static, analytics, text_widget, notice, changes_by_status,
  lookup, assert_analytics_contract, assert_dashboard_analytics_widgets,
}
use bash_builder.Screens.Snapshots.{
  PublicWidget, public_config, public_widget, public_widgets, sanitize_config, sanitize_widgets,
  sanitize_tv_display_snapshot,
}
use bash_builder.Screens.Types.{Tables}
use bash_builder.Screens.Schema.{
  parse_dashboard, parse_dashboard_update, parse_publish, parse_display, parse_display_update,
  has_duplicate, parse_playlist,
}
use bash_builder.Screens.Dashboards.{
  create_dashboard, dashboard_updated, withdraw_display, invalidate_all, withdraw_derived,
  update_dashboard, dashboard_published, publish_dashboard,
}
use bash_builder.Screens.Displays.{
  create_tv_display, display_updated, update_tv_display, display_published, publish_tv_display,
}
use bash_builder.Screens.Playlists.{
  invalidate, earliest_expiry, number_items, create_tv_playlist, insert_item, sort_items,
  playlist_display_ids, ordered_displays, earliest, playlist_published, publish_tv_playlist,
}
use bash_builder.Screens.Requests.{
  Call, add_dashboard, edit_dashboard, release_dashboard, add_display, release_display,
  add_playlist, release_playlist, handle, serve,
}
use bash_builder.Screens.Shown.{AllShown}
use bash_builder.Screens.Mirrors.{serve-AllShown}
use bash_builder.Screens.Sanitized.{AreShort, public_widgets-sanitize_widgets}

-- Opens what a run of the service calls.
run : Unit {0}
unfolding serve handle create_dashboard update_dashboard publish_dashboard create_tv_display
    update_tv_display publish_tv_display create_tv_playlist publish_tv_playlist parse_dashboard
    parse_dashboard_update parse_publish parse_display parse_display_update parse_playlist
    has_duplicate dashboard_updated withdraw_display invalidate_all withdraw_derived
    dashboard_published display_updated display_published invalidate earliest_expiry number_items
    insert_item sort_items playlist_display_ids ordered_displays earliest playlist_published
    public_config public_widget public_widgets sanitize_config sanitize_widgets
    sanitize_tv_display_snapshot lookup assert_analytics_contract assert_dashboard_analytics_widgets
    find_row update_row select trim text optional_text positive write
run = tt

abbrev ann : Identity
ann = record { user = 1; email = codes "ann@x"; organization = 9; membership = 11 }

abbrev empty : Tables
empty = record {
  dashboards = [];
  displays = [];
  playlists = [];
  journal = record { audit = []; outbox = [] };
}

abbrev no_filters : Filters
no_filters = record { period = none; status = none; stage = none }

abbrev widgets : List Widget
widgets =
    static text_widget (codes "Welcome") ((codes "content", string (codes "Safety first")) ∷ [])
    ∷ static notice (codes "Drill")
        ((codes "message", string (codes "At ten")) ∷ (codes "tone", string (codes "INFO")) ∷ [])
    ∷ analytics (codes "Changes") changes_by_status (codes "total") no_filters
    ∷ []

abbrev seven : Source → Filters → Text → Option Text
seven source filters name = some (codes "7")

abbrev calls : List (Identity × ℕ × Call)
calls =
    (
      ann,
      1,
      add_dashboard 1 (record { title = codes "Plant"; description = none; widgets = widgets }),
    )
    ∷ (
      ann,
      2,
      release_dashboard seven 70 1
          (record { published = true; expected_version = 1; expires_at = none }),
    )
    ∷ (
      ann,
      3,
      add_display 2 (record { name = codes "Gate"; dashboard = 1; refresh_seconds = none }),
    )
    ∷ (
      ann,
      4,
      release_display 71 2
          (record { published = true; expected_version = 1; expires_at = some 99 }),
    )
    ∷ (
      ann,
      5,
      add_playlist 3 (record { name = codes "Hall"; interval_seconds = none; displays = 2 ∷ [] }),
    )
    ∷ (
      ann,
      6,
      release_playlist 72 3 (record { published = true; expected_version = 1; expires_at = none }),
    )
    ∷ []

abbrev aired : Tables
aired = serve empty calls

abbrev edit : List (Identity × ℕ × Call)
edit =
    (
      ann,
      7,
      edit_dashboard 1 (record {
        title = some (codes "Site");
        description = none;
        widgets = none;
        expected_version = 2;
      }),
    )
    ∷ []

abbrev on_air : Tables → List Bool
on_air t = map (λ d. d.release.published) t.displays

playlist_on_air :
    map {B = Bool × Option ℕ} (λ p. (p.release.published, p.release.expires_at)) aired.playlists
    ≡ (true, some 99) ∷ []
unfolding run
playlist_on_air = refl

display_off_air : on_air (serve aired edit) ≡ false ∷ []
unfolding run
display_off_air = refl

playlist_off_air : map (λ p. p.release.published) (serve aired edit).playlists ≡ false ∷ []
unfolding run
playlist_off_air = refl

serve-AllShown_example : AllShown (serve empty calls)
serve-AllShown_example = serve-AllShown empty calls tt

shown_widgets : List PublicWidget
shown_widgets = taken (public_widgets seven widgets)
  where
    taken : Result (List PublicWidget) → List PublicWidget
    taken (ok ps) = ps
    taken (err e) = []

widgets-public : public_widgets seven widgets ≡ ok shown_widgets
unfolding run shown_widgets
widgets-public = refl

seven-AreShort : AreShort seven
seven-AreShort source filters name t e = subst (λ x. leb (length x) 160 ≡ true) (of_some-eq e) refl

public_widgets-sanitize_widgets_example : sanitize_widgets shown_widgets ≡ ok shown_widgets
public_widgets-sanitize_widgets_example =
    public_widgets-sanitize_widgets seven seven-AreShort widgets shown_widgets widgets-public
