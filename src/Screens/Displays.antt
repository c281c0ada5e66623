-- ===== src/Screens/Displays.antt =====
-- Displays: `createTvDisplay`, `updateTvDisplay` and `publishTvDisplay`.
use bash_builder.Prelude.{
  ℕ, ◌+◌, ◌==◌, Bool, true, false, not, ◌||◌, Option, none, some, is_none, List, ◌∷◌, map, any,
  if◌then◌else◌, Result, ok, ◌>>=◌, ◌>>◌, throw_if, or_throw, or_else, as_conflict, bad_request,
  conflict, internal, Identity, write,
}
use bash_builder.Prelude.Table.{find_row, update_row}
use bash_builder.Screens.Snapshots.{sanitize_tv_display_snapshot}
use bash_builder.Screens.Types.{unreleased, released, withdrawn, Dashboard, Display, Tables}
use bash_builder.Screens.Schema.{
  DisplayInput, parse_display, DisplayUpdate, parse_display_update, PublishInput, parse_publish,
  is_past,
}
use bash_builder.Screens.Playlists.{invalidate, earliest_expiry}

-- `findFirst({ where: { id, published: true } })`
abbrev pub is_published : Option Dashboard → Bool
is_published none = false
is_published (some d) = d.release.published

-- `createTvDisplay`
unfoldable pub create_tv_display : Identity → ℕ → DisplayInput → Tables → Result Tables
create_tv_display who id raw t = do
  d ← parse_display raw
  throw_if (not (is_published (find_row (λ d. d.id) d.dashboard t.dashboards))) bad_request
  throw_if (any (λ x. x.id == id) t.displays) internal
  ok (record t {
    displays =
        record {
          id = id;
          dashboard = d.dashboard;
          name = d.name;
          refresh_seconds = or_else d.refresh_seconds 30;
          active = true;
          release = unreleased;
          version = 1;
        }
        ∷ t.displays;
    journal = write who "tv_display.created" "tv_display" id t.journal;
  })

unfoldable pub display_updated : ℕ → DisplayUpdate → Display → Result Display
display_updated now d x = do
  throw_if (not (x.version == d.expected_version)) conflict
  ok (record x {
    name = or_else d.name x.name;
    refresh_seconds = or_else d.refresh_seconds x.refresh_seconds;
    active = or_else d.active x.active;
    release = if or_else d.active true then x.release else withdrawn now x.release;
    version = x.version + 1;
  })

-- `updateTvDisplay`
unfoldable pub update_tv_display : Identity → ℕ → ℕ → DisplayUpdate → Tables → Result Tables
unfolding display_updated invalidate
update_tv_display who now id raw t = do
  d ← parse_display_update raw
  displays ← as_conflict (update_row (λ d. d.id) id (display_updated now d) t.displays)
  ok (record t {
    displays = displays;
    playlists = map (invalidate now id) t.playlists;
    journal = write who "tv_display.updated" "tv_display" id t.journal;
  })

-- `!display.active || !display.dashboard.published || …`, on the dashboard of the display.
abbrev pub is_unavailable : ℕ → Display → Dashboard → Bool
is_unavailable now x d =
    not x.active
    || not d.release.published
    || not (is_none d.release.revoked_at)
    || is_past now d.release.expires_at

-- The row that `publishTvDisplay` writes; the foreign key keeps a display's dashboard.
unfoldable pub display_published : ℕ → ℕ → PublishInput → List Dashboard → Display → Result Display
unfolding sanitize_tv_display_snapshot
display_published now token input dashboards x = do
  d ← or_throw (find_row (λ d. d.id) x.dashboard dashboards) internal
  if not input.published
      then (throw_if (not (x.version == input.expected_version)) conflict
          >> ok (record x { release = withdrawn now x.release; version = x.version + 1 }))
      else (throw_if (is_unavailable now x d) bad_request
          >> (sanitize_tv_display_snapshot d.release.snapshot >>= λ s.
              throw_if (not (x.version == input.expected_version)) conflict
              >> ok (record x {
                release =
                    released now token (earliest_expiry input.expires_at d.release.expires_at) s;
                version = x.version + 1;
              })))

-- `publishTvDisplay`
unfoldable pub publish_tv_display : Identity → ℕ → ℕ → ℕ → PublishInput → Tables → Result Tables
unfolding display_published invalidate
publish_tv_display who now token id raw t = do
  input ← parse_publish now raw
  displays ← update_row (λ d. d.id) id (display_published now token input t.dashboards) t.displays
  ok (record t {
    displays = displays;
    playlists = map (invalidate now id) t.playlists;
    journal =
        write who
          (if input.published
            then "tv_display.publication_created"
            else "tv_display.publication_revoked")
          "tv_display" id t.journal;
  })
