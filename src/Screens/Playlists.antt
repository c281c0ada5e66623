-- ===== src/Screens/Playlists.antt =====
-- Playlists: `createTvPlaylist`, `publishTvPlaylist` and `invalidateTvPlaylistsForDisplay`.
use bash_builder.Prelude.{
  ℕ, ◌+◌, ◌==◌, ltb, leb, Bool, true, not, ◌&&◌, ◌||◌, Option, none, some, is_none, List, [], ◌∷◌,
  map, any, length, includes, is_empty, if◌then◌else◌, Result, ok, ◌>>=◌, ◌>>◌, throw_if, or_throw,
  or_else, bad_request, conflict, internal, Text, Identity, write,
}
use bash_builder.Prelude.Table.{find_row, update_row}
use bash_builder.Prelude.Select.{select}
use bash_builder.Screens.Snapshots.{Snapshot, sanitize_tv_display_snapshot}
use bash_builder.Screens.Types.{unreleased, released, withdrawn, Display, Item, Playlist, Tables}
use bash_builder.Screens.Schema.{
  PlaylistInput, parse_playlist, PublishInput, parse_publish, has_duplicate, is_past,
}

-- `invalidateTvPlaylistsForDisplay`: every published playlist with this display.
abbrev pub shows : ℕ → Playlist → Bool
shows display p = any (λ i. i.display == display) p.items

unfoldable pub invalidate : ℕ → ℕ → Playlist → Playlist
invalidate now display p =
    if p.release.published && shows display p
    then record p { release = withdrawn now p.release; version = p.version + 1 }
    else p

-- `earliestExpiry`
unfoldable pub earliest_expiry : Option ℕ → Option ℕ → Option ℕ
earliest_expiry none source = source
earliest_expiry (some r) none = some r
earliest_expiry (some r) (some s) = if leb r s then some r else some s

unfoldable pub number_items : ℕ → List ℕ → List Item
number_items n [] = []
number_items n (d ∷ ds) = record { display = d; position = n } ∷ number_items (n + 1) ds

-- `createTvPlaylist`
unfoldable pub create_tv_playlist : Identity → ℕ → PlaylistInput → Tables → Result Tables
unfolding number_items
create_tv_playlist who id raw t = do
  d ← parse_playlist raw
  throw_if
      (not (
        length (select (λ x. includes d.displays x.id && x.active) t.displays)
        == length d.displays))
      bad_request
  ok (record t {
    playlists =
        record {
          id = id;
          name = d.name;
          interval_seconds = or_else d.interval_seconds 30;
          items = number_items 0 d.displays;
          active = true;
          release = unreleased;
          version = 1;
        }
        ∷ t.playlists;
    journal = write who "tv_playlist.created" "tv_playlist" id t.journal;
  })

-- `[...items].sort((left, right) => left.position - right.position)`, which is stable.
unfoldable pub insert_item : Item → List Item → List Item
insert_item i [] = i ∷ []
insert_item i (j ∷ js) =
    let rest = insert_item i js in if leb i.position j.position then i ∷ j ∷ js else j ∷ rest

unfoldable pub sort_items : List Item → List Item
unfolding insert_item
sort_items [] = []
sort_items (i ∷ is) = insert_item i (sort_items is)

-- `playlistDisplayIds`
unfoldable pub playlist_display_ids : List Item → Result (List ℕ)
unfolding sort_items has_duplicate
playlist_display_ids items = do
  throw_if (is_empty items || ltb 30 (length items)) bad_request
  throw_if (has_duplicate (map (λ i. i.display) items)) bad_request
  ok (map (λ i. i.display) (sort_items items))

-- The `where` clause on displays that can be shown.
abbrev pub is_available : ℕ → Display → Bool
is_available now d =
    d.active
    && d.release.published
    && is_none d.release.revoked_at
    && not (is_past now d.release.expires_at)

-- `displayIds.map((id) => byId.get(id)!).map(…)`; a missing entry is a TypeError.
unfoldable pub ordered_displays : List ℕ → List Display → Result (List (Text × Snapshot))
unfolding find_row sanitize_tv_display_snapshot
ordered_displays [] ds = ok []
ordered_displays (id ∷ ids) ds = do
  d ← or_throw (find_row (λ d. d.id) id ds) internal
  s ← sanitize_tv_display_snapshot d.release.snapshot
  rest ← ordered_displays ids ds
  ok ((d.name, s) ∷ rest)

unfoldable pub earliest : Option ℕ → List Display → Option ℕ
unfolding earliest_expiry
earliest expiry [] = expiry
earliest expiry (d ∷ ds) = earliest (earliest_expiry expiry d.release.expires_at) ds

-- The row that `publishTvPlaylist` writes.
unfoldable pub playlist_published : ℕ → ℕ → PublishInput → List Display → Playlist → Result Playlist
unfolding playlist_display_ids ordered_displays earliest
playlist_published now token input displays p = do
  ids ← playlist_display_ids p.items
  if not input.published
      then (throw_if (not (p.version == input.expected_version)) conflict
          >> ok (record p { release = withdrawn now p.release; version = p.version + 1 }))
      else (let found = select (λ d. includes ids d.id && is_available now d) displays in
          throw_if (not p.active || not (length found == length ids)) bad_request
          >> (ordered_displays ids found >>= λ ordered.
              throw_if (not (p.version == input.expected_version)) conflict
              >> ok (record p {
                release = released now token (earliest input.expires_at found) (record {
                  title = p.name;
                  interval_seconds = p.interval_seconds;
                  displays = ordered;
                });
                version = p.version + 1;
              })))

-- `publishTvPlaylist`
unfoldable pub publish_tv_playlist : Identity → ℕ → ℕ → ℕ → PublishInput → Tables → Result Tables
unfolding playlist_published
publish_tv_playlist who now token id raw t = do
  input ← parse_publish now raw
  playlists ← update_row (λ p. p.id) id (playlist_published now token input t.displays) t.playlists
  ok (record t {
    playlists = playlists;
    journal =
        write who
          (if input.published
            then "tv_playlist.publication_created"
            else "tv_playlist.publication_revoked")
          "tv_playlist" id t.journal;
  })
