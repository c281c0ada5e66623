-- ===== src/Safety/Tests.antt =====
-- An event from its report to its closing, and the theorems at it.
use bash_builder.Prelude.{
  ℕ, ◌≡◌, refl, Option, none, some, List, [], ◌∷◌, ok, map, length, after, codes, trim, text,
  optional_text, positive, write, Identity,
}
use bash_builder.Prelude.Table.{find_row, update_row}
use bash_builder.Prelude.Select.{find_first, select}
use bash_builder.Changes.Schema.{parse_evidence}
use bash_builder.Safety.Types.{EventStatus, opened, resolved, closed, Event, Tables}
use bash_builder.Safety.Catalogue.{
  Wanted, is_alternative, map_get, side_found, resolve_event_classifications,
}
use bash_builder.Safety.Schema.{
  parse_classification, parse_classification_update, parse_details, parse_event, parse_action,
}
use bash_builder.Safety.Service.{
  create_classification, classification_updated, update_classification, new_event, create_event,
  action_added, add_event_action, complete, action_completed, complete_event_action,
  attachment_added, add_event_attachment, event_transition_allowed, event_moved, transition_event,
}
use bash_builder.Safety.Requests.{
  Call, classify, create, add_action, complete_action, transition, handle, serve,
}
use bash_builder.Safety.Resolution.{Outcome, resolve_event_classifications_lem}
use bash_builder.Safety.Life.{Progresses, handle-Progresses, ClosedLike, serve-closed}

-- Opens what a run of the service calls.
run : Unit {0}
unfolding serve handle create_classification update_classification create_event add_event_action
    complete_event_action add_event_attachment transition_event event_moved event_transition_allowed
    attachment_added action_completed complete action_added new_event classification_updated
    parse_classification parse_classification_update parse_details parse_event parse_action
    parse_evidence resolve_event_classifications side_found map_get is_alternative find_row
    update_row find_first select trim text optional_text positive write
run = tt

abbrev ann : Identity
ann = record { user = 1; email = codes "ann@x"; organization = 9; membership = 11 }

abbrev empty : Tables
empty = record {
  classifications = [];
  events = [];
  ready_files = 7 ∷ [];
  journal = record { audit = []; outbox = [] };
}

abbrev near_miss : Wanted
near_miss = record { id = none; value = some (codes "near-miss") }

abbrev by_id : Wanted
by_id = record { id = some 1; value = some (codes "ignored") }

abbrev reporting : List (Identity × ℕ × Call)
reporting =
    (
      ann,
      1,
      classify 1 (record {
        category = codes "event_classification";
        label = codes "Near miss";
        value = codes "near-miss";
        position = none;
      }),
    )
    ∷ (
      ann,
      2,
      create 2 (record {
        details = record {
          code = codes "EV-1";
          title = codes "Fall of a load";
          description = none;
          occurred_at = 1000;
          site = none;
          area = none;
          origin = codes "site";
          reporter_name = none;
          reporter_email = none;
        };
        actual = near_miss;
        potential = by_id;
        sla_hours = some 24;
      }),
    )
    ∷ (ann, 3, transition 2 opened 1)
    ∷ (
      ann,
      4,
      add_action 2 3 (record { title = codes "Fence the area"; owner = none; due_at = none }),
    )
    ∷ (ann, 5, transition 2 resolved 2)
    ∷ []

abbrev reported : Tables
reported = serve empty reporting

abbrev closing : List (Identity × ℕ × Call)
closing =
    (ann, 6, transition 2 closed 3)
    ∷ (ann, 7, complete_action 2 3)
    ∷ (ann, 8, transition 2 closed 3)
    ∷ []

abbrev done : Tables
done = serve reported closing

abbrev later : List (Identity × ℕ × Call)
later =
    (ann, 9, transition 2 opened 4)
    ∷ (ann, 10, add_action 2 4 (record { title = codes "Too late"; owner = none; due_at = none }))
    ∷ []

-- The first attempt to close is refused; a closed event still takes a new action.
actions_of_closed :
    map {B = EventStatus × ℕ × ℕ}
      (λ e. (e.status, e.version, length e.actions))
      (serve done later).events
    ≡ (closed, 4, 2) ∷ []
unfolding run
actions_of_closed = refl

resolve_event_classifications_lem_example :
    Outcome reported.classifications near_miss by_id
      (resolve_event_classifications near_miss by_id reported.classifications)
resolve_event_classifications_lem_example =
    resolve_event_classifications_lem near_miss by_id reported.classifications

abbrev the_event : Option Event → Event
the_event (some e) = e
the_event none = record {
  id = 0;
  created_by = none;
  details = record {
    code = [];
    title = [];
    description = none;
    occurred_at = 0;
    site = none;
    area = none;
    origin = [];
    reporter_name = none;
    reporter_email = none;
  };
  status = closed;
  actual = none;
  potential = none;
  sla_due_at = none;
  actions = [];
  attachments = [];
  version = 0;
}

abbrev before : Event
before = the_event (find_row (λ e. e.id) 2 reported.events)

abbrev completed : Tables
completed = after reported (handle ann 7 (complete_action 2 3) reported)

reported-handled : handle ann 7 (complete_action 2 3) reported ≡ ok completed
unfolding run
reported-handled = refl

reported-found : find_row (λ e. e.id) 2 reported.events ≡ some before
unfolding run
reported-found = refl

handle-Progresses_example :
    (f : Event) × (find_row (λ e. e.id) 2 completed.events ≡ some f) × Progresses before f
handle-Progresses_example =
    handle-Progresses ann 7 (complete_action 2 3) reported completed 2 before reported-handled
      reported-found

abbrev ended : Event
ended = the_event (find_row (λ e. e.id) 2 done.events)

done-found : find_row (λ e. e.id) 2 done.events ≡ some ended
unfolding run
done-found = refl

ended-closed : ended.status ≡ closed
unfolding run
ended-closed = refl

serve-closed_example :
    (f : Event) × (find_row (λ e. e.id) 2 (serve done later).events ≡ some f) × ClosedLike ended f
serve-closed_example = serve-closed done later 2 ended done-found ended-closed
