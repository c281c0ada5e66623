-- ===== src/Safety/Service.antt =====
-- The operations on events and classifications as transactions on a tenant's tables. A new row's
-- identifier and the time (in milliseconds) are arguments.
use bash_builder.Prelude.{
  or_else, as_conflict, ℕ, ◌+◌, ◌*◌, ◌==◌, Bool, true, not, ◌&&◌, Option, none, some, is_none, List,
  [], ◌∷◌, map, any, length, includes, if◌then◌else◌, String, Result, ok, ◌>>=◌, ◌>>◌, throw_if,
  bad_request, not_found, conflict, internal, text_eq, positive, Identity, write,
}
use bash_builder.Prelude.Table.{update_row}
use bash_builder.Prelude.Select.{select, find_first}
use bash_builder.Changes.Types.{EvidenceInput}
use bash_builder.Changes.Schema.{parse_evidence}
use bash_builder.Safety.Types.{
  EventStatus, draft, opened, in_review, resolved, closed, same_status, Classification, Action,
  Chosen, Event, Tables,
}
use bash_builder.Safety.Catalogue.{resolve_event_classifications}
use bash_builder.Safety.Schema.{
  ClassificationInput, parse_classification, ClassificationUpdate, parse_classification_update,
  EventInput, parse_event, ActionInput, parse_action,
}

-- `createClassification`; `@@unique([organizationId, category, value])` is not answered by the handler.
unfoldable pub create_classification : Identity → ℕ → ClassificationInput → Tables → Result Tables
create_classification who id raw t = do
  c ← parse_classification raw
  throw_if (any (λ x. text_eq x.category c.category && text_eq x.value c.value) t.classifications)
      internal
  ok (record t {
    classifications =
        record {
          id = id;
          category = c.category;
          label = c.label;
          value = c.value;
          active = true;
          position = or_else c.position 0;
          version = 1;
        }
        ∷ t.classifications;
    journal = write who "classification.created" "classification" id t.journal;
  })

-- The fields that are given, on a row of the expected version.
unfoldable pub classification_updated :
    ClassificationUpdate → Classification → Result Classification
classification_updated d c = do
  throw_if (not (c.version == d.expected_version)) conflict
  ok (record c {
    label = or_else d.label c.label;
    position = or_else d.position c.position;
    active = or_else d.active c.active;
    version = c.version + 1;
  })

abbrev action_of_update : Option Classification → String
action_of_update none = "classification.updated"
action_of_update (some c) = if c.active then "classification.updated" else "classification.retired"

-- `updateClassification`
unfoldable pub update_classification : Identity → ℕ → ClassificationUpdate → Tables → Result Tables
unfolding classification_updated
update_classification who id raw t = do
  d ← parse_classification_update raw
  cs ← as_conflict (update_row (λ c. c.id) id (classification_updated d) t.classifications)
  ok (record t {
    classifications = cs;
    journal =
        write who (action_of_update (find_first (λ c. c.id == id) cs)) "classification" id
          t.journal;
  })

abbrev chosen : Option Classification → Option Chosen
chosen none = none
chosen (some c) = some (record { id = c.id; value = c.value })

abbrev sla_due : ℕ → Option ℕ → Option ℕ
sla_due occurred none = none
sla_due occurred (some hours) = some (occurred + hours * 3600000)

unfoldable pub new_event :
    ℕ → ℕ → EventInput → Option Classification → Option Classification → Event
new_event id creator input actual potential = record {
  id = id;
  created_by = some creator;
  details = input.details;
  status = draft;
  actual = chosen actual;
  potential = chosen potential;
  sla_due_at = sla_due input.details.occurred_at input.sla_hours;
  actions = [];
  attachments = [];
  version = 1;
}

-- `createEvent`; a taken code or identifier is not answered by the handler.
unfoldable pub create_event : Identity → ℕ → EventInput → Tables → Result Tables
unfolding new_event
create_event who id raw t = do
  input ← parse_event raw
  (actual, potential) ← resolve_event_classifications input.actual input.potential t.classifications
  throw_if (any (λ e. text_eq e.details.code input.details.code) t.events) internal
  throw_if (any (λ e. e.id == id) t.events) internal
  ok (record t {
    events = new_event id who.user input actual potential ∷ t.events;
    journal = write who "safety_event.created" "safety_event" id t.journal;
  })

abbrev pub on_event :
    Identity → ℕ → (Event → Result Event) → String → String → ℕ → Tables → Result Tables
on_event who id body action resource_type resource t = do
  events ← update_row (λ e. e.id) id body t.events
  ok (record t { events = events; journal = write who action resource_type resource t.journal })

unfoldable pub action_added : ℕ → ActionInput → Event → Result Event
action_added id d e = ok (record e {
  actions =
      record { id = id; title = d.title; owner = d.owner; due_at = d.due_at; completed_at = none }
      ∷ e.actions;
})

-- `addEventAction`
unfoldable pub add_event_action : Identity → ℕ → ℕ → ActionInput → Tables → Result Tables
unfolding action_added
add_event_action who event id raw t = do
  d ← parse_action raw
  on_event who event (action_added id d) "safety_event.action_created" "safety_event_action" id t

abbrev pub is_pending : Action → Bool
is_pending a = is_none a.completed_at

unfoldable pub complete : ℕ → ℕ → Action → Action
complete now id a = if (a.id == id) && is_pending a then record a { completed_at = some now } else a

unfoldable pub action_completed : ℕ → ℕ → Event → Result Event
unfolding complete
action_completed now id e = do
  throw_if (not (length (select (λ a. (a.id == id) && is_pending a) e.actions) == 1)) conflict
  ok (record e { actions = map (complete now id) e.actions })

-- `completeEventAction`
unfoldable pub complete_event_action : Identity → ℕ → ℕ → ℕ → Tables → Result Tables
unfolding action_completed
complete_event_action who now event id t =
    on_event who event (action_completed now id) "safety_event.action_completed"
      "safety_event_action" id t

unfoldable pub attachment_added : ℕ → EvidenceInput → Bool → Event → Result Event
attachment_added id d is_ready e = do
  throw_if (not is_ready) not_found
  throw_if (any (λ a. a.file == d.file) e.attachments) conflict
  ok (record e {
    attachments =
        record { id = id; file = d.file; category = d.category; description = d.description }
        ∷ e.attachments;
  })

-- `addEventAttachment`
unfoldable pub add_event_attachment : Identity → ℕ → ℕ → EvidenceInput → Tables → Result Tables
unfolding attachment_added
add_event_attachment who event id raw t = do
  d ← parse_evidence raw
  on_event who event (attachment_added id d (includes t.ready_files d.file))
      "safety_event.attachment_linked" "safety_event_attachment" id t

abbrev pub allowed_targets : EventStatus → List EventStatus
allowed_targets draft = opened ∷ []
allowed_targets opened = in_review ∷ resolved ∷ []
allowed_targets in_review = opened ∷ resolved ∷ []
allowed_targets resolved = opened ∷ closed ∷ []
allowed_targets closed = []

-- `eventTransitionAllowed`
unfoldable pub event_transition_allowed : EventStatus → EventStatus → Bool
event_transition_allowed from to = any (same_status to) (allowed_targets from)

unfoldable pub event_moved : EventStatus → ℕ → Event → Result Event
unfolding event_transition_allowed
event_moved target expected e = do
  throw_if (not (event_transition_allowed e.status target)) bad_request
  throw_if (same_status target closed && any is_pending e.actions) bad_request
  throw_if (not (e.version == expected)) conflict
  ok (record e { status = target; version = e.version + 1 })

-- `transitionEvent`
unfoldable pub transition_event : Identity → ℕ → EventStatus → ℕ → Tables → Result Tables
unfolding event_moved
transition_event who event target expected t = do
  version ← positive expected
  on_event who event (event_moved target version) "safety_event.status_changed" "safety_event" event
      t
