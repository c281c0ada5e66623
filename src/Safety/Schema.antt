-- ===== src/Safety/Schema.antt =====
-- The input schemas of events and classifications. Dates, identifiers and e-mail addresses have been
-- read; a number that is no natural number has been refused.
use bash_builder.Prelude.{
  ℕ, ◌==◌, ltb, leb, Bool, false, not, ◌&&◌, ◌||◌, Option, none, some, is_none, [], ◌∷◌, all,
  Result, ok, ◌>>=◌, ◌>>◌, throw_if, bad_request, Text, codes, text_eq, text, optional_text,
  positive,
}
use bash_builder.Changes.Schema.{is_code}
use bash_builder.Safety.Catalogue.{Wanted}
use bash_builder.Safety.Types.{Details}

pub record ClassificationInput : Type 0 where
  pub category : Text
  pub label : Text
  pub value : Text
  pub position : Option ℕ

abbrev is_lower : ℕ → Bool
is_lower c = (leb 97 c && leb c 122) || (leb 48 c && leb c 57)

-- `/^[a-z0-9][a-z0-9-]*$/`
abbrev pub is_slug : Text → Bool
is_slug [] = false
is_slug (c ∷ s) = is_lower c && all (λ d. is_lower d || (d == 45)) s

-- `createClassificationSchema`
unfoldable pub parse_classification : ClassificationInput → Result ClassificationInput
parse_classification r = do
  throw_if (not (text_eq r.category (codes "event_classification"))) bad_request
  label ← text 2 160 r.label
  value ← text 1 120 r.value
  throw_if (not (is_slug value)) bad_request
  ok (record { category = r.category; label = label; value = value; position = r.position })

pub record ClassificationUpdate : Type 0 where
  pub label : Option Text
  pub position : Option ℕ
  pub active : Option Bool
  pub expected_version : ℕ

abbrev optional_label : Option Text → Result (Option Text)
optional_label none = ok none
optional_label (some s) = text 2 160 s >>= λ t. ok (some t)

-- `updateClassificationSchema`
unfoldable pub parse_classification_update : ClassificationUpdate → Result ClassificationUpdate
parse_classification_update r = do
  label ← optional_label r.label
  version ← positive r.expected_version
  throw_if (is_none r.label && is_none r.position && is_none r.active) bad_request
  ok (record {
    label = label;
    position = r.position;
    active = r.active;
    expected_version = version;
  })

pub record EventInput : Type 0 where
  pub details : Details
  pub actual : Wanted
  pub potential : Wanted
  pub sla_hours : Option ℕ

abbrev parse_class : Option Text → Result (Option Text)
parse_class none = ok none
parse_class (some s) = text 1 120 s >>= λ t. ok (some t)

unfoldable pub parse_details : Details → Result Details
parse_details d = do
  code ← text 2 32 d.code
  throw_if (not (is_code code)) bad_request
  title ← text 2 200 d.title
  description ← optional_text 10000 d.description
  site ← optional_text 160 d.site
  area ← optional_text 160 d.area
  origin ← text 2 80 d.origin
  reporter_name ← optional_text 160 d.reporter_name
  ok (record {
    code = code;
    title = title;
    description = description;
    occurred_at = d.occurred_at;
    site = site;
    area = area;
    origin = origin;
    reporter_name = reporter_name;
    reporter_email = d.reporter_email;
  })

abbrev hours_outside : Option ℕ → Bool
hours_outside none = false
hours_outside (some h) = ltb h 1 || ltb 720 h

-- `createEventSchema`
unfoldable pub parse_event : EventInput → Result EventInput
unfolding parse_details
parse_event r = do
  details ← parse_details r.details
  actual ← parse_class r.actual.value
  potential ← parse_class r.potential.value
  throw_if (hours_outside r.sla_hours) bad_request
  ok (record {
    details = details;
    actual = record { id = r.actual.id; value = actual };
    potential = record { id = r.potential.id; value = potential };
    sla_hours = r.sla_hours;
  })

pub record ActionInput : Type 0 where
  pub title : Text
  pub owner : Option Text
  pub due_at : Option ℕ

-- `eventActionSchema`
unfoldable pub parse_action : ActionInput → Result ActionInput
parse_action r = do
  title ← text 2 200 r.title
  owner ← optional_text 160 r.owner
  ok (record { title = title; owner = owner; due_at = r.due_at })
