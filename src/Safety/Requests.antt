-- ===== src/Safety/Requests.antt =====
-- One request on events or classifications, and a history of them.
use bash_builder.Prelude.{ℕ, List, [], ◌∷◌, Result, after, Identity}
use bash_builder.Changes.Types.{EvidenceInput}
use bash_builder.Safety.Types.{EventStatus, Tables}
use bash_builder.Safety.Schema.{ClassificationInput, ClassificationUpdate, EventInput, ActionInput}
use bash_builder.Safety.Service.{
  create_classification, update_classification, create_event, add_event_action,
  complete_event_action, add_event_attachment, transition_event,
}

pub data Call : Type 0 where
  classify : ℕ → ClassificationInput → Call
  reclassify : ℕ → ClassificationUpdate → Call
  create : ℕ → EventInput → Call
  add_action : ℕ → ℕ → ActionInput → Call
  complete_action : ℕ → ℕ → Call
  attach : ℕ → ℕ → EvidenceInput → Call
  transition : ℕ → EventStatus → ℕ → Call

unfoldable pub handle : Identity → ℕ → Call → Tables → Result Tables
handle who now (classify id input) = create_classification who id input
handle who now (reclassify id input) = update_classification who id input
handle who now (create id input) = create_event who id input
handle who now (add_action event id input) = add_event_action who event id input
handle who now (complete_action event id) = complete_event_action who now event id
handle who now (attach event id input) = add_event_attachment who event id input
handle who now (transition event target expected) = transition_event who event target expected

-- Requests in the order of their transactions; one that throws leaves the tables as they were.
unfoldable pub serve : Tables → List (Identity × ℕ × Call) → Tables
serve t [] = t
serve t ((who, now, call) ∷ calls) = serve (after t (handle who now call t)) calls
