-- ===== src/Worker/Tests.antt =====
-- A batch of which the second event is refused by the broker, and the theorems at it.
use bash_builder.Prelude.{ℕ, ◌≤◌, ◌≡◌, refl, Bool, true, not, ◌==◌, List, [], ◌∷◌, codes}
use bash_builder.Worker.Retry.{retry_delay_seconds, retry_delay_seconds_lem}
use bash_builder.Worker.Outbox.{Claimed, sent, published, failed, dispatch}
use bash_builder.Worker.Batches.{Splits, dispatch-Splits}

abbrev event : ℕ → ℕ → Claimed
event id attempts = record {
  id = id;
  event_type = codes "change.created";
  schema_version = 1;
  attempt_count = attempts;
}

abbrev batch : List Claimed
batch = event 1 1 ∷ event 2 3 ∷ event 3 1 ∷ []

abbrev not_two : Claimed → Bool
not_two e = not (e.id == 2)

abbrev always : Claimed → Bool
always e = true

batch_effects : dispatch not_two always always 8 batch ≡ sent 1 ∷ published 1 ∷ failed 2 20 8 ∷ []
unfolding dispatch retry_delay_seconds
batch_effects = refl

dispatch-Splits_example : Splits not_two always always 8 batch
dispatch-Splits_example = dispatch-Splits not_two always always 8 batch

retry_delay_seconds_lem_example :
    (retry_delay_seconds 3 ≡ 20) × (5 ≤ retry_delay_seconds 3) × (retry_delay_seconds 3 ≤ 2560)
retry_delay_seconds_lem_example = retry_delay_seconds_lem 3
