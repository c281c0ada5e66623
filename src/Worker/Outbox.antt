-- ===== src/Worker/Outbox.antt =====
-- `dispatch` and `publishOne` of the outbox. Kafka and the SQL procedures are parameters: whether they
-- answer for an event.
use bash_builder.Prelude.{
  ℕ, Bool, true, false, not, ◌&&◌, ◌==◌, leb, List, [], ◌∷◌, ◌++◌, length, if◌then◌else◌, Text,
}
use bash_builder.Worker.Retry.{retry_delay_seconds}

-- An event that `claim_outbox_events` returned. Identifiers and times have their columns' types.
pub record Claimed : Type 0 where
  pub id : ℕ
  pub event_type : Text
  pub schema_version : ℕ
  pub attempt_count : ℕ

-- What the worker did outside: sent to the broker, or marked in the database.
pub data Effect : Type 0 where
  sent published : ℕ → Effect
  failed : ℕ → ℕ → ℕ → Effect

-- `outboxEventSchema`
unfoldable pub accepts : Claimed → Bool
accepts e = leb 3 (length e.event_type) && leb (length e.event_type) 120 && (e.schema_version == 1)

-- `sends`: the broker takes the message; `marks` and `fails`: the procedures of the database answer.
module _ (sends marks fails : Claimed → Bool) (max_attempts : ℕ) where
  -- The `catch` of `publishOne`, which throws again.
  abbrev give_up : Claimed → List Effect → List Effect × Bool
  give_up e before = (
    before
        ++ (if fails e
            then failed e.id (retry_delay_seconds e.attempt_count) max_attempts ∷ []
            else []),
    false,
  )

  -- What `publishOne` does, and whether it returns.
  unfoldable pub publish_one : Claimed → List Effect × Bool
  unfolding accepts
  publish_one e =
      if not (accepts e)
      then give_up e []
      else if not (sends e)
      then give_up e []
      else if not (marks e)
      then give_up e (sent e.id ∷ [])
      else (sent e.id ∷ published e.id ∷ [], true)

  -- The loop of `dispatch` on a batch: an event that throws ends it.
  unfoldable pub dispatch : List Claimed → List Effect
  unfolding publish_one
  dispatch [] = []
  dispatch (e ∷ es) =
      let rest = dispatch es in
      let (effects, returns) = publish_one e in if returns then effects ++ rest else effects

  abbrev pub answers : Claimed → Bool
  answers e = accepts e && sends e && marks e

-- What is left behind by events that went through.
abbrev pub delivered : List Claimed → List Effect
delivered [] = []
delivered (e ∷ es) = sent e.id ∷ published e.id ∷ delivered es

-- What an event that did not go through may leave: a message, and a mark of its failure.
abbrev pub is_setback : Claimed → Effect → Bool
is_setback e (sent i) = i == e.id
is_setback e (published i) = false
is_setback e (failed i delay limit) = (i == e.id) && (delay == retry_delay_seconds e.attempt_count)
