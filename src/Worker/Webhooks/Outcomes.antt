-- ===== src/Worker/Webhooks/Outcomes.antt =====
-- How an attempt to deliver a webhook ends.
use bash_builder.Prelude.{◌≤◌, ◌≡◌, Bool, true, false, some, none, List, [], ◌∷◌}
use bash_builder.Worker.Webhooks.Reasons.{Reason, Found}
use bash_builder.Worker.Webhooks.Ready.{Ready}
use bash_builder.Worker.Retry.{retry_delay_seconds}
use bash_builder.Worker.Webhooks.Delivery.{
  Delivery, Prepared, Egress, posted, delivered, failed, World, Limits, is_success, body_of,
  signature_of,
}

-- The request that is sent, and the mark of a failure.
abbrev pub request : World → Delivery → Prepared → Egress
request w d p = posted p.endpoint (body_of w d) (signature_of w p.secret (body_of w d)) p.remaining

abbrev pub failure : Limits → Delivery → Egress
failure limits d =
    failed d.id d.lease_token (retry_delay_seconds d.attempt_count) limits.max_attempts

abbrev pub is_taken : World → Delivery → Prepared → Bool
is_taken w d p =
    is_success
      (w.status_of p.endpoint (body_of w d) (signature_of w p.secret (body_of w d)) p.remaining)

abbrev pub Fits : World → Limits → Delivery → Type 0
Fits w limits d = w.byte_length (body_of w d) ≤ limits.max_bytes

-- The ends of an attempt, by what it has done.
pub data Outcome (w : World) (limits : Limits) (d : Delivery) : List Egress → Type 0 where
  lost_at_once : w.first ≡ some false → Outcome w limits d []
  lost_later : Found w limits d → w.again ≡ some false → Outcome w limits d []
  refused : Reason w limits d → Outcome w limits d (failure limits d ∷ [])
  taken :
      (p : Prepared)
      → Ready w limits d p
      → Fits w limits d
      → is_taken w d p ≡ true
      → Outcome w limits d (request w d p ∷ delivered d.id d.lease_token ∷ [])
  unmarked :
      (p : Prepared)
      → Ready w limits d p
      → Fits w limits d
      → is_taken w d p ≡ true
      → w.marks ≡ none
      → Outcome w limits d (request w d p ∷ delivered d.id d.lease_token ∷ failure limits d ∷ [])
  rejected :
      (p : Prepared)
      → Ready w limits d p
      → Fits w limits d
      → is_taken w d p ≡ false
      → Outcome w limits d (request w d p ∷ failure limits d ∷ [])
