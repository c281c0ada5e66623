-- ===== src/Worker/Webhooks/Delivery.antt =====
-- `deliverOne` and what it calls. The runtime outside the repository is the record `World`: the
-- environment, the URL parser, the resolver, the database's procedures, the cryptography and the
-- answer of the receiver.
use bash_builder.Prelude.{
  ℕ, ◌-◌, Bool, true, false, not, ◌&&◌, ◌==◌, leb, ltb, Option, some, none, List, [], ◌∷◌, ◌++◌,
  any, is_none, is_empty, if◌then◌else◌, Text, trim, codes, text_eq, Result, ok, err, ◌>>=◌, ◌>>◌,
  throw_if, or_throw, internal,
}
use bash_builder.Worker.Retry.{retry_delay_seconds}
use bash_builder.Worker.Webhooks.Addresses.{is_public_webhook_address}

-- `WebhookDelivery`; the payload stands for its JSON.
pub record Delivery : Type 0 where
  pub id : ℕ
  pub organization : ℕ
  pub event : ℕ
  pub event_type : Text
  pub aggregate : ℕ
  pub occurred_at : ℕ
  pub payload : Text
  pub endpoint : Text
  pub secret_ref : Text
  pub attempt_count : ℕ
  pub lease_token : ℕ

-- The parts of a URL that the code reads.
pub record Url : Type 0 where
  pub protocol : Text
  pub username : Text
  pub password : Text
  pub port : Text
  pub search : Text
  pub fragment : Text
  pub hostname : Text

-- The object that `signedWebhookBody` turns into JSON.
pub record Body : Type 0 where
  pub event : ℕ
  pub event_type : Text
  pub schema_version : ℕ
  pub tenant : ℕ
  pub aggregate : ℕ
  pub occurred_at : ℕ
  pub payload : Text

pub record Endpoint : Type 0 where
  pub url : Url
  pub address : Text

-- What one attempt does outside. A request has the endpoint's address, a body and its signature, and
-- the time that it may take.
pub data Egress : Type 0 where
  posted : Endpoint → Text → Text → ℕ → Egress
  delivered : ℕ → ℕ → Egress
  failed : ℕ → ℕ → ℕ → ℕ → Egress

-- `none` stands for a promise that is rejected. The answers of `first` and `again` are those of the
-- two calls of `confirmWebhookDeliveryLease`; `resolved` is the time when the endpoint has been
-- resolved, counted from the start of the attempt.
pub record World : Type 0 where
  pub secret_of : Text → Option Text
  pub parse_url : Text → Option Url
  pub is_ip : Text → ℕ
  pub lookup : Text → Option (List Text)
  pub resolved : ℕ
  pub stringify : Body → Text
  pub hmac : Text → Text → Text
  pub byte_length : Text → ℕ
  pub status_of : Endpoint → Text → Text → ℕ → Option ℕ
  pub first : Option Bool
  pub again : Option Bool
  pub marks : Option Bool
  pub fails : Option Bool

-- `signedWebhookBody`: the body, and the signature for a secret.
unfoldable pub body_of : World → Delivery → Text
body_of w d = w.stringify (record {
  event = d.event;
  event_type = d.event_type;
  schema_version = 1;
  tenant = d.organization;
  aggregate = d.aggregate;
  occurred_at = d.occurred_at;
  payload = d.payload;
})

unfoldable pub signature_of : World → Text → Text → Text
signature_of w secret body = codes "sha256=" ++ w.hmac secret body

-- The limits of the worker's configuration.
pub record Limits : Type 0 where
  pub timeout_ms : ℕ
  pub max_bytes : ℕ
  pub max_attempts : ℕ

-- The test of `resolvePublicWebhookEndpoint` on the URL.
unfoldable pub is_allowed_url : (Text → ℕ) → Url → Bool
is_allowed_url is_ip url =
    text_eq url.protocol (codes "https:")
    && is_empty url.username
    && is_empty url.password
    && is_empty url.port
    && is_empty url.search
    && is_empty url.fragment
    && not (is_empty url.hostname)
    && (is_ip url.hostname == 0)

unfoldable pub first_public : (Text → ℕ) → Url → List Text → Result Endpoint
first_public is_ip url [] = err internal
first_public is_ip url (a ∷ addresses) = do
  throw_if (any (λ b. not (is_public_webhook_address is_ip b)) (a ∷ addresses)) internal
  ok (record { url = url; address = a })

-- `resolvePublicWebhookEndpoint`
unfoldable pub resolve_public_webhook_endpoint : World → Text → Result Endpoint
unfolding is_allowed_url first_public
resolve_public_webhook_endpoint w endpoint = do
  url ← or_throw (w.parse_url endpoint) internal
  throw_if (not (is_allowed_url w.is_ip url)) internal
  addresses ← or_throw (w.lookup url.hostname) internal
  first_public w.is_ip url addresses

abbrev pub is_success : Option ℕ → Bool
is_success none = false
is_success (some status) = leb 200 status && ltb status 300

-- `postWebhook`: what it sends, and whether it returns.
unfoldable pub post_webhook : World → ℕ → Endpoint → Text → Text → ℕ → List Egress × Bool
post_webhook w max_bytes endpoint body signature timeout =
    if ltb max_bytes (w.byte_length body) then ([], false) else (
      posted endpoint body signature timeout ∷ [],
      is_success (w.status_of endpoint body signature timeout),
    )

-- `!secret?.trim()`
abbrev pub is_blank : Text → Bool
is_blank s = is_empty (trim s)

-- `withinDeadline` on the resolver, and the time that it leaves.
unfoldable pub resolve_in_time : World → ℕ → Text → Result (Endpoint × ℕ)
unfolding resolve_public_webhook_endpoint
resolve_in_time w timeout endpoint = do
  throw_if (leb timeout w.resolved) internal
  found ← resolve_public_webhook_endpoint w endpoint
  ok (found, timeout - w.resolved)

-- What `deliverOne` has found out when it sends.
pub record Prepared : Type 0 where
  pub secret : Text
  pub endpoint : Endpoint
  pub remaining : ℕ

-- The `try` of `deliverOne` between the two tests of the lease, with the second.
unfoldable pub prepare_held : World → Limits → Delivery → Result (Option Prepared)
unfolding resolve_in_time
prepare_held w limits d = do
  secret ← or_throw (w.secret_of d.secret_ref) internal
  throw_if (is_blank secret) internal
  found ← resolve_in_time w limits.timeout_ms d.endpoint
  still ← or_throw w.again internal
  ok (
      if still
      then some (record { secret = secret; endpoint = found.0; remaining = found.1 })
      else none)

unfoldable pub prepare : World → Limits → Delivery → Result (Option Prepared)
unfolding prepare_held
prepare w limits d = do
  held ← or_throw w.first internal
  if held then prepare_held w limits d else ok none

-- The `catch` of `deliverOne`. Whether the procedure answers decides what the caller sees, which is
-- the second part.
abbrev pub mark_failed : World → Limits → Delivery → List Egress → List Egress × Bool
mark_failed w limits d before = (
  before
      ++ (failed d.id d.lease_token (retry_delay_seconds d.attempt_count) limits.max_attempts ∷ []),
  not (is_none w.fails),
)

-- `markWebhookDeliveryDelivered`; a lease that has been lost is only logged.
abbrev pub mark_delivered : World → Limits → Delivery → List Egress → List Egress × Bool
mark_delivered w limits d before =
    let after_call = before ++ (delivered d.id d.lease_token ∷ []) in
    if is_none w.marks then mark_failed w limits d after_call else (after_call, true)

unfoldable pub send : World → Limits → Delivery → Prepared → List Egress × Bool
unfolding post_webhook
send w limits d p =
    let body = body_of w d in
    let (sent, success) =
      post_webhook w limits.max_bytes p.endpoint body (signature_of w p.secret body) p.remaining in
    if success then mark_delivered w limits d sent else mark_failed w limits d sent

-- `deliverOne` after the second test of the lease, with the `catch`.
unfoldable pub conclude : World → Limits → Delivery → Result (Option Prepared) → List Egress × Bool
unfolding send
conclude w limits d (err e) = mark_failed w limits d []
conclude w limits d (ok none) = ([], true)
conclude w limits d (ok (some p)) = send w limits d p

-- `deliverOne`: its actions, and whether it returns.
unfoldable pub deliver_one : World → Limits → Delivery → List Egress × Bool
unfolding prepare conclude
deliver_one w limits d = conclude w limits d (prepare w limits d)

-- The loop of `dispatch` over the deliveries it has claimed, each with what the runtime answers to
-- it; a delivery whose failure cannot be marked ends it.
unfoldable pub deliver_all : Limits → List (World × Delivery) → List Egress
unfolding deliver_one
deliver_all limits [] = []
deliver_all limits ((w, d) ∷ rest) =
    let others = deliver_all limits rest in
    let (actions, returns) = deliver_one w limits d in
    if returns then actions ++ others else actions
