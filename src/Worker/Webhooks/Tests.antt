-- ===== src/Worker/Webhooks/Tests.antt =====
-- A resolver that knows one host, and the theorems at it.
use bash_builder.Prelude.{
  ℕ, ◌<◌, ◌≡◌, refl, ap₂, ◌∙◌, inl, inr, true, false, not, some, List, [], ◌∷◌, if◌then◌else◌,
  Bool-cases, Text, text_eq, trim, codes, length, arith,
}
use bash_builder.Worker.Retry.{retry_delay_seconds}
use bash_builder.Worker.Webhooks.Addresses.{
  split_dots, number_from, octets_from, ipv4_to_number, prefix_mask, in_ipv4_range,
  is_public_webhook_address,
}
use bash_builder.Worker.Webhooks.Dotted.{decimal, dotted}
use bash_builder.Worker.Webhooks.Public.{is_special, is_public_webhook_address_lem}
use bash_builder.Worker.Webhooks.Delivery.{
  Delivery, Url, Endpoint, World, Limits, posted, delivered, failed, is_allowed_url, first_public,
  resolve_public_webhook_endpoint, post_webhook, resolve_in_time, prepare_held, prepare, send,
  conclude, deliver_one, deliver_all, body_of, signature_of,
}

-- Opens what a run of the dispatcher calls.
run : Unit {0}
unfolding deliver_all deliver_one body_of signature_of conclude send prepare prepare_held
    resolve_in_time post_webhook resolve_public_webhook_endpoint first_public is_allowed_url
    is_public_webhook_address in_ipv4_range prefix_mask ipv4_to_number octets_from number_from
    split_dots retry_delay_seconds trim
run = tt

abbrev here : Text
here = codes "93.184.216.34"

abbrev inside : Text
inside = codes "10.1.2.3"

-- `isIP` on the two addresses that the tests use.
abbrev is_ip : Text → ℕ
is_ip s = if text_eq s here then 4 else if text_eq s inside then 4 else 0

text_eq-same : (s t : Text) → text_eq s t ≡ true → s ≡ t
text_eq-same [] [] h = refl
text_eq-same [] (y ∷ t) h = cc
text_eq-same (x ∷ s) [] h = cc
text_eq-same (x ∷ s) (y ∷ t) h =
    ap₂ (λ (c : ℕ) (l : Text). c ∷ l) (ground (arith, h)) (text_eq-same s t (ground (arith, h)))

no_address : (s : Text) → text_eq s here ≡ false → text_eq s inside ≡ false → is_ip s ≡ 0
no_address s p q = rw (p, q) refl

here-dotted : here ≡ dotted 93 184 216 34
unfolding dotted decimal
here-dotted = refl

inside-dotted : inside ≡ dotted 10 1 2 3
unfolding dotted decimal
inside-dotted = refl

abbrev Octets : Text → Type 0
Octets s =
    (a : ℕ) × (b : ℕ) × (c : ℕ) × (d : ℕ) × (a < 256)
    × (b < 256)
    × (c < 256)
    × (d < 256)
    × (s ≡ dotted a b c d)

zero_four : (n : ℕ) → n ≡ 0 → n ≡ 4 → ⊥
zero_four n p q = omega (arith, p, q)

documented : (s : Text) → is_ip s ≡ 4 → Octets s
documented s four = elim (Bool-cases (text_eq s here)) [
  | inl hit ↦ (
    93,
    184,
    216,
    34,
    omega arith,
    omega arith,
    omega arith,
    omega arith,
    text_eq-same s here hit ∙ here-dotted,
  )
  | inr miss ↦ elim (Bool-cases (text_eq s inside)) [
    | inl hit ↦ (
      10,
      1,
      2,
      3,
      omega arith,
      omega arith,
      omega arith,
      omega arith,
      text_eq-same s inside hit ∙ inside-dotted,
    )
    | inr other ↦ absurd (zero_four (is_ip s) (no_address s miss other) four)
  ]
]

is_public_webhook_address_lem_example :
    (a : ℕ) × (b : ℕ) × (c : ℕ) × (d : ℕ) × (inside ≡ dotted a b c d)
    × (is_public_webhook_address is_ip inside ≡ not (is_special a b c))
is_public_webhook_address_lem_example = is_public_webhook_address_lem is_ip documented inside refl

here_public : is_public_webhook_address is_ip here ≡ true
unfolding run
here_public = refl

inside_private : is_public_webhook_address is_ip inside ≡ false
unfolding run
inside_private = refl

-- The last address before the private block 172.16.0.0/12, and its last address.
around_private :
    (in_ipv4_range (codes "172.15.255.255") (codes "172.16.0.0") 12 ≡ false)
    × (in_ipv4_range (codes "172.31.255.255") (codes "172.16.0.0") 12 ≡ true)
unfolding run
around_private = (refl, refl)

abbrev url : Url
url = record {
  protocol = codes "https:";
  username = [];
  password = [];
  port = [];
  search = [];
  fragment = [];
  hostname = codes "hooks.example";
}

-- A receiver at these addresses that answers with this status.
abbrev world : List Text → ℕ → World
world addresses status = record {
  secret_of = λ name. some (codes "secret");
  parse_url = λ endpoint. some url;
  is_ip = is_ip;
  lookup = λ host. some addresses;
  resolved = 20;
  stringify = λ body. codes "{}";
  hmac = λ secret body. codes "0";
  byte_length = λ body. length body;
  status_of = λ endpoint body signature timeout. some status;
  first = some true;
  again = some true;
  marks = some true;
  fails = some true;
}

abbrev limits : Limits
limits = record { timeout_ms = 5000; max_bytes = 262144; max_attempts = 8 }

abbrev delivery : Delivery
delivery = record {
  id = 1;
  organization = 9;
  event = 2;
  event_type = codes "change.created";
  aggregate = 3;
  occurred_at = 4;
  payload = codes "{}";
  endpoint = codes "https://hooks.example/";
  secret_ref = codes "HOOK";
  attempt_count = 3;
  lease_token = 7;
}

abbrev target : Endpoint
target = record { url = url; address = here }

deliver_all_ends :
    deliver_all limits (
      (world (here ∷ []) 204, delivery)
      ∷ (world (here ∷ []) 500, delivery)
      ∷ (world (here ∷ inside ∷ []) 204, delivery)
      ∷ [])
    ≡ posted target (codes "{}") (codes "sha256=0") 4980
      ∷ delivered 1 7
      ∷ posted target (codes "{}") (codes "sha256=0") 4980
      ∷ failed 1 7 20 8
      ∷ failed 1 7 20 8
      ∷ []
unfolding run
deliver_all_ends = refl
