-- ===== src/Safety/Life.antt =====
-- What requests do to an event.
use bash_builder.Prelude.{
  ℕ, ◌+◌, ◌≡◌, refl, sym, ◌∙◌, subst, ◌⊎◌, inl, inr, Bool, false, ◌==◌, some, List, [], ◌∷◌, any,
  includes, text_eq, String, Result, ok, >>=-eq-ok, throw_if-eq-ok, ok-injective, Result-cases,
  after, arith, Identity, positive, internal,
}
use bash_builder.Prelude.Table.{find_row, update_row, update_row-row, find_row-fresh}
use bash_builder.Changes.Types.{EvidenceInput}
use bash_builder.Changes.Schema.{parse_evidence}
use bash_builder.Safety.Types.{
  EventStatus, draft, opened, in_review, resolved, closed, Event, Tables,
}
use bash_builder.Safety.Catalogue.{resolve_event_classifications}
use bash_builder.Safety.Schema.{ActionInput, EventInput, parse_action, parse_event}
use bash_builder.Safety.Service.{
  create_classification, update_classification, create_event, add_event_action,
  complete_event_action, add_event_attachment, transition_event, action_added, action_completed,
  attachment_added, event_moved, new_event, on_event, is_pending,
}
use bash_builder.Safety.Requests.{
  Call, classify, reclassify, create, add_action, complete_action, attach, transition, handle,
  serve,
}

-- The edges of the status diagram; an event is closed with no action pending.
pub data Moves (e : Event) : EventStatus → EventStatus → Type 0 where
  report : Moves e draft opened
  examine : Moves e opened in_review
  settle : Moves e opened resolved
  return : Moves e in_review opened
  resolve : Moves e in_review resolved
  reopen : Moves e resolved opened
  finish : any is_pending e.actions ≡ false → Moves e resolved closed

ruleset edges = (report, examine, settle, return, resolve, reopen, finish)

-- What no request changes of an event.
abbrev pub Fixed : Event → Event → Type 0
Fixed e f =
    (f.id ≡ e.id)
    × (f.details ≡ e.details)
    × (f.actual ≡ e.actual)
    × (f.potential ≡ e.potential)
    × (f.sla_due_at ≡ e.sla_due_at)

-- The stage stays, or moves along an edge with the version counted up and all else the same.
abbrev pub Progresses : Event → Event → Type 0
Progresses e f =
    Fixed e f
    × (((f.status ≡ e.status) × (f.version ≡ e.version))
        ⊎ (Moves e e.status f.status
            × (f.version ≡ e.version + 1)
            × (f.actions ≡ e.actions)
            × (f.attachments ≡ e.attachments)))

-- The bodies that a request runs on the row of its event.
data Body (now : ℕ) : (Event → Result Event) → Type 0 where
  action : (id : ℕ) (d : ActionInput) → Body now (action_added id d)
  completion : (id : ℕ) → Body now (action_completed now id)
  attachment :
      (id : ℕ) (d : EvidenceInput) (is_ready : Bool) → Body now (attachment_added id d is_ready)
  move : (target : EventStatus) (expected : ℕ) → Body now (event_moved target expected)

event_moved-Moves :
    (target : EventStatus) (expected : ℕ) (e f : Event)
    → event_moved target expected e ≡ ok f
    → Moves e e.status f.status
unfolding event_moved
event_moved-Moves target expected e f h = grind (arith, edges)

Body-Progresses :
    {now : ℕ} {body : Event → Result Event}
    → Body now body
    → (e f : Event) → body e ≡ ok f
    → Progresses e f
unfolding action_added action_completed attachment_added event_moved
Body-Progresses (Body.action id d) e f h = (ground arith, inl (ground arith))
Body-Progresses (Body.completion id) e f h = (ground arith, inl (ground arith))
Body-Progresses (Body.attachment id d is_ready) e f h = (ground arith, inl (ground arith))
Body-Progresses (Body.move target expected) e f h = (
  ground arith,
  inr (event_moved-Moves target expected e f h, ground arith, ground arith, ground arith),
)

-- After the request, the event of this identifier is there and has at most advanced.
abbrev AdvancedIn : ℕ → Event → Tables → Type 0
AdvancedIn id e u = (f : Event) × (find_row (λ e. e.id) id u.events ≡ some f) × Progresses e f

unmoved :
    (id : ℕ) (e : Event) (t u : Tables)
    → u.events ≡ t.events
    → find_row (λ e. e.id) id t.events ≡ some e
    → AdvancedIn id e u
unmoved id e t u same f = (e, rw same f, ((refl, refl, refl, refl, refl), inl (refl, refl)))

create-AdvancedIn :
    (who : Identity) (new : ℕ) (raw : EventInput) (t u : Tables) (id : ℕ) (e : Event)
    → create_event who new raw t ≡ ok u
    → find_row (λ e. e.id) id t.events ≡ some e
    → AdvancedIn id e u
unfolding create_event new_event
create-AdvancedIn who new raw t u id e h f =
    let (input, _, h₁) = >>=-eq-ok (parse_event raw) _ h in
    let (found, _, h₂) =
      >>=-eq-ok (resolve_event_classifications input.actual input.potential t.classifications) _
        h₁ in
    let (_, h₃) =
      throw_if-eq-ok (any (λ e. text_eq e.details.code input.details.code) t.events) internal _
        h₂ in
    let (fresh, h₄) = throw_if-eq-ok (any (λ e. e.id == new) t.events) internal _ h₃ in
    (
      e,
      subst (λ (x : Tables). find_row (λ e. e.id) id x.events ≡ some e) (ok-injective h₄)
          (find_row-fresh (λ e. e.id) id (new_event new who.user input found.0 found.1) t.events
            fresh f),
      ((refl, refl, refl, refl, refl), inl (refl, refl)),
    )

on_event-AdvancedIn :
    (who : Identity) (now event : ℕ) (body : Event → Result Event) (name resource_type : String)
    (resource : ℕ) (t u : Tables) (id : ℕ) (e : Event)
    → Body now body
    → on_event who event body name resource_type resource t ≡ ok u
    → find_row (λ e. e.id) id t.events ≡ some e
    → AdvancedIn id e u
on_event-AdvancedIn who now event body name resource_type resource t u id e b h f =
    let (rows, r, done) = >>=-eq-ok (update_row (λ e. e.id) event body t.events) _ h in
    let (g, there, how) =
      update_row-row (λ e. e.id) event id body (λ x y k. (Body-Progresses b x y k).0.0) t.events
        rows e r f in
    (
      g,
      subst (λ (x : Tables). find_row (λ e. e.id) id x.events ≡ some g) (ok-injective done) there,
      elim how [
        | inl same ↦
            subst (Progresses e) (sym same) ((refl, refl, refl, refl, refl), inl (refl, refl))
        | inr ran ↦ Body-Progresses b e g ran
      ],
    )

-- A request that succeeds keeps every event and leaves its details, classifications and deadline
-- alone. It also leaves its status and version alone, or it moves it along one edge of the status
-- diagram, counts its version up by one and keeps its actions and attachments; an event becomes
-- closed only when it is resolved and none of its actions is pending.
pub handle-Progresses :
    (who : Identity) (now : ℕ) (call : Call) (t u : Tables) (id : ℕ) (e : Event)
    → handle who now call t ≡ ok u
    → find_row (λ e. e.id) id t.events ≡ some e
    → (f : Event) × (find_row (λ e. e.id) id u.events ≡ some f) × Progresses e f
unfolding handle create_classification update_classification add_event_action complete_event_action
    add_event_attachment transition_event
handle-Progresses who now (classify new input) t u id e h f = unmoved id e t u (ground arith) f
handle-Progresses who now (reclassify c input) t u id e h f = unmoved id e t u (ground arith) f
handle-Progresses who now (create new input) t u id e h f =
    create-AdvancedIn who new input t u id e h f
handle-Progresses who now (add_action event new raw) t u id e h f =
    let (d, _, ran) = >>=-eq-ok (parse_action raw) _ h in
    on_event-AdvancedIn who now event _ _ _ new t u id e (Body.action new d) ran f
handle-Progresses who now (complete_action event a) t u id e h f =
    on_event-AdvancedIn who now event _ _ _ a t u id e (Body.completion a) h f
handle-Progresses who now (attach event new raw) t u id e h f =
    let (d, _, ran) = >>=-eq-ok (parse_evidence raw) _ h in
    on_event-AdvancedIn who now event _ _ _ new t u id e
      (Body.attachment new d (includes t.ready_files d.file)) ran f
handle-Progresses who now (transition event target expected) t u id e h f =
    let (version, _, ran) = >>=-eq-ok (positive expected) _ h in
    on_event-AdvancedIn who now event _ _ _ event t u id e (Body.move target version) ran f

closed-final : (e : Event) (s : EventStatus) → e.status ≡ closed → ¬ Moves e e.status s
closed-final e s c m = no (subst (λ x. Moves e x s) c m)
  where
    no : ¬ Moves e closed s
    no m = elim m [ ]

-- A closed event keeps its status, its version and what no request changes.
abbrev pub ClosedLike : Event → Event → Type 0
ClosedLike e f = Fixed e f × (f.status ≡ closed) × (f.version ≡ e.version)

Progresses-ClosedLike : (e f : Event) → e.status ≡ closed → Progresses e f → ClosedLike e f
Progresses-ClosedLike e f c (fixed, inl (s, v)) = (fixed, s ∙ c, v)
Progresses-ClosedLike e f c (fixed, inr (m, v, a, b)) = absurd (closed-final e f.status c m)

after-ClosedLike :
    (who : Identity) (now : ℕ) (call : Call) (t : Tables) (id : ℕ) (e : Event)
    → find_row (λ e. e.id) id t.events ≡ some e
    → e.status ≡ closed
    → (f : Event) × (find_row (λ e. e.id) id (after t (handle who now call t)).events ≡ some f)
      × ClosedLike e f
after-ClosedLike who now call t id e there c = elim (Result-cases (handle who now call t)) [
  | inl (x, h) ↦ (e, rw h there, ((refl, refl, refl, refl, refl), c, refl))
  | inr (u, h) ↦
      let (f, g, a) = handle-Progresses who now call t u id e h there in
      (f, rw h g, Progresses-ClosedLike e f c a)
]

ClosedLike-then : (e f g : Event) → ClosedLike e f → ClosedLike f g → ClosedLike e g
ClosedLike-then e f g p q =
    ((q.0.0 ∙ p.0.0, q.0.1 ∙ p.0.1, q.0.2 ∙ p.0.2, q.0.3 ∙ p.0.3, q.0.4 ∙ p.0.4), q.1, q.2 ∙ p.2)

-- An event that is closed stays closed under any further history of requests, with the version that
-- it was closed with, its details, its classifications and its deadline.
pub serve-closed :
    (t : Tables) (calls : List (Identity × ℕ × Call)) (id : ℕ) (e : Event)
    → find_row (λ e. e.id) id t.events ≡ some e
    → e.status ≡ closed
    → (f : Event) × (find_row (λ e. e.id) id (serve t calls).events ≡ some f) × ClosedLike e f
unfolding serve
serve-closed t [] id e there c = (e, there, ((refl, refl, refl, refl, refl), c, refl))
serve-closed t ((who, now, call) ∷ calls) id e there c =
    let (f, g, k) = after-ClosedLike who now call t id e there c in
    let (l, m, n) = serve-closed (after t (handle who now call t)) calls id f g k.1 in
    (l, m, ClosedLike-then e f l k n)
