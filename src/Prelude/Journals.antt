-- ===== src/Prelude/Journals.antt =====
-- apps/api/src/operations/operations.service.ts: who calls, and what `record` writes. The metadata
-- of an entry is left out.
use Prim.Native.Nat.{ℕ}
use Prim.Native.String.{String}
use mathlib.Core.Path.{◌≡◌, ap}
use mathlib.Core.List.{List, ◌∷◌, map}
use bash_builder.Prelude.Texts.{Text}

-- `SessionIdentity`, as far as the services read it; the role is read by the guards.
pub record Identity : Type 0 where
  pub user : ℕ
  pub email : Text
  pub organization : ℕ
  pub membership : ℕ

pub record AuditEntry : Type 0 where
  pub organization : ℕ
  pub actor : ℕ
  pub action : String
  pub resource_type : String
  pub resource : ℕ

pub record OutboxEntry : Type 0 where
  pub organization : ℕ
  pub aggregate : ℕ
  pub event_type : String

-- The tables `audit_logs` and `outbox_events` of a tenant, newest first.
pub record Journal : Type 0 where
  pub audit : List AuditEntry
  pub outbox : List OutboxEntry

-- `record`
unfoldable pub write : Identity → String → String → ℕ → Journal → Journal
write who action resource_type resource j = record {
  audit =
      record {
        organization = who.organization;
        actor = who.user;
        action = action;
        resource_type = resource_type;
        resource = resource;
      }
      ∷ j.audit;
  outbox =
      record { organization = who.organization; aggregate = resource; event_type = action }
      ∷ j.outbox;
}

-- The two tables tell the same: entry by entry, the same organisation, resource and action.
abbrev pub InSync : Journal → Type 0
InSync j =
    map {B = ℕ × ℕ × String} (λ a. (a.organization, a.resource, a.action)) j.audit
    ≡ map {B = ℕ × ℕ × String} (λ o. (o.organization, o.aggregate, o.event_type)) j.outbox

pub write-InSync :
    (who : Identity) (action resource_type : String) (resource : ℕ) (j : Journal)
    → InSync j
    → InSync (write who action resource_type resource j)
unfolding write
write-InSync who action resource_type resource j h =
    ap (λ (l : List (ℕ × ℕ × String)). (who.organization, resource, action) ∷ l) h
