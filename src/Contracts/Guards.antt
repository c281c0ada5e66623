-- ===== src/Contracts/Guards.antt =====
-- apps/api/src/identity: `CapabilityGuard` and `MembershipRoleGuard`. The capabilities and roles that
-- a handler declares by a decorator are an argument; a handler with no decorator has the empty list.
mod Tests
use bash_builder.Prelude.{
  ℕ, ◌≤◌, ◌≡◌, ◌↔◌, refl, Bool, true, false, not, ◌||◌, List, [], ◌∷◌, arith, ◌==◌, all, any, All,
  if◌then◌else◌, Result, ok, err, forbidden, Bool-cases, inl, inr,
}
use bash_builder.Contracts.Roles.{
  Role, owner, admin, member, viewer, Capability, organization_manage, role_capabilities,
  has_capability,
}

abbrev pub role_rank : Role → ℕ
role_rank owner = 3
role_rank admin = 2
role_rank member = 1
role_rank viewer = 0

-- `CapabilityGuard.canActivate`
unfoldable pub capability_guard : List Capability → Role → Result Bool
capability_guard [] role = ok true
capability_guard (c ∷ cs) role =
    if not (all (has_capability role) (c ∷ cs)) then err forbidden else ok true

-- `MembershipRoleGuard.canActivate`
unfoldable pub role_guard : List Role → Role → Result Bool
role_guard [] role = ok true
role_guard (r ∷ rs) role =
    if not (any (λ x. role_rank x == role_rank role) (r ∷ rs)) then err forbidden else ok true

-- A role of a higher rank has every capability of a lower one: the table is a hierarchy.
pub has_capability_mono :
    (low high : Role) (c : Capability)
    → role_rank low ≤ role_rank high
    → has_capability low c ≡ true
    → has_capability high c ≡ true
unfolding has_capability
has_capability_mono viewer viewer c le h = h
has_capability_mono viewer member c le h = ground arith
has_capability_mono viewer admin c le h = ground arith
has_capability_mono viewer owner c le h = ground arith
has_capability_mono member member c le h = h
has_capability_mono member admin c le h = ground arith
has_capability_mono member owner c le h = ground arith
has_capability_mono admin admin c le h = h
has_capability_mono admin owner c le h = ground arith
has_capability_mono owner owner c le h = h
has_capability_mono _ _ c le h = absurd (omega arith)

all-has_capability_mono :
    (low high : Role) (cs : List Capability)
    → role_rank low ≤ role_rank high
    → all (has_capability low) cs ≡ true
    → all (has_capability high) cs ≡ true
all-has_capability_mono low high [] le h = refl
all-has_capability_mono low high (c ∷ cs) le h =
    ground (arith, has_capability_mono low high c le, all-has_capability_mono low high cs le)

-- What `CapabilityGuard` lets a role do, it lets every role of the same or a higher rank do.
pub capability_guard_mono :
    (low high : Role) (required : List Capability)
    → role_rank low ≤ role_rank high
    → capability_guard required low ≡ ok true
    → capability_guard required high ≡ ok true
unfolding capability_guard
capability_guard_mono low high [] le h = refl
capability_guard_mono low high (c ∷ cs) le h =
    ground (arith, all-has_capability_mono low high (c ∷ cs) le)

-- Only an owner passes a guard for `organization.manage`, whatever else the handler asks for;
-- every other capability of the table is held by administrators too.
pub admin-lacks_only_organization_manage :
    (c : Capability) → (has_capability admin c ≡ false) ↔ (c ≡ organization_manage)
unfolding has_capability
admin-lacks_only_organization_manage c = ground arith
