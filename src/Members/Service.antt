-- ===== src/Members/Service.antt =====
-- `updateCurrentMember` and `revokeCurrentInvitation`. The role of the caller is that of the session;
-- `updateCurrentMember` takes a lock of the organisation, so calls of it are atomic steps.
use bash_builder.Prelude.{
  or_else, ℕ, ◌==◌, leb, Bool, true, false, not, ◌&&◌, ◌||◌, Option, some, is_none, List, [], ◌∷◌,
  length, Result, ok, ◌>>=◌, ◌>>◌, throw_if, after, bad_request, forbidden, conflict, Identity,
}
use bash_builder.Prelude.Select.{select}
use bash_builder.Prelude.Table.{find_row, update_row}
use bash_builder.Contracts.Roles.{Role, owner, admin, member, viewer}

pub data Status : Type 0 where
  active suspended : Status

abbrev pub is_active : Status → Bool
is_active active = true
is_active suspended = false

abbrev pub is_owner : Role → Bool
is_owner owner = true
is_owner _ = false

abbrev pub is_admin : Role → Bool
is_admin admin = true
is_admin _ = false

-- `role === 'MEMBER' || role === 'VIEWER'`
abbrev pub is_below_admin : Role → Bool
is_below_admin member = true
is_below_admin viewer = true
is_below_admin _ = false

pub record Membership : Type 0 where
  pub id : ℕ
  pub user : ℕ
  pub role : Role
  pub status : Status

pub record Invitation : Type 0 where
  pub id : ℕ
  pub role : Role
  pub expires_at : ℕ
  pub accepted_at : Option ℕ
  pub revoked_at : Option ℕ

pub record Tables : Type 0 where
  pub members : List Membership
  pub invitations : List Invitation

pub record MemberInput : Type 0 where
  pub role : Option Role
  pub status : Option Status

-- `updateMemberSchema`
unfoldable pub parse_member : MemberInput → Result MemberInput
parse_member r = do throw_if (is_none r.role && is_none r.status) bad_request; ok r

-- `assertManagementPolicy`
unfoldable pub assert_management_policy : Role → Role → Role → Result (Unit {0})
assert_management_policy actor target requested =
    throw_if
      (not (is_owner actor) && (not (is_below_admin target) || not (is_below_admin requested)))
      forbidden

abbrev pub is_active_owner : Membership → Bool
is_active_owner m = is_owner m.role && is_active m.status

unfoldable pub active_owners : List Membership → ℕ
active_owners ms = length (select is_active_owner ms)

-- The part of `updateCurrentMember` after the target has been found.
unfoldable pub member_updated : Role → ℕ → MemberInput → Membership → Result Membership
unfolding assert_management_policy
member_updated actor owners input m = do
  let role = or_else input.role m.role
  let status = or_else input.status m.status
  assert_management_policy actor m.role role
  throw_if (is_owner m.role && (not (is_owner role) || not (is_active status)) && leb owners 1)
      conflict
  ok (record m { role = role; status = status })

-- `updateCurrentMember`
unfoldable pub update_current_member : Identity → Role → ℕ → MemberInput → Tables → Result Tables
unfolding member_updated
update_current_member who actor target raw t = do
  input ← parse_member raw
  throw_if (target == who.membership) forbidden
  throw_if (is_none (find_row (λ m. m.id) target t.members)) bad_request
  members ←
      update_row (λ m. m.id) target (member_updated actor (active_owners t.members) input) t.members
  ok (record t { members = members })

unfoldable pub invitation_revoked : Role → ℕ → Invitation → Result Invitation
invitation_revoked actor now i = do
  throw_if (not (is_none i.accepted_at && is_none i.revoked_at)) bad_request
  throw_if (is_admin actor && (is_owner i.role || is_admin i.role)) forbidden
  ok (record i { revoked_at = some now })

-- `revokeCurrentInvitation`
unfoldable pub revoke_current_invitation : Role → ℕ → ℕ → Tables → Result Tables
unfolding invitation_revoked
revoke_current_invitation actor now id t = do
  throw_if (is_none (find_row (λ i. i.id) id t.invitations)) bad_request
  invitations ← update_row (λ i. i.id) id (invitation_revoked actor now) t.invitations
  ok (record t { invitations = invitations })

pub data Call : Type 0 where
  update : ℕ → MemberInput → Call
  revoke : ℕ → Call

unfoldable pub handle : Identity → Role → ℕ → Call → Tables → Result Tables
handle who actor now (update target input) = update_current_member who actor target input
handle who actor now (revoke id) = revoke_current_invitation actor now id

-- Requests in the order of their transactions; one that throws leaves the tables as they were.
unfoldable pub serve : Tables → List (Identity × Role × ℕ × Call) → Tables
serve t [] = t
serve t ((who, actor, now, call) ∷ calls) = serve (after t (handle who actor now call t)) calls
