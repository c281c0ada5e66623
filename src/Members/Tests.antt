-- ===== src/Members/Tests.antt =====
-- Two owners and an administrator, and the theorems at them.
use bash_builder.Prelude.{
  ℕ, ◌≤◌, ◌≡◌, refl, none, some, List, [], ◌∷◌, ok, map, codes, Identity, after, arith,
}
use bash_builder.Prelude.Select.{select}
use bash_builder.Prelude.Table.{find_row, update_row}
use bash_builder.Contracts.Roles.{Role, owner, admin, member, viewer}
use bash_builder.Members.Service.{
  Membership, MemberInput, Tables, active, suspended, parse_member, assert_management_policy,
  active_owners, member_updated, update_current_member, invitation_revoked,
  revoke_current_invitation, Call, update, revoke, handle, serve,
}
use bash_builder.Members.Owners.{serve-active_owners}
use bash_builder.Members.Policy.{IsPermitted, update_current_member-IsPermitted}

-- Opens what a run of the service calls.
run : Unit {0}
unfolding serve handle update_current_member revoke_current_invitation invitation_revoked
    member_updated active_owners assert_management_policy parse_member find_row update_row select
run = tt

abbrev ann : Identity
ann = record { user = 1; email = codes "ann@x"; organization = 9; membership = 11 }

abbrev bob : Identity
bob = record { user = 2; email = codes "bob@x"; organization = 9; membership = 12 }

abbrev carl : Identity
carl = record { user = 3; email = codes "carl@x"; organization = 9; membership = 13 }

abbrev row : ℕ → ℕ → Role → Membership
row id user role = record { id = id; user = user; role = role; status = active }

abbrev start : Tables
start = record {
  members = row 11 1 owner ∷ row 12 2 owner ∷ row 13 3 admin ∷ row 14 4 viewer ∷ [];
  invitations =
      record { id = 5; role = admin; expires_at = 99; accepted_at = none; revoked_at = none } ∷ [];
}

abbrev demoted : MemberInput
demoted = record { role = some member; status = none }

abbrev calls : List (Identity × Role × ℕ × Call)
calls =
    (ann, owner, 1, update 12 demoted)
    ∷ (carl, admin, 2, update 11 demoted)
    ∷ (bob, owner, 3, update 11 (record { role = none; status = some suspended }))
    ∷ (carl, admin, 4, revoke 5)
    ∷ (carl, admin, 5, update 14 (record { role = some member; status = none }))
    ∷ []

members_after : map (λ m. m.role) (serve start calls).members ≡ owner ∷ member ∷ admin ∷ member ∷ []
unfolding run
members_after = refl

start-owners : 1 ≤ active_owners start.members
unfolding run
start-owners = omega arith

serve-active_owners_example : 1 ≤ active_owners (serve start calls).members
serve-active_owners_example = serve-active_owners start calls start-owners

abbrev promoted : Tables
promoted = after start (update_current_member carl admin 14 demoted start)

start-updated : update_current_member carl admin 14 demoted start ≡ ok promoted
unfolding run
start-updated = refl

start-found : find_row (λ m. m.id) 14 start.members ≡ some (row 14 4 viewer)
unfolding run
start-found = refl

update_current_member-IsPermitted_example :
    ((n : Membership) × (find_row (λ m. m.id) 14 promoted.members ≡ some n)
      × IsPermitted admin (row 14 4 viewer) n)
    × (find_row (λ m. m.id) 13 promoted.members ≡ find_row (λ m. m.id) 13 start.members)
update_current_member-IsPermitted_example =
    update_current_member-IsPermitted carl admin 14 demoted start promoted 14 (row 14 4 viewer)
      start-updated start-found
