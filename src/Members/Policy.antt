-- ===== src/Members/Policy.antt =====
-- What an administrator may do to members.
use bash_builder.Prelude.{
  ℕ, ◌≡◌, ◌≢◌, refl, ◌⊎◌, inl, inr, true, false, ◌==◌, some, ok, arith, Identity,
}
use bash_builder.Prelude.Table.{find_row, update_row-row, update_row-find_ne}
use bash_builder.Contracts.Roles.{Role, owner, admin, member, viewer}
use bash_builder.Members.Service.{
  Membership, MemberInput, Tables, is_below_admin, active_owners, assert_management_policy,
  member_updated, update_current_member,
}
use bash_builder.Members.Owners.{update_current_member-Updated}

-- A row that an actor has left alone, or was allowed to change.
abbrev pub IsPermitted : Role → Membership → Membership → Type 0
IsPermitted actor m n =
    (n ≡ m)
    ⊎ ((n.id ≡ m.id)
        × (n.user ≡ m.user)
        × ((actor ≡ owner) ⊎ ((is_below_admin m.role ≡ true) × (is_below_admin n.role ≡ true))))

keeps_id :
    (actor : Role) (owners : ℕ) (input : MemberInput) (m n : Membership)
    → member_updated actor owners input m ≡ ok n
    → n.id ≡ m.id
unfolding member_updated assert_management_policy
keeps_id actor owners input m n e = ground arith

not_self : (a b : ℕ) → (a == b) ≡ false → a ≢ b
not_self a b e p = ground (arith, e, p)

member_updated-IsPermitted :
    (actor : Role) (owners : ℕ) (input : MemberInput) (m n : Membership)
    → member_updated actor owners input m ≡ ok n
    → IsPermitted actor m n
unfolding member_updated assert_management_policy
member_updated-IsPermitted actor owners input m n e =
    inr (ground arith, ground arith, by_role actor refl)
  where
    by_role :
        (r : Role)
        → actor ≡ r
        → (actor ≡ owner) ⊎ ((is_below_admin m.role ≡ true) × (is_below_admin n.role ≡ true))
    by_role owner q = inl q
    by_role admin q = inr (ground (arith, e, q))
    by_role member q = inr (ground (arith, e, q))
    by_role viewer q = inr (ground (arith, e, q))

-- A change of a member that succeeds keeps every membership's row, identifier and user; the caller's
-- own row is the same; and unless the caller is an owner, a row that has changed was and is that of
-- a member or viewer: an administrator neither touches nor makes an owner or administrator.
pub update_current_member-IsPermitted :
    (who : Identity) (actor : Role) (target : ℕ) (raw : MemberInput) (t u : Tables) (id : ℕ)
    (m : Membership)
    → update_current_member who actor target raw t ≡ ok u
    → find_row (λ m. m.id) id t.members ≡ some m
    → ((n : Membership) × (find_row (λ m. m.id) id u.members ≡ some n) × IsPermitted actor m n)
      × (find_row (λ m. m.id) who.membership u.members
          ≡ find_row (λ m. m.id) who.membership t.members)
update_current_member-IsPermitted who actor target raw t u id m e f =
    let up = update_current_member-Updated who actor target raw t u e in
    let body = member_updated actor (active_owners t.members) up.input in
    let keeps : (a b : Membership) → body a ≡ ok b → b.id ≡ a.id =
      λ a b r. keeps_id actor (active_owners t.members) up.input a b r in
    let (n, there, how) =
      update_row-row (λ m. m.id) target id body keeps t.members u.members m up.ran f in
    (
      (
        n,
        there,
        elim how [
          | inl same ↦ inl same
          | inr ran ↦ member_updated-IsPermitted actor (active_owners t.members) up.input m n ran
        ],
      ),
      update_row-find_ne (λ m. m.id) target who.membership body keeps t.members u.members
          (λ p. not_self target who.membership up.is_other p) up.ran,
    )
