-- ===== src/Members/Owners.antt =====
-- An organisation keeps an active owner.
use bash_builder.Prelude.{
  ℕ, ◌+◌, ◌≤◌, ◌≡◌, refl, sym, ap, ◌∙◌, subst, inl, inr, Bool, true, false, ◌==◌, is_none, List, [],
  ◌∷◌, Bool-cases, Result, ok, >>=-eq-ok, throw_if-eq-ok, ok-injective, Result-cases, after, arith,
  Identity, forbidden, bad_request,
}
use bash_builder.Prelude.Select.{select}
use bash_builder.Prelude.Table.{find_row, update_row}
use bash_builder.Contracts.Roles.{Role}
use bash_builder.Members.Service.{
  Membership, MemberInput, Tables, parse_member, assert_management_policy, is_active_owner,
  active_owners, member_updated, update_current_member, revoke_current_invitation, Call, update,
  revoke, handle, serve,
}

abbrev as_number : Bool → ℕ
as_number true = 1
as_number false = 0

active_owners-cons :
    (m : Membership) (ms : List Membership)
    → active_owners (m ∷ ms) ≡ as_number (is_active_owner m) + active_owners ms
unfolding active_owners select
active_owners-cons m ms = elim (Bool-cases (is_active_owner m)) [
  | inl hit ↦ rw hit (omega arith)
  | inr miss ↦ rw miss (omega arith)
]

-- An update moves the number of active owners by what it does to its row.
update_row-active_owners :
    (id : ℕ) (body : Membership → Result Membership) (ms ns : List Membership)
    → update_row (λ m. m.id) id body ms ≡ ok ns
    → (a : Membership) × (b : Membership) × (body a ≡ ok b)
      × (active_owners ns + as_number (is_active_owner a)
          ≡ active_owners ms + as_number (is_active_owner b))
unfolding update_row
update_row-active_owners id body [] ns e = cc
update_row-active_owners id body (m ∷ ms) ns e = elim (Bool-cases (m.id == id)) [
  | inl hit ↦
      let (b, ran, done) = >>=-eq-ok (body m) (λ y. ok (y ∷ ms)) (rw hit at e) in
      let whole = sym (ap active_owners (ok-injective done)) ∙ active_owners-cons b ms in
      (m, b, ran, omega (arith, whole, active_owners-cons m ms))
  | inr miss ↦
      let (rest, ran, done) =
        >>=-eq-ok (update_row (λ m. m.id) id body ms) (λ y. ok (m ∷ y)) (rw miss at e) in
      let (a, b, r, same) = update_row-active_owners id body ms rest ran in
      let whole = sym (ap active_owners (ok-injective done)) ∙ active_owners-cons m rest in
      (a, b, r, omega (arith, whole, same, active_owners-cons m ms))
]

-- A body that takes away an active owner has seen two.
member_updated-keeps :
    (actor : Role) (owners : ℕ) (input : MemberInput) (a b : Membership)
    → member_updated actor owners input a ≡ ok b
    → is_active_owner a ≡ true
    → is_active_owner b ≡ false
    → 2 ≤ owners
unfolding member_updated assert_management_policy
member_updated-keeps actor owners input a b e was gone = ground arith

-- What a call of `updateCurrentMember` that succeeds runs.
pub record Updated (who : Identity) (actor : Role) (target : ℕ) (t u : Tables) : Type 0 where
  pub input : MemberInput
  pub is_other : (target == who.membership) ≡ false
  pub ran :
      update_row (λ m. m.id) target (member_updated actor (active_owners t.members) input) t.members
      ≡ ok u.members

pub update_current_member-Updated :
    (who : Identity) (actor : Role) (target : ℕ) (raw : MemberInput) (t u : Tables)
    → update_current_member who actor target raw t ≡ ok u
    → Updated who actor target t u
unfolding update_current_member
update_current_member-Updated who actor target raw t u e =
    let (input, _, e₁) = >>=-eq-ok (parse_member raw) _ e in
    let (other, e₂) = throw_if-eq-ok (target == who.membership) forbidden _ e₁ in
    let (_, e₃) =
      throw_if-eq-ok (is_none (find_row (λ m. m.id) target t.members)) bad_request _ e₂ in
    let (ms, ran, done) =
      >>=-eq-ok
        (update_row (λ m. m.id) target (member_updated actor (active_owners t.members) input)
          t.members)
        _ e₃ in
    record {
      input = input;
      is_other = other;
      ran = ran ∙ ap ok (ap (λ (x : Tables). x.members) (ok-injective done));
    }

still_some :
    (was is : Bool) (n k : ℕ)
    → n + as_number was ≡ k + as_number is
    → (was ≡ true → is ≡ false → 2 ≤ k)
    → 1 ≤ k
    → 1 ≤ n
still_some true true n k counts two some_owner = omega arith
still_some true false n k counts two some_owner = omega (arith, two refl refl)
still_some false true n k counts two some_owner = omega arith
still_some false false n k counts two some_owner = omega arith

handle-owners :
    (who : Identity) (actor : Role) (now : ℕ) (call : Call) (t u : Tables)
    → 1 ≤ active_owners t.members
    → handle who actor now call t ≡ ok u
    → 1 ≤ active_owners u.members
unfolding handle revoke_current_invitation
handle-owners who actor now (revoke id) t u some_owner e =
    let same : u.members ≡ t.members = ground arith in
    subst (λ ms. 1 ≤ active_owners ms) (sym same) some_owner
handle-owners who actor now (update target raw) t u some_owner e =
    let up = update_current_member-Updated who actor target raw t u e in
    let (a, b, ran, counts) =
      update_row-active_owners target (member_updated actor (active_owners t.members) up.input)
        t.members u.members up.ran in
    still_some (is_active_owner a) (is_active_owner b) (active_owners u.members)
      (active_owners t.members) counts
      (member_updated-keeps actor (active_owners t.members) up.input a b ran) some_owner

-- An organisation that has an active owner has one after any history of changes to its members and
-- invitations, whoever makes them.
pub serve-active_owners :
    (t : Tables) (calls : List (Identity × Role × ℕ × Call))
    → 1 ≤ active_owners t.members
    → 1 ≤ active_owners (serve t calls).members
unfolding serve
serve-active_owners t [] some_owner = some_owner
serve-active_owners t ((who, actor, now, call) ∷ calls) some_owner =
    serve-active_owners (after t (handle who actor now call t)) calls
      (elim (Result-cases (handle who actor now call t)) [
        | inl (x, e) ↦ rw e some_owner
        | inr (u, e) ↦ rw e (handle-owners who actor now call t u some_owner e)
      ])
