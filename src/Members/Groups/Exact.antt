-- ===== src/Members/Groups/Exact.antt =====
-- A group gets exactly the members that are asked for.
use bash_builder.Prelude.{
  ℕ, ◌+◌, ◌≡◌, ◌↔◌, refl, sym, ap, ◌∙◌, subst, inl, inr, Bool, true, false, not, ◌&&◌, ◌==◌, ==_iff,
  some, is_none, List, [], ◌∷◌, map, includes, length, Bool-cases, ok, >>=-eq-ok, throw_if-eq-ok,
  ok-injective, bad_request, Identity, arith, positive,
}
use bash_builder.Prelude.Table.{find_row, update_row, update_row-find}
use bash_builder.Prelude.Select.{select}
use bash_builder.Members.Service.{Membership, is_active}
use bash_builder.Members.Groups.Service.{
  Group, GroupTables, MembersInput, are_distinct, parse_members, chosen_members, members_replaced,
  replace_group_members,
}
use bash_builder.Members.Groups.Counting.{all_of_them}

-- The identifiers of the memberships are different, as a primary key is.
abbrev pub AreKeyed : List Membership → Type 0
AreKeyed ms = are_distinct (map (λ m. m.id) ms) ≡ true

-- Every number of a list is the identifier of an active membership.
abbrev pub AreActive : List Membership → List ℕ → Type 0
AreActive ms ids =
    (z : ℕ)
    → includes ids z ≡ true
    → (m : Membership) × (find_row (λ m. m.id) z ms ≡ some m) × (is_active m.status ≡ true)

chosen_members-asked :
    (ids : List ℕ) (ms : List Membership) (z : ℕ)
    → includes (chosen_members ids ms) z ≡ true
    → includes ids z ≡ true
unfolding chosen_members select
chosen_members-asked ids [] z h = cc
chosen_members-asked ids (m ∷ ms) z h =
    elim (Bool-cases (includes ids m.id && is_active m.status)) [
      | inr miss ↦ chosen_members-asked ids ms z (rw miss at h)
      | inl hit ↦ elim (Bool-cases (m.id == z)) [
        | inl this ↦
            subst (λ v. includes ids v ≡ true) ((==_iff m.id z).0 this) (ground (arith, hit))
        | inr other ↦ chosen_members-asked ids ms z (rw (hit, other) at h)
      ]
    ]

chosen_members-known :
    (ids : List ℕ) (ms : List Membership) (z : ℕ)
    → includes (map (λ m. m.id) ms) z ≡ false
    → includes (chosen_members ids ms) z ≡ false
unfolding chosen_members select
chosen_members-known ids [] z h = refl
chosen_members-known ids (m ∷ ms) z h =
    let rest = chosen_members-known ids ms z (ground (arith, h)) in
    let other : (m.id == z) ≡ false = ground (arith, h) in
    elim (Bool-cases (includes ids m.id && is_active m.status)) [
      | inr miss ↦ rw (miss, rest) refl
      | inl hit ↦ rw (hit, other, rest) refl
    ]

chosen_members-distinct :
    (ids : List ℕ) (ms : List Membership)
    → AreKeyed ms
    → are_distinct (chosen_members ids ms) ≡ true
unfolding chosen_members select are_distinct
chosen_members-distinct ids [] h = refl
chosen_members-distinct ids (m ∷ ms) h =
    let rest = chosen_members-distinct ids ms (ground (arith, h)) in
    let new = chosen_members-known ids ms m.id (ground (arith, h)) in
    elim (Bool-cases (includes ids m.id && is_active m.status)) [
      | inr miss ↦ rw (miss, rest) refl
      | inl hit ↦ rw (hit, new, rest) refl
    ]

chosen_members-AreActive :
    (ids : List ℕ) (ms : List Membership) → AreKeyed ms → AreActive ms (chosen_members ids ms)
unfolding chosen_members select are_distinct find_row
chosen_members-AreActive ids [] keyed z h = cc
chosen_members-AreActive ids (m ∷ ms) keyed z h =
    let later = chosen_members-AreActive ids ms (ground (arith, keyed)) z in
    elim (Bool-cases (includes ids m.id && is_active m.status)) [
      | inr miss ↦
          let inside : includes (chosen_members ids ms) z ≡ true = rw miss at h in
          elim (Bool-cases (m.id == z)) [
            | inr other ↦ rw other (later inside)
            | inl this ↦ absurd (
                both (includes (chosen_members ids ms) z)
                  (chosen_members-known ids ms z (
                    subst (λ v. includes (map (λ m. m.id) ms) v ≡ false) ((==_iff m.id z).0 this)
                      (ground (arith, keyed))))
                  inside)
          ]
      | inl hit ↦ elim (Bool-cases (m.id == z)) [
        | inl this ↦ rw this (m, refl, ground (arith, hit))
        | inr other ↦ rw other (later (rw (hit, other) at h))
      ]
    ]
  where
    both : (b : Bool) → b ≡ false → b ≡ true → ⊥
    both b p q = cc

parse_members-distinct :
    (raw d : MembersInput)
    → parse_members raw ≡ ok d
    → (d.ids ≡ raw.ids) × (are_distinct raw.ids ≡ true)
unfolding parse_members positive
parse_members-distinct raw d e = ground (arith, e)

of_count : (xs ys : List ℕ) → not (length xs == length ys) ≡ false → length xs ≡ length ys
of_count xs ys h = ground (arith, h)

members_replaced-fields :
    (expected : ℕ) (chosen : List ℕ) (a b : Group)
    → members_replaced expected chosen a ≡ ok b
    → (b.id ≡ a.id) × (b.version ≡ a.version + 1) × (b.members ≡ chosen)
unfolding members_replaced
members_replaced-fields expected chosen a b e = ground (arith, e)

-- The choice is what was asked for if none is missing.
chosen_members-exact :
    (ids : List ℕ) (ms : List Membership)
    → AreKeyed ms
    → are_distinct ids ≡ true
    → length (chosen_members ids ms) ≡ length ids
    → (z : ℕ) → (includes (chosen_members ids ms) z ≡ true) ↔ (includes ids z ≡ true)
chosen_members-exact ids ms keyed distinct full z = (
  chosen_members-asked ids ms z,
  all_of_them (chosen_members ids ms) ids (chosen_members-distinct ids ms keyed) distinct
      (chosen_members-asked ids ms) (omega (arith, full)) z,
)

-- A replacement of a group's members that succeeds leaves the group with exactly the members that
-- were asked for, each of them an active member of the organisation, and counts its version up; the
-- identifiers of memberships are different.
pub replace_group_members_lem :
    (who : Identity) (id : ℕ) (raw : MembersInput) (t u : GroupTables)
    → AreKeyed t.members
    → replace_group_members who id raw t ≡ ok u
    → (g : Group) × (h : Group) × (find_row (λ g. g.id) id t.groups ≡ some g)
      × (find_row (λ g. g.id) id u.groups ≡ some h)
      × (h.version ≡ g.version + 1)
      × ((z : ℕ) → (includes h.members z ≡ true) ↔ (includes raw.ids z ≡ true))
      × AreActive u.members h.members
unfolding replace_group_members
replace_group_members_lem who id raw t u keyed e =
    let (d, parsed, e₁) = >>=-eq-ok (parse_members raw) _ e in
    let (same, distinct) = parse_members-distinct raw d parsed in
    let (_, e₂) = throw_if-eq-ok (is_none (find_row (λ g. g.id) id t.groups)) bad_request _ e₁ in
    let chosen = chosen_members d.ids t.members in
    let (full, e₃) = throw_if-eq-ok (not (length chosen == length d.ids)) bad_request _ e₂ in
    let body = members_replaced d.expected_version chosen in
    let (groups, ran, done) = >>=-eq-ok (update_row (λ g. g.id) id body t.groups) _ e₃ in
    let fields = members_replaced-fields d.expected_version chosen in
    let (g, h, before, run, there) =
      update_row-find (λ g. g.id) id body (λ a b r. (fields a b r).0) t.groups groups ran in
    let exact =
      chosen_members-exact d.ids t.members keyed
        (subst (λ l. are_distinct l ≡ true) (sym same) distinct) (of_count chosen d.ids full) in
    let active = chosen_members-AreActive d.ids t.members keyed in
    let members : chosen ≡ h.members = sym ((fields g h run).2) in
    (
      g,
      h,
      before,
      ap (λ (x : GroupTables). find_row (λ g. g.id) id x.groups) (sym (ok-injective done)) ∙ there,
      (fields g h run).1,
      subst (λ (l : List ℕ). (z : ℕ) → (includes l z ≡ true) ↔ (includes raw.ids z ≡ true)) members
          (subst (λ (l : List ℕ). (z : ℕ) → (includes chosen z ≡ true) ↔ (includes l z ≡ true)) same
            exact),
      subst (λ (l : List ℕ). AreActive u.members l) members
          (subst (λ (x : GroupTables). AreActive x.members chosen) (ok-injective done) active),
    )
