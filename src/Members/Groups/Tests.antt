-- ===== src/Members/Groups/Tests.antt =====
-- A group of three members of whom one is suspended, and the theorem at it.
use bash_builder.Prelude.{
  ℕ, ◌+◌, ◌≡◌, ◌↔◌, refl, true, none, some, [], ◌∷◌, map, includes, ok, err, codes, text_eq,
  Identity, positive, bad_request, conflict, internal, after, text, trim, is_space, drop_spaces,
  optional_text,
}
use bash_builder.Prelude.Select.{select}
use bash_builder.Prelude.Table.{find_row, update_row}
use bash_builder.Contracts.Roles.{owner, member}
use bash_builder.Members.Service.{active, suspended}
use bash_builder.Members.Groups.Service.{
  Group, GroupTables, DatabaseError, MembersInput, absent, is_unique_violation, parse_field,
  parse_group, parse_group_update, parse_members, are_distinct, is_taken, create_group,
  group_updated, update_group, chosen_members, members_replaced, replace_group_members,
  without_group, delete_group,
}
use bash_builder.Members.Groups.Exact.{AreKeyed, AreActive, replace_group_members_lem}

-- Opens what a run of the service calls.
run : Unit {0}
unfolding create_group update_group replace_group_members delete_group group_updated
    members_replaced chosen_members without_group is_taken is_unique_violation parse_field
    parse_group parse_group_update parse_members are_distinct select find_row update_row text trim
    drop_spaces is_space optional_text positive
run = tt

abbrev ann : Identity
ann = record { user = 1; email = codes "ann@x"; organization = 9; membership = 11 }

-- The answer of the client to a name that is taken.
abbrev taken : DatabaseError
taken = record { code = some (codes "P2002"); meta_code = none }

abbrev start : GroupTables
start = record {
  groups = [];
  members =
      record { id = 11; user = 1; role = owner; status = active }
      ∷ record { id = 12; user = 2; role = member; status = suspended }
      ∷ record { id = 13; user = 3; role = member; status = active }
      ∷ [];
  journal = record { audit = []; outbox = [] };
}

abbrev created : GroupTables
created = after start (
    create_group text_eq taken ann 5 (record { name = codes " Fire team "; description = absent })
      start)

abbrev asked : MembersInput
asked = record { ids = 13 ∷ 11 ∷ []; expected_version = 1 }

abbrev replaced : GroupTables
replaced = after created (replace_group_members ann 5 asked created)

groups_after : map (λ g. g.members) replaced.groups ≡ (11 ∷ 13 ∷ []) ∷ []
unfolding run
groups_after = refl

suspended_refused :
    replace_group_members ann 5 (record { ids = 12 ∷ []; expected_version = 1 }) created
    ≡ err bad_request
unfolding run
suspended_refused = refl

stale_refused : delete_group ann 5 1 replaced ≡ err conflict
unfolding run
stale_refused = refl

-- A name that is taken is not answered with a conflict.
taken_internal :
    create_group text_eq taken ann 6
      (record { name = codes "Fire team"; description = absent })
      created
    ≡ err internal
unfolding run
taken_internal = refl

created-AreKeyed : AreKeyed created.members
unfolding run
created-AreKeyed = refl

created-replaced : replace_group_members ann 5 asked created ≡ ok replaced
unfolding run
created-replaced = refl

replace_group_members_lem_example :
    (g : Group) × (h : Group) × (find_row (λ g. g.id) 5 created.groups ≡ some g)
    × (find_row (λ g. g.id) 5 replaced.groups ≡ some h)
    × (h.version ≡ g.version + 1)
    × ((z : ℕ) → (includes h.members z ≡ true) ↔ (includes asked.ids z ≡ true))
    × AreActive replaced.members h.members
replace_group_members_lem_example =
    replace_group_members_lem ann 5 asked created replaced created-AreKeyed created-replaced
