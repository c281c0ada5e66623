-- ===== src/Members/Groups/Service.antt =====
-- The operations on groups. `same_name` is the comparison of the column type Citext, and
-- `unique_violation` is the error with which the client of the database answers a name that is taken.
use bash_builder.Prelude.{
  or_else, ℕ, ◌+◌, ◌==◌, leb, Bool, true, false, not, ◌&&◌, ◌||◌, Option, none, some, is_none, List,
  [], ◌∷◌, map, any, length, includes, if◌then◌else◌, Text, text, optional_text, text_eq, codes,
  positive, Result, ok, err, ◌>>=◌, ◌>>◌, throw_if, Error, bad_request, conflict, internal,
  Identity, Journal, write,
}
use bash_builder.Prelude.Table.{find_row, update_row}
use bash_builder.Prelude.Select.{select}
use bash_builder.Members.Service.{Membership, is_active}

pub record Group : Type 0 where
  pub id : ℕ
  pub name : Text
  pub description : Option Text
  pub version : ℕ
  pub members : List ℕ

pub record GroupTables : Type 0 where
  pub groups : List Group
  pub members : List Membership
  pub journal : Journal

-- An error of the database, as far as the code reads it.
pub record DatabaseError : Type 0 where
  pub code : Option Text
  pub meta_code : Option Text

abbrev is_unique_code : Option Text → Bool
is_unique_code none = false
is_unique_code (some c) = text_eq c (codes "23505")

-- `isUniqueViolation`
unfoldable pub is_unique_violation : DatabaseError → Bool
is_unique_violation e = is_unique_code e.code || is_unique_code e.meta_code

-- The `catch` of `createGroup` and `updateGroup`; an error that is not known is passed on.
abbrev pub caught : DatabaseError → Error
caught e = if is_unique_violation e then conflict else internal

-- A field that may be absent, null or a text.
pub data Field : Type 0 where
  absent : Field
  given : Option Text → Field

pub record GroupInput : Type 0 where
  pub name : Text
  pub description : Field

pub record GroupUpdate : Type 0 where
  pub name : Option Text
  pub description : Field
  pub expected_version : ℕ

pub record MembersInput : Type 0 where
  pub ids : List ℕ
  pub expected_version : ℕ

unfoldable pub parse_field : Field → Result Field
unfolding optional_text
parse_field absent = ok absent
parse_field (given d) = optional_text 2000 d >>= λ t. ok (given t)

abbrev is_absent : Field → Bool
is_absent absent = true
is_absent (given d) = false

-- `createGroupSchema`
unfoldable pub parse_group : GroupInput → Result GroupInput
unfolding text parse_field
parse_group r = do
  name ← text 2 120 r.name
  description ← parse_field r.description
  ok (record { name = name; description = description })

abbrev parse_name : Option Text → Result (Option Text)
parse_name none = ok none
parse_name (some n) = text 2 120 n >>= λ t. ok (some t)

-- `updateGroupSchema`
unfoldable pub parse_group_update : GroupUpdate → Result GroupUpdate
unfolding text parse_field positive
parse_group_update r = do
  name ← parse_name r.name
  description ← parse_field r.description
  version ← positive r.expected_version
  throw_if (is_none name && is_absent description) bad_request
  ok (record { name = name; description = description; expected_version = version })

-- `new Set(ids).size === ids.length`
unfoldable pub are_distinct : List ℕ → Bool
are_distinct [] = true
are_distinct (x ∷ xs) = not (includes xs x) && are_distinct xs

-- `replaceGroupMembersSchema`
unfoldable pub parse_members : MembersInput → Result MembersInput
unfolding are_distinct positive
parse_members r = do
  throw_if (not (leb (length r.ids) 500)) bad_request
  version ← positive r.expected_version
  throw_if (not (are_distinct r.ids)) bad_request
  ok (record { ids = r.ids; expected_version = version })

abbrev or_null : Field → Option Text → Option Text
or_null absent before = before
or_null (given d) before = d

module _ (same_name : Text → Text → Bool) (unique_violation : DatabaseError) where
  -- A group of another identifier has the name.
  unfoldable pub is_taken : ℕ → Text → List Group → Bool
  is_taken id name groups = any (λ g. not (g.id == id) && same_name g.name name) groups

  -- `createGroup`
  unfoldable pub create_group : Identity → ℕ → GroupInput → GroupTables → Result GroupTables
  unfolding is_taken
  create_group who id raw t = do
    d ← parse_group raw
    throw_if (any (λ g. g.id == id) t.groups) internal
    throw_if (is_taken id d.name t.groups) (caught unique_violation)
    ok (record t {
      groups =
          record {
            id = id;
            name = d.name;
            description = or_null d.description none;
            version = 1;
            members = [];
          }
          ∷ t.groups;
      journal = write who "tenant_group.created" "tenant_group" id t.journal;
    })

  -- The fields that are given, on a row of the expected version.
  unfoldable pub group_updated : List Group → GroupUpdate → Group → Result Group
  unfolding is_taken
  group_updated groups d g = do
    throw_if (not (g.version == d.expected_version)) conflict
    throw_if (is_taken g.id (or_else d.name g.name) groups) (caught unique_violation)
    ok (record g {
      name = or_else d.name g.name;
      description = or_null d.description g.description;
      version = g.version + 1;
    })

  -- `updateGroup`
  unfoldable pub update_group : Identity → ℕ → GroupUpdate → GroupTables → Result GroupTables
  unfolding group_updated
  update_group who id raw t = do
    d ← parse_group_update raw
    throw_if (is_none (find_row (λ g. g.id) id t.groups)) conflict
    groups ← update_row (λ g. g.id) id (group_updated t.groups d) t.groups
    ok (record t {
      groups = groups;
      journal = write who "tenant_group.updated" "tenant_group" id t.journal;
    })

-- The members that may be in a group: active ones among the identifiers that are asked for.
unfoldable pub chosen_members : List ℕ → List Membership → List ℕ
unfolding select
chosen_members ids members =
    map (λ m. m.id) (select (λ m. includes ids m.id && is_active m.status) members)

unfoldable pub members_replaced : ℕ → List ℕ → Group → Result Group
members_replaced expected chosen g = do
  throw_if (not (g.version == expected)) conflict
  ok (record g { members = chosen; version = g.version + 1 })

-- `replaceGroupMembers`
unfoldable pub replace_group_members :
    Identity → ℕ → MembersInput → GroupTables → Result GroupTables
unfolding chosen_members members_replaced
replace_group_members who id raw t = do
  d ← parse_members raw
  throw_if (is_none (find_row (λ g. g.id) id t.groups)) bad_request
  let chosen = chosen_members d.ids t.members
  throw_if (not (length chosen == length d.ids)) bad_request
  groups ← update_row (λ g. g.id) id (members_replaced d.expected_version chosen) t.groups
  ok (record t {
    groups = groups;
    journal = write who "tenant_group.members_replaced" "tenant_group" id t.journal;
  })

-- `deleteMany` by identifier and version.
unfoldable pub without_group : ℕ → ℕ → List Group → Result (List Group)
without_group id expected [] = err conflict
without_group id expected (g ∷ gs) =
    if (g.id == id) && (g.version == expected)
    then ok gs
    else (without_group id expected gs >>= λ rest. ok (g ∷ rest))

-- `deleteGroup`
unfoldable pub delete_group : Identity → ℕ → ℕ → GroupTables → Result GroupTables
unfolding without_group positive
delete_group who id raw t = do
  expected ← positive raw
  groups ← without_group id expected t.groups
  ok (record t {
    groups = groups;
    journal = write who "tenant_group.deleted" "tenant_group" id t.journal;
  })
