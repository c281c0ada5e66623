-- ===== src/Safety/Catalogue.antt =====
-- `resolveEventClassifications`.
use bash_builder.Prelude.{
  ℕ, ◌==◌, Bool, not, ◌&&◌, ◌||◌, Option, none, some, is_none, List, [], ◌∷◌, ◌++◌, any, includes,
  if◌then◌else◌, Result, ok, ◌>>◌, throw_if, bad_request, Text, text_eq, codes,
}
use bash_builder.Prelude.Select.{select}
use bash_builder.Safety.Types.{Classification}

-- What a client asks for on one side: an identifier, a value of an older client, or both.
pub record Wanted : Type 0 where
  pub id : Option ℕ
  pub value : Option Text

abbrev pub present {ℓ} : {A : Type ℓ} → Option A → List A
present none = []
present (some a) = a ∷ []

-- The value counts only without an identifier.
abbrev pub value_wanted : Wanted → Option Text
value_wanted w = if is_none w.id then w.value else none

abbrev pub has_text : List Text → Text → Bool
has_text ts t = any (text_eq t) ts

-- `where: { category: 'event_classification', active: true, OR: alternatives }`
unfoldable pub is_alternative : List ℕ → List Text → Classification → Bool
is_alternative ids values c =
    text_eq c.category (codes "event_classification")
    && c.active
    && (includes ids c.id || has_text values c.value)

-- `new Map(found.map((item) => [key, item])).get(key)`: the last entry of a key counts.
unfoldable pub map_get {ℓ} : {A : Type ℓ} → (A → Bool) → List A → Option A
map_get p [] = none
map_get p (x ∷ xs) =
    let later = map_get p xs in if not (is_none later) then later else if p x then some x else none

unfoldable pub side_found : Option ℕ → Option Text → List Classification → Option Classification
unfolding map_get
side_found (some i) value found = map_get (λ c. c.id == i) found
side_found none (some v) found = map_get (λ c. text_eq c.value v) found
side_found none none found = none

abbrev pub is_wanted : Wanted → Bool
is_wanted w = not (is_none w.id) || not (is_none w.value)

unfoldable pub resolve_event_classifications :
    Wanted → Wanted → List Classification → Result (Option Classification × Option Classification)
unfolding is_alternative side_found
resolve_event_classifications actual potential catalogue =
    let ids = present actual.id ++ present potential.id in
    let values = present (value_wanted actual) ++ present (value_wanted potential) in
    let found = select (is_alternative ids values) catalogue in
    let a = side_found actual.id actual.value found in
    let p = side_found potential.id potential.value found in
    throw_if ((is_wanted actual && is_none a) || (is_wanted potential && is_none p)) bad_request
    >> ok (a, p)
