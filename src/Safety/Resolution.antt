-- ===== src/Safety/Resolution.antt =====
-- The classifications of an event are what the client asked for.
use mathlib.Core.List.{Memᴰ}
use bash_builder.Prelude.{
  ℕ, ◌==◌, ◌≡◌, refl, sym, ap, ◌∙◌, subst, ◌⊎◌, inl, inr, Bool, true, false, ◌&&◌, ◌||◌, Option,
  none, some, is_none, List, [], ◌∷◌, ◌++◌, any, includes, if◌then◌else◌, Bool-cases, Option-cases,
  of_some-eq, Result, ok, err, ◌>>◌, throw_if, bad_request, Text, text_eq, codes, arith,
}
use bash_builder.Prelude.Select.{select}
use bash_builder.Safety.Types.{Classification}
use bash_builder.Safety.Catalogue.{
  Wanted, present, value_wanted, has_text, is_alternative, map_get, side_found, is_wanted,
  resolve_event_classifications,
}

module _ {ℓ} {A : Type ℓ} (p q : A → Bool) where
  map_get-Memᴰ :
      (xs : List A) (c : A) → map_get p (select q xs) ≡ some c → Memᴰ c xs × ((q c && p c) ≡ true)
  unfolding map_get select
  map_get-Memᴰ [] c e = cc
  map_get-Memᴰ (x ∷ xs) c e = elim (Bool-cases (q x)) [
    | inr out ↦ let (m, h) = map_get-Memᴰ xs c (rw out at e) in (Memᴰ.tail m, h)
    | inl listed ↦ elim (Option-cases (map_get p (select q xs))) [
      | inr (d, later) ↦
          let (m, h) = map_get-Memᴰ xs c (later ∙ ap some (of_some-eq (rw (listed, later) at e))) in
          (Memᴰ.tail m, h)
      | inl none_later ↦ elim (Bool-cases (p x)) [
        | inr miss ↦ absurd (ground (arith, rw (listed, none_later, miss) at e))
        | inl hit ↦
            let here : x ≡ c = of_some-eq (rw (listed, none_later, hit) at e) in
            (Memᴰ.head (sym here), subst (λ y. (q y && p y) ≡ true) here (rw (listed, hit)))
      ]
    ]
  ]

  map_get-missing :
      (xs : List A) → map_get p (select q xs) ≡ none → any (λ x. q x && p x) xs ≡ false
  unfolding map_get select
  map_get-missing [] e = refl
  map_get-missing (x ∷ xs) e = ground (arith, e, map_get-missing xs)

abbrev pub matches : Option ℕ → Option Text → Classification → Bool
matches (some i) value c = c.id == i
matches none (some v) c = text_eq c.value v
matches none none c = false

-- An active classification of events that the client asked for.
abbrev pub is_offered : Wanted → Classification → Bool
is_offered w c =
    text_eq c.category (codes "event_classification") && c.active && matches w.id w.value c

-- Nothing was asked for and nothing was given, or an offer of the catalogue was given.
abbrev pub Answer : List Classification → Wanted → Option Classification → Type 0
Answer catalogue w none = is_wanted w ≡ false
Answer catalogue w (some c) = Memᴰ c catalogue × (is_offered w c ≡ true)

abbrev pub IsMissing : List Classification → Wanted → Type 0
IsMissing catalogue w = (is_wanted w ≡ true) × (any (is_offered w) catalogue ≡ false)

any_cong :
    {A : Type 0} (p q : A → Bool) → ((a : A) → p a ≡ q a) → (xs : List A) → any p xs ≡ any q xs
any_cong p q h [] = refl
any_cong p q h (x ∷ xs) = rw (h x, any_cong p q h xs)

-- The alternatives of a query name what this side asks for.
abbrev Covers : List ℕ → List Text → Wanted → Type 0
Covers ids values w =
    (c : Classification)
    → matches w.id w.value c ≡ true
    → (includes ids c.id || has_text values c.value) ≡ true

includes_here : (i j : ℕ) (js : List ℕ) → (j == i) ≡ true → includes (i ∷ js) j ≡ true
includes_here i j js e = ground (arith, e)

includes_later :
    (is : List ℕ) (j : ℕ) (js : List ℕ) → includes js j ≡ true → includes (is ++ js) j ≡ true
includes_later [] j js e = e
includes_later (i ∷ is) j js e = ground (arith, includes_later is j js e)

has_text_later :
    (us : List Text) (t : Text) (ts : List Text)
    → has_text ts t ≡ true
    → has_text (us ++ ts) t ≡ true
has_text_later [] t ts e = e
has_text_later (u ∷ us) t ts e = ground (arith, has_text_later us t ts e)

or_left : (a b : Bool) → a ≡ true → (a || b) ≡ true
or_left a b e = rw e refl

or_right : (a b : Bool) → b ≡ true → (a || b) ≡ true
or_right true b e = refl
or_right false b e = e

first_Covers :
    (w : Wanted) (js : List ℕ) (ts : List Text)
    → Covers (present w.id ++ js) (present (value_wanted w) ++ ts) w
first_Covers w js ts c m = go w.id w.value m
  where
    go :
        (i : Option ℕ) (v : Option Text)
        → matches i v c ≡ true
        → (includes (present i ++ js) c.id
            || has_text (present (if is_none i then v else none) ++ ts) c.value)
          ≡ true
    go (some i) v m = or_left _ _ (includes_here i c.id js m)
    go none (some v) m = or_right _ _ (or_left _ _ m)
    go none none m = cc

second_Covers :
    (w : Wanted) (js : List ℕ) (ts : List Text)
    → Covers (js ++ present w.id) (ts ++ present (value_wanted w)) w
second_Covers w js ts c m = go w.id w.value m
  where
    go :
        (i : Option ℕ) (v : Option Text)
        → matches i v c ≡ true
        → (includes (js ++ present i) c.id
            || has_text (ts ++ present (if is_none i then v else none)) c.value)
          ≡ true
    go (some i) v m = or_left _ _ (includes_later js c.id (i ∷ []) (includes_here i c.id [] m))
    go none (some v) m = or_right _ _ (has_text_later ts c.value (v ∷ []) (or_left _ _ m))
    go none none m = cc

offered-alternative :
    (ids : List ℕ) (values : List Text) (w : Wanted)
    → Covers ids values w
    → (c : Classification)
    → (is_alternative ids values c && matches w.id w.value c) ≡ is_offered w c
unfolding is_alternative
offered-alternative ids values w covers c = elim (Bool-cases (matches w.id w.value c)) [
  | inl m ↦ ground (arith, m, covers c m)
  | inr m ↦ ground (arith, m)
]

-- What one side finds among the alternatives.
side_found-some :
    (ids : List ℕ) (values : List Text) (w : Wanted) (catalogue : List Classification)
    → Covers ids values w
    → (c : Classification)
    → side_found w.id w.value (select (is_alternative ids values) catalogue) ≡ some c
    → Answer catalogue w (some c)
unfolding side_found
side_found-some ids values w catalogue covers c = go w.id w.value refl refl
  where
    go :
        (i : Option ℕ) (v : Option Text)
        → w.id ≡ i
        → w.value ≡ v
        → side_found i v (select (is_alternative ids values) catalogue) ≡ some c
        → Answer catalogue w (some c)
    go (some i) v ei ev e =
        let (m, h) = map_get-Memᴰ (λ c. c.id == i) (is_alternative ids values) catalogue c e in
        (m, sym (offered-alternative ids values w covers c) ∙ rw ei h)
    go none (some v) ei ev e =
        let (m, h) =
          map_get-Memᴰ (λ c. text_eq c.value v) (is_alternative ids values) catalogue c e in
        (m, sym (offered-alternative ids values w covers c) ∙ rw (ei, ev) h)
    go none none ei ev e = cc

side_found-none :
    (ids : List ℕ) (values : List Text) (w : Wanted) (catalogue : List Classification)
    → Covers ids values w
    → side_found w.id w.value (select (is_alternative ids values) catalogue) ≡ none
    → any (is_offered w) catalogue ≡ false
unfolding side_found
side_found-none ids values w catalogue covers e =
    sym (any_cong _ _ (offered-alternative ids values w covers) catalogue) ∙ go w.id w.value e
  where
    nothing :
        (cs : List Classification) → any (λ c. is_alternative ids values c && false) cs ≡ false
    nothing [] = refl
    nothing (c ∷ cs) = ground (arith, nothing cs)

    go :
        (i : Option ℕ) (v : Option Text)
        → side_found i v (select (is_alternative ids values) catalogue) ≡ none
        → any (λ c. is_alternative ids values c && matches i v c) catalogue ≡ false
    go (some i) v e = map_get-missing (λ c. c.id == i) (is_alternative ids values) catalogue e
    go none (some v) e =
        map_get-missing (λ c. text_eq c.value v) (is_alternative ids values) catalogue e
    go none none e = nothing catalogue

-- What an outcome means: every side is answered, or a side asks for what the catalogue lacks.
abbrev pub Outcome :
    List Classification
    → Wanted
    → Wanted
    → Result (Option Classification × Option Classification)
    → Type 0
Outcome catalogue actual potential (ok (a, p)) =
    Answer catalogue actual a × Answer catalogue potential p
Outcome catalogue actual potential (err e) =
    (e ≡ bad_request) × (IsMissing catalogue actual ⊎ IsMissing catalogue potential)

-- A side is answered, or it misses what it asks for.
data Side (catalogue : List Classification) (w : Wanted) : Option Classification → Type 0 where
  answered :
      {a : Option Classification}
      → (is_wanted w && is_none a) ≡ false
      → Answer catalogue w a
      → Side catalogue w a
  missed : is_wanted w ≡ true → IsMissing catalogue w → Side catalogue w none

Side-cases :
    (ids : List ℕ) (values : List Text) (w : Wanted) (catalogue : List Classification)
    → Covers ids values w
    → Side catalogue w (side_found w.id w.value (select (is_alternative ids values) catalogue))
Side-cases ids values w catalogue covers =
    elim (Option-cases (side_found w.id w.value (select (is_alternative ids values) catalogue))) [
      | inr (c, e) ↦
          rw e (answered (ground arith) (side_found-some ids values w catalogue covers c e))
      | inl e ↦ elim (Bool-cases (is_wanted w)) [
        | inr idle ↦ rw e (answered (rw idle refl) idle)
        | inl asks ↦ rw e (missed asks (asks, side_found-none ids values w catalogue covers e))
      ]
    ]

Outcome-of :
    (catalogue : List Classification) (actual potential : Wanted) {a p : Option Classification}
    → Side catalogue actual a
    → Side catalogue potential p
    → Outcome catalogue actual potential (
        throw_if ((is_wanted actual && is_none a) || (is_wanted potential && is_none p)) bad_request
        >> ok (a, p))
Outcome-of catalogue actual potential (answered h x) (answered k y) = rw (h, k) (x, y)
Outcome-of catalogue actual potential (answered h x) (missed k y) = rw (h, k) (refl, inr y)
Outcome-of catalogue actual potential (missed h x) (answered k y) = rw h (refl, inl x)
Outcome-of catalogue actual potential (missed h x) (missed k y) = rw h (refl, inl x)

-- The classifications of an event resolve, for each side, to an active event classification of the
-- catalogue that has the identifier asked for or, without an identifier, the value asked for, and to
-- none where nothing was asked for. They are refused only if a side asks for one that no active event
-- classification of the catalogue is.
pub resolve_event_classifications_lem :
    (actual potential : Wanted) (catalogue : List Classification)
    → Outcome catalogue actual potential (resolve_event_classifications actual potential catalogue)
unfolding resolve_event_classifications
resolve_event_classifications_lem actual potential catalogue =
    let ids = present actual.id ++ present potential.id in
    let values = present (value_wanted actual) ++ present (value_wanted potential) in
    Outcome-of catalogue actual potential
      (Side-cases ids values actual catalogue
        (first_Covers actual (present potential.id) (present (value_wanted potential))))
      (Side-cases ids values potential catalogue
        (second_Covers potential (present actual.id) (present (value_wanted actual))))
