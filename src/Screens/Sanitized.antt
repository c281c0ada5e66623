-- ===== src/Screens/Sanitized.antt =====
-- What a dashboard makes public passes the sanitizer of displays unchanged.
use bash_builder.Prelude.{
  ℕ, leb, ◌≡◌, refl, subst, true, Option, some, none, List, [], ◌∷◌, length, ok, >>=-eq-ok,
  ok-injective, Bool-cases, inl, inr, or_throw, bad_request, Text, codes, arith,
}
use bash_builder.Screens.Widgets.{
  Value, string, number, other, Config, lookup, StaticType, text_widget, metric, notice, Source,
  Filters, Widget, static, analytics, source_name, assert_analytics_contract,
}
use bash_builder.Screens.Snapshots.{
  PublicWidget, short_string, short_figure, string_field, tone_field, is_tone, public_config,
  public_widget, public_widgets, sanitize_config, sanitize_widgets,
}

short_string-short :
    (limit : ℕ) (v : Option Value) (t : Text)
    → short_string limit v ≡ ok t
    → leb (length t) limit ≡ true
short_string-short limit (some (string s)) t e = ground (arith, e)
short_string-short limit (some (number s)) t e = cc
short_string-short limit (some other) t e = cc
short_string-short limit none t e = cc

short_figure-short :
    (v : Option Value) (w : Value) → short_figure v ≡ ok w → short_figure (some w) ≡ ok w
short_figure-short (some (string s)) w e = ground (arith, e)
short_figure-short (some (number s)) w e = ground (arith, e)
short_figure-short (some other) w e = cc
short_figure-short none w e = cc

-- A label that was taken over is taken over again.
metric_again :
    (w : Value) (v : Option Value)
    → short_figure (some w) ≡ ok w
    → sanitize_config metric ((codes "value", w) ∷ string_field (codes "label") v)
      ≡ ok ((codes "value", w) ∷ string_field (codes "label") v)
unfolding sanitize_config
metric_again w (some (string s)) e = rw e refl
metric_again w (some (number s)) e = rw e refl
metric_again w (some other) e = rw e refl
metric_again w none e = rw e refl

notice_again :
    (t : Text) (v : Option Value)
    → leb (length t) 1000 ≡ true
    → sanitize_config notice ((codes "message", string t) ∷ tone_field v)
      ≡ ok ((codes "message", string t) ∷ tone_field v)
unfolding sanitize_config
notice_again t (some (string s)) e = elim (Bool-cases (is_tone s)) [
  | inl tone ↦ rw (tone, e) refl
  | inr odd ↦ rw (odd, e) refl
]
notice_again t (some (number s)) e = rw e refl
notice_again t (some other) e = rw e refl
notice_again t none e = rw e refl

public_config-sanitized :
    (type : StaticType) (c d : Config) → public_config type c ≡ ok d → sanitize_config type d ≡ ok d
unfolding public_config sanitize_config
public_config-sanitized text_widget c d e =
    let (t, h, done) = >>=-eq-ok (short_string 2000 (lookup (codes "content") c)) _ e in
    subst (λ x. sanitize_config text_widget x ≡ ok x) (ok-injective done)
      (text_again t (short_string-short 2000 (lookup (codes "content") c) t h))
  where
    text_again :
        (t : Text)
        → leb (length t) 2000 ≡ true
        → sanitize_config text_widget ((codes "content", string t) ∷ [])
          ≡ ok ((codes "content", string t) ∷ [])
    text_again t e = rw e refl
public_config-sanitized metric c d e =
    let (w, h, done) = >>=-eq-ok (short_figure (lookup (codes "value") c)) _ e in
    subst (λ x. sanitize_config metric x ≡ ok x) (ok-injective done)
      (metric_again w (lookup (codes "label") c)
        (short_figure-short (lookup (codes "value") c) w h))
public_config-sanitized notice c d e =
    let (t, h, done) = >>=-eq-ok (short_string 1000 (lookup (codes "message") c)) _ e in
    subst (λ x. sanitize_config notice x ≡ ok x) (ok-injective done)
      (notice_again t (lookup (codes "tone") c)
        (short_string-short 1000 (lookup (codes "message") c) t h))

-- The figures are written with at most 160 characters.
abbrev pub AreShort : (Source → Filters → Text → Option Text) → Type 0
AreShort figures =
    (source : Source) (filters : Filters) (name t : Text)
    → figures source filters name ≡ some t
    → leb (length t) 160 ≡ true

figure_again :
    (t : Text) (source : Source)
    → leb (length t) 160 ≡ true
    → sanitize_config metric
        ((codes "value", number t) ∷ (codes "label", string (source_name source)) ∷ [])
      ≡ ok ((codes "value", number t) ∷ (codes "label", string (source_name source)) ∷ [])
unfolding sanitize_config
figure_again t source e = rw e refl

public_widget-sanitized :
    (figures : Source → Filters → Text → Option Text)
    → AreShort figures
    → (w : Widget) (p : PublicWidget) → public_widget figures w ≡ ok p
    → sanitize_config p.type p.config ≡ ok p.config
unfolding public_widget
public_widget-sanitized figures short (static type title config) p e =
    let (c, h, done) = >>=-eq-ok (public_config type config) _ e in
    subst (λ (x : PublicWidget). sanitize_config x.type x.config ≡ ok x.config) (ok-injective done)
      (public_config-sanitized type config c h)
public_widget-sanitized figures short (analytics title source name filters) p e =
    let (_, _, e₁) = >>=-eq-ok (assert_analytics_contract source filters name) _ e in
    let (t, h, done) = >>=-eq-ok (or_throw (figures source filters name) bad_request) _ e₁ in
    subst (λ (x : PublicWidget). sanitize_config x.type x.config ≡ ok x.config) (ok-injective done)
      (figure_again t source (short source filters name t (ground (arith, h))))

-- The widgets that publishing a dashboard makes public come through the sanitizer of the displays as
-- they are: a display shows the dashboard's own widgets, in their order, none changed and none
-- refused, provided that the figures of analytics are written with at most 160 characters.
pub public_widgets-sanitize_widgets :
    (figures : Source → Filters → Text → Option Text)
    → AreShort figures
    → (ws : List Widget) (ps : List PublicWidget) → public_widgets figures ws ≡ ok ps
    → sanitize_widgets ps ≡ ok ps
unfolding public_widgets sanitize_widgets
public_widgets-sanitize_widgets figures short [] ps e =
    subst (λ x. sanitize_widgets x ≡ ok x) (ok-injective e) refl
public_widgets-sanitize_widgets figures short (w ∷ ws) ps e =
    let (p, h, e₁) = >>=-eq-ok (public_widget figures w) _ e in
    let (rest, k, done) = >>=-eq-ok (public_widgets figures ws) _ e₁ in
    subst (λ x. sanitize_widgets x ≡ ok x) (ok-injective done)
      (both p rest (public_widget-sanitized figures short w p h)
        (public_widgets-sanitize_widgets figures short ws rest k))
  where
    both :
        (p : PublicWidget) (rest : List PublicWidget)
        → sanitize_config p.type p.config ≡ ok p.config
        → sanitize_widgets rest ≡ ok rest
        → sanitize_widgets (p ∷ rest) ≡ ok (p ∷ rest)
    both p rest h k = rw (h, k) refl
