-- ===== src/Screens/Snapshots.antt =====
-- `publicDashboardSnapshot` and `sanitizeTvDisplaySnapshot`: what of a dashboard is made public.
use bash_builder.Prelude.{
  ℕ, leb, Bool, Option, none, some, List, [], ◌∷◌, length, any, if◌then◌else◌, Result, ok, err,
  ◌>>=◌, ◌>>◌, or_throw, bad_request, Text, text_eq, codes,
}
use bash_builder.Screens.Widgets.{
  Value, string, number, other, Config, lookup, StaticType, text_widget, metric, notice, Source,
  Filters, Widget, static, analytics, source_name, assert_analytics_contract,
}

pub record PublicWidget : Type 0 where
  pub type : StaticType
  pub title : Text
  pub config : Config

pub record Snapshot : Type 0 where
  pub title : Text
  pub description : Option Text
  pub widgets : List PublicWidget

-- `typeof value === 'string' && value.length <= limit`
abbrev pub short_string : ℕ → Option Value → Result Text
short_string limit (some (string t)) = if leb (length t) limit then ok t else err bad_request
short_string limit (some (number t)) = err bad_request
short_string limit (some other) = err bad_request
short_string limit none = err bad_request

-- `['string', 'number'].includes(typeof value) && String(value).length <= 160`
abbrev pub short_figure : Option Value → Result Value
short_figure (some (string t)) = if leb (length t) 160 then ok (string t) else err bad_request
short_figure (some (number t)) = if leb (length t) 160 then ok (number t) else err bad_request
short_figure (some other) = err bad_request
short_figure none = err bad_request

-- A field that is added if it is a string.
abbrev pub string_field : Text → Option Value → Config
string_field key (some (string t)) = (key, string t) ∷ []
string_field key (some (number t)) = []
string_field key (some other) = []
string_field key none = []

abbrev pub is_tone : Text → Bool
is_tone t = any (λ u. text_eq u t) (codes "INFO" ∷ codes "SUCCESS" ∷ codes "WARNING" ∷ [])

abbrev pub tone_field : Option Value → Config
tone_field (some (string t)) = if is_tone t then (codes "tone", string t) ∷ [] else []
tone_field (some (number t)) = []
tone_field (some other) = []
tone_field none = []

-- `assertPublicDashboardWidgets` on one static widget and the branch that makes it public.
unfoldable pub public_config : StaticType → Config → Result Config
unfolding lookup
public_config text_widget c = do
  content ← short_string 2000 (lookup (codes "content") c)
  ok ((codes "content", string content) ∷ [])
public_config metric c = do
  value ← short_figure (lookup (codes "value") c)
  ok ((codes "value", value) ∷ string_field (codes "label") (lookup (codes "label") c))
public_config notice c = do
  message ← short_string 1000 (lookup (codes "message") c)
  ok ((codes "message", string message) ∷ tone_field (lookup (codes "tone") c))

-- One widget of `publicDashboardSnapshot`; `figures` is what `analyticsSourceData` reads for a metric
-- in the other tables, as a decimal text, or `undefined`.
unfoldable pub public_widget :
    (Source → Filters → Text → Option Text) → Widget → Result PublicWidget
unfolding assert_analytics_contract public_config
public_widget figures (static type title config) =
    public_config type config >>= λ c. ok (record { type = type; title = title; config = c })
public_widget figures (analytics title source name filters) = do
  assert_analytics_contract source filters name
  value ← or_throw (figures source filters name) bad_request
  ok (record {
    type = metric;
    title = title;
    config = (codes "value", number value) ∷ (codes "label", string (source_name source)) ∷ [];
  })

unfoldable pub public_widgets :
    (Source → Filters → Text → Option Text) → List Widget → Result (List PublicWidget)
unfolding public_widget
public_widgets figures [] = ok []
public_widgets figures (w ∷ ws) = do
  p ← public_widget figures w
  ps ← public_widgets figures ws
  ok (p ∷ ps)

-- One widget of `sanitizeTvDisplaySnapshot`, checked by `assertPublicDashboardWidgets`.
unfoldable pub sanitize_config : StaticType → Config → Result Config
unfolding lookup
sanitize_config text_widget c = do
  content ← short_string 2000 (lookup (codes "content") c)
  ok ((codes "content", string content) ∷ [])
sanitize_config metric c = do
  value ← short_figure (lookup (codes "value") c)
  ok ((codes "value", value) ∷ string_field (codes "label") (lookup (codes "label") c))
sanitize_config notice c = do
  message ← short_string 1000 (lookup (codes "message") c)
  ok ((codes "message", string message) ∷ string_field (codes "tone") (lookup (codes "tone") c))

unfoldable pub sanitize_widgets : List PublicWidget → Result (List PublicWidget)
unfolding sanitize_config
sanitize_widgets [] = ok []
sanitize_widgets (w ∷ ws) = do
  c ← sanitize_config w.type w.config
  rest ← sanitize_widgets ws
  ok (record { type = w.type; title = w.title; config = c } ∷ rest)

-- `sanitizeTvDisplaySnapshot`; a snapshot that is `null` throws.
unfoldable pub sanitize_tv_display_snapshot : Option Snapshot → Result Snapshot
unfolding sanitize_widgets
sanitize_tv_display_snapshot found = do
  s ← or_throw found bad_request
  widgets ← sanitize_widgets s.widgets
  ok (record { title = s.title; description = s.description; widgets = widgets })
