-- ===== src/Screens/Widgets.antt =====
-- The widgets of a dashboard and the contract of an analytics widget.
use bash_builder.Prelude.{
  ℕ, Bool, not, ◌||◌, Option, none, some, is_none, List, [], ◌∷◌, any, if◌then◌else◌, Result, ok,
  ◌>>◌, throw_if, bad_request, Text, text_eq, codes,
}
use bash_builder.Changes.Types.{ChangeStatus}

-- A value of a widget's configuration, as the code tells them apart: a number is its decimal text.
pub data Value : Type 0 where
  string number : Text → Value
  other : Value

abbrev pub Config : Type 0
Config = List (Text × Value)

-- `config[key]`; a key that is not there is `undefined`.
unfoldable pub lookup : Text → Config → Option Value
lookup key [] = none
lookup key ((k, v) ∷ rest) = if text_eq k key then some v else lookup key rest

pub data StaticType : Type 0 where
  text_widget metric notice : StaticType

-- `analyticsSourceKeys`
pub data Source : Type 0 where
  safety_open_events changes_by_status hht_latest_rates bash_by_stage : Source

pub data Stage : Type 0 where
  backlog design in_progress review done : Stage

-- `analyticsQuerySchema`, read; year and month come together.
pub record Filters : Type 0 where
  pub period : Option (ℕ × ℕ)
  pub status : Option ChangeStatus
  pub stage : Option Stage

-- `dashboardWidgetSchema`
pub data Widget : Type 0 where
  static : StaticType → Text → Config → Widget
  analytics : Text → Source → Text → Filters → Widget

-- `analyticsMetrics`
abbrev pub analytics_metrics : Source → List Text
analytics_metrics safety_open_events = codes "open" ∷ codes "inReview" ∷ codes "total" ∷ []
analytics_metrics changes_by_status = codes "total" ∷ []
analytics_metrics hht_latest_rates =
    codes "trifr" ∷ codes "ltifr" ∷ codes "ltisr" ∷ codes "companies" ∷ []
analytics_metrics bash_by_stage = codes "total" ∷ []

abbrev pub source_name : Source → Text
source_name safety_open_events = codes "safety.open_events"
source_name changes_by_status = codes "changes.by_status"
source_name hht_latest_rates = codes "hht.latest_rates"
source_name bash_by_stage = codes "bash.by_stage"

-- The tests on the filters of a source.
abbrev pub filters_outside : Source → Filters → Bool
filters_outside safety_open_events f = not (is_none f.status) || not (is_none f.stage)
filters_outside hht_latest_rates f = not (is_none f.status) || not (is_none f.stage)
filters_outside changes_by_status f = not (is_none f.stage)
filters_outside bash_by_stage f = not (is_none f.status)

-- `assertAnalyticsContract` with a metric
unfoldable pub assert_analytics_contract : Source → Filters → Text → Result (Unit {0})
assert_analytics_contract source filters name = do
  throw_if (not (any (λ m. text_eq m name) (analytics_metrics source))) bad_request
  throw_if (filters_outside source filters) bad_request

-- `assertDashboardAnalyticsWidgets`
unfoldable pub assert_dashboard_analytics_widgets : List Widget → Result (Unit {0})
unfolding assert_analytics_contract
assert_dashboard_analytics_widgets [] = ok tt
assert_dashboard_analytics_widgets (static type title config ∷ ws) =
    assert_dashboard_analytics_widgets ws
assert_dashboard_analytics_widgets (analytics title source name filters ∷ ws) =
    assert_analytics_contract source filters name >> assert_dashboard_analytics_widgets ws
