-- ===== src/Hht/Schema.antt =====
-- The input schemas of the HHT operations. Dates and identifiers have been read; a number that is no
-- natural number, or hours that are no number of hundredths, have been refused or rounded.
use bash_builder.Prelude.{
  ℕ, ltb, leb, Bool, false, not, ◌&&◌, Option, none, some, Result, ok, ◌>>=◌, ◌>>◌, throw_if,
  bad_request, Text, text, optional_text, positive, is_none,
}
use bash_builder.Hht.Types.{Period, Figures}

-- `z.number().int().min(2000).max(2200)` and `z.number().int().min(1).max(12)`
unfoldable pub parse_period : Period → Result Period
parse_period p = do
  throw_if (not (leb 2000 p.year && leb p.year 2200)) bad_request
  throw_if (not (leb 1 p.month && leb p.month 12)) bad_request
  ok p

abbrev pub optional_version : Option ℕ → Result (Option ℕ)
optional_version none = ok none
optional_version (some v) = positive v >>= λ v. ok (some v)

pub record CompanyInput : Type 0 where
  pub name : Text
  pub document : Option Text
  pub site : Text
  pub coordination : Option Text

-- `createCompanySchema`
unfoldable pub parse_company : CompanyInput → Result CompanyInput
parse_company r = do
  name ← text 2 200 r.name
  document ← optional_text 32 r.document
  site ← text 2 120 r.site
  coordination ← optional_text 160 r.coordination
  ok (record { name = name; document = document; site = site; coordination = coordination })

pub record ReportInput : Type 0 where
  pub company : ℕ
  pub period : Period
  pub figures : Figures
  pub expected_version : Option ℕ

-- `reportSchema`
unfoldable pub parse_report : ReportInput → Result ReportInput
unfolding parse_period positive
parse_report r = do
  period ← parse_period r.period
  version ← optional_version r.expected_version
  ok (record r { period = period; expected_version = version })

pub record WindowInput : Type 0 where
  pub period : Period
  pub opens_at : ℕ
  pub closes_at : ℕ

-- `windowSchema`
unfoldable pub parse_window : WindowInput → Result WindowInput
unfolding parse_period
parse_window r = do
  period ← parse_period r.period
  throw_if (not (ltb r.opens_at r.closes_at)) bad_request
  ok (record r { period = period })

pub record ExceptionInput : Type 0 where
  pub company : ℕ
  pub period : Period
  pub expires_at : ℕ
  pub reason : Text

-- `hhtLateExceptionSchema`
unfoldable pub parse_exception : ℕ → ExceptionInput → Result ExceptionInput
unfolding parse_period
parse_exception now r = do
  period ← parse_period r.period
  reason ← text 10 2000 r.reason
  throw_if (not (ltb now r.expires_at)) bad_request
  ok (record r { period = period; reason = reason })

pub record PublicationInput : Type 0 where
  pub published : Bool
  pub expected_version : Option ℕ
  pub expires_at : Option ℕ

abbrev pub is_past : ℕ → Option ℕ → Bool
is_past now none = false
is_past now (some t) = leb t now

-- `hhtPublicationSchema`
unfoldable pub parse_publication : ℕ → PublicationInput → Result PublicationInput
unfolding positive
parse_publication now r = do
  version ← optional_version r.expected_version
  throw_if (r.published && is_past now r.expires_at) bad_request
  throw_if (not r.published && not (is_none r.expires_at)) bad_request
  ok (record r { expected_version = version })
