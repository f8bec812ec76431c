-- ===== src/Host.antt =====
-- What the gateway takes from Go's runtime library and from the host: the local calendar, texts and the JSON
-- decoder. They are parameters of every definition that uses them.
use api_gateway.Prelude.{ℕ, Bool, Option, List, String, ℤ}
use api_gateway.Clock.{Time}

-- A text that the code compares by `<`: its bytes.
abbrev pub Text : Type 0
Text = List ℕ

-- An element of the JSON list in a row's time_period_rules.
pub record TimePeriodRule : Type 0 where
  pub start : Text
  pub end : Text
  pub cost : ℤ

-- Functions on texts of the packages strings, strconv, fmt and net/http. A header is its `Get`, which gives
-- the empty text for a missing field.
pub record Library : Type 0 where
  pub to_lower : String → String
  pub trim_space : String → String
  -- `strings.Contains(s, sub)`.
  pub contains : String → String → Bool
  -- `strings.Split(s, ",")`.
  pub split_commas : String → List String
  -- `strconv.Atoi` or `strconv.ParseInt`, and `http.ParseTime`; `none` is an error.
  pub atoi : String → Option ℤ
  pub http_time : String → Option Time
  -- `%d`.
  pub show : ℕ → String

abbrev pub Header : Type 0
Header = String → String

pub record Host : Type 0 where
  -- `time.Date(t.Year(), t.Month(), t.Day(), 0, 0, 0, 0, t.Location())`.
  pub day_start : Time → Time
  -- `now.Format("15:04")`.
  pub hhmm : Time → Text
  -- `json.Unmarshal` into a list of rules and into a list of strings; `none` is an error.
  pub parse_rules : String → Option (List TimePeriodRule)
  pub parse_strings : String → Option (List String)
