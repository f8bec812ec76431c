-- ===== src/Scheduler/Cost.antt =====
-- internal/scheduler/scheduler.go: the current cost of an endpoint.
use text.Mathlib.Text.{◌==◌ as str_eq}
use api_gateway.Prelude.{
  ◌≡◌, ◌≢◌, refl, Bool, true, false, not, ◌&&◌, ◌||◌, Option, none, some, List, [], ◌∷◌, arith,
  if◌then◌else◌, ltb, ◌==◌, ℤ, pos, is_positive,
}
use api_gateway.Clock.{Time}
use api_gateway.Host.{Host, Text, TimePeriodRule}
use api_gateway.Formats.{RapiRow}
use api_gateway.Scheduler.Counters.{RapiCounters, threshold_exceeded}

-- `a < b` on texts.
unfoldable pub text_less : Text → Text → Bool
text_less xs [] = false
text_less [] (y ∷ ys) = true
text_less (x ∷ xs) (y ∷ ys) = ltb x y || (x == y && text_less xs ys)

unfoldable pub in_time_range : Text → Text → Text → Bool
unfolding text_less
in_time_range current start end =
    if not (text_less end start)
    then not (text_less current start) && text_less current end
    else not (text_less current start) || text_less current end

-- The cost of the first rule whose range holds the time.
unfoldable pub rule_cost : Text → List TimePeriodRule → Option ℤ
unfolding in_time_range
rule_cost hhmm [] = none
rule_cost hhmm (rule ∷ rules) =
    if in_time_range hhmm rule.start rule.end then some rule.cost else rule_cost hhmm rules

unfoldable pub override_cost : Host → RapiRow → Time → Option ℤ
unfolding rule_cost
override_cost host r now =
    if str_eq r.time_period_rules "" then none else elim (host.parse_rules r.time_period_rules) [
      | none ↦ none
      | some rules ↦ rule_cost (host.hhmm now) rules
    ]

-- The second and third steps of computeCostLocked.
unfoldable pub usual_cost : Host → RapiCounters → RapiRow → Time → ℤ
usual_cost host c r now =
    if threshold_exceeded host c r now && is_positive r.high_cost
    then r.high_cost
    else if is_positive r.base_cost
    then r.base_cost
    else pos 0

unfoldable pub compute_cost : Host → RapiCounters → RapiRow → Time → ℤ
unfolding override_cost usual_cost
compute_cost host c r now = elim (override_cost host r now) [
  | some cost ↦ cost
  | none ↦ usual_cost host c r now
]

text_less_asym : (a b : Text) → text_less a b ≡ true → text_less b a ≡ false
unfolding text_less
text_less_asym a [] h = ground arith
text_less_asym [] (y ∷ ys) h = refl
text_less_asym (x ∷ xs) (y ∷ ys) h = ground (arith, text_less_asym xs ys)

text_less_total : (a b : Text) → text_less a b ≡ false → text_less b a ≡ false → a ≡ b
unfolding text_less
text_less_total [] [] h k = refl
text_less_total [] (y ∷ ys) h k = ground arith
text_less_total (x ∷ xs) [] h k = ground arith
text_less_total (x ∷ xs) (y ∷ ys) h k = ground (arith, text_less_total xs ys)

-- Two different ends split the day: every time is in the range from the first to the second or in the
-- range from the second to the first, which wraps around midnight if that one is later, and not in both.
pub in_time_range_split :
    (current start end : Text)
    → start ≢ end
    → in_time_range current end start ≡ not (in_time_range current start end)
unfolding in_time_range
in_time_range_split current start end h =
    ground (arith, text_less_asym start end, text_less_total start end)
