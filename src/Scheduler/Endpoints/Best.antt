-- ===== src/Scheduler/Endpoints/Best.antt =====
-- internal/scheduler/scheduler.go: which endpoint PickAvailable picks.
use mathlib.Core.List.{Mem}
use text.Mathlib.Text.{◌==◌ as str_eq}
use api_gateway.Prelude.{
  ◌≡◌, ◌≢◌, ◌≤◌, ◌⊎◌, ◌∙◌, refl, sym, All, eq_ℤ_iff, [], ◌∷◌, Bool, true, false, not, ◌&&◌, List,
  String, arith, if◌then◌else◌, ℤ, eq_ℤ, ltb_ℤ, Bool-cases, inl, inr,
}
use api_gateway.Clock.{Time}
use api_gateway.Host.{Host}
use api_gateway.Formats.{RapiRow, supports_api_format}
use api_gateway.Scheduler.Manager.{Manager, rapi_of}
use api_gateway.Scheduler.Sorting.{sort_stable, sort_stable-IsOrdered}
use api_gateway.Scheduler.Scanning.{
  Picked, picked, unavailable, first_row-IsBest, IsBest-sort, IsBest, IsAttained,
}
use api_gateway.Scheduler.Endpoints.{cost_of, row_less, sorted_manager, pick_available}
use api_gateway.Scheduler.Endpoints.Scan.{IsValid, serves, recovers_at, scan_rows-first_row}

eq_by_less : (a b : ℤ) → eq_ℤ a b ≡ (not (ltb_ℤ a b) && not (ltb_ℤ b a))
eq_by_less a b = ground arith

less_asym : (a b : ℤ) → ltb_ℤ a b ≡ true → ltb_ℤ b a ≡ false
less_asym a b h = ground arith

less_trans : (a b c : ℤ) → ltb_ℤ b a ≡ false → ltb_ℤ c b ≡ false → ltb_ℤ c a ≡ false
less_trans a b c h k = ground arith

-- The lexicographic test of row_less on costs, orders and whether the format is spoken.
lex : ℤ → ℤ → Bool → ℤ → ℤ → Bool → Bool
lex ca oa fa cb ob fb =
    if not (eq_ℤ ca cb) then ltb_ℤ ca cb else if not (eq_ℤ oa ob) then ltb_ℤ oa ob else fa && not fb

lex_asym :
    (ca oa : ℤ) (fa : Bool) (cb ob : ℤ) (fb : Bool)
    → lex ca oa fa cb ob fb ≡ true
    → lex cb ob fb ca oa fa ≡ false
unfolding lex
lex_asym ca oa fa cb ob fb =
    rw (eq_by_less ca cb, eq_by_less cb ca, eq_by_less oa ob, eq_by_less ob oa)
      (ground (arith, less_asym ca cb, less_asym cb ca, less_asym oa ob, less_asym ob oa))

lex_trans :
    (ca oa : ℤ) (fa : Bool) (cb ob : ℤ) (fb : Bool) (cc oc : ℤ) (fc : Bool)
    → lex cb ob fb ca oa fa ≡ false
    → lex cc oc fc cb ob fb ≡ false
    → lex cc oc fc ca oa fa ≡ false
unfolding lex
lex_trans ca oa fa cb ob fb cc oc fc =
    rw
      (
        eq_by_less cb ca,
        eq_by_less cc cb,
        eq_by_less cc ca,
        eq_by_less ob oa,
        eq_by_less oc ob,
        eq_by_less oc oa,
      )
      (ground (
        arith,
        less_trans ca cb cc,
        less_trans cc cb ca,
        less_trans cb ca cc,
        less_trans cb cc ca,
        less_trans ca cc cb,
        less_trans cc ca cb,
        less_trans oa ob oc,
        less_trans oc ob oa,
        less_trans ob oa oc,
        less_trans ob oc oa,
        less_trans oa oc ob,
        less_trans oc oa ob,
      ))

module _ (host : Host) (m : Manager) (now : Time) (prefer : String) where
  speaks : RapiRow → Bool
  speaks r = not (str_eq prefer "") && supports_api_format host r prefer

  row_less_lem :
      (a b : RapiRow)
      → row_less host m now prefer a b
        ≡ lex
            (cost_of host m now a)
            a.order_index
            (speaks a)
            (cost_of host m now b)
            b.order_index
            (speaks b)
  unfolding row_less lex speaks
  row_less_lem a b = ground arith

  row_less_asym :
      (a b : RapiRow)
      → row_less host m now prefer a b ≡ true
      → row_less host m now prefer b a ≡ false
  row_less_asym a b h =
      row_less_lem b a
      ∙ lex_asym (cost_of host m now a) a.order_index (speaks a) (cost_of host m now b)
          b.order_index (speaks b) (sym (row_less_lem a b) ∙ h)

  row_less_trans :
      (a b c : RapiRow)
      → row_less host m now prefer b a ≡ false
      → row_less host m now prefer c b ≡ false
      → row_less host m now prefer c a ≡ false
  row_less_trans a b c h k =
      row_less_lem c a
      ∙ lex_trans (cost_of host m now a) a.order_index (speaks a) (cost_of host m now b)
          b.order_index (speaks b) (cost_of host m now c) c.order_index (speaks c)
          (sym (row_less_lem b a) ∙ h) (sym (row_less_lem c b) ∙ k)

  row_less_irrefl : (a : RapiRow) → row_less host m now prefer a a ≡ false
  row_less_irrefl a = elim (Bool-cases (row_less host m now prefer a a)) [
    | inl h ↦ row_less_asym a a h
    | inr h ↦ h
  ]

-- One row comes before another: it costs less, or as much with a lower place, or both are the same and it
-- alone speaks the client's format.
abbrev pub Beats : Host → Manager → Time → String → RapiRow → RapiRow → Type 0
Beats host m now prefer a b =
    (ltb_ℤ (cost_of host m now a) (cost_of host m now b) ≡ true)
    ⊎ ((cost_of host m now a ≡ cost_of host m now b)
        × ((ltb_ℤ a.order_index b.order_index ≡ true)
            ⊎ ((a.order_index ≡ b.order_index)
                × (str_eq prefer "" ≡ false)
                × (supports_api_format host a prefer ≡ true)
                × (supports_api_format host b prefer ≡ false))))

Beats-row_less :
    (host : Host) (m : Manager) (now : Time) (prefer : String) (a b : RapiRow)
    → Beats host m now prefer a b
    → row_less host m now prefer a b ≡ true
unfolding row_less
Beats-row_less host m now prefer a b (inl c) =
    ground (arith, c, eq_by_less (cost_of host m now a) (cost_of host m now b))
Beats-row_less host m now prefer a b (inr (c, inl o)) = ground (
  arith,
  o,
  (eq_ℤ_iff (cost_of host m now a) (cost_of host m now b)).1 c,
  eq_by_less a.order_index b.order_index,
)
Beats-row_less host m now prefer a b (inr (c, inr (o, p, x, y))) = ground (
  arith,
  p,
  x,
  y,
  (eq_ℤ_iff (cost_of host m now a) (cost_of host m now b)).1 c,
  (eq_ℤ_iff a.order_index b.order_index).1 o,
)

-- What a pick says of the rows that it was given.
abbrev pub IsPick : Host → Time → Time → Manager → List RapiRow → String → Picked RapiRow → Type 0
IsPick host clock now m rows prefer (picked r) =
    Mem r rows
    × (serves clock now m r ≡ true)
    × All (λ y. (serves clock now m y ≡ false) ⊎ (¬ (Beats host m now prefer y r))) rows
IsPick host clock now m rows prefer (unavailable next) =
    All
      (λ y.
        (serves clock now m y ≡ false)
        × ((recovers_at clock now m y ≡ 0) ⊎ ((next ≢ 0) × (next ≤ recovers_at clock now m y))))
      rows
    × IsAttained (recovers_at clock now m) rows next

unbeaten :
    (host : Host) (clock now : Time) (m : Manager) (prefer : String) (r : RapiRow)
    (ys : List RapiRow)
    → All (λ y. (serves clock now m y ≡ false) ⊎ (row_less host m now prefer y r ≡ false)) ys
    → All (λ y. (serves clock now m y ≡ false) ⊎ (¬ (Beats host m now prefer y r))) ys
unbeaten host clock now m prefer r [] h = tt
unbeaten host clock now m prefer r (y ∷ ys) (inl h, t) =
    (inl h, unbeaten host clock now m prefer r ys t)
unbeaten host clock now m prefer r (y ∷ ys) (inr h, t) = (
  inr (λ b. absurd (ground (arith, h, Beats-row_less host m now prefer y r b))),
  unbeaten host clock now m prefer r ys t,
)

IsBest-IsPick :
    (host : Host) (clock now : Time) (m : Manager) (rows : List RapiRow) (prefer : String)
    (out : Picked RapiRow)
    → IsBest (serves clock now m) (recovers_at clock now m) (row_less host m now prefer) rows out
    → IsPick host clock now m rows prefer out
IsBest-IsPick host clock now m rows prefer (picked r) b =
    (b.0, b.1, unbeaten host clock now m prefer r rows b.2)
IsBest-IsPick host clock now m rows prefer (unavailable next) b = b

-- In a manager whose endpoint entities satisfy their invariant: PickAvailable returns a row that can serve,
-- that is, one that is enabled and available and whose entity is healthy or in a cooldown whose timer has run
-- out; and no such row costs less, or as much with a lower place, or the same of both with
-- the client's format where the picked row lacks it. If it returns none, no row can serve, and the time
-- that comes with the error is the earliest at which the timer of an enabled and available row in a
-- cooldown runs out, or zero if there is no such row.
pub pick_available-IsPick :
    (host : Host) (clock now : Time) (m : Manager) (rows : List RapiRow) (prefer : String)
    → IsValid m
    → IsPick host clock now m rows prefer (pick_available host clock now m rows prefer).1
unfolding pick_available rapi_of
pick_available-IsPick host clock now m rows prefer v =
    IsBest-IsPick host clock now m rows prefer _ (
      IsBest-sort (serves clock now m) (recovers_at clock now m) less
        (row_less_irrefl host m now prefer) rows _
        (first_row-IsBest (serves clock now m) (recovers_at clock now m) less
          (row_less_irrefl host m now prefer) (sort_stable less rows) _
          (sort_stable-IsOrdered less (row_less_asym host m now prefer)
            (row_less_trans host m now prefer) rows)
          (sym (
            scan_rows-first_row clock now m (sorted_manager host now rows m) 0
              (sort_stable less rows) v (λ j. refl)))))
  where
    less : RapiRow → RapiRow → Bool
    less = row_less host m now prefer
