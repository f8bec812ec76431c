-- ===== src/Scheduler/Cursor.antt =====
-- internal/scheduler/scheduler.go: the cursors by which the keys of a platform take turns.
-- A Go map is iterated in any order, so the order of an association list stands for the order that a
-- run happens to take.
pub mod Rotation
pub mod Eviction
use text.Mathlib.Text.{◌==◌ as str_eq}
use text.Mathlib.TextEquality.{eq_iff}
use api_gateway.Prelude.{
  ℕ, zero, suc, ◌+◌, ◌-◌, ◌%◌, ◌≡◌, ◌↔◌, refl, Bool, true, false, not, ◌&&◌, ◌||◌, Option, none,
  some, List, [], ◌∷◌, ◌++◌, map, String, arith, if◌then◌else◌, ltb, leb, ◌==◌, Eq, ℤ, pos, eq_ℤ,
  eq_ℤ_iff, length, take, drop, keep_if, get, put, delete, word,
}
use api_gateway.Clock.{Time, before}
use api_gateway.Scheduler.Sorting.{sort_stable}

pub record CursorKey : Type 0 where
  pub platform_id : ℤ
  pub session_id : String

pub record KeyCursor : Type 0 where
  pub n : ℕ
  pub last_used : Time

abbrev pub eq_cursor_key : CursorKey → CursorKey → Bool
eq_cursor_key a b = eq_ℤ a.platform_id b.platform_id && str_eq a.session_id b.session_id

pub eq_cursor_key_iff : (a b : CursorKey) → (eq_cursor_key a b ≡ true) ↔ (a ≡ b)
eq_cursor_key_iff a b =
    ground (arith, eq_ℤ_iff a.platform_id b.platform_id, eq_iff a.session_id b.session_id)

instance abbrev pub cursor_key_eq : Eq CursorKey
cursor_key_eq = record { beq = eq_cursor_key; beq_iff = eq_cursor_key_iff }

abbrev pub Cursors : Type 0
Cursors = List (CursorKey × KeyCursor)

abbrev pub session_cursor_ttl : ℕ
session_cursor_ttl = 600000000000

abbrev pub max_session_cursors : ℕ
max_session_cursors = 10000

abbrev pub cursor_sweep_threshold : ℕ
cursor_sweep_threshold = 1024

-- `scope` is Config.KeyCursorScope.
unfoldable pub cursor_key : String → ℤ → String → CursorKey
cursor_key scope platform_id session_id =
    if str_eq scope "session" && not (str_eq session_id "")
    then record { platform_id = platform_id; session_id = session_id }
    else record { platform_id = platform_id; session_id = "" }

abbrev pub is_session : CursorKey × KeyCursor → Bool
is_session e = not (str_eq e.0.session_id "")

-- The first round: session cursors that were idle for longer than the TTL go.
abbrev pub is_fresh : Time → CursorKey × KeyCursor → Bool
is_fresh now e = not (is_session e && before e.1.last_used (now - session_cursor_ttl))

abbrev pub used_before : CursorKey × KeyCursor → CursorKey × KeyCursor → Bool
used_before a b = before a.1.last_used b.1.last_used

unfoldable pub delete_all : List CursorKey → Cursors → Cursors
delete_all [] m = m
delete_all (k ∷ ks) m = delete_all ks (delete k m)

-- The second round: the session cursors that were used longest ago go, down to the cap.
-- sort.Slice may put cursors of one time in any order; here it is that of the list.
unfoldable pub evict_oldest : ℕ → Cursors → Cursors
unfolding delete_all sort_stable delete
evict_oldest cap m =
    let stale = sort_stable used_before (keep_if is_session m) in
    delete_all (map (λ e. e.0) (take (length m - cap) stale)) m

unfoldable pub evict_cursors : Time → Cursors → Cursors
unfolding evict_oldest
evict_cursors now m =
    if ltb (length m) cursor_sweep_threshold
    then m
    else let swept = keep_if (is_fresh now) m in
      if leb (length swept) max_session_cursors
      then swept
      else evict_oldest max_session_cursors swept

abbrev pub is_kept : Option KeyCursor → Bool
is_kept none = false
is_kept (some _) = true

-- The rotation for a pick, and the cursors after it. A missing cursor is made with a zero `lastUsed`
-- and the cursors are swept before the pick advances it; what is swept away is advanced out of the map.
unfoldable pub next_turn : CursorKey → Time → ℕ → Cursors → ℕ × Cursors
unfolding evict_cursors get put
next_turn ck now size m = elim (get ck m) [
  | some cur ↦ (cur.n % size, put ck (record { n = (cur.n + 1) % word; last_used = now }) m)
  | none ↦
      let m' = evict_cursors now (put ck (record { n = 0; last_used = 0 }) m) in
      (0 % size, if is_kept (get ck m') then put ck (record { n = 1; last_used = now }) m' else m')
]

unfoldable pub rotate {ℓ} : {A : Type ℓ} → ℕ → List A → List A
rotate n xs = drop n xs ++ take n xs
