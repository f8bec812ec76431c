-- ===== src/Scheduler/Cursor/Eviction.antt =====
-- internal/scheduler/scheduler.go: what a sweep of the cursors keeps.
use text.Mathlib.TextEquality.{eq_iff}
use api_gateway.Prelude.{
  ℕ, ◌+◌, ◌-◌, ◌≡◌, ◌≢◌, ◌<◌, ◌≤◌, refl, Bool, true, false, none, List, [], ◌∷◌, map, arith,
  if◌then◌else◌, length, take, keep_if, get, put, delete, All, Bool-cases, inl, inr,
}
use api_gateway.Clock.{Time}
use api_gateway.Scheduler.Sorting.{sort_stable, sort_stable-All}
use api_gateway.Scheduler.Cursor.{
  CursorKey, KeyCursor, Cursors, eq_cursor_key, eq_cursor_key_iff, cursor_key_eq, is_session,
  is_fresh, used_before, delete_all, evict_oldest, evict_cursors, next_turn, session_cursor_ttl,
  max_session_cursors, cursor_sweep_threshold,
}

get-keep_if :
    (p : CursorKey × KeyCursor → Bool) (k : CursorKey) (m : Cursors)
    → ((c : KeyCursor) → p (k, c) ≡ true)
    → get k (keep_if p m) ≡ get k m
unfolding get
get-keep_if p k [] h = refl
get-keep_if p k ((j, c) ∷ m) h = ground (arith, h c, eq_cursor_key_iff j k, get-keep_if p k m h)

get-delete :
    (k j : CursorKey) (m : Cursors)
    → get k (delete j m) ≡ (if eq_cursor_key j k then none else get k m)
unfolding get delete
get-delete k j [] = ground arith
get-delete k j ((i, c) ∷ m) =
    ground
      (arith, eq_cursor_key_iff i j, eq_cursor_key_iff i k, eq_cursor_key_iff j k, get-delete k j m)

get-delete_all :
    (k : CursorKey) (es : List (CursorKey × KeyCursor)) (m : Cursors)
    → All (λ e. eq_cursor_key e.0 k ≡ false) es
    → get k (delete_all (map (λ e. e.0) es) m) ≡ get k m
unfolding delete_all
get-delete_all k [] m h = refl
get-delete_all k (e ∷ es) m h =
    ground (arith, get-delete_all k es (delete e.0 m) h.1, get-delete k e.0 m)

delete_all-none :
    (k : CursorKey) (ks : List CursorKey) (m : Cursors)
    → get k m ≡ none
    → get k (delete_all ks m) ≡ none
unfolding delete_all
delete_all-none k [] m h = h
delete_all-none k (j ∷ ks) m h =
    delete_all-none k ks (delete j m) (ground (arith, get-delete k j m))

All-take {ℓ κ} : {A : Type ℓ} (P : A → Type κ) (n : ℕ) (xs : List A) → All P xs → All P (take n xs)
All-take P ℕ.zero xs h = tt
All-take P (ℕ.suc n) [] h = tt
All-take P (ℕ.suc n) (x ∷ xs) h = (h.0, All-take P n xs h.1)

other_sessions :
    (k : CursorKey) (m : Cursors)
    → k.session_id ≡ ""
    → All (λ e. eq_cursor_key e.0 k ≡ false) (keep_if is_session m)
other_sessions k [] h = tt
other_sessions k (e ∷ m) h = elim (Bool-cases (is_session e)) [
  | inl s ↦
      rw s (ground (arith, eq_cursor_key_iff e.0 k, eq_iff e.0.session_id ""), other_sessions k m h)
  | inr s ↦ rw s (other_sessions k m h)
]

evict_oldest_platform :
    (cap : ℕ) (k : CursorKey) (m : Cursors)
    → k.session_id ≡ ""
    → get k (evict_oldest cap m) ≡ get k m
unfolding evict_oldest
evict_oldest_platform cap k m h =
    get-delete_all k (take (length m - cap) (sort_stable used_before (keep_if is_session m))) m
      (All-take _ (length m - cap) _ (sort_stable-All used_before _ _ (other_sessions k m h)))

-- A sweep never drops or changes the cursor of a platform.
pub evict_cursors_platform :
    (now : Time) (k : CursorKey) (m : Cursors)
    → k.session_id ≡ ""
    → get k (evict_cursors now m) ≡ get k m
unfolding evict_cursors
evict_cursors_platform now k m h = ground (
  arith,
  get-keep_if (is_fresh now) k m (λ c. ground (arith, eq_iff k.session_id "")),
  evict_oldest_platform max_session_cursors k (keep_if (is_fresh now) m) h,
)

length-put_new :
    (k : CursorKey) (c : KeyCursor) (m : Cursors)
    → get k m ≡ none
    → length (put k c m) ≡ length m + 1
unfolding get put
length-put_new k c [] h = omega arith
length-put_new k c ((j, d) ∷ m) h = ground (arith, length-put_new k c m)

-- A new entry that a sweep drops leaves the fresh entries as they were.
keep_if-put_new :
    (p : CursorKey × KeyCursor → Bool) (k : CursorKey) (c : KeyCursor) (m : Cursors)
    → get k m ≡ none
    → p (k, c) ≡ false
    → All (λ e. p e ≡ true) m
    → keep_if p (put k c m) ≡ m
unfolding get put
keep_if-put_new p k c [] h d a = ground arith
keep_if-put_new p k c ((j, e) ∷ m) h d a = ground (arith, keep_if-put_new p k c m)

unused_is_stale :
    (now : Time) (k : CursorKey)
    → k.session_id ≢ ""
    → session_cursor_ttl < now
    → is_fresh now (k, record { n = 0; last_used = 0 }) ≡ false
unused_is_stale now k s t = ground (arith, eq_iff k.session_id "")

-- While 1023 to 10000 cursors in use are held, a new session gets no cursor: the sweep that its own
-- cursor triggers still reads the zero time as its last use and drops it. So each pick of that session
-- leaves the cursors as they were and starts from the first key again.
pub next_turn_pinned :
    (ck : CursorKey) (now : Time) (size : ℕ) (m : Cursors)
    → ck.session_id ≢ ""
    → get ck m ≡ none
    → session_cursor_ttl < now
    → cursor_sweep_threshold ≤ length m + 1
    → length m ≤ max_session_cursors
    → All (λ e. is_fresh now e ≡ true) m
    → next_turn ck now size m ≡ (0, m)
unfolding next_turn evict_cursors
next_turn_pinned ck now size m s h t low high f = ground (
  arith,
  length-put_new ck (record { n = 0; last_used = 0 }) m h,
  keep_if-put_new (is_fresh now) ck (record { n = 0; last_used = 0 }) m h
      (unused_is_stale now ck s t) f,
)
