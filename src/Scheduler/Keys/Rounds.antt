-- ===== src/Scheduler/Keys/Rounds.antt =====
-- internal/scheduler/scheduler.go: how the keys of a platform take turns.
use api_gateway.Prelude.{
  ℕ, ◌+◌, ◌%◌, ◌≡◌, ◌<◌, refl, ◌∙◌, ap, some, List, [], ◌∷◌, String, arith, length, get,
  get-put_self, word,
}
use native.Mathlib.Nat.{mod-lt}
use api_gateway.Clock.{Time}
use api_gateway.Entity.{PlatformKey}
use api_gateway.Scheduler.Manager.{Manager}
use api_gateway.Scheduler.Cursor.{CursorKey, KeyCursor, cursor_key_eq, cursor_key, next_turn}
use api_gateway.Scheduler.Cursor.Rotation.{nth, rotate_first, turns_until, turn_comes}
use api_gateway.Scheduler.Keys.{turn_order}

-- The cursor that a pick over a list of keys uses.
abbrev pub cursor_for : Manager → String → PlatformKey → CursorKey
cursor_for m session k = cursor_key m.cfg.key_cursor_scope k.platform_id session

-- A pick whose cursor exists and stands at `c` tries the key at place `c` modulo the number of keys first, and leaves
-- the cursor one further, used now.
pub turn_order_first :
    (m : Manager) (now : Time) (session : String) (k : PlatformKey) (ks : List PlatformKey)
    (cur : KeyCursor)
    → get (cursor_for m session k) m.key_cursors ≡ some cur
    → (nth 0 (turn_order m now session (k ∷ ks)).0 ≡ nth (cur.n % length (k ∷ ks)) (k ∷ ks))
      × (get (cursor_for m session k) (turn_order m now session (k ∷ ks)).1
          ≡ some (record { n = (cur.n + 1) % word; last_used = now }))
unfolding turn_order next_turn
turn_order_first m now session k ks cur h =
    rw (h, next_turn)
      (
        rotate_first (cur.n % length (k ∷ ks)) (k ∷ ks) (mod-lt cur.n (omega arith)),
        get-put_self (cursor_for m session k) (record { n = (cur.n + 1) % word; last_used = now })
            m.key_cursors,
      )

-- The manager after a row of picks over one list of keys, at these times.
pub turns : String → PlatformKey → List PlatformKey → List Time → Manager → Manager
turns session k ks [] m = m
turns session k ks (t ∷ ts) m =
    turns session k ks ts (record m { key_cursors = (turn_order m t session (k ∷ ks)).1 })

turns_cursor :
    (session : String) (k : PlatformKey) (ks : List PlatformKey) (ts : List Time) (m : Manager)
    (cur : KeyCursor)
    → get (cursor_for m session k) m.key_cursors ≡ some cur
    → cur.n + length ts < word
    → (t : Time) × (get (cursor_for m session k) (turns session k ks ts m).key_cursors
        ≡ some (record { n = cur.n + length ts; last_used = t }))
      × ((turns session k ks ts m).cfg ≡ m.cfg)
unfolding turns
turns_cursor session k ks [] m cur h b = (cur.last_used, ground arith, refl)
turns_cursor session k ks (t ∷ ts) m cur h b =
    let s = (turn_order_first m t session k ks cur h).1 in
    let ih =
      turns_cursor session k ks ts (record m { key_cursors = (turn_order m t session (k ∷ ks)).1 })
        (record { n = (cur.n + 1) % word; last_used = t }) s (ground arith) in
    (ih.0, ground (arith, ih.1), ih.2)

-- Round robin: from any state of an existing cursor, fewer picks than there are keys bring the key at any place
-- to the front (as long as the 64-bit count does not wrap), so in each row of as many picks as there are
-- keys every key is tried first.
pub every_key_first :
    (session : String) (k : PlatformKey) (ks : List PlatformKey) (ts : List Time) (now : Time)
    (m : Manager) (cur : KeyCursor) (i : ℕ)
    → get (cursor_for m session k) m.key_cursors ≡ some cur
    → cur.n + length (k ∷ ks) < word
    → i < length (k ∷ ks)
    → length ts ≡ turns_until (length (k ∷ ks)) cur.n i
    → (length ts < length (k ∷ ks))
      × (nth 0 (turn_order (turns session k ks ts m) now session (k ∷ ks)).0 ≡ nth i (k ∷ ks))
every_key_first session k ks ts now m cur i h b lt e =
    let r = turn_comes (length (k ∷ ks)) cur.n i lt in
    let c = turns_cursor session k ks ts m cur h (omega arith) in
    let at : get (cursor_for (turns session k ks ts m) session k)
          (turns session k ks ts m).key_cursors
        ≡ some (record { n = cur.n + length ts; last_used = c.0 }) =
      rw c.2 c.1 in
    (
      omega arith,
      (turn_order_first (turns session k ks ts m) now session k ks _ at).0
          ∙ ap (λ n. nth n (k ∷ ks)) (rw e r.1),
    )
