-- ===== src/Scheduler/Keys.antt =====
-- internal/scheduler/scheduler.go: PickAvailableKey.
pub mod Usable
pub mod Rounds
pub mod Shrink
use api_gateway.Prelude.{
  ℕ, Bool, true, false, not, ◌≡◌, List, [], ◌∷◌, String, if◌then◌else◌, ℤ, ltb_ℤ, length,
}
use api_gateway.Clock.{Time}
use api_gateway.Entity.{PlatformKey}
use api_gateway.Key.{Key}
use api_gateway.Key.Calls.{pickable, sync}
use api_gateway.Scheduler.Scanning.{Picked, picked, unavailable, sooner}
use api_gateway.Scheduler.Sorting.{sort_stable}
use api_gateway.Scheduler.Cursor.{Cursors, cursor_key, next_turn, rotate}
use api_gateway.Scheduler.Manager.{Manager, key_of, set_key}

unfoldable pub scan_keys :
    Time → Time → Manager → Time → List PlatformKey → Manager × Picked PlatformKey
unfolding key_of
scan_keys clock now m next [] = (m, unavailable next)
scan_keys clock now m next (k ∷ ks) =
    let (e, ok, at) = pickable clock now (sync k clock now (key_of m clock k.id)) in
    let refused = scan_keys clock now (set_key k.id e m) (sooner next at) ks in
    if not ok then refused else (set_key k.id e m, picked k)

abbrev pub index_less : PlatformKey → PlatformKey → Bool
index_less a b = ltb_ℤ a.key_index b.key_index

-- The keys in the order in which a pick tries them, and the cursors after it.
unfoldable pub turn_order : Manager → Time → String → List PlatformKey → List PlatformKey × Cursors
unfolding cursor_key next_turn rotate
turn_order m now session [] = ([], m.key_cursors)
turn_order m now session (k ∷ ks) =
    let ck = cursor_key m.cfg.key_cursor_scope k.platform_id session in
    let (rot, cursors) = next_turn ck now (length (k ∷ ks)) m.key_cursors in
    (rotate rot (k ∷ ks), cursors)

unfoldable pub pick_available_key :
    Time → Time → Manager → List PlatformKey → String → Manager × Picked PlatformKey
unfolding sort_stable turn_order scan_keys
pick_available_key clock now m keys session =
    let (order, cursors) = turn_order m now session (sort_stable index_less keys) in
    scan_keys clock now (record m { key_cursors = cursors }) 0 order
