-- ===== src/Platform.antt =====
-- internal/entity/platform.go: the availability of one upstream provider, driven by probes.
use api_gateway.Prelude.{◌≡◌, Bool, true, false, none, some, List, [], ◌∷◌, arith, if◌then◌else◌, ℤ}
use api_gateway.Clock.{Time}
use api_gateway.Fsm
use api_gateway.Fsm.{Machine, Context, Transition, Rules, register_all, fire}
use api_gateway.Entity.{
  State, healthy, unavailable, Event, detect_success, detect_failure, StoreCall,
  set_platform_available, Payload, eq_state, state_eq, event_eq,
}

pub record PlatformData : Type 0 where
  pub id : ℤ
  pub has_store : Bool
  pub calls : List StoreCall

abbrev pub Platform : Type 0
Platform = Machine State × PlatformData

abbrev Effect : Type 0
Effect = Context Event Payload → Time → Platform → Platform

persist : Bool → PlatformData → PlatformData
persist available o =
    if o.has_store then record o { calls = set_platform_available o.id available ∷ o.calls } else o

on_probe_success : Effect
unfolding persist
on_probe_success ctx clock (m, o) = (m, persist true o)

on_probe_failure : Effect
unfolding persist
on_probe_failure ctx clock (m, o) = (m, persist false o)

abbrev edge : State → Event → State → Effect → Transition State Event Payload PlatformData
edge a ev b f = record { source = a; event = ev; target = b; guard = none; effect = some f }

rules : Rules State Event Payload PlatformData
unfolding on_probe_success on_probe_failure register_all
rules =
    register_all (record { table = []; index = [] })
      (edge unavailable detect_success healthy on_probe_success
        ∷ edge healthy detect_failure unavailable on_probe_failure
        ∷ edge healthy detect_success healthy on_probe_success
        ∷ edge unavailable detect_failure unavailable on_probe_failure
        ∷ [])

unfoldable pub new_platform : ℤ → Bool → Bool → Time → Platform
unfolding Fsm.new
new_platform id initial_healthy has_store clock = (
  Fsm.new (if initial_healthy then healthy else unavailable) clock,
  record { id = id; has_store = has_store; calls = [] },
)

unfoldable pub on_detect_success : Time → Platform → Platform
unfolding fire rules
on_detect_success clock p = (fire rules clock detect_success none p).0

unfoldable pub on_detect_failure : Time → Platform → Platform
unfolding fire rules
on_detect_failure clock p = (fire rules clock detect_failure none p).0

-- The field `Available` of a snapshot.
unfoldable pub is_available : Platform → Bool
is_available (m, o) = eq_state m.state healthy

abbrev pub probe : Time → Bool → Platform → Platform
probe clock true p = on_detect_success clock p
probe clock false p = on_detect_failure clock p

unfoldable pub probes : List (Time × Bool) → Platform → Platform
probes [] p = p
probes ((clock, up) ∷ rest) p = probes rest (probe clock up p)

abbrev pub last_probe : Bool → List (Time × Bool) → Bool
last_probe up [] = up
last_probe up ((clock, b) ∷ rest) = last_probe b rest

abbrev written : PlatformData → Bool → List StoreCall
written o up = if o.has_store then set_platform_available o.id up ∷ o.calls else o.calls

probe_from :
    (st : State) (up b : Bool) (clock a w : Time) (o : PlatformData)
    → st ≡ (if b then healthy else unavailable)
    → let p : Platform = (record { state = st; entered_at = a; wake_at = w }, o) in
      ((probe clock up p).0.state ≡ (if up then healthy else unavailable))
      × ((probe clock up p).1 ≡ record o { calls = written o up })
unfolding on_detect_success on_detect_failure
probe_from healthy true b clock a w o e = ground arith
probe_from healthy false b clock a w o e = ground arith
probe_from unavailable true b clock a w o e = ground arith
probe_from unavailable false b clock a w o e = ground arith
probe_from _ up b clock a w o e = ground arith

-- The calls of the store that a row of probes makes, newest first, before those made already.
pub logged : ℤ → List (Time × Bool) → List StoreCall → List StoreCall
logged id [] cs = cs
logged id ((clock, up) ∷ rest) cs = logged id rest (set_platform_available id up ∷ cs)

probes_from :
    (ps : List (Time × Bool)) (p : Platform) (b : Bool)
    → p.0.state ≡ (if b then healthy else unavailable)
    → ((probes ps p).0.state ≡ (if last_probe b ps then healthy else unavailable))
      × ((probes ps p).1.calls ≡ (if p.1.has_store then logged p.1.id ps p.1.calls else p.1.calls))
unfolding probes logged
probes_from [] p b e = ground arith
probes_from ((clock, up) ∷ rest) (m, o) b e =
    let (s, d) = probe_from m.state up b clock m.entered_at m.wake_at o e in
    let ih = probes_from rest (probe clock up (m, o)) up s in ground (arith, d, ih)

-- After any probes of a new platform it is available exactly if the last probe succeeded (or, with no
-- probe, if it was created so), and with a store every probe has written its result there, in order.
pub probes-new_platform :
    (id : ℤ) (up has_store : Bool) (clock : Time) (ps : List (Time × Bool))
    → let p = probes ps (new_platform id up has_store clock) in
      (is_available p ≡ last_probe up ps)
      × (p.1.calls ≡ (if has_store then logged id ps [] else []))
unfolding new_platform is_available
probes-new_platform id up has_store clock ps =
    let (s, d) = probes_from ps (new_platform id up has_store clock) up (ground arith) in
    ground (arith, s, d)
