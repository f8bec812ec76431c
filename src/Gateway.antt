-- ===== src/Gateway.antt =====
-- internal/gateway/gateway.go: the state that the proxy keeps next to the scheduler, and the table of
-- (key, model) pairs that it does not try. The map of maps is one association list on pairs. Log lines are
-- left out; notices and writes to the database are recorded as values, newest first, and the errors of
-- writes are ignored by the code. `clock` is what time.Now() reads during a call.
pub mod Blocks
pub mod Pool
pub mod Attempt
pub mod Losses
pub mod Rounds
pub mod Ends
pub mod Success
pub mod Alignment
pub mod Request
pub mod Stream
pub mod Usage
use api_gateway.Prelude.{
  ℕ, ◌≡◌, ◌↔◌, Bool, true, false, not, ◌&&◌, ◌||◌, Option, none, some, List, [], ◌∷◌, String, arith,
  if◌then◌else◌, Eq, ℤ, pos, eq_ℤ, eq_ℤ_iff, is_positive, get, put, delete, keep_if, int_eq,
}
use api_gateway.Clock.{Time, Duration, hour, is_zero, after, before, add}
use api_gateway.Entity.{PlatformKey}
use api_gateway.Scheduler.Manager.{Manager}
use api_gateway.Scheduler.Manager as Scheduler

pub record KeyModelBlock : Type 0 where
  pub reason : String
  pub expires_at : Time

pub record PairKey : Type 0 where
  pub key_id : ℤ
  pub rapi_id : ℤ

abbrev pub eq_pair : PairKey → PairKey → Bool
eq_pair a b = eq_ℤ a.key_id b.key_id && eq_ℤ a.rapi_id b.rapi_id

pub eq_pair_iff : (a b : PairKey) → (eq_pair a b ≡ true) ↔ (a ≡ b)
eq_pair_iff a b = ground (arith, eq_ℤ_iff a.key_id b.key_id, eq_ℤ_iff a.rapi_id b.rapi_id)

instance abbrev pub pair_eq : Eq PairKey
pair_eq = record { beq = eq_pair; beq_iff = eq_pair_iff }

abbrev pub Blocks : Type 0
Blocks = List (PairKey × KeyModelBlock)

-- What is published to the operator, by the number of the key or of the endpoint.
pub data Notice : Type 0 where
  key_failed key_cooling : ℤ → Notice
  key_blocked : ℤ → ℤ → Notice
  model_failed : ℤ → Notice

pub data BlockWrite : Type 0 where
  write_block : ℤ → ℤ → String → Time → BlockWrite
  write_unblock : ℤ → ℤ → BlockWrite
  write_clear : ℤ → BlockWrite

pub record Gateway : Type 0 where
  pub scheduler : Manager
  pub blocks : Blocks
  pub block_ttl : Duration
  pub has_notify : Bool
  pub notices : List Notice
  pub writes : List BlockWrite

-- A row of the table of blocks.
pub record BlockRow : Type 0 where
  pub key_id : ℤ
  pub rapi_id : ℤ
  pub reason : String
  pub expires_at : Time

abbrev pub pair : ℤ → ℤ → PairKey
pair key_id rapi_id = record { key_id = key_id; rapi_id = rapi_id }

unfoldable pub load_rows : Time → List BlockRow → Blocks → Blocks
load_rows now [] blocks = blocks
load_rows now (b ∷ rows) blocks =
    if not (is_zero b.expires_at) && before b.expires_at now
    then load_rows now rows blocks
    else load_rows now rows (
        put (pair b.key_id b.rapi_id) (record { reason = b.reason; expires_at = b.expires_at })
          blocks)

-- `rows` is what the database gives; `none` is an error.
unfoldable pub load_key_model_blocks : Time → Duration → Option (List BlockRow) → Gateway → Gateway
unfolding load_rows
load_key_model_blocks now ttl rows g =
    let ttl' = if is_positive ttl then ttl else pos 86400000000000 in
    elim rows [
      | none ↦ record g { blocks = []; block_ttl = ttl' }
      | some rs ↦ record g { blocks = load_rows now rs []; block_ttl = ttl' }
    ]

abbrev pub is_new_block : Option KeyModelBlock → Time → Bool
is_new_block none now = true
is_new_block (some prev) now = after now prev.expires_at

-- The gateway with the pair blocked, and whether the block is new.
unfoldable pub block_key_for_model : Time → ℤ → ℤ → String → Gateway → Gateway × Bool
unfolding get put
block_key_for_model clock key_id rapi_id reason g =
    let exp = add clock g.block_ttl in
    (
      record g {
        blocks = put (pair key_id rapi_id) (record { reason = reason; expires_at = exp }) g.blocks;
        writes = write_block key_id rapi_id reason exp ∷ g.writes;
      },
      is_new_block (get (pair key_id rapi_id) g.blocks) clock,
    )

unfoldable pub unblock_key_for_model : ℤ → ℤ → Gateway → Gateway
unfolding delete
unblock_key_for_model key_id rapi_id g = record g {
  blocks = delete (pair key_id rapi_id) g.blocks;
  writes = write_unblock key_id rapi_id ∷ g.writes;
}

-- Under the write lock, after the lock for reading was given up.
unfoldable pub purge_expired_block : Time → ℤ → ℤ → Gateway → Gateway × Option String
unfolding get delete
purge_expired_block clock key_id rapi_id g = elim (get (pair key_id rapi_id) g.blocks) [
  | none ↦ (g, none)
  | some b ↦
      if is_zero b.expires_at || after b.expires_at clock
      then (g, some b.reason)
      else (record g { blocks = delete (pair key_id rapi_id) g.blocks }, none)
]

-- The reason of a block that is in force, `none` if there is none.
unfoldable pub is_blocked : Time → ℤ → ℤ → Gateway → Gateway × Option String
unfolding get purge_expired_block
is_blocked clock key_id rapi_id g = elim (get (pair key_id rapi_id) g.blocks) [
  | none ↦ (g, none)
  | some b ↦
      let purged = purge_expired_block clock key_id rapi_id g in
      if not (is_zero b.expires_at) && not (after b.expires_at clock)
      then purged
      else (g, some b.reason)
]

unfoldable pub filter_blocked_keys :
    Time → ℤ → List PlatformKey → Gateway → Gateway × List PlatformKey
unfolding is_blocked
filter_blocked_keys clock rapi_id [] g = (g, [])
filter_blocked_keys clock rapi_id (k ∷ ks) g =
    let (g', blocked) = is_blocked clock k.id rapi_id g in
    let (h, out) = filter_blocked_keys clock rapi_id ks g' in
    elim blocked [ some r ↦ (h, out) | none ↦ (h, k ∷ out) ]

-- The labels and reasons of the blocked keys of a pool.
unfoldable pub blocked_reasons :
    Time → ℤ → List PlatformKey → Gateway → Gateway × List (String × String)
unfolding is_blocked
blocked_reasons clock rapi_id [] g = (g, [])
blocked_reasons clock rapi_id (k ∷ ks) g =
    let (g', blocked) = is_blocked clock k.id rapi_id g in
    let (h, out) = blocked_reasons clock rapi_id ks g' in
    elim blocked [ some r ↦ (h, (k.label, r) ∷ out) | none ↦ (h, out) ]

unfoldable pub clear_blocks_for_key : ℤ → Gateway → Gateway
clear_blocks_for_key key_id g = record g {
  blocks = keep_if (λ e. not (eq_ℤ e.0.key_id key_id)) g.blocks;
  writes = write_clear key_id ∷ g.writes;
}

unfoldable pub remove_key : ℤ → Gateway → Gateway
unfolding clear_blocks_for_key
remove_key key_id g =
    clear_blocks_for_key key_id (record g { scheduler = Scheduler.remove_key key_id g.scheduler })

unfoldable pub notify : Notice → Gateway → Gateway
notify n g = if g.has_notify then record g { notices = n ∷ g.notices } else g
