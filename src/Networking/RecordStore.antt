-- ===== src/Networking/RecordStore.antt =====
-- sn_networking/src/record_store.rs: the keys held, pruning, the store cost, and the tasks that are
-- spawned. A task (a write or a removal of a file, or an event) runs later, and its failure is only
-- logged: the model returns the tasks in the order in which they are spawned.
pub mod Capacity
pub mod Cost
pub mod Puts
use safe_network.Base.{
  ◌++◌, ℕ, zero, suc, ◌+◌, ◌-◌, ◌*◌, ◌/◌, ◌^◌, ◌≤◌, ◌≡◌, min, List, [], ◌∷◌, Option, none, some,
  Bool, true, false, not, ltb, leb, length, filter, if◌then◌else◌,
}
use safe_network.Base.Order.{Ord, eqb}
use safe_network.Base.Outcome.{Outcome, ok, err, ◌>>=◌}
use safe_network.Base.SortedSet
use safe_network.Registers.Deps.{Bytes}

abbrev pub max_records_count : ℕ
max_records_count = 2048

abbrev pub puts_per_price_step : ℕ
puts_per_price_step = 100

-- dbc_genesis.rs: `u32::MAX as u64 * u64::pow(10, 9)`
abbrev pub total_supply : ℕ
total_supply = 4294967295 * 10 ^ 9

abbrev pub u64_max : ℕ
u64_max = 2 ^ 64 - 1

-- libp2p: keys with their order, the distance of Kademlia, what a record says of its publisher and of
-- its expiry, and the factor
-- `10^(2048 / 100 - 2)` that is computed in floating point.
pub record Kademlia : Type 1 where
  pub Key : Type 0
  pub key_ord : Ord Key
  pub KBucketKey : Type 0
  pub kbucket_key : Key → KBucketKey
  pub distance : KBucketKey → KBucketKey → ℕ
  pub Publisher : Type 0
  pub Instant : Type 0
  pub cost_factor : ℕ

-- store::Error
pub data Error : Type 0 where
  max_records value_too_large : Error

module _ (k : Kademlia) where
  open k use {Key, KBucketKey}

  pub record Record : Type 0 where
    pub key : Key
    pub value : Bytes
    pub publisher : Option k.Publisher
    pub expires : Option k.Instant

  pub data Task : Type 0 where
    write_file : Key → Bytes → Task
    remove_file : Key → Task
    send_unverified : Record → Task

  -- `DiskBackedRecordStore`; `records` is a `HashSet`.
  pub record RecordStore : Type 0 where
    pub local_key : KBucketKey
    pub max_records : ℕ
    pub max_value_bytes : ℕ
    pub records : List Key
    pub has_event_sender : Bool
    pub distance_range : Option ℕ

unfoldable pub last {ℓ} : {A : Type ℓ} → List A → Option A
last [] = none
last (x ∷ []) = some x
last (x ∷ y ∷ ys) = last (y ∷ ys)

-- `for _i in 0..current_step { cost = cost.saturating_add(cost) }`
unfoldable pub double_cost : ℕ → ℕ → ℕ
double_cost zero cost = cost
double_cost (suc steps) cost = double_cost steps (min u64_max (cost + cost))

module _ {k : Kademlia} where
  open k use {Key, KBucketKey}

  unfoldable pub with_config : KBucketKey → ℕ → ℕ → Bool → RecordStore k
  with_config local_id record_limit value_limit with_sender = record {
    local_key = local_id;
    max_records = record_limit;
    max_value_bytes = value_limit;
    records = [];
    has_event_sender = with_sender;
    distance_range = none;
  }

  unfoldable pub contains : RecordStore k → Key → Bool
  contains s key = SortedSet.contains k.key_ord key s.records

  abbrev pub distance_to : RecordStore k → Key → ℕ
  distance_to s key = k.distance s.local_key (k.kbucket_key key)

  -- `sort_unstable_by_key`, with the order of equal keys that a stable sort gives
  unfoldable pub sort_insert : RecordStore k → Key → List Key → List Key
  sort_insert s x [] = x ∷ []
  sort_insert s x (y ∷ ys) =
      let rest = sort_insert s x ys in
      if leb (distance_to s x) (distance_to s y) then x ∷ y ∷ ys else y ∷ rest

  unfoldable pub sort_by_distance : RecordStore k → List Key → List Key
  unfolding sort_insert
  sort_by_distance s [] = []
  sort_by_distance s (x ∷ xs) = sort_insert s x (sort_by_distance s xs)

  -- `remove` of the trait `RecordStore`
  unfoldable pub remove : RecordStore k → Key → RecordStore k × List (Task k)
  remove s key = (
    record s { records = filter (λ x. not (eqb k.key_ord x key)) s.records },
    remove_file key ∷ [],
  )

  -- The decision on the furthest record.
  unfoldable pub prune_furthest :
      RecordStore k → Key → Option Key → Outcome Error (RecordStore k × List (Task k))
  unfolding remove
  prune_furthest s r none = ok (s, [])
  prune_furthest s r (some furthest) =
      if ltb (k.distance (k.kbucket_key r) s.local_key)
        (k.distance (k.kbucket_key furthest) s.local_key)
      then ok (remove s furthest)
      else err max_records

  unfoldable pub prune_storage_if_needed_for_record :
      RecordStore k → Key → Outcome Error (RecordStore k × List (Task k))
  unfolding prune_furthest last sort_by_distance
  prune_storage_if_needed_for_record s r =
      if ltb (length s.records) s.max_records
      then ok (s, [])
      else prune_furthest s r (last (sort_by_distance s s.records))

  -- What `put_verified` does once there is room.
  unfoldable pub store_record :
      Record k → RecordStore k × List (Task k) → RecordStore k × List (Task k)
  store_record r (s, tasks) = (
    record s { records = SortedSet.insert k.key_ord r.key s.records },
    tasks ++ write_file r.key r.value ∷ [],
  )

  -- An error leaves the store as it was.
  unfoldable pub put_verified :
      RecordStore k → Record k → Outcome Error (RecordStore k × List (Task k))
  unfolding prune_storage_if_needed_for_record store_record
  put_verified s r = do room ← prune_storage_if_needed_for_record s r.key; ok (store_record r room)

  -- `put` of the trait: a record from the network is sent to be validated.
  unfoldable pub put : RecordStore k → Record k → Outcome Error (List (Task k))
  put s r =
      if leb s.max_value_bytes (length r.value)
      then err value_too_large
      else if s.has_event_sender
      then ok (send_unverified r ∷ [])
      else ok []

  -- `read_from_disk`, with what the file of the key holds, if it can be read.
  unfoldable pub read_from_disk : Key → Option Bytes → Option (Record k)
  read_from_disk key none = none
  read_from_disk key (some value) =
      some (record { key = key; value = value; publisher = none; expires = none })

  -- `get` of the trait; `disk` is what the files hold.
  unfoldable pub get : (Key → Option Bytes) → RecordStore k → Key → Option (Record k)
  unfolding contains read_from_disk
  get disk s key =
      let found = read_from_disk key (disk key) in if not (contains s key) then none else found

  unfoldable pub set_distance_range : RecordStore k → ℕ → RecordStore k
  set_distance_range s range = record s { distance_range = some range }

  unfoldable pub relevant_records_len : RecordStore k → Option ℕ → ℕ
  relevant_records_len s none = max_records_count
  relevant_records_len s (some range) =
      length (filter (λ key. leb (distance_to s key) range) s.records)

  unfoldable pub store_cost : RecordStore k → ℕ
  unfolding relevant_records_len double_cost
  store_cost s =
      double_cost (relevant_records_len s s.distance_range / puts_per_price_step + 1)
        (total_supply / k.cost_factor)
