-- ===== src/Networking/Tests.antt =====
-- The theorems on the fetcher and the record store, where keys, peers and distances are numbers.
use safe_network.Base.{
  none, ℕ, suc, ◌+◌, ◌*◌, ◌^◌, ◌≤◌, List, [], ◌∷◌, Option, some, true, ◌≡◌, refl, arith, length,
  min,
}
use safe_network.Base.Order.{nat_ord}
use safe_network.Base.Outcome.{ok}
use safe_network.Base.SortedSet
use safe_network.Samples.{same}
use safe_network.Networking.Samples.{
  keep_order, keep_order-IsShuffle, kademlia, kademlia-IsSymmetric, full_store,
  full_store-WellFormed, near,
}
use safe_network.Networking.Fetcher.{
  ReplicationFetcher, pending, on_going, max_parallel_fetch, next_keys_to_fetch,
}
use safe_network.Networking.Fetcher.Bounds.{IsValid, peer_requests}
use safe_network.Networking.Fetcher.Invariant.{next_keys_to_fetch-IsValid}
use safe_network.Networking.Fetcher.Calls.{add, call}
use safe_network.Networking.Fetcher.Stall.{IsStalled}
use safe_network.Networking.Fetcher.Leak.{add_keys_stalls}
use safe_network.Networking.RecordStore.{
  Record, RecordStore, Task, max_records, write_file, remove_file, put_verified, sort_by_distance,
  sort_insert, last, contains, store_cost, u64_max, prune_storage_if_needed_for_record,
  prune_furthest, store_record, remove, distance_to,
}
use safe_network.Networking.RecordStore.Cost.{start_cost, step_of, store_cost-pow}
use safe_network.Networking.RecordStore.Puts.{
  WellFormed, Evicts, put_verified-Evicts, put_verified_refuses, put_verified-WellFormed,
  put_verified-held,
}

abbrev waiting : ReplicationFetcher ℕ ℕ
waiting = record {
  to_be_fetched = (5, (1, record { sent = 0; status = pending; failed = 0 }) ∷ []) ∷ [];
  on_going_fetches = 2;
}

waiting-IsValid : IsValid waiting
waiting-IsValid = record {
  bounded = omega arith;
  distinct = (tt, tt);
  holders_ok = (((omega arith, λ e. cc), tt), tt);
}

next_keys_to_fetch-IsValid_example :
    (f' : ReplicationFetcher ℕ ℕ) × (out : List (ℕ × Option ℕ)) × (next_keys_to_fetch
        (same nat_ord)
        (λ t. t)
        keep_order
        0
        waiting
      ≡ some (f', out))
    × IsValid f'
    × (peer_requests out + waiting.on_going_fetches ≤ max_parallel_fetch)
next_keys_to_fetch-IsValid_example =
    next_keys_to_fetch-IsValid (same nat_ord) (λ t. t) keep_order 0 waiting keep_order-IsShuffle
      waiting-IsValid

abbrev is_key : ℕ → Option ℕ
is_key n = some n

abbrev fetching : ReplicationFetcher ℕ ℕ
fetching = record {
  to_be_fetched = (5, (1, record { sent = 0; status = on_going; failed = 0 }) ∷ []) ∷ [];
  on_going_fetches = 8;
}

add_keys_stalls_example :
    (f' : ReplicationFetcher ℕ ℕ) × (call
        (same nat_ord)
        nat_ord
        is_key
        keep_order
        (add (λ t. t) 3 (7 ∷ []) (λ k. true))
        fetching
      ≡ some (f', []))
    × IsStalled f'
add_keys_stalls_example =
    add_keys_stalls (same nat_ord) nat_ord is_key keep_order (λ t. t) 3 (7 ∷ []) (λ k. true)
      fetching keep_order-IsShuffle refl (λ h. cc, tt)

abbrev after_put : List ℕ → RecordStore kademlia
after_put keys = record full_store { records = keys }

abbrev near_tasks : List (Task kademlia)
near_tasks = remove_file 9 ∷ write_file 5 (1 ∷ []) ∷ []

near_put : put_verified full_store near ≡ ok (after_put (3 ∷ 5 ∷ []), near_tasks)
near_put =
    unfold put_verified prune_storage_if_needed_for_record prune_furthest store_record remove
      sort_by_distance sort_insert last contains SortedSet.contains SortedSet.insert in
    refl

put_verified-Evicts_example : Evicts full_store near (after_put (3 ∷ 5 ∷ [])) near_tasks
put_verified-Evicts_example =
    put_verified-Evicts full_store near (after_put (3 ∷ 5 ∷ [])) near_tasks kademlia-IsSymmetric
      full_store-WellFormed (omega arith) near_put

put_verified-WellFormed_example :
    WellFormed (after_put (3 ∷ 5 ∷ [])) × (contains (after_put (3 ∷ 5 ∷ [])) 5 ≡ true)
put_verified-WellFormed_example =
    put_verified-WellFormed full_store near (after_put (3 ∷ 5 ∷ [])) near_tasks kademlia-IsSymmetric
      full_store-WellFormed near_put

abbrev far : Record kademlia
far = record { key = 12; value = 1 ∷ []; publisher = none; expires = none }

put_verified_refuses_example :
    (full_store.max_records ≤ length full_store.records)
    × ((y : ℕ)
        → SortedSet.contains nat_ord y full_store.records ≡ true
        → distance_to full_store y ≤ distance_to full_store far.key)
put_verified_refuses_example =
    put_verified_refuses full_store far max_records kademlia-IsSymmetric full_store-WellFormed (
      unfold put_verified prune_storage_if_needed_for_record prune_furthest store_record remove
        sort_by_distance sort_insert last contains SortedSet.contains SortedSet.insert in
      refl)

-- The record 3 is held already, and 9 is removed for it.
abbrev again : Record kademlia
again = record { key = 3; value = 1 ∷ []; publisher = none; expires = none }

put_verified-held_example : suc (length (after_put (3 ∷ [])).records) ≡ length full_store.records
put_verified-held_example =
    put_verified-held full_store again (after_put (3 ∷ []))
      (remove_file 9 ∷ write_file 3 (1 ∷ []) ∷ []) kademlia-IsSymmetric full_store-WellFormed
      (omega arith) (unfold contains SortedSet.contains in refl)
      (unfold put_verified prune_storage_if_needed_for_record prune_furthest store_record remove
          sort_by_distance sort_insert last contains SortedSet.contains SortedSet.insert in
        refl)

store_cost-pow_example :
    store_cost full_store ≡ min u64_max (start_cost kademlia * 2 ^ step_of full_store)
store_cost-pow_example = store_cost-pow full_store
