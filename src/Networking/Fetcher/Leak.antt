-- ===== src/Networking/Fetcher/Leak.antt =====
-- Calls of replication_fetcher.rs on a stalled fetcher, and `retain_keys` on keys that are being fetched.
use safe_network.Base.{
  All-map, Ordering, if◌then◌else◌, inl, inr, suc, Bool-cases, ◌∷◌, [], ◌≡◌, List, Option, some,
  Bool, true, false, arith, refl, All, filter, not, ℕ,
}
use safe_network.Base.Order.{Ord}
use safe_network.Base.Assoc.{remove, All-update_or_insert, All-remove, lookup}
use safe_network.Networking.Fetcher.{
  record_keys, notify_about_new_put, add_keys, add_holder_pey_key, any_on_going, max_parallel_fetch,
  retain_keys, add_incoming, is_active, or_insert, ReplicationFetcher, Holder, pending,
}
use safe_network.Networking.Fetcher.Invariant.{IsShuffle}
use safe_network.Networking.Fetcher.Calls.{Call, add, put, next, call}
use safe_network.Networking.Fetcher.Stall.{IsIdle, IsStalled, next_keys_to_fetch-IsStalled}

module _ {K P : Type 0} (dec : Discrete K) (peers : Ord P) where
  or_insert-IsIdle :
      (key : K) (peer : P) (now : ℕ) (hs : List (P × Holder))
      → All (λ x. (x.1.status ≡ pending) × (x.1.failed ≡ 0)) hs
      → IsIdle
          (key, or_insert dec peers peer (record { sent = now; status = pending; failed = 0 }) hs)
  unfolding or_insert
  or_insert-IsIdle key peer now [] h = ((((refl, refl), tt), omega arith))
  or_insert-IsIdle key peer now ((q, g) ∷ hs) h =
      elim (peers.cmp peer q)
        as (λ c. IsIdle {P = P} (
          key,
          elim c [
            | Ordering.lt ↦
                (peer, record { sent = now; status = pending; failed = 0 }) ∷ (q, g) ∷ hs
            | Ordering.eq ↦ (q, g) ∷ hs
            | Ordering.gt ↦
                (q, g)
                ∷ or_insert dec peers peer (record { sent = now; status = pending; failed = 0 }) hs
          ],
        )) [
          | Ordering.lt ↦ (((refl, refl), h), omega arith)
          | Ordering.eq ↦ (h, omega arith)
          | Ordering.gt ↦ ((h.0, (or_insert-IsIdle key peer now hs h.1).0), omega arith)
        ]

  add_incoming-IsStalled :
      (clock : ℕ → ℕ) (stored : K → Bool) (peer : P) (reads : ℕ) (keys : List K)
      (f : ReplicationFetcher K P)
      → IsStalled f
      → IsStalled (add_incoming dec peers clock stored peer reads keys f).0
  unfolding add_incoming
  add_incoming-IsStalled clock stored peer reads [] f s = s
  add_incoming-IsStalled clock stored peer reads (key ∷ keys) f s =
      add_incoming-IsStalled clock stored peer (if stored key then reads else suc reads) keys
        (if stored key then f else add_holder_pey_key dec peers key peer (clock reads) f)
        (step (stored key))
    where
      step :
          (b : Bool)
          → IsStalled (if b then f else add_holder_pey_key dec peers key peer (clock reads) f)
      step true = s
      step false = record {
        full = s.full;
        idle =
            All-update_or_insert dec IsIdle key []
              (or_insert dec peers peer
                (record { sent = clock reads; status = pending; failed = 0 }))
              f.to_be_fetched (or_insert-IsIdle key peer (clock reads) [] tt)
              (λ j hs h. or_insert-IsIdle j peer (clock reads) hs h.0) s.idle;
      }

  -- Dropping every key that is not idle, because it is stored, leaves the counter at its maximum, with
  -- idle keys only.
  pub retain_keys-IsStalled :
      (stored : K → Bool) (f : ReplicationFetcher K P)
      → f.on_going_fetches ≡ max_parallel_fetch
      → All (λ e. stored e.0 ≡ false → IsIdle e) f.to_be_fetched
      → IsStalled (retain_keys dec peers stored f)
  unfolding retain_keys
  retain_keys-IsStalled stored f full h = record { full = full; idle = kept f.to_be_fetched h }
    where
      kept :
          (m : List (K × List (P × Holder)))
          → All (λ e. stored e.0 ≡ false → IsIdle e) m
          → All IsIdle (filter (λ e. not (stored e.0)) m)
      kept [] h = tt
      kept (e ∷ m) h = elim (Bool-cases (stored e.0)) [
        | inl t ↦ rw t (kept m h.1)
        | inr t ↦ rw t (h.0 t, kept m h.1)
      ]

  idle-inactive :
      (key : K) (m : List (K × List (P × Holder)))
      → All IsIdle m
      → is_active (lookup dec key m) ≡ false
  unfolding lookup
  idle-inactive key [] h = refl
  idle-inactive key ((j, hs) ∷ m) h = ground (arith, idle-inactive key m h.1, none_active hs h.0.0)
    where
      none_active :
          (hs : List (P × Holder))
          → All (λ x. (x.1.status ≡ pending) × (x.1.failed ≡ 0)) hs
          → any_on_going hs ≡ false
      none_active [] h = refl
      none_active ((q, g) ∷ hs) h = rw h.0.0 (none_active hs h.1)

  module _ {Addr : Type 0} (as_record_key : Addr → Option K)
      (shuffle : List (K × List (P × Holder)) → List (K × List (P × Holder))) where
    -- With any shuffle that permutes, whatever is called on a stalled fetcher requests nothing,
    -- from a peer or from the network, and leaves it stalled.
    pub call-IsStalled :
        (c : Call dec peers as_record_key) (f : ReplicationFetcher K P)
        → IsShuffle shuffle
        → IsStalled f
        → (f' : ReplicationFetcher K P) × (call dec peers as_record_key shuffle c f ≡ some (f', []))
          × IsStalled f'
    unfolding call add_keys notify_about_new_put
    call-IsStalled (add clock peer addrs stored) f perm s =
        let filled =
          add_incoming dec peers clock stored peer 0 (record_keys dec peers as_record_key addrs)
            (retain_keys dec peers stored f) in
        let kept =
          retain_keys-IsStalled stored f s.full (All-map (λ e h _. h) f.to_be_fetched s.idle) in
        next_keys_to_fetch-IsStalled dec clock shuffle filled.1 filled.0 perm (
          add_incoming-IsStalled clock stored peer 0 (record_keys dec peers as_record_key addrs)
            (retain_keys dec peers stored f) kept)
    call-IsStalled (put clock key) f perm s = rw (idle-inactive key f.to_be_fetched s.idle) (
        next_keys_to_fetch-IsStalled dec clock shuffle 0
          (record f { to_be_fetched = remove dec key f.to_be_fetched }) perm
          (record { full = s.full; idle = All-remove dec IsIdle key f.to_be_fetched s.idle }))
    call-IsStalled (next clock) f perm s = next_keys_to_fetch-IsStalled dec clock shuffle 0 f perm s

    -- If the counter is at its maximum, the shuffle permutes, and every key that is not reported
    -- as stored when `add_keys` is called is idle (it has a holder, and all its holders are
    -- pending without a failure), then that call requests nothing and leaves the counter at its
    -- maximum with idle keys only.
    pub add_keys_stalls :
        (clock : ℕ → ℕ) (peer : P) (addrs : List Addr) (stored : K → Bool)
        (f : ReplicationFetcher K P)
        → IsShuffle shuffle
        → f.on_going_fetches ≡ max_parallel_fetch
        → All (λ e. stored e.0 ≡ false → IsIdle e) f.to_be_fetched
        → (f' : ReplicationFetcher K P) × (call dec peers as_record_key shuffle
              (add clock peer addrs stored)
              f
            ≡ some (f', []))
          × IsStalled f'
    unfolding call add_keys
    add_keys_stalls clock peer addrs stored f perm full h =
        let filled =
          add_incoming dec peers clock stored peer 0 (record_keys dec peers as_record_key addrs)
            (retain_keys dec peers stored f) in
        next_keys_to_fetch-IsStalled dec clock shuffle filled.1 filled.0 perm (
          add_incoming-IsStalled clock stored peer 0 (record_keys dec peers as_record_key addrs)
            (retain_keys dec peers stored f) (retain_keys-IsStalled stored f full h))
