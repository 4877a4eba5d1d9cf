-- ===== src/Networking/Fetcher/Calls.antt =====
-- Sequences of calls of the entry points of replication_fetcher.rs.
use safe_network.Base.{
  ◌∷◌, [], ◌≡◌, ◌-◌, ℕ, suc, List, Option, some, none, Bool, true, false, arith, refl, All, not,
  filter, if◌then◌else◌, Ordering, All-filter,
}
use safe_network.Base.Order.{Ord}
use safe_network.Base.Assoc.{
  All-update_or_insert, IsDistinct-update_or_insert, lookup, remove, IsFresh, IsDistinct,
  IsDistinct-remove, All-remove,
}
use safe_network.Networking.Fetcher.{
  is_active, ReplicationFetcher, Holder, pending, next_keys_to_fetch, or_insert, add_holder_pey_key,
  retain_keys, add_incoming, add_keys, notify_about_new_put, record_keys,
}
use safe_network.Networking.Fetcher.Bounds.{IsValid, HoldersOk, HolderOk}
use safe_network.Networking.Fetcher.Invariant.{IsShuffle, next_keys_to_fetch-IsValid}

IsFresh-filter {ℓ} :
    {K V : Type ℓ} (p : K × V → Bool) (k : K) (m : List (K × V))
    → IsFresh k m
    → IsFresh k (filter p m)
IsFresh-filter p k [] h = tt
IsFresh-filter p k (e ∷ m) h = ground (arith, IsFresh-filter p k m)

IsDistinct-filter {ℓ} :
    {K V : Type ℓ} (p : K × V → Bool) (m : List (K × V)) → IsDistinct m → IsDistinct (filter p m)
IsDistinct-filter p [] h = tt
IsDistinct-filter p (e ∷ m) h = ground (arith, IsFresh-filter p e.0 m, IsDistinct-filter p m)

module _ {K P : Type 0} (dec : Discrete K) (peers : Ord P) where
  or_insert-ok :
      (peer : P) (h : Holder) (hs : List (P × Holder))
      → HolderOk h
      → All (λ x. HolderOk x.1) hs
      → All (λ x. HolderOk x.1) (or_insert dec peers peer h hs)
  unfolding or_insert
  or_insert-ok peer h [] a b = (a, tt)
  or_insert-ok peer h ((q, g) ∷ hs) a b =
      elim (peers.cmp peer q)
        as (λ c.
          All (λ x. HolderOk x.1)
            (elim c [
              | Ordering.lt ↦ (peer, h) ∷ (q, g) ∷ hs
              | Ordering.eq ↦ (q, g) ∷ hs
              | Ordering.gt ↦ (q, g) ∷ or_insert dec peers peer h hs
            ])) [
              | Ordering.lt ↦ (a, b)
              | Ordering.eq ↦ b
              | Ordering.gt ↦ (b.0, or_insert-ok peer h hs a b.1)
            ]

  add_holder_pey_key-IsValid :
      (key : K) (peer : P) (now : ℕ) (f : ReplicationFetcher K P)
      → IsValid f
      → IsValid (add_holder_pey_key dec peers key peer now f)
  unfolding add_holder_pey_key
  add_holder_pey_key-IsValid key peer now f v =
      let h : Holder = record { sent = now; status = pending; failed = 0 } in
      let fine : HolderOk h = (omega arith, λ e. refl) in
      record {
        bounded = v.bounded;
        distinct =
            IsDistinct-update_or_insert dec key [] (or_insert dec peers peer h) f.to_be_fetched
              v.distinct;
        holders_ok =
            All-update_or_insert dec HoldersOk key [] (or_insert dec peers peer h) f.to_be_fetched
              (or_insert-ok peer h [] fine tt) (λ j hs ok. or_insert-ok peer h hs fine ok)
              v.holders_ok;
      }

  retain_keys-IsValid :
      (stored : K → Bool) (f : ReplicationFetcher K P)
      → IsValid f
      → IsValid (retain_keys dec peers stored f)
  unfolding retain_keys
  retain_keys-IsValid stored f v = record {
    bounded = v.bounded;
    distinct = IsDistinct-filter (λ e. not (stored e.0)) f.to_be_fetched v.distinct;
    holders_ok = All-filter HoldersOk (λ e. not (stored e.0)) f.to_be_fetched v.holders_ok;
  }

  add_incoming-IsValid :
      (clock : ℕ → ℕ) (stored : K → Bool) (peer : P) (reads : ℕ) (keys : List K)
      (f : ReplicationFetcher K P)
      → IsValid f
      → IsValid (add_incoming dec peers clock stored peer reads keys f).0
  unfolding add_incoming
  add_incoming-IsValid clock stored peer reads [] f v = v
  add_incoming-IsValid clock stored peer reads (key ∷ keys) f v =
      add_incoming-IsValid clock stored peer (if stored key then reads else suc reads) keys
        (if stored key then f else add_holder_pey_key dec peers key peer (clock reads) f)
        (step (stored key))
    where
      step :
          (b : Bool)
          → IsValid (if b then f else add_holder_pey_key dec peers key peer (clock reads) f)
      step true = v
      step false = add_holder_pey_key-IsValid key peer (clock reads) f v

  module _ {Addr : Type 0} (as_record_key : Addr → Option K) where
    -- A call of one of the three entry points, with the clock and the random order that it meets.
    pub data Call : Type 0 where
      add : (ℕ → ℕ) → P → List Addr → (K → Bool) → Call
      put : (ℕ → ℕ) → K → Call
      next : (ℕ → ℕ) → Call

    module _ (shuffle : List (K × List (P × Holder)) → List (K × List (P × Holder))) where
      unfoldable pub call :
          Call → ReplicationFetcher K P → Option (ReplicationFetcher K P × List (K × Option P))
      unfolding add_keys notify_about_new_put next_keys_to_fetch
      call (add clock peer addrs stored) f =
          add_keys dec peers as_record_key clock shuffle peer addrs stored f
      call (put clock key) f = notify_about_new_put dec clock shuffle key f
      call (next clock) f = next_keys_to_fetch dec clock shuffle 0 f

      unfoldable pub calls : List Call → ReplicationFetcher K P → Option (ReplicationFetcher K P)
      unfolding call
      calls [] f = some f
      calls (c ∷ cs) f = elim (call c f) [ none ↦ none | some (f', out) ↦ calls cs f' ]

      notify_about_new_put-IsValid :
          (clock : ℕ → ℕ) (key : K) (f : ReplicationFetcher K P)
          → IsShuffle shuffle
          → IsValid f
          → (f' : ReplicationFetcher K P) × (out : List (K × Option P)) × (notify_about_new_put dec
                clock shuffle key f
              ≡ some (f', out))
            × IsValid f'
      unfolding notify_about_new_put
      notify_about_new_put-IsValid clock key f perm v =
          let g : ReplicationFetcher K P = record {
            to_be_fetched = remove dec key f.to_be_fetched;
            on_going_fetches =
                if is_active (lookup dec key f.to_be_fetched)
                then f.on_going_fetches - 1
                else f.on_going_fetches;
          } in
          let w : IsValid g = record {
            bounded = ground (arith, v.bounded);
            distinct = IsDistinct-remove dec key f.to_be_fetched v.distinct;
            holders_ok = All-remove dec HoldersOk key f.to_be_fetched v.holders_ok;
          } in
          let (f', out, e, ok, _) = next_keys_to_fetch-IsValid dec clock shuffle 0 g perm w in
          (f', out, e, ok)

      -- Every call in a valid state returns, and leaves a valid state.
      pub call-IsValid :
          (c : Call) (f : ReplicationFetcher K P)
          → IsShuffle shuffle
          → IsValid f
          → (f' : ReplicationFetcher K P) × (out : List (K × Option P)) × (call c f
              ≡ some (f', out))
            × IsValid f'
      unfolding call
      call-IsValid (add clock peer addrs stored) f perm v =
          let filled =
            add_incoming dec peers clock stored peer 0 (record_keys dec peers as_record_key addrs)
              (retain_keys dec peers stored f) in
          let w =
            add_incoming-IsValid clock stored peer 0 (record_keys dec peers as_record_key addrs)
              (retain_keys dec peers stored f) (retain_keys-IsValid stored f v) in
          let (f', out, e, ok, _) =
            next_keys_to_fetch-IsValid dec clock shuffle filled.1 filled.0 perm w in
          (f', out, e, ok)
      call-IsValid (put clock key) f perm v = notify_about_new_put-IsValid clock key f perm v
      call-IsValid (next clock) f perm v =
          let (f', out, e, ok, _) = next_keys_to_fetch-IsValid dec clock shuffle 0 f perm v in
          (f', out, e, ok)

      -- From a valid fetcher, with any shuffle that permutes, every sequence of calls returns
      -- without underflow, and the fetcher is valid afterwards.
      pub calls-IsValid :
          (cs : List Call) (f : ReplicationFetcher K P)
          → IsShuffle shuffle
          → IsValid f
          → (f' : ReplicationFetcher K P) × (calls cs f ≡ some f') × IsValid f'
      unfolding calls
      calls-IsValid [] f perm v = (f, refl, v)
      calls-IsValid (c ∷ cs) f perm v =
          let (f₁, out, e, v₁) = call-IsValid c f perm v in
          let (f', done, v') = calls-IsValid cs f₁ perm v₁ in (f', rw (e, calls) done, v')
