-- ===== src/Networking/Fetcher/Invariant.antt =====
-- `next_keys_to_fetch` of replication_fetcher.rs on valid fetchers.
use mathlib.Core.List.{Permᴰ}
use safe_network.Base.{
  leb, ◌∷◌, [], ◌≡◌, ◌≤◌, ◌+◌, ◌-◌, ℕ, List, Option, some, none, false, arith, refl, All,
}
use safe_network.Base.Assoc.{
  IsDistinct-remove, All-remove, remove, lookup, IsDistinct, IsDistinct-perm, All-perm,
}
use safe_network.Networking.Fetcher.{
  visit_keys, max_parallel_fetch, remove_keys, ReplicationFetcher, Pass, Holder, next_keys_to_fetch,
}
use safe_network.Networking.Fetcher.Bounds.{
  IsDistinct-visit_keys, visit_keys-ok, peer_requests, HoldersOk, IsValid,
}

-- The random order is a permutation.
abbrev pub IsShuffle {ℓ} : {A : Type ℓ} → (List A → List A) → Type ℓ
IsShuffle {A = A} shuffle = (l : List A) → Permᴰ l (shuffle l)

module _ {K P : Type 0} (dec : Discrete K) where
  remove_keys-IsDistinct :
      (ks : List K) (m : List (K × List (P × Holder)))
      → IsDistinct m
      → IsDistinct (remove_keys dec ks m)
  unfolding remove_keys
  remove_keys-IsDistinct [] m d = d
  remove_keys-IsDistinct (k ∷ ks) m d =
      remove_keys-IsDistinct ks (remove dec k m) (IsDistinct-remove dec k m d)

  remove_keys-holders :
      (ks : List K) (m : List (K × List (P × Holder)))
      → All HoldersOk m
      → All HoldersOk (remove_keys dec ks m)
  unfolding remove_keys
  remove_keys-holders [] m d = d
  remove_keys-holders (k ∷ ks) m d =
      remove_keys-holders ks (remove dec k m) (All-remove dec HoldersOk k m d)

  absent_at_start :
      (m : List (K × List (P × Holder))) → All (λ e. lookup {V = Option P} dec e.0 [] ≡ none) m
  unfolding lookup
  absent_at_start [] = tt
  absent_at_start (e ∷ m) = (refl, absent_at_start m)

  module _ (clock : ℕ → ℕ)
      (shuffle : List (K × List (P × Holder)) → List (K × List (P × Holder))) where
    -- From a valid fetcher, with any shuffle that permutes, the pass returns without underflow,
    -- the fetcher stays valid, and the keys requested from peers and the fetches counted before
    -- are together no more than `max_parallel_fetch`.
    pub next_keys_to_fetch-IsValid :
        (reads : ℕ) (f : ReplicationFetcher K P)
        → IsShuffle shuffle
        → IsValid f
        → (f' : ReplicationFetcher K P) × (out : List (K × Option P)) × (next_keys_to_fetch dec
              clock shuffle reads f
            ≡ some (f', out))
          × IsValid f'
          × (peer_requests out + f.on_going_fetches ≤ max_parallel_fetch)
    unfolding next_keys_to_fetch
    next_keys_to_fetch-IsValid reads f perm v =
        let start : Pass K P = record {
          ongoing_count = f.on_going_fetches;
          keys_to_fetch = [];
          to_be_removed = [];
          key_added_to_list = false;
          reads = reads;
        } in
        let room = max_parallel_fetch - f.on_going_fetches in
        let no_more = leb max_parallel_fetch f.on_going_fetches in
        let m = shuffle f.to_be_fetched in
        let d = IsDistinct-perm (perm f.to_be_fetched) v.distinct in
        let done =
          visit_keys-ok dec clock f.on_going_fetches room (omega (arith, v.bounded)) no_more m start
            d (All-perm HoldersOk (perm f.to_be_fetched) v.holders_ok) (absent_at_start m)
            (record { bounded = v.bounded; asked = omega arith; counted = omega arith }) in
        let m' = (visit_keys dec clock room no_more m start).0 in
        let p' = (visit_keys dec clock room no_more m start).1 in
        (
          record {
            to_be_fetched = remove_keys dec p'.to_be_removed m';
            on_going_fetches = p'.ongoing_count;
          },
          p'.keys_to_fetch,
          ground (arith, v.bounded),
          record {
            bounded = done.1.bounded;
            distinct = remove_keys-IsDistinct p'.to_be_removed m' (
                IsDistinct-visit_keys dec clock f.on_going_fetches room (omega (arith, v.bounded))
                  no_more m start d);
            holders_ok = remove_keys-holders p'.to_be_removed m' done.0;
          },
          omega (arith, done.1.asked, v.bounded),
        )
