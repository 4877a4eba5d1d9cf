-- ===== src/Networking/Fetcher/Stall.antt =====
-- Fetchers of replication_fetcher.rs whose counter is at its maximum while no key is being fetched.
use safe_network.Base.{
  ap, ◌∷◌, [], ◌∙◌, ◌≡◌, ◌<◌, ℕ, List, Option, some, none, true, false, arith, refl, All, length,
}
use safe_network.Base.Assoc.{All-perm}
use safe_network.Networking.Fetcher.{
  remove_keys, finish_key, start_key, failed_holders_count, visit_key, find_on_going, visit_keys,
  visit_holders, max_parallel_fetch, ReplicationFetcher, Holder, pending, next_keys_to_fetch, Pass,
}
use safe_network.Networking.Fetcher.Invariant.{IsShuffle}

-- Nothing is being fetched for the key, and no holder of it has failed.
abbrev pub IsIdle : {K P : Type 0} → K × List (P × Holder) → Type 0
IsIdle e = All (λ x. (x.1.status ≡ pending) × (x.1.failed ≡ 0)) e.1 × (0 < length e.1)

pub record IsStalled {K P : Type 0} (f : ReplicationFetcher K P) : Type 0 where
  pub full : f.on_going_fetches ≡ max_parallel_fetch
  pub idle : All IsIdle f.to_be_fetched

abbrev outcome_of :
    {K P : Type 0}
    → List (K × List (P × Holder))
    → Pass K P
    → List (K × List (P × Holder)) × Pass K P
outcome_of m p = (m, p)

abbrev after :
    {K P : Type 0} (dec : Discrete K)
    → List (K × List (P × Holder)) × Pass K P
    → Option (ReplicationFetcher K P × List (K × Option P))
after dec r = some (
  record {
    to_be_fetched = remove_keys dec r.1.to_be_removed r.0;
    on_going_fetches = r.1.ongoing_count;
  },
  r.1.keys_to_fetch,
)

module _ {K P : Type 0} (dec : Discrete K) (clock : ℕ → ℕ) where
  idle_holders :
      (key : K) (hs : List (P × Holder)) (p : Pass K P)
      → All (λ x. (x.1.status ≡ pending) × (x.1.failed ≡ 0)) hs
      → visit_holders dec clock 0 true key none hs p ≡ (hs, p)
  unfolding visit_holders
  idle_holders key [] p h = refl
  idle_holders key ((peer, g) ∷ hs) p h = rw (h.0.0, idle_holders key hs p h.1)

  idle_start :
      (hs : List (P × Holder))
      → All (λ x. (x.1.status ≡ pending) × (x.1.failed ≡ 0)) hs
      → find_on_going hs ≡ none
  unfolding find_on_going
  idle_start [] h = refl
  idle_start ((peer, g) ∷ hs) h = rw h.0.0 (idle_start hs h.1)

  idle_failed :
      (hs : List (P × Holder))
      → All (λ x. (x.1.status ≡ pending) × (x.1.failed ≡ 0)) hs
      → failed_holders_count hs ≡ 0
  unfolding failed_holders_count
  idle_failed [] h = refl
  idle_failed ((peer, g) ∷ hs) h = ground (arith, h.0.1, idle_failed hs h.1)

  idle_key :
      (key : K) (hs : List (P × Holder)) (p : Pass K P)
      → IsIdle (key, hs)
      → p.key_added_to_list ≡ false
      → visit_key dec clock 0 true key hs p ≡ (hs, p)
  unfolding visit_key start_key finish_key
  idle_key key hs p h e =
      ground (arith, idle_start hs h.0, idle_failed hs h.0, idle_holders key hs p h.0, h.1)

  idle_keys :
      (m : List (K × List (P × Holder))) (p : Pass K P)
      → All IsIdle m
      → p.key_added_to_list ≡ false
      → visit_keys dec clock 0 true m p ≡ (m, p)
  unfolding visit_keys
  idle_keys [] p h e = refl
  idle_keys ((key, hs) ∷ m) p h e =
      ap
        (λ (r : List (P × Holder) × Pass K P).
          let rest = visit_keys dec clock 0 true m r.1 in outcome_of ((key, r.0) ∷ rest.0) rest.1)
        (idle_key key hs p h.0 e)
      ∙ ap (λ (r : List (K × List (P × Holder)) × Pass K P). ((key, hs) ∷ r.0, r.1))
          (idle_keys m p h.1 e)

  module _ (shuffle : List (K × List (P × Holder)) → List (K × List (P × Holder))) where
    abbrev pub full_fetcher : List (K × List (P × Holder)) → ReplicationFetcher K P
    full_fetcher m = record { to_be_fetched = m; on_going_fetches = max_parallel_fetch }

    pub stalled_at :
        (reads : ℕ) (m : List (K × List (P × Holder)))
        → IsShuffle shuffle
        → All IsIdle m
        → next_keys_to_fetch dec clock shuffle reads (full_fetcher m)
          ≡ some (full_fetcher (shuffle m), [])
    unfolding next_keys_to_fetch remove_keys
    stalled_at reads m perm h =
        ap (after dec) (idle_keys (shuffle m) _ (All-perm IsIdle (perm m) h) refl)

    -- A stalled fetcher stays as it is, up to the order of its keys, and requests nothing.
    pub next_keys_to_fetch-IsStalled :
        (reads : ℕ) (f : ReplicationFetcher K P)
        → IsShuffle shuffle
        → IsStalled f
        → (f' : ReplicationFetcher K P) × (next_keys_to_fetch dec clock shuffle reads f
            ≡ some (f', []))
          × IsStalled f'
    next_keys_to_fetch-IsStalled reads f perm s =
        let e : f ≡ full_fetcher f.to_be_fetched = ground (arith, s.full) in
        (
          full_fetcher (shuffle f.to_be_fetched),
          ap (next_keys_to_fetch dec clock shuffle reads) e
              ∙ stalled_at reads f.to_be_fetched perm s.idle,
          record { full = refl; idle = All-perm IsIdle (perm f.to_be_fetched) s.idle },
        )
