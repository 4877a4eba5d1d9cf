-- ===== src/Networking/Fetcher.antt =====
-- sn_networking/src/replication_fetcher.rs.
-- A call reads the clock several times: `clock i` is its reading number `i`, in nanoseconds, and
-- `reads` counts them. `shuffle` is the random order of the keys. A subtraction below zero, which
-- panics where overflow is checked, is `none`.
pub mod Bounds
pub mod Invariant
pub mod Calls
pub mod Stall
pub mod Leak
use safe_network.Base.{
  ℕ, ◌+◌, ◌-◌, ◌*◌, ◌^◌, ◌%◌, suc, List, [], ◌∷◌, Option, none, some, Bool, true, false, ◌||◌, ◌&&◌,
  not, ltb, leb, ◌==◌, length, any, filter, if◌then◌else◌, is_some, map, Ordering,
}
use safe_network.Base.Order.{Ord}
use safe_network.Base.Assoc.{lookup, insert, remove, update_or_insert}

abbrev pub max_parallel_fetch : ℕ
max_parallel_fetch = 8

-- 15 seconds
abbrev pub fetch_timeout : ℕ
fetch_timeout = 15 * 10 ^ 9

abbrev pub max_retries_per_peer : ℕ
max_retries_per_peer = 1

abbrev pub peers_tried_before_network_fetch : ℕ
peers_tried_before_network_fetch = 3

pub data HolderStatus : Type 0 where
  pending on_going : HolderStatus

abbrev pub is_on_going : HolderStatus → Bool
is_on_going pending = false
is_on_going on_going = true

pub record Holder : Type 0 where
  pub sent : ℕ
  pub status : HolderStatus
  -- a `u8`
  pub failed : ℕ

module _ (K P : Type 0) where
  abbrev pub Holders : Type 0
  Holders = List (P × Holder)

  pub record ReplicationFetcher : Type 0 where
    pub to_be_fetched : List (K × Holders)
    pub on_going_fetches : ℕ

  -- The variables of `next_keys_to_fetch` that its loops change.
  pub record Pass : Type 0 where
    pub ongoing_count : ℕ
    pub keys_to_fetch : List (K × Option P)
    pub to_be_removed : List K
    pub key_added_to_list : Bool
    pub reads : ℕ

module _ {P : Type 0} where
  -- `holders.values().find(is ongoing)`: when the request was sent.
  unfoldable pub find_on_going : List (P × Holder) → Option ℕ
  find_on_going [] = none
  find_on_going ((_, h) ∷ hs) = if is_on_going h.status then some h.sent else find_on_going hs

  -- `filter(failed_attempts >= MAX_RETRIES_PER_PEER).count()`
  unfoldable pub failed_holders_count : List (P × Holder) → ℕ
  failed_holders_count hs = length (filter (λ e. leb max_retries_per_peer e.1.failed) hs)

  abbrev pub any_on_going : List (P × Holder) → Bool
  any_on_going = any (λ e. is_on_going e.1.status)

  abbrev pub is_active : Option (List (P × Holder)) → Bool
  is_active none = false
  is_active (some holders) = any_on_going holders

module _ {K P : Type 0} (dec : Discrete K) where
  -- The loop over `to_be_removed`.
  unfoldable pub remove_keys : List K → List (K × List (P × Holder)) → List (K × List (P × Holder))
  remove_keys [] m = m
  remove_keys (k ∷ ks) m = remove_keys ks (remove dec k m)

module _ {K P : Type 0} (dec : Discrete K) (clock : ℕ → ℕ) where
  module _ (room : ℕ) (no_more_fetches_left : Bool) (key : K) (ongoing : Option Bool) where
    -- The guard of the `Pending` branch: `ongoing` is `fetch_for_key_is_ongoing`.
    unfoldable pub must_wait : Holder → Pass K P → Bool
    must_wait h p =
        no_more_fetches_left
        || p.key_added_to_list
        || leb room (length p.keys_to_fetch)
        || leb max_retries_per_peer h.failed
        || (elim ongoing [ none ↦ false | some fetch_will_end_now ↦ not fetch_will_end_now ])

    -- The body of the loop over the holders of a key.
    unfoldable pub visit_status : HolderStatus → P → Holder → Pass K P → Holder × Pass K P
    unfolding must_wait
    visit_status pending peer h p = if must_wait h p then (h, p) else (
      record h { sent = clock p.reads; status = on_going },
      record p {
        ongoing_count = p.ongoing_count + 1;
        keys_to_fetch = insert dec key (some peer) p.keys_to_fetch;
        key_added_to_list = true;
        reads = suc p.reads;
      },
    )
    visit_status on_going peer h p =
        if ltb (h.sent + fetch_timeout) (clock p.reads)
        then (
          record h { failed = (h.failed + 1) % 2 ^ 8; status = pending },
          record p { ongoing_count = p.ongoing_count - 1; reads = suc p.reads },
        )
        else (h, record p { reads = suc p.reads })

    unfoldable pub visit_holders : List (P × Holder) → Pass K P → List (P × Holder) × Pass K P
    unfolding visit_status
    visit_holders [] p = ([], p)
    visit_holders ((peer, h) ∷ hs) p =
        let (h', p') = visit_status h.status peer h p in
        let (hs', p'') = visit_holders hs p' in ((peer, h') ∷ hs', p'')

  -- Whether the key goes to the network, after the loop over its holders.
  unfoldable pub finish_key : K → List (P × Holder) → Pass K P → Pass K P
  unfolding failed_holders_count
  finish_key key holders p =
      let failed = failed_holders_count holders in
      if failed == length holders || leb peers_tried_before_network_fetch failed
      then record p {
        to_be_removed = key ∷ p.to_be_removed;
        keys_to_fetch = insert dec key none p.keys_to_fetch;
        ongoing_count = p.ongoing_count - 1;
      }
      else p

  -- `fetch_for_key_is_ongoing`, and the pass at the start of a key: the clock is read if a holder is
  -- ongoing.
  unfoldable pub start_key : List (P × Holder) → Pass K P → Option Bool × Pass K P
  unfolding find_on_going
  start_key holders p = elim (find_on_going holders) [
    | none ↦ (none, record p { key_added_to_list = false })
    | some sent ↦ (
      some (ltb (sent + fetch_timeout) (clock p.reads)),
      record p { key_added_to_list = false; reads = suc p.reads },
    )
  ]

  unfoldable pub visit_key :
      ℕ → Bool → K → List (P × Holder) → Pass K P → List (P × Holder) × Pass K P
  unfolding start_key visit_holders finish_key
  visit_key room no_more key holders p =
      let (ongoing, p₁) = start_key holders p in
      let (holders', p₂) = visit_holders room no_more key ongoing holders p₁ in
      (holders', finish_key key holders' p₂)

  -- The loop over the shuffled keys.
  unfoldable pub visit_keys :
      ℕ → Bool → List (K × List (P × Holder)) → Pass K P → List (K × List (P × Holder)) × Pass K P
  unfolding visit_key
  visit_keys room no_more [] p = ([], p)
  visit_keys room no_more ((key, holders) ∷ m) p =
      let (holders', p') = visit_key room no_more key holders p in
      let (m', p'') = visit_keys room no_more m p' in ((key, holders') ∷ m', p'')

  module _ (shuffle : List (K × List (P × Holder)) → List (K × List (P × Holder))) where
    unfoldable pub next_keys_to_fetch :
        ℕ → ReplicationFetcher K P → Option (ReplicationFetcher K P × List (K × Option P))
    unfolding visit_keys remove_keys
    next_keys_to_fetch reads f =
        if ltb max_parallel_fetch f.on_going_fetches
        then none
        else (let start : Pass K P = record {
          ongoing_count = f.on_going_fetches;
          keys_to_fetch = [];
          to_be_removed = [];
          key_added_to_list = false;
          reads = reads;
        } in
            let (m, p) =
              visit_keys (max_parallel_fetch - f.on_going_fetches)
                (leb max_parallel_fetch f.on_going_fetches) (shuffle f.to_be_fetched) start in
            some (
              record {
                to_be_fetched = remove_keys dec p.to_be_removed m;
                on_going_fetches = p.ongoing_count;
              },
              p.keys_to_fetch,
            ))

    unfoldable pub notify_about_new_put :
        K → ReplicationFetcher K P → Option (ReplicationFetcher K P × List (K × Option P))
    unfolding next_keys_to_fetch
    notify_about_new_put new_put f =
        let active = is_active (lookup dec new_put f.to_be_fetched) in
        next_keys_to_fetch 0 (record {
          to_be_fetched = remove dec new_put f.to_be_fetched;
          on_going_fetches = if active then f.on_going_fetches - 1 else f.on_going_fetches;
        })

module _ {K P : Type 0} (dec : Discrete K) (peers : Ord P) where
  -- `holders.entry(peer_id).or_insert(holder)` of a `BTreeMap`
  unfoldable pub or_insert : P → Holder → List (P × Holder) → List (P × Holder)
  or_insert peer h [] = (peer, h) ∷ []
  or_insert peer h ((q, g) ∷ hs) =
      let rest = or_insert peer h hs in
      elim (peers.cmp peer q) [
        | Ordering.lt ↦ (peer, h) ∷ (q, g) ∷ hs
        | Ordering.eq ↦ (q, g) ∷ hs
        | Ordering.gt ↦ (q, g) ∷ rest
      ]

  unfoldable pub add_holder_pey_key : K → P → ℕ → ReplicationFetcher K P → ReplicationFetcher K P
  unfolding or_insert
  add_holder_pey_key key peer now f =
      let fresh : Holder = record { sent = now; status = pending; failed = 0 } in
      record f {
        to_be_fetched = update_or_insert dec key [] (or_insert peer fresh) f.to_be_fetched;
      }

  unfoldable pub retain_keys : (K → Bool) → ReplicationFetcher K P → ReplicationFetcher K P
  retain_keys existing f = record f {
    to_be_fetched = filter (λ e. not (existing e.0)) f.to_be_fetched;
  }

  -- The chain over the incoming keys; `stored` is membership in `locally_stored_keys`.
  unfoldable pub add_incoming :
      (ℕ → ℕ) → (K → Bool) → P → ℕ → List K → ReplicationFetcher K P → ReplicationFetcher K P × ℕ
  unfolding add_holder_pey_key
  add_incoming clock stored peer reads [] f = (f, reads)
  add_incoming clock stored peer reads (key ∷ keys) f =
      add_incoming clock stored peer (if stored key then reads else suc reads) keys
        (if stored key then f else add_holder_pey_key key peer (clock reads) f)

  -- `incoming_keys.into_iter().filter_map(as_record_key)`
  unfoldable pub record_keys {ℓ} : {Addr : Type ℓ} → (Addr → Option K) → List Addr → List K
  record_keys as_record_key [] = []
  record_keys as_record_key (a ∷ addrs) =
      let rest = record_keys as_record_key addrs in
      elim (as_record_key a) [ none ↦ rest | some key ↦ key ∷ rest ]

  unfoldable pub add_keys :
      {Addr : Type 0}
      → (Addr → Option K)
      → (ℕ → ℕ)
      → (List (K × List (P × Holder)) → List (K × List (P × Holder)))
      → P
      → List Addr
      → (K → Bool)
      → ReplicationFetcher K P
      → Option (ReplicationFetcher K P × List (K × Option P))
  unfolding retain_keys record_keys add_incoming next_keys_to_fetch
  add_keys as_record_key clock shuffle peer incoming_keys stored f =
      let (f', reads) =
        add_incoming clock stored peer 0 (record_keys as_record_key incoming_keys)
          (retain_keys stored f) in
      next_keys_to_fetch dec clock shuffle reads f'
