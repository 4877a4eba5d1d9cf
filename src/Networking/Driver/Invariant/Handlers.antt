-- ===== src/Networking/Driver/Invariant/Handlers.antt =====
-- Every handler of the swarm driver keeps it sound: the store, the fetcher, the queries, the dialed
-- peers and the close group, whatever arrives.
use safe_network.Base.{
  ℕ, ◌≤◌, ◌≡◌, refl, arith, List, [], ◌∷◌, Option, none, some, false, length, length-take-le,
}
use safe_network.Base.Outcome.{Outcome, ok, err}
use safe_network.Base.SortBy.{sort_by_key}
use safe_network.Networking.RecordStore
use safe_network.Networking.RecordStore.{Kademlia, Record, put_verified, set_distance_range, last}
use safe_network.Networking.RecordStore.Puts.{IsSymmetric, put_verified-WellFormed}
use safe_network.Networking.Fetcher.{ReplicationFetcher}
use safe_network.Networking.Fetcher.Bounds.{IsValid}
use safe_network.Networking.Quorum.{Peers}
use safe_network.Networking.Peers.{PeersError, sort_peers_by_key}
use safe_network.Networking.Driver.{run_on, Net, SwarmDriver, Env, Handler, modify}
use safe_network.Networking.Driver.Peering.{
  set_range_to, compare_close_group, update_record_distance_range, adopt_close_group,
  check_for_change_in_our_close_group,
}
use safe_network.Networking.Driver.Commands.{store_verified, after_put, after_fetch}
use safe_network.Networking.Driver.Queries.{ignore_error}
use safe_network.Networking.Driver.Invariant.{
  has_panicked, IsSound, IsSafe, safe_rules, bind-IsSafe, then-IsSafe, modify-IsSafe, return-IsSafe,
}

sorted_size :
    {A : Type 0} (distance : A → ℕ) (peers closest : List A)
    → sort_peers_by_key distance peers 8 ≡ ok closest
    → length closest ≤ 8
unfolding sort_peers_by_key
sorted_size distance peers closest h = ground (arith, length-take-le 8 (sort_by_key distance peers))

module _ {p : Peers} {k : Kademlia} {n : Net p k} where
  -- A step that is a choice over a computed outcome.
  put-IsSound :
      (r : Record k) (d : SwarmDriver n) (s : RecordStore.RecordStore k)
      (tasks : List (RecordStore.Task k))
      → IsSymmetric k
      → IsSound d
      → put_verified d.store r ≡ ok (s, tasks)
      → IsSound (record d { store = s })
  put-IsSound r d s tasks sym sound h = record {
    store_ok = (put_verified-WellFormed d.store r s tasks sym sound.store_ok h).0;
    fetcher_ok = sound.fetcher_ok;
    queries_ok = sound.queries_ok;
    dialed_ok = sound.dialed_ok;
    group_ok = sound.group_ok;
  }

  range-IsSound :
      (range : ℕ) (d : SwarmDriver n)
      → IsSound d
      → IsSound (record d { store = set_distance_range d.store range })
  unfolding set_distance_range
  range-IsSound range d sound = record {
    store_ok = record {
      is_set = sound.store_ok.is_set;
      within = sound.store_ok.within;
      positive = sound.store_ok.positive;
    };
    fetcher_ok = sound.fetcher_ok;
    queries_ok = sound.queries_ok;
    dialed_ok = sound.dialed_ok;
    group_ok = sound.group_ok;
  }

  set_range_to-IsSafe : (peer : Option p.PeerId) → IsSafe (set_range_to {n = n} peer)
  unfolding set_range_to
  set_range_to-IsSafe none = return-IsSafe none
  set_range_to-IsSafe (some peer) = search (safe_rules, modify-IsSafe, range-IsSound)

  update_range-IsSafe : IsSafe (update_record_distance_range {n = n})
  unfolding update_record_distance_range
  update_range-IsSafe = search (safe_rules, set_range_to-IsSafe)

  set_group-IsSafe :
      (closest : List p.PeerId)
      → length closest ≤ 8
      → IsSafe (modify (λ (d : SwarmDriver n). record d { close_group = closest }))
  set_group-IsSafe closest h = modify-IsSafe _ (λ d s. record {
    store_ok = s.store_ok;
    fetcher_ok = s.fetcher_ok;
    queries_ok = s.queries_ok;
    dialed_ok = s.dialed_ok;
    group_ok = h;
  })

  adopt_close_group-IsSafe :
      (closest new_members : List p.PeerId)
      → length closest ≤ 8
      → IsSafe (adopt_close_group {n = n} closest new_members)
  unfolding adopt_close_group
  adopt_close_group-IsSafe closest [] h = return-IsSafe none
  adopt_close_group-IsSafe closest (m ∷ new_members) h =
      then-IsSafe _ _ (set_group-IsSafe closest h)
        (bind-IsSafe _ _ update_range-IsSafe (λ u. return-IsSafe (some (m ∷ new_members))))

  compare_close_group-IsSafe :
      (old : List p.PeerId) (o : Outcome PeersError (List p.PeerId))
      → ((closest : List p.PeerId) → o ≡ ok closest → length closest ≤ 8)
      → IsSafe (compare_close_group {n = n} old o)
  unfolding compare_close_group
  compare_close_group-IsSafe old (err e) h = return-IsSafe none
  compare_close_group-IsSafe old (ok closest) h =
      adopt_close_group-IsSafe closest _ (h closest refl)

  pub check_for_change-IsSafe : (env : Env n) → IsSafe (check_for_change_in_our_close_group env)
  unfolding check_for_change_in_our_close_group
  check_for_change-IsSafe env = search (safe_rules, compare_close_group-IsSafe, sorted_size)

  pub store_verified-IsSafe : (r : Record k) → IsSymmetric k → IsSafe (store_verified {n = n} r)
  unfolding store_verified after_put run_on
  store_verified-IsSafe r sym = record {
    keeps = λ d s. kept d s (put_verified d.store r) refl;
    no_panic = λ d s. calm d (put_verified d.store r);
  }
    where
      kept :
          (d : SwarmDriver n)
          → IsSound d
          → (o : Outcome RecordStore.Error (RecordStore.RecordStore k × List (RecordStore.Task k)))
          → put_verified d.store r ≡ o
          → IsSound (after_put o d).driver
      kept d s (ok (store, tasks)) h = put-IsSound r d store tasks sym s h
      kept d s (err e) h = s

      calm :
          (d : SwarmDriver n)
          (o : Outcome RecordStore.Error (RecordStore.RecordStore k × List (RecordStore.Task k)))
          → has_panicked (after_put o d).result ≡ false
      calm d (ok (store, tasks)) = refl
      calm d (err e) = refl

  after_fetch-IsSound :
      (d : SwarmDriver n) (f : ReplicationFetcher k.Key p.PeerId)
      (out : List (k.Key × Option p.PeerId))
      → IsSound d
      → IsValid f
      → IsSound (after_fetch (some (f, out)) d).driver
  unfolding after_fetch
  after_fetch-IsSound d f out s v = record {
    store_ok = s.store_ok;
    fetcher_ok = v;
    queries_ok = s.queries_ok;
    dialed_ok = s.dialed_ok;
    group_ok = s.group_ok;
  }

  pub ignore-IsSafe : (m : Handler n Unit) → IsSafe m → IsSafe (ignore_error m)
  unfolding ignore_error run_on
  ignore-IsSafe m h = record { keeps = h.keeps; no_panic = λ d s. refl }
