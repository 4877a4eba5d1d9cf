-- ===== src/Networking/Driver/Invariant/Commands.antt =====
-- Every command of cmd.rs keeps the swarm driver sound.
use safe_network.Base.{◌≡◌, refl, List, [], ◌∷◌, Option, none, some, false, filter, All}
use safe_network.Base.Order.{eqb}
use safe_network.Base.Assoc
use safe_network.Networking.RecordStore
use safe_network.Networking.RecordStore.{Kademlia, Record}
use safe_network.Networking.RecordStore.Puts.{IsSymmetric}
use safe_network.Networking.Fetcher.{ReplicationFetcher}
use safe_network.Networking.Fetcher.Bounds.{IsValid}
use safe_network.Networking.Fetcher.Invariant.{IsShuffle}
use safe_network.Networking.Fetcher.Calls.{Call, add, put, call, call-IsValid}
use safe_network.Networking.Quorum.{Peers, GetRecordResultMap}
use safe_network.Networking.Quorum.Answers.{nothing-Represents}
use safe_network.Networking.Driver.{
  Net, SwarmDriver, Env, handler, run_on, modify, MsgResponder, from_self, from_peer,
  outgoing_response_dropped,
}
use safe_network.Networking.Driver.Addresses.{dial_address}
use safe_network.Networking.Driver.Peering.{get_all_local_peers, is_in_close_range}
use safe_network.Networking.Driver.Commands.{
  SwarmCmd, add_keys_to_replication_fetcher, get_network_record, get_local_store_cost,
  get_local_record, put_record, put_local_record, record_store_has_key,
  get_all_local_record_addresses, start_listening, dial_peer, get_closest_peers,
  get_closest_local_peers, get_local_peers, get_our_close_group, request_peer, respond,
  get_swarm_local_state, send_keys, after_fetch, notify_fetcher, add_keys_to_fetcher,
  send_request_cmd, send_response_cmd, handle_cmd,
}
use safe_network.Networking.Driver.Invariant.{
  Counts, IsSound, IsSafe, safe_rules, has_panicked, then-IsSafe, bind-IsSafe, modify-IsSafe,
  fail-IsSafe, emit-IsSafe, if-IsSafe, get-IsSafe, send-IsSafe, send_event-IsSafe,
}
use safe_network.Networking.Driver.Invariant.Handlers.{store_verified-IsSafe}

module _ {p : Peers} {k : Kademlia} {n : Net p k} where
  -- The pending queries and requests are no part of the other conditions.
  pub queries-IsSound :
      (queries : List (n.QueryId × (n.Sender × GetRecordResultMap p k))) (d : SwarmDriver n)
      → IsSound d
      → All (λ e. Counts e.1.1) queries
      → IsSound (record d { pending_get_record = queries })
  queries-IsSound queries d s a = record {
    store_ok = s.store_ok;
    fetcher_ok = s.fetcher_ok;
    queries_ok = a;
    dialed_ok = s.dialed_ok;
    group_ok = s.group_ok;
  }

  after_fetch-IsSound :
      (d : SwarmDriver n) (f : ReplicationFetcher k.Key p.PeerId)
      (out : List (k.Key × Option p.PeerId))
      → IsSound d
      → IsValid f
      → IsSound (after_fetch (some (f, out)) d).driver
  unfolding after_fetch
  after_fetch-IsSound d f out s v = record {
    store_ok = s.store_ok;
    fetcher_ok = v;
    queries_ok = s.queries_ok;
    dialed_ok = s.dialed_ok;
    group_ok = s.group_ok;
  }

  module _ (env : Env n) (fair : IsShuffle env.shuffle) where
    -- A call of the fetcher that is chosen by the state returns, and keeps it valid.
    fetch-IsSafe :
        (c : SwarmDriver n → Call n.key_eq p.peer_ord n.as_record_key)
        → IsSafe (
            handler (λ d.
              after_fetch
                (call n.key_eq p.peer_ord n.as_record_key env.shuffle (c d) d.replication_fetcher)
                d))
    unfolding run_on after_fetch
    fetch-IsSafe c = record {
      keeps = λ d s.
          let (f, out, e, v) =
            call-IsValid n.key_eq p.peer_ord n.as_record_key env.shuffle (c d) d.replication_fetcher
              fair s.fetcher_ok in
          rw e (after_fetch-IsSound d f out s v);
      no_panic = λ d s.
          let (f, out, e, v) =
            call-IsValid n.key_eq p.peer_ord n.as_record_key env.shuffle (c d) d.replication_fetcher
              fair s.fetcher_ok in
          rw e refl;
    }

    notify_fetcher-IsSafe : (key : k.Key) → IsSafe (notify_fetcher env key)
    unfolding notify_fetcher call
    notify_fetcher-IsSafe key = fetch-IsSafe (λ d. put env.clock key)

    add_keys_to_fetcher-IsSafe :
        (peer : p.PeerId) (keys : List n.NetworkAddress)
        → IsSafe (add_keys_to_fetcher env peer keys)
    unfolding add_keys_to_fetcher call
    add_keys_to_fetcher-IsSafe peer keys = fetch-IsSafe (λ d.
        add env.clock peer (filter (λ key. is_in_close_range n key (get_all_local_peers env)) keys)
          (RecordStore.contains d.store))

  send_keys-IsSafe : (keys : List (k.Key × Option p.PeerId)) → IsSafe (send_keys {n = n} keys)
  unfolding send_keys
  send_keys-IsSafe [] = search safe_rules
  send_keys-IsSafe (x ∷ keys) = search safe_rules

  send_request-IsSafe :
      (env : Env n) (req : n.Request) (peer : p.PeerId) (sender : Option n.Sender)
      → IsSafe (send_request_cmd env req peer sender)
  unfolding send_request_cmd
  send_request-IsSafe env req peer sender =
      let change : (d : SwarmDriver n)
          → IsSound d
          → IsSound (record d {
            pending_requests = Assoc.insert n.request_eq env.request_id sender d.pending_requests;
          }) =
        λ d s. record {
          store_ok = s.store_ok;
          fetcher_ok = s.fetcher_ok;
          queries_ok = s.queries_ok;
          dialed_ok = s.dialed_ok;
          group_ok = s.group_ok;
        } in
      if-IsSafe (eqb p.peer_ord peer p.self_peer_id) _ _ (send_event-IsSafe _)
        (then-IsSafe _ _ (emit-IsSafe _) (modify-IsSafe _ change))

  send_response-IsSafe :
      (env : Env n) (resp : n.Response) (channel : MsgResponder n)
      → IsSafe (send_response_cmd env resp channel)
  unfolding send_response_cmd
  send_response-IsSafe env resp (from_self (some sender)) = search safe_rules
  send_response-IsSafe env resp (from_self none) = search safe_rules
  send_response-IsSafe env resp (from_peer channel) =
      if-IsSafe (env.accepts_response channel) _ _ (emit-IsSafe _)
        (fail-IsSafe outgoing_response_dropped refl)

  start_get_record-IsSafe :
      (env : Env n) (sender : n.Sender)
      → IsSafe (
          modify (λ (d : SwarmDriver n). record d {
            pending_get_record =
                Assoc.insert n.query_eq env.query_id (sender, []) d.pending_get_record;
          }))
  start_get_record-IsSafe env sender = modify-IsSafe _ (λ d s. queries-IsSound _ d s (
      Assoc.All-insert n.query_eq (λ e. Counts e.1.1) env.query_id (sender, []) d.pending_get_record
        ([], nothing-Represents) s.queries_ok))

  start_closest_peers-IsSafe :
      (env : Env n) (id : n.QueryId) (query : n.Sender × List p.PeerId)
      → IsSafe (
          modify (λ (d : SwarmDriver n). record d {
            pending_get_closest_peers =
                Assoc.insert n.query_eq id query d.pending_get_closest_peers;
          }))
  start_closest_peers-IsSafe env id query = modify-IsSafe _ (λ d s. record {
    store_ok = s.store_ok;
    fetcher_ok = s.fetcher_ok;
    queries_ok = s.queries_ok;
    dialed_ok = s.dialed_ok;
    group_ok = s.group_ok;
  })

  pub handle_cmd-IsSafe :
      (env : Env n) (c : SwarmCmd n)
      → IsSymmetric k
      → IsShuffle env.shuffle
      → IsSafe (handle_cmd env c)
  unfolding handle_cmd dial_address
  handle_cmd-IsSafe env (add_keys_to_replication_fetcher peer keys) sym fair =
      bind-IsSafe _ _ (add_keys_to_fetcher-IsSafe env fair peer keys) send_keys-IsSafe
  handle_cmd-IsSafe env (get_network_record key sender) sym fair =
      then-IsSafe _ _ (emit-IsSafe _) (start_get_record-IsSafe env sender)
  handle_cmd-IsSafe env (put_local_record r) sym fair =
      then-IsSafe _ _ (store_verified-IsSafe r sym)
        (bind-IsSafe _ _ (notify_fetcher-IsSafe env fair r.key) send_keys-IsSafe)
  handle_cmd-IsSafe env (get_closest_peers key sender) sym fair =
      then-IsSafe _ _ (emit-IsSafe _) (start_closest_peers-IsSafe env env.query_id (sender, []))
  handle_cmd-IsSafe env (request_peer req peer sender) sym fair =
      send_request-IsSafe env req peer sender
  handle_cmd-IsSafe env (respond resp channel) sym fair = send_response-IsSafe env resp channel
  handle_cmd-IsSafe env (get_local_store_cost sender) sym fair =
      bind-IsSafe _ _ get-IsSafe (λ d. send-IsSafe _ _)
  handle_cmd-IsSafe env (get_local_record key sender) sym fair =
      bind-IsSafe _ _ get-IsSafe (λ d. send-IsSafe _ _)
  handle_cmd-IsSafe env (put_record r sender) sym fair =
      then-IsSafe _ _ (emit-IsSafe _) (send-IsSafe _ _)
  handle_cmd-IsSafe env (record_store_has_key key sender) sym fair =
      bind-IsSafe _ _ get-IsSafe (λ d. send-IsSafe _ _)
  handle_cmd-IsSafe env (get_all_local_record_addresses sender) sym fair =
      bind-IsSafe _ _ get-IsSafe (λ d. send-IsSafe _ _)
  handle_cmd-IsSafe env (start_listening addr sender) sym fair =
      then-IsSafe _ _ (emit-IsSafe _) (send-IsSafe _ _)
  handle_cmd-IsSafe env (dial_peer addr sender) sym fair =
      then-IsSafe _ _ (emit-IsSafe _) (send-IsSafe _ _)
  handle_cmd-IsSafe env (get_closest_local_peers key sender) sym fair = send-IsSafe _ _
  handle_cmd-IsSafe env (get_local_peers sender) sym fair = send-IsSafe _ _
  handle_cmd-IsSafe env (get_our_close_group sender) sym fair =
      bind-IsSafe _ _ get-IsSafe (λ d. send-IsSafe _ _)
  handle_cmd-IsSafe env (get_swarm_local_state sender) sym fair = search safe_rules

  -- Whatever the command, with a symmetric distance and a shuffle that permutes, a sound driver
  -- is sound afterwards, and no subtraction of the fetcher goes below zero.
  pub handle_cmd-IsSound :
      (env : Env n) (c : SwarmCmd n) (d : SwarmDriver n)
      → IsSymmetric k
      → IsShuffle env.shuffle
      → IsSound d
      → IsSound (run_on d (handle_cmd env c)).driver
        × (has_panicked (run_on d (handle_cmd env c)).result ≡ false)
  handle_cmd-IsSound env c d sym fair s =
      let safe = handle_cmd-IsSafe env c sym fair in (safe.keeps d s, safe.no_panic d s)
