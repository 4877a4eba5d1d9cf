-- ===== src/Networking/Driver/Commands.antt =====
-- `handle_cmd` of sn_networking/src/cmd.rs.
use safe_network.Base.{List, [], ◌∷◌, Option, none, some, Bool, filter, map, take, if◌then◌else◌}
use safe_network.Base.Order.{eqb}
use safe_network.Base.Outcome.{Outcome, ok, err}
use safe_network.Base.Assoc.{insert}
use safe_network.Networking.RecordStore
use safe_network.Networking.RecordStore.{Kademlia, Record, Task, put_verified, store_cost}
use safe_network.Networking.Fetcher.{ReplicationFetcher, add_keys, notify_about_new_put}
use safe_network.Networking.Quorum.{Peers, close_group_size}
use safe_network.Networking.Driver.{
  Net, Multiaddr, SwarmDriver, Env, Handler, handler, Ran, Answer, MsgResponder, return, fail, get,
  modify, emit, send_event, send, send_open, ◌>>=◌, ◌>>◌, from_self, from_peer, request_received,
  response_received, keys_for_replication, peers_answer, response_answer, local_record_answer,
  has_key_answer, addresses_answer, store_cost_answer, done_answer, state_answer, store_task,
  kad_get_record, kad_put_record, kad_get_closest_peers, listen_on, send_request, send_response,
  outgoing_response_dropped, record_store_error, panicked,
}
use safe_network.Networking.Driver.Addresses.{dial_address}
use safe_network.Networking.Driver.Peering.{get_all_local_peers, is_in_close_range}

module _ {p : Peers} {k : Kademlia} (n : Net p k) where
  open n use {Sender, Request, Response, NetworkAddress}

  pub data SwarmCmd : Type 0 where
    start_listening : Multiaddr n → Sender → SwarmCmd
    dial_peer : Multiaddr n → Sender → SwarmCmd
    get_closest_peers : NetworkAddress → Sender → SwarmCmd
    get_closest_local_peers : NetworkAddress → Sender → SwarmCmd
    get_local_peers : Sender → SwarmCmd
    get_our_close_group : Sender → SwarmCmd
    get_swarm_local_state : Sender → SwarmCmd
    request_peer : Request → p.PeerId → Option Sender → SwarmCmd
    respond : Response → MsgResponder n → SwarmCmd
    record_store_has_key : k.Key → Sender → SwarmCmd
    get_all_local_record_addresses : Sender → SwarmCmd
    get_network_record : k.Key → Sender → SwarmCmd
    get_local_store_cost : Sender → SwarmCmd
    get_local_record : k.Key → Sender → SwarmCmd
    put_record : Record k → Sender → SwarmCmd
    put_local_record : Record k → SwarmCmd
    add_keys_to_replication_fetcher : p.PeerId → List NetworkAddress → SwarmCmd

module _ {p : Peers} {k : Kademlia} {n : Net p k} where
  -- `if !keys.is_empty() { self.send_event(KeysForReplication(keys)) }`
  unfoldable pub send_keys : List (k.Key × Option p.PeerId) → Handler n (Unit {0})
  send_keys [] = return tt
  send_keys (x ∷ keys) = send_event (keys_for_replication (x ∷ keys))

  unfoldable pub after_put :
      Outcome RecordStore.Error (RecordStore.RecordStore k × List (Task k))
      → SwarmDriver n
      → Ran n (Unit {0})
  after_put (ok (s, tasks)) d = record {
    result = ok tt;
    driver = record d { store = s };
    effects = map store_task tasks;
  }
  after_put (err e) d = record { result = err record_store_error; driver = d; effects = [] }

  -- What the fetcher gives, if no subtraction in it goes below zero.
  unfoldable pub after_fetch :
      Option (ReplicationFetcher k.Key p.PeerId × List (k.Key × Option p.PeerId))
      → SwarmDriver n
      → Ran n (List (k.Key × Option p.PeerId))
  after_fetch (some (f, keys)) d = record {
    result = ok keys;
    driver = record d { replication_fetcher = f };
    effects = [];
  }
  after_fetch none d = record { result = err panicked; driver = d; effects = [] }

  -- `store_mut().put_verified(record)`
  unfoldable pub store_verified : Record k → Handler n (Unit {0})
  unfolding put_verified after_put
  store_verified r = handler (λ d. after_put (put_verified d.store r) d)

  -- `self.replication_fetcher.notify_about_new_put(key)`
  unfoldable pub notify_fetcher : Env n → k.Key → Handler n (List (k.Key × Option p.PeerId))
  unfolding notify_about_new_put after_fetch
  notify_fetcher env key = handler (λ d.
      after_fetch (notify_about_new_put n.key_eq env.clock env.shuffle key d.replication_fetcher) d)

  unfoldable pub add_keys_to_fetcher :
      Env n → p.PeerId → List n.NetworkAddress → Handler n (List (k.Key × Option p.PeerId))
  unfolding add_keys after_fetch RecordStore.contains is_in_close_range get_all_local_peers
  add_keys_to_fetcher env peer keys =
      let all_peers = get_all_local_peers env in
      let keys_to_store = filter (λ key. is_in_close_range n key all_peers) keys in
      handler (λ d.
        after_fetch
          (add_keys n.key_eq p.peer_ord n.as_record_key env.clock env.shuffle peer keys_to_store
            (RecordStore.contains d.store) d.replication_fetcher)
          d)

  -- `SwarmCmd::SendRequest`
  unfoldable pub send_request_cmd :
      Env n → n.Request → p.PeerId → Option n.Sender → Handler n (Unit {0})
  send_request_cmd env req peer sender =
      let own = send_event (request_received req (from_self sender)) in
      let other = do
        emit (send_request env.request_id peer req ∷ [])
        modify (λ (d : SwarmDriver n). record d {
          pending_requests = insert n.request_eq env.request_id sender d.pending_requests;
        })
      in if eqb p.peer_ord peer p.self_peer_id then own else other

  -- `SwarmCmd::SendResponse`
  unfoldable pub send_response_cmd : Env n → n.Response → MsgResponder n → Handler n (Unit {0})
  send_response_cmd env resp (from_self (some sender)) =
      send_open env sender (response_answer (ok resp))
  send_response_cmd env resp (from_self none) = send_event (response_received resp)
  send_response_cmd env resp (from_peer channel) =
      if env.accepts_response channel
      then emit (send_response channel resp ∷ [])
      else fail outgoing_response_dropped

  abbrev pub done_if : Bool → Answer n
  done_if accepted = if accepted then done_answer (ok tt) else done_answer (err tt)

  unfoldable pub handle_cmd : Env n → SwarmCmd n → Handler n (Unit {0})
  unfolding dial_address send_keys store_verified notify_fetcher add_keys_to_fetcher
      send_request_cmd send_response_cmd get_all_local_peers store_cost RecordStore.contains
      RecordStore.get
  handle_cmd env (add_keys_to_replication_fetcher peer keys) = do
    keys_to_fetch ← add_keys_to_fetcher env peer keys
    send_keys keys_to_fetch
  handle_cmd env (get_network_record key sender) = do
    emit (kad_get_record key ∷ [])
    modify (λ (d : SwarmDriver n). record d {
      pending_get_record = insert n.query_eq env.query_id (sender, []) d.pending_get_record;
    })
  handle_cmd env (get_local_store_cost sender) = do
    d ← get
    send sender (store_cost_answer (store_cost d.store))
  handle_cmd env (get_local_record key sender) = do
    d ← get
    send sender (local_record_answer (RecordStore.get env.disk d.store key))
  handle_cmd env (put_record r sender) = do
    emit (kad_put_record r ∷ [])
    send sender (done_if env.put_accepted)
  handle_cmd env (put_local_record r) = do
    store_verified r
    new_keys_to_fetch ← notify_fetcher env r.key
    send_keys new_keys_to_fetch
  handle_cmd env (record_store_has_key key sender) = do
    d ← get
    send sender (has_key_answer (RecordStore.contains d.store key))
  handle_cmd env (get_all_local_record_addresses sender) = do
    d ← get
    send sender (addresses_answer (map n.from_record_key d.store.records))
  handle_cmd env (start_listening addr sender) = do
    emit (listen_on addr ∷ [])
    send sender (done_if env.addr_accepted)
  handle_cmd env (dial_peer addr sender) = do
    dial_address addr
    send sender (done_if env.addr_accepted)
  handle_cmd env (get_closest_peers key sender) = do
    emit (kad_get_closest_peers key ∷ [])
    modify (λ (d : SwarmDriver n). record d {
      pending_get_closest_peers =
          insert n.query_eq env.query_id (sender, []) d.pending_get_closest_peers;
    })
  handle_cmd env (get_closest_local_peers key sender) =
      send sender
        (peers_answer (take close_group_size (env.closest_local_peers (n.as_kbucket_key key))))
  handle_cmd env (get_local_peers sender) = send sender (peers_answer (get_all_local_peers env))
  handle_cmd env (get_our_close_group sender) = do d ← get; send sender (peers_answer d.close_group)
  handle_cmd env (request_peer req peer sender) = send_request_cmd env req peer sender
  handle_cmd env (respond resp channel) = send_response_cmd env resp channel
  handle_cmd env (get_swarm_local_state sender) =
      send_open env sender (state_answer env.connected_peers env.listeners)
