-- ===== src/Networking/Driver/Queries.antt =====
-- `handle_kad_event` of sn_networking/src/event.rs: the queries that are under way, and changes of
-- the routing table.
use safe_network.Base.{
  ℕ, List, [], ◌∷◌, Option, none, some, Bool, true, false, ◌||◌, leb, length, if◌then◌else◌,
}
use safe_network.Base.Outcome.{Outcome, ok, err}
use safe_network.Base.SortedSet.{extend, collect}
use safe_network.Base.Assoc.{lookup, insert, remove}
use safe_network.Networking.RecordStore.{Kademlia, Record}
use safe_network.Networking.Quorum.{
  Peers, PeerRecord, GetRecordResultMap, GetError, record_not_found, record_not_enough_copies,
  accumulate_get_record_ok, try_update_self_for_split_record,
}
use safe_network.Networking.Driver.{
  Net, SwarmDriver, Env, Handler, handler, run_on, return, fail, get, modify, emit, send_event,
  send, send_open, ◌>>=◌, ◌>>◌, peers_answer, record_answer, kad_bootstrap, peer_added,
  peer_removed, received_kademlia_event_dropped,
}
use safe_network.Networking.Driver.Commands.{store_verified}
use safe_network.Networking.Driver.Peering.{check_for_change_in_our_close_group}

module _ {p : Peers} {k : Kademlia} (n : Net p k) where
  open n use {QueryId}

  -- kad's `Event`, as far as the handler reads it; the numbers and flags are the query's step.
  pub data KademliaEvent : Type 0 where
    closest_peers_found : QueryId → List p.PeerId → Bool → KademliaEvent
    record_found : QueryId → PeerRecord p k → ℕ → KademliaEvent
    get_record_finished : QueryId → KademliaEvent
    get_record_failed : QueryId → KademliaEvent
    -- the peer, whether it is new, and the peer that it replaces
    routing_updated : p.PeerId → Bool → Option p.PeerId → KademliaEvent
    -- a bootstrap's progress, an inbound request, or anything else
    ignored : KademliaEvent

module _ {p : Peers} {k : Kademlia} where
  -- The first of the copies that came, in the order of the map.
  unfoldable pub first_copy : GetRecordResultMap p k → Outcome (GetError k) (Record k)
  first_copy [] = err record_not_found
  first_copy ((name, copies) ∷ m) = err (record_not_enough_copies copies.copy)

module _ {p : Peers} {k : Kademlia} {n : Net p k} where
  -- `self.pending_get_record.remove(&id)`
  unfoldable pub take_get_record :
      n.QueryId → Handler n (Option (n.Sender × GetRecordResultMap p k))
  take_get_record id = do
    d ← get
    modify (λ (e : SwarmDriver n). record e {
      pending_get_record = remove n.query_eq id e.pending_get_record;
    })
    return (lookup n.query_eq id d.pending_get_record)

  unfoldable pub take_get_closest_peers : n.QueryId → Handler n (Option (n.Sender × List p.PeerId))
  take_get_closest_peers id = do
    d ← get
    modify (λ (e : SwarmDriver n). record e {
      pending_get_closest_peers = remove n.query_eq id e.pending_get_closest_peers;
    })
    return (lookup n.query_eq id d.pending_get_closest_peers)

  -- An error is dropped, or only logged.
  unfoldable pub ignore_error : Handler n (Unit {0}) → Handler n (Unit {0})
  unfolding run_on
  ignore_error m =
      handler (λ d.
        let r = run_on d m in record { result = ok tt; driver = r.driver; effects = r.effects })

  -- `let _ = store_mut().put_verified(record)`, if there is one
  unfoldable pub update_self : Option (Record k) → Handler n (Unit {0})
  unfolding store_verified ignore_error
  update_self none = return tt
  update_self (some r) = ignore_error (store_verified r)

  unfoldable pub keep_get_record :
      n.QueryId → n.Sender → GetRecordResultMap p k → Handler n (Unit {0})
  keep_get_record id sender m = modify (λ (d : SwarmDriver n). record d {
    pending_get_record = insert n.query_eq id (sender, m) d.pending_get_record;
  })

  -- The end of `accumulate_get_record_ok`: the query is answered, or kept for more copies.
  unfoldable pub settle_get_record :
      Env n
      → n.QueryId
      → n.Sender
      → Option (Outcome (GetError k) (Record k))
      → GetRecordResultMap p k
      → Handler n (Unit {0})
  unfolding update_self keep_get_record try_update_self_for_split_record
  settle_get_record env id sender (some result) m = do
    send sender (record_answer result)
    update_self (try_update_self_for_split_record (env.hash_order m))
  settle_get_record env id sender none m = keep_get_record id sender m

  unfoldable pub on_record_found :
      Env n
      → n.QueryId
      → PeerRecord p k
      → ℕ
      → Option (n.Sender × GetRecordResultMap p k)
      → Handler n (Unit {0})
  unfolding accumulate_get_record_ok settle_get_record
  on_record_found env id r count none = return tt
  on_record_found env id r count (some (sender, m)) =
      settle_get_record env id sender (accumulate_get_record_ok r count m).0
        (accumulate_get_record_ok r count m).1

  unfoldable pub on_get_record_finished :
      Env n → Option (n.Sender × GetRecordResultMap p k) → Handler n (Unit {0})
  unfolding first_copy
  on_get_record_finished env none = return tt
  on_get_record_finished env (some (sender, m)) =
      send_open env sender (record_answer (first_copy (env.hash_order m)))

  unfoldable pub on_get_record_failed :
      Env n → Option (n.Sender × GetRecordResultMap p k) → Handler n (Unit {0})
  on_get_record_failed env none = return tt
  on_get_record_failed env (some (sender, m)) =
      send_open env sender (record_answer (err record_not_found))

  unfoldable pub on_closest_peers :
      Env n
      → n.QueryId
      → List p.PeerId
      → Bool
      → Option (n.Sender × List p.PeerId)
      → Handler n (Unit {0})
  on_closest_peers env id peers is_last none = fail (received_kademlia_event_dropped id)
  on_closest_peers env id peers is_last (some (sender, current)) =
      let closest = extend p.peer_ord current (collect p.peer_ord peers) in
      if leb n.k_value (length closest) || is_last
      then send_open env sender (peers_answer closest)
      else modify (λ (d : SwarmDriver n). record d {
        pending_get_closest_peers =
            insert n.query_eq id (sender, closest) d.pending_get_closest_peers;
      })

  unfoldable pub start_bootstrap : Handler n (Unit {0})
  start_bootstrap = do
    emit (kad_bootstrap ∷ [])
    modify (λ (e : SwarmDriver n). record e { bootstrap_done = true })

  -- `if !self.bootstrap_done { .. }`
  unfoldable pub bootstrap_once : Handler n (Unit {0})
  unfolding start_bootstrap
  bootstrap_once = do d ← get; if d.bootstrap_done then return tt else start_bootstrap

  unfoldable pub greet : p.PeerId → Bool → Handler n (Unit {0})
  unfolding bootstrap_once
  greet peer true = do send_event (peer_added peer); bootstrap_once
  greet peer false = return tt

  -- The event names the peer that joins, not the one that is evicted.
  unfoldable pub evict : p.PeerId → Option p.PeerId → Handler n (Unit {0})
  evict peer (some old_peer) = send_event (peer_removed peer)
  evict peer none = return tt

  unfoldable pub handle_kad_event : Env n → KademliaEvent n → Handler n (Unit {0})
  unfolding take_get_record take_get_closest_peers on_record_found on_get_record_finished
      on_get_record_failed on_closest_peers greet evict check_for_change_in_our_close_group
  handle_kad_event env (closest_peers_found id peers is_last) = do
    query ← take_get_closest_peers id
    on_closest_peers env id peers is_last query
  handle_kad_event env (record_found id r count) = do
    query ← take_get_record id
    on_record_found env id r count query
  handle_kad_event env (get_record_finished id) = do
    query ← take_get_record id
    on_get_record_finished env query
  handle_kad_event env (get_record_failed id) = do
    query ← take_get_record id
    on_get_record_failed env query
  handle_kad_event env (routing_updated peer is_new_peer old_peer) = do
    greet peer is_new_peer
    evict peer old_peer
    changed ← check_for_change_in_our_close_group env
    return tt
  handle_kad_event env ignored = return tt
