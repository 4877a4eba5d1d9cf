-- ===== src/Networking/Driver/Invariant/Queries.antt =====
-- Messages (msg/mod.rs) and the events of kad (event.rs) keep the swarm driver sound.
use safe_network.Base.{
  ◌≡◌, refl, ℕ, List, ◌∷◌, Option, none, some, Bool, true, false, length, leb, ◌||◌,
}
use safe_network.Base.Outcome.{Outcome}
use safe_network.Base.Assoc
use safe_network.Base.SortedSet.{extend, collect}
use safe_network.Networking.RecordStore.{Kademlia, Record}
use safe_network.Networking.RecordStore.Puts.{IsSymmetric}
use safe_network.Networking.Quorum.{Peers, PeerRecord, GetRecordResultMap, GetError}
use safe_network.Networking.Quorum.Answers.{accumulate-Represents}
use safe_network.Networking.Driver.{
  Net, SwarmDriver, Env, run_on, modify, return, get, and_then, ◌>>=◌, ◌>>◌,
  received_response_dropped, received_kademlia_event_dropped,
}
use safe_network.Networking.Driver.Messages.{
  MsgEvent, request_message, response_message, outbound_failure, inbound_failure, response_sent,
  take_request, deliver, report_failure, handle_msg,
}
use safe_network.Networking.Driver.Queries.{
  KademliaEvent, closest_peers_found, record_found, get_record_finished, get_record_failed,
  routing_updated, ignored, take_get_record, take_get_closest_peers, update_self, keep_get_record,
  settle_get_record, on_record_found, on_get_record_finished, on_get_record_failed,
  on_closest_peers, start_bootstrap, bootstrap_once, greet, evict, handle_kad_event,
}
use safe_network.Networking.Driver.Invariant.{
  Counts, IsSound, IsSafe, safe_rules, Gives, bind_with-IsSafe, then-IsSafe, bind-IsSafe,
  modify-IsSafe, fail-IsSafe, emit-IsSafe, if-IsSafe, get-IsSafe, send-IsSafe, send_event-IsSafe,
  send_open-IsSafe, return-IsSafe,
}
use safe_network.Networking.Driver.Invariant.Handlers.{
  store_verified-IsSafe, ignore-IsSafe, check_for_change-IsSafe,
}
use safe_network.Networking.Driver.Invariant.Commands.{queries-IsSound}

module _ {p : Peers} {k : Kademlia} where
  -- A query that is taken counts the votes of some answers.
  abbrev CountsTaken : {S : Type 0} → Option (S × GetRecordResultMap p k) → Type 0
  CountsTaken none = Unit
  CountsTaken (some query) = Counts query.1

module _ {p : Peers} {k : Kademlia} {n : Net p k} where
  take_request-IsSafe : (id : n.RequestId) → IsSafe (take_request {n = n} id)
  unfolding take_request
  take_request-IsSafe id = bind-IsSafe _ _ get-IsSafe (λ d.
      then-IsSafe _ _
        (modify-IsSafe _ (λ e s. record {
          store_ok = s.store_ok;
          fetcher_ok = s.fetcher_ok;
          queries_ok = s.queries_ok;
          dialed_ok = s.dialed_ok;
          group_ok = s.group_ok;
        }))
        (return-IsSafe _))

  deliver-IsSafe :
      (env : Env n) (response : n.Response) (o : Option (Option n.Sender))
      → IsSafe (deliver env response o)
  unfolding deliver
  deliver-IsSafe env response (some (some sender)) = search safe_rules
  deliver-IsSafe env response (some none) = search safe_rules
  deliver-IsSafe env response none = search safe_rules

  report_failure-IsSafe :
      (env : Env n) (id : n.RequestId) (o : Option (Option n.Sender))
      → IsSafe (report_failure env id o)
  unfolding report_failure
  report_failure-IsSafe env id (some (some sender)) = search safe_rules
  report_failure-IsSafe env id (some none) = fail-IsSafe (received_response_dropped id) refl
  report_failure-IsSafe env id none = fail-IsSafe (received_response_dropped id) refl

  pub handle_msg-IsSafe : (env : Env n) (e : MsgEvent n) → IsSafe (handle_msg env e)
  unfolding handle_msg
  handle_msg-IsSafe env (request_message request channel) = search safe_rules
  handle_msg-IsSafe env (response_message id response) =
      bind-IsSafe _ _ (take_request-IsSafe id) (deliver-IsSafe env response)
  handle_msg-IsSafe env (outbound_failure id) =
      bind-IsSafe _ _ (take_request-IsSafe id) (report_failure-IsSafe env id)
  handle_msg-IsSafe env (inbound_failure id) = search safe_rules
  handle_msg-IsSafe env (response_sent id) = search safe_rules

  take_get_record-IsSafe : (id : n.QueryId) → IsSafe (take_get_record {n = n} id)
  unfolding take_get_record
  take_get_record-IsSafe id = bind-IsSafe _ _ get-IsSafe (λ d.
      then-IsSafe _ _
        (modify-IsSafe _ (λ e s.
          queries-IsSound _ e s
            (Assoc.All-remove n.query_eq (λ x. Counts x.1.1) id e.pending_get_record s.queries_ok)))
        (return-IsSafe _))

  lookup-Counts :
      (id : n.QueryId) (d : SwarmDriver n)
      → IsSound d
      → CountsTaken (Assoc.lookup n.query_eq id d.pending_get_record)
  lookup-Counts id d s = go (Assoc.lookup n.query_eq id d.pending_get_record) refl
    where
      go :
          (o : Option (n.Sender × GetRecordResultMap p k))
          → Assoc.lookup n.query_eq id d.pending_get_record ≡ o
          → CountsTaken o
      go none h = tt
      go (some query) h =
          Assoc.All-lookup n.query_eq (λ x. Counts x.1.1) id query d.pending_get_record s.queries_ok
            h

  take_get_record-Counts :
      (id : n.QueryId) (d : SwarmDriver n)
      → IsSound d
      → Gives CountsTaken (run_on d (take_get_record id)).result
  unfolding take_get_record run_on and_then get modify return ◌>>=◌ ◌>>◌
  take_get_record-Counts id d s = lookup-Counts id d s

  update_self-IsSafe : (o : Option (Record k)) → IsSymmetric k → IsSafe (update_self {n = n} o)
  unfolding update_self
  update_self-IsSafe none sym = search safe_rules
  update_self-IsSafe (some r) sym = ignore-IsSafe _ (store_verified-IsSafe r sym)

  keep_get_record-IsSafe :
      (id : n.QueryId) (sender : n.Sender) (m : GetRecordResultMap p k)
      → Counts m
      → IsSafe (keep_get_record {n = n} id sender m)
  unfolding keep_get_record
  keep_get_record-IsSafe id sender m c = modify-IsSafe _ (λ d s. queries-IsSound _ d s (
      Assoc.All-insert n.query_eq (λ x. Counts x.1.1) id (sender, m) d.pending_get_record c
        s.queries_ok))

  settle-IsSafe :
      (env : Env n) (id : n.QueryId) (sender : n.Sender)
      (o : Option (Outcome (GetError k) (Record k))) (m : GetRecordResultMap p k)
      → IsSymmetric k
      → Counts m
      → IsSafe (settle_get_record env id sender o m)
  unfolding settle_get_record
  settle-IsSafe env id sender (some result) m sym c =
      then-IsSafe _ _ (send-IsSafe _ _) (update_self-IsSafe _ sym)
  settle-IsSafe env id sender none m sym c = keep_get_record-IsSafe id sender m c

  on_record_found-IsSafe :
      (env : Env n) (id : n.QueryId) (r : PeerRecord p k) (count : ℕ)
      (o : Option (n.Sender × GetRecordResultMap p k))
      → IsSymmetric k
      → CountsTaken o
      → IsSafe (on_record_found env id r count o)
  unfolding on_record_found
  on_record_found-IsSafe env id r count none sym c = search safe_rules
  on_record_found-IsSafe env id r count (some (sender, m)) sym (earlier, rep) =
      settle-IsSafe env id sender _ _ sym
        (r ∷ earlier, (accumulate-Represents r count m earlier rep).1)

  on_finished-IsSafe :
      (env : Env n) (o : Option (n.Sender × GetRecordResultMap p k))
      → IsSafe (on_get_record_finished env o)
  unfolding on_get_record_finished
  on_finished-IsSafe env none = search safe_rules
  on_finished-IsSafe env (some (sender, m)) = send_open-IsSafe _ _ _

  on_failed-IsSafe :
      (env : Env n) (o : Option (n.Sender × GetRecordResultMap p k))
      → IsSafe (on_get_record_failed env o)
  unfolding on_get_record_failed
  on_failed-IsSafe env none = search safe_rules
  on_failed-IsSafe env (some (sender, m)) = send_open-IsSafe _ _ _

  closest-IsSound :
      (queries : List (n.QueryId × (n.Sender × List p.PeerId))) (d : SwarmDriver n)
      → IsSound d
      → IsSound (record d { pending_get_closest_peers = queries })
  closest-IsSound queries d s = record {
    store_ok = s.store_ok;
    fetcher_ok = s.fetcher_ok;
    queries_ok = s.queries_ok;
    dialed_ok = s.dialed_ok;
    group_ok = s.group_ok;
  }

  take_get_closest-IsSafe : (id : n.QueryId) → IsSafe (take_get_closest_peers {n = n} id)
  unfolding take_get_closest_peers
  take_get_closest-IsSafe id =
      bind-IsSafe _ _ get-IsSafe
        (λ d. then-IsSafe _ _ (modify-IsSafe _ (λ e s. closest-IsSound _ e s)) (return-IsSafe _))

  on_closest-IsSafe :
      (env : Env n) (id : n.QueryId) (peers : List p.PeerId) (is_last : Bool)
      (o : Option (n.Sender × List p.PeerId))
      → IsSafe (on_closest_peers env id peers is_last o)
  unfolding on_closest_peers
  on_closest-IsSafe env id peers is_last none =
      fail-IsSafe (received_kademlia_event_dropped id) refl
  on_closest-IsSafe env id peers is_last (some (sender, current)) =
      let closest = extend p.peer_ord current (collect p.peer_ord peers) in
      if-IsSafe (leb n.k_value (length closest) || is_last) _ _ (send_open-IsSafe _ _ _)
        (modify-IsSafe _ (λ d s. closest-IsSound _ d s))

  bootstrap-IsSound : (d : SwarmDriver n) → IsSound d → IsSound (record d { bootstrap_done = true })
  bootstrap-IsSound d s = record {
    store_ok = s.store_ok;
    fetcher_ok = s.fetcher_ok;
    queries_ok = s.queries_ok;
    dialed_ok = s.dialed_ok;
    group_ok = s.group_ok;
  }

  greet-IsSafe : (peer : p.PeerId) (is_new : Bool) → IsSafe (greet {n = n} peer is_new)
  unfolding greet bootstrap_once start_bootstrap
  greet-IsSafe peer true = then-IsSafe _ _ (send_event-IsSafe _) (
      bind-IsSafe _ _ get-IsSafe (λ d.
        if-IsSafe d.bootstrap_done _ _ (return-IsSafe tt)
          (then-IsSafe _ _ (emit-IsSafe _) (modify-IsSafe _ bootstrap-IsSound))))
  greet-IsSafe peer false = search safe_rules

  evict-IsSafe :
      (peer : p.PeerId) (old_peer : Option p.PeerId) → IsSafe (evict {n = n} peer old_peer)
  unfolding evict
  evict-IsSafe peer none = search safe_rules
  evict-IsSafe peer (some old_peer) = search safe_rules

  pub handle_kad_event-IsSafe :
      (env : Env n) (e : KademliaEvent n) → IsSymmetric k → IsSafe (handle_kad_event env e)
  unfolding handle_kad_event
  handle_kad_event-IsSafe env (closest_peers_found id peers is_last) sym =
      bind-IsSafe _ _ (take_get_closest-IsSafe id) (on_closest-IsSafe env id peers is_last)
  handle_kad_event-IsSafe env (record_found id r count) sym =
      bind_with-IsSafe CountsTaken _ _ (take_get_record-IsSafe id) (take_get_record-Counts id)
        (λ o c. on_record_found-IsSafe env id r count o sym c)
  handle_kad_event-IsSafe env (get_record_finished id) sym =
      bind-IsSafe _ _ (take_get_record-IsSafe id) (on_finished-IsSafe env)
  handle_kad_event-IsSafe env (get_record_failed id) sym =
      bind-IsSafe _ _ (take_get_record-IsSafe id) (on_failed-IsSafe env)
  handle_kad_event-IsSafe env (routing_updated peer is_new_peer old_peer) sym =
      then-IsSafe _ _ (greet-IsSafe peer is_new_peer) (
        then-IsSafe _ _ (evict-IsSafe peer old_peer)
          (bind-IsSafe _ _ (check_for_change-IsSafe env) (λ c. return-IsSafe tt)))
  handle_kad_event-IsSafe env ignored sym = search safe_rules
