-- ===== src/Networking/Driver/Invariant/Events.antt =====
-- Every event of the swarm keeps the driver sound, and so does the loop of lib.rs.
use safe_network.Base.{
  ◌==◌, ◌≡◌, refl, arith, ◌≤◌, ℕ, List, [], ◌∷◌, ◌++◌, ◌&&◌, Bool, true, false, Bool-cases, inl,
  inr, ◌⊎◌, All, length, length-append, ◌||◌,
}
use safe_network.Base.Outcome.{Outcome, ok, err}
use safe_network.Networking.CircularVec
use safe_network.Networking.CircularVec.{CircularVec, push, pop_front}
use safe_network.Networking.RecordStore.{Kademlia, RecordStore}
use safe_network.Networking.RecordStore.Puts.{IsSymmetric, WellFormed}
use safe_network.Networking.Fetcher.Invariant.{IsShuffle}
use safe_network.Networking.Quorum.{Peers}
use safe_network.Networking.Driver.{Net, Multiaddr, SwarmDriver, Env, run_on}
use safe_network.Networking.Driver.Addresses.{dial_address}
use safe_network.Networking.Driver.Commands.{SwarmCmd}
use safe_network.Networking.Driver.Events.{
  new_driver, is_dialed, Info, SwarmEvent, msg_event, kad_event, identify_received, mdns_discovered,
  listening, connection_established, outgoing_connection_error, nat_changed, other_event, dial_all,
  on_identify, on_listening, after_push, remember_dialed, handle_swarm_events, turn, run,
}
use safe_network.Networking.Driver.Invariant.{
  IsSound, IsSafe, safe_rules, has_panicked, then-IsSafe, bind-IsSafe, emit-IsSafe, if-IsSafe,
  get-IsSafe, send_event-IsSafe, return-IsSafe,
}
use safe_network.Networking.Driver.Invariant.Handlers.{ignore-IsSafe, check_for_change-IsSafe}
use safe_network.Networking.Driver.Invariant.Commands.{handle_cmd-IsSafe}
use safe_network.Networking.Driver.Invariant.Queries.{handle_msg-IsSafe, handle_kad_event-IsSafe}

push_fits :
    {A : Type 0} (inner : List A) (capacity : ℕ) (w : CircularVec A) (x : A)
    → push (record { inner = inner; capacity = capacity }) x ≡ ok w
    → length inner ≤ capacity
    → length w.inner ≤ w.capacity
unfolding push pop_front
push_fits [] capacity w x h fits = elim (Bool-cases (0 == capacity)) [
  | inl full ↦ absurd (ground arith)
  | inr room ↦
      let e : w ≡ record { inner = x ∷ []; capacity = capacity } = ground arith in
      rw e (ground arith)
]
push_fits (y ∷ ys) capacity w x h fits = elim (Bool-cases (length (y ∷ ys) == capacity)) [
  | inl full ↦
      let e : w ≡ record { inner = ys ++ x ∷ []; capacity = capacity } = ground arith in
      rw (e, length-append ys (x ∷ [])) (ground arith)
  | inr room ↦
      let e : w ≡ record { inner = (y ∷ ys) ++ x ∷ []; capacity = capacity } = ground arith in
      rw (e, length-append ys (x ∷ [])) (ground arith)
]

module _ {p : Peers} {k : Kademlia} {n : Net p k} where
  dial_all-IsSafe : (list : List (p.PeerId × Multiaddr n)) → IsSafe (dial_all list)
  unfolding dial_all dial_address
  dial_all-IsSafe [] = search safe_rules
  dial_all-IsSafe ((peer, addr) ∷ rest) = then-IsSafe _ _ (emit-IsSafe _) (dial_all-IsSafe rest)

  remember-IsSafe : (peer : p.PeerId) → IsSafe (remember_dialed {n = n} peer)
  unfolding remember_dialed after_push run_on
  remember-IsSafe peer = record {
    keeps = λ d s. kept d s (push d.dialed_peers peer) refl;
    no_panic = λ d s. calm d (push d.dialed_peers peer);
  }
    where
      kept :
          (d : SwarmDriver n)
          → IsSound d
          → (o : Outcome CircularVec.Error (CircularVec p.PeerId)) → push d.dialed_peers peer ≡ o
          → IsSound (after_push o d).driver
      kept d s (ok v) h = record {
        store_ok = s.store_ok;
        fetcher_ok = s.fetcher_ok;
        queries_ok = s.queries_ok;
        dialed_ok = push_fits d.dialed_peers.inner d.dialed_peers.capacity v peer h s.dialed_ok;
        group_ok = s.group_ok;
      }
      kept d s (err e) h = s

      calm :
          (d : SwarmDriver n) (o : Outcome CircularVec.Error (CircularVec p.PeerId))
          → has_panicked (after_push o d).result ≡ false
      calm d (ok v) = refl
      calm d (err e) = refl

  on_identify-IsSafe :
      (same : Multiaddr n → Multiaddr n → Bool) (autonat_enabled : Bool) (peer : p.PeerId)
      (info : Info n)
      → IsSafe (on_identify same autonat_enabled peer info)
  unfolding on_identify
  on_identify-IsSafe same autonat_enabled peer info = bind-IsSafe _ _ get-IsSafe (λ d.
      if-IsSafe ((d.is_local || is_dialed peer d) && info.is_node_agent) _ _ (emit-IsSafe _)
        (return-IsSafe tt))

  on_listening-IsSafe : (addr : Multiaddr n) → IsSafe (on_listening addr)
  unfolding on_listening
  on_listening-IsSafe addr =
      bind-IsSafe _ _ get-IsSafe (λ d. then-IsSafe _ _ (emit-IsSafe _) (send_event-IsSafe _))

  pub new_driver-IsSound :
      (store : RecordStore k) (local client : Bool)
      → WellFormed store
      → IsSound (new_driver {n = n} store local client)
  unfolding new_driver
  new_driver-IsSound store local client w = record {
    store_ok = w;
    fetcher_ok = record { bounded = omega arith; distinct = tt; holders_ok = tt };
    queries_ok = tt;
    dialed_ok = omega arith;
    group_ok = omega arith;
  }

  module _ (same : Multiaddr n → Multiaddr n → Bool) (autonat_enabled : Bool) where
    pub handle_swarm_events-IsSafe :
        (env : Env n) (e : SwarmEvent n)
        → IsSymmetric k
        → IsSafe (handle_swarm_events same autonat_enabled env e)
    unfolding handle_swarm_events
    handle_swarm_events-IsSafe env (msg_event e) sym = ignore-IsSafe _ (handle_msg-IsSafe env e)
    handle_swarm_events-IsSafe env (kad_event e) sym = handle_kad_event-IsSafe env e sym
    handle_swarm_events-IsSafe env (identify_received peer info) sym =
        on_identify-IsSafe same autonat_enabled peer info
    handle_swarm_events-IsSafe env (mdns_discovered list) sym =
        bind-IsSafe _ _ get-IsSafe
          (λ d. if-IsSafe d.is_local _ _ (dial_all-IsSafe list) (return-IsSafe tt))
    handle_swarm_events-IsSafe env (listening addr) sym = on_listening-IsSafe addr
    handle_swarm_events-IsSafe env (connection_established peer true) sym = remember-IsSafe peer
    handle_swarm_events-IsSafe env (connection_established peer false) sym = search safe_rules
    handle_swarm_events-IsSafe env (outgoing_connection_error peer true) sym =
        then-IsSafe _ _ (send_event-IsSafe _)
          (bind-IsSafe _ _ (check_for_change-IsSafe env) (λ c. return-IsSafe tt))
    handle_swarm_events-IsSafe env (outgoing_connection_error peer false) sym = search safe_rules
    handle_swarm_events-IsSafe env (nat_changed status) sym = search safe_rules
    handle_swarm_events-IsSafe env other_event sym = search safe_rules

    turn-IsSafe :
        (env : Env n) (e : SwarmEvent n ⊎ SwarmCmd n)
        → IsSymmetric k
        → IsShuffle env.shuffle
        → IsSafe (turn same autonat_enabled env e)
    unfolding turn
    turn-IsSafe env (inl e) sym fair = ignore-IsSafe _ (handle_swarm_events-IsSafe env e sym)
    turn-IsSafe env (inr c) sym fair = ignore-IsSafe _ (handle_cmd-IsSafe env c sym fair)

    run-IsSafe :
        (turns : List (Env n × (SwarmEvent n ⊎ SwarmCmd n)))
        → IsSymmetric k
        → All (λ t. IsShuffle t.0.shuffle) turns
        → IsSafe (run same autonat_enabled turns)
    unfolding run
    run-IsSafe [] sym fair = search safe_rules
    run-IsSafe ((env, e) ∷ turns) sym fair =
        then-IsSafe _ _ (turn-IsSafe env e sym fair.0) (run-IsSafe turns sym fair.1)

    -- From a new driver with a well-formed store, with a symmetric distance and shuffles that
    -- permute, after any sequence of swarm events and commands: the store and the fetcher are
    -- valid, each query that is under way holds the count of some votes, and the dialed peers and
    -- the close group keep their bounds.
    pub run-IsSound :
        (turns : List (Env n × (SwarmEvent n ⊎ SwarmCmd n))) (store : RecordStore k)
        (local client : Bool)
        → IsSymmetric k
        → All (λ t. IsShuffle t.0.shuffle) turns
        → WellFormed store
        → IsSound (run_on (new_driver store local client) (run same autonat_enabled turns)).driver
    run-IsSound turns store local client sym fair w =
        (run-IsSafe turns sym fair).keeps (new_driver store local client)
          (new_driver-IsSound store local client w)
