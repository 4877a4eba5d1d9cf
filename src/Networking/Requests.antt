-- ===== src/Networking/Requests.antt =====
-- `Network` of sn_networking/src/lib.rs: what a caller asks of the swarm driver, with the attempts
-- that a read and a put make. The answer to an attempt is a function of the key that is
-- asked for and of the attempt's number, that to a put of its record; a command that is
-- not sent, or whose channel is dropped, is an error of the attempt.
mod Tests
pub mod Attempts
pub mod Quotes
use safe_network.Base.{
  ℕ, zero, suc, ◌/◌, List, [], ◌∷◌, ◌++◌, map, Option, none, some, Bool, true, false, not, ◌&&◌,
  ◌==◌, test, if◌then◌else◌,
}
use safe_network.Base.Outcome.{Outcome, ok, err, ◌>>=◌, ◌>>◌, map_err}
use safe_network.Base.SortBy.{sort_by_key}
use safe_network.Networking.RecordStore.{Kademlia, Record, last}
use safe_network.Networking.Quorum.{
  Peers, GetError, record_not_found, record_not_enough_copies, close_group_size,
}
use safe_network.Networking.Peers.{PeersError, not_enough_peers, sort_peers_by_key}

-- VERIFICATION_ATTEMPTS
abbrev pub verification_attempts : ℕ
verification_attempts = 30

abbrev pub put_record_retries : ℕ
put_record_retries = 3

-- sn_networking's `Error`, as far as these functions give it
pub data NetworkError (k : Kademlia) : Type 0 where
  no_swarm_cmd_channel_capacity internal_msg_channel_dropped : NetworkError k
  not_found : NetworkError k
  returned_record_does_not_match failed_to_verify_record_was_stored : k.Key → NetworkError k
  put_refused : NetworkError k
  too_few_peers : ℕ → ℕ → NetworkError k
  not_enough_cost_quotes : NetworkError k

module _ {k : Kademlia} where
  -- `self.send_swarm_cmd(cmd)?`: the capacity of the channel
  unfoldable pub send_swarm_cmd : ℕ → Outcome (NetworkError k) (Unit {0})
  send_swarm_cmd capacity = if capacity == 0 then err no_swarm_cmd_channel_capacity else ok tt

  abbrev pub is_unverified : Outcome (NetworkError k) (Unit {0}) → Bool
  is_unverified (err (failed_to_verify_record_was_stored key)) = true
  is_unverified _ = false

  module _ (same_record : Discrete (Record k)) where
    -- No target, or the target.
    unfoldable pub is_target : Option (Record k) → Record k → Bool
    is_target none returned = true
    is_target (some target) returned = test (same_record target returned)

    -- What an attempt's answer leads to: `rest` is what the attempts that are left give.
    unfoldable pub judge :
        Option (Record k)
        → Bool
        → Outcome (NetworkError k) (Record k)
        → Outcome (GetError k) (Record k)
        → Outcome (NetworkError k) (Record k)
    unfolding is_target
    judge target is_last rest (ok returned) =
        if is_target target returned
        then ok returned
        else (if is_last then err (returned_record_does_not_match returned.key) else rest)
    judge target is_last rest (err (record_not_enough_copies returned)) =
        if is_last
        then (if is_target target returned
            then ok returned
            else err (returned_record_does_not_match returned.key))
        else rest
    judge target is_last rest (err record_not_found) = if is_last then err not_found else rest

    -- The loop, with the attempts that are left and the number of the next one.
    unfoldable pub attempts :
        (ℕ → Outcome (NetworkError k) (Outcome (GetError k) (Record k)))
        → Option (Record k)
        → ℕ
        → ℕ
        → Outcome (NetworkError k) (Record k)
    unfolding judge
    attempts ask target zero i = err not_found
    attempts ask target (suc left) i =
        let rest = attempts ask target left (suc i) in
        ask i >>= λ answer. judge target (left == 0) rest answer

    unfoldable pub get_record_from_network :
        (k.Key → ℕ → Outcome (NetworkError k) (Outcome (GetError k) (Record k)))
        → k.Key
        → Option (Record k)
        → Bool
        → Outcome (NetworkError k) (Record k)
    unfolding attempts
    get_record_from_network ask key target re_attempt =
        attempts (ask key) target (if re_attempt then verification_attempts else 1) 0

    -- The verification of a put.
    unfoldable pub verify_put :
        (k.Key → ℕ → Outcome (NetworkError k) (Outcome (GetError k) (Record k)))
        → Record k
        → Bool
        → Outcome (NetworkError k) (Unit {0})
    unfolding get_record_from_network
    verify_put ask r verify_store =
        let got = get_record_from_network ask r.key (some r) true in
        if verify_store
        then (elim got [
          | ok returned ↦ ok tt
          | err e ↦ err (failed_to_verify_record_was_stored r.key)
        ])
        else ok tt

    -- `command` is the answer to the command to put a record.
    unfoldable pub put_record_once :
        (Record k → Outcome (NetworkError k) (Outcome (NetworkError k) (Unit {0})))
        → (k.Key → ℕ → Outcome (NetworkError k) (Outcome (GetError k) (Record k)))
        → Record k
        → Bool
        → Outcome (NetworkError k) (Unit {0})
    unfolding verify_put
    put_record_once command ask r verify_store = do
      response ← command r
      verify_put ask r verify_store
      response

    -- The loop, with the retries that are left and the number of the next one.
    unfoldable pub retries :
        (ℕ → Record k → Outcome (NetworkError k) (Outcome (NetworkError k) (Unit {0})))
        → (ℕ → k.Key → ℕ → Outcome (NetworkError k) (Outcome (GetError k) (Record k)))
        → Record k
        → ℕ
        → ℕ
        → Outcome (NetworkError k) (Unit {0})
    unfolding put_record_once
    retries command ask r zero i = err (failed_to_verify_record_was_stored r.key)
    retries command ask r (suc left) i =
        let rest = retries command ask r left (suc i) in
        let res = put_record_once (command i) (ask i) r true in
        if not (is_unverified res) then res else rest

    unfoldable pub put_record_with_retries :
        (ℕ → Record k → Outcome (NetworkError k) (Outcome (NetworkError k) (Unit {0})))
        → (ℕ → k.Key → ℕ → Outcome (NetworkError k) (Outcome (GetError k) (Record k)))
        → Record k
        → Outcome (NetworkError k) (Unit {0})
    unfolding retries
    put_record_with_retries command ask r = retries command ask r put_record_retries 0

    unfoldable pub put_network_record :
        (ℕ → Record k → Outcome (NetworkError k) (Outcome (NetworkError k) (Unit {0})))
        → (ℕ → k.Key → ℕ → Outcome (NetworkError k) (Outcome (GetError k) (Record k)))
        → Record k
        → Bool
        → Outcome (NetworkError k) (Unit {0})
    unfolding put_record_with_retries put_record_once
    put_network_record command ask r verify_store =
        if verify_store
        then put_record_with_retries command ask r
        else put_record_once (command 0) (ask 0) r false

-- `get(index)` of a vector
unfoldable pub get_elem? : List ℕ → ℕ → Option ℕ
get_elem? [] i = none
get_elem? (x ∷ xs) zero = some x
get_elem? (x ∷ xs) (suc i) = get_elem? xs i

module _ {k : Kademlia} where
  abbrev pub quote_or_missing : Option ℕ → Outcome (NetworkError k) ℕ
  quote_or_missing none = err not_enough_cost_quotes
  quote_or_missing (some cost) = ok cost

  -- The quote at the index, or else the last one.
  unfoldable pub prefer : Option ℕ → Option ℕ → Outcome (NetworkError k) ℕ
  prefer none last_cost = quote_or_missing last_cost
  prefer (some cost) last_cost = ok cost

  unfoldable pub get_fee_from_store_cost_quotes : List ℕ → Bool → Outcome (NetworkError k) ℕ
  unfolding get_elem? prefer sort_by_key last
  get_fee_from_store_cost_quotes all_costs any_cost_will_do =
      let sorted = sort_by_key (λ c. c) all_costs in
      let first_try = get_elem? sorted (close_group_size / 2) in
      if any_cost_will_do then prefer first_try (last sorted) else quote_or_missing first_try

  -- The costs among the responses: `cost_of` is the cost of a response that has one.
  unfoldable pub costs_of :
      {Response : Type 0}
      → (Response → Option ℕ)
      → List (Outcome (NetworkError k) Response)
      → List ℕ
  costs_of cost_of [] = []
  costs_of cost_of (err e ∷ responses) = costs_of cost_of responses
  costs_of cost_of (ok r ∷ responses) =
      let rest = costs_of cost_of responses in
      elim (cost_of r) [ none ↦ rest | some cost ↦ cost ∷ rest ]

  -- The loop over the responses in the order in which they come, after `responses`.
  unfoldable pub collect_responses :
      {Response : Type 0}
      → Bool
      → List (Outcome (NetworkError k) Response)
      → List (Outcome (NetworkError k) Response)
      → List (Outcome (NetworkError k) Response)
  collect_responses get_all [] responses = responses
  collect_responses get_all (ok r ∷ coming) responses =
      let more = collect_responses get_all coming (responses ++ ok r ∷ []) in
      if not get_all then ok r ∷ [] else more
  collect_responses get_all (err e ∷ coming) responses =
      collect_responses get_all coming (responses ++ err e ∷ [])

  -- `select_all` gives the responses in the order `arrival`.
  unfoldable pub send_and_get_responses :
      {Peer Response : Type 0}
      → (Peer → Outcome (NetworkError k) Response)
      → (List (Outcome (NetworkError k) Response) → List (Outcome (NetworkError k) Response))
      → List Peer
      → Bool
      → List (Outcome (NetworkError k) Response)
  unfolding collect_responses
  send_and_get_responses send_request arrival peers get_all =
      collect_responses get_all (arrival (map send_request peers)) []

  -- `closest` is the answer to the command to get the closest peers.
  unfoldable pub get_store_cost_from_network :
      {Peer Response : Type 0}
      → Outcome (NetworkError k) (List Peer)
      → (Peer → Outcome (NetworkError k) Response)
      → (List (Outcome (NetworkError k) Response) → List (Outcome (NetworkError k) Response))
      → (Response → Option ℕ)
      → Bool
      → Outcome (NetworkError k) ℕ
  unfolding send_and_get_responses costs_of get_fee_from_store_cost_quotes
  get_store_cost_from_network closest send_request arrival cost_of any_cost_will_do = do
    close_nodes ← closest
    get_fee_from_store_cost_quotes
        (costs_of cost_of (send_and_get_responses send_request arrival close_nodes true))
        any_cost_will_do

  abbrev pub peers_error : {A : Type 0} → Outcome PeersError A → Outcome (NetworkError k) A
  peers_error (err (not_enough_peers found required)) = err (too_few_peers found required)
  peers_error (ok a) = ok a

  unfoldable pub get_closest_peers_of :
      {Peer : Type 0}
      → Peer
      → (Peer → ℕ)
      → Outcome (NetworkError k) (List Peer)
      → Bool
      → Outcome (NetworkError k) (List Peer)
  unfolding sort_peers_by_key
  get_closest_peers_of self_peer distance k_bucket_peers client = do
    found ← k_bucket_peers
    peers_error (
        sort_peers_by_key distance (if client then found else found ++ self_peer ∷ [])
          close_group_size)
