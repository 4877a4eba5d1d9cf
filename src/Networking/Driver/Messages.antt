-- ===== src/Networking/Driver/Messages.antt =====
-- `handle_msg` of sn_networking/src/msg/mod.rs: requests and responses of other peers.
use safe_network.Base.{Option, none, some}
use safe_network.Base.Outcome.{ok, err}
use safe_network.Base.Assoc.{lookup, remove}
use safe_network.Networking.RecordStore.{Kademlia}
use safe_network.Networking.Quorum.{Peers}
use safe_network.Networking.Driver.{
  Net, SwarmDriver, Env, Handler, return, fail, get, modify, send_event, send_open, ◌>>=◌, ◌>>◌,
  from_peer, request_received, response_received, response_answer, received_response_dropped,
}

module _ {p : Peers} {k : Kademlia} (n : Net p k) where
  open n use {RequestId, Channel, Request, Response}

  -- `request_response::Event`, as far as the handler reads it
  pub data MsgEvent : Type 0 where
    request_message : Request → Channel → MsgEvent
    response_message : RequestId → Response → MsgEvent
    outbound_failure : RequestId → MsgEvent
    inbound_failure response_sent : RequestId → MsgEvent

module _ {p : Peers} {k : Kademlia} {n : Net p k} where
  -- `self.pending_requests.remove(&request_id)`
  unfoldable pub take_request : n.RequestId → Handler n (Option (Option n.Sender))
  take_request request_id = do
    d ← get
    modify (λ (e : SwarmDriver n). record e {
      pending_requests = remove n.request_eq request_id e.pending_requests;
    })
    return (lookup n.request_eq request_id d.pending_requests)

  unfoldable pub deliver : Env n → n.Response → Option (Option n.Sender) → Handler n (Unit {0})
  deliver env response (some (some sender)) = send_open env sender (response_answer (ok response))
  deliver env response (some none) = send_event (response_received response)
  deliver env response none = return tt

  unfoldable pub report_failure :
      Env n → n.RequestId → Option (Option n.Sender) → Handler n (Unit {0})
  report_failure env request_id (some (some sender)) =
      send_open env sender (response_answer (err tt))
  report_failure env request_id _ = fail (received_response_dropped request_id)

  unfoldable pub handle_msg : Env n → MsgEvent n → Handler n (Unit {0})
  unfolding take_request deliver report_failure
  handle_msg env (request_message request channel) =
      send_event (request_received request (from_peer channel))
  handle_msg env (response_message request_id response) = do
    sender ← take_request request_id
    deliver env response sender
  handle_msg env (outbound_failure request_id) = do
    sender ← take_request request_id
    report_failure env request_id sender
  handle_msg env (inbound_failure request_id) = return tt
  handle_msg env (response_sent request_id) = return tt
