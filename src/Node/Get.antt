-- ===== src/Node/Get.antt =====
-- sn_node/src/get_validation.rs.
use safe_network.Base.{ℕ, List, [], ◌∷◌, Bool, false}
use safe_network.Base.Outcome.{Outcome, ok, err, ok_or, map_err, ◌>>=◌}
use safe_network.Registers.Deps.{Deps, Bytes}
use safe_network.Registers.Model.{SignedRegister}
use safe_network.Protocol.Ledger.{Ledger}
use safe_network.Protocol.Storage.{
  Error, RecordKind, chunk, dbc_spend, register, DbcAddress, NetworkAddress, ChunkWithPayment,
  dbc_address, peer_id, spend_not_found, double_spend_attempt, record_kind_mismatch,
  get_store_cost_failed, replicated_data_not_found,
}
use safe_network.Protocol.Header.{Record, from_record, try_deserialize_record}
use safe_network.Protocol.Names.{to_record_key, as_record_key}
use safe_network.Node.Env.{Node, Env, replace_err}

-- sn_protocol: messages::ReplicatedData
pub data ReplicatedData (d : Deps) (b : Ledger) : Type 0 where
  chunk_data : ChunkWithPayment d b → ReplicatedData d b
  spend_data : List b.SignedSpend → ReplicatedData d b
  register_data : SignedRegister d → ReplicatedData d b

module _ {d : Deps} {b : Ledger} (n : Node d b) (env : Env d b) where
  unfoldable pub current_storecost : Outcome (Error d b) ℕ
  current_storecost = map_err (λ _. get_store_cost_failed) env.get_local_storecost

  -- The slice pattern on the spends of a record.
  unfoldable pub sole_spend :
      DbcAddress d b → List b.SignedSpend → Outcome (Error d b) b.SignedSpend
  sole_spend address (one ∷ two ∷ _) = err (double_spend_attempt one two)
  sole_spend address (one ∷ []) = ok one
  sole_spend address [] = err (spend_not_found address)

  unfoldable pub spend_of_kind :
      DbcAddress d b → Record → RecordKind → Outcome (Error d b) b.SignedSpend
  unfolding sole_spend try_deserialize_record
  spend_of_kind address found dbc_spend = do
    spends ← replace_err (spend_not_found address) (try_deserialize_record n.header n.spends found)
    sole_spend address spends
  spend_of_kind address found _ = err (record_kind_mismatch dbc_spend)

  unfoldable pub get_spend_from_network : DbcAddress d b → Bool → Outcome (Error d b) b.SignedSpend
  unfolding spend_of_kind from_record to_record_key
  get_spend_from_network address re_attempt = do
    found ←
        map_err (λ _. spend_not_found address)
          (env.get_record_from_network (to_record_key n.names (dbc_address address)) re_attempt)
    kind ← replace_err (spend_not_found address) (from_record n.header found)
    spend_of_kind address found kind

  unfoldable pub replicated_of_kind :
      Error d b → Record → RecordKind → Outcome (Error d b) (ReplicatedData d b)
  unfolding try_deserialize_record
  replicated_of_kind e found chunk = do
    c ← replace_err e (try_deserialize_record n.header n.chunks found)
    ok (chunk_data c)
  replicated_of_kind e found dbc_spend = do
    spends ← replace_err e (try_deserialize_record n.header n.spends found)
    ok (spend_data spends)
  replicated_of_kind e found register = do
    r ← replace_err e (try_deserialize_record n.header n.registers found)
    ok (register_data r)

  -- `our_peer_id` are the bytes of `self.network.peer_id`.
  unfoldable pub get_replicated_data :
      Bytes → NetworkAddress d b → Outcome (Error d b) (ReplicatedData d b)
  unfolding replicated_of_kind from_record as_record_key
  get_replicated_data our_peer_id address =
      let e : Error d b = replicated_data_not_found (peer_id our_peer_id) address in
      (do
        key ← ok_or (as_record_key n.names address) e
        found ← map_err (λ _. e) (env.get_record_from_network key false)
        kind ← replace_err e (from_record n.header found)
        replicated_of_kind e found kind)
