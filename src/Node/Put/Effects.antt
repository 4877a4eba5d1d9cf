-- ===== src/Node/Put/Effects.antt =====
-- put_validation.rs: the keys under which the handlers store.
use safe_network.Base.{
  List, [], ◌∷◌, Option, none, some, Bool, true, false, ◌≡◌, refl, sym, ap, ◌∙◌, arith, All,
  All-append, all, test, test→holds, if◌then◌else◌,
}
use safe_network.Base.Outcome.{Outcome, ok, err, map_err}
use safe_network.Registers.Deps.{Deps, Bytes}
use safe_network.Registers.Model.{SignedRegister}
use safe_network.Registers.Register.{address}
use safe_network.Protocol.Ledger.{Ledger}
use safe_network.Protocol.Storage.{
  ChunkAddress, Error, spend_not_stored, RecordKind, chunk, dbc_spend, register, CmdOk,
  ChunkWithPayment,
}
use safe_network.Protocol.Header.{Record}
use safe_network.Node.Env.{
  Node, Env, Effect, stored, chunk_stored, Run, lift, put_or, broadcast, ◌>>=◌,
}
use safe_network.Node.Put.Spend.{register_key, signed_spend_validation}
use safe_network.Node.Put.Handlers.{
  chunk_key, spend_key, store_chunk, validate_and_store_chunk, store_register,
  validate_and_store_register, store_spends, common_dbc_id, validate_and_store_spends,
  store_by_kind, validate_and_store_record,
}

module _ {d : Deps} {b : Ledger} where
  -- The effect, if it stores a record, stores it under the key.
  abbrev pub StoresUnder : Bytes → Effect d b → Type 0
  StoresUnder key (stored r) = r.key ≡ key
  StoresUnder key (chunk_stored a) = Unit

  -- All that a run stores is under the key.
  pub record Under {A : Type 0} (key : Bytes) (m : Run d b A) : Type 0 where
    pub at : All (StoresUnder key) m.1

  Under-lift : {A : Type 0} {key : Bytes} (o : Outcome (Error d b) A) → Under key (lift o)
  unfolding lift
  Under-lift o = record { at = tt }

  Under-bind :
      {A B : Type 0} {key : Bytes} (m : Run d b A) (f : A → Run d b B)
      → Under key m
      → ((a : A) → Under key (f a))
      → Under key (m >>= f)
  unfolding ◌>>=◌
  Under-bind {key} (ok a, es) f h k = record {
    at = All-append (StoresUnder key) es (f a).1 h.at (k a).at;
  }
  Under-bind (err e, es) f h k = record { at = h.at }

  Under-put :
      {key : Bytes} (env : Env d b) (e : Error d b) (r : Record)
      → r.key ≡ key
      → Under key (put_or env e r)
  unfolding put_or
  Under-put env e r h = ground arith

  Under-broadcast : {key : Bytes} (a : ChunkAddress d b) → Under key (broadcast a)
  unfolding broadcast
  Under-broadcast a = record { at = (tt, tt) }

  Under-if :
      {A : Type 0} {key : Bytes} (t : Bool) (m m' : Run d b A)
      → (t ≡ true → Under key m)
      → (t ≡ false → Under key m')
      → Under key (if t then m else m')
  Under-if true m m' h k = h refl
  Under-if false m m' h k = k refl

ruleset under_rules = (Under-lift, Under-bind, Under-put, Under-broadcast, Under-if)

module _ {d : Deps} {b : Ledger} (n : Node d b) (env : Env d b) where
  open b use {SignedSpend, DbcId}

  store_chunk-Under :
      {key : Bytes} (c : ChunkWithPayment d b) (v : Bool)
      → chunk_key n env c ≡ key
      → Under key (store_chunk n env c v)
  unfolding store_chunk
  store_chunk-Under c v h = search under_rules

  chunk-Under :
      {key : Bytes} (c : ChunkWithPayment d b) (v : Bool)
      → chunk_key n env c ≡ key
      → Under key (validate_and_store_chunk n env c v)
  unfolding validate_and_store_chunk
  chunk-Under c v h = search (under_rules, store_chunk-Under)

  store_register-Under :
      {key : Bytes} (reg : SignedRegister d) (o : Option (SignedRegister d))
      → register_key n env (address reg.base_register) ≡ key
      → Under key (store_register n env reg o)
  unfolding store_register
  store_register-Under reg none h = search under_rules
  store_register-Under reg (some m) h = search under_rules

  register-Under :
      {key : Bytes} (reg : SignedRegister d)
      → register_key n env (address reg.base_register) ≡ key
      → Under key (validate_and_store_register n env reg)
  unfolding validate_and_store_register
  register-Under reg h = search (under_rules, store_register-Under)

  store_spends-Under :
      {key : Bytes} (id : DbcId) (o : Option (List SignedSpend))
      → spend_key n env id ≡ key
      → Under key (store_spends n env id o)
  unfolding store_spends
  store_spends-Under id none h = search under_rules
  store_spends-Under id (some spends) h = search under_rules

  -- The common id is the first spend's.
  common_dbc_id-first :
      (first : SignedSpend) (elements : List SignedSpend) (id : DbcId)
      → common_dbc_id n env (first ∷ elements) ≡ ok id
      → b.dbc_id first ≡ id
  unfolding common_dbc_id
  common_dbc_id-first first elements id h = ground arith

  -- The rest of the handler, from the result of the test of the ids.
  from_id-Under :
      {key : Bytes} (o : Outcome (Error d b) DbcId) (f : DbcId → Run d b CmdOk)
      → ((id : DbcId) → o ≡ ok id → Under key (f id))
      → Under key (lift o >>= f)
  unfolding lift ◌>>=◌
  from_id-Under (ok id) f k = record { at = (k id refl).at }
  from_id-Under (err e) f k = record { at = tt }

  all_at_first :
      (key : Bytes) (first : SignedSpend) (elements : List SignedSpend)
      → all (λ s. test (n.record_key_eq key (spend_key n env (b.dbc_id s)))) (first ∷ elements)
        ≡ true
      → key ≡ spend_key n env (b.dbc_id first)
  all_at_first key first elements h =
      test→holds (n.record_key_eq key (spend_key n env (b.dbc_id first))) (ground arith)

  after_id-Under :
      {key : Bytes} (spends : List SignedSpend) (id : DbcId)
      → spend_key n env id ≡ key
      → Under key (
          lift (map_err (λ _. spend_not_stored) (env.is_key_present_locally (spend_key n env id)))
          >>= λ present_locally.
              lift (signed_spend_validation n env spends id present_locally)
              >>= store_spends n env id)
  after_id-Under spends id h = search (under_rules, store_spends-Under)

  -- The spends are all kept under the key.
  spends-Under :
      (key : Bytes) (spends : List SignedSpend)
      → all (λ s. test (n.record_key_eq key (spend_key n env (b.dbc_id s)))) spends ≡ true
      → Under key (validate_and_store_spends n env spends)
  unfolding validate_and_store_spends common_dbc_id
  spends-Under key [] h = from_id-Under (err spend_not_stored) _ (λ id e. cc)
  spends-Under key (first ∷ elements) h =
      from_id-Under (common_dbc_id n env (first ∷ elements)) _ (λ id e.
        after_id-Under (first ∷ elements) id (
          sym (ap (spend_key n env) (common_dbc_id-first first elements id e))
          ∙ sym (all_at_first key first elements h)))

  same_key : (key k : Bytes) → test (n.record_key_eq key k) ≡ true → k ≡ key
  same_key key k h = sym (test→holds (n.record_key_eq key k) h)

  store_by_kind-Under :
      (r : Record) (v : Bool) (kind : RecordKind) → Under r.key (store_by_kind n env r v kind)
  unfolding store_by_kind
  store_by_kind-Under r v chunk = search (under_rules, chunk-Under, same_key)
  store_by_kind-Under r v dbc_spend = search (under_rules, spends-Under)
  store_by_kind-Under r v register = search (under_rules, register-Under, same_key)

  -- Whatever record arrives, and whatever the network layer answers, a record is only ever stored
  -- under the key of the record that arrived.
  pub validate_and_store_record-Under :
      (r : Record) (v : Bool) → Under r.key (validate_and_store_record n env r v)
  unfolding validate_and_store_record
  validate_and_store_record-Under r v = search (under_rules, store_by_kind-Under)
