-- ===== src/Node/Env.antt =====
-- What a handler of a node meets: the answers of its network layer, the serialisers, and the effects
-- that it has. Each handler asks for a key's presence, its local record and the store cost at most
-- once, so an answer is a function of the question; a record that is read from the network several
-- times in one run of a handler is taken to be the same each time.
use safe_network.Base.{ℕ, List, [], ◌∷◌, ◌++◌, Option, Bool}
use safe_network.Base.Outcome.{Outcome, ok, err}
use safe_network.Registers.Deps.{Deps, Bytes}
use safe_network.Registers.Model.{Codec, SignedRegister}
use safe_network.Protocol.Ledger.{Ledger}
use safe_network.Protocol.Storage.{Error, ChunkAddress, ChunkWithPayment, panicked}
use safe_network.Protocol.Header.{Record, Packer}
use safe_network.Protocol.Names.{Names}
use safe_network.Payments.{Merkle}

pub record Node (d : Deps) (b : Ledger) : Type 1 where
  pub codec : Codec d
  pub names : Names d
  -- `PartialEq` of signed registers, and of record keys
  pub signed_eq : Discrete (SignedRegister d)
  pub record_key_eq : Discrete Bytes
  pub merkle : Merkle d.XorName b.Hash
  -- rmp_serde
  pub header : Packer ℕ
  pub chunks : Packer (ChunkWithPayment d b)
  pub spends : Packer (List b.SignedSpend)
  pub registers : Packer (SignedRegister d)

-- The answers of `Network`; its errors carry nothing that a handler reads.
pub record Env (d : Deps) (b : Ledger) : Type 0 where
  pub is_key_present_locally : Bytes → Outcome (Unit {0}) Bool
  pub get_local_record : Bytes → Outcome (Unit {0}) (Option Record)
  -- the key and `re_attempt`
  pub get_record_from_network : Bytes → Bool → Outcome (Unit {0}) Record
  pub get_local_storecost : Outcome (Unit {0}) ℕ
  -- whether the command to store a record reaches the swarm
  pub put_local_record : Record → Outcome (Unit {0}) (Unit {0})
  -- the order in which concurrent tasks end
  pub join_order :
      List (Outcome (Error d b) b.DbcTransaction) → List (Outcome (Error d b) b.DbcTransaction)

module _ (d : Deps) (b : Ledger) where
  pub data Effect : Type 0 where
    stored : Record → Effect
    chunk_stored : ChunkAddress d b → Effect

  -- A handler's result, and its effects in order.
  abbrev pub Run : Type 0 → Type 0
  Run A = Outcome (Error d b) A × List Effect

module _ {d : Deps} {b : Ledger} where
  -- A panic is no error value: it passes through `map_err(|_| e)`.
  abbrev pub other_error : Error d b → Error d b → Error d b
  other_error e panicked = panicked
  other_error e _ = e

  abbrev pub replace_err : {A : Type 0} → Error d b → Outcome (Error d b) A → Outcome (Error d b) A
  replace_err e (ok a) = ok a
  replace_err e (err x) = err (other_error e x)

  unfoldable pub lift : {A : Type 0} → Outcome (Error d b) A → Run d b A
  lift o = (o, [])

  abbrev pub extend_run :
      {A B : Type 0} → Outcome (Error d b) A → List (Effect d b) → (A → Run d b B) → Run d b B
  extend_run (ok a) es f = let r = f a in (r.0, es ++ r.1)
  extend_run (err e) es f = (err e, es)

  infixl 5 ◌>>=◌
  unfoldable pub ◌>>=◌ : {A B : Type 0} → Run d b A → (A → Run d b B) → Run d b B
  m >>= f = extend_run m.0 m.1 f

  -- `self.network.put_local_record(record).map_err(|_| e)?`
  unfoldable pub put_or : Env d b → Error d b → Record → Run d b Unit
  put_or env e r = elim (env.put_local_record r) [
    | ok u ↦ (ok u, stored r ∷ [])
    | err x ↦ (err e, [])
  ]

  -- `self.events_channel.broadcast(ChunkStored(..))`
  unfoldable pub broadcast : ChunkAddress d b → Run d b Unit
  broadcast a = (ok tt, chunk_stored a ∷ [])
