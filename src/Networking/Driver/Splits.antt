-- ===== src/Networking/Driver/Splits.antt =====
-- What the swarm driver does of its own when the copies of a record are split (event.rs).
use safe_network.Base.{
  none, some, Option, ◌≡◌, refl, ◌∙◌, ap, List, [], ◌∷◌, map, Option, none, some, Bool-cases, inl,
  inr, if◌then◌else◌,
}
use safe_network.Base.Outcome.{Outcome-cases, Outcome, ok, err, Outcome-cases}
use safe_network.Base.SortedSet
use safe_network.Networking.RecordStore
use safe_network.Networking.RecordStore.{Kademlia, Record, Task, put_verified}
use safe_network.Networking.Quorum.{
  Peers, Copies, GetRecordResultMap, GetError, try_update_self_for_split_record,
}
use safe_network.Networking.Quorum.Split.{Winner, split-Winner}
use safe_network.Networking.Driver.{
  Net, SwarmDriver, Env, run_on, sent, store_task, record_answer, emit, send, and_then, return,
  ◌>>=◌, ◌>>◌,
}
use safe_network.Networking.Driver.Commands.{store_verified, after_put}
use safe_network.Networking.Driver.Queries.{update_self, ignore_error, settle_get_record}

module _ {k : Kademlia} where
  -- The store, and its tasks, after a put that it may refuse.
  abbrev pub after_try :
      RecordStore.RecordStore k
      → Outcome RecordStore.Error (RecordStore.RecordStore k × List (Task k))
      → RecordStore.RecordStore k × List (Task k)
  after_try s (ok done) = done
  after_try s (err e) = (s, [])

module _ {p : Peers} {k : Kademlia} {n : Net p k} where
  -- The driver keeps all but its store, and sends the answer before anything else.
  pub record AnswersAndStores (env : Env n) (id : n.QueryId) (sender : n.Sender)
      (answer : Outcome (GetError k) (Record k)) (m : GetRecordResultMap p k) (d : SwarmDriver n)
      (kept : RecordStore.RecordStore k × List (Task k)) : Type 0 where
    pub result : (run_on d (settle_get_record env id sender (some answer) m)).result ≡ ok tt
    pub driver :
        (run_on d (settle_get_record env id sender (some answer) m)).driver
        ≡ record d { store = kept.0 }
    pub effects :
        (run_on d (settle_get_record env id sender (some answer) m)).effects
        ≡ sent sender (record_answer answer) ∷ map store_task kept.1

  settle_stores :
      (env : Env n) (id : n.QueryId) (sender : n.Sender) (answer : Outcome (GetError k) (Record k))
      (m : GetRecordResultMap p k) (d : SwarmDriver n) (chosen : Option (Record k))
      → try_update_self_for_split_record (env.hash_order m) ≡ chosen
      → AnswersAndStores env id sender answer m d (elim chosen [
        | none ↦ (d.store, [])
        | some r ↦ after_try d.store (put_verified d.store r)
      ])
  unfolding settle_get_record update_self ignore_error store_verified after_put send emit return
      run_on and_then ◌>>=◌ ◌>>◌
  settle_stores env id sender answer m d none h = record {
    result = rw h refl;
    driver = rw h refl;
    effects = rw h refl;
  }
  settle_stores env id sender answer m d (some r) h =
      elim (Outcome-cases (put_verified d.store r)) [
        | inl (e, q) ↦ record {
          result = rw h refl;
          driver = rw (h, q) refl;
          effects = rw (h, q) refl;
        }
        | inr ((s, tasks), q) ↦ record {
          result = rw h refl;
          driver = rw (h, q) refl;
          effects = rw (h, q) refl;
        }
      ]

  -- When a copy settles a query whose map is iterated with two or more entries, one of these
  -- wins, with the most votes and the lowest name of those. The caller is sent the answer. Then,
  -- unless the node is itself among the holders of the winning copy, it tries to put that copy in
  -- its store, also if the node gave no copy at all; a store that refuses it is left as it was.
  -- Nothing else of the driver changes.
  pub settle_get_record-Winner :
      (env : Env n) (id : n.QueryId) (sender : n.Sender) (answer : Outcome (GetError k) (Record k))
      (m : GetRecordResultMap p k) (e f : p.XorName × Copies p k) (rest : GetRecordResultMap p k)
      (d : SwarmDriver n)
      → env.hash_order m ≡ e ∷ f ∷ rest
      → (w : Winner (e ∷ f ∷ rest)) × AnswersAndStores env id sender answer m d (
          if SortedSet.contains p.peer_ord p.self_peer_id w.copies.peers
          then (d.store, [])
          else after_try d.store (put_verified d.store w.copies.copy))
  settle_get_record-Winner env id sender answer m e f rest d order =
      let (w, chosen) = split-Winner e f rest in
      (
        w,
        elim (Bool-cases (SortedSet.contains p.peer_ord p.self_peer_id w.copies.peers)) [
          | inl own ↦ rw own (
              settle_stores env id sender answer m d none
                (ap try_update_self_for_split_record order ∙ chosen ∙ rw own refl))
          | inr other ↦ rw other (
              settle_stores env id sender answer m d (some w.copies.copy)
                (ap try_update_self_for_split_record order ∙ chosen ∙ rw other refl))
        ],
      )
