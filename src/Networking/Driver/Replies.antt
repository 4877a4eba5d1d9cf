-- ===== src/Networking/Driver/Replies.antt =====
-- How the swarm driver answers a query for a record that is under way.
use safe_network.Base.{
  ◌≡◌, refl, sym, ◌∙◌, ap, arith, ◌≤◌, ◌+◌, suc, ℕ, List, [], ◌∷◌, ◌++◌, Option, none, some, Bool,
  true, false, inl, inr, ◌⊎◌, if◌then◌else◌, length, filter, any, map, leb, Option-cases,
}
use safe_network.Base.Outcome.{Outcome, ok, err}
use safe_network.Base.Assoc
use safe_network.Networking.RecordStore
use safe_network.Networking.RecordStore.{Kademlia, Record, Task, put_verified}
use safe_network.Networking.Quorum.{
  Peers, PeerRecord, GetRecordResultMap, GetError, accumulate_get_record_ok, content_of,
  try_update_self_for_split_record,
}
use safe_network.Networking.Quorum.Votes.{votes}
use safe_network.Networking.Quorum.Answers.{Represents, verdict, accumulate-Represents, waits_early}
use safe_network.Networking.Driver.{
  Net, SwarmDriver, Env, Handler, Ran, run_on, Effect, sent, store_task, record_answer, emit, send,
  modify, get, return, and_then, ◌>>=◌, ◌>>◌,
}
use safe_network.Networking.Driver.Commands.{store_verified, after_put}
use safe_network.Networking.Driver.Queries.{
  record_found, take_get_record, update_self, ignore_error, keep_get_record, settle_get_record,
  on_record_found, handle_kad_event,
}

module _ {p : Peers} {k : Kademlia} {n : Net p k} where
  -- What the driver does of its own for a split record: tasks of the store, at most.
  update_self_tasks :
      (d : SwarmDriver n) (o : Option (Record k))
      → (tasks : List (Task k)) × ((run_on d (update_self o)).effects ≡ map store_task tasks)
        × ((run_on d (update_self o)).driver.pending_get_record ≡ d.pending_get_record)
        × ((run_on d (update_self o)).result ≡ ok tt)
  unfolding update_self ignore_error store_verified return run_on after_put
  update_self_tasks d none = ([], refl, refl, refl)
  update_self_tasks d (some r) =
      let (tasks, e, q) = go (put_verified d.store r) in (tasks, e, q, refl)
    where
      go :
          (o : Outcome RecordStore.Error (RecordStore.RecordStore k × List (Task k)))
          → (tasks : List (Task k)) × ((after_put {n = n} o d).effects ≡ map store_task tasks)
            × ((after_put o d).driver.pending_get_record ≡ d.pending_get_record)
      go (ok (s, tasks)) = (tasks, refl, refl)
      go (err e) = ([], refl, refl)

  module _ (env : Env n) (id : n.QueryId) (r : PeerRecord p k) (count : ℕ) (d : SwarmDriver n) where
    abbrev after : Ran n (Unit {0})
    after = run_on d (handle_kad_event env (record_found id r count))

    -- The query is taken from the map, and then looked at.
    after_lem :
        (o : Option (n.Sender × GetRecordResultMap p k))
        → Assoc.lookup n.query_eq id d.pending_get_record ≡ o
        → after
          ≡ run_on
              (record d { pending_get_record = Assoc.remove n.query_eq id d.pending_get_record })
              (on_record_found env id r count o)
    unfolding handle_kad_event take_get_record run_on and_then get modify return ◌>>=◌ ◌>>◌
    after_lem o h = rw h refl

    found_idle :
        Assoc.lookup n.query_eq id d.pending_get_record ≡ none
        → (after.effects ≡ [])
          × (Assoc.lookup n.query_eq id after.driver.pending_get_record ≡ none)
          × (after.result ≡ ok tt)
    unfolding on_record_found return run_on
    found_idle h =
        rw (after_lem none h)
          (refl, Assoc.lookup-remove_self n.query_eq id d.pending_get_record, refl)

    found_more :
        (sender : n.Sender) (m : GetRecordResultMap p k)
        → Assoc.lookup n.query_eq id d.pending_get_record ≡ some (sender, m)
        → (accumulate_get_record_ok r count m).0 ≡ none
        → (after.effects ≡ [])
          × (Assoc.lookup n.query_eq id after.driver.pending_get_record
              ≡ some (sender, (accumulate_get_record_ok r count m).1))
          × (after.result ≡ ok tt)
    unfolding on_record_found settle_get_record keep_get_record modify run_on
    found_more sender m h e =
        rw (after_lem (some (sender, m)) h, e)
          (refl, Assoc.lookup-insert_self n.query_eq id _ _, refl)

    found_last :
        (sender : n.Sender) (m : GetRecordResultMap p k) (answer : Outcome (GetError k) (Record k))
        → Assoc.lookup n.query_eq id d.pending_get_record ≡ some (sender, m)
        → (accumulate_get_record_ok r count m).0 ≡ some answer
        → (tasks : List (Task k)) × (after.effects
            ≡ sent sender (record_answer answer) ∷ map store_task tasks)
          × (Assoc.lookup n.query_eq id after.driver.pending_get_record ≡ none)
          × (after.result ≡ ok tt)
    unfolding on_record_found settle_get_record send emit run_on and_then ◌>>=◌ ◌>>◌
    found_last sender m answer h e =
        let taken : SwarmDriver n = record d {
          pending_get_record = Assoc.remove n.query_eq id d.pending_get_record;
        } in
        let (tasks, effects, queries, result) = update_self_tasks taken (
          try_update_self_for_split_record
            (env.hash_order (accumulate_get_record_ok r count m).1)) in
        (
          tasks,
          rw (after_lem (some (sender, m)) h, e, effects) refl,
          rw (after_lem (some (sender, m)) h, e, queries)
              (Assoc.lookup-remove_self n.query_eq id d.pending_get_record),
          rw (after_lem (some (sender, m)) h, e, result) refl,
        )

  -- An effect that answers a query for a record.
  abbrev pub is_reply : Effect n → Bool
  is_reply (sent sender (record_answer a)) = true
  is_reply _ = false

  abbrev pub replies : List (Effect n) → ℕ
  replies effects = length (filter is_reply effects)

  -- The copies that arrive for one query, with the steps at which they do.
  unfoldable pub copies_arrive :
      n.QueryId → List (Env n × (PeerRecord p k × ℕ)) → Handler n (Unit {0})
  copies_arrive id [] = return tt
  copies_arrive id ((env, (r, count)) ∷ rest) = do
    handle_kad_event env (record_found id r count)
    copies_arrive id rest

  replies-append : (es fs : List (Effect n)) → replies (es ++ fs) ≡ replies es + replies fs
  replies-append [] fs = omega arith
  replies-append (e ∷ es) fs = ground (arith, replies-append es fs)

module _ {p : Peers} {k : Kademlia} (n : Net p k) where
  replies-tasks : (tasks : List (Task k)) → replies (map {B = Effect n} store_task tasks) ≡ 0
  replies-tasks [] = refl
  replies-tasks (t ∷ tasks) = replies-tasks tasks

module _ {p : Peers} {k : Kademlia} {n : Net p k} where
  replies-then :
      (m next : Handler n (Unit {0})) (d : SwarmDriver n)
      → (run_on d m).result ≡ ok tt
      → replies (run_on d (m >> next)).effects
        ≡ replies (run_on d m).effects + replies (run_on (run_on d m).driver next).effects
  unfolding ◌>>◌ ◌>>=◌ and_then run_on
  replies-then m next d h =
      rw h (replies-append (run_on d m).effects (run_on (run_on d m).driver next).effects)

  arrive_idle :
      (id : n.QueryId) (rs : List (Env n × (PeerRecord p k × ℕ))) (d : SwarmDriver n)
      → Assoc.lookup n.query_eq id d.pending_get_record ≡ none
      → replies (run_on d (copies_arrive id rs)).effects ≡ 0
  unfolding copies_arrive
  arrive_idle id [] d h = unfold return run_on in refl
  arrive_idle id ((env, (r, count)) ∷ rest) d h =
      let (effects, idle, done) = found_idle env id r count d h in
      let none_now : replies (after env id r count d).effects ≡ 0 = rw effects refl in
      let none_later = arrive_idle id rest (after env id r count d).driver idle in
      omega (
        arith,
        replies-then (handle_kad_event env (record_found id r count)) (copies_arrive id rest) d
            done,
        none_now,
        none_later,
      )

  -- A query that is under way is answered at most once, whatever copies arrive, and exactly once
  -- if a copy arrives at the eighth step or later.
  pub answered_once :
      (id : n.QueryId) (rs : List (Env n × (PeerRecord p k × ℕ))) (d : SwarmDriver n)
      (sender : n.Sender) (m : GetRecordResultMap p k)
      → Assoc.lookup n.query_eq id d.pending_get_record ≡ some (sender, m)
      → (replies (run_on d (copies_arrive id rs)).effects ≤ 1)
        × ((if any (λ t. leb 8 t.1.1) rs then 1 else 0)
            ≤ replies (run_on d (copies_arrive id rs)).effects)
  unfolding copies_arrive
  answered_once id [] d sender m h = unfold return run_on in (omega arith, omega arith)
  answered_once id ((env, (r, count)) ∷ rest) d sender m h =
      elim (Option-cases (accumulate_get_record_ok r count m).0) [
        | inl e ↦
            let (effects, more, done) = found_more env id r count d sender m h e in
            let (once, exactly) =
              answered_once id rest (after env id r count d).driver sender _ more in
            let none_now : replies (after env id r count d).effects ≡ 0 = rw effects refl in
            let total =
              replies-then (handle_kad_event env (record_found id r count)) (copies_arrive id rest)
                d done in
            let early = waits_early r count m e in
            (omega (arith, total, none_now, once), ground (arith, total, none_now, exactly, early))
        | inr (a, e) ↦
            let (tasks, effects, idle, done) = found_last env id r count d sender m a h e in
            let one_now : replies (after env id r count d).effects ≡ 1 =
              rw effects (ap suc (replies-tasks n tasks)) in
            let total =
              replies-then (handle_kad_event env (record_found id r count)) (copies_arrive id rest)
                d done in
            let none_later = arrive_idle id rest (after env id r count d).driver idle in
            (omega (arith, total, one_now, none_later), ground (arith, total, one_now, none_later))
      ]

  -- With a verdict, it is sent, and the query is over; without, the query goes on with the copy counted.
  abbrev pub Settles :
      Env n
      → n.QueryId
      → PeerRecord p k
      → ℕ
      → SwarmDriver n
      → n.Sender
      → List (PeerRecord p k)
      → Type 0
  Settles env id r count d sender earlier =
      let found = run_on d (handle_kad_event env (record_found id r count)) in
      let decided = verdict r.found (length (votes (content_of r) (r ∷ earlier))) count in
      ((decided ≡ none)
        × (found.effects ≡ [])
        × ((m' : GetRecordResultMap p k) × (Assoc.lookup n.query_eq id
                found.driver.pending_get_record
              ≡ some (sender, m'))
            × Represents m' (r ∷ earlier)))
      ⊎ ((answer : Outcome (GetError k) (Record k)) × (decided ≡ some answer)
          × ((tasks : List (Task k)) × (found.effects
                ≡ sent sender (record_answer answer) ∷ map store_task tasks))
          × (Assoc.lookup n.query_eq id found.driver.pending_get_record ≡ none))

  -- A copy that comes for a query that is under way, whose map counts the earlier copies: either
  -- the verdict on all votes is none, nothing is sent, and the query goes on with the copy
  -- counted; or the verdict is sent to the caller, once, followed by tasks of the store only, and
  -- the query is over.
  pub record_found_lem :
      (env : Env n) (id : n.QueryId) (r : PeerRecord p k) (count : ℕ) (d : SwarmDriver n)
      (sender : n.Sender) (m : GetRecordResultMap p k) (earlier : List (PeerRecord p k))
      → Assoc.lookup n.query_eq id d.pending_get_record ≡ some (sender, m)
      → Represents m earlier
      → Settles env id r count d sender earlier
  record_found_lem env id r count d sender m earlier h rep =
      let (decided, rep') = accumulate-Represents r count m earlier rep in
      elim (Option-cases (accumulate_get_record_ok r count m).0) [
        | inl e ↦
            let (effects, more, done) = found_more env id r count d sender m h e in
            inl (sym decided ∙ e, effects, ((accumulate_get_record_ok r count m).1, more, rep'))
        | inr (a, e) ↦
            let (tasks, effects, idle, done) = found_last env id r count d sender m a h e in
            inr (a, sym decided ∙ e, (tasks, effects), idle)
      ]
