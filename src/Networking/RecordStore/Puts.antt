-- ===== src/Networking/RecordStore/Puts.antt =====
-- `put_verified` of record_store.rs, on stores with room and on full ones.
use native.Mathlib.Nat.{le_trans}
use safe_network.Base.{
  ap, ltb→lt, suc, ◌≤◌, ◌<◌, List, [], ◌∷◌, true, false, not, ◌≡◌, arith, ltb, length, filter, inl,
  inr, Bool-cases,
}
use safe_network.Base.Order.{eqb, eqb_refl, eqb→eq}
use safe_network.Base.Outcome.{ok, err}
use safe_network.Base.SortedSet
use safe_network.Networking.RecordStore.{
  Kademlia, Record, RecordStore, Error, Task, write_file, remove_file, distance_to, put_verified,
  contains,
}
use safe_network.Networking.RecordStore.Capacity.{
  length-insert-le, insert_held, length-without, furthest_lem, sort_has_last,
}

-- The records are a set, and a store can hold at least one.
pub record WellFormed {k : Kademlia} (s : RecordStore k) : Type 0 where
  pub is_set : SortedSet.IsSorted k.key_ord s.records
  pub within : length s.records ≤ s.max_records
  pub positive : 0 < s.max_records

-- The distance of Kademlia is symmetric.
abbrev pub IsSymmetric : Kademlia → Type 0
IsSymmetric k = (a b : k.KBucketKey) → k.distance a b ≡ k.distance b a

module _ {k : Kademlia} (s : RecordStore k) (r : Record k) where
  open k use {Key, key_ord as o}

  -- The record that a full store evicts for `r`, with the tasks and the store that result.
  pub record Evicts (s' : RecordStore k) (tasks : List (Task k)) : Type 0 where
    pub victim : Key
    pub held : SortedSet.contains k.key_ord victim s.records ≡ true
    pub furthest :
        (y : k.Key)
        → SortedSet.contains k.key_ord y s.records ≡ true
        → distance_to s y ≤ distance_to s victim
    pub closer : distance_to s r.key < distance_to s victim
    pub tasks_are : tasks ≡ remove_file victim ∷ write_file r.key r.value ∷ []
    pub records_are : s' ≡ record s {
      records =
          SortedSet.insert k.key_ord r.key (filter (λ y. not (eqb k.key_ord y victim)) s.records);
    }

  -- A store that is not full takes the record and evicts nothing.
  pub put_verified-room :
      length s.records < s.max_records
      → put_verified s r
        ≡ ok (
          record s { records = SortedSet.insert o r.key s.records },
          write_file r.key r.value ∷ [],
        )
  unfolding put_verified
  put_verified-room h = ground arith

  -- With a symmetric distance, a well-formed store that is full and takes a record evicts a
  -- record that it held, that is as far as any it held and farther than the new one.
  pub put_verified-Evicts :
      (s' : RecordStore k) (tasks : List (Task k))
      → IsSymmetric k
      → WellFormed s
      → s.max_records ≤ length s.records
      → put_verified s r ≡ ok (s', tasks)
      → Evicts s' tasks
  unfolding put_verified
  put_verified-Evicts s' tasks sym w full h =
      let (f, e) = sort_has_last s s.records (omega (arith, w.positive)) in
      let (held, far) = furthest_lem s f e in
      record {
        victim = f;
        held = held;
        furthest = far;
        closer =
            ground
              (arith, e, sym s.local_key (k.kbucket_key f), sym s.local_key (k.kbucket_key r.key));
        tasks_are = ground (arith, e);
        records_are = ground (arith, e);
      }

  -- With a symmetric distance, a well-formed store refuses a record only if it is full and holds
  -- nothing that is farther.
  pub put_verified_refuses :
      (x : Error)
      → IsSymmetric k
      → WellFormed s
      → put_verified s r ≡ err x
      → (s.max_records ≤ length s.records)
        × ((y : Key)
            → SortedSet.contains o y s.records ≡ true
            → distance_to s y ≤ distance_to s r.key)
  unfolding put_verified
  put_verified_refuses x sym w h =
      let full : s.max_records ≤ length s.records = ground arith in
      let (f, e) = sort_has_last s s.records (omega (arith, w.positive)) in
      let (held, far) = furthest_lem s f e in
      let near : distance_to s f ≤ distance_to s r.key =
        ground
          (arith, e, sym s.local_key (k.kbucket_key f), sym s.local_key (k.kbucket_key r.key)) in
      (full, λ y m. le_trans (far y m) near)

  -- With a symmetric distance, a well-formed store that takes a record stays well formed, within
  -- its capacity, and holds the key of the record.
  pub put_verified-WellFormed :
      (s' : RecordStore k) (tasks : List (Task k))
      → IsSymmetric k
      → WellFormed s
      → put_verified s r ≡ ok (s', tasks)
      → WellFormed s' × (contains s' r.key ≡ true)
  unfolding contains
  put_verified-WellFormed s' tasks sym w h =
      elim (Bool-cases (ltb (length s.records) s.max_records)) [
        | inl few ↦
            let room = ltb→lt (length s.records) s.max_records few in
            let e : s' ≡ record s { records = SortedSet.insert o r.key s.records } =
              ground (arith, put_verified-room room) in
            rw e (kept s.records w.is_set room)
        | inr many ↦
            let full : s.max_records ≤ length s.records = ground arith in
            let ev = put_verified-Evicts s' tasks sym w full h in
            let rest = filter (λ y. not (eqb o y ev.victim)) s.records in
            let shorter = length-without o ev.victim s.records w.is_set ev.held in
            rw ev.records_are (
              kept rest
                (SortedSet.filter-IsSorted o (λ y. not (eqb o y ev.victim)) s.records w.is_set)
                (omega (arith, w.within)))
      ]
    where
      kept :
          (xs : List Key)
          → SortedSet.IsSorted o xs
          → length xs < s.max_records
          → WellFormed (record s { records = SortedSet.insert o r.key xs })
            × (contains (record s { records = SortedSet.insert o r.key xs }) r.key ≡ true)
      kept xs sorted few = (
        record {
          is_set = SortedSet.insert-IsSorted o r.key xs sorted;
          within = omega (arith, length-insert-le o r.key xs);
          positive = w.positive;
        },
        ground (arith, SortedSet.contains-insert o r.key r.key xs, eqb_refl o r.key),
      )

  -- With a symmetric distance, a well-formed store that is full, and takes a record whose key it
  -- already holds, ends with one record less.
  pub put_verified-held :
      (s' : RecordStore k) (tasks : List (Task k))
      → IsSymmetric k
      → WellFormed s
      → s.max_records ≤ length s.records
      → contains s r.key ≡ true
      → put_verified s r ≡ ok (s', tasks)
      → suc (length s'.records) ≡ length s.records
  unfolding contains
  put_verified-held s' tasks sym w full m h =
      let ev = put_verified-Evicts s' tasks sym w full h in
      let keep = λ (y : Key). not (eqb o y ev.victim) in
      let rest = filter keep s.records in
      let other : eqb o r.key ev.victim ≡ false = elim (Bool-cases (eqb o r.key ev.victim)) [
        | inr e ↦ e
        | inl e ↦
            let q = ap (distance_to s) (eqb→eq o r.key ev.victim e) in
            absurd (omega (arith, ev.closer))
      ] in
      let held : SortedSet.contains o r.key rest ≡ true =
        ground (arith, SortedSet.contains-filter o keep r.key s.records) in
      let same : SortedSet.insert o r.key rest ≡ rest =
        insert_held o r.key rest (SortedSet.filter-IsSorted o keep s.records w.is_set) held in
      rw ev.records_are (rw same (length-without o ev.victim s.records w.is_set ev.held))
