-- ===== src/Transfers/Wallet/Sound.antt =====
-- The wallet's DBCs: available and spent ones are apart, and the available ones are the wallet's own.
use safe_network.Base.{
  ◌≡◌, refl, subst, ◌∙◌, ap, arith, List, [], ◌∷◌, Bool, true, false, not, ◌&&◌, ◌||◌, is_some, All,
}
use safe_network.Base.Order.{eqb→eq}
use safe_network.Base.SortedSet
use safe_network.Base.SortedMap
use safe_network.Base.SortedMap.{held, has_entry, append, lookup, remove}
use safe_network.Transfers.{Dbcs}
use safe_network.Transfers.Wallet.{
  Keys, KeyLessWallet, TransferOutputs, receive, deposit, take_spent, option_list,
}

pub both_false : (a b : Bool) → (a ≡ true → b ≡ false) → (a && b) ≡ false
both_false true b f = f refl
both_false false b f = refl

module _ {c : Dbcs} (k : Keys c) where
  abbrev pub IsOwn : c.DbcId × c.Dbc → Type 0
  IsOwn e = is_some (k.derived_key e.1) ≡ true

  pub receive_unspent :
      (id : c.DbcId) (spent : List (c.DbcId × c.Dbc)) (dbcs : List c.Dbc)
      → held k.id_ord id spent ≡ true
      → has_entry k.id_ord id (receive k spent dbcs) ≡ false
  unfolding receive
  receive_unspent id spent [] h = refl
  receive_unspent id spent (dbc ∷ dbcs) h =
      ground (arith, receive_unspent id spent dbcs h, eqb→eq k.id_ord id (c.id dbc))

  receive-IsOwn :
      (spent : List (c.DbcId × c.Dbc)) (dbcs : List c.Dbc) → All IsOwn (receive k spent dbcs)
  unfolding receive
  receive-IsOwn spent [] = tt
  receive-IsOwn spent (dbc ∷ dbcs) = ground (arith, receive-IsOwn spent dbcs)

  pub receive_other :
      (id : c.DbcId) (spent : List (c.DbcId × c.Dbc)) (dbcs : List c.Dbc) (ids : List c.DbcId)
      → All (λ dbc. SortedSet.contains k.id_ord (c.id dbc) ids ≡ false) dbcs
      → SortedSet.contains k.id_ord id ids ≡ true
      → has_entry k.id_ord id (receive k spent dbcs) ≡ false
  unfolding receive
  receive_other id spent [] ids h g = refl
  receive_other id spent (dbc ∷ dbcs) ids h g =
      ground (arith, receive_other id spent dbcs ids h.1 g, eqb→eq k.id_ord id (c.id dbc))

  pub held-take_spent :
      (id : c.DbcId) (ids : List c.DbcId) (m : List (c.DbcId × c.Dbc))
      → SortedMap.IsSorted k.id_ord m
      → held k.id_ord id (take_spent k ids m).0
        ≡ (held k.id_ord id m && not (SortedSet.contains k.id_ord id ids))
  unfolding take_spent SortedSet.contains
  held-take_spent id [] m s = ground arith
  held-take_spent id (i ∷ ids) m s = ground (
    arith,
    held-take_spent id ids (remove k.id_ord i m) (SortedMap.remove-IsSorted k.id_ord i m s),
    SortedMap.lookup-remove k.id_ord id i m s,
  )

  pub has_entry-take_spent :
      (id : c.DbcId) (ids : List c.DbcId) (m : List (c.DbcId × c.Dbc))
      → SortedMap.IsSorted k.id_ord m
      → has_entry k.id_ord id (take_spent k ids m).1
        ≡ (held k.id_ord id m && SortedSet.contains k.id_ord id ids)
  unfolding take_spent SortedSet.contains
  has_entry-take_spent id [] m s = ground arith
  has_entry-take_spent id (i ∷ ids) m s = ground (
    arith,
    has_entry-take_spent id ids (remove k.id_ord i m) (SortedMap.remove-IsSorted k.id_ord i m s),
    SortedMap.lookup-remove k.id_ord id i m s,
    eqb→eq k.id_ord id i,
  )

  pub take_spent-IsSorted :
      (ids : List c.DbcId) (m : List (c.DbcId × c.Dbc))
      → SortedMap.IsSorted k.id_ord m
      → SortedMap.IsSorted k.id_ord (take_spent k ids m).0
  unfolding take_spent
  take_spent-IsSorted [] m s = s
  take_spent-IsSorted (i ∷ ids) m s = ground (
    arith,
    take_spent-IsSorted ids (remove k.id_ord i m) (SortedMap.remove-IsSorted k.id_ord i m s),
  )

  pub take_spent-IsOwn :
      (ids : List c.DbcId) (m : List (c.DbcId × c.Dbc))
      → All IsOwn m
      → All IsOwn (take_spent k ids m).0
  unfolding take_spent
  take_spent-IsOwn [] m a = a
  take_spent-IsOwn (i ∷ ids) m a = ground (
    arith,
    take_spent-IsOwn ids (remove k.id_ord i m) (SortedMap.All-remove k.id_ord IsOwn i m a),
  )

module _ {c : Dbcs} {k : Keys c} where
  pub record IsSound (w : KeyLessWallet k) : Type 0 where
    pub available_sorted : SortedMap.IsSorted k.id_ord w.available_dbcs
    pub spent_sorted : SortedMap.IsSorted k.id_ord w.spent_dbcs
    pub apart :
        (id : c.DbcId)
        → (held k.id_ord id w.spent_dbcs && held k.id_ord id w.available_dbcs) ≡ false
    pub own : All (IsOwn k) w.available_dbcs

  pub not_available :
      (w : KeyLessWallet k) (id : c.DbcId)
      → IsSound w
      → held k.id_ord id w.spent_dbcs ≡ true
      → held k.id_ord id w.available_dbcs ≡ false
  not_available w id s h = ground (arith, s.apart id)

  -- The change of a transfer is a new DBC, and none of its inputs.
  abbrev pub HasFreshChange : TransferOutputs k → Type 0
  HasFreshChange t =
      All (λ dbc. SortedSet.contains k.id_ord (c.id dbc) t.input_ids ≡ false)
        (option_list t.change_dbc)

  -- What is held after a deposit.
  pub held-deposit :
      (id : c.DbcId) (dbcs : List c.Dbc) (w : KeyLessWallet k)
      → held k.id_ord id (deposit dbcs w).available_dbcs
        ≡ (held k.id_ord id w.available_dbcs || has_entry k.id_ord id (receive k w.spent_dbcs dbcs))
  unfolding deposit lookup
  held-deposit id [] w = ground arith
  held-deposit id (dbc ∷ dbcs) w =
      let received = receive k w.spent_dbcs (dbc ∷ dbcs) in
      let inner : has_entry k.id_ord id (append k.id_ord [] received)
          ≡ has_entry k.id_ord id received =
        SortedMap.has_entry-held k.id_ord id (append k.id_ord [] received)
        ∙ SortedMap.held-append k.id_ord id [] received in
      SortedMap.held-append k.id_ord id w.available_dbcs (append k.id_ord [] received)
      ∙ ap (λ b. held k.id_ord id w.available_dbcs || b) inner

  deposit-IsSorted :
      (dbcs : List c.Dbc) (w : KeyLessWallet k)
      → SortedMap.IsSorted k.id_ord w.available_dbcs
      → SortedMap.IsSorted k.id_ord (deposit dbcs w).available_dbcs
  unfolding deposit
  deposit-IsSorted [] w s = s
  deposit-IsSorted (dbc ∷ dbcs) w s = SortedMap.append-IsSorted k.id_ord _ _ s

  deposit-IsOwn :
      (dbcs : List c.Dbc) (w : KeyLessWallet k)
      → All (IsOwn k) w.available_dbcs
      → All (IsOwn k) (deposit dbcs w).available_dbcs
  unfolding deposit
  deposit-IsOwn [] w a = a
  deposit-IsOwn (dbc ∷ dbcs) w a =
      SortedMap.All-append k.id_ord (IsOwn k) _ _ a
        (SortedMap.All-append k.id_ord (IsOwn k) _ _ tt (receive-IsOwn k w.spent_dbcs (dbc ∷ dbcs)))

  pub deposit-spent :
      (dbcs : List c.Dbc) (w : KeyLessWallet k) → (deposit dbcs w).spent_dbcs ≡ w.spent_dbcs
  unfolding deposit
  deposit-spent [] w = refl
  deposit-spent (dbc ∷ dbcs) w = refl

  pub deposit-IsSound :
      (dbcs : List c.Dbc) (w : KeyLessWallet k) → IsSound w → IsSound (deposit dbcs w)
  deposit-IsSound dbcs w s = record {
    available_sorted = deposit-IsSorted dbcs w s.available_sorted;
    spent_sorted = rw (deposit-spent dbcs w) s.spent_sorted;
    apart = λ id. both_false _ _ (λ h.
        let spent : held k.id_ord id w.spent_dbcs ≡ true =
          subst (λ l. held k.id_ord id l ≡ true) (deposit-spent dbcs w) h in
        held-deposit id dbcs w
        ∙ ground (arith, not_available w id s spent, receive_unspent k id w.spent_dbcs dbcs spent));
    own = deposit-IsOwn dbcs w s.own;
  }
