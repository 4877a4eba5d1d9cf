-- ===== src/Transfers/Wallet/Spent.antt =====
-- Transfers of the wallet: what they spend stays spent, and the balance they leave.
use safe_network.Base.{
  ◌≡◌, refl, sym, ◌∙◌, ap, arith, List, [], ◌∷◌, none, true, false, ◌&&◌, ◌||◌, All, inl, inr,
  Bool-cases,
}
use safe_network.Base.Order.{Ord, eqb_refl}
use safe_network.Base.SortedSet
use safe_network.Base.SortedSet.{collect}
use safe_network.Base.SortedMap
use safe_network.Base.SortedMap.{held, has_entry, append, lookup, remove}
use safe_network.Transfers.{Dbcs}
use safe_network.Transfers.Wallet.{
  Keys, KeyLessWallet, TransferOutputs, deposit, take_spent, option_list, update_local_wallet,
}
use safe_network.Transfers.Wallet.Sound.{
  IsSound, HasFreshChange, receive_unspent, receive_other, held-take_spent, has_entry-take_spent,
  take_spent-IsSorted, take_spent-IsOwn, held-deposit, deposit-spent, deposit-IsSound, both_false,
  not_available,
}

module _ {c : Dbcs} {k : Keys c} where
  -- The wallet without what a transfer spends.
  abbrev taken_of :
      TransferOutputs k → KeyLessWallet k → List (c.DbcId × c.Dbc) × List (c.DbcId × c.Dbc)
  taken_of t w = take_spent k (collect k.id_ord t.input_ids) w.available_dbcs

  abbrev without : TransferOutputs k → KeyLessWallet k → KeyLessWallet k
  without t w = record w { available_dbcs = (taken_of t w).0 }

  without-IsSound :
      (t : TransferOutputs k) (w : KeyLessWallet k) → IsSound w → IsSound (without t w)
  without-IsSound t w s = record {
    available_sorted =
        take_spent-IsSorted k (collect k.id_ord t.input_ids) w.available_dbcs s.available_sorted;
    spent_sorted = s.spent_sorted;
    apart = λ id. both_false _ _ (λ (h : held k.id_ord id w.spent_dbcs ≡ true).
        held-take_spent k id (collect k.id_ord t.input_ids) w.available_dbcs s.available_sorted
        ∙ ground (arith, not_available w id s h));
    own = take_spent-IsOwn k (collect k.id_ord t.input_ids) w.available_dbcs s.own;
  }

  -- The spent ids are those before, and the inputs of the transfer that the wallet held.
  held-spent :
      (id : c.DbcId) (t : TransferOutputs k) (w : KeyLessWallet k)
      → IsSound w
      → held k.id_ord id (update_local_wallet t w).spent_dbcs ≡ (
          held k.id_ord id w.spent_dbcs
          || (held k.id_ord id w.available_dbcs && SortedSet.contains k.id_ord id t.input_ids))
  unfolding update_local_wallet lookup
  held-spent id t w s =
      let inner =
        SortedMap.has_entry-held k.id_ord id (append k.id_ord [] (taken_of t w).1)
        ∙ SortedMap.held-append k.id_ord id [] (taken_of t w).1
        ∙ has_entry-take_spent k id (collect k.id_ord t.input_ids) w.available_dbcs
            s.available_sorted
        ∙ ap (λ b. held k.id_ord id w.available_dbcs && b)
            (SortedSet.contains-collect k.id_ord id t.input_ids) in
      SortedMap.held-append k.id_ord id
        (deposit (option_list t.change_dbc) (without t w)).spent_dbcs
        (append k.id_ord [] (taken_of t w).1)
      ∙ ap
          (λ b. held k.id_ord id (deposit (option_list t.change_dbc) (without t w)).spent_dbcs || b)
          inner
      ∙ ap
          (λ l.
            held k.id_ord id l
            || (held k.id_ord id w.available_dbcs && SortedSet.contains k.id_ord id t.input_ids))
          (deposit-spent (option_list t.change_dbc) (without t w))

  pub update_local_wallet-IsSound :
      (t : TransferOutputs k) (w : KeyLessWallet k)
      → HasFreshChange t
      → IsSound w
      → IsSound (update_local_wallet t w)
  unfolding update_local_wallet
  update_local_wallet-IsSound t w fresh s =
      let d = deposit-IsSound (option_list t.change_dbc) (without t w) (without-IsSound t w s) in
      record {
        available_sorted = d.available_sorted;
        spent_sorted = SortedMap.append-IsSorted k.id_ord _ _ d.spent_sorted;
        apart = λ id. both_false _ _ (λ h.
            let spent = sym (held-spent id t w s) ∙ h in
            held-deposit id (option_list t.change_dbc) (without t w)
            ∙ elim (Bool-cases (held k.id_ord id w.spent_dbcs)) [
              | inl before ↦ ground (
                arith,
                not_available w id s before,
                receive_unspent k id w.spent_dbcs (option_list t.change_dbc) before,
                held-take_spent k id (collect k.id_ord t.input_ids) w.available_dbcs
                    s.available_sorted,
              )
              | inr now ↦
                  let used : SortedSet.contains k.id_ord id t.input_ids ≡ true =
                    ground (arith, spent, now) in
                  ground (
                    arith,
                    used,
                    receive_other k id w.spent_dbcs (option_list t.change_dbc) t.input_ids fresh
                        used,
                    held-take_spent k id (collect k.id_ord t.input_ids) w.available_dbcs
                        s.available_sorted,
                    SortedSet.contains-collect k.id_ord id t.input_ids,
                  )
            ]);
        own = d.own;
      }

module _ {c : Dbcs} (k : Keys c) where
  -- What a wallet does over time: deposits and transfers.
  pub data Step : Type 0 where
    receives : List c.Dbc → Step
    transfers : TransferOutputs k → Step

module _ {c : Dbcs} {k : Keys c} where
  abbrev pub IsFair : Step k → Type 0
  IsFair (receives dbcs) = Unit
  IsFair (transfers t) = HasFreshChange t

  abbrev pub step : Step k → KeyLessWallet k → KeyLessWallet k
  step (receives dbcs) w = deposit dbcs w
  step (transfers t) w = update_local_wallet t w

  abbrev pub steps : List (Step k) → KeyLessWallet k → KeyLessWallet k
  steps [] w = w
  steps (s ∷ ss) w = steps ss (step s w)

  step-IsSound : (s : Step k) (w : KeyLessWallet k) → IsFair s → IsSound w → IsSound (step s w)
  step-IsSound (receives dbcs) w fair sound = deposit-IsSound dbcs w sound
  step-IsSound (transfers t) w fair sound = update_local_wallet-IsSound t w fair sound

  step_keeps_spent :
      (s : Step k) (id : c.DbcId) (w : KeyLessWallet k)
      → IsSound w
      → held k.id_ord id w.spent_dbcs ≡ true
      → held k.id_ord id (step s w).spent_dbcs ≡ true
  step_keeps_spent (receives dbcs) id w sound h = rw (deposit-spent dbcs w) h
  step_keeps_spent (transfers t) id w sound h = held-spent id t w sound ∙ ground (arith, h)

  -- From a sound wallet, a DBC that is spent stays spent and is not available, whatever is
  -- deposited and whatever transfers with fresh change are made.
  pub spent_forever :
      (ss : List (Step k)) (id : c.DbcId) (w : KeyLessWallet k)
      → IsSound w
      → All IsFair ss
      → held k.id_ord id w.spent_dbcs ≡ true
      → (held k.id_ord id (steps ss w).spent_dbcs ≡ true)
        × (held k.id_ord id (steps ss w).available_dbcs ≡ false)
  spent_forever [] id w sound fair h = (h, not_available w id sound h)
  spent_forever (s ∷ ss) id w sound fair h =
      spent_forever ss id (step s w) (step-IsSound s w fair.0 sound) fair.1
        (step_keeps_spent s id w sound h)

  -- In a sound wallet, a transfer with fresh change moves each of its inputs that was available
  -- to the spent DBCs.
  pub update_local_wallet_spends :
      (t : TransferOutputs k) (w : KeyLessWallet k) (id : c.DbcId)
      → HasFreshChange t
      → IsSound w
      → held k.id_ord id w.available_dbcs ≡ true
      → SortedSet.contains k.id_ord id t.input_ids ≡ true
      → (held k.id_ord id (update_local_wallet t w).spent_dbcs ≡ true)
        × (held k.id_ord id (update_local_wallet t w).available_dbcs ≡ false)
  update_local_wallet_spends t w id fresh sound h used =
      let spent : held k.id_ord id (update_local_wallet t w).spent_dbcs ≡ true =
        held-spent id t w sound ∙ ground (arith, h, used) in
      (
        spent,
        not_available (update_local_wallet t w) id (update_local_wallet-IsSound t w fresh sound)
            spent,
      )

nothing_held {ℓ} :
    {K V : Type ℓ} (o : Ord K) (m : List (K × V)) → ((k : K) → held o k m ≡ false) → m ≡ []
unfolding lookup
nothing_held o [] h = refl
nothing_held o ((j, v) ∷ m) h = absurd (ground (arith, h j, eqb_refl o j))

module _ {c : Dbcs} {k : Keys c} where
  -- In a sound wallet, a transfer that spends every available DBC and gives no change leaves
  -- nothing available and the balance as it was.
  pub update_local_wallet_stale :
      (t : TransferOutputs k) (w : KeyLessWallet k)
      → IsSound w
      → t.change_dbc ≡ none
      → ((id : c.DbcId)
          → held k.id_ord id w.available_dbcs ≡ true
          → SortedSet.contains k.id_ord id t.input_ids ≡ true)
      → ((update_local_wallet t w).available_dbcs ≡ [])
        × ((update_local_wallet t w).balance ≡ w.balance)
  unfolding update_local_wallet deposit
  update_local_wallet_stale t w sound no_change all_used =
      let left = take_spent k (collect k.id_ord t.input_ids) w.available_dbcs in
      let gone : left.0 ≡ [] = nothing_held k.id_ord left.0 (λ id. ground (
        arith,
        held-take_spent k id (collect k.id_ord t.input_ids) w.available_dbcs sound.available_sorted,
        SortedSet.contains-collect k.id_ord id t.input_ids,
        all_used id,
      )) in
      rw no_change (gone, refl)
