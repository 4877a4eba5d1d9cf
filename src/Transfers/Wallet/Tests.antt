-- ===== src/Transfers/Wallet/Tests.antt =====
-- The theorems on the wallet, with DBCs that are numbers.
use safe_network.Base.{ℕ, ◌≡◌, refl, List, [], ◌∷◌, none, some, true, false, arith, ◌&&◌}
use safe_network.Base.Order.{nat_ord}
use safe_network.Base.SortedSet
use safe_network.Base.SortedMap
use safe_network.Base.SortedMap.{held}
use safe_network.Transfers.Tests.{numbers}
use safe_network.Transfers.Wallet.{Keys, KeyLessWallet, TransferOutputs, update_local_wallet}
use safe_network.Transfers.Wallet.Sound.{IsSound}
use safe_network.Transfers.Wallet.Spent.{
  Step, receives, transfers, steps, spent_forever, update_local_wallet_spends,
  update_local_wallet_stale,
}

abbrev every_key : Keys numbers
every_key = record {
  id_ord = nat_ord;
  derived_key = λ dbc. some dbc;
  XorName = ℕ;
  name_ord = nat_ord;
  PaymentProof = ℕ;
  public_address = 30;
}

-- 9 is available, and 4 is spent.
abbrev one_left : KeyLessWallet every_key
one_left = record {
  balance = 9;
  spent_dbcs = (4, 4) ∷ [];
  available_dbcs = (9, 9) ∷ [];
  dbcs_created_for_others = [];
  paymet_proofs = [];
}

one_left_apart :
    (id : ℕ)
    → (held nat_ord id one_left.spent_dbcs && held nat_ord id one_left.available_dbcs) ≡ false
unfolding SortedMap.lookup
one_left_apart id = ground arith

one_left-IsSound : IsSound one_left
one_left-IsSound = record {
  available_sorted = (tt, tt);
  spent_sorted = (tt, tt);
  apart = one_left_apart;
  own = (refl, tt);
}

-- All of 9 is sent to another.
abbrev send_all : TransferOutputs every_key
send_all = record { input_ids = 9 ∷ []; change_dbc = none; created_dbcs = 8 ∷ [] }

send_all_uses : SortedSet.contains nat_ord 9 (9 ∷ []) ≡ true
send_all_uses = unfold SortedSet.contains in refl

update_local_wallet_spends_example :
    (held nat_ord 9 (update_local_wallet send_all one_left).spent_dbcs ≡ true)
    × (held nat_ord 9 (update_local_wallet send_all one_left).available_dbcs ≡ false)
update_local_wallet_spends_example =
    update_local_wallet_spends send_all one_left 9 tt one_left-IsSound
      (unfold SortedMap.lookup in refl) send_all_uses

only_nine :
    (id : ℕ)
    → held nat_ord id one_left.available_dbcs ≡ true
    → SortedSet.contains nat_ord id (9 ∷ []) ≡ true
unfolding SortedMap.lookup SortedSet.contains
only_nine id h = ground arith

update_local_wallet_stale_example :
    ((update_local_wallet send_all one_left).available_dbcs ≡ [])
    × ((update_local_wallet send_all one_left).balance ≡ 9)
update_local_wallet_stale_example =
    update_local_wallet_stale send_all one_left one_left-IsSound refl only_nine

abbrev later : List (Step every_key)
later = receives (4 ∷ 6 ∷ []) ∷ transfers send_all ∷ []

spent_forever_example :
    (held nat_ord 4 (steps later one_left).spent_dbcs ≡ true)
    × (held nat_ord 4 (steps later one_left).available_dbcs ≡ false)
spent_forever_example =
    spent_forever later 4 one_left one_left-IsSound (tt, (tt, tt)) (unfold SortedMap.lookup in refl)
