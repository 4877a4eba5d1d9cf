-- ===== src/Transfers/Tests.antt =====
-- The theorems on transfers, with DBCs that are numbers: a DBC is its amount, and 0 has none.
use safe_network.Base.{
  ℕ, zero, suc, ◌+◌, ◌≤◌, ◌<◌, ◌≡◌, refl, List, [], ◌∷◌, Option, none, some, arith, length,
}
use safe_network.Base.Outcome.{ok, err}
use safe_network.Transfers.{
  Dbcs, not_enough_balance, Parts, gather, select_inputs, total_amount, builder_inputs,
  builder_parts, create_transfer,
}
use safe_network.Transfers.Balance.{funds, paid_in, paid_out, create_transfer-balance}
use safe_network.Transfers.Enough.{select_inputs_total}

abbrev pub amount : ℕ → Option ℕ
amount zero = none
amount (suc n) = some (suc n)

abbrev pub numbers : Dbcs
numbers = record {
  Dbc = ℕ;
  DbcId = ℕ;
  DerivedKey = ℕ;
  DbcTransaction = ℕ;
  PublicAddress = ℕ;
  DerivationIndex = ℕ;
  Hash = ℕ;
  id = λ dbc. dbc;
  token = amount;
  src_tx = λ dbc. dbc;
  id_bytes = λ id. id ∷ [];
  hash_slice = λ h. h ∷ [];
  hash = length;
}

abbrev available : List (ℕ × ℕ)
available = (0, 1) ∷ (4, 2) ∷ (9, 3) ∷ (7, 4) ∷ []

-- 10 are sent to 20: 4 and 9 are spent, and 3 go back to 30.
abbrev transfer_parts : Parts numbers
transfer_parts = record {
  inputs = ((4, 4), (2, 4)) ∷ ((9, 9), (3, 9)) ∷ [];
  outputs = (10, (20, 1)) ∷ (3, (30, 5)) ∷ [];
  fee = none;
}

create_transfer-balance_example : paid_in numbers transfer_parts ≡ paid_out numbers transfer_parts
create_transfer-balance_example =
    create_transfer-balance numbers available ((10, (20, 1)) ∷ []) 30 5 transfer_parts (
      unfold create_transfer total_amount select_inputs gather builder_parts builder_inputs in refl)

select_inputs_total_example :
    ((10 ≤ funds numbers available)
      → (spent : List (ℕ × ℕ)) × (change : ℕ) × (select_inputs numbers available 10
          ≡ ok (spent, change))
        × (funds numbers spent ≡ 10 + change))
    × ((funds numbers available < 10)
        → select_inputs numbers available 10
          ≡ err (not_enough_balance (funds numbers available) 10))
select_inputs_total_example = select_inputs_total numbers available 10 (omega arith)
