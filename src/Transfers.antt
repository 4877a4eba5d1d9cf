-- ===== src/Transfers.antt =====
-- sn_transfers/src/client_transfers: the selection of inputs, and what is given to the transaction
-- builder of `sn_dbc`. DBCs, keys and the builder are parameters.
pub mod Balance
pub mod Enough
pub mod Wallet
mod Tests
use safe_network.Base.{
  ℕ, ◌+◌, ◌-◌, ◌^◌, ◌==◌, List, [], ◌∷◌, ◌++◌, Option, none, some, Bool, true, false, map, ltb, leb,
  if◌then◌else◌,
}
use mathlib.Core.List.{flatten}
use safe_network.Base.Outcome.{Outcome, ok, err, ◌>>=◌, ◌>>◌}
use safe_network.Registers.Deps.{Bytes}

pub record Dbcs : Type 1 where
  pub Dbc : Type 0
  pub DbcId : Type 0
  pub DerivedKey : Type 0
  pub DbcTransaction : Type 0
  pub PublicAddress : Type 0
  pub DerivationIndex : Type 0
  pub Hash : Type 0
  pub id : Dbc → DbcId
  -- `token().ok()`
  pub token : Dbc → Option ℕ
  pub src_tx : Dbc → DbcTransaction
  pub id_bytes : DbcId → Bytes
  pub hash_slice : Hash → Bytes
  pub hash : Bytes → Hash

-- client_transfers::Error, without the texts
pub data Error : Type 0 where
  not_enough_balance : ℕ → ℕ → Error
  dbcs dbc_reissue_failed : Error

-- `Token::checked_add` on `u64`
abbrev pub checked_add : ℕ → ℕ → Option ℕ
checked_add a b = if ltb (a + b) (2 ^ 64) then some (a + b) else none

module _ (c : Dbcs) where
  open c use {Dbc, DbcId, DerivedKey, DbcTransaction, PublicAddress, DerivationIndex, Hash}

  pub record Inputs : Type 0 where
    pub dbcs_to_spend : List (Dbc × DerivedKey)
    pub recipients : List (ℕ × (PublicAddress × DerivationIndex))
    pub change : ℕ × PublicAddress

  pub record FeeOutput : Type 0 where
    pub id : Hash
    pub token : ℕ
    pub root_hash : Hash

  -- What `TransactionBuilder` is given; an input is an id, an amount, a key and a source.
  pub record Parts : Type 0 where
    pub inputs : List ((DbcId × ℕ) × (DerivedKey × DbcTransaction))
    pub outputs : List (ℕ × (PublicAddress × DerivationIndex))
    pub fee : Option FeeOutput

  -- The variables of the loop of `select_inputs`.
  pub record Selection : Type 0 where
    pub dbcs_to_spend : List (Dbc × DerivedKey)
    pub total_input_amount : ℕ
    pub change_amount : ℕ

  -- The loop of `select_inputs` over the available DBCs.
  unfoldable pub gather : List (Dbc × DerivedKey) → Selection → Outcome Error (Selection)
  gather [] s = ok s
  gather ((dbc, derived_key) ∷ available_dbcs) s = elim (c.token dbc) [
    | none ↦ gather available_dbcs s
    | some dbc_balance ↦ elim (checked_add s.total_input_amount dbc_balance) [
      | none ↦ err dbc_reissue_failed
      | some total ↦
          let spend = s.dbcs_to_spend ++ (dbc, derived_key) ∷ [] in
          if leb dbc_balance s.change_amount
          then if (s.change_amount - dbc_balance) == 0
            then ok
                (record { dbcs_to_spend = spend; total_input_amount = total; change_amount = 0 })
            else gather available_dbcs (record {
              dbcs_to_spend = spend;
              total_input_amount = total;
              change_amount = s.change_amount - dbc_balance;
            })
          else ok (record {
            dbcs_to_spend = spend;
            total_input_amount = total;
            change_amount = dbc_balance - s.change_amount;
          })
    ]
  ]

  unfoldable pub select_inputs :
      List (Dbc × DerivedKey) → ℕ → Outcome Error (List (Dbc × DerivedKey) × ℕ)
  unfolding gather
  select_inputs available_dbcs total_output_amount = do
    s ←
        gather available_dbcs (record {
          dbcs_to_spend = [];
          total_input_amount = 0;
          change_amount = total_output_amount;
        })
    if ltb s.total_input_amount total_output_amount
        then err (not_enough_balance s.total_input_amount total_output_amount)
        else ok (s.dbcs_to_spend, s.change_amount)

  -- The fold over the recipients' amounts.
  unfoldable pub total_amount : Option ℕ → List (ℕ × (PublicAddress × DerivationIndex)) → Option ℕ
  total_amount total [] = total
  total_amount none (r ∷ recipients) = total_amount none recipients
  total_amount (some total) (r ∷ recipients) = total_amount (checked_add total r.0) recipients

  -- The loop of `create_transfer_with` over the DBCs to spend.
  unfoldable pub builder_inputs :
      List (Dbc × DerivedKey) → List ((DbcId × ℕ) × (DerivedKey × DbcTransaction))
  builder_inputs [] = []
  builder_inputs ((dbc, derived_key) ∷ dbcs_to_spend) = elim (c.token dbc) [
    | none ↦ builder_inputs dbcs_to_spend
    | some token ↦ ((c.id dbc, token), (derived_key, c.src_tx dbc)) ∷ builder_inputs dbcs_to_spend
  ]

  -- `create_transfer_with`, up to the call of `build`
  unfoldable pub builder_parts : Inputs → Option (FeeOutput) → DerivationIndex → Parts
  unfolding builder_inputs
  builder_parts selected_inputs fee derivation_index = record {
    inputs = builder_inputs selected_inputs.dbcs_to_spend;
    outputs =
        if selected_inputs.change.0 == 0
        then selected_inputs.recipients
        else selected_inputs.recipients
          ++ (selected_inputs.change.0, (selected_inputs.change.1, derivation_index)) ∷ [];
    fee = fee;
  }

  -- `create_transfer`, up to the call of `build`
  unfoldable pub create_transfer :
      List (Dbc × DerivedKey)
      → List (ℕ × (PublicAddress × DerivationIndex))
      → PublicAddress
      → DerivationIndex
      → Outcome Error (Parts)
  unfolding total_amount select_inputs builder_parts
  create_transfer available_dbcs recipients change_to derivation_index =
      elim (total_amount (some 0) recipients) [
        | none ↦ err dbc_reissue_failed
        | some total_output_amount ↦ (do
          (dbcs_to_spend, change_amount) ← select_inputs available_dbcs total_output_amount
          ok (
              builder_parts
                (record {
                  dbcs_to_spend = dbcs_to_spend;
                  recipients = recipients;
                  change = (change_amount, change_to);
                })
                none derivation_index))
      ]

  -- `create_storage_payment_transfer`, up to the call of `build`
  unfoldable pub create_storage_payment_transfer :
      List (Dbc × DerivedKey) → PublicAddress → ℕ → Hash → DerivationIndex → Outcome Error (Parts)
  unfolding select_inputs builder_parts
  create_storage_payment_transfer available_dbcs change_to storage_payment root_hash
        derivation_index =
      do
        (dbcs_to_spend, change_amount) ← select_inputs available_dbcs storage_payment
        ok (
            builder_parts
              (record {
                dbcs_to_spend = dbcs_to_spend;
                recipients = [];
                change = (change_amount, change_to);
              })
              (some (record {
                id = c.hash (
                    c.hash_slice root_hash
                    ++ flatten (map (λ x. c.id_bytes (c.id x.0)) dbcs_to_spend));
                token = storage_payment;
                root_hash = root_hash;
              }))
              derivation_index)
