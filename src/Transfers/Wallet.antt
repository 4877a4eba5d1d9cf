-- ===== src/Transfers/Wallet.antt =====
-- The wallet of sn_transfers/src/wallet (local_store.rs and mod.rs), without its files on disk.
-- `derived_key` is `Dbc::derived_key` with the wallet's main key, and `build` the transaction builder
-- of `sn_dbc`, which is given what `Transfers` computes.
pub mod Sound
pub mod Spent
mod Tests
use safe_network.Base.{
  ℕ, ◌+◌, ◌%◌, ◌^◌, List, [], ◌∷◌, ◌++◌, Option, none, some, Bool, true, false, not, ltb, is_some,
  if◌then◌else◌, map,
}
use safe_network.Base.Order.{Ord}
use safe_network.Base.Outcome.{Outcome, ok, err, ◌>>=◌, map_err}
use safe_network.Base.SortedMap.{append, lookup, remove}
use safe_network.Base.SortedSet.{collect}
use safe_network.Transfers.{Dbcs, Parts, create_transfer, create_storage_payment_transfer}
use safe_network.Transfers as Transfers

pub record Keys (c : Dbcs) : Type 1 where
  pub id_ord : Ord c.DbcId
  pub derived_key : c.Dbc → Option c.DerivedKey
  pub XorName : Type 0
  pub name_ord : Ord XorName
  pub PaymentProof : Type 0
  pub public_address : c.PublicAddress

-- wallet::Error, as far as these operations give it
pub data WalletError : Type 0 where
  no_dbcs_available dbc_error : WalletError
  create_transfer_error : Transfers.Error → WalletError

module _ {c : Dbcs} (k : Keys c) where
  open c use {Dbc, DbcId, DerivedKey}

  pub record KeyLessWallet : Type 0 where
    pub balance : ℕ
    pub spent_dbcs : List (DbcId × Dbc)
    pub available_dbcs : List (DbcId × Dbc)
    pub dbcs_created_for_others : List Dbc
    pub paymet_proofs : List (k.XorName × k.PaymentProof)

  -- `TransferOutputs`, with the ids of the inputs of its transaction
  pub record TransferOutputs : Type 0 where
    pub input_ids : List DbcId
    pub change_dbc : Option Dbc
    pub created_dbcs : List Dbc

abbrev pub option_list {ℓ} : {A : Type ℓ} → Option A → List A
option_list none = []
option_list (some a) = a ∷ []

-- `dbc.token()? > big_dbc.token()?`
unfoldable pub is_larger : Option ℕ → Option ℕ → Outcome WalletError Bool
is_larger none big = err dbc_error
is_larger (some token) none = err dbc_error
is_larger (some token) (some big) = ok (ltb big token)

module _ (c : Dbcs) where
  open c use {Dbc, DerivedKey}

  -- The loop of `largest_dbc`, with the largest so far.
  unfoldable pub find_largest :
      List (Dbc × DerivedKey)
      → Option (Dbc × DerivedKey)
      → Outcome WalletError (Option (Dbc × DerivedKey))
  unfolding is_larger
  find_largest [] largest = ok largest
  find_largest (dbc_and_key ∷ dbcs) none = find_largest dbcs (some dbc_and_key)
  find_largest (dbc_and_key ∷ dbcs) (some big) =
      let take_it = find_largest dbcs (some dbc_and_key) in
      let leave_it = find_largest dbcs (some big) in
      is_larger (c.token dbc_and_key.0) (c.token big.0) >>= λ larger.
      if larger then take_it else leave_it

module _ {c : Dbcs} (k : Keys c) where
  open c use {Dbc, DbcId, DerivedKey}

  -- The DBCs that are not spent and that the key can spend, by their ids.
  unfoldable pub receive : List (DbcId × Dbc) → List Dbc → List (DbcId × Dbc)
  receive spent [] = []
  receive spent (dbc ∷ dbcs) =
      let rest = receive spent dbcs in
      if not (is_some (lookup k.id_ord (c.id dbc) spent))
      then (if is_some (k.derived_key dbc) then (c.id dbc, dbc) ∷ rest else rest)
      else rest

  -- The sum in `u64` of the tokens of the DBCs that the key can spend.
  unfoldable pub total : List (DbcId × Dbc) → ℕ → ℕ
  total [] sum = sum
  total ((id, dbc) ∷ dbcs) sum =
      let skipped = total dbcs sum in
      elim (k.derived_key dbc) [
        | none ↦ skipped
        | some key ↦ elim (c.token dbc) [
          | none ↦ skipped
          | some token ↦ total dbcs ((sum + token) % 2 ^ 64)
        ]
      ]

  -- The DBCs with the keys to spend them.
  unfoldable pub spendable : List (DbcId × Dbc) → List (Dbc × DerivedKey)
  spendable [] = []
  spendable ((id, dbc) ∷ dbcs) =
      let rest = spendable dbcs in
      elim (k.derived_key dbc) [ none ↦ rest | some key ↦ (dbc, key) ∷ rest ]

  -- `filter_map(|id| available.remove(&id).map(|dbc| (id, dbc)))`: what is left, and what is taken.
  unfoldable pub take_spent :
      List DbcId → List (DbcId × Dbc) → List (DbcId × Dbc) × List (DbcId × Dbc)
  take_spent [] available = (available, [])
  take_spent (id ∷ ids) available =
      let later = take_spent ids (remove k.id_ord id available) in
      elim (lookup k.id_ord id available) [
        | none ↦ later
        | some dbc ↦ (later.0, (id, dbc) ∷ later.1)
      ]

module _ {c : Dbcs} {k : Keys c} where
  open c use {Dbc, DbcId, DerivedKey}

  -- `KeyLessWallet::new`
  unfoldable pub new_wallet : KeyLessWallet k
  new_wallet = record {
    balance = 0;
    spent_dbcs = [];
    available_dbcs = [];
    dbcs_created_for_others = [];
    paymet_proofs = [];
  }

  unfoldable pub deposit : List Dbc → KeyLessWallet k → KeyLessWallet k
  unfolding receive total
  deposit [] w = w
  deposit (dbc ∷ dbcs) w =
      let received = append k.id_ord [] (receive k w.spent_dbcs (dbc ∷ dbcs)) in
      let available = append k.id_ord w.available_dbcs received in
      record w { available_dbcs = available; balance = total k available 0 }

  unfoldable pub available_dbcs_of : KeyLessWallet k → List (Dbc × DerivedKey)
  unfolding spendable
  available_dbcs_of w = spendable k w.available_dbcs

  unfoldable pub largest_dbc : KeyLessWallet k → Outcome WalletError (Dbc × DerivedKey)
  unfolding find_largest available_dbcs_of
  largest_dbc w = find_largest c (available_dbcs_of w) none >>= λ largest. elim largest [
    | none ↦ err no_dbcs_available
    | some found ↦ ok found
  ]

  unfoldable pub add_payment_proofs :
      List (k.XorName × k.PaymentProof) → KeyLessWallet k → KeyLessWallet k
  add_payment_proofs proofs w = record w {
    paymet_proofs = append k.name_ord w.paymet_proofs proofs;
  }

  unfoldable pub get_payment_proof : k.XorName → KeyLessWallet k → Option k.PaymentProof
  get_payment_proof name w = lookup k.name_ord name w.paymet_proofs

  unfoldable pub update_local_wallet : TransferOutputs k → KeyLessWallet k → KeyLessWallet k
  unfolding take_spent deposit
  update_local_wallet t w =
      let taken = take_spent k (collect k.id_ord t.input_ids) w.available_dbcs in
      let deposited = deposit (option_list t.change_dbc) (record w { available_dbcs = taken.0 }) in
      record deposited {
        spent_dbcs = append k.id_ord deposited.spent_dbcs (append k.id_ord [] taken.1);
        dbcs_created_for_others = deposited.dbcs_created_for_others ++ t.created_dbcs;
      }

  module _ (build : Parts c → Outcome Transfers.Error (TransferOutputs k)) where
    -- The derivation indices are random; the last one is that of the change.
    unfoldable pub local_send :
        List (ℕ × (c.PublicAddress × c.DerivationIndex))
        → c.DerivationIndex
        → KeyLessWallet k
        → Outcome WalletError (TransferOutputs k × KeyLessWallet k)
    unfolding create_transfer available_dbcs_of update_local_wallet
    local_send to index w = do
      transfer ←
          map_err create_transfer_error
            (create_transfer c (available_dbcs_of w) to k.public_address index >>= build)
      ok (transfer, update_local_wallet transfer w)

    unfoldable pub local_send_storage_payment :
        ℕ
        → c.Hash
        → c.DerivationIndex
        → KeyLessWallet k
        → Outcome WalletError (TransferOutputs k × KeyLessWallet k)
    unfolding create_storage_payment_transfer available_dbcs_of update_local_wallet
    local_send_storage_payment storage_payment root_hash index w = do
      transfer ← map_err create_transfer_error (
          create_storage_payment_transfer c (available_dbcs_of w) k.public_address storage_payment
            root_hash index
          >>= build)
      ok (transfer, update_local_wallet transfer w)
