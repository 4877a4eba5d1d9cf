-- ===== src/Registers/Crdt.antt =====
-- reg_crdt.rs and register_op.rs, and the permission tests of permissions.rs.
use safe_network.Base.{ℕ, ◌+◌, List, [], ◌∷◌, Option, none, some, Bool, ◌||◌, map, test}
use safe_network.Base.{if◌then◌else◌}
use safe_network.Base.Outcome.{Outcome, ok, err, ok_or, ◌>>=◌}
use safe_network.Base.SortedSet.{contains, collect}
use safe_network.Registers.Deps.{Deps, Bytes, Entry}
use safe_network.Registers.Model.{
  User, anyone, key, user_ord, Permissions, RegisterAddress, RegisterOp, Error, RegisterCrdt, Codec,
  register_addr_mismatch, missing_signature, invalid_signature,
}

module _ {d : Deps} where
  open d use {PublicKey, SecretKey, Signature, Hash, Node}

  unfoldable pub new_with : List (User PublicKey) → Permissions d
  new_with writers = record { writers = collect (user_ord d.key_ord) writers }

  unfoldable pub new_anyone_can_write : Permissions d
  new_anyone_can_write = record { writers = collect (user_ord d.key_ord) (anyone ∷ []) }

  unfoldable pub new_owner_only : Permissions d
  new_owner_only = record { writers = [] }

  unfoldable pub everyone_can_write : Permissions d → Bool
  everyone_can_write p = contains (user_ord d.key_ord) anyone p.writers

  unfoldable pub can_write : Permissions d → User PublicKey → Bool
  unfolding everyone_can_write
  can_write p user = everyone_can_write p || contains (user_ord d.key_ord) user p.writers

  -- `RegisterCrdt::new`
  unfoldable pub crdt_new : RegisterAddress d → RegisterCrdt d
  crdt_new address = record { address = address; merkle = d.merkle_new }

  unfoldable pub crdt_merge : RegisterCrdt d → RegisterCrdt d → RegisterCrdt d
  crdt_merge r other = record r { merkle = d.merkle_merge r.merkle other.merkle }

  unfoldable pub crdt_size : RegisterCrdt d → ℕ
  crdt_size r = d.num_nodes r.merkle + d.num_orphans r.merkle

  -- `RegisterCrdt::write`: the CRDT with the entry, the entry's hash and the unsigned operation. It
  -- returns `Ok` always.
  unfoldable pub crdt_write :
      RegisterCrdt d → Entry → List Hash → User PublicKey → RegisterCrdt d × Hash × RegisterOp d
  crdt_write r entry children source =
      let crdt_op = d.merkle_write r.merkle entry children in
      (
        record r { merkle = d.merkle_apply r.merkle crdt_op },
        d.node_hash crdt_op,
        record { address = r.address; crdt_op = crdt_op; source = source; signature = none },
      )

  unfoldable pub crdt_get : RegisterCrdt d → Hash → Option Entry
  crdt_get r hash = elim (d.merkle_node r.merkle hash) [
    | none ↦ none
    | some node ↦ some (d.node_value node)
  ]

  unfoldable pub crdt_read : RegisterCrdt d → List (Hash × Entry)
  crdt_read r = map (λ e. (e.0, d.node_value e.1)) (d.merkle_read r.merkle)

module _ {d : Deps} (c : Codec d) where
  open d use {PublicKey, SecretKey, Signature, Hash, Node}

  -- `RegisterCrdt::apply_op`
  unfoldable pub crdt_apply_op : RegisterCrdt d → RegisterOp d → Outcome (Error d) (RegisterCrdt d)
  crdt_apply_op r op =
      if test (c.address_eq r.address op.address)
      then ok (record r { merkle = d.merkle_apply r.merkle op.crdt_op })
      else err (register_addr_mismatch op.address r.address)

  unfoldable pub bytes_for_signing : RegisterOp d → Bytes
  bytes_for_signing op = c.digest op.address (d.node_hash op.crdt_op) op.source

  unfoldable pub sign_with : RegisterOp d → SecretKey → RegisterOp d
  unfolding bytes_for_signing
  sign_with op sk =
      let owned = record op { source = key (d.public_key sk) } in
      record owned { signature = some (d.sign sk (bytes_for_signing owned)) }

  unfoldable pub add_signature : RegisterOp d → PublicKey → Signature → RegisterOp d
  add_signature op pk signature = record op { source = key pk; signature = some signature }

  unfoldable pub verify_signature : RegisterOp d → PublicKey → Outcome (Error d) Unit
  unfolding bytes_for_signing
  verify_signature op pk = do
    sig ← ok_or op.signature missing_signature
    if d.verify pk sig (bytes_for_signing op) then ok tt else err invalid_signature
