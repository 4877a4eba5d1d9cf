-- ===== src/Registers/Register.antt =====
-- `Register` of register.rs.
use safe_network.Base.{ℕ, ◌/◌, List, ◌||◌, length, ltb, leb, if◌then◌else◌}
use safe_network.Base.Order.{eqb}
use safe_network.Base.Outcome.{Outcome, ok, err, ok_or, ◌>>=◌, ◌>>◌}
use safe_network.Base.SortedSet.{insert}
use safe_network.Registers.Deps.{Deps, Bytes, Entry}
use safe_network.Registers.Model.{
  User, anyone, key, user_ord, Permissions, RegisterAddress, RegisterOp, Error, Register, Codec,
  entry_too_big, too_many_entries, access_denied, no_such_entry, serialisation_failed,
  invalid_secret_key,
}
use safe_network.Registers.Crdt.{
  everyone_can_write, can_write, crdt_new, crdt_merge, crdt_size, crdt_write, crdt_get, crdt_read,
  crdt_apply_op, verify_signature,
}

abbrev pub max_reg_num_entries : ℕ
max_reg_num_entries = 1024

abbrev pub max_reg_entry_size : Deps → ℕ
max_reg_entry_size d = d.min_encryptable_bytes / 3

module _ {d : Deps} where
  open d use {PublicKey, SecretKey, Signature, XorName, Hash}

  -- `Register::new`: the owner is one of the writers.
  unfoldable pub new : PublicKey → XorName → Permissions d → Register d
  unfolding crdt_new
  new owner meta permissions = record {
    crdt = crdt_new (record { meta = meta; owner = owner });
    permissions = record { writers = insert (user_ord d.key_ord) (key owner) permissions.writers };
  }

  abbrev pub address : Register d → RegisterAddress d
  address r = r.crdt.address

  abbrev pub owner : Register d → PublicKey
  owner r = r.crdt.address.owner

  unfoldable pub size : Register d → ℕ
  unfolding crdt_size
  size r = crdt_size r.crdt

  unfoldable pub get : Register d → Hash → Outcome (Error d) Entry
  unfolding crdt_get
  get r hash = ok_or (crdt_get r.crdt hash) (no_such_entry hash)

  unfoldable pub read : Register d → List (Hash × Entry)
  unfolding crdt_read
  read r = crdt_read r.crdt

  unfoldable pub check_entry_and_reg_sizes : Register d → Entry → Outcome (Error d) Unit
  unfolding crdt_size
  check_entry_and_reg_sizes r entry =
      if ltb (max_reg_entry_size d) (length entry)
      then err (entry_too_big (length entry) (max_reg_entry_size d))
      else if leb max_reg_num_entries (crdt_size r.crdt)
      then err (too_many_entries (crdt_size r.crdt))
      else ok tt

  unfoldable pub check_user_permissions : Register d → User PublicKey → Outcome (Error d) Unit
  unfolding can_write
  check_user_permissions r requester =
      if eqb (user_ord d.key_ord) requester (key (owner r)) || can_write r.permissions requester
      then ok tt
      else err (access_denied requester)

  unfoldable pub write :
      Register d → Entry → List Hash → Outcome (Error d) (Register d × Hash × RegisterOp d)
  unfolding check_entry_and_reg_sizes crdt_write
  write r entry children = do
    check_entry_and_reg_sizes r entry
    let w = crdt_write r.crdt entry children (key (owner r))
    ok (record r { crdt = w.0 }, w.1, w.2)

  unfoldable pub merge : Register d → Register d → Register d
  unfolding crdt_merge
  merge r other = record r { crdt = crdt_merge r.crdt other.crdt }

module _ {d : Deps} (c : Codec d) where
  open d use {PublicKey, SecretKey, Signature}

  unfoldable pub bytes : Register d → Outcome (Error d) Bytes
  bytes r = ok_or (c.serialize r) serialisation_failed

  unfoldable pub sign : Register d → SecretKey → Outcome (Error d) Signature
  unfolding bytes
  sign r sk =
      if eqb d.key_ord (owner r) (d.public_key sk)
      then (do b ← bytes r; ok (d.sign sk b))
      else err invalid_secret_key

  -- The `match` on the source of an operation.
  unfoldable pub check_source : RegisterOp d → User PublicKey → Outcome (Error d) Unit
  unfolding verify_signature
  check_source op anyone = ok tt
  check_source op (key pk) = verify_signature c op pk

  unfoldable pub check_register_op : Register d → RegisterOp d → Outcome (Error d) Unit
  unfolding check_user_permissions check_source everyone_can_write
  check_register_op r op = do
    check_user_permissions r op.source
    if everyone_can_write r.permissions then ok tt else check_source op op.source

  unfoldable pub apply_op : Register d → RegisterOp d → Outcome (Error d) (Register d)
  unfolding check_entry_and_reg_sizes check_register_op crdt_apply_op
  apply_op r op = do
    check_entry_and_reg_sizes r (d.node_value op.crdt_op)
    check_register_op r op
    crdt ← crdt_apply_op c r.crdt op
    ok (record r { crdt = crdt })
