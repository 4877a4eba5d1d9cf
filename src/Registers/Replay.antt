-- ===== src/Registers/Replay.antt =====
-- `SignedRegister::register`: replaying the operations on the base register.
use safe_network.Base.{
  ◌≤◌, ◌<◌, List, [], ◌∷◌, true, false, ◌≡◌, ◌≢◌, refl, sym, ◌∙◌, arith, test→holds, All, All-map,
  length,
}
use safe_network.Base.Outcome.{Outcome, ok, err, is_ok, first_ok}
use safe_network.Base.SortedSet.{insert, contains, contains-insert, All-contains}
use safe_network.Base.Order.{eqb_refl}
use safe_network.Registers.Convergence.{verify-add_op}
use safe_network.Registers.Deps.{Deps, GrowsByOne}
use safe_network.Registers.Model.{RegisterOp, Error, Register, SignedRegister, Codec}
use safe_network.Registers.Crdt.{everyone_can_write}
use safe_network.Registers.Register.{
  size, max_reg_num_entries, max_reg_entry_size, check_register_op, apply_op,
}
use safe_network.Registers.Signed.{replay, register, verify, add_op}

module _ {d : Deps} (c : Codec d) where
  -- What an operation that was applied satisfies, and what it leaves unchanged.
  pub record Applied (r : Register d) (op : RegisterOp d) (r' : Register d) : Type 0 where
    pub entry_fits : length (d.node_value op.crdt_op) ≤ max_reg_entry_size d
    pub had_room : size r < max_reg_num_entries
    pub accepted : check_register_op c r op ≡ ok tt
    pub same_target : r.crdt.address ≡ op.address
    pub merkle : r'.crdt.merkle ≡ d.merkle_apply r.crdt.merkle op.crdt_op
    pub kept_address : r'.crdt.address ≡ r.crdt.address
    pub kept_permissions : r'.permissions ≡ r.permissions

  -- If `apply_op` succeeds the entry fits, there was room, the operation was accepted and
  -- addressed to this register, and only the Merkle register changes.
  pub apply_op_sound :
      (r : Register d) (op : RegisterOp d) (r' : Register d)
      → apply_op c r op ≡ ok r'
      → Applied r op r'
  unfolding size apply_op
  apply_op_sound r op r' h = ground (arith, test→holds (c.address_eq r.crdt.address op.address))

  -- A register with at most the maximal number of entries never gets more.
  pub size-apply_op :
      (r : Register d) (op : RegisterOp d) (r' : Register d)
      → GrowsByOne d
      → apply_op c r op ≡ ok r'
      → size r' ≤ max_reg_num_entries
  unfolding size
  size-apply_op r op r' g h =
      let a = apply_op_sound r op r' h in
      let one = g.grows r.crdt.merkle op.crdt_op in rw a.merkle (omega (arith, a.had_room))

  -- Replaying keeps the address, the permissions and the bound, and every operation that was
  -- replayed was addressed to the register and had a small enough entry.
  pub record Replayed (r : Register d) (ops : List (RegisterOp d)) (r' : Register d) : Type 0 where
    pub kept_address : r'.crdt.address ≡ r.crdt.address
    pub kept_permissions : r'.permissions ≡ r.permissions
    pub bounded : size r' ≤ max_reg_num_entries
    pub targets : All (λ op. r.crdt.address ≡ op.address) ops
    pub entries : All (λ op. length (d.node_value op.crdt_op) ≤ max_reg_entry_size d) ops

  -- Where applying a node grows the Merkle register by at most one, a replay that succeeds on a
  -- register within the bound keeps the address, the permissions and the bound, and every
  -- operation in it was addressed to the register and had an entry that is small enough.
  pub replay_sound :
      (r : Register d) (ops : List (RegisterOp d)) (r' : Register d)
      → GrowsByOne d
      → size r ≤ max_reg_num_entries
      → replay c r ops ≡ ok r'
      → Replayed r ops r'
  unfolding replay
  replay_sound r [] r' g b h = record {
    kept_address = ground arith;
    kept_permissions = ground arith;
    bounded = ground (arith, b);
    targets = tt;
    entries = tt;
  }
  replay_sound r (op ∷ ops) r' g b h =
      let (r₁, applied, rest) = first_ok (apply_op c r op) (λ r₁. replay c r₁ ops) h in
      let a = apply_op_sound r op r₁ applied in
      let p = replay_sound r₁ ops r' g (size-apply_op r op r₁ g applied) rest in
      record {
        kept_address = p.kept_address ∙ a.kept_address;
        kept_permissions = p.kept_permissions ∙ a.kept_permissions;
        bounded = p.bounded;
        targets = (a.same_target, All-map (λ op' e. sym a.kept_address ∙ e) ops p.targets);
        entries = (a.entry_fits, p.entries);
      }

  -- `check_register_op` reads only the owner and the permissions, and never the target address: where
  -- everyone can write, every operation is accepted, whatever register it is addressed to.
  pub check_register_op-everyone :
      (r : Register d) (op : RegisterOp d)
      → everyone_can_write r.permissions ≡ true
      → check_register_op c r op ≡ ok tt
  unfolding check_register_op everyone_can_write
  check_register_op-everyone r op h = ground arith

  not_replayed :
      (r : Register d) (op : RegisterOp d) (ops : List (RegisterOp d))
      → GrowsByOne d
      → size r ≤ max_reg_num_entries
      → contains c.op_ord op ops ≡ true
      → r.crdt.address ≢ op.address
      → is_ok (replay c r ops) ≡ false
  not_replayed r op ops g b m e = go (replay c r ops) refl
    where
      go :
          (o : Outcome (Error d) (Register d)) → replay c r ops ≡ o → is_ok (replay c r ops) ≡ false
      go (err x) q = rw q
      go (ok r') q = absurd (
          e (
            All-contains c.op_ord (λ op'. r.crdt.address ≡ op'.address) op ops m
              (replay_sound r ops r' g b q).targets))

  -- Where applying a node grows the Merkle register by at most one: a verified register within
  -- the bound that everyone can write takes an operation that is addressed to another register,
  -- still verifies, and its replay then fails.
  pub foreign_op_blocks :
      (s : SignedRegister d) (op : RegisterOp d)
      → GrowsByOne d
      → size s.base_register ≤ max_reg_num_entries
      → verify c s ≡ ok tt
      → everyone_can_write s.base_register.permissions ≡ true
      → s.base_register.crdt.address ≢ op.address
      → (s' : SignedRegister d) × (add_op c s op ≡ ok s')
        × (verify c s' ≡ ok tt)
        × (is_ok (register c s') ≡ false)
  unfolding add_op register
  foreign_op_blocks s op g b v w e =
      let s' = record s { ops = insert c.op_ord op s.ops } in
      let accepted = check_register_op-everyone s.base_register op w in
      let added : add_op c s op ≡ ok s' = ground arith in
      let held : contains c.op_ord op s'.ops ≡ true =
        ground (arith, contains-insert c.op_ord op op s.ops, eqb_refl c.op_ord op) in
      (
        s',
        added,
        verify-add_op c s op s' v added,
        not_replayed s.base_register op s'.ops g b held e,
      )
