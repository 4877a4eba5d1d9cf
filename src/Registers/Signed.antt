-- ===== src/Registers/Signed.antt =====
-- `SignedRegister` of register.rs.
use safe_network.Base.{List, [], ◌∷◌, test, if◌then◌else◌}
use safe_network.Base.Outcome.{Outcome, ok, err, ◌>>=◌, ◌>>◌}
use safe_network.Base.SortedSet.{insert, extend}
use safe_network.Registers.Deps.{Deps}
use safe_network.Registers.Model.{
  RegisterAddress, RegisterOp, Error, Register, SignedRegister, Codec, invalid_signature,
  invalid_register_address, different_base_register,
}
use safe_network.Registers.Register.{address, owner, bytes, sign, check_register_op, apply_op}

module _ {d : Deps} (c : Codec d) where
  open d use {SecretKey, Signature}

  -- `SignedRegister::new`
  unfoldable pub signed_new : Register d → Signature → SignedRegister d
  signed_new base signature = record { base_register = base; signature = signature; ops = [] }

  -- `Register::into_signed`
  unfoldable pub into_signed : Register d → SecretKey → Outcome (Error d) (SignedRegister d)
  unfolding sign signed_new
  into_signed r sk = do signature ← sign c r sk; ok (signed_new r signature)

  -- The loop of `verify` over the operations.
  unfoldable pub check_ops : Register d → List (RegisterOp d) → Outcome (Error d) Unit
  unfolding check_register_op
  check_ops base [] = ok tt
  check_ops base (op ∷ ops) = do check_register_op c base op; check_ops base ops

  unfoldable pub verify : SignedRegister d → Outcome (Error d) Unit
  unfolding bytes check_ops
  verify s = do
    b ← bytes c s.base_register
    if d.verify (owner s.base_register) s.signature b
        then check_ops s.base_register s.ops
        else err invalid_signature

  unfoldable pub verify_with_address : SignedRegister d → RegisterAddress d → Outcome (Error d) Unit
  unfolding verify
  verify_with_address s requested =
      if test (c.address_eq (address s.base_register) requested)
      then verify s
      else err (invalid_register_address requested (address s.base_register))

  -- The loop of `register` over the operations.
  unfoldable pub replay : Register d → List (RegisterOp d) → Outcome (Error d) (Register d)
  unfolding apply_op
  replay r [] = ok r
  replay r (op ∷ ops) = do r' ← apply_op c r op; replay r' ops

  -- `SignedRegister::register`
  unfoldable pub register : SignedRegister d → Outcome (Error d) (Register d)
  unfolding replay
  register s = replay s.base_register s.ops

  -- `SignedRegister::merge`
  unfoldable pub signed_merge :
      SignedRegister d → SignedRegister d → Outcome (Error d) (SignedRegister d)
  signed_merge s other =
      if test (c.register_eq s.base_register other.base_register)
      then ok (record s { ops = extend c.op_ord s.ops other.ops })
      else err different_base_register

  unfoldable pub verified_merge :
      SignedRegister d → SignedRegister d → Outcome (Error d) (SignedRegister d)
  unfolding verify
  verified_merge s other =
      if test (c.register_eq s.base_register other.base_register)
      then (do verify other; ok (record s { ops = extend c.op_ord s.ops other.ops }))
      else err different_base_register

  unfoldable pub add_op : SignedRegister d → RegisterOp d → Outcome (Error d) (SignedRegister d)
  unfolding check_register_op
  add_op s op = do
    check_register_op c s.base_register op
    ok (record s { ops = insert c.op_ord op s.ops })
