-- ===== src/Registers/Convergence.antt =====
-- `verify` and the merges of `SignedRegister`, in register.rs.
use safe_network.Base.{
  List, [], ◌∷◌, ◌≡◌, refl, sym, ◌∙◌, arith, Option-cases, inl, inr, holds→test, test→holds, All,
}
use safe_network.Base.Outcome.{◌>>=◌, ok}
use safe_network.Base.SortedSet.{
  insert, extend, IsSorted, extend_comm, All-insert, All-extend, extend_assoc, extend_self,
}
use safe_network.Registers.Deps.{Deps, SignsCorrectly}
use safe_network.Registers.Model.{RegisterOp, Register, SignedRegister, Codec}
use safe_network.Registers.Register.{owner, check_register_op}
use safe_network.Registers.Signed.{
  into_signed, check_ops, verify, signed_merge, verified_merge, add_op,
}

module _ {d : Deps} (c : Codec d) where
  open d use {SecretKey}

  abbrev pub Accepted : Register d → RegisterOp d → Type 0
  Accepted base op = check_register_op c base op ≡ ok tt

  pub check_ops→All :
      (base : Register d) (ops : List (RegisterOp d))
      → check_ops c base ops ≡ ok tt
      → All (Accepted base) ops
  unfolding check_ops
  check_ops→All base [] h = tt
  check_ops→All base (op ∷ ops) h = ground (arith, check_ops→All base ops)

  pub All→check_ops :
      (base : Register d) (ops : List (RegisterOp d))
      → All (Accepted base) ops
      → check_ops c base ops ≡ ok tt
  unfolding check_ops
  All→check_ops base [] h = refl
  All→check_ops base (op ∷ ops) h = ground (arith, All→check_ops base ops h.1)

  verify→All : (s : SignedRegister d) → verify c s ≡ ok tt → All (Accepted s.base_register) s.ops
  unfolding verify
  verify→All s h = ground (arith, check_ops→All s.base_register s.ops)

  verify-ops :
      (s : SignedRegister d) (ops : List (RegisterOp d))
      → verify c s ≡ ok tt
      → All (Accepted s.base_register) ops
      → verify c (record s { ops = ops }) ≡ ok tt
  unfolding verify
  verify-ops s ops h a = let checked = All→check_ops s.base_register ops a in ground arith

  -- Where signatures are accepted under the public key of the secret key that made them, a
  -- register that `into_signed` signs verifies.
  pub verify-into_signed :
      (r : Register d) (sk : SecretKey) (s : SignedRegister d)
      → SignsCorrectly d
      → into_signed c r sk ≡ ok s
      → verify c s ≡ ok tt
  unfolding verify into_signed
  verify-into_signed r sk s signs h = elim (Option-cases (c.serialize r)) [
    | inl e ↦ absurd (ground arith)
    | inr (b, e) ↦ ground (arith, signs sk b, d.key_ord.cmp_eq (owner r) (d.public_key sk))
  ]

  -- If a signed register verifies, and adding an operation succeeds, the result verifies.
  pub verify-add_op :
      (s : SignedRegister d) (op : RegisterOp d) (s' : SignedRegister d)
      → verify c s ≡ ok tt
      → add_op c s op ≡ ok s'
      → verify c s' ≡ ok tt
  unfolding add_op
  verify-add_op s op s' h k =
      let accepted : Accepted s.base_register op = ground arith in
      let e : s' ≡ record s { ops = insert c.op_ord op s.ops } = ground arith in
      rw e (
        verify-ops s (insert c.op_ord op s.ops) h
          (All-insert c.op_ord (Accepted s.base_register) op s.ops accepted (verify→All s h)))

  -- If a signed register verifies, and merging another one with verification succeeds, the result
  -- verifies.
  pub verify-verified_merge :
      (s other s' : SignedRegister d)
      → verify c s ≡ ok tt
      → verified_merge c s other ≡ ok s'
      → verify c s' ≡ ok tt
  unfolding verified_merge
  verify-verified_merge s other s' h k =
      let same : s.base_register ≡ other.base_register =
        ground (arith, test→holds (c.register_eq s.base_register other.base_register)) in
      let checked : verify c other ≡ ok tt = ground arith in
      let e : s' ≡ record s { ops = extend c.op_ord s.ops other.ops } = ground arith in
      rw e (
        verify-ops s (extend c.op_ord s.ops other.ops) h (
          All-extend c.op_ord (Accepted s.base_register) s.ops other.ops (verify→All s h)
            (rw same (verify→All other checked))))

  -- Two replicas with one base, whose operations are ordered sets: merging each into the other
  -- succeeds, and both results have the same base and the same operations.
  pub signed_merge_comm :
      (s t : SignedRegister d)
      → s.base_register ≡ t.base_register
      → IsSorted c.op_ord s.ops
      → IsSorted c.op_ord t.ops
      → (u : SignedRegister d) × (v : SignedRegister d) × (signed_merge c s t ≡ ok u)
        × (signed_merge c t s ≡ ok v)
        × (u.base_register ≡ v.base_register)
        × (u.ops ≡ v.ops)
  unfolding signed_merge
  signed_merge_comm s t e h k = (
    record s { ops = extend c.op_ord s.ops t.ops },
    record t { ops = extend c.op_ord t.ops s.ops },
    ground (arith, holds→test (c.register_eq s.base_register t.base_register) e),
    ground (arith, holds→test (c.register_eq t.base_register s.base_register) (sym e)),
    e,
    extend_comm c.op_ord s.ops t.ops h k,
  )

  -- Three replicas with one base, where the operations of the first are an ordered set: merging
  -- them in either grouping gives the same result.
  pub signed_merge_assoc :
      (s t u : SignedRegister d)
      → s.base_register ≡ t.base_register
      → t.base_register ≡ u.base_register
      → IsSorted c.op_ord s.ops
      → (signed_merge c s t >>= λ st. signed_merge c st u)
        ≡ (signed_merge c t u >>= λ tu. signed_merge c s tu)
  unfolding signed_merge
  signed_merge_assoc s t u e f h = ground (
    arith,
    holds→test (c.register_eq s.base_register t.base_register) e,
    holds→test (c.register_eq s.base_register u.base_register) (e ∙ f),
    holds→test (c.register_eq t.base_register u.base_register) f,
    extend_assoc c.op_ord s.ops t.ops u.ops h,
  )

  -- Merging a replica, whose operations are an ordered set, with itself changes nothing.
  pub signed_merge_self :
      (s : SignedRegister d) → IsSorted c.op_ord s.ops → signed_merge c s s ≡ ok s
  unfolding signed_merge
  signed_merge_self s h = ground (
    arith,
    holds→test (c.register_eq s.base_register s.base_register) refl,
    extend_self c.op_ord s.ops h,
  )
