-- ===== src/Registers/Access.antt =====
-- Who may write to a register: `check_user_permissions` and `check_register_op` of register.rs.
use safe_network.Base.{some, true, false, ◌≡◌, refl, Option-cases, ◌⊎◌, inl, inr, ◌↔◌, arith}
use safe_network.Base.Order.{eqb_refl, eqb→eq}
use safe_network.Base.Outcome.{ok}
use safe_network.Base.SortedSet.{contains, contains-insert}
use safe_network.Registers.Deps.{Deps, SignsCorrectly}
use safe_network.Registers.Model.{
  User, anyone, key, user_ord, Permissions, RegisterOp, Register, Codec,
}
use safe_network.Registers.Crdt.{
  everyone_can_write, can_write, bytes_for_signing, sign_with, verify_signature,
}
use safe_network.Registers.Register.{new, owner, check_user_permissions, check_register_op}

User-cases : {K : Type 0} (u : User K) → (u ≡ anyone) ⊎ ((k : K) × (u ≡ key k))
User-cases anyone = inl refl
User-cases (key k) = inr (k, refl)

module _ {d : Deps} where
  open d use {PublicKey, Signature, XorName}

  -- A user passes the check exactly when it is the owner, or everyone can write, or it is a writer.
  pub check_user_permissions_iff :
      (r : Register d) (u : User PublicKey)
      → (check_user_permissions r u ≡ ok tt)
        ↔ ((u ≡ key (owner r)) ⊎ (can_write r.permissions u ≡ true))
  unfolding check_user_permissions
  check_user_permissions_iff r u = (
    λ h. ground (arith, eqb→eq (user_ord d.key_ord) u (key (owner r))),
    λ h. ground (arith, eqb_refl (user_ord d.key_ord) u),
  )

  -- On a new register a user passes exactly when it is the owner or the given permissions let it
  -- write.
  pub check_user_permissions-new :
      (pk : PublicKey) (meta : XorName) (p : Permissions d) (u : User PublicKey)
      → (check_user_permissions (new pk meta p) u ≡ ok tt) ↔ ((u ≡ key pk) ⊎ (can_write p u ≡ true))
  unfolding check_user_permissions new can_write
  check_user_permissions-new pk meta p u =
      let o = user_ord d.key_ord in
      let facts = contains-insert o u (key pk) p.writers in
      let facts' = contains-insert o anyone (key pk) p.writers in
      (
        λ h. ground (arith, facts, facts', eqb→eq o u (key pk)),
        λ h. ground (arith, facts, facts', eqb_refl o u),
      )

module _ {d : Deps} (c : Codec d) where
  open d use {PublicKey, SecretKey, Signature}

  pub verify_signature_sound :
      (op : RegisterOp d) (pk : PublicKey)
      → verify_signature c op pk ≡ ok tt
      → (sig : Signature) × (op.signature ≡ some sig)
        × (d.verify pk sig (bytes_for_signing c op) ≡ true)
  unfolding verify_signature
  verify_signature_sound op pk h = elim (Option-cases op.signature) [
    | inl e ↦ absurd (ground arith)
    | inr (sig, e) ↦ (sig, e, ground arith)
  ]

  -- On a register that not everyone can write, an operation that passes has a key as its source,
  -- the key is the owner or a listed writer, and the operation carries a signature that verifies
  -- under it.
  pub check_register_op_sound :
      (r : Register d) (op : RegisterOp d)
      → check_register_op c r op ≡ ok tt
      → everyone_can_write r.permissions ≡ false
      → (pk : PublicKey) × (op.source ≡ key pk)
        × ((pk ≡ owner r) ⊎ (contains (user_ord d.key_ord) (key pk) r.permissions.writers ≡ true))
        × ((sig : Signature) × (op.signature ≡ some sig)
            × (d.verify pk sig (bytes_for_signing c op) ≡ true))
  unfolding check_register_op can_write
  check_register_op_sound r op h e = elim (User-cases op.source) [
    | inl a ↦ absurd (ground arith)
    | inr (pk, k) ↦
        let signed : verify_signature c op pk ≡ ok tt = ground arith in
        (
          pk,
          k,
          ground (arith, eqb→eq (user_ord d.key_ord) op.source (key (owner r))),
          verify_signature_sound op pk signed,
        )
  ]

  -- Where signatures are accepted under the public key of the secret key that made them, an
  -- operation that is signed by the secret key of a user who may write passes.
  pub check_register_op-sign_with :
      (r : Register d) (op : RegisterOp d) (sk : SecretKey)
      → SignsCorrectly d
      → check_user_permissions r (key (d.public_key sk)) ≡ ok tt
      → check_register_op c r (sign_with c op sk) ≡ ok tt
  unfolding check_register_op sign_with verify_signature
  check_register_op-sign_with r op sk signs h =
      ground (arith, signs sk (bytes_for_signing c (sign_with c op sk)))
