-- ===== src/Registers/Tests.antt =====
-- The theorems on registers at small registers: one that everyone can write, and one with an owner.
use safe_network.Base.{ℕ, List, [], ◌∷◌, some, true, false, ◌≡◌, refl, arith, ◌⊎◌}
use safe_network.Base.Outcome.{ok, is_ok, ◌>>=◌}
use safe_network.Base.SortedSet.{contains, IsSorted, insert, extend}
use safe_network.Samples.{deps, deps-GrowsByOne, codec}
use safe_network.Registers.Model.{RegisterOp, Register, SignedRegister, anyone, key, user_ord}
use safe_network.Registers.Crdt.{everyone_can_write, bytes_for_signing}
use safe_network.Registers.Register.{owner, size, check_register_op, apply_op}
use safe_network.Registers.Signed.{verify, add_op, verified_merge, signed_merge, replay, register}
use safe_network.Registers.Access.{check_register_op_sound}
use safe_network.Registers.Convergence.{
  verify-add_op, verify-verified_merge, signed_merge_comm, signed_merge_assoc,
}
use safe_network.Registers.Replay.{Replayed, replay_sound, foreign_op_blocks}

abbrev open_register : Register deps
open_register = record {
  crdt = record { address = record { meta = 7; owner = 1 }; merkle = [] };
  permissions = record { writers = anyone ∷ [] };
}

abbrev owned_register : Register deps
owned_register = record {
  crdt = record { address = record { meta = 7; owner = 1 }; merkle = [] };
  permissions = record { writers = key 1 ∷ key 2 ∷ [] };
}

abbrev op : ℕ → ℕ → RegisterOp deps
op meta n = record {
  address = record { meta = meta; owner = 1 };
  crdt_op = n;
  source = key 2;
  signature = some 2;
}

abbrev signed : Register deps → List (RegisterOp deps) → SignedRegister deps
signed r ops = record { base_register = r; signature = 1; ops = ops }

open_verifies : verify codec (signed open_register []) ≡ ok tt
open_verifies = unfold verify contains in refl

foreign_op_blocks_example :
    (s' : SignedRegister deps) × (add_op codec (signed open_register []) (op 8 5) ≡ ok s')
    × (verify codec s' ≡ ok tt)
    × (is_ok (register codec s') ≡ false)
foreign_op_blocks_example =
    foreign_op_blocks codec (signed open_register []) (op 8 5) deps-GrowsByOne
      (unfold size in omega arith) open_verifies (unfold everyone_can_write contains in refl)
      (λ e. ground arith)

added : add_op codec (signed owned_register []) (op 7 5) ≡ ok (signed owned_register (op 7 5 ∷ []))
added = unfold add_op insert contains in refl

verify-add_op_example : verify codec (signed owned_register (op 7 5 ∷ [])) ≡ ok tt
verify-add_op_example =
    verify-add_op codec (signed owned_register []) (op 7 5) (signed owned_register (op 7 5 ∷ []))
      (unfold verify contains in refl) added

verify-verified_merge_example : verify codec (signed owned_register (op 7 5 ∷ [])) ≡ ok tt
verify-verified_merge_example =
    verify-verified_merge codec (signed owned_register []) (signed owned_register (op 7 5 ∷ []))
      (signed owned_register (op 7 5 ∷ [])) (unfold verify contains in refl)
      (unfold verified_merge extend insert contains in refl)

accepted : check_register_op codec owned_register (op 7 5) ≡ ok tt
accepted = unfold check_register_op contains in refl

check_register_op_sound_example :
    (pk : ℕ) × ((op 7 5).source ≡ key pk)
    × ((pk ≡ owner owned_register)
        ⊎ (contains (user_ord deps.key_ord) (key pk) owned_register.permissions.writers ≡ true))
    × ((sig : ℕ) × ((op 7 5).signature ≡ some sig)
        × (deps.verify pk sig (bytes_for_signing codec (op 7 5)) ≡ true))
check_register_op_sound_example =
    check_register_op_sound codec owned_register (op 7 5) accepted
      (unfold everyone_can_write contains in refl)

replay_sound_example : Replayed codec owned_register (op 7 5 ∷ []) (record owned_register {
  crdt = record { address = record { meta = 7; owner = 1 }; merkle = 5 ∷ [] };
})
replay_sound_example =
    replay_sound codec owned_register (op 7 5 ∷ [])
      (record owned_register {
        crdt = record { address = record { meta = 7; owner = 1 }; merkle = 5 ∷ [] };
      })
      deps-GrowsByOne (unfold size in omega arith) (unfold replay apply_op contains in refl)

one_op : IsSorted codec.op_ord (op 7 5 ∷ [])
one_op = (tt, tt)

signed_merge_comm_example :
    (u : SignedRegister deps) × (v : SignedRegister deps) × (signed_merge codec
        (signed owned_register (op 7 5 ∷ []))
        (signed owned_register (op 7 4 ∷ []))
      ≡ ok u)
    × (signed_merge codec
          (signed owned_register (op 7 4 ∷ []))
          (signed owned_register (op 7 5 ∷ []))
        ≡ ok v)
    × (u.base_register ≡ v.base_register)
    × (u.ops ≡ v.ops)
signed_merge_comm_example =
    signed_merge_comm codec (signed owned_register (op 7 5 ∷ []))
      (signed owned_register (op 7 4 ∷ [])) refl one_op (tt, tt)

signed_merge_assoc_example :
    (signed_merge codec (signed owned_register (op 7 5 ∷ [])) (signed owned_register (op 7 4 ∷ []))
      >>= λ st. signed_merge codec st (signed owned_register (op 7 3 ∷ [])))
    ≡ (signed_merge codec
          (signed owned_register (op 7 4 ∷ []))
          (signed owned_register (op 7 3 ∷ []))
        >>= λ tu. signed_merge codec (signed owned_register (op 7 5 ∷ [])) tu)
signed_merge_assoc_example =
    signed_merge_assoc codec (signed owned_register (op 7 5 ∷ []))
      (signed owned_register (op 7 4 ∷ [])) (signed owned_register (op 7 3 ∷ [])) refl refl one_op
