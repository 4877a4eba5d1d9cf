-- ===== src/Base/Order.antt =====
-- `std::cmp::Ord`: a total order by three-way comparison, as an interface.
use Prim.Native.Nat.{ℕ, compare, Ordering}
use mathlib.Core.Path.{◌≡◌}
use mathlib.Core.Bool.{Bool, true, false}
use native.Mathlib.Omega.{arith}

pub record Ord {ℓ} (A : Type ℓ) : Type ℓ where
  pub cmp : A → A → Ordering
  pub cmp_refl : (a : A) → cmp a a ≡ Ordering.eq
  pub cmp_eq : (a b : A) → cmp a b ≡ Ordering.eq → a ≡ b
  pub cmp_gt : (a b : A) → cmp a b ≡ Ordering.gt → cmp b a ≡ Ordering.lt
  pub cmp_trans :
      (a b c : A) → cmp a b ≡ Ordering.lt → cmp b c ≡ Ordering.lt → cmp a c ≡ Ordering.lt

-- `==` of a type whose order is total.
abbrev pub eqb {ℓ} : {A : Type ℓ} → Ord A → A → A → Bool
eqb o a b = elim (o.cmp a b) [ Ordering.eq ↦ true | _ ↦ false ]

pub nat_refl : (a : ℕ) → compare a a ≡ Ordering.eq
nat_refl a = ground arith

pub nat_eq : (a b : ℕ) → compare a b ≡ Ordering.eq → a ≡ b
nat_eq a b h = ground arith

pub nat_gt : (a b : ℕ) → compare a b ≡ Ordering.gt → compare b a ≡ Ordering.lt
nat_gt a b h = ground arith

pub nat_trans :
    (a b c : ℕ) → compare a b ≡ Ordering.lt → compare b c ≡ Ordering.lt → compare a c ≡ Ordering.lt
nat_trans a b c h k = ground arith

-- The order of the native numbers; tests and witnesses use it.
abbrev pub nat_ord : Ord ℕ
nat_ord = record {
  cmp = compare;
  cmp_refl = nat_refl;
  cmp_eq = nat_eq;
  cmp_gt = nat_gt;
  cmp_trans = nat_trans;
}

module _ {ℓ} {A : Type ℓ} (o : Ord A) where
  pub lt_irrefl : (a : A) → o.cmp a a ≡ Ordering.lt → ⊥
  lt_irrefl a h = cc (o.cmp_refl a)

  pub eqb_refl : (a : A) → eqb o a a ≡ true
  eqb_refl a = ground (arith, o.cmp_refl a)

  pub eqb→eq : (a b : A) → eqb o a b ≡ true → a ≡ b
  eqb→eq a b h = ground (arith, o.cmp_eq a b)

  pub lt→neqb : (a b : A) → o.cmp a b ≡ Ordering.lt → eqb o a b ≡ false
  lt→neqb a b h = ground arith

  pub lt→neqb_symm : (a b : A) → o.cmp b a ≡ Ordering.lt → eqb o a b ≡ false
  lt→neqb_symm a b h = ground (arith, o.cmp_eq a b, lt_irrefl a)
