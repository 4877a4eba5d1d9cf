-- ===== src/Networking/RecordStore/Cost.antt =====
-- The loop of `store_cost` of record_store.rs.
use native.Mathlib.Nat.{one-le-pow, pow-suc, pow-le-pow_right}
use safe_network.Base.{
  leb, leb→le, Bool-cases, inl, inr, ℕ, zero, suc, ◌+◌, ◌*◌, ◌/◌, ◌^◌, ◌≤◌, ◌≡◌, min, arith, ◌∙◌,
  ap,
}
use safe_network.Networking.RecordStore.{
  Kademlia, RecordStore, u64_max, double_cost, store_cost, total_supply, puts_per_price_step,
  relevant_records_len,
}

mul_ge_self : (a p : ℕ) → 1 ≤ p → a ≤ a * p
mul_ge_self a p h = grind arith

mul_mono : (c : ℕ) {a b : ℕ} → a ≤ b → c * a ≤ c * b
mul_mono c h = grind arith

min_mono : (m : ℕ) {a b : ℕ} → a ≤ b → min m a ≤ min m b
min_mono m h = omega arith

-- A value that was cut is cut again after it is multiplied.
min-mul : (m a p : ℕ) → 1 ≤ p → min m (min m a * p) ≡ min m (a * p)
min-mul m a p h = elim (Bool-cases (leb a m)) [
  | inl e ↦ let f : min m a ≡ a = omega (arith, leb→le a m e) in rw f
  | inr e ↦
      let g : m ≤ a = ground arith in
      let f : min m a ≡ m = omega arith in
      rw f (omega (arith, mul_ge_self m p h, mul_ge_self a p h))
]

-- The saturating doublings of the loop are a power of two, cut at the largest `u64`.
double_cost-pow :
    (steps cost : ℕ) → cost ≤ u64_max → double_cost steps cost ≡ min u64_max (cost * 2 ^ steps)
unfolding double_cost
double_cost-pow zero cost h = omega arith
double_cost-pow (suc steps) cost h =
    double_cost-pow steps (min u64_max (cost + cost)) (omega arith)
    ∙ min-mul u64_max (cost + cost) (2 ^ steps) (one-le-pow steps 2 (omega arith))
    ∙ ap (min u64_max) (rw pow-suc (omega arith))

abbrev pub start_cost : Kademlia → ℕ
start_cost k = total_supply / k.cost_factor

abbrev pub step_of : {k : Kademlia} → RecordStore k → ℕ
step_of s = relevant_records_len s s.distance_range / puts_per_price_step + 1

start_cost-le : (k : Kademlia) → start_cost k ≤ u64_max
start_cost-le k = omega arith

-- The loop of saturating additions gives the starting cost times 2 to the power of the step that
-- the number of relevant records is on, cut at the largest `u64`.
pub store_cost-pow :
    {k : Kademlia} (s : RecordStore k) → store_cost s ≡ min u64_max (start_cost k * 2 ^ step_of s)
unfolding store_cost
store_cost-pow {k} s = double_cost-pow (step_of s) (start_cost k) (start_cost-le k)

-- A store with at least as many relevant records as another asks for no less.
pub store_cost_mono :
    {k : Kademlia} (s t : RecordStore k)
    → relevant_records_len s s.distance_range ≤ relevant_records_len t t.distance_range
    → store_cost s ≤ store_cost t
store_cost_mono {k} s t h =
    rw (store_cost-pow s, store_cost-pow t)
      (min_mono u64_max (
        mul_mono (start_cost k)
          (pow-le-pow_right {n = 2} (omega arith) {i = step_of s} {j = step_of t} (omega arith))))
