-- ===== src/Ring/Count.antt =====
-- How many points wait in the ring of core/ring.c, across whole calls of its functions.
use edgeflow_energy_gateway.Common.{
  ℕ, ◌+◌, ◌-◌, ◌%◌, ◌^◌, ◌≤◌, ◌<◌, ◌≡◌, ap, ap₂, sym, ◌∙◌, ◌⊎◌, ltb, Bool, Bool-cases, some,
  Option-cases, some-injective, inl, inr, arith, leb, held, if◌then◌else◌,
}
use mathlib.Core.Path.{subst}
use native.Mathlib.Nat.{mod-eq_of_lt, mod_self}
use native.Mathlib.Decide.{dec_lt}
use edgeflow_energy_gateway.Ring.{
  Ring, next_slot, spsc_ring_init, spsc_ring_push, spsc_ring_pop, spsc_ring_count,
}

module _ {A : Type 0} where
  -- A ring between `init` and `destroy`.
  pub record InUse (r : Ring A) : Type 0 where
    pub buf : held r.buf ≡ 1
    pub lo : 2 ≤ r.size
    pub hi : r.size < 2 ^ 32
    pub head : r.head < r.size
    pub tail : r.tail < r.size

-- Behind the last slot comes the first one.
next_slot_lap : (i n : ℕ) → n < 2 ^ 32 → i + 1 ≡ n → next_slot i n ≡ 0
next_slot_lap i n hi h =
    ap₂ (λ (a b : ℕ). a % b) (mod-eq_of_lt {n = i + 1} {m = 2 ^ 32} (omega arith)) (sym h)
    ∙ mod_self (i + 1)

next_slot_step : (i n : ℕ) → n < 2 ^ 32 → i + 1 < n → next_slot i n ≡ i + 1
next_slot_step i n hi h =
    ap (λ (a : ℕ). a % n) (mod-eq_of_lt {n = i + 1} {m = 2 ^ 32} (omega arith))
    ∙ mod-eq_of_lt {n = i + 1} {m = n} h

-- The points between slots `t` and `h` of a ring of `n`.
abbrev distance : ℕ → ℕ → ℕ → ℕ
distance t h n = if leb t h then h - t else n - t + h

module _ {A : Type 0} (zeroed : A) where
  count-distance : (r : Ring A) → InUse r → spsc_ring_count r ≡ distance r.tail r.head r.size
  unfolding spsc_ring_count
  count-distance r u = elim (Option-cases r.buf) [
    | inl e ↦ absurd (omega (arith, u.buf, ap held e))
    | inr (buf, e) ↦ rw (e, spsc_ring_count) (ground (arith, u))
  ]

  next_slot_facts :
      (i n : ℕ)
      → n < 2 ^ 32
      → i < n
      → ((i + 1 ≡ n) × (next_slot i n ≡ 0)) ⊎ ((i + 1 < n) × (next_slot i n ≡ i + 1))
  next_slot_facts i n hi h = elim (dec_lt (i + 1) n) [
    | yes p ↦ inr (p, next_slot_step i n hi p)
    | no p ↦ let lap : i + 1 ≡ n = omega arith in inl (lap, next_slot_lap i n hi lap)
  ]

  -- A push keeps the ring in use; it adds one point, if the ring takes it.
  pub count-push :
      (r : Ring A) (x : A)
      → InUse r
      → let (r', taken) = spsc_ring_push r x in
        InUse r'
        × (spsc_ring_count r' ≡ (if taken then spsc_ring_count r + 1 else spsc_ring_count r))
  unfolding spsc_ring_push spsc_ring_count
  count-push r x u = elim (Option-cases r.buf) [
    | inl e ↦ absurd (omega (arith, u.buf, ap held e))
    | inr (buf, e) ↦
        let moved = next_slot_facts r.head r.size u.hi u.head in
        rw (e, spsc_ring_push, spsc_ring_count) (ground (arith, u, moved))
  ]

  pub count-pop :
      (r : Ring A)
      → InUse r
      → let (r', out) = spsc_ring_pop zeroed r in
        InUse r' × (spsc_ring_count r' + held out ≡ spsc_ring_count r)
  unfolding spsc_ring_pop spsc_ring_count
  count-pop r u = elim (Option-cases r.buf) [
    | inl e ↦ absurd (omega (arith, u.buf, ap held e))
    | inr (buf, e) ↦
        let moved = next_slot_facts r.tail r.size u.hi u.tail in
        rw (e, spsc_ring_pop, spsc_ring_count) (ground (arith, u, moved))
  ]

  pub init-InUse :
      (memory : Bool) (size : ℕ) {r : Ring A}
      → size < 2 ^ 32
      → spsc_ring_init zeroed memory size ≡ some r
      → InUse r × (spsc_ring_count r ≡ 0)
  unfolding spsc_ring_init spsc_ring_count
  init-InUse memory size {r} hi h = elim (Bool-cases (ltb size 2)) [
    | inl small ↦ cc (rw (small, spsc_ring_init) at h)
    | inr enough ↦ elim (Bool-cases memory) [
      | inr failed ↦ cc (rw (enough, failed, spsc_ring_init) at h)
      | inl got ↦
          subst (λ (q : Ring A). InUse q × (spsc_ring_count q ≡ 0))
            (some-injective _ r (rw (enough, got, spsc_ring_init) at h)) (ground arith)
    ]
  ]
