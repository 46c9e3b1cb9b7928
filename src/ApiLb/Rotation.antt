-- ===== src/ApiLb/Rotation.antt =====
-- Which backend a request goes to.
use zth_sre.Prelude.{
  ℕ, zero, suc, ◌+◌, ◌*◌, ◌%◌, ◌≤◌, ◌<◌, ◌≡◌, ◌⊎◌, inl, inr, List, [], ◌∷◌, ℕ_eq, arith, count,
}
use zth_sre.Prelude.Int.{ℤ, pos, negsuc, ℤ_eq}
use zth_sre.ApiLb.{Balancer, u64_mod, i64_max, int_of_u64, int_rem, pick}

-- The counter is a uint64, and one or two backends are active.
pub record Inv (b : Balancer) : Type 0 where
  pub counted : b.next < u64_mod
  pub one_or_two : (b.active ≡ 1) ⊎ (b.active ≡ 2)

-- Below 2^63 requests, the request with number n goes to backend n mod `active`, which exists.
pub pick_lem :
    (b : Balancer)
    → Inv b
    → b.next < i64_max
    → (pick b ≡ (record b { next = b.next + 1 }, pos (b.next % b.active))) × (b.next % b.active < 2)
unfolding pick int_of_u64 int_rem
pick_lem b v h = ground arith

-- With two backends active, an odd counter in the upper half of the range of uint64 gives the index
-- -1, which is out of range of the backends.
pub pick_upper_half :
    (b : Balancer)
    → Inv b
    → b.active ≡ 2
    → i64_max ≤ b.next
    → b.next % 2 ≡ 1
    → (pick b).1 ≡ negsuc 0
unfolding pick int_of_u64 int_rem
pick_upper_half b v a h o = ground arith

pub picks : ℕ → Balancer → List ℤ
picks zero b = []
picks (suc k) b = let (b', i) = pick b in i ∷ picks k b'

abbrev pub twice : ℕ → ℕ
twice zero = zero
twice (suc k) = suc (suc (twice k))

pick_two :
    (b : Balancer)
    → b.active ≡ 2
    → b.next < i64_max
    → pick b ≡ (record b { next = b.next + 1 }, pos (b.next % 2))
unfolding pick int_of_u64 int_rem
pick_two b a h = ground arith

parity : (n : ℕ) → ((n % 2 ≡ 0) × ((n + 1) % 2 ≡ 1)) ⊎ ((n % 2 ≡ 1) × ((n + 1) % 2 ≡ 0))
parity n = ground arith

-- Two active backends get k each of any 2k requests in a row, until 2^63 requests were counted.
pub picks_balanced :
    (k : ℕ) (b : Balancer)
    → b.active ≡ 2
    → b.next + 2 * k ≤ i64_max
    → (count (pos 0) (picks (twice k) b) ≡ k) × (count (pos 1) (picks (twice k) b) ≡ k)
unfolding picks
picks_balanced zero b a h = omega arith
picks_balanced (suc k) b a h =
    let b1 = record b { next = b.next + 1 } in
    let b2 = record b { next = b1.next + 1 } in
    let ih = picks_balanced k b2 a (omega arith) in
    rw (pick_two b a (omega arith), pick_two b1 a (omega arith))
      (elim (parity b.next) [
        | inl (even, odd) ↦ rw (even, odd) (omega (arith, ih))
        | inr (odd, even) ↦ rw (odd, even) (omega (arith, ih))
      ])
