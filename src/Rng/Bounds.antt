-- ===== src/Rng/Bounds.antt =====
-- rng/cc_rngUniform.c: the range of cc_rngUniform_rand2U.
use libcc.Base.{ℕ, ◌+◌, ◌-◌, ◌%◌, ◌^◌, ◌≤◌, ◌<◌, ◌≡◌, ◌∙◌, ap, arith}
use libcc.Rng.{bound_of, rand2u}
use native.Mathlib.Nat.{add-mod_right, mod-eq_of_lt}

bound_of-count :
    (min max : ℕ) → min ≤ max → max - min + 1 < 2 ^ 32 → bound_of min max ≡ max - min + 1
bound_of-count min max le small =
    ap (λ n. n % 2 ^ 32) shift ∙ (add-mod_right (max - min + 1) (2 ^ 32) ∙ mod-eq_of_lt small)
  where
    shift : max + 2 ^ 32 - min + 1 ≡ (max - min + 1) + 2 ^ 32
    shift = omega (arith, le)

-- Where pcg32_boundedrand_r returns a number below its bound, from 1 on, and `min` to `max` is a range
-- of uint32_t, but not all of it, cc_rngUniform_rand2U returns a number of the range.
pub rand2u-bound_of :
    {S : Type 0} (boundedrand : S → ℕ → ℕ × S) (rng : S) (min max : ℕ)
    → ((bound : ℕ) → 1 ≤ bound → (boundedrand rng bound).0 < bound)
    → min ≤ max
    → max < 2 ^ 32
    → max - min + 1 < 2 ^ 32
    → (min ≤ (rand2u boundedrand rng min max).0) × ((rand2u boundedrand rng min max).0 ≤ max)
unfolding rand2u
rand2u-bound_of boundedrand rng min max below le fits small =
    let count = bound_of-count min max le small in
    let lt = below (bound_of min max) (omega (arith, count)) in
    let fits' : (boundedrand rng (bound_of min max)).0 + min < 2 ^ 32 =
      omega (arith, lt, count, le, fits) in
    let same = mod-eq_of_lt fits' in (omega (arith, same), omega (arith, same, lt, count, le))
