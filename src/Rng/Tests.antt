-- ===== src/Rng/Tests.antt =====
-- rng/cc_rngUniform.c and rng/cc_rngNormal.c over generators that compute: the theorems at work.
use libcc.Base.{ℕ, ◌+◌, ◌-◌, ◌*◌, ◌^◌, ◌≤◌, ◌≡◌, refl, false, arith}
use libcc.Rng.{RngNormal, bound_of, rand2u}
use libcc.Rng.Bounds.{rand2u-bound_of}

-- The greatest number below the bound.
abbrev greatest : ℕ → ℕ → ℕ × ℕ
greatest rng bound = (bound - 1, rng + 1)

rand2u-bound_of_example : (5 ≤ (rand2u greatest 0 5 9).0) × ((rand2u greatest 0 5 9).0 ≤ 9)
rand2u-bound_of_example =
    rand2u-bound_of greatest 0 5 9 (λ bound le. omega arith) (omega arith) (omega arith)
      (omega arith)

-- The whole range has no bound on uint32_t.
whole_range : bound_of 0 (2 ^ 32 - 1) ≡ 0
whole_range = refl

-- The multiples of 2^32, of which 2 * 2^32 is the first above epsilon.
abbrev multiples : ℕ → ℕ × ℕ
multiples rng = (rng * 2 ^ 32, rng + 1)

abbrev fresh : RngNormal ℕ ℕ
fresh = record { rng = 0; mu = 1; sigma = 2; phase = false; rand = 0 }
