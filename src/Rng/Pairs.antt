-- ===== src/Rng/Pairs.antt =====
-- rng/cc_rngNormal.c: the numbers of cc_rngNormal_rand1D come in pairs.
use libcc.Base.{ℕ, zero, suc, ◌<◌, ◌≤◌, ◌≡◌, true, false}
use libcc.Math.{Scalars}
use libcc.Rng.{rand1f}

module _ {F : Type 0} ⦃f : Scalars F⦄ {S : Type 0} (random : S → ℕ × S) where
  abbrev pub next : S → F × S
  next rng = rand1f random rng

  -- The uniform number after `k` others.
  abbrev pub uniform : ℕ → S → F × S
  uniform zero rng = next rng
  uniform (suc k) rng = uniform k (next rng).1

  -- The number is the first of the uniform numbers that is above epsilon.
  abbrev pub FirstAbove : (k : ℕ) → S → F × S → Type 0
  FirstAbove k rng u =
      (i : ℕ) × (i ≤ k)
      × (u ≡ uniform i rng)
      × (f.le u.0 f.epsilon ≡ false)
      × ((j : ℕ) → j < i → f.le (uniform j rng).0 f.epsilon ≡ true)
