-- ===== src/Rng.antt =====
-- rng/cc_rngUniform.c and rng/cc_rngNormal.c: random numbers over the generator pcg32, which is not part
-- of the repository: its state is any type, and pcg32_random_r and pcg32_boundedrand_r are parameters.
-- The operations on floating-point numbers are those of Math.
pub mod Bounds
pub mod Pairs
pub mod Tests
use libcc.Base.{
  ℕ, zero, suc, ◌+◌, ◌-◌, ◌%◌, ◌^◌, Bool, true, false, Option, none, some, if◌then◌else◌,
}
use libcc.Math.{Scalars, ◌⊕◌, ◌⊖◌, ◌⊗◌, ◌⊘◌, num}

-- The bound of cc_rngUniform_rand2U, `max - min + 1` on uint32_t.
abbrev pub bound_of : (min max : ℕ) → ℕ
bound_of min max = (max + 2 ^ 32 - min + 1) % 2 ^ 32

-- cc_rngUniform_rand2U, over the call of pcg32_boundedrand_r.
unfoldable pub rand2u : {S : Type 0} → (S → ℕ → ℕ × S) → S → (min max : ℕ) → ℕ × S
rand2u boundedrand rng min max =
    let r = boundedrand rng (bound_of min max) in ((r.0 + min) % 2 ^ 32, r.1)

module _ {F : Type 0} ⦃f : Scalars F⦄ {S : Type 0} (random : S → ℕ × S) where
  -- cc_rngUniform_rand1F: ldexp(r, -32) of the next number
  unfoldable pub rand1f : S → F × S
  rand1f rng = let r = random rng in (num r.0 ⊘ num (2 ^ 32), r.1)

  -- cc_rngUniform_rand2F
  unfoldable pub rand2f : S → (min max : F) → F × S
  unfolding rand1f
  rand2f rng min max = let r = rand1f rng in (r.0 ⊗ (max ⊖ min) ⊕ min, r.1)

-- cc_rngNormal_t
pub record RngNormal (F S : Type 0) : Type 0 where
  pub rng : S
  pub mu : F
  pub sigma : F
  pub phase : Bool
  pub rand : F

-- cc_rngNormal_reset
unfoldable pub reset : {F S : Type 0} → RngNormal F S → (mu sigma : F) → RngNormal F S
reset self mu sigma = record self { mu = mu; sigma = sigma; phase = false }

module _ {F : Type 0} ⦃f : Scalars F⦄ where
  -- The length of the transform's vector.
  abbrev pub magnitude : F → F → F
  magnitude sigma u1 = sigma ⊗ f.sqrt (f.neg (num 2) ⊗ f.log u1)

module _ {F : Type 0} ⦃f : Scalars F⦄ {S : Type 0} (random : S → ℕ × S) where
  -- The loop that draws `u1`, on fuel.
  unfoldable pub draw : (fuel : ℕ) → S → Option (F × S)
  unfolding rand1f
  draw zero rng = none
  draw (suc fuel) rng =
      let r = rand1f random rng in if f.le r.0 f.epsilon then draw fuel r.1 else some r

  unfoldable pub transformed : RngNormal F S → F × S → F × RngNormal F S
  unfolding rand1f
  transformed self r =
      let r2 = rand1f random r.1 in
      let mag = magnitude self.sigma r.0 in
      let angle = num 2 ⊗ f.pi ⊗ r2.0 in
      (
        mag ⊗ f.cos angle ⊕ self.mu,
        record self { rng = r2.1; phase = true; rand = mag ⊗ f.sin angle ⊕ self.mu },
      )

  -- cc_rngNormal_boxMullerTransform
  abbrev pub transform_drawn : RngNormal F S → Option (F × S) → Option (F × RngNormal F S)
  transform_drawn self none = none
  transform_drawn self (some r) = some (transformed self r)

  unfoldable pub box_muller_transform : (fuel : ℕ) → RngNormal F S → Option (F × RngNormal F S)
  unfolding draw transformed
  box_muller_transform fuel self = transform_drawn self (draw fuel self.rng)

  -- cc_rngNormal_rand1D
  unfoldable pub rand1d : (fuel : ℕ) → RngNormal F S → Option (F × RngNormal F S)
  unfolding box_muller_transform
  rand1d fuel self =
      if self.phase
      then some (self.rand, record self { phase = false })
      else box_muller_transform fuel self
