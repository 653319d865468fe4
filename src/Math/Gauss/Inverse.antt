-- ===== src/Math/Gauss/Inverse.antt =====
-- math/cc_mat4f.c and math/cc_mat3f.c: the whole elimination.
use libcc.Base.{
  ℕ, zero, suc, ◌-◌, ◌≤◌, ◌<◌, ◌≡◌, sym, ap, subst, ◌∙◌, arith, ◌==◌, if◌then◌else◌, inl, inr,
  Bool-cases, ==→≡, ==_refl, ne→==,
}
use libcc.Math.{Scalars, ◌⊗◌, num}
use libcc.Math.Sum.{sum, add-zero}
use libcc.Math.Gauss.{Array, HasPivots, identity_array, inverse_array}
use libcc.Math.Gauss.Rows.{IsField}
use libcc.Math.Gauss.Forward.{order_cases, IsReduced, forward-IsReduced}
use libcc.Math.Gauss.Backward.{backward-IsDiagonal}

module _ {F : Type 0} ⦃f : Scalars F⦄ (laws : IsField F) where
  sum-identity_before :
      (n r : ℕ) (g : ℕ → F) → n < r → sum n (λ l. identity_array r l ⊗ g l) ≡ num 0
  sum-identity_before zero r g lt =
      rw (ne→== r 0 (λ e. absurd (omega (arith, e, lt)))) (laws.semiring.zero-mul (g 0))
  sum-identity_before (suc n) r g lt =
      rw
        (
          sum-identity_before n r g (omega (arith, lt)),
          ne→== r (suc n) (λ e. absurd (omega (arith, e, lt))),
          laws.semiring.zero-mul (g (suc n)),
        )
        (laws.semiring.zero-add (num 0))

  sum-identity : (n r : ℕ) (g : ℕ → F) → r ≤ n → sum n (λ l. identity_array r l ⊗ g l) ≡ g r
  sum-identity zero r g le =
      subst (λ r. identity_array r 0 ⊗ g 0 ≡ g r) (omega (arith, le)) (laws.semiring.one-mul (g 0))
  sum-identity (suc n) r g le = elim (Bool-cases (r == suc n)) [
    | inl e ↦
        subst (λ r. sum (suc n) (λ l. identity_array r l ⊗ g l) ≡ g r) (sym (==→≡ r (suc n) e))
          (rw
            (
              sum-identity_before n (suc n) g (omega arith),
              ==_refl (suc n),
              laws.semiring.one-mul (g (suc n)),
            )
            (laws.semiring.zero-add (g (suc n))))
    | inr e ↦
        rw (sum-identity n r g (ground (arith, e, le)), e, laws.semiring.zero-mul (g (suc n)))
          (add-zero laws.semiring (g r))
  ]

  -- The array that the elimination returns, multiplied with the matrix, is the identity.
  pub inverse_array-identity :
      (last : ℕ) (m0 : Array F)
      → HasPivots (suc last) (suc last) 0 (record { a = m0; v = identity_array })
      → (r k : ℕ) → r ≤ last
      → k ≤ last
      → sum last (λ l. (inverse_array (suc last) m0).v r l ⊗ m0 l k) ≡ identity_array r k
  unfolding inverse_array
  inverse_array-identity last m0 pivots r k r_le k_le =
      let start : IsReduced laws last m0 0 (record { a = m0; v = identity_array }) = (
        (λ r r_le k k_le. sum-identity last r (λ l. m0 l k) r_le),
        ((λ r c r_le lt. absurd (omega (arith, lt))), (λ c lt. absurd (omega (arith, lt)))),
      ) in
      let reduced =
        forward-IsReduced laws last m0 (suc last) 0 (record { a = m0; v = identity_array })
          (omega arith) pivots start in
      let d =
        backward-IsDiagonal laws last m0 (suc last - 1) _ (omega arith)
          (reduced, λ r c c_le last_lt. absurd (omega (arith, c_le, last_lt))) in
      d.0.0 r r_le k k_le ∙ elim (order_cases r k) [
        | inl before ↦
            d.1 r k k_le (omega (arith, before)) before
            ∙ sym (
                ap (λ b. if b then num 1 else num 0)
                  (ne→== r k (λ e. absurd (omega (arith, e, before)))))
        | inr (inl here) ↦
            subst (λ k. (inverse_array (suc last) m0).a r k ≡ identity_array r k) here
              (d.0.1.1 r (omega (arith, r_le))
                ∙ sym (ap (λ b. if b then num 1 else num 0) (==_refl r)))
        | inr (inr behind) ↦
            d.0.1.0 r k r_le (omega (arith, k_le)) behind
            ∙ sym (
                ap (λ b. if b then num 1 else num 0)
                  (ne→== r k (λ e. absurd (omega (arith, e, behind)))))
      ]
