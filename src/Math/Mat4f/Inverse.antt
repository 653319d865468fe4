-- ===== src/Math/Mat4f/Inverse.antt =====
-- math/cc_mat4f.c: cc_mat4f_inverse_copy, the elimination on the fields of the matrix as an array.
use libcc.Base.{ℕ, ◌<◌, ◌≡◌, refl, sym, ap, ◌∙◌, arith}
use libcc.Math.{Scalars, ◌⊗◌, num}
use libcc.Math.Sum.{sum-ext}
use libcc.Math.Gauss.{Array, HasPivots, identity_array, inverse_array}
use libcc.Math.Gauss.Rows.{IsField}
use libcc.Math.Gauss.Inverse.{inverse_array-identity}
use libcc.Math.Mat4f.{Mat4f, mat4f, identity, mulm}
use libcc.Math.Mat4f.Product.{at, all4, mat-ext, mulm-mulv-sum}

-- The fields in their order, which the cast of the matrix to `float*` reads as columns.
abbrev pub of_array : {F : Type 0} → Array F → Mat4f F
of_array v =
    mat4f (v 0 0) (v 1 0) (v 2 0) (v 3 0) (v 0 1) (v 1 1) (v 2 1) (v 3 1) (v 0 2) (v 1 2) (v 2 2)
      (v 3 2) (v 0 3) (v 1 3) (v 2 3) (v 3 3)

module _ {F : Type 0} ⦃f : Scalars F⦄ where
  unfoldable pub inverse : Mat4f F → Mat4f F
  inverse self = of_array (inverse_array 4 (at self)).v

  identity-at : (i : ℕ) → i < 4 → (j : ℕ) → j < 4 → at (identity {F = F}) i j ≡ identity_array i j
  unfolding identity
  identity-at =
      all4 (λ i. (j : ℕ) → j < 4 → at (identity {F = F}) i j ≡ identity_array i j)
        (all4 _ refl refl refl refl) (all4 _ refl refl refl refl) (all4 _ refl refl refl refl)
        (all4 _ refl refl refl refl)

  of_array-at : (v : Array F) (i : ℕ) → i < 4 → (j : ℕ) → j < 4 → at (of_array v) i j ≡ v i j
  of_array-at v =
      all4 (λ i. (j : ℕ) → j < 4 → at (of_array v) i j ≡ v i j) (all4 _ refl refl refl refl)
        (all4 _ refl refl refl refl) (all4 _ refl refl refl refl) (all4 _ refl refl refl refl)

  -- In exact arithmetic, where no pivotal entry of the elimination is zero, the matrix of
  -- cc_mat4f_inverse_copy, multiplied with the matrix, is the identity.
  pub mulm-inverse :
      IsField F
      → (a : Mat4f F) → HasPivots 4 4 0 (record { a = at a; v = identity_array })
      → mulm (inverse a) a ≡ identity
  unfolding inverse
  mulm-inverse laws a pivots = mat-ext (mulm (inverse a) a) identity λ i j lt lt'.
      (mulm-mulv-sum (inverse a) a (record { x = num 0; y = num 0; z = num 0; w = num 0 }) i j lt
        lt').0
      ∙ (sum-ext 3 _ _ (λ k le.
            ap (λ t. t ⊗ at a k j)
              (of_array-at (inverse_array 4 (at a)).v i lt k (omega (arith, le))))
          ∙ (inverse_array-identity laws 3 (at a) pivots i j (omega (arith, lt))
                (omega (arith, lt'))
              ∙ sym (identity-at i lt j lt')))
