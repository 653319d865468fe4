-- ===== src/Math/Mat3f.antt =====
-- math/cc_mat3f.h and math/cc_mat3f.c: matrices of three rows and columns, as those of four.
use libcc.Base.{ℕ, zero, suc, ◌<◌, ◌≡◌, refl, sym, ap, ◌∙◌, arith}
use libcc.Math.{Scalars, ◌⊕◌, ◌⊗◌, num}
use libcc.Math.Sum.{sum, sum-ext}
use libcc.Math.Vec.{Vec3f}
use libcc.Math.Gauss.{Array, HasPivots, identity_array, inverse_array}
use libcc.Math.Gauss.Rows.{IsField}
use libcc.Math.Gauss.Inverse.{inverse_array-identity}
use libcc.Math.Mat4f.{Mat4f}

-- cc_mat3f_t
pub record Mat3f (F : Type 0) : Type 0 where
  pub m00 : F
  pub m10 : F
  pub m20 : F
  pub m01 : F
  pub m11 : F
  pub m21 : F
  pub m02 : F
  pub m12 : F
  pub m22 : F

abbrev pub mat3f : {F : Type 0} → F → F → F → F → F → F → F → F → F → Mat3f F
mat3f m00 m10 m20 m01 m11 m21 m02 m12 m22 = record {
  m00 = m00;
  m10 = m10;
  m20 = m20;
  m01 = m01;
  m11 = m11;
  m21 = m21;
  m02 = m02;
  m12 = m12;
  m22 = m22;
}

module _ {F : Type 0} where
  -- The entry of a row and a column.
  abbrev pub pick : F → F → F → ℕ → F
  pick a b c zero = a
  pick a b c (suc zero) = b
  pick a b c _ = c

  abbrev pub at : Mat3f F → ℕ → ℕ → F
  at m r c = pick (pick m.m00 m.m01 m.m02 c) (pick m.m10 m.m11 m.m12 c) (pick m.m20 m.m21 m.m22 c) r

  abbrev pub of_array : Array F → Mat3f F
  of_array v = mat3f (v 0 0) (v 1 0) (v 2 0) (v 0 1) (v 1 1) (v 2 1) (v 0 2) (v 1 2) (v 2 2)

  mat-ext : (a b : Mat3f F) → ((i j : ℕ) → i < 3 → j < 3 → at a i j ≡ at b i j) → a ≡ b
  mat-ext a b h = λ d. record {
    m00 = h 0 0 (omega arith) (omega arith) d;
    m10 = h 1 0 (omega arith) (omega arith) d;
    m20 = h 2 0 (omega arith) (omega arith) d;
    m01 = h 0 1 (omega arith) (omega arith) d;
    m11 = h 1 1 (omega arith) (omega arith) d;
    m21 = h 2 1 (omega arith) (omega arith) d;
    m02 = h 0 2 (omega arith) (omega arith) d;
    m12 = h 1 2 (omega arith) (omega arith) d;
    m22 = h 2 2 (omega arith) (omega arith) d;
  }

all3 : (P : ℕ → Type 0) → P 0 → P 1 → P 2 → (i : ℕ) → i < 3 → P i
all3 P p0 p1 p2 zero lt = p0
all3 P p0 p1 p2 (suc zero) lt = p1
all3 P p0 p1 p2 (suc (suc zero)) lt = p2
all3 P p0 p1 p2 (suc (suc (suc i))) lt = absurd (omega arith)

row3 :
    (P : ℕ → ℕ → Type 0)
    → P 0 0
    → P 0 1
    → P 0 2
    → P 1 0
    → P 1 1
    → P 1 2
    → P 2 0
    → P 2 1
    → P 2 2
    → (i : ℕ) → i < 3
    → (j : ℕ) → j < 3
    → P i j
row3 P p00 p01 p02 p10 p11 p12 p20 p21 p22 =
    all3 (λ i. (j : ℕ) → j < 3 → P i j) (all3 (P 0) p00 p01 p02) (all3 (P 1) p10 p11 p12)
      (all3 (P 2) p20 p21 p22)

module _ {F : Type 0} ⦃f : Scalars F⦄ where
  unfoldable pub identity : Mat3f F
  identity = record {
    m00 = (num 1);
    m01 = (num 0);
    m02 = (num 0);
    m10 = (num 0);
    m11 = (num 1);
    m12 = (num 0);
    m20 = (num 0);
    m21 = (num 0);
    m22 = (num 1);
  }

  unfoldable pub transpose : Mat3f F → Mat3f F
  transpose self = record {
    m00 = self.m00;
    m01 = self.m10;
    m02 = self.m20;
    m10 = self.m01;
    m11 = self.m11;
    m12 = self.m21;
    m20 = self.m02;
    m21 = self.m12;
    m22 = self.m22;
  }

  unfoldable pub mulm : Mat3f F → Mat3f F → Mat3f F
  mulm a m = record {
    m00 = a.m00 ⊗ m.m00 ⊕ a.m01 ⊗ m.m10 ⊕ a.m02 ⊗ m.m20;
    m01 = a.m00 ⊗ m.m01 ⊕ a.m01 ⊗ m.m11 ⊕ a.m02 ⊗ m.m21;
    m02 = a.m00 ⊗ m.m02 ⊕ a.m01 ⊗ m.m12 ⊕ a.m02 ⊗ m.m22;
    m10 = a.m10 ⊗ m.m00 ⊕ a.m11 ⊗ m.m10 ⊕ a.m12 ⊗ m.m20;
    m11 = a.m10 ⊗ m.m01 ⊕ a.m11 ⊗ m.m11 ⊕ a.m12 ⊗ m.m21;
    m12 = a.m10 ⊗ m.m02 ⊕ a.m11 ⊗ m.m12 ⊕ a.m12 ⊗ m.m22;
    m20 = a.m20 ⊗ m.m00 ⊕ a.m21 ⊗ m.m10 ⊕ a.m22 ⊗ m.m20;
    m21 = a.m20 ⊗ m.m01 ⊕ a.m21 ⊗ m.m11 ⊕ a.m22 ⊗ m.m21;
    m22 = a.m20 ⊗ m.m02 ⊕ a.m21 ⊗ m.m12 ⊕ a.m22 ⊗ m.m22;
  }

  unfoldable pub mulv : Mat3f F → Vec3f F → Vec3f F
  mulv a v = record {
    x = a.m00 ⊗ v.x ⊕ a.m01 ⊗ v.y ⊕ a.m02 ⊗ v.z;
    y = a.m10 ⊗ v.x ⊕ a.m11 ⊗ v.y ⊕ a.m12 ⊗ v.z;
    z = a.m20 ⊗ v.x ⊕ a.m21 ⊗ v.y ⊕ a.m22 ⊗ v.z;
  }

  unfoldable pub muls : Mat3f F → F → Mat3f F
  muls self s = record {
    m00 = self.m00 ⊗ s;
    m01 = self.m01 ⊗ s;
    m02 = self.m02 ⊗ s;
    m10 = self.m10 ⊗ s;
    m11 = self.m11 ⊗ s;
    m12 = self.m12 ⊗ s;
    m20 = self.m20 ⊗ s;
    m21 = self.m21 ⊗ s;
    m22 = self.m22 ⊗ s;
  }

  unfoldable pub muls_copy : Mat3f F → F → Mat3f F
  muls_copy self s = record {
    m00 = s ⊗ self.m00;
    m01 = s ⊗ self.m01;
    m02 = s ⊗ self.m02;
    m10 = s ⊗ self.m10;
    m11 = s ⊗ self.m11;
    m12 = s ⊗ self.m12;
    m20 = s ⊗ self.m20;
    m21 = s ⊗ self.m21;
    m22 = s ⊗ self.m22;
  }

  unfoldable pub inverse : Mat3f F → Mat3f F
  inverse self = of_array (inverse_array 3 (at self)).v

  -- cc_mat4f_normalmatrix
  unfoldable pub normalmatrix : Mat4f F → Mat3f F
  normalmatrix self = transpose (
      inverse (record {
        m00 = self.m00;
        m10 = self.m10;
        m20 = self.m20;
        m01 = self.m01;
        m11 = self.m11;
        m21 = self.m21;
        m02 = self.m02;
        m12 = self.m12;
        m22 = self.m22;
      }))

  mulm-sum :
      (a m : Mat3f F) (i : ℕ)
      → i < 3
      → (j : ℕ) → j < 3
      → at (mulm a m) i j ≡ sum 2 (λ k. at a i k ⊗ at m k j)
  unfolding mulm
  mulm-sum a m =
      row3 (λ i j. at (mulm a m) i j ≡ sum 2 (λ k. at a i k ⊗ at m k j)) refl refl refl refl refl
        refl refl refl refl

  identity-at : (i : ℕ) → i < 3 → (j : ℕ) → j < 3 → at identity i j ≡ identity_array i j
  unfolding identity
  identity-at =
      row3 (λ i j. at identity i j ≡ identity_array i j) refl refl refl refl refl refl refl refl
        refl

  of_array-at : (v : Array F) (i : ℕ) → i < 3 → (j : ℕ) → j < 3 → at (of_array v) i j ≡ v i j
  of_array-at v =
      row3 (λ i j. at (of_array v) i j ≡ v i j) refl refl refl refl refl refl refl refl refl

  -- In exact arithmetic, where no pivotal entry of the elimination is zero, the matrix of
  -- cc_mat3f_inverse_copy, multiplied with the matrix, is the identity.
  pub mat3f_mulm-inverse :
      IsField F
      → (a : Mat3f F) → HasPivots 3 3 0 (record { a = at a; v = identity_array })
      → mulm (inverse a) a ≡ identity
  unfolding inverse
  mat3f_mulm-inverse laws a pivots = mat-ext (mulm (inverse a) a) identity λ i j lt lt'.
      mulm-sum (inverse a) a i lt j lt'
      ∙ (sum-ext 2 _ _ (λ k le.
            ap (λ t. t ⊗ at a k j)
              (of_array-at (inverse_array 3 (at a)).v i lt k (omega (arith, le))))
          ∙ (inverse_array-identity laws 2 (at a) pivots i j (omega (arith, lt))
                (omega (arith, lt'))
              ∙ sym (identity-at i lt j lt')))
