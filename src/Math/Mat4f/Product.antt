-- ===== src/Math/Mat4f/Product.antt =====
-- math/cc_mat4f.c: the products are those of linear algebra, and the transforms act as they should.
use libcc.Base.{ℕ, zero, suc, ◌<◌, ◌≡◌, refl, sym, ap, ◌∙◌, arith, true, false}
use libcc.Math.{Scalars, ◌⊕◌, ◌⊗◌}
use libcc.Math.Sum.{IsSemiring, sum, sum-ext, sum_assoc, add-zero, mul-one, mul-zero}
use libcc.Math.Vec.{Vec4f, vec4f}
use libcc.Math.Mat4f.{Mat4f, identity, transpose, mulm, mulv, muls, muls_copy}
use libcc.Math.Mat4f.Transforms.{translation, translate, scaling, scale}

module _ {F : Type 0} where
  abbrev pub pick : F → F → F → F → ℕ → F
  pick a b c d zero = a
  pick a b c d (suc zero) = b
  pick a b c d (suc (suc zero)) = c
  pick a b c d _ = d

  -- The entry of a row and a column, and the entry of a vector.
  abbrev pub at : Mat4f F → ℕ → ℕ → F
  at m r c =
      pick (pick m.m00 m.m01 m.m02 m.m03 c) (pick m.m10 m.m11 m.m12 m.m13 c)
        (pick m.m20 m.m21 m.m22 m.m23 c) (pick m.m30 m.m31 m.m32 m.m33 c) r

  abbrev pub entry : Vec4f F → ℕ → F
  entry v i = pick v.x v.y v.z v.w i

  pub mat-ext : (a b : Mat4f F) → ((i j : ℕ) → i < 4 → j < 4 → at a i j ≡ at b i j) → a ≡ b
  mat-ext a b h = λ d. record {
    m00 = h 0 0 (omega arith) (omega arith) d;
    m10 = h 1 0 (omega arith) (omega arith) d;
    m20 = h 2 0 (omega arith) (omega arith) d;
    m30 = h 3 0 (omega arith) (omega arith) d;
    m01 = h 0 1 (omega arith) (omega arith) d;
    m11 = h 1 1 (omega arith) (omega arith) d;
    m21 = h 2 1 (omega arith) (omega arith) d;
    m31 = h 3 1 (omega arith) (omega arith) d;
    m02 = h 0 2 (omega arith) (omega arith) d;
    m12 = h 1 2 (omega arith) (omega arith) d;
    m22 = h 2 2 (omega arith) (omega arith) d;
    m32 = h 3 2 (omega arith) (omega arith) d;
    m03 = h 0 3 (omega arith) (omega arith) d;
    m13 = h 1 3 (omega arith) (omega arith) d;
    m23 = h 2 3 (omega arith) (omega arith) d;
    m33 = h 3 3 (omega arith) (omega arith) d;
  }

  pub vec-ext : (v w : Vec4f F) → ((i : ℕ) → i < 4 → entry v i ≡ entry w i) → v ≡ w
  vec-ext v w h = λ d. record {
    x = h 0 (omega arith) d;
    y = h 1 (omega arith) d;
    z = h 2 (omega arith) d;
    w = h 3 (omega arith) d;
  }

pub all4 : (P : ℕ → Type 0) → P 0 → P 1 → P 2 → P 3 → (i : ℕ) → i < 4 → P i
all4 P p0 p1 p2 p3 zero lt = p0
all4 P p0 p1 p2 p3 (suc zero) lt = p1
all4 P p0 p1 p2 p3 (suc (suc zero)) lt = p2
all4 P p0 p1 p2 p3 (suc (suc (suc zero))) lt = p3
all4 P p0 p1 p2 p3 (suc (suc (suc (suc i)))) lt = absurd (omega arith)

module _ {F : Type 0} ⦃f : Scalars F⦄ where
  mulm_row :
      (a m : Mat4f F) (i : ℕ)
      → i < 4
      → (j : ℕ) → j < 4
      → at (mulm a m) i j ≡ sum 3 (λ k. at a i k ⊗ at m k j)
  unfolding mulm
  mulm_row a m =
      all4 (λ i. (j : ℕ) → j < 4 → at (mulm a m) i j ≡ sum 3 (λ k. at a i k ⊗ at m k j))
        (all4 _ refl refl refl refl) (all4 _ refl refl refl refl) (all4 _ refl refl refl refl)
        (all4 _ refl refl refl refl)

  mulv_row :
      (a : Mat4f F) (v : Vec4f F) (i : ℕ)
      → i < 4
      → entry (mulv a v) i ≡ sum 3 (λ k. at a i k ⊗ entry v k)
  unfolding mulv
  mulv_row a v =
      all4 (λ i. entry (mulv a v) i ≡ sum 3 (λ k. at a i k ⊗ entry v k)) refl refl refl refl

  -- Each entry of cc_mat4f_mulm_copy is the sum of the products of the row's and the column's entries,
  -- in the order of their indices, and each entry of cc_mat4f_mulv_copy that of the row's and the
  -- vector's. This needs no law of the scalars, so that it holds with rounding too.
  pub mulm-mulv-sum :
      (a m : Mat4f F) (v : Vec4f F) (i j : ℕ)
      → i < 4
      → j < 4
      → (at (mulm a m) i j ≡ sum 3 (λ k. at a i k ⊗ at m k j))
        × (entry (mulv a v) i ≡ sum 3 (λ k. at a i k ⊗ entry v k))
  mulm-mulv-sum a m v i j lt lt' = (mulm_row a m i lt j lt', mulv_row a v i lt)

  -- The entries of the transpose.
  transpose-at : (a : Mat4f F) (i : ℕ) → i < 4 → (j : ℕ) → j < 4 → at (transpose a) i j ≡ at a j i
  unfolding transpose
  transpose-at a =
      all4 (λ i. (j : ℕ) → j < 4 → at (transpose a) i j ≡ at a j i) (all4 _ refl refl refl refl)
        (all4 _ refl refl refl refl) (all4 _ refl refl refl refl) (all4 _ refl refl refl refl)

  ap2 : {a b c d : F} → a ≡ b → c ≡ d → a ⊗ c ≡ b ⊗ d
  ap2 p q = λ i. p i ⊗ q i

  transpose_involutive : (a : Mat4f F) → transpose (transpose a) ≡ a
  unfolding transpose
  transpose_involutive a = refl

  -- Where the multiplication commutes, as that of floating-point numbers does, the transpose of a
  -- product is the product of the transposes in the other order, the transpose of a transpose is the
  -- matrix again, and cc_mat4f_muls does to the matrix what cc_mat4f_muls_copy writes to the copy.
  pub transpose-mulm :
      ((x y : F) → x ⊗ y ≡ y ⊗ x)
      → (a m : Mat4f F) (s : F)
      → (transpose (mulm a m) ≡ mulm (transpose m) (transpose a))
        × (transpose (transpose a) ≡ a)
        × (muls a s ≡ muls_copy a s)
  unfolding muls muls_copy
  transpose-mulm comm a m s = (
    mat-ext (transpose (mulm a m)) (mulm (transpose m) (transpose a)) λ i j lt lt'.
        transpose-at (mulm a m) i lt j lt'
        ∙ (mulm_row a m j lt' i lt
            ∙ (sum-ext 3 _ _ (λ k le.
                  comm (at a j k) (at m k i)
                  ∙ sym (
                      ap2 (transpose-at m i lt k (omega (arith, le)))
                        (transpose-at a k (omega (arith, le)) j lt')))
                ∙ sym (mulm_row (transpose m) (transpose a) i lt j lt'))),
    transpose_involutive a,
    mat-ext (muls a s) (muls_copy a s) λ i j lt lt'.
        all4 (λ i. (j : ℕ) → j < 4 → at (muls a s) i j ≡ at (muls_copy a s) i j)
          (all4 _ (comm _ _) (comm _ _) (comm _ _) (comm _ _))
          (all4 _ (comm _ _) (comm _ _) (comm _ _) (comm _ _))
          (all4 _ (comm _ _) (comm _ _) (comm _ _) (comm _ _))
          (all4 _ (comm _ _) (comm _ _) (comm _ _) (comm _ _)) i lt j lt',
  )

  module _ (laws : IsSemiring F) where
    mulm-identity : (a : Mat4f F) → mulm a identity ≡ a
    unfolding mulm identity
    mulm-identity a = simp (mul-one laws, mul-zero laws, laws.zero-add, add-zero laws) refl

    identity-mulm : (a : Mat4f F) → mulm identity a ≡ a
    unfolding mulm identity
    identity-mulm a = simp (laws.one-mul, laws.zero-mul, laws.zero-add, add-zero laws) refl

    -- In exact arithmetic the product of two matrices acts on a vector as the second and then the
    -- first do, the product is associative, and the identity is neutral in it.
    pub mulv-mulm :
        (a m n : Mat4f F) (v : Vec4f F)
        → (mulv (mulm a m) v ≡ mulv a (mulv m v))
          × (mulm (mulm a m) n ≡ mulm a (mulm m n))
          × (mulm a identity ≡ a)
          × (mulm identity a ≡ a)
    mulv-mulm a m n v = (
      vec-ext (mulv (mulm a m) v) (mulv a (mulv m v)) λ i lt.
          mulv_row (mulm a m) v i lt
          ∙ (sum-ext 3 _ _
                (λ k le. ap (λ t. t ⊗ entry v k) (mulm_row a m i lt k (omega (arith, le))))
              ∙ (sum_assoc laws 3 (at a i) (at m) (entry v)
                  ∙ (sum-ext 3 _ _
                        (λ k le. ap (λ t. at a i k ⊗ t) (sym (mulv_row m v k (omega (arith, le)))))
                      ∙ sym (mulv_row a (mulv m v) i lt)))),
      mat-ext (mulm (mulm a m) n) (mulm a (mulm m n)) λ i j lt lt'.
          mulm_row (mulm a m) n i lt j lt'
          ∙ (sum-ext 3 _ _
                (λ k le. ap (λ t. t ⊗ at n k j) (mulm_row a m i lt k (omega (arith, le))))
              ∙ (sum_assoc laws 3 (at a i) (at m) (λ k. at n k j)
                  ∙ (sum-ext 3 _ _ (λ k le.
                        ap (λ t. at a i k ⊗ t) (sym (mulm_row m n k (omega (arith, le)) j lt')))
                      ∙ sym (mulm_row a (mulm m n) i lt j lt')))),
      mulm-identity a,
      identity-mulm a,
    )

    translation-mulv :
        (x y z : F) (v : Vec4f F)
        → mulv (translation x y z) v ≡ vec4f (v.x ⊕ x ⊗ v.w) (v.y ⊕ y ⊗ v.w) (v.z ⊕ z ⊗ v.w) v.w
    unfolding mulv
    translation-mulv x y z v = simp (laws.one-mul, laws.zero-mul, laws.zero-add, add-zero laws) refl

    scaling-mulv :
        (x y z : F) (v : Vec4f F) → mulv (scaling x y z) v ≡ vec4f (x ⊗ v.x) (y ⊗ v.y) (z ⊗ v.z) v.w
    unfolding mulv
    scaling-mulv x y z v = simp (laws.one-mul, laws.zero-mul, laws.zero-add, add-zero laws) refl

    -- In exact arithmetic the matrix of cc_mat4f_translate, without load, acts on a vector as the matrix
    -- does on the vector moved by the offset times its `w`, that of cc_mat4f_scale as the matrix does on
    -- the scaled vector; with load both forget the matrix.
    pub translate-scale-mulv :
        (self : Mat4f F) (x y z : F) (v : Vec4f F)
        → (mulv (translate self false x y z) v
            ≡ mulv self (vec4f (v.x ⊕ x ⊗ v.w) (v.y ⊕ y ⊗ v.w) (v.z ⊕ z ⊗ v.w) v.w))
          × (mulv (scale self false x y z) v ≡ mulv self (vec4f (x ⊗ v.x) (y ⊗ v.y) (z ⊗ v.z) v.w))
          × (mulv (translate self true x y z) v
              ≡ vec4f (v.x ⊕ x ⊗ v.w) (v.y ⊕ y ⊗ v.w) (v.z ⊕ z ⊗ v.w) v.w)
          × (mulv (scale self true x y z) v ≡ vec4f (x ⊗ v.x) (y ⊗ v.y) (z ⊗ v.z) v.w)
    unfolding translate scale
    translate-scale-mulv self x y z v = (
      (mulv-mulm self (translation x y z) self v).0 ∙ ap (mulv self) (translation-mulv x y z v),
      (mulv-mulm self (scaling x y z) self v).0 ∙ ap (mulv self) (scaling-mulv x y z v),
      translation-mulv x y z v,
      scaling-mulv x y z v,
    )
