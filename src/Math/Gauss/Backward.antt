-- ===== src/Math/Gauss/Backward.antt =====
-- math/cc_mat4f.c and math/cc_mat3f.c: the second loop of the elimination, which makes the array the
-- identity, and what the other array then is.
use libcc.Base.{
  ℕ, zero, suc, ◌≤◌, ◌<◌, ◌≡◌, ◌≢◌, sym, ap, subst, ◌∙◌, arith, ◌==◌, inl, inr, Bool-cases, ==→≡,
}
use libcc.Math.{Scalars, ◌⊖◌, ◌⊗◌, num}
use libcc.Math.Sum.{mul-zero, mul-one}
use libcc.Math.Gauss.{Array, Augmented, sub_row, clear_above_row, clear_above, backward}
use libcc.Math.Gauss.Rows.{
  IsField, ne, sub_row-from, sub_row-before, sub_row-other, sub_row-IsSolved,
}
use libcc.Math.Gauss.Forward.{order_cases, IsLower, IsReduced}

module _ {F : Type 0} ⦃f : Scalars F⦄ (laws : IsField F) (last : ℕ) (m0 : Array F) where
  -- Zeros above the diagonal in columns behind `j`.
  abbrev pub IsUpper : ℕ → Array F → Type 0
  IsUpper j a = (r c : ℕ) → c ≤ last → j < c → r < c → a r c ≡ num 0

  abbrev pub IsDiagonal : ℕ → Augmented F → Type 0
  IsDiagonal j m = IsReduced laws last m0 (suc last) m × IsUpper j m.a

  -- In column `j`: zeros above the diagonal, in rows from `i` on.
  abbrev IsCleared : ℕ → ℕ → Array F → Type 0
  IsCleared j i a = (r : ℕ) → i ≤ r → r < j → a r j ≡ num 0

  clear_above_row-row :
      (i j : ℕ) (m : Augmented F) (k : ℕ)
      → j ≤ last
      → IsLower laws last m0 (suc last) m.a
      → (clear_above_row i j m).a i k ≡ m.a i k ⊖ m.a i j ⊗ m.a j k
  unfolding clear_above_row
  clear_above_row-row i j m k le lower = elim (order_cases k j) [
    | inl before ↦
        sub_row-before (m.a i j) i j j m.a k before
        ∙ sym (
            ap (λ t. m.a i k ⊖ m.a i j ⊗ t) (lower j k le (omega (arith, before, le)) before)
            ∙ (ap (λ t. m.a i k ⊖ t) (mul-zero laws.semiring (m.a i j)) ∙ laws.sub-zero (m.a i k)))
    | inr (inl here) ↦ sub_row-from (m.a i j) i j j m.a k (omega (arith, here))
    | inr (inr behind) ↦ sub_row-from (m.a i j) i j j m.a k (omega (arith, behind))
  ]

  clear_above_row-other :
      (i j : ℕ) (m : Augmented F) (r k : ℕ) → r ≢ i → (clear_above_row i j m).a r k ≡ m.a r k
  unfolding clear_above_row
  clear_above_row-other i j m r k r_ne = sub_row-other (m.a i j) i j j m.a r k r_ne

  clear_above_row-before :
      (i j : ℕ) (m : Augmented F) (r k : ℕ) → k < j → (clear_above_row i j m).a r k ≡ m.a r k
  unfolding clear_above_row
  clear_above_row-before i j m r k lt = elim (Bool-cases (r == i)) [
    | inl e ↦
        subst (λ r. sub_row (m.a i j) i j j m.a r k ≡ m.a r k) (sym (==→≡ r i e))
          (sub_row-before (m.a i j) i j j m.a k lt)
    | inr e ↦ sub_row-other (m.a i j) i j j m.a r k (ne r i e)
  ]

  -- The entries of the row in a column whose entry in row `j` is zero, or is one.
  clear_above_row-zero :
      (i j : ℕ) (m : Augmented F) (k : ℕ)
      → j ≤ last
      → IsLower laws last m0 (suc last) m.a
      → m.a j k ≡ num 0
      → (clear_above_row i j m).a i k ≡ m.a i k
  clear_above_row-zero i j m k le lower z =
      clear_above_row-row i j m k le lower
      ∙ (ap (λ t. m.a i k ⊖ m.a i j ⊗ t) z
          ∙ (ap (λ t. m.a i k ⊖ t) (mul-zero laws.semiring (m.a i j)) ∙ laws.sub-zero (m.a i k)))

  clear_above_row_one :
      (i j : ℕ) (m : Augmented F)
      → j ≤ last
      → IsLower laws last m0 (suc last) m.a
      → m.a j j ≡ num 1
      → (clear_above_row i j m).a i j ≡ num 0
  clear_above_row_one i j m le lower one =
      clear_above_row-row i j m j le lower
      ∙ (ap (λ t. m.a i j ⊖ m.a i j ⊗ t) one
          ∙ (ap (λ t. m.a i j ⊖ t) (mul-one laws.semiring (m.a i j)) ∙ laws.sub-self (m.a i j)))

  clear_above_row-IsDiagonal :
      (i j : ℕ) (m : Augmented F)
      → i < j
      → j ≤ last
      → IsDiagonal j m
      → IsDiagonal j (clear_above_row i j m)
  unfolding clear_above_row
  clear_above_row-IsDiagonal i j m lt le d =
      let lower = d.0.1.0 in
      let same : (r c : ℕ) → (r ≡ i → m.a j c ≡ num 0) → (clear_above_row i j m).a r c ≡ m.a r c =
        λ r c z. elim (Bool-cases (r == i)) [
          | inl e ↦
              subst (λ r. (clear_above_row i j m).a r c ≡ m.a r c) (sym (==→≡ r i e))
                (clear_above_row-zero i j m c le lower (z (==→≡ r i e)))
          | inr e ↦ clear_above_row-other i j m r c (ne r i e)
        ] in
      (
        (
          sub_row-IsSolved laws last m0 m (clear_above_row i j m).a (m.a i j) i j
              (omega (arith, lt, le)) le (λ r k r_ne. clear_above_row-other i j m r k r_ne)
              (λ k k_le. clear_above_row-row i j m k le lower) d.0.0,
          (
            λ r c r_le c_lt c_lt'.
                same r c (λ e. lower j c le c_lt (omega (arith, e, lt, c_lt')))
                ∙ lower r c r_le c_lt c_lt',
            λ c c_lt. same c c (λ e. lower j c le c_lt (omega (arith, e, lt))) ∙ d.0.1.1 c c_lt,
          ),
        ),
        λ r c c_le j_lt r_lt. same r c (λ e. d.1 j c c_le j_lt j_lt) ∙ d.1 r c c_le j_lt r_lt,
      )

  clear_above_row-IsCleared :
      (i j : ℕ) (m : Augmented F)
      → i < j
      → j ≤ last
      → IsDiagonal j m
      → IsCleared j (suc i) m.a
      → IsCleared j i (clear_above_row i j m).a
  clear_above_row-IsCleared i j m lt le d cleared r r_ge r_lt = elim (Bool-cases (r == i)) [
    | inl e ↦
        subst (λ r. (clear_above_row i j m).a r j ≡ num 0) (sym (==→≡ r i e))
          (clear_above_row_one i j m le d.0.1.0 (d.0.1.1 j (omega (arith, le))))
    | inr e ↦ clear_above_row-other i j m r j (ne r i e) ∙ cleared r (above (ne r i e) r_ge) r_lt
  ]
    where
      above : {r i : ℕ} → r ≢ i → i ≤ r → suc i ≤ r
      above r_ne r_ge' = ground arith

  clear_above-IsDiagonal :
      (j i : ℕ) (m : Augmented F)
      → i ≤ j
      → j ≤ last
      → IsDiagonal j m
      → IsCleared j i m.a
      → IsDiagonal j (clear_above j i m) × IsCleared j 0 (clear_above j i m).a
  unfolding clear_above
  clear_above-IsDiagonal j zero m i_le le d cleared = (d, cleared)
  clear_above-IsDiagonal j (suc i) m i_le le d cleared =
      clear_above-IsDiagonal j i (clear_above_row i j m) (omega (arith, i_le)) le
        (clear_above_row-IsDiagonal i j m (omega (arith, i_le)) le d)
        (clear_above_row-IsCleared i j m (omega (arith, i_le)) le d cleared)

  pub backward-IsDiagonal :
      (j : ℕ) (m : Augmented F) → j ≤ last → IsDiagonal j m → IsDiagonal 0 (backward j m)
  unfolding backward
  backward-IsDiagonal zero m le d = d
  backward-IsDiagonal (suc j) m le d =
      let next =
        clear_above-IsDiagonal (suc j) (suc j) m (omega arith) le d
          (λ r r_ge r_lt. absurd (omega (arith, r_ge, r_lt))) in
      backward-IsDiagonal j (clear_above (suc j) (suc j) m) (omega (arith, le)) (
        next.0.0,
        λ r c c_le j_lt r_lt. elim (order_cases (suc j) c) [
          | inl behind ↦ next.0.1 r c c_le behind r_lt
          | inr (inl here) ↦
              subst (λ c. r < c → (clear_above (suc j) (suc j) m).a r c ≡ num 0) here
                (λ lt. next.1 r (omega arith) lt) r_lt
          | inr (inr before) ↦ absurd (omega (arith, before, j_lt))
        ],
      )
