-- ===== src/Math/Gauss/Forward.antt =====
-- math/cc_mat4f.c and math/cc_mat3f.c: the first loop of the elimination, which makes the array upper
-- triangular with ones on the diagonal.
use libcc.Base.{
  ℕ, zero, suc, ◌+◌, ◌-◌, ◌≤◌, ◌<◌, ◌≡◌, ◌≢◌, refl, sym, ap, subst, ◌∙◌, arith, ◌==◌, ltb, ◌⊎◌, inl,
  inr, Bool-cases, ==→≡, ne→==,
}
use libcc.Math.{Scalars, ◌⊖◌, ◌⊗◌, ◌⊘◌, num}
use libcc.Math.Sum.{mul-zero}
use libcc.Math.Gauss.{
  Array, Augmented, swap_rows, sub_row, mul_row, find_pivot, exchange, exchanged, clear_row,
  clear_below, normalize_row, pivot_step, forward, HasPivots,
}
use libcc.Math.Gauss.Rows.{
  IsField, ne, sub_row-from, sub_row-before, sub_row-other, mul_row-from, mul_row-before,
  mul_row-other, set_entry_here, set_entry-column, set_entry-row, find_pivot_bounds, IsSolved,
  sub_row-IsSolved, mul_row-IsSolved, exchange-IsSolved,
}

pub order_cases : (a b : ℕ) → (a < b) ⊎ ((a ≡ b) ⊎ (b < a))
order_cases a b = elim (Bool-cases (ltb a b)) [
  | inl e ↦ inl (ground arith)
  | inr e ↦ elim (Bool-cases (a == b)) [
    | inl e' ↦ inr (inl (==→≡ a b e'))
    | inr e' ↦ inr (inr (ground arith))
  ]
]

module _ {F : Type 0} ⦃f : Scalars F⦄ (laws : IsField F) (last : ℕ) (m0 : Array F) where
  -- In columns before `j`: zeros below the diagonal, and ones on it.
  abbrev pub IsLower : ℕ → Array F → Type 0
  IsLower j a = (r c : ℕ) → r ≤ last → c < j → c < r → a r c ≡ num 0

  abbrev pub HasOnes : ℕ → Array F → Type 0
  HasOnes j a = (c : ℕ) → c < j → a c c ≡ num 1

  abbrev pub IsReduced : ℕ → Augmented F → Type 0
  IsReduced j m = IsSolved laws last m0 m × (IsLower j m.a × HasOnes j m.a)

  -- In column `j`: zeros below the diagonal, in rows before `i`.
  abbrev IsCleared : ℕ → ℕ → Array F → Type 0
  IsCleared j i a = (r : ℕ) → j < r → r < i → a r j ≡ num 0

  swap_rows-IsLower :
      (j l : ℕ) (a : Array F) → j ≤ l → l ≤ last → IsLower j a → IsLower j (swap_rows j l a)
  unfolding swap_rows
  swap_rows-IsLower j l a le l_le lower r c r_le lt c_lt = elim (Bool-cases (r == j)) [
    | inl e ↦ rw e (lower l c l_le lt (omega (arith, lt, le)))
    | inr e ↦ elim (Bool-cases (r == l)) [
      | inl e' ↦ rw (e, e') (lower j c (omega (arith, le, l_le)) lt lt)
      | inr e' ↦ rw (e, e') (lower r c r_le lt c_lt)
    ]
  ]

  swap_rows-HasOnes : (j l : ℕ) (a : Array F) → j ≤ l → HasOnes j a → HasOnes j (swap_rows j l a)
  unfolding swap_rows
  swap_rows-HasOnes j l a le ones c lt =
      rw
        (
          ne→== c j (λ e. absurd (omega (arith, e, lt))),
          ne→== c l (λ e. absurd (omega (arith, e, lt, le))),
        )
        (ones c lt)

  exchanged-IsReduced :
      (j : ℕ) (m : Augmented F) → j ≤ last → IsReduced j m → IsReduced j (exchanged (suc last) j m)
  unfolding exchanged exchange
  exchanged-IsReduced j m le red =
      let l = find_pivot m.a j (suc last - (j + 1)) (j + 1) j in
      let bounds =
        find_pivot_bounds m.a j (suc last - (j + 1)) (j + 1) j j (omega arith) (omega arith)
          (omega arith) in
      (
        exchange-IsSolved laws last m0 m j l le (omega (arith, bounds.1, le)) red.0,
        elim (Bool-cases (l == j)) [
          | inl e ↦ rw e red.1
          | inr e ↦ rw e (
            swap_rows-IsLower j l m.a bounds.0 (omega (arith, bounds.1, le)) red.1.0,
            swap_rows-HasOnes j l m.a bounds.0 red.1.1,
          )
        ],
      )

  -- Row `i` of the array after a step is that of the row operation, also in the columns up to `j`.
  clear_row-row :
      (i j : ℕ) (m : Augmented F) (k : ℕ)
      → j < i
      → i ≤ last
      → m.a j j ≢ num 0
      → IsLower j m.a
      → (clear_row i j m).a i k ≡ m.a i k ⊖ (m.a i j ⊘ m.a j j) ⊗ m.a j k
  unfolding clear_row
  clear_row-row i j m k lt le pivot lower = elim (order_cases k j) [
    | inl before ↦
        set_entry-column i j (num 0) _ i k (λ e. absurd (omega (arith, e, before)))
        ∙ (sub_row-before _ i j (j + 1) m.a k (omega (arith, before))
            ∙ sym (
                ap (λ t. m.a i k ⊖ (m.a i j ⊘ m.a j j) ⊗ t)
                  (lower j k (omega (arith, lt, le)) before before)
                ∙ (ap (λ t. m.a i k ⊖ t) (mul-zero laws.semiring _) ∙ laws.sub-zero (m.a i k))))
    | inr (inl here) ↦
        subst (λ k. (clear_row i j m).a i k ≡ m.a i k ⊖ (m.a i j ⊘ m.a j j) ⊗ m.a j k) (sym here)
          (set_entry_here i j (num 0) _
            ∙ sym (
                ap (λ t. m.a i j ⊖ t) (laws.div-mul (m.a i j) (m.a j j) pivot)
                ∙ laws.sub-self (m.a i j)))
    | inr (inr behind) ↦
        set_entry-column i j (num 0) _ i k (λ e. absurd (omega (arith, e, behind)))
        ∙ sub_row-from _ i j (j + 1) m.a k (omega (arith, behind))
  ]

  clear_row-other :
      (i j : ℕ) (m : Augmented F) (r k : ℕ) → r ≢ i → (clear_row i j m).a r k ≡ m.a r k
  unfolding clear_row
  clear_row-other i j m r k ne =
      set_entry-row i j (num 0) _ r k ne ∙ sub_row-other _ i j (j + 1) m.a r k ne

  clear_row-before :
      (i j : ℕ) (m : Augmented F) (r k : ℕ) → k < j → (clear_row i j m).a r k ≡ m.a r k
  unfolding clear_row
  clear_row-before i j m r k lt =
      set_entry-column i j (num 0) _ r k (λ e. absurd (omega (arith, e, lt)))
      ∙ elim (Bool-cases (r == i)) [
        | inl e ↦
            subst (λ r. sub_row (m.a i j ⊘ m.a j j) i j (j + 1) m.a r k ≡ m.a r k)
              (sym (==→≡ r i e)) (sub_row-before _ i j (j + 1) m.a k (omega (arith, lt)))
        | inr e ↦ sub_row-other _ i j (j + 1) m.a r k (ne r i e)
      ]

  clear_row-IsReduced :
      (i j : ℕ) (m : Augmented F)
      → j < i
      → i ≤ last
      → m.a j j ≢ num 0
      → IsReduced j m
      → IsReduced j (clear_row i j m)
  unfolding clear_row
  clear_row-IsReduced i j m lt le pivot red = (
    sub_row-IsSolved laws last m0 m (clear_row i j m).a (m.a i j ⊘ m.a j j) i j le
        (omega (arith, lt, le)) (λ r k r_ne. clear_row-other i j m r k r_ne)
        (λ k k_le. clear_row-row i j m k lt le pivot red.1.0) red.0,
    (
      λ r c r_le c_lt c_lt'. clear_row-before i j m r c c_lt ∙ red.1.0 r c r_le c_lt c_lt',
      λ c c_lt. clear_row-before i j m c c c_lt ∙ red.1.1 c c_lt,
    ),
  )

  clear_row-IsCleared :
      (i j : ℕ) (m : Augmented F)
      → j < i
      → i ≤ last
      → IsCleared j i m.a
      → IsCleared j (i + 1) (clear_row i j m).a
  unfolding clear_row
  clear_row-IsCleared i j m lt le cleared r r_gt r_lt = elim (Bool-cases (r == i)) [
    | inl e ↦
        subst (λ r. (clear_row i j m).a r j ≡ num 0) (sym (==→≡ r i e))
          (set_entry_here i j (num 0) _)
    | inr e ↦ clear_row-other i j m r j (ne r i e) ∙ cleared r r_gt (below (ne r i e) r_lt)
  ]
    where
      below : {r i : ℕ} → r ≢ i → r < i + 1 → r < i
      below r_ne r_lt' = ground arith

  -- What the loop for the zeros below the pivotal entry leaves.
  clear_below-IsReduced :
      (j count i : ℕ) (m : Augmented F)
      → j < i
      → i + count ≡ last + 1
      → m.a j j ≢ num 0
      → IsReduced j m
      → IsCleared j i m.a
      → IsReduced j (clear_below j count i m)
        × IsCleared j (last + 1) (clear_below j count i m).a
        × ((clear_below j count i m).a j j ≡ m.a j j)
  unfolding clear_below
  clear_below-IsReduced j zero i m lt e pivot red cleared =
      (red, (λ r r_gt r_lt. cleared r r_gt (omega (arith, e, r_lt))), refl)
  clear_below-IsReduced j (suc count) i m lt e pivot red cleared =
      let same = clear_row-other i j m j j (λ p. absurd (omega (arith, p, lt))) in
      let le : i ≤ last = omega (arith, e) in
      let rest =
        clear_below-IsReduced j count (i + 1) (clear_row i j m) (omega (arith, lt))
          (omega (arith, e)) (λ p. pivot (sym same ∙ p)) (clear_row-IsReduced i j m lt le pivot red)
          (clear_row-IsCleared i j m lt le cleared) in
      (rest.0, rest.1, rest.2 ∙ same)

  normalize_row-row :
      (j : ℕ) (m : Augmented F) (k : ℕ)
      → j ≤ last
      → m.a j j ≢ num 0
      → IsLower j m.a
      → (normalize_row j m).a j k ≡ m.a j k ⊗ (num 1 ⊘ m.a j j)
  unfolding normalize_row
  normalize_row-row j m k le pivot lower = elim (order_cases k j) [
    | inl before ↦
        set_entry-column j j (num 1) _ j k (λ e. absurd (omega (arith, e, before)))
        ∙ (mul_row-before _ j (j + 1) m.a k (omega (arith, before))
            ∙ (lower j k le before before
                ∙ sym (
                    ap (λ t. t ⊗ (num 1 ⊘ m.a j j)) (lower j k le before before)
                    ∙ laws.semiring.zero-mul _)))
    | inr (inl here) ↦
        subst (λ k. (normalize_row j m).a j k ≡ m.a j k ⊗ (num 1 ⊘ m.a j j)) (sym here)
          (set_entry_here j j (num 1) _
            ∙ sym (
                laws.semiring.mul_comm (m.a j j) (num 1 ⊘ m.a j j)
                ∙ laws.div-mul (num 1) (m.a j j) pivot))
    | inr (inr behind) ↦
        set_entry-column j j (num 1) _ j k (λ e. absurd (omega (arith, e, behind)))
        ∙ mul_row-from _ j (j + 1) m.a k (omega (arith, behind))
  ]

  normalize_row-other :
      (j : ℕ) (m : Augmented F) (r k : ℕ) → r ≢ j → (normalize_row j m).a r k ≡ m.a r k
  unfolding normalize_row
  normalize_row-other j m r k r_ne =
      set_entry-row j j (num 1) _ r k r_ne ∙ mul_row-other _ j (j + 1) m.a r k r_ne

  normalize_row-before :
      (j : ℕ) (m : Augmented F) (r k : ℕ) → k < j → (normalize_row j m).a r k ≡ m.a r k
  unfolding normalize_row
  normalize_row-before j m r k lt =
      set_entry-column j j (num 1) _ r k (λ e. absurd (omega (arith, e, lt)))
      ∙ elim (Bool-cases (r == j)) [
        | inl e ↦
            subst (λ r. mul_row (num 1 ⊘ m.a j j) j (j + 1) m.a r k ≡ m.a r k) (sym (==→≡ r j e))
              (mul_row-before _ j (j + 1) m.a k (omega (arith, lt)))
        | inr e ↦ mul_row-other _ j (j + 1) m.a r k (ne r j e)
      ]

  normalize_row-IsReduced :
      (j : ℕ) (m : Augmented F)
      → j ≤ last
      → m.a j j ≢ num 0
      → IsReduced j m
      → IsCleared j (last + 1) m.a
      → IsReduced (j + 1) (normalize_row j m)
  unfolding normalize_row
  normalize_row-IsReduced j m le pivot red cleared = (
    mul_row-IsSolved laws last m0 m (normalize_row j m).a (num 1 ⊘ m.a j j) j le
        (λ r k r_ne. normalize_row-other j m r k r_ne)
        (λ k k_le. normalize_row-row j m k le pivot red.1.0) red.0,
    (
      λ r c r_le c_lt c_lt'. elim (order_cases c j) [
        | inl before ↦ normalize_row-before j m r c before ∙ red.1.0 r c r_le before c_lt'
        | inr (inl here) ↦
            subst (λ c. c < r → (normalize_row j m).a r c ≡ num 0) (sym here)
              (λ j_lt.
                normalize_row-other j m r j (λ e. absurd (omega (arith, e, j_lt)))
                ∙ cleared r j_lt (omega (arith, r_le)))
              c_lt'
        | inr (inr behind) ↦ absurd (omega (arith, behind, c_lt))
      ],
      λ c c_lt. elim (order_cases c j) [
        | inl before ↦ normalize_row-before j m c c before ∙ red.1.1 c before
        | inr (inl here) ↦
            subst (λ c. (normalize_row j m).a c c ≡ num 1) (sym here) (set_entry_here j j (num 1) _)
        | inr (inr behind) ↦ absurd (omega (arith, behind, c_lt))
      ],
    ),
  )

  pivot_step-IsReduced :
      (j : ℕ) (m : Augmented F)
      → j ≤ last
      → (exchanged (suc last) j m).a j j ≢ num 0
      → IsReduced j m
      → IsReduced (j + 1) (pivot_step (suc last) j m)
  unfolding pivot_step
  pivot_step-IsReduced j m le pivot red =
      let m' = exchanged (suc last) j m in
      let below =
        clear_below-IsReduced j (suc last - (j + 1)) (j + 1) m' (omega arith) (omega (arith, le))
          pivot (exchanged-IsReduced j m le red)
          (λ r r_gt r_lt. absurd (omega (arith, r_gt, r_lt))) in
      normalize_row-IsReduced j _ le (λ p. pivot (sym below.2 ∙ p)) below.0 below.1

  -- The first loop, from column `j` on.
  pub forward-IsReduced :
      (count j : ℕ) (m : Augmented F)
      → j + count ≡ suc last
      → HasPivots (suc last) count j m
      → IsReduced j m
      → IsReduced (suc last) (forward (suc last) count j m)
  unfolding forward
  forward-IsReduced zero j m e pivots red = subst (λ j. IsReduced j m) (omega (arith, e)) red
  forward-IsReduced (suc count) j m e pivots red =
      forward-IsReduced count (j + 1) (pivot_step (suc last) j m) (omega (arith, e)) pivots.1
        (pivot_step-IsReduced j m (omega (arith, e)) pivots.0 red)
