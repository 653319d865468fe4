-- ===== src/Math/Gauss/Rows.antt =====
-- math/cc_mat4f.c and math/cc_mat3f.c: what the row operations of the elimination do to each entry, and
-- what they keep: the rows of one array are those of the other, multiplied with the matrix.
use libcc.Base.{
  ℕ, zero, suc, ◌+◌, ◌≤◌, ◌<◌, ◌≡◌, ◌≢◌, refl, sym, ap, subst, ◌∙◌, arith, true, false, ◌==◌, leb,
  inl, inr, Bool-cases, ==→≡, ==_refl, ne→==,
}
use libcc.Math.{Scalars, ◌⊕◌, ◌⊖◌, ◌⊗◌, ◌⊘◌, num}
use libcc.Math.Sum.{IsSemiring, sum, sum-ext, sum-mul, mul-sum}
use libcc.Math.Gauss.{
  Array, Augmented, swap_rows, sub_row, mul_row, set_entry, find_pivot, exchange,
}

-- Exact arithmetic with subtraction and division.
pub record IsField (F : Type 0) ⦃f : Scalars F⦄ : Type 0 where
  pub semiring : IsSemiring F
  pub sub-self : (a : F) → a ⊖ a ≡ num 0
  pub sub-zero : (a : F) → a ⊖ num 0 ≡ a
  pub sub-mul : (a b c : F) → (a ⊖ b) ⊗ c ≡ a ⊗ c ⊖ b ⊗ c
  pub sub-add : (a b c d : F) → (a ⊖ b) ⊕ (c ⊖ d) ≡ (a ⊕ c) ⊖ (b ⊕ d)
  pub div-mul : (a b : F) → b ≢ num 0 → (a ⊘ b) ⊗ b ≡ a

pub leb-true : (a b : ℕ) → a ≤ b → leb a b ≡ true
leb-true a b le = ground arith

pub leb-false : (a b : ℕ) → b < a → leb a b ≡ false
leb-false a b lt = ground arith

pub ne : (a b : ℕ) → (a == b) ≡ false → a ≢ b
ne a b e = λ p. absurd (ground (arith, e, p))

module _ {F : Type 0} ⦃f : Scalars F⦄ where
  pub sub_row-from :
      (s : F) (i j first : ℕ) (m : Array F) (c : ℕ)
      → first ≤ c
      → sub_row s i j first m i c ≡ m i c ⊖ s ⊗ m j c
  unfolding sub_row
  sub_row-from s i j first m c le = rw (==_refl i, leb-true first c le) refl

  pub sub_row-before :
      (s : F) (i j first : ℕ) (m : Array F) (c : ℕ) → c < first → sub_row s i j first m i c ≡ m i c
  unfolding sub_row
  sub_row-before s i j first m c lt = rw (==_refl i, leb-false first c lt) refl

  pub sub_row-other :
      (s : F) (i j first : ℕ) (m : Array F) (r c : ℕ) → r ≢ i → sub_row s i j first m r c ≡ m r c
  unfolding sub_row
  sub_row-other s i j first m r c ne = rw (ne→== r i ne) refl

  pub mul_row-from :
      (s : F) (j first : ℕ) (m : Array F) (c : ℕ) → first ≤ c → mul_row s j first m j c ≡ m j c ⊗ s
  unfolding mul_row
  mul_row-from s j first m c le = rw (==_refl j, leb-true first c le) refl

  pub mul_row-before :
      (s : F) (j first : ℕ) (m : Array F) (c : ℕ) → c < first → mul_row s j first m j c ≡ m j c
  unfolding mul_row
  mul_row-before s j first m c lt = rw (==_refl j, leb-false first c lt) refl

  pub mul_row-other :
      (s : F) (j first : ℕ) (m : Array F) (r c : ℕ) → r ≢ j → mul_row s j first m r c ≡ m r c
  unfolding mul_row
  mul_row-other s j first m r c ne = rw (ne→== r j ne) refl

  pub set_entry_here : (i j : ℕ) (x : F) (m : Array F) → set_entry i j x m i j ≡ x
  unfolding set_entry
  set_entry_here i j x m = rw (==_refl i, ==_refl j) refl

  pub set_entry-column :
      (i j : ℕ) (x : F) (m : Array F) (r c : ℕ) → c ≢ j → set_entry i j x m r c ≡ m r c
  unfolding set_entry
  set_entry-column i j x m r c ne = elim (Bool-cases (r == i)) [
    | inl e ↦ rw (e, ne→== c j ne) refl
    | inr e ↦ rw e refl
  ]

  pub set_entry-row :
      (i j : ℕ) (x : F) (m : Array F) (r c : ℕ) → r ≢ i → set_entry i j x m r c ≡ m r c
  unfolding set_entry
  set_entry-row i j x m r c ne = rw (ne→== r i ne) refl

  -- The pivot is a row from `l` or from `i` on, below the last of the rows that are looked at.
  pub find_pivot_bounds :
      (a : Array F) (j count i l low : ℕ)
      → low ≤ i
      → low ≤ l
      → l < i
      → (low ≤ find_pivot a j count i l) × (find_pivot a j count i l < i + count)
  unfolding find_pivot
  find_pivot_bounds a j zero i l low le le' lt = (le', omega arith)
  find_pivot_bounds a j (suc count) i l low le le' lt =
      elim (Bool-cases (f.gt (f.fabs (a i j)) (f.fabs (a l j)))) [
        | inl e ↦ rw e (
            let b = find_pivot_bounds a j count (i + 1) i low (omega arith) le (omega arith) in
            (b.0, omega (arith, b.1)))
        | inr e ↦ rw e (
            let b = find_pivot_bounds a j count (i + 1) l low (omega arith) le' (omega arith) in
            (b.0, omega (arith, b.1)))
      ]

  -- A row of the inverse, multiplied with the matrix `m0`, is the row of the array, in columns up to
  -- `last`.
  module _ (laws : IsField F) (last : ℕ) (m0 : Array F) where
    abbrev pub Yields : (ℕ → F) → (ℕ → F) → Type 0
    Yields x y = (k : ℕ) → k ≤ last → sum last (λ l. x l ⊗ m0 l k) ≡ y k

    pub Yields-ext :
        (x y x' y' : ℕ → F)
        → Yields x y
        → ((l : ℕ) → x' l ≡ x l)
        → ((k : ℕ) → k ≤ last → y' k ≡ y k)
        → Yields x' y'
    Yields-ext x y x' y' h ex ey k le =
        sum-ext last _ _ (λ l le'. ap (λ t. t ⊗ m0 l k) (ex l)) ∙ (h k le ∙ sym (ey k le))

    sum-sub : (n : ℕ) (g h : ℕ → F) → sum n (λ k. g k ⊖ h k) ≡ sum n g ⊖ sum n h
    sum-sub zero g h = refl
    sum-sub (suc n) g h =
        rw (sum-sub n g h) (laws.sub-add (sum n g) (sum n h) (g (suc n)) (h (suc n)))

    pub Yields-sub :
        (s : F) (x y x' y' : ℕ → F)
        → Yields x y
        → Yields x' y'
        → Yields (λ l. x l ⊖ s ⊗ x' l) (λ k. y k ⊖ s ⊗ y' k)
    Yields-sub s x y x' y' h h' k le =
        sum-ext last _ _ (λ l le'.
          laws.sub-mul (x l) (s ⊗ x' l) (m0 l k)
          ∙ ap (λ t. x l ⊗ m0 l k ⊖ t) (laws.semiring.mul_assoc s (x' l) (m0 l k)))
        ∙ (sum-sub last (λ l. x l ⊗ m0 l k) (λ l. s ⊗ (x' l ⊗ m0 l k))
            ∙ (ap (λ t. t ⊖ sum last (λ l. s ⊗ (x' l ⊗ m0 l k))) (h k le)
                ∙ ap (λ t. y k ⊖ t)
                    (sym (mul-sum laws.semiring last s (λ l. x' l ⊗ m0 l k))
                      ∙ ap (λ t. s ⊗ t) (h' k le))))

    pub Yields-mul : (s : F) (x y : ℕ → F) → Yields x y → Yields (λ l. x l ⊗ s) (λ k. y k ⊗ s)
    Yields-mul s x y h k le =
        sum-ext last _ _ (λ l le'.
          laws.semiring.mul_assoc (x l) s (m0 l k)
          ∙ (ap (λ t. x l ⊗ t) (laws.semiring.mul_comm s (m0 l k))
              ∙ sym (laws.semiring.mul_assoc (x l) (m0 l k) s)))
        ∙ (sym (sum-mul laws.semiring last (λ l. x l ⊗ m0 l k) s) ∙ ap (λ t. t ⊗ s) (h k le))

    abbrev pub IsSolved : Augmented F → Type 0
    IsSolved m = (r : ℕ) → r ≤ last → Yields (m.v r) (m.a r)

    pub sub_row-IsSolved :
        (m : Augmented F) (a' : Array F) (s : F) (i j : ℕ)
        → i ≤ last
        → j ≤ last
        → ((r k : ℕ) → r ≢ i → a' r k ≡ m.a r k)
        → ((k : ℕ) → k ≤ last → a' i k ≡ m.a i k ⊖ s ⊗ m.a j k)
        → IsSolved m
        → IsSolved (record { a = a'; v = sub_row s i j 0 m.v })
    sub_row-IsSolved m a' s i j i_le j_le others row solved r le = elim (Bool-cases (r == i)) [
      | inl e ↦
          subst (λ r. Yields (sub_row s i j 0 m.v r) (a' r)) (sym (==→≡ r i e))
            (Yields-ext _ _ _ _
              (Yields-sub s (m.v i) (m.a i) (m.v j) (m.a j) (solved i i_le) (solved j j_le))
              (λ l. sub_row-from s i j 0 m.v l (omega arith)) row)
      | inr e ↦
          Yields-ext _ _ _ _ (solved r le) (λ l. sub_row-other s i j 0 m.v r l (ne r i e))
            λ k le'. others r k (ne r i e)
    ]

    pub mul_row-IsSolved :
        (m : Augmented F) (a' : Array F) (s : F) (j : ℕ)
        → j ≤ last
        → ((r k : ℕ) → r ≢ j → a' r k ≡ m.a r k)
        → ((k : ℕ) → k ≤ last → a' j k ≡ m.a j k ⊗ s)
        → IsSolved m
        → IsSolved (record { a = a'; v = mul_row s j 0 m.v })
    mul_row-IsSolved m a' s j j_le others row solved r le = elim (Bool-cases (r == j)) [
      | inl e ↦
          subst (λ r. Yields (mul_row s j 0 m.v r) (a' r)) (sym (==→≡ r j e))
            (Yields-ext _ _ _ _ (Yields-mul s (m.v j) (m.a j) (solved j j_le))
              (λ l. mul_row-from s j 0 m.v l (omega arith)) row)
      | inr e ↦
          Yields-ext _ _ _ _ (solved r le) (λ l. mul_row-other s j 0 m.v r l (ne r j e))
            λ k le'. others r k (ne r j e)
    ]

    swap_rows-IsSolved :
        (m : Augmented F) (j l : ℕ)
        → j ≤ last
        → l ≤ last
        → IsSolved m
        → IsSolved (record { a = swap_rows j l m.a; v = swap_rows j l m.v })
    unfolding swap_rows
    swap_rows-IsSolved m j l j_le l_le solved r le = elim (Bool-cases (r == j)) [
      | inl e ↦ rw e (solved l l_le)
      | inr e ↦ elim (Bool-cases (r == l)) [
        | inl e' ↦ rw (e, e') (solved j j_le)
        | inr e' ↦ rw (e, e') (solved r le)
      ]
    ]

    pub exchange-IsSolved :
        (m : Augmented F) (j l : ℕ) → j ≤ last → l ≤ last → IsSolved m → IsSolved (exchange j l m)
    unfolding exchange
    exchange-IsSolved m j l j_le l_le solved = elim (Bool-cases (l == j)) [
      | inl e ↦ rw e solved
      | inr e ↦ rw e (swap_rows-IsSolved m j l j_le l_le solved)
    ]
