-- ===== src/Math/Sum.antt =====
-- Sums in the order in which the code adds, and what they need of the scalars.
use libcc.Base.{ℕ, zero, suc, ◌≤◌, ◌≡◌, refl, sym, ap, ◌∙◌, arith}
use libcc.Math.{Scalars, ◌⊕◌, ◌⊗◌, num}

-- Exact arithmetic, as floating-point numbers do it up to rounding.
pub record IsSemiring (F : Type 0) ⦃f : Scalars F⦄ : Type 0 where
  pub add_assoc : (a b c : F) → a ⊕ b ⊕ c ≡ a ⊕ (b ⊕ c)
  pub add_comm : (a b : F) → a ⊕ b ≡ b ⊕ a
  pub zero-add : (a : F) → num 0 ⊕ a ≡ a
  pub mul_assoc : (a b c : F) → a ⊗ b ⊗ c ≡ a ⊗ (b ⊗ c)
  pub mul_comm : (a b : F) → a ⊗ b ≡ b ⊗ a
  pub one-mul : (a : F) → num 1 ⊗ a ≡ a
  pub zero-mul : (a : F) → num 0 ⊗ a ≡ num 0
  pub mul-add : (a b c : F) → a ⊗ (b ⊕ c) ≡ a ⊗ b ⊕ a ⊗ c

module _ {F : Type 0} ⦃f : Scalars F⦄ where
  -- g 0 + … + g n
  abbrev pub sum : ℕ → (ℕ → F) → F
  sum zero g = g 0
  sum (suc n) g = sum n g ⊕ g (suc n)

  pub sum-ext : (n : ℕ) (g h : ℕ → F) → ((k : ℕ) → k ≤ n → g k ≡ h k) → sum n g ≡ sum n h
  sum-ext zero g h e = e 0 (omega arith)
  sum-ext (suc n) g h e =
      rw (sum-ext n g h (λ k le. e k (omega (arith, le))), e (suc n) (omega arith)) refl

  module _ (laws : IsSemiring F) where
    pub add-zero : (a : F) → a ⊕ num 0 ≡ a
    add-zero a = laws.add_comm a (num 0) ∙ laws.zero-add a

    pub mul-one : (a : F) → a ⊗ num 1 ≡ a
    mul-one a = laws.mul_comm a (num 1) ∙ laws.one-mul a

    pub mul-zero : (a : F) → a ⊗ num 0 ≡ num 0
    mul-zero a = laws.mul_comm a (num 0) ∙ laws.zero-mul a

    pub add-mul : (a b c : F) → (a ⊕ b) ⊗ c ≡ a ⊗ c ⊕ b ⊗ c
    add-mul a b c =
        laws.mul_comm (a ⊕ b) c
        ∙ (laws.mul-add c a b ∙ (rw (laws.mul_comm c a, laws.mul_comm c b) refl))

    interchange : (a b c d : F) → (a ⊕ b) ⊕ (c ⊕ d) ≡ (a ⊕ c) ⊕ (b ⊕ d)
    interchange a b c d =
        laws.add_assoc a b (c ⊕ d)
        ∙ (ap (λ t. a ⊕ t)
              (sym (laws.add_assoc b c d)
                ∙ (ap (λ t. t ⊕ d) (laws.add_comm b c) ∙ laws.add_assoc c b d))
            ∙ sym (laws.add_assoc a c (b ⊕ d)))

    pub sum-add : (n : ℕ) (g h : ℕ → F) → sum n (λ k. g k ⊕ h k) ≡ sum n g ⊕ sum n h
    sum-add zero g h = refl
    sum-add (suc n) g h =
        rw (sum-add n g h) (interchange (sum n g) (sum n h) (g (suc n)) (h (suc n)))

    pub mul-sum : (n : ℕ) (a : F) (g : ℕ → F) → a ⊗ sum n g ≡ sum n (λ k. a ⊗ g k)
    mul-sum zero a g = refl
    mul-sum (suc n) a g = rw⁻¹ (mul-sum n a g) (laws.mul-add a (sum n g) (g (suc n)))

    pub sum-mul : (n : ℕ) (g : ℕ → F) (a : F) → sum n g ⊗ a ≡ sum n (λ k. g k ⊗ a)
    sum-mul zero g a = refl
    sum-mul (suc n) g a = rw⁻¹ (sum-mul n g a) (add-mul (sum n g) (g (suc n)) a)

    pub sum_swap :
        (n m : ℕ) (g : ℕ → ℕ → F)
        → sum n (λ i. sum m (λ j. g i j)) ≡ sum m (λ j. sum n (λ i. g i j))
    sum_swap zero m g = refl
    sum_swap (suc n) m g =
        rw (sum_swap n m g) (sym (sum-add m (λ j. sum n (λ i. g i j)) (λ j. g (suc n) j)))

    -- The law behind the products: (a·m)·v is a·(m·v).
    pub sum_assoc :
        (n : ℕ) (a : ℕ → F) (m : ℕ → ℕ → F) (v : ℕ → F)
        → sum n (λ k. sum n (λ l. a l ⊗ m l k) ⊗ v k) ≡ sum n (λ l. a l ⊗ sum n (λ k. m l k ⊗ v k))
    sum_assoc n a m v =
        sum-ext n _ _ (λ k le. sum-mul n (λ l. a l ⊗ m l k) (v k))
        ∙ (sum_swap n n (λ k l. a l ⊗ m l k ⊗ v k)
            ∙ sum-ext n _ _ λ l le.
              sum-ext n _ _ (λ k le'. laws.mul_assoc (a l) (m l k) (v k))
              ∙ sym (mul-sum n (a l) (λ k. m l k ⊗ v k)))
