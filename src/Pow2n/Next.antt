-- ===== src/Pow2n/Next.antt =====
-- cc_next_pow2n and cc_next_pow2n64 of math/cc_pow2n.c against powers of two.
use native.Mathlib.Nat.{
  pow-suc, one-le-pow, mul-sub, pow-le-pow_right, add-mod_right, mod-eq_of_lt, le-div_iff_mul-le,
  div-lt_iff_lt-mul,
}
use libcc.Base.{
  ℕ, zero, suc, ◌+◌, ◌-◌, ◌*◌, ◌/◌, ◌%◌, ◌^◌, ◌≤◌, ◌<◌, ◌≡◌, Bool-cases, inl, inr, ◌⊎◌, arith, ltb,
  sym, ◌∙◌, ap, subst,
}
use libcc.Bits.{bit_or-lt, bit_or-high}
use libcc.Pow2n.{smear, next_pow2n, next_pow2n64}

-- The upper `s` of the lower `k` digits are ones: `t` is the number of the others.
abbrev Ones : (k t v : ℕ) → Type 0
Ones k t v = (v < 2 ^ k) × (2 ^ k ≤ v + 2 ^ t)

pow_add : (a b : ℕ) → 2 ^ (a + b) ≡ 2 ^ a * 2 ^ b
pow_add a zero = let same : a + 0 ≡ a = omega arith in ap (λ n. 2 ^ n) same ∙ omega arith
pow_add a (suc b) =
    let same : a + suc b ≡ suc (a + b) = omega arith in
    ap (λ n. 2 ^ n) same
    ∙ pow-suc 2 (a + b)
    ∙ ap (λ n. n * 2) (pow_add a b)
    ∙ assoc (2 ^ a) (2 ^ b)
    ∙ ap (λ n. 2 ^ a * n) (sym (pow-suc 2 b))
  where
    assoc : (x y : ℕ) → x * y * 2 ≡ x * (y * 2)
    assoc x y = grind arith

pow_pos : (n : ℕ) → 0 < 2 ^ n
pow_pos n = one-le-pow n 2 (omega arith)

mul_add : (a b c : ℕ) → (a + b) * c ≡ a * c + b * c
mul_add a b c = grind arith

-- With variables for the powers of two: the ones that a shift by a factor `small` brings down.
shifted :
    (big small rest v : ℕ)
    → 0 < small
    → big * small ≤ v + big
    → (big ≡ rest * small) ⊎ ((rest ≡ 1) × (big ≤ small))
    → big ≤ v / small + rest
shifted big small rest v wide le how = elim (Bool-cases (ltb big rest)) [
  | inl less ↦ ground arith
  | inr enough ↦
      let d = big - rest in
      let split : big ≡ rest + d = ground arith in
      let total : big * small ≡ rest * small + d * small =
        ap (λ b. b * small) split ∙ mul_add rest d small in
      let fits : d * small ≤ v = fit big small rest d v total le how in
      omega (arith, (le-div_iff_mul-le {k = small} {x = d} {y = v} wide).1 fits)
]
  where
    fit :
        (big small rest d v : ℕ)
        → big * small ≡ rest * small + d * small
        → big * small ≤ v + big
        → (big ≡ rest * small) ⊎ ((rest ≡ 1) × (big ≤ small))
        → d * small ≤ v
    fit big small rest d v total le (inl e) = omega arith
    fit big small rest d v total le (inr (e, f)) =
        let one : rest * small ≡ small = ap (λ r. r * small) e ∙ grind arith in omega arith

smear-Ones :
    (k t s v : ℕ) → (k ≡ t + s) ⊎ ((t ≡ 0) × (k ≤ s)) → Ones k t v → Ones k (t - s) (smear s v)
smear-Ones k t s v how ones =
    let small = pow_pos s in
    let below : v / 2 ^ s ≤ v = omega arith in
    (
      bit_or-lt k v (v / 2 ^ s) ones.0 (omega (arith, below, ones.0)),
      elim how [
        | inl e ↦
            let total : 2 ^ k ≡ 2 ^ t * 2 ^ s = ap (λ k. 2 ^ k) e ∙ pow_add t s in
            let low : v / 2 ^ s < 2 ^ t =
              (div-lt_iff_lt-mul {k = 2 ^ s} {x = v} {y = 2 ^ t} small).1
                (omega (arith, total, ones.0)) in
            let x = 2 ^ s - 1 in
            let most : 2 ^ t * x ≡ 2 ^ t * 2 ^ s - 2 ^ t =
              mul-sub (2 ^ t) (2 ^ s) 1 ∙ by_one (2 ^ t) (2 ^ s) in
            let up : 2 ^ t * x + v / 2 ^ s ≤ smear s v =
              bit_or-high t v (v / 2 ^ s) x (omega (arith, most, total, ones.1)) low in
            let rest : 2 ^ t ≤ v / 2 ^ s + 2 ^ (t - s) =
              shifted (2 ^ t) (2 ^ s) (2 ^ (t - s)) v small (omega (arith, total, ones.1))
                (left_over t s) in
            omega (arith, total, most, up, rest, pow_pos t)
        | inr (zero_left, past) ↦
            let all : 2 ^ k ≤ v + 1 = omega (arith, ones.1, ap (λ t. 2 ^ t) zero_left) in
            let wide : 2 ^ k ≤ 2 ^ s = pow-le-pow_right {n = 2} (omega arith) past in
            let nothing : v / 2 ^ s < 2 ^ 0 =
              (div-lt_iff_lt-mul {k = 2 ^ s} {x = v} {y = 2 ^ 0} small).1
                (omega (arith, wide, ones.0)) in
            let up : 2 ^ 0 * v + v / 2 ^ s ≤ smear s v =
              bit_or-high 0 v (v / 2 ^ s) v (omega arith) nothing in
            omega (arith, all, up, pow_pos (t - s))
      ],
    )
  where
    by_one : (a b : ℕ) → a * b - a * 1 ≡ a * b - a
    by_one a b = omega arith

    left_over : (t s : ℕ) → (2 ^ t ≡ 2 ^ (t - s) * 2 ^ s) ⊎ ((2 ^ (t - s) ≡ 1) × (2 ^ t ≤ 2 ^ s))
    left_over t s = elim (Bool-cases (ltb t s)) [
      | inl past ↦
          let zero_left : t - s ≡ 0 = ground arith in
          inr (ap (λ n. 2 ^ n) zero_left, pow-le-pow_right {n = 2} (omega arith) (ground arith))
      | inr within ↦
          let split : t ≡ t - s + s = ground arith in
          inl (ap (λ n. 2 ^ n) split ∙ pow_add (t - s) s)
    ]

-- A shift by the number of the ones doubles it.
doubled : (k s v : ℕ) → Ones k (k - s) v → Ones k (k - (s + s)) (smear s v)
doubled k s v ones =
    let left : k - s - s ≡ k - (s + s) = omega arith in
    subst (λ t. Ones k t (smear s v)) left (smear-Ones k (k - s) s v (how k s) ones)
  where
    how : (k s : ℕ) → (k ≡ k - s + s) ⊎ ((k - s ≡ 0) × (k ≤ s))
    how k s = elim (Bool-cases (ltb k s)) [
      | inl past ↦ inr (ground arith, ground arith)
      | inr within ↦ inl (ground arith)
    ]

top_one : (k v : ℕ) → 2 ^ k < 2 * v → v ≤ 2 ^ k → Ones k (k - 1) (v - 1)
top_one zero v lt le = (omega arith, omega arith)
top_one (suc k) v lt le =
    let same : suc k - 1 ≡ k = omega arith in
    subst (λ t. Ones (suc k) t (v - 1)) (sym same)
      (omega (arith, pow-suc 2 k), omega (arith, pow-suc 2 k))

-- The number in front of the power of two, in `w` bits.
wrapped : (w k v : ℕ) → k ≤ w → 2 ^ k < 2 * v → v ≤ 2 ^ k → (v + 2 ^ w - 1) % 2 ^ w ≡ v - 1
wrapped w k v le lt top =
    let fits : 2 ^ k ≤ 2 ^ w = pow-le-pow_right {n = 2} (omega arith) le in
    let split : v + 2 ^ w - 1 ≡ v - 1 + 2 ^ w = omega arith in
    ap (λ n. n % 2 ^ w) split ∙ add-mod_right (v - 1) (2 ^ w) ∙ mod-eq_of_lt (omega arith)

ended : (k w v : ℕ) → k ≤ w → Ones k (k - w) v → v + 1 ≡ 2 ^ k
ended k w v le ones =
    let none_left : k - w ≡ 0 = omega arith in
    omega (arith, ones.0, ones.1, ap (λ t. 2 ^ t) none_left)

-- For a number from 1 on cc_next_pow2n returns the least power of two that is not below it, and 0
-- where that power is 2^32.
pub next_pow2n-least :
    (k v : ℕ) → k ≤ 32 → 2 ^ k < 2 * v → v ≤ 2 ^ k → next_pow2n v ≡ 2 ^ k % 2 ^ 32
unfolding next_pow2n
next_pow2n-least k v le lt top =
    let ones =
      doubled k 16 _
        (doubled k 8 _ (doubled k 4 _ (doubled k 2 _ (doubled k 1 _ (top_one k v lt top))))) in
    rw (wrapped 32 k v le lt top) (ap (λ n. n % 2 ^ 32) (ended k 32 _ le ones))

-- The same for cc_next_pow2n64.
pub next_pow2n64-least :
    (k v : ℕ) → k ≤ 64 → 2 ^ k < 2 * v → v ≤ 2 ^ k → next_pow2n64 v ≡ 2 ^ k % 2 ^ 64
unfolding next_pow2n64
next_pow2n64-least k v le lt top =
    let ones = doubled k 32 _ (
      doubled k 16 _
        (doubled k 8 _ (doubled k 4 _ (doubled k 2 _ (doubled k 1 _ (top_one k v lt top)))))) in
    rw (wrapped 64 k v le lt top) (ap (λ n. n % 2 ^ 64) (ended k 64 _ le ones))
