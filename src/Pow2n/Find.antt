-- ===== src/Pow2n/Find.antt =====
-- cc_pow2n and cc_find_pow2n of math/cc_pow2n.c.
use native.Mathlib.Nat.{pow-suc, one-le-pow, pow-le-pow_right, mod-eq_of_lt}
use libcc.Base.{
  ℕ, zero, suc, ◌+◌, ◌*◌, ◌%◌, ◌^◌, ◌≤◌, ◌<◌, ◌≡◌, ◌⊎◌, true, false, inl, inr, arith, Option, none,
  some, ◌==◌, if◌then◌else◌, ltb, sym, ◌∙◌, ap, ==_refl, List, [], ◌∷◌,
}
use libcc.Int.{ℤ, pos, negsuc}
use libcc.Pow2n.{get, pow2n, find_loop, found, find_pow2n}

goes_on : (a c e b : ℕ) → a * 2 ≡ c → c ≤ e → e < 2 * b → ltb a b ≡ true
goes_on a c e b double le lt = ground arith

-- From a power of two with `d` rounds left the loop ends at the first one that is not below `b`.
find_loop-ends :
    (d fuel n b : ℕ)
    → d < fuel
    → n + d ≤ 32
    → b ≤ 2 ^ (n + d)
    → ((d ≡ 0) ⊎ (2 ^ (n + d) < 2 * b))
    → find_loop fuel n (2 ^ n) b ≡ some (n + d, 2 ^ (n + d))
unfolding find_loop
find_loop-ends d zero n b enough le top least = absurd (omega arith)
find_loop-ends zero (suc fuel) n b enough le top least =
    let same : n + 0 ≡ n = omega arith in
    let stops : ltb (2 ^ n) b ≡ false = ground (arith, ap (λ n. 2 ^ n) same) in rw (stops, same)
find_loop-ends (suc d) (suc fuel) n b enough le top least =
    let next : n + suc d ≡ n + 1 + d = omega arith in
    let double : 2 ^ n * 2 ≡ 2 ^ (n + 1) =
      let one : suc n ≡ n + 1 = omega arith in sym (pow-suc 2 n) ∙ ap (λ n. 2 ^ n) one in
    let small : 2 ^ n * 2 % 2 ^ 64 ≡ 2 ^ (n + 1) =
      mod-eq_of_lt (
        omega (
          arith,
          double,
          pow-le-pow_right {n = 2} (omega arith) {i = n + 1} {j = 32} (omega arith),
        ))
      ∙ double in
    let above : 2 ^ (n + 1) ≤ 2 ^ (n + suc d) =
      pow-le-pow_right {n = 2} (omega arith) (omega arith) in
    let least' : 2 ^ (n + suc d) < 2 * b = elim least [
      | inl none_left ↦ absurd (omega arith)
      | inr lt ↦ lt
    ] in
    let goes : ltb (2 ^ n) b ≡ true =
      goes_on (2 ^ n) (2 ^ (n + 1)) (2 ^ (n + suc d)) b double above least' in
    rw (goes, small, next)
      (find_loop-ends d fuel (n + 1) b (omega arith) (omega arith)
        (omega (arith, top, ap (λ n. 2 ^ n) next))
        (inr (omega (arith, least', ap (λ n. 2 ^ n) next))))

-- The loop of cc_find_pow2n ends within 33 rounds: for a number up to 2^32 that is above the power of
-- two in front of 2^k, the result is `k` where it is 2^k, and -1 where it is not.
pub find_pow2n-found :
    (k v : ℕ)
    → k ≤ 32
    → v ≤ 2 ^ k
    → ((k ≡ 0) ⊎ (2 ^ k < 2 * v))
    → find_pow2n v ≡ some (if 2 ^ k == v then pos k else negsuc 0)
unfolding find_pow2n
find_pow2n-found k v le top least =
    let same : 0 + k ≡ k = omega arith in
    let power = ap (λ n. 2 ^ n) same in
    let top' : v ≤ 2 ^ (0 + k) = omega (arith, power, top) in
    let least' : (k ≡ 0) ⊎ (2 ^ (0 + k) < 2 * v) = elim least [
      | inl first ↦ inl first
      | inr lt ↦ inr (omega (arith, power, lt))
    ] in
    ap (found v) (find_loop-ends k 33 0 v (omega arith) (omega arith) top' least')
    ∙ ap (λ n. found v (some (n, 2 ^ n))) same

-- The table of cc_pow2n, as it is made by doubling.
abbrev doubles : (count a : ℕ) → List ℕ
doubles zero a = []
doubles (suc count) a = a ∷ doubles count (2 * a)

get-doubles : (count a n : ℕ) → n < count → get (doubles count a) n ≡ some (a * 2 ^ n)
get-doubles zero a n lt = absurd (omega arith)
get-doubles (suc count) a zero lt = let one : a ≡ a * 1 = omega arith in ap some one
get-doubles (suc count) a (suc n) lt =
    let twice : 2 * a * 2 ^ n ≡ a * 2 ^ suc n =
      assoc a (2 ^ n) ∙ ap (λ p. a * p) (sym (pow-suc 2 n)) in
    get-doubles count (2 * a) n (omega arith) ∙ ap some twice
  where
    assoc : (x y : ℕ) → 2 * x * y ≡ x * (y * 2)
    assoc x y = grind arith

pow2n-power : (n : ℕ) → n < 32 → pow2n n ≡ some (2 ^ n)
unfolding pow2n
pow2n-power n lt = let one : 1 * 2 ^ n ≡ 2 ^ n = omega arith in get-doubles 32 1 n lt ∙ ap some one

abbrev pub then_find : Option ℕ → Option ℤ
then_find none = none
then_find (some v) = find_pow2n v

-- cc_find_pow2n finds the exponent again of what cc_pow2n returns for it, for each exponent of the
-- table.
pub find_pow2n-pow2n : (n : ℕ) → n < 32 → then_find (pow2n n) ≡ some (pos n)
find_pow2n-pow2n n lt =
    ap then_find (pow2n-power n lt)
    ∙ find_pow2n-found n (2 ^ n) (omega arith) (omega arith)
        (inr (omega (arith, one-le-pow n 2 (omega arith))))
    ∙ ap (λ t. some (if t then pos n else negsuc 0)) (==_refl (2 ^ n))
