-- ===== src/Bits.antt =====
-- Operations on the binary digits of numbers below a power of two.
use Prim.Native.Nat.{bit_or, max, bit_or-bitwise, bit_xor, digits, differ, bit_xor-bitwise}
use libcc.Base.{ℕ, zero, suc, ◌/◌, ◌%◌, ◌^◌, ◌<◌, ◌≤◌, ◌≡◌, ◌+◌, ◌*◌, refl, arith}

differ-lt : (x y : ℕ) → x < 2 → y < 2 → differ x y < 2
differ-lt zero y hx hy = hy
differ-lt (suc zero) zero hx hy = omega arith
differ-lt (suc zero) (suc y) hx hy = omega arith
differ-lt (suc (suc x)) y hx hy = absurd (omega arith)

-- The digits stay below a power of two, for each way to combine two digits.
digits-lt :
    (f : ℕ → ℕ → ℕ)
    → ((x y : ℕ) → x < 2 → y < 2 → f x y < 2)
    → (w n a b : ℕ) → a < 2 ^ w
    → b < 2 ^ w
    → digits (λ b. b) f n a b < 2 ^ w
digits-lt f bit w zero a b ha hb = hb
digits-lt f bit w (suc n) zero b ha hb = hb
digits-lt f bit zero (suc n) (suc a) b ha hb = absurd (omega arith)
digits-lt f bit (suc w) (suc n) (suc a) b ha hb =
    let low = bit (suc a % 2) (b % 2) (omega arith) (omega arith) in
    let high = digits-lt f bit w n (suc a / 2) (b / 2) (omega arith) (omega arith) in omega arith

pub bit_xor-lt : (w a b : ℕ) → a < 2 ^ w → b < 2 ^ w → bit_xor a b < 2 ^ w
bit_xor-lt w a b ha hb = rw (bit_xor-bitwise a b) (digits-lt differ differ-lt w a a b ha hb)

max-lt : (x y : ℕ) → x < 2 → y < 2 → max x y < 2
max-lt x y hx hy = omega arith

pub bit_or-lt : (w a b : ℕ) → a < 2 ^ w → b < 2 ^ w → bit_or a b < 2 ^ w
bit_or-lt w a b ha hb = rw (bit_or-bitwise a b) (digits-lt max max-lt w a a b ha hb)

-- The digits of a number from the place `t` on.
abbrev high : (t a : ℕ) → ℕ
high zero a = a
high (suc t) a = 2 * high t (a / 2)

high-zero : (t : ℕ) → high t 0 ≡ 0
high-zero zero = refl
high-zero (suc t) = omega (arith, high-zero t)

digits-high : (t n a b : ℕ) → a ≤ n → b < 2 ^ t → high t a + b ≤ digits (λ b. b) max n a b
digits-high t zero zero b le lt = omega (arith, high-zero t)
digits-high t zero (suc a) b le lt = absurd (omega arith)
digits-high t (suc n) zero b le lt = omega (arith, high-zero t)
digits-high zero (suc n) (suc a) b le lt =
    omega (arith, digits-high 0 n (suc a / 2) (b / 2) (omega arith) (omega arith))
digits-high (suc t) (suc n) (suc a) b le lt =
    omega (arith, digits-high t n (suc a / 2) (b / 2) (omega arith) (omega arith))

high-multiple : (t a x : ℕ) → 2 ^ t * x ≤ a → 2 ^ t * x ≤ high t a
high-multiple zero a x le = le
high-multiple (suc t) a x le =
    let twice : 2 ^ suc t * x ≡ 2 * (2 ^ t * x) = grind arith in
    omega (arith, high-multiple t (a / 2) x (omega arith))

-- The digits of `a` from the place `t` on, and those of `b` below it.
pub bit_or-high : (t a b x : ℕ) → 2 ^ t * x ≤ a → b < 2 ^ t → 2 ^ t * x + b ≤ bit_or a b
bit_or-high t a b x le lt =
    rw (bit_or-bitwise a b)
      (omega (arith, digits-high t a a b (omega arith) lt, high-multiple t a x le))
