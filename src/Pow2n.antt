-- ===== src/Pow2n.antt =====
-- math/cc_pow2n.h and math/cc_pow2n.c: powers of two. A uint32_t is a number below 2^32, and the
-- loops of bit operations are written out as in the source.
pub mod Next
pub mod Find
pub mod Tests
use Prim.Native.Nat.{bit_or}
use libcc.Base.{
  ℕ, zero, suc, ◌+◌, ◌-◌, ◌*◌, ◌/◌, ◌%◌, ◌^◌, Bool, Option, none, some, List, [], ◌∷◌, ◌==◌,
  if◌then◌else◌, ltb,
}
use libcc.Int.{ℤ, pos, negsuc}

abbrev pub powers : List ℕ
powers =
    1 ∷ 2 ∷ 4 ∷ 8 ∷ 16 ∷ 32 ∷ 64 ∷ 128 ∷ 256 ∷ 512 ∷ 1024 ∷ 2048 ∷ 4096 ∷ 8192 ∷ 16384 ∷ 32768
    ∷ 65536 ∷ 131072 ∷ 262144 ∷ 524288 ∷ 1048576 ∷ 2097152 ∷ 4194304 ∷ 8388608 ∷ 16777216 ∷ 33554432
    ∷ 67108864 ∷ 134217728 ∷ 268435456 ∷ 536870912 ∷ 1073741824 ∷ 2147483648 ∷ []

abbrev pub get : List ℕ → ℕ → Option ℕ
get [] n = none
get (x ∷ xs) zero = some x
get (x ∷ xs) (suc n) = get xs n

-- cc_pow2n: `none` is a read past the table.
unfoldable pub pow2n : ℕ → Option ℕ
pow2n n = get powers n

-- `v |= v >> s`
abbrev pub smear : (s v : ℕ) → ℕ
smear s v = bit_or v (v / 2 ^ s)

unfoldable pub next_pow2n : ℕ → ℕ
next_pow2n v =
    (smear 16 (smear 8 (smear 4 (smear 2 (smear 1 ((v + 2 ^ 32 - 1) % 2 ^ 32))))) + 1) % 2 ^ 32

unfoldable pub next_pow2n64 : ℕ → ℕ
next_pow2n64 v =
    (smear 32 (smear 16 (smear 8 (smear 4 (smear 2 (smear 1 ((v + 2 ^ 64 - 1) % 2 ^ 64)))))) + 1)
    % 2 ^ 64

-- The loop of cc_find_pow2n: `n` and `a` at its end.
unfoldable pub find_loop : (fuel n a b : ℕ) → Option (ℕ × ℕ)
find_loop zero n a b = none
find_loop (suc fuel) n a b =
    let rest = find_loop fuel (n + 1) (a * 2 % 2 ^ 64) b in if ltb a b then rest else some (n, a)

abbrev pub found : ℕ → Option (ℕ × ℕ) → Option ℤ
found b none = none
found b (some (n, a)) = some (if a == b then pos n else negsuc 0)

-- A uint32_t is passed after 32 rounds.
unfoldable pub find_pow2n : ℕ → Option ℤ
unfolding find_loop
find_pow2n v = found v (find_loop 33 0 1 v)
