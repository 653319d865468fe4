-- ===== src/Murmur.antt =====
-- cc_mumurhash3.h and cc_mumurhash3.c: the 32-bit MurmurHash3 of a sequence of bytes. A uint32_t is
-- a number below 2^32, and blocks are read as on a little-endian machine.
pub mod Tests
use Prim.Native.Nat.{bit_xor, bit_or}
use libcc.Base.{
  ℕ, zero, suc, ◌+◌, ◌-◌, ◌*◌, ◌/◌, ◌%◌, ◌^◌, ◌<◌, ◌≡◌, refl, arith, List, [], ◌∷◌, length,
}
use libcc.Bits.{bit_xor-lt}

abbrev pub Bytes : Type 0
Bytes = List ℕ

abbrev pub drop : ℕ → Bytes → Bytes
drop zero bytes = bytes
drop (suc n) [] = []
drop (suc n) (b ∷ bytes) = drop n bytes

-- The number that the first `n` bytes stand for.
unfoldable pub little_endian : ℕ → Bytes → ℕ
little_endian zero bytes = 0
little_endian (suc n) [] = 0
little_endian (suc n) (b ∷ bytes) = b + 256 * little_endian n bytes

-- ROTL32
unfoldable pub rotl32 : ℕ → ℕ → ℕ
rotl32 x r = bit_or (x * 2 ^ r % 2 ^ 32) (x / 2 ^ (32 - r))

-- getblock32: the block at the front of the bytes that are left.
unfoldable pub getblock32 : Bytes → ℕ
unfolding little_endian
getblock32 bytes = little_endian 4 bytes

unfoldable pub fmix32 : ℕ → ℕ
fmix32 h =
    let h1 = bit_xor h (h / 2 ^ 16) in
    let h2 = h1 * 0x85ebca6b % 2 ^ 32 in
    let h3 = bit_xor h2 (h2 / 2 ^ 13) in
    let h4 = h3 * 0xc2b2ae35 % 2 ^ 32 in bit_xor h4 (h4 / 2 ^ 16)

-- `k1 *= c1; k1 = ROTL32(k1,15); k1 *= c2`
unfoldable pub scramble : ℕ → ℕ
unfolding rotl32
scramble k = rotl32 (k * 0xcc9e2d51 % 2 ^ 32) 15 * 0x1b873593 % 2 ^ 32

-- The body: a round for each block of 4 bytes.
unfoldable pub body : (nblocks : ℕ) → Bytes → (h1 : ℕ) → ℕ
unfolding getblock32 scramble rotl32
body zero bytes h1 = h1
body (suc n) bytes h1 =
    body n (drop 4 bytes)
      ((rotl32 (bit_xor h1 (scramble (getblock32 bytes))) 13 * 5 + 0xe6546b64) % 2 ^ 32)

-- The tail: the last 0 to 3 bytes. The cases fall through to the next.
unfoldable pub tail : Bytes → (h1 : ℕ) → ℕ
unfolding scramble
tail (t0 ∷ t1 ∷ t2 ∷ _) h1 = bit_xor h1 (scramble (bit_xor (bit_xor (t2 * 2 ^ 16) (t1 * 2 ^ 8)) t0))
tail (t0 ∷ t1 ∷ []) h1 = bit_xor h1 (scramble (bit_xor (t1 * 2 ^ 8) t0))
tail (t0 ∷ []) h1 = bit_xor h1 (scramble t0)
tail [] h1 = h1

-- cc_mumurhash3, and MurmurHash3_x86_32. The length is that of the bytes.
unfoldable pub mumurhash3 : (seed : ℕ) → Bytes → ℕ
unfolding fmix32 body tail
mumurhash3 seed key =
    let len = length key in
    fmix32 (bit_xor (tail (drop (len / 4 * 4) key) (body (len / 4) key seed)) (len % 2 ^ 32))

-- A hash is a uint32_t.
pub mumurhash3-lt : (seed : ℕ) (key : Bytes) → mumurhash3 seed key < 2 ^ 32
unfolding mumurhash3 fmix32
mumurhash3-lt seed key = bit_xor-lt 32 _ _ (omega arith) (omega arith)
