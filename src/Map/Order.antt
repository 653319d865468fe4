-- ===== src/Map/Order.antt =====
-- The order of the nodes, cc_mapNode_cmp of cc_map.c.
use Prim.Native.Nat.{compare, Ordering}
use libcc.Base.{
  ℕ, zero, suc, ◌+◌, ◌-◌, ◌*◌, ◌/◌, ◌%◌, ◌≤◌, ◌<◌, ◌≡◌, refl, ◌⊎◌, inl, inr, [], ◌∷◌, arith, length,
  subst,
}
use libcc.Murmur.{Bytes, drop, little_endian}
use libcc.Map.{Node, cmp_words, cmp_key, cmp_node}

abbrev pub IsBytes : Bytes → Type 0
IsBytes [] = Unit {0}
IsBytes (b ∷ bytes) = (b < 256) × IsBytes bytes

-- A test of the strings of `n` bytes that orders them.
pub record IsComparison (n : ℕ) (r : Bytes → Bytes → Ordering) : Type 0 where
  pub same : (a : Bytes) → r a a ≡ Ordering.eq
  pub swap : (a b : Bytes) → r a b ≡ Ordering.lt → r b a ≡ Ordering.gt
  pub swap' : (a b : Bytes) → r a b ≡ Ordering.gt → r b a ≡ Ordering.lt
  pub trans : (a b c : Bytes) → r a b ≡ Ordering.lt → r b c ≡ Ordering.lt → r a c ≡ Ordering.lt
  pub apart :
      (a b : Bytes)
      → IsBytes a
      → IsBytes b
      → length a ≡ n
      → length b ≡ n
      → r a b ≡ Ordering.eq
      → a ≡ b

IsBytes-drop : (n : ℕ) (a : Bytes) → IsBytes a → IsBytes (drop n a)
IsBytes-drop zero a h = h
IsBytes-drop (suc n) [] h = h
IsBytes-drop (suc n) (b ∷ a) h = IsBytes-drop n a h.1

length-drop : (n : ℕ) (a : Bytes) → length (drop n a) ≡ length a - n
length-drop zero a = omega arith
length-drop (suc n) [] = omega arith
length-drop (suc n) (b ∷ a) = omega (arith, length-drop n a)

-- A string of bytes is its first block and the rest.
block_apart :
    (w : ℕ) (a b : Bytes)
    → IsBytes a
    → IsBytes b
    → w ≤ length a
    → w ≤ length b
    → little_endian w a ≡ little_endian w b
    → drop w a ≡ drop w b
    → a ≡ b
unfolding little_endian
block_apart zero a b ha hb la lb same rest = rest
block_apart (suc w) [] b ha hb la lb same rest = absurd (omega arith)
block_apart (suc w) (x ∷ a) [] ha hb la lb same rest = absurd (omega arith)
block_apart (suc w) (x ∷ a) (y ∷ b) ha hb la lb same rest =
    let first : x ≡ y = omega (arith, ha.0, hb.0) in
    let more =
      block_apart w a b ha.1 hb.1 (omega arith) (omega arith) (omega (arith, ha.0, hb.0)) rest in
    cc (first, more)

-- One block in front of a comparison.
abbrev first_block : ℕ → (Bytes → Bytes → Ordering) → Bytes → Bytes → Ordering
first_block w r a b = elim (compare (little_endian w a) (little_endian w b)) [
  | Ordering.gt ↦ Ordering.gt
  | Ordering.lt ↦ Ordering.lt
  | Ordering.eq ↦ r (drop w a) (drop w b)
]

first_block-IsComparison :
    (w n : ℕ) (r : Bytes → Bytes → Ordering)
    → IsComparison n r
    → IsComparison (w + n) (first_block w r)
first_block-IsComparison w n r c = record {
  same = λ a. ground (arith, c.same (drop w a));
  swap = λ a b e. ground (arith, c.swap (drop w a) (drop w b));
  swap' = λ a b e. ground (arith, c.swap' (drop w a) (drop w b));
  trans = λ a b d e f. ground (arith, c.trans (drop w a) (drop w b) (drop w d));
  apart = λ a b ha hb la lb e.
      let rest =
        c.apart (drop w a) (drop w b) (IsBytes-drop w a ha) (IsBytes-drop w b hb)
          (omega (arith, length-drop w a)) (omega (arith, length-drop w b)) in
      block_apart w a b ha hb (omega arith) (omega arith) (ground arith) (ground (arith, rest));
}

cmp_words-IsComparison :
    (width cnt n : ℕ) (r : Bytes → Bytes → Ordering)
    → IsComparison n r
    → IsComparison (cnt * width + n) (λ a b. cmp_words width cnt a b r)
unfolding cmp_words
cmp_words-IsComparison width zero n r c =
    let total : n ≡ 0 * width + n = omega arith in subst (λ k. IsComparison k r) total c
cmp_words-IsComparison width (suc cnt) n r c =
    let total : width + (cnt * width + n) ≡ suc cnt * width + n = grind arith in
    subst (λ k. IsComparison k (λ a b. cmp_words width (suc cnt) a b r)) total
      (first_block-IsComparison width (cnt * width + n) _ (cmp_words-IsComparison width cnt n r c))

always_eq-IsComparison : IsComparison 0 (λ a b. Ordering.eq)
always_eq-IsComparison = record {
  same = λ a. refl;
  swap = λ a b e. absurd (ground arith);
  swap' = λ a b e. absurd (ground arith);
  trans = λ a b c e f. absurd (ground arith);
  apart = λ a b ha hb la lb e. none_left a b la lb;
}
  where
    none_left : (a b : Bytes) → length a ≡ 0 → length b ≡ 0 → a ≡ b
    none_left [] [] la lb = refl
    none_left [] (y ∷ b) la lb = absurd (omega arith)
    none_left (x ∷ a) b la lb = absurd (omega arith)

-- The comparison of keys of one length, in blocks of 8 bytes, then of 4, then of one, is a total order
-- on the keys: a key compares equal only to itself, the two ways round agree, and less-than is
-- transitive.
pub cmp_key-IsComparison : (len : ℕ) → IsComparison len (cmp_key len)
unfolding cmp_key
cmp_key-IsComparison len =
    let total : len / 8 * 8 + (len % 8 / 4 * 4 + (len % 8 % 4 * 1 + 0)) ≡ len = omega arith in
    subst (λ k. IsComparison k (cmp_key len)) total
      (cmp_words-IsComparison 8 (len / 8) _ _ (
        cmp_words-IsComparison 4 (len % 8 / 4) _ _
          (cmp_words-IsComparison 1 (len % 8 % 4) _ _ always_eq-IsComparison)))

-- One node stands in front of another.
abbrev pub Less : Node → Node → Type 0
Less x y = cmp_node x y.hash y.key ≡ Ordering.lt

pub cmp_node-same : (x : Node) → cmp_node x x.hash x.key ≡ Ordering.eq
unfolding cmp_node
cmp_node-same x = ground (arith, (cmp_key-IsComparison (length x.key)).same x.key)

pub cmp_node-hash : (x y : Node) → Less x y → x.hash ≤ y.hash
unfolding cmp_node
cmp_node-hash x y less = ground arith

pub hash-Less : (x y : Node) → x.hash < y.hash → Less x y
unfolding cmp_node
hash-Less x y lt = ground arith

cmp_key_swap :
    (x y : Node)
    → length x.key ≡ length y.key
    → (cmp_key (length y.key) x.key y.key ≡ Ordering.lt
        → cmp_key (length x.key) y.key x.key ≡ Ordering.gt)
      × (cmp_key (length y.key) x.key y.key ≡ Ordering.gt
          → cmp_key (length x.key) y.key x.key ≡ Ordering.lt)
cmp_key_swap x y e =
    let c = cmp_key-IsComparison (length y.key) in rw e (c.swap x.key y.key, c.swap' x.key y.key)

pub cmp_node-swap :
    (x y : Node)
    → (Less x y → cmp_node y x.hash x.key ≡ Ordering.gt)
      × (cmp_node x y.hash y.key ≡ Ordering.gt → Less y x)
unfolding cmp_node
cmp_node-swap x y = (λ e. ground (arith, cmp_key_swap x y), λ e. ground (arith, cmp_key_swap x y))

cmp_key_trans :
    (x y z : Node)
    → length x.key ≡ length y.key
    → length y.key ≡ length z.key
    → cmp_key (length y.key) x.key y.key ≡ Ordering.lt
    → cmp_key (length z.key) y.key z.key ≡ Ordering.lt
    → cmp_key (length z.key) x.key z.key ≡ Ordering.lt
cmp_key_trans x y z e f =
    let c = cmp_key-IsComparison (length z.key) in rw f (c.trans x.key y.key z.key)

pub Less-trans : (x y z : Node) → Less x y → Less y z → Less x z
unfolding cmp_node
Less-trans x y z e f = ground (arith, cmp_key_trans x y z)

pub cmp_node-apart :
    (x : Node) (hash : ℕ) (key : Bytes)
    → IsBytes x.key
    → IsBytes key
    → cmp_node x hash key ≡ Ordering.eq
    → x.key ≡ key
unfolding cmp_node
cmp_node-apart x hash key hx hk e =
    (cmp_key-IsComparison (length key)).apart x.key key hx hk (ground arith) refl (ground arith)

pub Ordering-cases : (o : Ordering) → (o ≡ Ordering.lt) ⊎ ((o ≡ Ordering.eq) ⊎ (o ≡ Ordering.gt))
Ordering-cases Ordering.lt = inl refl
Ordering-cases Ordering.eq = inr (inl refl)
Ordering-cases Ordering.gt = inr (inr refl)
