-- ===== src/CcList/Store.antt =====
-- cc_list.h, the struct cc_listIter_t: list iterators at addresses, and the commands that read
-- and write their fields.
use libcc.Base.{ℕ, ◌≡◌, false, Option, none, some, arith, ◌==◌, if◌then◌else◌}

abbrev pub Ptr : Type 0
Ptr = ℕ

abbrev pub null : Ptr
null = 0

-- `data` is the caller's pointer, which the list never follows.
pub record Iter : Type 0 where
  pub next : Ptr
  pub prev : Ptr
  pub val : Ptr

abbrev pub iter : Ptr → Ptr → Ptr → Iter
iter n p v = record { next = n; prev = p; val = v }

-- An address that holds no iterator cannot be read or written.
abbrev pub Heap : Type 0
Heap = Ptr → Option Iter

-- `none` is the dereference of such an address.
abbrev pub Cmd : Type 0 → Type 0
Cmd A = Heap → Option (A × Heap)

abbrev pub pure : {A : Type 0} → A → Cmd A
pure a h = some (a, h)

module _ {A B : Type 0} where
  abbrev pub chain : Option (A × Heap) → (A → Cmd B) → Option (B × Heap)
  chain none k = none
  chain (some (a, h)) k = k a h

  infixl 5 ◌>>=◌ ◌>>◌
  abbrev pub ◌>>=◌ : Cmd A → (A → Cmd B) → Cmd B
  m >>= k = λ h. chain (m h) k

  abbrev pub ◌>>◌ : Cmd A → Cmd B → Cmd B
  m >> k = m >>= λ _. k

unfoldable pub update : Heap → Ptr → Iter → Heap
update h p n a = if a == p then some n else h a

-- `*p`
unfoldable pub load : Ptr → Cmd Iter
load p h = elim (h p) [ none ↦ none | some n ↦ some (n, h) ]

unfoldable pub store : Ptr → Iter → Cmd (Unit {0})
unfolding update
store p n h = elim (h p) [ none ↦ none | some _ ↦ some (tt, update h p n) ]

-- `p->next = q` and `p->prev = q`
unfoldable pub set_next : Ptr → Ptr → Cmd (Unit {0})
set_next p q = do n ← load p; store p (record n { next = q })

unfoldable pub set_prev : Ptr → Ptr → Cmd (Unit {0})
set_prev p q = do n ← load p; store p (record n { prev = q })

-- `if(p) p->next = q` and `if(p) p->prev = q`
unfoldable pub link_next : Ptr → Ptr → Cmd (Unit {0})
link_next p q = if p == null then pure tt else set_next p q

unfoldable pub link_prev : Ptr → Ptr → Cmd (Unit {0})
link_prev p q = if p == null then pure tt else set_prev p q

-- `calloc` of one iterator: `fresh` is the address that the allocator returns, or null.
unfoldable pub calloc : Ptr → Cmd Ptr
unfolding update
calloc fresh h = if fresh == null then some (null, h) else some (fresh, update h fresh (iter 0 0 0))

-- `free`: the address holds no iterator any more.
unfoldable pub clear : Heap → Ptr → Heap
clear h p a = if a == p then none else h a

unfoldable pub free : Ptr → Cmd (Unit {0})
free p h = elim (h p) [ none ↦ none | some _ ↦ some (tt, clear h p) ]

-- What the commands do at an address that holds an iterator.
module _ (h : Heap) (p : Ptr) {n : Iter} (e : h p ≡ some n) where
  pub load-some : load p h ≡ some (n, h)
  unfolding load
  load-some = ground arith

  pub store-some : (m : Iter) → store p m h ≡ some (tt, update h p m)
  unfolding store
  store-some m = ground arith

  pub free-some : free p h ≡ some (tt, clear h p)
  unfolding free
  free-some = ground arith

  pub link_next-some :
      (q : Ptr)
      → (p == null) ≡ false
      → link_next p q h ≡ some (tt, update h p (record n { next = q }))
  unfolding link_next set_next
  link_next-some q ne = rw (ne, load-some, store-some)

  pub link_prev-some :
      (q : Ptr)
      → (p == null) ≡ false
      → link_prev p q h ≡ some (tt, update h p (record n { prev = q }))
  unfolding link_prev set_prev
  link_prev-some q ne = rw (ne, load-some, store-some)

pub update_self : (h : Heap) (p : Ptr) (n : Iter) → update h p n p ≡ some n
unfolding update
update_self h p n = ground arith

pub update_ne : (h : Heap) (p a : Ptr) (n : Iter) → (a == p) ≡ false → update h p n a ≡ h a
unfolding update
update_ne h p a n ne = rw ne

-- A run that ends without a fault, in a result and a heap with the property `P`.
pub data Ends {A : Type 0} (P : A → Heap → Type 0) : Option (A × Heap) → Type 0 where
  ends : {a : A} {h : Heap} → P a h → Ends P (some (a, h))

module _ {A B : Type 0} {P : A → Heap → Type 0} {Q : B → Heap → Type 0} where
  pub Ends-chain :
      {r : Option (A × Heap)} {k : A → Cmd B}
      → Ends P r
      → ((a : A) (h : Heap) → P a h → Ends Q (k a h))
      → Ends Q (chain r k)
  Ends-chain (ends p) next = next _ _ p

module _ {A : Type 0} {P Q : A → Heap → Type 0} where
  pub Ends-mono :
      {r : Option (A × Heap)} → Ends P r → ((a : A) (h : Heap) → P a h → Q a h) → Ends Q r
  Ends-mono (ends p) weaken = ends (weaken _ _ p)
