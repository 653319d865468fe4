-- ===== src/CcList/Refine.antt =====
-- cc_listIter_add and cc_listIter_remove against the sequence that a list stands for.
use libcc.Base.{
  ◌≡◌, refl, false, some, [], ◌∷◌, ◌++◌, arith, ◌==◌, ◌∙◌, sym, ==_refl, if◌then◌else◌, length,
  length-append,
}
use libcc.CcList.Store.{
  Ptr, null, Iter, iter, Heap, Ends, ends, Ends-chain, Ends-mono, load-some, store-some,
  update_self, update_ne,
}
use libcc.CcList.Chain.{
  Cells, has, first, last, Distinct, Chain, SameOutside, Relinks, has-append, last-append,
  Chain-frame, Chain-append, Chain-split, link_next-Chain, link_prev-Chain, Distinct-split,
  Distinct-insert, Distinct-erase, last-ne-null,
}
use libcc.CcList.Links.{CcList, connect, disconnect, iter_add, iter_remove}

-- `l` holds the cells `xs`, in this order.
pub record IsList (h : Heap) (l : CcList) (xs : Cells) : Type 0 where
  pub chain : Chain h null xs null
  pub distinct : Distinct xs
  pub head : l.head ≡ first xs null
  pub tail : l.tail ≡ last null xs
  pub size : l.size ≡ length xs

-- `p` comes to stand between the chains of `xs` and of `ys`.
pub connect-Chain :
    (h : Heap) (p : Ptr) {n : Iter} (xs ys : Cells) (after before : Ptr)
    → h p ≡ some n
    → has p (xs ++ ys) ≡ false
    → Distinct (xs ++ ys)
    → Chain h null xs after
    → Chain h before ys null
    → Relinks h
        (xs ++ (p, n.val) ∷ ys)
        (λ g. Chain g null (xs ++ (p, n.val) ∷ ys) null)
        (connect p n (last null xs) (first ys null) h)
unfolding connect
connect-Chain h p {n} xs ys after before e out d cx cy =
    let (dx, dy, apart) = Distinct-split xs ys d in
    rw (store-some h p e (iter (first ys null) (last null xs) n.val)) (
      Ends-chain
        (link_prev-Chain _ before ys p dy (
          Chain-frame h _ before ys null cy
            λ a i. update_ne h p a _ (ground (arith, has-append p xs ys))))
        λ _ h₂ (cy₂, same₂).
          Ends-mono
            (link_next-Chain h₂ xs after p dx (
              Chain-frame h _ null xs after cx λ a i.
                same₂ a (ground (arith, apart a))
                ∙ update_ne h p a _ (ground (arith, has-append p xs ys))))
            λ _ h₃ (cx₃, same₃). (
              Chain-append h₃ null xs ((p, n.val) ∷ ys) null cx₃ (
                same₃ p (ground (arith, has-append p xs ys))
                    ∙ same₂ p (ground (arith, has-append p xs ys))
                    ∙ update_self h p _,
                Chain-frame h₂ h₃ p ys null cy₂ (λ a i. same₃ a (apart a i)),
              ),
              λ a i.
                  let split = has-append a xs ((p, n.val) ∷ ys) in
                  same₃ a (ground arith)
                  ∙ same₂ a (ground arith)
                  ∙ update_ne h p a _ (ground arith),
            ))

-- The neighbours of `p` pass it by.
pub disconnect-Chain :
    (h : Heap) (p v : Ptr) (xs ys : Cells)
    → Distinct (xs ++ (p, v) ∷ ys)
    → Chain h null (xs ++ (p, v) ∷ ys) null
    → Relinks h
        (xs ++ ys)
        (λ g. Chain g null (xs ++ ys) null)
        (disconnect (iter (first ys null) (last null xs) v) h)
unfolding disconnect
disconnect-Chain h p v xs ys d c =
    let (ne, out, d') = Distinct-erase p v xs ys d in
    let (dx, dy, apart) = Distinct-split xs ys d' in
    let (cx, cp) = Chain-split h null xs ((p, v) ∷ ys) null c in
    Ends-chain (link_next-Chain h xs p (first ys null) dx cx) λ _ h₁ (cx₁, same₁).
      Ends-mono
        (link_prev-Chain h₁ p ys (last null xs) dy
          (Chain-frame h h₁ p ys null cp.1 (λ a i. same₁ a (apart a i))))
        λ _ h₂ (cy₂, same₂). (
          Chain-append h₂ null xs ys null
              (Chain-frame h₁ h₂ null xs (first ys null) cx₁
                λ a i. same₂ a (ground (arith, apart a)))
              cy₂,
          λ a i. let split = has-append a xs ys in same₂ a (ground arith) ∙ same₁ a (ground arith),
        )

-- The cell of `p` in a chain.
pub Chain-mid :
    (h : Heap) (p v : Ptr) (xs ys : Cells)
    → Chain h null (xs ++ (p, v) ∷ ys) null
    → h p ≡ some (iter (first ys null) (last null xs) v)
Chain-mid h p v xs ys c = (Chain-split h null xs ((p, v) ∷ ys) null c).1.0

head_of_add :
    (p v : Ptr) (xs ys : Cells)
    → Distinct (xs ++ ys)
    → (if last null xs == null then p else first (xs ++ ys) null) ≡ first (xs ++ (p, v) ∷ ys) null
head_of_add p v [] ys d = refl
head_of_add p v ((q, w) ∷ xs) ys d = rw (last-ne-null q w xs (Distinct-split ((q, w) ∷ xs) ys d).0)

tail_of_add :
    (p v : Ptr) (xs ys : Cells)
    → Distinct (xs ++ ys)
    → (if first ys null == null then p else last null (xs ++ ys)) ≡ last null (xs ++ (p, v) ∷ ys)
tail_of_add p v xs [] d = sym (last-append null xs ((p, v) ∷ []))
tail_of_add p v xs ((q, w) ∷ ys) d =
    rw ((Distinct-split xs ((q, w) ∷ ys) d).1.0, last-append null xs ((q, w) ∷ ys))
      (sym (last-append null xs ((p, v) ∷ (q, w) ∷ ys)))

-- What an operation leaves alone: the free iterators, the flag, and the heap outside `xs`.
abbrev pub Keeps : Heap → CcList → Cells → CcList → Heap → Type 0
Keeps h l xs l' g = (l'.iters ≡ l.iters) × (l'.cmalloc ≡ l.cmalloc) × SameOutside xs h g

pub iter_add-IsList :
    (h : Heap) (p : Ptr) {n : Iter} {l : CcList} (xs ys : Cells)
    → h p ≡ some n
    → (p == null) ≡ false
    → has p (xs ++ ys) ≡ false
    → IsList h l (xs ++ ys)
    → Ends
        (λ l' g. IsList g l' (xs ++ (p, n.val) ∷ ys) × Keeps h l (xs ++ (p, n.val) ∷ ys) l' g)
        (iter_add p l (last null xs) (first ys null) h)
unfolding iter_add
iter_add-IsList h p {n} {l} xs ys e ne out is =
    let (cx, cy) = Chain-split h null xs ys null is.chain in
    rw (load-some h p e) (
      Ends-chain (connect-Chain h p xs ys (first ys null) (last null xs) e out is.distinct cx cy)
        λ _ g (c, same). ends (
          record {
            chain = c;
            distinct = Distinct-insert p n.val xs ys ne out is.distinct;
            head = rw is.head (head_of_add p n.val xs ys is.distinct);
            tail = rw is.tail (tail_of_add p n.val xs ys is.distinct);
            size = omega (arith, is.size, length-append xs ys, length-append xs ((p, n.val) ∷ ys));
          },
          (refl, refl, same),
        ))

pub last-ne :
    (p q : Ptr) (w : Ptr) (ys : Cells) → has p ((q, w) ∷ ys) ≡ false → (p == last q ys) ≡ false
last-ne p q w [] out = ground arith
last-ne p q w ((r, u) ∷ ys) out = last-ne p r u ys (ground arith)

head_of_remove :
    (p v : Ptr) (xs ys : Cells)
    → has p (xs ++ ys) ≡ false
    → (if p == first (xs ++ (p, v) ∷ ys) null
        then first ys null
        else first (xs ++ (p, v) ∷ ys) null)
      ≡ first (xs ++ ys) null
head_of_remove p v [] ys out = rw (==_refl p)
head_of_remove p v ((q, w) ∷ xs) ys out = ground arith

tail_of_remove :
    (p v : Ptr) (xs ys : Cells)
    → has p (xs ++ ys) ≡ false
    → (if p == last null (xs ++ (p, v) ∷ ys) then last null xs else last null (xs ++ (p, v) ∷ ys))
      ≡ last null (xs ++ ys)
tail_of_remove p v xs [] out =
    rw (last-append null xs ((p, v) ∷ []), ==_refl p, last-append null xs []) refl
tail_of_remove p v xs ((q, w) ∷ ys) out =
    let out' : has p ((q, w) ∷ ys) ≡ false = ground (arith, has-append p xs ((q, w) ∷ ys)) in
    rw
      (
        last-append null xs ((p, v) ∷ (q, w) ∷ ys),
        last-append null xs ((q, w) ∷ ys),
        last-ne p q w ys out',
      )
      refl

pub iter_remove-IsList :
    (h : Heap) (p v : Ptr) {l : CcList} (xs ys : Cells)
    → IsList h l (xs ++ (p, v) ∷ ys)
    → Ends
        (λ l' g.
          IsList g l' (xs ++ ys)
          × (g p ≡ some (iter null null v))
          × Keeps h l (xs ++ (p, v) ∷ ys) l' g)
        (iter_remove p l h)
unfolding iter_remove
iter_remove-IsList h p v {l} xs ys is =
    let (ne, out, d) = Distinct-erase p v xs ys is.distinct in
    let mid = Chain-mid h p v xs ys is.chain in
    rw (load-some h p mid) (
      Ends-chain (disconnect-Chain h p v xs ys is.distinct is.chain) λ _ g (c, same).
        rw (store-some g p (same p out ∙ mid) (iter null null v)) (
          ends (
            record {
              chain =
                  Chain-frame g _ null (xs ++ ys) null c λ a i. update_ne g p a _ (ground arith);
              distinct = d;
              head = rw is.head (head_of_remove p v xs ys out);
              tail = rw is.tail (tail_of_remove p v xs ys out);
              size = omega (arith, is.size, length-append xs ys, length-append xs ((p, v) ∷ ys));
            },
            update_self g p _,
            (
              refl,
              refl,
              λ a i.
                  let split = has-append a xs ((p, v) ∷ ys) in
                  let join = has-append a xs ys in
                  update_ne g p a _ (ground arith) ∙ same a (ground arith),
            ),
          )))
