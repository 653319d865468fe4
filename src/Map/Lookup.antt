-- ===== src/Map/Lookup.antt =====
-- The node at the iterator that a search finds.
use libcc.Base.{
  ◌≡◌, true, false, Bool-cases, ◌==◌, some, List, [], ◌∷◌, arith, inl, inr, ◌∙◌, ap, ==_refl,
}
use libcc.CcList.Store.{Ptr, null}
use libcc.Murmur.{Bytes}
use libcc.Map.{Entry, from}
use libcc.Map.Calls.{key_first}
use libcc.Map.Sorted.{Distinct, has}
use libcc.Map.Find.{lookup, same_bytes, same_bytes→≡}

-- A search behind a node does not find the node's iterator.
pub lookup-ne :
    (key : Bytes) (p : Ptr) (es : List Entry)
    → (p == null) ≡ false
    → has p es ≡ false
    → (p == lookup key es) ≡ false
unfolding lookup
lookup-ne key p [] ne out = ne
lookup-ne key p (e ∷ es) ne out = elim (Bool-cases (same_bytes e.node.key key)) [
  | inl same ↦ let other : (p == e.iter) ≡ false = ground arith in rw (same, other)
  | inr other ↦ rw other (lookup-ne key p es ne (ground arith))
]

pub lookup-has :
    (key : Bytes) (es : List Entry)
    → (lookup key es == null) ≡ false
    → has (lookup key es) es ≡ true
unfolding lookup
lookup-has key [] ne = absurd (ground arith)
lookup-has key (e ∷ es) ne = ground (arith, ==_refl e.iter, lookup-has key es)

from_later :
    (p : Ptr) (e : Entry) (es : List Entry) → (e.iter == p) ≡ false → from p (e ∷ es) ≡ from p es
unfolding from
from_later p e es ne = rw ne

from_here : (e : Entry) (es : List Entry) → from e.iter (e ∷ es) ≡ e ∷ es
unfolding from
from_here e es = rw (==_refl e.iter)

-- The node that a search finds has the key.
pub from-lookup :
    (key : Bytes) (es : List Entry)
    → Distinct es
    → (lookup key es == null) ≡ false
    → key_first (from (lookup key es) es) ≡ some key
unfolding lookup
from-lookup key [] d ne = absurd (ground arith)
from-lookup key (e ∷ es) d ne = elim (Bool-cases (same_bytes e.node.key key)) [
  | inl same ↦
      let here : lookup key (e ∷ es) ≡ e.iter = rw same in
      ap (λ p. key_first (from p (e ∷ es))) here
      ∙ ap key_first (from_here e es)
      ∙ ap some (same_bytes→≡ e.node.key key same)
  | inr other ↦
      let later : lookup key (e ∷ es) ≡ lookup key es = rw other in
      ap (λ p. key_first (from p (e ∷ es))) later
      ∙ ap key_first (from_later (lookup key es) e es (lookup-ne key e.iter es d.0 d.1))
      ∙ from-lookup key es d.2 (ground arith)
]
