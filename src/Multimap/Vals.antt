-- ===== src/Multimap/Vals.antt =====
-- The lists that the nodes of a map hold.
use libcc.Base.{
  ◌≡◌, refl, Bool, true, false, Bool-cases, ◌||◌, ◌==◌, if◌then◌else◌, Option, none, some, List, [],
  ◌∷◌, arith, inl, inr, sym, ◌∙◌, ap, ==_refl,
}
use libcc.CcList.Store.{Ptr, null}
use libcc.Murmur.{Bytes}
use libcc.Map.{Entry, Map, from}
use libcc.Map.Lookup.{lookup-ne}
use libcc.Map.Calls.{Key, key_bytes, val_of, val_first, findp}
use libcc.Map.Sorted.{Inv, Distinct}
use libcc.Map.Find.{
  lookup, same_bytes, same_bytes→≡, same_bytes_refl, not-same_bytes, search, IsKey, findp-search,
}
use libcc.Multimap.{list_at, or_null}

-- The value of the first node with this key, or null.
unfoldable pub lookup_val : Bytes → List Entry → Ptr
lookup_val key [] = null
lookup_val key (e ∷ es) = if same_bytes e.node.key key then e.node.val else lookup_val key es

abbrev pub search_val : Option Bytes → List Entry → Ptr
search_val none nodes = null
search_val (some key) nodes = lookup_val key nodes

abbrev pub has_val : Ptr → List Entry → Bool
has_val v [] = false
has_val v (e ∷ es) = (e.node.val == v) || has_val v es

-- No value is null, and none stands twice.
abbrev pub Owned : List Entry → Type 0
Owned [] = Unit {0}
Owned (e ∷ es) = ((e.node.val == null) ≡ false) × (has_val e.node.val es ≡ false) × Owned es

abbrev value_at : Ptr → List Entry → Ptr
value_at p es = if p == null then null else or_null (val_first (from p es))

value_at_later :
    (p : Ptr) (e : Entry) (es : List Entry)
    → (e.iter == p) ≡ false
    → value_at p (e ∷ es) ≡ value_at p es
unfolding from
value_at_later p e es ne = rw ne

-- The value that stands at the iterator that a search finds.
value_at-lookup :
    (key : Bytes) (es : List Entry) → Distinct es → value_at (lookup key es) es ≡ lookup_val key es
unfolding lookup lookup_val from
value_at-lookup key [] d = refl
value_at-lookup key (e ∷ es) d = elim (Bool-cases (same_bytes e.node.key key)) [
  | inl same ↦ rw (same, d.0, ==_refl e.iter)
  | inr other ↦
      let later : lookup key (e ∷ es) ≡ lookup key es = rw other in
      let val : lookup_val key es ≡ lookup_val key (e ∷ es) = rw other in
      ap (λ p. value_at p (e ∷ es)) later
      ∙ value_at_later (lookup key es) e es (lookup-ne key e.iter es d.0 d.1)
      ∙ value_at-lookup key es d.2
      ∙ val
]

value_at-search :
    (o : Option Bytes) (es : List Entry) → Distinct es → value_at (search o es) es ≡ search_val o es
value_at-search none es d = refl
value_at-search (some key) es d = value_at-lookup key es d

-- The list that cc_map_findp leads to is that of the first node with the key.
pub list_at-findp :
    (m : Map) (k : Key) → Inv m → IsKey k → list_at m (findp m k) ≡ search_val (key_bytes k) m.nodes
unfolding list_at val_of
list_at-findp m k inv ok =
    rw (findp-search m k inv ok) (value_at-search (key_bytes k) m.nodes inv.distinct)

-- A search does not find a list that no node holds.
pub lookup_val-ne :
    (key : Bytes) (v : Ptr) (es : List Entry)
    → (v == null) ≡ false
    → has_val v es ≡ false
    → (lookup_val key es == v) ≡ false
unfolding lookup_val
lookup_val-ne key v [] ne out = ground arith
lookup_val-ne key v (e ∷ es) ne out = elim (Bool-cases (same_bytes e.node.key key)) [
  | inl same ↦ rw same (ground arith)
  | inr other ↦ rw other (lookup_val-ne key v es ne (ground arith))
]

-- Two keys with the same list are the same.
pub lookup_val_one :
    (a b : Bytes) (es : List Entry)
    → Owned es
    → (lookup_val a es == null) ≡ false
    → (lookup_val b es == lookup_val a es) ≡ same_bytes a b
unfolding lookup_val
lookup_val_one a b [] own found = absurd (ground arith)
lookup_val_one a b (e ∷ es) own found = elim (Bool-cases (same_bytes e.node.key a)) [
  | inl at_a ↦
      let key : e.node.key ≡ a = same_bytes→≡ e.node.key a at_a in
      elim (Bool-cases (same_bytes e.node.key b)) [
        | inl at_b ↦
            let same : same_bytes a b ≡ true = ap (λ a. same_bytes a b) (sym key) ∙ at_b in
            rw (at_a, at_b, same) (==_refl e.node.val)
        | inr not_b ↦
            let other : same_bytes a b ≡ false = ap (λ a. same_bytes a b) (sym key) ∙ not_b in
            rw (at_a, not_b, other) (lookup_val-ne b e.node.val es own.0 own.1)
      ]
  | inr not_a ↦ elim (Bool-cases (same_bytes e.node.key b)) [
    | inl at_b ↦
        let key : e.node.key ≡ b = same_bytes→≡ e.node.key b at_b in
        let other : same_bytes a b ≡ false = not-same_bytes a b (λ same. absurd (
          true≢false
            (sym (same_bytes_refl a) ∙ ap (λ b. same_bytes b a) (same ∙ sym key) ∙ not_a))) in
        let ne = lookup_val-ne a e.node.val es own.0 own.1 in
        let ne' : (e.node.val == lookup_val a es) ≡ false = ground arith in
        rw (not_a, at_b, other) ne'
    | inr not_b ↦ rw (not_a, not_b) (lookup_val_one a b es own.2 (ground arith))
  ]
]
  where
    true≢false : true ≡ false → ⊥
    true≢false e = ground arith
