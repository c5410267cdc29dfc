-- ===== src/CacheIndex/Race.antt =====
-- GetFreeIndex takes its lock twice: once to look the key up, once to claim a slot. Two threads
-- that ask for the same new handle can both pass the first section before either enters the second.
use auto_fastlio.Prelude.{
  get_elem?-some-lt, ℕ, ◌≡◌, ◌≢◌, ◌∙◌, sym, ap, subst, ◌<◌, length, false, inl, inr, true, Option,
  none, some, get_elem?, set, arith, get_elem?-set_self, get_elem?-set_ne,
}
use auto_fastlio.CacheIndex.{Key, CacheIndex, find, assign, claim}
use auto_fastlio.CacheIndex.Table.{text_eq_refl, find-assign}
use auto_fastlio.CacheIndex.Invariant.{IsConsistent, claim_cases}

-- The index after a claim of slot i.
abbrev claimed : CacheIndex → Key → ℕ → CacheIndex
claimed c key i = record {
  map_index = assign key i c.map_index;
  index_cache = set c.index_cache i true;
}

claimed_twice :
    {c : CacheIndex} (key k : Key) (a b : ℕ)
    → IsConsistent c
    → get_elem? c.index_cache a ≡ some false
    → get_elem? (claimed c key a).index_cache b ≡ some false
    → let c' = claimed (claimed c key a) key b in
      (a ≢ b)
      × (find key c'.map_index ≡ some b)
      × (get_elem? c'.index_cache a ≡ some true)
      × (find k c'.map_index ≢ some a)
claimed_twice {c} key k a b v free free' =
    let inside : a < length c.index_cache = get_elem?-some-lt c.index_cache a false free in
    let apart : a ≢ b = λ e. ground (arith, e, get_elem?-set_self c.index_cache a true inside) in
    (
      apart,
      ground (arith, find-assign key key b (assign key a c.map_index), text_eq_refl key),
      get_elem?-set_ne (set c.index_cache a true) b a true (λ e. apart (sym e))
          ∙ get_elem?-set_self c.index_cache a true inside,
      λ e. ground (
        arith,
        apart,
        find-assign key k b (assign key a c.map_index),
        find-assign key k a c.map_index,
        v.taken k a,
      ),
    )

-- The two claims that follow two failed look-ups of one key: both succeed only with different
-- slots, the map keeps the second, and the first slot stays taken though no key leads to it.
pub claim_twice :
    {c : CacheIndex} (key k : Key) (i j : ℕ)
    → IsConsistent c
    → find key c.map_index ≡ none
    → (claim c key).0 ≡ some i
    → (claim (claim c key).1 key).0 ≡ some j
    → let c' = (claim (claim c key).1 key).1 in
      (i ≢ j)
      × (find key c'.map_index ≡ some j)
      × (get_elem? c'.index_cache i ≡ some true)
      × (find k c'.map_index ≢ some i)
claim_twice {c} key k i j v fresh e f = elim (claim_cases c key) [
  | inl (got, _) ↦ ground (arith, got)
  | inr (a, got, free) ↦
      let f' : (claim (claimed c key a) key).0 ≡ some j =
        subst (λ t. (claim t key).0 ≡ some j) (ap (λ (r : Option ℕ × CacheIndex). r.1) got) f in
      elim (claim_cases (claimed c key a) key) [
        | inl (got', _) ↦ ground (arith, got')
        | inr (b, got', free') ↦
            let a_eq : a ≡ i = ground (arith, got) in
            let b_eq : b ≡ j = ground (arith, got') in
            rw (ap (λ (r : Option ℕ × CacheIndex). r.1) got, ← a_eq, ← b_eq, got')
              (claimed_twice key k a b v free free')
      ]
]
