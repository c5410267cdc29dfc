-- ===== src/CacheIndex/Invariant.antt =====
-- What the device index keeps true, and what its operations answer.
use native.Mathlib.Decide.{ℕ_discrete}
use auto_fastlio.Prelude.{
  ℕ, zero, suc, ◌<◌, ◌≡◌, refl, ◌≢◌, sym, subst, ◌∙◌, ◌⊎◌, inl, inr, Bool, true, false, none, some,
  ◌==◌, if◌then◌else◌, get_elem?, get_elem?-some-lt, set, length, arith, Option-cases, length-set,
  length-replicate, replicate, get_elem?-set_self, get_elem?-set_ne,
}
use auto_fastlio.Prelude.Decimal.{text_eq_iff}
use auto_fastlio.Comm.{max_source_lidar}
use auto_fastlio.CacheIndex.{
  Key, CacheIndex, find, assign, erase, first_free, init, claim, lookup_or_claim,
}
use auto_fastlio.CacheIndex.Table.{text_eq_refl, find-assign, find-erase, first_free-some}

-- The map and the slots agree: 32 slots, every index in the map is a taken slot, no two keys
-- share one, and every taken slot is in the map.
pub record IsConsistent (c : CacheIndex) : Type 0 where
  pub slots : length c.index_cache ≡ max_source_lidar
  pub taken :
      (k : Key) (i : ℕ) → find k c.map_index ≡ some i → get_elem? c.index_cache i ≡ some true
  pub apart :
      (k j : Key) (i : ℕ) → find k c.map_index ≡ some i → find j c.map_index ≡ some i → k ≡ j
  pub owned :
      (i : ℕ) → get_elem? c.index_cache i ≡ some true → (k : Key) × (find k c.map_index ≡ some i)

get_elem?-replicate : (n i : ℕ) → get_elem? (replicate n false) i ≢ some true
get_elem?-replicate zero i e = cc
get_elem?-replicate (suc n) zero e = cc
get_elem?-replicate (suc n) (suc i) e = get_elem?-replicate n i e

pub init-IsConsistent : IsConsistent init
unfolding init find
init-IsConsistent = record {
  slots = length-replicate 32 false;
  taken = λ k i e. cc;
  apart = λ k j i e f. cc;
  owned = λ i e. absurd (get_elem?-replicate 32 i e);
}

-- The cases of `claim`.
pub claim_cases :
    (c : CacheIndex) (key : Key)
    → ((claim c key ≡ (none, c)) × (first_free c.index_cache 0 ≡ none))
      ⊎ ((i : ℕ) × (claim c key ≡ (
        some i,
        record { map_index = assign key i c.map_index; index_cache = set c.index_cache i true },
      ))
          × (get_elem? c.index_cache i ≡ some false))
unfolding claim
claim_cases c key = elim (Option-cases (first_free c.index_cache 0)) [
  | inl e ↦ inl (rw (e, claim), e)
  | inr (i, e) ↦
      let (n, p, q) = first_free-some c.index_cache 0 i e in
      inr (i, rw (e, claim), subst (λ t. get_elem? c.index_cache t ≡ some false) (omega arith) q)
]

pub lookup_miss :
    (c : CacheIndex) (key : Key) → find key c.map_index ≡ none → lookup_or_claim c key ≡ claim c key
unfolding lookup_or_claim
lookup_miss c key e = rw (e, lookup_or_claim) refl

pub lookup_hit :
    (c : CacheIndex) (key : Key) (i : ℕ)
    → find key c.map_index ≡ some i
    → lookup_or_claim c key ≡ (some i, c)
unfolding lookup_or_claim
lookup_hit c key i e = rw (e, lookup_or_claim) refl

module _ {c : CacheIndex} (v : IsConsistent c) (key : Key) where
  -- A slot once it is written, and the others.
  slot-set :
      (i j : ℕ) (b : Bool)
      → i < length c.index_cache
      → get_elem? (set c.index_cache i b) j ≡ (if i == j then some b else get_elem? c.index_cache j)
  slot-set i j b h =
      ground (arith, get_elem?-set_ne c.index_cache i j b, get_elem?-set_self c.index_cache i b h)

  pub claimed-IsConsistent :
      (i : ℕ)
      → find key c.map_index ≡ none
      → get_elem? c.index_cache i ≡ some false
      → IsConsistent
          (record { map_index = assign key i c.map_index; index_cache = set c.index_cache i true })
  claimed-IsConsistent i fresh free = record {
    slots = length-set c.index_cache i true ∙ v.slots;
    taken = λ k j e.
        ground (arith, find-assign key k i c.map_index, v.taken k j, slot-set i j true inside);
    apart = λ k j n e f. ground (
      arith,
      find-assign key k i c.map_index,
      find-assign key j i c.map_index,
      text_eq_iff key k,
      text_eq_iff key j,
      v.taken k n,
      v.taken j n,
      v.apart k j n,
    );
    owned = λ j e. holder j e;
  }
    where
      inside : i < length c.index_cache
      inside = get_elem?-some-lt c.index_cache i false free

      holder :
          (j : ℕ)
          → get_elem? (set c.index_cache i true) j ≡ some true
          → (k : Key) × (find k (assign key i c.map_index) ≡ some j)
      holder j e = elim (ℕ_discrete i j) [
        | yes p ↦ (key, ground (arith, find-assign key key i c.map_index, text_eq_refl key))
        | no p ↦
            let (k, f) = v.owned j (sym (get_elem?-set_ne c.index_cache i j true p) ∙ e) in
            (k, ground (arith, find-assign key k i c.map_index, text_eq_iff key k))
      ]

  -- A claim for a key that is not in the map.
  pub claim-IsConsistent : find key c.map_index ≡ none → IsConsistent (claim c key).1
  claim-IsConsistent fresh = elim (claim_cases c key) [
    | inl (e, _) ↦ rw e v
    | inr (i, e, free) ↦ rw e (claimed-IsConsistent i fresh free)
  ]

  pub lookup_or_claim-IsConsistent : IsConsistent (lookup_or_claim c key).1
  lookup_or_claim-IsConsistent = elim (Option-cases (find key c.map_index)) [
    | inl e ↦ rw (lookup_miss c key e) (claim-IsConsistent e)
    | inr (i, e) ↦ rw (lookup_hit c key i e) v
  ]

  pub released-IsConsistent :
      (i : ℕ)
      → find key c.map_index ≡ some i
      → IsConsistent
          (record { map_index = erase key c.map_index; index_cache = set c.index_cache i false })
  released-IsConsistent i held = record {
    slots = length-set c.index_cache i false ∙ v.slots;
    taken = λ k j e. ground (
      arith,
      find-erase key k c.map_index,
      v.taken k j,
      v.apart k key i,
      text_eq_iff key k,
      slot-set i j false inside,
    );
    apart = λ k j n e f.
        ground (arith, find-erase key k c.map_index, find-erase key j c.map_index, v.apart k j n);
    owned = λ j e. holder j e;
  }
    where
      inside : i < length c.index_cache
      inside = get_elem?-some-lt c.index_cache i true (v.taken key i held)

      holder :
          (j : ℕ)
          → get_elem? (set c.index_cache i false) j ≡ some true
          → (k : Key) × (find k (erase key c.map_index) ≡ some j)
      holder j e =
          let here : get_elem? c.index_cache j ≡ some true =
            ground (arith, slot-set i j false inside) in
          let (k, f) = v.owned j here in
          (
            k,
            ground
                (arith, find-erase key k c.map_index, text_eq_iff key k, slot-set i j false inside),
          )
