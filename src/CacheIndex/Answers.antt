-- ===== src/CacheIndex/Answers.antt =====
-- What GetFreeIndex, GetIndex, LvxGetIndex and ResetIndex answer, call after call.
use native.Mathlib.Decide.{ℕ_discrete}
use auto_fastlio.Prelude.{
  get_elem?-some-lt, ℕ, ◌<◌, ◌≡◌, refl, ◌≢◌, sym, ap, ◌∙◌, ◌↔◌, inl, inr, true, false, none, some,
  ◌++◌, get_elem?, set, arith, Option-cases, Bool-cases, get_elem?-set_self,
}
use auto_fastlio.Prelude.Decimal.{to_string, text_eq, text_eq_iff}
use auto_fastlio.Comm.{livox_lidar_type, max_source_lidar}
use auto_fastlio.Comm.Text.{codes}
use auto_fastlio.CacheIndex.{
  Key, CacheIndex, find, erase, generate_index_key, lookup_or_claim, get_free_index, get_index,
  lvx_get_index, release, reset_index,
}
use auto_fastlio.CacheIndex.Table.{
  text_eq_refl, find-assign, find-erase, first_free-none, generate_index_key_inj,
}
use auto_fastlio.CacheIndex.Invariant.{
  IsConsistent, claim_cases, lookup_miss, lookup_hit, lookup_or_claim-IsConsistent,
  released-IsConsistent,
}

-- The key of a Livox lidar.
key_of : ℕ → Key
key_of handle = codes "livox_lidar_" ++ to_string handle

module _ (handle : ℕ) where
  generate_index_key-livox : generate_index_key livox_lidar_type handle ≡ some (key_of handle)
  unfolding generate_index_key key_of
  generate_index_key-livox = refl

  get_index-livox :
      (c : CacheIndex) → get_index c livox_lidar_type handle ≡ find (key_of handle) c.map_index
  unfolding get_index key_of
  get_index-livox c = refl

  get_free_index-livox :
      (c : CacheIndex)
      → get_free_index c livox_lidar_type handle ≡ lookup_or_claim c (key_of handle)
  unfolding get_free_index key_of
  get_free_index-livox c = refl

  reset_index-livox :
      (c : CacheIndex) → reset_index c livox_lidar_type handle ≡ release c (key_of handle)
  unfolding reset_index key_of
  reset_index-livox c = refl

key_of_inj : (a b : ℕ) → key_of a ≡ key_of b → a ≡ b
key_of_inj a b e =
    generate_index_key_inj a b (generate_index_key-livox a)
      (generate_index_key-livox b ∙ ap some (sym e))

key_of_ne : (a b : ℕ) → a ≢ b → text_eq (key_of a) (key_of b) ≡ false
key_of_ne a b ne = elim (Bool-cases (text_eq (key_of a) (key_of b))) [
  | inl e ↦ absurd (ne (key_of_inj a b ((text_eq_iff (key_of a) (key_of b)).0 e)))
  | inr e ↦ e
]

-- For a device type that is not Livox every call fails and changes nothing.
pub other_type_fails :
    (c : CacheIndex) (lidar_type handle : ℕ)
    → lidar_type ≢ livox_lidar_type
    → (get_free_index c lidar_type handle ≡ (none, c))
      × (lvx_get_index c lidar_type handle ≡ (none, c))
      × (get_index c lidar_type handle ≡ none)
      × (reset_index c lidar_type handle ≡ c)
unfolding get_free_index lvx_get_index get_index reset_index
other_type_fails c lidar_type handle ne = (ground arith, ground arith, ground arith, ground arith)

-- `LvxGetIndex` is `GetFreeIndex`: its own look-up only repeats the one there.
pub lvx_get_index-eq-get_free_index :
    (c : CacheIndex) (lidar_type handle : ℕ)
    → lvx_get_index c lidar_type handle ≡ get_free_index c lidar_type handle
unfolding lvx_get_index
lvx_get_index-eq-get_free_index c lidar_type handle = ground arith

release_hit :
    (c : CacheIndex) (key : Key) (i : ℕ)
    → find key c.map_index ≡ some i
    → release c key
      ≡ record { map_index = erase key c.map_index; index_cache = set c.index_cache i false }
unfolding release
release_hit c key i e = rw (e, release) refl

-- An index that GetIndex answers is below 32.
pub get_index-lt :
    {c : CacheIndex} (v : IsConsistent c) (lidar_type handle i : ℕ)
    → get_index c lidar_type handle ≡ some i
    → i < max_source_lidar
get_index-lt {c} v lidar_type handle i e = elim (ℕ_discrete lidar_type livox_lidar_type) [
  | yes p ↦
      let hit : find (key_of handle) c.map_index ≡ some i =
        sym (get_index-livox handle c) ∙ rw p at e in
      omega (arith, v.slots, get_elem?-some-lt c.index_cache i true (v.taken (key_of handle) i hit))
  | no p ↦ ground (arith, (other_type_fails c lidar_type handle p).2)
]

module _ {c : CacheIndex} (v : IsConsistent c) (handle : ℕ) where
  -- An index that was handed out is below 32, and GetIndex finds it again.
  lookup_or_claim_found :
      (key : Key) (i : ℕ)
      → (lookup_or_claim c key).0 ≡ some i
      → (find key (lookup_or_claim c key).1.map_index ≡ some i) × (i < max_source_lidar)
  lookup_or_claim_found key i e = elim (Option-cases (find key c.map_index)) [
    | inl miss ↦ elim (claim_cases c key) [
      | inl (no_slot, _) ↦ ground (arith, lookup_miss c key miss)
      | inr (j, got, free) ↦ ground (
        arith,
        lookup_miss c key miss,
        v.slots,
        find-assign key key j c.map_index,
        text_eq_refl key,
        get_elem?-some-lt c.index_cache j false free,
      )
    ]
    | inr (j, hit) ↦ ground (
      arith,
      lookup_hit c key j hit,
      v.slots,
      get_elem?-some-lt c.index_cache j true (v.taken key j hit),
    )
  ]

  -- Another key is answered as before.
  lookup_or_claim_other :
      (key other : Key)
      → text_eq key other ≡ false
      → find other (lookup_or_claim c key).1.map_index ≡ find other c.map_index
  lookup_or_claim_other key other ne = elim (Option-cases (find key c.map_index)) [
    | inl miss ↦ elim (claim_cases c key) [
      | inl (no_slot, _) ↦ ground (arith, lookup_miss c key miss)
      | inr (j, got, free) ↦
          ground (arith, lookup_miss c key miss, find-assign key other j c.map_index)
    ]
    | inr (j, hit) ↦ ground (arith, lookup_hit c key j hit)
  ]

  -- When `GetFreeIndex` on a consistent index answers i for a Livox handle, the index is consistent
  -- afterwards, i is below 32, GetIndex answers i for that handle from then on, and any other handle is answered as before,
  -- which is not i.
  pub get_free_index-found :
      (other i : ℕ)
      → other ≢ handle
      → (get_free_index c livox_lidar_type handle).0 ≡ some i
      → let c' = (get_free_index c livox_lidar_type handle).1 in
        IsConsistent c'
        × (i < max_source_lidar)
        × (get_index c' livox_lidar_type handle ≡ some i)
        × (get_index c' livox_lidar_type other ≡ get_index c livox_lidar_type other)
        × (get_index c' livox_lidar_type other ≢ some i)
  get_free_index-found other i ne e =
      let key : Key = key_of handle in
      let key' : Key = key_of other in
      let found =
        lookup_or_claim_found key i (ap (λ r. r.0) (sym (get_free_index-livox handle c)) ∙ e) in
      let c' : CacheIndex = (lookup_or_claim c key).1 in
      rw
        (
          get_free_index-livox handle c,
          get_index-livox handle c',
          get_index-livox other c',
          get_index-livox other c,
        )
        (
          lookup_or_claim-IsConsistent v key,
          found.1,
          found.0,
          lookup_or_claim_other key key' (key_of_ne handle other (λ p. ne (sym p))),
          λ clash. ne (
              sym (
                key_of_inj handle other
                  ((lookup_or_claim-IsConsistent v key).apart key key' i found.0 clash))),
        )

  -- On a consistent index, `GetFreeIndex` of a Livox handle fails exactly when the handle has no
  -- index and all 32 slots are taken.
  pub get_free_index-none_iff : ((get_free_index c livox_lidar_type handle).0 ≡ none) ↔ (
      (get_index c livox_lidar_type handle ≡ none)
      × ((n : ℕ) → n < max_source_lidar → get_elem? c.index_cache n ≡ some true))
  get_free_index-none_iff =
      rw (get_free_index-livox handle c, get_index-livox handle c) (failed, full)
    where
      key : Key
      key = key_of handle

      failed :
          (lookup_or_claim c key).0 ≡ none
          → (find key c.map_index ≡ none)
            × ((n : ℕ) → n < max_source_lidar → get_elem? c.index_cache n ≡ some true)
      failed e = elim (Option-cases (find key c.map_index)) [
        | inl miss ↦ elim (claim_cases c key) [
          | inl (_, no_slot) ↦
              (miss, λ n h. first_free-none c.index_cache 0 n no_slot (omega (arith, v.slots)))
          | inr (j, got, _) ↦ ground (arith, lookup_miss c key miss)
        ]
        | inr (j, hit) ↦ ground (arith, lookup_hit c key j hit)
      ]

      full :
          (find key c.map_index ≡ none)
            × ((n : ℕ) → n < max_source_lidar → get_elem? c.index_cache n ≡ some true)
          → (lookup_or_claim c key).0 ≡ none
      full (miss, all) = elim (claim_cases c key) [
        | inl (got, _) ↦ ground (arith, lookup_miss c key miss)
        | inr (j, _, free) ↦
            ground (arith, v.slots, all j, get_elem?-some-lt c.index_cache j false free)
      ]

  -- `ResetIndex` of a handle that has the index i keeps the index consistent, frees slot i and
  -- leaves the other handles alone.
  pub reset_index-frees :
      (other i : ℕ)
      → other ≢ handle
      → get_index c livox_lidar_type handle ≡ some i
      → let c' = reset_index c livox_lidar_type handle in
        IsConsistent c'
        × (get_index c' livox_lidar_type handle ≡ none)
        × (get_elem? c'.index_cache i ≡ some false)
        × (get_index c' livox_lidar_type other ≡ get_index c livox_lidar_type other)
  reset_index-frees other i ne e =
      let key : Key = key_of handle in
      let hit = sym (get_index-livox handle c) ∙ e in
      let c' : CacheIndex = record {
        map_index = erase key c.map_index;
        index_cache = set c.index_cache i false;
      } in
      let done = reset_index-livox handle c ∙ release_hit c key i hit in
      rw (done, get_index-livox handle c', get_index-livox other c', get_index-livox other c)
        (
          released-IsConsistent v key i hit,
          ground (arith, find-erase key key c.map_index, text_eq_refl key),
          get_elem?-set_self c.index_cache i false
              (get_elem?-some-lt c.index_cache i true (v.taken key i hit)),
          ground (
            arith,
            find-erase key (key_of other) c.map_index,
            key_of_ne handle other (λ p. ne (sym p)),
          ),
        )

-- A handle that has an index gets it without a change.
pub get_free_index-known :
    (c : CacheIndex) (handle i : ℕ)
    → get_index c livox_lidar_type handle ≡ some i
    → get_free_index c livox_lidar_type handle ≡ (some i, c)
get_free_index-known c handle i e =
    get_free_index-livox handle c
    ∙ lookup_hit c (key_of handle) i (sym (get_index-livox handle c) ∙ e)

-- When `GetFreeIndex` fails, nothing has changed.
pub get_free_index-unchanged :
    (c : CacheIndex) (handle : ℕ)
    → (get_free_index c livox_lidar_type handle).0 ≡ none
    → (get_free_index c livox_lidar_type handle).1 ≡ c
get_free_index-unchanged c handle = rw (get_free_index-livox handle c) unchanged
  where
    unchanged :
        (lookup_or_claim c (key_of handle)).0 ≡ none → (lookup_or_claim c (key_of handle)).1 ≡ c
    unchanged e = elim (Option-cases (find (key_of handle) c.map_index)) [
      | inl miss ↦ elim (claim_cases c (key_of handle)) [
        | inl (same, _) ↦ ground (arith, lookup_miss c (key_of handle) miss)
        | inr (j, got, _) ↦ ground (arith, lookup_miss c (key_of handle) miss)
      ]
      | inr (j, hit) ↦ ground (arith, lookup_hit c (key_of handle) j hit)
    ]
