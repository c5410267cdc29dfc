-- ===== src/Lds/Readings.antt =====
-- `StorageImuData` of lds.cpp: where a reading goes.
use native.Mathlib.Decide.{ℕ_discrete}
use auto_fastlio.Prelude.{
  ℕ, ◌+◌, leb, true, some_injective, get_elem?-some-lt, ==_iff, ◌≡◌, refl, sym, ap, ◌∙◌, inl, inr,
  false, none, some, List, [], ◌∷◌, ◌++◌, ◌==◌, get_elem?, set, length-set, arith, Option,
  Bool-cases, if◌then◌else◌, append-nil, subst, get_elem?-set_ne, get_elem?-lt, Option-cases,
  get_elem?-set_self,
}
use auto_fastlio.Comm.{ImuData, livox_lidar_type}
use auto_fastlio.CacheIndex.{get_index}
use auto_fastlio.CacheIndex.Answers.{get_index-lt}
use auto_fastlio.Ldq.Refine.{Entry}
use auto_fastlio.ImuQueue
use auto_fastlio.Numerics.{Numerics}
use auto_fastlio.Semaphore.{signal, signal_if_zero}
use auto_fastlio.Lds.{LidarDevice, Lds, storage_imu_data}
use auto_fastlio.Lds.Ready.{capacity, Contains}
use auto_fastlio.Lds.Frames.{IsReady}

module _ (N : Numerics) where
  empty-snoc :
      (xs : List (ImuData N.Float)) (x : ImuData N.Float) → ImuQueue.empty (xs ++ x ∷ []) ≡ false
  unfolding ImuQueue.empty
  empty-snoc [] x = refl
  empty-snoc (y ∷ xs) x = refl

  -- The device that a reading belongs to, and what it adds to the queue of device j.
  unfoldable pub owner : Lds N → ImuData N.Float → Option ℕ
  owner lds imu =
      if imu.lidar_type == livox_lidar_type
      then get_index lds.cache_index imu.lidar_type imu.handle
      else none

  unfoldable pub arriving : Option ℕ → ℕ → ImuData N.Float → List (ImuData N.Float)
  arriving none j imu = []
  arriving (some i) j imu = if i == j then imu ∷ [] else []

  abbrev with_reading : LidarDevice N.Float → ImuData N.Float → LidarDevice N.Float
  with_reading lidar imu = record lidar { imu_data = lidar.imu_data ++ imu ∷ [] }

  abbrev stored : Lds N → ℕ → LidarDevice N.Float → ImuData N.Float → Lds N
  stored lds i lidar imu = record lds {
    lidars = set lds.lidars i (with_reading lidar imu);
    imu_semaphore = signal_if_zero lds.imu_semaphore;
  }

  stored-IsReady :
      (lds : Lds N) (i : ℕ) (lidar : LidarDevice N.Float) (imu : ImuData N.Float)
      → IsReady N lds
      → get_elem? lds.lidars i ≡ some lidar
      → IsReady N (stored lds i lidar imu)
  stored-IsReady lds i lidar imu ready at = record {
    count = length-set lds.lidars i (with_reading lidar imu) ∙ ready.count;
    queues = λ k l e. elim (ℕ_discrete i k) [
      | yes same ↦
          let found : some (with_reading lidar imu) ≡ some l =
            sym (
              get_elem?-set_self lds.lidars i (with_reading lidar imu)
                (get_elem?-some-lt lds.lidars i lidar at))
            ∙ ap (get_elem? (set lds.lidars i (with_reading lidar imu))) same
            ∙ e in
          subst
            (λ t. (es : List (Entry N.Float)) × Contains (capacity N lds.publish_freq) t.queue es)
            (some_injective found) (ready.queues i lidar at)
      | no apart ↦
          ready.queues k l
            (sym (get_elem?-set_ne lds.lidars i k (with_reading lidar imu) apart) ∙ e)
    ];
    cache = ready.cache;
  }

  storage_imu_data-dropped :
      (garbage imu : ImuData N.Float) (lds : Lds N)
      → owner lds imu ≡ none
      → storage_imu_data N garbage lds imu ≡ some lds
  unfolding owner storage_imu_data
  storage_imu_data-dropped garbage imu lds e =
      elim (Bool-cases (imu.lidar_type == livox_lidar_type)) [
        | inl livox ↦
            let unknown : get_index lds.cache_index imu.lidar_type imu.handle ≡ none =
              rw livox at e in
            rw (livox, storage_imu_data, unknown) refl
        | inr foreign ↦ rw foreign refl
      ]

  owner-some :
      (lds : Lds N) (imu : ImuData N.Float) (i : ℕ)
      → owner lds imu ≡ some i
      → (imu.lidar_type ≡ livox_lidar_type)
        × (get_index lds.cache_index imu.lidar_type imu.handle ≡ some i)
  unfolding owner
  owner-some lds imu i e = elim (Bool-cases (imu.lidar_type == livox_lidar_type)) [
    | inl livox ↦ ((==_iff imu.lidar_type livox_lidar_type).0 livox, rw livox at e)
    | inr foreign ↦ ground (arith, foreign, e)
  ]

  storage_imu_data-stored :
      (garbage imu : ImuData N.Float) (lds : Lds N) (i : ℕ) (lidar : LidarDevice N.Float)
      → owner lds imu ≡ some i
      → get_elem? lds.lidars i ≡ some lidar
      → storage_imu_data N garbage lds imu
        ≡ some (stored lds i lidar (record imu { slot = garbage.slot }))
  unfolding storage_imu_data ImuQueue.push ImuQueue.empty
  storage_imu_data-stored garbage imu lds i lidar e at =
      let (livox, known) = owner-some lds imu i e in
      ground
        (arith, livox, known, at, empty-snoc lidar.imu_data (record imu { slot = garbage.slot }))

  stored-device :
      (lds : Lds N) (i j : ℕ) (at_i at_j : LidarDevice N.Float) (imu : ImuData N.Float)
      → get_elem? lds.lidars i ≡ some at_i
      → get_elem? lds.lidars j ≡ some at_j
      → get_elem? (stored lds i at_i imu).lidars j
        ≡ some (record at_j { imu_data = at_j.imu_data ++ arriving (some i) j imu })
  unfolding arriving
  stored-device lds i j at_i at_j imu e f = elim (ℕ_discrete i j) [
    | yes same ↦
        let one : at_i ≡ at_j = some_injective (sym e ∙ ap (get_elem? lds.lidars) same ∙ f) in
        let met : (i == j) ≡ true = (==_iff i j).1 same in
        rw met (
          ap (get_elem? (set lds.lidars i (with_reading at_i imu))) (sym same)
          ∙ get_elem?-set_self lds.lidars i (with_reading at_i imu)
              (get_elem?-some-lt lds.lidars i at_i e)
          ∙ ap (λ l. some (with_reading l imu)) one)
    | no apart ↦
        let missed : (i == j) ≡ false = ground (arith, ==_iff i j, apart) in
        rw missed (
          get_elem?-set_ne lds.lidars i j (with_reading at_i imu) apart
          ∙ f
          ∙ ap (λ t. some (record at_j { imu_data = t })) (sym (append-nil at_j.imu_data)))
  ]

  -- `StorageImuData` on a data source that is ready, for any reading: it is defined, the data source
  -- stays ready, every device j keeps all it has and gets the reading at the end of its IMU queue
  -- exactly if the reading is of a Livox device whose index is j (all fields but `slot` as they
  -- came); and if it was stored, a semaphore at 0 goes
  -- to 1, and otherwise the semaphore stays.
  pub storage_imu_data_lem :
      (garbage imu : ImuData N.Float) (lds : Lds N) (j : ℕ) (lidar : LidarDevice N.Float)
      → IsReady N lds
      → get_elem? lds.lidars j ≡ some lidar
      → (lds' : Lds N) × (storage_imu_data N garbage lds imu ≡ some lds')
        × IsReady N lds'
        × (get_elem? lds'.lidars j
            ≡ some (record lidar {
              imu_data =
                  lidar.imu_data ++ arriving (owner lds imu) j (record imu { slot = garbage.slot });
            }))
        × (lds'.imu_semaphore ≡ elim (owner lds imu) [
          | none ↦ lds.imu_semaphore
          | some i ↦ if lds.imu_semaphore == 0 then 1 else lds.imu_semaphore
        ])
  unfolding arriving signal_if_zero signal
  storage_imu_data_lem garbage imu lds j lidar ready at = elim (Option-cases (owner lds imu)) [
    | inl nobody ↦ (
      lds,
      storage_imu_data-dropped garbage imu lds nobody,
      ready,
      rw nobody
          (at ∙ ap (λ t. some (record lidar { imu_data = t })) (sym (append-nil lidar.imu_data))),
      rw nobody refl,
    )
    | inr (i, known) ↦
        let inside =
          get_index-lt ready.cache imu.lidar_type imu.handle i (owner-some lds imu i known).1 in
        let (device, there) = get_elem?-lt lds.lidars i (omega (arith, inside, ready.count)) in
        let reading = record imu { slot = garbage.slot } in
        (
          stored lds i device reading,
          storage_imu_data-stored garbage imu lds i device known there,
          stored-IsReady lds i device reading ready there,
          rw known (stored-device lds i j device lidar reading there at),
          rw known (raised lds.imu_semaphore),
        )
  ]
    where
      raised : (n : ℕ) → (if leb n 0 then n + 1 else n) ≡ (if n == 0 then 1 else n)
      raised n = ground arith
