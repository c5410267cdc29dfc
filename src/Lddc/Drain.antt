-- ===== src/Lddc/Drain.antt =====
-- The loops of `PublishPointcloud2` and `PublishCustomPointcloud`: a queue is emptied, oldest
-- packet first, and each packet with points is delivered.
use auto_fastlio.Prelude.{
  ℕ, zero, suc, ◌<◌, ◌≡◌, refl, sym, subst, ◌∙◌, false, Option, none, some, List, [], ◌∷◌,
  if◌then◌else◌, length, ◌>>=◌, >>=-eq-some, arith,
}
use auto_fastlio.Comm.{StoragePacket, PointXyzlt}
use auto_fastlio.Ldq.{LidarDataQueue, blank, queue_is_empty, queue_pop, queue_pop_update}
use auto_fastlio.Ldq.Refine.{Entry, Holds, queue_is_empty_iff, popped_packet}
use auto_fastlio.Ldq.Transfer.{queue_pop-Holds}

-- What a call ends in: a value, a wait on a semaphore, undefined behaviour, or no end within the
-- fuel.
pub data Outcome {ℓ} (A : Type ℓ) : Type ℓ where
  done : A → Outcome A
  waiting : Outcome A
  undefined : Outcome A
  no_fuel : Outcome A

module _ {F : Type 0} {S : Type 0} (deliver : StoragePacket F → S → Option S) where
  -- `if (pkg.points.empty()) continue;`
  abbrev pub deliver_some : StoragePacket F → S → Option S
  deliver_some pkg s = elim pkg.points [ [] ↦ some s | _ ∷ _ ↦ deliver pkg s ]

  -- `while (!QueueIsEmpty(queue)) { StoragePacket pkg; QueuePop(queue, &pkg); … }`
  unfoldable pub drain : ℕ → LidarDataQueue F → S → Outcome (LidarDataQueue F × S)
  drain zero queue s = no_fuel
  drain (suc fuel) queue s =
      let again = drain fuel in
      if queue_is_empty queue then done (queue, s) else elim (queue_pop queue blank) [
        | none ↦ undefined
        | some (_, pkg, queue') ↦ elim (deliver_some pkg s) [
          | none ↦ undefined
          | some s' ↦ again queue' s'
        ]
      ]

  -- The deliveries of a list of entries, in order.
  unfoldable pub deliver_all : List (Entry F) → S → Option S
  deliver_all [] s = some s
  deliver_all (e ∷ es) s = deliver_some (popped_packet blank e) s >>= λ s'. deliver_all es s'

  pub deliver_some-points :
      (pkg : StoragePacket F) (s : S) (x : PointXyzlt F) (xs : List (PointXyzlt F))
      → pkg.points ≡ x ∷ xs
      → deliver_some pkg s ≡ deliver pkg s
  deliver_some-points pkg s x xs split =
      subst (λ l. (elim l [ [] ↦ some s | _ ∷ _ ↦ deliver pkg s ]) ≡ deliver pkg s) (sym split) refl

  pub deliver_some-empty :
      (pkg : StoragePacket F) (s : S) → pkg.points ≡ [] → deliver_some pkg s ≡ some s
  deliver_some-empty pkg s nothing = rw nothing refl

  -- With fuel for every entry the loop ends: the queue is empty, and the entries that it held were
  -- delivered in their order, those without points skipped.
  pub drain_lem :
      (fuel capacity : ℕ) (q : LidarDataQueue F) (es : List (Entry F)) (s s' : S)
      → Holds capacity q es
      → length es < fuel
      → deliver_all es s ≡ some s'
      → (q' : LidarDataQueue F) × (drain fuel q s ≡ done (q', s')) × Holds capacity q' []
  unfolding drain deliver_all
  drain_lem zero capacity q es s s' h enough e = absurd (omega arith)
  drain_lem (suc fuel) capacity q [] s s' h enough e = (q, ground (arith, queue_is_empty_iff h), h)
  drain_lem (suc fuel) capacity q (x ∷ es) s s' h enough e =
      let (popped, h') = queue_pop-Holds blank x es h in
      let (s₁, first, rest) =
        >>=-eq-some (deliver_some (popped_packet blank x) s) (deliver_all es) e in
      let (q', ended, held) =
        drain_lem fuel capacity (queue_pop_update q) es s₁ s' h' (omega arith) rest in
      let more : queue_is_empty q ≡ false = queue_is_empty_iff h ∙ ground arith in
      (q', rw (more, popped, first) ended, held)
