-- ===== src/Driver/Exit.antt =====
-- When the destructor of livox_ros_driver2/src/driver_node.cpp comes to its end.
use auto_fastlio.Prelude.{
  some_injective, ℕ, zero, suc, ◌≡◌, refl, ◌≢◌, sym, ◌∙◌, subst, true, Option, none, some, ◌>>=◌,
  arith, ◌⊎◌, inl, inr, ◌≤◌, ◌<◌,
}
use auto_fastlio.Semaphore.{wait, signal, signal_if_zero}
use auto_fastlio.Driver.Threads.{
  Place, asleep, calling, blocked, polling, testing, ended, Ending, running, requested, signalled,
  joined, Poll, thread_step, exit_step, packet_step, QuietStep, by_thread, by_exit, Reach, here,
  next,
}

-- The thread waits at a semaphore of 0, and the destructor has not joined it.
pub record IsStuck (s : Poll) : Type 0 where
  pub place : s.place ≡ blocked
  pub semaphore : s.semaphore ≡ 0
  pub ending : s.ending ≢ joined

thread_step-blocked :
    (p : Place) (s : Poll) → p ≡ blocked → s.semaphore ≡ 0 → thread_step p s ≡ none
unfolding thread_step wait
thread_step-blocked p s place zero_count = rw place (waits s.semaphore zero_count)
  where
    waits :
        (n : ℕ)
        → n ≡ 0
        → elim (wait n) [
          | none ↦ none
          | some count ↦ some (record s { place = polling; semaphore = count })
        ]
          ≡ none
    waits n e = rw e refl

exit_step-IsStuck :
    (g : Ending) (p : Place) (s s' : Poll)
    → p ≡ blocked
    → s.place ≡ blocked
    → s.semaphore ≡ 0
    → exit_step g p s ≡ some s'
    → IsStuck s'
unfolding exit_step
exit_step-IsStuck running p s s' at place count e =
    subst IsStuck (some_injective e)
      (record { place = place; semaphore = count; ending = λ c. cc c })
exit_step-IsStuck requested p s s' at place count e =
    subst IsStuck (some_injective e)
      (record { place = place; semaphore = count; ending = λ c. cc c })
exit_step-IsStuck signalled ended s s' at place count e = absurd (cc at)
exit_step-IsStuck signalled blocked s s' at place count e = absurd (cc e)
exit_step-IsStuck signalled asleep s s' at place count e = absurd (cc e)
exit_step-IsStuck signalled calling s s' at place count e = absurd (cc e)
exit_step-IsStuck signalled polling s s' at place count e = absurd (cc e)
exit_step-IsStuck signalled testing s s' at place count e = absurd (cc e)
exit_step-IsStuck joined p s s' at place count e = absurd (cc e)

step-IsStuck : {s s' : Poll} → QuietStep s s' → IsStuck s → IsStuck s'
step-IsStuck {s} {s'} (by_thread e) stuck =
    absurd (cc (sym (thread_step-blocked s.place s stuck.place stuck.semaphore) ∙ e))
step-IsStuck {s} {s'} (by_exit e) stuck =
    exit_step-IsStuck s.ending s.place s s' stuck.place stuck.place stuck.semaphore e

Reach-IsStuck : {s t : Poll} → IsStuck s → Reach s t → IsStuck t
Reach-IsStuck stuck here = stuck
Reach-IsStuck stuck (next r q) = step-IsStuck q (Reach-IsStuck stuck r)

-- `n` steps of the thread.
unfoldable pub run_thread : ℕ → Poll → Option Poll
run_thread zero s = some s
run_thread (suc n) s = thread_step s.place s >>= λ t. run_thread n t

-- Both exit flags are set, and the destructor is at its join.
abbrev pub exiting : Place → ℕ → Poll
exiting place semaphore = record {
  place = place;
  semaphore = semaphore;
  request_exit = true;
  exit_signal = true;
  ending = signalled;
}

-- The thread comes to its end, and is joined.
abbrev pub Ends : Poll → Type 0
Ends s =
    (k : ℕ) × (u : Poll) × (k ≤ 4)
    × (run_thread k s ≡ some u)
    × (exit_step u.ending u.place u ≡ some (record u { ending = joined }))

exiting-Ends : (p : Place) (n : ℕ) → (p ≢ blocked) ⊎ (0 < n) → Ends (exiting p n)
unfolding run_thread thread_step exit_step wait
exiting-Ends asleep n h = (3, exiting ended n, omega arith, refl, refl)
exiting-Ends calling n h = (2, exiting ended n, omega arith, refl, refl)
exiting-Ends blocked zero (inl apart) = absurd (apart refl)
exiting-Ends blocked zero (inr h) = absurd (omega arith)
exiting-Ends blocked (suc n) h = (3, exiting ended n, omega arith, refl, refl)
exiting-Ends polling n h = (2, exiting ended n, omega arith, refl, refl)
exiting-Ends testing n h = (1, exiting ended n, omega arith, refl, refl)
exiting-Ends ended n h = (0, exiting ended n, omega arith, refl, refl)

signal_if_zero-positive : (n : ℕ) → 0 < signal_if_zero n
unfolding signal_if_zero signal
signal_if_zero-positive n = ground arith

packet-Ends : (p : Place) (n : ℕ) → Ends (packet_step (exiting p n))
unfolding packet_step
packet-Ends p n = exiting-Ends p (signal_if_zero n) (inr (signal_if_zero-positive n))

joins_or_waits :
    (p : Place) (n : ℕ) (t : Poll)
    → Reach (exiting p n) t
    → Ends (exiting p n) ⊎ ((p ≡ blocked) × (n ≡ 0) × (t.place ≡ blocked) × (t.ending ≢ joined))
joins_or_waits asleep n t r = inl (exiting-Ends asleep n (inl (λ e. cc e)))
joins_or_waits calling n t r = inl (exiting-Ends calling n (inl (λ e. cc e)))
joins_or_waits polling n t r = inl (exiting-Ends polling n (inl (λ e. cc e)))
joins_or_waits testing n t r = inl (exiting-Ends testing n (inl (λ e. cc e)))
joins_or_waits ended n t r = inl (exiting-Ends ended n (inl (λ e. cc e)))
joins_or_waits blocked (suc n) t r = inl (exiting-Ends blocked (suc n) (inr (omega arith)))
joins_or_waits blocked zero t r =
    let stuck = Reach-IsStuck (record { place = refl; semaphore = refl; ending = λ e. cc e }) r in
    inr (refl, refl, stuck.place, stuck.ending)

-- Once the destructor has set both flags and is at its join, wherever the thread stands and
-- whatever the semaphore counts: after one more packet is stored, at most four steps of the thread
-- end it and the join returns. Without a packet, either the same holds; or the thread waits at a
-- semaphore of 0, and then, in every state that the steps of the two can reach, it still waits and
-- the join has not returned.
pub exit_joins_or_blocks :
    (p : Place) (n : ℕ) (t : Poll)
    → Reach (exiting p n) t
    → Ends (packet_step (exiting p n))
      × (Ends (exiting p n) ⊎ ((p ≡ blocked) × (n ≡ 0) × (t.place ≡ blocked) × (t.ending ≢ joined)))
exit_joins_or_blocks p n t r = (packet-Ends p n, joins_or_waits p n t r)
