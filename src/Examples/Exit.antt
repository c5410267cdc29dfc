-- ===== src/Examples/Exit.antt =====
-- A poll thread and the destructor of the driver's node, with the semaphore at 0.
use auto_fastlio.Prelude.{ℕ, ◌≡◌, ◌≢◌, ◌⊎◌}
use auto_fastlio.Driver.Threads.{blocked, joined, packet_step, here}
use auto_fastlio.Driver.Exit.{Ends, exiting, exit_joins_or_blocks}

exit_joins_or_blocks_example :
    Ends (packet_step (exiting blocked 0))
    × (Ends (exiting blocked 0)
        ⊎ ((blocked ≡ blocked)
            × (◌≡◌ {A = ℕ} 0 0)
            × ((exiting blocked 0).place ≡ blocked)
            × ((exiting blocked 0).ending ≢ joined)))
exit_joins_or_blocks_example = exit_joins_or_blocks blocked 0 (exiting blocked 0) here
