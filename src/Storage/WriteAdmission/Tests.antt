-- ===== src/Storage/WriteAdmission/Tests.antt =====
-- The code's test of the limit after a read wait, and each theorem at an input. A nanosecond is the
-- time of one byte here.
use feuer.Base.{ℕ, ◌+◌, ◌≤◌, ◌≡◌, refl, [], ◌∷◌, List, none, some, true, false}
use feuer.Storage.WriteAdmission.{
  ReadQueueWaiters, remove_waiting_read, wait_ended_recently, limited, must_wait, record_write,
}
use feuer.Storage.WriteAdmission.Pacing.{Write, Admitted, taken, next_after, next_after-paced}

program : Unit {0}
unfolding remove_waiting_read wait_ended_recently limited must_wait record_write Admitted taken
    next_after
program = tt

abbrev waiting : ReadQueueWaiters
waiting = record { waiting_reads = 1; last_wait_ended_at = none }

abbrev ended : ReadQueueWaiters
ended = record { waiting_reads = 0; last_wait_ended_at = some 1000 }

wait-test :
    (remove_waiting_read waiting 1000 ≡ some ended)
    × (must_wait ended 0 true 100000999 ≡ true)
    × (must_wait ended 0 true 100001000 ≡ false)
unfolding program
wait-test = (refl, refl, refl)

abbrev spacing : ℕ → ℕ
spacing bytes = bytes

abbrev write : ℕ → ℕ → Write
write bytes now = record { bytes = bytes; now = now; waiters = waiting; has_active_writes = false }

abbrev writes : List Write
writes = write 4096 1000 ∷ write 8192 5096 ∷ []

writes-Admitted : Admitted spacing 900 writes
unfolding program
writes-Admitted = (refl, refl, (refl, refl, tt))

next_after-paced_example : 900 + taken spacing writes ≤ next_after spacing 900 writes
next_after-paced_example = next_after-paced spacing 900 writes writes-Admitted

removed-test : remove_waiting_read waiting 1000 ≡ some ended
unfolding program
removed-test = refl
