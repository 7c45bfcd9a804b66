-- ===== src/Storage/WriteAdmission.antt =====
-- feuer-storage/src/uring/write_admission.rs: the pacing of writes while reads wait. An instant is a
-- number of nanoseconds. `spacing` is the time that a number of bytes takes at the limited rate, which
-- the code computes in floating point and rounds to nanoseconds.
pub mod Pacing
mod Tests
use feuer.Base.{
  ℕ, zero, suc, ◌+◌, ◌-◌, ◌*◌, List, [], ◌∷◌, Option, none, some, Bool, true, false, ◌&&◌, ◌||◌,
  ltb, ◌==◌, if◌then◌else◌,
}

abbrev pub write_limit_after_read_wait : ℕ
write_limit_after_read_wait = 100 * 1000 * 1000

pub record ReadQueueWaiters : Type 0 where
  pub waiting_reads : ℕ
  pub last_wait_ended_at : Option ℕ

-- `none` is a panic: no read waits.
unfoldable pub remove_waiting_read : ReadQueueWaiters → ℕ → Option ReadQueueWaiters
remove_waiting_read w now =
    if w.waiting_reads == 0
    then none
    else some (record {
      waiting_reads = w.waiting_reads - 1;
      last_wait_ended_at = if w.waiting_reads - 1 == 0 then some now else w.last_wait_ended_at;
    })

unfoldable pub wait_ended_recently : Option ℕ → ℕ → Bool
wait_ended_recently none now = false
wait_ended_recently (some ended) now = ltb (now - ended) write_limit_after_read_wait

unfoldable pub limited : ReadQueueWaiters → ℕ → Bool
limited w now = ltb 0 w.waiting_reads || wait_ended_recently w.last_wait_ended_at now

-- `next_write_at` is the rest of `WriteRateLimit`.
unfoldable pub must_wait : ReadQueueWaiters → ℕ → Bool → ℕ → Bool
must_wait w next_write_at has_active_writes now =
    limited w now && (has_active_writes || ltb now next_write_at)

unfoldable pub record_write : (ℕ → ℕ) → ℕ → ℕ → ℕ
record_write spacing bytes now = now + spacing bytes
