-- ===== src/Storage/WriteAdmission/Pacing.antt =====
-- The rate of writes that are admitted while reads wait.
use feuer.Base.{ℕ, ◌+◌, ◌≤◌, ◌<◌, ◌≡◌, List, [], ◌∷◌, some, Bool, true, false, arith}
use feuer.Storage.WriteAdmission.{
  ReadQueueWaiters, write_limit_after_read_wait, remove_waiting_read, wait_ended_recently, limited,
  must_wait, record_write,
}

-- A write: its bytes, the instant, and what the queue and the other writes were then.
pub record Write : Type 0 where
  pub bytes : ℕ
  pub now : ℕ
  pub waiters : ReadQueueWaiters
  pub has_active_writes : Bool

-- Each write is admitted under the limit, and recorded.
unfoldable pub Admitted : (ℕ → ℕ) → ℕ → List Write → Type 0
Admitted spacing next [] = Unit
Admitted spacing next (w ∷ ws) =
    (limited w.waiters w.now ≡ true)
    × (must_wait w.waiters next w.has_active_writes w.now ≡ false)
    × Admitted spacing (record_write spacing w.bytes w.now) ws

-- The times that the bytes take.
unfoldable pub taken : (ℕ → ℕ) → List Write → ℕ
taken spacing [] = 0
taken spacing (w ∷ ws) = spacing w.bytes + taken spacing ws

-- The instant from which the next write may start.
unfoldable pub next_after : (ℕ → ℕ) → ℕ → List Write → ℕ
next_after spacing next [] = next
next_after spacing next (w ∷ ws) = next_after spacing (record_write spacing w.bytes w.now) ws

admitted-late :
    (w : ReadQueueWaiters) (next : ℕ) (active : Bool) (now : ℕ)
    → limited w now ≡ true
    → must_wait w next active now ≡ false
    → next ≤ now
unfolding must_wait
admitted-late w next active now l h = ground arith

-- Writes admitted one after the other under the limit take at least the time of their bytes: from any
-- instant at which a first may start to the one from which the next may.
pub next_after-paced :
    (spacing : ℕ → ℕ) (next : ℕ) (ws : List Write)
    → Admitted spacing next ws
    → next + taken spacing ws ≤ next_after spacing next ws
unfolding Admitted taken next_after record_write
next_after-paced spacing next [] h = omega arith
next_after-paced spacing next (w ∷ ws) h =
    let rest = next_after-paced spacing (w.now + spacing w.bytes) ws h.2 in
    let late = admitted-late w.waiters next w.has_active_writes w.now h.0 h.1 in
    omega (arith, rest, late)

-- For 100 ms after a read stopped waiting, the limit holds in the state that this leaves.
remove_waiting_read-limited :
    (w v : ReadQueueWaiters) (ended now : ℕ)
    → remove_waiting_read w ended ≡ some v
    → ended ≤ now
    → now < ended + write_limit_after_read_wait
    → limited v now ≡ true
unfolding remove_waiting_read limited wait_ended_recently
remove_waiting_read-limited w v ended now e h k = ground arith
