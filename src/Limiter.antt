-- ===== src/Limiter.antt =====
-- internal/vips/limiter.go: the jobs of libvips that run at a time. The channel is the number of its
-- elements; what a job waits for is a step that cannot be taken yet.
pub mod Slots
pub mod Tests
use triplet.Common.{
  ℕ, zero, suc, ◌-◌, Bool, true, false, ◌&&◌, not, Option, none, some, ltb, if◌then◌else◌,
}
use triplet.Common.Int.{ℤ, pos, negsuc}

-- `NewLimiter`: the capacity of the channel, or no limiter.
unfoldable pub new_limiter : ℤ → Option ℕ
new_limiter (pos zero) = none
new_limiter (pos (suc n)) = some (suc n)
new_limiter (negsuc n) = none

-- How a round of the `select` ends. `waits` is that no case is ready.
pub data Acquired : Type 0 where
  acquired cancelled waits : Acquired

-- The channel after a round of `Acquire`, and how it ends. `done` is that the context is done, and
-- `chosen` that the channel is chosen where both cases are ready.
unfoldable pub acquire : Option ℕ → (done chosen : Bool) → ℕ → ℕ × Acquired
acquire none done chosen sent = (sent, Acquired.acquired)
acquire (some capacity) done chosen sent =
    if ltb sent capacity
    then (if done && not chosen then (sent, Acquired.cancelled) else (suc sent, Acquired.acquired))
    else if done
    then (sent, Acquired.cancelled)
    else (sent, Acquired.waits)

-- The function that `Acquire` returns; `none` is that it waits for an element.
unfoldable pub release : Option ℕ → ℕ → Option ℕ
release none sent = some sent
release (some capacity) zero = none
release (some capacity) (suc sent) = some sent
