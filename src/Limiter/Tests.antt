-- ===== src/Limiter/Tests.antt =====
-- A limiter of one slot, with a job that runs.
use triplet.Common.{ℕ, suc, ◌↔◌, ◌≡◌, ◌≤◌, ◌<◌, refl, true, false, some}
use triplet.Common.Int.{pos}
use triplet.Limiter.{Acquired, new_limiter, acquire, release}
use triplet.Limiter.Slots.{Jobs, limiter_slots}

one_slot : new_limiter (pos 1) ≡ some 1
unfolding new_limiter
one_slot = refl

one_job : Jobs (some 1) 1 1
unfolding acquire
one_job = Jobs.asked false true Jobs.idle

limiter_slots_example :
    (1 ≤ 1)
    × (((acquire (some 1) false true 1).1 ≡ Acquired.acquired) ↔ (1 < 1))
    × ((others : ℕ) → 1 ≡ suc others → release (some 1) 1 ≡ some others)
limiter_slots_example = limiter_slots 1 1 1 one_job
