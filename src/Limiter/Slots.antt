-- ===== src/Limiter/Slots.antt =====
-- Jobs that acquire a slot and release it once, in any order.
use triplet.Common.{
  ◌↔◌, ℕ, zero, suc, ◌≤◌, ◌<◌, ◌≡◌, refl, ap, sym, inl, inr, Bool, true, false, ◌&&◌, not, Option,
  some, ltb, arith, if_elim, Bool-cases,
}
use triplet.Limiter.{Acquired, acquire, release}

-- The jobs that run, of those that the limiter let pass.
abbrev pub after_acquire : ℕ → Acquired → ℕ
after_acquire running Acquired.acquired = suc running
after_acquire running Acquired.cancelled = running
after_acquire running Acquired.waits = running

-- The elements of the channel and the jobs that run, from an empty channel: a call goes a round in
-- `Acquire`, and a job that runs ends, once it is released.
pub data Jobs (limiter : Option ℕ) : (sent running : ℕ) → Type 0 where
  idle : Jobs limiter 0 0
  asked :
      {sent running : ℕ} (done chosen : Bool)
      → Jobs limiter sent running
      → Jobs limiter
          (acquire limiter done chosen sent).0
          (after_acquire running (acquire limiter done chosen sent).1)
  ended :
      {sent sent' running : ℕ}
      → Jobs limiter sent (suc running)
      → release limiter sent ≡ some sent'
      → Jobs limiter sent' running

-- One element for each job that runs, and no more than the channel holds.
abbrev IsFilled : (capacity sent running : ℕ) → Type 0
IsFilled capacity sent running = (sent ≡ running) × (running ≤ capacity)

acquire-IsFilled :
    (capacity sent running : ℕ) (done chosen : Bool)
    → IsFilled capacity sent running
    → IsFilled capacity
        (acquire (some capacity) done chosen sent).0
        (after_acquire running (acquire (some capacity) done chosen sent).1)
unfolding acquire
acquire-IsFilled capacity sent running done chosen (same, bound) =
    elim (Bool-cases (ltb sent capacity)) [
      | inl free ↦ elim (Bool-cases (done && not chosen)) [
        | inl stop ↦ rw (free, stop) (same, bound)
        | inr go ↦ rw (free, go) (ap suc same, ground (arith, free, same))
      ]
      | inr full ↦ rw full (
          if_elim (λ (out : ℕ × Acquired). IsFilled capacity out.0 (after_acquire running out.1))
            done (λ _. (same, bound)) (λ _. (same, bound)))
    ]

some_injective : {a b : ℕ} → some a ≡ some b → a ≡ b
some_injective e = cc

release-IsFilled :
    (capacity sent sent' running : ℕ)
    → IsFilled capacity sent (suc running)
    → release (some capacity) sent ≡ some sent'
    → IsFilled capacity sent' running
unfolding release
release-IsFilled capacity zero sent' running (same, bound) e = absurd (omega (arith, same))
release-IsFilled capacity (suc sent) sent' running (same, bound) e =
    (omega (arith, sym (some_injective e), same), omega (arith, bound))

Jobs-IsFilled :
    (capacity : ℕ) {sent running : ℕ}
    → Jobs (some capacity) sent running
    → IsFilled capacity sent running
Jobs-IsFilled capacity Jobs.idle = (refl, omega arith)
Jobs-IsFilled capacity (Jobs.asked {sent = sent} {running = running} done chosen jobs) =
    acquire-IsFilled capacity sent running done chosen (Jobs-IsFilled capacity jobs)
Jobs-IsFilled capacity (Jobs.ended {sent = sent} {sent' = sent'} {running = running} jobs e) =
    release-IsFilled capacity sent sent' running (Jobs-IsFilled capacity jobs) e

-- The release of a job that runs does not wait.
release_ready : (capacity running : ℕ) → release (some capacity) (suc running) ≡ some running
unfolding release
release_ready capacity running = refl

-- In every state that calls and ends of jobs lead to, no more jobs run than the limiter allows, a call
-- whose context goes on acquires a slot exactly if fewer run, and a job that runs is released without
-- waiting.
pub limiter_slots :
    (capacity sent running : ℕ)
    → Jobs (some capacity) sent running
    → (running ≤ capacity)
      × (((acquire (some capacity) false true sent).1 ≡ Acquired.acquired) ↔ (running < capacity))
      × ((others : ℕ) → running ≡ suc others → release (some capacity) sent ≡ some others)
unfolding acquire
limiter_slots capacity sent running jobs =
    let (same, bound) = Jobs-IsFilled capacity jobs in
    (bound, acquires same, λ others e. rw (same, e) (release_ready capacity others))
  where
    no : Acquired.waits ≡ Acquired.acquired → ⊥
    no q = cc

    acquires :
        sent ≡ running
        → ((acquire (some capacity) false true sent).1 ≡ Acquired.acquired) ↔ (running < capacity)
    acquires same = elim (Bool-cases (ltb sent capacity)) [
      | inl free ↦ rw free ((λ _. ground (arith, free, same)), (λ _. refl))
      | inr full ↦
          rw full ((λ q. absurd (no q)), (λ less. absurd (ground (arith, full, same, less))))
    ]
