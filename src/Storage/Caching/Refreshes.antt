-- ===== src/Storage/Caching/Refreshes.antt =====
-- The refreshes that run: a machine whose steps are the calls that may start one and the ends.
use mathlib.Core.Path.{subst}
use triplet.Common.{
  ap, sym, ◌∙◌, ◌≡◌, ◌≢◌, inl, inr, refl, true, false, List, [], ◌∷◌, ◌++◌, arith, All,
  if◌then◌else◌, Bool-cases,
}
use triplet.Text.{Bytes, bytes_eq}
use triplet.Text.Cut.{bytes_eq_refl, bytes_eq_of_ne, ne_of_bytes_eq}
use triplet.Storage.Caching.{is_refreshing, start_refresh, end_refresh}

-- Each identifier stands once.
abbrev pub IsDistinct : List Bytes → Type 0
IsDistinct [] = Unit
IsDistinct (r ∷ rs) = All (λ q. q ≢ r) rs × IsDistinct rs

-- The goroutines that run and the set in the lock, from an empty set: a call to `startRefresh` adds
-- a goroutine where it says so, and any one goroutine that runs may end.
pub data Running : (goroutines refreshing : List Bytes) → Type 0 where
  idle : Running [] []
  called :
      {gs rs : List Bytes} (identifier : Bytes)
      → Running gs rs
      → Running
          (if (start_refresh rs identifier).1 then identifier ∷ gs else gs)
          (start_refresh rs identifier).0
  ended :
      {rs : List Bytes} (younger : List Bytes) (identifier : Bytes) (older : List Bytes)
      → Running (younger ++ identifier ∷ older) rs
      → Running (younger ++ older) (end_refresh rs identifier)

absent_of_test :
    (rs : List Bytes) (identifier : Bytes)
    → is_refreshing rs identifier ≡ false
    → All (λ q. q ≢ identifier) rs
unfolding is_refreshing
absent_of_test [] identifier e = tt
absent_of_test (r ∷ rs) identifier e = elim (Bool-cases (bytes_eq r identifier)) [
  | inl same ↦ absurd (unequal (rw same at e))
  | inr other ↦ (ne_of_bytes_eq r identifier other, absent_of_test rs identifier (rw other at e))
]
  where
    unequal : true ≡ false → ⊥
    unequal q = cc

-- Where it does not stand, nothing is removed.
end_refresh-absent :
    (rs : List Bytes) (identifier : Bytes)
    → All (λ q. q ≢ identifier) rs
    → end_refresh rs identifier ≡ rs
unfolding end_refresh
end_refresh-absent [] identifier h = refl
end_refresh-absent (r ∷ rs) identifier h =
    rw (bytes_eq_of_ne r identifier h.0, end_refresh-absent rs identifier h.1) refl

All-middle {ℓ} :
    (P : Bytes → Type ℓ) (younger : List Bytes) (identifier : Bytes) (older : List Bytes)
    → All P (younger ++ identifier ∷ older)
    → P identifier × All P (younger ++ older)
All-middle P [] identifier older h = h
All-middle P (q ∷ younger) identifier older h =
    let (here, rest) = All-middle P younger identifier older h.1 in (here, (h.0, rest))

-- Where each stands once, the end of a refresh removes exactly its own.
end_refresh-middle :
    (younger : List Bytes) (identifier : Bytes) (older : List Bytes)
    → IsDistinct (younger ++ identifier ∷ older)
    → (end_refresh (younger ++ identifier ∷ older) identifier ≡ younger ++ older)
      × IsDistinct (younger ++ older)
unfolding end_refresh
end_refresh-middle [] identifier older h =
    (rw (bytes_eq_refl identifier) (end_refresh-absent older identifier h.0), h.1)
end_refresh-middle (q ∷ younger) identifier older h =
    let (rest, distinct) = end_refresh-middle younger identifier older h.1 in
    let (other, apart) = All-middle (λ p. p ≢ q) younger identifier older h.0 in
    (rw (bytes_eq_of_ne q identifier (λ e. other (sym e)), rest) refl, (apart, distinct))

start_refresh-IsDistinct :
    (rs : List Bytes) (identifier : Bytes)
    → IsDistinct rs
    → IsDistinct (start_refresh rs identifier).0
unfolding start_refresh
start_refresh-IsDistinct rs identifier h = elim (Bool-cases (is_refreshing rs identifier)) [
  | inl runs ↦ rw runs h
  | inr free ↦ rw free (absent_of_test rs identifier free, h)
]

started :
    (rs : List Bytes) (identifier : Bytes)
    → (if (start_refresh rs identifier).1 then identifier ∷ rs else rs)
      ≡ (start_refresh rs identifier).0
unfolding start_refresh
started rs identifier = ground arith

-- In every state of the machine the set in the lock is that of the goroutines that run, and for no
-- identifier two of them run.
pub refreshes-IsDistinct : {gs rs : List Bytes} → Running gs rs → (gs ≡ rs) × IsDistinct gs
refreshes-IsDistinct idle = (refl, tt)
refreshes-IsDistinct (called {gs = gs} {rs = rs} identifier r) =
    let (same, distinct) = refreshes-IsDistinct r in
    let after =
      ap (λ (l : List Bytes). if (start_refresh rs identifier).1 then identifier ∷ l else l) same
      ∙ started rs identifier in
    (
      after,
      subst IsDistinct (sym after)
          (start_refresh-IsDistinct rs identifier (subst IsDistinct same distinct)),
    )
refreshes-IsDistinct (ended {rs = rs} younger identifier older r) =
    let (same, distinct) = refreshes-IsDistinct r in
    let (removed, left) = end_refresh-middle younger identifier older distinct in
    (sym removed ∙ ap (λ l. end_refresh l identifier) same, left)
