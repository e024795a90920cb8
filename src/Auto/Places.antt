-- ===== src/Auto/Places.antt =====
-- How many letters are published at once, and that the loop does not wait for ever.
use turbocookedrabbit.Service.{Desk}
use turbocookedrabbit.Letter.{Letter}
use turbocookedrabbit.Auto.{
  Auto, Goroutine, new_auto, advance, Loop, begin_round, receive_letter, hand_over, holding,
  leaving, start_auto_publishing, poll_auto_stop, stop_auto_publish, starting, draining, polling,
  publish_returns, free_place, parallel_publishes,
}
use turbocookedrabbit.Auto.Order.{Run, here, starts, stops, queues, advances, publishes, frees}
use turbocookedrabbit.Base.{
  ℕ, false, List, Option, ◌≡◌, Bool, [], ◌++◌, ◌∷◌, some, arith, refl, ◌==◌, ◌+◌, ◌/◌, ◌≤◌, ◌<◌,
  ◌⊎◌, inl, inr, if◌then◌else◌, ltb, ◌&&◌, Bool-cases, subst, if-true,
}

-- How many goroutines fill a place of the semaphore `k`.
abbrev pub filling : ℕ → List Goroutine → ℕ
filling k [] = 0
filling k (g ∷ gs) = (if g.semaphore == k then 1 else 0) + filling k gs

-- How many of them are still publishing.
abbrev pub publishing : ℕ → List Goroutine → ℕ
publishing k [] = 0
publishing k (g ∷ gs) = (if g.publishing && g.semaphore == k then 1 else 0) + publishing k gs

-- Every filled place is a goroutine's, no semaphore holds more than its capacity, and those that
-- are not made yet have no goroutines.
pub record IsCounted (capacity : ℕ) (a : Auto) : Type 0 where
  pub counted : (k : ℕ) → filling k a.goroutines ≡ a.places k
  pub bounded : (k : ℕ) → a.places k ≤ capacity
  pub later : (k : ℕ) → a.semaphore < k → a.places k ≡ 0

publishing-le-filling : (k : ℕ) (gs : List Goroutine) → publishing k gs ≤ filling k gs
publishing-le-filling k [] = omega arith
publishing-le-filling k (g ∷ gs) = ground (arith, publishing-le-filling k gs)

filling-middle :
    (k : ℕ) (before : List Goroutine) (g : Goroutine) (after : List Goroutine)
    → filling k (before ++ g ∷ after)
      ≡ (if g.semaphore == k then 1 else 0) + filling k (before ++ after)
filling-middle k [] g after = refl
filling-middle k (x ∷ before) g after =
    let n : ℕ = if g.semaphore == k then 1 else 0 in
    let m : ℕ = if x.semaphore == k then 1 else 0 in
    let ih : filling k (before ++ g ∷ after) ≡ n + filling k (before ++ after) =
      filling-middle k before g after in
    omega (arith, ih)

begin_round-IsCounted :
    (capacity : ℕ) (others : List Loop) (a : Auto)
    → IsCounted capacity a
    → IsCounted capacity (begin_round others a)
unfolding begin_round
begin_round-IsCounted capacity others a h = elim (Bool-cases (ltb 0 a.auto_stop)) [
  | inl stop ↦ rw stop (record { counted = h.counted; bounded = h.bounded; later = h.later })
  | inr go ↦ rw go (record {
    counted = λ k. ground (arith, h.counted k, h.later k);
    bounded = λ k. ground (arith, h.bounded k);
    later = λ k p. ground (arith, h.later k);
  })
]

hand_over-IsCounted :
    (capacity : ℕ) (letter : Option Letter) (others : List Loop) (a b : Auto)
    → hand_over capacity letter others a ≡ some b
    → IsCounted capacity a
    → IsCounted capacity b
unfolding hand_over
hand_over-IsCounted capacity letter others a b e h = record {
  counted = λ k. ground (arith, h.counted k);
  bounded = λ k. ground (arith, h.bounded k);
  later = λ k p. ground (arith, h.later k);
}

-- The fields that the counts are about.
IsCounted-kept :
    (capacity : ℕ) (a b : Auto)
    → b.goroutines ≡ a.goroutines
    → b.places ≡ a.places
    → b.semaphore ≡ a.semaphore
    → IsCounted capacity a
    → IsCounted capacity b
IsCounted-kept capacity a b e f g h = record {
  counted = rw (e, f) (h.counted);
  bounded = rw f (h.bounded);
  later = rw (f, g) (h.later);
}

receive_letter-kept :
    (letters : List Letter) (others : List Loop) (a : Auto)
    → ((receive_letter letters others a).goroutines ≡ a.goroutines)
      × ((receive_letter letters others a).places ≡ a.places)
      × ((receive_letter letters others a).semaphore ≡ a.semaphore)
unfolding receive_letter
receive_letter-kept [] others a = (ground arith, ground arith, ground arith)
receive_letter-kept (x ∷ rest) others a = (refl, refl, refl)

poll_auto_stop-kept :
    (others : List Loop) (a b : Auto)
    → poll_auto_stop others a ≡ some b
    → (b.goroutines ≡ a.goroutines) × (b.places ≡ a.places) × (b.semaphore ≡ a.semaphore)
unfolding poll_auto_stop
poll_auto_stop-kept others a b e = (ground arith, ground arith, ground arith)

advance-IsCounted :
    (capacity : ℕ) (place : Loop) (others : List Loop) (a b : Auto)
    → advance capacity place others a ≡ some b
    → IsCounted capacity a
    → IsCounted capacity b
unfolding advance
advance-IsCounted capacity starting others a b e h =
    subst (IsCounted capacity) (cc) (begin_round-IsCounted capacity others a h)
advance-IsCounted capacity draining others a b e h =
    let (x, y, z) = receive_letter-kept a.desk.letters others a in
    subst (IsCounted capacity) (cc)
      (IsCounted-kept capacity a (receive_letter a.desk.letters others a) x y z h)
advance-IsCounted capacity (holding letter) others a b e h =
    hand_over-IsCounted capacity letter others a b e h
advance-IsCounted capacity polling others a b e h =
    let (x, y, z) = poll_auto_stop-kept others a b e in IsCounted-kept capacity a b x y z h
advance-IsCounted capacity leaving others a b e h =
    subst (IsCounted capacity) (cc) (
      IsCounted-kept capacity a (record a { auto_started = false; loops = others }) refl refl refl
        h)

free_place-IsCounted :
    (capacity : ℕ) (before : List Goroutine) (g : Goroutine) (after : List Goroutine) (a b : Auto)
    → a.goroutines ≡ before ++ g ∷ after
    → free_place before g after a ≡ some b
    → IsCounted capacity a
    → IsCounted capacity b
unfolding free_place
free_place-IsCounted capacity before g after a b l e h =
    let was : (k : ℕ) → filling k (before ++ g ∷ after) ≡ a.places k =
      λ k. rw (← l) (h.counted k) in
    record {
      counted = λ k. ground (arith, was k, filling-middle k before g after);
      bounded = λ k. ground (arith, h.bounded k);
      later = λ k p. ground (arith, h.later k);
    }

Run-IsCounted :
    {capacity : ℕ} {s a : Auto} {sent : List Letter} {again : Bool}
    → Run capacity s sent again a
    → IsCounted capacity s
    → IsCounted capacity a
unfolding publish_returns start_auto_publishing stop_auto_publish
Run-IsCounted here h = h
Run-IsCounted (starts {a = a} r) h =
    IsCounted-kept _ a _ (ground arith) (ground arith) (ground arith) (Run-IsCounted r h)
Run-IsCounted (stops {a = a} r) h =
    IsCounted-kept _ a _ (ground arith) (ground arith) (ground arith) (Run-IsCounted r h)
Run-IsCounted (queues {a = a} letter d r e) h =
    IsCounted-kept _ a _ refl refl refl (Run-IsCounted r h)
Run-IsCounted (advances {a = a} {b = b} place others r l e) h =
    advance-IsCounted _ place others a b e (Run-IsCounted r h)
Run-IsCounted (publishes {a = a} before g after r l p) h =
    let c = Run-IsCounted r h in
    record {
      counted = λ k.
          let was : filling k (before ++ g ∷ after) ≡ a.places k = rw (← l) (c.counted k) in
          omega (
            arith,
            was,
            filling-middle k before g after,
            filling-middle k before (record g { publishing = false }) after,
          );
      bounded = c.bounded;
      later = c.later;
    }
Run-IsCounted (frees {a = a} {b = b} before g after r l p e) h =
    free_place-IsCounted _ before g after a b l e (Run-IsCounted r h)

new_auto-IsCounted : (capacity : ℕ) (desk : Desk) → IsCounted capacity (new_auto desk)
new_auto-IsCounted capacity desk = record {
  counted = λ k. refl;
  bounded = λ k. omega arith;
  later = λ k p. refl;
}

-- However a new publisher runs: at most half of MaxCacheChannelCount and one letters are in
-- PublishWithConfirmation at once from one call of deliverLetters.
pub Run-parallel :
    (max_cache_channel_count k : ℕ) {desk : Desk} {sent : List Letter} {again : Bool} {a : Auto}
    → Run (parallel_publishes max_cache_channel_count) (new_auto desk) sent again a
    → publishing k a.goroutines ≤ max_cache_channel_count / 2 + 1
unfolding parallel_publishes
Run-parallel n k {desk = desk} {a = a} r =
    let c = Run-IsCounted r (new_auto-IsCounted (parallel_publishes n) desk) in
    omega (arith, c.counted k, c.bounded k, publishing-le-filling k a.goroutines)

-- Whatever MaxCacheChannelCount is: where the loop of a new publisher waits to hand a letter over,
-- it can do so at once, or goroutines run that fill the places of its semaphore.
pub Run-unblocked :
    (max_cache_channel_count : ℕ) {desk : Desk} {sent : List Letter} {again : Bool} {a : Auto}
    (letter : Option Letter) (others : List Loop)
    → Run (parallel_publishes max_cache_channel_count) (new_auto desk) sent again a
    → a.loops ≡ holding letter ∷ others
    → ((b : Auto) × (advance (parallel_publishes max_cache_channel_count) (holding letter) others a
          ≡ some b))
      ⊎ (0 < filling a.semaphore a.goroutines)
unfolding parallel_publishes advance hand_over
Run-unblocked n {desk = desk} {a = a} letter others r l =
    let c = Run-IsCounted r (new_auto-IsCounted (parallel_publishes n) desk) in
    elim (Bool-cases (ltb (a.places a.semaphore) (n / 2 + 1))) [
      | inl room ↦ inl (_, if-true _ _ room)
      | inr full ↦ inr (ground (arith, c.counted a.semaphore))
    ]
