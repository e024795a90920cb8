-- ===== src/Auto/Restart.antt =====
-- What a second StartAutoPublishing meets.
use turbocookedrabbit.Auto.{
  advance, begin_round, receive_letter, start_auto_publishing, hand_over, stop_auto_publish, Auto,
  leaving, starting, draining, holding, place_at,
}
use turbocookedrabbit.Base.{ℕ, true, false, ◌≡◌, ◌+◌, [], ◌<◌, ◌∷◌, some, arith, refl, none, ◌++◌}

-- An auto-publisher that was stopped, its queue closed and empty, and is started again: its loop
-- hands a nil letter over for publishing, and stands where it receives the next one.
pub restart_hands_nil :
    (capacity : ℕ) (a : Auto)
    → a.auto_started ≡ false
    → a.auto_stop ≡ 0
    → a.loops ≡ []
    → a.desk.letters ≡ []
    → a.desk.letters_closed ≡ true
    → 0 < capacity
    → (b : Auto) × (c : Auto) × (d : Auto) × (advance capacity starting [] (start_auto_publishing a)
        ≡ some b)
      × (advance capacity draining [] b ≡ some c)
      × (advance capacity (holding none) [] c ≡ some d)
      × (d.handed ≡ a.handed ++ none ∷ [])
      × (d.loops ≡ draining ∷ [])
      × (d.desk ≡ a.desk)
unfolding advance begin_round receive_letter hand_over start_auto_publishing
restart_hands_nil capacity a off quiet ended empty_ closed_ room =
    let b = record a {
      auto_started = true;
      semaphore = a.semaphore + 1;
      places = place_at (a.semaphore + 1) 0 a.places;
      loops = draining ∷ [];
    } in
    let c = record b { loops = holding none ∷ [] } in
    let d = record b {
      places = place_at b.semaphore (b.places b.semaphore + 1) b.places;
      goroutines =
          record { letter = none; semaphore = b.semaphore; publishing = true } ∷ a.goroutines;
      handed = a.handed ++ none ∷ [];
    } in
    (b, c, d, ground arith, ground arith, ground arith, refl, refl, refl)

-- A stop that comes while the loop is past its end, with autoStarted still set, stays in autoStop:
-- the loop of the next start takes it and ends, and no letter is received.
pub late_stop :
    (capacity : ℕ) (a : Auto)
    → a.auto_started ≡ true
    → a.auto_stop ≡ 0
    → a.loops ≡ leaving ∷ []
    → (b : Auto) × (c : Auto) × (advance capacity leaving [] (stop_auto_publish a) ≡ some b)
      × (advance capacity starting [] (start_auto_publishing b) ≡ some c)
      × (c.loops ≡ leaving ∷ [])
      × (c.desk ≡ a.desk)
      × (c.handed ≡ a.handed)
unfolding advance begin_round start_auto_publishing stop_auto_publish
late_stop capacity a on quiet last =
    let b = record a { auto_started = false; auto_stop = 1; loops = [] } in
    let c = record a { auto_started = true; auto_stop = 0; loops = leaving ∷ [] } in
    (b, c, ground arith, ground arith, refl, refl, refl)
