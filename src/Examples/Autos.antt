-- ===== src/Examples/Autos.antt =====
-- A run of the auto-publisher, and a restart.
use turbocookedrabbit.Examples.{letter}
use turbocookedrabbit.Service.{Desk, safe_send}
use turbocookedrabbit.Auto.{
  Auto, advance, begin_round, receive_letter, hand_over, start_auto_publishing, starting, draining,
  holding, parallel_publishes, new_auto, place_at,
}
use turbocookedrabbit.Auto.Order.{
  Run, here, queues, starts, advances, line, held, IsSound, MayReceive, NoNil,
}
use turbocookedrabbit.Auto.Line.{Run-IsSound, Run-line}
use turbocookedrabbit.Auto.Places.{publishing, filling, Run-parallel, Run-unblocked}
use turbocookedrabbit.Auto.Restart.{restart_hands_nil}
use turbocookedrabbit.Base.{
  [], ◌∷◌, ◌≡◌, ◌≤◌, ◌<◌, ◌+◌, ◌/◌, ◌++◌, ◌⊎◌, Bool, refl, none, some, true, false, arith,
}

abbrev empty_desk : Desk
empty_desk = record {
  letters = [];
  letters_closed = false;
  central_err = [];
  max_retry_count = 5;
  shutdown = false;
}

abbrev resting : Auto
resting = new_auto empty_desk

abbrev queued : Auto
queued = record resting { desk = record empty_desk { letters = letter ∷ [] } }

abbrev started : Auto
started = record queued { auto_started = true; loops = starting ∷ [] }

abbrev drains : Auto
drains = record started {
  semaphore = 1;
  places = place_at 1 0 resting.places;
  loops = draining ∷ [];
}

abbrev holds : Auto
holds = record drains { desk = empty_desk; loops = holding (some letter) ∷ [] }

abbrev hands : Auto
hands = record holds {
  places = place_at 1 1 holds.places;
  goroutines = record { letter = some letter; semaphore = 1; publishing = true } ∷ [];
  handed = some letter ∷ [];
  loops = draining ∷ [];
}

-- The queue was closed by a stop.
abbrev ended : Auto
ended = new_auto (record empty_desk { letters_closed = true })

abbrev not_again : Bool
not_again = false

-- A letter is queued, the auto-publisher starts, and the loop receives the letter.
letter_held : Run (parallel_publishes 3) (new_auto empty_desk) (letter ∷ []) not_again holds
unfolding safe_send start_auto_publishing advance begin_round receive_letter parallel_publishes
letter_held =
    let r₁ : Run (parallel_publishes 3) resting (letter ∷ []) false queued =
      queues letter queued.desk here refl in
    let r₂ : Run (parallel_publishes 3) resting (letter ∷ []) false started = starts r₁ in
    let r₃ : Run (parallel_publishes 3) resting (letter ∷ []) false drains =
      advances starting [] r₂ refl refl in
    advances draining [] r₃ refl refl

-- It is handed over.
letter_handed : Run (parallel_publishes 3) (new_auto empty_desk) (letter ∷ []) not_again hands
unfolding advance hand_over parallel_publishes
letter_handed = advances (holding (some letter)) [] letter_held refl refl

Run-IsSound_example :
    IsSound hands × ((not_again ≡ true) ⊎ MayReceive hands.loops hands.desk.letters_closed)
Run-IsSound_example = Run-IsSound letter_handed

Run-line_example :
    (line hands ≡ empty_desk.letters ++ letter ∷ [])
    × ((not_again ≡ true) ⊎ NoNil (hands.handed ++ held hands.loops))
Run-line_example = Run-line letter_handed

Run-parallel_example : publishing 1 hands.goroutines ≤ 3 / 2 + 1
Run-parallel_example = Run-parallel 3 1 letter_handed

Run-unblocked_example :
    ((b : Auto) × (advance (parallel_publishes 3) (holding (some letter)) [] holds ≡ some b))
    ⊎ (0 < filling holds.semaphore holds.goroutines)
Run-unblocked_example = Run-unblocked 3 (some letter) [] letter_held refl

restart_hands_nil_example :
    (b : Auto) × (c : Auto) × (d : Auto) × (advance 2 starting [] (start_auto_publishing ended)
      ≡ some b)
    × (advance 2 draining [] b ≡ some c)
    × (advance 2 (holding none) [] c ≡ some d)
    × (d.handed ≡ ended.handed ++ none ∷ [])
    × (d.loops ≡ draining ∷ [])
    × (d.desk ≡ ended.desk)
restart_hands_nil_example = restart_hands_nil 2 ended refl refl refl refl refl (omega arith)
