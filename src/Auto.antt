-- ===== src/Auto.antt =====
-- v2/pkg/tcr/publisher.go, auto-publishing: StartAutoPublishing, the loop that it starts,
-- deliverLetters, stopAutoPublish and Shutdown. Letters wait on the desk that the service shares.
pub mod Order
pub mod Line
pub mod Restart
pub mod Places
use turbocookedrabbit.State.{Sys}
use turbocookedrabbit.Amqp.{Env}
use turbocookedrabbit.Letter.{Letter}
use turbocookedrabbit.Pool.Lifecycle.{shutdown}
use turbocookedrabbit.Service.{Desk}
use turbocookedrabbit.Base.{
  ℕ, Bool, List, Option, [], ◌∷◌, ◌++◌, ◌==◌, none, some, true, false, ltb, if◌then◌else◌, ◌+◌, ◌-◌,
  ◌/◌, M, ◌>>◌, when, pure,
}

-- Where a loop stands: at its first `select`, in PublishLoop, with a letter received (nil from a
-- closed Go channel) that waits for the semaphore, at the second `select`, or past the loop with
-- autoStarted still set.
pub data Loop : Type 0 where
  starting draining polling leaving : Loop
  holding : Option Letter → Loop

-- A goroutine of deliverLetters: its letter, the semaphore that it fills a place of, and whether it
-- is still in PublishWithConfirmation.
pub record Goroutine : Type 0 where
  pub letter : Option Letter
  pub semaphore : ℕ
  pub publishing : Bool

-- `auto_stop` counts the signals on their way in autoStop. Every deliverLetters makes a semaphore:
-- `semaphore` is the number of the last one, and `places` says how many places of each are filled.
-- `goroutines` are those that run, and `handed` the letters of all that were started, oldest first.
pub record Auto : Type 0 where
  pub desk : Desk
  pub auto_started : Bool
  pub auto_stop : ℕ
  pub loops : List Loop
  pub semaphore : ℕ
  pub places : ℕ → ℕ
  pub goroutines : List Goroutine
  pub handed : List (Option Letter)

-- The auto-publishing part of NewPublisher and NewPublisherFromConfig.
abbrev pub new_auto : Desk → Auto
new_auto desk = record {
  desk = desk;
  auto_started = false;
  auto_stop = 0;
  loops = [];
  semaphore = 0;
  places = λ k. 0;
  goroutines = [];
  handed = [];
}

-- A write at one number.
abbrev pub place_at : ℕ → ℕ → (ℕ → ℕ) → ℕ → ℕ
place_at i v places k = if i == k then v else places k

-- The capacity of the semaphore.
unfoldable pub parallel_publishes : ℕ → ℕ
parallel_publishes max_cache_channel_count = max_cache_channel_count / 2 + 1

unfoldable pub start_auto_publishing : Auto → Auto
start_auto_publishing a =
    if a.auto_started then a else record a { auto_started = true; loops = starting ∷ a.loops }

unfoldable pub stop_auto_publish : Auto → Auto
stop_auto_publish a = if a.auto_started then record a { auto_stop = a.auto_stop + 1 } else a

-- The first `select` of the outer loop. deliverLetters then makes a new semaphore.
unfoldable pub begin_round : List Loop → Auto → Auto
begin_round others a =
    if ltb 0 a.auto_stop
    then record a { auto_stop = a.auto_stop - 1; loops = leaving ∷ others }
    else record a {
      semaphore = a.semaphore + 1;
      places = place_at (a.semaphore + 1) 0 a.places;
      loops = draining ∷ others;
    }

-- The `select` on the letters: a buffered one, nil from a closed channel, or none now.
unfoldable pub receive_letter : List Letter → List Loop → Auto → Auto
receive_letter (letter ∷ rest) others a = record a {
  desk = record a.desk { letters = rest };
  loops = holding (some letter) ∷ others;
}
receive_letter [] others a =
    if a.desk.letters_closed
    then record a { loops = holding none ∷ others }
    else record a { loops = polling ∷ others }

-- The send to the semaphore, which blocks while it is full, and the goroutine.
unfoldable pub hand_over : ℕ → Option Letter → List Loop → Auto → Option Auto
hand_over capacity letter others a =
    if ltb (a.places a.semaphore) capacity
    then some (record a {
      places = place_at a.semaphore (a.places a.semaphore + 1) a.places;
      goroutines =
          record { letter = letter; semaphore = a.semaphore; publishing = true } ∷ a.goroutines;
      handed = a.handed ++ letter ∷ [];
      loops = draining ∷ others;
    })
    else none

-- The second `select`. Closing a closed channel panics.
unfoldable pub poll_auto_stop : List Loop → Auto → Option Auto
poll_auto_stop others a =
    if ltb 0 a.auto_stop
    then if a.desk.letters_closed
      then none
      else some (record a {
        auto_stop = a.auto_stop - 1;
        desk = record a.desk { letters_closed = true };
        loops = leaving ∷ others;
      })
    else some (record a { loops = draining ∷ others })

-- One round of the loop that stands at `place`.
unfoldable pub advance : ℕ → Loop → List Loop → Auto → Option Auto
advance capacity starting others a = some (begin_round others a)
advance capacity draining others a = some (receive_letter a.desk.letters others a)
advance capacity (holding letter) others a = hand_over capacity letter others a
advance capacity polling others a = poll_auto_stop others a
advance capacity leaving others a = some (record a { auto_started = false; loops = others })

-- PublishWithConfirmation returns in the goroutine `g`, which stands between the others.
unfoldable pub publish_returns : List Goroutine → Goroutine → List Goroutine → Auto → Auto
publish_returns before g after a = record a {
  goroutines = before ++ record g { publishing = false } ∷ after;
}

-- It frees its place and ends; the receive blocks while no place is filled.
unfoldable pub free_place : List Goroutine → Goroutine → List Goroutine → Auto → Option Auto
free_place before g after a =
    if ltb 0 (a.places g.semaphore)
    then some (record a {
      places = place_at g.semaphore (a.places g.semaphore - 1) a.places;
      goroutines = before ++ after;
    })
    else none

-- Publisher.Shutdown.
unfoldable pub shutdown_publisher :
    {Queue : Type 0} → Env Queue → ℕ → Bool → Auto → M (Sys Queue) Auto
shutdown_publisher env fuel shutdown_pools a = do
  when shutdown_pools (shutdown env fuel)
  pure (stop_auto_publish a)
