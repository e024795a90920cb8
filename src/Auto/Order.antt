-- ===== src/Auto/Order.antt =====
-- Runs of the auto-publisher: one loop at most, and every letter once and in order.
use turbocookedrabbit.Service.{Desk, safe_send}
use turbocookedrabbit.Letter.{Letter}
use turbocookedrabbit.Auto.{
  Auto, Goroutine, advance, Loop, begin_round, receive_letter, hand_over, holding, leaving,
  start_auto_publishing, poll_auto_stop, stop_auto_publish, starting, draining, polling,
  publish_returns, free_place,
}
use turbocookedrabbit.Base.{
  ℕ, true, false, List, Option, ◌≡◌, Bool, [], length, ◌++◌, ◌∷◌, some, none, arith, ◌||◌, ◌&&◌,
  not,
}

-- What the letters of a list are, without its nils.
abbrev pub letters_of : List (Option Letter) → List Letter
letters_of [] = []
letters_of (some letter ∷ rest) = letter ∷ letters_of rest
letters_of (none ∷ rest) = letters_of rest

abbrev pub NoNil : List (Option Letter) → Type 0
NoNil [] = Unit {0}
NoNil (some letter ∷ rest) = NoNil rest
NoNil (none ∷ rest) = ⊥

-- What the loop has received and not handed over.
abbrev pub held : List Loop → List (Option Letter)
held [] = []
held (holding letter ∷ rest) = letter ∷ []
held (_ ∷ rest) = []

-- The letters that were handed over, the one that is held, and the queue.
abbrev pub line : Auto → List Letter
line a = letters_of (a.handed ++ held a.loops) ++ a.desk.letters

-- A loop that may still receive letters finds the queue open.
abbrev pub MayReceive : List Loop → Bool → Type 0
MayReceive [] closed = Unit {0}
MayReceive (leaving ∷ rest) closed = Unit {0}
MayReceive (_ ∷ rest) closed = closed ≡ false

-- The auto-publisher says that it is started exactly while its one loop runs.
pub record IsSound (a : Auto) : Type 0 where
  pub running : a.auto_started ≡ true → length a.loops ≡ 1
  pub idle : a.auto_started ≡ false → length a.loops ≡ 0

-- A run from the first to the last state, in any interleaving: the letters that were accepted, in
-- order, and whether it was started once more while its queue was closed.
pub data Run (capacity : ℕ) (s : Auto) : List Letter → Bool → Auto → Type 0 where
  here : Run capacity s [] false s
  starts :
      {sent : List Letter} {again : Bool} {a : Auto}
      → Run capacity s sent again a
      → Run capacity s sent
          (again || (a.desk.letters_closed && not a.auto_started))
          (start_auto_publishing a)
  stops :
      {sent : List Letter} {again : Bool} {a : Auto}
      → Run capacity s sent again a
      → Run capacity s sent again (stop_auto_publish a)
  queues :
      {sent : List Letter} {again : Bool} {a : Auto} (letter : Letter) (d : Desk)
      → Run capacity s sent again a
      → safe_send letter a.desk ≡ some (true, d)
      → Run capacity s (sent ++ letter ∷ []) again (record a { desk = d })
  advances :
      {sent : List Letter} {again : Bool} {a b : Auto} (place : Loop) (others : List Loop)
      → Run capacity s sent again a
      → a.loops ≡ place ∷ others
      → advance capacity place others a ≡ some b
      → Run capacity s sent again b
  publishes :
      {sent : List Letter} {again : Bool} {a : Auto} (before : List Goroutine) (g : Goroutine)
      (after : List Goroutine)
      → Run capacity s sent again a
      → a.goroutines ≡ before ++ g ∷ after
      → g.publishing ≡ true
      → Run capacity s sent again (publish_returns before g after a)
  frees :
      {sent : List Letter} {again : Bool} {a b : Auto} (before : List Goroutine) (g : Goroutine)
      (after : List Goroutine)
      → Run capacity s sent again a
      → a.goroutines ≡ before ++ g ∷ after
      → g.publishing ≡ false
      → free_place before g after a ≡ some b
      → Run capacity s sent again b

advance-IsSound :
    (capacity : ℕ) (place : Loop) (others : List Loop) (a b : Auto)
    → a.loops ≡ place ∷ others
    → advance capacity place others a ≡ some b
    → IsSound a
    → IsSound b
unfolding advance begin_round receive_letter hand_over poll_auto_stop
advance-IsSound capacity starting others a b l e h = ground arith
advance-IsSound capacity draining others a b l e h = ground arith
advance-IsSound capacity polling others a b l e h = ground arith
advance-IsSound capacity leaving others a b l e h = ground arith
advance-IsSound capacity (holding x) others a b l e h = ground arith

start-IsSound : (a : Auto) → IsSound a → IsSound (start_auto_publishing a)
unfolding start_auto_publishing
start-IsSound a h = ground arith

stop-IsSound : (a : Auto) → IsSound a → IsSound (stop_auto_publish a)
unfolding stop_auto_publish
stop-IsSound a h = ground arith

-- What an accepted send does to the desk.
pub safe_send-accepted :
    (letter : Letter) (d d' : Desk)
    → safe_send letter d ≡ some (true, d')
    → (d'.letters ≡ d.letters ++ letter ∷ [])
      × (d.letters_closed ≡ false)
      × (d'.letters_closed ≡ d.letters_closed)
unfolding safe_send
safe_send-accepted letter d d' e = ground arith

-- What a goroutine's end leaves alone.
pub free_place-kept :
    (before : List Goroutine) (g : Goroutine) (after : List Goroutine) (a b : Auto)
    → free_place before g after a ≡ some b
    → (b.desk ≡ a.desk)
      × (b.auto_started ≡ a.auto_started)
      × (b.loops ≡ a.loops)
      × (b.handed ≡ a.handed)
unfolding free_place
free_place-kept before g after a b e = (ground arith, ground arith, ground arith, ground arith)

pub Run-IsSound_from :
    {capacity : ℕ} {s a : Auto} {sent : List Letter} {again : Bool}
    → Run capacity s sent again a
    → IsSound s
    → IsSound a
unfolding publish_returns
Run-IsSound_from here h = h
Run-IsSound_from (starts {a = a} r) h = start-IsSound a (Run-IsSound_from r h)
Run-IsSound_from (stops {a = a} r) h = stop-IsSound a (Run-IsSound_from r h)
Run-IsSound_from (queues letter d r e) h =
    let k = Run-IsSound_from r h in record { running = k.running; idle = k.idle }
Run-IsSound_from (advances {a = a} {b = b} place others r l e) h =
    advance-IsSound _ place others a b l e (Run-IsSound_from r h)
Run-IsSound_from (publishes before g after r l p) h =
    let k = Run-IsSound_from r h in record { running = k.running; idle = k.idle }
Run-IsSound_from (frees {a = a} {b = b} before g after r l p e) h =
    let k = Run-IsSound_from r h in
    let (_, started, loops, _) = free_place-kept before g after a b e in ground arith
