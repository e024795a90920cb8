-- ===== src/Pool/Close.antt =====
-- The Shutdown of the pool.
use turbocookedrabbit.State.{ConnectionHost, ChannelHost}
use turbocookedrabbit.Amqp.{Env, Action}
use turbocookedrabbit.Base.{
  ℕ, [], ◌∷◌, some, none, Bool, List, Option, ◌≡◌, true, false, take, drop, length,
}

abbrev pub is_nil : List ℕ → Bool
is_nil [] = true
is_nil (x ∷ xs) = false

-- What the queue library documents: a queue holds items in order, Get of a number takes that many
-- from the front of a queue that has some, or all if there are fewer, and a new queue has none.
pub record IsFifo {Queue : Type 0} (env : Env Queue) (items : Queue → List ℕ) : Type 0 where
  pub empty_law : (q : Queue) → env.queue_empty q ≡ is_nil (items q)
  pub len_law : (q : Queue) → env.queue_len q ≡ length (items q)
  pub get_law :
      (q : Queue) (n : ℕ)
      → is_nil (items q) ≡ false
      → (rest : Queue) × (env.queue_get_many q n ≡ some (take n (items q), rest))
        × (items rest ≡ drop n (items q))
  pub new_law : (n : ℕ) → items (env.queue_new n) ≡ []

abbrev pub cons_some : Option ℕ → List ℕ → List ℕ
cons_some none ks = ks
cons_some (some k) ks = k ∷ ks

-- The channels and the connections that are there to be closed.
abbrev pub channels_of : List ChannelHost → List ℕ
channels_of [] = []
channels_of (ch ∷ rest) = cons_some ch.channel (channels_of rest)

abbrev pub connections_of : (ℕ → ConnectionHost) → List ℕ → List ℕ
connections_of hosts [] = []
connections_of hosts (i ∷ rest) = cons_some (hosts i).connection (connections_of hosts rest)

-- A log after one action for each of the numbers, in their order.
abbrev pub logged : (ℕ → Action) → List ℕ → List Action → List Action
logged f [] log = log
logged f (k ∷ ks) log = logged f ks (f k ∷ log)
