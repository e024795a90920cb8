-- ===== src/Consumer.antt =====
-- v2/pkg/tcr/consumer.go. The Go channels receivedMessages, errors (capacity 1000) and
-- consumeStop (capacity 1) are lists, oldest first. The broker's side of a loop round is an
-- argument of the round. `fuel` bounds the rounds of each loop of the pool.
pub mod Batch
pub mod Loops
use turbocookedrabbit.Pool.Channels.{get_transient_channel, get_channel_from_pool, return_channel}
use turbocookedrabbit.State.{ChannelHost, Sys, ask, act}
use turbocookedrabbit.Amqp.{Env, Error, batch_size_too_small, channel_lost, channel_closed}
use turbocookedrabbit.Config.{ConsumerConfig}
use turbocookedrabbit.Base.{
  ℕ, Bool, List, [], if◌then◌else◌, Option, String, false, ltb, ◌∷◌, M, none, not, some, true,
  length, str_eq, ◌+◌, ◌-◌, ◌++◌, pure, ◌>>=◌, suc, maybe, ◌>>◌, zero, is_some, branch, halt,
}

-- What is left of *amqp.Delivery: a number for its value. A closed Go channel of deliveries hands
-- out the zero value.
pub record ReceivedMessage : Type 0 where
  pub is_ackable : Bool
  pub delivery : Option ℕ

-- The two places where a consume loop can stand: before it takes a channel host, and processing
-- deliveries over one.
pub data Place : Type 0 where
  seeking : Place
  processing : ChannelHost → Place

-- `loops` are the consume loops that run as goroutines.
pub record Consumer : Type 0 where
  pub enabled : Bool
  pub auto_ack : Bool
  pub started : Bool
  pub stop_immediate : Bool
  pub errors : List Error
  pub received_messages : List ReceivedMessage
  pub consume_stop : ℕ
  pub loops : List Place

unfoldable pub new_consumer_from_config : ConsumerConfig → Consumer
new_consumer_from_config config = record {
  enabled = config.enabled;
  auto_ack = config.auto_ack;
  started = false;
  stop_immediate = false;
  errors = [];
  received_messages = [];
  consume_stop = 0;
  loops = [];
}

-- NewConsumer: the consumer's config must be there, and the consumer is enabled.
unfoldable pub new_consumer : List (String × ConsumerConfig) → String → Bool → Option Consumer
new_consumer [] name auto_ack = none
new_consumer ((key, config) ∷ rest) name auto_ack =
    if str_eq key name
    then some (record (new_consumer_from_config config) { enabled = true; auto_ack = auto_ack })
    else new_consumer rest name auto_ack

unfoldable pub flush_stop : Consumer → Consumer
flush_stop con = record con { consume_stop = 0 }

unfoldable pub flush_errors : Consumer → Consumer
flush_errors con = record con { errors = [] }

unfoldable pub flush_messages : Consumer → Consumer
flush_messages con = record con { received_messages = [] }

-- StartConsuming and StartConsumingWithAction: a loop is started whenever the consumer is enabled.
unfoldable pub start_consuming : Consumer → Consumer
start_consuming con =
    if con.enabled
    then record (flush_stop (flush_errors con)) { loops = seeking ∷ con.loops; started = true }
    else con

-- StopConsuming: whether it returned nil, or `none` where the send of the signal blocks.
unfoldable pub signal_stop : Bool → Consumer → Consumer
signal_stop immediate con = record con {
  stop_immediate = immediate;
  consume_stop = con.consume_stop + 1;
}

unfoldable pub stop_consuming : Bool → Bool → Consumer → Option (Bool × Consumer)
stop_consuming immediate flush con =
    if not con.started
    then some (false, con)
    else if ltb con.consume_stop 1
    then some (
      true,
      if flush then flush_messages (signal_stop immediate con) else signal_stop immediate con,
    )
    else none

-- A loop ends: messageGroup is never added to, so its Wait returns at once.
unfoldable pub loop_ends : List Place → Consumer → Consumer
loop_ends others con = record con { loops = others; started = false; stop_immediate = false }

-- The `select` on consumeStop: whether a stop was taken, and the consumer then.
unfoldable pub poll_stop : Consumer → Bool × Consumer
poll_stop con =
    if ltb 0 con.consume_stop
    then (true, record con { consume_stop = con.consume_stop - 1 })
    else (false, con)

-- What a processing round meets: a channel error (with its number), or else a delivery (a value, the zero value of
-- a closed Go channel, or none).
pub data Arrival : Type 0 where
  channel_error : ℕ → Arrival
  delivered : ℕ → Arrival
  deliveries_closed : Arrival
  nothing : Arrival

unfoldable pub new_received_message : Bool → Option ℕ → ReceivedMessage
new_received_message is_ackable delivery = record { is_ackable = is_ackable; delivery = delivery }

-- With an action the message goes to it, else to the Go channel, which must have room.
unfoldable pub take_message : Bool → Option ℕ → Consumer → Option Consumer
take_message has_action delivery con =
    if has_action
    then some con
    else if ltb (length con.received_messages) 1000
    then some (record con {
      received_messages =
          con.received_messages ++ new_received_message (not con.auto_ack) delivery ∷ [];
    })
    else none

module _ {Queue : Type 0} (env : Env Queue) where
  -- One round of the outer loop, of a loop that seeks, its pauses and the call of Qos aside; `consumes` says whether
  -- Channel.Consume succeeds on the channel host that it takes. A nil channel panics.
  unfoldable pub seek_round : ℕ → Bool → List Place → Consumer → M (Sys Queue) Consumer
  seek_round fuel consumes others con =
      let (stop, c) = poll_stop con in
      branch stop (pure (loop_ends others c)) (do
        ch ← get_channel_from_pool
        maybe ch.channel halt (λ k.
            branch consumes (pure (record c { loops = processing ch ∷ others }))
              (do return_channel env fuel ch true; pure (record c { loops = seeking ∷ others }))))

  -- The end of a round: a stop returns the channel host and ends the loop.
  unfoldable pub round_stop : ℕ → ChannelHost → List Place → Consumer → M (Sys Queue) Consumer
  round_stop fuel ch others con =
      let (stop, c) = poll_stop con in
      branch stop (do return_channel env fuel ch false; pure (loop_ends others c))
        (pure (record c { loops = processing ch ∷ others }))

  -- One round of processDeliveries, its pauses aside. A send to a full Go channel blocks.
  unfoldable pub process_round :
      ℕ → Bool → Arrival → ChannelHost → List Place → Consumer → M (Sys Queue) Consumer
  process_round fuel has_action (channel_error e) ch others con = do
    return_channel env fuel ch true
    branch (ltb (length con.errors) 1000)
        (pure (record con { errors = con.errors ++ channel_lost e ∷ []; loops = seeking ∷ others }))
        halt
  process_round fuel has_action (delivered d) ch others con =
      maybe (take_message has_action (some d) con) halt (round_stop fuel ch others)
  process_round fuel has_action deliveries_closed ch others con =
      maybe (take_message has_action none con) halt (round_stop fuel ch others)
  process_round fuel has_action nothing ch others con = round_stop fuel ch others con

  -- Channel.Get with auto-acknowledge.
  unfoldable pub get_one : ℕ → String → M (Sys Queue) (Option Error × Option ℕ)
  get_one k queue_name = ask (λ n. env.get_message n k queue_name true)

  -- Get: an error, or a delivery unless the queue was empty.
  unfoldable pub get_message : ℕ → String → M (Sys Queue) (Option Error × Option ℕ)
  get_message fuel queue_name = do
    k ← get_transient_channel env fuel false
    (err, delivery) ← get_one k queue_name
    act (channel_closed k)
    pure (if is_some err then (err, none) else (none, delivery))

  -- GetBatchLoop, with `left` messages to go and those taken so far. On an error they are dropped.
  unfoldable pub batch_from : ℕ → String → ℕ → List ℕ → M (Sys Queue) (Option Error × List ℕ)
  batch_from k queue_name zero messages = pure (none, messages)
  batch_from k queue_name (suc left) messages = do
    (err, delivery) ← get_one k queue_name
    maybe err
        (maybe delivery (pure (none, messages))
          (λ d. batch_from k queue_name left (messages ++ d ∷ [])))
        (λ e. pure (some e, []))

  -- A batch size below 1, which may be negative in the source, is 0 here.
  unfoldable pub get_batch : ℕ → String → ℕ → M (Sys Queue) (Option Error × List ℕ)
  get_batch fuel queue_name zero = pure (some batch_size_too_small, [])
  get_batch fuel queue_name (suc n) = do
    k ← get_transient_channel env fuel false
    batch ← batch_from k queue_name (suc n) []
    act (channel_closed k)
    pure batch
