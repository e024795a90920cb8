-- ===== src/Amqp.antt =====
-- What the modelled code meets outside the repository: the RabbitMQ client library, the files
-- that a TLS configuration is read from, and the queue of github.com/Workiva/go-datastructures.
-- The answers of the outside are a record of functions, a parameter of the model. The code counts
-- its outside calls; an answer depends on that number and on the call's arguments, so every
-- behaviour of the outside along a run is some value of the record.
use turbocookedrabbit.Base.{ℕ, String, Bool, Option, List}
use turbocookedrabbit.Config.{Table}
use turbocookedrabbit.Letter.{Bytes}

-- The errors that the code makes itself, and those it is handed.
pub data Error : Type 0 where
  external : ℕ → Error
  heartbeat_or_timeout_zero max_connection_count_zero initialization_failed : Error
  purge_of_no_queues batch_size_too_small : Error
  empty_data_or_key empty_cipher_data_or_key seal_failed hash_was_nil : Error
  unable_to_connect invalid_queue_item connection_already_closed : Error
  channel_lost : ℕ → Error
  confirmation_timed_out confirmation_context_done : ℕ → Error

-- A receive in a `select` with a `default` case. A closed channel hands out zero values for ever.
pub data Poll (A : Type 0) : Type 0 where
  received : A → Poll A
  closed : Poll A
  empty : Poll A

-- amqp.Publishing, the fields that the code sets; `time.Now()` is left out.
pub record Publishing : Type 0 where
  pub content_type : String
  pub body : Bytes
  pub headers : Table
  pub delivery_mode : ℕ
  pub priority : ℕ
  pub message_id : ℕ
  pub correlation_id : String
  pub type : String
  pub app_id : String

-- The arguments of Channel.Publish.
pub record PublishCall : Type 0 where
  pub exchange : String
  pub routing_key : String
  pub mandatory : Bool
  pub immediate : Bool
  pub publishing : Publishing

-- The arguments of amqp.DialConfig; `tls` says whether a TLS configuration is given.
pub record DialCall : Type 0 where
  pub address : String
  pub heartbeat : ℕ
  pub timeout : ℕ
  pub connection_name : String
  pub tls : Bool

-- The topology requests of a channel, with their arguments.
pub data TopologyCall : Type 0 where
  exchange_declare exchange_declare_passive :
      String → String → Bool → Bool → Bool → Bool → Table → TopologyCall
  exchange_bind exchange_unbind : String → String → String → Bool → Table → TopologyCall
  exchange_delete : String → Bool → Bool → TopologyCall
  queue_declare queue_declare_passive : String → Bool → Bool → Bool → Bool → Table → TopologyCall
  queue_bind : String → String → String → Bool → Table → TopologyCall
  queue_unbind : String → String → String → Table → TopologyCall
  queue_delete : String → Bool → Bool → Bool → TopologyCall
  queue_purge : String → Bool → TopologyCall

-- What the wait for a confirmation meets in one round of its `select`: the deadline (or the end
-- of the context), a confirmation with its Ack, or neither.
pub data Round : Type 0 where
  deadline : Round
  confirmation : Bool → Round
  idle : Round

-- Connections, channels and Go channels that the outside fills are named by the number of the
-- call that made them. An `Option Error` is an `error`, `none` for nil.
pub record Env (Queue : Type 0) : Type 0 where
  pub is_closed : ℕ → ℕ → Bool
  pub load_tls : ℕ → String → String → Option Error
  pub dial : ℕ → DialCall → Option Error
  pub connection_error : ℕ → ℕ → Poll Error
  pub blocker : ℕ → ℕ → Poll Bool
  pub open_channel : ℕ → ℕ → Option Error
  pub confirm : ℕ → ℕ → Option Error
  pub publish : ℕ → ℕ → PublishCall → Option Error
  pub stale_confirmation : ℕ → ℕ → Poll Bool
  -- A receive from a Go channel of confirmations that waits for the next one: its Ack.
  pub next_confirmation : ℕ → ℕ → Poll Bool
  -- The time in nanoseconds, and whether the caller's context is done.
  pub now : ℕ → ℕ
  pub context_done : ℕ → Bool
  -- Whether a `select` with two cases ready takes the first.
  pub takes_first : ℕ → Bool
  -- The number of messages that a delete or a purge reports, and the error.
  pub topology : ℕ → ℕ → TopologyCall → ℕ × Option Error
  -- Channel.Get, with its autoAck: the error, and the delivery unless the queue is empty.
  pub get_message : ℕ → ℕ → String → Bool → Option Error × Option ℕ
  pub queue_new : ℕ → Queue
  pub queue_put : Queue → ℕ → Option Error × Queue
  -- Get(1): nothing while the queue is empty (the call blocks), an error, or an item.
  pub queue_get : Queue → Option (Option Error × Option ℕ × Queue)
  pub queue_empty : Queue → Bool
  pub queue_len : Queue → ℕ
  -- Get of a number of items, their error aside: nothing while the queue is empty.
  pub queue_get_many : Queue → ℕ → Option (List ℕ × Queue)

-- What the code does to the outside, newest first.
pub data Action : Type 0 where
  dialed : DialCall → Action
  connection_closed channel_opened confirm_mode channel_closed : ℕ → Action
  published : ℕ → PublishCall → Action
  requested : ℕ → TopologyCall → Action
  error_handled unhealthy_handled : Error → Action
  slept timer_started : ℕ → Action
