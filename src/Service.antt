-- ===== src/Service.antt =====
-- v2/pkg/tcr/rabbitservice.go: building the consumers, the checks before a publish, the retry of
-- failed letters, and the shutdown flag. The Go channels letters and centralErr (capacity 1000)
-- are lists, oldest first; a send to a full one blocks, which is `none`.
pub mod Retry
pub mod Headers
pub mod Stop
pub mod Stopping
pub mod Collecting
pub mod Setup
pub mod Ready
pub mod Direct
use Prim.Native.String.{◌++◌ as str_append, ◌∷◌}
use turbocookedrabbit.Consumer.{Consumer, new_consumer_from_config}
use turbocookedrabbit.State.{PublishReceipt}
use turbocookedrabbit.Letter.{Letter, Bytes, zero_envelope}
use turbocookedrabbit.Config.{Table, ConsumerConfig}
use turbocookedrabbit.Amqp.{Error}
use turbocookedrabbit.Base.{
  ℕ, Bool, List, Option, String, ◌+◌, if◌then◌else◌, is_some, some, ◌%◌, false, ltb, none, not,
  str_eq, true, ◌^◌, length, ◌||◌, ◌∷◌, [], ◌&&◌, ◌++◌,
}

pub data ServiceError : Type 0 where
  shutdown_triggered nil_input_or_address not_queued stopped_already : ServiceError
  consumer_not_found : String → ServiceError
  retrying : ℕ → ℕ → ServiceError
  autopublisher_shut out_of_retries no_letter : ℕ → ServiceError
  payload_failed : Error → ServiceError
  consumer_error : Error → ServiceError

-- What the retry of failed letters works on: the publisher's queue of letters, whether it was
-- closed, and the service's errors.
pub record Desk : Type 0 where
  pub letters : List Letter
  pub letters_closed : Bool
  pub central_err : List ServiceError
  pub max_retry_count : ℕ
  pub shutdown : Bool

-- `rs.centralErr <- err`.
unfoldable pub send_error : ServiceError → Desk → Option Desk
send_error e d =
    if ltb (length d.central_err) 1000
    then some (record d { central_err = d.central_err ++ e ∷ [] })
    else none

-- Publisher.safeSend: a send to a closed Go channel panics, and the recover makes it false.
unfoldable pub safe_send : Letter → Desk → Option (Bool × Desk)
safe_send letter d =
    if d.letters_closed
    then some (false, d)
    else if ltb (length d.letters) 1000
    then some (true, record d { letters = d.letters ++ letter ∷ [] })
    else none

-- Publisher.QueueLetters: it stops at the first letter that was not taken.
unfoldable pub queue_letters : List Letter → Desk → Option (Bool × Desk)
queue_letters [] d = some (true, d)
queue_letters (letter ∷ rest) d = elim (safe_send letter d) [
  | none ↦ none
  | some (ok, d') ↦ elim ok [ false ↦ some (false, d') | true ↦ queue_letters rest d' ]
]

-- A uint32, which wraps.
unfoldable pub count_retry : Letter → Letter
count_retry letter = record letter { retry_count = (letter.retry_count + 1) % 2 ^ 32 }

-- The letter goes back to the queue, and the failure to queue it is one more error.
unfoldable pub requeue : ℕ → Letter → Desk → Option Desk
requeue id letter d = elim (safe_send letter d) [
  | none ↦ none
  | some (ok, d') ↦ if ok then some d' else send_error (autopublisher_shut id) d'
]

-- A failed letter: one more try, or the end.
unfoldable pub retry_letter : ℕ → Letter → Desk → Option Desk
retry_letter id letter d =
    if ltb letter.retry_count d.max_retry_count
    then elim (send_error (retrying id (count_retry letter).retry_count) d) [
      | none ↦ none
      | some d' ↦ requeue id (count_retry letter) d'
    ]
    else send_error (out_of_retries id) d

unfoldable pub retry_failed : ℕ → Option Letter → Desk → Option Desk
retry_failed id none d = send_error (no_letter id) d
retry_failed id (some letter) d = retry_letter id letter d

-- What processPublishReceipts does with one receipt.
unfoldable pub process_receipt : PublishReceipt → Desk → Option Desk
process_receipt receipt d =
    if receipt.success then some d else retry_failed receipt.letter_id receipt.failed_letter d

-- RabbitService.QueueLetter. uuid.UUID.String is a parameter: its text is asked to be empty.
unfoldable pub queue_letter : (ℕ → String) → ℕ → Letter → Desk → Option (Option ServiceError × Desk)
queue_letter uuid_string new_id letter d =
    if d.shutdown
    then some (some shutdown_triggered, d)
    else let l =
        if str_eq (uuid_string letter.letter_id) ""
        then record letter { letter_id = new_id }
        else letter in
      elim (safe_send l d) [
        | none ↦ none
        | some (ok, d') ↦ some (if ok then none else some not_queued, d')
      ]

-- The checks at the head of the three publish methods; `has_input` says that the input is not nil.
unfoldable pub check_publish : Bool → Bool → String → String → Option ServiceError
check_publish shutdown has_input exchange_name routing_key =
    if shutdown
    then some shutdown_triggered
    else if not has_input || (str_eq exchange_name "" && str_eq routing_key "")
    then some nil_input_or_address
    else none

-- The letter that the methods make; `headers` are those that the method sets.
unfoldable pub service_letter : ℕ → Bytes → String → String → Table → Letter
service_letter id contents exchange_name routing_key headers = record {
  letter_id = id;
  retry_count = 0;
  body = contents;
  envelope = record zero_envelope {
    exchange = exchange_name;
    routing_key = routing_key;
    content_type = "application/json";
    delivery_mode = 2;
    headers = headers;
  };
}

-- The letter that each method hands to the publisher, or its error. A payload is what json.go makes
-- of the input: an error or the bytes.
unfoldable pub publish_with_confirmation_letter :
    Bool
    → Option (Option Error × Bytes)
    → ℕ
    → String
    → String
    → Table
    → Option ServiceError × Option Letter
publish_with_confirmation_letter shutdown input id exchange_name routing_key headers =
    elim (check_publish shutdown (is_some input) exchange_name routing_key) [
      | some e ↦ (some e, none)
      | none ↦ elim input [
        | none ↦ (some nil_input_or_address, none)
        | some (err, contents) ↦ elim err [
          | some e ↦ (some (payload_failed e), none)
          | none ↦ (none, some (service_letter id contents exchange_name routing_key headers))
        ]
      ]
    ]

-- Publish leaves the headers that it is given out of the envelope.
unfoldable pub publish_letter_of :
    Bool
    → Option (Option Error × Bytes)
    → ℕ
    → String
    → String
    → Table
    → Option ServiceError × Option Letter
publish_letter_of shutdown input id exchange_name routing_key headers =
    elim (check_publish shutdown (is_some input) exchange_name routing_key) [
      | some e ↦ (some e, none)
      | none ↦ elim input [
        | none ↦ (some nil_input_or_address, none)
        | some (err, contents) ↦ elim err [
          | some e ↦ (some (payload_failed e), none)
          | none ↦ (none, some (service_letter id contents exchange_name routing_key none))
        ]
      ]
    ]

unfoldable pub publish_data_letter :
    Bool → Option Bytes → ℕ → String → String → Table → Option ServiceError × Option Letter
publish_data_letter shutdown contents id exchange_name routing_key headers =
    elim (check_publish shutdown (is_some contents) exchange_name routing_key) [
      | some e ↦ (some e, none)
      | none ↦ elim contents [
        | none ↦ (some nil_input_or_address, none)
        | some bytes ↦ (none, some (service_letter id bytes exchange_name routing_key headers))
      ]
    ]

-- createConsumers over the entries of the map; `host_name` is os.Hostname's answer. The name that
-- a consumer gets stands beside it.
unfoldable pub create_consumers :
    Option String → List (String × ConsumerConfig) → List (String × String × Consumer)
create_consumers host_name [] = []
create_consumers host_name ((key, config) ∷ rest) =
    (
      key,
      elim host_name [
        | none ↦ config.consumer_name
        | some h ↦ str_append h (str_append "-" config.consumer_name)
      ],
      new_consumer_from_config config,
    )
    ∷ create_consumers host_name rest

unfoldable pub get_consumer :
    String → List (String × String × Consumer) → Option ServiceError × Option Consumer
get_consumer name [] = (some (consumer_not_found name), none)
get_consumer name ((key, consumer_name, c) ∷ rest) =
    if str_eq key name then (none, some c) else get_consumer name rest

-- monitorForShutdown: one round, with what the `select` met.
unfoldable pub monitor_round : Bool → Desk → Desk
monitor_round signalled d = if signalled then record d { shutdown = true } else d
