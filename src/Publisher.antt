-- ===== src/Publisher.antt =====
-- v2/pkg/tcr/publisher.go, the publish operations. A letter goes out over a channel of the pool;
-- receipts are handed to goroutines that send them, so the state keeps those handed over.
-- `fuel` bounds the rounds of each loop.
pub mod Sends
pub mod Outcomes
pub mod Direct
pub mod Waiting
pub mod Together
use turbocookedrabbit.Base.{
  ℕ, zero, suc, ◌*◌, String, Bool, true, false, not, Option, none, some, ◌∷◌, ◌==◌, ltb, leb, ◌+◌,
  ◌&&◌, if◌then◌else◌, is_some, M, ◌>>=◌, ◌>>◌, pure, halt, get, modify, when, maybe,
}
use turbocookedrabbit.Config.{PublisherConfig}
use turbocookedrabbit.Letter.{Letter}
use turbocookedrabbit.Amqp.{
  Error, confirmation_timed_out, confirmation_context_done, Env, PublishCall, Round, deadline,
  confirmation, idle, published, channel_closed, slept, timer_started, received, closed, empty,
}
use turbocookedrabbit.State.{ChannelHost, PublishReceipt, Sys, ask, act}
use turbocookedrabbit.Host.{millisecond, flush_confirms}
use turbocookedrabbit.Pool.Channels.{get_channel_from_pool, return_channel, get_transient_channel}

pub record Publisher : Type 0 where
  pub sleep_on_idle_interval : ℕ
  pub sleep_on_error_interval : ℕ
  pub publish_time_out_duration : ℕ

unfoldable pub new_publisher : ℕ → ℕ → ℕ → Publisher
new_publisher idle_interval error_interval time_out = record {
  sleep_on_idle_interval = idle_interval;
  sleep_on_error_interval = error_interval;
  publish_time_out_duration = time_out;
}

-- The config is shared with the caller: its MaxRetryCount is set where it was 0.
unfoldable pub new_publisher_from_config : PublisherConfig → Publisher × PublisherConfig
new_publisher_from_config c = (
  record {
    sleep_on_idle_interval = c.sleep_on_idle_interval * millisecond;
    sleep_on_error_interval = c.sleep_on_error_interval * millisecond;
    publish_time_out_duration = c.publish_time_out_interval * millisecond;
  },
  if c.max_retry_count == 0 then record c { max_retry_count = 5 } else c,
)

-- The arguments of Channel.Publish for a letter.
unfoldable pub publish_call : String → Letter → PublishCall
publish_call application_name letter = record {
  exchange = letter.envelope.exchange;
  routing_key = letter.envelope.routing_key;
  mandatory = letter.envelope.mandatory;
  immediate = letter.envelope.immediate;
  publishing = record {
    content_type = letter.envelope.content_type;
    body = letter.body;
    headers = letter.envelope.headers;
    delivery_mode = letter.envelope.delivery_mode;
    priority = letter.envelope.priority;
    message_id = letter.letter_id;
    correlation_id = letter.envelope.correlation_id;
    type = letter.envelope.type;
    app_id = application_name;
  };
}

-- The receipt that publishReceipt makes.
unfoldable pub make_receipt : Letter → Option Error → PublishReceipt
make_receipt letter none = record {
  letter_id = letter.letter_id;
  failed_letter = none;
  success = true;
  error = none;
}
make_receipt letter (some e) = record {
  letter_id = letter.letter_id;
  failed_letter = some letter;
  success = false;
  error = some e;
}

-- `if timeout == 0 { timeout = pub.publishTimeOutDuration }`.
unfoldable pub effective_timeout : Publisher → ℕ → ℕ
effective_timeout pub_ timeout = if timeout == 0 then pub_.publish_time_out_duration else timeout

-- How the wait for a confirmation ends.
pub data Verdict : Type 0 where
  timed_out acked nacked : Verdict

-- What ends the wait: a timer, with the number of the call before which it was started and its
-- duration, or the end of a context.
pub data Limit : Type 0 where
  timer_from : ℕ → ℕ → Limit
  context : Limit

module _ {Queue : Type 0} where
  unfoldable pub publish_receipt : Letter → Option Error → M (Sys Queue) (Unit {0})
  publish_receipt letter err =
      modify λ s. record s { receipts = make_receipt letter err ∷ s.receipts }

  -- Where no receipt is made, the error is the method's result.
  unfoldable pub settle : Bool → Letter → Option Error → M (Sys Queue) (Unit {0})
  settle receipt letter err = when receipt (publish_receipt letter err)

module _ {Queue : Type 0} (env : Env Queue) where
  -- Channel.Publish; a nil channel panics.
  unfoldable pub send_letter : Option ℕ → Letter → M (Sys Queue) (Option Error)
  send_letter channel letter = maybe channel halt (λ k. do
    s ← get
    let call = publish_call s.pool.config.application_name letter
    act (published k call)
    ask (λ n. env.publish n k call))

  -- Publish and PublishWithError, which differ in the result they hand back.
  unfoldable pub publish_with_error : ℕ → Letter → Bool → M (Sys Queue) (Option Error)
  publish_with_error fuel letter skip_receipt = do
    ch ← get_channel_from_pool
    err ← send_letter ch.channel letter
    when (not skip_receipt) (publish_receipt letter err)
    return_channel env fuel ch (is_some err)
    pure err

  unfoldable pub publish : ℕ → Letter → Bool → M (Sys Queue) (Unit {0})
  publish fuel letter skip_receipt = do
    ch ← get_channel_from_pool
    err ← send_letter ch.channel letter
    when (not skip_receipt) (publish_receipt letter err)
    return_channel env fuel ch (is_some err)

  -- The deferred Close comes after Publish.
  unfoldable pub publish_with_transient : ℕ → Letter → M (Sys Queue) (Option Error)
  publish_with_transient fuel letter = do
    k ← get_transient_channel env fuel false
    err ← send_letter (some k) letter
    act (channel_closed k)
    pure err

  -- Whether the deadline's case of the `select` is ready at the call of that number.
  unfoldable pub is_over : Limit → ℕ → Bool
  is_over (timer_from start duration) n = leb (env.now start + duration) (env.now n)
  is_over context n = env.context_done n

  -- A closed Go channel hands out the zero confirmation, whose Ack is false; a nil one nothing.
  unfoldable pub ready_confirmation : Option ℕ → ℕ → Option Bool
  ready_confirmation none n = none
  ready_confirmation (some k) n = elim (env.next_confirmation n k) [
    | received ack ↦ some ack
    | closed ↦ some false
    | empty ↦ none
  ]

  -- What the `select` meets.
  unfoldable pub select_round : Limit → Option ℕ → ℕ → Round
  select_round limit confirmations n = elim (ready_confirmation confirmations n) [
    | none ↦ if is_over limit n then deadline else idle
    | some ack ↦ if is_over limit n && env.takes_first n then deadline else confirmation ack
  ]

  unfoldable pub on_round : Round → M (Sys Queue) Verdict → M (Sys Queue) Verdict
  on_round deadline again = pure timed_out
  on_round (confirmation true) again = pure acked
  on_round (confirmation false) again = pure nacked
  on_round idle again = again

  -- The loop round the `select`; `pause` is the sleep of its default case.
  unfoldable pub wait_confirmation : ℕ → ℕ → Limit → Option ℕ → M (Sys Queue) Verdict
  wait_confirmation pause zero limit confirmations = halt
  wait_confirmation pause (suc fuel) limit confirmations = do
    round ← ask (select_round limit confirmations)
    on_round round (do act (slept pause); wait_confirmation pause fuel limit confirmations)

  -- `timeoutAfter := time.After(timeout)`, where the method has a timeout; else its context.
  unfoldable pub start_timer : Option ℕ → M (Sys Queue) Limit
  start_timer timer =
      maybe timer (pure context)
        (λ t. do s ← get; act (timer_started t); pure (timer_from s.clock t))

  unfoldable pub take_flushed : M (Sys Queue) ChannelHost
  take_flushed = do ch ← get_channel_from_pool; flush_confirms env ch; pure ch

  -- What follows the wait: a nack publishes again.
  unfoldable pub on_verdict :
      Verdict
      → M (Sys Queue) (Bool × ChannelHost)
      → ChannelHost
      → M (Sys Queue) (Bool × ChannelHost)
  on_verdict timed_out again ch = pure (false, ch)
  on_verdict acked again ch = pure (true, ch)
  on_verdict nacked again ch = again

  -- What follows Channel.Publish: the wait, or another channel; `again` goes back to the label
  -- Publish.
  unfoldable pub after_publish :
      ℕ
      → Limit
      → ChannelHost
      → Option Error
      → (ChannelHost → M (Sys Queue) (Bool × ChannelHost))
      → M (Sys Queue) (Bool × ChannelHost)
  after_publish fuel limit ch none again = do
    verdict ← wait_confirmation millisecond fuel limit ch.confirmations
    on_verdict verdict (again ch) ch
  after_publish fuel limit ch (some e) again = do
    return_channel env fuel ch true
    ch' ← take_flushed
    again ch'

  -- From the label Publish on, with the channel at hand: whether the letter was confirmed, and
  -- the channel that is at hand then. A Publish that fails returns the channel and takes another.
  unfoldable pub publish_until :
      ℕ → Letter → Option ℕ → ChannelHost → M (Sys Queue) (Bool × ChannelHost)
  publish_until zero letter timer ch = halt
  publish_until (suc fuel) letter timer ch = do
    limit ← start_timer timer
    err ← send_letter ch.channel letter
    after_publish (suc fuel) limit ch err (λ next. publish_until fuel letter timer next)

  -- The two ends of the wait; `receipt` says whether the method makes receipts.
  unfoldable pub conclude :
      ℕ → Letter → Bool → Error → Bool × ChannelHost → M (Sys Queue) (Option Error)
  conclude fuel letter receipt late (confirmed, ch) = do
    let err = if confirmed then none else some late
    settle receipt letter err
    return_channel env fuel ch false
    pure err

  -- The body that the four methods over cached channels share. They differ in the timer (a
  -- timeout, or the end of a context) with its error, and in whether they make a receipt or hand
  -- the error back.
  unfoldable pub confirm_over_cache :
      ℕ → Letter → Bool → Error → Option ℕ → M (Sys Queue) (Option Error)
  confirm_over_cache fuel letter receipt late timer = do
    ch ← take_flushed
    ended ← publish_until fuel letter timer ch
    conclude fuel letter receipt late ended

  unfoldable pub publish_with_confirmation : Publisher → ℕ → Letter → ℕ → M (Sys Queue) (Unit {0})
  publish_with_confirmation pub_ fuel letter timeout = do
    err ←
        confirm_over_cache fuel letter true (confirmation_timed_out letter.letter_id)
          (some (effective_timeout pub_ timeout))
    pure tt

  unfoldable pub publish_with_confirmation_error :
      Publisher → ℕ → Letter → ℕ → M (Sys Queue) (Option Error)
  publish_with_confirmation_error pub_ fuel letter timeout =
      confirm_over_cache fuel letter false (confirmation_timed_out letter.letter_id)
        (some (effective_timeout pub_ timeout))

  unfoldable pub publish_with_confirmation_context : ℕ → Letter → M (Sys Queue) (Unit {0})
  publish_with_confirmation_context fuel letter = do
    err ← confirm_over_cache fuel letter true (confirmation_context_done letter.letter_id) none
    pure tt

  unfoldable pub publish_with_confirmation_context_error : ℕ → Letter → M (Sys Queue) (Option Error)
  publish_with_confirmation_context_error fuel letter =
      confirm_over_cache fuel letter false (confirmation_context_done letter.letter_id) none

  unfoldable pub on_transient_verdict :
      Verdict → Letter → ℕ → M (Sys Queue) (Unit {0}) → M (Sys Queue) (Unit {0})
  on_transient_verdict nacked letter k again = again
  on_transient_verdict acked letter k again = do publish_receipt letter none; act (channel_closed k)
  on_transient_verdict timed_out letter k again = do
    publish_receipt letter (some (confirmation_timed_out letter.letter_id))
    act (channel_closed k)

  -- From the label Publish on, over the transient channel `k`. The interval is not negative, so
  -- the sleep under its test `< 0` never happens.
  unfoldable pub publish_transient_until : Publisher → ℕ → Letter → ℕ → ℕ → M (Sys Queue) (Unit {0})
  publish_transient_until pub_ zero letter timeout k = halt
  publish_transient_until pub_ (suc fuel) letter timeout k = do
    limit ← start_timer (some timeout)
    err ← send_letter (some k) letter
    maybe err
        (do
          verdict ← wait_confirmation (4 * millisecond) (suc fuel) limit (some k)
          on_transient_verdict verdict letter k
              (do pure tt; publish_transient_until pub_ fuel letter timeout k))
        (λ e. do
          act (channel_closed k)
          when (ltb pub_.sleep_on_error_interval 0) (act (slept pub_.sleep_on_error_interval))
          k' ← get_transient_channel env (suc fuel) true
          publish_transient_until pub_ fuel letter timeout k')

  unfoldable pub publish_with_confirmation_transient :
      Publisher → ℕ → Letter → ℕ → M (Sys Queue) (Unit {0})
  publish_with_confirmation_transient pub_ fuel letter timeout = do
    k ← get_transient_channel env fuel true
    publish_transient_until pub_ fuel letter (effective_timeout pub_ timeout) k
