-- ===== src/Examples/Publishing.antt =====
-- The publish operations over the broker of the examples: a nack, then an ack.
use turbocookedrabbit.Examples.{broker, managed, run_pool, system, letter, after}
use turbocookedrabbit.Amqp.{Error, confirmation_timed_out}
use turbocookedrabbit.State.{ChannelHost}
use turbocookedrabbit.Pool.Frame.{sends}
use turbocookedrabbit.Pool.Channels.{return_channel}
use turbocookedrabbit.Pool.Lifecycle.{
  new_connection_pool_with_handlers, check_pool_config, new_pool, set_pool, create_connection,
  create_connections, create_channels, initialize_connections, format_uint, format_digits,
}
use turbocookedrabbit.Pool.Startup.{new_connection_pool_with_handlers-filled}
use turbocookedrabbit.Examples.{pool_config}
use turbocookedrabbit.Base.{range_from}
use turbocookedrabbit.Publisher.Together.{publish-new_pool}
use mathlib.Core.List.{Perm}
use turbocookedrabbit.Pool.Cache.{Renewed, return_channel_caches}
use turbocookedrabbit.Publisher.{
  Publisher, publish_with_confirmation, publish_with_confirmation_error, confirm_over_cache,
  take_flushed, publish_until, after_publish, on_verdict, wait_confirmation, on_round, start_timer,
  is_over, ready_confirmation, select_round, send_letter, conclude, settle, publish_receipt,
  make_receipt, effective_timeout, publish_call,
}
use turbocookedrabbit.Publisher.Sends.{Sent, publish_until-Sent}
use turbocookedrabbit.Publisher.Outcomes.{
  Completed, publish_with_confirmation-Completed, publish_with_confirmation_error-Completed,
}
use turbocookedrabbit.Publisher.{publish_with_error, publish_until}
use turbocookedrabbit.Publisher.Direct.{SentOnce, publish_with_error-once}
use turbocookedrabbit.Service.{ServiceError}
use turbocookedrabbit.Service.Direct.{publish_letter, with_letter_id, publish_letter-once}
use turbocookedrabbit.Publisher.{publish}
use turbocookedrabbit.Publisher.Waiting.{publish_until-endless, publish_until-acked}
use turbocookedrabbit.Pool.Cache.{ids}
use turbocookedrabbit.Pool.Rotation.{AllCached}
use turbocookedrabbit.Amqp.{Env, received, empty}
use turbocookedrabbit.State.{Sys}
use turbocookedrabbit.Base.{
  List, suc, ltb, leb, ◌+◌, if◌then◌else◌, arith, ℕ, Option, [], ◌∷◌, ◌++◌, ◌≡◌, ◌<◌, ◌⊎◌, refl,
  none, some, true, false, length,
}

abbrev publisher : Publisher
publisher = record {
  sleep_on_idle_interval = 0;
  sleep_on_error_interval = 0;
  publish_time_out_duration = 5;
}

abbrev no_error : Option Error
no_error = none

abbrev no_failure : Option ServiceError
no_failure = none

-- Opens the publish operations for an evaluation.
unfoldable run_publish : Unit {0}
unfolding run_pool publish_with_confirmation publish_with_confirmation_error confirm_over_cache
    take_flushed publish_until after_publish on_verdict wait_confirmation on_round start_timer
    is_over ready_confirmation select_round send_letter conclude settle publish_receipt make_receipt
    effective_timeout publish_call
run_publish = tt

return_channel_caches_example :
    let s' = after (return_channel broker 3 (managed 5) false system) in
    (ch' : ChannelHost) × Renewed (managed 5) ch'
    × (s'.pool.channels ≡ system.pool.channels ++ ch' ∷ [])
    × (s'.pool.config ≡ system.pool.config)
    × (s'.receipts ≡ system.receipts)
    × (sends s'.log ≡ sends system.log)
    × (length system.pool.channels < system.pool.config.max_cache_channel_count)
unfolding run_publish
return_channel_caches_example = return_channel_caches broker 3 (managed 5) false system refl refl

publish_until-Sent_example :
    Sent letter
      (managed 5)
      system
      (managed 5)
      (after (publish_until broker 3 letter (some 5) (managed 5) system))
unfolding run_publish
publish_until-Sent_example =
    publish_until-Sent broker 3 letter (some 5) (managed 5) system (refl, (refl, (refl, tt))) refl

publish_with_confirmation-Completed_example :
    let s' = after (publish_with_confirmation broker publisher 4 letter 0 system) in
    Completed letter system s'
    × ((s'.receipts ≡ make_receipt letter none ∷ system.receipts)
        ⊎ (s'.receipts
            ≡ make_receipt letter (some (confirmation_timed_out letter.letter_id))
              ∷ system.receipts))
unfolding run_publish
publish_with_confirmation-Completed_example =
    publish_with_confirmation-Completed broker publisher 4 letter 0 system
      (after (publish_with_confirmation broker publisher 4 letter 0 system)) (refl, (refl, tt)) refl

publish_with_confirmation_error-Completed_example :
    let s' = after (publish_with_confirmation_error broker publisher 4 letter 0 system) in
    Completed letter system s'
    × ((no_error ≡ none) ⊎ (no_error ≡ some (confirmation_timed_out letter.letter_id)))
    × (s'.receipts ≡ system.receipts)
unfolding run_publish
publish_with_confirmation_error-Completed_example =
    publish_with_confirmation_error-Completed broker publisher 4 letter 0 system
      (after (publish_with_confirmation_error broker publisher 4 letter 0 system))
      (refl, (refl, tt)) refl

publish_with_error-once_example :
    let s' = after (publish_with_error broker 3 letter false system) in
    SentOnce letter system s'
    × (s'.receipts ≡ (if true then make_receipt letter none ∷ system.receipts else system.receipts))
unfolding run_publish publish_with_error
publish_with_error-once_example =
    publish_with_error-once broker 3 letter false system
      (after (publish_with_error broker 3 letter false system)) (refl, (refl, tt)) refl

-- A broker that refuses every letter; its clock ticks once a call, so that a timeout of 5 that was
-- started once would come.
abbrev refusing : Env (List ℕ)
refusing = record broker { next_confirmation = λ n k. received false }

-- A broker that takes its time.
abbrev slow : Env (List ℕ)
slow = record broker { next_confirmation = λ n k. if ltb n 3 then empty else received true }

-- A broker that says nothing.
abbrev silent : Env (List ℕ)
silent = record broker { next_confirmation = λ n k. empty }

in_time : (n : ℕ) → leb (n + 5) (suc n) ≡ false
in_time n = ground arith

publish_until-endless_example : publish_until refusing 7 letter (some 5) (managed 5) system ≡ none
unfolding is_over
publish_until-endless_example =
    publish_until-endless refusing 7 letter (some 5) (managed 5) system 5 5 refl refl
      (λ n call. refl) (λ n. (0, (refl, in_time n)))

publish_until-acked_example :
    (s' : Sys (List ℕ)) × (publish_until slow 4 letter (some 5) (managed 5) system
      ≡ some ((true, managed 5), s'))
unfolding is_over
publish_until-acked_example =
    publish_until-acked slow 3 2 letter (some 5) (managed 5) system 5 5 refl refl (λ n call. refl)
      (refl, refl, (refl, refl, (refl, refl))) (omega arith)

-- Opens the building of a pool for an evaluation.
unfoldable pub run_build : Unit {0}
unfolding run_publish new_connection_pool_with_handlers check_pool_config new_pool set_pool
    create_connection create_connections create_channels initialize_connections format_uint
    format_digits
run_build = tt

new_connection_pool_with_handlers-filled_example :
    let s' = after (new_connection_pool_with_handlers broker 3 pool_config true true system) in
    (check_pool_config pool_config ≡ none)
    × (ids s'.pool.channels ≡ range_from 0 3)
    × AllCached s'.pool.channels
unfolding run_build
new_connection_pool_with_handlers-filled_example =
    new_connection_pool_with_handlers-filled broker 3 pool_config true true system
      (after (new_connection_pool_with_handlers broker 3 pool_config true true system)) refl

publish-new_pool_example :
    let built = after (new_connection_pool_with_handlers broker 3 pool_config true true system) in
    let s' = after (publish_with_confirmation broker publisher 4 letter 0 built) in
    Perm (range_from 0 3) (ids s'.pool.channels)
unfolding run_build
publish-new_pool_example =
    let built = after (new_connection_pool_with_handlers broker 3 pool_config true true system) in
    publish-new_pool broker publisher 4 pool_config true true letter 0 system built
      (after (publish_with_confirmation broker publisher 4 letter 0 built)) refl refl

publish_letter-once_example :
    let s' = after (publish_letter broker 3 (λ n. "42") 7 false letter system) in
    (no_failure ≡ none)
    × SentOnce letter system s'
    × ((err : Option Error) × (s'.receipts ≡ make_receipt letter err ∷ system.receipts))
unfolding run_publish publish_letter publish with_letter_id
publish_letter-once_example =
    publish_letter-once broker 3 (λ n. "42") 7 letter system
      (after (publish_letter broker 3 (λ n. "42") 7 false letter system)) (refl, (refl, tt)) refl
      refl
