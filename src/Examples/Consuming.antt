-- ===== src/Examples/Consuming.antt =====
-- Consumers with one and two loops, and a batch.
use turbocookedrabbit.Examples.{managed, run_pool, broker, system, after}
use turbocookedrabbit.Consumer.{
  Consumer, seeking, processing, start_consuming, stop_consuming, seek_round, get_batch, batch_from,
  get_one, new_received_message,
}
use turbocookedrabbit.Consumer.Batch.{BatchEnd, get_batch-BatchEnd}
use turbocookedrabbit.Consumer.Loops.{
  IsSound, start, Life-IsSound, orphaned_loop, closed_rounds, closed_rounds-messages,
}
use turbocookedrabbit.Base.{
  ℕ, [], ◌∷◌, ◌≡◌, ◌++◌, refl, none, some, true, false, not, replicate, arith,
}

abbrev stopped : Consumer
stopped = record {
  enabled = true;
  auto_ack = false;
  started = false;
  stop_immediate = false;
  errors = [];
  received_messages = [];
  consume_stop = 0;
  loops = [];
}

abbrev one_loop : Consumer
one_loop = record stopped { started = true; loops = processing (managed 5) ∷ [] }

stopped-IsSound : IsSound stopped
stopped-IsSound = record { one_loop = omega arith; running = λ e. cc; idle = λ e. refl }

get_batch-BatchEnd_example :
    (c : ℕ) × (k : ℕ) × BatchEnd broker c k "orders" 9 [] (none, 5 ∷ 6 ∷ [])
unfolding run_pool get_batch batch_from get_one
get_batch-BatchEnd_example =
    get_batch-BatchEnd broker 3 "orders" 9 system (after (get_batch broker 3 "orders" 9 system))
      (none, 5 ∷ 6 ∷ []) (omega arith) refl

Life-IsSound_example : IsSound (start_consuming stopped)
Life-IsSound_example = Life-IsSound broker (start stopped refl) stopped-IsSound

orphaned_loop_example :
    (stopping : Consumer) × (left : Consumer) × (stop_consuming true false
        (start_consuming (start_consuming stopped))
      ≡ some (true, stopping))
    × (stopping.loops ≡ seeking ∷ seeking ∷ [])
    × (seek_round broker 3 true (seeking ∷ []) stopping system ≡ some (left, system))
    × (left.loops ≡ seeking ∷ [])
    × (left.consume_stop ≡ 0)
    × (stop_consuming true true left ≡ some (false, left))
orphaned_loop_example = orphaned_loop broker 3 true true false true true stopped system refl refl

closed_rounds-messages_example :
    (c' : Consumer) × (closed_rounds broker 3 (managed 5) 3 one_loop system ≡ some (c', system))
    × (c'.received_messages ≡ [] ++ replicate 3 (new_received_message (not false) none))
    × (c'.loops ≡ processing (managed 5) ∷ [])
closed_rounds-messages_example =
    closed_rounds-messages broker 3 (managed 5) 3 one_loop system refl (omega arith) refl
