-- ===== src/Examples/Services.antt =====
-- A service made, and its parts shut down.
use turbocookedrabbit.Examples.{pool_config}
use turbocookedrabbit.Examples.Payloads.{lib}
use turbocookedrabbit.Config.{RabbitSeasoning, ConsumerConfig}
use turbocookedrabbit.Amqp.{channel_lost}
use turbocookedrabbit.Consumer.{Consumer, seeking}
use turbocookedrabbit.Service.{Desk, stopped_already, consumer_error}
use turbocookedrabbit.Service.Stop.{
  Service, begin_shutdown, stop_consumers, collect_consumer_errors,
}
use turbocookedrabbit.Service.Stopping.{AllHalted, stop_consumers-AllHalted}
use turbocookedrabbit.Service.Collecting.{
  collect_consumer_errors-all, begin_shutdown-blocks, monitored,
}
use turbocookedrabbit.Service.Setup.{Built, fresh_auto, new_rabbit_service_with_connection_pool}
use turbocookedrabbit.Service.{ServiceError}
use mathlib.Core.Option
use turbocookedrabbit.Base.{Option, [], ◌∷◌, ◌≡◌, refl, none, some, true, false, arith, List}

abbrev stopped : Consumer
stopped = record {
  enabled = true;
  auto_ack = false;
  started = false;
  stop_immediate = false;
  errors = [];
  received_messages = [];
  consume_stop = 0;
  loops = [];
}

-- It runs, and has failed twice.
abbrev running : Consumer
running = record stopped {
  started = true;
  errors = channel_lost 7 ∷ channel_lost 8 ∷ [];
  loops = seeking ∷ [];
}

abbrev desk : Desk
desk = fresh_auto.desk

stop_consumers-AllHalted_example :
    (cons' : List Consumer) × (stop_consumers (running ∷ stopped ∷ []) desk
      ≡ some (cons', record desk { central_err = stopped_already ∷ [] }))
    × AllHalted (running ∷ stopped ∷ []) cons'
stop_consumers-AllHalted_example =
    stop_consumers-AllHalted (running ∷ stopped ∷ []) desk (refl, (refl, tt)) (omega arith)

collect_consumer_errors-all_example :
    collect_consumer_errors (running ∷ stopped ∷ []) desk
    ≡ some (
      record running { errors = [] } ∷ stopped ∷ [],
      record desk {
        central_err = consumer_error (channel_lost 7) ∷ consumer_error (channel_lost 8) ∷ [];
      },
    )
collect_consumer_errors-all_example =
    collect_consumer_errors-all (running ∷ stopped ∷ []) desk refl (omega arith)

abbrev served : Service
served = record {
  auto = fresh_auto;
  consumers = running ∷ [];
  shutdown_signal = 0;
  monitoring = true;
}

begin_shutdown-blocks_example :
    (s₁ : Service) × (s₂ : Service) × (begin_shutdown served ≡ some s₁)
    × ((monitored 3 s₁).auto.desk.shutdown ≡ true)
    × ((monitored 3 s₁).monitoring ≡ false)
    × (begin_shutdown (monitored 3 s₁) ≡ some s₂)
    × (begin_shutdown (monitored 5 s₂) ≡ none)
begin_shutdown-blocks_example = begin_shutdown-blocks 2 5 served refl refl

abbrev config : RabbitSeasoning
config = record {
  encryption_config = record {
    enabled = true;
    type = "aes";
    hashkey = [];
    time_consideration = 0;
    memory_multiplier = 64;
    threads = 2;
  };
  compression_config = record { enabled = false; type = "gzip" };
  pool_config = pool_config;
  consumer_configs = [];
  publisher_config = record {
    auto_ack = true;
    sleep_on_idle_interval = 0;
    sleep_on_error_interval = 0;
    publish_time_out_interval = 10;
    max_retry_count = 0;
  };
}

abbrev made : Built
made = new_rabbit_service_with_connection_pool lib none config "secret" "salt"

abbrev no_failure : Option ServiceError
no_failure = none

abbrev orders : ConsumerConfig
orders = record {
  enabled = true;
  queue_name = "orders";
  consumer_name = "first";
  auto_ack = false;
  exclusive = false;
  no_wait = false;
  args = none;
  qos_count_override = none;
  sleep_on_error_interval = 0;
  sleep_on_idle_interval = 0;
}
