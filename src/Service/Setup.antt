-- ===== src/Service/Setup.antt =====
-- v2/pkg/tcr/rabbitservice.go: making a service.
use turbocookedrabbit.Pool.Lifecycle.{new_connection_pool}
use turbocookedrabbit.State.{Sys}
use turbocookedrabbit.Service.{create_consumers}
use turbocookedrabbit.Crypto.{or_nil, get_hash_with_argon}
use turbocookedrabbit.Service.Stop.{Service}
use turbocookedrabbit.Consumer.{Consumer}
use turbocookedrabbit.Publisher.{Publisher, new_publisher_from_config}
use turbocookedrabbit.Amqp.{Env, Error}
use turbocookedrabbit.Codec.{Library}
use turbocookedrabbit.Auto.{Auto, new_auto, start_auto_publishing}
use turbocookedrabbit.Config.{RabbitSeasoning}
use turbocookedrabbit.Base.{
  ℕ, true, false, List, Bool, Option, String, [], M, if◌then◌else◌, ◌&&◌, not, str_eq, ◌>>=◌, maybe,
  pure, none, some, ◌∷◌,
}

-- What is made: the settings, which the constructors write to, the publisher, the consumers under
-- their keys with their names, and what runs.
pub record Built : Type 0 where
  pub config : RabbitSeasoning
  pub encryption_configured : Bool
  pub publisher : Publisher
  pub named : List (String × String × Consumer)
  pub service : Service

abbrev pub consumer_values : List (String × String × Consumer) → List Consumer
consumer_values [] = []
consumer_values ((key, name, con) ∷ rest) = con ∷ consumer_values rest

-- The auto-publisher of a publisher that was just made.
abbrev pub fresh_auto : Auto
fresh_auto = new_auto (record {
  letters = [];
  letters_closed = false;
  central_err = [];
  max_retry_count = 0;
  shutdown = false;
})

-- Whether there is a key to make.
unfoldable pub makes_key : RabbitSeasoning → String → String → Bool
makes_key config passphrase salt =
    config.encryption_config.enabled && not (str_eq passphrase "") && not (str_eq salt "")

module _ {Input : Type 0} (lib : Library Input) where
  unfoldable pub with_hashkey : RabbitSeasoning → String → String → RabbitSeasoning
  with_hashkey config passphrase salt =
      let e = config.encryption_config in
      if makes_key config passphrase salt
      then record config {
        encryption_config = record e {
          hashkey = or_nil (
              get_hash_with_argon lib passphrase salt e.time_consideration e.memory_multiplier
                e.threads 32);
        };
      }
      else config

  -- The monitors start, and auto-publishing does, over the publisher's letters.
  unfoldable pub new_rabbit_service_with_publisher :
      Option String → Publisher → Auto → RabbitSeasoning → String → String → Built
  new_rabbit_service_with_publisher host_name publisher auto config passphrase salt =
      let named = create_consumers host_name config.consumer_configs in
      record {
        config = with_hashkey config passphrase salt;
        encryption_configured = makes_key config passphrase salt;
        publisher = publisher;
        named = named;
        service = record {
          auto = start_auto_publishing (record auto {
            desk = record auto.desk {
              central_err = [];
              max_retry_count = config.publisher_config.max_retry_count;
              shutdown = false;
            };
          });
          consumers = consumer_values named;
          shutdown_signal = 0;
          monitoring = true;
        };
      }

  unfoldable pub new_rabbit_service_with_connection_pool :
      Option String → RabbitSeasoning → String → String → Built
  new_rabbit_service_with_connection_pool host_name config passphrase salt =
      let (publisher, publisher_config) = new_publisher_from_config config.publisher_config in
      new_rabbit_service_with_publisher host_name publisher fresh_auto
        (record config { publisher_config = publisher_config }) passphrase salt

  -- With an error the service is nil.
  unfoldable pub new_rabbit_service :
      {Queue : Type 0}
      → Env Queue
      → ℕ
      → Option String
      → RabbitSeasoning
      → String
      → String
      → M (Sys Queue) (Option Error × Option Built)
  new_rabbit_service env fuel host_name config passphrase salt = do
    err ← new_connection_pool env fuel config.pool_config
    maybe err
        (pure
          (none, some (new_rabbit_service_with_connection_pool host_name config passphrase salt)))
        (λ e. pure (some e, none))
