-- ===== src/Config.antt =====
-- v2/pkg/tcr/configs.go: the settings. A uint32, uint64 or uint8 is the number it holds; the
-- places that compute with one say what the width does there. A `map[string]interface{}` or an
-- `amqp.Table` is an association list, `none` where the Go value is nil.
use turbocookedrabbit.Base.{ℕ, String, Bool, Option, List}

-- A value of an `interface{}`: a text, which the code stores itself, or any other value, by a
-- number that stands for it.
pub data Value : Type 0 where
  text : String → Value
  other : ℕ → Value

abbrev pub Table : Type 0
Table = Option (List (String × Value))

pub record TlsConfig : Type 0 where
  pub enable_tls : Bool
  pub pem_cert_location : String
  pub local_cert_location : String
  pub cert_server_name : String

pub record PoolConfig : Type 0 where
  pub application_name : String
  pub uri : String
  pub heartbeat : ℕ
  pub connection_timeout : ℕ
  pub sleep_on_error_interval : ℕ
  pub max_connection_count : ℕ
  pub max_cache_channel_count : ℕ
  pub tls_config : Option TlsConfig

pub record ConsumerConfig : Type 0 where
  pub enabled : Bool
  pub queue_name : String
  pub consumer_name : String
  pub auto_ack : Bool
  pub exclusive : Bool
  pub no_wait : Bool
  pub args : Table
  -- An `int`: `none` is a negative value, which the code treats as it treats 0.
  pub qos_count_override : Option ℕ
  pub sleep_on_error_interval : ℕ
  pub sleep_on_idle_interval : ℕ

pub record PublisherConfig : Type 0 where
  pub auto_ack : Bool
  pub sleep_on_idle_interval : ℕ
  pub sleep_on_error_interval : ℕ
  pub publish_time_out_interval : ℕ
  pub max_retry_count : ℕ

pub record CompressionConfig : Type 0 where
  pub enabled : Bool
  pub type : String

pub record EncryptionConfig : Type 0 where
  pub enabled : Bool
  pub type : String
  pub hashkey : List ℕ
  pub time_consideration : ℕ
  pub memory_multiplier : ℕ
  pub threads : ℕ

pub record RabbitSeasoning : Type 0 where
  pub encryption_config : EncryptionConfig
  pub compression_config : CompressionConfig
  pub pool_config : PoolConfig
  pub consumer_configs : List (String × ConsumerConfig)
  pub publisher_config : PublisherConfig
