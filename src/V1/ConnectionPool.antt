-- ===== src/V1/ConnectionPool.antt =====
-- v1/pkg/pools/connectionpool.go, with the constructors of connectionhost.go. The AMQP client, the
-- certificate files and the queue library are the record `Wire`, whose answers depend on the number
-- of the call; `connections_of` fills the interface of the channel pool. `fuel` bounds the loop that
-- dials again until it is connected. Locks, sleeps and the flush of errors are left out.
use Prim.Native.String.{◌++◌ as str_append}
use turbocookedrabbit.V1.ChannelPool.{
  PoolError, PooledConnection, Connections, Connected, connected, no_connection, shut,
  uninitialized, is_channel_flagged_in, ChannelPoolConfig, limits_zero, no_tls, connections_failed,
}
use turbocookedrabbit.Pool.Lifecycle.{format_uint}
use turbocookedrabbit.Base.{
  ℕ, zero, suc, String, Bool, true, false, not, List, [], ◌∷◌, ◌+◌, ◌/◌, Option, none, some, ltb,
  ◌==◌, ◌||◌, if◌then◌else◌, M, pure, halt, get, branch, maybe, ◌>>=◌, ◌>>◌,
}

pub record ConnectionSettings : Type 0 where
  pub connection_name : String
  pub uri : String
  pub heartbeat : ℕ
  pub connection_timeout : ℕ
  pub error_buffer : ℕ
  pub enable_tls : Bool
  pub max_connection_count : ℕ
  -- The locations of the certificates.
  pub tls_config : Option (String × String)

pub record LinkPool (Queue : Type 0) : Type 0 where
  pub settings : ConnectionSettings
  pub initialized : Bool
  pub tls_created : Bool
  pub connections : Queue
  pub max_channel_per_connection : ℕ
  pub max_ack_channel_per_connection : ℕ
  pub connection_id : ℕ
  pub connection_lock : ℕ
  pub flagged_connections : List (ℕ × Bool)

pub record Links (Queue : Type 0) : Type 0 where
  pub clock : ℕ
  pub pool : LinkPool Queue

pub record Wire (Queue : Type 0) : Type 0 where
  pub load_tls : String → String → Option PoolError
  pub dial : ℕ → String → String → ℕ → ℕ → Option PoolError
  pub close_error : ℕ → ℕ → Bool
  pub is_closed : ℕ → ℕ → Bool
  pub queue_new : ℕ → Queue
  pub queue_put : Queue → PooledConnection → Option PoolError × Queue
  pub queue_get : Queue → Option (Connected × Queue)

-- How many channels of a kind a connection may have, by the number of channels that is looked at.
unfoldable pub channels_per_connection : ℕ → ℕ → ℕ → ℕ
channels_per_connection max_connection_count looked_at count =
    if max_connection_count == 1
    then count
    else if ltb 1 looked_at
    then count / max_connection_count + 1
    else 1

module _ {Queue : Type 0} (wire : Wire Queue) where
  unfoldable pub ask_wire : {A : Type 0} → (ℕ → A) → M (Links Queue) A
  ask_wire f s = some (f s.clock, record s { clock = suc s.clock })

  unfoldable pub modify_links : (LinkPool Queue → LinkPool Queue) → M (Links Queue) (Unit {0})
  modify_links f s = some (tt, record s { pool = f s.pool })

  unfoldable pub mark_connection : ℕ → Bool → M (Links Queue) (Unit {0})
  mark_connection id flagged =
      modify_links λ p. record p { flagged_connections = (id, flagged) ∷ p.flagged_connections }

  -- NewConnectionHost, and NewConnectionHostWithTLS, which leaves the limit of ackable channels out.
  -- A connection bears the number of the call that dialled it.
  unfoldable pub dial_with_limits : Bool → ℕ → M (Links Queue) Connected
  dial_with_limits tls connection_id = do
    s ← get
    let p = s.pool
    let uri = if tls then str_append "amqps://" p.settings.uri else p.settings.uri
    let name = str_append p.settings.connection_name (str_append "-" (format_uint connection_id))
    (err, n) ←
        ask_wire (λ n. (wire.dial n uri name p.settings.heartbeat p.settings.connection_timeout, n))
    maybe err
        (pure (
          connected (record {
            connection = n;
            connection_id = connection_id;
            max_channel_count = p.max_channel_per_connection;
            max_ack_channel_count = if tls then 0 else p.max_ack_channel_per_connection;
            channel_count = 0;
            ack_channel_count = 0;
          })))
        (λ e. pure (no_connection e))

  -- createConnectionHost and createConnectionHostWithTLS.
  unfoldable pub create_connection_host : ℕ → M (Links Queue) Connected
  create_connection_host connection_id = do
    s ← get
    branch s.pool.settings.enable_tls
        (branch s.pool.tls_created (dial_with_limits true connection_id)
          (pure (no_connection no_tls)))
        (dial_with_limits false connection_id)

  unfoldable pub forget_links : M (Links Queue) (Unit {0})
  forget_links = modify_links λ p. record p {
    connection_id = 0;
    connections = wire.queue_new p.settings.max_connection_count;
  }

  unfoldable pub put_link : PooledConnection → M (Links Queue) (Option PoolError)
  put_link host = do
    s ← get
    let (err, q) = wire.queue_put s.pool.connections host
    modify_links (λ p. record p { connections = q })
    pure err

  unfoldable pub on_linked : Connected → M (Links Queue) Bool → M (Links Queue) Bool
  on_linked (no_connection e) again = do forget_links; pure false
  on_linked (connected host) again = do
    modify_links (λ p. record p { connection_id = p.connection_id + 1 })
    err ← put_link host
    maybe err again (λ e. do forget_links; pure false)

  -- initialize and initializeWithTLS, with `left` rounds to go.
  unfoldable pub fill_links : ℕ → M (Links Queue) Bool
  fill_links zero = pure true
  fill_links (suc left) = do
    s ← get
    made ← create_connection_host s.pool.connection_id
    on_linked made (fill_links left)

  unfoldable pub initialize_links : M (Links Queue) (Option PoolError)
  initialize_links = do
    s ← get
    branch s.pool.initialized (pure none) (do
      ok ← fill_links s.pool.settings.max_connection_count
      branch ok (do modify_links (λ p. record p { initialized = true }); pure none)
          (pure (some connections_failed)))

  -- The loop of GetConnection that dials until there is a connection.
  unfoldable pub redial : ℕ → ℕ → M (Links Queue) PooledConnection
  redial zero connection_id = halt
  redial (suc fuel) connection_id = do
    made ← create_connection_host connection_id
    elim made [ no_connection e ↦ redial fuel connection_id | connected host ↦ pure host ]

  unfoldable pub take_link : M (Links Queue) Connected
  take_link s = elim (wire.queue_get s.pool.connections) [
    | none ↦ none
    | some (c, q) ↦ some (c, record s { pool = record s.pool { connections = q } })
  ]

  unfoldable pub is_dead : PooledConnection → M (Links Queue) Bool
  is_dead host = do
    notified ← ask_wire (λ n. wire.close_error n host.connection)
    gone ← ask_wire (λ n. wire.is_closed n host.connection)
    s ← get
    pure (is_channel_flagged_in host.connection_id s.pool.flagged_connections || notified || gone)

  unfoldable pub check_link : ℕ → Connected → M (Links Queue) Connected
  check_link fuel (no_connection e) = pure (no_connection e)
  check_link fuel (connected host) = do
    dead ← is_dead host
    branch dead
        (do
          mark_connection host.connection_id true
          fresh ← redial fuel host.connection_id
          mark_connection host.connection_id false
          pure (connected fresh))
        (pure (connected host))

  -- GetConnection.
  unfoldable pub get_link : ℕ → M (Links Queue) Connected
  get_link fuel = do
    s ← get
    branch (ltb 0 s.pool.connection_lock) (pure (no_connection shut)) (
        branch (not s.pool.initialized) (pure (no_connection uninitialized))
          (do c ← take_link; check_link fuel c))

  -- ReturnConnection; the error of Put goes to a Go channel that is left out.
  unfoldable pub return_link : PooledConnection → Links Queue → Links Queue
  return_link host s = record s {
    pool = record s.pool { connections = (wire.queue_put s.pool.connections host).1 };
  }

  unfoldable pub flag_link : ℕ → Links Queue → Links Queue
  flag_link id s = record s {
    pool = record s.pool { flagged_connections = (id, true) ∷ s.pool.flagged_connections };
  }

  -- Shutdown; the connections that it closes are left out.
  unfoldable pub shutdown_links : Links Queue → Links Queue
  shutdown_links s =
      if s.pool.initialized
      then record s {
        pool = record s.pool {
          connections = wire.queue_new s.pool.settings.max_connection_count;
          flagged_connections = [];
          connection_id = 0;
          initialized = false;
          connection_lock = 0;
        };
      }
      else record s { pool = record s.pool { connection_lock = 0 } }

  unfoldable pub connections_of : ℕ → Connections (Links Queue)
  connections_of fuel = record {
    is_initialized = λ s. s.pool.initialized;
    initialize_connections = λ s. initialize_links s;
    get_connection = λ s. get_link fuel s;
    return_connection = return_link;
    flag_connection = flag_link;
    shutdown_connections = λ s. some (shutdown_links s);
  }

  unfoldable pub tls_error : ConnectionSettings → Option PoolError
  tls_error settings =
      if settings.enable_tls
      then elim settings.tls_config [
        | none ↦ some no_tls
        | some (pem, cert) ↦ wire.load_tls pem cert
      ]
      else none

  -- NewConnectionPool. The limit of ackable channels looks at the number of plain ones.
  unfoldable pub new_link_pool :
      ConnectionSettings → ChannelPoolConfig → Bool → M (Links Queue) (Option PoolError)
  new_link_pool settings channels initialize_now =
      branch
        (settings.heartbeat == 0
          || settings.connection_timeout == 0
          || settings.max_connection_count == 0)
        (pure (some limits_zero))
        (maybe (tls_error settings)
          (branch (settings.error_buffer == 0) (pure (some limits_zero)) (do
            modify_links (λ p. record {
              settings = settings;
              initialized = false;
              tls_created = settings.enable_tls;
              connections = wire.queue_new settings.max_connection_count;
              max_channel_per_connection =
                  channels_per_connection settings.max_connection_count channels.max_channel_count
                    channels.max_channel_count;
              max_ack_channel_per_connection =
                  channels_per_connection settings.max_connection_count channels.max_channel_count
                    channels.max_ack_channel_count;
              connection_id = 0;
              connection_lock = 0;
              flagged_connections = [];
            })
            branch initialize_now initialize_links (pure none)))
          (λ e. pure (some e)))
