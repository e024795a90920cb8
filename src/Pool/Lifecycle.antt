-- ===== src/Pool/Lifecycle.antt =====
-- v2/pkg/tcr/connectionpool.go, construction, initialisation and Shutdown of the pool.
use Prim.Native.String.{◌++◌ as str_append}
use turbocookedrabbit.Base.{
  ℕ, zero, suc, ◌+◌, ◌*◌, ◌/◌, ◌%◌, String, Bool, true, false, ◌||◌, Option, none, some, List, [],
  ◌∷◌, ◌==◌, if◌then◌else◌, get_or, M, ◌>>=◌, ◌>>◌, pure, halt, get, branch, maybe,
}
use turbocookedrabbit.Config.{PoolConfig}
use turbocookedrabbit.Amqp.{
  Error, heartbeat_or_timeout_zero, max_connection_count_zero, initialization_failed, Env,
  connection_closed,
}
use turbocookedrabbit.State.{ChannelHost, ConnectionPool, Sys, ask, act, host_at, modify_pool}
use turbocookedrabbit.Host.{new_connection_host, second, millisecond}
use turbocookedrabbit.Pool.{handle_error, set_connections}
use turbocookedrabbit.Pool.Channels.{
  set_channels, create_cache_channel, send_channel, close_recovered,
}

abbrev digits : List String
digits = "0" ∷ "1" ∷ "2" ∷ "3" ∷ "4" ∷ "5" ∷ "6" ∷ "7" ∷ "8" ∷ "9" ∷ []

-- strconv.FormatUint(n, 10); 20 digits hold every uint64.
unfoldable pub format_digits : ℕ → ℕ → String → String
format_digits zero n acc = acc
format_digits (suc fuel) n acc =
    let acc' = str_append (get_or digits (n % 10) "") acc in
    let rest = format_digits fuel (n / 10) acc' in if n / 10 == 0 then acc' else rest

unfoldable pub format_uint : ℕ → String
format_uint n = format_digits 20 n ""

-- The checks before a pool is made.
unfoldable pub check_pool_config : PoolConfig → Option Error
check_pool_config config =
    if config.heartbeat == 0 || config.connection_timeout == 0
    then some heartbeat_or_timeout_zero
    else if config.max_connection_count == 0
    then some max_connection_count_zero
    else none

module _ {Queue : Type 0} (env : Env Queue) where
  unfoldable pub new_pool : PoolConfig → Bool → Bool → ConnectionPool Queue
  new_pool config error_handler unhealthy_handler = record {
    config = config;
    uri = config.uri;
    heartbeat_interval = config.heartbeat * second;
    connection_timeout = config.connection_timeout * second;
    connections = env.queue_new config.max_connection_count;
    channels = [];
    connection_id = 0;
    flagged_connections = [];
    sleep_on_error_interval = config.sleep_on_error_interval * millisecond;
    error_handler = error_handler;
    unhealthy_handler = unhealthy_handler;
  }

  unfoldable pub set_pool : ConnectionPool Queue → M (Sys Queue) (Unit {0})
  set_pool p = modify_pool (λ old. p)

  -- One round of the first loop of initializeConnections: whether the connection was made and put.
  unfoldable pub create_connection : M (Sys Queue) Bool
  create_connection = do
    s ← get
    let p = s.pool
    err ←
        new_connection_host env p.uri
          (str_append p.config.application_name (str_append "-" (format_uint p.connection_id)))
          p.connection_id p.heartbeat_interval p.connection_timeout p.config.tls_config
    maybe err
        (do
          s ← get
          let put = env.queue_put s.pool.connections s.pool.connection_id
          modify_pool (set_connections put.1)
          maybe put.0
              (do modify_pool (λ p. record p { connection_id = p.connection_id + 1 }); pure true)
              (λ e. do handle_error e; pure false))
        (λ e. do handle_error e; pure false)

  -- The loop, with `left` rounds to go.
  unfoldable pub create_connections : ℕ → M (Sys Queue) Bool
  create_connections zero = pure true
  create_connections (suc left) = do
    ok ← create_connection
    branch ok (create_connections left) (pure false)

  -- The second loop, at index `i`.
  unfoldable pub create_channels : ℕ → ℕ → ℕ → M (Sys Queue) (Unit {0})
  create_channels fuel i zero = pure tt
  create_channels fuel i (suc left) = do
    ch ← create_cache_channel env fuel i
    send_channel ch
    create_channels fuel (suc i) left

  unfoldable pub initialize_connections : ℕ → M (Sys Queue) Bool
  initialize_connections fuel = do
    modify_pool (λ p. record p {
      connection_id = 0;
      connections = env.queue_new p.config.max_connection_count;
    })
    s ← get
    ok ← create_connections s.pool.config.max_connection_count
    branch ok (do create_channels fuel 0 s.pool.config.max_cache_channel_count; pure true)
        (pure false)

  -- The pool is the one in the state; an error says that the caller gets nil.
  unfoldable pub new_connection_pool_with_handlers :
      ℕ → PoolConfig → Bool → Bool → M (Sys Queue) (Option Error)
  new_connection_pool_with_handlers fuel config error_handler unhealthy_handler =
      maybe (check_pool_config config)
        (do
          set_pool (new_pool config error_handler unhealthy_handler)
          ok ← initialize_connections fuel
          pure (if ok then none else some initialization_failed))
        (λ e. pure (some e))

  unfoldable pub new_connection_pool : ℕ → PoolConfig → M (Sys Queue) (Option Error)
  new_connection_pool fuel config = new_connection_pool_with_handlers fuel config false false

  unfoldable pub new_connection_pool_with_error_handler :
      ℕ → PoolConfig → Bool → M (Sys Queue) (Option Error)
  new_connection_pool_with_error_handler fuel config handler =
      new_connection_pool_with_handlers fuel config handler false

  unfoldable pub new_connection_pool_with_unhealthy_handler :
      ℕ → PoolConfig → Bool → M (Sys Queue) (Option Error)
  new_connection_pool_with_unhealthy_handler fuel config handler =
      new_connection_pool_with_handlers fuel config false handler

  -- ChannelFlushLoop, and the goroutines that close what it takes out.
  unfoldable pub flush_channels : List ChannelHost → M (Sys Queue) (Unit {0})
  flush_channels [] = pure tt
  flush_channels (ch ∷ rest) = do close_recovered ch; flush_channels rest

  -- A nil connection panics in the goroutine, which recovers.
  unfoldable pub close_connection : ℕ → M (Sys Queue) (Unit {0})
  close_connection i = do
    host ← host_at i
    maybe host.connection (pure tt) (λ c. do
      gone ← ask (λ n. env.is_closed n c)
      branch gone (pure tt) (act (connection_closed c)))

  unfoldable pub close_connections : List ℕ → M (Sys Queue) (Unit {0})
  close_connections [] = pure tt
  close_connections (i ∷ rest) = do close_connection i; close_connections rest

  -- The loop over the connections, at most `fuel` rounds. It takes all items at once, each a
  -- connection host, as only those are ever put, and the goroutines of a round run in their order.
  unfoldable pub drain_connections : ℕ → M (Sys Queue) (Unit {0})
  drain_connections zero = halt
  drain_connections (suc fuel) = do
    s ← get
    branch (env.queue_empty s.pool.connections) (pure tt) (
        maybe (env.queue_get_many s.pool.connections (env.queue_len s.pool.connections)) halt
          (λ got. do
            modify_pool (set_connections got.1)
            close_connections got.0
            drain_connections fuel))

  unfoldable pub shutdown : ℕ → M (Sys Queue) (Unit {0})
  shutdown fuel = do
    s ← get
    modify_pool (set_channels [])
    flush_channels s.pool.channels
    drain_connections fuel
    modify_pool (λ p. record p {
      connections = env.queue_new p.config.max_connection_count;
      flagged_connections = [];
      connection_id = 0;
    })
