-- ===== src/Examples.antt =====
-- Test data: a broker, a pool with two managed channels, and a letter.
mod Publishing
mod Closing
mod Building
mod Consuming
mod Retrying
mod Autos
mod Payloads
mod Randoms
mod Services
mod ChannelPools
use turbocookedrabbit.Host.{
  is_up, connection_is_closed, report, make_tls, cert_server_name, dial_host, dial_with,
  connect_with_error_handler, connect, new_connection_host, pause_on_flow_control, make_channel,
  new_channel_host, close_channel, flush_confirms, pause_for_flow_control,
}
use turbocookedrabbit.Pool.{
  set_flag, flag_of, set_flagged, flag_connection, unflag_connection, is_connection_flagged,
  sleep_on_error, handle_error, handle_unhealthy, set_connections, get_connection_from_pool,
  reconnect_host, flush_errors, trigger_connection_recovery, check_health, needs_recovery,
  verify_healthy_connection, check_got, get_connection, return_connection,
}
use turbocookedrabbit.Pool.Channels.{
  set_channels, receive_channel, get_channel_from_pool, send_channel, close_recovered,
  reconnect_channel, return_channel, create_on, on_got, create_cache_channel, open_on,
  get_transient_channel,
}
use turbocookedrabbit.Amqp.{Env, received, empty}
use turbocookedrabbit.State.{sys_ops, Sys, ConnectionHost, ChannelHost, ConnectionPool}
use turbocookedrabbit.Letter.{Letter, zero_envelope}
use turbocookedrabbit.Config.{PoolConfig}
use turbocookedrabbit.Base.{
  ℕ, List, [], ◌∷◌, ◌++◌, Option, none, some, true, false, not, ◌==◌, ltb, leb, length, take, drop,
  if◌then◌else◌, Bool,
}

abbrev take_one : List ℕ → Option (Option ℕ × List ℕ)
take_one [] = none
take_one (x ∷ xs) = some (some x, xs)

-- It nacks what is asked for at call 2, and hands out messages before call 7.
abbrev pub broker : Env (List ℕ)
broker = record {
  is_closed = λ n c. false;
  load_tls = λ n p l. none;
  dial = λ n call. none;
  connection_error = λ n c. empty;
  blocker = λ n c. empty;
  open_channel = λ n c. none;
  confirm = λ n c. none;
  publish = λ n k call. none;
  stale_confirmation = λ n k. empty;
  next_confirmation = λ n k. received (not (n == 2));
  now = λ n. n;
  context_done = λ n. false;
  takes_first = λ n. false;
  topology = λ n k call. (0, none);
  get_message = λ n k q auto_ack. (none, if ltb n 7 then some n else none);
  queue_new = λ n. [];
  queue_put = λ q i. (none, q ++ i ∷ []);
  queue_get = λ q. elim (take_one q) [ none ↦ none | some (item, rest) ↦ some (none, item, rest) ];
  queue_empty = λ q. leb (length q) 0;
  queue_len = λ q. length q;
  queue_get_many = λ q n. elim q [ [] ↦ none | x ∷ xs ↦ some (take n (x ∷ xs), drop n (x ∷ xs)) ];
}

abbrev pub host : ConnectionHost
host = record {
  connection = some 7;
  connection_id = 0;
  cached_channel_count = 2;
  uri = "amqp://localhost";
  connection_name = "app-0";
  heartbeat_interval = 6;
  connection_timeout = 10;
  tls_config = none;
  errors = 7;
  blockers = 7;
}

abbrev pub managed : ℕ → ChannelHost
managed i = record {
  channel = some i;
  id = i;
  connection_id = 0;
  ackable = true;
  cached_channel = true;
  confirmations = some i;
  errors = some i;
  conn_host = 0;
}

abbrev pub pool_config : PoolConfig
pool_config = record {
  application_name = "app";
  uri = "amqp://localhost";
  heartbeat = 6;
  connection_timeout = 10;
  sleep_on_error_interval = 0;
  max_connection_count = 1;
  max_cache_channel_count = 3;
  tls_config = none;
}

abbrev pub pool : ConnectionPool (List ℕ)
pool = record {
  config = pool_config;
  uri = "amqp://localhost";
  heartbeat_interval = 6;
  connection_timeout = 10;
  connections = 0 ∷ [];
  channels = managed 1 ∷ managed 2 ∷ [];
  connection_id = 1;
  flagged_connections = [];
  sleep_on_error_interval = 0;
  error_handler = false;
  unhealthy_handler = false;
}

abbrev pub system : Sys (List ℕ)
system = record { clock = 0; log = []; hosts = λ i. host; pool = pool; receipts = [] }

abbrev pub letter : Letter
letter = record {
  letter_id = 42;
  retry_count = 1;
  body = 1 ∷ 2 ∷ [];
  envelope = record zero_envelope { exchange = "orders"; routing_key = "new" };
}

-- The state that a call ends in.
abbrev pub after : {A : Type 0} → Option (A × Sys (List ℕ)) → Sys (List ℕ)
after none = system
after (some (a, s)) = s

-- Opens the pool's operations for an evaluation.
unfoldable pub run_pool : Unit {0}
unfolding sys_ops is_up connection_is_closed report make_tls cert_server_name dial_host dial_with
    connect_with_error_handler connect new_connection_host pause_on_flow_control make_channel
    new_channel_host close_channel flush_confirms pause_for_flow_control set_flag flag_of
    set_flagged flag_connection unflag_connection is_connection_flagged sleep_on_error handle_error
    handle_unhealthy set_connections get_connection_from_pool reconnect_host flush_errors
    trigger_connection_recovery check_health needs_recovery verify_healthy_connection check_got
    get_connection return_connection set_channels receive_channel get_channel_from_pool send_channel
    close_recovered reconnect_channel return_channel create_on on_got create_cache_channel open_on
    get_transient_channel
run_pool = tt
