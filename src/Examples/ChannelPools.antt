-- ===== src/Examples/ChannelPools.antt =====
-- A channel pool of the first version, over lists as queues.
use turbocookedrabbit.V1.ChannelPool.{
  Outside, Connections, Pools, PooledChannel, PooledConnection, Taken, taken, Connected, connected,
  create_channel_host, on_connected, on_created, open_channel_host, set_up, connect_call,
  ask_outside, modify_channels, modify_connections, report_error, mark_channel, put_reported,
  can_add, add_channel, is_channel_flagged_in,
}
use turbocookedrabbit.V1.Channels.{
  initialize_pool, initialize_once, initialize_connections_if, initialize_channels, fill, on_filled,
  put_new, give_up, get_ackable_channel, checked, take_from, left_behind, on_ack_taken, is_bad,
  replace_if, recreate, on_recreated, share,
}
use turbocookedrabbit.V1.Startup.{IsQueue, IsFilled, initialize_pool-IsFilled}
use turbocookedrabbit.V1.Rotation.{get_ackable_channel-shares}
use turbocookedrabbit.V1.ConnectionPool.{
  Wire, Links, create_connection_host, dial_with_limits, ask_wire, channels_per_connection,
}
use turbocookedrabbit.V1.Limits.{channels_per_connection-enough, create_connection_host-no_acks}
use turbocookedrabbit.Base.{
  ◌≤◌, ◌*◌, arith, ℕ, List, [], ◌∷◌, ◌++◌, ◌≡◌, ◌==◌, refl, none, some, true, false, Option,
  run_ops,
}

abbrev take_item : List PooledChannel → Option (Taken (List PooledChannel))
take_item [] = none
take_item (ch ∷ chs) = some (taken ch chs)

abbrev take_connection : List PooledConnection → Option (Connected × List PooledConnection)
take_connection [] = none
take_connection (c ∷ cs) = some (connected c, cs)

-- The channel 9 has closed with an error.
abbrev out : Outside (List PooledChannel)
out = record {
  is_closed = λ n c. false;
  open_channel = λ n c. none;
  qos = λ n k count. none;
  confirm = λ n k no_wait. none;
  close_error = λ n k. k == 9;
  queue_new = λ n. [];
  queue_put = λ q ch. (none, q ++ ch ∷ []);
  queue_get = take_item;
  queue_drain = λ q. [];
}

abbrev conns : Connections (List PooledConnection)
conns = record {
  is_initialized = λ cs. true;
  initialize_connections = λ cs. some (none, cs);
  get_connection = take_connection;
  return_connection = λ c cs. cs ++ c ∷ [];
  flag_connection = λ id cs. cs;
  shutdown_connections = λ cs. some [];
}

abbrev items : List PooledChannel → List PooledChannel
items q = q

out-IsQueue : IsQueue out items
out-IsQueue = record {
  fresh = λ n. refl;
  accepts = λ q ch. refl;
  gets = λ q {t} e. given q t e;
  waits = waits_for;
  puts = λ q ch. refl;
}
  where
    waits_for : (q : List PooledChannel) → q ≡ [] → take_item q ≡ none
    waits_for [] e = refl
    waits_for (ch ∷ chs) e = cc

    given :
        (q : List PooledChannel) (t : Taken (List PooledChannel))
        → take_item q ≡ some t
        → (ch : PooledChannel) × (q' : List PooledChannel) × (t ≡ taken ch q') × (q ≡ ch ∷ q')
    given [] t e = cc
    given (ch ∷ chs) t e = (ch, chs, cc, refl)

abbrev new_pools : Pools (List PooledChannel) (List PooledConnection)
new_pools = record {
  clock = 0;
  pool = record {
    config = record {
      max_channel_count = 2;
      max_ack_channel_count = 1;
      ack_no_wait = false;
      global_qos_count = 5;
    };
    initialized = false;
    errors = [];
    channels = [];
    ack_channels = [];
    channel_id = 0;
    channel_lock = 0;
    flagged_channels = [];
  };
  connections =
      record {
        connection = 1;
        connection_id = 0;
        max_channel_count = 2;
        max_ack_channel_count = 2;
        channel_count = 0;
        ack_channel_count = 0;
      }
      ∷ [];
}

-- Two ackable hosts, the first of them over the channel 9.
abbrev ack_host : ℕ → ℕ → PooledChannel
ack_host k id = record { channel = k; channel_id = id; connection_id = 0; ackable = true }

abbrev sharing : Pools (List PooledChannel) (List PooledConnection)
sharing = record new_pools {
  pool = record new_pools.pool {
    initialized = true;
    ack_channels = ack_host 9 4 ∷ ack_host 10 5 ∷ [];
  };
}

abbrev state_of :
    {A : Type 0}
    → Option (A × Pools (List PooledChannel) (List PooledConnection))
    → Pools (List PooledChannel) (List PooledConnection)
state_of none = new_pools
state_of (some (a, s)) = s

-- Opens the operations for an evaluation.
unfoldable run_pools : Unit {0}
unfolding run_ops create_channel_host on_connected on_created open_channel_host set_up connect_call
    ask_outside modify_channels modify_connections report_error mark_channel put_reported can_add
    add_channel is_channel_flagged_in initialize_pool initialize_once initialize_connections_if
    initialize_channels fill on_filled put_new give_up get_ackable_channel checked take_from
    left_behind on_ack_taken is_bad replace_if recreate on_recreated share
run_pools = tt

initialize_pool-IsFilled_example :
    IsFilled items new_pools.pool.config (state_of (initialize_pool out conns new_pools))
unfolding run_pools
initialize_pool-IsFilled_example =
    initialize_pool-IsFilled out conns items out-IsQueue new_pools
      (state_of (initialize_pool out conns new_pools)) refl refl refl refl refl

get_ackable_channel-shares_example :
    let u = state_of (get_ackable_channel out conns 3 sharing) in
    (old : PooledChannel) × (rest : List PooledChannel) × (sharing.pool.ack_channels ≡ old ∷ rest)
    × (u.pool.ack_channels ≡ rest ++ ack_host 2 4 ∷ [])
    × (4 ≡ old.channel_id)
    × (true ≡ true)
    × (u.pool.channels ≡ [])
unfolding run_pools
get_ackable_channel-shares_example =
    get_ackable_channel-shares out conns 3 sharing
      (state_of (get_ackable_channel out conns 3 sharing)) (ack_host 2 4) items out-IsQueue
      (refl, (refl, tt)) refl

abbrev wire : Wire (List PooledConnection)
wire = record {
  load_tls = λ pem cert. none;
  dial = λ n uri name heartbeat timeout. none;
  close_error = λ n c. false;
  is_closed = λ n c. false;
  queue_new = λ n. [];
  queue_put = λ q c. (none, q ++ c ∷ []);
  queue_get = take_connection;
}

-- A connection pool over TLS, with room for two channels of each kind.
abbrev tls_links : Links (List PooledConnection)
tls_links = record {
  clock = 6;
  pool = record {
    settings = record {
      connection_name = "app";
      uri = "localhost";
      heartbeat = 6;
      connection_timeout = 10;
      error_buffer = 10;
      enable_tls = true;
      max_connection_count = 1;
      tls_config = some ("ca.pem", "cert.pem");
    };
    initialized = false;
    tls_created = true;
    connections = [];
    max_channel_per_connection = 2;
    max_ack_channel_per_connection = 2;
    connection_id = 0;
    connection_lock = 0;
    flagged_connections = [];
  };
}

abbrev tls_host : PooledConnection
tls_host = record {
  connection = 6;
  connection_id = 0;
  max_channel_count = 2;
  max_ack_channel_count = 0;
  channel_count = 0;
  ack_channel_count = 0;
}

create_connection_host-no_acks_example : can_add true tls_host ≡ false
unfolding run_pools create_connection_host dial_with_limits ask_wire
create_connection_host-no_acks_example =
    create_connection_host-no_acks wire 0 tls_links (record tls_links { clock = 7 }) tls_host refl
      refl

channels_per_connection-enough_example : 10 ≤ 4 * channels_per_connection 4 10 10
channels_per_connection-enough_example = channels_per_connection-enough 4 10 (omega arith)
