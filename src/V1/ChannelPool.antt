-- ===== src/V1/ChannelPool.antt =====
-- v1/pkg/pools/channelpool.go, with channelhost.go and what it uses of connectionhost.go: two queues
-- of channel hosts, plain and ackable ones. The AMQP client and the queue library are the record
-- `Outside`; an answer depends on the number of the call. `Connections` is what the channel pool
-- asks of its connection pool, whose state is `C`. A connection host is taken from that pool and
-- put back, so that a value stands for the pointer. What blocks, panics or uses up `fuel`, which
-- bounds the loops that create a channel again, is `none`. Locks and sleeps are left out.
use turbocookedrabbit.Base.{
  ℕ, zero, suc, Bool, true, false, not, List, [], ◌∷◌, ◌++◌, ◌+◌, Option, none, some, ltb, ◌==◌,
  if◌then◌else◌, M, pure, get, when, branch, maybe, ◌>>=◌, ◌>>◌,
}

pub data PoolError : Type 0 where
  external : ℕ → PoolError
  counts_zero channels_failed connections_full connection_closed shut uninitialized : PoolError
  limits_zero no_tls connections_failed : PoolError
  nothing_to_purge buffers_zero batch_too_small already_started already_stopped : PoolError

pub record ChannelPoolConfig : Type 0 where
  pub max_channel_count : ℕ
  pub max_ack_channel_count : ℕ
  pub ack_no_wait : Bool
  -- An `int`: 0 stands for the negative ones too.
  pub global_qos_count : ℕ

pub record PooledConnection : Type 0 where
  pub connection : ℕ
  pub connection_id : ℕ
  pub max_channel_count : ℕ
  pub max_ack_channel_count : ℕ
  pub channel_count : ℕ
  pub ack_channel_count : ℕ

pub record PooledChannel : Type 0 where
  pub channel : ℕ
  pub channel_id : ℕ
  pub connection_id : ℕ
  pub ackable : Bool

pub record ChannelPool (Queue : Type 0) : Type 0 where
  pub config : ChannelPoolConfig
  pub initialized : Bool
  pub errors : List PoolError
  pub channels : Queue
  pub ack_channels : Queue
  pub channel_id : ℕ
  pub channel_lock : ℕ
  pub flagged_channels : List (ℕ × Bool)

pub record Pools (Queue C : Type 0) : Type 0 where
  pub clock : ℕ
  pub pool : ChannelPool Queue
  pub connections : C

-- What Get(1) hands out.
pub data Taken (Queue : Type 0) : Type 0 where
  refused : PoolError → Taken Queue
  taken : PooledChannel → Queue → Taken Queue

-- `close_error` says whether the receive from CloseErrors gets an error; a nil one is dropped there.
pub record Outside (Queue : Type 0) : Type 0 where
  pub is_closed : ℕ → ℕ → Bool
  pub open_channel : ℕ → ℕ → Option PoolError
  pub qos : ℕ → ℕ → ℕ → Option PoolError
  pub confirm : ℕ → ℕ → Bool → Option PoolError
  pub close_error : ℕ → ℕ → Bool
  pub queue_new : ℕ → Queue
  pub queue_put : Queue → PooledChannel → Option PoolError × Queue
  pub queue_get : Queue → Option (Taken Queue)
  pub queue_drain : Queue → Queue

pub data Connected : Type 0 where
  no_connection : PoolError → Connected
  connected : PooledConnection → Connected

pub record Connections (C : Type 0) : Type 0 where
  pub is_initialized : C → Bool
  pub initialize_connections : C → Option (Option PoolError × C)
  pub get_connection : C → Option (Connected × C)
  pub return_connection : PooledConnection → C → C
  pub flag_connection : ℕ → C → C
  pub shutdown_connections : C → Option C

-- A channel host, or the error.
pub data Created : Type 0 where
  not_created : PoolError → Created
  created : PooledChannel → Created

-- CanAddAckChannel or CanAddChannel.
unfoldable pub can_add : Bool → PooledConnection → Bool
can_add ackable host =
    if ackable
    then ltb host.ack_channel_count host.max_ack_channel_count
    else ltb host.channel_count host.max_channel_count

-- AddAckChannel or AddChannel.
unfoldable pub add_channel : Bool → PooledConnection → PooledConnection
add_channel ackable host =
    if ackable
    then record host { ack_channel_count = host.ack_channel_count + 1 }
    else record host { channel_count = host.channel_count + 1 }

unfoldable pub is_channel_flagged_in : ℕ → List (ℕ × Bool) → Bool
is_channel_flagged_in id [] = false
is_channel_flagged_in id ((other, flagged) ∷ rest) =
    if other == id then flagged else is_channel_flagged_in id rest

module _ {Queue C : Type 0} where
  unfoldable pub ask_outside : {A : Type 0} → (ℕ → A) → M (Pools Queue C) A
  ask_outside f s = some (f s.clock, record s { clock = suc s.clock })

  unfoldable pub modify_channels :
      (ChannelPool Queue → ChannelPool Queue) → M (Pools Queue C) (Unit {0})
  modify_channels f s = some (tt, record s { pool = f s.pool })

  unfoldable pub modify_connections : (C → C) → M (Pools Queue C) (Unit {0})
  modify_connections f s = some (tt, record s { connections = f s.connections })

  unfoldable pub report_error : PoolError → M (Pools Queue C) (Unit {0})
  report_error e = modify_channels λ p. record p { errors = p.errors ++ e ∷ [] }

  -- FlagChannel and UnflagChannel: a write to the map.
  unfoldable pub mark_channel : ℕ → Bool → M (Pools Queue C) (Unit {0})
  mark_channel id flagged =
      modify_channels λ p. record p { flagged_channels = (id, flagged) ∷ p.flagged_channels }

  -- ReturnChannel's and GetAckableChannel's Put, whose error is reported.
  unfoldable pub put_reported : Outside Queue → Bool → PooledChannel → M (Pools Queue C) (Unit {0})
  put_reported out ackable host = do
    s ← get
    let (err, q) = out.queue_put (if ackable then s.pool.ack_channels else s.pool.channels) host
    modify_channels
        (λ p. if ackable then record p { ack_channels = q } else record p { channels = q })
    maybe err (pure tt) report_error

  unfoldable pub return_channel_host :
      Outside Queue → PooledChannel → Bool → M (Pools Queue C) (Unit {0})
  return_channel_host out host flag_channel = do
    put_reported out host.ackable host
    when flag_channel (mark_channel host.channel_id true)

module _ {Queue C : Type 0} (out : Outside Queue) (conns : Connections C) where
  unfoldable pub connect_call : M (Pools Queue C) Connected
  connect_call s = elim (conns.get_connection s.connections) [
    | none ↦ none
    | some (c, cs) ↦ some (c, record s { connections = cs })
  ]

  -- NewChannelHost: a new channel bears the number of the call that opened it.
  unfoldable pub open_channel_host : PooledConnection → ℕ → Bool → M (Pools Queue C) Created
  open_channel_host host channel_id ackable = do
    gone ← ask_outside (λ n. out.is_closed n host.connection)
    branch gone (pure (not_created connection_closed)) (do
      (err, n) ← ask_outside (λ n. (out.open_channel n host.connection, n))
      maybe err
          (pure (
            created (record {
              channel = n;
              channel_id = channel_id;
              connection_id = host.connection_id;
              ackable = ackable;
            })))
          (λ e. pure (not_created e)))

  -- The tail of createChannelHost, over a new channel host.
  unfoldable pub set_up : PooledConnection → PooledChannel → M (Pools Queue C) Created
  set_up host ch = do
    s ← get
    when (ltb 0 s.pool.config.global_qos_count) (do
      err ← ask_outside (λ n. out.qos n ch.channel s.pool.config.global_qos_count)
      maybe err (pure tt) report_error)
    when ch.ackable (do
      err ← ask_outside (λ n. out.confirm n ch.channel s.pool.config.ack_no_wait)
      maybe err (pure tt) report_error)
    modify_connections (conns.return_connection (add_channel ch.ackable host))
    pure (created ch)

  unfoldable pub on_created : PooledConnection → Created → M (Pools Queue C) Created
  on_created host (not_created e) = do
    modify_connections (conns.flag_connection host.connection_id)
    modify_connections (conns.return_connection host)
    pure (not_created e)
  on_created host (created ch) = set_up host ch

  unfoldable pub on_connected :
      ℕ → Bool → Connected → M (Pools Queue C) Created → M (Pools Queue C) Created
  on_connected channel_id ackable (no_connection e) again = pure (not_created e)
  on_connected channel_id ackable (connected host) again =
      branch (not (can_add ackable host))
        (do modify_connections (conns.return_connection host); again)
        (do made ← open_channel_host host channel_id ackable; on_created host made)

  -- createChannelHost, which gives up after `left` full connections; the code begins with 4.
  unfoldable pub create_channel_host : ℕ → ℕ → Bool → M (Pools Queue C) Created
  create_channel_host zero channel_id ackable = pure (not_created connections_full)
  create_channel_host (suc left) channel_id ackable = do
    c ← connect_call
    on_connected channel_id ackable c (create_channel_host left channel_id ackable)
