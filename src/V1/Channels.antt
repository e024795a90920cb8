-- ===== src/V1/Channels.antt =====
-- v1/pkg/pools/channelpool.go: filling the two queues, and taking channel hosts out of them.
use turbocookedrabbit.V1.ChannelPool.{
  PoolError, ChannelPoolConfig, PooledChannel, ChannelPool, Pools, Taken, refused, taken, Outside,
  Connections, Created, created, not_created, channels_failed, counts_zero, connections_full, shut,
  uninitialized, modify_channels, modify_connections, ask_outside, mark_channel, put_reported,
  return_channel_host, create_channel_host, is_channel_flagged_in,
}
use turbocookedrabbit.Base.{
  ℕ, zero, suc, Bool, true, false, not, ◌+◌, Option, none, some, ltb, ◌||◌, if◌then◌else◌, M, pure,
  halt, get, when, branch, maybe, ◌>>=◌, ◌>>◌, [], ◌==◌,
}

-- The pool after an item was taken.
unfoldable pub left_behind :
    {Queue : Type 0} → Bool → Taken Queue → ChannelPool Queue → ChannelPool Queue
left_behind ackable (refused e) p = p
left_behind ackable (taken host q) p =
    if ackable then record p { ack_channels = q } else record p { channels = q }

module _ {Queue C : Type 0} (out : Outside Queue) (conns : Connections C) where
  -- A failure, of either kind of channel, makes a new queue for the plain ones.
  unfoldable pub give_up : Bool → M (Pools Queue C) (Unit {0})
  give_up ackable = modify_channels λ p. record p {
    channel_id = 0;
    channels =
        out.queue_new
          (if ackable then p.config.max_ack_channel_count else p.config.max_channel_count);
  }

  unfoldable pub put_new : Bool → PooledChannel → M (Pools Queue C) (Option PoolError)
  put_new ackable ch = do
    s ← get
    let (err, q) = out.queue_put (if ackable then s.pool.ack_channels else s.pool.channels) ch
    modify_channels (λ p.
        if ackable
        then record p { ack_channels = q; channel_id = p.channel_id + 1 }
        else record p { channels = q; channel_id = p.channel_id + 1 })
    pure err

  unfoldable pub on_filled : Bool → Created → M (Pools Queue C) Bool → M (Pools Queue C) Bool
  on_filled ackable (not_created e) again = do give_up ackable; pure false
  on_filled ackable (created ch) again = do
    err ← put_new ackable ch
    maybe err again (λ e. do give_up ackable; pure false)

  -- A loop of initialize, with `left` rounds to go.
  unfoldable pub fill : Bool → ℕ → M (Pools Queue C) Bool
  fill ackable zero = pure true
  fill ackable (suc left) = do
    s ← get
    made ← create_channel_host out conns 4 s.pool.channel_id ackable
    on_filled ackable made (fill ackable left)

  unfoldable pub initialize_channels : M (Pools Queue C) Bool
  initialize_channels = do
    s ← get
    ok ← fill false s.pool.config.max_channel_count
    branch ok (fill true s.pool.config.max_ack_channel_count) (pure false)

  unfoldable pub initialize_connections_if :
      M (Pools Queue C) (Option PoolError) → M (Pools Queue C) (Option PoolError)
  initialize_connections_if next s =
      if conns.is_initialized s.connections
      then next s
      else elim (conns.initialize_connections s.connections) [
        | none ↦ none
        | some (err, cs) ↦ elim err [
          | some e ↦ some (some e, record s { connections = cs })
          | none ↦ next (record s { connections = cs })
        ]
      ]

  -- Initialize, over connections that are there.
  unfoldable pub initialize_once : M (Pools Queue C) (Option PoolError)
  initialize_once = do
    s ← get
    branch s.pool.initialized (pure none) (do
      ok ← initialize_channels
      branch ok (do modify_channels (λ p. record p { initialized = true }); pure none)
          (pure (some channels_failed)))

  unfoldable pub initialize_pool : M (Pools Queue C) (Option PoolError)
  initialize_pool = initialize_connections_if initialize_once

  -- The checks at the head of GetChannel and GetAckableChannel.
  unfoldable pub checked : M (Pools Queue C) Created → M (Pools Queue C) Created
  checked next = do
    s ← get
    branch (ltb 0 s.pool.channel_lock) (pure (not_created shut))
        (branch (not s.pool.initialized) (pure (not_created uninitialized)) next)

  -- `queue.Get(1)`.
  unfoldable pub take_from : Bool → M (Pools Queue C) (Taken Queue)
  take_from ackable s =
      elim (out.queue_get (if ackable then s.pool.ack_channels else s.pool.channels)) [
        | none ↦ none
        | some t ↦ some (t, record s { pool = left_behind ackable t s.pool })
      ]

  unfoldable pub is_bad : PooledChannel → M (Pools Queue C) Bool
  is_bad host = do
    notified ← ask_outside (λ n. out.close_error n host.channel)
    s ← get
    pure (notified || is_channel_flagged_in host.channel_id s.pool.flagged_channels)

  unfoldable pub on_recreated :
      Bool → Created → M (Pools Queue C) Created → M (Pools Queue C) Created
  on_recreated ackable (created ch) again = pure (created ch)
  on_recreated true (not_created e) again = again
  on_recreated false (not_created connections_full) again = pure (not_created connections_full)
  on_recreated false (not_created e) again = again

  -- The loops that create a channel host until there is one. GetChannel's ends at full connections.
  unfoldable pub recreate : ℕ → ℕ → Bool → M (Pools Queue C) Created
  recreate zero channel_id ackable = halt
  recreate (suc fuel) channel_id ackable = do
    made ← create_channel_host out conns 4 channel_id ackable
    on_recreated ackable made (recreate fuel channel_id ackable)

  -- The bad host goes back, flagged, and another one is taken.
  unfoldable pub on_replaced :
      PooledChannel → Created → M (Pools Queue C) Created → M (Pools Queue C) Created
  on_replaced host (not_created e) again = do return_channel_host out host true; again
  on_replaced host (created ch) again = do mark_channel host.channel_id false; pure (created ch)

  unfoldable pub on_taken : ℕ → Taken Queue → M (Pools Queue C) Created → M (Pools Queue C) Created
  on_taken fuel (refused e) again = pure (not_created e)
  on_taken fuel (taken host q) again = do
    bad ← is_bad host
    branch bad (do made ← recreate fuel host.channel_id false; on_replaced host made again)
        (pure (created host))

  -- GetChannel after its checks.
  unfoldable pub dequeue_channel : ℕ → M (Pools Queue C) Created
  dequeue_channel zero = halt
  dequeue_channel (suc fuel) = do t ← take_from false; on_taken fuel t (dequeue_channel fuel)

  unfoldable pub get_channel : ℕ → M (Pools Queue C) Created
  get_channel fuel = checked (dequeue_channel fuel)

  -- A bad host is replaced by a new one of its number.
  unfoldable pub replace_if : Bool → ℕ → PooledChannel → M (Pools Queue C) Created
  replace_if false fuel host = pure (created host)
  replace_if true fuel host = do
    modify_connections (conns.flag_connection host.connection_id)
    made ← recreate fuel host.channel_id true
    mark_channel host.channel_id false
    pure made

  unfoldable pub share : Created → M (Pools Queue C) Created
  share (not_created e) = pure (not_created e)
  share (created ch) = do put_reported out true ch; pure (created ch)

  unfoldable pub on_ack_taken : ℕ → Taken Queue → M (Pools Queue C) Created
  on_ack_taken fuel (refused e) = pure (not_created e)
  on_ack_taken fuel (taken host q) = do
    bad ← is_bad host
    made ← replace_if bad fuel host
    share made

  -- GetAckableChannel: the host that is handed out goes back into the queue as well.
  unfoldable pub get_ackable_channel : ℕ → M (Pools Queue C) Created
  get_ackable_channel fuel = checked (do t ← take_from true; on_ack_taken fuel t)

  -- Shutdown of an initialized pool. It makes a new queue for the plain channel hosts twice, and
  -- leaves the drained one of the ackable ones; `queue_drain` gives what stays in a queue while its
  -- channels are closed.
  unfoldable pub reset_pool : M (Pools Queue C) (Unit {0})
  reset_pool s = elim (conns.shutdown_connections s.connections) [
    | none ↦ none
    | some cs ↦ some (
      tt,
      record s {
        connections = cs;
        pool = record s.pool {
          channels = out.queue_new s.pool.config.max_ack_channel_count;
          ack_channels = out.queue_drain s.pool.ack_channels;
          flagged_channels = [];
          channel_id = 0;
          initialized = false;
        };
      },
    )
  ]

  unfoldable pub shutdown_pool : M (Pools Queue C) (Unit {0})
  shutdown_pool = do
    s ← get
    when s.pool.initialized reset_pool
    modify_channels (λ p. record p { channel_lock = 0 })

  -- NewChannelPool over a connection pool that the caller made.
  unfoldable pub new_channel_pool : ChannelPoolConfig → Bool → M (Pools Queue C) (Option PoolError)
  new_channel_pool config initialize_now =
      branch (config.max_channel_count == 0 || config.max_ack_channel_count == 0)
        (pure (some counts_zero))
        (do
          modify_channels (λ p. record {
            config = config;
            initialized = false;
            errors = [];
            channels = out.queue_new config.max_channel_count;
            ack_channels = out.queue_new config.max_ack_channel_count;
            channel_id = 0;
            channel_lock = 0;
            flagged_channels = [];
          })
          branch initialize_now initialize_pool (pure none))
