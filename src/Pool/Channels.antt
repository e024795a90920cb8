-- ===== src/Pool/Channels.antt =====
-- v2/pkg/tcr/connectionpool.go, the part about channels: the cache of ChannelHosts and the
-- transient channels. The Go channel `channels` is a list, oldest first, with the capacity
-- MaxCacheChannelCount: a send to a full one blocks, and so does a receive from an empty one.
use turbocookedrabbit.Base.{
  ℕ, zero, suc, Bool, true, false, [], ◌∷◌, ◌++◌, length, ltb, M, ◌>>=◌, ◌>>◌, pure, halt, List,
  branch, get, maybe,
}
use turbocookedrabbit.Amqp.{Env, channel_opened, confirm_mode, channel_closed}
use turbocookedrabbit.State.{
  ChannelHost, ConnectionPool, modify_pool, Sys, ask, ask_new, act, host_at,
}
use turbocookedrabbit.Host.{make_channel, new_channel_host, flush_confirms}
use turbocookedrabbit.Pool.{
  Got, got, failed, handle_error, verify_healthy_connection, get_connection, return_connection,
}

module _ {Queue : Type 0} where
  unfoldable pub set_channels : List ChannelHost → ConnectionPool Queue → ConnectionPool Queue
  set_channels chs p = record p { channels = chs }

  -- `<-cp.channels`, from what is buffered.
  unfoldable pub receive_channel : List ChannelHost → M (Sys Queue) ChannelHost
  receive_channel [] = halt
  receive_channel (ch ∷ rest) = do modify_pool (set_channels rest); pure ch

  unfoldable pub get_channel_from_pool : M (Sys Queue) ChannelHost
  get_channel_from_pool = do s ← get; receive_channel s.pool.channels

  -- `cp.channels <- chanHost`.
  unfoldable pub send_channel : ChannelHost → M (Sys Queue) (Unit {0})
  send_channel ch = do
    s ← get
    branch (ltb (length s.pool.channels) s.pool.config.max_cache_channel_count)
        (modify_pool (set_channels (s.pool.channels ++ ch ∷ []))) halt

  -- The goroutine that closes a channel recovers from the panic of a nil one.
  unfoldable pub close_recovered : ChannelHost → M (Sys Queue) (Unit {0})
  close_recovered ch = maybe ch.channel (pure tt) (λ k. act (channel_closed k))

module _ {Queue : Type 0} (env : Env Queue) where
  unfoldable pub reconnect_channel : ℕ → ChannelHost → M (Sys Queue) ChannelHost
  reconnect_channel zero ch = halt
  reconnect_channel (suc fuel) ch = do
    verify_healthy_connection env (suc fuel) ch.conn_host
    (err, ch') ← make_channel env ch
    maybe err (pure ch') (λ e. do handle_error e; reconnect_channel fuel ch')

  unfoldable pub return_channel : ℕ → ChannelHost → Bool → M (Sys Queue) (Unit {0})
  return_channel fuel ch erred =
      branch ch.cached_channel
        (branch erred (do ch' ← reconnect_channel fuel ch; send_channel ch')
          (do flush_confirms env ch; send_channel ch))
        (close_recovered ch)

  -- One round of createCacheChannel with a connection; `again` is the loop's next round.
  unfoldable pub create_on : ℕ → ℕ → M (Sys Queue) ChannelHost → M (Sys Queue) ChannelHost
  create_on id i again = do
    host ← host_at i
    (err, made) ← new_channel_host env i id host.connection_id true true
    maybe err (maybe made halt (λ ch. do return_connection env i false; pure ch))
        (λ e. do handle_error e; return_connection env i true; again)

  unfoldable pub on_got :
      {A : Type 0} → Got → (ℕ → M (Sys Queue) A) → M (Sys Queue) A → M (Sys Queue) A
  on_got (got i) f again = f i
  on_got (failed e) f again = do handle_error e; again

  unfoldable pub create_cache_channel : ℕ → ℕ → M (Sys Queue) ChannelHost
  create_cache_channel zero id = halt
  create_cache_channel (suc fuel) id = do
    answer ← get_connection env (suc fuel)
    on_got answer (λ i. create_on id i (create_cache_channel fuel id))
        (create_cache_channel fuel id)

  -- One round of GetTransientChannel with a connection. The *amqp.Channel that is handed out
  -- bears the number of the call that opened it.
  unfoldable pub open_on : ℕ → Bool → M (Sys Queue) ℕ → M (Sys Queue) ℕ
  open_on i ackable again = do
    host ← host_at i
    maybe host.connection halt (λ c. do
      (opened, k) ← ask_new (λ n. env.open_channel n c)
      maybe opened
          (do
            act (channel_opened k)
            return_connection env i false
            branch ackable
                (do
                  confirmed ← ask (λ n. env.confirm n k)
                  maybe confirmed (do act (confirm_mode k); pure k) (λ e. do handle_error e; again))
                (pure k))
          (λ e. do handle_error e; return_connection env i true; again))

  unfoldable pub get_transient_channel : ℕ → Bool → M (Sys Queue) ℕ
  get_transient_channel zero ackable = halt
  get_transient_channel (suc fuel) ackable = do
    answer ← get_connection env (suc fuel)
    on_got answer (λ i. open_on i ackable (get_transient_channel fuel ackable))
        (get_transient_channel fuel ackable)
