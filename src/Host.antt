-- ===== src/Host.antt =====
-- v2/pkg/tcr/connectionhost.go and v2/pkg/tcr/channelhost.go: connecting, the pause on flow
-- control, making a channel, flushing its confirmations. Mutexes are left out: between two calls
-- of the outside nothing else runs. `fuel` bounds the rounds of a loop.
use turbocookedrabbit.Base.{
  ℕ, zero, suc, String, Bool, true, false, not, Option, none, some, if◌then◌else◌, M, ◌>>=◌, ◌>>◌,
  pure, halt, when, branch, maybe,
}
use Prim.Native.String.{◌++◌ as str_append}
use turbocookedrabbit.Config.{TlsConfig}
use turbocookedrabbit.Amqp.{
  Error, unable_to_connect, connection_already_closed, Env, DialCall, dialed, channel_opened,
  confirm_mode, channel_closed, unhealthy_handled, slept,
}
use turbocookedrabbit.State.{
  ConnectionHost, ChannelHost, Sys, ask, ask_new, act, host_at, set_host, on_poll,
}

-- time.Second and time.Millisecond.
abbrev pub second : ℕ
second = 1_000_000_000

abbrev pub millisecond : ℕ
millisecond = 1_000_000

-- The outcome of the TLS part of a connect: no TLS, a configuration, or an error.
pub data TlsResult : Type 0 where
  plain secured : TlsResult
  refused : Error → TlsResult

module _ {Queue : Type 0} (env : Env Queue) where
  open env use {is_closed, load_tls, dial, connection_error, blocker, open_channel, confirm}

  -- `conn != nil && !conn.IsClosed()`.
  unfoldable pub is_up : Option ℕ → M (Sys Queue) Bool
  is_up none = pure false
  is_up (some c) = do gone ← ask (λ n. is_closed n c); pure (not gone)

  -- `conn.IsClosed()`: a nil connection panics.
  unfoldable pub connection_is_closed : Option ℕ → M (Sys Queue) Bool
  connection_is_closed none = halt
  connection_is_closed (some c) = ask (λ n. is_closed n c)

  -- `if errorHandler != nil { errorHandler(err) }`.
  unfoldable pub report : Bool → Error → M (Sys Queue) (Unit {0})
  report handler e = when handler (act (unhealthy_handled e))

  -- CreateTLSConfig, for a host whose configuration enables TLS.
  unfoldable pub make_tls : Option TlsConfig → M (Sys Queue) TlsResult
  make_tls config = maybe config (pure plain) λ tls.
      branch tls.enable_tls
        (do
          answer ← ask (λ n. load_tls n tls.pem_cert_location tls.local_cert_location)
          maybe answer (pure secured) (λ e. pure (refused e)))
        (pure plain)

  unfoldable pub cert_server_name : Option TlsConfig → String
  cert_server_name none = ""
  cert_server_name (some tls) = tls.cert_server_name

  -- The dial, and what follows its success: the new connection and its two Go channels.
  unfoldable pub dial_host : Bool → ℕ → ConnectionHost → DialCall → M (Sys Queue) Bool
  dial_host handler i host call = do
    (answer, c) ← ask_new (λ n. dial n call)
    act (dialed call)
    maybe answer
        (do set_host i (record host { connection = some c; errors = c; blockers = c }); pure true)
        (λ e. do report handler e; pure false)

  unfoldable pub dial_with : Bool → ℕ → ConnectionHost → TlsResult → M (Sys Queue) Bool
  dial_with handler i host (refused e) = do report handler e; pure false
  dial_with handler i host plain = dial_host handler i host (record {
    address = host.uri;
    heartbeat = host.heartbeat_interval;
    timeout = host.connection_timeout;
    connection_name = host.connection_name;
    tls = false;
  })
  dial_with handler i host secured = dial_host handler i host (record {
    address = str_append "amqps://" (cert_server_name host.tls_config);
    heartbeat = host.heartbeat_interval;
    timeout = host.connection_timeout;
    connection_name = host.connection_name;
    tls = true;
  })

  -- The connection is compared, the lock taken, and the connection compared again.
  unfoldable pub connect_with_error_handler : Bool → ℕ → M (Sys Queue) Bool
  connect_with_error_handler handler i = do
    host ← host_at i
    up ← is_up host.connection
    branch up (pure true) (do
      host ← host_at i
      still_up ← is_up host.connection
      branch still_up (pure true) (do tls ← make_tls host.tls_config; dial_with handler i host tls))

  unfoldable pub connect : ℕ → M (Sys Queue) Bool
  connect i = connect_with_error_handler false i

  -- The new host's pointer is its ConnectionID.
  unfoldable pub new_connection_host :
      String → String → ℕ → ℕ → ℕ → Option TlsConfig → M (Sys Queue) (Option Error)
  new_connection_host uri name i heartbeat timeout tls = do
    set_host i (record {
      connection = none;
      connection_id = i;
      cached_channel_count = 0;
      uri = uri;
      connection_name = name;
      heartbeat_interval = heartbeat;
      connection_timeout = timeout;
      tls_config = tls;
      errors = 0;
      blockers = 0;
    })
    done ← connect i
    pure (if done then none else some unable_to_connect)

  -- A closed Blockers channel hands out `Active == false`.
  unfoldable pub pause_on_flow_control : ℕ → ℕ → M (Sys Queue) (Unit {0})
  pause_on_flow_control zero i = halt
  pause_on_flow_control (suc fuel) i = do
    host ← host_at i
    gone ← connection_is_closed host.connection
    branch gone (pure tt) (do
      poll ← ask (λ n. blocker n host.blockers)
      on_poll poll (pure tt) (pure tt)
          (λ active. branch active (do act (slept second); pause_on_flow_control fuel i) (pure tt)))

  -- ChannelHost.MakeChannel. The new channel and its Go channels bear the number of the call.
  unfoldable pub make_channel : ChannelHost → M (Sys Queue) (Option Error × ChannelHost)
  make_channel ch = do
    host ← host_at ch.conn_host
    maybe host.connection halt (λ c. do
      (opened, k) ← ask_new (λ n. open_channel n c)
      maybe opened
          (do
            act (channel_opened k)
            branch ch.ackable
                (do
                  confirmed ← ask (λ n. confirm n k)
                  maybe confirmed
                      (do
                        act (confirm_mode k)
                        pure (
                          none,
                          record ch { channel = some k; confirmations = some k; errors = some k },
                        ))
                      (λ e. pure (some e, record ch { channel = some k })))
                (pure (none, record ch { channel = some k; errors = some k })))
          (λ e. pure (some e, record ch { channel = none })))

  -- Without an error the host is handed out, with one it is nil.
  unfoldable pub new_channel_host :
      ℕ → ℕ → ℕ → Bool → Bool → M (Sys Queue) (Option Error × Option ChannelHost)
  new_channel_host conn_host id connection_id ackable cached = do
    host ← host_at conn_host
    gone ← connection_is_closed host.connection
    branch gone (pure (some connection_already_closed, none)) (do
      (err, ch) ← make_channel (record {
        channel = none;
        id = id;
        connection_id = connection_id;
        ackable = ackable;
        cached_channel = cached;
        confirmations = none;
        errors = none;
        conn_host = conn_host;
      })
      maybe err (pure (none, some ch)) (λ e. pure (some e, none)))

  -- ChannelHost.Close; on a nil channel it panics.
  unfoldable pub close_channel : ChannelHost → M (Sys Queue) (Unit {0})
  close_channel ch = maybe ch.channel halt (λ k. act (channel_closed k))

  -- The loop's body returns on every path: at most one confirmation is taken.
  unfoldable pub flush_confirms : ChannelHost → M (Sys Queue) (Unit {0})
  flush_confirms ch = do
    host ← host_at ch.conn_host
    gone ← connection_is_closed host.connection
    branch gone (pure tt) (
        maybe ch.confirmations (pure tt)
          (λ k. do taken ← ask (λ n. env.stale_confirmation n k); pure tt))

  unfoldable pub pause_for_flow_control : ℕ → ChannelHost → M (Sys Queue) (Unit {0})
  pause_for_flow_control fuel ch = pause_on_flow_control fuel ch.conn_host
