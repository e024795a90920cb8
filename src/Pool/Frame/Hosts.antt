-- ===== src/Pool/Frame/Hosts.antt =====
-- The frame of connectionhost.go and channelhost.go.
use turbocookedrabbit.Base.{
  ℕ, zero, suc, Bool, Option, none, some, Keeps, Keeps-bind, Keeps-branch, Keeps-pure, Keeps-then,
}
use turbocookedrabbit.Config.{TlsConfig}
use turbocookedrabbit.Amqp.{Error, Env, DialCall}
use turbocookedrabbit.State.{ConnectionHost, ChannelHost, Sys}
use turbocookedrabbit.Host.{
  TlsResult, plain, secured, refused, is_up, connection_is_closed, report, make_tls, dial_host,
  dial_with, connect_with_error_handler, pause_on_flow_control, make_channel, new_channel_host,
  flush_confirms,
}
use turbocookedrabbit.Pool.Frame.{
  Same, frame_rules, host_at-Same, ask-Same, Keeps-on_poll, act-Same,
}

module _ {Queue : Type 0} (env : Env Queue) {u : Sys Queue} where
  is_up-Same : (c : Option ℕ) → Keeps (Same u) (is_up env c)
  unfolding is_up
  is_up-Same none = search frame_rules
  is_up-Same (some c) = search frame_rules

  pub connection_is_closed-Same : (c : Option ℕ) → Keeps (Same u) (connection_is_closed env c)
  unfolding connection_is_closed
  connection_is_closed-Same none = search frame_rules
  connection_is_closed-Same (some c) = search frame_rules

  report-Same : (h : Bool) (e : Error) → Keeps (Same u) (report env h e)
  unfolding report
  report-Same h e = search frame_rules

  make_tls-Same : (c : Option TlsConfig) → Keeps (Same u) (make_tls env c)
  unfolding make_tls
  make_tls-Same c = search frame_rules depth 9

  dial_host-Same :
      (h : Bool) (i : ℕ) (host : ConnectionHost) (call : DialCall)
      → Keeps (Same u) (dial_host env h i host call)
  unfolding dial_host
  dial_host-Same h i host call = search (frame_rules, report-Same) depth 9

  dial_with-Same :
      (h : Bool) (i : ℕ) (host : ConnectionHost) (r : TlsResult)
      → Keeps (Same u) (dial_with env h i host r)
  unfolding dial_with
  dial_with-Same h i host (refused e) = search (frame_rules, report-Same)
  dial_with-Same h i host plain = dial_host-Same h i host _
  dial_with-Same h i host secured = dial_host-Same h i host _

  pub connect_with_error_handler-Same :
      (h : Bool) (i : ℕ) → Keeps (Same u) (connect_with_error_handler env h i)
  unfolding connect_with_error_handler
  connect_with_error_handler-Same h i =
      search (frame_rules, is_up-Same, make_tls-Same, dial_with-Same) depth 12

  pub pause_on_flow_control-Same : (fuel i : ℕ) → Keeps (Same u) (pause_on_flow_control env fuel i)
  unfolding pause_on_flow_control
  pause_on_flow_control-Same zero i = search frame_rules
  pause_on_flow_control-Same (suc fuel) i = Keeps-bind (host_at-Same i) λ host.
      Keeps-bind (connection_is_closed-Same _) λ gone. Keeps-branch gone (Keeps-pure tt) (
        Keeps-bind (ask-Same _) λ poll. Keeps-on_poll poll (Keeps-pure tt) (Keeps-pure tt) λ active.
          Keeps-branch active (Keeps-then (act-Same _ tt) (pause_on_flow_control-Same fuel i))
            (Keeps-pure tt))

  pub make_channel-Same : (ch : ChannelHost) → Keeps (Same u) (make_channel env ch)
  unfolding make_channel
  make_channel-Same ch = search frame_rules depth 14

  pub new_channel_host-Same :
      (c i k : ℕ) (a b : Bool) → Keeps (Same u) (new_channel_host env c i k a b)
  unfolding new_channel_host
  new_channel_host-Same c i k a b =
      search (frame_rules, connection_is_closed-Same, make_channel-Same) depth 12

  pub flush_confirms-Same : (ch : ChannelHost) → Keeps (Same u) (flush_confirms env ch)
  unfolding flush_confirms
  flush_confirms-Same ch = search (frame_rules, connection_is_closed-Same) depth 12
