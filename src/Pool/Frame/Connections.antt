-- ===== src/Pool/Frame/Connections.antt =====
-- The frame of the pool's calls on connections and of the channels that it makes: up to the last
-- send into the cache they leave the cache, the settings, the receipts and what is published.
use turbocookedrabbit.Base.{
  ℕ, zero, suc, Bool, true, false, ◌≡◌, refl, arith, M, Keeps, Keeps-bind, Keeps-then, Keeps-pure,
  Keeps-halt, Keeps-get, Keeps-when, Keeps-branch, Keeps-maybe,
}
use turbocookedrabbit.Amqp.{Error, Env}
use turbocookedrabbit.State.{
  ConnectionHost, ConnectionPool, ChannelHost, Sys, modify_pool, Keeps-on_poll,
}
use turbocookedrabbit.Pool.{
  Got, got, failed, set_connections, set_flagged, flag_connection, unflag_connection,
  is_connection_flagged, sleep_on_error, handle_error, handle_unhealthy, get_connection_from_pool,
  reconnect_host, flush_errors, trigger_connection_recovery, check_health, needs_recovery,
  verify_healthy_connection, check_got, get_connection, return_connection,
}
use turbocookedrabbit.Pool.Channels.{
  close_recovered, reconnect_channel, on_got, create_on, create_cache_channel, open_on,
  get_transient_channel,
}
use turbocookedrabbit.Pool.Frame.{Same, frame_rules, ask-Same, ask_new-Same, act-Same, host_at-Same}
use turbocookedrabbit.Pool.Frame.Hosts.{
  connection_is_closed-Same, connect_with_error_handler-Same, pause_on_flow_control-Same,
  make_channel-Same, new_channel_host-Same,
}

module _ {Queue : Type 0} {u : Sys Queue} where
  pub modify_pool-Same :
      (f : ConnectionPool Queue → ConnectionPool Queue)
      → ((p : ConnectionPool Queue) → ((f p).channels ≡ p.channels) × ((f p).config ≡ p.config))
      → Keeps (Same u) (modify_pool f)
  unfolding modify_pool
  modify_pool-Same f h = record { at = λ s a s' e k. ground (arith, h s.pool) }

  pub set_connections-Same : (q : Queue) → Keeps (Same u) (modify_pool (set_connections q))
  unfolding set_connections
  set_connections-Same q = modify_pool-Same _ (λ p. (refl, refl))

  set_flagged-Same : (i : ℕ) (b : Bool) → Keeps (Same u) (modify_pool (set_flagged i b))
  unfolding set_flagged
  set_flagged-Same i b = modify_pool-Same _ (λ p. (refl, refl))

  flag_connection-Same : (i : ℕ) → Keeps (Same u) (flag_connection i)
  unfolding flag_connection
  flag_connection-Same i = set_flagged-Same i true

  unflag_connection-Same : (i : ℕ) → Keeps (Same u) (unflag_connection i)
  unfolding unflag_connection
  unflag_connection-Same i = set_flagged-Same i false

  is_connection_flagged-Same : (i : ℕ) → Keeps (Same u) (is_connection_flagged i)
  unfolding is_connection_flagged
  is_connection_flagged-Same i = search frame_rules

  sleep_on_error-Same : Keeps (Same u) (sleep_on_error {Queue = Queue})
  unfolding sleep_on_error
  sleep_on_error-Same = search frame_rules depth 7

  pub handle_error-Same : (e : Error) → Keeps (Same u) (handle_error e)
  unfolding handle_error
  handle_error-Same e = search (frame_rules, sleep_on_error-Same) depth 7

  handle_unhealthy-Same : (e : Error) → Keeps (Same u) (handle_unhealthy e)
  unfolding handle_unhealthy
  handle_unhealthy-Same e = search frame_rules depth 7

  pub close_recovered-Same : (ch : ChannelHost) → Keeps (Same u) (close_recovered ch)
  unfolding close_recovered
  close_recovered-Same ch = search frame_rules depth 7

module _ {Queue : Type 0} (env : Env Queue) {u : Sys Queue} where
  get_connection_from_pool-Same : Keeps (Same u) (get_connection_from_pool env)
  unfolding get_connection_from_pool
  get_connection_from_pool-Same = search (frame_rules, set_connections-Same) depth 12

  reconnect_host-Same : (fuel i : ℕ) → Keeps (Same u) (reconnect_host env fuel i)
  unfolding reconnect_host
  reconnect_host-Same zero i = Keeps-halt
  reconnect_host-Same (suc fuel) i = Keeps-bind Keeps-get λ s.
      Keeps-bind (connect_with_error_handler-Same env _ i) λ ok.
        Keeps-branch ok (Keeps-pure tt)
          (Keeps-then sleep_on_error-Same (reconnect_host-Same fuel i))

  flush_errors-Same : (fuel i : ℕ) → Keeps (Same u) (flush_errors env fuel i)
  unfolding flush_errors
  flush_errors-Same zero i = Keeps-halt
  flush_errors-Same (suc fuel) i = Keeps-bind (host_at-Same i) λ host.
      Keeps-bind (ask-Same _) λ poll.
        Keeps-on_poll poll (Keeps-pure tt) (Keeps-then (Keeps-pure tt) (flush_errors-Same fuel i))
          (λ e. flush_errors-Same fuel i)

  trigger_connection_recovery-Same :
      (fuel i : ℕ) → Keeps (Same u) (trigger_connection_recovery env fuel i)
  unfolding trigger_connection_recovery
  trigger_connection_recovery-Same fuel i =
      search (frame_rules, reconnect_host-Same, flush_errors-Same, unflag_connection-Same) depth 7

  check_health-Same : (host : ConnectionHost) → Keeps (Same u) (check_health env host)
  unfolding check_health
  check_health-Same host = Keeps-bind (ask-Same _) λ poll.
      Keeps-on_poll poll (Keeps-pure true) (Keeps-then (handle_unhealthy-Same _) (Keeps-pure false))
        (λ e. Keeps-then (handle_unhealthy-Same e) (Keeps-pure false))

  needs_recovery-Same :
      (host : ConnectionHost) (a b : Bool) → Keeps (Same u) (needs_recovery env host a b)
  unfolding needs_recovery
  needs_recovery-Same host a b = Keeps-branch _ (Keeps-pure true) (connection_is_closed-Same env _)

  pub verify_healthy_connection-Same :
      (fuel i : ℕ) → Keeps (Same u) (verify_healthy_connection env fuel i)
  unfolding verify_healthy_connection
  verify_healthy_connection-Same fuel i = Keeps-bind (host_at-Same i) λ host.
      Keeps-bind (check_health-Same host) λ healthy.
        Keeps-bind (is_connection_flagged-Same _) λ flagged.
          Keeps-bind (needs_recovery-Same host flagged healthy) λ bad.
            Keeps-then (Keeps-when bad (trigger_connection_recovery-Same fuel i))
              (pause_on_flow_control-Same env fuel i)

  check_got-Same : (fuel : ℕ) (g : Got) → Keeps (Same u) (check_got env fuel g)
  unfolding check_got
  check_got-Same fuel (failed e) = search (frame_rules, handle_error-Same)
  check_got-Same fuel (got i) = search (frame_rules, verify_healthy_connection-Same)

  pub get_connection-Same : (fuel : ℕ) → Keeps (Same u) (get_connection env fuel)
  unfolding get_connection
  get_connection-Same fuel = search (frame_rules, get_connection_from_pool-Same, check_got-Same)

  pub return_connection-Same : (i : ℕ) (b : Bool) → Keeps (Same u) (return_connection env i b)
  unfolding return_connection
  return_connection-Same i b =
      search (frame_rules, flag_connection-Same, set_connections-Same) depth 7

  pub reconnect_channel-Same :
      (fuel : ℕ) (ch : ChannelHost) → Keeps (Same u) (reconnect_channel env fuel ch)
  unfolding reconnect_channel
  reconnect_channel-Same zero ch = Keeps-halt
  reconnect_channel-Same (suc fuel) ch = Keeps-then (verify_healthy_connection-Same (suc fuel) _) (
      Keeps-bind (make_channel-Same env ch) λ made.
        Keeps-maybe made.0 (Keeps-pure _)
          (λ e. Keeps-then (handle_error-Same e) (reconnect_channel-Same fuel _)))

  on_got-Same :
      {A : Type 0} (g : Got) {f : ℕ → M (Sys Queue) A} {again : M (Sys Queue) A}
      → ((i : ℕ) → Keeps (Same u) (f i))
      → Keeps (Same u) again
      → Keeps (Same u) (on_got env g f again)
  unfolding on_got
  on_got-Same (got i) h k = h i
  on_got-Same (failed e) h k = Keeps-then (handle_error-Same e) k

  create_on-Same :
      (id i : ℕ) (again : M (Sys Queue) ChannelHost)
      → Keeps (Same u) again
      → Keeps (Same u) (create_on env id i again)
  unfolding create_on
  create_on-Same id i again k = Keeps-bind (host_at-Same i) λ host.
      Keeps-bind (new_channel_host-Same env i id _ true true) λ made.
        Keeps-maybe made.0
          (Keeps-maybe made.1 Keeps-halt
            λ ch. Keeps-then (return_connection-Same i false) (Keeps-pure ch))
          (λ e. Keeps-then (handle_error-Same e) (Keeps-then (return_connection-Same i true) k))

  pub create_cache_channel-Same : (fuel id : ℕ) → Keeps (Same u) (create_cache_channel env fuel id)
  unfolding create_cache_channel
  create_cache_channel-Same zero id = Keeps-halt
  create_cache_channel-Same (suc fuel) id = Keeps-bind (get_connection-Same (suc fuel)) λ answer.
      on_got-Same answer (λ i. create_on-Same id i _ (create_cache_channel-Same fuel id))
        (create_cache_channel-Same fuel id)

  open_on-Same :
      (i : ℕ) (ackable : Bool) (again : M (Sys Queue) ℕ)
      → Keeps (Same u) again
      → Keeps (Same u) (open_on env i ackable again)
  unfolding open_on
  open_on-Same i ackable again k = Keeps-bind (host_at-Same i) λ host. Keeps-maybe _ Keeps-halt λ c.
      Keeps-bind (ask_new-Same _) λ opened.
        Keeps-maybe opened.0
          (Keeps-then (act-Same _ tt) (
            Keeps-then (return_connection-Same i false) (
              Keeps-branch ackable
                (Keeps-bind (ask-Same _) λ confirmed.
                  Keeps-maybe confirmed (Keeps-then (act-Same _ tt) (Keeps-pure _))
                    (λ e. Keeps-then (handle_error-Same e) k))
                (Keeps-pure _))))
          (λ e. Keeps-then (handle_error-Same e) (Keeps-then (return_connection-Same i true) k))

  pub get_transient_channel-Same :
      (fuel : ℕ) (ackable : Bool) → Keeps (Same u) (get_transient_channel env fuel ackable)
  unfolding get_transient_channel
  get_transient_channel-Same zero ackable = Keeps-halt
  get_transient_channel-Same (suc fuel) ackable =
      Keeps-bind (get_connection-Same (suc fuel)) λ answer.
        on_got-Same answer (λ i. open_on-Same i ackable _ (get_transient_channel-Same fuel ackable))
          (get_transient_channel-Same fuel ackable)
