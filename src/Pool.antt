-- ===== src/Pool.antt =====
-- v2/pkg/tcr/connectionpool.go, the part about connections: taking one from the queue, checking
-- and recovering it, returning it, and the flags. Pool/Channels.antt and Pool/Lifecycle.antt hold
-- the rest of that file. `fuel` bounds the rounds of each loop; a call that needs more rounds, or
-- that blocks, does not return.
pub mod Channels
pub mod Lifecycle
pub mod Frame
pub mod Cache
pub mod Rotation
pub mod Flags
pub mod Startup
pub mod Close
use turbocookedrabbit.Base.{
  ℕ, zero, suc, ◌<◌, Bool, true, false, ◌||◌, Option, none, some, List, [], ◌∷◌, ◌==◌, ltb,
  if◌then◌else◌, M, ◌>>=◌, ◌>>◌, pure, halt, get, when, branch, maybe, not,
}
use turbocookedrabbit.Amqp.{
  Error, invalid_queue_item, Poll, received, closed, empty, Env, error_handled, unhealthy_handled,
  slept, external,
}
use turbocookedrabbit.State.{
  ConnectionHost, ConnectionPool, Sys, ask, act, host_at, modify_pool, on_poll,
}
use turbocookedrabbit.Host.{connect_with_error_handler, pause_on_flow_control, connection_is_closed}

-- The map flaggedConnections: a write replaces the key's entry, a missing key reads as false.
unfoldable pub set_flag : ℕ → Bool → List (ℕ × Bool) → List (ℕ × Bool)
set_flag id b [] = (id, b) ∷ []
set_flag id b ((j, c) ∷ m) = if j == id then (id, b) ∷ m else (j, c) ∷ set_flag id b m

unfoldable pub flag_of : ℕ → List (ℕ × Bool) → Bool
flag_of id [] = false
flag_of id ((j, c) ∷ m) = if j == id then c else flag_of id m

-- What GetConnection hands back: the host's pointer, or an error.
pub data Got : Type 0 where
  got : ℕ → Got
  failed : Error → Got

module _ {Queue : Type 0} where
  unfoldable pub set_flagged : ℕ → Bool → ConnectionPool Queue → ConnectionPool Queue
  set_flagged id b p = record p { flagged_connections = set_flag id b p.flagged_connections }

  unfoldable pub flag_connection : ℕ → M (Sys Queue) (Unit {0})
  flag_connection id = modify_pool (set_flagged id true)

  unfoldable pub unflag_connection : ℕ → M (Sys Queue) (Unit {0})
  unflag_connection id = modify_pool (set_flagged id false)

  unfoldable pub is_connection_flagged : ℕ → M (Sys Queue) Bool
  is_connection_flagged id = do s ← get; pure (flag_of id s.pool.flagged_connections)

  -- Sleeps for cp.sleepOnErrorInterval, where that is positive.
  unfoldable pub sleep_on_error : M (Sys Queue) (Unit {0})
  sleep_on_error = do
    s ← get
    when (ltb 0 s.pool.sleep_on_error_interval) (act (slept s.pool.sleep_on_error_interval))

  unfoldable pub handle_error : Error → M (Sys Queue) (Unit {0})
  handle_error e = do s ← get; when s.pool.error_handler (act (error_handled e)); sleep_on_error

  -- `if cp.unhealthyHandler != nil { cp.unhealthyHandler(err) }`.
  unfoldable pub handle_unhealthy : Error → M (Sys Queue) (Unit {0})
  handle_unhealthy e = do s ← get; when s.pool.unhealthy_handler (act (unhealthy_handled e))

  unfoldable pub set_connections : Queue → ConnectionPool Queue → ConnectionPool Queue
  set_connections q p = record p { connections = q }

module _ {Queue : Type 0} (env : Env Queue) where
  -- Blocks while the queue is empty.
  unfoldable pub get_connection_from_pool : M (Sys Queue) Got
  get_connection_from_pool = do
    s ← get
    maybe (env.queue_get s.pool.connections) halt (λ (err, item, rest). do
      modify_pool (set_connections rest)
      maybe err (maybe item (pure (failed invalid_queue_item)) (λ i. pure (got i)))
          (λ e. pure (failed e)))

  -- The first loop of triggerConnectionRecovery.
  unfoldable pub reconnect_host : ℕ → ℕ → M (Sys Queue) (Unit {0})
  reconnect_host zero i = halt
  reconnect_host (suc fuel) i = do
    s ← get
    ok ← connect_with_error_handler env s.pool.unhealthy_handler i
    branch ok (pure tt) (do sleep_on_error; reconnect_host fuel i)

  -- The second: it receives from connHost.Errors until nothing is there. A receive from a closed
  -- Go channel always succeeds.
  unfoldable pub flush_errors : ℕ → ℕ → M (Sys Queue) (Unit {0})
  flush_errors zero i = halt
  flush_errors (suc fuel) i = do
    host ← host_at i
    poll ← ask (λ n. env.connection_error n host.errors)
    on_poll poll (pure tt) (do pure tt; flush_errors fuel i) (λ e. flush_errors fuel i)

  unfoldable pub trigger_connection_recovery : ℕ → ℕ → M (Sys Queue) (Unit {0})
  trigger_connection_recovery fuel i = do
    reconnect_host fuel i
    flush_errors fuel i
    host ← host_at i
    unflag_connection host.connection_id

  -- The `select` on connHost.Errors: whether the connection is healthy. The handler gets the nil
  -- error of a closed Go channel too, which `external 0` stands for.
  unfoldable pub check_health : ConnectionHost → M (Sys Queue) Bool
  check_health host = do
    poll ← ask (λ n. env.connection_error n host.errors)
    on_poll poll (pure true) (do handle_unhealthy (external 0); pure false)
        (λ e. do handle_unhealthy e; pure false)

  -- `flagged || !healthy || IsClosed()`, the last asked only if need be.
  unfoldable pub needs_recovery : ConnectionHost → Bool → Bool → M (Sys Queue) Bool
  needs_recovery host flagged healthy =
      branch (flagged || not healthy) (pure true) (connection_is_closed env host.connection)

  unfoldable pub verify_healthy_connection : ℕ → ℕ → M (Sys Queue) (Unit {0})
  verify_healthy_connection fuel i = do
    host ← host_at i
    healthy ← check_health host
    flagged ← is_connection_flagged host.connection_id
    bad ← needs_recovery host flagged healthy
    when bad (trigger_connection_recovery fuel i)
    pause_on_flow_control env fuel i

  -- The two ways on from what the queue gave.
  unfoldable pub check_got : ℕ → Got → M (Sys Queue) Got
  check_got fuel (failed e) = do handle_error e; pure (failed e)
  check_got fuel (got i) = do verify_healthy_connection fuel i; pure (got i)

  unfoldable pub get_connection : ℕ → M (Sys Queue) Got
  get_connection fuel = do answer ← get_connection_from_pool; check_got fuel answer

  -- The error of Put is dropped.
  unfoldable pub return_connection : ℕ → Bool → M (Sys Queue) (Unit {0})
  return_connection i flag = do
    host ← host_at i
    when flag (flag_connection host.connection_id)
    s ← get
    modify_pool (set_connections (env.queue_put s.pool.connections i).1)
