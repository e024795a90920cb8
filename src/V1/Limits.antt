-- ===== src/V1/Limits.antt =====
-- How many channels the connections of the first version's pool may have.
use turbocookedrabbit.V1.ChannelPool.{PooledConnection, connected, can_add}
use turbocookedrabbit.V1.ConnectionPool.{
  channels_per_connection, create_connection_host, dial_with_limits, ask_wire, Wire, Links,
}
use native.Mathlib.Nat.{div-add-mod, mod-lt, mul-add}
use turbocookedrabbit.Base.{
  sym, subst, ◌∙◌, ℕ, true, false, some, ◌≡◌, ◌≤◌, ◌<◌, ◌*◌, ◌+◌, ◌/◌, arith, run_ops,
}

-- The connections together have room for all plain channels, whatever the two numbers, as long as
-- there is a connection.
pub channels_per_connection-enough :
    (connections channels : ℕ)
    → 0 < connections
    → channels ≤ connections * channels_per_connection connections channels channels
unfolding channels_per_connection
channels_per_connection-enough connections channels h =
    let split : channels < connections * (channels / connections) + connections =
      omega (arith, div-add-mod channels connections, mod-lt channels h) in
    let room : channels < connections * (channels / connections + 1) =
      subst (λ n. channels < n) (sym (mul-add connections (channels / connections) 1 ∙ omega arith))
        split in
    ground (arith, room)

-- A connection that createConnectionHostWithTLS made never takes an ackable channel.
pub create_connection_host-no_acks :
    {Queue : Type 0} (wire : Wire Queue) (connection_id : ℕ) (s t : Links Queue)
    (host : PooledConnection)
    → s.pool.settings.enable_tls ≡ true
    → create_connection_host wire connection_id s ≡ some (connected host, t)
    → can_add true host ≡ false
unfolding create_connection_host dial_with_limits ask_wire can_add run_ops
create_connection_host-no_acks wire connection_id s t host tls e = ground arith
