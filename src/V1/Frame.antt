-- ===== src/V1/Frame.antt =====
-- What creating a channel host leaves alone, and what it makes.
use turbocookedrabbit.V1.ChannelPool.{
  Outside, Connections, Pools, Created, created, not_created, PooledChannel, PooledConnection,
  create_channel_host, on_connected, on_created, open_channel_host, set_up, connect_call, connected,
  no_connection, Connected, ask_outside, modify_channels, modify_connections, report_error,
  mark_channel, PoolError,
}
use turbocookedrabbit.Base.{
  ℕ, zero, suc, Bool, Option, ◌≡◌, refl, M, Keeps, Keeps-bind, Keeps-then, Keeps-pure, Keeps-get,
  Keeps-when, Keeps-branch, Keeps-maybe, Gives, Gives-bind, Gives-then, Gives-pure, Gives-branch,
  Gives-maybe, Gives-bind_with, maybe, pure, ◌>>=◌, arith,
}

-- The queues, the counter and the settings are those of `u`.
pub record Kept {Queue C : Type 0} (u s : Pools Queue C) : Type 0 where
  pub channels : s.pool.channels ≡ u.pool.channels
  pub ack_channels : s.pool.ack_channels ≡ u.pool.ack_channels
  pub channel_id : s.pool.channel_id ≡ u.pool.channel_id
  pub config : s.pool.config ≡ u.pool.config

pub Kept-refl : {Queue C : Type 0} (s : Pools Queue C) → Kept s s
Kept-refl s = record { channels = refl; ack_channels = refl; channel_id = refl; config = refl }

-- A channel host that was made has the number and the kind that were asked for.
abbrev pub MadeFor : ℕ → Bool → Created → Type 0
MadeFor id ackable (not_created e) = Unit {0}
MadeFor id ackable (created ch) = (ch.channel_id ≡ id) × (ch.ackable ≡ ackable)

module _ {Queue C : Type 0} {u : Pools Queue C} where
  pub ask_outside-Kept : {A : Type 0} (f : ℕ → A) → Keeps (Kept u) (ask_outside f)
  unfolding ask_outside
  ask_outside-Kept f = record { at = λ s a t e p. ground arith }

  pub modify_connections-Kept : (f : C → C) → Keeps (Kept u) (modify_connections f)
  unfolding modify_connections
  modify_connections-Kept f = record { at = λ s a t e p. ground arith }

  report_error-Kept : (e : PoolError) → Keeps (Kept u) (report_error e)
  unfolding report_error modify_channels
  report_error-Kept x = record { at = λ s a t e p. ground arith }

  pub mark_channel-Kept : (id : ℕ) (flagged : Bool) → Keeps (Kept u) (mark_channel id flagged)
  unfolding mark_channel modify_channels
  mark_channel-Kept id flagged = record { at = λ s a t e p. ground arith }

module _ {Queue C : Type 0} (out : Outside Queue) (conns : Connections C) {u : Pools Queue C} where
  connect_call-Kept : Keeps (Kept u) (connect_call out conns)
  unfolding connect_call
  connect_call-Kept = record { at = λ s a t e p. ground arith }

  open_channel_host-Kept :
      (host : PooledConnection) (id : ℕ) (ackable : Bool)
      → Keeps (Kept u) (open_channel_host out conns host id ackable)
  unfolding open_channel_host
  open_channel_host-Kept host id ackable = Keeps-bind (ask_outside-Kept _) λ gone.
      Keeps-branch gone (Keeps-pure _)
        (Keeps-bind (ask_outside-Kept _) λ made. Keeps-maybe _ (Keeps-pure _) (λ e. Keeps-pure _))

  reported-Kept :
      (f : ℕ → Option PoolError)
      → Keeps (Kept u) (ask_outside f >>= λ err. maybe err (pure tt) report_error)
  reported-Kept f =
      Keeps-bind (ask_outside-Kept f) λ err. Keeps-maybe err (Keeps-pure tt) report_error-Kept

  set_up-Kept :
      (host : PooledConnection) (ch : PooledChannel) → Keeps (Kept u) (set_up out conns host ch)
  unfolding set_up
  set_up-Kept host ch = Keeps-bind Keeps-get λ s. Keeps-then (Keeps-when _ (reported-Kept _)) (
      Keeps-then (Keeps-when _ (reported-Kept _))
        (Keeps-then (modify_connections-Kept _) (Keeps-pure _)))

  on_created-Kept :
      (host : PooledConnection) (made : Created) → Keeps (Kept u) (on_created out conns host made)
  unfolding on_created
  on_created-Kept host (not_created e) =
      Keeps-then (modify_connections-Kept _) (Keeps-then (modify_connections-Kept _) (Keeps-pure _))
  on_created-Kept host (created ch) = set_up-Kept host ch

  on_connected-Kept :
      (id : ℕ) (ackable : Bool) (c : Connected) {again : M (Pools Queue C) Created}
      → Keeps (Kept u) again
      → Keeps (Kept u) (on_connected out conns id ackable c again)
  unfolding on_connected
  on_connected-Kept id ackable (no_connection e) k = Keeps-pure _
  on_connected-Kept id ackable (connected host) k =
      Keeps-branch _ (Keeps-then (modify_connections-Kept _) k)
        (Keeps-bind (open_channel_host-Kept host id ackable) λ made. on_created-Kept host made)

  pub create_channel_host-Kept :
      (left id : ℕ) (ackable : Bool)
      → Keeps (Kept u) (create_channel_host out conns left id ackable)
  unfolding create_channel_host
  create_channel_host-Kept zero id ackable = Keeps-pure _
  create_channel_host-Kept (suc left) id ackable =
      Keeps-bind connect_call-Kept
        λ c. on_connected-Kept id ackable c (create_channel_host-Kept left id ackable)

module _ {Queue C : Type 0} (out : Outside Queue) (conns : Connections C) where
  open_channel_host-MadeFor :
      (host : PooledConnection) (id : ℕ) (ackable : Bool)
      → Gives (MadeFor id ackable) (open_channel_host out conns host id ackable)
  unfolding open_channel_host
  open_channel_host-MadeFor host id ackable = Gives-bind _ λ gone.
      Gives-branch _ (Gives-pure _ tt) (
        Gives-bind _
          λ made. Gives-maybe _ (λ fine. Gives-pure _ (refl, refl)) (λ e bad. Gives-pure _ tt))

  on_created-MadeFor :
      (host : PooledConnection) (id : ℕ) (ackable : Bool) (made : Created)
      → MadeFor id ackable made
      → Gives (MadeFor id ackable) (on_created out conns host made)
  unfolding on_created set_up
  on_created-MadeFor host id ackable (not_created e) h =
      Gives-then _ (Gives-then _ (Gives-pure _ tt))
  on_created-MadeFor host id ackable (created ch) h =
      Gives-bind _ λ s. Gives-then _ (Gives-then _ (Gives-then _ (Gives-pure _ h)))

  on_connected-MadeFor :
      (id : ℕ) (ackable : Bool) (c : Connected) {again : M (Pools Queue C) Created}
      → Gives (MadeFor id ackable) again
      → Gives (MadeFor id ackable) (on_connected out conns id ackable c again)
  unfolding on_connected
  on_connected-MadeFor id ackable (no_connection e) k = Gives-pure _ tt
  on_connected-MadeFor id ackable (connected host) k = Gives-branch _ (Gives-then _ k) (
      Gives-bind_with (open_channel_host-MadeFor host id ackable)
        λ made h. on_created-MadeFor host id ackable made h)

  pub create_channel_host-MadeFor :
      (left id : ℕ) (ackable : Bool)
      → Gives (MadeFor id ackable) (create_channel_host out conns left id ackable)
  unfolding create_channel_host
  create_channel_host-MadeFor zero id ackable = Gives-pure _ tt
  create_channel_host-MadeFor (suc left) id ackable =
      Gives-bind _
        λ c. on_connected-MadeFor id ackable c (create_channel_host-MadeFor left id ackable)
