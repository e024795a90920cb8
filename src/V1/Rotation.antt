-- ===== src/V1/Rotation.antt =====
-- What GetAckableChannel of the first version's channel pool does with its queue.
use turbocookedrabbit.V1.ChannelPool.{
  Outside, Connections, Pools, Created, created, not_created, PooledChannel, put_reported,
  report_error, modify_channels, taken,
}
use turbocookedrabbit.V1.Channels.{
  get_ackable_channel, checked, take_from, on_ack_taken, is_bad, replace_if, share,
}
use turbocookedrabbit.V1.Frame.{
  Kept, Kept-refl, MadeFor, mark_channel-Kept, modify_connections-Kept,
}
use turbocookedrabbit.V1.Taking.{is_bad-Kept, recreate-Kept, recreate-MadeFor, take_from_lem}
use turbocookedrabbit.V1.Startup.{IsQueue, AllAckable}
use turbocookedrabbit.Base.{
  ℕ, Bool, true, false, some, List, [], ◌∷◌, ◌++◌, ◌≡◌, refl, ◌∙◌, ap, subst, M, bind-some,
  pure-some, arith, run_ops, Keeps, Keeps-bind, Keeps-then, Keeps-pure, Gives, Gives-then,
  Gives-pure, Gives-bind_with,
}

module _ {Queue C : Type 0} (out : Outside Queue) (conns : Connections C) {u : Pools Queue C} where
  replace_if-Kept :
      (bad : Bool) (fuel : ℕ) (host : PooledChannel)
      → Keeps (Kept u) (replace_if out conns bad fuel host)
  unfolding replace_if
  replace_if-Kept false fuel host = Keeps-pure _
  replace_if-Kept true fuel host = Keeps-then (modify_connections-Kept _) (
      Keeps-bind (recreate-Kept out conns fuel host.channel_id true)
        λ made. Keeps-then (mark_channel-Kept _ _) (Keeps-pure _))

module _ {Queue C : Type 0} (out : Outside Queue) (conns : Connections C) where
  replace_if-MadeFor :
      (bad : Bool) (fuel : ℕ) (host : PooledChannel)
      → host.ackable ≡ true
      → Gives (MadeFor host.channel_id true) (replace_if out conns bad fuel host)
  unfolding replace_if
  replace_if-MadeFor false fuel host h = Gives-pure _ (refl, h)
  replace_if-MadeFor true fuel host h = Gives-then _ (
      Gives-bind_with (recreate-MadeFor out conns fuel host.channel_id true)
        λ made k. Gives-then _ (Gives-pure _ k))

  share_lem :
      (ch : PooledChannel) (s t : Pools Queue C) (items : Queue → List PooledChannel) {x : Created}
      → IsQueue out items
      → share out conns (created ch) s ≡ some (x, t)
      → (x ≡ created ch)
        × (items t.pool.ack_channels ≡ items s.pool.ack_channels ++ ch ∷ [])
        × (t.pool.channels ≡ s.pool.channels)
  unfolding share put_reported modify_channels report_error run_ops
  share_lem ch s t items law e =
      let p = law.accepts s.pool.ack_channels ch in
      let q = law.puts s.pool.ack_channels ch in (ground arith, ground arith, ground arith)

  share-created :
      (made : Created) (t v u : Pools Queue C) (old ch : PooledChannel)
      (items : Queue → List PooledChannel)
      → IsQueue out items
      → Kept t v
      → MadeFor old.channel_id true made
      → share out conns made v ≡ some (created ch, u)
      → (items u.pool.ack_channels ≡ items t.pool.ack_channels ++ ch ∷ [])
        × (ch.channel_id ≡ old.channel_id)
        × (ch.ackable ≡ true)
        × (u.pool.channels ≡ t.pool.channels)
  unfolding share
  share-created (not_created x) t v u old ch items law k m e =
      let never : not_created x ≡ created ch = (pure-some e).0 in cc
  share-created (created new) t v u old ch items law k m e =
      let (same, put, kept_plain) = share_lem new v u items law e in
      let one : ch ≡ new = cc in
      (put ∙ cc (ap items k.ack_channels), cc (m.0), cc (m.1), kept_plain ∙ k.channels)

  checked-created :
      (next : M (Pools Queue C) Created) (s u : Pools Queue C) {ch : PooledChannel}
      → checked out conns next s ≡ some (created ch, u)
      → next s ≡ some (created ch, u)
  unfolding checked run_ops
  checked-created next s u e = ground arith

  -- GetAckableChannel, when it hands out a channel host, has moved the head of the queue of the
  -- ackable ones to its end, in place or replaced by a new ackable host of the same number, and it is
  -- this one that it hands out: it stays in the queue, for other callers too. The queue of the plain
  -- ones is as it was.
  pub get_ackable_channel-shares :
      (fuel : ℕ) (s u : Pools Queue C) (ch : PooledChannel) (items : Queue → List PooledChannel)
      → IsQueue out items
      → AllAckable true (items s.pool.ack_channels)
      → get_ackable_channel out conns fuel s ≡ some (created ch, u)
      → (old : PooledChannel) × (rest : List PooledChannel) × (items s.pool.ack_channels
          ≡ old ∷ rest)
        × (items u.pool.ack_channels ≡ rest ++ ch ∷ [])
        × (ch.channel_id ≡ old.channel_id)
        × (ch.ackable ≡ true)
        × (u.pool.channels ≡ s.pool.channels)
  unfolding get_ackable_channel on_ack_taken
  get_ackable_channel-shares fuel s u ch items law kinds e =
      let (x, t, q₀, r₀) = bind-some (take_from out conns true) _ s (checked-created _ s u e) in
      let (old, q, given, head, plain) = take_from_lem out conns true s t items law q₀ in
      let r₁ : on_ack_taken out conns fuel (taken old q) t ≡ some (created ch, u) =
        subst (λ y. on_ack_taken out conns fuel y t ≡ some (created ch, u)) given r₀ in
      let (bad, v, q₁, r₂) = bind-some (is_bad out conns old) _ t r₁ in
      let (made, w, q₂, r₃) = bind-some (replace_if out conns bad fuel old) _ v r₂ in
      let k = (is_bad-Kept out conns {u = t} old).at t bad v q₁ (Kept-refl t) in
      let k' = (replace_if-Kept out conns {u = t} bad fuel old).at v made w q₂ k in
      let kind : old.ackable ≡ true = (subst (AllAckable true) head kinds).0 in
      let m = (replace_if-MadeFor bad fuel old kind).at v made w q₂ in
      let (put, id, ack, plain') = share-created made t w u old ch items law k' m r₃ in
      (old, items t.pool.ack_channels, head, put, id, ack, plain' ∙ plain)
