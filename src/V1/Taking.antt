-- ===== src/V1/Taking.antt =====
-- What both ways to take a channel host out of a queue have in common.
use turbocookedrabbit.V1.ChannelPool.{
  Outside, Connections, Pools, Created, created, not_created, PooledChannel, Taken, taken,
  connections_full, ChannelPool,
}
use turbocookedrabbit.V1.Channels.{take_from, is_bad, recreate, on_recreated, left_behind}
use turbocookedrabbit.V1.Frame.{
  Kept, MadeFor, create_channel_host-Kept, create_channel_host-MadeFor, ask_outside-Kept,
}
use turbocookedrabbit.V1.Startup.{IsQueue, queue_of}
use turbocookedrabbit.Base.{
  ℕ, zero, suc, Bool, true, false, not, Option, none, some, List, ◌∷◌, ◌≡◌, sym, ◌∙◌, ap, M,
  pure-some, Keeps, Keeps-bind, Keeps-pure, Keeps-get, Keeps-halt, Gives, Gives-pure, Gives-halt,
  Gives-bind_with, pure,
}

module _ {Queue C : Type 0} (out : Outside Queue) (conns : Connections C) {u : Pools Queue C} where
  pub is_bad-Kept : (host : PooledChannel) → Keeps (Kept u) (is_bad out conns host)
  unfolding is_bad
  is_bad-Kept host =
      Keeps-bind (ask_outside-Kept _) λ notified. Keeps-bind Keeps-get λ s. Keeps-pure _

  on_recreated-Kept :
      (ackable : Bool) (made : Created) {again : M (Pools Queue C) Created}
      → Keeps (Kept u) again
      → Keeps (Kept u) (on_recreated out conns ackable made again)
  unfolding on_recreated
  on_recreated-Kept true (created ch) k = Keeps-pure _
  on_recreated-Kept true (not_created e) k = record { at = k.at }
  on_recreated-Kept false (created ch) k = Keeps-pure _
  on_recreated-Kept false (not_created connections_full) k = Keeps-pure _
  on_recreated-Kept false (not_created _) k = record { at = k.at }

  pub recreate-Kept :
      (fuel id : ℕ) (ackable : Bool) → Keeps (Kept u) (recreate out conns fuel id ackable)
  unfolding recreate
  recreate-Kept zero id ackable = Keeps-halt
  recreate-Kept (suc fuel) id ackable =
      Keeps-bind (create_channel_host-Kept out conns 4 id ackable)
        λ made. on_recreated-Kept ackable made (recreate-Kept fuel id ackable)

module _ {Queue C : Type 0} (out : Outside Queue) (conns : Connections C) where
  on_recreated-MadeFor :
      (id : ℕ) (ackable : Bool) (made : Created) {again : M (Pools Queue C) Created}
      → MadeFor id ackable made
      → Gives (MadeFor id ackable) again
      → Gives (MadeFor id ackable) (on_recreated out conns ackable made again)
  unfolding on_recreated
  on_recreated-MadeFor id true (created ch) h k = Gives-pure _ h
  on_recreated-MadeFor id true (not_created e) h k = record { at = k.at }
  on_recreated-MadeFor id false (created ch) h k = Gives-pure _ h
  on_recreated-MadeFor id false (not_created connections_full) h k = Gives-pure _ tt
  on_recreated-MadeFor id false (not_created _) h k = record { at = k.at }

  pub recreate-MadeFor :
      (fuel id : ℕ) (ackable : Bool)
      → Gives (MadeFor id ackable) (recreate out conns fuel id ackable)
  unfolding recreate
  recreate-MadeFor zero id ackable = Gives-halt
  recreate-MadeFor (suc fuel) id ackable =
      Gives-bind_with (create_channel_host-MadeFor out conns 4 id ackable)
        λ made h. on_recreated-MadeFor id ackable made h (recreate-MadeFor fuel id ackable)

  -- What `take_from` makes of an answer.
  abbrev on_answer : Bool → Pools Queue C → Taken Queue → Option (Taken Queue × Pools Queue C)
  on_answer b s y = some (y, record s { pool = left_behind b y s.pool })

  took :
      (b : Bool) (s t : Pools Queue C) (r : Option (Taken Queue)) {x : Taken Queue}
      → (elim r [ none ↦ none | some y ↦ on_answer b s y ]) ≡ some (x, t)
      → (r ≡ some x) × (t.pool ≡ left_behind b x s.pool)
  unfolding pure
  took b s t none e = cc
  took b s t (some y) e =
      let (same, last) = pure-some e in
      (
        ap some same,
        ap (λ (p : Pools Queue C). p.pool) (sym last) ∙ ap (λ z. left_behind b z s.pool) same,
      )

  -- A Get hands out the head of its queue and leaves the other queue alone.
  pub take_from_lem :
      (b : Bool) (s t : Pools Queue C) (items : Queue → List PooledChannel) {x : Taken Queue}
      → IsQueue out items
      → take_from out conns b s ≡ some (x, t)
      → (old : PooledChannel) × (q : Queue) × (x ≡ taken old q)
        × (items (queue_of b s.pool) ≡ old ∷ items (queue_of b t.pool))
        × (queue_of (not b) t.pool ≡ queue_of (not b) s.pool)
  unfolding take_from left_behind
  take_from_lem true s t items law e =
      let (here, pool) = took true s t (out.queue_get s.pool.ack_channels) e in
      let (ch, q, given, first) = law.gets s.pool.ack_channels here in
      let now : t.pool ≡ record s.pool { ack_channels = q } =
        pool ∙ ap (λ z. left_behind true z s.pool) given in
      (
        ch,
        q,
        given,
        first ∙ ap (λ (p : ChannelPool Queue). ch ∷ items p.ack_channels) (sym now),
        ap (λ (p : ChannelPool Queue). p.channels) now,
      )
  take_from_lem false s t items law e =
      let (here, pool) = took false s t (out.queue_get s.pool.channels) e in
      let (ch, q, given, first) = law.gets s.pool.channels here in
      let now : t.pool ≡ record s.pool { channels = q } =
        pool ∙ ap (λ z. left_behind false z s.pool) given in
      (
        ch,
        q,
        given,
        first ∙ ap (λ (p : ChannelPool Queue). ch ∷ items p.channels) (sym now),
        ap (λ (p : ChannelPool Queue). p.ack_channels) now,
      )
