-- ===== src/Pool/Cache.antt =====
-- What the pool does to its channel cache.
use turbocookedrabbit.Base.{
  false, Bool, sym, ap, ◌∙◌, refl, bind-some, then-some, branch-true, branch-false, zero, suc, true,
  Gives, Gives-bind, Gives-bind_with, Gives-then, Gives-pure, Gives-halt, Gives-branch, Gives-maybe,
  ℕ, List, [], ◌∷◌, ◌++◌, ◌≡◌, ◌<◌, some, length, arith,
}
use turbocookedrabbit.Amqp.{Env}
use turbocookedrabbit.Host.{make_channel, flush_confirms}
use turbocookedrabbit.Pool.Channels.{reconnect_channel, return_channel}
use turbocookedrabbit.Pool.Frame.{Same, Same-refl}
use turbocookedrabbit.Pool.Frame.Hosts.{flush_confirms-Same}
use turbocookedrabbit.Pool.Frame.Connections.{reconnect_channel-Same}
use turbocookedrabbit.Pool.Frame.{sends}
use turbocookedrabbit.State.{ChannelHost, Sys, sys_ops}
use turbocookedrabbit.Pool.Channels.{
  get_channel_from_pool, receive_channel, send_channel, set_channels,
}

abbrev pub ids : List ChannelHost → List ℕ
ids [] = []
ids (ch ∷ chs) = ch.id ∷ ids chs

module _ {Queue : Type 0} where
  -- A receive takes the oldest channel host and nothing else.
  pub get_channel_takes_head :
      (s : Sys Queue) {ch : ChannelHost} {s' : Sys Queue}
      → get_channel_from_pool s ≡ some (ch, s')
      → (s.pool.channels ≡ ch ∷ s'.pool.channels)
        × (s'.log ≡ s.log)
        × (s'.receipts ≡ s.receipts)
        × (s'.pool.config ≡ s.pool.config)
  unfolding get_channel_from_pool sys_ops receive_channel set_channels
  get_channel_takes_head s e = ground arith

  pub send_channel_appends :
      (ch : ChannelHost) (s : Sys Queue) {a : Unit {0}} {s' : Sys Queue}
      → send_channel ch s ≡ some (a, s')
      → (s'.pool.channels ≡ s.pool.channels ++ ch ∷ [])
        × (length s.pool.channels < s.pool.config.max_cache_channel_count)
        × (s'.log ≡ s.log)
        × (s'.receipts ≡ s.receipts)
        × (s'.pool.config ≡ s.pool.config)
  unfolding send_channel sys_ops set_channels
  send_channel_appends ch s e = ground arith

-- A channel host that a reconnect hands back: the one it was given, with a new channel.
pub record Renewed (ch ch' : ChannelHost) : Type 0 where
  pub id : ch'.id ≡ ch.id
  pub cached : ch'.cached_channel ≡ ch.cached_channel
  pub ackable : ch'.ackable ≡ ch.ackable
  pub conn_host : ch'.conn_host ≡ ch.conn_host

pub Renewed-refl : (ch : ChannelHost) → Renewed ch ch
Renewed-refl ch = record { id = refl; cached = refl; ackable = refl; conn_host = refl }

Renewed-trans : {a b c : ChannelHost} → Renewed a b → Renewed b c → Renewed a c
Renewed-trans h k = record {
  id = k.id ∙ h.id;
  cached = k.cached ∙ h.cached;
  ackable = k.ackable ∙ h.ackable;
  conn_host = k.conn_host ∙ h.conn_host;
}

module _ {Queue : Type 0} (env : Env Queue) where
  pub make_channel-Renewed :
      (ch : ChannelHost) → Gives (λ made. Renewed ch made.1) (make_channel env ch)
  unfolding make_channel
  make_channel-Renewed ch = Gives-bind _ λ host.
      Gives-maybe _ (λ _. Gives-halt)
        λ c _. Gives-bind _ λ opened.
          Gives-maybe _
            (λ _. Gives-then _ (
              Gives-branch _
                (Gives-bind _ λ confirmed.
                  Gives-maybe _ (λ _. Gives-then _ (Gives-pure _ (ground arith)))
                    (λ e _. Gives-pure _ (ground arith)))
                (Gives-pure _ (ground arith))))
            (λ e _. Gives-pure _ (ground arith))

  pub reconnect_channel-Renewed :
      (fuel : ℕ) (ch : ChannelHost) → Gives (Renewed ch) (reconnect_channel env fuel ch)
  unfolding reconnect_channel
  reconnect_channel-Renewed zero ch = Gives-halt
  reconnect_channel-Renewed (suc fuel) ch = Gives-then _ (
      Gives-bind_with (make_channel-Renewed ch) λ made h.
        Gives-maybe _ (λ _. Gives-pure _ h)
          λ e _. Gives-then _ (record {
            at = λ s b s' q. Renewed-trans h ((reconnect_channel-Renewed fuel made.1).at s b s' q);
          }))

  -- A send after calls that keep the frame.
  send_framed :
      (s t : Sys Queue) (ch : ChannelHost) {a : Unit {0}} {s' : Sys Queue}
      → Same s t
      → send_channel ch t ≡ some (a, s')
      → (s'.pool.channels ≡ s.pool.channels ++ ch ∷ [])
        × (s'.pool.config ≡ s.pool.config)
        × (s'.receipts ≡ s.receipts)
        × (sends s'.log ≡ sends s.log)
        × (length s.pool.channels < s.pool.config.max_cache_channel_count)
  send_framed s t ch h e =
      let k = send_channel_appends ch t e in
      (
        rw (← h.channels) (k.0),
        k.4 ∙ h.config,
        k.3 ∙ h.receipts,
        ap sends k.2 ∙ h.sent,
        rw (← h.channels, ← h.config) (k.1),
      )

  -- A cached channel host that is returned, with or without an error, stands at the end of the
  -- cache under its id; there was room for it, and receipts and published letters are as before.
  pub return_channel_caches :
      (fuel : ℕ) (ch : ChannelHost) (erred : Bool) (s : Sys Queue) {a : Unit {0}} {s' : Sys Queue}
      → ch.cached_channel ≡ true
      → return_channel env fuel ch erred s ≡ some (a, s')
      → (ch' : ChannelHost) × Renewed ch ch'
        × (s'.pool.channels ≡ s.pool.channels ++ ch' ∷ [])
        × (s'.pool.config ≡ s.pool.config)
        × (s'.receipts ≡ s.receipts)
        × (sends s'.log ≡ sends s.log)
        × (length s.pool.channels < s.pool.config.max_cache_channel_count)
  unfolding return_channel
  return_channel_caches fuel ch true s c e =
      let (ch', t, q, r) =
        bind-some (reconnect_channel env fuel ch) send_channel s
          (sym (branch-true _ _ s refl) ∙ sym (branch-true _ _ s c) ∙ e) in
      let sent =
        send_framed s t ch' ((reconnect_channel-Same env fuel ch).at s ch' t q (Same-refl s)) r in
      (
        ch',
        (reconnect_channel-Renewed fuel ch).at s ch' t q,
        sent.0,
        sent.1,
        sent.2,
        sent.3,
        sent.4,
      )
  return_channel_caches fuel ch false s c e =
      let (b, t, q, r) =
        then-some (flush_confirms env ch) (send_channel ch) s
          (sym (branch-false _ _ s refl) ∙ sym (branch-true _ _ s c) ∙ e) in
      let sent = send_framed s t ch ((flush_confirms-Same env ch).at s b t q (Same-refl s)) r in
      (ch, Renewed-refl ch, sent.0, sent.1, sent.2, sent.3, sent.4)
