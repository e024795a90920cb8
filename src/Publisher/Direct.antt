-- ===== src/Publisher/Direct.antt =====
-- The publish operations without a confirmation.
use turbocookedrabbit.Config.{PoolConfig}
use turbocookedrabbit.Publisher.Outcomes.{settle_lem}
use turbocookedrabbit.Publisher.Sends.{send_letter_lem}
use turbocookedrabbit.Pool.Channels.{get_channel_from_pool, return_channel}
use turbocookedrabbit.Pool.Cache.{ids, get_channel_takes_head, return_channel_caches}
use turbocookedrabbit.Pool.Frame.{sends}
use turbocookedrabbit.Pool.Rotation.{AllCached, ids-append, AllCached-append}
use turbocookedrabbit.State.{ChannelHost, Sys, ConnectionPool}
use turbocookedrabbit.Letter.{Letter}
use turbocookedrabbit.Publisher.{
  publish_with_error, publish_call, make_receipt, send_letter, publish_receipt, settle,
}
use turbocookedrabbit.Amqp.{Env, Error}
use turbocookedrabbit.Base.{
  List, ℕ, Bool, Option, ◌≡◌, some, ◌∷◌, if◌then◌else◌, not, bind-some, then-some, when, is_some,
  subst, ap, ◌∙◌, ◌++◌, [], sym, pure-some, ap₂, subst₂,
}

-- A publish without a confirmation that returns: the oldest channel host `ch` was taken, the letter
-- went out once, over its channel `k`, and nothing else did; `ch` is back, as the newest one.
pub record SentOnce {Queue : Type 0} (letter : Letter) (s s' : Sys Queue) : Type 0 where
  pub ch : ChannelHost
  pub rest : List ChannelHost
  pub k : ℕ
  pub oldest : s.pool.channels ≡ ch ∷ rest
  pub over : ch.channel ≡ some k
  pub sent : sends s'.log ≡ (k, publish_call s.pool.config.application_name letter) ∷ sends s.log
  pub back : ids s'.pool.channels ≡ ids rest ++ ch.id ∷ []
  pub cached : AllCached s'.pool.channels

module _ {Queue : Type 0} (env : Env Queue) where
  -- The channel host `ch` comes back behind the `rest`.
  comes_back :
      (fuel : ℕ) (ch : ChannelHost) (rest : List ChannelHost) (erred : Bool) (t : Sys Queue)
      {a : Unit {0}} {u : Sys Queue}
      → AllCached (ch ∷ rest)
      → t.pool.channels ≡ rest
      → return_channel env fuel ch erred t ≡ some (a, u)
      → (ids u.pool.channels ≡ ids rest ++ ch.id ∷ [])
        × AllCached u.pool.channels
        × (u.receipts ≡ t.receipts)
        × (sends u.log ≡ sends t.log)
  comes_back fuel ch rest erred t {u = u} all here e =
      let (ch₂, n, g₀, g₁, g₂, g₃, room) = return_channel_caches env fuel ch erred t all.0 e in
      let put : u.pool.channels ≡ rest ++ ch₂ ∷ [] = g₀ ∙ ap (λ l. l ++ ch₂ ∷ []) here in
      (
        ap ids put ∙ ids-append rest ch₂ ∙ ap (λ i. ids rest ++ i ∷ []) n.id,
        subst AllCached (sym put) (AllCached-append rest ch₂ all.1 (n.cached ∙ all.0)),
        g₂,
        g₃,
      )

  -- PublishWithError, when it returns, has sent the letter once, over the oldest cached channel,
  -- and nothing else, and that channel host is the newest in the cache then; one receipt was made,
  -- with the error that is handed back, or none where receipts are to be skipped.
  pub publish_with_error-once :
      (fuel : ℕ) (letter : Letter) (skip : Bool) (s s' : Sys Queue) {err : Option Error}
      → AllCached s.pool.channels
      → publish_with_error env fuel letter skip s ≡ some (err, s')
      → SentOnce letter s s'
        × (s'.receipts ≡ (if not skip then make_receipt letter err ∷ s.receipts else s.receipts))
  unfolding publish_with_error settle
  publish_with_error-once fuel letter skip s s' {err} all e =
      let (ch, t₁, q₁, e₁) = bind-some get_channel_from_pool _ s e in
      let (x, t₂, q₂, e₂) = bind-some (send_letter env ch.channel letter) _ t₁ e₁ in
      let (_, t₃, q₃, e₃) = then-some (when (not skip) (publish_receipt letter x)) _ t₂ e₂ in
      let (_, t₄, q₄, e₄) = then-some (return_channel env fuel ch (is_some x)) _ t₃ e₃ in
      let (f₀, f₁, f₂, f₃) = get_channel_takes_head s q₁ in
      let (k, on, out, pool, kept) = send_letter_lem env ch.channel letter t₁ q₂ in
      let (rec, pool', log') = settle_lem (not skip) letter x t₂ q₃ in
      let (order, cached, same_rec, same_sent) =
        comes_back fuel ch t₁.pool.channels (is_some x) t₃ (subst AllCached f₀ all)
          (ap (λ (p : ConnectionPool Queue). p.channels) (pool' ∙ pool)) q₄ in
      let (same_err, same_state) = pure-some e₄ in
      subst₂
        (λ y (z : Sys Queue).
          SentOnce letter s z
          × (z.receipts ≡ (if not skip then make_receipt letter y ∷ s.receipts else s.receipts)))
        same_err same_state
        (
          record {
            ch = ch;
            rest = t₁.pool.channels;
            k = k;
            oldest = f₀;
            over = on;
            sent =
                same_sent
                ∙ ap sends log'
                ∙ out
                ∙ ap₂ (λ (c : PoolConfig) l. (k, publish_call c.application_name letter) ∷ l) f₃
                    (ap sends f₁);
            back = order;
            cached = cached;
          },
          same_rec ∙ rec ∙ ap (λ l. if not skip then make_receipt letter x ∷ l else l) (kept ∙ f₂),
        )
