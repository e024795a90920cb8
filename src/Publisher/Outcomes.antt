-- ===== src/Publisher/Outcomes.antt =====
-- What a caller of the publish operations is told, and what is left in the pool.
use turbocookedrabbit.Config.{PoolConfig}
use turbocookedrabbit.Pool.Channels.{return_channel}
use turbocookedrabbit.Pool.Cache.{ids, return_channel_caches}
use turbocookedrabbit.Publisher.{
  conclude, settle, publish_receipt, take_flushed, publish_call, publish_until,
  publish_with_confirmation, Publisher, make_receipt, confirm_over_cache,
  publish_with_confirmation_error,
}
use turbocookedrabbit.Pool.Rotation.{
  AllCached, Rotated, ids-append, AllCached-append, Rotated-trans, turn, same,
}
use turbocookedrabbit.Publisher.Sends.{Sent, copies, take_flushed_lem, publish_until-Sent}
use turbocookedrabbit.Pool.Frame.{sends}
use turbocookedrabbit.State.{Sys, ChannelHost, sys_ops, ConnectionPool}
use turbocookedrabbit.Amqp.{Env, Error, confirmation_timed_out}
use turbocookedrabbit.Letter.{Letter}
use turbocookedrabbit.Base.{
  refl, ℕ, Bool, List, Option, ◌≡◌, some, none, ◌⊎◌, if◌then◌else◌, ◌∷◌, inl, ◌++◌, arith,
  bind-some, inr, true, false, then-some, subst, pure-some, ◌∙◌, ap₂, ap, sym, [], subst₂,
}

-- How a confirmed publish ends that returns: the letter went out at least once, over the channel
-- `k` last, and nothing else did; every channel host is back in the cache, in the order that the
-- ring has turned to; the settings are as before.
pub record Completed {Queue : Type 0} (letter : Letter) (s s' : Sys Queue) : Type 0 where
  pub ks : List ℕ
  pub k : ℕ
  pub sent :
      sends s'.log
      ≡ copies (publish_call s.pool.config.application_name letter) (k ∷ ks) ++ sends s.log
  pub config : s'.pool.config ≡ s.pool.config
  pub ring : Rotated (ids s.pool.channels) (ids s'.pool.channels)
  pub cached : AllCached s'.pool.channels

ok_or_late :
    (ok : Bool) (late : Error) {err : Option Error}
    → err ≡ (if ok then none else some late)
    → (err ≡ none) ⊎ (err ≡ some late)
ok_or_late true late e = inl e
ok_or_late false late e = inr e

-- A receipt is all that settling adds.
pub settle_lem :
    {Queue : Type 0} (receipt : Bool) (letter : Letter) (err : Option Error) (s : Sys Queue)
    {a : Unit {0}} {s' : Sys Queue}
    → settle receipt letter err s ≡ some (a, s')
    → (s'.receipts ≡ (if receipt then make_receipt letter err ∷ s.receipts else s.receipts))
      × (s'.pool ≡ s.pool)
      × (s'.log ≡ s.log)
unfolding settle publish_receipt sys_ops
settle_lem receipt letter err s e = ground arith

module _ {Queue : Type 0} (env : Env Queue) where
  conclude_lem :
      (fuel : ℕ) (letter : Letter) (receipt : Bool) (late : Error) (ok : Bool)
      (ch ch' : ChannelHost) (s t : Sys Queue) {err : Option Error} {s' : Sys Queue}
      → Sent letter ch s ch' t
      → conclude env fuel letter receipt late (ok, ch') t ≡ some (err, s')
      → (err ≡ (if ok then none else some late))
        × (s'.receipts ≡ (if receipt then make_receipt letter err ∷ s.receipts else s.receipts))
        × (sends s'.log ≡ sends t.log)
        × (s'.pool.config ≡ s.pool.config)
        × Rotated (ch.id ∷ ids s.pool.channels) (ids s'.pool.channels)
        × AllCached s'.pool.channels
  unfolding conclude
  conclude_lem fuel letter receipt late ok ch ch' s t p e =
      let late_err : Option Error = if ok then none else some late in
      let (a, u, q, r) = then-some (settle receipt letter late_err) _ t e in
      let (b, v, q', r') = then-some (return_channel env fuel ch' false) _ u r in
      let (fin, done) = pure-some r' in
      let (rec, pool, log) = settle_lem receipt letter late_err t q in
      let (ch₂, n, e₀, e₁, e₂, e₃, room) =
        return_channel_caches env fuel ch' false u p.cached.0 q' in
      let here : ids u.pool.channels ≡ ids t.pool.channels =
        ap (λ (x : ConnectionPool Queue). ids x.channels) pool in
      let back : ids v.pool.channels ≡ ids t.pool.channels ++ ch'.id ∷ [] =
        ap ids e₀
        ∙ ids-append u.pool.channels ch₂
        ∙ ap₂ (λ (l : List ℕ) (i : ℕ). l ++ i ∷ []) here n.id in
      let cached : AllCached v.pool.channels = subst AllCached (sym e₀) (
        AllCached-append u.pool.channels ch₂
          (subst (λ (x : ConnectionPool Queue). AllCached x.channels) (sym pool) p.cached.1)
          (n.cached ∙ p.cached.0)) in
      subst₂
        (λ x (y : Sys Queue).
          (x ≡ late_err)
          × (y.receipts ≡ (if receipt then make_receipt letter x ∷ s.receipts else s.receipts))
          × (sends y.log ≡ sends t.log)
          × (y.pool.config ≡ s.pool.config)
          × Rotated (ch.id ∷ ids s.pool.channels) (ids y.pool.channels)
          × AllCached y.pool.channels)
        fin done
        (
          refl,
          e₂ ∙ rec ∙ ap (λ l. if receipt then make_receipt letter late_err ∷ l else l) p.receipts,
          e₃ ∙ ap sends log,
          e₁ ∙ ap (λ (x : ConnectionPool Queue). x.config) pool ∙ p.config,
          Rotated-trans p.ring (turn ch'.id (ids t.pool.channels) (same (sym back))),
          cached,
        )

  -- The common part of the four methods that confirm over a cached channel.
  confirmed_lem :
      (fuel : ℕ) (letter : Letter) (receipt : Bool) (late : Error) (timer : Option ℕ)
      (s : Sys Queue) {err : Option Error} {s' : Sys Queue}
      → AllCached s.pool.channels
      → confirm_over_cache env fuel letter receipt late timer s ≡ some (err, s')
      → Completed letter s s'
        × ((err ≡ none) ⊎ (err ≡ some late))
        × (s'.receipts ≡ (if receipt then make_receipt letter err ∷ s.receipts else s.receipts))
  unfolding confirm_over_cache
  confirmed_lem fuel letter receipt late timer s {err} {s'} all e =
      let (ch, t, q, r) = bind-some (take_flushed env) _ s e in
      let ((ok, ch'), u, q', r') = bind-some (publish_until env fuel letter timer ch) _ t r in
      let (f₀, f₁, f₂, f₃) = take_flushed_lem env s q in
      let p = publish_until-Sent env fuel letter timer ch t (subst AllCached f₀ all) q' in
      let (c₀, c₁, c₂, c₃, c₄, c₅) = conclude_lem fuel letter receipt late ok ch ch' t u p r' in
      (
        record {
          ks = p.ks;
          k = p.k;
          sent =
              c₂
              ∙ p.sent
              ∙ ap₂
                  (λ (c : PoolConfig) l.
                    copies (publish_call c.application_name letter) (p.k ∷ p.ks) ++ l)
                  f₁ f₃;
          config = c₃ ∙ f₁;
          ring = subst (λ l. Rotated (ids l) (ids s'.pool.channels)) (sym f₀) c₄;
          cached = c₅;
        },
        ok_or_late ok late c₀,
        c₁ ∙ ap (λ l. if receipt then make_receipt letter err ∷ l else l) f₂,
      )

  -- PublishWithConfirmation over a cache of managed channels, when it returns: the letter went out,
  -- once or more, and nothing else did; every channel host is back in the cache, in turned order;
  -- exactly one receipt was made, and it is a success, or a timeout that carries the letter.
  pub publish_with_confirmation-Completed :
      (pub_ : Publisher) (fuel : ℕ) (letter : Letter) (timeout : ℕ) (s s' : Sys Queue)
      → AllCached s.pool.channels
      → publish_with_confirmation env pub_ fuel letter timeout s ≡ some (tt, s')
      → Completed letter s s'
        × ((s'.receipts ≡ make_receipt letter none ∷ s.receipts)
            ⊎ (s'.receipts
                ≡ make_receipt letter (some (confirmation_timed_out letter.letter_id))
                  ∷ s.receipts))
  unfolding publish_with_confirmation
  publish_with_confirmation-Completed pub_ fuel letter timeout s s' all e =
      let (err, t, q, r) = bind-some (confirm_over_cache env fuel letter true _ _) _ s e in
      let (c, o, rec) = confirmed_lem fuel letter true _ _ s all q in
      subst
        (λ (y : Sys Queue).
          Completed letter s y
          × ((y.receipts ≡ make_receipt letter none ∷ s.receipts)
              ⊎ (y.receipts
                  ≡ make_receipt letter (some (confirmation_timed_out letter.letter_id))
                    ∷ s.receipts)))
        (pure-some r).1 (c, receipt_cases t err o rec)
    where
      receipt_cases :
          (t : Sys Queue) (err : Option Error)
          → (err ≡ none) ⊎ (err ≡ some (confirmation_timed_out letter.letter_id))
          → t.receipts ≡ make_receipt letter err ∷ s.receipts
          → (t.receipts ≡ make_receipt letter none ∷ s.receipts)
            ⊎ (t.receipts
                ≡ make_receipt letter (some (confirmation_timed_out letter.letter_id)) ∷ s.receipts)
      receipt_cases t err (inl e) r = inl (r ∙ ap (λ x. make_receipt letter x ∷ s.receipts) e)
      receipt_cases t err (inr e) r = inr (r ∙ ap (λ x. make_receipt letter x ∷ s.receipts) e)

  -- PublishWithConfirmationError over a cache of managed channels, when it returns: the letter went
  -- out, once or more, and nothing else did; every channel host is back in the cache, in turned
  -- order; no receipt was made, and the result is no error or the timeout of this letter.
  pub publish_with_confirmation_error-Completed :
      (pub_ : Publisher) (fuel : ℕ) (letter : Letter) (timeout : ℕ) (s s' : Sys Queue)
      {err : Option Error}
      → AllCached s.pool.channels
      → publish_with_confirmation_error env pub_ fuel letter timeout s ≡ some (err, s')
      → Completed letter s s'
        × ((err ≡ none) ⊎ (err ≡ some (confirmation_timed_out letter.letter_id)))
        × (s'.receipts ≡ s.receipts)
  unfolding publish_with_confirmation_error
  publish_with_confirmation_error-Completed pub_ fuel letter timeout s s' all e =
      confirmed_lem fuel letter false _ _ s all e
