-- ===== src/Publisher/Sends.antt =====
-- What the publish operations send, and what they make of the channel cache.
use turbocookedrabbit.Base.{
  ℕ, Option, none, some, List, [], ◌∷◌, ◌++◌, ◌≡◌, refl, ap, arith, bind-some, then-some, pure, sym,
  ◌∙◌, Keeps, Keeps-halt, Keeps-get, suc, M, Keeps-bind, Keeps-pure, Keeps-maybe, ap₂, Keeps-then,
  subst, zero, halt, true, Bool, false, subst₂,
}
use turbocookedrabbit.Config.{PoolConfig}
use turbocookedrabbit.Letter.{Letter}
use turbocookedrabbit.Amqp.{Env, Error, PublishCall, Round, confirmation, deadline, idle}
use turbocookedrabbit.State.{ChannelHost, Sys, sys_ops, ConnectionPool}
use turbocookedrabbit.Host.{flush_confirms, millisecond}
use turbocookedrabbit.Pool.Channels.{get_channel_from_pool, return_channel}
use turbocookedrabbit.Pool.Frame.{Same-refl, sends, Same, ask-Same, act-Same}
use turbocookedrabbit.Pool.Frame.Hosts.{flush_confirms-Same}
use turbocookedrabbit.Pool.Cache.{ids, get_channel_takes_head, Renewed, return_channel_caches}
use turbocookedrabbit.Pool.Rotation.{
  Rotated, AllCached, Rotated-trans, AllCached-append, ids-append, same, turn,
}
use turbocookedrabbit.Publisher.{
  publish_call, send_letter, take_flushed, wait_confirmation, Verdict, on_round, start_timer,
  timed_out, acked, nacked, Limit, context, publish_until, after_publish, on_verdict,
}

module _ {Queue : Type 0} (env : Env Queue) where
  -- A channel taken for a confirmed publish is the oldest one; nothing else is touched.
  pub take_flushed_lem :
      (s : Sys Queue) {ch : ChannelHost} {s' : Sys Queue}
      → take_flushed env s ≡ some (ch, s')
      → (s.pool.channels ≡ ch ∷ s'.pool.channels)
        × (s'.pool.config ≡ s.pool.config)
        × (s'.receipts ≡ s.receipts)
        × (sends s'.log ≡ sends s.log)
  unfolding take_flushed pure
  take_flushed_lem s {ch} {s'} e =
      let (c, t, q, r) = bind-some get_channel_from_pool _ s e in
      let (b, t', q', r') = then-some (flush_confirms env c) _ t r in
      let got = get_channel_takes_head s q in
      let frame = (flush_confirms-Same env c).at t b t' q' (Same-refl t) in
      let same_channel : c ≡ ch = cc in
      let same_state : t' ≡ s' = cc in ground (arith, ap sends got.1)

  -- Channel.Publish leaves one entry in the log.
  pub send_letter_lem :
      (k : Option ℕ) (letter : Letter) (s : Sys Queue) {err : Option Error} {s' : Sys Queue}
      → send_letter env k letter s ≡ some (err, s')
      → (c : ℕ) × (k ≡ some c)
        × (sends s'.log ≡ (c, publish_call s.pool.config.application_name letter) ∷ sends s.log)
        × (s'.pool ≡ s.pool)
        × (s'.receipts ≡ s.receipts)
  unfolding send_letter sys_ops
  send_letter_lem none letter s e = cc
  send_letter_lem (some c) letter s e = (c, refl, ground arith, ground arith, ground arith)

-- The copies of one letter that went out over the channels `ks`.
abbrev pub copies : PublishCall → List ℕ → List (ℕ × PublishCall)
copies call [] = []
copies call (k ∷ ks) = (k, call) ∷ copies call ks

-- What a publish from state `s` has done when it ends in state `s'`, the channel host `ch` at
-- hand before it and `ch'` after it: the letter went out at least once and nothing else did, no
-- receipt was made, and the ring of channel hosts has turned.
pub record Sent {Queue : Type 0} (letter : Letter) (ch : ChannelHost) (s : Sys Queue)
    (ch' : ChannelHost) (s' : Sys Queue) : Type 0 where
  pub ks : List ℕ
  pub k : ℕ
  pub sent :
      sends s'.log
      ≡ copies (publish_call s.pool.config.application_name letter) (k ∷ ks) ++ sends s.log
  pub config : s'.pool.config ≡ s.pool.config
  pub receipts : s'.receipts ≡ s.receipts
  pub ring : Rotated (ch.id ∷ ids s.pool.channels) (ch'.id ∷ ids s'.pool.channels)
  pub cached : AllCached (ch' ∷ s'.pool.channels)
  pub last : ch'.channel ≡ some k

copies-append :
    (call : PublishCall) (ks : List ℕ) (k : ℕ) (rest : List (ℕ × PublishCall))
    → copies call (ks ++ k ∷ []) ++ rest ≡ copies call ks ++ (k, call) ∷ rest
copies-append call [] k rest = refl
copies-append call (x ∷ ks) k rest = ap (◌∷◌ (x, call)) (copies-append call ks k rest)

-- One round: the letter went out over `k` and the channel host `ch'` is at hand.
record RoundDone {Queue : Type 0} (letter : Letter) (ch : ChannelHost) (s : Sys Queue) (k : ℕ)
    (ch' : ChannelHost) (s' : Sys Queue) : Type 0 where
  sent : sends s'.log ≡ (k, publish_call s.pool.config.application_name letter) ∷ sends s.log
  config : s'.pool.config ≡ s.pool.config
  receipts : s'.receipts ≡ s.receipts
  ring : Rotated (ch.id ∷ ids s.pool.channels) (ch'.id ∷ ids s'.pool.channels)
  cached : AllCached (ch' ∷ s'.pool.channels)

module _ {Queue : Type 0} (letter : Letter) {ch : ChannelHost} {s : Sys Queue} {k : ℕ} where
  RoundDone-Sent :
      {ch' : ChannelHost} {s' : Sys Queue}
      → RoundDone letter ch s k ch' s'
      → ch'.channel ≡ some k
      → Sent letter ch s ch' s'
  RoundDone-Sent r e = record {
    ks = [];
    k = k;
    sent = r.sent;
    config = r.config;
    receipts = r.receipts;
    ring = r.ring;
    cached = r.cached;
    last = e;
  }

  Sent-again :
      {ch' ch'' : ChannelHost} {s' s'' : Sys Queue}
      → RoundDone letter ch s k ch' s'
      → Sent letter ch' s' ch'' s''
      → Sent letter ch s ch'' s''
  Sent-again {ch'} {ch''} {s'} {s''} r p = record {
    ks = p.ks ++ k ∷ [];
    k = p.k;
    sent =
        let call = publish_call s.pool.config.application_name letter in
        p.sent
        ∙ ap
            (λ (c : PoolConfig).
              copies (publish_call c.application_name letter) (p.k ∷ p.ks) ++ sends s'.log)
            r.config
        ∙ ap (λ (l : List (ℕ × PublishCall)). copies call (p.k ∷ p.ks) ++ l) r.sent
        ∙ sym (copies-append call (p.k ∷ p.ks) k (sends s.log));
    config = p.config ∙ r.config;
    receipts = p.receipts ∙ r.receipts;
    ring = Rotated-trans r.ring p.ring;
    cached = p.cached;
    last = p.last;
  }

module _ {Queue : Type 0} (env : Env Queue) where
  on_round-Same :
      {u : Sys Queue} (r : Round) {again : M (Sys Queue) Verdict}
      → Keeps (Same u) again
      → Keeps (Same u) (on_round env r again)
  unfolding on_round
  on_round-Same deadline h = Keeps-pure timed_out
  on_round-Same (confirmation true) h = Keeps-pure acked
  on_round-Same (confirmation false) h = Keeps-pure nacked
  on_round-Same idle h = h

  pub wait_confirmation-Same :
      {u : Sys Queue} (pause fuel : ℕ) (limit : Limit) (k : Option ℕ)
      → Keeps (Same u) (wait_confirmation env pause fuel limit k)
  unfolding wait_confirmation
  wait_confirmation-Same pause zero limit k = Keeps-halt
  wait_confirmation-Same pause (suc fuel) limit k = Keeps-bind (ask-Same _) λ round.
      on_round-Same round (Keeps-then (act-Same _ tt) (wait_confirmation-Same pause fuel limit k))

  pub start_timer-Same : {u : Sys Queue} (t : Option ℕ) → Keeps (Same u) (start_timer env t)
  unfolding start_timer
  start_timer-Same t =
      Keeps-maybe t (Keeps-pure context)
        (λ d. Keeps-bind Keeps-get (λ s. Keeps-then (act-Same _ tt) (Keeps-pure _)))

  -- The letter is out, and the wait for its confirmation has left the rest alone.
  wait_round :
      (letter : Letter) (ch : ChannelHost) (s r t u : Sys Queue) (c : ℕ)
      → AllCached (ch ∷ s.pool.channels)
      → Same s r
      → sends t.log ≡ (c, publish_call r.pool.config.application_name letter) ∷ sends r.log
      → t.pool ≡ r.pool
      → t.receipts ≡ r.receipts
      → Same t u
      → RoundDone letter ch s c ch u
  wait_round letter ch s r t u c h k e p q w =
      let cfg : u.pool.config ≡ s.pool.config =
        w.config ∙ ap (λ (x : ConnectionPool Queue). x.config) p ∙ k.config in
      let chans : u.pool.channels ≡ s.pool.channels =
        w.channels ∙ ap (λ (x : ConnectionPool Queue). x.channels) p ∙ k.channels in
      record {
        sent =
            w.sent
            ∙ e
            ∙ ap₂
                (λ (x : PoolConfig) (l : List (ℕ × PublishCall)).
                  (c, publish_call x.application_name letter) ∷ l)
                k.config k.sent;
        config = cfg;
        receipts = w.receipts ∙ q ∙ k.receipts;
        ring = same (ap (λ (l : List ChannelHost). ch.id ∷ ids l) (sym chans));
        cached = (h.0, rw chans (h.1));
      }

  -- The channel host was returned and the next one taken.
  next_round :
      (letter : Letter) (ch ch₂ ch₃ : ChannelHost) (s t u v : Sys Queue) (c : ℕ)
      → RoundDone letter ch s c ch t
      → Renewed ch ch₂
      → u.pool.channels ≡ t.pool.channels ++ ch₂ ∷ []
      → u.pool.config ≡ t.pool.config
      → u.receipts ≡ t.receipts
      → sends u.log ≡ sends t.log
      → u.pool.channels ≡ ch₃ ∷ v.pool.channels
      → v.pool.config ≡ u.pool.config
      → v.receipts ≡ u.receipts
      → sends v.log ≡ sends u.log
      → RoundDone letter ch s c ch₃ v
  next_round letter ch ch₂ ch₃ s t u v c d n e₀ e₁ e₂ e₃ f₀ f₁ f₂ f₃ =
      let all : AllCached (t.pool.channels ++ ch₂ ∷ []) =
        AllCached-append t.pool.channels ch₂ d.cached.1 (n.cached ∙ d.cached.0) in
      let moved : ids t.pool.channels ++ ch.id ∷ [] ≡ ch₃.id ∷ ids v.pool.channels =
        rw (← n.id) (sym (ids-append t.pool.channels ch₂) ∙ ap ids (sym e₀ ∙ f₀)) in
      record {
        sent = f₃ ∙ e₃ ∙ d.sent;
        config = f₁ ∙ e₁ ∙ d.config;
        receipts = f₂ ∙ e₂ ∙ d.receipts;
        ring = Rotated-trans d.ring (turn ch.id (ids t.pool.channels) (same moved));
        cached = subst AllCached (sym e₀ ∙ f₀) all;
      }

  on_verdict-Sent :
      (letter : Letter) (ch : ChannelHost) (s t : Sys Queue) (c : ℕ) (v : Verdict)
      (again : M (Sys Queue) (Bool × ChannelHost)) {ok : Bool} {ch' : ChannelHost} {s' : Sys Queue}
      → RoundDone letter ch s c ch t
      → ch.channel ≡ some c
      → (again t ≡ some ((ok, ch'), s') → Sent letter ch t ch' s')
      → on_verdict env v again ch t ≡ some ((ok, ch'), s')
      → Sent letter ch s ch' s'
  unfolding on_verdict pure
  on_verdict-Sent letter ch s t c timed_out again {ch' = ch'} {s' = s'} d on more e =
      subst₂ (λ x y. Sent letter ch s x y) (cc) (cc) (RoundDone-Sent letter d on)
  on_verdict-Sent letter ch s t c acked again d on more e =
      subst₂ (λ x y. Sent letter ch s x y) (cc) (cc) (RoundDone-Sent letter d on)
  on_verdict-Sent letter ch s t c nacked again d on more e = Sent-again letter d (more e)

  -- `t` is the state after Channel.Publish.
  after_publish-Sent :
      (fuel : ℕ) (limit : Limit) (letter : Letter) (ch : ChannelHost) (s t : Sys Queue) (c : ℕ)
      (err : Option Error) (again : ChannelHost → M (Sys Queue) (Bool × ChannelHost)) {ok : Bool}
      {ch' : ChannelHost} {s' : Sys Queue}
      → ch.channel ≡ some c
      → ((u : Sys Queue) → Same t u → RoundDone letter ch s c ch u)
      → ((next : ChannelHost) (u : Sys Queue)
          → AllCached (next ∷ u.pool.channels)
          → again next u ≡ some ((ok, ch'), s')
          → Sent letter next u ch' s')
      → after_publish env fuel limit ch err again t ≡ some ((ok, ch'), s')
      → Sent letter ch s ch' s'
  unfolding after_publish
  after_publish-Sent fuel limit letter ch s t c none again on done more e =
      let (v, u, q, r) =
        bind-some (wait_confirmation env millisecond fuel limit ch.confirmations) _ t e in
      let kept = wait_confirmation-Same millisecond fuel limit ch.confirmations in
      let d = done u (kept.at t v u q (Same-refl t)) in
      on_verdict-Sent letter ch s u c v (again ch) d on (more ch u d.cached) r
  after_publish-Sent fuel limit letter ch s t c (some x) again on done more e =
      let (a, u, q, r) = then-some (return_channel env fuel ch true) _ t e in
      let (next, v, q', r') = bind-some (take_flushed env) again u r in
      let d = done t (Same-refl t) in
      let (ch₂, n, e₀, e₁, e₂, e₃, room) =
        return_channel_caches env fuel ch true t (d.cached.0) q in
      let (f₀, f₁, f₂, f₃) = take_flushed_lem env u q' in
      let d' = next_round letter ch ch₂ next s t u v c d n e₀ e₁ e₂ e₃ f₀ f₁ f₂ f₃ in
      Sent-again letter d' (more next v d'.cached r')

  -- A run from the label Publish on that returns, all channel hosts being managed: the letter went
  -- out once or more, last over the channel at hand, and nothing else did; no receipt was made, and
  -- the channel hosts are all there, in turned order.
  pub publish_until-Sent :
      (fuel : ℕ) (letter : Letter) (timer : Option ℕ) (ch : ChannelHost) (s : Sys Queue) {ok : Bool}
      {ch' : ChannelHost} {s' : Sys Queue}
      → AllCached (ch ∷ s.pool.channels)
      → publish_until env fuel letter timer ch s ≡ some ((ok, ch'), s')
      → Sent letter ch s ch' s'
  unfolding publish_until halt
  publish_until-Sent zero letter timer ch s h e = cc
  publish_until-Sent (suc fuel) letter timer ch s h e =
      let (limit, r, q₁, e₁) = bind-some (start_timer env timer) _ s e in
      let (err, t, q₂, e₂) = bind-some (send_letter env ch.channel letter) _ r e₁ in
      let (c, on, out, pool, receipts) = send_letter_lem env ch.channel letter r q₂ in
      let started = (start_timer-Same timer).at s limit r q₁ (Same-refl s) in
      after_publish-Sent (suc fuel) limit letter ch s t c err _ on
        (λ u w. wait_round letter ch s r t u c h started out pool receipts w)
        (λ next u all again. publish_until-Sent fuel letter timer next u all again) e₂
