-- ===== src/V1/Startup.antt =====
-- What Initialize of the first version's channel pool leaves in the two queues.
use turbocookedrabbit.V1.ChannelPool.{
  Outside, Connections, Pools, Created, created, not_created, PooledChannel, ChannelPool, PoolError,
  create_channel_host, modify_channels, channels_failed, ChannelPoolConfig, Taken, taken,
}
use turbocookedrabbit.V1.Channels.{
  fill, on_filled, put_new, give_up, initialize_channels, initialize_pool,
  initialize_connections_if, initialize_once,
}
use turbocookedrabbit.V1.Frame.{
  Kept, Kept-refl, MadeFor, create_channel_host-Kept, create_channel_host-MadeFor,
}
use turbocookedrabbit.Base.{
  ℕ, zero, suc, Bool, true, false, not, Option, none, some, List, [], ◌∷◌, ◌++◌, ◌+◌, ◌≡◌, refl,
  sym, ◌∙◌, ap, subst, M, bind-some, then-some, pure-some, range_from, append-nil, append_assoc,
  arith, run_ops, get-bind, maybe-none, Bool-cases, inl, inr, branch-true, branch-false,
  if◌then◌else◌, ap₂, ◌>>◌, pure,
}

-- The documented behaviour of the queue, while nothing disposes it: first in, first out. `items` are
-- what it holds.
pub record IsQueue {Queue : Type 0} (out : Outside Queue) (items : Queue → List PooledChannel)
    : Type 0 where
  pub fresh : (n : ℕ) → items (out.queue_new n) ≡ []
  pub accepts : (q : Queue) (ch : PooledChannel) → (out.queue_put q ch).0 ≡ none
  pub gets :
      (q : Queue) {t : Taken Queue}
      → out.queue_get q ≡ some t
      → (ch : PooledChannel) × (q' : Queue) × (t ≡ taken ch q') × (items q ≡ ch ∷ items q')
  pub waits : (q : Queue) → items q ≡ [] → out.queue_get q ≡ none
  pub puts : (q : Queue) (ch : PooledChannel) → items (out.queue_put q ch).1 ≡ items q ++ ch ∷ []

abbrev pub channel_ids : List PooledChannel → List ℕ
channel_ids [] = []
channel_ids (ch ∷ chs) = ch.channel_id ∷ channel_ids chs

abbrev pub AllAckable : Bool → List PooledChannel → Type 0
AllAckable b [] = Unit {0}
AllAckable b (ch ∷ chs) = (ch.ackable ≡ b) × AllAckable b chs

pub channel_ids-append :
    (chs : List PooledChannel) (ch : PooledChannel)
    → channel_ids (chs ++ ch ∷ []) ≡ channel_ids chs ++ ch.channel_id ∷ []
channel_ids-append [] ch = refl
channel_ids-append (x ∷ chs) ch = ap (◌∷◌ x.channel_id) (channel_ids-append chs ch)

pub AllAckable-append :
    (b : Bool) (chs : List PooledChannel) (ch : PooledChannel)
    → AllAckable b chs
    → ch.ackable ≡ b
    → AllAckable b (chs ++ ch ∷ [])
AllAckable-append b [] ch h e = (e, tt)
AllAckable-append b (x ∷ chs) ch h e = (h.0, AllAckable-append b chs ch h.1 e)

-- The plain channel hosts bear the numbers from 0 on, as many as configured, in the order of their
-- queue, and the ackable ones the numbers after these; each is in the queue of its kind.
pub record IsFilled {Queue C : Type 0} (items : Queue → List PooledChannel)
    (config : ChannelPoolConfig) (u : Pools Queue C) : Type 0 where
  pub initialized : u.pool.initialized ≡ true
  pub plain_ids : channel_ids (items u.pool.channels) ≡ range_from 0 config.max_channel_count
  pub ack_ids :
      channel_ids (items u.pool.ack_channels)
      ≡ range_from config.max_channel_count config.max_ack_channel_count
  pub plain : AllAckable false (items u.pool.channels)
  pub acks : AllAckable true (items u.pool.ack_channels)

abbrev pub queue_of : {Queue : Type 0} → Bool → ChannelPool Queue → Queue
queue_of true p = p.ack_channels
queue_of false p = p.channels

module _ {Queue C : Type 0} (out : Outside Queue) (conns : Connections C)
    (items : Queue → List PooledChannel) (law : IsQueue out items) where
  -- A number of hosts of one kind came behind those of the queue; the other queue is as it was.
  record Filled (b : Bool) (left : ℕ) (s t : Pools Queue C) : Type 0 where
    ids :
        channel_ids (items (queue_of b t.pool))
        ≡ channel_ids (items (queue_of b s.pool)) ++ range_from s.pool.channel_id left
    kind : AllAckable b (items (queue_of b s.pool)) → AllAckable b (items (queue_of b t.pool))
    other_queue : queue_of (not b) t.pool ≡ queue_of (not b) s.pool
    next_id : t.pool.channel_id ≡ s.pool.channel_id + left
    config : t.pool.config ≡ s.pool.config

  Filled-trans :
      (b : Bool) (left : ℕ) (s t u : Pools Queue C)
      → Filled b 1 s t
      → Filled b left t u
      → Filled b (suc left) s u
  Filled-trans b left s t u f g = record {
    ids =
        g.ids
        ∙ ap (λ l. l ++ range_from t.pool.channel_id left) f.ids
        ∙ append_assoc (channel_ids (items (queue_of b s.pool))) (s.pool.channel_id ∷ [])
            (range_from t.pool.channel_id left)
        ∙ ap (λ n. channel_ids (items (queue_of b s.pool)) ++ s.pool.channel_id ∷ range_from n left)
            (f.next_id ∙ omega arith);
    kind = λ h. g.kind (f.kind h);
    other_queue = g.other_queue ∙ f.other_queue;
    next_id = omega (arith, f.next_id, g.next_id);
    config = g.config ∙ f.config;
  }

  put_new_lem :
      (b : Bool) (ch : PooledChannel) (s t : Pools Queue C) {err : Option PoolError}
      → put_new out conns b ch s ≡ some (err, t)
      → (err ≡ none)
        × (items (queue_of b t.pool) ≡ items (queue_of b s.pool) ++ ch ∷ [])
        × (queue_of (not b) t.pool ≡ queue_of (not b) s.pool)
        × (t.pool.channel_id ≡ s.pool.channel_id + 1)
        × (t.pool.config ≡ s.pool.config)
  unfolding put_new modify_channels run_ops
  put_new_lem true ch s t e =
      let p = law.accepts s.pool.ack_channels ch in
      let q = law.puts s.pool.ack_channels ch in
      (ground arith, ground arith, ground arith, ground arith, ground arith)
  put_new_lem false ch s t e =
      let p = law.accepts s.pool.channels ch in
      let q = law.puts s.pool.channels ch in
      (ground arith, ground arith, ground arith, ground arith, ground arith)

  same_queue : (b : Bool) (s t : Pools Queue C) → Kept s t → queue_of b t.pool ≡ queue_of b s.pool
  same_queue true s t k = k.ack_channels
  same_queue false s t k = k.channels

  put_new-Filled :
      (b : Bool) (ch : PooledChannel) (s t u : Pools Queue C) {err : Option PoolError}
      → Kept s t
      → MadeFor s.pool.channel_id b (created ch)
      → put_new out conns b ch t ≡ some (err, u)
      → Filled b 1 s u
  put_new-Filled b ch s t u k m e =
      let (_, put, kept_other, next, same) = put_new_lem b ch t u e in
      let now : items (queue_of b u.pool) ≡ items (queue_of b s.pool) ++ ch ∷ [] =
        put ∙ ap (λ q. items q ++ ch ∷ []) (same_queue b s t k) in
      record {
        ids =
            ap channel_ids now
            ∙ channel_ids-append (items (queue_of b s.pool)) ch
            ∙ ap (λ n. channel_ids (items (queue_of b s.pool)) ++ n ∷ []) m.0;
        kind = λ h.
            subst (AllAckable b) (sym now)
              (AllAckable-append b (items (queue_of b s.pool)) ch h m.1);
        other_queue = kept_other ∙ same_queue (not b) s t k;
        next_id = next ∙ ap (λ n. n + 1) k.channel_id;
        config = same ∙ k.config;
      }

  on_filled-Filled :
      (b : Bool) (left : ℕ) (made : Created) (s t u : Pools Queue C)
      (again : M (Pools Queue C) Bool)
      → Kept s t
      → MadeFor s.pool.channel_id b made
      → ((v : Pools Queue C) → again v ≡ some (true, u) → Filled b left v u)
      → on_filled out conns b made again t ≡ some (true, u)
      → Filled b (suc left) s u
  unfolding on_filled
  on_filled-Filled b left (not_created x) s t u again k m rest r =
      let (_, v, _, w) = then-some (give_up out conns b) _ t r in
      let never : false ≡ true = (pure-some w).0 in cc
  on_filled-Filled b left (created ch) s t u again k m rest r =
      let (err, v, q, w) = bind-some (put_new out conns b ch) _ t r in
      Filled-trans b left s v u (put_new-Filled b ch s t v k m q)
        (rest v (sym (maybe-none _ _ v (put_new_lem b ch t v q).0) ∙ w))

  fill-Filled :
      (b : Bool) (left : ℕ) (s u : Pools Queue C)
      → fill out conns b left s ≡ some (true, u)
      → Filled b left s u
  unfolding fill
  fill-Filled b zero s u e =
      let same = (pure-some e).1 in
      subst (Filled b 0 s) same (record {
        ids = sym (append-nil _);
        kind = λ h. h;
        other_queue = refl;
        next_id = omega arith;
        config = refl;
      })
  fill-Filled b (suc left) s u e =
      let (made, t, q, r) =
        bind-some (create_channel_host out conns 4 s.pool.channel_id b) _ s (get-bind _ e) in
      on_filled-Filled b left made s t u (fill out conns b left)
        ((create_channel_host-Kept out conns {u = s} 4 s.pool.channel_id b).at s made t q
          (Kept-refl s))
        ((create_channel_host-MadeFor out conns 4 s.pool.channel_id b).at s made t q)
        (λ v. fill-Filled b left v u) r

  both-Filled :
      (s v : Pools Queue C)
      → initialize_channels out conns s ≡ some (true, v)
      → (t : Pools Queue C) × Filled false s.pool.config.max_channel_count s t
        × Filled true s.pool.config.max_ack_channel_count t v
  unfolding initialize_channels
  both-Filled s v e =
      let most = s.pool.config.max_channel_count in
      let (ok, t, q, r) = bind-some (fill out conns false most) _ s (get-bind _ e) in
      elim (Bool-cases ok) [
        | inl all ↦ (
          t,
          fill-Filled false most s t (q ∙ ap (λ b. some (b, t)) all),
          fill-Filled true s.pool.config.max_ack_channel_count t v
              (sym (branch-true _ _ t all) ∙ r),
        )
        | inr few ↦
            let never : false ≡ true = (pure-some (sym (branch-false _ _ t few) ∙ r)).0 in cc
      ]

  -- Initialize goes on with the pool as it was, once the connections are there.
  goes_on :
      (next : M (Pools Queue C) (Option PoolError)) (s u : Pools Queue C) (b : Bool)
      (r : Option (Option PoolError × C))
      → (if b then next s else elim r [
        | none ↦ none
        | some (err, cs) ↦ elim err [
          | some e ↦ some (some e, record s { connections = cs })
          | none ↦ next (record s { connections = cs })
        ]
      ])
        ≡ some (none, u)
      → (v : Pools Queue C) × (v.pool ≡ s.pool) × (next v ≡ some (none, u))
  goes_on next s u true r e = (s, refl, e)
  goes_on next s u false none e = cc
  goes_on next s u false (some (some x, cs)) e = cc
  goes_on next s u false (some (none, cs)) e = (record s { connections = cs }, refl, e)

  marked :
      (t u : Pools Queue C) {r : Option PoolError}
      → (modify_channels (λ p. record p { initialized = true }) >> pure none) t ≡ some (r, u)
      → u.pool ≡ record t.pool { initialized = true }
  unfolding run_ops modify_channels
  marked t u e = ground arith

  both-IsFilled :
      (v m t u : Pools Queue C)
      → v.pool.channel_id ≡ 0
      → items v.pool.channels ≡ []
      → items v.pool.ack_channels ≡ []
      → Filled false v.pool.config.max_channel_count v m
      → Filled true v.pool.config.max_ack_channel_count m t
      → u.pool ≡ record t.pool { initialized = true }
      → IsFilled items v.pool.config u
  both-IsFilled v m t u first none_yet no_acks f g last =
      let most = v.pool.config.max_channel_count in
      let acks = v.pool.config.max_ack_channel_count in
      let plain : u.pool.channels ≡ m.pool.channels =
        ap (λ (p : ChannelPool Queue). p.channels) last ∙ g.other_queue in
      let ackable : u.pool.ack_channels ≡ t.pool.ack_channels =
        ap (λ (p : ChannelPool Queue). p.ack_channels) last in
      let no_acks' : items m.pool.ack_channels ≡ [] = ap items f.other_queue ∙ no_acks in
      let next : m.pool.channel_id ≡ most = f.next_id ∙ ap (λ n. n + most) first ∙ omega arith in
      record {
        initialized = ap (λ (p : ChannelPool Queue). p.initialized) last;
        plain_ids =
            ap (λ q. channel_ids (items q)) plain
            ∙ f.ids
            ∙ ap₂ (λ l n. channel_ids l ++ range_from n most) none_yet first;
        ack_ids =
            ap (λ q. channel_ids (items q)) ackable
            ∙ g.ids
            ∙ ap₂ (λ l n. channel_ids l ++ range_from n acks) no_acks' next;
        plain =
            subst (λ q. AllAckable false (items q)) (sym plain)
              (f.kind (subst (AllAckable false) (sym none_yet) tt));
        acks =
            subst (λ q. AllAckable true (items q)) (sym ackable)
              (g.kind (subst (AllAckable true) (sym no_acks') tt));
      }

  initialize_once-IsFilled :
      (v u : Pools Queue C)
      → v.pool.initialized ≡ false
      → v.pool.channel_id ≡ 0
      → items v.pool.channels ≡ []
      → items v.pool.ack_channels ≡ []
      → initialize_once out conns v ≡ some (none, u)
      → IsFilled items v.pool.config u
  unfolding initialize_once
  initialize_once-IsFilled v u off first none_yet no_acks e =
      let r₁ = sym (branch-false _ _ v off) ∙ get-bind _ e in
      let (ok, t, q, r₂) = bind-some (initialize_channels out conns) _ v r₁ in
      elim (Bool-cases ok) [
        | inl all ↦
            let (m, f, g) = both-Filled v t (q ∙ ap (λ b. some (b, t)) all) in
            both-IsFilled v m t u first none_yet no_acks f g
              (marked t u (sym (branch-true _ _ t all) ∙ r₂))
        | inr few ↦
            let never : some channels_failed ≡ none =
              (pure-some (sym (branch-false _ _ t few) ∙ r₂)).0 in
            cc
      ]

  -- Initialize of a pool that is new, when it returns without an error: the pool is filled as
  -- it is configured.
  pub initialize_pool-IsFilled :
      (s u : Pools Queue C)
      → s.pool.initialized ≡ false
      → s.pool.channel_id ≡ 0
      → items s.pool.channels ≡ []
      → items s.pool.ack_channels ≡ []
      → initialize_pool out conns s ≡ some (none, u)
      → IsFilled items s.pool.config u
  unfolding initialize_pool initialize_connections_if
  initialize_pool-IsFilled s u new first none_yet no_acks e =
      let (v, pool, r) =
        goes_on (initialize_once out conns) s u (conns.is_initialized s.connections)
          (conns.initialize_connections s.connections) e in
      subst (λ (p : ChannelPool Queue). IsFilled items p.config u) pool
        (initialize_once-IsFilled v u (ap (λ (p : ChannelPool Queue). p.initialized) pool ∙ new)
          (ap (λ (p : ChannelPool Queue). p.channel_id) pool ∙ first)
          (ap (λ (p : ChannelPool Queue). items p.channels) pool ∙ none_yet)
          (ap (λ (p : ChannelPool Queue). items p.ack_channels) pool ∙ no_acks) r)
