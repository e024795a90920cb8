-- ===== src/Pool/Startup.antt =====
-- What the construction of a pool leaves in its channel cache.
use turbocookedrabbit.Pool.Frame.Hosts.{connect_with_error_handler-Same}
use turbocookedrabbit.Pool.Frame.Connections.{
  set_connections-Same, modify_pool-Same, handle_error-Same, create_cache_channel-Same,
}
use turbocookedrabbit.Config.{TlsConfig, PoolConfig}
use turbocookedrabbit.State.{ChannelHost, Sys, modify_pool, sys_ops}
use turbocookedrabbit.Amqp.{Env, Error, initialization_failed}
use turbocookedrabbit.Pool.Lifecycle.{
  check_pool_config, create_channels, create_connection, create_connections, initialize_connections,
  new_connection_pool_with_handlers, new_pool, set_pool,
}
use turbocookedrabbit.Pool.Channels.{create_cache_channel, create_on, on_got, send_channel}
use turbocookedrabbit.Pool.{Got, got, failed}
use turbocookedrabbit.Host.{new_channel_host, new_connection_host, connect}
use turbocookedrabbit.Pool.Cache.{ids, make_channel-Renewed, send_channel_appends}
use turbocookedrabbit.Pool.Rotation.{AllCached, AllCached-append, ids-append}
use turbocookedrabbit.Pool.Frame.{Same, Same-refl, set_host-Same}
use turbocookedrabbit.Base.{
  ℕ, zero, suc, none, some, Option, Gives, M, Gives-bind, Gives-halt, Keeps, true, ◌≡◌,
  Gives-bind_with, Gives-branch, Keeps-bind, Keeps-pure, String, [], ◌++◌, Gives-maybe, Gives-pure,
  Keeps-branch, Keeps-get, range_from, Gives-then, Keeps-maybe, Keeps-then, false, pure-some,
  then-some, ap, subst, bind-some, sym, get, ◌∙◌, append-nil, refl, ◌∷◌, append_assoc, Bool,
  Option-cases, branch, inl, ◌>>◌, maybe-none, pure, branch-true, inr, branch-false, if◌then◌else◌,
  maybe-some, arith,
}

abbrev MadeWith : ℕ → Option ChannelHost → Type 0
MadeWith id none = Unit {0}
MadeWith id (some ch) = (ch.id ≡ id) × (ch.cached_channel ≡ true)

module _ {Queue : Type 0} (env : Env Queue) where
  new_channel_host-Gives :
      (i id c : ℕ) → Gives (λ made. MadeWith id made.1) (new_channel_host env i id c true true)
  unfolding new_channel_host
  new_channel_host-Gives i id c = Gives-bind _ λ host. Gives-bind _ λ gone.
      Gives-branch _ (Gives-pure _ tt) (
        Gives-bind_with (make_channel-Renewed env _)
          λ made h. Gives-maybe _ (λ _. Gives-pure _ (h.id, h.cached)) (λ e _. Gives-pure _ tt))

  create_on-Gives :
      (id i : ℕ) (again : M (Sys Queue) ChannelHost)
      → Gives (λ ch. MadeWith id (some ch)) again
      → Gives (λ ch. MadeWith id (some ch)) (create_on env id i again)
  unfolding create_on
  create_on-Gives id i again h = Gives-bind _ λ host.
      Gives-bind_with (new_channel_host-Gives i id _) λ made k.
        Gives-maybe _
          (λ _.
            Gives-maybe _ (λ _. Gives-halt)
              (λ ch q. Gives-then _ (Gives-pure _ (subst (MadeWith id) q k))))
          (λ e _. Gives-then _ (Gives-then _ h))

  create_cache_channel-Gives :
      (fuel id : ℕ) → Gives (λ ch. MadeWith id (some ch)) (create_cache_channel env fuel id)
  unfolding create_cache_channel on_got
  create_cache_channel-Gives zero id = Gives-halt
  create_cache_channel-Gives (suc fuel) id =
      Gives-bind _ λ answer. on_answer answer _ (create_cache_channel-Gives fuel id)
    where
      on_answer :
          (answer : Got) (again : M (Sys Queue) ChannelHost)
          → Gives (λ ch. MadeWith id (some ch)) again
          → Gives
              (λ ch. MadeWith id (some ch))
              (on_got env answer (λ i. create_on env id i again) again)
      on_answer (got i) again h = create_on-Gives id i again h
      on_answer (failed e) again h = Gives-then _ h

  create_channels_lem :
      (fuel i left : ℕ) (s : Sys Queue) {a : Unit {0}} {s' : Sys Queue}
      → AllCached s.pool.channels
      → create_channels env fuel i left s ≡ some (a, s')
      → (ids s'.pool.channels ≡ ids s.pool.channels ++ range_from i left)
        × AllCached s'.pool.channels
  unfolding create_channels
  create_channels_lem fuel i zero s h e =
      let same = (pure-some e).1 in
      (
        ap (λ (x : Sys Queue). ids x.pool.channels) (sym same) ∙ sym (append-nil _),
        subst (λ (x : Sys Queue). AllCached x.pool.channels) same h,
      )
  create_channels_lem fuel i (suc left) s {a} {s'} h e =
      let (ch, t, q, r) = bind-some (create_cache_channel env fuel i) _ s e in
      let (_, u, q', r') = then-some (send_channel ch) _ t r in
      let frame = (create_cache_channel-Same env fuel i).at s ch t q (Same-refl s) in
      let (new, cached) = (create_cache_channel-Gives fuel i).at s ch t q in
      let put = (send_channel_appends ch t q').0 in
      let all : AllCached u.pool.channels =
        subst AllCached (ap (λ l. l ++ ch ∷ []) (sym frame.channels) ∙ sym put)
          (AllCached-append s.pool.channels ch h cached) in
      let here : ids u.pool.channels ≡ ids s.pool.channels ++ i ∷ [] =
        ap ids (put ∙ ap (λ l. l ++ ch ∷ []) frame.channels)
        ∙ ids-append s.pool.channels ch
        ∙ ap (λ n. ids s.pool.channels ++ n ∷ []) new in
      let (more, cached') = create_channels_lem fuel (suc i) left u all r' in
      (
        more
            ∙ ap (λ l. l ++ range_from (suc i) left) here
            ∙ append_assoc (ids s.pool.channels) (i ∷ []) (range_from (suc i) left),
        cached',
      )

module _ {Queue : Type 0} (env : Env Queue) {u : Sys Queue} where
  new_connection_host-Same :
      (uri name : String) (i heartbeat timeout : ℕ) (tls : Option TlsConfig)
      → Keeps (Same u) (new_connection_host env uri name i heartbeat timeout tls)
  unfolding new_connection_host connect
  new_connection_host-Same uri name i heartbeat timeout tls =
      Keeps-then (set_host-Same _ _)
        (Keeps-bind (connect_with_error_handler-Same env _ i) λ ok. Keeps-pure _)

  create_connection-Same : Keeps (Same u) (create_connection env)
  unfolding create_connection
  create_connection-Same = Keeps-bind Keeps-get λ s.
      Keeps-bind (new_connection_host-Same _ _ _ _ _ _) λ err.
        Keeps-maybe err
          (Keeps-bind Keeps-get λ t. Keeps-then (set_connections-Same _) (
            Keeps-maybe _ (Keeps-then (modify_pool-Same _ (λ p. (refl, refl))) (Keeps-pure true))
              (λ e. Keeps-then (handle_error-Same e) (Keeps-pure false))))
          (λ e. Keeps-then (handle_error-Same e) (Keeps-pure false))

  create_connections-Same : (left : ℕ) → Keeps (Same u) (create_connections env left)
  unfolding create_connections
  create_connections-Same zero = Keeps-pure true
  create_connections-Same (suc left) =
      Keeps-bind create_connection-Same
        λ ok. Keeps-branch ok (create_connections-Same left) (Keeps-pure false)

module _ {Queue : Type 0} (env : Env Queue) where
  filled :
      (fuel n : ℕ) (ok : Bool) (s : Sys Queue) {s' : Sys Queue}
      → s.pool.channels ≡ []
      → branch ok (create_channels env fuel 0 n >> pure true) (pure false) s ≡ some (true, s')
      → (ids s'.pool.channels ≡ range_from 0 n) × AllCached s'.pool.channels
  filled fuel n true s {s'} h e =
      let (_, t, q, r) =
        then-some (create_channels env fuel 0 n) _ s (sym (branch-true _ _ s refl) ∙ e) in
      let (order, cached) = create_channels_lem env fuel 0 n s (subst AllCached (sym h) tt) q in
      subst (λ (x : Sys Queue). (ids x.pool.channels ≡ range_from 0 n) × AllCached x.pool.channels)
        (pure-some r).1 (order ∙ ap (λ l. ids l ++ range_from 0 n) h, cached)
  filled fuel n false s h e = absurd (never (pure-some (sym (branch-false _ _ s refl) ∙ e)).0)
    where
      never : ◌≡◌ {A = Bool} false true → ⊥
      never k = cc

  got_state : {t s₁ t₁ : Sys Queue} → get t ≡ some (s₁, t₁) → (s₁ ≡ t) × (t₁ ≡ t)
  unfolding get
  got_state e = (cc, cc)

  initialize_connections_lem :
      (fuel : ℕ) (s : Sys Queue) {s' : Sys Queue}
      → s.pool.channels ≡ []
      → initialize_connections env fuel s ≡ some (true, s')
      → (ids s'.pool.channels ≡ range_from 0 s.pool.config.max_cache_channel_count)
        × AllCached s'.pool.channels
  unfolding initialize_connections
  initialize_connections_lem fuel s {s'} h e =
      let (a, t, q, r) = then-some (modify_pool _) _ s e in
      let (s₁, t₁, q₁, r₁) = bind-some get _ t r in
      let (ok, t₂, q₂, r₂) =
        bind-some (create_connections env s₁.pool.config.max_connection_count) _ t₁ r₁ in
      let start = (modify_pool-Same _ (λ p. (refl, refl))).at s a t q (Same-refl s) in
      let (same₁, same₂) = got_state q₁ in
      let kept =
        (create_connections-Same env s₁.pool.config.max_connection_count).at t₁ ok t₂ q₂
          (Same-refl t₁) in
      let none_yet : t₂.pool.channels ≡ [] =
        kept.channels ∙ ap (λ (x : Sys Queue). x.pool.channels) same₂ ∙ start.channels ∙ h in
      let (order, cached) = filled fuel s₁.pool.config.max_cache_channel_count ok t₂ none_yet r₂ in
      (
        order
            ∙ ap (λ (c : PoolConfig). range_from 0 c.max_cache_channel_count)
                (ap (λ (x : Sys Queue). x.pool.config) same₁ ∙ start.config),
        cached,
      )

  no_error : {x : Error} → ◌≡◌ {A = Option Error} (some x) none → ⊥
  no_error k = cc

  set_lem :
      (config : PoolConfig) (eh uh : Bool) (s : Sys Queue) {a : Unit {0}} {t : Sys Queue}
      → set_pool env (new_pool env config eh uh) s ≡ some (a, t)
      → (t.pool.channels ≡ []) × (t.pool.config ≡ config)
  unfolding set_pool new_pool sys_ops
  set_lem config eh uh s e = ground arith

  built :
      (fuel : ℕ) (config : PoolConfig) (ok : Bool) (t u : Sys Queue) {s' : Sys Queue}
      → t.pool.channels ≡ []
      → t.pool.config ≡ config
      → initialize_connections env fuel t ≡ some (ok, u)
      → pure (if ok then none else some initialization_failed) u ≡ some (none, s')
      → (ids s'.pool.channels ≡ range_from 0 config.max_cache_channel_count)
        × AllCached s'.pool.channels
  built fuel config true t u h c q r =
      let (order, cached) = initialize_connections_lem fuel t h q in
      subst
        (λ (x : Sys Queue).
          (ids x.pool.channels ≡ range_from 0 config.max_cache_channel_count)
          × AllCached x.pool.channels)
        (pure-some r).1
        (order ∙ ap (λ (k : PoolConfig). range_from 0 k.max_cache_channel_count) c, cached)
  built fuel config false t u h c q r = absurd (no_error (pure-some r).0)

  -- A pool that is built without an error has in its cache the channel hosts 0, 1, … in this order,
  -- as many as MaxCacheChannelCount says, all of them managed; its settings passed the checks.
  pub new_connection_pool_with_handlers-filled :
      (fuel : ℕ) (config : PoolConfig) (error_handler unhealthy_handler : Bool) (s s' : Sys Queue)
      → new_connection_pool_with_handlers env fuel config error_handler unhealthy_handler s
        ≡ some (none, s')
      → (check_pool_config config ≡ none)
        × (ids s'.pool.channels ≡ range_from 0 config.max_cache_channel_count)
        × AllCached s'.pool.channels
  unfolding new_connection_pool_with_handlers
  new_connection_pool_with_handlers-filled fuel config eh uh s s' e =
      elim (Option-cases (check_pool_config config)) [
        | inl good ↦
            let (a, t, q, r) = then-some (set_pool env _) _ s (sym (maybe-none _ _ s good) ∙ e) in
            let (ok, u, q', r') = bind-some (initialize_connections env fuel) _ t r in
            let (none_yet, same) = set_lem config eh uh s q in
            let (order, cached) = built fuel config ok t u none_yet same q' r' in
            (good, order, cached)
        | inr (x, bad) ↦ absurd (no_error (pure-some (sym (maybe-some _ _ s bad) ∙ e)).0)
      ]
