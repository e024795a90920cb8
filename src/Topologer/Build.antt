-- ===== src/Topologer/Build.antt =====
-- What building a topology asks the broker for, and when it stops.
use turbocookedrabbit.Pool.Frame.Connections.{get_transient_channel-Same}
use turbocookedrabbit.Pool.Channels.{get_transient_channel}
use turbocookedrabbit.Pool.Frame.{requests, Same-refl}
use turbocookedrabbit.Amqp.{Env, TopologyCall, Error}
use turbocookedrabbit.Topologer.{
  stops, request, request_error, declare_exchange_call, declare_queue_call, build_each,
  normalize_queue, bind_queue_call, bind_exchange_call, build_topology, build_exchanges,
  build_queues, bind_queues, bind_exchanges, create_exchange_from_config, create_queue_from_config,
  queue_bind_, exchange_bind_, queue_type_quorum,
}
use turbocookedrabbit.State.{Sys, sys_ops}
use turbocookedrabbit.Topology.{TopologyConfig, QueueConfig}
use turbocookedrabbit.Base.{
  ℕ, List, M, Option, map, ◌++◌, ◌∷◌, Bool, [], ◌≡◌, none, some, true, ap, bind-some, sym, false,
  subst, ◌∙◌, pure-some, append-nil, append_assoc, refl, arith, branch, pure, Bool-cases, inl,
  branch-true, subst₂, inr, branch-false, str_eq, Option-cases,
}

-- The requests of a whole configuration, in order.
abbrev pub plan : TopologyConfig → List TopologyCall
plan c =
    map declare_exchange_call c.exchanges
    ++ (map (λ q. declare_queue_call (normalize_queue q)) c.queues
        ++ (map bind_queue_call c.queue_bindings ++ map bind_exchange_call c.exchange_bindings))

-- The log keeps the newest request first.
abbrev pub rev_onto : List TopologyCall → List TopologyCall → List TopologyCall
rev_onto [] log = log
rev_onto (c ∷ cs) log = rev_onto cs (c ∷ log)

pub rev_onto-append :
    (xs ys log : List TopologyCall) → rev_onto (xs ++ ys) log ≡ rev_onto ys (rev_onto xs log)
rev_onto-append [] ys log = refl
rev_onto-append (x ∷ xs) ys log = rev_onto-append xs ys (x ∷ log)

-- From `s` to `s'` the requests of a first part of `calls` were made, in order, and no other: of
-- all of `calls`, unless `err` is an error that stops the building.
pub record Issued {Queue : Type 0} (ignore : Bool) (calls : List TopologyCall) (err : Option Error)
    (s s' : Sys Queue) : Type 0 where
  pub done : List TopologyCall
  pub rest : List TopologyCall
  pub split : calls ≡ done ++ rest
  pub asked : requests s'.log ≡ rev_onto done (requests s.log)
  pub complete : stops err ignore ≡ false → rest ≡ []

module _ {Queue : Type 0} {ignore : Bool} where
  Issued-then :
      (p q : List TopologyCall) {err err' : Option Error} {s t u : Sys Queue}
      → Issued ignore p err s t
      → stops err ignore ≡ false
      → Issued ignore q err' t u
      → Issued ignore (p ++ q) err' s u
  Issued-then p q {s = s} i e j = record {
    done = p ++ j.done;
    rest = j.rest;
    split = ap (λ l. p ++ l) j.split ∙ sym (append_assoc p j.done j.rest);
    asked =
        j.asked
        ∙ ap (rev_onto j.done) (i.asked ∙ ap (λ l. rev_onto l (requests s.log)) whole)
        ∙ sym (rev_onto-append p j.done (requests s.log));
    complete = j.complete;
  }
    where
      whole : i.done ≡ p
      whole = sym (i.split ∙ ap (λ l. i.done ++ l) (i.complete e) ∙ append-nil i.done)

  Issued-stop :
      {p : List TopologyCall} (q : List TopologyCall) {err : Option Error} {s t : Sys Queue}
      → Issued ignore p err s t
      → stops err ignore ≡ true
      → Issued ignore (p ++ q) err s t
  Issued-stop q i h = record {
    done = i.done;
    rest = i.rest ++ q;
    split = ap (λ l. l ++ q) i.split ∙ append_assoc i.done i.rest q;
    asked = i.asked;
    complete = λ e. cc;
  }

  Issued-nil : (s : Sys Queue) (err : Option Error) → Issued ignore [] err s s
  Issued-nil s err = record {
    done = [];
    rest = [];
    split = refl;
    asked = refl;
    complete = λ e. refl;
  }

  Issued-one :
      (c : TopologyCall) (err : Option Error) {s t : Sys Queue}
      → requests t.log ≡ c ∷ requests s.log
      → Issued ignore (c ∷ []) err s t
  Issued-one c err e = record {
    done = c ∷ [];
    rest = [];
    split = refl;
    asked = e;
    complete = λ _. refl;
  }

  -- One stage: it stops with its error, or the next stage follows.
  stage :
      (p q : List TopologyCall) (err' : Option Error) {err : Option Error} {s t s' : Sys Queue}
      (again : M (Sys Queue) (Option Error))
      → Issued ignore p err' s t
      → (again t ≡ some (err, s') → Issued ignore q err t s')
      → branch (stops err' ignore) (pure err') again t ≡ some (err, s')
      → Issued ignore (p ++ q) err s s'
  stage p q err' {s = s} {t = t} again i next e = elim (Bool-cases (stops err' ignore)) [
    | inl stopped ↦
        let (x, y) = pure-some (sym (branch-true (pure err') again t stopped) ∙ e) in
        subst₂ (λ r u. Issued ignore (p ++ q) r s u) x y (Issued-stop q i stopped)
    | inr on ↦ Issued-then p q i on (next (sym (branch-false (pure err') again t on) ∙ e))
  ]

last_stage :
    {Queue : Type 0} (ignore : Bool) {p : List TopologyCall} {err' err : Option Error}
    {s t s' : Sys Queue}
    → Issued ignore p err' s t
    → branch (stops err' ignore) (pure err') (pure none) t ≡ some (err, s')
    → Issued ignore p err s s'
last_stage {Queue} ignore {p} {err'} {err} {s} {t} {s'} i e =
    subst (λ l. Issued ignore l err s s') (append-nil p)
      (stage p [] err' (pure none) i
        (λ k.
          subst (λ (x : Sys Queue). Issued ignore [] err t x) (pure-some k).1 (Issued-nil t err))
        e)

module _ {Queue : Type 0} (env : Env Queue) where
  request-asks :
      (fuel : ℕ) (call : TopologyCall) (s : Sys Queue) {answer : ℕ × Option Error} {s' : Sys Queue}
      → request env fuel call s ≡ some (answer, s')
      → requests s'.log ≡ call ∷ requests s.log
  unfolding request sys_ops
  request-asks fuel call s e =
      let (k, t, q, r) = bind-some (get_transient_channel env fuel false) _ s e in
      let frame = (get_transient_channel-Same env fuel false).at s k t q (Same-refl s) in
      ground (arith, frame.asked)

  request_error-asks :
      (fuel : ℕ) (call : TopologyCall) (s : Sys Queue) {err : Option Error} {s' : Sys Queue}
      → request_error env fuel call s ≡ some (err, s')
      → requests s'.log ≡ call ∷ requests s.log
  unfolding request_error
  request_error-asks fuel call s e =
      let (answer, t, q, r) = bind-some (request env fuel call) _ s e in
      subst (λ (x : Sys Queue). requests x.log ≡ call ∷ requests s.log) (pure-some r).1
        (request-asks fuel call s q)

  module _ {A : Type 0} (create : A → M (Sys Queue) (Option Error)) (call : A → TopologyCall)
      (asks : (x : A) (s : Sys Queue) (err : Option Error) (s' : Sys Queue)
        → create x s ≡ some (err, s')
        → requests s'.log ≡ call x ∷ requests s.log) where
    build_each-Issued :
        (ignore : Bool) (xs : List A) (s : Sys Queue) {err : Option Error} {s' : Sys Queue}
        → build_each env create ignore xs s ≡ some (err, s')
        → Issued ignore (map call xs) err s s'
    unfolding build_each
    build_each-Issued ignore [] s {err} e =
        subst (λ (x : Sys Queue). Issued ignore [] err s x) (pure-some e).1 (Issued-nil s err)
    build_each-Issued ignore (x ∷ xs) s {err} {s'} e =
        let (err', t, q, r) = bind-some (create x) _ s e in
        stage (call x ∷ []) (map call xs) err' _ (Issued-one (call x) err' (asks x s err' t q))
          (λ k. build_each-Issued ignore xs t k) r

  -- BuildTopology, when it returns, has made the requests of a first part of the configuration,
  -- exchanges, queues, queue bindings and exchange bindings in this order, each once and no other.
  -- It is the whole configuration where errors are ignored, and where no error is handed back.
  pub build_topology-Issued :
      (fuel : ℕ) (config : TopologyConfig) (ignore : Bool) (s s' : Sys Queue) (err : Option Error)
      → build_topology env fuel config ignore s ≡ some (err, s')
      → Issued ignore (plan config) err s s'
  unfolding build_topology build_exchanges build_queues bind_queues bind_exchanges
  build_topology-Issued fuel config ignore s s' err e =
      let (err₁, t₁, q₁, r₁) = bind-some (build_exchanges env fuel config.exchanges ignore) _ s e in
      stage _ _ err₁ _
        (build_each-Issued (create_exchange_from_config env fuel) declare_exchange_call
          (λ x t a u k. unfold create_exchange_from_config in request_error-asks fuel _ t k) ignore
          config.exchanges s q₁)
        (λ e₁.
          let (err₂, t₂, q₂, r₂) = bind-some (build_queues env fuel config.queues ignore) _ t₁ e₁ in
          stage _ _ err₂ _
            (build_each-Issued (create_queue_from_config env fuel)
              (λ q. declare_queue_call (normalize_queue q))
              (λ x t a u k. unfold create_queue_from_config in request_error-asks fuel _ t k) ignore
              config.queues t₁ q₂)
            (λ e₂.
              let (err₃, t₃, q₃, r₃) =
                bind-some (bind_queues env fuel config.queue_bindings ignore) _ t₂ e₂ in
              stage _ _ err₃ _
                (build_each-Issued (queue_bind_ env fuel) bind_queue_call
                  (λ x t a u k. unfold queue_bind_ in request_error-asks fuel _ t k) ignore
                  config.queue_bindings t₂ q₃)
                (λ e₃.
                  let (err₄, t₄, q₄, r₄) =
                    bind-some (bind_exchanges env fuel config.exchange_bindings ignore) _ t₃ e₃ in
                  last_stage ignore
                    (build_each-Issued (exchange_bind_ env fuel) bind_exchange_call
                      (λ x t a u k. unfold exchange_bind_ in request_error-asks fuel _ t k) ignore
                      config.exchange_bindings t₃ q₄)
                    r₄)
                r₃)
            r₂)
        r₁

-- A queue entry that was written back is not changed by a second build.
pub normalize_queue_idem :
    (q : QueueConfig) → normalize_queue (normalize_queue q) ≡ normalize_queue q
unfolding normalize_queue
normalize_queue_idem q =
    ground (arith, Bool-cases (str_eq q.type queue_type_quorum), Option-cases q.args)
