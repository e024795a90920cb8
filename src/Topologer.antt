-- ===== src/Topologer.antt =====
-- v2/pkg/tcr/topologer.go. Each operation takes a transient channel, makes one request on it and
-- closes it. `fuel` bounds the rounds in which a channel is sought.
pub mod Build
use turbocookedrabbit.Pool.Channels.{get_transient_channel}
use turbocookedrabbit.State.{Sys, act, ask}
use turbocookedrabbit.Config.{Table, text}
use turbocookedrabbit.Amqp.{
  Env, Error, TopologyCall, exchange_bind, exchange_declare_passive, queue_bind,
  queue_declare_passive, exchange_declare, exchange_delete, exchange_unbind, queue_declare,
  queue_delete, queue_purge, queue_unbind, purge_of_no_queues, requested, channel_closed,
}
use turbocookedrabbit.Topology.{
  Exchange, ExchangeBinding, QueueBinding, QueueConfig, TopologyConfig,
}
use turbocookedrabbit.Base.{
  ℕ, Option, String, Bool, List, M, if◌then◌else◌, is_some, str_eq, false, pure, ◌&&◌, ◌>>=◌,
  branch, none, not, some, true, ◌>>◌, ◌∷◌, [], maybe, ◌+◌,
}

abbrev pub queue_type_quorum : String
queue_type_quorum = "quorum"

-- What CreateQueueFromConfig makes of a queue's entry, which it writes back into the entry.
unfoldable pub normalize_queue : QueueConfig → QueueConfig
normalize_queue q =
    if str_eq q.type queue_type_quorum
    then record q {
      exclusive = false;
      durable = true;
      no_wait = false;
      auto_delete = false;
      args = if is_some q.args then q.args else some (("x-queue-type", text q.type) ∷ []);
    }
    else q

unfoldable pub declare_exchange_call : Exchange → TopologyCall
declare_exchange_call x =
    if x.passive_declare
    then exchange_declare_passive x.name x.type x.durable x.auto_delete x.internal_only x.no_wait
        x.args
    else exchange_declare x.name x.type x.durable x.auto_delete x.internal_only x.no_wait x.args

unfoldable pub declare_queue_call : QueueConfig → TopologyCall
declare_queue_call q =
    if q.passive_declare
    then queue_declare_passive q.name q.durable q.auto_delete q.exclusive q.no_wait q.args
    else queue_declare q.name q.durable q.auto_delete q.exclusive q.no_wait q.args

unfoldable pub bind_queue_call : QueueBinding → TopologyCall
bind_queue_call b = queue_bind b.queue_name b.routing_key b.exchange_name b.no_wait b.args

unfoldable pub bind_exchange_call : ExchangeBinding → TopologyCall
bind_exchange_call b =
    exchange_bind b.exchange_name b.routing_key b.parent_exchange_name b.no_wait b.args

-- `err != nil && !ignoreErrors`.
unfoldable pub stops : Option Error → Bool → Bool
stops err ignore_errors = is_some err && not ignore_errors

module _ {Queue : Type 0} (env : Env Queue) where
  -- One request over a transient channel; the deferred Close comes last.
  unfoldable pub request : ℕ → TopologyCall → M (Sys Queue) (ℕ × Option Error)
  request fuel call = do
    k ← get_transient_channel env fuel false
    act (requested k call)
    answer ← ask (λ n. env.topology n k call)
    act (channel_closed k)
    pure answer

  unfoldable pub request_error : ℕ → TopologyCall → M (Sys Queue) (Option Error)
  request_error fuel call = do answer ← request fuel call; pure answer.1

  unfoldable pub create_exchange :
      ℕ → String → String → Bool → Bool → Bool → Bool → Bool → Table → M (Sys Queue) (Option Error)
  create_exchange fuel name type passive_declare durable auto_delete internal no_wait args =
      request_error fuel (
        if passive_declare
        then exchange_declare_passive name type durable auto_delete internal no_wait args
        else exchange_declare name type durable auto_delete internal no_wait args)

  unfoldable pub create_exchange_from_config : ℕ → Exchange → M (Sys Queue) (Option Error)
  create_exchange_from_config fuel x = request_error fuel (declare_exchange_call x)

  unfoldable pub exchange_bind_ : ℕ → ExchangeBinding → M (Sys Queue) (Option Error)
  exchange_bind_ fuel b = request_error fuel (bind_exchange_call b)

  unfoldable pub exchange_delete_ : ℕ → String → Bool → Bool → M (Sys Queue) (Option Error)
  exchange_delete_ fuel name if_unused no_wait =
      request_error fuel (exchange_delete name if_unused no_wait)

  unfoldable pub exchange_unbind_ :
      ℕ → String → String → String → Bool → Table → M (Sys Queue) (Option Error)
  exchange_unbind_ fuel name routing_key parent no_wait args =
      request_error fuel (exchange_unbind name routing_key parent no_wait args)

  unfoldable pub create_queue :
      ℕ → String → Bool → Bool → Bool → Bool → Bool → Table → M (Sys Queue) (Option Error)
  create_queue fuel name passive_declare durable auto_delete exclusive no_wait args =
      request_error fuel (
        if passive_declare
        then queue_declare_passive name durable auto_delete exclusive no_wait args
        else queue_declare name durable auto_delete exclusive no_wait args)

  unfoldable pub create_queue_from_config : ℕ → QueueConfig → M (Sys Queue) (Option Error)
  create_queue_from_config fuel q = request_error fuel (declare_queue_call (normalize_queue q))

  unfoldable pub queue_delete_ : ℕ → String → Bool → Bool → Bool → M (Sys Queue) (ℕ × Option Error)
  queue_delete_ fuel name if_unused if_empty no_wait =
      request fuel (queue_delete name if_unused if_empty no_wait)

  unfoldable pub queue_bind_ : ℕ → QueueBinding → M (Sys Queue) (Option Error)
  queue_bind_ fuel b = request_error fuel (bind_queue_call b)

  unfoldable pub unbind_queue : ℕ → String → String → String → Table → M (Sys Queue) (Option Error)
  unbind_queue fuel name routing_key exchange args =
      request_error fuel (queue_unbind name routing_key exchange args)

  unfoldable pub purge_queue : ℕ → String → Bool → M (Sys Queue) (ℕ × Option Error)
  purge_queue fuel name no_wait = request fuel (queue_purge name no_wait)

  -- The loop of PurgeQueues, with the running total.
  unfoldable pub purge_from : ℕ → ℕ → List String → Bool → M (Sys Queue) (ℕ × Option Error)
  purge_from fuel total [] no_wait = pure (total, none)
  purge_from fuel total (name ∷ names) no_wait = do
    (count, err) ← purge_queue fuel name no_wait
    maybe err (purge_from fuel (total + count) names no_wait) (λ e. pure (total, some e))

  unfoldable pub purge_queues : ℕ → List String → Bool → M (Sys Queue) (ℕ × Option Error)
  purge_queues fuel [] no_wait = pure (0, some purge_of_no_queues)
  purge_queues fuel (name ∷ names) no_wait = purge_from fuel 0 (name ∷ names) no_wait

  -- The loop that the four building methods share, over their own elements.
  unfoldable pub build_each :
      {A : Type 0}
      → (A → M (Sys Queue) (Option Error))
      → Bool
      → List A
      → M (Sys Queue) (Option Error)
  build_each create ignore_errors [] = pure none
  build_each create ignore_errors (x ∷ xs) = do
    err ← create x
    branch (stops err ignore_errors) (pure err) (build_each create ignore_errors xs)

  unfoldable pub build_exchanges : ℕ → List Exchange → Bool → M (Sys Queue) (Option Error)
  build_exchanges fuel xs ignore_errors =
      build_each (create_exchange_from_config fuel) ignore_errors xs

  unfoldable pub build_queues : ℕ → List QueueConfig → Bool → M (Sys Queue) (Option Error)
  build_queues fuel qs ignore_errors = build_each (create_queue_from_config fuel) ignore_errors qs

  unfoldable pub bind_queues : ℕ → List QueueBinding → Bool → M (Sys Queue) (Option Error)
  bind_queues fuel bs ignore_errors = build_each (queue_bind_ fuel) ignore_errors bs

  unfoldable pub bind_exchanges : ℕ → List ExchangeBinding → Bool → M (Sys Queue) (Option Error)
  bind_exchanges fuel bs ignore_errors = build_each (exchange_bind_ fuel) ignore_errors bs

  unfoldable pub build_topology : ℕ → TopologyConfig → Bool → M (Sys Queue) (Option Error)
  build_topology fuel config ignore_errors = do
    err ← build_exchanges fuel config.exchanges ignore_errors
    branch (stops err ignore_errors) (pure err) (do
      err ← build_queues fuel config.queues ignore_errors
      branch (stops err ignore_errors) (pure err) (do
        err ← bind_queues fuel config.queue_bindings ignore_errors
        branch (stops err ignore_errors) (pure err) (do
          err ← bind_exchanges fuel config.exchange_bindings ignore_errors
          branch (stops err ignore_errors) (pure err) (pure none))))
