-- ===== src/Examples/Building.antt =====
-- A topology built over the broker of the examples.
use turbocookedrabbit.Examples.{run_pool, broker, system, after}
use turbocookedrabbit.Topology.{TopologyConfig, QueueConfig}
use turbocookedrabbit.Topologer.{
  build_topology, normalize_queue, build_exchanges, build_queues, bind_queues, bind_exchanges,
  build_each, create_queue_from_config, queue_bind_, request, request_error, stops,
  declare_queue_call, bind_queue_call,
}
use turbocookedrabbit.Topologer.Build.{Issued, plan, build_topology-Issued}
use turbocookedrabbit.Base.{[], ◌∷◌, refl, none, true, false}

abbrev orders : QueueConfig
orders = record {
  name = "orders";
  passive_declare = false;
  durable = false;
  auto_delete = true;
  exclusive = true;
  no_wait = true;
  type = "quorum";
  args = none;
}

abbrev topology : TopologyConfig
topology = record {
  exchanges = [];
  queues = orders ∷ [];
  queue_bindings =
      record {
        queue_name = "orders";
        exchange_name = "sales";
        routing_key = "new";
        no_wait = false;
        args = none;
      }
      ∷ [];
  exchange_bindings = [];
}

build_topology-Issued_example :
    Issued false (plan topology) none system (after (build_topology broker 3 topology false system))
unfolding run_pool build_topology build_exchanges build_queues bind_queues bind_exchanges build_each
    create_queue_from_config queue_bind_ request request_error stops declare_queue_call
    bind_queue_call normalize_queue
build_topology-Issued_example =
    build_topology-Issued broker 3 topology false system
      (after (build_topology broker 3 topology false system)) none refl
