-- ===== src/Topology.antt =====
-- v2/pkg/tcr/topology.go, and TopologyConfig of v2/pkg/tcr/configs.go.
use turbocookedrabbit.Config.{Table}
use turbocookedrabbit.Base.{List, String, Bool}

pub record Exchange : Type 0 where
  pub name : String
  pub type : String
  pub passive_declare : Bool
  pub durable : Bool
  pub auto_delete : Bool
  pub internal_only : Bool
  pub no_wait : Bool
  pub args : Table

pub record QueueConfig : Type 0 where
  pub name : String
  pub passive_declare : Bool
  pub durable : Bool
  pub auto_delete : Bool
  pub exclusive : Bool
  pub no_wait : Bool
  pub type : String
  pub args : Table

pub record QueueBinding : Type 0 where
  pub queue_name : String
  pub exchange_name : String
  pub routing_key : String
  pub no_wait : Bool
  pub args : Table

pub record ExchangeBinding : Type 0 where
  pub exchange_name : String
  pub parent_exchange_name : String
  pub routing_key : String
  pub no_wait : Bool
  pub args : Table

pub record TopologyConfig : Type 0 where
  pub exchanges : List Exchange
  pub queues : List QueueConfig
  pub queue_bindings : List QueueBinding
  pub exchange_bindings : List ExchangeBinding
