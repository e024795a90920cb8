-- ===== src/State.antt =====
-- The state that the pool and the publisher work on: connectionhost.go's and channelhost.go's
-- structs, connectionpool.go's struct, message.go's PublishReceipt, and what the run has done.
-- A *ConnectionHost is shared by the pool's queue and by the channels made on it: hosts live in a
-- store, and a pointer is the host's ConnectionID. A *ChannelHost has one owner at a time (the
-- pool's Go channel or the caller that received it), so it is a value. Durations are nanoseconds.
use turbocookedrabbit.Base.{
  ℕ, suc, String, Bool, Option, some, List, ◌∷◌, ◌==◌, if◌then◌else◌, M, Keeps, run_ops,
}
use turbocookedrabbit.Config.{TlsConfig, PoolConfig}
use turbocookedrabbit.Letter.{Letter}
use turbocookedrabbit.Amqp.{Error, Action, Poll, received, closed, empty}

-- `connection` is none for a nil *amqp.Connection. `errors` and `blockers` name Go channels.
pub record ConnectionHost : Type 0 where
  pub connection : Option ℕ
  pub connection_id : ℕ
  pub cached_channel_count : ℕ
  pub uri : String
  pub connection_name : String
  pub heartbeat_interval : ℕ
  pub connection_timeout : ℕ
  pub tls_config : Option TlsConfig
  pub errors : ℕ
  pub blockers : ℕ

pub record ChannelHost : Type 0 where
  pub channel : Option ℕ
  pub id : ℕ
  pub connection_id : ℕ
  pub ackable : Bool
  pub cached_channel : Bool
  pub confirmations : Option ℕ
  pub errors : Option ℕ
  pub conn_host : ℕ

-- The two handlers are functions of the user; the pool calls them where they are not nil.
pub record ConnectionPool (Queue : Type 0) : Type 0 where
  pub config : PoolConfig
  pub uri : String
  pub heartbeat_interval : ℕ
  pub connection_timeout : ℕ
  pub connections : Queue
  pub channels : List ChannelHost
  pub connection_id : ℕ
  pub flagged_connections : List (ℕ × Bool)
  pub sleep_on_error_interval : ℕ
  pub error_handler : Bool
  pub unhealthy_handler : Bool

pub record PublishReceipt : Type 0 where
  pub letter_id : ℕ
  pub failed_letter : Option Letter
  pub success : Bool
  pub error : Option Error

-- `receipts` are the receipts handed to goroutines for sending, newest first.
pub record Sys (Queue : Type 0) : Type 0 where
  pub clock : ℕ
  pub log : List Action
  pub hosts : ℕ → ConnectionHost
  pub pool : ConnectionPool Queue
  pub receipts : List PublishReceipt

module _ {Queue : Type 0} where
  -- An answer of the outside; the call's number goes up.
  unfoldable pub ask : {A : Type 0} → (ℕ → A) → M (Sys Queue) A
  ask f s = some (f s.clock, record s { clock = suc s.clock })

  -- An outside call that makes something, which its number names.
  unfoldable pub ask_new : {A : Type 0} → (ℕ → A) → M (Sys Queue) (A × ℕ)
  ask_new f s = some ((f s.clock, s.clock), record s { clock = suc s.clock })

  unfoldable pub act : Action → M (Sys Queue) (Unit {0})
  act a s = some (tt, record s { log = a ∷ s.log })

  unfoldable pub host_at : ℕ → M (Sys Queue) ConnectionHost
  host_at i s = some (s.hosts i, s)

  -- A write through the pointer `i`.
  unfoldable pub set_host : ℕ → ConnectionHost → M (Sys Queue) (Unit {0})
  set_host i host s = some (tt, record s { hosts = λ j. if i == j then host else s.hosts j })

  unfoldable pub modify_pool :
      (ConnectionPool Queue → ConnectionPool Queue) → M (Sys Queue) (Unit {0})
  modify_pool f s = some (tt, record s { pool = f s.pool })

-- The branches on a receive, in the order: nothing there, closed, a value.
unfoldable pub on_poll : {S A B : Type 0} → Poll A → M S B → M S B → (A → M S B) → M S B
on_poll empty m n f s = m s
on_poll closed m n f s = n s
on_poll (received a) m n f s = f a s

-- Opens these and the monad's operations for a proof.
unfoldable pub sys_ops : Unit {0}
unfolding run_ops on_poll ask ask_new act host_at set_host modify_pool
sys_ops = tt

module _ {S : Type 0} {P : S → Type 0} where
  pub Keeps-on_poll :
      {A B : Type 0} (poll : Poll A) {m n : M S B} {f : A → M S B}
      → Keeps P m
      → Keeps P n
      → ((a : A) → Keeps P (f a))
      → Keeps P (on_poll poll m n f)
  unfolding on_poll
  Keeps-on_poll empty k l h = record { at = k.at }
  Keeps-on_poll closed k l h = record { at = l.at }
  Keeps-on_poll (received a) k l h = record { at = (h a).at }
