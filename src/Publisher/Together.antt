-- ===== src/Publisher/Together.antt =====
-- A publish over a pool that was just built.
use turbocookedrabbit.Pool.Rotation.{Rotated-perm}
use turbocookedrabbit.Publisher.Outcomes.{publish_with_confirmation-Completed}
use turbocookedrabbit.Pool.Startup.{new_connection_pool_with_handlers-filled}
use turbocookedrabbit.Pool.Cache.{ids}
use turbocookedrabbit.Pool.Lifecycle.{new_connection_pool_with_handlers}
use turbocookedrabbit.State.{Sys}
use turbocookedrabbit.Letter.{Letter}
use turbocookedrabbit.Config.{PoolConfig}
use turbocookedrabbit.Publisher.{Publisher, publish_with_confirmation}
use turbocookedrabbit.Amqp.{Env}
use mathlib.Core.List.{Perm}
use turbocookedrabbit.Base.{ℕ, Bool, ◌≡◌, none, some, range_from, subst}

module _ {Queue : Type 0} (env : Env Queue) where
  -- A pool is built without an error, and a letter is published with confirmation over it: when the
  -- publish returns, the cache holds the channel hosts that the configuration asks for, each once,
  -- whatever went wrong with connections, channels and confirmations on the way.
  pub publish-new_pool :
      (publisher : Publisher) (fuel : ℕ) (config : PoolConfig)
      (error_handler unhealthy_handler : Bool) (letter : Letter) (timeout : ℕ) (s t s' : Sys Queue)
      → new_connection_pool_with_handlers env fuel config error_handler unhealthy_handler s
        ≡ some (none, t)
      → publish_with_confirmation env publisher fuel letter timeout t ≡ some (tt, s')
      → Perm (range_from 0 config.max_cache_channel_count) (ids s'.pool.channels)
  publish-new_pool publisher fuel config eh uh letter timeout s t s' e e' =
      let (good, order, cached) =
        new_connection_pool_with_handlers-filled env fuel config eh uh s t e in
      let (done, receipts) =
        publish_with_confirmation-Completed env publisher fuel letter timeout t s' cached e' in
      subst (λ l. Perm l (ids s'.pool.channels)) order (Rotated-perm done.ring)
