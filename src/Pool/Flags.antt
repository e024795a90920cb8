-- ===== src/Pool/Flags.antt =====
-- The flags of connections, and the flushing of a connection's errors.
use turbocookedrabbit.State.{sys_ops, Sys}
use turbocookedrabbit.Pool.{flush_errors}
use turbocookedrabbit.Amqp.{Env, closed}
use turbocookedrabbit.Pool.{flag_of, set_flag}
use turbocookedrabbit.Base.{
  [], ◌∷◌, ℕ, Bool, List, ◌≡◌, if◌then◌else◌, none, ◌==◌, arith, suc, zero, refl,
}

-- A connection reads as it was last flagged, and the others are as before.
pub flag_of-set_flag :
    (id j : ℕ) (b : Bool) (m : List (ℕ × Bool))
    → flag_of j (set_flag id b m) ≡ (if id == j then b else flag_of j m)
unfolding flag_of set_flag
flag_of-set_flag id j b [] = ground arith
flag_of-set_flag id j b ((i, c) ∷ m) = ground (arith, flag_of-set_flag id j b m)

module _ {Queue : Type 0} (env : Env Queue) where
  -- Once the Go channel of a connection's errors is closed, flushing it does not end, however many
  -- rounds it is given.
  pub flush_errors-endless :
      (fuel i : ℕ) (s : Sys Queue)
      → ((n : ℕ) → env.connection_error n (s.hosts i).errors ≡ closed)
      → flush_errors env fuel i s ≡ none
  unfolding flush_errors sys_ops
  flush_errors-endless zero i s h = refl
  flush_errors-endless (suc fuel) i s h =
      rw (h s.clock) (flush_errors-endless fuel i (record s { clock = suc s.clock }) h)
