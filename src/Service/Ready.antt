-- ===== src/Service/Ready.antt =====
-- What a new service can do.
use turbocookedrabbit.Letter.{Letter}
use mathlib.Core.List.Perm
use mathlib.Core.List.{Perm}
use mathlib.Core.Option
use turbocookedrabbit.Base.{Option, List}
