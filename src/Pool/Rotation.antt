-- ===== src/Pool/Rotation.antt =====
-- The channel cache as a ring: what a borrower that takes the oldest entry and returns it at the
-- end makes of it.
use mathlib.Core.List.{Perm, perm_middle, append-nil}
use mathlib.Core.List.Perm
use turbocookedrabbit.Base.{true, List, [], ◌∷◌, ◌++◌, ◌≡◌, refl, ap}
use turbocookedrabbit.State.{ChannelHost}
use turbocookedrabbit.Pool.Cache.{ids}

-- The second list is the first one, its head moved to the end some number of times.
pub data Rotated {ℓ} {A : Type ℓ} : List A → List A → Type ℓ where
  same : {xs ys : List A} → xs ≡ ys → Rotated xs ys
  turn : (x : A) (xs : List A) {ys : List A} → Rotated (xs ++ x ∷ []) ys → Rotated (x ∷ xs) ys

pub Rotated-trans {ℓ} :
    {A : Type ℓ} {xs ys zs : List A} → Rotated xs ys → Rotated ys zs → Rotated xs zs
Rotated-trans {zs = zs} (same e) q = rw e q
Rotated-trans (turn x xs p) q = turn x xs (Rotated-trans p q)

pub Rotated-perm {ℓ} : {A : Type ℓ} {xs ys : List A} → Rotated xs ys → Perm xs ys
Rotated-perm (same {xs} e) = rw (← e) (Perm.refl xs)
Rotated-perm (turn x xs p) =
    Perm.trans (rw append-nil at (Perm.symm (perm_middle {a = x} xs []))) (Rotated-perm p)

-- Every entry of the cache is a managed channel.
abbrev pub AllCached : List ChannelHost → Type 0
AllCached [] = Unit {0}
AllCached (ch ∷ chs) = (ch.cached_channel ≡ true) × AllCached chs

pub AllCached-append :
    (chs : List ChannelHost) (ch : ChannelHost)
    → AllCached chs
    → ch.cached_channel ≡ true
    → AllCached (chs ++ ch ∷ [])
AllCached-append [] ch h c = (c, tt)
AllCached-append (x ∷ chs) ch h c = (h.0, AllCached-append chs ch h.1 c)

pub ids-append :
    (chs : List ChannelHost) (ch : ChannelHost) → ids (chs ++ ch ∷ []) ≡ ids chs ++ ch.id ∷ []
ids-append [] ch = refl
ids-append (x ∷ chs) ch = ap (◌∷◌ x.id) (ids-append chs ch)
