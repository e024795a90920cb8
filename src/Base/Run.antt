-- ===== src/Base/Run.antt =====
-- The monad of the model's stateful code. `none` means that the call has not returned: it is
-- blocked, or its loops have used up the rounds they were given.
use mathlib.Core.Path.{◌≡◌, refl, subst, ap}
use mathlib.Core.Bool.{Bool, true, false}
use mathlib.Core.Option.{Option, none, some}

abbrev pub M : Type 0 → Type 0 → Type 0
M S A = S → Option (A × S)

infixl 5 ◌>>=◌ ◌>>◌
unfoldable pub ◌>>=◌ : {S A B : Type 0} → M S A → (A → M S B) → M S B
◌>>=◌ m f s = elim (m s) [ none ↦ none | some (a, s') ↦ f a s' ]

unfoldable pub ◌>>◌ : {S A B : Type 0} → M S A → M S B → M S B
◌>>◌ m k s = elim (m s) [ none ↦ none | some (a, s') ↦ k s' ]

unfoldable pub pure : {S A : Type 0} → A → M S A
pure a s = some (a, s)

-- A call that does not return.
unfoldable pub halt : {S A : Type 0} → M S A
halt s = none

unfoldable pub get : {S : Type 0} → M S S
get s = some (s, s)

unfoldable pub modify : {S : Type 0} → (S → S) → M S (Unit {0})
modify f s = some (tt, f s)

unfoldable pub when : {S : Type 0} → Bool → M S (Unit {0}) → M S (Unit {0})
when true m s = m s
when false m s = some (tt, s)

unfoldable pub branch : {S A : Type 0} → Bool → M S A → M S A → M S A
branch true m n s = m s
branch false m n s = n s

unfoldable pub maybe : {S A B : Type 0} → Option A → M S B → (A → M S B) → M S B
maybe none m f s = m s
maybe (some a) m f s = f a s

-- Opens all of the above for a proof.
unfoldable pub run_ops : Unit {0}
unfolding ◌>>=◌ ◌>>◌ pure halt get modify when branch maybe
run_ops = tt

-- Whatever `m` does, when it returns, `P` holds if it held before.
pub record Keeps {S A : Type 0} (P : S → Type 0) (m : M S A) : Type 0 where
  pub at : (s : S) (a : A) (s' : S) → m s ≡ some (a, s') → P s → P s'

-- Inversion of a sequence that returns.
module _ {S A B : Type 0} where
  pub bind-some :
      (m : M S A) (f : A → M S B) (s : S) {b : B} {s' : S}
      → (m >>= f) s ≡ some (b, s')
      → (a : A) × (t : S) × (m s ≡ some (a, t)) × (f a t ≡ some (b, s'))
  unfolding ◌>>=◌
  bind-some m f s {b} {s'} =
      elim (m s)
        as (λ o.
          (elim o [ none ↦ none | some (a, t) ↦ f a t ]) ≡ some (b, s')
          → (a : A) × (t : S) × (o ≡ some (a, t)) × (f a t ≡ some (b, s'))) [
            | none ↦ λ e. cc
            | some (a, t) ↦ λ e. (a, t, refl, e)
          ]

  pub then-some :
      (m : M S A) (k : M S B) (s : S) {b : B} {s' : S}
      → (m >> k) s ≡ some (b, s')
      → (a : A) × (t : S) × (m s ≡ some (a, t)) × (k t ≡ some (b, s'))
  unfolding ◌>>◌
  then-some m k s {b} {s'} =
      elim (m s)
        as (λ o.
          (elim o [ none ↦ none | some (a, t) ↦ k t ]) ≡ some (b, s')
          → (a : A) × (t : S) × (o ≡ some (a, t)) × (k t ≡ some (b, s'))) [
            | none ↦ λ e. cc
            | some (a, t) ↦ λ e. (a, t, refl, e)
          ]

-- A first call that returns hands on to the rest.
pub get-bind :
    {S A : Type 0} (f : S → M S A) {s : S} {x : Option (A × S)} → (get >>= f) s ≡ x → f s s ≡ x
unfolding ◌>>=◌ get
get-bind f e = e

pub bind-value :
    {S A B : Type 0} (m : M S A) (f : A → M S B) (s : S) {a : A} {t : S}
    → m s ≡ some (a, t)
    → (m >>= f) s ≡ f a t
unfolding ◌>>=◌
bind-value m f s e = ap (λ o. elim o [ none ↦ none | some (a, t) ↦ f a t ]) e

pub then-value :
    {S A B : Type 0} (m : M S A) (n : M S B) (s : S) {a : A} {t : S}
    → m s ≡ some (a, t)
    → (m >> n) s ≡ n t
unfolding ◌>>◌
then-value m n s e = ap (λ o. elim o [ none ↦ none | some (a, t) ↦ n t ]) e

pub branch-true : {S A : Type 0} {b : Bool} (m n : M S A) (s : S) → b ≡ true → branch b m n s ≡ m s
unfolding branch
branch-true m n s e = rw e

pub branch-false :
    {S A : Type 0} {b : Bool} (m n : M S A) (s : S) → b ≡ false → branch b m n s ≡ n s
unfolding branch
branch-false m n s e = rw e

pub pure-some : {S A : Type 0} {a b : A} {s t : S} → pure a s ≡ some (b, t) → (a ≡ b) × (s ≡ t)
unfolding pure
pure-some e = (cc, cc)

pub maybe-some :
    {S A B : Type 0} {o : Option A} {a : A} (m : M S B) (f : A → M S B) (s : S)
    → o ≡ some a
    → maybe o m f s ≡ f a s
unfolding maybe
maybe-some m f s e = rw e

pub maybe-none :
    {S A B : Type 0} {o : Option A} (m : M S B) (f : A → M S B) (s : S)
    → o ≡ none
    → maybe o m f s ≡ m s
unfolding maybe
maybe-none m f s e = rw e

module _ {S : Type 0} {P : S → Type 0} where
  pub Keeps-bind :
      {A B : Type 0} {m : M S A} {f : A → M S B}
      → Keeps P m
      → ((a : A) → Keeps P (f a))
      → Keeps P (m >>= f)
  Keeps-bind {m = m} {f = f} k l = record {
    at = λ s b s' e p. let (a, t, q, r) = bind-some m f s e in (l a).at t b s' r (k.at s a t q p);
  }

  pub Keeps-then : {A B : Type 0} {m : M S A} {n : M S B} → Keeps P m → Keeps P n → Keeps P (m >> n)
  Keeps-then {m = m} {n = n} k l = record {
    at = λ s b s' e p. let (a, t, q, r) = then-some m n s e in l.at t b s' r (k.at s a t q p);
  }

  pub Keeps-pure : {A : Type 0} (a : A) → Keeps P (pure a)
  unfolding pure
  Keeps-pure a = record { at = λ s b s' e p. subst P (cc) p }

  pub Keeps-halt : {A : Type 0} → Keeps P (halt {A = A})
  unfolding halt
  Keeps-halt = record { at = λ s b s' e p. cc }

  pub Keeps-get : Keeps P get
  unfolding get
  Keeps-get = record { at = λ s b s' e p. subst P (cc) p }

  pub Keeps-modify : (f : S → S) → ((s : S) → P s → P (f s)) → Keeps P (modify f)
  unfolding modify
  Keeps-modify f h = record { at = λ s b s' e p. subst P (cc) (h s p) }

  pub Keeps-when : (b : Bool) {m : M S (Unit {0})} → Keeps P m → Keeps P (when b m)
  unfolding when
  Keeps-when true k = record { at = k.at }
  Keeps-when false k = record { at = λ s b s' e p. subst P (cc) p }

  pub Keeps-branch :
      {A : Type 0} (b : Bool) {m n : M S A} → Keeps P m → Keeps P n → Keeps P (branch b m n)
  unfolding branch
  Keeps-branch true k l = record { at = k.at }
  Keeps-branch false k l = record { at = l.at }

  pub Keeps-maybe :
      {A B : Type 0} (o : Option A) {m : M S B} {f : A → M S B}
      → Keeps P m
      → ((a : A) → Keeps P (f a))
      → Keeps P (maybe o m f)
  unfolding maybe
  Keeps-maybe none k l = record { at = k.at }
  Keeps-maybe (some a) k l = record { at = (l a).at }

pub ruleset keeps_rules = (
  Keeps-bind, Keeps-then, Keeps-pure, Keeps-halt, Keeps-get, Keeps-when, Keeps-branch, Keeps-maybe,
)

-- Whatever `m` returns satisfies `Q`.
pub record Gives {S A : Type 0} (Q : A → Type 0) (m : M S A) : Type 0 where
  pub at : (s : S) (a : A) (s' : S) → m s ≡ some (a, s') → Q a

module _ {S : Type 0} where
  pub Gives-bind_with :
      {A B : Type 0} {R : A → Type 0} {Q : B → Type 0} {m : M S A} {f : A → M S B}
      → Gives R m
      → ((a : A) → R a → Gives Q (f a))
      → Gives Q (m >>= f)
  Gives-bind_with {m = m} {f = f} k l = record {
    at = λ s b s' e. let (a, t, q, r) = bind-some m f s e in (l a (k.at s a t q)).at t b s' r;
  }

  pub Gives-bind :
      {A B : Type 0} {Q : B → Type 0} (m : M S A) {f : A → M S B}
      → ((a : A) → Gives Q (f a))
      → Gives Q (m >>= f)
  Gives-bind m {f = f} l = record {
    at = λ s b s' e. let (a, t, q, r) = bind-some m f s e in (l a).at t b s' r;
  }

  pub Gives-then :
      {A B : Type 0} {Q : B → Type 0} (m : M S A) {n : M S B} → Gives Q n → Gives Q (m >> n)
  Gives-then m {n = n} l = record {
    at = λ s b s' e. let (a, t, q, r) = then-some m n s e in l.at t b s' r;
  }

  pub Gives-pure : {A : Type 0} {Q : A → Type 0} (a : A) → Q a → Gives {S = S} Q (pure a)
  unfolding pure
  Gives-pure {Q = Q} a q = record { at = λ s b s' e. subst Q (cc) q }

  pub Gives-halt : {A : Type 0} {Q : A → Type 0} → Gives {S = S} Q halt
  unfolding halt
  Gives-halt = record { at = λ s b s' e. cc }

  pub Gives-branch :
      {A : Type 0} {Q : A → Type 0} (b : Bool) {m n : M S A}
      → Gives Q m
      → Gives Q n
      → Gives Q (branch b m n)
  unfolding branch
  Gives-branch true k l = record { at = k.at }
  Gives-branch false k l = record { at = l.at }

  -- The branch taken shows which option it was.
  pub Gives-maybe :
      {A B : Type 0} {Q : B → Type 0} (o : Option A) {m : M S B} {f : A → M S B}
      → (o ≡ none → Gives Q m)
      → ((a : A) → o ≡ some a → Gives Q (f a))
      → Gives Q (maybe o m f)
  unfolding maybe
  Gives-maybe none k l = record { at = (k refl).at }
  Gives-maybe (some a) k l = record { at = (l a refl).at }
