-- ===== src/Consumer/Batch.antt =====
-- What GetBatch hands back, and what it loses.
use turbocookedrabbit.Pool.Channels.{get_transient_channel}
use turbocookedrabbit.State.{sys_ops, Sys, act}
use turbocookedrabbit.Consumer.{batch_from, get_one, get_batch}
use turbocookedrabbit.Amqp.{Env, Error, channel_closed}
use turbocookedrabbit.Base.{
  true, ℕ, ◌+◌, String, suc, List, ◌≡◌, Option, arith, ◌∷◌, none, length, some, [], ◌++◌, ◌<◌, ◌∙◌,
  ap, zero, append_assoc, refl, sym, ◌⊎◌, bind-some, inl, pure-some, append-nil, inr, add-zero,
  false, then-some, subst,
}

shift : (a b : ℕ) → a + suc b ≡ suc a + b
shift a b = omega arith

answer-cases :
    (a : Option Error × Option ℕ)
    → ((e : Error) × (a.0 ≡ some e)) ⊎ (a ≡ (none, none)) ⊎ ((d : ℕ) × (a ≡ (none, some d)))
answer-cases (some e, d) = inl (e, refl)
answer-cases (none, none) = inr (inl refl)
answer-cases (none, some d) = inr (inr (d, refl))

some-left :
    {A B : Type 0} {a b : A} {s t : B}
    → ◌≡◌ {A = Option (A × B)} (some (a, s)) (some (b, t))
    → a ≡ b
some-left e = cc

module _ {Queue : Type 0} (env : Env Queue) where
  -- The answers to the calls from number `c` on: these messages, one a call.
  abbrev pub Fetched : ℕ → ℕ → String → List ℕ → Type 0
  Fetched c k queue_name [] = Unit {0}
  Fetched c k queue_name (d ∷ ds) =
      (env.get_message c k queue_name true ≡ (none, some d)) × Fetched (suc c) k queue_name ds

  -- How the loop ends that starts at call `c` with `left` messages to go, in terms of the broker's
  -- answers: full, at the first empty answer, or at the first error.
  pub data BatchEnd (c k : ℕ) (queue_name : String) (left : ℕ) (before : List ℕ)
      (r : Option Error × List ℕ) : Type 0 where
    full :
        (ds : List ℕ)
        → Fetched c k queue_name ds
        → length ds ≡ left
        → r ≡ (none, before ++ ds)
        → BatchEnd c k queue_name left before r
    drained :
        (ds : List ℕ)
        → Fetched c k queue_name ds
        → length ds < left
        → env.get_message (c + length ds) k queue_name true ≡ (none, none)
        → r ≡ (none, before ++ ds)
        → BatchEnd c k queue_name left before r
    broken :
        (ds : List ℕ) (e : Error)
        → Fetched c k queue_name ds
        → length ds < left
        → (env.get_message (c + length ds) k queue_name true).0 ≡ some e
        → r ≡ (some e, [])
        → BatchEnd c k queue_name left before r

  -- One more answer in front.
  BatchEnd-cons :
      (c k : ℕ) (q : String) (left : ℕ) (before : List ℕ) (d : ℕ) {r : Option Error × List ℕ}
      → env.get_message c k q true ≡ (none, some d)
      → BatchEnd (suc c) k q left (before ++ d ∷ []) r
      → BatchEnd c k q (suc left) before r
  BatchEnd-cons c k q left before d a (full ds f l e) =
      full (d ∷ ds) (a, f) (omega (arith, l))
        (e ∙ ap (λ l. (none, l)) (append_assoc before (d ∷ []) ds))
  BatchEnd-cons c k q left before d a (drained ds f l g e) =
      drained (d ∷ ds) (a, f) (omega (arith, l)) (rw (shift c (length ds)) g)
        (e ∙ ap (λ l. (none, l)) (append_assoc before (d ∷ []) ds))
  BatchEnd-cons c k q left before d a (broken ds x f l g e) =
      broken (d ∷ ds) x (a, f) (omega (arith, l)) (rw (shift c (length ds)) g) e

  batch_more :
      (k : ℕ) (q : String) (left : ℕ) (before : List ℕ) (d : ℕ) (s : Sys Queue)
      → env.get_message s.clock k q true ≡ (none, some d)
      → batch_from env k q (suc left) before s
        ≡ batch_from env k q left (before ++ d ∷ []) (record s { clock = suc s.clock })
  unfolding batch_from get_one sys_ops
  batch_more k q left before d s h = rw h

  batch_drained :
      (k : ℕ) (q : String) (left : ℕ) (before : List ℕ) (s : Sys Queue)
      → env.get_message s.clock k q true ≡ (none, none)
      → batch_from env k q (suc left) before s
        ≡ some ((none, before), record s { clock = suc s.clock })
  unfolding batch_from get_one sys_ops
  batch_drained k q left before s h = rw h

  batch_broken :
      (k : ℕ) (q : String) (left : ℕ) (before : List ℕ) (x : Error) (s : Sys Queue)
      → (env.get_message s.clock k q true).0 ≡ some x
      → batch_from env k q (suc left) before s
        ≡ some ((some x, []), record s { clock = suc s.clock })
  unfolding batch_from get_one sys_ops
  batch_broken k q left before x s h = rw h

  batch_from-BatchEnd :
      (k : ℕ) (q : String) (left : ℕ) (before : List ℕ) (s : Sys Queue) {r : Option Error × List ℕ}
      {s' : Sys Queue}
      → batch_from env k q left before s ≡ some (r, s')
      → BatchEnd s.clock k q left before r
  unfolding batch_from
  batch_from-BatchEnd k q zero before s e =
      full [] tt refl (sym (pure-some e).0 ∙ ap (λ l. (none, l)) (sym (append-nil before)))
  batch_from-BatchEnd k q (suc left) before s {r} {s'} e =
      elim (answer-cases (env.get_message s.clock k q true)) [
        | inl (x, h) ↦
            broken [] x tt (omega arith) (rw add-zero h)
              (sym (some-left (sym (batch_broken k q left before x s h) ∙ e)))
        | inr (inl h) ↦ drained [] tt (omega arith) (rw add-zero h) (
            sym (some-left (sym (batch_drained k q left before s h) ∙ e))
            ∙ ap (λ l. (none, l)) (sym (append-nil before)))
        | inr (inr (d, h)) ↦ BatchEnd-cons s.clock k q left before d h (
            batch_from-BatchEnd k q left (before ++ d ∷ []) (record s { clock = suc s.clock })
              (sym (batch_more k q left before d s h) ∙ e))
      ]

  -- GetBatch, when it returns for a positive size, hands back the broker's messages in order: as
  -- many as asked for, or all up to the first empty answer. At the first error it hands back none,
  -- though the messages before it were taken with auto-acknowledge.
  pub get_batch-BatchEnd :
      (fuel : ℕ) (queue_name : String) (size : ℕ) (s s' : Sys Queue) (r : Option Error × List ℕ)
      → 0 < size
      → get_batch env fuel queue_name size s ≡ some (r, s')
      → (c : ℕ) × (k : ℕ) × BatchEnd c k queue_name size [] r
  unfolding get_batch
  get_batch-BatchEnd fuel q zero s s' r h e = absurd (omega arith)
  get_batch-BatchEnd fuel q (suc n) s s' r h e =
      let (k, t, q₁, e₁) = bind-some (get_transient_channel env fuel false) _ s e in
      let (b, u, q₂, e₂) = bind-some (batch_from env k q (suc n) []) _ t e₁ in
      let (_, v, q₃, e₃) = then-some (act (channel_closed k)) _ u e₂ in
      (
        t.clock,
        k,
        subst (λ x. BatchEnd t.clock k q (suc n) [] x) (pure-some e₃).0
            (batch_from-BatchEnd k q (suc n) [] t q₂),
      )
