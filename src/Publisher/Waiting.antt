-- ===== src/Publisher/Waiting.antt =====
-- When a confirmed publish returns, and when it does not.
use turbocookedrabbit.Host.{millisecond}
use turbocookedrabbit.State.{ChannelHost, Sys, sys_ops}
use turbocookedrabbit.Letter.{Letter}
use turbocookedrabbit.Publisher.{
  publish_until, after_publish, on_verdict, on_round, wait_confirmation, start_timer, send_letter,
  acked, nacked, publish_call, Limit, timer_from, context, is_over, select_round,
  ready_confirmation, Verdict,
}
use turbocookedrabbit.Amqp.{
  Env, PublishCall, slept, Action, published, timer_started, received, empty, confirmation, idle,
}
use turbocookedrabbit.Base.{
  ℕ, Bool, Option, ◌≡◌, some, none, false, suc, zero, refl, true, ◌<◌, arith, ◌∷◌, ◌∙◌, ◌≤◌, List,
  ◌⊎◌, inl, inr, bind-value, ◌>>=◌, M, halt, pure,
}

-- What limits the wait of a letter that is published at the call of that number.
abbrev pub limit_of : Option ℕ → ℕ → Limit
limit_of none n = context
limit_of (some t) n = timer_from n t

abbrev pub verdict_of : Bool → Verdict
verdict_of true = acked
verdict_of false = nacked

fuel_cases : (j fuel : ℕ) → (j < fuel) ⊎ (fuel ≤ j)
fuel_cases zero zero = inr (omega arith)
fuel_cases zero (suc fuel) = inl (omega arith)
fuel_cases (suc j) zero = inr (omega arith)
fuel_cases (suc j) (suc fuel) = elim (fuel_cases j fuel) [
  | inl h ↦ inl (omega arith)
  | inr h ↦ inr (omega arith)
]

bind-none : {S A B : Type 0} (m : M S A) (f : A → M S B) (s : S) → m s ≡ none → (m >>= f) s ≡ none
unfolding ◌>>=◌
bind-none m f s e = rw (e, ◌>>=◌) refl

module _ {Queue : Type 0} (env : Env Queue) where
  -- The calls from number `n` on meet nothing on the Go channel `k`, `j` times, and then the
  -- confirmation `ack`, all of it before the limit.
  abbrev pub Answered : Limit → ℕ → Bool → ℕ → ℕ → Type 0
  Answered limit k ack zero n =
      (env.next_confirmation n k ≡ received ack) × (is_over env limit n ≡ false)
  Answered limit k ack (suc j) n =
      (env.next_confirmation n k ≡ empty)
      × (is_over env limit n ≡ false)
      × Answered limit k ack j (suc n)

  -- They meet nothing, and the limit has come after `j` of them.
  abbrev pub Unanswered : Limit → Option ℕ → ℕ → ℕ → Type 0
  Unanswered limit k zero n = (ready_confirmation env k n ≡ none) × (is_over env limit n ≡ true)
  Unanswered limit k (suc j) n =
      (ready_confirmation env k n ≡ none)
      × (is_over env limit n ≡ false)
      × Unanswered limit k j (suc n)

  select_round-answer :
      (limit : Limit) (k : ℕ) (ack : Bool) (n : ℕ)
      → env.next_confirmation n k ≡ received ack
      → is_over env limit n ≡ false
      → select_round env limit (some k) n ≡ confirmation ack
  unfolding select_round ready_confirmation
  select_round-answer limit k ack n e h = ground arith

  select_round-idle :
      (limit : Limit) (k : Option ℕ) (n : ℕ)
      → ready_confirmation env k n ≡ none
      → is_over env limit n ≡ false
      → select_round env limit k n ≡ idle
  unfolding select_round
  select_round-idle limit k n e h = ground arith

  ready_confirmation-empty :
      (k n : ℕ) → env.next_confirmation n k ≡ empty → ready_confirmation env (some k) n ≡ none
  unfolding ready_confirmation
  ready_confirmation-empty k n e = ground arith

  wait_confirmation-Answered :
      (pause fuel : ℕ) (limit : Limit) (k : ℕ) (ack : Bool) (j : ℕ) (s : Sys Queue)
      → Answered limit k ack j s.clock
      → j < fuel
      → (s' : Sys Queue) × (wait_confirmation env pause fuel limit (some k) s
          ≡ some (verdict_of ack, s'))
  unfolding wait_confirmation on_round sys_ops
  wait_confirmation-Answered pause zero limit k ack j s h f = absurd (omega (arith, f))
  wait_confirmation-Answered pause (suc fuel) limit k true zero s h f =
      (record s { clock = suc s.clock }, simp (select_round-answer limit k true s.clock h.0 h.1))
  wait_confirmation-Answered pause (suc fuel) limit k false zero s h f =
      (record s { clock = suc s.clock }, simp (select_round-answer limit k false s.clock h.0 h.1))
  wait_confirmation-Answered pause (suc fuel) limit k ack (suc j) s h f =
      let (s', e) =
        wait_confirmation-Answered pause fuel limit k ack j
          (record s { clock = suc s.clock; log = slept pause ∷ s.log }) h.2 (omega (arith, f)) in
      let quiet = ready_confirmation-empty k s.clock h.0 in
      (s', simp (select_round-idle limit (some k) s.clock quiet h.1, e))

  wait_confirmation-Answered_short :
      (pause fuel : ℕ) (limit : Limit) (k : ℕ) (ack : Bool) (j : ℕ) (s : Sys Queue)
      → Answered limit k ack j s.clock
      → fuel ≤ j
      → wait_confirmation env pause fuel limit (some k) s ≡ none
  unfolding wait_confirmation on_round sys_ops
  wait_confirmation-Answered_short pause zero limit k ack j s h f = refl
  wait_confirmation-Answered_short pause (suc fuel) limit k ack zero s h f =
      absurd (omega (arith, f))
  wait_confirmation-Answered_short pause (suc fuel) limit k ack (suc j) s h f = simp (
    select_round-idle limit (some k) s.clock (ready_confirmation-empty k s.clock h.0) h.1,
    wait_confirmation-Answered_short pause fuel limit k ack j
        (record s { clock = suc s.clock; log = slept pause ∷ s.log }) h.2 (omega (arith, f)),
  )

  abbrev started_log : Option ℕ → List Action → List Action
  started_log none log = log
  started_log (some t) log = timer_started t ∷ log

  -- The state once the letter is out over the channel `c`, at the call of number `s.clock`.
  abbrev sent : Letter → Option ℕ → ℕ → Sys Queue → Sys Queue
  sent letter timer c s = record s {
    clock = suc s.clock;
    log =
        published c (publish_call s.pool.config.application_name letter) ∷ started_log timer s.log;
  }

  publish_until-wait :
      (fuel : ℕ) (letter : Letter) (timer : Option ℕ) (ch : ChannelHost) (s : Sys Queue) (c : ℕ)
      → ch.channel ≡ some c
      → ((n : ℕ) (call : PublishCall) → env.publish n c call ≡ none)
      → publish_until env (suc fuel) letter timer ch s
        ≡ (wait_confirmation env millisecond (suc fuel) (limit_of timer s.clock) ch.confirmations
              >>= λ v. on_verdict env v (publish_until env fuel letter timer ch) ch)
            (sent letter timer c s)
  unfolding publish_until after_publish start_timer send_letter sys_ops
  publish_until-wait fuel letter none ch s c a takes = simp (a, takes)
  publish_until-wait fuel letter (some t) ch s c a takes = simp (a, takes)

  -- The broker takes every letter on the channel at hand and refuses each, after any number of
  -- rounds without news, always before the timeout that counts from this publish, or before the
  -- context is done. Then the publish does not return, however many rounds it is given and whatever
  -- its timeout.
  pub publish_until-endless :
      (fuel : ℕ) (letter : Letter) (timer : Option ℕ) (ch : ChannelHost) (s : Sys Queue) (c k : ℕ)
      → ch.channel ≡ some c
      → ch.confirmations ≡ some k
      → ((n : ℕ) (call : PublishCall) → env.publish n c call ≡ none)
      → ((n : ℕ) → (j : ℕ) × Answered (limit_of timer n) k false j (suc n))
      → publish_until env fuel letter timer ch s ≡ none
  unfolding publish_until on_verdict halt
  publish_until-endless zero letter timer ch s c k a b takes refuses = refl
  publish_until-endless (suc fuel) letter timer ch s c k a b takes refuses =
      let (j, h) = refuses s.clock in
      let limit = limit_of timer s.clock in
      let next = λ (v : Verdict). on_verdict env v (publish_until env fuel letter timer ch) ch in
      let wait = wait_confirmation env millisecond (suc fuel) limit ch.confirmations in
      publish_until-wait fuel letter timer ch s c a takes ∙ elim (fuel_cases j (suc fuel)) [
        | inl enough ↦
            let (s', q) =
              wait_confirmation-Answered millisecond (suc fuel) limit k false j
                (sent letter timer c s) h enough in
            let q' : wait (sent letter timer c s) ≡ some (nacked, s') = rw b q in
            bind-value wait next (sent letter timer c s) q'
            ∙ publish_until-endless fuel letter timer ch s' c k a b takes refuses
        | inr short ↦
            let q =
              wait_confirmation-Answered_short millisecond (suc fuel) limit k false j
                (sent letter timer c s) h short in
            let q' : wait (sent letter timer c s) ≡ none = rw b q in
            bind-none wait next (sent letter timer c s) q'
      ]

  -- A broker that takes the letter and, after any number of rounds without news and before the
  -- limit, acknowledges it: the publish returns, confirmed, over the channel host that it was
  -- given, with as much fuel as there are rounds of the wait.
  pub publish_until-acked :
      (fuel j : ℕ) (letter : Letter) (timer : Option ℕ) (ch : ChannelHost) (s : Sys Queue) (c k : ℕ)
      → ch.channel ≡ some c
      → ch.confirmations ≡ some k
      → ((n : ℕ) (call : PublishCall) → env.publish n c call ≡ none)
      → Answered (limit_of timer s.clock) k true j (suc s.clock)
      → j ≤ fuel
      → (s' : Sys Queue) × (publish_until env (suc fuel) letter timer ch s ≡ some ((true, ch), s'))
  unfolding on_verdict pure
  publish_until-acked fuel j letter timer ch s c k a b takes h f =
      let (s', q) =
        wait_confirmation-Answered millisecond (suc fuel) (limit_of timer s.clock) k true j
          (sent letter timer c s) h (omega (arith, f)) in
      let wait =
        wait_confirmation env millisecond (suc fuel) (limit_of timer s.clock) ch.confirmations in
      let q' : wait (sent letter timer c s) ≡ some (acked, s') = rw b q in
      (
        s',
        publish_until-wait fuel letter timer ch s c a takes
            ∙ bind-value wait (λ v. on_verdict env v (publish_until env fuel letter timer ch) ch)
                (sent letter timer c s) q',
      )
