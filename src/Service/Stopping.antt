-- ===== src/Service/Stopping.antt =====
-- What Shutdown and the collecting of errors do to consumers and to the central errors.
use turbocookedrabbit.Service.{Desk, ServiceError, stopped_already, send_error}
use turbocookedrabbit.Service.Stop.{stop_consumers}
use turbocookedrabbit.Consumer.{Consumer, stop_consuming, signal_stop, flush_messages}
use turbocookedrabbit.Base.{
  refl, true, false, List, ◌∷◌, ◌≡◌, [], if◌then◌else◌, length, some, ◌+◌, ◌⊎◌, Bool-cases, ◌≤◌,
  inl, ◌++◌, arith, inr, Bool, append-nil, ap, ◌<◌, ◌∙◌, sym, length-append, append_assoc,
}

-- A consumer after Shutdown: one that was started has its messages flushed and an immediate stop
-- signalled, any other is as it was.
abbrev pub Halted : Consumer → Consumer → Type 0
Halted con con' =
    ((con.started ≡ true)
      × (con' ≡ record con { stop_immediate = true; consume_stop = 1; received_messages = [] }))
    ⊎ ((con.started ≡ false) × (con' ≡ con))

abbrev pub AllHalted : List Consumer → List Consumer → Type 0
AllHalted [] [] = Unit {0}
AllHalted (con ∷ cons) (con' ∷ cons') = Halted con con' × AllHalted cons cons'
AllHalted _ _ = ⊥

-- No stop waits to be taken.
abbrev pub AllQuiet : List Consumer → Type 0
AllQuiet [] = Unit {0}
AllQuiet (con ∷ cons) = (con.consume_stop ≡ 0) × AllQuiet cons

-- One error for each consumer that is not started.
abbrev pub refusals : List Consumer → List ServiceError
refusals [] = []
refusals (con ∷ cons) = if con.started then refusals cons else stopped_already ∷ refusals cons

stop_consuming-Halted :
    (con : Consumer)
    → con.consume_stop ≡ 0
    → (con' : Consumer) × (stop_consuming true true con ≡ some (con.started, con'))
      × Halted con con'
unfolding stop_consuming signal_stop flush_messages
stop_consuming-Halted con h = elim (Bool-cases con.started) [
  | inl on ↦ (
    record con { stop_immediate = true; consume_stop = 1; received_messages = [] },
    ground arith,
    inl (on, refl),
  )
  | inr off ↦ (con, ground arith, inr (off, refl))
]

stop_step :
    (con con' : Consumer) (rest cons : List Consumer) (ok : Bool) (d d' d'' : Desk)
    → stop_consuming true true con ≡ some (ok, con')
    → (if ok then some d else send_error stopped_already d) ≡ some d'
    → stop_consumers rest d' ≡ some (cons, d'')
    → stop_consumers (con ∷ rest) d ≡ some (con' ∷ cons, d'')
unfolding stop_consumers
stop_step con con' rest cons ok d d' d'' e f g = ground arith

refusals-started :
    (con : Consumer) (cons : List Consumer)
    → con.started ≡ true
    → refusals (con ∷ cons) ≡ refusals cons
refusals-started con cons h = ground arith

refusals-stopped :
    (con : Consumer) (cons : List Consumer)
    → con.started ≡ false
    → refusals (con ∷ cons) ≡ stopped_already ∷ refusals cons
refusals-stopped con cons h = ground arith

refused :
    (con : Consumer) (d : Desk)
    → con.started ≡ false
    → length d.central_err < 1000
    → (if con.started then some d else send_error stopped_already d)
      ≡ some (record d { central_err = d.central_err ++ stopped_already ∷ [] })
unfolding send_error
refused con d h room = ground arith

-- The consumers' part of Shutdown, with no stop waiting anywhere and room for the errors, comes to
-- its end: every started consumer has its messages flushed and an immediate stop signalled, the
-- others are as they were, and each of these is reported once; the rest of the desk stays.
pub stop_consumers-AllHalted :
    (cons : List Consumer) (d : Desk)
    → AllQuiet cons
    → length d.central_err + length (refusals cons) ≤ 1000
    → (cons' : List Consumer) × (stop_consumers cons d
        ≡ some (cons', record d { central_err = d.central_err ++ refusals cons }))
      × AllHalted cons cons'
unfolding stop_consumers
stop_consumers-AllHalted [] d q room = ([], ground (arith, append-nil d.central_err), tt)
stop_consumers-AllHalted (con ∷ cons) d q room =
    let (con', e, halted) = stop_consuming-Halted con q.0 in
    elim (Bool-cases con.started) [
      | inl on ↦
          let same = refusals-started con cons on in
          let (cons', g, all) =
            stop_consumers-AllHalted cons d q.1 (omega (arith, ap length same, room)) in
          (
            con' ∷ cons',
            stop_step con con' cons cons' con.started d d _ e (ground arith) g
                ∙ ap (λ l. some (con' ∷ cons', record d { central_err = d.central_err ++ l }))
                    (sym same),
            (halted, all),
          )
      | inr off ↦
          let more = refusals-stopped con cons off in
          let d₁ = record d { central_err = d.central_err ++ stopped_already ∷ [] } in
          let (cons', g, all) =
            stop_consumers-AllHalted cons d₁ q.1
              (omega (arith, ap length more, length-append d.central_err (stopped_already ∷ []))) in
          (
            con' ∷ cons',
            stop_step con con' cons cons' con.started d d₁ _ e
                  (refused con d off (omega (arith, ap length more))) g
                ∙ ap (λ l. some (con' ∷ cons', record d { central_err = l }))
                    (append_assoc d.central_err (stopped_already ∷ []) (refusals cons)
                      ∙ ap (λ l. d.central_err ++ l) (sym more)),
            (halted, all),
          )
    ]
