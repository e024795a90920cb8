-- ===== src/Service/Collecting.antt =====
-- The collecting of the consumers' errors, and repeated calls of Shutdown.
use turbocookedrabbit.Amqp.{Error}
use turbocookedrabbit.Auto.{stop_auto_publish}
use turbocookedrabbit.Consumer.{Consumer}
use turbocookedrabbit.Service.Stop.{
  begin_shutdown, collect_consumer_errors, collect_from, monitor_for_shutdown, Service,
}
use turbocookedrabbit.Service.{Desk, send_error, ServiceError, consumer_error, monitor_round}
use mathlib.Core.List.{map, ◌∷◌}
use turbocookedrabbit.Base.{
  ℕ, true, false, List, length, ◌≡◌, suc, ◌++◌, ◌+◌, ◌<◌, ◌∷◌, some, ◌≤◌, [], arith, none, zero,
  append-nil, length-append, append_assoc, ap, refl, ◌∙◌,
}

-- What a round reports: the errors of each consumer, in order.
abbrev pub reports : List Consumer → List ServiceError
reports [] = []
reports (con ∷ cons) = map consumer_error con.errors ++ reports cons

abbrev with_errors : Desk → List ServiceError → Desk
with_errors d l = record d { central_err = d.central_err ++ l }

send_error-room :
    (x : ServiceError) (d : Desk)
    → length d.central_err < 1000
    → send_error x d ≡ some (with_errors d (x ∷ []))
unfolding send_error
send_error-room x d h = ground arith

length-map : (es : List Error) → length (map consumer_error es) ≡ length es
length-map [] = refl
length-map (e ∷ es) = ap suc (length-map es)

collect_from-all :
    (es : List Error) (d : Desk)
    → d.shutdown ≡ false
    → length d.central_err + length es ≤ 1000
    → collect_from es d ≡ some ([], with_errors d (map consumer_error es))
unfolding collect_from
collect_from-all [] d on room = ground (arith, append-nil d.central_err)
collect_from-all (e ∷ es) d on room =
    let d₁ = with_errors d (consumer_error e ∷ []) in
    let more =
      collect_from-all es d₁ on
        (omega (arith, length-append d.central_err (consumer_error e ∷ []))) in
    ground (
      arith,
      more,
      send_error-room (consumer_error e) d,
      append_assoc d.central_err (consumer_error e ∷ []) (map consumer_error es),
    )

-- A round of collectConsumerErrors before the shutdown, with room for all errors: the errors of
-- every consumer stand among the central errors then, each as it was and once, in their order and
-- in that of the consumers, behind those that were there, and no consumer has an error left.
pub collect_consumer_errors-all :
    (cons : List Consumer) (d : Desk)
    → d.shutdown ≡ false
    → length d.central_err + length (reports cons) ≤ 1000
    → collect_consumer_errors cons d
      ≡ some (
        map (λ (con : Consumer). record con { errors = [] }) cons,
        record d { central_err = d.central_err ++ reports cons },
      )
unfolding collect_consumer_errors
collect_consumer_errors-all [] d on room = ground (arith, append-nil d.central_err)
collect_consumer_errors-all (con ∷ cons) d on room =
    let here = map consumer_error con.errors in
    let d₁ = with_errors d here in
    let size = length-append here (reports cons) in
    let some_ = length-map con.errors in
    let first = collect_from-all con.errors d on (omega (arith, size, some_)) in
    let rest =
      collect_consumer_errors-all cons d₁ on
        (omega (arith, size, length-append d.central_err here)) in
    ground (arith, first, rest, append_assoc d.central_err here (reports cons))

-- However often the monitor makes its round.
abbrev pub monitored : ℕ → Service → Service
monitored zero s = s
monitored (suc n) s = monitored n (monitor_for_shutdown s)

monitored-off : (n : ℕ) (s : Service) → s.monitoring ≡ false → monitored n s ≡ s
unfolding monitor_for_shutdown
monitored-off zero s h = refl
monitored-off (suc n) s h =
    let same : monitor_for_shutdown s ≡ s = ground arith in
    ap (monitored n) same ∙ monitored-off n s h

-- Three calls of Shutdown of a service whose monitor runs. The monitor's first round after the
-- first call takes its signal, sets the shutdown flag, and is the monitor's last. The second call
-- leaves its signal in the Go channel, however many rounds the monitor would make, and the third
-- blocks.
pub begin_shutdown-blocks :
    (n m : ℕ) (s : Service)
    → s.shutdown_signal ≡ 0
    → s.monitoring ≡ true
    → (s₁ : Service) × (s₂ : Service) × (begin_shutdown s ≡ some s₁)
      × ((monitored (suc n) s₁).auto.desk.shutdown ≡ true)
      × ((monitored (suc n) s₁).monitoring ≡ false)
      × (begin_shutdown (monitored (suc n) s₁) ≡ some s₂)
      × (begin_shutdown (monitored m s₂) ≡ none)
unfolding begin_shutdown monitor_for_shutdown stop_auto_publish monitor_round
begin_shutdown-blocks n m s e on =
    let s₁ = record s { auto = stop_auto_publish s.auto; shutdown_signal = 1 } in
    let taken = record s₁ {
      auto = record s₁.auto { desk = record s₁.auto.desk { shutdown = true } };
      shutdown_signal = 0;
      monitoring = false;
    } in
    let one : monitor_for_shutdown s₁ ≡ taken = ground arith in
    let rest : monitored (suc n) s₁ ≡ taken = ap (monitored n) one ∙ monitored-off n taken refl in
    let s₂ = record taken { auto = stop_auto_publish taken.auto; shutdown_signal = 1 } in
    let later : monitored m s₂ ≡ s₂ = monitored-off m s₂ refl in
    (
      s₁,
      s₂,
      ground arith,
      ap (λ (x : Service). x.auto.desk.shutdown) rest,
      ap (λ (x : Service). x.monitoring) rest,
      ap begin_shutdown rest,
      ap begin_shutdown later,
    )
