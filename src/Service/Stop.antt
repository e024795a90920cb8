-- ===== src/Service/Stop.antt =====
-- v2/pkg/tcr/rabbitservice.go: Shutdown and the background monitors. Between the parts of Shutdown
-- the code sleeps, and the monitors make their rounds.
use turbocookedrabbit.State.{PublishReceipt}
use turbocookedrabbit.Consumer.{Consumer, stop_consuming}
use turbocookedrabbit.Service.{
  Desk, ServiceError, monitor_round, process_receipt, send_error, consumer_error, stopped_already,
}
use turbocookedrabbit.Amqp.{Error}
use turbocookedrabbit.Auto.{Auto, stop_auto_publish}
use turbocookedrabbit.Base.{
  ℕ, true, false, Bool, List, Option, if◌then◌else◌, ltb, some, ◌&&◌, none, ◌∷◌, [], ◌+◌, ◌-◌,
}

-- `shutdown_signal` counts what the Go channel of capacity 1 holds; `monitoring` says that
-- monitorForShutdown runs.
pub record Service : Type 0 where
  pub auto : Auto
  pub consumers : List Consumer
  pub shutdown_signal : ℕ
  pub monitoring : Bool

-- Shutdown up to its second sleep: the publisher is told to stop, and the signal is sent, which
-- blocks while the Go channel is full.
unfoldable pub begin_shutdown : Service → Option Service
begin_shutdown s =
    if ltb s.shutdown_signal 1
    then some
        (record s { auto = stop_auto_publish s.auto; shutdown_signal = s.shutdown_signal + 1 })
    else none

-- One round of monitorForShutdown.
unfoldable pub monitor_for_shutdown : Service → Service
monitor_for_shutdown s =
    if s.monitoring && ltb 0 s.shutdown_signal
    then record s {
      auto = record s.auto { desk = monitor_round true s.auto.desk };
      shutdown_signal = s.shutdown_signal - 1;
      monitoring = false;
    }
    else s

-- The loop over the consumers, in the order that the map's range has.
unfoldable pub stop_consumers : List Consumer → Desk → Option (List Consumer × Desk)
stop_consumers [] d = some ([], d)
stop_consumers (con ∷ rest) d = elim (stop_consuming true true con) [
  | none ↦ none
  | some (ok, con') ↦ elim (if ok then some d else send_error stopped_already d) [
    | none ↦ none
    | some d' ↦ elim (stop_consumers rest d') [
      | none ↦ none
      | some (cons, d'') ↦ some (con' ∷ cons, d'')
    ]
  ]
]

-- Shutdown after its second sleep, before the pool is shut down.
unfoldable pub end_shutdown : Bool → Service → Option Service
end_shutdown stop_all s =
    if stop_all
    then elim (stop_consumers s.consumers s.auto.desk) [
      | none ↦ none
      | some (cons, d) ↦ some (record s { consumers = cons; auto = record s.auto { desk = d } })
    ]
    else some s

-- The inner loop of collectConsumerErrors, over the errors in a consumer's Go channel: those left
-- there, and the desk.
unfoldable pub collect_from : List Error → Desk → Option (List Error × Desk)
collect_from [] d = some ([], d)
collect_from (e ∷ rest) d =
    if d.shutdown
    then some (e ∷ rest, d)
    else elim (send_error (consumer_error e) d) [ none ↦ none | some d' ↦ collect_from rest d' ]

-- One round over the consumers.
unfoldable pub collect_consumer_errors : List Consumer → Desk → Option (List Consumer × Desk)
collect_consumer_errors [] d = some ([], d)
collect_consumer_errors (con ∷ rest) d = elim (collect_from con.errors d) [
  | none ↦ none
  | some (left, d') ↦ elim (collect_consumer_errors rest d') [
    | none ↦ none
    | some (cons, d'') ↦ some (record con { errors = left } ∷ cons, d'')
  ]
]

unfoldable pub first_error : List ServiceError → Desk → Option ServiceError × Desk
first_error [] d = (none, d)
first_error (e ∷ rest) d = (some e, record d { central_err = rest })

-- One round of processErrors or invokeProcessError: the error that is printed or handled, if any.
unfoldable pub error_round : Desk → Option ServiceError × Desk
error_round d = if d.shutdown then (none, d) else first_error d.central_err d

-- One round of processPublishReceipts, with what its receive gave.
unfoldable pub receipt_round : Option PublishReceipt → Desk → Option Desk
receipt_round none d = some d
receipt_round (some receipt) d = if d.shutdown then some d else process_receipt receipt d
