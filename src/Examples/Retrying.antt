-- ===== src/Examples/Retrying.antt =====
-- Failed letters on a desk.
use turbocookedrabbit.Examples.{letter}
use turbocookedrabbit.Amqp.{external}
use turbocookedrabbit.Publisher.{make_receipt}
use turbocookedrabbit.Service.{Desk, process_receipt, retrying}
use turbocookedrabbit.Service.{
  retry_failed, retry_letter, requeue, safe_send, send_error, count_retry,
}
use turbocookedrabbit.Service.Retry.{
  WithinLimit, retried, process_receipt-WithinLimit, process_receipt-retries,
}
use turbocookedrabbit.Base.{[], ◌∷◌, ◌≡◌, refl, some, false, arith}

abbrev desk : Desk
desk = record {
  letters = [];
  letters_closed = false;
  central_err = [];
  max_retry_count = 5;
  shutdown = false;
}

abbrev retried_desk : Desk
retried_desk = record desk { letters = retried letter ∷ []; central_err = retrying 42 2 ∷ [] }

process_receipt-WithinLimit_example : WithinLimit 5 (retried letter ∷ [])
unfolding process_receipt make_receipt retry_failed retry_letter requeue safe_send send_error
    count_retry
process_receipt-WithinLimit_example =
    process_receipt-WithinLimit (make_receipt letter (some (external 1))) desk retried_desk
      (omega arith) tt refl

process_receipt-retries_example :
    process_receipt (make_receipt letter (some (external 1))) desk ≡ some retried_desk
process_receipt-retries_example =
    process_receipt-retries letter (external 1) desk (omega arith) (omega arith) refl (omega arith)
      (omega arith)
