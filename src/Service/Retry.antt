-- ===== src/Service/Retry.antt =====
-- The retry of failed letters, and what the service refuses.
use turbocookedrabbit.Amqp.{Error}
use turbocookedrabbit.Publisher.{make_receipt}
use turbocookedrabbit.State.{PublishReceipt}
use turbocookedrabbit.Service.{
  count_retry, requeue, Desk, safe_send, send_error, ServiceError, process_receipt, retry_failed,
  retry_letter, retrying, no_letter, out_of_retries,
}
use turbocookedrabbit.Letter.{Letter}
use turbocookedrabbit.Base.{
  ℕ, List, ◌+◌, ◌<◌, ◌∷◌, ◌≤◌, [], ◌++◌, ◌≡◌, arith, some, ◌⊎◌, Bool-cases, inl, inr, Option-cases,
  subst, Option, false, length, sym, ap, none,
}

-- No queued letter has been retried more often than the limit says.
abbrev pub WithinLimit : ℕ → List Letter → Type 0
WithinLimit n [] = Unit {0}
WithinLimit n (l ∷ ls) = (l.retry_count ≤ n) × WithinLimit n ls

WithinLimit-append :
    (n : ℕ) (ls : List Letter) (l : Letter)
    → WithinLimit n ls
    → l.retry_count ≤ n
    → WithinLimit n (ls ++ l ∷ [])
WithinLimit-append n [] l h k = (k, tt)
WithinLimit-append n (x ∷ ls) l h k = (h.0, WithinLimit-append n ls l h.1 k)

-- The letter that goes back to the queue.
abbrev pub retried : Letter → Letter
retried l = record l { retry_count = l.retry_count + 1 }

count_retry_lem :
    (l : Letter) (n : ℕ) → l.retry_count < n → n < 4294967296 → count_retry l ≡ retried l
unfolding count_retry
count_retry_lem l n h k = ground arith

requeue-letters :
    (id : ℕ) (l : Letter) (d d' : Desk)
    → requeue id l d ≡ some d'
    → (d'.letters ≡ d.letters) ⊎ (d'.letters ≡ d.letters ++ l ∷ [])
unfolding requeue safe_send send_error
requeue-letters id l d d' e = ground arith

send_error-letters :
    (x : ServiceError) (d d' : Desk)
    → send_error x d ≡ some d'
    → (d'.letters ≡ d.letters)
      × (d'.max_retry_count ≡ d.max_retry_count)
      × (d'.letters_closed ≡ d.letters_closed)
      × (d'.central_err ≡ d.central_err ++ x ∷ [])
unfolding send_error
send_error-letters x d d' e = ground arith

retry_letter-letters :
    (id : ℕ) (l : Letter) (d d' : Desk)
    → retry_letter id l d ≡ some d'
    → (d'.letters ≡ d.letters)
      ⊎ ((l.retry_count < d.max_retry_count) × (d'.letters ≡ d.letters ++ count_retry l ∷ []))
unfolding retry_letter
retry_letter-letters id l d d' e =
    elim (Option-cases (send_error (retrying id (count_retry l).retry_count) d)) [
      | inl full ↦ ground (arith, send_error-letters (out_of_retries id) d d')
      | inr (d₁, q) ↦ ground (
        arith,
        send_error-letters (out_of_retries id) d d',
        send_error-letters (retrying id (count_retry l).retry_count) d d₁,
        requeue-letters id (count_retry l) d₁ d',
      )
    ]

retry_failed-WithinLimit :
    (id : ℕ) (o : Option Letter) (d d' : Desk)
    → d.max_retry_count < 4294967296
    → WithinLimit d.max_retry_count d.letters
    → retry_failed id o d ≡ some d'
    → WithinLimit d.max_retry_count d'.letters
unfolding retry_failed
retry_failed-WithinLimit id none d d' b w e =
    let same = (send_error-letters (no_letter id) d d' e).0 in
    subst (WithinLimit d.max_retry_count) (sym same) w
retry_failed-WithinLimit id (some l) d d' b w e = elim (retry_letter-letters id l d d' e) [
  | inl same ↦ subst (WithinLimit d.max_retry_count) (sym same) w
  | inr (more, put) ↦ subst (WithinLimit d.max_retry_count) (sym put) (
      WithinLimit-append d.max_retry_count d.letters (count_retry l) w (
        omega
          (arith, ap (λ (x : Letter). x.retry_count) (count_retry_lem l d.max_retry_count more b))))
]

-- Under a limit that is a uint32, whatever receipt is processed: no letter stands in the queue then
-- with more retries than the limit, if none did before.
pub process_receipt-WithinLimit :
    (receipt : PublishReceipt) (d d' : Desk)
    → d.max_retry_count < 4294967296
    → WithinLimit d.max_retry_count d.letters
    → process_receipt receipt d ≡ some d'
    → WithinLimit d.max_retry_count d'.letters
unfolding process_receipt
process_receipt-WithinLimit receipt d d' b w e = elim (Bool-cases receipt.success) [
  | inl good ↦ subst (WithinLimit d.max_retry_count) (ground arith) w
  | inr bad ↦
      retry_failed-WithinLimit receipt.letter_id receipt.failed_letter d d' b w (ground arith)
]

send_error-room :
    (x : ServiceError) (d : Desk)
    → length d.central_err < 1000
    → send_error x d ≡ some (record d { central_err = d.central_err ++ x ∷ [] })
unfolding send_error
send_error-room x d h = ground arith

requeue-room :
    (id : ℕ) (l : Letter) (d : Desk)
    → d.letters_closed ≡ false
    → length d.letters < 1000
    → requeue id l d ≡ some (record d { letters = d.letters ++ l ∷ [] })
unfolding requeue safe_send
requeue-room id l d h k = ground arith

retry_letter-room :
    (id : ℕ) (l : Letter) (d : Desk)
    → l.retry_count < d.max_retry_count
    → d.letters_closed ≡ false
    → length d.letters < 1000
    → length d.central_err < 1000
    → retry_letter id l d
      ≡ some (record d {
        letters = d.letters ++ count_retry l ∷ [];
        central_err = d.central_err ++ retrying id (count_retry l).retry_count ∷ [];
      })
unfolding retry_letter
retry_letter-room id l d h o k k' =
    let e = retrying id (count_retry l).retry_count in
    let d₁ = record d { central_err = d.central_err ++ e ∷ [] } in
    let sent = send_error-room e d k' in
    let put = requeue-room id (count_retry l) d₁ o k in ground (arith, sent, put)

-- A failed letter below the limit, which is a uint32, with room for it and for the error, and the
-- queue open: it goes to the end of the queue with one more retry counted, and the retry is
-- reported.
pub process_receipt-retries :
    (letter : Letter) (err : Error) (d : Desk)
    → letter.retry_count < d.max_retry_count
    → d.max_retry_count < 4294967296
    → d.letters_closed ≡ false
    → length d.letters < 1000
    → length d.central_err < 1000
    → process_receipt (make_receipt letter (some err)) d
      ≡ some (record d {
        letters = d.letters ++ retried letter ∷ [];
        central_err = d.central_err ++ retrying letter.letter_id (letter.retry_count + 1) ∷ [];
      })
unfolding process_receipt retry_failed make_receipt
process_receipt-retries letter err d h b o room room' =
    subst
      (λ (l : Letter).
        retry_letter letter.letter_id letter d
        ≡ some (record d {
          letters = d.letters ++ l ∷ [];
          central_err = d.central_err ++ retrying letter.letter_id l.retry_count ∷ [];
        }))
      (count_retry_lem letter d.max_retry_count h b)
      (retry_letter-room letter.letter_id letter d h o room room')
