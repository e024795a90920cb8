-- ===== src/Auto/Line.antt =====
-- What the auto-publisher keeps along its runs: one loop, every letter once and in order.
use turbocookedrabbit.Service.{Desk}
use turbocookedrabbit.Letter.{Letter}
use turbocookedrabbit.Auto.{
  Auto, new_auto, advance, Loop, begin_round, receive_letter, hand_over, holding, leaving,
  start_auto_publishing, poll_auto_stop, stop_auto_publish, starting, draining, polling,
  publish_returns,
}
use turbocookedrabbit.Auto.Order.{
  letters_of, NoNil, held, line, MayReceive, IsSound, Run, here, starts, stops, queues, advances,
  publishes, frees, safe_send-accepted, free_place-kept, Run-IsSound_from,
}
use turbocookedrabbit.Base.{
  ℕ, true, List, Option, ◌≡◌, Bool, [], ◌++◌, ◌∷◌, some, none, arith, append_assoc, ap, refl, sym,
  append-nil, ◌∙◌, ◌||◌, ◌&&◌, not, ◌⊎◌, inl, inr, Bool-cases, subst,
}

-- No nil came in, and the loop finds its queue open.
abbrev Fresh : Auto → Type 0
Fresh a = NoNil (a.handed ++ held a.loops) × MayReceive a.loops a.desk.letters_closed

NoNil-append : (xs ys : List (Option Letter)) → NoNil xs → NoNil ys → NoNil (xs ++ ys)
NoNil-append [] ys h k = k
NoNil-append (some x ∷ xs) ys h k = NoNil-append xs ys h k
NoNil-append (none ∷ xs) ys h k = absurd h

NoNil-first : (xs ys : List (Option Letter)) → NoNil (xs ++ ys) → NoNil xs
NoNil-first [] ys h = tt
NoNil-first (some x ∷ xs) ys h = NoNil-first xs ys h
NoNil-first (none ∷ xs) ys h = absurd h

receive_letter-Fresh :
    (letters : List Letter) (others : List Loop) (a b : Auto)
    → a.desk.letters ≡ letters
    → a.loops ≡ draining ∷ others
    → some (receive_letter letters others a) ≡ some b
    → Fresh a
    → Fresh b
unfolding receive_letter
receive_letter-Fresh [] others a b q l e f = ground arith
receive_letter-Fresh (x ∷ rest) others a b q l e f =
    ground (arith, NoNil-append a.handed (some x ∷ []) (NoNil-first a.handed (held a.loops) f.0) tt)

advance-Fresh :
    (capacity : ℕ) (place : Loop) (others : List Loop) (a b : Auto)
    → a.loops ≡ place ∷ others
    → advance capacity place others a ≡ some b
    → IsSound a
    → Fresh a
    → Fresh b
unfolding advance begin_round receive_letter hand_over poll_auto_stop
advance-Fresh capacity starting others a b l e h f = ground arith
advance-Fresh capacity draining others a b l e h f =
    receive_letter-Fresh a.desk.letters others a b refl l e f
advance-Fresh capacity polling others a b l e h f = ground arith
advance-Fresh capacity leaving others a b l e h f = ground arith
advance-Fresh capacity (holding x) others a b l e h f =
    let was = subst (λ ls. NoNil (a.handed ++ held ls)) l f.0 in
    let k : NoNil ((a.handed ++ x ∷ []) ++ []) =
      subst NoNil (sym (append-nil (a.handed ++ x ∷ []))) was in
    ground (arith, k)

letters_of-append :
    (xs ys : List (Option Letter)) → letters_of (xs ++ ys) ≡ letters_of xs ++ letters_of ys
letters_of-append [] ys = refl
letters_of-append (some x ∷ xs) ys = ap (◌∷◌ x) (letters_of-append xs ys)
letters_of-append (none ∷ xs) ys = letters_of-append xs ys

received_line :
    (handed : List (Option Letter)) (x : Letter) (rest : List Letter)
    → letters_of (handed ++ some x ∷ []) ++ rest ≡ letters_of (handed ++ []) ++ x ∷ rest
received_line handed x rest =
    ap (λ l. l ++ rest) (letters_of-append handed (some x ∷ []))
    ∙ append_assoc (letters_of handed) (x ∷ []) rest
    ∙ ap (λ l. letters_of l ++ x ∷ rest) (sym (append-nil handed))

dropped_nil :
    (handed : List (Option Letter)) (rest : List Letter)
    → letters_of (handed ++ none ∷ []) ++ rest ≡ letters_of (handed ++ []) ++ rest
dropped_nil handed rest =
    ap (λ l. l ++ rest) (letters_of-append handed (none ∷ []) ∙ sym (letters_of-append handed []))

receive_letter-line :
    (letters : List Letter) (others : List Loop) (a b : Auto)
    → a.desk.letters ≡ letters
    → a.loops ≡ draining ∷ others
    → some (receive_letter letters others a) ≡ some b
    → line b ≡ line a
unfolding receive_letter
receive_letter-line [] others a b q l e = ground (arith, dropped_nil a.handed [])
receive_letter-line (x ∷ rest) others a b q l e = ground (arith, received_line a.handed x rest)

advance-line :
    (capacity : ℕ) (place : Loop) (others : List Loop) (a b : Auto)
    → a.loops ≡ place ∷ others
    → advance capacity place others a ≡ some b
    → IsSound a
    → line b ≡ line a
unfolding advance begin_round receive_letter hand_over poll_auto_stop
advance-line capacity starting others a b l e h = ground arith
advance-line capacity draining others a b l e h =
    receive_letter-line a.desk.letters others a b refl l e
advance-line capacity polling others a b l e h = ground arith
advance-line capacity leaving others a b l e h = ground arith
advance-line capacity (holding x) others a b l e h = ground (arith, append-nil (a.handed ++ x ∷ []))

start-line : (a : Auto) → IsSound a → line (start_auto_publishing a) ≡ line a
unfolding start_auto_publishing
start-line a h = ground arith

stop-line : (a : Auto) → line (stop_auto_publish a) ≡ line a
unfolding stop_auto_publish
stop-line a = ground arith

Run-line_from :
    {capacity : ℕ} {s a : Auto} {sent : List Letter} {again : Bool}
    → Run capacity s sent again a
    → IsSound s
    → line a ≡ line s ++ sent
unfolding publish_returns
Run-line_from {s = s} here h = sym (append-nil (line s))
Run-line_from (starts {a = a} r) h = start-line a (Run-IsSound_from r h) ∙ Run-line_from r h
Run-line_from (stops {a = a} r) h = stop-line a ∙ Run-line_from r h
Run-line_from {s = s} (queues {sent = sent} {a = a} letter d r e) h =
    let got = letters_of (a.handed ++ held a.loops) in
    ap (λ l. got ++ l) (safe_send-accepted letter a.desk d e).0
    ∙ sym (append_assoc got a.desk.letters (letter ∷ []))
    ∙ ap (λ l. l ++ letter ∷ []) (Run-line_from r h)
    ∙ append_assoc (line s) sent (letter ∷ [])
Run-line_from (advances {a = a} {b = b} place others r l e) h =
    advance-line _ place others a b l e (Run-IsSound_from r h) ∙ Run-line_from r h
Run-line_from (publishes before g after r l p) h = Run-line_from r h
Run-line_from (frees {a = a} {b = b} before g after r l p e) h =
    let (desk, _, loops, handed) = free_place-kept before g after a b e in
    rw (desk, loops, handed) (Run-line_from r h)

start-Fresh :
    (again : Bool) (a : Auto)
    → IsSound a
    → (again ≡ true) ⊎ Fresh a
    → ((again || (a.desk.letters_closed && not a.auto_started)) ≡ true)
      ⊎ Fresh (start_auto_publishing a)
unfolding start_auto_publishing
start-Fresh again a h (inl on) = inl (ground arith)
start-Fresh again a h (inr f) = elim (Bool-cases a.auto_started) [
  | inl on ↦ inr (ground arith)
  | inr off ↦ elim (Bool-cases a.desk.letters_closed) [
    | inl shut ↦ inl (ground arith)
    | inr open_ ↦ inr (ground arith)
  ]
]

Run-Fresh :
    {capacity : ℕ} {s a : Auto} {sent : List Letter} {again : Bool}
    → Run capacity s sent again a
    → IsSound s
    → Fresh s
    → (again ≡ true) ⊎ Fresh a
unfolding publish_returns stop_auto_publish
Run-Fresh here h f = inr f
Run-Fresh (starts {again = again} {a = a} r) h f =
    start-Fresh again a (Run-IsSound_from r h) (Run-Fresh r h f)
Run-Fresh (stops {a = a} r) h f = ground (arith, Run-Fresh r h f)
Run-Fresh (queues {a = a} letter d r e) h f = elim (Run-Fresh r h f) [
  | inl on ↦ inl on
  | inr k ↦ inr (k.0, rw (safe_send-accepted letter a.desk d e).2 (k.1))
]
Run-Fresh (advances {a = a} {b = b} place others r l e) h f = elim (Run-Fresh r h f) [
  | inl on ↦ inl on
  | inr k ↦ inr (advance-Fresh _ place others a b l e (Run-IsSound_from r h) k)
]
Run-Fresh (publishes before g after r l p) h f = Run-Fresh r h f
Run-Fresh (frees {a = a} {b = b} before g after r l p e) h f =
    let (desk, _, loops, handed) = free_place-kept before g after a b e in
    rw (desk, loops, handed) (Run-Fresh r h f)

new_auto-IsSound : (desk : Desk) → IsSound (new_auto desk)
new_auto-IsSound desk = record { running = λ e. cc; idle = λ e. refl }

-- Along every run of a new publisher, in any interleaving, one loop runs while it says that it is
-- started, and none while it says that it is not. Unless it was started again while its queue was
-- closed, a loop that may receive letters finds the queue open.
pub Run-IsSound :
    {capacity : ℕ} {desk : Desk} {sent : List Letter} {again : Bool} {a : Auto}
    → Run capacity (new_auto desk) sent again a
    → IsSound a × ((again ≡ true) ⊎ MayReceive a.loops a.desk.letters_closed)
Run-IsSound {desk = desk} r = (
  Run-IsSound_from r (new_auto-IsSound desk),
  elim (Run-Fresh r (new_auto-IsSound desk) (tt, tt)) [ inl on ↦ inl on | inr f ↦ inr f.1 ],
)

-- No letter is lost, doubled or overtaken, in any run of a new publisher: the letters that were
-- handed over for publishing, then the one that waits for the semaphore, then the queue, are the
-- queue at the start with the letters accepted since, in their order. Unless the publisher was
-- started again while its queue was closed, no nil is handed over or waits.
pub Run-line :
    {capacity : ℕ} {desk : Desk} {sent : List Letter} {again : Bool} {a : Auto}
    → Run capacity (new_auto desk) sent again a
    → (line a ≡ desk.letters ++ sent) × ((again ≡ true) ⊎ NoNil (a.handed ++ held a.loops))
Run-line {desk = desk} r = (
  Run-line_from r (new_auto-IsSound desk),
  elim (Run-Fresh r (new_auto-IsSound desk) (tt, tt)) [ inl on ↦ inl on | inr f ↦ inr f.0 ],
)
