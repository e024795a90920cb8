-- ===== src/Consumer/Loops.antt =====
-- The consume loops: how many run, what a stop reaches, and what they take in.
use turbocookedrabbit.Amqp.{Env}
use turbocookedrabbit.State.{ChannelHost, Sys, sys_ops}
use turbocookedrabbit.Consumer.{
  Consumer, round_stop, loop_ends, poll_stop, Place, start_consuming, stop_consuming, seeking,
  seek_round, Arrival, processing, process_round, delivered, flush_stop, take_message, flush_errors,
  deliveries_closed, signal_stop, channel_error, flush_messages, nothing, new_received_message,
  ReceivedMessage,
}
use turbocookedrabbit.Base.{
  ℕ, length, ◌≡◌, false, ◌≤◌, true, Bool, List, ◌∷◌, arith, some, Option, none, suc, ◌+◌, [], zero,
  ◌++◌, replicate, sym, not, append-nil, ◌∙◌, refl, length-append, append_assoc, Gives, Gives-bind,
  Gives-then, Gives-pure, Gives-halt, Gives-branch, Gives-maybe, bind-value, M, pure, ◌>>=◌,
  if◌then◌else◌,
}

-- What the consumer promises: it says that it is started exactly while its one loop runs.
pub record IsSound (con : Consumer) : Type 0 where
  pub one_loop : length con.loops ≤ 1
  pub running : con.started ≡ true → length con.loops ≡ 1
  pub idle : con.started ≡ false → length con.loops ≡ 0

-- The moves of a consumer's life. A user starts it only while it is not started; the loop at the
-- head makes a round, whatever the pool and the broker are like.
pub data Life {Queue : Type 0} (env : Env Queue) : Consumer → Consumer → Type 0 where
  start : (c : Consumer) → c.started ≡ false → Life env c (start_consuming c)
  stop : (c c' : Consumer) (i f ok : Bool) → stop_consuming i f c ≡ some (ok, c') → Life env c c'
  seek :
      (c c' : Consumer) (rest : List Place) (fuel : ℕ) (consumes : Bool) (s s' : Sys Queue)
      → c.loops ≡ seeking ∷ rest
      → seek_round env fuel consumes rest c s ≡ some (c', s')
      → Life env c c'
  process :
      (c c' : Consumer) (rest : List Place) (fuel : ℕ) (has_action : Bool) (a : Arrival)
      (ch : ChannelHost) (s s' : Sys Queue)
      → c.loops ≡ processing ch ∷ rest
      → process_round env fuel has_action a ch rest c s ≡ some (c', s')
      → Life env c c'

poll_stop-kept :
    (c : Consumer) → ((poll_stop c).1.loops ≡ c.loops) × ((poll_stop c).1.started ≡ c.started)
unfolding poll_stop
poll_stop-kept c = (ground arith, ground arith)

-- One loop has made a round: it ended, or it stands somewhere else.
ended-IsSound :
    (c c' : Consumer) (p : Place) (rest : List Place)
    → c.loops ≡ p ∷ rest
    → c'.loops ≡ c.loops
    → c'.started ≡ c.started
    → IsSound c
    → IsSound (loop_ends rest c')
unfolding loop_ends
ended-IsSound c c' p rest l e f h = ground arith

moved-IsSound :
    (c c' : Consumer) (p q : Place) (rest : List Place)
    → c.loops ≡ p ∷ rest
    → c'.started ≡ c.started
    → c'.loops ≡ q ∷ rest
    → IsSound c
    → IsSound c'
moved-IsSound c c' p q rest l f g h = ground arith

take_message-kept :
    (has_action : Bool) (d : Option ℕ) (c : Consumer) {c' : Consumer}
    → take_message has_action d c ≡ some c'
    → (c'.loops ≡ c.loops) × (c'.started ≡ c.started)
unfolding take_message
take_message-kept has_action d c e = (ground arith, ground arith)

IsSound-kept :
    {c c' : Consumer} → c'.loops ≡ c.loops → c'.started ≡ c.started → IsSound c → IsSound c'
IsSound-kept e f h = ground arith

module _ {Queue : Type 0} (env : Env Queue) where
  round_stop-IsSound :
      (fuel : ℕ) (ch : ChannelHost) (c : Consumer) (p : Place) (rest : List Place)
      → c.loops ≡ p ∷ rest
      → IsSound c
      → Gives IsSound (round_stop env fuel ch rest c)
  unfolding round_stop
  round_stop-IsSound fuel ch c p rest e h =
      let (same, started) = poll_stop-kept c in
      Gives-branch (poll_stop c).0
        (Gives-then _ (Gives-pure _ (ended-IsSound c (poll_stop c).1 p rest e same started h)))
        (Gives-pure _ (
          moved-IsSound c (record (poll_stop c).1 { loops = processing ch ∷ rest }) p
            (processing ch) rest e started refl h))

  seek_round-IsSound :
      (fuel : ℕ) (consumes : Bool) (c : Consumer) (p : Place) (rest : List Place)
      → c.loops ≡ p ∷ rest
      → IsSound c
      → Gives IsSound (seek_round env fuel consumes rest c)
  unfolding seek_round
  seek_round-IsSound fuel consumes c p rest e h =
      let (same, started) = poll_stop-kept c in
      let at = λ (q : Place).
        moved-IsSound c (record (poll_stop c).1 { loops = q ∷ rest }) p q rest e started refl h in
      Gives-branch (poll_stop c).0
        (Gives-pure _ (ended-IsSound c (poll_stop c).1 p rest e same started h))
        (Gives-bind _ λ ch.
          Gives-maybe ch.channel (λ none_. Gives-halt)
            λ k some_.
              Gives-branch consumes (Gives-pure _ (at (processing ch)))
                (Gives-then _ (Gives-pure _ (at seeking))))

  process_round-IsSound :
      (fuel : ℕ) (has_action : Bool) (a : Arrival) (ch : ChannelHost) (c : Consumer) (p : Place)
      (rest : List Place)
      → c.loops ≡ p ∷ rest
      → IsSound c
      → Gives IsSound (process_round env fuel has_action a ch rest c)
  unfolding process_round
  process_round-IsSound fuel has_action (channel_error x) ch c p rest e h =
      Gives-then _
        (Gives-branch _ (Gives-pure _ (moved-IsSound c _ p seeking rest e refl refl h)) Gives-halt)
  process_round-IsSound fuel has_action (delivered d) ch c p rest e h =
      Gives-maybe (take_message has_action (some d) c) (λ none_. Gives-halt)
        λ c' q.
          let (same, started) = take_message-kept has_action (some d) c q in
          round_stop-IsSound fuel ch c' p rest (same ∙ e) (IsSound-kept same started h)
  process_round-IsSound fuel has_action deliveries_closed ch c p rest e h =
      Gives-maybe (take_message has_action none c) (λ none_. Gives-halt)
        λ c' q.
          let (same, started) = take_message-kept has_action none c q in
          round_stop-IsSound fuel ch c' p rest (same ∙ e) (IsSound-kept same started h)
  process_round-IsSound fuel has_action nothing ch c p rest e h =
      round_stop-IsSound fuel ch c p rest e h

  -- Every move of a consumer that is started only while it is not keeps the promise: one loop runs
  -- while it says that it is started, and none while it says that it is not.
  pub Life-IsSound : {c c' : Consumer} → Life env c c' → IsSound c → IsSound c'
  unfolding start_consuming flush_stop flush_errors stop_consuming signal_stop flush_messages
  Life-IsSound (start c off) h = ground arith
  Life-IsSound (stop c c' i f ok e) h = ground arith
  Life-IsSound (seek c c' rest fuel consumes s s' l e) h =
      (seek_round-IsSound fuel consumes c seeking rest l h).at s c' s' e
  Life-IsSound (process c c' rest fuel has_action a ch s s' l e) h =
      (process_round-IsSound fuel has_action a ch c (processing ch) rest l h).at s c' s' e

  -- An enabled consumer without loops is started twice and then told to stop. The loop that takes
  -- the stop in its next round ends and marks the consumer as stopped; the other loop is left with
  -- no stop to take, and StopConsuming is refused.
  pub orphaned_loop :
      (fuel : ℕ) (consumes immediate flush immediate' flush' : Bool) (c : Consumer) (s : Sys Queue)
      → c.enabled ≡ true
      → c.loops ≡ []
      → (stopping : Consumer) × (left : Consumer) × (stop_consuming immediate flush
            (start_consuming (start_consuming c))
          ≡ some (true, stopping))
        × (stopping.loops ≡ seeking ∷ seeking ∷ [])
        × (seek_round env fuel consumes (seeking ∷ []) stopping s ≡ some (left, s))
        × (left.loops ≡ seeking ∷ [])
        × (left.consume_stop ≡ 0)
        × (stop_consuming immediate' flush' left ≡ some (false, left))
  unfolding start_consuming flush_stop flush_errors stop_consuming signal_stop flush_messages
      seek_round poll_stop loop_ends sys_ops
  orphaned_loop fuel consumes immediate flush immediate' flush' c s on none_ =
      let stopping = record c {
        errors = [];
        started = true;
        stop_immediate = immediate;
        received_messages = if flush then [] else c.received_messages;
        consume_stop = 1;
        loops = seeking ∷ seeking ∷ [];
      } in
      (
        stopping,
        record stopping {
          consume_stop = 0;
          started = false;
          stop_immediate = false;
          loops = seeking ∷ [];
        },
        ground arith,
        refl,
        refl,
        refl,
        refl,
        refl,
      )

-- `n` rounds over a closed Go channel of deliveries.
module _ {Queue : Type 0} (env : Env Queue) (fuel : ℕ) (ch : ChannelHost) where
  abbrev pub closed_rounds : ℕ → Consumer → M (Sys Queue) Consumer
  closed_rounds zero c = pure c
  closed_rounds (suc n) c = do
    c' ← process_round env fuel false deliveries_closed ch [] c
    closed_rounds n c'

  abbrev zero_message : Consumer → ReceivedMessage
  zero_message c = new_received_message (not c.auto_ack) none

  abbrev with_zero : Consumer → Consumer
  with_zero c = record c {
    received_messages = c.received_messages ++ zero_message c ∷ [];
    loops = processing ch ∷ [];
  }

  closed_round :
      (c : Consumer) (s : Sys Queue)
      → c.consume_stop ≡ 0
      → length c.received_messages + 1 ≤ 1000
      → process_round env fuel false deliveries_closed ch [] c s ≡ some (with_zero c, s)
  unfolding process_round take_message round_stop poll_stop sys_ops
  closed_round c s h room = ground arith

  -- While no stop is signalled and the internal buffer of 1000 has room, the one processing loop of
  -- a consumer without an action makes up a message a round, the zero delivery, over a closed Go
  -- channel of deliveries, and runs on with its channel host; the pool is not touched.
  pub closed_rounds-messages :
      (n : ℕ) (c : Consumer) (s : Sys Queue)
      → c.consume_stop ≡ 0
      → length c.received_messages + n ≤ 1000
      → c.loops ≡ processing ch ∷ []
      → (c' : Consumer) × (closed_rounds n c s ≡ some (c', s))
        × (c'.received_messages
            ≡ c.received_messages ++ replicate n (new_received_message (not c.auto_ack) none))
        × (c'.loops ≡ processing ch ∷ [])
  unfolding pure
  closed_rounds-messages zero c s h room l = (c, refl, sym (append-nil c.received_messages), l)
  closed_rounds-messages (suc n) c s h room l =
      let (c', e, m, l') =
        closed_rounds-messages n (with_zero c) s h
          (omega (arith, length-append c.received_messages (zero_message c ∷ []))) refl in
      (
        c',
        bind-value (process_round env fuel false deliveries_closed ch [] c) (closed_rounds n) s
              (closed_round c s h (omega arith))
            ∙ e,
        m ∙ append_assoc c.received_messages (zero_message c ∷ []) (replicate n (zero_message c)),
        l',
      )
