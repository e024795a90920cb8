-- ===== src/Pool/Frame.antt =====
-- What the calls on connections leave alone: the channel cache, the settings, the receipts and
-- what has been published.

pub mod Hosts
pub mod Connections
use turbocookedrabbit.Base.{ℕ, List, [], ◌∷◌, ◌≡◌, refl, ◌∙◌, arith, Keeps, keeps_rules}
use turbocookedrabbit.Amqp.{Action, published, dialed, PublishCall, TopologyCall, requested}
use turbocookedrabbit.State.{
  ConnectionHost, Sys, ask, ask_new, act, host_at, set_host, Keeps-on_poll,
}

-- The letters that went out, newest first, with their channels.
abbrev pub sends : List Action → List (ℕ × PublishCall)
sends [] = []
sends (published k call ∷ log) = (k, call) ∷ sends log
sends (_ ∷ log) = sends log

-- The topology requests, newest first.
abbrev pub requests : List Action → List TopologyCall
requests [] = []
requests (requested k call ∷ log) = call ∷ requests log
requests (_ ∷ log) = requests log

-- Whether an action is neither a publishing nor a topology request.
abbrev pub IsQuiet : Action → Type 0
IsQuiet (published k call) = ⊥
IsQuiet (requested k call) = ⊥
IsQuiet _ = Unit {0}

pub record Same {Queue : Type 0} (u s : Sys Queue) : Type 0 where
  pub channels : s.pool.channels ≡ u.pool.channels
  pub config : s.pool.config ≡ u.pool.config
  pub receipts : s.receipts ≡ u.receipts
  pub sent : sends s.log ≡ sends u.log
  pub asked : requests s.log ≡ requests u.log

pub Same-refl : {Queue : Type 0} (s : Sys Queue) → Same s s
Same-refl s = record { channels = refl; config = refl; receipts = refl; sent = refl; asked = refl }

sends-act : (a : Action) (log : List Action) → IsQuiet a → sends (a ∷ log) ≡ sends log
sends-act (published k call) log q = absurd q
sends-act (requested k call) log q = absurd q
sends-act (dialed c) log q = refl
sends-act _ log q = refl

requests-act : (a : Action) (log : List Action) → IsQuiet a → requests (a ∷ log) ≡ requests log
requests-act (published k call) log q = absurd q
requests-act (requested k call) log q = absurd q
requests-act (dialed c) log q = refl
requests-act _ log q = refl

module _ {Queue : Type 0} {u : Sys Queue} where
  pub Same-trans : {s t : Sys Queue} → Same u s → Same s t → Same u t
  Same-trans h k = record {
    channels = k.channels ∙ h.channels;
    config = k.config ∙ h.config;
    receipts = k.receipts ∙ h.receipts;
    sent = k.sent ∙ h.sent;
    asked = k.asked ∙ h.asked;
  }

  pub ask-Same : {A : Type 0} (f : ℕ → A) → Keeps (Same u) (ask f)
  unfolding ask
  ask-Same f = record { at = λ s a s' e h. ground arith }

  pub ask_new-Same : {A : Type 0} (f : ℕ → A) → Keeps (Same u) (ask_new f)
  unfolding ask_new
  ask_new-Same f = record { at = λ s a s' e h. ground arith }

  pub act-Same : (a : Action) → IsQuiet a → Keeps (Same u) (act a)
  unfolding act
  act-Same a q = record {
    at = λ s b s' e h. ground (arith, sends-act a s.log q, requests-act a s.log q);
  }

  pub host_at-Same : (i : ℕ) → Keeps (Same u) (host_at i)
  unfolding host_at
  host_at-Same i = record { at = λ s a s' e h. ground arith }

  pub set_host-Same : (i : ℕ) (host : ConnectionHost) → Keeps (Same u) (set_host i host)
  unfolding set_host
  set_host-Same i host = record { at = λ s a s' e h. ground arith }

pub ruleset frame_rules =
    (keeps_rules, Keeps-on_poll, ask-Same, ask_new-Same, act-Same, host_at-Same, set_host-Same, tt)
