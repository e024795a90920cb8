-- ===== src/Service/Direct.antt =====
-- v2/pkg/tcr/rabbitservice.go: PublishLetter, and the configuration of a consumer.
use turbocookedrabbit.Publisher.{
  publish, publish_with_error, send_letter, publish_receipt, make_receipt,
}
use turbocookedrabbit.Publisher.Direct.{SentOnce, publish_with_error-once}
use turbocookedrabbit.Pool.Channels.{get_channel_from_pool, return_channel}
use turbocookedrabbit.Pool.Rotation.{AllCached}
use turbocookedrabbit.Service.{ServiceError, shutdown_triggered, consumer_not_found}
use turbocookedrabbit.Config.{ConsumerConfig}
use turbocookedrabbit.Letter.{Letter}
use turbocookedrabbit.State.{Sys}
use turbocookedrabbit.Amqp.{Env, Error}
use turbocookedrabbit.Base.{
  ℕ, Bool, false, List, Option, String, ◌≡◌, [], ◌∷◌, none, some, not, if◌then◌else◌, str_eq, M,
  pure, when, is_some, branch, ◌>>◌, bind-some, then-some, bind-value, then-value, ◌∙◌, subst,
  pure-some, sym,
}

-- RabbitService.GetConsumerConfig.
unfoldable pub get_consumer_config :
    String → List (String × ConsumerConfig) → Option ServiceError × Option ConsumerConfig
get_consumer_config name [] = (some (consumer_not_found name), none)
get_consumer_config name ((key, config) ∷ rest) =
    if str_eq key name then (none, some config) else get_consumer_config name rest

-- A letter whose number has no text gets a new one. uuid.UUID.String is a parameter.
unfoldable pub with_letter_id : (ℕ → String) → ℕ → Letter → Letter
with_letter_id uuid_string new_id letter =
    if str_eq (uuid_string letter.letter_id) ""
    then record letter { letter_id = new_id }
    else letter

module _ {Queue : Type 0} (env : Env Queue) where
  unfoldable pub publish_letter :
      ℕ → (ℕ → String) → ℕ → Bool → Letter → M (Sys Queue) (Option ServiceError)
  publish_letter fuel uuid_string new_id shutdown letter =
      branch shutdown (pure (some shutdown_triggered))
        (do publish env fuel (with_letter_id uuid_string new_id letter) false; pure none)

  -- Publish is PublishWithError, whose error is dropped.
  publish-with_error :
      (fuel : ℕ) (letter : Letter) (skip : Bool) (s s' : Sys Queue) {a : Unit {0}}
      → publish env fuel letter skip s ≡ some (a, s')
      → (err : Option Error) × (publish_with_error env fuel letter skip s ≡ some (err, s'))
  unfolding publish publish_with_error pure
  publish-with_error fuel letter skip s s' e =
      let (ch, t₁, q₁, e₁) = bind-some get_channel_from_pool _ s e in
      let (x, t₂, q₂, e₂) = bind-some (send_letter env ch.channel letter) _ t₁ e₁ in
      let (_, t₃, q₃, e₃) = then-some (when (not skip) (publish_receipt letter x)) _ t₂ e₂ in
      (
        x,
        bind-value get_channel_from_pool _ s q₁
            ∙ bind-value (send_letter env ch.channel letter) _ t₁ q₂
            ∙ then-value (when (not skip) (publish_receipt letter x)) _ t₂ q₃
            ∙ then-value (return_channel env fuel ch (is_some x)) (pure x) t₃ e₃,
      )

  -- PublishLetter of a service that is not shut down, when it returns, has no error: the letter went
  -- out once, over the oldest cached channel host, which is the newest one then, and there is one
  -- receipt more, of that letter. The letter is the one that was given, whose number has a text.
  pub publish_letter-once :
      (fuel : ℕ) (uuid_string : ℕ → String) (new_id : ℕ) (letter : Letter) (s s' : Sys Queue)
      {r : Option ServiceError}
      → AllCached s.pool.channels
      → str_eq (uuid_string letter.letter_id) "" ≡ false
      → publish_letter fuel uuid_string new_id false letter s ≡ some (r, s')
      → (r ≡ none)
        × SentOnce letter s s'
        × ((err : Option Error) × (s'.receipts ≡ make_receipt letter err ∷ s.receipts))
  unfolding publish_letter branch with_letter_id pure
  publish_letter-once fuel uuid_string new_id letter s s' {r} all named e =
      let (a, t, q, e₁) =
        then-some (publish env fuel (with_letter_id uuid_string new_id letter) false) (pure none) s
          e in
      let given : with_letter_id uuid_string new_id letter ≡ letter = rw named in
      let (err, q') =
        publish-with_error fuel letter false s t
          (subst (λ l. publish env fuel l false s ≡ some (a, t)) given q) in
      let (sent, receipts) = publish_with_error-once env fuel letter false s t all q' in
      let (same, last) = pure-some e₁ in
      subst
        (λ (z : Sys Queue).
          (r ≡ none)
          × SentOnce letter s z
          × ((err : Option Error) × (z.receipts ≡ make_receipt letter err ∷ s.receipts)))
        last (sym same, sent, (err, receipts))
