-- ===== src/Service/Headers.antt =====
-- Which headers a published letter bears.
use turbocookedrabbit.Config.{Table}
use turbocookedrabbit.Letter.{Bytes}
use turbocookedrabbit.Amqp.{Error}
use turbocookedrabbit.Service.{publish_letter_of, publish_with_confirmation_letter}
use turbocookedrabbit.Base.{refl, ℕ, Bool, Option, String, ◌≡◌, none}

-- RabbitService.Publish ignores the headers that it is given: its letter, or its error, is what
-- PublishWithConfirmation makes of the same input without headers.
pub publish_letter_of-ignores :
    (shutdown : Bool) (input : Option (Option Error × Bytes)) (id : ℕ)
    (exchange_name routing_key : String) (headers : Table)
    → publish_letter_of shutdown input id exchange_name routing_key headers
      ≡ publish_with_confirmation_letter shutdown input id exchange_name routing_key none
unfolding publish_letter_of publish_with_confirmation_letter
publish_letter_of-ignores shutdown input id exchange_name routing_key headers = refl
