-- ===== src/Message.antt =====
-- v2/pkg/tcr/message.go: acknowledging, and the records that mirror the client library's. A
-- delivery of the library is a number; what it holds is a parameter. The zero delivery, `none`, has
-- no acknowledger.
use Prim.Native.String.{◌++◌ as str_append}
use turbocookedrabbit.Letter.{Bytes}
use turbocookedrabbit.Config.{Table}
use turbocookedrabbit.State.{PublishReceipt}
use turbocookedrabbit.Consumer.{ReceivedMessage}
use turbocookedrabbit.Amqp.{Error}
use turbocookedrabbit.Base.{ℕ, String, Bool, false, not, Option, none, some, [], if◌then◌else◌}

-- What amqp.Delivery holds of the acknowledging: the channel, unless it is nil, and the tag.
pub record Delivery : Type 0 where
  pub acknowledger : Option ℕ
  pub delivery_tag : ℕ

-- The calls of an acknowledger: the tag, then `multiple`, then `requeue`.
pub data AckCall : Type 0 where
  ack : ℕ → Bool → AckCall
  nack : ℕ → Bool → Bool → AckCall
  reject : ℕ → Bool → AckCall

-- An error that the code makes, or one call on a channel, whose error is the result.
pub data Settled : Type 0 where
  not_ackable no_channel : Settled
  called : ℕ → AckCall → Settled

module _ (delivery_of : ℕ → Delivery) where
  unfoldable pub acknowledger_of : Option ℕ → Option (ℕ × ℕ)
  acknowledger_of none = none
  acknowledger_of (some d) = elim (delivery_of d).acknowledger [
    | none ↦ none
    | some channel ↦ some (channel, (delivery_of d).delivery_tag)
  ]

  -- The two guards, and the call.
  unfoldable pub settle_message : (ℕ → AckCall) → ReceivedMessage → Settled
  settle_message call msg =
      if not msg.is_ackable then not_ackable else elim (acknowledger_of msg.delivery) [
        | none ↦ no_channel
        | some (channel, tag) ↦ called channel (call tag)
      ]

  unfoldable pub acknowledge : ReceivedMessage → Settled
  acknowledge msg = settle_message (λ tag. ack tag false) msg

  unfoldable pub nack_message : Bool → ReceivedMessage → Settled
  nack_message requeue msg = settle_message (λ tag. nack tag false requeue) msg

  unfoldable pub reject_message : Bool → ReceivedMessage → Settled
  reject_message requeue msg = settle_message (λ tag. reject tag requeue) msg

-- PublishReceipt.ToString, over the texts of the number and of the error.
unfoldable pub to_string : (ℕ → String) → (Option Error → String) → PublishReceipt → String
to_string uuid_string error_text receipt =
    let head = str_append "[LetterID: " (uuid_string receipt.letter_id) in
    if receipt.success
    then str_append head "] - Publish successful.\r\n"
    else str_append head
        (str_append "] - Publish failed.\r\nError: " (str_append (error_text receipt.error) "\r\n"))

-- amqp.Error, whose code is an int; the number stands for it.
pub record ErrorMessage : Type 0 where
  pub code : ℕ
  pub reason : String
  pub server : Bool
  pub recover : Bool

unfoldable pub new_error_message : ErrorMessage → ErrorMessage
new_error_message e = record {
  code = e.code;
  reason = e.reason;
  server = e.server;
  recover = e.recover;
}

-- amqp.Return has these fields too; its timestamp is a number.
pub record ReturnMessage : Type 0 where
  pub reply_code : ℕ
  pub reply_text : String
  pub exchange : String
  pub routing_key : String
  pub content_type : String
  pub content_encoding : String
  pub headers : Table
  pub delivery_mode : ℕ
  pub priority : ℕ
  pub correlation_id : String
  pub reply_to : String
  pub expiration : String
  pub message_id : String
  pub timestamp : ℕ
  pub type : String
  pub user_id : String
  pub app_id : String
  pub body : Bytes

-- The body is not copied.
unfoldable pub new_return_message : ReturnMessage → ReturnMessage
new_return_message r = record {
  reply_code = r.reply_code;
  reply_text = r.reply_text;
  exchange = r.exchange;
  routing_key = r.routing_key;
  content_type = r.content_type;
  content_encoding = r.content_encoding;
  headers = r.headers;
  delivery_mode = r.delivery_mode;
  priority = r.priority;
  correlation_id = r.correlation_id;
  reply_to = r.reply_to;
  expiration = r.expiration;
  message_id = r.message_id;
  timestamp = r.timestamp;
  type = r.type;
  user_id = r.user_id;
  app_id = r.app_id;
  body = [];
}

pub record PublishConfirmation : Type 0 where
  pub delivery_tag : ℕ
  pub acked : Bool

unfoldable pub new_publish_confirmation : PublishConfirmation → PublishConfirmation
new_publish_confirmation c = record { delivery_tag = c.delivery_tag; acked = c.acked }
