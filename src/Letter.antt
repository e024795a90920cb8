-- ===== src/Letter.antt =====
-- v2/pkg/tcr/letter.go and the two builders of v2/pkg/tcr/letters.go that draw nothing at random.
-- A uuid.UUID is the number of its sixteen bytes, and what uuid.New returns is an argument.
use turbocookedrabbit.Base.{ℕ, String, Bool, false, Option, none, some, List, [], ◌∷◌}
use turbocookedrabbit.Config.{Table}

abbrev pub Bytes : Type 0
Bytes = List ℕ

pub record Envelope : Type 0 where
  pub exchange : String
  pub routing_key : String
  pub content_type : String
  pub correlation_id : String
  pub type : String
  pub mandatory : Bool
  pub immediate : Bool
  pub headers : Table
  pub delivery_mode : ℕ
  pub priority : ℕ

pub record Letter : Type 0 where
  pub letter_id : ℕ
  pub retry_count : ℕ
  pub body : Bytes
  pub envelope : Envelope

pub record ModdedBody : Type 0 where
  pub encrypted : Bool
  pub e_type : String
  pub compressed : Bool
  pub c_type : String
  pub utc_date_time : String
  pub contents : Bytes

pub record WrappedBody : Type 0 where
  pub letter_id : ℕ
  pub body : ModdedBody
  pub letter_metadata : String

-- Go's zero value of the fields that a literal leaves out.
abbrev pub zero_envelope : Envelope
zero_envelope = record {
  exchange = "";
  routing_key = "";
  content_type = "";
  correlation_id = "";
  type = "";
  mandatory = false;
  immediate = false;
  headers = none;
  delivery_mode = 0;
  priority = 0;
}

abbrev pub zero_modded_body : ModdedBody
zero_modded_body = record {
  encrypted = false;
  e_type = "";
  compressed = false;
  c_type = "";
  utc_date_time = "";
  contents = [];
}

unfoldable pub create_letter : ℕ → String → String → Bytes → Letter
create_letter new_id exchange_name routing_key body = record {
  letter_id = new_id;
  retry_count = 3;
  body = body;
  envelope = record zero_envelope {
    exchange = exchange_name;
    routing_key = routing_key;
    content_type = "application/json";
  };
}

-- "hello world", the body for a nil slice.
abbrev pub hello_world : Bytes
hello_world = 0x68 ∷ 0x65 ∷ 0x6c ∷ 0x6c ∷ 0x6f ∷ 0x20 ∷ 0x77 ∷ 0x6f ∷ 0x72 ∷ 0x6c ∷ 0x64 ∷ []

abbrev body_or_hello : Option Bytes → Bytes
body_or_hello none = hello_world
body_or_hello (some body) = body

unfoldable pub create_mock_letter : ℕ → String → String → Option Bytes → Letter
create_mock_letter new_id exchange_name routing_key body = record {
  letter_id = new_id;
  retry_count = 3;
  body = body_or_hello body;
  envelope = record zero_envelope {
    exchange = exchange_name;
    routing_key = routing_key;
    content_type = "application/json";
    delivery_mode = 2;
  };
}
