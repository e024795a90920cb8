-- ===== src/Random.antt =====
-- v2/pkg/tcr/random.go, and the mock letters of letters.go that draw from it. A rand.Source is the
-- sequence of the numbers that its Int63 gives, of which some were drawn; `fuel` bounds the rounds
-- of the loop. A negative size panics, and is left out.
pub mod Letters
pub mod Repeats
use turbocookedrabbit.Config.{text}
use turbocookedrabbit.Codec.{Library, Result, ok, err}
use turbocookedrabbit.Letter.{Letter, Bytes, zero_envelope, zero_modded_body}
use turbocookedrabbit.Letter.{Letter, Bytes, zero_envelope, zero_modded_body}
use turbocookedrabbit.Codec.{Result, Library, ok, err}
use turbocookedrabbit.Config.{text}
use Prim.Native.Char.{code}
use turbocookedrabbit.Base.{
  ℕ, zero, suc, String, Bool, true, false, Option, none, some, List, [], ◌∷◌, ◌++◌, ◌+◌, ◌-◌, ◌/◌,
  ◌%◌, ◌==◌, ltb, if◌then◌else◌, length, get_or, replicate, set,
}

-- The code points of a text: its bytes, since all are ASCII here.
codes : String → List ℕ
codes String.[] = []
codes (String.◌∷◌ c s) = code c ∷ codes s

unfoldable pub letter_bytes : List ℕ
unfolding codes
letter_bytes = codes "0123456789!@#$%^&*()_+abcdefghijklmnopqrstuvwxyzABCDEFGHIJKLMNOPQRSTUVWXYZ"

unfoldable pub letter_at : ℕ → ℕ
letter_at i = get_or letter_bytes i 0

-- `if remain == 0 { cache, remain = src.Int63(), letterIdxMax }`: the cache, what remains of it, and
-- how many numbers were drawn.
unfoldable pub refilled : (ℕ → ℕ) → ℕ → ℕ → ℕ → ℕ × ℕ × ℕ
refilled src cache remain drawn =
    if remain == 0 then (src drawn, 10, drawn + 1) else (cache, remain, drawn)

-- The loop, with `left` places of the slice to fill and those behind them filled. A number that is
-- no index of a letter is skipped.
unfoldable pub random_loop : (ℕ → ℕ) → ℕ → ℕ → ℕ → ℕ → ℕ → List ℕ → Option (List ℕ × ℕ)
random_loop src zero fuel cache remain drawn out = some (out, drawn)
random_loop src (suc left) zero cache remain drawn out = none
random_loop src (suc left) (suc fuel) cache remain drawn out =
    let (c, r, d) = refilled src cache remain drawn in
    elim (ltb (c % 64) (length letter_bytes)) [
      | true ↦ random_loop src left fuel (c / 64) (r - 1) d (letter_at (c % 64) ∷ out)
      | false ↦ random_loop src (suc left) fuel (c / 64) (r - 1) d out
    ]

-- RandomStringFromSource and RandomString, from a source of which `drawn` numbers were drawn.
unfoldable pub random_string_from_source : (ℕ → ℕ) → ℕ → ℕ → ℕ → Option (List ℕ × ℕ)
random_string_from_source src drawn fuel size =
    random_loop src size fuel (src drawn) 10 (drawn + 1) []

-- The inner loop of RepeatedBytes at index `i`, from `j` on, with `rounds` rounds to go: the buffer,
-- and whether it broke out of both loops.
unfoldable pub repeat_byte : ℕ → ℕ → ℕ → ℕ → List ℕ → List ℕ × Bool
repeat_byte size i j zero buffer = (buffer, false)
repeat_byte size i j (suc rounds) buffer =
    let rest = repeat_byte size i (j + 1) rounds (set buffer i (i % 256)) in
    if i + j == size then (buffer, true) else rest

-- The outer loop, with `left` rounds to go.
unfoldable pub repeat_bytes_from : ℕ → ℕ → ℕ → ℕ → List ℕ → List ℕ
repeat_bytes_from size repeat i zero buffer = buffer
repeat_bytes_from size repeat i (suc left) buffer =
    let (b, broke) = repeat_byte size i 0 repeat buffer in
    let rest = repeat_bytes_from size repeat (i + 1) left b in if broke then b else rest

-- RepeatedBytes: none is nil.
unfoldable pub repeated_bytes : ℕ → ℕ → Option (List ℕ)
repeated_bytes size repeat =
    if ltb repeat 10 then none else some (repeat_bytes_from size repeat 0 size (replicate size 0))

-- CreateMockRandomLetter; `size` is what Intn gives, and the source has `drawn` numbers behind it.
unfoldable pub create_mock_random_letter : (ℕ → ℕ) → ℕ → ℕ → ℕ → ℕ → String → Option (Letter × ℕ)
create_mock_random_letter src drawn fuel size new_id routing_key =
    elim (random_string_from_source src drawn fuel (size + 1500)) [
      | none ↦ none
      | some (body, d) ↦ some (
        record {
          letter_id = new_id;
          retry_count = 0;
          body = body;
          envelope = record zero_envelope {
            routing_key = routing_key;
            content_type = "application/json";
            delivery_mode = 2;
            headers = some (("x-tcr-testheader", text "HelloWorldHeader") ∷ []);
          };
        },
        d,
      )
    ]

-- What a `data, _ :=` keeps.
abbrev or_empty : Result Bytes → Bytes
or_empty (ok bytes) = bytes
or_empty (err e) = []

-- CreateMockRandomWrappedBodyLetter; an error of Marshal is dropped.
unfoldable pub create_mock_random_wrapped_body_letter :
    {Input : Type 0}
    → Library Input
    → (ℕ → ℕ)
    → ℕ
    → ℕ
    → ℕ
    → ℕ
    → String
    → String
    → Option (Letter × ℕ)
create_mock_random_wrapped_body_letter lib src drawn fuel size new_id now routing_key =
    elim (random_string_from_source src drawn fuel (size + 1500)) [
      | none ↦ none
      | some (body, d) ↦ some (
        record {
          letter_id = new_id;
          retry_count = 0;
          body = or_empty (
              lib.marshal_wrapped (record {
                letter_id = new_id;
                letter_metadata = "";
                body = record zero_modded_body { utc_date_time = now; contents = body };
              }));
          envelope = record zero_envelope {
            routing_key = routing_key;
            content_type = "application/json";
            delivery_mode = 2;
          };
        },
        d,
      )
    ]
