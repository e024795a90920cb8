-- ===== src/Examples/Randoms.antt =====
-- Random strings from a source that counts.
use turbocookedrabbit.Random.{
  random_string_from_source, random_loop, refilled, letter_at, letter_bytes,
}
use turbocookedrabbit.Random.Letters.{
  random_string_from_source-letters, random_string_from_source-NoneLate, drawn_letters, NoneLate,
}
use turbocookedrabbit.Base.{ℕ, ◌≡◌, ◌+◌, ◌*◌, refl, some, arith, List}

abbrev source : ℕ → ℕ
source n = n * 130 + 65

random_string_from_source-letters_example :
    (d : ℕ) × (random_string_from_source source 0 12 12 ≡ some (drawn_letters source 12, d))
random_string_from_source-letters_example =
    random_string_from_source-letters source 12 12 (omega arith)

abbrev drawn : List ℕ
drawn = drawn_letters source 3

random_string_from_source-NoneLate_example : NoneLate drawn
unfolding random_string_from_source random_loop refilled letter_at letter_bytes
random_string_from_source-NoneLate_example =
    random_string_from_source-NoneLate source 3 3 1 drawn (omega arith) refl
