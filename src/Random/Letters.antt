-- ===== src/Random/Letters.antt =====
-- What a random string is made of.
use turbocookedrabbit.Random.{
  letter_bytes, random_loop, refilled, letter_at, random_string_from_source,
}
use native.Mathlib.Decide.{dec_lt}
use native.Mathlib.Nat.{div-one, div-div-eq-div-mul, pow-suc}
use turbocookedrabbit.Base.{
  ℕ, true, false, List, ◌/◌, ◌<◌, [], suc, ◌*◌, ◌^◌, ◌%◌, ◌+◌, ◌-◌, ◌≡◌, arith, refl, ◌∙◌, ◌∷◌, ap,
  ap₂, zero, sym, length, ◌≤◌, some, add-zero, Bool, not, subst, leb, ◌&&◌, get_or, take,
}

-- The six bits of the source that letter `p` is drawn by: ten letters to a number.
abbrev pub pick : (ℕ → ℕ) → ℕ → ℕ
pick src p = src (p / 10) / 64 ^ (p % 10) % 64

-- The letters drawn by the first `n` groups of six bits, the last one in front.
abbrev pub drawn_letters : (ℕ → ℕ) → ℕ → List ℕ
drawn_letters src zero = []
drawn_letters src (suc n) = letter_at (pick src n) ∷ drawn_letters src n

-- There are more letters than six bits can index.
length-letter_bytes : length letter_bytes ≡ 74
unfolding letter_bytes
length-letter_bytes = refl

shift_six : (x j : ℕ) → x / 64 ^ j / 64 ≡ x / 64 ^ suc j
shift_six x j = div-div-eq-div-mul x (64 ^ j) 64 ∙ ap (λ m. x / m) (sym (pow-suc 64 j))

pick_at : (src : ℕ → ℕ) (k j : ℕ) → j < 10 → pick src (10 * k + j) ≡ src k / 64 ^ j % 64
pick_at src k j h =
    let a : (10 * k + j) / 10 ≡ k = omega arith in
    let b : (10 * k + j) % 10 ≡ j = omega arith in ap₂ (λ m n. src m / 64 ^ n % 64) a b

-- No refill, and every index is a letter's.
round_lem :
    (src : ℕ → ℕ) (left fuel cache remain drawn : ℕ) (out : List ℕ)
    → 0 < remain
    → random_loop src (suc left) (suc fuel) cache remain drawn out
      ≡ random_loop src left fuel (cache / 64) (remain - 1) drawn (letter_at (cache % 64) ∷ out)
unfolding random_loop refilled
round_lem src left fuel cache remain drawn out h = ground (arith, length-letter_bytes)

refill_lem :
    (src : ℕ → ℕ) (left fuel cache drawn : ℕ) (out : List ℕ)
    → random_loop src (suc left) (suc fuel) cache 0 drawn out
      ≡ random_loop src (suc left) (suc fuel) (src drawn) 10 (drawn + 1) out
unfolding random_loop refilled
refill_lem src left fuel cache drawn out = refl

next : (k j : ℕ) → suc (10 * k + j) ≡ 10 * k + suc j
next k j = omega arith

less : (j : ℕ) → 10 - j - 1 ≡ 10 - suc j
less j = omega arith

letters_round :
    (src : ℕ → ℕ) (left fuel k j : ℕ)
    → j < 10
    → random_loop src
        (suc left)
        (suc fuel)
        (src k / 64 ^ j)
        (10 - j)
        (k + 1)
        (drawn_letters src (10 * k + j))
      ≡ random_loop src left fuel
          (src k / 64 ^ suc j)
          (10 - suc j)
          (k + 1)
          (drawn_letters src (10 * k + suc j))
letters_round src left fuel k j h =
    let same : letter_at (src k / 64 ^ j % 64) ∷ drawn_letters src (10 * k + j)
        ≡ drawn_letters src (10 * k + suc j) =
      ap (λ i. letter_at i ∷ drawn_letters src (10 * k + j)) (sym (pick_at src k j h))
      ∙ ap (drawn_letters src) (next k j) in
    round_lem src left fuel (src k / 64 ^ j) (10 - j) (k + 1) (drawn_letters src (10 * k + j))
      (omega arith)
    ∙ ap
        (λ c.
          random_loop src left fuel c (10 - j - 1) (k + 1)
            (letter_at (src k / 64 ^ j % 64) ∷ drawn_letters src (10 * k + j)))
        (shift_six (src k) j)
    ∙ ap₂ (λ r out. random_loop src left fuel (src k / 64 ^ suc j) r (k + 1) out) (less j) same

onward : (k j left : ℕ) → 10 * k + suc j + left ≡ 10 * k + j + suc left
onward k j left = omega arith

after_refill : (k j left : ℕ) → j ≡ 10 → 10 * (k + 1) + 1 + left ≡ 10 * k + j + suc left
after_refill k j left e = omega (arith, e)

-- A round that refills the cache first.
refilled_round :
    (src : ℕ → ℕ) (left fuel k j : ℕ)
    → j ≡ 10
    → random_loop src
        (suc left)
        (suc fuel)
        (src k / 64 ^ j)
        (10 - j)
        (k + 1)
        (drawn_letters src (10 * k + j))
      ≡ random_loop src left fuel
          (src (k + 1) / 64 ^ 1)
          (10 - 1)
          (k + 1 + 1)
          (drawn_letters src (10 * (k + 1) + 1))
refilled_round src left fuel k j e =
    let out = drawn_letters src (10 * k + j) in
    let spent : 10 - j ≡ 0 = omega (arith, e) in
    let place : 10 * k + j ≡ 10 * (k + 1) + 0 = omega (arith, e) in
    let whole : src (k + 1) ≡ src (k + 1) / 64 ^ 0 = sym (div-one (src (k + 1))) in
    ap (λ r. random_loop src (suc left) (suc fuel) (src k / 64 ^ j) r (k + 1) out) spent
    ∙ refill_lem src left fuel (src k / 64 ^ j) (k + 1) out
    ∙ ap₂ (λ c n. random_loop src (suc left) (suc fuel) c 10 (k + 1 + 1) (drawn_letters src n))
        whole place
    ∙ letters_round src left fuel (k + 1) 0 (omega arith)

letters_loop :
    (src : ℕ → ℕ) (left fuel k j : ℕ)
    → j ≤ 10
    → left ≤ fuel
    → (d : ℕ) × (random_loop src left fuel
          (src k / 64 ^ j)
          (10 - j)
          (k + 1)
          (drawn_letters src (10 * k + j))
        ≡ some (drawn_letters src (10 * k + j + left), d))
unfolding random_loop
letters_loop src zero fuel k j h f =
    (k + 1, ap (λ n. some (drawn_letters src n, k + 1)) (sym (add-zero (10 * k + j))))
letters_loop src (suc left) zero k j h f = absurd (omega (arith, f))
letters_loop src (suc left) (suc fuel) k j h f = elim (dec_lt j 10) [
  | yes more ↦
      let (d, e) = letters_loop src left fuel k (suc j) more (omega (arith, f)) in
      (
        d,
        letters_round src left fuel k j more
            ∙ e
            ∙ ap (λ n. some (drawn_letters src n, d)) (onward k j left),
      )
  | no used_up ↦
      let ten : j ≡ 10 = omega (arith, h, used_up) in
      let (d, e) = letters_loop src left fuel (k + 1) 1 (omega arith) (omega (arith, f)) in
      (
        d,
        refilled_round src left fuel k j ten
            ∙ e
            ∙ ap (λ n. some (drawn_letters src n, d)) (after_refill k j left ten),
      )
]

from_nothing : (n : ℕ) → 10 * 0 + 0 + n ≡ n
from_nothing n = omega arith

-- RandomStringFromSource ends after as many rounds as it has letters: no number is skipped. Letter
-- `p` from the end is the one that the `p`-th group of six bits of the source indexes, ten groups to
-- a number, lowest first.
pub random_string_from_source-letters :
    (src : ℕ → ℕ) (fuel size : ℕ)
    → size ≤ fuel
    → (d : ℕ) × (random_string_from_source src 0 fuel size ≡ some (drawn_letters src size, d))
unfolding random_string_from_source
random_string_from_source-letters src fuel size h =
    let (d, e) = letters_loop src size fuel 0 0 (omega arith) h in
    (
      d,
      ap (λ c. random_loop src size fuel c 10 1 []) (sym (div-one (src 0)))
          ∙ e
          ∙ ap (λ n. some (drawn_letters src n, d)) (from_nothing size),
    )

abbrev pub is_late : ℕ → Bool
is_late c = leb b'Q' c && leb c b'Z'

-- The first 64 letters, whose index has six bits.
none_late : List ℕ → Bool
none_late [] = true
none_late (c ∷ cs) = not (is_late c) && none_late cs

first_letters-none_late : none_late (take 64 letter_bytes) ≡ true
unfolding none_late letter_bytes
first_letters-none_late = refl

none_late-get_or :
    (cs : List ℕ) (i : ℕ) → none_late cs ≡ true → i < length cs → is_late (get_or cs i 0) ≡ false
unfolding none_late
none_late-get_or [] i all inside = absurd (omega arith)
none_late-get_or (c ∷ cs) zero all inside = ground arith
none_late-get_or (c ∷ cs) (suc i) all inside = none_late-get_or cs i (ground arith) (omega arith)

get_or-take : (xs : List ℕ) (n i : ℕ) → i < n → get_or (take n xs) i 0 ≡ get_or xs i 0
get_or-take xs zero i h = absurd (omega arith)
get_or-take [] (suc n) i h = refl
get_or-take (x ∷ xs) (suc n) zero h = refl
get_or-take (x ∷ xs) (suc n) (suc i) h = get_or-take xs n i (omega arith)

abbrev pub NoneLate : List ℕ → Type 0
NoneLate [] = Unit {0}
NoneLate (c ∷ cs) = (is_late c ≡ false) × NoneLate cs

early : (i : ℕ) → i < 64 → is_late (letter_at i) ≡ false
unfolding letter_at letter_bytes
early i h =
    subst (λ c. is_late c ≡ false) (get_or-take letter_bytes 64 i h)
      (none_late-get_or (take 64 letter_bytes) i first_letters-none_late h)

drawn_letters-NoneLate : (src : ℕ → ℕ) (n : ℕ) → NoneLate (drawn_letters src n)
drawn_letters-NoneLate src zero = tt
drawn_letters-NoneLate src (suc n) =
    (early (pick src n) (omega arith), drawn_letters-NoneLate src n)

-- The letters from Q to Z, whose index has more than six bits, never occur in a random string,
-- whatever the source, the size and the rounds.
pub random_string_from_source-NoneLate :
    (src : ℕ → ℕ) (fuel size d : ℕ) (s : List ℕ)
    → size ≤ fuel
    → random_string_from_source src 0 fuel size ≡ some (s, d)
    → NoneLate s
random_string_from_source-NoneLate src fuel size d s h e =
    let (d', e') = random_string_from_source-letters src fuel size h in
    let same : drawn_letters src size ≡ s = cc (sym e' ∙ e) in
    subst NoneLate same (drawn_letters-NoneLate src size)
