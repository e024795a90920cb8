-- ===== src/Random/Repeats.antt =====
-- What the repeated bytes are.

use turbocookedrabbit.Random.{repeat_byte, repeat_bytes_from, repeated_bytes}
use native.Mathlib.Decide.{dec_lt, ℕ_discrete}
use turbocookedrabbit.Base.{
  ℕ, true, false, List, length, ◌+◌, ◌<◌, suc, ◌≡◌, ◌≤◌, get_or, set, ◌-◌, if◌then◌else◌, ◌%◌,
  length-set, ltb, arith, zero, ◌∙◌, Bool-cases, get_or-set_self, set-set, get_or-set_other, inl,
  some, replicate, subst, length-replicate, get_or-replicate, inr,
}

-- The inner loop writes one value into one place, and breaks where the size lies in its reach.
repeat_byte_lem :
    (size i j rounds : ℕ) (buffer : List ℕ)
    → i + j ≤ size
    → repeat_byte size i j rounds (set buffer i (i % 256))
      ≡ (set buffer i (i % 256), ltb size (i + j + rounds))
unfolding repeat_byte
repeat_byte_lem size i j zero buffer h = ground arith
repeat_byte_lem size i j (suc rounds) buffer h = elim (dec_lt (i + j) size) [
  | yes more ↦
      let ih = repeat_byte_lem size i (j + 1) rounds buffer (omega arith) in
      ground (arith, ih, set-set buffer i (i % 256))
  | no here ↦ ground arith
]

repeat_byte_first :
    (size i repeat : ℕ) (buffer : List ℕ)
    → i < size
    → 0 < repeat
    → repeat_byte size i 0 repeat buffer ≡ (set buffer i (i % 256), ltb size (i + repeat))
unfolding repeat_byte
repeat_byte_first size i zero buffer h k = absurd (omega (arith, k))
repeat_byte_first size i (suc r) buffer h k =
    let rest = repeat_byte_lem size i 1 r buffer (omega arith) in ground (arith, rest)

-- The first `n` places hold their index as a byte, the others 0.
record Filled (size n : ℕ) (buffer : List ℕ) : Type 0 where
  long : length buffer ≡ size
  holds : (k : ℕ) → k < size → get_or buffer k 0 ≡ (if ltb k n then k % 256 else 0)

Filled-set :
    (size i : ℕ) (buffer : List ℕ)
    → i < size
    → Filled size i buffer
    → Filled size (suc i) (set buffer i (i % 256))
Filled-set size i buffer h f = record {
  long = length-set buffer i (i % 256) ∙ f.long;
  holds = λ k below. elim (ℕ_discrete i k) [
    | yes e ↦ ground (arith, get_or-set_self buffer i (i % 256) 0, f.long)
    | no ne ↦ ground (arith, get_or-set_other buffer i k (i % 256) 0 ne, f.holds k below)
  ];
}

one_more : (i : ℕ) → suc i ≡ i + 1
one_more i = omega arith

-- Where the loop breaks.
Filled-last :
    (size repeat i : ℕ) (buffer : List ℕ)
    → size < i + repeat
    → i ≤ size + 1 - repeat
    → Filled size (suc i) buffer
    → Filled size (size + 2 - repeat) buffer
Filled-last size repeat i buffer h k f = record {
  long = f.long;
  holds = λ n below. let e = f.holds n below in ground arith;
}

repeat_bytes_from-Filled :
    (size repeat i left : ℕ) (buffer : List ℕ)
    → 1 < repeat
    → i + left ≡ size
    → i ≤ size + 1 - repeat
    → Filled size i buffer
    → Filled size (size + 2 - repeat) (repeat_bytes_from size repeat i left buffer)
unfolding repeat_bytes_from
repeat_bytes_from-Filled size repeat i zero buffer h e k f = record {
  long = f.long;
  holds = λ n below. absurd (omega arith);
}
repeat_bytes_from-Filled size repeat i (suc left) buffer h e k f =
    let b = set buffer i (i % 256) in
    let first = repeat_byte_first size i repeat buffer (omega (arith, e)) (omega (arith, h)) in
    let f' = Filled-set size i buffer (omega (arith, e)) f in
    elim (Bool-cases (ltb size (i + repeat))) [
      | inl broke ↦
          subst (Filled size (size + 2 - repeat)) (stops_here first broke)
            (Filled-last size repeat i b (ground arith) k f')
      | inr on ↦ subst (Filled size (size + 2 - repeat)) (goes_on first on) (
          repeat_bytes_from-Filled size repeat (i + 1) left b h (omega (arith, e)) (ground arith)
            (subst (λ n. Filled size n b) (one_more i) f'))
    ]
  where
    stops_here :
        repeat_byte size i 0 repeat buffer ≡ (set buffer i (i % 256), ltb size (i + repeat))
        → ltb size (i + repeat) ≡ true
        → set buffer i (i % 256) ≡ repeat_bytes_from size repeat i (suc left) buffer
    stops_here first broke = ground arith

    goes_on :
        repeat_byte size i 0 repeat buffer ≡ (set buffer i (i % 256), ltb size (i + repeat))
        → ltb size (i + repeat) ≡ false
        → repeat_bytes_from size repeat (i + 1) left (set buffer i (i % 256))
          ≡ repeat_bytes_from size repeat i (suc left) buffer
    goes_on first on = ground arith

none_below : (k : ℕ) → 0 ≡ (if ltb k 0 then k % 256 else 0)
none_below k = ground arith

-- RepeatedBytes repeats nothing: place `k` holds the byte of its own index, up to the first index
-- from which the repeat count reaches past the size, and 0 behind that.
pub repeated_bytes-indices :
    (size repeat : ℕ)
    → 10 ≤ repeat
    → (b : List ℕ) × (repeated_bytes size repeat ≡ some b)
      × (length b ≡ size)
      × ((k : ℕ) → k < size → get_or b k 0 ≡ (if ltb k (size + 2 - repeat) then k % 256 else 0))
unfolding repeated_bytes
repeated_bytes-indices size repeat h =
    let b = repeat_bytes_from size repeat 0 size (replicate size 0) in
    let start : Filled size 0 (replicate size 0) = record {
      long = length-replicate size 0;
      holds = λ k below. get_or-replicate size k 0 ∙ none_below k;
    } in
    let f =
      repeat_bytes_from-Filled size repeat 0 size (replicate size 0) (omega (arith, h))
        (omega arith) (omega arith) start in
    (b, ground arith, f.long, f.holds)
