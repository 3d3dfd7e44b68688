-- ===== src/Address.antt =====
-- `Address` of crates/core/src/prefix.rs: a 128-bit key of four `u32` words, the most significant
-- first. A `[u32; 4]` is a record of its four words, and a loop over `0..4` a recursion on their
-- list.
pub mod Words
pub mod Agree
use slash.Base.{
  ℕ, zero, suc, ◌+◌, ◌-◌, ◌*◌, ◌/◌, ◌%◌, ◌^◌, min, bit_and, bit_xor, Bool, true, false, ◌&&◌,
  Option, none, some, List, [], ◌∷◌, ltb, leb, ◌==◌, if◌then◌else◌,
}
use slash.Base.Outcome.{Outcome, done, ◌>>=◌, ◌>>◌, expect, assert}
use slash.Word.{◌<<<◌, ◌>>>◌, all_ones, leading_zeros}

pub record Address : Type 0 where
  pub w0 : ℕ
  pub w1 : ℕ
  pub w2 : ℕ
  pub w3 : ℕ

abbrev pub address : ℕ → ℕ → ℕ → ℕ → Address
address a b c d = record { w0 = a; w1 = b; w2 = c; w3 = d }

abbrev pub words : Address → List ℕ
words a = a.w0 ∷ a.w1 ∷ a.w2 ∷ a.w3 ∷ []

-- `self.0[i]`; the index 4 and those above are out of bounds.
abbrev pub word? : Address → ℕ → Option ℕ
word? a zero = some a.w0
word? a (suc zero) = some a.w1
word? a (suc (suc zero)) = some a.w2
word? a (suc (suc (suc zero))) = some a.w3
word? a (suc (suc (suc (suc i)))) = none

abbrev pub address_eq : Address → Address → Bool
address_eq a b = a.w0 == b.w0 && a.w1 == b.w1 && a.w2 == b.w2 && a.w3 == b.w3

unfoldable pub bit_at : Address → ℕ → Outcome ℕ
bit_at a pos = do
  word ← expect (word? a (pos / 32))
  let bit_in_word = 31 - pos % 32
  done (bit_and (word >>> bit_in_word) 1)

-- The loop of `common_prefix_len` from the words that are left.
unfoldable pub common_loop : (max_check : ℕ) → List ℕ → List ℕ → ℕ → ℕ
common_loop max_check [] ys common = common
common_loop max_check (x ∷ xs) [] common = common
common_loop max_check (x ∷ xs) (y ∷ ys) common =
    let xor = bit_xor x y in
    let word_remaining = max_check - common in
    let next = common_loop max_check xs ys (common + min 32 word_remaining) in
    if leb max_check common
    then common
    else (if xor == 0 then next else common + min (leading_zeros xor) word_remaining)

unfoldable pub common_prefix_len : Address → ℕ → Address → ℕ → ℕ
common_prefix_len a self_len other other_len =
    let max_check = min self_len other_len in
    if max_check == 0 then 0 else common_loop max_check (words a) (words other) 0

-- One round of the loop of `masked`, at the word that begins with bit `word_start`.
unfoldable pub masked_word : ℕ → ℕ → ℕ → ℕ
masked_word len word_start word =
    if leb len word_start
    then 0
    else (if ltb len (word_start + 32)
        then (let bits_to_keep = len - word_start in
            let shift = 32 - bits_to_keep in bit_and word (all_ones <<< shift))
        else word)

unfoldable pub masked : Address → ℕ → Address
masked a len =
    address (masked_word len 0 a.w0) (masked_word len 32 a.w1) (masked_word len 64 a.w2)
      (masked_word len 96 a.w3)

-- `From<u128>`: `(value >> ((3 - i) * 32) & (!0u32 as u128)) as u32`.
unfoldable pub from_u128 : ℕ → Address
from_u128 value =
    address (value / 2 ^ 96 % 2 ^ 32) (value / 2 ^ 64 % 2 ^ 32) (value / 2 ^ 32 % 2 ^ 32)
      (value % 2 ^ 32)

unfoldable pub from_u32 : ℕ → Address
from_u32 value = address value 0 0 0
