-- ===== src/Setup/Hex.antt =====
-- setup.rs, hex and sha256_for_path: the digest of a file as a text.
use mathlib.Core.List.{flatten}
use multi_fuzz_benchmarks.Prelude.{
  ℕ, zero, suc, ◌+◌, ◌*◌, ◌/◌, ◌%◌, ◌<◌, ◌≡◌, refl, ap, arith, Bool, true, false, ◌&&◌, Option,
  none, some, List, [], ◌∷◌, ◌++◌, map, Text, ◌==◌, nat_eq,
}
use multi_fuzz_benchmarks.Prelude.Radix.{to_digit}
use multi_fuzz_benchmarks.Prelude.Outcome.{ok}
use multi_fuzz_benchmarks.Rpc.{Bytes}
use multi_fuzz_benchmarks.Setup.{digit_4bits, hex, Hasher, hash_reads}

-- The bytes that a text of hexadecimal digits stands for, two digits each.
unfoldable pub from_hex : Text → Option Bytes
from_hex [] = some []
from_hex (h ∷ []) = none
from_hex (h ∷ l ∷ rest) = join (to_digit 16 h) (to_digit 16 l) (from_hex rest)
  where
    join : Option ℕ → Option ℕ → Option Bytes → Option Bytes
    join (some high) (some low) (some bytes) = some ((high * 16 + low) ∷ bytes)
    join _ _ _ = none

abbrev pub AreBytes : Bytes → Type 0
AreBytes [] = Unit
AreBytes (b ∷ bs) = (b < 256) × AreBytes bs

abbrev is_digit : Option ℕ → ℕ → Bool
is_digit none i = false
is_digit (some d) i = d == i

all_digits : ℕ → Bool
all_digits zero = true
all_digits (suc n) = is_digit (to_digit 16 (digit_4bits n)) n && all_digits n

all_digits_sound : (n i : ℕ) → all_digits n ≡ true → i < n → to_digit 16 (digit_4bits i) ≡ some i
unfolding all_digits
all_digits_sound zero i h lt = absurd (omega arith)
all_digits_sound (suc n) i h lt = ground (arith, all_digits_sound n i)

sixteen_digits : all_digits 16 ≡ true
unfolding all_digits digit_4bits to_digit
sixteen_digits = refl

digit_lem : (i : ℕ) → i < 16 → to_digit 16 (digit_4bits i) ≡ some i
digit_lem i h = all_digits_sound 16 i sixteen_digits h

-- The hexadecimal text of bytes is read back as the bytes, whatever they are.
pub from_hex-hex : (bytes : Bytes) → AreBytes bytes → from_hex (hex bytes) ≡ some bytes
unfolding from_hex hex
from_hex-hex [] h = refl
from_hex-hex (b ∷ bs) h =
    rw
      (digit_lem (b / 16 % 16) (omega arith), digit_lem (b % 16) (omega arith), from_hex-hex bs h.1)
      (ap (λ n. some (n ∷ bs)) (omega (arith, h.0)))

-- Every read but the last gives at least one byte.
abbrev NotEmpty : List Bytes → Type 0
NotEmpty [] = Unit
NotEmpty ([] ∷ parts) = ⊥
NotEmpty ((b ∷ bs) ∷ parts) = NotEmpty parts

module _ (hasher : Hasher) where
  -- One update with two pieces is two updates.
  abbrev pub IsIncremental : Type 0
  IsIncremental =
      ((state : hasher.State) → hasher.update state [] ≡ state)
      × ((state : hasher.State) (a b : Bytes)
          → hasher.update (hasher.update state a) b ≡ hasher.update state (a ++ b))

  hash_reads-parts :
      (laws : IsIncremental) (state : hasher.State) (parts : List Bytes)
      → NotEmpty parts
      → hash_reads hasher state (map (λ p. ok p) parts ++ ok [] ∷ [])
        ≡ ok (hex (hasher.finalize (hasher.update state (flatten parts))))
  unfolding hash_reads hex flatten
  hash_reads-parts laws state [] h = rw (laws.0 state) refl
  hash_reads-parts laws state ([] ∷ parts) h = absurd h
  hash_reads-parts laws state ((b ∷ bs) ∷ parts) h =
      rw (hash_reads-parts laws (hasher.update state (b ∷ bs)) parts h)
        (rw (laws.1 state (b ∷ bs) (flatten parts)) refl)

  -- However the reads cut a file into pieces, if the hasher takes pieces one after the other the text
  -- that the file gets is read back as the digest of the whole of it.
  pub from_hex-hash_reads :
      (laws : IsIncremental) (parts : List Bytes)
      → NotEmpty parts
      → AreBytes (hasher.finalize (hasher.update hasher.new (flatten parts)))
      → (text : Text) × (hash_reads hasher hasher.new (map (λ p. ok p) parts ++ ok [] ∷ [])
          ≡ ok text)
        × (from_hex text ≡ some (hasher.finalize (hasher.update hasher.new (flatten parts))))
  from_hex-hash_reads laws parts h bytes = (
    hex (hasher.finalize (hasher.update hasher.new (flatten parts))),
    hash_reads-parts laws hasher.new parts h,
    from_hex-hex (hasher.finalize (hasher.update hasher.new (flatten parts))) bytes,
  )
