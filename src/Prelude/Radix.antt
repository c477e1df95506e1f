-- ===== src/Prelude/Radix.antt =====
-- `u64::from_str_radix` and `str::parse::<u64>`.
use Prim.Native.Nat.{ℕ, zero, suc, ◌+◌, ◌-◌, ◌*◌, ◌/◌, ◌%◌, ◌^◌, ◌<◌}
use mathlib.Core.Path.{◌≡◌}
use mathlib.Core.Bool.{true, false, ◌&&◌}
use mathlib.Core.Option.{Option, none, some}
use mathlib.Core.List.{List, [], ◌∷◌}
use native.Mathlib.Omega.{arith}
use multi_fuzz_benchmarks.Prelude.Tests.{if◌then◌else◌, leb, ltb, nat_beq}
use multi_fuzz_benchmarks.Prelude.Texts.{Text}
use multi_fuzz_benchmarks.Prelude.Outcome.{Result, ok, err}

pub data ParseIntError : Type 0 where
  empty invalid_digit pos_overflow : ParseIntError

abbrev pub u64_mod : ℕ
u64_mod = 2 ^ 64

-- `char::to_digit`.
abbrev digit_of : ℕ → ℕ → Option ℕ
digit_of radix d = if ltb d radix then some d else none

unfoldable pub to_digit : ℕ → ℕ → Option ℕ
to_digit radix c =
    if leb b'0' c && leb c b'9'
    then digit_of radix (c - b'0')
    else if leb b'a' c && leb c b'z'
    then digit_of radix (c - b'a' + 10)
    else if leb b'A' c && leb c b'Z'
    then digit_of radix (c - b'A' + 10)
    else none

unfoldable pub from_digits : ℕ → ℕ → Text → Result ParseIntError ℕ
unfolding to_digit
from_digits radix acc [] = ok acc
from_digits radix acc (c ∷ cs) = elim (to_digit radix c) [
  | none ↦ err invalid_digit
  | some d ↦
      let rest = from_digits radix (acc * radix + d) cs in
      if ltb (acc * radix + d) u64_mod then rest else err pos_overflow
]

unfoldable pub from_str_radix : ℕ → Text → Result ParseIntError ℕ
unfolding from_digits
from_str_radix radix [] = err empty
from_str_radix radix (c ∷ []) = from_digits radix 0 (c ∷ [])
from_str_radix radix (c ∷ d ∷ cs) =
    if nat_beq c b'+' then from_digits radix 0 (d ∷ cs) else from_digits radix 0 (c ∷ d ∷ cs)

from_digits-lt :
    (radix acc : ℕ) (t : Text) (n : ℕ)
    → acc < u64_mod
    → from_digits radix acc t ≡ ok n
    → n < u64_mod
unfolding from_digits
from_digits-lt radix acc [] n h e = ground arith
from_digits-lt radix acc (c ∷ cs) n h e =
    elim_digit (to_digit radix c) (λ d k. from_digits-lt radix (acc * radix + d) cs n k) e
  where
    elim_digit :
        (o : Option ℕ)
        → ((d : ℕ)
            → acc * radix + d < u64_mod
            → from_digits radix (acc * radix + d) cs ≡ ok n
            → n < u64_mod)
        → (elim o [
          | none ↦ err invalid_digit
          | some d ↦
              if ltb (acc * radix + d) u64_mod
              then from_digits radix (acc * radix + d) cs
              else err pos_overflow
        ])
          ≡ ok n
        → n < u64_mod
    elim_digit none ih q = absurd (ground arith)
    elim_digit (some d) ih q = ground (arith, ih d)

-- A parsed number is a `u64`.
pub from_str_radix-lt : (radix : ℕ) (t : Text) (n : ℕ) → from_str_radix radix t ≡ ok n → n < u64_mod
unfolding from_str_radix
from_str_radix-lt radix [] n h = absurd (ground arith)
from_str_radix-lt radix (c ∷ []) n h = from_digits-lt radix 0 (c ∷ []) n (omega arith) h
from_str_radix-lt radix (c ∷ d ∷ cs) n h =
    ground (arith, from_digits-lt radix 0 (d ∷ cs) n, from_digits-lt radix 0 (c ∷ d ∷ cs) n)

-- The decimal digits of a number, before those that are there already.
unfoldable pub decimal_digits : ℕ → ℕ → List ℕ → List ℕ
decimal_digits zero n digits = digits
decimal_digits (suc fuel) n digits =
    let digits' = (b'0' + n % 10) ∷ digits in
    elim (ltb n 10) [ true ↦ digits' | false ↦ decimal_digits fuel (n / 10) digits' ]

-- `to_string`.
unfoldable pub to_decimal : ℕ → List ℕ
unfolding decimal_digits
to_decimal n = decimal_digits (n + 1) n []
