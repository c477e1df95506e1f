-- ===== src/Prelude/Texts.antt =====
-- Text as the list of its characters (code points), which the program walks; literals by `codes`.
use Prim.Native.Nat.{ℕ, zero, suc, ◌<◌}
use Prim.Native.Char.{code}
use Prim.Native.String.{String}
use mathlib.Core.Path.{◌≡◌, refl}
use mathlib.Core.Bool.{Bool, true, false, ◌||◌, ◌&&◌}
use mathlib.Core.List.{List, [], ◌∷◌, ◌++◌, reverse, reverse-append, reverse-reverse}
use mathlib.Core.Option
use mathlib.Core.Option.{Option, none, some}
use native.Mathlib.Omega.{arith}
use multi_fuzz_benchmarks.Prelude.Tests.{if◌then◌else◌, nat_beq, leb, nat_beq_iff}
use multi_fuzz_benchmarks.Prelude.Lists.{
  length, take, drop, take-length_append, drop-suc-length-append,
}

abbrev pub Text : Type 0
Text = List ℕ

abbrev pub codes : String → Text
codes String.[] = []
codes (String.◌∷◌ c s) = code c ∷ codes s

-- `str::find` of one character: the position of its first occurrence.
abbrev pub find : ℕ → Text → Option ℕ
find c [] = none
find c (x ∷ xs) = if nat_beq x c then some 0 else Option.map suc (find c xs)

-- `str::contains` of one character.
abbrev pub contains : ℕ → Text → Bool
contains c [] = false
contains c (x ∷ xs) = nat_beq x c || contains c xs

-- `str::strip_prefix` and `str::starts_with`.
abbrev pub strip_prefix : Text → Text → Option Text
strip_prefix [] t = some t
strip_prefix (p ∷ ps) [] = none
strip_prefix (p ∷ ps) (x ∷ xs) = if nat_beq x p then strip_prefix ps xs else none

abbrev pub starts_with : Text → Text → Bool
starts_with [] t = true
starts_with (p ∷ ps) [] = false
starts_with (p ∷ ps) (x ∷ xs) = nat_beq x p && starts_with ps xs

-- `str::split_once`: the parts around the first occurrence.
unfoldable pub split_once : Text → Text → Option (Text × Text)
split_once p [] = Option.map (λ r. ([], r)) (strip_prefix p [])
split_once p (x ∷ xs) = elim (strip_prefix p (x ∷ xs)) [
  | some rest ↦ some ([], rest)
  | none ↦ Option.map (λ s. (x ∷ s.0, s.1)) (split_once p xs)
]

-- `str::strip_prefix` of one character that passes a test.
abbrev pub strip_char : (ℕ → Bool) → Text → Option Text
strip_char test [] = none
strip_char test (x ∷ xs) = if test x then some xs else none

-- `char::is_whitespace`: the White_Space property of Unicode.
abbrev pub is_whitespace : ℕ → Bool
is_whitespace c =
    (leb 9 c && leb c 13)
    || (nat_beq c 32)
    || (nat_beq c 0x85)
    || (nat_beq c 0xa0)
    || (nat_beq c 0x1680)
    || (leb 0x2000 c && leb c 0x200a)
    || (nat_beq c 0x2028)
    || (nat_beq c 0x2029)
    || (nat_beq c 0x202f)
    || (nat_beq c 0x205f)
    || (nat_beq c 0x3000)

abbrev pub trim_start : Text → Text
trim_start [] = []
trim_start (x ∷ xs) = if is_whitespace x then trim_start xs else x ∷ xs

abbrev pub trim_end : Text → Text
trim_end t = reverse (trim_start (reverse t))

-- `str::trim`.
abbrev pub trim : Text → Text
trim t = trim_end (trim_start t)

-- A found position splits the text around the character, which does not stand before it.
pub find-split :
    (c : ℕ) (t : Text) (i : ℕ)
    → find c t ≡ some i
    → (t ≡ take i t ++ c ∷ drop (suc i) t) × (contains c (take i t) ≡ false) × (i < length t)
find-split c [] i h = absurd (cc)
find-split c (x ∷ xs) zero h = ground (arith, nat_beq_iff x c)
find-split c (x ∷ xs) (suc i) h = ground (arith, find-split c xs i)

-- No position is found exactly when the character does not occur.
pub find-contains : (c : ℕ) (t : Text) → find c t ≡ none → contains c t ≡ false
find-contains c [] h = refl
find-contains c (x ∷ xs) h = ground (arith, find-contains c xs)

pub find_of_contains : (c : ℕ) (t : Text) → contains c t ≡ false → find c t ≡ none
find_of_contains c [] h = refl
find_of_contains c (x ∷ xs) h = ground (arith, find_of_contains c xs)

-- Behind a text without the character, it is found at the end of that text.
pub find-append :
    (c : ℕ) (s t : Text) → contains c s ≡ false → find c (s ++ c ∷ t) ≡ some (length s)
find-append c [] t h = ground arith
find-append c (x ∷ xs) t h = ground (arith, find-append c xs t)

-- The same, as a decomposition.
pub find_decompose :
    (c : ℕ) (t : Text) (i : ℕ)
    → find c t ≡ some i
    → (s : Text) × (r : Text) × (t ≡ s ++ c ∷ r) × (contains c s ≡ false)
find_decompose c t i h = (take i t, drop (suc i) t, (find-split c t i h).0, (find-split c t i h).1)

-- `str::split` at a character: always one part more than there are separators.
unfoldable pub split_on : ℕ → Text → List Text
split_on c [] = [] ∷ []
split_on c (x ∷ xs) = let rest = split_on c xs in if nat_beq x c then [] ∷ rest else grow x rest
  where
    grow : ℕ → List Text → List Text
    grow x [] = (x ∷ []) ∷ []
    grow x (part ∷ parts) = (x ∷ part) ∷ parts

-- `str::split_once` and `str::rsplit_once` at a character.
unfoldable pub split_once_on : ℕ → Text → Option (Text × Text)
split_once_on c t = Option.map (λ i. (take i t, drop (suc i) t)) (find c t)

unfoldable pub rsplit_once_on : ℕ → Text → Option (Text × Text)
rsplit_once_on c [] = none
rsplit_once_on c (x ∷ xs) = elim (rsplit_once_on c xs) [
  | some (before, after) ↦ some (x ∷ before, after)
  | none ↦ if nat_beq x c then some ([], xs) else none
]

-- `str::strip_suffix`.
unfoldable pub strip_suffix : Text → Text → Option Text
strip_suffix p t = Option.map reverse (strip_prefix (reverse p) (reverse t))

pub split_on-append :
    (c : ℕ) (part rest : Text)
    → contains c part ≡ false
    → split_on c (part ++ c ∷ rest) ≡ part ∷ split_on c rest
unfolding split_on
split_on-append c [] rest h = ground arith
split_on-append c (x ∷ part) rest h = ground (arith, split_on-append c part rest)

pub split_on_of_contains :
    (c : ℕ) (part : Text) → contains c part ≡ false → split_on c part ≡ part ∷ []
unfolding split_on
split_on_of_contains c [] h = refl
split_on_of_contains c (x ∷ part) h = ground (arith, split_on_of_contains c part)

pub split_once_on-append :
    (c : ℕ) (before after : Text)
    → contains c before ≡ false
    → split_once_on c (before ++ c ∷ after) ≡ some (before, after)
unfolding split_once_on
split_once_on-append c before after h =
    rw (find-append c before after h)
      (rw (take-length_append before (c ∷ after), drop-suc-length-append before c after) refl)

pub rsplit_once_on_of_contains :
    (c : ℕ) (t : Text) → contains c t ≡ false → rsplit_once_on c t ≡ none
unfolding rsplit_once_on
rsplit_once_on_of_contains c [] h = refl
rsplit_once_on_of_contains c (x ∷ t) h = ground (arith, rsplit_once_on_of_contains c t)

pub rsplit_once_on-append :
    (c : ℕ) (before after : Text)
    → contains c after ≡ false
    → rsplit_once_on c (before ++ c ∷ after) ≡ some (before, after)
unfolding rsplit_once_on
rsplit_once_on-append c [] after h = ground (arith, rsplit_once_on_of_contains c after h)
rsplit_once_on-append c (x ∷ before) after h =
    ground (arith, rsplit_once_on-append c before after h)

strip_prefix-append : (p t : Text) → strip_prefix p (p ++ t) ≡ some t
strip_prefix-append [] t = refl
strip_prefix-append (x ∷ p) t = ground (arith, nat_beq_iff x x, strip_prefix-append p t)

pub strip_suffix-append : (t p : Text) → strip_suffix p (t ++ p) ≡ some t
unfolding strip_suffix
strip_suffix-append t p =
    rw (reverse-append t p, strip_prefix-append (reverse p) (reverse t), reverse-reverse t) refl
