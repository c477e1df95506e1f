-- ===== src/Agent/Parts.antt =====
-- agent/src/lib.rs: the parts of a file that are read.
use multi_fuzz_benchmarks.Prelude.{
  ℕ, zero, suc, ◌+◌, min, none, some, [], ◌∷◌, ◌++◌, ◌≡◌, refl, sym, ap, ◌∙◌, arith, length, take,
  drop, length-drop, drop-drop, take-append-drop,
}
use multi_fuzz_benchmarks.Rpc.{Bytes}
use multi_fuzz_benchmarks.Agent.{read_part}

take-min : (n : ℕ) (xs : Bytes) → take (min n (length xs)) xs ≡ take n xs
take-min zero xs = let z : min 0 (length xs) ≡ 0 = omega arith in rw z refl
take-min (suc n) [] = let z : min (suc n) 0 ≡ 0 = omega arith in rw z refl
take-min (suc n) (x ∷ xs) =
    let z : min (suc n) (suc (length xs)) ≡ suc (min n (length xs)) = omega arith in
    rw z (ap (λ l. x ∷ l) (take-min n xs))

take-length : (xs : Bytes) → take (length xs) xs ≡ xs
take-length [] = refl
take-length (x ∷ xs) = ap (λ l. x ∷ l) (take-length xs)

pub read_part-none :
    (offset : ℕ) (content : Bytes) → read_part offset none content ≡ drop offset content
unfolding read_part
read_part-none offset content =
    rw (sym (length-drop offset content)) (take-length (drop offset content))

read_part-some :
    (offset n : ℕ) (content : Bytes)
    → read_part offset (some n) content ≡ take n (drop offset content)
unfolding read_part
read_part-some offset n content =
    rw (sym (length-drop offset content)) (take-min n (drop offset content))

-- Reading a file in two pieces gives what reading it at once gives, at any offset and for any
-- length of the first piece, past the end of the file as well.
pub read_part-append :
    (offset n : ℕ) (content : Bytes)
    → read_part offset (some n) content ++ read_part (offset + n) none content
      ≡ read_part offset none content
read_part-append offset n content =
    rw
      (
        read_part-some offset n content,
        read_part-none (offset + n) content,
        read_part-none offset content,
      )
      (ap (λ l. take n (drop offset content) ++ l) (sym (drop-drop n offset content))
        ∙ take-append-drop n (drop offset content))
