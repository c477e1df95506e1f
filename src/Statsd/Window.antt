-- ===== src/Statsd/Window.antt =====
-- The ring holds a window on the datagrams: the newest ones, as many as it has buffers.
use multi_fuzz_benchmarks.Prelude.{
  ℕ, zero, suc, ◌+◌, ◌-◌, ◌≤◌, ◌<◌, ◌≡◌, refl, sym, ap, ◌∙◌, true, some, List, [], ◌∷◌, ◌++◌,
  flatten, append-nil, append_assoc, arith, if◌then◌else◌, Bool-cases, inl, inr, ◌==◌, nat_eq,
  length, get_elem?, set, take, drop, replicate, length-append, length-drop, length-take,
  length-replicate, length-set, drop-append_of_le, drop-drop,
}
use native.Mathlib.Nat.{suc-add}
use multi_fuzz_benchmarks.Prelude.Maybe.{◌>>=◌}
use multi_fuzz_benchmarks.Statsd.{Bytes, StatsdData, new, push, drain_all, push_all}

-- The last `n` elements of a list.
pub last_n {ℓ} : {A : Type ℓ} → ℕ → List A → List A
last_n n xs = drop (length xs - n) xs

pub record IsValid (s : StatsdData) : Type 0 where
  pub inside : s.offset < length s.buf

abbrev contents : StatsdData → List Bytes
contents s = (drain_all s).0

get_elem?-lt {ℓ} :
    {A : Type ℓ} (xs : List A) (i : ℕ) → i < length xs → (a : A) × (get_elem? xs i ≡ some a)
get_elem?-lt [] i h = absurd (omega arith)
get_elem?-lt (x ∷ xs) zero h = (x, refl)
get_elem?-lt (x ∷ xs) (suc i) h = get_elem?-lt xs i (omega arith)

take-set_suc {ℓ} :
    {A : Type ℓ} (xs : List A) (i : ℕ) (v : A)
    → i < length xs
    → take (i + 1) (set xs i v) ≡ take i xs ++ v ∷ []
take-set_suc [] i v h = absurd (omega arith)
take-set_suc (x ∷ xs) zero v h = refl
take-set_suc (x ∷ xs) (suc i) v h = rw suc-add (ap (λ l. x ∷ l) (take-set_suc xs i v (omega arith)))

drop-set_suc {ℓ} :
    {A : Type ℓ} (xs : List A) (i : ℕ) (v : A) → drop (i + 1) (set xs i v) ≡ drop (i + 1) xs
drop-set_suc [] i v = refl
drop-set_suc (x ∷ xs) zero v = refl
drop-set_suc (x ∷ xs) (suc i) v = rw suc-add (drop-set_suc xs i v)

take_all {ℓ} : {A : Type ℓ} (n : ℕ) (xs : List A) → length xs ≤ n → take n xs ≡ xs
take_all zero [] h = refl
take_all zero (x ∷ xs) h = absurd (omega arith)
take_all (suc n) [] h = refl
take_all (suc n) (x ∷ xs) h = ap (λ l. x ∷ l) (take_all n xs (omega arith))

drop_all {ℓ} : {A : Type ℓ} (n : ℕ) (xs : List A) → length xs ≤ n → drop n xs ≡ []
drop_all zero [] h = refl
drop_all zero (x ∷ xs) h = absurd (omega arith)
drop_all (suc n) [] h = refl
drop_all (suc n) (x ∷ xs) h = drop_all n xs (omega arith)

last_n-wrapped :
    (buf : List Bytes) (o : ℕ) (d : Bytes)
    → o < length buf
    → last_n (length buf) ((drop o buf ++ take o buf) ++ d ∷ [])
      ≡ drop (o + 1) buf ++ (take o buf ++ d ∷ [])
unfolding last_n
last_n-wrapped buf o d h =
    let one : length ((drop o buf ++ take o buf) ++ d ∷ []) - length buf ≡ 1 = omega (
      arith,
      length-append (drop o buf ++ take o buf) (d ∷ []),
      length-append (drop o buf) (take o buf),
      length-drop o buf,
      length-take o buf,
    ) in
    rw (one, append_assoc)
      (drop-append_of_le 1 (drop o buf) (take o buf ++ d ∷ []) (omega (arith, length-drop o buf))
        ∙ rw (drop-drop 1 o buf))

last_n-partial :
    (buf : List Bytes) (o : ℕ) (d : Bytes)
    → o < length buf
    → last_n (length buf) ((take o buf ++ []) ++ d ∷ []) ≡ take o buf ++ d ∷ []
unfolding last_n
last_n-partial buf o d h =
    let none_left : length ((take o buf ++ []) ++ d ∷ []) - length buf ≡ 0 = omega (
      arith,
      length-append (take o buf ++ []) (d ∷ []),
      length-append (take o buf) [],
      length-take o buf,
    ) in
    rw (none_left, append-nil)

-- The state after a datagram, when the index is in range.
after_push : StatsdData → Bytes → StatsdData
after_push s d =
    if (s.offset + 1) == length s.buf
    then record { buf = set s.buf s.offset d; offset = 0; is_overflow = true }
    else record { buf = set s.buf s.offset d; offset = s.offset + 1; is_overflow = s.is_overflow }

push-after_push : (s : StatsdData) (d : Bytes) → IsValid s → push s d ≡ some (after_push s d)
unfolding push after_push
push-after_push s d v =
    let (a, e) = get_elem?-lt s.buf s.offset v.inside in
    rw (e, ◌>>=◌) (rw (length-set s.buf s.offset d))

after_push-IsValid :
    (s : StatsdData) (d : Bytes)
    → IsValid s
    → IsValid (after_push s d) × (length (after_push s d).buf ≡ length s.buf)
unfolding after_push
after_push-IsValid s d v = ground (arith, length-set s.buf s.offset d)

set_last :
    (buf : List Bytes) (o : ℕ) (d : Bytes) → o + 1 ≡ length buf → set buf o d ≡ take o buf ++ d ∷ []
set_last buf o d h =
    sym (take_all (o + 1) (set buf o d) (omega (arith, length-set buf o d)))
    ∙ take-set_suc buf o d (omega arith)

contents-after_push :
    (s : StatsdData) (d : Bytes)
    → IsValid s
    → contents (after_push s d) ≡ last_n (length s.buf) (contents s ++ d ∷ [])
unfolding after_push drain_all
contents-after_push s d v = elim (Bool-cases ((s.offset + 1) == length s.buf)) [
  | inl e ↦
      let full : s.offset + 1 ≡ length s.buf = ground arith in
      let gone : drop (s.offset + 1) s.buf ≡ [] = drop_all (s.offset + 1) s.buf (omega arith) in
      rw (e, append-nil, set_last s.buf s.offset d full)
        (elim (Bool-cases s.is_overflow) [
          | inl b ↦ rw b (sym (last_n-wrapped s.buf s.offset d v.inside ∙ rw gone))
          | inr b ↦ rw b (sym (last_n-partial s.buf s.offset d v.inside))
        ])
  | inr e ↦ rw e (elim (Bool-cases s.is_overflow) [
    | inl b ↦
        rw (b, drop-set_suc s.buf s.offset d, take-set_suc s.buf s.offset d v.inside)
          (sym (last_n-wrapped s.buf s.offset d v.inside))
    | inr b ↦
        rw (b, take-set_suc s.buf s.offset d v.inside, append-nil)
          (sym (last_n-partial s.buf s.offset d v.inside))
  ])
]

last_n-last_n : (n : ℕ) (xs ys : List Bytes) → last_n n (last_n n xs ++ ys) ≡ last_n n (xs ++ ys)
unfolding last_n
last_n-last_n n xs ys = rw (← drop-append_of_le (length xs - n) xs ys (omega arith)) (
    drop-drop _ (length xs - n) (xs ++ ys)
    ∙ ap (λ k. drop k (xs ++ ys))
        (omega (arith, length-drop (length xs - n) (xs ++ ys), length-append xs ys)))

-- No more than the ring has room for is ever given out.
length-contents : (s : StatsdData) → IsValid s → length (contents s) ≤ length s.buf
unfolding drain_all
length-contents s v = elim (Bool-cases s.is_overflow) [
  | inl b ↦ rw b (
      omega (
        arith,
        length-append (drop s.offset s.buf) (take s.offset s.buf),
        length-drop s.offset s.buf,
        length-take s.offset s.buf,
      ))
  | inr b ↦ rw (b, append-nil) (omega (arith, length-take s.offset s.buf))
]

last_n_short : (n : ℕ) (xs : List Bytes) → length xs ≤ n → last_n n xs ≡ xs
unfolding last_n
last_n_short n xs h = let e : length xs - n ≡ 0 = omega arith in rw e

-- Whatever number of datagrams arrives at a ring whose offset is inside its buffers, no index is out of range, and the
-- ring then holds the newest of what it held and what arrived, as many as it has buffers, in order.
pub push_all-window :
    (s : StatsdData) (ds : List Bytes)
    → IsValid s
    → (s' : StatsdData) × (push_all s ds ≡ some s')
      × IsValid s'
      × (length s'.buf ≡ length s.buf)
      × ((drain_all s').0 ≡ last_n (length s.buf) ((drain_all s).0 ++ ds))
unfolding push_all
push_all-window s [] v = (
  s,
  refl,
  v,
  refl,
  rw append-nil (sym (last_n_short (length s.buf) (contents s) (length-contents s v))),
)
push_all-window s (d ∷ ds) v =
    let (v', same) = after_push-IsValid s d v in
    let (s', run, valid, size, view) = push_all-window (after_push s d) ds v' in
    (
      s',
      rw (push-after_push s d v, ◌>>=◌) run,
      valid,
      size ∙ same,
      view ∙ rw (same, contents-after_push s d v, last_n-last_n, append_assoc),
    )

-- A ring, its offset inside its buffers, that has just been drained gives out exactly what arrives after that, of which it keeps
-- the newest: nothing that was given out before comes again.
pub drain_all-push_all :
    (s : StatsdData) (ds : List Bytes)
    → IsValid s
    → (s' : StatsdData) × (push_all (drain_all s).1 ds ≡ some s')
      × ((drain_all s').0 ≡ last_n (length s.buf) ds)
unfolding drain_all
drain_all-push_all s ds v =
    let (s', run, valid, size, view) =
      push_all-window (drain_all s).1 ds (record { inside = omega (arith, v.inside) }) in
    (s', run, view)

flatten-drop_empty :
    (m j : ℕ) (ds : List Bytes)
    → flatten (drop j (replicate m [] ++ ds)) ≡ flatten (drop (j - m) ds)
unfolding flatten
flatten-drop_empty zero j ds = ap (λ k. flatten (drop k ds)) (omega arith)
flatten-drop_empty (suc m) zero ds =
    flatten-drop_empty m zero ds ∙ ap (λ k. flatten (drop k ds)) (omega arith)
flatten-drop_empty (suc m) (suc j) ds =
    flatten-drop_empty m j ds ∙ ap (λ k. flatten (drop k ds)) (omega arith)

-- The first report of a new ring with at least one buffer is the newest datagrams one behind the other, although the ring
-- is marked as overflown from the start: the unused buffers in it are empty.
pub flatten-drain_all-new :
    (capacity : ℕ) (ds : List Bytes)
    → 0 < capacity
    → (s' : StatsdData) × (push_all (new capacity) ds ≡ some s')
      × (flatten (drain_all s').0 ≡ flatten (last_n capacity ds))
flatten-drain_all-new capacity ds h =
    let size : length {A = Bytes} (replicate capacity []) ≡ capacity =
      length-replicate capacity [] in
    let (s', run, valid, same, view) =
      push_all-window (new capacity) ds (unfold new in record { inside = omega (arith, size) }) in
    (
      s',
      run,
      ap flatten view
          ∙ (unfold last_n new drain_all in
              rw (size, append-nil)
                (flatten-drop_empty capacity
                    (length (replicate {A = Bytes} capacity [] ++ ds) - capacity) ds
                  ∙ ap (λ k. flatten (drop k ds))
                      (omega (arith, length-append (replicate {A = Bytes} capacity []) ds, size)))),
    )
