-- ===== src/Wire/Exact.antt =====
-- src-tauri/src/proxy.rs: `read_exact_buffered` does not depend on how the bytes come in pieces.
use proxy_load.Base.{
  ℕ, zero, suc, ◌+◌, ◌≤◌, ◌≡◌, refl, sym, ap, ◌∙◌, subst, true, false, Option, none, some, List, [],
  ◌∷◌, ◌++◌, arith, leb, length, take, drop, min, length-append, length-take, length-drop,
  Bool-cases, inl, inr,
}
use proxy_load.Models.{Bytes}
use proxy_load.Wire.{Chunk, drained, read_size, read_exact_buffered}

pub append_assoc : (xs ys zs : Bytes) → (xs ++ ys) ++ zs ≡ xs ++ (ys ++ zs)
append_assoc [] ys zs = refl
append_assoc (x ∷ xs) ys zs = ap (λ r. x ∷ r) (append_assoc xs ys zs)

pub take-drop : (n : ℕ) (xs : Bytes) → take n xs ++ drop n xs ≡ xs
take-drop zero xs = refl
take-drop (suc n) [] = refl
take-drop (suc n) (x ∷ xs) = ap (λ r. x ∷ r) (take-drop n xs)

pub length-take_min : (n : ℕ) (xs : Bytes) → length (take n xs) ≡ min n (length xs)
length-take_min zero xs = omega arith
length-take_min (suc n) [] = omega arith
length-take_min (suc n) (x ∷ xs) = omega (arith, length-take_min n xs)

-- The first `n` bytes of `stream` have been read, and the others are left in their order.
abbrev pub HasRead : ℕ → Bytes → Option Chunk → Type 0
HasRead n stream none = false ≡ true
HasRead n stream (some c) = (length c.bytes ≡ n) × (c.bytes ++ (c.buffer ++ c.incoming) ≡ stream)

pub drained-HasRead :
    (n : ℕ) (buffer incoming : Bytes) (reads : List ℕ)
    → leb n (length buffer) ≡ true
    → HasRead n (buffer ++ incoming) (some (drained n buffer incoming reads))
unfolding drained
drained-HasRead n buffer incoming reads h = (
  length-take n buffer (ground (arith, h)),
  sym (append_assoc (take n buffer) (drop n buffer) incoming)
      ∙ ap (λ xs. xs ++ incoming) (take-drop n buffer),
)

-- Whatever the sizes of the reads, if `n` bytes are buffered or yet to come and there is a read for
-- each byte that is missing, `read_exact_buffered` gets the first `n` of them and loses none.
pub read_exact_buffered-HasRead :
    (reads : List ℕ) (n : ℕ) (buffer incoming : Bytes)
    → n ≤ length buffer + length incoming
    → n ≤ length buffer + length reads
    → HasRead n (buffer ++ incoming) (read_exact_buffered reads n buffer incoming)
unfolding read_exact_buffered read_size
read_exact_buffered-HasRead [] n buffer incoming a b =
    let enough : leb n (length buffer) ≡ true = ground (arith, b) in
    rw enough (drained-HasRead n buffer incoming [] enough)
read_exact_buffered-HasRead (r ∷ reads) n buffer [] a b =
    let enough : leb n (length buffer) ≡ true = ground (arith, a) in
    rw enough (drained-HasRead n buffer [] (r ∷ reads) enough)
read_exact_buffered-HasRead (r ∷ reads) n buffer (x ∷ xs) a b =
    let k = read_size r n buffer in
    let got = length-append buffer (take k (x ∷ xs)) in
    let size = length-take_min k (x ∷ xs) in
    let rest = length-drop k (x ∷ xs) in
    elim (Bool-cases (leb n (length buffer))) [
      | inl e ↦ rw e (drained-HasRead n buffer (x ∷ xs) (r ∷ reads) e)
      | inr e ↦ rw e (
          subst
            (λ s.
              HasRead n s
                (read_exact_buffered reads n (buffer ++ take k (x ∷ xs)) (drop k (x ∷ xs))))
            (append_assoc buffer (take k (x ∷ xs)) (drop k (x ∷ xs))
              ∙ ap (λ s. buffer ++ s) (take-drop k (x ∷ xs)))
            (read_exact_buffered-HasRead reads n (buffer ++ take k (x ∷ xs)) (drop k (x ∷ xs))
              (ground (arith, got, size, rest, a, b, e)) (ground (arith, got, size, a, b, e))))
    ]
