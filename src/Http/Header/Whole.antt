-- ===== src/Http/Header/Whole.antt =====
-- src-tauri/src/proxy.rs: `read_http_request_header` does not depend on how the bytes come in pieces.
use proxy_load.Base.{
  ℕ, suc, ◌+◌, ◌≤◌, ◌<◌, ◌≡◌, refl, sym, ap, ◌∙◌, subst, true, false, ◌&&◌, ◌||◌, not, Option, none,
  some, List, [], ◌∷◌, ◌++◌, arith, take, drop, min, ltb, is_empty, is_some, inl, inr, ◌⊎◌, length,
  length-append,
}
use proxy_load.Models.{Bytes}
use proxy_load.Text.{is_utf8}
use proxy_load.Wire.Exact.{take-drop, append_assoc, length-take_min}
use proxy_load.Http.Header.Split.{IsHeader, split_part, split-append}
use proxy_load.Http.Header.{
  split_http_header, HeaderRead, read_http_request_header, max_request_header, accept, accept_or,
}

-- The header was read, and what follows it is in order.
abbrev pub HasHeader : Bytes → Bytes → Option HeaderRead → Type 0
HasHeader head rest none = false ≡ true
HasHeader head rest (some read) = (read.header ≡ head) × (read.remainder ++ read.incoming ≡ rest)

-- Which of two texts that begin the same is longer.
split_at : (n : ℕ) (xs : Bytes) → xs ≡ take n xs ++ drop n xs
split_at n xs = sym (take-drop n xs)

-- A buffer with a whole header in it, or a part of it.
abbrev Part : Bytes → Bytes → Bytes → Bytes → Type 0
Part buffer incoming head rest =
    ((more : Bytes) × (buffer ≡ head ++ more) × (more ++ incoming ≡ rest))
    ⊎ ((missing : Bytes) × (0 < length missing)
        × (head ≡ buffer ++ missing)
        × (incoming ≡ missing ++ rest))

overlap :
    (buffer incoming head rest : Bytes)
    → buffer ++ incoming ≡ head ++ rest
    → Part buffer incoming head rest
overlap [] incoming [] rest e = inl ([], refl, e)
overlap [] incoming (x ∷ head) rest e = inr (x ∷ head, omega arith, refl, e)
overlap (y ∷ buffer) incoming [] rest e = inl (y ∷ buffer, refl, e)
overlap (y ∷ buffer) incoming (x ∷ head) rest e =
    elim (overlap buffer incoming head rest (ground (arith, e))) [
      | inl (more, a, b) ↦ inl (more, ground (arith, a, e), b)
      | inr (missing, p, a, b) ↦ inr (missing, p, ground (arith, a, e), b)
    ]

whole_cut :
    (buffer head more : Bytes)
    → IsHeader head
    → buffer ≡ head ++ more
    → split_http_header buffer ≡ some (head, more)
whole_cut buffer head more h e = ap split_http_header e ∙ split-append head more head [] h

accepted :
    (head more incoming rest : Bytes) (reads : List ℕ)
    → is_utf8 head ≡ true
    → length head ≤ max_request_header
    → more ++ incoming ≡ rest
    → HasHeader head rest (accept (head, more) incoming reads)
unfolding accept
accepted head more incoming rest reads valid small e =
    let fits : (ltb max_request_header (length head) || not (is_utf8 head)) ≡ false =
      ground (arith, valid, small) in
    simp fits (refl, e)

-- A header that is small enough is not given up.
goes_on :
    (grown left head rest : Bytes)
    → IsHeader head
    → length head ≤ max_request_header
    → grown ++ left ≡ head ++ rest
    → (ltb max_request_header (length grown) && not (is_some (split_http_header grown))) ≡ false
goes_on grown left head rest h small e = elim (overlap grown left head rest e) [
  | inl (more, a, b) ↦ rw (whole_cut grown head more h a) (ground arith)
  | inr (missing, p, a, b) ↦
      let short : ltb max_request_header (length grown) ≡ false =
        ground (arith, small, p, ap length a, length-append grown missing) in
      rw short refl
]

nonempty : (xs ys : Bytes) → 0 < length xs → is_empty (xs ++ ys) ≡ false
nonempty [] ys p = absurd (omega arith)
nonempty (x ∷ xs) ys p = refl

-- A header of at most 64 KiB is read as it was sent, whatever the sizes of the reads and whatever
-- follows it, if it is valid UTF-8 and there is a read for each byte; what follows is kept in order.
pub read_http_request_header-HasHeader :
    (reads : List ℕ) (buffer incoming head rest : Bytes)
    → IsHeader head
    → is_utf8 head ≡ true
    → length head ≤ max_request_header
    → buffer ++ incoming ≡ head ++ rest
    → length head ≤ length buffer + length reads
    → HasHeader head rest (read_http_request_header reads buffer incoming)
unfolding read_http_request_header accept_or
read_http_request_header-HasHeader [] buffer incoming head rest h valid small e enough =
    elim (overlap buffer incoming head rest e) [
      | inl (more, a, b) ↦
          rw (whole_cut buffer head more h a) (accepted head more incoming rest [] valid small b)
      | inr (missing, p, a, b) ↦
          absurd (omega (arith, p, ap length a, length-append buffer missing))
    ]
read_http_request_header-HasHeader (r ∷ reads) buffer incoming head rest h valid small e enough =
    elim (overlap buffer incoming head rest e) [
      | inl (more, a, b) ↦
          rw (whole_cut buffer head more h a)
            (accepted head more incoming rest (r ∷ reads) valid small b)
      | inr (missing, p, a, b) ↦
          let none_yet = split_part buffer missing p (subst IsHeader a h) in
          let size = min (suc r) 1024 in
          let grown = buffer ++ take size incoming in
          let left = drop size incoming in
          let same : grown ++ left ≡ head ++ rest =
            append_assoc buffer (take size incoming) left
            ∙ ap (λ x. buffer ++ x) (take-drop size incoming)
            ∙ e in
          let more : is_empty incoming ≡ false = ap is_empty b ∙ nonempty missing rest p in
          let fits = goes_on grown left head rest h small same in
          simp (none_yet, more, fits)
            (read_http_request_header-HasHeader reads grown left head rest h valid small same (
              omega (
                arith,
                enough,
                length-append buffer (take size incoming),
                length-take_min size incoming,
                ap length b,
                length-append missing rest,
                p,
              )))
    ]
