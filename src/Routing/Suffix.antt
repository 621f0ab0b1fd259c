-- ===== src/Routing/Suffix.antt =====
-- routing.rs: the suffixes that `pool_index` looks up are those that `domain_matches` accepts.
use proxy_load.Base.{
  ℕ, ◌≤◌, ◌≡◌, refl, ap, inl, inr, true, false, Option, none, some, List, [], ◌∷◌, arith, length,
  any, is_empty, is_some_and, if◌then◌else◌, nat_beq, Bool-cases, ◌==◌, list_beq, list_beq_iff,
  nat_eq, list_eq,
}
use proxy_load.Models.{Bytes}
use proxy_load.Routing.{strip_suffix, cons_to, ends_with_dot}

-- What stands behind each dot.
abbrev pub after_dots : Bytes → List Bytes
after_dots [] = []
after_dots (c ∷ r) = if nat_beq c b'.' then r ∷ after_dots r else after_dots r

-- These are shorter than the text, so they are not the text.
after_dots_short : (h s : Bytes) → length h ≤ length s → any (λ t. t == s) (after_dots h) ≡ false
after_dots_short [] s b = refl
after_dots_short (c ∷ r) s b = elim (Bool-cases (r == s)) [
  | inl e ↦ absurd (omega (arith, ap length ((list_beq_iff r s).0 e)))
  | inr e ↦ ground (arith, after_dots_short r s, e)
]

strip_suffix_empty : (h s : Bytes) → is_some_and (strip_suffix h s) is_empty ≡ (h == s)
unfolding strip_suffix
strip_suffix_empty [] s = ground arith
strip_suffix_empty (c ∷ r) s = ground arith

ends_with_dot-cons :
    (c : ℕ) (p : Bytes)
    → ends_with_dot (c ∷ p) ≡ (if is_empty p then nat_beq c b'.' else ends_with_dot p)
unfolding ends_with_dot
ends_with_dot-cons c [] = refl
ends_with_dot-cons c (d ∷ p) = refl

dotted_step :
    (c : ℕ) (o : Option Bytes)
    → is_some_and (cons_to c o) ends_with_dot
      ≡ (if is_some_and o is_empty then nat_beq c b'.' else is_some_and o ends_with_dot)
dotted_step c none = refl
dotted_step c (some p) = ends_with_dot-cons c p

-- A suffix stands behind a dot of `h` exactly when what precedes it in `h` ends with a dot.
pub dotted :
    (h s : Bytes) → any (λ t. t == s) (after_dots h) ≡ is_some_and (strip_suffix h s) ends_with_dot
unfolding strip_suffix ends_with_dot
dotted [] s = ground arith
dotted (c ∷ r) s = elim (Bool-cases ((c ∷ r) == s)) [
  | inl e ↦ ground (arith, e, whole e)
  | inr e ↦
      ground
        (arith, e, dotted r s, dotted_step c (strip_suffix r s), strip_suffix_empty r s, tail_only)
]
  where
    whole : list_beq (c ∷ r) s ≡ true → any (λ t. t == s) (after_dots (c ∷ r)) ≡ false
    whole e =
        after_dots_short (c ∷ r) s
          (omega (arith, ap (length {A = ℕ}) ((list_beq_iff (c ∷ r) s).0 e)))

    tail_only : list_beq r s ≡ true → any (λ t. t == s) (after_dots r) ≡ false
    tail_only e = after_dots_short r s (omega (arith, ap (length {A = ℕ}) ((list_beq_iff r s).0 e)))
