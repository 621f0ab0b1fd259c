-- ===== src/Http/Header/Split.antt =====
-- src-tauri/src/proxy.rs: where `split_http_header` cuts.
use proxy_load.Base.{
  length-append, ◌∙◌, ap, Option-cases, length, ◌<◌, sym, ◌≤◌, false, inl, inr, none, Bool-cases,
  drop, Option, some, ℕ, take, ◌≡◌, refl, true, [], ◌∷◌, ◌++◌, arith,
}
use proxy_load.Models.{Bytes}
use proxy_load.Text.Lines.{starts_with}
use proxy_load.Wire.Exact.{take-drop}
use proxy_load.Http.Header.{after_byte, split_http_header, blank_line}

starts_with-append : (p s t : Bytes) → starts_with p s ≡ true → starts_with p (s ++ t) ≡ true
unfolding starts_with
starts_with-append [] s t h = refl
starts_with-append (a ∷ p) [] t h = absurd (ground (arith, h))
starts_with-append (a ∷ p) (b ∷ s) t h = ground (arith, starts_with-append p s t, h)

-- A text that starts with the blank line is cut after it, whatever follows.
cut_after :
    (s t : Bytes)
    → starts_with blank_line s ≡ true
    → (take 4 (s ++ t) ≡ take 4 s) × (drop 4 (s ++ t) ≡ drop 4 s ++ t)
unfolding starts_with
cut_after [] t h = absurd (ground (arith, h))
cut_after (a ∷ []) t h = absurd (ground (arith, h))
cut_after (a ∷ b ∷ []) t h = absurd (ground (arith, h))
cut_after (a ∷ b ∷ c ∷ []) t h = absurd (ground (arith, h))
cut_after (a ∷ b ∷ c ∷ d ∷ s) t h = (refl, refl)

after_byte-some :
    (c : ℕ) (o : Option (Bytes × Bytes)) (h r : Bytes)
    → after_byte c o ≡ some (h, r)
    → (g : Bytes) × (o ≡ some (g, r)) × (h ≡ c ∷ g)
after_byte-some c none h r e = absurd (ground (arith, e))
after_byte-some c (some (g, q)) h r e = (g, ground (arith, e), ground (arith, e))

split_here :
    (c : ℕ) (s h r : Bytes)
    → starts_with blank_line (c ∷ s) ≡ true
    → split_http_header (c ∷ s) ≡ some (h, r)
    → (take 4 (c ∷ s) ≡ h) × (drop 4 (c ∷ s) ≡ r)
unfolding split_http_header
split_here c s h r here e = ground (arith, e, here)

split_later :
    (c : ℕ) (s h r : Bytes)
    → starts_with blank_line (c ∷ s) ≡ false
    → split_http_header (c ∷ s) ≡ some (h, r)
    → (g : Bytes) × (split_http_header s ≡ some (g, r)) × (h ≡ c ∷ g)
unfolding split_http_header
split_later c s h r later e = after_byte-some c (split_http_header s) h r (ground (arith, e, later))

-- What was cut is the whole.
pub split-joined : (s h r : Bytes) → split_http_header s ≡ some (h, r) → s ≡ h ++ r
unfolding split_http_header
split-joined [] h r e = absurd (ground (arith, e))
split-joined (c ∷ s) h r e = elim (Bool-cases (starts_with blank_line (c ∷ s))) [
  | inl here ↦
      let cut = split_here c s h r here e in
      sym (take-drop 4 (c ∷ s)) ∙ ap (λ x. x ++ drop 4 (c ∷ s)) cut.0 ∙ ap (λ x. h ++ x) cut.1
  | inr later ↦
      let cut = split_later c s h r later e in
      ap (λ x. c ∷ x) (split-joined s cut.0 r cut.1) ∙ ap (λ x. x ++ r) (sym cut.2)
]

long_enough : (s : Bytes) → starts_with blank_line s ≡ true → 4 ≤ length s
unfolding starts_with
long_enough [] h = absurd (ground (arith, h))
long_enough (a ∷ []) h = absurd (ground (arith, h))
long_enough (a ∷ b ∷ []) h = absurd (ground (arith, h))
long_enough (a ∷ b ∷ c ∷ []) h = absurd (ground (arith, h))
long_enough (a ∷ b ∷ c ∷ d ∷ s) h = omega arith

split-length : (s h r : Bytes) → split_http_header s ≡ some (h, r) → 4 ≤ length s
unfolding split_http_header
split-length [] h r e = absurd (ground (arith, e))
split-length (c ∷ s) h r e = elim (Bool-cases (starts_with blank_line (c ∷ s))) [
  | inl here ↦ long_enough (c ∷ s) here
  | inr later ↦ let cut = split_later c s h r later e in omega (arith, split-length s cut.0 r cut.1)
]

starts_same :
    (s t : Bytes) → 4 ≤ length s → starts_with blank_line (s ++ t) ≡ starts_with blank_line s
unfolding starts_with
starts_same [] t h = absurd (omega arith)
starts_same (a ∷ []) t h = absurd (omega arith)
starts_same (a ∷ b ∷ []) t h = absurd (omega arith)
starts_same (a ∷ b ∷ c ∷ []) t h = absurd (omega arith)
starts_same (a ∷ b ∷ c ∷ d ∷ s) t h = refl

-- What follows a cut does not move it.
pub split-append :
    (s t h r : Bytes)
    → split_http_header s ≡ some (h, r)
    → split_http_header (s ++ t) ≡ some (h, r ++ t)
unfolding split_http_header
split-append [] t h r e = absurd (ground (arith, e))
split-append (c ∷ s) t h r e = elim (Bool-cases (starts_with blank_line (c ∷ s))) [
  | inl here ↦
      let cut = split_here c s h r here e in
      let same = cut_after (c ∷ s) t here in
      rw (starts_same (c ∷ s) t (split-length (c ∷ s) h r e), here, same.0, same.1, cut.0, cut.1)
        refl
  | inr later ↦
      let cut = split_later c s h r later e in
      rw
        (
          starts_same (c ∷ s) t (split-length (c ∷ s) h r e),
          later,
          split-append s t cut.0 r cut.1,
          cut.2,
        )
        refl
]

-- A header is whole when it is cut nowhere but at its end.
abbrev pub IsHeader : Bytes → Type 0
IsHeader head = split_http_header head ≡ some (head, [])

rest_of : Option (Bytes × Bytes) → Bytes
rest_of none = []
rest_of (some parts) = parts.1

-- A part of a header is not cut.
pub split_part :
    (part rest : Bytes) → 0 < length rest → IsHeader (part ++ rest) → split_http_header part ≡ none
unfolding rest_of
split_part part rest p e = elim (Option-cases (split_http_header part)) [
  | inl found ↦ found
  | inr ((h, r), found) ↦ absurd (
      ground (
        arith,
        ap (λ o. length (rest_of o)) (sym e ∙ split-append part rest h r found),
        length-append r rest,
        p,
      ))
]
