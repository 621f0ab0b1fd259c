-- ===== src/Text/Words.antt =====
-- src-tauri/src/proxy.rs: the lines and the words of a text that was put together.
use proxy_load.Base.{
  nat_beq_iff, ℕ, ◌≡◌, refl, sym, ap, ◌∙◌, true, false, ◌||◌, List, [], ◌∷◌, ◌++◌, arith, any,
  nat_beq, is_empty, Bool-cases, inl, inr,
}
use proxy_load.Models.{Bytes}
use proxy_load.Host.{space_width, space_width-plain, is_space, unplain}
use proxy_load.Wire.Exact.{append_assoc}
use proxy_load.Text.{contains, split_from, split_on, words_from, all_words, split_whitespace}
use proxy_load.Text.Lines.{crlf, strip_cr, lines_of, lines_from, lines, split_crlf_from, held, kept}

pub contains-append :
    (b : ℕ) (xs ys : Bytes) → contains b (xs ++ ys) ≡ contains b xs || contains b ys
unfolding contains
contains-append b [] ys = refl
contains-append b (x ∷ xs) ys = ground (arith, contains-append b xs ys)

-- A text of plain bytes has no ends of lines.
pub spaceless :
    (b : ℕ) (s : Bytes) → is_space b ≡ true → any unplain s ≡ false → contains b s ≡ false
unfolding contains unplain
spaceless b [] e h = refl
spaceless b (c ∷ s) e h = elim (Bool-cases (nat_beq c b)) [
  | inl same ↦ absurd (ground (arith, ap is_space ((nat_beq_iff c b).0 same), e, h))
  | inr other ↦ ground (arith, spaceless b s e (ground (arith, h)), other)
]

split_from-first :
    (sep : ℕ) (s t : Bytes)
    → contains sep s ≡ false
    → split_from sep (s ++ (sep ∷ t)) ≡ (s, (split_from sep t).0 ∷ (split_from sep t).1)
unfolding split_from contains
split_from-first sep [] t h = ground arith
split_from-first sep (c ∷ s) t h =
    let other : nat_beq c sep ≡ false = ground (arith, h) in
    let rest = split_from-first sep s t (ground (arith, h)) in rw (other, rest) refl

strip_cr-last : (s : Bytes) → strip_cr (s ++ (13 ∷ [])) ≡ s
unfolding strip_cr
strip_cr-last [] = refl
strip_cr-last (c ∷ []) = refl
strip_cr-last (c ∷ d ∷ s) = ap (λ r. c ∷ r) (strip_cr-last (d ∷ s))

lines_of-cons : (s t : Bytes) (ts : List Bytes) → lines_of s (t ∷ ts) ≡ strip_cr s ∷ lines_of t ts
unfolding lines_of
lines_of-cons [] t ts = refl
lines_of-cons (c ∷ s) t ts = refl

-- The first line, and the lines of the rest.
pub lines-first : (s t : Bytes) → contains 10 s ≡ false → lines (s ++ (crlf ++ t)) ≡ s ∷ lines t
unfolding lines lines_from split_on contains
lines-first s t h =
    let whole = s ++ (13 ∷ []) in
    let plain : contains 10 whole ≡ false = ground (arith, contains-append 10 s (13 ∷ []), h) in
    let cut = split_from-first 10 whole t plain in
    ap (λ x. lines_of (split_from 10 x).0 (split_from 10 x).1)
      (sym (append_assoc s (13 ∷ []) (10 ∷ t)))
    ∙ ap (λ parts. lines_of parts.0 parts.1) cut
    ∙ lines_of-cons whole (split_from 10 t).0 (split_from 10 t).1
    ∙ ap (λ l. l ∷ lines_of (split_from 10 t).0 (split_from 10 t).1) (strip_cr-last s)

-- What stands before the first end of line.
pub split_crlf-first :
    (s t : Bytes) → contains 13 s ≡ false → (split_crlf_from false (s ++ (crlf ++ t))).0 ≡ s
unfolding split_crlf_from contains held kept
split_crlf-first [] t h = refl
split_crlf-first (c ∷ s) t h =
    let other : nat_beq c 13 ≡ false = ground (arith, h) in
    rw other (ap (λ r. c ∷ r) (split_crlf-first s t (ground (arith, h))))

-- A plain byte goes on with the word.
words_from-plain :
    (c : ℕ) (s : Bytes)
    → unplain c ≡ false
    → words_from 0 (c ∷ s) ≡ (c ∷ (words_from 0 s).0, (words_from 0 s).1)
unfolding words_from
words_from-plain c s h = rw (space_width-plain c s h, words_from) refl

-- A word, and the words after the space.
words_from-word :
    (s t : Bytes) → any unplain s ≡ false → words_from 0 (s ++ (b' ' ∷ t)) ≡ (s, split_whitespace t)
unfolding words_from split_whitespace space_width is_space
words_from-word [] t h = refl
words_from-word (c ∷ s) t h =
    let rest = words_from-word s t (ground (arith, h)) in
    words_from-plain c (s ++ (b' ' ∷ t)) (ground (arith, h)) ∙ ap (λ r. (c ∷ r.0, r.1)) rest

words_from-all : (s : Bytes) → any unplain s ≡ false → words_from 0 s ≡ (s, [])
unfolding words_from
words_from-all [] h = refl
words_from-all (c ∷ s) h =
    words_from-plain c s (ground (arith, h))
    ∙ ap (λ r. (c ∷ r.0, r.1)) (words_from-all s (ground (arith, h)))

-- The last word.
pub split_whitespace-last :
    (s : Bytes) → is_empty s ≡ false → any unplain s ≡ false → split_whitespace s ≡ s ∷ []
unfolding split_whitespace all_words
split_whitespace-last [] e h = absurd (ground (arith, e))
split_whitespace-last (c ∷ s) e h = ap all_words (words_from-all (c ∷ s) h)

-- A word before a space.
pub split_whitespace-word :
    (s t : Bytes)
    → is_empty s ≡ false
    → any unplain s ≡ false
    → split_whitespace (s ++ (b' ' ∷ t)) ≡ s ∷ split_whitespace t
unfolding split_whitespace all_words
split_whitespace-word [] t e h = absurd (ground (arith, e))
split_whitespace-word (c ∷ s) t e h = ap all_words (words_from-word (c ∷ s) t h)

pub split_whitespace-space : (t : Bytes) → split_whitespace (b' ' ∷ t) ≡ split_whitespace t
unfolding split_whitespace words_from space_width is_space all_words
split_whitespace-space t = refl
