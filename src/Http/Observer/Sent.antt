-- ===== src/Http/Observer/Sent.antt =====
-- src-tauri/src/proxy/http_observer.rs: the observer does not depend on how the response comes in
-- pieces, keeps little of it, and sends one final status.
use proxy_load.Base.{
  ℕ, ◌+◌, ◌≤◌, ◌≡◌, refl, ◌⊎◌, inl, inr, true, false, not, ◌&&◌, Option, none, some, List, [], ◌∷◌,
  ◌++◌, arith, leb, ltb, nat_beq, length, length-append, Bool-cases, Option-cases,
}
use proxy_load.Models.{Bytes}
use proxy_load.Text.Lines.{ends_with, crlf}
use proxy_load.Http.Observer.{
  parse_u16, split_whitespace, lines, is_http, HttpObserver, max_header, observe_byte, observe_all,
  observe, status_of, conclude, close, send, status_of_fields, status_of_lines, checked, in_range,
}

observe_all-closed : (bytes : Bytes) (o : HttpObserver) → o.sending ≡ false → observe bytes o ≡ o
unfolding observe
observe_all-closed bytes o h = rw h refl

observe_all-append :
    (xs ys : Bytes) (o : HttpObserver)
    → o.sending ≡ true
    → observe_all (xs ++ ys) o ≡ observe ys (observe_all xs o)
unfolding observe_all observe
observe_all-append [] ys o h = simp h refl
observe_all-append (x ∷ xs) ys o h = elim (Bool-cases (observe_byte x o).sending) [
  | inl e ↦ simp e (observe_all-append xs ys (observe_byte x o) e)
  | inr e ↦ simp e refl
]

-- What a response shows does not depend on how it comes in pieces.
pub observe-append :
    (xs ys : Bytes) (o : HttpObserver) → observe (xs ++ ys) o ≡ observe ys (observe xs o)
unfolding observe
observe-append xs ys o = elim (Bool-cases o.sending) [
  | inl e ↦ simp e (observe_all-append xs ys o e)
  | inr e ↦ simp e refl
]

-- A status that ends the observation.
abbrev pub IsFinal : ℕ → Type 0
IsFinal status = (100 ≤ status) × (status ≤ 599) × ((status ≡ 101) ⊎ (200 ≤ status))

-- At most the limit is kept; what was sent is a final status, and after it the sender is gone.
pub record IsValid (o : HttpObserver) : Type 0 where
  pub kept : length o.prefix ≤ o.observed
  pub bounded : length o.prefix ≤ max_header
  pub final : (status : ℕ) → o.sent ≡ some status → IsFinal status × (o.sending ≡ false)

checked-range :
    (o : Option ℕ) (status : ℕ) → checked o ≡ some status → (100 ≤ status) × (status ≤ 599)
unfolding checked in_range
checked-range none status e = absurd (ground (arith, e))
checked-range (some n) status e = ground (arith, e)

in_fields-range :
    (fields : List Bytes) (status : ℕ)
    → status_of_fields fields ≡ some status
    → (100 ≤ status) × (status ≤ 599)
unfolding status_of_fields is_http
in_fields-range [] status e = absurd (ground (arith, e))
in_fields-range (a ∷ []) status e = absurd (ground (arith, e))
in_fields-range (a ∷ b ∷ fields) status e = ground (arith, e, checked-range (parse_u16 b) status)

in_lines-range :
    (ls : List Bytes) (status : ℕ)
    → status_of_lines ls ≡ some status
    → (100 ≤ status) × (status ≤ 599)
unfolding status_of_lines
in_lines-range [] status e = absurd (ground (arith, e))
in_lines-range (l ∷ ls) status e = in_fields-range (split_whitespace l) status e

status_of-range :
    (header : Bytes) (status : ℕ) → status_of header ≡ some status → (100 ≤ status) × (status ≤ 599)
unfolding status_of
status_of-range header status e = in_lines-range (lines header) status (ground (arith, e))

unsent : (o : HttpObserver) → IsValid o → o.sending ≡ true → o.sent ≡ none
unsent o v h = elim (Option-cases o.sent) [
  | inl e ↦ e
  | inr (status, e) ↦ absurd (ground (arith, (v.final status e).1, h))
]

-- An observer that has sent nothing is valid when it keeps little.
unsent-IsValid :
    (o : HttpObserver)
    → length o.prefix ≤ o.observed
    → length o.prefix ≤ max_header
    → o.sent ≡ none
    → IsValid o
unsent-IsValid o a b e = record {
  kept = a;
  bounded = b;
  final = λ status f. absurd (ground (arith, e, f));
}

conclude-IsValid :
    (o : HttpObserver) (found : Option ℕ)
    → length o.prefix ≤ o.observed
    → o.sent ≡ none
    → ((status : ℕ) → found ≡ some status → (100 ≤ status) × (status ≤ 599))
    → IsValid (conclude o found)
unfolding conclude close send
conclude-IsValid o none a e range = unsent-IsValid (close o) (omega arith) (omega arith) e
conclude-IsValid o (some status) a e range =
    let bounds = range status refl in
    elim (Bool-cases (leb status 199 && not (nat_beq status 101))) [
      | inl interim ↦
          simp interim (unsent-IsValid (record o { prefix = [] }) (omega arith) (omega arith) e)
      | inr last ↦ simp last (record {
        kept = omega arith;
        bounded = omega arith;
        final = λ s f. ground (arith, bounds, last, f);
      })
    ]

observe_byte-IsValid :
    (byte : ℕ) (o : HttpObserver) → IsValid o → o.sending ≡ true → IsValid (observe_byte byte o)
unfolding observe_byte close
observe_byte-IsValid byte o v h =
    let e = unsent o v h in
    let size = length-append o.prefix (byte ∷ []) in
    let counted = record o { observed = o.observed + 1 } in
    let longer = record counted { prefix = o.prefix ++ (byte ∷ []) } in
    elim (Bool-cases (ltb max_header (o.observed + 1))) [
      | inl over ↦ simp over (unsent-IsValid (close counted) (omega arith) (omega arith) e)
      | inr within ↦ elim (Bool-cases (ends_with (crlf ++ crlf) (o.prefix ++ (byte ∷ [])))) [
        | inl whole ↦
            simp (within, whole)
              (conclude-IsValid longer (status_of (o.prefix ++ (byte ∷ [])))
                (omega (arith, size, v.kept)) e (status_of-range (o.prefix ++ (byte ∷ []))))
        | inr part ↦
            simp (within, part)
              (unsent-IsValid longer (omega (arith, size, v.kept))
                (ground (arith, size, v.kept, within)) e)
      ]
    ]

observe_all-IsValid :
    (bytes : Bytes) (o : HttpObserver)
    → IsValid o
    → o.sending ≡ true
    → IsValid (observe_all bytes o)
unfolding observe_all
observe_all-IsValid [] o v h = v
observe_all-IsValid (byte ∷ bytes) o v h =
    let next = observe_byte-IsValid byte o v h in
    elim (Bool-cases (observe_byte byte o).sending) [
      | inl e ↦ simp e (observe_all-IsValid bytes (observe_byte byte o) next e)
      | inr e ↦ simp e next
    ]

-- However much of a response has been read, at most 64 KiB of it are kept, and what has been sent is
-- one final status in range, after which nothing more is looked at.
pub observe-IsValid : (bytes : Bytes) (o : HttpObserver) → IsValid o → IsValid (observe bytes o)
unfolding observe
observe-IsValid bytes o v = elim (Bool-cases o.sending) [
  | inl e ↦ simp e (observe_all-IsValid bytes o v e)
  | inr e ↦ simp e v
]
