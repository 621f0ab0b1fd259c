-- ===== src/Http/Header/Sniff.antt =====
-- src-tauri/src/proxy.rs: `sniff_protocol` reads few bytes and loses none.
use proxy_load.Base.{
  is_some, subst, ◌≤◌, ◌<◌, ◌≡◌, refl, ap, true, false, Option, none, some, List, [], ◌∷◌, ◌++◌,
  arith, nat_beq, length, any, All, Bool-cases, inl, inr, length-append,
}
use proxy_load.Models.{Bytes}
use proxy_load.Text.{as_bytes}
use proxy_load.Text.Lines.{starts_with, to_uppercase}
use proxy_load.Wire.Exact.{append_assoc}
use proxy_load.Http.Header.Begun.{begins_known, sniffed-begins}
use proxy_load.Http.Header.{
  methods, is_sniffed, looks_like_http_proxy_request, sniff_from, sniff_protocol,
}

prefix-eq :
    (p m : Bytes) → starts_with p m ≡ true → (length p ≤ length m) × (length p ≡ length m → p ≡ m)
unfolding starts_with
prefix-eq [] [] h = (omega arith, λ _. refl)
prefix-eq [] (y ∷ m) h = (omega arith, λ e. absurd (omega (arith, e)))
prefix-eq (x ∷ p) [] h = absurd (ground (arith, h))
prefix-eq (x ∷ p) (y ∷ m) h =
    let rest = prefix-eq p m (ground (arith, h)) in
    (omega (arith, rest.0), λ e. ground (arith, h, rest.1 (omega (arith, e))))

-- A method that is short and that ends the sniffing.
abbrev IsKnown : Bytes → Type 0
IsKnown m = (length m ≤ 8) × (is_sniffed m ≡ true)

methods-IsKnown : All IsKnown methods
unfolding methods is_sniffed looks_like_http_proxy_request as_bytes starts_with to_uppercase
methods-IsKnown = (
  (omega arith, refl),
  (
    (omega arith, refl),
    (
      (omega arith, refl),
      (
        (omega arith, refl),
        (
          (omega arith, refl),
          (
            (omega arith, refl),
            ((omega arith, refl), ((omega arith, refl), ((omega arith, refl), tt))),
          ),
        ),
      ),
    ),
  ),
)

still_short :
    (p : Bytes) (ms : List Bytes)
    → All IsKnown ms
    → any (λ m. starts_with p m) ms ≡ true
    → is_sniffed p ≡ false
    → length p < 8
still_short p [] k h f = absurd (ground (arith, h))
still_short p (m ∷ ms) k h f = elim (Bool-cases (starts_with p m)) [
  | inl e ↦
      let within = prefix-eq p m e in
      elim (Bool-cases (nat_beq (length p) (length m))) [
        | inl same ↦
            absurd (ground (arith, ap is_sniffed (within.1 (ground (arith, same))), k.0.1, f))
        | inr shorter ↦ ground (arith, within.0, shorter, k.0.0)
      ]
  | inr e ↦ still_short p ms k.1 (ground (arith, h, e)) f
]

-- A stream is refused if it begins neither as one of a SOCKS5 client nor with the method of an HTTP
-- request; else there is what was read and what is to come.
abbrev pub Sniffed : Bytes → Option (Bytes × Bytes) → Type 0
Sniffed stream none = begins_known stream ≡ false
Sniffed stream (some parts) =
    (length parts.0 ≤ 8)
    × (parts.0 ++ parts.1 ≡ stream)
    × (is_sniffed parts.0 ≡ true)
    × (begins_known stream ≡ true)

-- The same of a stream that is not refused.
abbrev Kept : Bytes → Option (Bytes × Bytes) → Type 0
Kept stream none = Unit
Kept stream (some parts) = Sniffed stream (some parts)

sniff_from-Kept :
    (prefix s : Bytes)
    → length prefix < 8
    → any (λ m. starts_with prefix m) methods ≡ true
    → is_sniffed prefix ≡ false
    → Kept (prefix ++ s) (sniff_from prefix s)
unfolding sniff_from
sniff_from-Kept prefix [] h b n = tt
sniff_from-Kept prefix (c ∷ s) h b n =
    let longer = prefix ++ (c ∷ []) in
    let same = append_assoc prefix (c ∷ []) s in
    elim (Bool-cases (is_sniffed longer)) [
      | inl known ↦ simp known (
        omega (arith, length-append prefix (c ∷ []), h),
        same,
        refl,
        sniffed-begins prefix s c h b n known,
      )
      | inr unknown ↦ elim (Bool-cases (any (λ m. starts_with longer m) methods)) [
        | inl begins ↦
            simp (unknown, begins)
              (subst (λ t. Kept t (sniff_from longer s)) same
                (sniff_from-Kept longer s
                  (still_short longer methods methods-IsKnown begins unknown) begins unknown))
        | inr other ↦ simp (unknown, other) tt
      ]
    ]

none_sniffed : is_sniffed [] ≡ false
unfolding is_sniffed looks_like_http_proxy_request methods as_bytes starts_with to_uppercase
none_sniffed = refl

all_begin : any (λ m. starts_with [] m) methods ≡ true
unfolding methods as_bytes starts_with
all_begin = refl

starts_with-rest : (p s : Bytes) → starts_with p s ≡ true → (rest : Bytes) × (s ≡ p ++ rest)
unfolding starts_with
starts_with-rest [] s h = (s, refl)
starts_with-rest (x ∷ p) [] h = absurd (ground (arith, h))
starts_with-rest (x ∷ p) (y ∷ s) h =
    let (rest, e) = starts_with-rest p s (ground (arith, h)) in (rest, ground (arith, h, e))

-- A stream that begins with it is not refused.
abbrev Serves : Bytes → Type 0
Serves m = (rest : Bytes) → sniff_protocol (m ++ rest) ≡ some (m, rest)

methods-Serves : All Serves methods
unfolding sniff_protocol sniff_from methods is_sniffed looks_like_http_proxy_request as_bytes
    starts_with to_uppercase
methods-Serves = (
  λ r. refl,
  (
    λ r. refl,
    (λ r. refl, (λ r. refl, (λ r. refl, (λ r. refl, (λ r. refl, (λ r. refl, (λ r. refl, tt))))))),
  ),
)

socks-Serves : Serves (5 ∷ [])
unfolding sniff_protocol sniff_from is_sniffed
socks-Serves rest = refl

Serves-some : (m s : Bytes) → Serves m → starts_with m s ≡ true → is_some (sniff_protocol s) ≡ true
Serves-some m s serves h = let (rest, e) = starts_with-rest m s h in rw (e, serves rest) refl

any-some :
    (ms : List Bytes) (s : Bytes)
    → All Serves ms
    → any (λ m. starts_with m s) ms ≡ true
    → is_some (sniff_protocol s) ≡ true
any-some [] s k h = absurd cc
any-some (m ∷ ms) s k h = elim (Bool-cases (starts_with m s)) [
  | inl e ↦ Serves-some m s k.0 e
  | inr e ↦ any-some ms s k.1 (ground (arith, h, e))
]

known-some : (s : Bytes) → begins_known s ≡ true → is_some (sniff_protocol s) ≡ true
known-some s h = elim (Bool-cases (starts_with (5 ∷ []) s)) [
  | inl e ↦ Serves-some (5 ∷ []) s socks-Serves e
  | inr e ↦ any-some methods s methods-Serves (ground (arith, h, e))
]

Kept-Sniffed :
    (s : Bytes) (found : Option (Bytes × Bytes))
    → sniff_protocol s ≡ found
    → Kept s found
    → Sniffed s found
Kept-Sniffed s (some parts) e k = k
Kept-Sniffed s none e k = elim (Bool-cases (begins_known s)) [
  | inl known ↦ absurd (ground (arith, known-some s known, ap is_some e))
  | inr unknown ↦ unknown
]

-- `sniff_protocol` accepts exactly the streams that begin with the byte 5 or with the method of an
-- HTTP request; of those it has then read eight bytes at most, which tell the protocol, and no byte is
-- lost.
pub sniff_protocol-Sniffed : (s : Bytes) → Sniffed s (sniff_protocol s)
sniff_protocol-Sniffed s =
    Kept-Sniffed s (sniff_protocol s) refl
      (unfold sniff_protocol in sniff_from-Kept [] s (omega arith) all_begin none_sniffed)
