-- ===== src/Http/Header/Begun.antt =====
-- src-tauri/src/proxy.rs: what `looks_like_http_proxy_request` tells of the byte read last.
use proxy_load.Base.{
  subst, sym, ◌∙◌, ◌||◌, Bool, ℕ, suc, ◌≤◌, ◌<◌, ◌≡◌, refl, ap, true, false, List, [], ◌∷◌, ◌++◌,
  arith, nat_beq, length, any, All, Bool-cases, inl, inr, length-append, take, drop, unwrap_or,
  get_elem?, zero,
}
use proxy_load.Models.{Bytes}
use proxy_load.Text.{as_bytes}
use proxy_load.Text.Lines.{starts_with, to_uppercase}
use proxy_load.Http.Header.{methods, is_sniffed, looks_like_http_proxy_request}

-- Whether a stream begins as one of a SOCKS5 client or with the method of an HTTP request.
abbrev pub begins_known : Bytes → Bool
begins_known stream = starts_with (5 ∷ []) stream || any (λ m. starts_with m stream) methods

abbrev last : ℕ → Bytes → ℕ
last d [] = d
last d (c ∷ s) = last c s

last-append : (d : ℕ) (p : Bytes) (x : ℕ) → last d (p ++ (x ∷ [])) ≡ x
last-append d [] x = refl
last-append d (c ∷ p) x = last-append c p x

-- What holds of each method: it is in upper case and ends in a space.
abbrev IsUpper : Bytes → Type 0
IsUpper m = (to_uppercase m ≡ m) × (last 0 m ≡ 32)

methods-IsUpper : All IsUpper methods
unfolding methods as_bytes to_uppercase
methods-IsUpper = (
  (refl, refl),
  (
    (refl, refl),
    (
      (refl, refl),
      (
        (refl, refl),
        ((refl, refl), ((refl, refl), ((refl, refl), ((refl, refl), ((refl, refl), tt))))),
      ),
    ),
  ),
)

take-whole : (n : ℕ) (s : Bytes) → length s ≤ n → take n s ≡ s
take-whole zero [] h = refl
take-whole (suc n) [] h = refl
take-whole zero (c ∷ s) h = absurd (omega (arith, h))
take-whole (suc n) (c ∷ s) h = ap (λ r. c ∷ r) (take-whole n s (omega (arith, h)))

to_uppercase-append : (p q : Bytes) → to_uppercase (p ++ q) ≡ to_uppercase p ++ to_uppercase q
unfolding to_uppercase
to_uppercase-append [] q = refl
to_uppercase-append (c ∷ p) q = ap (λ r. (to_uppercase (c ∷ []) ++ r)) (to_uppercase-append p q)

upper_start : (p m : Bytes) → starts_with p m ≡ true → to_uppercase m ≡ m → to_uppercase p ≡ p
unfolding starts_with to_uppercase
upper_start [] m h e = refl
upper_start (x ∷ p) [] h e = absurd (ground (arith, h))
upper_start (x ∷ p) (y ∷ m) h e =
    ground (arith, h, e, upper_start p m (ground (arith, h)) (ap (drop 1) e))

starts_with-last :
    (m p : Bytes) (x : ℕ)
    → starts_with m (p ++ (x ∷ [])) ≡ true
    → starts_with m p ≡ false
    → m ≡ p ++ (x ∷ [])
unfolding starts_with
starts_with-last [] [] x h n = absurd cc
starts_with-last [] (z ∷ p) x h n = absurd cc
starts_with-last (y ∷ []) [] x h n = ground (arith, h)
starts_with-last (y ∷ w ∷ m) [] x h n = absurd (ground (arith, h))
starts_with-last (y ∷ m) (z ∷ p) x h n =
    ground (arith, h, n, starts_with-last m p x (ground (arith, h)) (ground (arith, h, n)))

begins-append : (p s : Bytes) (c : ℕ) → starts_with (p ++ (c ∷ [])) (p ++ (c ∷ s)) ≡ true
unfolding starts_with
begins-append [] s c = ground arith
begins-append (x ∷ p) s c = ground (arith, begins-append p s c)

only_space : (c : ℕ) → last 0 (to_uppercase (c ∷ [])) ≡ 32 → c ≡ 32
unfolding to_uppercase
only_space c h = ground (arith, h)

-- A method that the byte read last completes.
completes :
    (m p s : Bytes) (c : ℕ)
    → IsUpper m
    → starts_with m (p ++ to_uppercase (c ∷ [])) ≡ true
    → starts_with m p ≡ false
    → starts_with m (p ++ (c ∷ s)) ≡ true
unfolding to_uppercase
completes m p s c u h n =
    let whole = starts_with-last m p (last 0 (to_uppercase (c ∷ []))) h n in
    let space : last 0 (to_uppercase (c ∷ [])) ≡ 32 =
      sym (last-append 0 p (last 0 (to_uppercase (c ∷ [])))) ∙ ap (last 0) (sym whole) ∙ u.1 in
    let same : m ≡ p ++ (c ∷ []) =
      whole ∙ ap (λ x. p ++ (x ∷ [])) (space ∙ sym (only_space c space)) in
    subst (λ t. starts_with t (p ++ (c ∷ s)) ≡ true) (sym same) (begins-append p s c)

any_completes :
    (ms : List Bytes) (p s : Bytes) (c : ℕ)
    → All IsUpper ms
    → any (λ m. starts_with m (p ++ to_uppercase (c ∷ []))) ms ≡ true
    → any (λ m. starts_with m p) ms ≡ false
    → any (λ m. starts_with m (p ++ (c ∷ s))) ms ≡ true
any_completes [] p s c u h n = absurd cc
any_completes (m ∷ ms) p s c u h n =
    elim (Bool-cases (starts_with m (p ++ to_uppercase (c ∷ [])))) [
      | inl e ↦ ground (arith, completes m p s c u.0 e (ground (arith, n)))
      | inr e ↦
          ground (arith, any_completes ms p s c u.1 (ground (arith, h, e)) (ground (arith, n)))
    ]

upper_begun :
    (p : Bytes) (ms : List Bytes)
    → All IsUpper ms
    → any (λ m. starts_with p m) ms ≡ true
    → to_uppercase p ≡ p
upper_begun p [] u h = absurd cc
upper_begun p (m ∷ ms) u h = elim (Bool-cases (starts_with p m)) [
  | inl e ↦ upper_start p m e u.0.0
  | inr e ↦ upper_begun p ms u.1 (ground (arith, h, e))
]

looks_like_eq :
    (p : Bytes)
    → length p ≤ 16
    → looks_like_http_proxy_request p ≡ any (λ m. starts_with m (to_uppercase p)) methods
unfolding looks_like_http_proxy_request
looks_like_eq p h = ap (λ t. any (λ m. starts_with m (to_uppercase t)) methods) (take-whole 16 p h)

first_five :
    (p s : Bytes) (c : ℕ)
    → nat_beq (unwrap_or (get_elem? (p ++ (c ∷ [])) 0) 0) 5 ≡ true
    → starts_with (5 ∷ []) (p ++ (c ∷ s)) ≡ true
unfolding starts_with
first_five [] s c h = ground (arith, h)
first_five (x ∷ p) s c h = ground (arith, h)

-- When the byte read last makes the protocol known, the stream begins as one of that protocol.
pub sniffed-begins :
    (p s : Bytes) (c : ℕ)
    → length p < 8
    → any (λ m. starts_with p m) methods ≡ true
    → is_sniffed p ≡ false
    → is_sniffed (p ++ (c ∷ [])) ≡ true
    → begins_known (p ++ (c ∷ s)) ≡ true
unfolding is_sniffed
sniffed-begins p s c l b n h =
    let longer = p ++ (c ∷ []) in
    let up = upper_begun p methods methods-IsUpper b in
    elim (Bool-cases (nat_beq (unwrap_or (get_elem? longer 0) 0) 5)) [
      | inl e ↦ ground (arith, first_five p s c e)
      | inr e ↦
          let before : any (λ m. starts_with m p) methods ≡ false =
            ap (λ t. any (λ m. starts_with m t) methods) (sym up)
            ∙ sym (looks_like_eq p (omega (arith, l)))
            ∙ ground (arith, n) in
          let after : any (λ m. starts_with m (p ++ to_uppercase (c ∷ []))) methods ≡ true =
            ap (λ t. any (λ m. starts_with m (t ++ to_uppercase (c ∷ []))) methods) (sym up)
            ∙ ap (λ t. any (λ m. starts_with m t) methods) (sym (to_uppercase-append p (c ∷ [])))
            ∙ sym (looks_like_eq longer (omega (arith, l, length-append p (c ∷ []))))
            ∙ ground (arith, h, e) in
          let done = any_completes methods p s c methods-IsUpper after before in
          ground (arith, done)
    ]
