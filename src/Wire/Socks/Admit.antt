-- ===== src/Wire/Socks/Admit.antt =====
-- src-tauri/src/proxy.rs: a client that offers the method of authentication and authenticates is
-- let in, however its bytes come in pieces.
use proxy_load.Base.{
  ◌&&◌, if◌then◌else◌, ℕ, ◌≡◌, refl, ap, subst, Bool, true, false, [], ◌∷◌, ◌++◌, arith, length,
}
use proxy_load.Models.{Bytes}
use proxy_load.Runtime.{InboundAuth}
use proxy_load.Text.{as_bytes, contains}
use proxy_load.Wire.{Client}
use proxy_load.Wire.Exact.{append_assoc}
use proxy_load.Wire.Step.{guard}
use proxy_load.Wire.Compare.{constant_time_eq_self, constant_time_eq}
use proxy_load.Wire.Read.{State-same, State, Ends, read-then, write-then}
use proxy_load.Wire.Socks.{
  authenticate_socks5_client, tell_and_guard, refuse_unless, authenticate_if, selected_method,
  admit,
}

-- The message with a user's name and password.
abbrev pub credentials : Bytes → Bytes → Bytes
credentials username password = 1 ∷ length username ∷ (username ++ (length password ∷ password))

pub append-assoc_cons : (xs ys zs : Bytes) (y : ℕ) → (xs ++ (y ∷ ys)) ++ zs ≡ xs ++ (y ∷ (ys ++ zs))
append-assoc_cons [] ys zs y = refl
append-assoc_cons (x ∷ xs) ys zs y = ap (λ r. x ∷ r) (append-assoc_cons xs ys zs y)

tell_and_guard-Ends :
    (test : Bool) (passed failed stream w : Bytes) (c : Client)
    → test ≡ true
    → State stream w c
    → Ends (λ _ _. Unit {0}) stream (w ++ passed) (tell_and_guard test passed failed c)
unfolding tell_and_guard
tell_and_guard-Ends false passed failed stream w c e s = absurd (ground (arith, e))
tell_and_guard-Ends true passed failed stream w c e s =
    write-then (λ _ _. Unit {0}) passed stream stream w (w ++ passed) c (λ _. guard true) s
      λ d h. (tt, h)

authenticate-Ends :
    (auth : InboundAuth) (rest w : Bytes) (c : Client)
    → State (credentials (as_bytes auth.username) (as_bytes auth.password) ++ rest) w c
    → Ends (λ _ _. Unit {0}) rest (w ++ (1 ∷ 0 ∷ [])) (authenticate_socks5_client auth c)
unfolding authenticate_socks5_client refuse_unless
authenticate-Ends auth rest w c s =
    let user = as_bytes auth.username in
    let pass = as_bytes auth.password in
    let same = ap (λ r. 1 ∷ length user ∷ r) (append-assoc_cons user pass rest (length pass)) in
    read-then (λ _ _. Unit {0}) (1 ∷ length user ∷ []) (user ++ (length pass ∷ (pass ++ rest))) rest
      w (w ++ (1 ∷ 0 ∷ [])) c _ (State-same _ _ w c same s)
      (λ c1 s1. read-then _ user _ rest w _ c1 _ s1 λ c2 s2.
        read-then _ (length pass ∷ []) _ rest w _ c2 _ s2 λ c3 s3.
          read-then _ pass rest rest w _ c3 _ s3 λ c4 s4.
            tell_and_guard-Ends (constant_time_eq user user && constant_time_eq pass pass)
              (1 ∷ 0 ∷ []) (1 ∷ 1 ∷ []) rest w c4
              (ground (arith, constant_time_eq_self user, constant_time_eq_self pass)) s4)

-- How a client begins that offers `methods`.
abbrev pub greeting : Bytes → Bytes
greeting methods = 5 ∷ length methods ∷ methods

-- What a client that has to authenticate sends then, and what it is told.
abbrev pub proof_when : Bool → InboundAuth → Bytes
proof_when true auth = credentials (as_bytes auth.username) (as_bytes auth.password)
proof_when false auth = []

abbrev pub told_when : Bool → Bytes
told_when true = 5 ∷ 2 ∷ 1 ∷ 0 ∷ []
told_when false = 5 ∷ 0 ∷ []

authenticate_if-Ends :
    (b : Bool) (auth : InboundAuth) (rest w : Bytes) (c : Client)
    → State (proof_when b auth ++ rest) (w ++ (5 ∷ (if b then 2 else 0) ∷ [])) c
    → Ends (λ _ _. Unit {0}) rest (w ++ told_when b) (authenticate_if b auth c)
unfolding authenticate_if
authenticate_if-Ends false auth rest w c s = (tt, s)
authenticate_if-Ends true auth rest w c s =
    subst (λ t. Ends (λ _ _. Unit {0}) rest t (authenticate_socks5_client auth c))
      (append_assoc w (5 ∷ 2 ∷ []) (1 ∷ 0 ∷ []))
      (authenticate-Ends auth rest (w ++ (5 ∷ 2 ∷ [])) c s)

pub admit-Ends :
    (auth : InboundAuth) (methods rest w : Bytes) (c : Client)
    → contains (selected_method auth) methods ≡ true
    → State (greeting methods ++ (proof_when auth.enabled auth ++ rest)) w c
    → Ends (λ _ _. Unit {0}) rest (w ++ told_when auth.enabled) (admit auth c)
unfolding admit refuse_unless
admit-Ends auth methods rest w c offered s =
    read-then (λ _ _. Unit {0}) (5 ∷ length methods ∷ [])
      (methods ++ (proof_when auth.enabled auth ++ rest)) rest w (w ++ told_when auth.enabled) c _ s
      λ c1 s1. read-then _ methods (proof_when auth.enabled auth ++ rest) rest w _ c1 _ s1 λ c2 s2.
        rw offered (
          write-then _ (5 ∷ selected_method auth ∷ []) (proof_when auth.enabled auth ++ rest) rest w
            _ c2 _ s2 λ c3 s3. authenticate_if-Ends auth.enabled auth rest w c3 s3)
