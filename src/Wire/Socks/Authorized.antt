-- ===== src/Wire/Socks/Authorized.antt =====
-- src-tauri/src/proxy.rs: nobody gets through the SOCKS5 handshake without the credentials.
use proxy_load.Base.{
  if◌then◌else◌, ◌≡◌, refl, sym, ap, ◌∙◌, subst, Bool, true, false, ◌&&◌, [], ◌∷◌, ◌++◌, arith,
  length, nat_beq,
}
use proxy_load.Models.{Bytes}
use proxy_load.Runtime.{InboundAuth}
use proxy_load.Text.{as_bytes, contains}
use proxy_load.Wire.{Reply, Client, write, byte}
use proxy_load.Wire.Step.{guard}
use proxy_load.Wire.Compare.{constant_time_eq, constant_time_eq_iff}
use proxy_load.Wire.Read.{stream, Gives-mono, Gives-all, Gives, Gives->>=, read-Gives}
use proxy_load.Wire.Socks.Admit.{credentials, greeting, append-assoc_cons}
use proxy_load.Wire.Socks.{
  authenticate_socks5_client, tell_and_guard, refuse_unless, authenticate_if, selected_method,
  admit, take_request, handle_socks5_handshake,
}

tell_and_guard-Gives :
    (test : Bool) (passed failed : Bytes) (c : Client)
    → Gives (λ _ d. (test ≡ true) × (stream c ≡ stream d)) (tell_and_guard test passed failed c)
unfolding tell_and_guard write
tell_and_guard-Gives true passed failed c = (refl, refl)
tell_and_guard-Gives false passed failed c = tt

refuse_unless-Gives :
    (test : Bool) (answer : Bytes) (c : Client)
    → Gives (λ _ d. (test ≡ true) × (stream c ≡ stream d)) (refuse_unless test answer c)
unfolding refuse_unless write
refuse_unless-Gives true answer c = (refl, refl)
refuse_unless-Gives false answer c = tt

guard-Gives :
    (test : Bool) (c : Client) → Gives (λ _ d. (test ≡ true) × (stream c ≡ stream d)) (guard test c)
guard-Gives true c = (refl, refl)
guard-Gives false c = tt

two_bytes : (bytes : Bytes) → length bytes ≡ 2 → bytes ≡ byte bytes 0 ∷ byte bytes 1 ∷ []
two_bytes [] e = absurd (ground (arith, e))
two_bytes (a ∷ []) e = absurd (ground (arith, e))
two_bytes (a ∷ b ∷ []) e = refl
two_bytes (a ∷ b ∷ c ∷ s) e = absurd (ground (arith, e))

one_byte : (bytes : Bytes) → length bytes ≡ 1 → bytes ≡ byte bytes 0 ∷ []
one_byte [] e = absurd (ground (arith, e))
one_byte (a ∷ []) e = refl
one_byte (a ∷ b ∷ s) e = absurd (ground (arith, e))

-- The message that was read.
read_credentials :
    (user pass header size s0 s1 s2 s3 s4 : Bytes)
    → s0 ≡ header ++ s1
    → s1 ≡ user ++ s2
    → s2 ≡ size ++ s3
    → s3 ≡ pass ++ s4
    → length header ≡ 2
    → length size ≡ 1
    → byte header 0 ≡ 1
    → byte header 1 ≡ length user
    → byte size 0 ≡ length pass
    → s0 ≡ credentials user pass ++ s4
read_credentials user pass header size s0 s1 s2 s3 s4 a b c d e f g h i =
    let head : header ≡ 1 ∷ length user ∷ [] = ground (arith, two_bytes header e, g, h) in
    let sized : size ≡ length pass ∷ [] = ground (arith, one_byte size f, i) in
    a
    ∙ ap (λ t. t ++ s1) head
    ∙ ap (λ t. 1 ∷ length user ∷ t)
        (b
          ∙ ap (λ t. user ++ t) (c ∙ ap (λ t. t ++ s3) sized ∙ ap (λ t. length pass ∷ t) d)
          ∙ sym (append-assoc_cons user pass s4 (length pass)))

check : InboundAuth → Bytes → Bytes → Client → Reply Client (Unit {0})
check auth user pass =
    tell_and_guard
      (constant_time_eq user (as_bytes auth.username)
        && constant_time_eq pass (as_bytes auth.password))
      (1 ∷ 0 ∷ []) (1 ∷ 1 ∷ [])

check-Gives :
    (auth : InboundAuth) (user pass : Bytes) (c : Client)
    → Gives
        (λ _ d.
          (user ≡ as_bytes auth.username) × (pass ≡ as_bytes auth.password) × (stream c ≡ stream d))
        (check auth user pass c)
unfolding check
check-Gives auth user pass c =
    let U = as_bytes auth.username in
    let P = as_bytes auth.password in
    let test = constant_time_eq user U && constant_time_eq pass P in
    Gives-mono (λ _ d. (test ≡ true) × (stream c ≡ stream d)) _
      (tell_and_guard test (1 ∷ 0 ∷ []) (1 ∷ 1 ∷ []) c)
      (tell_and_guard-Gives test (1 ∷ 0 ∷ []) (1 ∷ 1 ∷ []) c)
      λ _ d q. (
        (constant_time_eq_iff user U).0 (ground (arith, q.0)),
        (constant_time_eq_iff pass P).0 (ground (arith, q.0)),
        q.1,
      )

authenticate-Gives :
    (auth : InboundAuth) (c : Client)
    → Gives
        (λ _ d.
          stream c ≡ credentials (as_bytes auth.username) (as_bytes auth.password) ++ stream d)
        (authenticate_socks5_client auth c)
unfolding authenticate_socks5_client check
authenticate-Gives auth c =
    let U = as_bytes auth.username in
    let P = as_bytes auth.password in
    let R : Unit {0} → Client → Type 0 = λ _ d. stream c ≡ credentials U P ++ stream d in
    read-Gives R 2 c _ λ header c1 e1 l1.
      Gives->>= _ R (refuse_unless (nat_beq (byte header 0) 1) (1 ∷ 1 ∷ []) c1) _
        (refuse_unless-Gives _ _ c1)
        λ _ c2 e2. read-Gives R (byte header 1) c2 _ λ user c3 e3 l3.
          read-Gives R 1 c3 _ λ size c4 e4 l4. read-Gives R (byte size 0) c4 _ λ pass c5 e5 l5.
            Gives-mono _ R (check auth user pass c5) (check-Gives auth user pass c5) λ _ d q.
              read_credentials user pass header size (stream c) (stream c2) (stream c3) (stream c4)
                (stream d) (e1 ∙ ap (λ t. header ++ t) e2.1) e3 e4 (e5 ∙ ap (λ t. pass ++ t) q.2) l1
                l4 (ground (arith, e2.0)) (sym l3) (sym l5)
              ∙ ap (λ t. credentials t pass ++ stream d) q.0
              ∙ ap (λ t. credentials U t ++ stream d) q.1

authenticate_if-Gives :
    (b : Bool) (auth : InboundAuth) (c : Client)
    → b ≡ true
    → Gives
        (λ _ d.
          stream c ≡ credentials (as_bytes auth.username) (as_bytes auth.password) ++ stream d)
        (authenticate_if b auth c)
unfolding authenticate_if
authenticate_if-Gives false auth c e = absurd (ground (arith, e))
authenticate_if-Gives true auth c e = authenticate-Gives auth c

read_greeting :
    (methods header s0 s1 s2 : Bytes)
    → s0 ≡ header ++ s1
    → s1 ≡ methods ++ s2
    → length header ≡ 2
    → byte header 0 ≡ 5
    → byte header 1 ≡ length methods
    → s0 ≡ greeting methods ++ s2
read_greeting methods header s0 s1 s2 a b c d e =
    let head : header ≡ 5 ∷ length methods ∷ [] = ground (arith, two_bytes header c, d, e) in
    a ∙ ap (λ t. t ++ s1) head ∙ ap (λ t. 5 ∷ length methods ∷ t) b

-- What a client must have sent that was let in.
abbrev pub HasAuthenticated : InboundAuth → Bytes → Type 0
HasAuthenticated auth sent =
    (methods : Bytes) × (rest : Bytes) × (contains 2 methods ≡ true)
    × (sent
        ≡ greeting methods
          ++ (credentials (as_bytes auth.username) (as_bytes auth.password) ++ rest))

admit-Gives :
    (auth : InboundAuth) (c : Client)
    → auth.enabled ≡ true
    → Gives (λ _ d. HasAuthenticated auth (stream c)) (admit auth c)
unfolding admit write
admit-Gives auth c on =
    let R : Unit {0} → Client → Type 0 = λ _ d. HasAuthenticated auth (stream c) in
    read-Gives R 2 c _ λ header c1 e1 l1.
      Gives->>= _ R (guard (nat_beq (byte header 0) 5) c1) _ (guard-Gives _ c1) λ _ c2 e2.
        read-Gives R (byte header 1) c2 _ λ methods c3 e3 l3.
          Gives->>= _ R (refuse_unless (contains (selected_method auth) methods) (5 ∷ 255 ∷ []) c3)
            _ (refuse_unless-Gives _ _ c3)
            λ _ c4 e4.
              Gives-mono _ R
                (authenticate_if auth.enabled auth
                  (record c4 { written = c4.written ++ (5 ∷ selected_method auth ∷ []) }))
                (authenticate_if-Gives auth.enabled auth _ on)
                λ _ d q.
                  let offered : contains 2 methods ≡ true =
                    subst (λ b. contains (if b then 2 else 0) methods ≡ true) on e4.0 in
                  (
                    methods,
                    stream d,
                    offered,
                    read_greeting methods header (stream c) (stream c2) (stream c3)
                          (e1 ∙ ap (λ t. header ++ t) e2.1) e3 l1 (ground (arith, e2.0)) (sym l3)
                        ∙ ap (λ t. greeting methods ++ t) (e4.1 ∙ q),
                  )

-- With authentication on, a client that gets a request through the handshake has offered the method
-- with a user's name and password and has sent exactly the configured ones.
pub handshake_authorized :
    (auth : InboundAuth) (c : Client)
    → auth.enabled ≡ true
    → Gives (λ _ _. HasAuthenticated auth (stream c)) (handle_socks5_handshake auth c)
unfolding handle_socks5_handshake
handshake_authorized auth c on =
    Gives->>= _ (λ _ _. HasAuthenticated auth (stream c)) (admit auth c) _ (admit-Gives auth c on)
      λ _ d sent. Gives-all _ (take_request d) λ _ _. sent
