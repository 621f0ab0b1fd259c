-- ===== src/Wire/Dial/Blame.antt =====
-- src-tauri/src/proxy.rs: whom a failure to connect through a SOCKS5 proxy is blamed on.
use proxy_load.Base.{
  ℕ, ◌≡◌, refl, sym, ap, ◌∙◌, ◌⊎◌, inl, inr, true, ◌&&◌, ◌||◌, not, [], ◌∷◌, arith, length, take,
  drop, ltb, nat_beq, Bool-cases,
}
use proxy_load.Models.{Bytes, ProxyRecord}
use proxy_load.Candidate.{TargetRequest}
use proxy_load.Runtime.{proxy, target}
use proxy_load.Wire.{byte}
use proxy_load.Wire.Step.{Reply, got, gone, guard}
use proxy_load.Wire.Dial.{
  text_or_empty, credentials_of, Link, connect_socks5, send, receive, blame, use_auth,
  offered_methods, send_credentials, log_in, negotiate, ask, dial,
}
use proxy_load.Wire.Dial.Post.{
  Post, Post->>=, Blames, guard-Post, receive-Post, Post-weaken, Post-gives, sent,
}
use proxy_load.Wire.Dial.Refused.{TargetFails, Refused, ask-Post}

-- The proxy has chosen a method and, if it asked for them, accepted the credentials.
abbrev pub HasNegotiated : Bytes → Bytes → Type 0
HasNegotiated incoming rest =
    ((byte incoming 0 ≡ 5) × (byte incoming 1 ≡ 0) × (rest ≡ drop 2 incoming))
    ⊎ ((byte incoming 0 ≡ 5)
        × (byte incoming 1 ≡ 2)
        × (byte incoming 2 ≡ 1)
        × (byte incoming 3 ≡ 0)
        × (rest ≡ drop 4 incoming))

first_of_two : (xs : Bytes) → byte (take 2 xs) 0 ≡ byte xs 0
first_of_two [] = refl
first_of_two (x ∷ xs) = refl

second_of_two : (xs : Bytes) → byte (take 2 xs) 1 ≡ byte xs 1
second_of_two [] = refl
second_of_two (x ∷ []) = refl
second_of_two (x ∷ y ∷ xs) = refl

third_fourth : (xs : Bytes) → drop 2 (drop 2 xs) ≡ drop 4 xs
third_fourth [] = refl
third_fourth (a ∷ []) = refl
third_fourth (a ∷ b ∷ xs) = refl

byte_third : (xs : Bytes) → byte (take 2 (drop 2 xs)) 0 ≡ byte xs 2
byte_third [] = refl
byte_third (a ∷ []) = refl
byte_third (a ∷ b ∷ xs) = first_of_two xs

byte_fourth : (xs : Bytes) → byte (take 2 (drop 2 xs)) 1 ≡ byte xs 3
byte_fourth [] = refl
byte_fourth (a ∷ []) = refl
byte_fourth (a ∷ b ∷ xs) = second_of_two xs

-- The proxy's answer to the credentials.
log_in_answer :
    (incoming user pass : Bytes) (l : Link)
    → l.scope ≡ proxy
    → byte incoming 0 ≡ 5
    → byte incoming 1 ≡ 2
    → l.incoming ≡ drop 2 incoming
    → Post (λ _ k. HasNegotiated incoming k.incoming) (Blames proxy) (send_credentials user pass l)
unfolding send_credentials send
log_in_answer incoming user pass l s five two e =
    let fits = not (ltb 255 (length user) || ltb 255 (length pass)) in
    Post->>= _ _ (Blames proxy) (guard fits l) _ (guard-Post fits proxy l s) λ _ d q.
      let after = sent (credentials_of user pass) d in
      Post->>= _ _ (Blames proxy) (receive 2 after) _
        (receive-Post 2 proxy after (ap (λ x. x.scope) q.1 ∙ s))
        λ answer k r.
          let test = nat_beq (byte answer 0) 1 && nat_beq (byte answer 1) 0 in
          let got_bytes : answer ≡ take 2 (drop 2 incoming) =
            r.0 ∙ ap (take 2) (ap (λ x. x.incoming) q.1 ∙ e) in
          Post-gives (λ _ w. (test ≡ true) × (w ≡ k)) _ (Blames proxy) (guard test k)
            (guard-Post test proxy k r.2)
            λ _ w t. inr (
              five,
              two,
              sym (byte_third incoming) ∙ sym (ap (λ b. byte b 0) got_bytes) ∙ ground (arith, t.0),
              sym (byte_fourth incoming) ∙ sym (ap (λ b. byte b 1) got_bytes) ∙ ground (arith, t.0),
              ap (λ x. x.incoming) t.1
                  ∙ r.1
                  ∙ ap (drop 2) (ap (λ x. x.incoming) q.1 ∙ e)
                  ∙ third_fourth incoming,
            )

log_in-Post :
    (p : ProxyRecord) (incoming : Bytes) (method : ℕ) (l : Link)
    → l.scope ≡ proxy
    → byte incoming 0 ≡ 5
    → byte incoming 1 ≡ method
    → l.incoming ≡ drop 2 incoming
    → Post (λ _ k. HasNegotiated incoming k.incoming) (Blames proxy) (log_in p method l)
unfolding log_in
log_in-Post p incoming method l s five same e = elim (Bool-cases (nat_beq method 2)) [
  | inl two ↦ elim (Bool-cases (use_auth p)) [
    | inl given ↦
        rw (two, given)
          (log_in_answer incoming (text_or_empty p.username) (text_or_empty p.password) l s five
            (ground (arith, same, two)) e)
    | inr bare ↦ rw (two, bare) s
  ]
  | inr other ↦ rw other (
      Post-gives (λ _ k. (nat_beq method 0 ≡ true) × (k ≡ l)) _ (Blames proxy)
        (guard (nat_beq method 0) l) (guard-Post (nat_beq method 0) proxy l s)
        λ _ k q. inl (five, ground (arith, same, q.0), ap (λ x. x.incoming) q.1 ∙ e))
]

negotiate-Post :
    (p : ProxyRecord) (l : Link)
    → l.scope ≡ proxy
    → Post (λ _ k. HasNegotiated l.incoming k.incoming) (Blames proxy) (negotiate p l)
unfolding negotiate dial send
negotiate-Post p l s =
    Post->>= _ _ (Blames proxy) (guard l.reached l) _ (guard-Post l.reached proxy l s) λ _ d q.
      let after = sent (5 ∷ length (offered_methods p) ∷ offered_methods p) d in
      Post->>= _ _ (Blames proxy) (receive 2 after) _
        (receive-Post 2 proxy after (ap (λ x. x.scope) q.1 ∙ s))
        λ answer k r.
          let got_bytes : answer ≡ take 2 l.incoming = r.0 ∙ ap (λ x. take 2 x.incoming) q.1 in
          Post->>= (λ _ w. (nat_beq (byte answer 0) 5 ≡ true) × (w ≡ k)) _ (Blames proxy)
            (guard (nat_beq (byte answer 0) 5) k) _
            (guard-Post (nat_beq (byte answer 0) 5) proxy k r.2)
            λ _ w t.
              log_in-Post p l.incoming (byte answer 1) w (ap (λ x. x.scope) t.1 ∙ r.2)
                (sym (first_of_two l.incoming)
                  ∙ sym (ap (λ b. byte b 0) got_bytes)
                  ∙ ground (arith, t.0))
                (sym (second_of_two l.incoming) ∙ sym (ap (λ b. byte b 1) got_bytes))
                (ap (λ x. x.incoming) t.1 ∙ r.1 ∙ ap (λ x. drop 2 x.incoming) q.1)

-- Who is to blame when a connection fails.
abbrev pub IsFair : TargetRequest → Bytes → Reply Link (Unit {0}) → Type 0
IsFair request incoming (got a l) = Unit
IsFair request incoming (gone l) =
    (l.scope ≡ proxy) ⊎ ((reply : Bytes) × HasNegotiated incoming reply × TargetFails request reply)

abbrev Fair : TargetRequest → Bytes → Link → Type 0
Fair request incoming l =
    (l.scope ≡ proxy) ⊎ ((reply : Bytes) × HasNegotiated incoming reply × TargetFails request reply)

Post-IsFair :
    (request : TargetRequest) (incoming : Bytes) (r : Reply Link (Unit {0}))
    → Post (λ _ _. Unit {0}) (Fair request incoming) r
    → IsFair request incoming r
Post-IsFair request incoming (got a l) h = tt
Post-IsFair request incoming (gone l) h = h

-- When `connect_socks5` fails, it blames the proxy, or the proxy has let it in and it is the target
-- that fails: there is no request for it, or the proxy closed without a whole reply, or the code in
-- the reply is not one of the proxy's own faults.
pub connect_socks5-IsFair :
    (p : ProxyRecord) (request : TargetRequest) (l : Link)
    → l.scope ≡ proxy
    → IsFair request l.incoming (connect_socks5 p request l)
unfolding connect_socks5 blame
connect_socks5-IsFair p request l s = Post-IsFair request l.incoming (connect_socks5 p request l) (
    Post->>= _ (λ _ _. Unit {0}) (Fair request l.incoming) (negotiate p l) _
      (Post-weaken _ (Blames proxy) (Fair request l.incoming) (negotiate p l) (negotiate-Post p l s)
        λ k q. inl q)
      λ _ k negotiated.
        Post-weaken _ (Refused request k.incoming) (Fair request l.incoming)
          (ask request (record k { scope = target }))
          (ask-Post request (record k { scope = target }) refl)
          λ w q. elim q [
            | inl blamed ↦ inl blamed
            | inr fails ↦ inr (k.incoming, negotiated, fails)
          ])
