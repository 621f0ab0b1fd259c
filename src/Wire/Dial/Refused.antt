-- ===== src/Wire/Dial/Refused.antt =====
-- src-tauri/src/proxy.rs: the reply of a SOCKS5 proxy to a request, and whom a failure is blamed
-- on from then.
use proxy_load.Base.{
  subst, ℕ, ◌+◌, ◌<◌, ◌≡◌, refl, sym, ap, ◌∙◌, ◌⊎◌, inl, inr, Bool, true, false, ◌&&◌, none, arith,
  length, take, leb, nat_beq, Bool-cases, Option-cases,
}
use proxy_load.Models.{Bytes}
use proxy_load.Candidate.{TargetRequest}
use proxy_load.Runtime.{proxy, target}
use proxy_load.Wire.{byte}
use proxy_load.Wire.Step.{◌>>◌}
use proxy_load.Wire.Address.{build_socks5_connect_request}
use proxy_load.Wire.Dial.{
  Link, send, receive, blame, taken, ask, require, check_code, read_socks5_bind_address,
  proxy_at_fault, skip, skip_domain,
}
use proxy_load.Wire.Dial.Post.{Post, Post->>=, Blames, receive-Post, Post-weaken, sent}

-- Why it is the target that does not answer: there is no request for it, or the proxy closed before
-- its reply, or the reply has a code that is not the proxy's fault.
abbrev pub TargetFails : TargetRequest → Bytes → Type 0
TargetFails request reply =
    (build_socks5_connect_request request ≡ none)
    ⊎ ((length reply < 4) ⊎ (proxy_at_fault (byte (take 4 reply) 1) ≡ false))

skip-Post : (n : ℕ) (l : Link) → l.scope ≡ proxy → Post (λ _ k. Unit {0}) (Blames proxy) (skip n l)
unfolding skip receive
skip-Post n l e = elim (Bool-cases (leb n (length l.incoming))) [
  | inl enough ↦ rw enough tt
  | inr short ↦ rw short e
]

read_socks5_bind_address-Post :
    (kind : ℕ) (l : Link)
    → l.scope ≡ proxy
    → Post (λ _ k. Unit {0}) (Blames proxy) (read_socks5_bind_address kind l)
unfolding read_socks5_bind_address skip_domain
read_socks5_bind_address-Post kind l e = elim (Bool-cases (nat_beq kind 1)) [
  | inl ipv4 ↦ rw ipv4 (skip-Post 6 l e)
  | inr x ↦ elim (Bool-cases (nat_beq kind 3)) [
    | inl domain ↦
        rw (x, domain)
          (Post->>= _ (λ _ _. Unit {0}) (Blames proxy) (receive 1 l) _ (receive-Post 1 proxy l e)
            λ size k q. skip-Post (byte size 0 + 2) k q.2)
    | inr y ↦ elim (Bool-cases (nat_beq kind 4)) [
      | inl ipv6 ↦ rw (x, y, ipv6) (skip-Post 18 l e)
      | inr z ↦ rw (x, y, z) e
    ]
  ]
]

-- A reply that refuses.
abbrev pub Refused : TargetRequest → Bytes → Link → Type 0
Refused request reply l = (l.scope ≡ proxy) ⊎ TargetFails request reply

check_code-Post :
    (request : TargetRequest) (reply : Bytes) (l : Link)
    → l.scope ≡ target
    → Post (λ _ k. Unit {0}) (Refused request reply) (check_code (byte (take 4 reply) 1) l)
unfolding check_code require blame
check_code-Post request reply l e = elim (Bool-cases (proxy_at_fault (byte (take 4 reply) 1))) [
  | inl fault ↦ rw fault (inl refl)
  | inr spared ↦ elim (Bool-cases (nat_beq (byte (take 4 reply) 1) 0)) [
    | inl fine ↦ rw (spared, fine) tt
    | inr refuses ↦ rw (spared, refuses) (inr (inr (inr spared)))
  ]
]

require-Post :
    (test : Bool) (request : TargetRequest) (reply : Bytes) (l : Link)
    → l.scope ≡ target
    → Post (λ _ k. k ≡ l) (Refused request reply) (require test l)
unfolding require blame
require-Post true request reply l e = refl
require-Post false request reply l e = inl refl

-- The reply to a request.
reply-Post :
    (request : TargetRequest) (l : Link)
    → l.scope ≡ target
    → Post
        (λ bytes k. (bytes ≡ take 4 l.incoming) × (k.scope ≡ target))
        (Refused request l.incoming)
        (receive 4 l)
unfolding receive
reply-Post request l e = elim (Bool-cases (leb 4 (length l.incoming))) [
  | inl enough ↦ rw enough (refl, e)
  | inr short ↦ rw short (inr (inr (inl (ground (arith, short)))))
]

answered-Post :
    (request : TargetRequest) (l k : Link) (header : Bytes)
    → header ≡ take 4 l.incoming
    → k.scope ≡ target
    → Post
        (λ _ _. Unit {0})
        (Refused request l.incoming)
        ((check_code (byte header 1) >> (blame proxy >> read_socks5_bind_address (byte header 3)))
          k)
unfolding blame
answered-Post request l k header same held =
    Post->>= _ (λ _ _. Unit {0}) (Refused request l.incoming) (check_code (byte header 1) k) _
      (subst (λ h. Post (λ _ _. Unit {0}) (Refused request l.incoming) (check_code (byte h 1) k))
        (sym same) (check_code-Post request l.incoming k held))
      λ _ d _.
        Post-weaken _ (Blames proxy) (Refused request l.incoming)
          (read_socks5_bind_address (byte header 3) (record d { scope = proxy }))
          (read_socks5_bind_address-Post (byte header 3) (record d { scope = proxy }) refl)
          λ w q. inl q

pub ask-Post :
    (request : TargetRequest) (l : Link)
    → l.scope ≡ target
    → Post (λ _ _. Unit {0}) (Refused request l.incoming) (ask request l)
unfolding ask taken send
ask-Post request l e = elim (Option-cases (build_socks5_connect_request request)) [
  | inl bad ↦ rw bad (inr (inl bad))
  | inr (packet, made) ↦ rw made (
      Post->>= _ (λ _ _. Unit {0}) (Refused request l.incoming) (receive 4 (sent packet l)) _
        (reply-Post request (sent packet l) e)
        λ header k q.
          Post->>= _ (λ _ _. Unit {0}) (Refused request l.incoming)
            (require (nat_beq (byte header 0) 5 && nat_beq (byte header 2) 0) k) _
            (require-Post (nat_beq (byte header 0) 5 && nat_beq (byte header 2) 0) request
              l.incoming k q.1)
            λ _ d same. answered-Post request l d header q.0 (ap (λ x. x.scope) same ∙ q.1))
]
