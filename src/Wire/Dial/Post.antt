-- ===== src/Wire/Dial/Post.antt =====
-- src-tauri/src/proxy.rs: what a step of a connection to a proxy has when it goes on and when
-- it fails.
use proxy_load.Base.{
  ℕ, ◌≡◌, refl, inl, inr, Bool, true, false, ◌++◌, length, take, drop, leb, Bool-cases,
}
use proxy_load.Models.{Bytes}
use proxy_load.Runtime.{FailureScope}
use proxy_load.Wire.Step.{and_then_got, Reply, got, gone, guard}
use proxy_load.Wire.Dial.{Link, receive}

-- A step that gives a value has `P`, and one that ends the connection has `Q`.
abbrev pub Post : {A : Type 0} → (A → Link → Type 0) → (Link → Type 0) → Reply Link A → Type 0
Post P Q (got a l) = P a l
Post P Q (gone l) = Q l

pub Post->>= :
    {A B : Type 0} (P : A → Link → Type 0) (R : B → Link → Type 0) (Q : Link → Type 0)
    (r : Reply Link A) (f : A → Link → Reply Link B)
    → Post P Q r
    → ((a : A) (l : Link) → P a l → Post R Q (f a l))
    → Post R Q (and_then_got r f)
Post->>= P R Q (got a l) f e k = k a l e
Post->>= P R Q (gone l) f e k = e

-- A test that fails leaves the blame where it was.
abbrev pub Blames : FailureScope → Link → Type 0
Blames scope l = l.scope ≡ scope

pub guard-Post :
    (test : Bool) (s : FailureScope) (l : Link)
    → l.scope ≡ s
    → Post (λ _ k. (test ≡ true) × (k ≡ l)) (Blames s) (guard test l)
guard-Post true s l e = (refl, refl)
guard-Post false s l e = e

pub receive-Post :
    (n : ℕ) (s : FailureScope) (l : Link)
    → l.scope ≡ s
    → Post
        (λ bytes k. (bytes ≡ take n l.incoming) × (k.incoming ≡ drop n l.incoming) × (k.scope ≡ s))
        (Blames s)
        (receive n l)
unfolding receive
receive-Post n s l e = elim (Bool-cases (leb n (length l.incoming))) [
  | inl enough ↦ rw enough (refl, refl, e)
  | inr short ↦ rw short e
]

pub Post-weaken :
    {A : Type 0} (P : A → Link → Type 0) (Q S : Link → Type 0) (r : Reply Link A)
    → Post P Q r
    → ((l : Link) → Q l → S l)
    → Post P S r
Post-weaken P Q S (got a l) h k = h
Post-weaken P Q S (gone l) h k = k l h

pub Post-gives :
    {A : Type 0} (P R : A → Link → Type 0) (Q : Link → Type 0) (r : Reply Link A)
    → Post P Q r
    → ((a : A) (l : Link) → P a l → R a l)
    → Post R Q r
Post-gives P R Q (got a l) h k = k a l h
Post-gives P R Q (gone l) h k = h

abbrev pub sent : Bytes → Link → Link
sent bytes l = record l { written = l.written ++ bytes }
