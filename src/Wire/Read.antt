-- ===== src/Wire/Read.antt =====
-- src-tauri/src/proxy.rs: `read_exact_buffered` as a step of the protocol code.
use proxy_load.Base.{
  ◌∙◌, is_empty, ℕ, ◌+◌, ◌≤◌, ◌≡◌, refl, sym, ap, subst, true, false, Option, none, some, List, [],
  ◌∷◌, ◌++◌, arith, leb, length, take, drop, length-append, length-drop, Bool-cases, inl, inr,
}
use proxy_load.Models.{Bytes}
use proxy_load.Wire.{
  Chunk, Client, drained, read_size, read_exact_buffered, read, write, with_chunk,
}
use proxy_load.Wire.Exact.{
  append_assoc, drained-HasRead, take-drop, HasRead, read_exact_buffered-HasRead, length-take_min,
}
use proxy_load.Wire.Step.{and_then_got, Reply, got, gone}

-- As many reads and buffered bytes are left, but for those that were asked for.
abbrev Spares : ℕ → Option Chunk → Type 0
Spares m none = Unit
Spares m (some c) = m ≤ length c.bytes + length c.buffer + length c.reads

Spares-mono : (m k : ℕ) (o : Option Chunk) → m ≤ k → Spares k o → Spares m o
Spares-mono m k none h s = tt
Spares-mono m k (some c) h s = omega arith

drained-Spares :
    (n : ℕ) (buffer incoming : Bytes) (reads : List ℕ)
    → Spares (length buffer + length reads) (some (drained n buffer incoming reads))
unfolding drained
drained-Spares n buffer incoming reads =
    omega (arith, length-take_min n buffer, length-drop n buffer)

read_exact_buffered-Spares :
    (reads : List ℕ) (n : ℕ) (buffer incoming : Bytes)
    → Spares (length buffer + length reads) (read_exact_buffered reads n buffer incoming)
unfolding read_exact_buffered read_size drained
read_exact_buffered-Spares [] n buffer incoming = elim (Bool-cases (leb n (length buffer))) [
  | inl e ↦ rw e (drained-Spares n buffer incoming [])
  | inr e ↦ rw e tt
]
read_exact_buffered-Spares (r ∷ reads) n buffer [] = elim (Bool-cases (leb n (length buffer))) [
  | inl e ↦ rw e (drained-Spares n buffer [] (r ∷ reads))
  | inr e ↦ rw e tt
]
read_exact_buffered-Spares (r ∷ reads) n buffer (x ∷ xs) =
    let k = read_size r n buffer in
    elim (Bool-cases (leb n (length buffer))) [
      | inl e ↦ rw e (drained-Spares n buffer (x ∷ xs) (r ∷ reads))
      | inr e ↦ rw e (
          Spares-mono (length buffer + length (r ∷ reads))
            (length (buffer ++ take k (x ∷ xs)) + length reads)
            (read_exact_buffered reads n (buffer ++ take k (x ∷ xs)) (drop k (x ∷ xs)))
            (ground (arith, length-append buffer (take k (x ∷ xs)), length-take_min k (x ∷ xs), e))
            (read_exact_buffered-Spares reads n (buffer ++ take k (x ∷ xs)) (drop k (x ∷ xs))))
    ]

-- What is still to be read and has been written, and that there are reads enough for every byte.
abbrev pub State : Bytes → Bytes → Client → Type 0
State stream written c =
    (c.buffer ++ c.incoming ≡ stream)
    × (c.written ≡ written)
    × (length stream ≤ length c.buffer + length c.reads)

pub State-same : (s t w : Bytes) (c : Client) → s ≡ t → State s w c → State t w c
State-same s t w c e h = subst (λ x. State x w c) e h

-- A step gives what has `Q`, leaves `stream` to be read and has written `written`.
abbrev pub Ends : {A : Type 0} → (A → Client → Type 0) → Bytes → Bytes → Reply Client A → Type 0
Ends Q stream written (got a c) = Q a c × State stream written c
Ends Q stream written (gone c) = false ≡ true

pub Ends->>= :
    {A B : Type 0} (Q : A → Client → Type 0) (R : B → Client → Type 0) (s t v w : Bytes)
    (r : Reply Client A) (f : A → Client → Reply Client B)
    → Ends Q s v r
    → ((a : A) (c : Client) → Q a c → State s v c → Ends R t w (f a c))
    → Ends R t w (and_then_got r f)
Ends->>= Q R s t v w (got a c) f e k = k a c e.0 e.1
Ends->>= Q R s t v w (gone c) f e k = absurd (ground (arith, e))

-- Equally long beginnings of one text are the same.
append_inj :
    (xs ys us vs : Bytes) → length xs ≡ length ys → xs ++ us ≡ ys ++ vs → (xs ≡ ys) × (us ≡ vs)
append_inj [] [] us vs h e = (refl, e)
append_inj [] (y ∷ ys) us vs h e = absurd (omega arith)
append_inj (x ∷ xs) [] us vs h e = absurd (omega arith)
append_inj (x ∷ xs) (y ∷ ys) us vs h e = ground (arith, append_inj xs ys us vs (omega arith), e)

with_chunk-Ends :
    (bytes rest w : Bytes) (c : Client) (o : Option Chunk)
    → HasRead (length bytes) (bytes ++ rest) o
    → Spares (length (bytes ++ rest)) o
    → c.written ≡ w
    → Ends (λ b _. b ≡ bytes) rest w (with_chunk c o)
unfolding with_chunk
with_chunk-Ends bytes rest w c none h s e = absurd (ground (arith, h))
with_chunk-Ends bytes rest w c (some k) h s e =
    let same = append_inj k.bytes bytes (k.buffer ++ k.incoming) rest h.0 h.1 in
    (same.0, (same.1, e, omega (arith, h.0, s, length-append bytes rest)))

-- However the bytes come, as many are read as are asked for.
pub read-Ends :
    (bytes rest w : Bytes) (c : Client)
    → State (bytes ++ rest) w c
    → Ends (λ b _. b ≡ bytes) rest w (read (length bytes) c)
unfolding read
read-Ends bytes rest w c s =
    let o = read_exact_buffered c.reads (length bytes) c.buffer c.incoming in
    let size = ap length s.0 in
    with_chunk-Ends bytes rest w c o
      (subst (λ t. HasRead (length bytes) t o) s.0
        (read_exact_buffered-HasRead c.reads (length bytes) c.buffer c.incoming
          (omega (arith, size, length-append bytes rest, length-append c.buffer c.incoming))
          (omega (arith, s.2, length-append bytes rest))))
      (Spares-mono (length (bytes ++ rest)) (length c.buffer + length c.reads) o s.2
        (read_exact_buffered-Spares c.reads (length bytes) c.buffer c.incoming))
      s.1

pub write-Ends :
    (bytes stream w : Bytes) (c : Client)
    → State stream w c
    → Ends (λ _ _. Unit {0}) stream (w ++ bytes) (write bytes c)
unfolding write
write-Ends bytes stream w c s = (tt, (s.0, ap (λ t. t ++ bytes) s.1, s.2))

-- What follows the read of the bytes that come next.
pub read-then :
    {B : Type 0} (R : B → Client → Type 0) (bytes rest t v w : Bytes) (c : Client)
    (f : Bytes → Client → Reply Client B)
    → State (bytes ++ rest) v c
    → ((after : Client) → State rest v after → Ends R t w (f bytes after))
    → Ends R t w (and_then_got (read (length bytes) c) f)
read-then R bytes rest t v w c f s k =
    Ends->>= (λ b _. b ≡ bytes) R rest t v w (read (length bytes) c) f (read-Ends bytes rest v c s)
      (λ b after q held. subst (λ b. Ends R t w (f b after)) (sym q) (k after held))

pub write-then :
    {B : Type 0} (R : B → Client → Type 0) (bytes stream t v w : Bytes) (c : Client)
    (f : Unit {0} → Client → Reply Client B)
    → State stream v c
    → ((after : Client) → State stream (v ++ bytes) after → Ends R t w (f tt after))
    → Ends R t w (and_then_got (write bytes c) f)
write-then R bytes stream t v w c f s k =
    Ends->>= (λ _ _. Unit {0}) R stream t (v ++ bytes) w (write bytes c) f
      (write-Ends bytes stream v c s) (λ b after q held. k after held)

-- What was read is what comes first, if anything was.
abbrev Kept : ℕ → Bytes → Option Chunk → Type 0
Kept n stream none = Unit
Kept n stream (some c) = HasRead n stream (some c)

read_exact_buffered-Kept :
    (reads : List ℕ) (n : ℕ) (buffer incoming : Bytes)
    → Kept n (buffer ++ incoming) (read_exact_buffered reads n buffer incoming)
unfolding read_exact_buffered read_size
read_exact_buffered-Kept [] n buffer incoming = elim (Bool-cases (leb n (length buffer))) [
  | inl e ↦ rw e (drained-HasRead n buffer incoming [] e)
  | inr e ↦ rw e tt
]
read_exact_buffered-Kept (r ∷ reads) n buffer incoming =
    let k = read_size r n buffer in
    elim (Bool-cases (leb n (length buffer))) [
      | inl e ↦ rw e (drained-HasRead n buffer incoming (r ∷ reads) e)
      | inr e ↦ elim (Bool-cases (is_empty incoming)) [
        | inl empty ↦ rw (e, empty) tt
        | inr more ↦
            rw (e, more)
              (subst
                (λ s.
                  Kept n s
                    (read_exact_buffered reads n (buffer ++ take k incoming) (drop k incoming)))
                (append_assoc buffer (take k incoming) (drop k incoming)
                  ∙ ap (λ s. buffer ++ s) (take-drop k incoming))
                (read_exact_buffered-Kept reads n (buffer ++ take k incoming) (drop k incoming)))
      ]
    ]

abbrev pub stream : Client → Bytes
stream c = c.buffer ++ c.incoming

with_chunk-got :
    (n : ℕ) (s bytes : Bytes) (c d : Client) (o : Option Chunk)
    → Kept n s o
    → with_chunk c o ≡ got bytes d
    → (s ≡ bytes ++ stream d) × (length bytes ≡ n)
unfolding with_chunk
with_chunk-got n s bytes c d none h e = absurd (ground (arith, e))
with_chunk-got n s bytes c d (some k) h e = ground (arith, h.0, h.1, e)

read-got :
    (n : ℕ) (bytes : Bytes) (c d : Client)
    → read n c ≡ got bytes d
    → (stream c ≡ bytes ++ stream d) × (length bytes ≡ n)
unfolding read
read-got n bytes c d e =
    with_chunk-got n (stream c) bytes c d (read_exact_buffered c.reads n c.buffer c.incoming)
      (read_exact_buffered-Kept c.reads n c.buffer c.incoming) e

-- If a step gives something, it has `Q`.
abbrev pub Gives : {A : Type 0} → (A → Client → Type 0) → Reply Client A → Type 0
Gives Q (got a c) = Q a c
Gives Q (gone c) = Unit

pub Gives->>= :
    {A B : Type 0} (Q : A → Client → Type 0) (R : B → Client → Type 0) (r : Reply Client A)
    (f : A → Client → Reply Client B)
    → Gives Q r
    → ((a : A) (c : Client) → Q a c → Gives R (f a c))
    → Gives R (and_then_got r f)
Gives->>= Q R (got a c) f e k = k a c e
Gives->>= Q R (gone c) f e k = tt

pub Gives-mono :
    {A : Type 0} (Q R : A → Client → Type 0) (r : Reply Client A)
    → Gives Q r
    → ((a : A) (c : Client) → Q a c → R a c)
    → Gives R r
Gives-mono Q R (got a c) g k = k a c g
Gives-mono Q R (gone c) g k = tt

pub Gives-all :
    {A : Type 0} (R : A → Client → Type 0) (r : Reply Client A)
    → ((a : A) (c : Client) → R a c)
    → Gives R r
Gives-all R (got a c) k = k a c
Gives-all R (gone c) k = tt

read-Gives-from :
    {B : Type 0} (R : B → Client → Type 0) (n : ℕ) (c : Client) (r : Reply Client Bytes)
    (f : Bytes → Client → Reply Client B)
    → ((bytes : Bytes) (d : Client) → r ≡ got bytes d → Gives R (f bytes d))
    → Gives R (and_then_got r f)
read-Gives-from R n c (got bytes d) f k = k bytes d refl
read-Gives-from R n c (gone d) f k = tt

-- What a read gives came first.
pub read-Gives :
    {B : Type 0} (R : B → Client → Type 0) (n : ℕ) (c : Client)
    (f : Bytes → Client → Reply Client B)
    → ((bytes : Bytes) (d : Client)
        → stream c ≡ bytes ++ stream d
        → length bytes ≡ n
        → Gives R (f bytes d))
    → Gives R (and_then_got (read n c) f)
read-Gives R n c f k =
    read-Gives-from R n c (read n c) f
      λ bytes d e. k bytes d (read-got n bytes c d e).0 (read-got n bytes c d e).1
