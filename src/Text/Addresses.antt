-- ===== src/Text/Addresses.antt =====
-- src-tauri/src/proxy.rs: an IPv4 address that is read is printed as it was.
use proxy_load.Base.{
  ◌∙◌, ℕ, ◌≤◌, ◌≡◌, refl, Option, none, some, List, [], ◌∷◌, ◌++◌, arith, Bool-cases, inl, inr,
  nat_beq,
}
use proxy_load.Models.{Bytes}
use proxy_load.Text.{
  print_ipv4, split_on, Ipv4Addr, of_parts, of_octets, parse_ipv4, scan_digits, print_digits,
  decimal, octet, split_from,
}

-- The parts of a text with the separator between them.
abbrev join : ℕ → Bytes → List Bytes → Bytes
join sep s [] = s
join sep s (t ∷ ts) = s ++ (sep ∷ join sep t ts)

join-cons : (sep c : ℕ) (s : Bytes) (ts : List Bytes) → join sep (c ∷ s) ts ≡ c ∷ join sep s ts
join-cons sep c s [] = refl
join-cons sep c s (t ∷ ts) = refl

join-split_from : (sep : ℕ) (s : Bytes) → join sep (split_from sep s).0 (split_from sep s).1 ≡ s
unfolding split_from
join-split_from sep [] = refl
join-split_from sep (c ∷ s) = elim (Bool-cases (nat_beq c sep)) [
  | inl e ↦ ground (arith, e, join-split_from sep s)
  | inr e ↦
      ground
        (arith, e, join-split_from sep s, join-cons sep c (split_from sep s).0 (split_from sep s).1)
]

-- What is printed for an octet that was read is its text, and it is at most 255.
abbrev IsText : Bytes → Option ℕ → Type 0
IsText s none = Unit
IsText s (some n) = (decimal n ≡ s) × (n ≤ 255)

octet-IsText : (s : Bytes) → IsText s (octet s)
unfolding octet scan_digits decimal print_digits
octet-IsText [] = tt
octet-IsText (c ∷ []) = ground arith
octet-IsText (c ∷ d ∷ []) = ground arith
octet-IsText (c ∷ d ∷ e ∷ []) = ground arith
octet-IsText (c ∷ d ∷ e ∷ f ∷ s) = ground arith

of_octets-IsText :
    (p q r s : Bytes) (a b c d : Option ℕ)
    → IsText p a
    → IsText q b
    → IsText r c
    → IsText s d
    → (ip : Ipv4Addr) → of_octets a b c d ≡ some ip
    → print_ipv4 ip.a ip.b ip.c ip.d ≡ join b'.' p (q ∷ r ∷ s ∷ [])
unfolding of_octets print_ipv4
of_octets-IsText p q r s (some a) (some b) (some c) (some d) f g h i ip e =
    ground (arith, f, g, h, i, e)
of_octets-IsText p q r s none b c d f g h i ip e = absurd (ground (arith, e))
of_octets-IsText p q r s (some a) none c d f g h i ip e = absurd (ground (arith, e))
of_octets-IsText p q r s (some a) (some b) none d f g h i ip e = absurd (ground (arith, e))
of_octets-IsText p q r s (some a) (some b) (some c) none f g h i ip e = absurd (ground (arith, e))

of_parts-join :
    (p : Bytes) (ps : List Bytes) (ip : Ipv4Addr)
    → of_parts (p ∷ ps) ≡ some ip
    → print_ipv4 ip.a ip.b ip.c ip.d ≡ join b'.' p ps
unfolding of_parts
of_parts-join p [] ip e = absurd (ground (arith, e))
of_parts-join p (q ∷ []) ip e = absurd (ground (arith, e))
of_parts-join p (q ∷ r ∷ []) ip e = absurd (ground (arith, e))
of_parts-join p (q ∷ r ∷ s ∷ []) ip e =
    of_octets-IsText p q r s (octet p) (octet q) (octet r) (octet s) (octet-IsText p)
      (octet-IsText q) (octet-IsText r) (octet-IsText s) ip e
of_parts-join p (q ∷ r ∷ s ∷ t ∷ ts) ip e = absurd (ground (arith, e))

-- Printing the address that was read from a text gives the text.
pub print_ipv4-parse_ipv4 :
    (s : Bytes) (ip : Ipv4Addr) → parse_ipv4 s ≡ some ip → print_ipv4 ip.a ip.b ip.c ip.d ≡ s
unfolding parse_ipv4 split_on
print_ipv4-parse_ipv4 s ip e =
    of_parts-join (split_from b'.' s).0 (split_from b'.' s).1 ip e ∙ join-split_from b'.' s
