-- ===== src/Wire/Address/Authority.antt =====
-- src-tauri/src/proxy.rs: `format_authority` and `parse_authority`.
use proxy_load.Base.{
  ℕ, ◌+◌, ◌≤◌, ◌<◌, ◌≡◌, refl, Bool, false, none, some, [], ◌∷◌, ◌++◌, arith, any, is_empty,
  nat_beq, ltb, Bool-cases, inl, inr, ap, ◌∙◌,
}
use proxy_load.Models.{Bytes}
use proxy_load.Host.{
  is_space, unplain, space_width-plain, trim_start, trim_start_from, trim_end, trim,
}
use proxy_load.Text.{count_byte, contains, rsplit_once, decimal, parse_u16}
use proxy_load.Text.Numbers.{parse_u16-decimal, Digits, decimal-Digits}
use proxy_load.Wire.Address.{
  checked, parse_authority, format_authority, parse_trimmed, host_and_port, starts_bracketed,
}

-- A text of plain bytes is not cut.
trim_start-eq : (s : Bytes) → any unplain s ≡ false → trim_start s ≡ s
unfolding trim_start
trim_start-eq [] h = refl
trim_start-eq (c ∷ s) h =
    let plain : unplain c ≡ false = ground (arith, h) in
    rw (space_width-plain c s plain, trim_start_from) refl

trim_end-eq : (s : Bytes) → any unplain s ≡ false → trim_end s ≡ s
unfolding trim_end
trim_end-eq [] h = refl
trim_end-eq (c ∷ s) h =
    rw (trim_start-eq (c ∷ s) h) (ap (λ r. c ∷ r) (trim_end-eq s (ground (arith, h))))

trim-eq : (s : Bytes) → any unplain s ≡ false → trim s ≡ s
unfolding trim
trim-eq s h = ap trim_end (trim_start-eq s h) ∙ trim_end-eq s h

pub any-append :
    (p : ℕ → Bool) (xs ys : Bytes) → any p xs ≡ false → any p ys ≡ false → any p (xs ++ ys) ≡ false
any-append p [] ys h e = e
any-append p (x ∷ xs) ys h e = ground (arith, any-append p xs ys, h, e)

contains-count_byte : (b : ℕ) (s : Bytes) → contains b s ≡ false → count_byte b s ≡ 0
unfolding contains count_byte
contains-count_byte b [] h = refl
contains-count_byte b (c ∷ s) h = ground (arith, contains-count_byte b s, h)

count_byte-append :
    (b : ℕ) (xs ys : Bytes) → count_byte b (xs ++ ys) ≡ count_byte b xs + count_byte b ys
unfolding count_byte
count_byte-append b [] ys = omega arith
count_byte-append b (x ∷ xs) ys = ground (arith, count_byte-append b xs ys)

rsplit_once-eq_none : (b : ℕ) (s : Bytes) → contains b s ≡ false → rsplit_once b s ≡ none
unfolding contains rsplit_once
rsplit_once-eq_none b [] h = refl
rsplit_once-eq_none b (c ∷ s) h = ground (arith, rsplit_once-eq_none b s, h)

rsplit_once-append :
    (b : ℕ) (xs ys : Bytes) → contains b ys ≡ false → rsplit_once b (xs ++ (b ∷ ys)) ≡ some (xs, ys)
unfolding rsplit_once
rsplit_once-append b [] ys h = rw (rsplit_once-eq_none b ys h) (ground arith)
rsplit_once-append b (x ∷ xs) ys h = rw (rsplit_once-append b xs ys h) refl

pub Digits-plain : (s : Bytes) → Digits s → (any unplain s ≡ false) × (contains b':' s ≡ false)
unfolding is_space unplain contains
Digits-plain [] h = (refl, refl)
Digits-plain (c ∷ s) h = ground (arith, Digits-plain s h.1, h.0)

-- A host as it stands in a URL: not empty, in ASCII, without white space and colons,
-- not in brackets.
abbrev pub IsHost : Bytes → Type 0
IsHost host =
    (is_empty host ≡ false)
    × (any unplain host ≡ false)
    × (contains b':' host ≡ false)
    × (starts_bracketed host ≡ false)

starts_bracketed-append :
    (host rest : Bytes)
    → is_empty host ≡ false
    → starts_bracketed (host ++ rest) ≡ starts_bracketed host
unfolding starts_bracketed
starts_bracketed-append [] rest h = absurd (ground (arith, h))
starts_bracketed-append (c ∷ s) rest h = refl

pub is_empty-append : (host rest : Bytes) → is_empty host ≡ false → is_empty (host ++ rest) ≡ false
is_empty-append [] rest h = absurd (ground (arith, h))
is_empty-append (c ∷ s) rest h = refl

at_port :
    (host digits : Bytes) (port : ℕ) (default : ℕ)
    → IsHost host
    → 0 < port
    → parse_u16 digits ≡ some port
    → host_and_port (host ++ (b':' ∷ digits)) default (some (host, digits)) ≡ some (host, port)
unfolding host_and_port checked
at_port host digits port default h p e =
    let positive : nat_beq port 0 ≡ false = ground (arith, p) in
    rw (e, trim-eq host h.1, positive, h.0) refl

pub with_port :
    (host digits : Bytes) (port default : ℕ)
    → IsHost host
    → 0 < port
    → any unplain digits ≡ false
    → contains b':' digits ≡ false
    → parse_u16 digits ≡ some port
    → parse_authority (host ++ (b':' ∷ digits)) default ≡ some (host, port)
unfolding parse_authority parse_trimmed count_byte is_space unplain
with_port host digits port default h p plain single e =
    let text = host ++ (b':' ∷ digits) in
    let whole : any unplain text ≡ false =
      any-append unplain host (b':' ∷ digits) h.1 (ground (arith, plain)) in
    let colons : ltb 1 (count_byte b':' text) ≡ false = ground (
      arith,
      count_byte-append b':' host (b':' ∷ digits),
      contains-count_byte b':' host h.2,
      contains-count_byte b':' digits single,
    ) in
    rw
      (
        trim-eq text whole,
        is_empty-append host (b':' ∷ digits) h.0,
        starts_bracketed-append host (b':' ∷ digits) h.0,
        h.3,
        colons,
        rsplit_once-append b':' host digits single,
      )
      (at_port host digits port default h p e)

without_port :
    (host : Bytes) (default : ℕ) → IsHost host → parse_authority host default ≡ some (host, default)
unfolding parse_authority parse_trimmed host_and_port
without_port host default h =
    let colons : ltb 1 (count_byte b':' host) ≡ false =
      ground (arith, contains-count_byte b':' host h.2) in
    rw (trim-eq host h.1, h.0, h.3, colons, rsplit_once-eq_none b':' host h.2) refl

-- An authority that `format_authority` writes for a host in ASCII, without white space, colons and
-- brackets, is read back by `parse_authority` with the same default port.
pub parse_authority-format_authority :
    (host : Bytes) (port default : ℕ)
    → IsHost host
    → 0 < port
    → port ≤ 65535
    → parse_authority (format_authority host port default) default ≡ some (host, port)
unfolding format_authority
parse_authority-format_authority host port default h p q =
    elim (Bool-cases (nat_beq port default)) [
      | inl same ↦ rw same (ground (arith, without_port host default h, same))
      | inr other ↦ rw other (
          with_port host (decimal port) port default h p
            (Digits-plain (decimal port) (decimal-Digits port)).0
            (Digits-plain (decimal port) (decimal-Digits port)).1 (parse_u16-decimal port q))
    ]
