-- ===== src/Text/Numbers.antt =====
-- src-tauri/src/proxy.rs: numbers in decimal, read back.
use proxy_load.Base.{
  true, false, [], some, All, ℕ, zero, suc, ◌+◌, ◌/◌, ◌%◌, ◌^◌, ◌≤◌, ◌<◌, ◌≡◌, ◌∷◌, arith,
}
use proxy_load.Models.{Bytes}
use proxy_load.Text.{strip_plus, decimal, parse_u16, scan_digits, print_digits}

-- Reading what was printed is going on from the number.
pub scan_digits-print_digits :
    (fuel n maximum : ℕ) (out : Bytes)
    → n < 10 ^ fuel
    → n ≤ maximum
    → 0 < fuel
    → scan_digits maximum (print_digits fuel n out) 0 ≡ scan_digits maximum out n
unfolding scan_digits print_digits
scan_digits-print_digits zero n maximum out h fits p = absurd (omega arith)
scan_digits-print_digits (suc zero) n maximum out h fits p = ground arith
scan_digits-print_digits (suc (suc fuel)) n maximum out h fits p = ground (
  arith,
  scan_digits-print_digits (suc fuel) (n / 10) maximum ((b'0' + n % 10) ∷ out) (omega arith)
      (omega arith) (omega arith),
)

-- A digit comes first.
abbrev HasDigit : Bytes → Type 0
HasDigit [] = false ≡ true
HasDigit (c ∷ s) = (b'0' ≤ c) × (c ≤ b'9')

print_digits-HasDigit :
    (fuel n : ℕ) (out : Bytes) → n < 10 ^ fuel → 0 < fuel → HasDigit (print_digits fuel n out)
unfolding print_digits
print_digits-HasDigit zero n out h p = absurd (omega arith)
print_digits-HasDigit (suc zero) n out h p = ground arith
print_digits-HasDigit (suc (suc fuel)) n out h p = ground (
  arith,
  print_digits-HasDigit (suc fuel) (n / 10) ((b'0' + n % 10) ∷ out) (omega arith) (omega arith),
)

parse_u16-HasDigit : (s : Bytes) → HasDigit s → parse_u16 s ≡ scan_digits 65535 s 0
unfolding parse_u16 strip_plus
parse_u16-HasDigit [] h = absurd (ground (arith, h))
parse_u16-HasDigit (c ∷ s) h = ground arith

-- A port that was printed is read back.
pub parse_u16-decimal : (n : ℕ) → n ≤ 65535 → parse_u16 (decimal n) ≡ some n
unfolding decimal scan_digits
parse_u16-decimal n h =
    rw
      (parse_u16-HasDigit (print_digits 5 n [])
        (print_digits-HasDigit 5 n [] (omega arith) (omega arith)))
      (scan_digits-print_digits 5 n 65535 [] (omega arith) h (omega arith))

-- What is printed has only digits.
abbrev pub Digits : Bytes → Type 0
Digits = All (λ c. (b'0' ≤ c) × (c ≤ b'9'))

print_digits-Digits : (fuel n : ℕ) (out : Bytes) → Digits out → Digits (print_digits fuel n out)
unfolding print_digits
print_digits-Digits zero n out h = h
print_digits-Digits (suc fuel) n out h = ground (
  arith,
  print_digits-Digits fuel (n / 10) ((b'0' + n % 10) ∷ out) ((omega arith, omega arith), h),
)

pub decimal-Digits : (n : ℕ) → Digits (decimal n)
unfolding decimal
decimal-Digits n = print_digits-Digits 5 n [] tt
