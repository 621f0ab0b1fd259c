-- ===== src/Wire/Compare.antt =====
-- src-tauri/src/proxy.rs: `constant_time_eq`.
use Prim.Native.Nat.{bit_or, bit_xor, digits, differ, bit_or-bitwise, bit_xor-bitwise}
use proxy_load.Base.{
  ℕ, zero, suc, ◌/◌, ◌%◌, ◌≤◌, max, ◌≡◌, ◌↔◌, refl, Bool, true, false, ◌∷◌, [], arith,
  if◌then◌else◌, nat_beq, length, sym, ◌∙◌,
}
use proxy_load.Models.{Bytes}

-- The fold over the pairs of `zip`, which ends with the shorter list.
difference : ℕ → Bytes → Bytes → ℕ
difference acc [] ys = acc
difference acc (x ∷ xs) [] = acc
difference acc (x ∷ xs) (y ∷ ys) = difference (bit_or acc (bit_xor x y)) xs ys

unfoldable pub constant_time_eq : Bytes → Bytes → Bool
unfolding difference
constant_time_eq left right =
    if nat_beq (length left) (length right) then nat_beq (difference 0 left right) 0 else false

or_digits-zero : (n a b : ℕ) → a ≤ n → digits (λ b. b) max n a b ≡ 0 → (a ≡ 0) × (b ≡ 0)
or_digits-zero zero a b h e = ground (arith, h, e)
or_digits-zero (suc n) zero b h e = (refl, e)
or_digits-zero (suc n) (suc a) b h e =
    let rest = or_digits-zero n (suc a / 2) (b / 2) (omega arith) (omega (arith, e)) in
    (omega (arith, rest.0, rest.1, e), omega (arith, rest.0, rest.1, e))

bit_or-zero : (a b : ℕ) → bit_or a b ≡ 0 → (a ≡ 0) × (b ≡ 0)
bit_or-zero a b e = or_digits-zero a a b (omega arith) (sym (bit_or-bitwise a b) ∙ e)

differ-zero : (a b : ℕ) → differ a b ≡ 0 → a ≡ b
differ-zero zero b e = sym e
differ-zero (suc a) zero e = e
differ-zero (suc a) (suc b) e = omega (arith, differ-zero a b e)

differ_self : (a : ℕ) → differ a a ≡ 0
differ_self zero = refl
differ_self (suc a) = differ_self a

xor_digits-zero : (n a b : ℕ) → a ≤ n → digits (λ b. b) differ n a b ≡ 0 → a ≡ b
xor_digits-zero zero a b h e = omega (arith, e)
xor_digits-zero (suc n) zero b h e = sym e
xor_digits-zero (suc n) (suc a) b h e = omega (
  arith,
  xor_digits-zero n (suc a / 2) (b / 2) (omega arith) (omega (arith, e)),
  differ-zero (suc a % 2) (b % 2) (omega (arith, e)),
)

bit_xor-zero : (a b : ℕ) → bit_xor a b ≡ 0 → a ≡ b
bit_xor-zero a b e = xor_digits-zero a a b (omega arith) (sym (bit_xor-bitwise a b) ∙ e)

xor_digits_self : (n a : ℕ) → a ≤ n → digits (λ b. b) differ n a a ≡ 0
xor_digits_self zero a h = omega arith
xor_digits_self (suc n) zero h = refl
xor_digits_self (suc n) (suc a) h =
    omega (arith, xor_digits_self n (suc a / 2) (omega arith), differ_self (suc a % 2))

bit_xor_self : (a : ℕ) → bit_xor a a ≡ 0
bit_xor_self a = bit_xor-bitwise a a ∙ xor_digits_self a a (omega arith)

zero-bit_or : bit_or 0 0 ≡ 0
zero-bit_or = bit_or-bitwise 0 0

difference-zero :
    (acc : ℕ) (xs ys : Bytes)
    → length xs ≡ length ys
    → difference acc xs ys ≡ 0
    → (acc ≡ 0) × (xs ≡ ys)
unfolding difference
difference-zero acc [] [] h e = (e, refl)
difference-zero acc [] (y ∷ ys) h e = absurd (omega arith)
difference-zero acc (x ∷ xs) [] h e = absurd (omega arith)
difference-zero acc (x ∷ xs) (y ∷ ys) h e =
    let rest = difference-zero (bit_or acc (bit_xor x y)) xs ys (omega arith) e in
    let both = bit_or-zero acc (bit_xor x y) rest.0 in
    (both.0, ground (arith, rest.1, bit_xor-zero x y both.1))

difference_self : (xs : Bytes) → difference 0 xs xs ≡ 0
unfolding difference
difference_self [] = refl
difference_self (x ∷ xs) = rw (bit_xor_self x, zero-bit_or) (difference_self xs)

-- Two texts compare as equal exactly when they are.
pub constant_time_eq_iff :
    (left right : Bytes) → (constant_time_eq left right ≡ true) ↔ (left ≡ right)
unfolding constant_time_eq
constant_time_eq_iff left right = ground (arith, difference-zero 0 left right, difference_self left)

pub constant_time_eq_self : (text : Bytes) → constant_time_eq text text ≡ true
constant_time_eq_self text = (constant_time_eq_iff text text).1 refl
