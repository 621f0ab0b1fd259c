-- ===== src/Text.antt =====
-- The functions of Rust's standard library on texts that src-tauri/src/proxy.rs and
-- src-tauri/src/proxy/http_observer.rs use. A text is the list of its bytes in UTF-8; white
-- space is that of Unicode, and what is compared without case are ASCII characters.
pub mod Numbers
pub mod Addresses
pub mod Lines
pub mod Words
mod Tests
use Prim.Native.Char.{code}
use Prim.Native.String.{String}
use proxy_load.Base.{
  ℕ, zero, suc, ◌+◌, ◌-◌, ◌*◌, ◌/◌, ◌%◌, Bool, true, false, ◌&&◌, ◌||◌, Option, none, some, List,
  [], ◌∷◌, ◌++◌, if◌then◌else◌, leb, ltb, nat_beq, nat_eq, length, list_beq,
}
use proxy_load.Models.{Bytes}
use proxy_load.Host.{space_width, to_ascii_lowercase, trim_start}

-- One character in UTF-8.
encode_char : ℕ → Bytes
encode_char c =
    if ltb c 128
    then c ∷ []
    else if ltb c 2048
    then (192 + c / 64) ∷ (128 + c % 64) ∷ []
    else if ltb c 65536
    then (224 + c / 4096) ∷ (128 + c / 64 % 64) ∷ (128 + c % 64) ∷ []
    else (240 + c / 262144) ∷ (128 + c / 4096 % 64) ∷ (128 + c / 64 % 64) ∷ (128 + c % 64) ∷ []

-- `str::as_bytes`.
unfoldable pub as_bytes : String → Bytes
unfolding encode_char
as_bytes String.[] = []
as_bytes (String.◌∷◌ c s) = encode_char (code c) ++ as_bytes s

-- The ranges in which the bytes after a first byte lie.
followers : ℕ → Option (List (ℕ × ℕ))
followers c =
    if ltb c 128
    then some []
    else if ltb c 194
    then none
    else if ltb c 224
    then some ((128, 191) ∷ [])
    else if ltb c 240
    then some
        ((if nat_beq c 224 then 160 else 128, if nat_beq c 237 then 159 else 191) ∷ (128, 191) ∷ [])
    else if ltb c 245
    then some (
        (if nat_beq c 240 then 144 else 128, if nat_beq c 244 then 143 else 191)
        ∷ (128, 191)
        ∷ (128, 191)
        ∷ [])
    else none

utf8_after : List (ℕ × ℕ) → Bytes → Bool
unfolding followers
utf8_after [] [] = true
utf8_after [] (c ∷ s) = elim (followers c) [ none ↦ false | some ranges ↦ utf8_after ranges s ]
utf8_after (range ∷ ranges) [] = false
utf8_after (range ∷ ranges) (c ∷ s) = leb range.0 c && leb c range.1 && utf8_after ranges s

-- Whether `String::from_utf8` accepts the bytes.
unfoldable pub is_utf8 : Bytes → Bool
unfolding utf8_after
is_utf8 = utf8_after []

-- `str::eq_ignore_ascii_case`.
unfoldable pub eq_ignore_ascii_case : Bytes → Bytes → Bool
eq_ignore_ascii_case a b = list_beq (to_ascii_lowercase a) (to_ascii_lowercase b)

is_digit : ℕ → Bool
is_digit c = leb b'0' c && leb c b'9'

-- The digits of a number from the left, while the value stays at most `maximum`.
unfoldable pub scan_digits : ℕ → Bytes → ℕ → Option ℕ
unfolding is_digit
scan_digits maximum [] n = some n
scan_digits maximum (c ∷ s) n =
    let value = n * 10 + (c - b'0') in
    let rest = scan_digits maximum s value in
    if is_digit c then if leb value maximum then rest else none else none

-- The digits that `str::parse` reads for an unsigned type, after an optional plus sign.
unfoldable pub strip_plus : Bytes → Bytes
strip_plus [] = []
strip_plus (c ∷ s) = if nat_beq c b'+' then s else c ∷ s

some_digits : ℕ → Bytes → Option ℕ
some_digits maximum [] = none
some_digits maximum (c ∷ s) = scan_digits maximum (c ∷ s) 0

-- `str::parse::<u16>`.
unfoldable pub parse_u16 : Bytes → Option ℕ
unfolding strip_plus some_digits scan_digits
parse_u16 s = some_digits 65535 (strip_plus s)

-- At most `fuel` decimal digits of a number, before what is given.
unfoldable pub print_digits : ℕ → ℕ → Bytes → Bytes
print_digits zero n out = out
print_digits (suc fuel) n out =
    let more = print_digits fuel (n / 10) ((b'0' + n % 10) ∷ out) in
    if leb n 9 then (b'0' + n) ∷ out else more

-- How a `u8` or a `u16` is printed; five digits are enough.
unfoldable pub decimal : ℕ → Bytes
unfolding print_digits
decimal n = print_digits 5 n []

-- `str::split` at one byte: the first part and the others.
unfoldable pub split_from : ℕ → Bytes → Bytes × List Bytes
split_from sep [] = ([], [])
split_from sep (c ∷ s) =
    let rest = split_from sep s in
    if nat_beq c sep then ([], rest.0 ∷ rest.1) else (c ∷ rest.0, rest.1)

unfoldable pub split_on : ℕ → Bytes → List Bytes
unfolding split_from
split_on sep s = (split_from sep s).0 ∷ (split_from sep s).1

-- One part of an address: at most three digits, no zero before another digit, at most 255.
unfoldable pub octet : Bytes → Option ℕ
unfolding scan_digits
octet [] = none
octet (c ∷ []) = scan_digits 255 (c ∷ []) 0
octet (c ∷ d ∷ s) =
    if nat_beq c b'0' || ltb 1 (length s) then none else scan_digits 255 (c ∷ d ∷ s) 0

-- `Ipv4Addr`.
pub record Ipv4Addr : Type 0 where
  pub a : ℕ
  pub b : ℕ
  pub c : ℕ
  pub d : ℕ

abbrev pub four : ℕ → ℕ → ℕ → ℕ → Ipv4Addr
four a b c d = record { a = a; b = b; c = c; d = d }

of_octets : Option ℕ → Option ℕ → Option ℕ → Option ℕ → Option Ipv4Addr
of_octets (some a) (some b) (some c) (some d) = some (four a b c d)
of_octets _ _ _ _ = none

of_parts : List Bytes → Option Ipv4Addr
unfolding octet of_octets
of_parts (p ∷ q ∷ r ∷ s ∷ []) = of_octets (octet p) (octet q) (octet r) (octet s)
of_parts _ = none

-- `str::parse::<Ipv4Addr>`.
unfoldable pub parse_ipv4 : Bytes → Option Ipv4Addr
unfolding of_parts split_on
parse_ipv4 s = of_parts (split_on b'.' s)

abbrev pub octets : Ipv4Addr → Bytes
octets ip = ip.a ∷ ip.b ∷ ip.c ∷ ip.d ∷ []

-- `format!("{}.{}.{}.{}")`.
unfoldable pub print_ipv4 : ℕ → ℕ → ℕ → ℕ → Bytes
unfolding decimal
print_ipv4 a b c d = decimal a ++ (b'.' ∷ (decimal b ++ (b'.' ∷ (decimal c ++ (b'.' ∷ decimal d)))))

-- `str::split_once` and `str::rsplit_once` at one byte.
unfoldable pub split_once : ℕ → Bytes → Option (Bytes × Bytes)
split_once sep [] = none
split_once sep (c ∷ s) =
    let rest = split_once sep s in
    if nat_beq c sep
    then some ([], s)
    else elim rest [ none ↦ none | some found ↦ some (c ∷ found.0, found.1) ]

unfoldable pub rsplit_once : ℕ → Bytes → Option (Bytes × Bytes)
rsplit_once sep [] = none
rsplit_once sep (c ∷ s) = elim (rsplit_once sep s) [
  | some found ↦ some (c ∷ found.0, found.1)
  | none ↦ if nat_beq c sep then some ([], s) else none
]

-- The words of a text, from the word that it begins with, which may be empty, and the others.
unfoldable pub all_words : Bytes × List Bytes → List Bytes
all_words ([], ws) = ws
all_words (d ∷ w, ws) = (d ∷ w) ∷ ws

-- The same once some bytes of a white-space character have been passed.
unfoldable pub words_from : ℕ → Bytes → Bytes × List Bytes
unfolding space_width all_words
words_from k [] = ([], [])
words_from (suc k) (c ∷ s) = words_from k s
words_from zero (c ∷ s) = elim (space_width (c ∷ s)) [
  | zero ↦ let rest = words_from 0 s in (c ∷ rest.0, rest.1)
  | suc k ↦ ([], all_words (words_from k s))
]

-- `str::split_whitespace`.
unfoldable pub split_whitespace : Bytes → List Bytes
unfolding words_from all_words
split_whitespace s = all_words (words_from 0 s)

-- `str::contains` and `str::matches` at one byte.
unfoldable pub count_byte : ℕ → Bytes → ℕ
count_byte b [] = 0
count_byte b (c ∷ s) = if nat_beq c b then suc (count_byte b s) else count_byte b s

unfoldable pub contains : ℕ → Bytes → Bool
contains b [] = false
contains b (c ∷ s) = nat_beq c b || contains b s
