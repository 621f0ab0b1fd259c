-- ===== src/Host.antt =====
-- src-tauri/src/routing.rs: `normalize_host` and `normalize_rule`. The parser `url::Host::parse` is
-- a parameter: it gives the canonical text of a host that it accepts. A text is the list of its
-- bytes in UTF-8, in which `trim` knows the white space of Unicode.
use proxy_load.Base.{
  ℕ, Bool, ◌||◌, ◌&&◌, Option, none, some, [], ◌∷◌, ◌++◌, if◌then◌else◌, nat_beq, leb, map, ◌+◌,
  ◌==◌, list_eq, nat_eq, is_empty, suc, zero, false, ◌≡◌, arith,
}
use proxy_load.Models.{Bytes}
use proxy_load.Routing.{star, star_dot, strip_prefix}

-- The white space of ASCII.
unfoldable pub is_space : ℕ → Bool
is_space c = nat_beq c 32 || leb 9 c && leb c 13

-- U+0085 and U+00A0.
wide_two : ℕ → ℕ → Bool
wide_two c d = nat_beq c 194 && (nat_beq d 133 || nat_beq d 160)

-- U+1680, U+2000 to U+200A, U+2028, U+2029, U+202F, U+205F and U+3000.
wide_three : ℕ → ℕ → ℕ → Bool
wide_three c d e =
    (nat_beq c 225 && (nat_beq d 154 && nat_beq e 128))
    || ((nat_beq c 226
          && (nat_beq d 128
              && (leb 128 e && leb e 138 || (nat_beq e 168 || nat_beq e 169 || nat_beq e 175))))
        || ((nat_beq c 226 && (nat_beq d 129 && nat_beq e 159))
            || (nat_beq c 227 && (nat_beq d 128 && nat_beq e 128))))

wide_width : ℕ → Bytes → ℕ
unfolding wide_two wide_three
wide_width c [] = 0
wide_width c (d ∷ []) = if wide_two c d then 2 else 0
wide_width c (d ∷ e ∷ s) = if wide_two c d then 2 else if wide_three c d e then 3 else 0

-- How many bytes the character at the front has if it is white space as `char::is_whitespace` has
-- it, and 0 if it is none.
unfoldable pub space_width : Bytes → ℕ
unfolding is_space wide_width
space_width [] = 0
space_width (c ∷ s) = if is_space c then 1 else wide_width c s

-- `str::trim_start`, once some bytes of a character that is cut off have been passed.
unfoldable pub trim_start_from : ℕ → Bytes → Bytes
unfolding space_width
trim_start_from k [] = []
trim_start_from (suc k) (c ∷ s) = trim_start_from k s
trim_start_from zero (c ∷ s) = elim (space_width (c ∷ s)) [
  | zero ↦ c ∷ s
  | suc k ↦ trim_start_from k s
]

unfoldable pub trim_start : Bytes → Bytes
unfolding trim_start_from
trim_start s = trim_start_from 0 s

-- `str::trim_end`.
unfoldable pub trim_end : Bytes → Bytes
unfolding trim_start
trim_end [] = []
trim_end (c ∷ s) = if is_empty (trim_start (c ∷ s)) then [] else c ∷ trim_end s

-- `str::trim`.
unfoldable pub trim : Bytes → Bytes
unfolding trim_start trim_end
trim s = trim_end (trim_start s)

abbrev pub keep_unless : (ℕ → Bool) → ℕ → Bytes → Bytes
keep_unless drop c [] = if drop c then [] else c ∷ []
keep_unless drop c (d ∷ r) = c ∷ d ∷ r

-- Drops the characters at the end that pass the test.
unfoldable pub trim_end_by : (ℕ → Bool) → Bytes → Bytes
trim_end_by drop [] = []
trim_end_by drop (c ∷ r) = keep_unless drop c (trim_end_by drop r)

-- A byte that is white space in ASCII or that is not ASCII.
unfoldable pub unplain : ℕ → Bool
unfolding is_space
unplain c = is_space c || leb 128 c

-- At a plain byte there is no white space.
pub space_width-plain : (c : ℕ) (s : Bytes) → unplain c ≡ false → space_width (c ∷ s) ≡ 0
unfolding space_width wide_width wide_two wide_three unplain
space_width-plain c [] h = ground (arith, h)
space_width-plain c (d ∷ []) h = ground (arith, h)
space_width-plain c (d ∷ e ∷ s) h = ground (arith, h)

unfoldable pub lower : ℕ → ℕ
lower c = if leb b'A' c && leb c b'Z' then c + 32 else c

unfoldable pub to_ascii_lowercase : Bytes → Bytes
unfolding lower
to_ascii_lowercase = map lower

abbrev pub parsed_or : Option Bytes → Bytes → Bytes
parsed_or none s = s
parsed_or (some p) s = p

module _ (parse_host : Bytes → Option Bytes) where
  unfoldable pub normalize_host : Bytes → Bytes
  unfolding trim trim_end_by to_ascii_lowercase
  normalize_host host =
      let trimmed = trim_end_by (λ c. nat_beq c b'.') (trim host) in
      to_ascii_lowercase (parsed_or (parse_host trimmed) trimmed)

  unfoldable pub normalize_rule : Bytes → Bytes
  unfolding normalize_host strip_prefix
  normalize_rule rule = if rule == star then rule else elim (strip_prefix star_dot rule) [
    | some host ↦ star_dot ++ normalize_host host
    | none ↦ normalize_host rule
  ]
