-- ===== src/Text/Tests.antt =====
-- Runs of the functions on texts.
use proxy_load.Base.{◌≡◌, refl, true, false, none, some, [], ◌∷◌, ◌++◌}
use proxy_load.Host.{trim}
use proxy_load.Text.{
  as_bytes, is_utf8, parse_u16, decimal, four, parse_ipv4, print_ipv4, split_once, rsplit_once,
  split_whitespace,
}

decimal_u16 : decimal 65535 ≡ as_bytes "65535"
unfolding decimal as_bytes
decimal_u16 = refl

parse_plus : parse_u16 (as_bytes "+0080") ≡ some 80
unfolding parse_u16 as_bytes
parse_plus = refl

parse_overflow : parse_u16 (as_bytes "65536") ≡ none
unfolding parse_u16 as_bytes
parse_overflow = refl

ip_read : parse_ipv4 (as_bytes "10.0.255.1") ≡ some (four 10 0 255 1)
unfolding parse_ipv4 as_bytes
ip_read = refl

ip_zeros : parse_ipv4 (as_bytes "10.00.255.1") ≡ none
unfolding parse_ipv4 as_bytes
ip_zeros = refl

ip_print : print_ipv4 10 0 255 1 ≡ as_bytes "10.0.255.1"
unfolding print_ipv4 as_bytes
ip_print = refl

utf8_texts : is_utf8 (as_bytes "é代理") ≡ true
unfolding is_utf8 as_bytes
utf8_texts = refl

utf8_cut : is_utf8 (195 ∷ 40 ∷ []) ≡ false
unfolding is_utf8 as_bytes
utf8_cut = refl

last_colon : rsplit_once b':' (as_bytes "a:b:1") ≡ some (as_bytes "a:b", as_bytes "1")
unfolding rsplit_once as_bytes
last_colon = refl

first_colon : split_once b':' (as_bytes "a:b:1") ≡ some (as_bytes "a", as_bytes "b:1")
unfolding split_once as_bytes
first_colon = refl

words_of : split_whitespace (as_bytes " GET  / ") ≡ as_bytes "GET" ∷ as_bytes "/" ∷ []
unfolding split_whitespace as_bytes
words_of = refl

-- U+3000 and U+00A0 part words, as the space does.
wide_words :
    split_whitespace (as_bytes "a" ++ (227 ∷ 128 ∷ 128 ∷ as_bytes "é") ++ (194 ∷ 160 ∷ []))
    ≡ as_bytes "a" ∷ as_bytes "é" ∷ []
unfolding split_whitespace as_bytes
wide_words = refl

-- U+200B is no white space, and U+2003 is.
wide_trimmed :
    trim (226 ∷ 128 ∷ 131 ∷ 226 ∷ 128 ∷ 139 ∷ as_bytes "a " ++ (194 ∷ 133 ∷ []))
    ≡ 226 ∷ 128 ∷ 139 ∷ as_bytes "a"
unfolding trim as_bytes
wide_trimmed = refl
