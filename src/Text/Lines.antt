-- ===== src/Text/Lines.antt =====
-- The functions of Rust's standard library on lines and whole texts that src-tauri/src/proxy.rs
-- and src-tauri/src/proxy/http_observer.rs use.
use proxy_load.Base.{
  ℕ, zero, suc, ◌-◌, Bool, true, false, ◌&&◌, List, [], ◌∷◌, ◌++◌, if◌then◌else◌, leb, nat_beq,
  nat_eq, length, list_beq, take, drop, map,
}
use proxy_load.Models.{Bytes}
use proxy_load.Text.{split_on}

abbrev pub crlf : Bytes
crlf = 13 ∷ 10 ∷ []

-- `ends_with` and `starts_with`.
unfoldable pub ends_with : Bytes → Bytes → Bool
ends_with suffix s =
    leb (length suffix) (length s) && list_beq (drop (length s - length suffix) s) suffix

unfoldable pub starts_with : Bytes → Bytes → Bool
starts_with [] s = true
starts_with (a ∷ prefix) [] = false
starts_with (a ∷ prefix) (b ∷ s) = nat_beq a b && starts_with prefix s

unfoldable pub strip_cr : Bytes → Bytes
strip_cr [] = []
strip_cr (c ∷ []) = if nat_beq c 13 then [] else c ∷ []
strip_cr (c ∷ d ∷ s) = c ∷ strip_cr (d ∷ s)

unfoldable pub lines_of : Bytes → List Bytes → List Bytes
unfolding strip_cr
lines_of [] [] = []
lines_of (c ∷ s) [] = (c ∷ s) ∷ []
lines_of s (t ∷ ts) = strip_cr s ∷ lines_of t ts

unfoldable pub lines_from : List Bytes → List Bytes
unfolding lines_of
lines_from [] = []
lines_from (t ∷ ts) = lines_of t ts

-- `str::lines`: an end of line is a line feed, with a carriage return before it or not.
unfoldable pub lines : Bytes → List Bytes
unfolding lines_from split_on
lines s = lines_from (split_on 10 s)

-- A carriage return that was held back.
unfoldable pub held : Bool → Bytes → Bytes
held b s = if b then 13 ∷ s else s

unfoldable pub kept : ℕ → Bytes → Bytes
kept c s = if nat_beq c 13 then s else c ∷ s

unfoldable pub split_crlf_from : Bool → Bytes → Bytes × List Bytes
unfolding held kept
split_crlf_from pending [] = (held pending [], [])
split_crlf_from pending (c ∷ s) =
    let rest = split_crlf_from (nat_beq c 13) s in
    if pending && nat_beq c 10
    then ([], rest.0 ∷ rest.1)
    else (held pending (kept c rest.0), rest.1)

-- `str::split("\r\n")`: the first part and the others.
unfoldable pub split_crlf : Bytes → Bytes × List Bytes
unfolding split_crlf_from
split_crlf s = split_crlf_from false s

-- `join("\r\n")`.
unfoldable pub join_crlf : Bytes → List Bytes → Bytes
join_crlf s [] = s
join_crlf s (t ∷ ts) = s ++ (crlf ++ join_crlf t ts)

-- `trim_end_matches`; a text has no more matches than bytes.
trim_matches : ℕ → Bytes → Bytes → Bytes
unfolding ends_with
trim_matches zero suffix s = s
trim_matches (suc fuel) suffix s =
    let rest = trim_matches fuel suffix (take (length s - length suffix) s) in
    if ends_with suffix s then rest else s

unfoldable pub trim_end_matches : Bytes → Bytes → Bytes
unfolding trim_matches
trim_end_matches suffix s = trim_matches (length s) suffix s

upper : ℕ → ℕ
upper c = if leb b'a' c && leb c b'z' then c - 32 else c

-- `str::to_uppercase` of the letters of ASCII.
unfoldable pub to_uppercase : Bytes → Bytes
unfolding upper
to_uppercase = map upper
