-- ===== src/Identifiers/Quoting.antt =====
-- `quote` and `unquote` of urllib, on strings of bytes.
use heat.Prelude.{
  ℕ, zero, suc, ◌+◌, ◌-◌, ◌*◌, ◌/◌, ◌%◌, Bool, ◌&&◌, ◌||◌, Option, none, some, List, [], ◌∷◌, Text,
  ◌==◌, nat_eq, leb, ltb, member, if◌then◌else◌,
}

-- Letters, digits, `_`, `.` and `-` are never quoted.
abbrev pub is_unreserved : ℕ → Bool
is_unreserved c =
    leb 48 c && leb c 57
    || leb 65 c && leb c 90
    || leb 97 c && leb c 122
    || c == 95
    || c == 46
    || c == 45

abbrev pub hex : ℕ → ℕ
hex n = if ltb n 10 then 48 + n else 55 + n

-- `quote(s, safe)`
unfoldable pub quote : (safe : List ℕ) → Text → Text
quote safe [] = []
quote safe (c ∷ s) =
    let rest = quote safe s in
    if is_unreserved c || member c safe then c ∷ rest else 37 ∷ hex (c / 16) ∷ hex (c % 16) ∷ rest

abbrev pub unhex : ℕ → Option ℕ
unhex c =
    if leb 48 c && leb c 57
    then some (c - 48)
    else (if leb 65 c && leb c 70
        then some (c - 55)
        else (if leb 97 c && leb c 102 then some (c - 87) else none))

abbrev pub byte : Option ℕ → Option ℕ → Option ℕ
byte (some a) (some b) = some (a * 16 + b)
byte _ _ = none

-- The byte that two hexadecimal digits stand for.
abbrev pub hex_pair : Text → Option ℕ
hex_pair (a ∷ b ∷ s) = byte (unhex a) (unhex b)
hex_pair _ = none

abbrev pub decoded : ℕ → Option ℕ → ℕ
decoded c none = c
decoded c (some n) = n

abbrev pub used : Option ℕ → ℕ
used none = 0
used (some n) = 2

abbrev pub escape_at : ℕ → Text → Option ℕ
escape_at c s = if c == 37 then hex_pair s else none

-- `unquote(s)` behind the next `skip` characters
unfoldable pub unquote_from : ℕ → Text → Text
unquote_from skip [] = []
unquote_from (suc skip) (c ∷ s) = unquote_from skip s
unquote_from zero (c ∷ s) = let e = escape_at c s in decoded c e ∷ unquote_from (used e) s

abbrev pub unquote : Text → Text
unquote s = unquote_from 0 s
