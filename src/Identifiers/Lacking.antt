-- ===== src/Identifiers/Lacking.antt =====
-- What quoted strings do not contain, and how strings are taken apart at a character that they lack.
use heat.Prelude.{
  ℕ, ◌+◌, ◌*◌, ◌/◌, ◌%◌, ◌<◌, true, false, ◌||◌, ◌≡◌, refl, ap, ◌∙◌, Option, none, some, List, [],
  ◌∷◌, ◌++◌, Text, ◌==◌, nat_eq, member, All, if_ind, split, split_from, arith,
}
use heat.Identifiers.Quoting.{
  is_unreserved, hex, quote, unhex, escape_at, decoded, used, byte, unquote_from, unquote,
}
use heat.Identifiers.Identifier.{slash, span_segment, line}

abbrev pub Lacks : ℕ → Text → Type 0
Lacks c = All (λ d. (c == d) ≡ false)

abbrev pub IsBytes : Text → Type 0
IsBytes = All (λ d. d < 256)

hex-unreserved : (n : ℕ) → n < 16 → is_unreserved (hex n) ≡ true
hex-unreserved n h = ground arith

other :
    (c d : ℕ) (safe : List ℕ)
    → (is_unreserved c || member c safe) ≡ false
    → (is_unreserved d || member d safe) ≡ true
    → (c == d) ≡ false
other c d safe hc hd = ground (arith, nat_eq.beq_iff c d)

-- A quoted string lacks what is quoted, apart from the percent sign.
pub quote-Lacks :
    (c : ℕ) (safe : List ℕ) (s : Text)
    → (is_unreserved c || member c safe) ≡ false
    → (c == 37) ≡ false
    → IsBytes s
    → Lacks c (quote safe s)
unfolding quote
quote-Lacks c safe [] h p bytes = tt
quote-Lacks c safe (d ∷ s) h p bytes =
    let rest = quote-Lacks c safe s h p bytes.1 in
    if_ind (Lacks c) (is_unreserved d || member d safe) (λ plain. (other c d safe h plain, rest))
      (λ quoted. (p, (digit (d / 16) (omega arith), (digit (d % 16) (omega arith), rest))))
  where
    digit : (n : ℕ) → n < 16 → (c == hex n) ≡ false
    digit n less = other c (hex n) safe h (ground (arith, hex-unreserved n less))

unhex-hex : (n : ℕ) → n < 16 → unhex (hex n) ≡ some n
unhex-hex n h = ground arith

not_percent :
    (d : ℕ) (safe : List ℕ)
    → (is_unreserved d || member d safe) ≡ true
    → member 37 safe ≡ false
    → (d == 37) ≡ false
not_percent d safe plain h =
    ground (arith, other 37 d safe h plain, nat_eq.beq_iff d 37, nat_eq.beq_iff 37 d)

plain_step : (d : ℕ) (s : Text) → (d == 37) ≡ false → unquote (d ∷ s) ≡ d ∷ unquote s
unfolding unquote_from
plain_step d s h = step (escape_at d s) (ground (arith, h))
  where
    step :
        (e : Option ℕ)
        → e ≡ none
        → ◌≡◌ {A = Text} (decoded d e ∷ unquote_from (used e) s) (d ∷ unquote s)
    step none e = refl
    step (some n) e = ground arith

byte-eq : (x y : Option ℕ) (a b : ℕ) → x ≡ some a → y ≡ some b → byte x y ≡ some (a * 16 + b)
byte-eq x y a b hx hy = ground (arith, hx, hy)

bytes_of : (d : ℕ) → d < 256 → byte (unhex (hex (d / 16))) (unhex (hex (d % 16))) ≡ some d
bytes_of d h =
    byte-eq (unhex (hex (d / 16))) (unhex (hex (d % 16))) (d / 16) (d % 16)
      (unhex-hex (d / 16) (omega arith)) (unhex-hex (d % 16) (omega arith))
    ∙ ap some (whole d)
  where
    whole : (d : ℕ) → d / 16 * 16 + d % 16 ≡ d
    whole d = omega arith

some_number : (m n : ℕ) → some m ≡ some n → m ≡ n
some_number m n h = ground arith

hex_step :
    (x y d : ℕ) (s : Text)
    → byte (unhex x) (unhex y) ≡ some d
    → unquote (37 ∷ x ∷ y ∷ s) ≡ d ∷ unquote s
unfolding unquote_from
hex_step x y d s h = step (byte (unhex x) (unhex y)) h
  where
    step :
        (e : Option ℕ)
        → e ≡ some d
        → ◌≡◌ {A = Text} (decoded 37 e ∷ unquote_from (used e) (x ∷ y ∷ s)) (d ∷ unquote s)
    step none h = ground arith
    step (some n) h = ap (λ m. m ∷ unquote s) (some_number n d h)

pub unquote-quote :
    (safe : List ℕ) (s : Text) → member 37 safe ≡ false → IsBytes s → unquote (quote safe s) ≡ s
unfolding quote unquote_from
unquote-quote safe [] h bytes = refl
unquote-quote safe (d ∷ s) h bytes =
    if_ind (λ q. unquote q ≡ d ∷ s) (is_unreserved d || member d safe)
      (λ plain.
        plain_step d (quote safe s) (not_percent d safe plain h)
        ∙ ap (λ r. d ∷ r) (unquote-quote safe s h bytes.1))
      (λ quoted.
        hex_step (hex (d / 16)) (hex (d % 16)) d (quote safe s) (bytes_of d bytes.0)
        ∙ ap (λ r. d ∷ r) (unquote-quote safe s h bytes.1))

-- At a separator of one character a string splits behind a part that lacks it.
pub split-Lacks :
    (c : ℕ) (p rest : Text) → Lacks c p → split (c ∷ []) (p ++ (c ∷ rest)) ≡ p ∷ split (c ∷ []) rest
unfolding split_from
split-Lacks c [] rest h = ground (arith, nat_eq.beq_iff c c)
split-Lacks c (d ∷ p) rest h = ground (arith, h.0, split-Lacks c p rest h.1)

pub split-Lacks_end : (c : ℕ) (p : Text) → Lacks c p → split (c ∷ []) p ≡ p ∷ []
unfolding split_from
split-Lacks_end c [] h = refl
split-Lacks_end c (d ∷ p) h = ground (arith, h.0, split-Lacks_end c p h.1)

pub Lacks-append : (c : ℕ) (p q : Text) → Lacks c p → Lacks c q → Lacks c (p ++ q)
Lacks-append c [] q hp hq = hq
Lacks-append c (d ∷ p) q hp hq = (hp.0, Lacks-append c p q hp.1 hq)

-- A segment ends at the first slash, or with the string.
pub span_segment-Lacks :
    (p rest : Text) → Lacks slash p → span_segment (p ++ (slash ∷ rest)) ≡ (p, slash ∷ rest)
unfolding span_segment
span_segment-Lacks [] rest h = refl
span_segment-Lacks (d ∷ p) rest h =
    ground
      (arith, h.0, span_segment-Lacks p rest h.1, nat_eq.beq_iff d slash, nat_eq.beq_iff slash d)

pub span_segment-Lacks_end : (p : Text) → Lacks slash p → span_segment p ≡ (p, [])
unfolding span_segment
span_segment-Lacks_end [] h = refl
span_segment-Lacks_end (d ∷ p) h =
    ground
      (arith, h.0, span_segment-Lacks_end p h.1, nat_eq.beq_iff d slash, nat_eq.beq_iff slash d)

pub line-Lacks : (s : Text) → Lacks 10 s → line s ≡ s
unfolding line
line-Lacks [] h = refl
line-Lacks (d ∷ s) h =
    ground (arith, h.0, line-Lacks s h.1, nat_eq.beq_iff d 10, nat_eq.beq_iff 10 d)
