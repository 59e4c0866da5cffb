-- ===== src/Prelude/Splitting.antt =====
-- `split`, `join` and `replace_text` against one another.
use Prim.Native.Nat.{ℕ, zero, suc, ◌-◌}
use mathlib.Core.Path.{◌≡◌, refl}
use mathlib.Core.Logic.{◌≢◌, inl, inr}
use mathlib.Core.Bool.{true}
use mathlib.Core.List.{List, [], ◌∷◌, ◌++◌}
use native.Mathlib.Omega.{arith}
use heat.Prelude.Tests.{if_ind, nat_beq_iff, Bool-cases}
use heat.Prelude.Equality.{nat_eq}
use heat.Prelude.Lists.{length}
use heat.Prelude.Texts.{
  Text, starts_with, push_char, skipped, split_from, split, join, replace_from, replace_text,
}

push_char-ne-nil : (c : ℕ) (ps : List Text) → push_char c ps ≢ []
push_char-ne-nil c [] = ground arith
push_char-ne-nil c (p ∷ ps) = ground arith

split_from-ne-nil : (sep : Text) (skip : ℕ) (s : Text) → split_from sep skip s ≢ []
unfolding split_from
split_from-ne-nil sep skip [] = ground arith
split_from-ne-nil sep (suc skip) (c ∷ s) = split_from-ne-nil sep skip s
split_from-ne-nil sep zero (c ∷ s) =
    if_ind (λ ps. ps ≢ []) (starts_with sep (c ∷ s)) (λ h. ground arith)
      (λ h. push_char-ne-nil c (split_from sep (skipped (starts_with sep (c ∷ s)) sep) s))

join-push_char :
    (sep : Text) (c : ℕ) (ps : List Text) → ps ≢ [] → join sep (push_char c ps) ≡ c ∷ join sep ps
unfolding join
join-push_char sep c [] h = absurd (h refl)
join-push_char sep c (p ∷ []) h = refl
join-push_char sep c (p ∷ q ∷ ps) h = refl

join-piece : (sep : Text) (ps : List Text) → ps ≢ [] → join sep ([] ∷ ps) ≡ sep ++ join sep ps
unfolding join
join-piece sep [] h = absurd (h refl)
join-piece sep (p ∷ ps) h = refl

abbrev pub skip_chars : ℕ → Text → Text
skip_chars zero s = s
skip_chars (suc n) [] = []
skip_chars (suc n) (c ∷ s) = skip_chars n s

skip_from :
    (sep : Text) (c : ℕ) (s : Text)
    → sep ≢ []
    → skip_chars (length sep) (c ∷ s) ≡ skip_chars (length sep - 1) s
skip_from [] c s h = absurd (h refl)
skip_from (d ∷ sep) c s h = ground arith

starts_with-append : (p s : Text) → starts_with p s ≡ true → s ≡ p ++ skip_chars (length p) s
starts_with-append [] s h = refl
starts_with-append (c ∷ p) [] h = ground arith
starts_with-append (c ∷ p) (d ∷ s) h = ground (arith, starts_with-append p s, nat_beq_iff c d)

join-split_from :
    (sep : Text) (skip : ℕ) (s : Text)
    → sep ≢ []
    → join sep (split_from sep skip s) ≡ skip_chars skip s
unfolding split_from
join-split_from sep zero [] h = unfold join in refl
join-split_from sep (suc skip) [] h = unfold join in refl
join-split_from sep (suc skip) (c ∷ s) h = join-split_from sep skip s h
join-split_from sep zero (c ∷ s) h = elim (Bool-cases (starts_with sep (c ∷ s))) [
  | inl found ↦ ground (
    arith,
    found,
    join-piece sep (split_from sep (length sep - 1) s) (split_from-ne-nil sep (length sep - 1) s),
    join-split_from sep (length sep - 1) s h,
    starts_with-append sep (c ∷ s) found,
    skip_from sep c s h,
  )
  | inr missed ↦ ground (
    arith,
    missed,
    join-push_char sep c (split_from sep 0 s) (split_from-ne-nil sep 0 s),
    join-split_from sep 0 s h,
  )
]

-- Joining the parts of a split gives the string back, for every separator that is not empty.
pub join-split : (sep s : Text) → sep ≢ [] → join sep (split sep s) ≡ s
join-split sep s h = join-split_from sep 0 s h

replace_from-split_from :
    (old new : Text) (skip : ℕ) (s : Text)
    → replace_from old new skip s ≡ join new (split_from old skip s)
unfolding replace_from split_from
replace_from-split_from old new skip [] = unfold join in refl
replace_from-split_from old new (suc skip) (c ∷ s) = replace_from-split_from old new skip s
replace_from-split_from old new zero (c ∷ s) =
    let skip = skipped (starts_with old (c ∷ s)) old in
    ground (
      arith,
      replace_from-split_from old new skip s,
      join-piece new (split_from old skip s) (split_from-ne-nil old skip s),
      join-push_char new c (split_from old skip s) (split_from-ne-nil old skip s),
    )

-- To replace a string that is not empty is to split at it and to join with the other.
pub replace_text-split :
    (old new s : Text) → old ≢ [] → replace_text old new s ≡ join new (split old s)
unfolding replace_text
replace_text-split [] new s h = absurd (h refl)
replace_text-split (c ∷ old) new s h = replace_from-split_from (c ∷ old) new 0 s
