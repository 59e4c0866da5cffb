-- ===== src/Template/Selected.antt =====
-- Fn::Select counts from the end at a negative index.
use heat.Prelude.{
  ℕ, zero, suc, ◌-◌, ◌<◌, ◌≤◌, false, ◌≡◌, refl, sym, ap, List, [], ◌∷◌, ◌++◌, Option, none, some,
  Text, pos, negsuc, ltb, ltb→lt, if_ind, ◌⊎◌, inl, inr, length, length-append, arith,
}
use mathlib.Core.List.{reverse, reverse-cons}
use heat.Template.Json.{Json, int, arr, from_items, items-from_items, returns}
use heat.Template.Texts.{pair}
use heat.Template.Select.{nth, at_index, index_of, pick, select_from, handle_select, or_empty}

module _ {ℓ} {A : Type ℓ} where
  length-reverse : (xs : List A) → length (reverse xs) ≡ length xs
  length-reverse [] = refl
  length-reverse (x ∷ xs) =
      rw (reverse-cons x xs, length-append (reverse xs) (x ∷ []), length-reverse xs) (omega arith)

  nth-append_left : (n : ℕ) (xs ys : List A) → n < length xs → nth n (xs ++ ys) ≡ nth n xs
  unfolding nth
  nth-append_left n [] ys h = ground arith
  nth-append_left zero (x ∷ xs) ys h = refl
  nth-append_left (suc n) (x ∷ xs) ys h = nth-append_left n xs ys (omega arith)

  nth-append_end : (xs : List A) (y : A) → nth (length xs) (xs ++ y ∷ []) ≡ some y
  unfolding nth
  nth-append_end [] y = refl
  nth-append_end (x ∷ xs) y = nth-append_end xs y

  nth_beyond : (n : ℕ) (xs : List A) → length xs ≤ n → nth n xs ≡ none
  unfolding nth
  nth_beyond n [] h = refl
  nth_beyond zero (x ∷ xs) h = ground arith
  nth_beyond (suc n) (x ∷ xs) h = nth_beyond n xs (omega arith)

  nth-inside :
      (n : ℕ) (x : A) (xs : List A)
      → n < length xs
      → nth (suc (length xs) - suc n) (x ∷ xs) ≡ nth (length xs - suc n) xs
  nth-inside n x xs h = unfold nth in ap (λ k. nth k (x ∷ xs)) (minus (length xs) n h)
    where
      minus : (l m : ℕ) → m < l → suc l - suc m ≡ suc (l - suc m)
      minus l m less = omega arith

  nth-first : (x : A) (xs : List A) → nth (suc (length xs) - suc (length xs)) (x ∷ xs) ≡ some x
  nth-first x xs = unfold nth in ap (λ k. nth k (x ∷ xs)) (minus (length xs))
    where
      minus : (l : ℕ) → suc l - suc l ≡ 0
      minus l = omega arith

  nth-reverse :
      (n : ℕ) (xs : List A) → n < length xs → nth (length xs - suc n) xs ≡ nth n (reverse xs)
  nth-reverse n [] h = ground arith
  nth-reverse n (x ∷ xs) h = elim (lt-cases n (length xs) h) [
    | inl less ↦
        rw (nth-inside n x xs less, nth-reverse n xs less, reverse-cons x xs)
          (sym (nth-append_left n (reverse xs) (x ∷ []) (rw (length-reverse xs) less)))
    | inr same ↦ rw (same, nth-first x xs, reverse-cons x xs) (last x xs)
  ]
    where
      lt-cases : (n l : ℕ) → n < suc l → (n < l) ⊎ (n ≡ l)
      lt-cases n l h = ground arith

      last : (x : A) (xs : List A) → some x ≡ nth (length xs) (reverse xs ++ x ∷ [])
      last x xs = rw (sym (length-reverse xs)) (sym (nth-append_end (reverse xs) x))

  at_index-reverse : (n : ℕ) (xs : List A) → at_index (negsuc n) xs ≡ at_index (pos n) (reverse xs)
  unfolding at_index
  at_index-reverse n xs =
      if_ind (λ r. r ≡ nth n (reverse xs)) (ltb n (length xs))
        (λ h. nth-reverse n xs (ltb→lt n (length xs) h))
        (λ h. sym (nth_beyond n (reverse xs) (rw (length-reverse xs) (beyond n (length xs) h))))
    where
      beyond : (n l : ℕ) → ltb n l ≡ false → l ≤ n
      beyond n l h = ground arith

-- The index -1 - n selects what n selects from the reversed list, out of range too.
pub handle_select-reverse :
    (loads : Text → Option Json) (n : ℕ) (xs : List Json)
    → handle_select loads (pair (int (negsuc n)) (arr (from_items xs)))
      ≡ handle_select loads (pair (int (pos n)) (arr (from_items (reverse xs))))
unfolding handle_select index_of select_from pick
handle_select-reverse loads n xs =
    rw (items-from_items xs, items-from_items (reverse xs))
      (ap (λ v. returns (or_empty v)) (at_index-reverse n xs))
