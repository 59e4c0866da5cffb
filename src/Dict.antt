-- ===== src/Dict.antt =====
-- Python's dict as an association list in iteration order: a new key goes to the end, a write to a
-- key that is there keeps its place. (CPython 2 fixes no order, so the theorems about programs that
-- iterate over a dict hold for every order.)
use heat.Prelude.{
  Bool, true, false, ◌≡◌, refl, Option, none, some, List, [], ◌∷◌, Eq, ◌==◌, if◌then◌else◌, arith,
  All, beq_refl, suc, length,
}

abbrev pub Dict {ℓ κ} : Type ℓ → Type κ → Type (ℓ ⊔ κ)
Dict K V = List (K × V)

abbrev pub is_some {ℓ} : {A : Type ℓ} → Option A → Bool
is_some none = false
is_some (some a) = true

module _ {ℓ κ} {K : Type ℓ} {V : Type κ} ⦃e : Eq K⦄ where
  -- `d.get(k)`
  unfoldable pub lookup : K → Dict K V → Option V
  lookup k [] = none
  lookup k ((j, v) ∷ d) = if j == k then some v else lookup k d

  -- `k in d`
  abbrev pub has_key : K → Dict K V → Bool
  has_key k d = is_some (lookup k d)

  -- `d[k] = v`
  unfoldable pub put : K → V → Dict K V → Dict K V
  put k v [] = (k, v) ∷ []
  put k v ((j, w) ∷ d) = if j == k then (j, v) ∷ d else (j, w) ∷ put k v d

  -- `d.pop(k, None)`, and `del d[k]` where the key is there
  unfoldable pub delete : K → Dict K V → Dict K V
  delete k [] = []
  delete k ((j, w) ∷ d) = if j == k then delete k d else (j, w) ∷ delete k d

  pub lookup-put :
      (k j : K) (v : V) (d : Dict K V)
      → lookup j (put k v d) ≡ (if k == j then some v else lookup j d)
  unfolding lookup put
  lookup-put k j v [] = refl
  lookup-put k j v ((i, w) ∷ d) =
      ground (arith, e.beq_iff k j, e.beq_iff i k, e.beq_iff i j, lookup-put k j v d)

  pub lookup-delete :
      (k j : K) (d : Dict K V) → lookup j (delete k d) ≡ (if k == j then none else lookup j d)
  unfolding lookup delete
  lookup-delete k j [] = ground arith
  lookup-delete k j ((i, w) ∷ d) =
      ground (arith, e.beq_iff k j, e.beq_iff i k, e.beq_iff i j, lookup-delete k j d)

  -- The keys of `d` are distinct: what the representation promises.
  abbrev pub IsDict : Dict K V → Type κ
  IsDict [] = Unit
  IsDict ((j, v) ∷ d) = (lookup j d ≡ none) × IsDict d

  pub put-IsDict : (k : K) (v : V) (d : Dict K V) → IsDict d → IsDict (put k v d)
  unfolding lookup put
  put-IsDict k v [] h = ground arith
  put-IsDict k v ((j, w) ∷ d) h =
      ground (arith, put-IsDict k v d h.1, lookup-put k j v d, e.beq_iff j k, e.beq_iff k j)

  pub delete-IsDict : (k : K) (d : Dict K V) → IsDict d → IsDict (delete k d)
  unfolding lookup delete
  delete-IsDict k [] h = h
  delete-IsDict k ((j, w) ∷ d) h =
      ground (arith, delete-IsDict k d h.1, lookup-delete k j d, e.beq_iff j k, e.beq_iff k j)

  pub delete_missing : (k : K) (d : Dict K V) → lookup k d ≡ none → delete k d ≡ d
  unfolding lookup delete
  delete_missing k [] h = refl
  delete_missing k ((j, w) ∷ d) h = ground (arith, delete_missing k d)

  pub length-delete :
      (k : K) (d : Dict K V) → IsDict d → has_key k d ≡ true → suc (length (delete k d)) ≡ length d
  unfolding lookup delete
  length-delete k [] h m = ground arith
  length-delete k ((j, w) ∷ d) h m =
      ground (arith, length-delete k d h.1, delete_missing k d, e.beq_iff j k)

  pub length-put :
      (k : K) (v : V) (d : Dict K V)
      → length (put k v d) ≡ (if has_key k d then length d else suc (length d))
  unfolding lookup put
  length-put k v [] = refl
  length-put k v ((j, w) ∷ d) = ground (arith, length-put k v d)

pub ruleset dict_laws = (lookup-put, lookup-delete)

module _ {ℓ κ} {K : Type ℓ} {V : Type κ} ⦃e : Eq K⦄ where
  -- The items that an iteration over `d` sees are those that a lookup finds.
  abbrev pub IsItemOf : Dict K V → K × V → Type κ
  IsItemOf d kv = lookup kv.0 d ≡ some kv.1

  items_behind :
      (j : K) (w : V) (d items : Dict K V)
      → lookup j d ≡ none
      → All (IsItemOf d) items
      → All (IsItemOf ((j, w) ∷ d)) items
  unfolding lookup
  items_behind j w d [] h all = tt
  items_behind j w d ((k, v) ∷ items) h all =
      (ground (arith, e.beq_iff j k), items_behind j w d items h all.1)

  pub IsDict-items : (d : Dict K V) → IsDict d → All (IsItemOf d) d
  unfolding lookup
  IsDict-items [] h = tt
  IsDict-items ((j, w) ∷ d) h =
      (ground (arith, beq_refl j), items_behind j w d d h.0 (IsDict-items d h.1))
