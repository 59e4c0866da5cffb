-- ===== src/Stack/Restarted.antt =====
-- After `restart_resource` the resources are created up to the first failure, and none behind it.
use heat.Prelude.{
  Bool, true, false, not, ◌||◌, ◌≡◌, refl, ◌⊎◌, inl, inr, List, [], ◌∷◌, arith, All, Bool-cases,
}
use heat.Stack.Restart.{
  Restarted, created, creation_failed, aborted, destroy_all, create_all, restart_resource,
}

module _ {K : Type 0} where
  abbrev pub names_of : List (K × Restarted) → List K
  names_of [] = []
  names_of ((k, r) ∷ rs) = k ∷ names_of rs

  abbrev pub IsAborted : K × Restarted → Type 0
  IsAborted kr = kr.1 ≡ aborted

  -- Some resources are created, then at most one fails, and all behind it are given up.
  abbrev pub StopsAtFailure : List (K × Restarted) → Type 0
  StopsAtFailure [] = Unit
  StopsAtFailure ((k, created) ∷ rest) = StopsAtFailure rest
  StopsAtFailure ((k, creation_failed) ∷ rest) = All IsAborted rest
  StopsAtFailure ((k, aborted) ∷ rest) = All IsAborted rest

  names_of-create_all :
      (creates : K → Bool) (failed : Bool) (ks : List K)
      → names_of (create_all creates failed ks) ≡ ks
  unfolding create_all
  names_of-create_all creates failed [] = refl
  names_of-create_all creates failed (k ∷ ks) =
      ground (arith, names_of-create_all creates (failed || not (creates k)) ks)

  create_all-IsAborted :
      (creates : K → Bool) (ks : List K) → All IsAborted (create_all creates true ks)
  unfolding create_all
  create_all-IsAborted creates [] = tt
  create_all-IsAborted creates (k ∷ ks) = (refl, create_all-IsAborted creates ks)

  create_all-StopsAtFailure :
      (creates : K → Bool) (ks : List K) → StopsAtFailure (create_all creates false ks)
  unfolding create_all
  create_all-StopsAtFailure creates [] = tt
  create_all-StopsAtFailure creates (k ∷ ks) = elim (Bool-cases (creates k)) [
    | inl works ↦ rw (works, create_all) (create_all-StopsAtFailure creates ks)
    | inr fails ↦ rw (fails, create_all) (create_all-IsAborted creates ks)
  ]

  destroy_all-true : (destroys : K → Bool) (ks : List K) → destroy_all destroys true ks ≡ true
  unfolding destroy_all
  destroy_all-true destroys [] = refl
  destroy_all-true destroys (k ∷ ks) = ground (arith, destroy_all-true destroys ks)

  destroy_all_lem :
      (destroys : K → Bool) (ks : List K)
      → (destroy_all destroys false ks ≡ true)
        ⊎ ((destroy_all destroys false ks ≡ false) × All (λ k. destroys k ≡ true) ks)
  unfolding destroy_all
  destroy_all_lem destroys [] = inr (refl, tt)
  destroy_all_lem destroys (k ∷ ks) =
      ground (arith, destroy_all_lem destroys ks, destroy_all-true destroys ks)

  IsAborted-StopsAtFailure : (rs : List (K × Restarted)) → All IsAborted rs → StopsAtFailure rs
  IsAborted-StopsAtFailure [] h = tt
  IsAborted-StopsAtFailure ((k, created) ∷ rs) h = absurd (ground arith)
  IsAborted-StopsAtFailure ((k, creation_failed) ∷ rs) h = absurd (ground arith)
  IsAborted-StopsAtFailure ((k, aborted) ∷ rs) h = h.1

  restarted :
      (destroys creates : K → Bool) (reverse forward : List K)
      → StopsAtFailure (create_all creates (destroy_all destroys false reverse) forward)
        × (All IsAborted (create_all creates (destroy_all destroys false reverse) forward)
            ⊎ All (λ k. destroys k ≡ true) reverse)
  restarted destroys creates reverse forward = elim (destroy_all_lem destroys reverse) [
    | inl failed ↦ rw failed (
      IsAborted-StopsAtFailure (create_all creates true forward)
          (create_all-IsAborted creates forward),
      inl (create_all-IsAborted creates forward),
    )
    | inr (fine, all) ↦ rw fine (create_all-StopsAtFailure creates forward, inr all)
  ]

  pub restart_resource_lem :
      (destroys creates : K → Bool) (reverse forward : List K)
      → (names_of (restart_resource destroys creates reverse forward) ≡ forward)
        × StopsAtFailure (restart_resource destroys creates reverse forward)
        × (All IsAborted (restart_resource destroys creates reverse forward)
            ⊎ All (λ k. destroys k ≡ true) reverse)
  unfolding restart_resource
  restart_resource_lem destroys creates reverse forward = (
    names_of-create_all creates (destroy_all destroys false reverse) forward,
    (restarted destroys creates reverse forward).0,
    (restarted destroys creates reverse forward).1,
  )
