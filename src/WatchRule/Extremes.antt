-- ===== src/WatchRule/Extremes.antt =====
-- `do_Maximum` and `do_Minimum` compare the greatest and the least of the values in the period.
use heat.Prelude.{
  ℕ, true, false, ◌≡◌, refl, ◌⊎◌, inl, inr, Option, none, some, List, [], ◌∷◌, if◌then◌else◌, arith,
  Bool-cases,
}
use heat.WatchRule.Numbers.{Numbers}
use heat.WatchRule.Statistics.{
  WatchState, nodata, Operator, Datum, is_old, max_loop, min_loop, do_maximum, do_minimum, compared,
  compared?,
}

module _ (n : Numbers) where
  open n use {F, less, less_irrefl, less_trans, less_total}

  -- The values of the rows that are not too old.
  abbrev pub in_period : ℕ → ℕ → List (Datum n) → List F
  in_period now period [] = []
  in_period now period (d ∷ ds) =
      if is_old n now period d then in_period now period ds else d.value ∷ in_period now period ds

  -- `m` is one of the values.
  abbrev pub OneOf : F → List F → Type 0
  OneOf m [] = ⊥
  OneOf m (v ∷ vs) = (m ≡ v) ⊎ OneOf m vs

  -- No value is greater than `m`; none is less.
  abbrev pub NoneAbove : F → List F → Type 0
  NoneAbove m [] = Unit
  NoneAbove m (v ∷ vs) = (less m v ≡ false) × NoneAbove m vs

  abbrev pub NoneBelow : F → List F → Type 0
  NoneBelow m [] = Unit
  NoneBelow m (v ∷ vs) = (less v m ≡ false) × NoneBelow m vs

  less_asymm : (a b : F) → less a b ≡ true → less b a ≡ false
  less_asymm a b h = ground (arith, less_trans a b a h, less_irrefl a)

  -- The two loops over the values alone.
  keep_max : Option F → F → Option F
  keep_max none v = some v
  keep_max (some b) v = if less b v then some v else some b

  keep_min : Option F → F → Option F
  keep_min none v = some v
  keep_min (some b) v = if less v b then some v else some b

  fold : (Option F → F → Option F) → Option F → List F → Option F
  fold keep best [] = best
  fold keep best (v ∷ vs) = fold keep (keep best v) vs

  module _ (now period : ℕ) where
    max_loop-fold :
        (ds : List (Datum n)) (best : Option F)
        → max_loop n now period best ds ≡ fold keep_max best (in_period now period ds)
    unfolding max_loop fold keep_max
    max_loop-fold [] best = refl
    max_loop-fold (d ∷ ds) none =
        ground (arith, max_loop-fold ds none, max_loop-fold ds (some d.value))
    max_loop-fold (d ∷ ds) (some b) =
        ground (arith, max_loop-fold ds (some b), max_loop-fold ds (some d.value))

    min_loop-fold :
        (ds : List (Datum n)) (best : Option F)
        → min_loop n now period best ds ≡ fold keep_min best (in_period now period ds)
    unfolding min_loop fold keep_min
    min_loop-fold [] best = refl
    min_loop-fold (d ∷ ds) none =
        ground (arith, min_loop-fold ds none, min_loop-fold ds (some d.value))
    min_loop-fold (d ∷ ds) (some b) =
        ground (arith, min_loop-fold ds (some b), min_loop-fold ds (some d.value))

  -- `m` is the greatest, or the least, of `b` and the values.
  abbrev IsMax : F → F → List F → Type 0
  IsMax m b vs = ((m ≡ b) ⊎ OneOf m vs) × (less m b ≡ false) × NoneAbove m vs

  abbrev IsMin : F → F → List F → Type 0
  IsMin m b vs = ((m ≡ b) ⊎ OneOf m vs) × (less b m ≡ false) × NoneBelow m vs

  fold-IsMax : (vs : List F) (b : F) → (m : F) × (fold keep_max (some b) vs ≡ some m) × IsMax m b vs
  unfolding fold keep_max
  fold-IsMax [] b = (b, refl, (inl refl, less_irrefl b, tt))
  fold-IsMax (v ∷ vs) b = elim (Bool-cases (less b v)) [
    | inl greater ↦
        let (m, found, best) = fold-IsMax vs v in
        (
          m,
          rw greater found,
          (ground arith, ground (arith, less_total m v b, less_asymm b v), (best.1, best.2)),
        )
    | inr kept ↦
        let (m, found, best) = fold-IsMax vs b in
        (m, rw kept found, (ground arith, best.1, (ground (arith, less_total m b v), best.2)))
  ]

  fold-IsMin : (vs : List F) (b : F) → (m : F) × (fold keep_min (some b) vs ≡ some m) × IsMin m b vs
  unfolding fold keep_min
  fold-IsMin [] b = (b, refl, (inl refl, less_irrefl b, tt))
  fold-IsMin (v ∷ vs) b = elim (Bool-cases (less v b)) [
    | inl smaller ↦
        let (m, found, best) = fold-IsMin vs v in
        (
          m,
          rw smaller found,
          (ground arith, ground (arith, less_total b v m, less_asymm v b), (best.1, best.2)),
        )
    | inr kept ↦
        let (m, found, best) = fold-IsMin vs b in
        (m, rw kept found, (ground arith, best.1, (ground (arith, less_total v b m), best.2)))
  ]

  -- What the rule makes of the values in the period: no data, or the comparison of the greatest
  -- value, or of the least, with the threshold.
  abbrev pub IsMaximum : Operator → F → List F → WatchState → Type 0
  IsMaximum op threshold [] state = state ≡ nodata
  IsMaximum op threshold (v ∷ vs) state =
      (m : F) × OneOf m (v ∷ vs) × NoneAbove m (v ∷ vs) × (state ≡ compared n op threshold m)

  abbrev pub IsMinimum : Operator → F → List F → WatchState → Type 0
  IsMinimum op threshold [] state = state ≡ nodata
  IsMinimum op threshold (v ∷ vs) state =
      (m : F) × OneOf m (v ∷ vs) × NoneBelow m (v ∷ vs) × (state ≡ compared n op threshold m)

  module _ (op : Operator) (threshold : F) where
    fold-IsMaximum :
        (vs : List F) → IsMaximum op threshold vs (compared? n op threshold (fold keep_max none vs))
    unfolding fold keep_max
    fold-IsMaximum [] = refl
    fold-IsMaximum (v ∷ vs) =
        let (m, found, best) = fold-IsMax vs v in (m, best.0, (best.1, best.2), rw found)

    fold-IsMinimum :
        (vs : List F) → IsMinimum op threshold vs (compared? n op threshold (fold keep_min none vs))
    unfolding fold keep_min
    fold-IsMinimum [] = refl
    fold-IsMinimum (v ∷ vs) =
        let (m, found, best) = fold-IsMin vs v in (m, best.0, (best.1, best.2), rw found)

    module _ (now period : ℕ) (ds : List (Datum n)) where
      -- `do_Maximum` says that there is no data exactly when no row is in the period, and otherwise
      -- compares the greatest of the values in the period with the threshold.
      pub do_maximum_lem :
          IsMaximum op threshold (in_period now period ds) (do_maximum n now period op threshold ds)
      unfolding do_maximum
      do_maximum_lem = rw max_loop-fold (fold-IsMaximum (in_period now period ds))

      -- `do_Minimum` says that there is no data exactly when no row is in the period, and otherwise
      -- compares the least of the values in the period with the threshold.
      pub do_minimum_lem :
          IsMinimum op threshold (in_period now period ds) (do_minimum n now period op threshold ds)
      unfolding do_minimum
      do_minimum_lem = rw min_loop-fold (fold-IsMinimum (in_period now period ds))
