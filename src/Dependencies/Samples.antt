-- ===== src/Dependencies/Samples.antt =====
-- Small graphs, what the program does on them, and the theorems at them.
use heat.Prelude.{
  ℕ, ◌<◌, ◌-◌, sym, ◌∙◌, true, ◌≡◌, refl, ◌↔◌, List, [], ◌∷◌, Option, none, some, arith, nat_eq,
}
use heat.Dict.{lookup, put, delete, has_key}
use heat.Dependencies.Graph.{
  touch, add_satisfy, add_require, needs, feeds, reverse_copy, edges, first_leaf, toposort_loop,
  toposort, delitem, remove_from,
}
use heat.Dependencies.Deps.{
  iadd, dependencies, deps_iter, deps_reversed, get_edges, deps_getitem, partial, key_error, no_end,
}
use heat.Dependencies.Shape.{dependencies-WellFormed}
use heat.Dependencies.Order.{Outcome, toposort-Outcome}
use heat.Dependencies.Edges.{says_needs, mentions, dependencies-edges}
use heat.Dependencies.Reversal.{Falls, deps_iter-finishes_iff}
use heat.Dependencies.Listing.{dependencies-edges_roundtrip}
use heat.Dependencies.Partial.{Above, get_edges_total, deps_getitem_iff}

-- 3 requires 1 and 2, 2 requires 1, and 4 stands alone.
abbrev given : List (ℕ × Option ℕ)
given = (3, some 2) ∷ (2, some 1) ∷ (3, some 1) ∷ (4, none) ∷ []

abbrev looped : List (ℕ × Option ℕ)
looped = (1, some 2) ∷ (2, some 3) ∷ (3, some 2) ∷ (1, some 4) ∷ []

program : Unit {0}
unfolding lookup put delete touch add_satisfy add_require needs feeds reverse_copy edges first_leaf
    delitem toposort_loop toposort iadd dependencies deps_iter deps_reversed deps_getitem
    remove_from
program = tt

iter-given : deps_iter (dependencies given) ≡ (1 ∷ 2 ∷ 3 ∷ 4 ∷ [], none)
unfolding program
iter-given = refl

reversed-given : deps_reversed (dependencies given) ≡ (3 ∷ 2 ∷ 1 ∷ 4 ∷ [], none)
unfolding program
reversed-given = refl

edges-given : edges (dependencies given) ≡ (2, some 1) ∷ (3, some 1) ∷ (3, some 2) ∷ (4, none) ∷ []
unfolding program
edges-given = refl

iter-looped : (deps_iter (dependencies looped)).0 ≡ 4 ∷ []
unfolding program
iter-looped = refl

getitem-given :
    (deps_getitem 9 (dependencies given) 2 ≡ partial (dependencies ((3, some 2) ∷ [])))
    × (deps_getitem 9 (dependencies given) 7 ≡ key_error)
    × (deps_getitem 9 (dependencies looped) 2 ≡ no_end)
unfolding program
getitem-given = (refl, refl, refl)

-- 3 is the first to be fed, 1 the last.
abbrev rank_given : ℕ → ℕ
rank_given k = 4 - k

feeds-given : (a b : ℕ) → feeds (dependencies given) a b ≡ true → rank_given b < rank_given a
feeds-given a b h =
    let said : says_needs given b a ≡ true =
      sym ((dependencies-edges given).0 b a) ∙ (dependencies-WellFormed given).symmetric b a ∙ h in
    ground (arith, said)

deps_iter-finishes_iff_example :
    (((deps_iter (dependencies given)).1 ≡ none) ↔ ((rank : ℕ → ℕ) × Falls given rank))
    × (((deps_reversed (dependencies given)).1 ≡ none) ↔ ((rank : ℕ → ℕ) × Falls given rank))
deps_iter-finishes_iff_example = deps_iter-finishes_iff given

toposort-Outcome_example : Outcome (dependencies looped) (toposort (dependencies looped))
toposort-Outcome_example = toposort-Outcome (dependencies looped) (dependencies-WellFormed looped)

dependencies-edges_example :
    ((a b : ℕ) → needs (dependencies given) a b ≡ says_needs given a b)
    × ((k : ℕ) → has_key k (dependencies given) ≡ mentions given k)
dependencies-edges_example = dependencies-edges given

get_edges_total_example :
    (es : List (ℕ × Option ℕ)) × (get_edges 5 (dependencies given) 1 ≡ some es)
get_edges_total_example =
    get_edges_total 5 (dependencies given) rank_given feeds-given 1 (omega arith)

deps_getitem_iff_example :
    (needs (dependencies {K = ℕ} ((3, some 2) ∷ [])) 3 2 ≡ true)
    ↔ (Above (dependencies given) 2 2 × (feeds (dependencies given) 2 3 ≡ true))
deps_getitem_iff_example =
    deps_getitem_iff 9 (dependencies given) 2 (dependencies ((3, some 2) ∷ [])) getitem-given.0 3 2

dependencies-edges_roundtrip_example :
    ((a b : ℕ)
      → needs (dependencies (edges (dependencies given))) a b ≡ needs (dependencies given) a b)
    × ((k : ℕ)
        → has_key k (dependencies (edges (dependencies given))) ≡ has_key k (dependencies given))
dependencies-edges_roundtrip_example =
    dependencies-edges_roundtrip (dependencies given) (dependencies-WellFormed given)
