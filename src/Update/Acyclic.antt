-- ===== src/Update/Acyclic.antt =====
-- What waits for what in the update of a stack, and that the wait is never in a circle.
use heat.Prelude.{
  ℕ, ◌+◌, ◌<◌, true, false, ◌||◌, ◌&&◌, ◌≡◌, ◌∙◌, ◌↔◌, ◌⊎◌, inl, inr, [], ◌∷◌, ◌++◌, none, some, Eq,
  ◌==◌, arith, Bool-cases, Option-cases, beq_refl, if◌then◌else◌, length,
}
use heat.Dict.{Dict, lookup, has_key, IsDict}
use heat.Dependencies.Graph.{Graph, needs, feeds, edges, reverse_copy, toposort}
use heat.Dependencies.Deps.{deps_graph, deps_iter}
use heat.Dependencies.Shape.{
  WellFormed, has_key_of_needs, has_key_of_feeds, has_key_of_required, dependencies-WellFormed,
}
use heat.Dependencies.Order.{IsSorted, toposort-Outcome}
use heat.Dependencies.Cycles.{
  IsRanked, position, IsRanked-position, IsSorted-of_finished, toposort-finishes_iff,
}
use heat.Dependencies.Edges.{
  says_needs, says_needs-append, dependencies-edges, needs-reverse_copy, reverse_copy-WellFormed,
}
use heat.Dependencies.Listing.{says_needs-edges}
use heat.Dependencies.Reversal.{position-le-length, mirror}
use heat.Update.Edges.{replacements, update_edges, update_dependencies}

module _ {Name Res : Type 0} ⦃n : Eq Name⦄ ⦃e : Eq Res⦄ where
  -- `new_res` has the name in the new stack that `res` has in the existing one.
  abbrev pub Replaces : Dict Name Res → Dict Name Res → Res → Res → Type 0
  Replaces existing_stack new_stack res new_res =
      (name : Name) × (lookup name existing_stack ≡ some res)
      × (lookup name new_stack ≡ some new_res)

  lookup-behind :
      (name nm : Name) (res a : Res) (rest : Dict Name Res)
      → lookup name rest ≡ none
      → lookup nm rest ≡ some a
      → lookup nm ((name, res) ∷ rest) ≡ some a
  unfolding lookup
  lookup-behind name nm res a rest missing p = ground (arith, n.beq_iff name nm)

  replacements-Replaces :
      (existing_stack new_stack : Dict Name Res)
      → IsDict existing_stack
      → (a b : Res) → says_needs (replacements existing_stack new_stack) a b ≡ true
      → Replaces existing_stack new_stack a b
  unfolding replacements lookup
  replacements-Replaces [] new_stack d a b h = absurd (ground arith)
  replacements-Replaces ((name, res) ∷ rest) new_stack d a b h =
      elim (Option-cases (lookup name new_stack)) [
        | inl gone ↦
            let (nm, p, q) = replacements-Replaces rest new_stack d.1 a b (ground arith) in
            (nm, lookup-behind name nm res a rest d.0 p, q)
        | inr (new_res, found) ↦ elim (Bool-cases (res == a && b == new_res)) [
          | inl here ↦ (
            name,
            ground (arith, n.beq_iff name name, e.beq_iff res a),
            ground (arith, e.beq_iff b new_res),
          )
          | inr other ↦
              let (nm, p, q) = replacements-Replaces rest new_stack d.1 a b (ground arith) in
              (nm, lookup-behind name nm res a rest d.0 p, q)
        ]
      ]

  says_needs_of_Replaces :
      (existing_stack new_stack : Dict Name Res) (a b : Res) (name : Name)
      → lookup name existing_stack ≡ some a
      → lookup name new_stack ≡ some b
      → says_needs (replacements existing_stack new_stack) a b ≡ true
  unfolding replacements lookup
  says_needs_of_Replaces [] new_stack a b name p q = absurd (ground arith)
  says_needs_of_Replaces ((nm, res) ∷ rest) new_stack a b name p q = ground (
    arith,
    says_needs_of_Replaces rest new_stack a b name,
    n.beq_iff nm name,
    beq_refl a,
    beq_refl b,
  )

  module _ (new_deps existing_deps : Graph Res) (existing_stack new_stack : Dict Name Res)
      (new_wf : WellFormed new_deps) (existing_wf : WellFormed existing_deps)
      (names : IsDict existing_stack) where
    says_needs-update_edges :
        (a b : Res)
        → says_needs (update_edges new_deps existing_deps existing_stack new_stack) a b ≡ (
            needs new_deps a b
            || feeds existing_deps a b
            || says_needs (replacements existing_stack new_stack) a b)
    unfolding update_edges deps_graph
    says_needs-update_edges a b =
        says_needs-append (edges new_deps ++ edges (reverse_copy existing_deps))
          (replacements existing_stack new_stack) a b
        ∙ ground (
          arith,
          says_needs-append (edges new_deps) (edges (reverse_copy existing_deps)) a b,
          says_needs-edges new_deps new_wf.distinct a b,
          says_needs-edges (reverse_copy existing_deps)
              (reverse_copy-WellFormed existing_deps existing_wf).distinct a b,
          needs-reverse_copy existing_deps a b,
        )

    -- In the update of a stack whose existing and new dependencies are well formed, the names in the
    -- existing stack being distinct, one operation waits for another in three cases: both are of the new
    -- stack and the one requires the other there; both are of the existing stack and the other
    -- requires the one there; or the one cleans up what the other replaces.
    pub update_dependencies_iff :
        (a b : Res)
        → (needs (update_dependencies new_deps existing_deps existing_stack new_stack) a b ≡ true)
          ↔ ((needs new_deps a b ≡ true)
              ⊎ (feeds existing_deps a b ≡ true)
              ⊎ Replaces existing_stack new_stack a b)
    unfolding update_dependencies
    update_dependencies_iff a b =
        let built =
          (dependencies-edges (update_edges new_deps existing_deps existing_stack new_stack)).0 a
            b in
        let said = says_needs-update_edges a b in
        (
          λ h. elim (Bool-cases (needs new_deps a b)) [
            | inl of_new ↦ inl of_new
            | inr not_new ↦ elim (Bool-cases (feeds existing_deps a b)) [
              | inl of_existing ↦ inr (inl of_existing)
              | inr neither ↦ inr (
                  inr (
                    replacements-Replaces existing_stack new_stack names a b
                      (ground (arith, built, said))))
            ]
          ],
          λ c. elim c [
            | inl of_new ↦ ground (arith, built, said)
            | inr (inl of_existing) ↦ ground (arith, built, said)
            | inr (inr (name, p, q)) ↦
                ground
                  (arith, built, said, says_needs_of_Replaces existing_stack new_stack a b name p q)
          ],
        )

    module _ (new_ends : (deps_iter new_deps).1 ≡ none)
        (existing_ends : (deps_iter existing_deps).1 ≡ none)
        (apart : (k : Res) → has_key k new_deps ≡ true → has_key k existing_deps ≡ false)
        (existing_known : (name : Name) (res : Res)
          → lookup name existing_stack ≡ some res
          → has_key res existing_deps ≡ true)
        (new_known : (name : Name) (res : Res)
          → lookup name new_stack ≡ some res
          → has_key res new_deps ≡ true) where
      -- The place of a resource of the new stack in its order, and behind all of them a rank of the
      -- reversed existing stack.
      update_rank : (Res → ℕ) → Res → ℕ
      update_rank cleanup k =
          if has_key k existing_deps
          then length (deps_iter new_deps).0 + 1 + cleanup k
          else position k (deps_iter new_deps).0

      new-IsSorted : IsSorted new_deps (deps_iter new_deps).0
      unfolding deps_iter
      new-IsSorted =
          IsSorted-of_finished new_deps (toposort new_deps) (toposort-Outcome new_deps new_wf)
            new_ends

      update_rank-new :
          (cleanup : Res → ℕ) (a b : Res)
          → needs new_deps a b ≡ true
          → update_rank cleanup b < update_rank cleanup a
      unfolding update_rank
      update_rank-new cleanup a b h = ground (
        arith,
        IsRanked-position new_deps (deps_iter new_deps).0 new-IsSorted a b h,
        apart a (has_key_of_needs new_deps a b h),
        apart b (has_key_of_required new_wf a b h),
      )

      update_rank-existing :
          (cleanup : Res → ℕ)
          → IsRanked (reverse_copy existing_deps) cleanup
          → (a b : Res) → feeds existing_deps a b ≡ true
          → update_rank cleanup b < update_rank cleanup a
      unfolding update_rank
      update_rank-existing cleanup ranked a b h = ground (
        arith,
        ranked a b (needs-reverse_copy existing_deps a b ∙ h),
        has_key_of_feeds existing_deps a b h,
        has_key_of_needs existing_deps b a (existing_wf.symmetric b a ∙ h),
      )

      update_rank-replaced :
          (cleanup : Res → ℕ) (a b : Res)
          → Replaces existing_stack new_stack a b
          → update_rank cleanup b < update_rank cleanup a
      unfolding update_rank
      update_rank-replaced cleanup a b (name, p, q) = ground (
        arith,
        existing_known name a p,
        apart b (new_known name b q),
        position-le-length b (deps_iter new_deps).0,
      )

      update_dependencies-IsRanked :
          (cleanup : Res → ℕ)
          → IsRanked (reverse_copy existing_deps) cleanup
          → IsRanked
              (update_dependencies new_deps existing_deps existing_stack new_stack)
              (update_rank cleanup)
      update_dependencies-IsRanked cleanup ranked a b h = elim ((update_dependencies_iff a b).0 h) [
        | inl of_new ↦ update_rank-new cleanup a b of_new
        | inr (inl of_existing) ↦ update_rank-existing cleanup ranked a b of_existing
        | inr (inr replaced) ↦ update_rank-replaced cleanup a b replaced
      ]

      update_dependencies-WellFormed :
          WellFormed (update_dependencies new_deps existing_deps existing_stack new_stack)
      unfolding update_dependencies
      update_dependencies-WellFormed =
          dependencies-WellFormed (update_edges new_deps existing_deps existing_stack new_stack)

      -- If the dependencies of the existing stack and those of the new one are well formed and have
      -- no cycle, no resource is of both, the names in the existing stack are distinct, and each
      -- stack's dependencies mention its resources, then the update is ordered without a
      -- CircularDependencyException: every operation once, behind all that it waits for.
      pub deps_iter-update_dependencies :
          ((deps_iter (update_dependencies new_deps existing_deps existing_stack new_stack)).1
            ≡ none)
          × IsSorted
              (update_dependencies new_deps existing_deps existing_stack new_stack)
              (deps_iter (update_dependencies new_deps existing_deps existing_stack new_stack)).0
      unfolding deps_iter
      deps_iter-update_dependencies =
          let update = update_dependencies new_deps existing_deps existing_stack new_stack in
          let wf = update_dependencies-WellFormed in
          let existing_rank = (toposort-finishes_iff existing_deps existing_wf).0 existing_ends in
          let (cleanup, ranked) = mirror existing_deps existing_wf existing_rank in
          let ends =
            (toposort-finishes_iff update wf).1
              (update_rank cleanup, update_dependencies-IsRanked cleanup ranked) in
          (ends, IsSorted-of_finished update (toposort update) (toposort-Outcome update wf) ends)
