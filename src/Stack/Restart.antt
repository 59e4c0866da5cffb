-- ===== src/Stack/Restart.antt =====
-- `restart_resource` of a stack: all that requires a resource is deleted and created again. How each
-- `destroy` and each `create` ends is an argument; either ends well or by a ResourceFailure.
use heat.Prelude.{Bool, true, false, not, ◌||◌, List, [], ◌∷◌, if◌then◌else◌}

-- What is done to a resource in the second loop.
pub data Restarted : Type 0 where
  created creation_failed aborted : Restarted

module _ {K : Type 0} where
  -- `failed` behind the first loop, over `reversed(deps)`
  unfoldable pub destroy_all : (K → Bool) → Bool → List K → Bool
  destroy_all destroys failed [] = failed
  destroy_all destroys failed (res ∷ rest) =
      destroy_all destroys (if destroys res then failed else true) rest

  -- The second loop, over `deps`.
  unfoldable pub create_all : (K → Bool) → Bool → List K → List (K × Restarted)
  create_all creates failed [] = []
  create_all creates failed (res ∷ rest) =
      let done = if failed then aborted else (if creates res then created else creation_failed) in
      (res, done) ∷ create_all creates (failed || not (creates res)) rest

  -- `restart_resource`, given the two iterations of `self.dependencies[self[resource_name]]`
  unfoldable pub restart_resource :
      (destroys creates : K → Bool) → (reverse forward : List K) → List (K × Restarted)
  unfolding destroy_all create_all
  restart_resource destroys creates reverse forward =
      create_all creates (destroy_all destroys false reverse) forward
