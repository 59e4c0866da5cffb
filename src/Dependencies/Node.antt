-- ===== src/Dependencies/Node.antt =====
-- `Node` of dependencies.py. A set of keys is a list; `require` and `satisfy` are the two edge sets.
use heat.Prelude.{Bool, not, ◌&&◌, List, [], ◌∷◌, Eq, set_add, set_discard, true, false}

pub record Node {ℓ} (K : Type ℓ) : Type ℓ where
  pub require : List K
  pub satisfy : List K

abbrev pub is_nonempty {ℓ} : {A : Type ℓ} → List A → Bool
is_nonempty [] = false
is_nonempty (x ∷ xs) = true

module _ {ℓ} {K : Type ℓ} where
  -- `Node()`
  abbrev pub new_node : Node K
  new_node = record { require = []; satisfy = [] }

  -- `node.reverse_copy()`
  abbrev pub Node_reverse_copy : Node K → Node K
  Node_reverse_copy n = record { require = n.satisfy; satisfy = n.require }

  -- `bool(node)`: the node is not a leaf.
  abbrev pub nonzero : Node K → Bool
  nonzero n = is_nonempty n.require

  abbrev pub stem : Node K → Bool
  stem n = not (is_nonempty n.satisfy)

  abbrev pub disjoint : Node K → Bool
  disjoint n = not (nonzero n) && stem n

module _ {ℓ} {K : Type ℓ} ⦃e : Eq K⦄ where
  -- `node.required_by(source)`
  abbrev pub required_by : K → Node K → Node K
  required_by source n = record n { satisfy = set_add source n.satisfy }

  -- `node.requires(target)`
  abbrev pub requires : K → Node K → Node K
  requires target n = record n { require = set_add target n.require }

  -- `node -= target`, of a target that is there
  abbrev pub isub : K → Node K → Node K
  isub target n = record n { require = set_discard target n.require }
