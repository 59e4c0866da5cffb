-- ===== src/Dependencies/Views.antt =====
-- What each operation of `Graph` does to the three views of a graph: which keys it has, which keys
-- a key requires (`needs`) and which keys require it (`feeds`).
use heat.Prelude.{
  false, ◌||◌, ◌&&◌, ◌≡◌, refl, List, [], ◌∷◌, Eq, ◌==◌, member, member-set_add, ◌∙◌,
  member-set_discard, if◌then◌else◌, arith,
}
use heat.Dict.{put, delete, has_key, lookup-put, lookup-delete}
use heat.Dependencies.Node.{Node, new_node, required_by, requires, isub}
use heat.Dependencies.Graph.{
  Graph, node_at, touch, add_satisfy, add_require, needs, feeds, remove_from, remove_from_all,
}

module _ {ℓ} {K : Type ℓ} ⦃e : Eq K⦄ where
  pub node_at-put :
      (k j : K) (n : Node K) (g : Graph K)
      → node_at j (put k n g) ≡ (if k == j then n else node_at j g)
  node_at-put k j n g = ground (arith, lookup-put k j n g)

  pub node_at-delete :
      (k j : K) (g : Graph K) → node_at j (delete k g) ≡ (if k == j then new_node else node_at j g)
  node_at-delete k j g = ground (arith, lookup-delete k j g)

  pub has_key-put :
      (k j : K) (n : Node K) (g : Graph K) → has_key j (put k n g) ≡ (k == j || has_key j g)
  has_key-put k j n g = ground (arith, lookup-put k j n g)

  pub has_key-delete :
      (k j : K) (g : Graph K) → has_key j (delete k g) ≡ (if k == j then false else has_key j g)
  has_key-delete k j g = ground (arith, lookup-delete k j g)

  -- A read of a defaultdict changes no node.
  pub node_at-touch : (k j : K) (g : Graph K) → node_at j (touch k g) ≡ node_at j g
  unfolding touch
  node_at-touch k j g = ground (arith, lookup-put k j new_node g, e.beq_iff k j)

  pub has_key-touch : (k j : K) (g : Graph K) → has_key j (touch k g) ≡ (k == j || has_key j g)
  unfolding touch
  has_key-touch k j g = ground (arith, lookup-put k j new_node g, e.beq_iff k j)

  pub needs-add_require :
      (r q : K) (g : Graph K) (a b : K)
      → needs (add_require r q g) a b ≡ (r == a && b == q || needs g a b)
  unfolding needs add_require
  needs-add_require r q g a b = ground (
    arith,
    node_at-put r a (requires q (node_at r g)) g,
    e.beq_iff r a,
    member-set_add b q (node_at r g).require,
  )

  pub feeds-add_require :
      (r q : K) (g : Graph K) (a b : K) → feeds (add_require r q g) a b ≡ feeds g a b
  unfolding feeds add_require
  feeds-add_require r q g a b =
      ground (arith, node_at-put r a (requires q (node_at r g)) g, e.beq_iff r a)

  pub needs-add_satisfy :
      (q r : K) (g : Graph K) (a b : K) → needs (add_satisfy q r g) a b ≡ needs g a b
  unfolding needs add_satisfy
  needs-add_satisfy q r g a b =
      ground (arith, node_at-put q a (required_by r (node_at q g)) g, e.beq_iff q a)

  pub feeds-add_satisfy :
      (q r : K) (g : Graph K) (a b : K)
      → feeds (add_satisfy q r g) a b ≡ (q == a && b == r || feeds g a b)
  unfolding feeds add_satisfy
  feeds-add_satisfy q r g a b = ground (
    arith,
    node_at-put q a (required_by r (node_at q g)) g,
    e.beq_iff q a,
    member-set_add b r (node_at q g).satisfy,
  )

  pub has_key-add_require :
      (r q : K) (g : Graph K) (k : K) → has_key k (add_require r q g) ≡ (r == k || has_key k g)
  unfolding add_require
  has_key-add_require r q g k = has_key-put r k _ g

  pub has_key-add_satisfy :
      (q r : K) (g : Graph K) (k : K) → has_key k (add_satisfy q r g) ≡ (q == k || has_key k g)
  unfolding add_satisfy
  has_key-add_satisfy q r g k = has_key-put q k _ g

  pub needs-remove_from :
      (key src : K) (g : Graph K) (a b : K)
      → needs (remove_from key src g) a b ≡ (if src == a && key == b then false else needs g a b)
  unfolding needs remove_from
  needs-remove_from key src g a b = ground (
    arith,
    node_at-put src a (isub key (node_at src g)) g,
    e.beq_iff src a,
    e.beq_iff key b,
    member-set_discard b key (node_at src g).require,
    node_at-touch src a g,
  )

  pub feeds-remove_from :
      (key src : K) (g : Graph K) (a b : K) → feeds (remove_from key src g) a b ≡ feeds g a b
  unfolding feeds remove_from
  feeds-remove_from key src g a b = ground (
    arith,
    node_at-put src a (isub key (node_at src g)) g,
    e.beq_iff src a,
    node_at-touch src a g,
  )

  pub has_key-remove_from :
      (key src : K) (g : Graph K) (k : K)
      → has_key k (remove_from key src g) ≡ (src == k || has_key k g)
  unfolding remove_from
  has_key-remove_from key src g k =
      ground (arith, has_key-put src k (isub key (node_at src g)) g, has_key-touch src k g)

  pub needs-remove_from_all :
      (key : K) (srcs : List K) (g : Graph K) (a b : K)
      → needs (remove_from_all key srcs g) a b
        ≡ (if member a srcs && key == b then false else needs g a b)
  unfolding remove_from_all
  needs-remove_from_all key [] g a b = refl
  needs-remove_from_all key (src ∷ rest) g a b = ground (
    arith,
    needs-remove_from_all key rest (remove_from key src g) a b,
    needs-remove_from key src g a b,
    e.beq_iff src a,
    e.beq_iff a src,
  )

  pub feeds-remove_from_all :
      (key : K) (srcs : List K) (g : Graph K) (a b : K)
      → feeds (remove_from_all key srcs g) a b ≡ feeds g a b
  unfolding remove_from_all
  feeds-remove_from_all key [] g a b = refl
  feeds-remove_from_all key (src ∷ rest) g a b =
      feeds-remove_from_all key rest (remove_from key src g) a b ∙ feeds-remove_from key src g a b

  pub has_key-remove_from_all :
      (key : K) (srcs : List K) (g : Graph K) (k : K)
      → has_key k (remove_from_all key srcs g) ≡ (member k srcs || has_key k g)
  unfolding remove_from_all
  has_key-remove_from_all key [] g k = refl
  has_key-remove_from_all key (src ∷ rest) g k = ground (
    arith,
    has_key-remove_from_all key rest (remove_from key src g) k,
    has_key-remove_from key src g k,
    e.beq_iff src k,
    e.beq_iff k src,
  )
