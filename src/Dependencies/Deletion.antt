-- ===== src/Dependencies/Deletion.antt =====
-- `del graph[key]` in the three views of a graph.
use heat.Prelude.{false, ◌||◌, ◌&&◌, ◌≡◌, Eq, ◌==◌, if◌then◌else◌, arith}
use heat.Dict.{has_key}
use heat.Dependencies.Graph.{Graph, node_at, touch, needs, feeds, remove_from_all, delitem}
use heat.Dependencies.Views.{
  node_at-delete, node_at-touch, has_key-delete, has_key-touch, needs-remove_from_all,
  feeds-remove_from_all, has_key-remove_from_all,
}

module _ {ℓ} {K : Type ℓ} ⦃e : Eq K⦄ where
  pub needs-touch : (k : K) (g : Graph K) (a b : K) → needs (touch k g) a b ≡ needs g a b
  unfolding needs
  needs-touch k g a b = ground (arith, node_at-touch k a g)

  pub feeds-touch : (k : K) (g : Graph K) (a b : K) → feeds (touch k g) a b ≡ feeds g a b
  unfolding feeds
  feeds-touch k g a b = ground (arith, node_at-touch k a g)

  module _ (key : K) (g : Graph K) where
    abbrev swept : Graph K
    swept = remove_from_all key (node_at key g).satisfy (touch key g)

    -- After `del graph[key]`, `a` requires `b` as before, except that `key` requires nothing and
    -- that the keys listed in the set `satisfy` of `key` do not require `key` any more.
    pub needs-delitem :
        (a b : K)
        → needs (delitem key g) a b
          ≡ (if key == a then false else if feeds g key a && key == b then false else needs g a b)
    unfolding needs feeds delitem
    needs-delitem a b = ground (
      arith,
      node_at-delete key a swept,
      needs-remove_from_all key (node_at key g).satisfy (touch key g) a b,
      needs-touch key g a b,
    )

    pub feeds-delitem :
        (a b : K) → feeds (delitem key g) a b ≡ (if key == a then false else feeds g a b)
    unfolding feeds delitem
    feeds-delitem a b = ground (
      arith,
      node_at-delete key a swept,
      feeds-remove_from_all key (node_at key g).satisfy (touch key g) a b,
      feeds-touch key g a b,
    )

    -- The keys after `del graph[key]`: without `key`, with every key of its set `satisfy`, and
    -- otherwise as before.
    pub has_key-delitem :
        (k : K)
        → has_key k (delitem key g) ≡ (if key == k then false else feeds g key k || has_key k g)
    unfolding feeds delitem
    has_key-delitem k = ground (
      arith,
      has_key-delete key k swept,
      has_key-touch key k g,
      has_key-remove_from_all key (node_at key g).satisfy (touch key g) k,
    )
