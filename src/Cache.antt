-- ===== src/Cache.antt =====
-- internal/schema/cache.go: the graph that requests read, replaced as a whole, with its generation.
use pogo.Prelude.{ℕ, ◌+◌, Option, none, some, u64}

-- The pointer to `cacheState`, which is nil before the first graph.
abbrev pub Cache : Type 0 → Type 0
Cache G = Option (G × ℕ)

module _ {G : Type 0} where
  unfoldable pub load : Cache G → Option G × ℕ
  load none = (none, 0)
  load (some (graph, generation)) = (some graph, generation)

  abbrev pub generation_of : Cache G → ℕ
  generation_of none = 0
  generation_of (some (graph, generation)) = generation

  unfoldable pub replace : Cache G → Option G → Cache G × ℕ
  replace cache none = (cache, generation_of cache)
  replace cache (some graph) =
      let generation = u64 (generation_of cache + 1) in (some (graph, generation), generation)
