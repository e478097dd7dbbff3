-- ===== src/Memgraph/Tests.antt =====
-- internal/memgraph: the theorems at concrete filters and memories.
use openclaw_cortex.Base.{ℕ, String, Bool, false, some, ◌≡◌, refl}
use openclaw_cortex.Store.Filters.{SearchFilters, no_filters, matches_filters}
use openclaw_cortex.Memgraph.Where.{build_where_clause, selected}
use openclaw_cortex.Memgraph.Where.Laws.{node, build_where_clause-matches_filters}
use openclaw_cortex.Samples.{memory_a}

-- Every time is written alike, and no string is before another.
abbrev written_time : ℕ → String
written_time t = "2026-01-01T00:00:00Z"

abbrev never_before : String → String → Bool
never_before a b = false

abbrev of_project : SearchFilters
of_project = record no_filters { project = some "p" }

abbrev at_time : SearchFilters
at_time = record no_filters { as_of = some 5 }

build_where_clause-matches_filters_example :
    selected never_before
      (build_where_clause written_time written_time (some of_project))
      (node written_time written_time never_before memory_a)
    ≡ matches_filters memory_a (some of_project)
build_where_clause-matches_filters_example =
    build_where_clause-matches_filters written_time written_time never_before memory_a of_project
      (λ t. refl) refl refl refl
