-- ===== src/Store/Filters/Privacy.antt =====
-- internal/store/mock_store.go `matchesFilters`: sensitive memories, projects and users, times.
use openclaw_cortex.Base.{
  ℕ, String, true, false, not, Option, none, some, ◌≡◌, ◌≢◌, ◌⊎◌, refl, arith, ◌<◌, ◌≤◌, str_eq,
  eq_iff,
}
use openclaw_cortex.Models.{Memory}
use openclaw_cortex.Store.Filters.{SearchFilters, hidden, valid_now, matches_filters}

visible_of_match :
    {F : Type 0} (mem : Memory F) (f : Option SearchFilters)
    → matches_filters mem f ≡ true
    → hidden mem f ≡ false
unfolding matches_filters
visible_of_match mem none h = ground arith
visible_of_match mem (some f) h = ground arith

asked_for :
    (o : Option String)
    → (elim o [ none ↦ true | some v ↦ not (str_eq v "sensitive") ]) ≡ false
    → o ≡ some "sensitive"
asked_for none h = cc
asked_for (some v) h = ground (arith, eq_iff v "sensitive")

-- A sensitive memory matches only filters that ask for sensitive ones.
sensitive_only_on_request :
    {F : Type 0} (mem : Memory F) (f : Option SearchFilters)
    → mem.visibility ≡ "sensitive"
    → matches_filters mem f ≡ true
    → (g : SearchFilters) × (f ≡ some g) × (g.visibility ≡ some "sensitive")
unfolding hidden
sensitive_only_on_request mem none s h =
    absurd (ground (arith, visible_of_match mem none h, eq_iff mem.visibility "sensitive"))
sensitive_only_on_request mem (some f) s h = (
  f,
  refl,
  asked_for f.visibility
      (ground (arith, visible_of_match mem (some f) h, eq_iff mem.visibility "sensitive")),
)

-- A filter for one project and one user, who is named, matches memories of that project and user
-- alone.
matches_filters_isolates :
    {F : Type 0} (mem : Memory F) (f : SearchFilters) (p : String)
    → f.project ≡ some p
    → f.user_id ≢ ""
    → matches_filters mem (some f) ≡ true
    → (mem.project ≡ p) × (mem.user_id ≡ f.user_id)
unfolding matches_filters
matches_filters_isolates mem f p hp hu h =
    ground (arith, eq_iff mem.project p, eq_iff f.user_id "", eq_iff mem.user_id f.user_id)

-- A search as of a time matches only versions in force then.
as_of_in_force :
    {F : Type 0} (mem : Memory F) (f : SearchFilters) (t : ℕ)
    → f.as_of ≡ some t
    → matches_filters mem (some f) ≡ true
    → (mem.valid_from ≤ t) × ((mem.valid_to ≡ none) ⊎ ((u : ℕ) × (mem.valid_to ≡ some u) × (t < u)))
unfolding matches_filters valid_now
as_of_in_force mem f t ht h = ground arith
