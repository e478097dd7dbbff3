-- ===== src/Memgraph/Where/Laws.antt =====
-- internal/memgraph/store.go `buildWhereClause` against `matchesFilters` of
-- internal/store/mock_store.go.
use openclaw_cortex.Base.{
  ℕ, String, Bool, true, false, not, ◌&&◌, ◌||◌, Option, none, some, List, [], ◌∷◌, ◌++◌, map, any,
  all, if◌then◌else◌, ◌≡◌, refl, ap, ◌∙◌, arith, Option-cases, inl, inr, str_eq,
}
use openclaw_cortex.Models.{Memory}
use openclaw_cortex.Store.Filters.{
  SearchFilters, agrees, hidden, valid_now, in_window, matches_filters,
}
use openclaw_cortex.Memgraph.Where.{
  Clause, Property, Node, is, is_not, has_tag, equals, requests_sensitive, property_clauses,
  validity_clauses, window_clauses, build_where_clause, written, memory_to_node, holds, selected,
  type_of, scope_of, visibility_of, project_of, source_of, user_id_of, conflict_status_of,
}

all-append :
    {A : Type 0} (p : A → Bool) (xs ys : List A) → all p (xs ++ ys) ≡ (all p xs && all p ys)
all-append p [] ys = refl
all-append p (x ∷ xs) ys = ground (arith, all-append p xs ys)

all-map :
    {A B : Type 0} (p : B → Bool) (f : A → B) (xs : List A)
    → all p (map f xs) ≡ all (λ x. p (f x)) xs
all-map p f [] = refl
all-map p f (x ∷ xs) = ground (arith, all-map p f xs)

module _ (seconds nanos : ℕ → String) (before : String → String → Bool) {F : Type 0}
    (m : Memory F) where
  abbrev pub node : Node
  node = memory_to_node seconds nanos m

  -- The conditions without filters hold of a memory exactly where it is not sensitive, also where
  -- it is no longer valid.
  build_where_clause-no_filters :
      selected before (build_where_clause seconds nanos none) node
      ≡ not (str_eq m.visibility "sensitive")
  unfolding build_where_clause selected holds memory_to_node
  build_where_clause-no_filters = ground arith

  skip : {A : Type 0} (p : A → Bool) (xs ys : List A) → all p ys ≡ false → all p (xs ++ ys) ≡ false
  skip p xs ys h = all-append p xs ys ∙ rw h (ground arith)

  -- The conditions of a filter by the time, for a version without an end.
  validity-as_of :
      (f : SearchFilters) (t : ℕ)
      → ((x : String) → before x "" ≡ false)
      → f.as_of ≡ some t
      → m.valid_to ≡ none
      → all (holds before node) (validity_clauses seconds nanos f) ≡ false
  unfolding validity_clauses holds memory_to_node
  validity-as_of f t least e u =
      rw (e, validity_clauses) (rw (u, memory_to_node) (ground (arith, least (seconds t))))

  -- The conditions of a filter with AsOf hold of no version that is still valid, if no string is
  -- before the empty one.
  build_where_clause-as_of :
      (f : SearchFilters) (t : ℕ)
      → ((x : String) → before x "" ≡ false)
      → f.as_of ≡ some t
      → m.valid_to ≡ none
      → selected before (build_where_clause seconds nanos (some f)) node ≡ false
  unfolding build_where_clause selected
  build_where_clause-as_of f t least e u =
      let p = holds before node in
      let own = property_clauses seconds nanos f in
      let valid = validity_clauses seconds nanos f in
      all-append p (own ++ valid) (window_clauses seconds nanos f)
      ∙ rw (skip p own valid (validity-as_of f t least e u)) refl

  -- The conditions of one filter.
  module _ (f : SearchFilters) where
    joined :
        {a b : Bool} (xs ys : List Clause)
        → all (holds before node) xs ≡ a
        → all (holds before node) ys ≡ b
        → all (holds before node) (xs ++ ys) ≡ (a && b)
    joined xs ys h k = all-append (holds before node) xs ys ∙ rw (h, k) refl

    equals-agrees :
        (p : Property) (o : Option String)
        → all (holds before node) (equals seconds nanos p o) ≡ agrees o (written seconds nanos m p)
    unfolding holds memory_to_node
    equals-agrees p none = refl
    equals-agrees p (some v) = ground arith

    sensitive-hidden :
        all
          (holds before node)
          (if requests_sensitive seconds nanos f then [] else is_not visibility_of "sensitive" ∷ [])
        ≡ not (hidden m (some f))
    unfolding holds memory_to_node hidden
    sensitive-hidden = elim (Option-cases (f.visibility)) [
      | inl e ↦ rw (e, hidden) (ground arith)
      | inr (v, e) ↦ rw (e, hidden) (ground arith)
    ]

    user-agrees :
        all (holds before node) (if str_eq f.user_id "" then [] else is user_id_of f.user_id ∷ [])
        ≡ (str_eq f.user_id "" || str_eq m.user_id f.user_id)
    unfolding holds memory_to_node
    user-agrees = ground arith

    tags-hold :
        (tags : List String)
        → all (holds before node) (map has_tag tags)
          ≡ all (λ required. any (λ t. str_eq t required) m.tags) tags
    unfolding holds memory_to_node
    tags-hold [] = refl
    tags-hold (t ∷ ts) = rw (tags-hold ts) refl

    properties-hold : all (holds before node) (property_clauses seconds nanos f) ≡ (
        not (hidden m (some f))
        && agrees f.type m.type
        && agrees f.scope m.scope
        && agrees f.visibility m.visibility
        && agrees f.project m.project
        && agrees f.source m.source
        && (str_eq f.user_id "" || str_eq m.user_id f.user_id)
        && agrees f.conflict_status m.conflict_status
        && all (λ required. any (λ t. str_eq t required) m.tags) f.tags)
    unfolding property_clauses
    properties-hold =
        joined _ (map has_tag f.tags)
          (joined _ (equals seconds nanos conflict_status_of f.conflict_status)
            (joined _ (if str_eq f.user_id "" then [] else is user_id_of f.user_id ∷ [])
              (joined _ (equals seconds nanos source_of f.source)
                (joined _ (equals seconds nanos project_of f.project)
                  (joined _ (equals seconds nanos visibility_of f.visibility)
                    (joined _ (equals seconds nanos scope_of f.scope)
                      (joined _ (equals seconds nanos type_of f.type) sensitive-hidden
                        (equals-agrees type_of f.type))
                      (equals-agrees scope_of f.scope))
                    (equals-agrees visibility_of f.visibility))
                  (equals-agrees project_of f.project))
                (equals-agrees source_of f.source))
              user-agrees)
            (equals-agrees conflict_status_of f.conflict_status))
          (tags-hold f.tags)

    validity-now :
        ((t : ℕ) → str_eq (nanos t) "" ≡ false)
        → f.as_of ≡ none
        → all (holds before node) (validity_clauses seconds nanos f) ≡ valid_now m f
    unfolding validity_clauses holds memory_to_node valid_now
    validity-now dated e = elim (Option-cases (m.valid_to)) [
      | inl u ↦ rw (e, validity_clauses, valid_now) (rw (u, memory_to_node) (ground arith))
      | inr (t, u) ↦
          rw (e, validity_clauses, valid_now) (rw (u, memory_to_node) (ground (arith, dated t)))
    ]

    reordered :
        (x s u c t v : Bool)
        → (x && s && u && c && t && v && true) ≡ (x && u && s && t && c && v && true)
    reordered x s u c t v = ground arith

    window_clauses-none :
        f.valid_before ≡ none
        → f.valid_after ≡ none
        → (window_clauses seconds nanos f ≡ []) × (in_window m f ≡ true)
    unfolding window_clauses in_window
    window_clauses-none b a = (ground (arith, b, a), ground (arith, b, a))

    -- For a filter without AsOf, ValidBefore and ValidAfter the conditions of buildWhereClause hold
    -- of the node of a memory exactly where matchesFilters holds of the memory, if no time is
    -- written as the empty string.
    pub build_where_clause-matches_filters :
        ((t : ℕ) → str_eq (nanos t) "" ≡ false)
        → f.as_of ≡ none
        → f.valid_before ≡ none
        → f.valid_after ≡ none
        → selected before (build_where_clause seconds nanos (some f)) node
          ≡ matches_filters m (some f)
    unfolding build_where_clause selected matches_filters
    build_where_clause-matches_filters dated e b a =
        let own = property_clauses seconds nanos f in
        let valid = validity_clauses seconds nanos f in
        let (no_clause, in_any) = window_clauses-none b a in
        joined (own ++ valid) (window_clauses seconds nanos f)
          (joined own valid properties-hold (validity-now dated e))
          (ap (all (holds before node)) no_clause)
        ∙ rw in_any (
            reordered
              (not (hidden m (some f))
                && agrees f.type m.type
                && agrees f.scope m.scope
                && agrees f.visibility m.visibility
                && agrees f.project m.project)
              (agrees f.source m.source) (str_eq f.user_id "" || str_eq m.user_id f.user_id)
              (agrees f.conflict_status m.conflict_status)
              (all (λ required. any (λ t. str_eq t required) m.tags) f.tags) (valid_now m f))
