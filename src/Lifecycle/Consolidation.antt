-- ===== src/Lifecycle/Consolidation.antt =====
-- internal/lifecycle/lifecycle.go `consolidate`.
pub mod Champion
use openclaw_cortex.Base.{
  ℕ, zero, suc, ◌+◌, String, Bool, true, false, not, ◌&&◌, ◌||◌, Option, none, some, List, [], ◌∷◌,
  ◌++◌, map, ltb, ◌==◌, if◌then◌else◌, length, any, Map, lookup, insert, str_eq,
}
use openclaw_cortex.Base.Float.{Float}
use openclaw_cortex.Models.{Memory}
use openclaw_cortex.Store.Mock.{cosine_similarity}
use openclaw_cortex.Lifecycle.{Access, list_all, scoped}

module _ {S : Type 0} (fl : Float) (access : Access (fl.Number) S) where
  open fl use {Number, lit, minus, lt}

  abbrev pub Embedded : Type 0
  Embedded = Memory Number × List Number

  abbrev pub is_deleted : List String → Embedded → Bool
  is_deleted deleted (m, v) = any (λ id. str_eq id m.id) deleted

  -- Above 0.92, the test of the inner loop.
  abbrev pub near : Embedded → Embedded → Bool
  near (m, v) (n, w) = lt (lit 92 2) (cosine_similarity fl v w)

  -- `if !dryRun { delete }`; `false` when that fails.
  abbrev pub drop_memory : Bool → String → S → S × Bool
  drop_memory true id s = (s, true)
  drop_memory false id s = access.delete id s

  -- The inner loop with the anchor `a`: the store, the deleted ids and the count.
  unfoldable pub merge_with :
      Bool → Embedded → List Embedded → List String → ℕ → S → S × List String × ℕ
  merge_with dry_run a [] deleted n s = (s, deleted, n)
  merge_with dry_run a (b ∷ bs) deleted n s = elim (is_deleted deleted b || not (near a b)) [
    | true ↦ merge_with dry_run a bs deleted n s
    | false ↦ elim (lt a.0.confidence b.0.confidence) [
      | true ↦
          (let (s', ok) = drop_memory dry_run a.0.id s in
            elim ok [
              | false ↦ merge_with dry_run a bs deleted n s'
              | true ↦ (s', a.0.id ∷ deleted, suc n)
            ])
      | false ↦
          (let (s', ok) = drop_memory dry_run b.0.id s in
            elim ok [
              | false ↦ merge_with dry_run a bs deleted n s'
              | true ↦ merge_with dry_run a bs (b.0.id ∷ deleted) (suc n) s'
            ])
    ]
  ]

  unfoldable pub merge_all : Bool → List Embedded → List String → ℕ → S → S × List String × ℕ
  unfolding merge_with
  merge_all dry_run [] deleted n s = (s, deleted, n)
  merge_all dry_run (a ∷ bs) deleted n s = elim (is_deleted deleted a) [
    | true ↦ merge_all dry_run bs deleted n s
    | false ↦
        (let (s', deleted', n') = merge_with dry_run a bs deleted n s in
          merge_all dry_run bs deleted' n' s')
  ]

  abbrev pub zip : List (Memory Number) → List (List Number) → List Embedded
  zip (m ∷ ms) (v ∷ vs) = (m, v) ∷ zip ms vs
  zip _ _ = []

  -- The embedder is an argument: `none` where none is configured.
  unfoldable pub consolidate :
      Option (List String → Option (List (List Number))) → Bool → S → S × ℕ × Bool
  unfolding list_all merge_all
  consolidate none dry_run s = (s, 0, true)
  consolidate (some embed_batch) dry_run s = elim (list_all access (scoped "permanent") s) [
    | some (some []) ↦ (s, 0, true)
    | some (some ms) ↦ elim (embed_batch (map (λ m. m.content) ms)) [
      | none ↦ (s, 0, false)
      | some vecs ↦
          if not (length vecs == length ms)
          then (s, 0, false)
          else (let (t, deleted, n) = merge_all dry_run (zip ms vecs) [] 0 s in (t, n, true))
    ]
    | _ ↦ (s, 0, false)
  ]
