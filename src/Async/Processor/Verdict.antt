-- ===== src/Async/Processor/Verdict.antt =====
-- internal/async/worker.go: which items the pool tries again.
use openclaw_cortex.Base.{
  ℕ, String, Option, none, some, List, [], ◌∷◌, ◌≡◌, refl, ap, length, Bool-cases, inl, inr,
}
use openclaw_cortex.Async.Wal.{WorkItem}
use openclaw_cortex.Async.Queue.{Queue, Disk, complete}
use openclaw_cortex.Async.Pool.{Pool, Surroundings, completed, settle}
use openclaw_cortex.Async.Processor.{memory_of, verdict, process}
use openclaw_cortex.Extract.Entities.{CapturedEntity, extract}
use openclaw_cortex.Extract.Run.{Gathered, Deps, add_entities, entities_of, run_deps, run}

module _ {F S : Type 0} (failure : ℕ → String → String) (d : Deps F S) where
  -- Every entity that is counted has its name gathered, and no error is counted.
  pub record Counted (g : Gathered S) : Type 0 where
    pub by_name : g.entities_extracted ≡ length g.names
    pub faultless : g.errors ≡ 0

  idle :
      (item : WorkItem) (s : S)
      → d.extract_entities 0 item.content ≡ some []
      → run_deps d (memory_of item ∷ []) s
        ≡ (s, record { entities_extracted = 0; facts_extracted = 0; errors = 0 })
  unfolding run_deps add_entities
  idle item s n = elim (Bool-cases (d.ended_first 0)) [
    | inl e ↦ rw e refl
    | inr e ↦ rw e (rw (n, entities_of) refl)
  ]

module _ {F S : Type 0} (failure : ℕ → String → String) (d : Deps F S) (now : ℕ)
    (new_id : ℕ → String) (model : String → Option String)
    (unmarshal : String → Option (List CapturedEntity)) where
  abbrev pub with_model : Deps F S
  with_model = record d { extract_entities = λ i. extract now new_id model unmarshal }

  -- If the call of the model about the entities of an item fails, Process changes nothing in the
  -- stores, and the worker marks the item as completed.
  pub process-outage :
      (disk : Disk) (p : Pool) (env : Surroundings) (item : WorkItem) (q : Queue) (s : S)
      → model item.content ≡ none
      → let (t, r) = process failure (some with_model) item s in
        (t ≡ s)
        × (settle disk p env r item q ≡ (complete disk env.append_io item.id env.now q, completed))
  unfolding process run settle verdict extract
  process-outage disk p env item q s h =
      let same = idle failure with_model item s (rw (h, extract) refl) in
      (ap (λ r. r.0) same, ap (λ r. settle disk p env (verdict failure item r.1) item q) same)
