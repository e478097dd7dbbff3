-- ===== src/Async/Processor.antt =====
-- internal/async/worker.go `GraphProcessor`: the extraction that the pool runs for an item.
pub mod Verdict
use openclaw_cortex.Base.{
  ℕ, String, Bool, ◌&&◌, Option, none, some, [], ◌∷◌, ltb, ◌==◌, if◌then◌else◌,
}
use openclaw_cortex.Async.Wal.{WorkItem}
use openclaw_cortex.Async.Pool.{Processed, succeeded, refused}
use openclaw_cortex.Extract.Run.{StoredMemory, Result, Deps, run}

abbrev pub memory_of : WorkItem → StoredMemory
memory_of item = record { id = item.memory_id; content = item.content }

-- Only a run with errors that has extracted nothing is an error. `failure` formats its text.
unfoldable pub verdict : (ℕ → String → String) → WorkItem → Result → Processed
verdict failure item r =
    if ltb 0 r.errors && r.entities_extracted == 0 && r.facts_extracted == 0
    then refused (failure r.errors item.memory_id)
    else succeeded

-- `none`: the store, the graph client or the client of the language model is nil.
unfoldable pub process :
    {F S : Type 0} → (ℕ → String → String) → Option (Deps F S) → WorkItem → S → S × Processed
unfolding verdict run
process failure none item s =
    (s, refused "async.GraphProcessor: store, graphClient, and llmClient must be non-nil")
process failure (some d) item s =
    let (t, r) = run (some d) (memory_of item ∷ []) s in (t, verdict failure item r)
