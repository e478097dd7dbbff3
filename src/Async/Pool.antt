-- ===== src/Async/Pool.antt =====
-- internal/async/worker.go: the workers that take items from the channel of a queue, and the
-- retries.
pub mod Retries
pub mod Settled
use openclaw_cortex.Base.{
  ℕ, suc, ◌+◌, String, Bool, true, false, ◌&&◌, Option, none, some, List, [], ◌∷◌, ◌++◌, ◌≡◌, leb,
  ltb, ◌==◌, if◌then◌else◌,
}
use openclaw_cortex.Async.Wal.{WorkItem, AppendIo}
use openclaw_cortex.Async.Queue.{
  Queue, CompactIo, Disk, Reply, returned, panicked, enqueue, complete, fail,
}

-- A negative count or delay acts as 0 in the program too. The delay is in nanoseconds.
pub record Pool : Type 0 where
  pub max_retries : ℕ
  pub retry_delay : ℕ

abbrev default_max_retries : ℕ
default_max_retries = 3

unfoldable pub new_pool : ℕ → ℕ → Pool
new_pool max_retries retry_delay = record {
  max_retries = if max_retries == 0 then default_max_retries else max_retries;
  retry_delay = retry_delay;
}

-- How a call of the processor ends.
pub data Processed : Type 0 where
  succeeded : Processed
  refused : String → Processed
  panicked_with : String → Processed

-- The deferred `recover` turns a panic into an error.
abbrev pub process_err : Processed → Option String
process_err succeeded = none
process_err (refused e) = some e
process_err (panicked_with r) = some r

-- What the surroundings decide while one item is settled: whether the context is canceled during
-- the back-off, the answers of the file system, and the clock.
pub record Surroundings : Type 0 where
  pub canceled : Bool
  pub append_io : AppendIo
  pub compact_io : CompactIo
  pub fresh : String
  pub now : ℕ
  pub now' : ℕ

-- What became of the item, as the worker sees it.
pub data Fate : Type 0 where
  completed given_up retried left crashed : Fate

abbrev settled_by : Reply → Fate
settled_by (returned err) = retried
settled_by panicked = crashed

-- `item.Attempts++`, before the processor is called.
unfoldable pub started : WorkItem → WorkItem
started item = record item { attempts = item.attempts + 1 }

module _ (d : Disk) (p : Pool) where
  -- The rest of the loop body, for an item whose attempt was counted.
  unfoldable pub settle : Surroundings → Processed → WorkItem → Queue → Queue × Fate
  settle s r item q = elim (process_err r) [
    | none ↦ (complete d s.append_io item.id s.now q, completed)
    | some e ↦
        if leb p.max_retries item.attempts
        then (fail d s.append_io item.id e s.now q, given_up)
        else (if ltb 0 p.retry_delay && s.canceled
            then (q, left)
            else (let (q', reply) =
                  enqueue d s.append_io s.compact_io s.fresh s.now s.now' item q in
                (q', settled_by reply)))
  ]

-- The pool and its queue: the items on the channel and those that a worker is processing.
pub record State : Type 0 where
  pub queue : Queue
  pub running : List WorkItem

-- One step of the pool or its clients. Any worker may move, in any order.
pub data Step (d : Disk) (p : Pool) (s : State) : State → Type 0 where
  take :
      (item : WorkItem) (rest : List WorkItem)
      → s.queue.channel ≡ item ∷ rest
      → Step d p s (record {
        queue = record (s.queue) { channel = rest };
        running = started item ∷ s.running;
      })
  finish :
      (env : Surroundings) (r : Processed) (before after : List WorkItem) (item : WorkItem)
      → s.running ≡ before ++ item ∷ after
      → Step d p s (record { queue = (settle d p env r item s.queue).0; running = before ++ after })
  submit :
      (io : AppendIo) (cio : CompactIo) (fresh : String) (now now' : ℕ) (item : WorkItem)
      → item.attempts ≡ 0
      → Step d p s (record s { queue = (enqueue d io cio fresh now now' item s.queue).0 })

pub data Reach (d : Disk) (p : Pool) (s : State) : State → Type 0 where
  here : Reach d p s s
  next : {t u : State} → Reach d p s t → Step d p t u → Reach d p s u
