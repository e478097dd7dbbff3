-- ===== src/Async/Tests.antt =====
-- internal/async: the theorems at concrete queues.
use mathlib.Core.List.{Memᴰ}
use openclaw_cortex.Base.{
  ◌≤◌, ℕ, ◌+◌, Option, ◌<◌, String, true, false, none, some, List, [], ◌∷◌, ◌≡◌, refl, arith,
  lookup, insert, ◌≢◌, inl, SameMap-refl, only, values, eq_iff,
}
use openclaw_cortex.Async.Wal.{
  WorkItem, Line, WalFile, token_too_long, entry, blank, malformed, append_ok, empty_wal, too_long,
  scan, note, note_line,
}
use openclaw_cortex.Async.Queue.{
  Queue, Disk, Ranges, opened, refused, pending_entry, returned, compact_ok, cannot_write, by_id,
  enqueue, complete, compact, new_queue,
}
use openclaw_cortex.Async.Queue.Compaction.{is_unfinished, scan-IsNewest, compact-keeps}
use openclaw_cortex.Async.Queue.Durability.{IsWhole, Later, enqueue-durable}
use openclaw_cortex.Async.Queue.Recovery.{live_items, restart-redelivers, long_item_blocks_restart}
use openclaw_cortex.Async.Pool.{
  Pool, Surroundings, State, Step, here, next, refused as processing_refused, started, settle,
  completed,
}
use openclaw_cortex.Async.Pool.Retries.{Bounded, retries-Bounded}
use openclaw_cortex.Async.Processor.{process}
use openclaw_cortex.Async.Processor.Verdict.{with_model, process-outage}
use openclaw_cortex.Extract.Entities.{CapturedEntity}
use openclaw_cortex.Extract.Run.{Deps}
use openclaw_cortex.Async.Pool.Settled.{settled_entry, settle-log}

abbrev disk : Disk
disk = record { size = λ e. 100; order = λ m. m }

disk-Ranges : Ranges disk
disk-Ranges m h = SameMap-refl m h

abbrev item_a : WorkItem
item_a = record {
  id = "a";
  memory_id = "m";
  content = "text";
  project = "p";
  session_id = "s";
  enqueued_at = 3;
  attempts = 1;
}

abbrev item_b : WorkItem
item_b = record item_a { id = "b"; attempts = 0 }

-- `a` is pending since 5.
abbrev log : WalFile
log = record { lines = entry (pending_entry item_a 5) ∷ []; torn = 0 }

abbrev queue : Queue
queue = record {
  wal = log;
  channel = [];
  capacity = 1;
  compact_every = 1;
  enqueue_count = 0;
  closed = false;
}

log-IsWhole : IsWhole disk.size log
unfolding scan lookup too_long note_line note insert
log-IsWhole = record { scans = refl; ended = refl }

log-Later : (now : ℕ) → 5 < now → Later disk log "a" now
unfolding scan lookup too_long note_line note insert
log-Later now h x e = ground (arith, e, h)

b-Later : (now : ℕ) → Later disk log "b" now
unfolding scan lookup too_long note_line note insert
b-Later now x e = absurd (cc e)

b_not_a : ◌≢◌ {A = String} "b" "a"
b_not_a e = cc ((eq_iff "b" "a").1 e)

a_not_b : ◌≢◌ {A = String} "a" "b"
a_not_b e = cc ((eq_iff "a" "b").1 e)

abbrev mixed : List Line
mixed = blank ∷ entry (pending_entry item_a 5) ∷ malformed 9 ∷ []

scan-IsNewest_example : Memᴰ (entry (pending_entry item_a 5)) mixed × (item_a.id ≡ "a") × (5 ≤ 5)
unfolding scan lookup too_long note_line note insert
scan-IsNewest_example =
    scan-IsNewest disk.size (record { lines = mixed; torn = 0 }) "a" (pending_entry item_a 5)
      (pending_entry item_a 5) refl refl (Memᴰ.tail (Memᴰ.head refl)) refl

compact-keeps_example :
    let (q', err) = compact disk compact_ok queue in
    (err ≡ none)
    × (q'.channel ≡ [])
    × ((scan disk.size q'.wal).1 ≡ false)
    × ((id : String)
        → lookup id (by_id disk q'.wal)
          ≡ only (λ e. is_unfinished e.state) (lookup id (by_id disk log)))
unfolding scan lookup too_long note_line note insert
compact-keeps_example = compact-keeps disk queue disk-Ranges refl

enqueue-durable_example :
    let (q', reply) = enqueue disk append_ok cannot_write "f" 7 8 item_b queue in
    (reply ≡ returned none) × (lookup "b" (by_id disk q'.wal) ≡ some (pending_entry item_b 8))
unfolding scan lookup too_long note_line note insert
enqueue-durable_example =
    enqueue-durable disk cannot_write "f" 7 8 item_b queue disk-Ranges log-IsWhole refl refl
      (b-Later 8)

restart-redelivers_example :
    (q : Queue) × (new_queue disk true compact_ok log 4 100 ≡ opened q)
    × Memᴰ item_a q.channel
    × (lookup "a" (by_id disk q.wal) ≡ some (pending_entry item_a 5))
unfolding scan lookup too_long note_line note insert live_items values
restart-redelivers_example =
    restart-redelivers disk log 4 100 "a" (pending_entry item_a 5) disk-Ranges refl (omega arith)
      refl (inl refl)

-- Every entry takes as many bytes as the scanner can hold.
abbrev large : Disk
large = record { size = λ e. 65536; order = λ m. m }

abbrev empty_queue : Queue
empty_queue = record queue { wal = empty_wal }

long_item_blocks_restart_example :
    let (q', reply) = enqueue large append_ok compact_ok "f" 7 8 item_b empty_queue in
    (reply ≡ returned none)
    × (new_queue large true compact_ok q'.wal 4 100 ≡ refused q'.wal token_too_long)
long_item_blocks_restart_example =
    long_item_blocks_restart large compact_ok compact_ok "f" 7 8 item_b empty_queue 4 100 refl refl
      (omega arith)

abbrev pool : Pool
pool = record { max_retries = 3; retry_delay = 0 }

abbrev at_seven : Surroundings
at_seven = record {
  canceled = false;
  append_io = append_ok;
  compact_io = compact_ok;
  fresh = "f";
  now = 7;
  now' = 8;
}

settle-log_example :
    lookup "a"
      (by_id disk (settle disk pool at_seven (processing_refused "bad") item_a queue).0.wal)
    ≡ settled_entry pool at_seven (processing_refused "bad") item_a (lookup "a" (by_id disk log))
unfolding scan lookup too_long note_line note insert
settle-log_example =
    settle-log disk pool at_seven (processing_refused "bad") item_a queue disk-Ranges log-IsWhole
      refl refl (log-Later 7 (omega arith)) (omega arith) refl refl refl

-- One item waits, and a worker takes it.
abbrev waiting_state : State
waiting_state = record { queue = record queue { channel = item_b ∷ [] }; running = [] }

abbrev taken_state : State
taken_state = record { queue = queue; running = started item_b ∷ [] }

waiting-Bounded : Bounded disk pool waiting_state
waiting-Bounded = record { waiting = (omega arith, tt); in_flight = tt }

retries-Bounded_example : Bounded disk pool taken_state
retries-Bounded_example =
    retries-Bounded disk pool (next here (Step.take item_b [] refl)) (omega arith) waiting-Bounded

-- An extraction whose answers do not parse.
abbrev garbled : Deps ℕ ℕ
garbled = record {
  extract_entities = λ i text. none;
  extract_facts = λ i text names. none;
  upsert_entity = λ e s. (s + 1, true);
  link_memory_to_entity = λ id memory_id s. (s, true);
  upsert_fact = λ f s. (s + 1, true);
  append_memory_to_fact = λ id memory_id s. (s, true);
  ended_first = λ i. false;
  ended_second = λ i. false;
  to_lower = λ s. s;
}

abbrev failure_text : ℕ → String → String
failure_text n id = "extraction failed"

abbrev no_model : String → Option String
no_model text = none

abbrev no_parser : String → Option (List CapturedEntity)
no_parser text = none

abbrev offline : Deps ℕ ℕ
offline = with_model failure_text garbled 9 (λ i. "e") no_model no_parser

process-outage_example :
    let (t, r) = process failure_text (some offline) item_a 0 in
    (t ≡ 0)
    × (settle disk pool at_seven r item_a queue
        ≡ (complete disk at_seven.append_io "a" at_seven.now queue, completed))
process-outage_example =
    process-outage failure_text garbled 9 (λ i. "e") no_model no_parser disk pool at_seven item_a
      queue 0 refl
