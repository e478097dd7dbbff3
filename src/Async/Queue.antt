-- ===== src/Async/Queue.antt =====
-- internal/async/queue.go: the queue, a log on disk and a buffered channel. A method returns the
-- new queue; what the operating system answers, the clock and fresh ids are arguments.
pub mod Compaction
pub mod Durability
pub mod Recovery
use openclaw_cortex.Base.{
  ℕ, suc, ◌+◌, ◌%◌, String, Bool, true, false, ◌&&◌, ◌||◌, Option, none, some, List, [], ◌∷◌, ◌++◌,
  map, ltb, ◌==◌, if◌then◌else◌, length, keep, Map, Distinct, SameMap, values, restrict, str_eq,
}
use openclaw_cortex.Async.Wal.{
  WalState, pending, processing, done, failed, other, WorkItem, WalEntry, Line, entry, WalFile,
  empty_wal, WalError, open_failed, token_too_long, create_failed, rename_failed, dir_sync_failed,
  AppendIo, scan, append_entry,
}

pub record Queue : Type 0 where
  pub wal : WalFile
  pub channel : List WorkItem
  pub capacity : ℕ
  pub compact_every : ℕ
  pub enqueue_count : ℕ
  pub closed : Bool

abbrev pub is_live : WalState → Bool
is_live pending = true
is_live processing = true
is_live _ = false

abbrev pub is_kept : WalState → Bool
is_kept failed = true
is_kept s = is_live s

abbrev is_failed : WalState → Bool
is_failed failed = true
is_failed _ = false

abbrev pub item_of : WalEntry → WorkItem
item_of e = record {
  id = e.id;
  memory_id = e.memory_id;
  content = e.content;
  project = e.project;
  session_id = e.session_id;
  enqueued_at = e.enqueued_at;
  attempts = e.attempts;
}

-- `select { case q.ch <- item: default: }`
unfoldable pub try_send : WorkItem → Queue → Queue
try_send item q =
    if ltb (length q.channel) q.capacity then record q { channel = q.channel ++ item ∷ [] } else q

-- The calls of `Compact` on files, in order, and where they stop. `cannot_write` covers the write,
-- the flush and the sync of the temporary file.
pub data CompactIo : Type 0 where
  compact_ok cannot_read cannot_create cannot_write cannot_rename cannot_sync_dir : CompactIo

-- The range loops over `byID` visit the entries in the order that `order` gives.
pub record Disk : Type 0 where
  pub size : WalEntry → ℕ
  pub order : Map WalEntry → Map WalEntry

-- `order` reorders, so the loop visits each entry once.
abbrev pub Ranges : Disk → Type 0
Ranges d = (m : Map WalEntry) → Distinct m → SameMap m (d.order m)

pub data Opened : Type 0 where
  opened : Queue → Opened
  refused : WalFile → WalError → Opened

-- The values that `Enqueue` fills in: the item with its id and time.
abbrev pub prepared : String → ℕ → WorkItem → WorkItem
prepared fresh now item = record item {
  id = if str_eq item.id "" then fresh else item.id;
  enqueued_at = if item.enqueued_at == 0 then now else item.enqueued_at;
}

abbrev pub pending_entry : WorkItem → ℕ → WalEntry
pending_entry item now = record {
  id = item.id;
  memory_id = item.memory_id;
  content = item.content;
  project = item.project;
  session_id = item.session_id;
  enqueued_at = item.enqueued_at;
  attempts = item.attempts;
  state = pending;
  error = "";
  updated_at = now;
}

pub data Reply : Type 0 where
  returned : Option WalError → Reply
  panicked : Reply

abbrev pub tombstone : String → WalState → String → ℕ → WalEntry
tombstone id state error now = record {
  id = id;
  memory_id = "";
  content = "";
  project = "";
  session_id = "";
  enqueued_at = 0;
  attempts = 0;
  state = state;
  error = error;
  updated_at = now;
}

pub record QueueStatus : Type 0 where
  pub channel_depth : ℕ
  pub total_pending : ℕ
  pub total_failed : ℕ

module _ (d : Disk) where
  abbrev pub by_id : WalFile → Map WalEntry
  by_id w = (scan d.size w).0

  -- The loop of `replay` that puts the surviving entries on the channel.
  unfoldable pub resend : List WalEntry → Queue → Queue
  resend [] q = q
  resend (e ∷ es) q = resend es (if is_live e.state then try_send (item_of e) q else q)

  unfoldable pub replay : Bool → Queue → Queue × Option WalError
  replay can_open q =
      if can_open
      then (if (scan d.size q.wal).1
          then (q, some token_too_long)
          else (resend (values (d.order (by_id q.wal))) q, none))
      else (q, some open_failed)

  -- The file that `Compact` renames over the log.
  unfoldable pub compacted : WalFile → WalFile
  compacted w = record {
    lines = map entry (values (restrict (λ e. is_kept e.state) (d.order (by_id w))));
    torn = 0;
  }

  unfoldable pub compact_wal : CompactIo → WalFile → WalFile × Option WalError
  compact_wal cannot_read w = (w, some open_failed)
  compact_wal io w = if (scan d.size w).1 then (w, some token_too_long) else (elim io [
    | cannot_read ↦ (w, some open_failed)
    | cannot_create ↦ (w, some create_failed)
    | cannot_write ↦ (w, some WalError.write_failed)
    | cannot_rename ↦ (w, some rename_failed)
    | cannot_sync_dir ↦ (compacted w, some dir_sync_failed)
    | compact_ok ↦ (compacted w, none)
  ])

  unfoldable pub compact : CompactIo → Queue → Queue × Option WalError
  compact io q = let (w, err) = compact_wal io q.wal in (record q { wal = w }, err)

  abbrev pub after_compact : Queue × Option WalError → Opened
  after_compact (q, none) = opened q
  after_compact (q, some e) = refused q.wal e

  abbrev pub after_replay : CompactIo → Queue × Option WalError → Opened
  after_replay io (q, none) = after_compact (compact io q)
  after_replay io (q, some e) = refused q.wal e

  unfoldable pub new_queue : Bool → CompactIo → WalFile → ℕ → ℕ → Opened
  new_queue can_open io w capacity compact_every = after_replay io (
      replay can_open (record {
        wal = w;
        channel = [];
        capacity = capacity;
        compact_every = compact_every;
        enqueue_count = 0;
        closed = false;
      }))

  -- Only `Status` is called on this queue; its channel has no buffer.
  unfoldable new_queue_read_only : Bool → WalFile → Option Queue
  new_queue_read_only can_open w =
      if can_open
      then some (record {
        wal = w;
        channel = [];
        capacity = 0;
        compact_every = 0;
        enqueue_count = 0;
        closed = false;
      })
      else none

  -- After the append: the send, which panics on a closed channel, the count, and the compaction
  -- whose error is only logged.
  unfoldable pub after_append : CompactIo → WorkItem → Queue → Queue × Reply
  after_append io item q =
      if q.closed
      then (q, panicked)
      else (let sent = try_send item q in
          let count = q.enqueue_count + 1 in
          let counted = record sent { enqueue_count = count } in
          if ltb 0 q.compact_every && (count % q.compact_every == 0)
          then ((compact io counted).0, returned none)
          else (counted, returned none))

  unfoldable pub enqueue : AppendIo → CompactIo → String → ℕ → ℕ → WorkItem → Queue → Queue × Reply
  enqueue io cio fresh now now' item q =
      let ready = prepared fresh now item in
      let (w, err) = append_entry d.size io (pending_entry ready now') q.wal in
      elim err [
        | some e ↦ (record q { wal = w }, returned (some e))
        | none ↦ after_append cio ready (record q { wal = w })
      ]

  -- A failed write is only logged.
  unfoldable pub complete : AppendIo → String → ℕ → Queue → Queue
  complete io id now q = record q {
    wal = (append_entry d.size io (tombstone id done "" now) q.wal).0;
  }

  unfoldable pub fail : AppendIo → String → String → ℕ → Queue → Queue
  fail io id error now q = record q {
    wal = (append_entry d.size io (tombstone id failed error now) q.wal).0;
  }

  -- The error of the scanner is not read here: the counts are of the lines before it stopped.
  unfoldable pub status : Bool → Queue → QueueStatus
  status can_open q =
      if can_open
      then record {
        channel_depth = length q.channel;
        total_pending = length (keep (λ e. is_live e.state) (values (by_id q.wal)));
        total_failed = length (keep (λ e. is_failed e.state) (values (by_id q.wal)));
      }
      else record { channel_depth = length q.channel; total_pending = 0; total_failed = 0 }

-- `close(q.ch)`, which panics the second time.
unfoldable pub close : Queue → Option Queue
close q = if q.closed then none else some (record q { closed = true })
