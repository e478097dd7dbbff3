-- ===== src/Async/Queue/Durability.antt =====
-- What `Enqueue`, `Complete` and `Fail` leave in the log, whatever happens to the channel.
use openclaw_cortex.Base.{
  ℕ, ◌+◌, ◌<◌, ◌≤◌, String, true, false, none, some, [], ◌∷◌, ◌++◌, ◌≡◌, refl, sym, ◌∙◌, ap, ◌≢◌,
  arith, All-append, lookup,
}
use openclaw_cortex.Async.Wal.{
  done, failed, WorkItem, WalEntry, entry, WalFile, AppendIo, append_ok, cannot_sync, cannot_open,
  tear, WalError, add_line, append_entry, too_long, scan,
}
use openclaw_cortex.Async.Wal.Newest.{
  newer, newest, newest-append, newest_one, newer_later, newer_ne, scan_lines_total,
}
use openclaw_cortex.Async.Queue.{
  Queue, is_kept, CompactIo, Disk, Ranges, by_id, try_send, prepared, pending_entry, returned,
  after_append, enqueue, tombstone, complete, fail,
}
use openclaw_cortex.Async.Queue.Compaction.{Short-of_scan, scan-newest, compact_any_live}

-- The log is whole: it scans without an error and ends in a newline.
pub record IsWhole (size : WalEntry → ℕ) (w : WalFile) : Type 0 where
  pub scans : (scan size w).1 ≡ false
  pub ended : w.torn ≡ 0

-- The clock has moved on since the last entry of the id.
abbrev pub Later : Disk → WalFile → String → ℕ → Type 0
Later d w id now = (x : WalEntry) → lookup id (by_id d w) ≡ some x → x.updated_at < now

module _ (d : Disk) (w : WalFile) (e : WalEntry) (whole : IsWhole d.size w)
    (fits : too_long d.size (entry e) ≡ false) where
  lines-add_line : (add_line d.size e w).lines ≡ w.lines ++ entry e ∷ []
  lines-add_line = rw (whole.ended, add_line)

  IsWhole-add_line : IsWhole d.size (add_line d.size e w)
  unfolding scan
  IsWhole-add_line = record {
    scans = ground (
      arith,
      scan_lines_total d.size [] (add_line d.size e w).lines (
          rw lines-add_line (
            All-append (λ l. too_long d.size l ≡ false) w.lines (entry e ∷ [])
              (Short-of_scan d.size w whole.scans) (fits, tt))),
    );
    ended = refl;
  }

  lookup-add_line :
      (id : String)
      → lookup id (by_id d (add_line d.size e w)) ≡ newer id (lookup id (by_id d w)) (entry e)
  lookup-add_line id =
      scan-newest d.size id (add_line d.size e w) IsWhole-add_line.scans
      ∙ ap (newest id none) lines-add_line
      ∙ newest-append id none w.lines (entry e ∷ [])
      ∙ newest_one id (newest id none w.lines) (entry e)
      ∙ ap (λ a. newer id a (entry e)) (sym (scan-newest d.size id w whole.scans))

  lookup-add_line_self :
      Later d w e.id e.updated_at → lookup e.id (by_id d (add_line d.size e w)) ≡ some e
  lookup-add_line_self later = lookup-add_line e.id ∙ newer_later e (lookup e.id (by_id d w)) later

  lookup-add_line_ne :
      (id : String) → e.id ≢ id → lookup id (by_id d (add_line d.size e w)) ≡ lookup id (by_id d w)
  lookup-add_line_ne id ne = lookup-add_line id ∙ newer_ne e (lookup id (by_id d w)) id ne

pub wal-try_send : (item : WorkItem) (q : Queue) → (try_send item q).wal ≡ q.wal
unfolding try_send
wal-try_send item q = ground arith

pub after_append_open :
    (d : Disk) (io : CompactIo) (item : WorkItem) (q : Queue)
    → q.closed ≡ false
    → (after_append d io item q).1 ≡ returned none
unfolding after_append
after_append_open d io item q h = ground arith

module _ (d : Disk) (ranges : Ranges d) where
  -- The send, the count and the compaction lose nothing that the log says of a live or failed id.
  after_append-keeps :
      (io : CompactIo) (item : WorkItem) (q : Queue) (id : String) (e : WalEntry)
      → lookup id (by_id d q.wal) ≡ some e
      → is_kept e.state ≡ true
      → lookup id (by_id d (after_append d io item q).0.wal) ≡ some e
  unfolding after_append
  after_append-keeps io item q id e h k =
      let sent : lookup id (by_id d (try_send item q).wal) ≡ some e = rw wal-try_send h in
      ground (
        arith,
        sent,
        compact_any_live d io (record (try_send item q) { enqueue_count = q.enqueue_count + 1 }) id
            e ranges sent k,
      )

-- An Enqueue whose append succeeds on an open queue over a whole log returns no error and leaves
-- the item pending in the log, if the entry fits the scanner and the clock has gone on since the
-- last entry of the id, even if the channel is full or the compaction fails.
pub enqueue-durable :
    (d : Disk) (cio : CompactIo) (fresh : String) (now now' : ℕ) (item : WorkItem) (q : Queue)
    → Ranges d
    → IsWhole d.size q.wal
    → q.closed ≡ false
    → too_long d.size (entry (pending_entry (prepared fresh now item) now')) ≡ false
    → Later d q.wal (prepared fresh now item).id now'
    → let (q', reply) = enqueue d append_ok cio fresh now now' item q in
      (reply ≡ returned none)
      × (lookup (prepared fresh now item).id (by_id d q'.wal)
          ≡ some (pending_entry (prepared fresh now item) now'))
unfolding enqueue append_entry
enqueue-durable d cio fresh now now' item q ranges whole opened fits later = (
  after_append_open d cio ready q' opened,
  after_append-keeps d ranges cio ready q' ready.id e
      (lookup-add_line_self d q.wal e whole fits later) refl,
)
  where
    ready : WorkItem
    ready = prepared fresh now item

    e : WalEntry
    e = pending_entry ready now'

    q' : Queue
    q' = record q { wal = add_line d.size e q.wal }

-- An Enqueue whose append succeeds on a whole log keeps what the log says of every other id that
-- is not done, if its entry fits the scanner.
enqueue-keeps_others :
    (d : Disk) (cio : CompactIo) (fresh : String) (now now' : ℕ) (item : WorkItem) (q : Queue)
    (id : String) (x : WalEntry)
    → Ranges d
    → IsWhole d.size q.wal
    → too_long d.size (entry (pending_entry (prepared fresh now item) now')) ≡ false
    → (prepared fresh now item).id ≢ id
    → lookup id (by_id d q.wal) ≡ some x
    → is_kept x.state ≡ true
    → lookup id (by_id d (enqueue d append_ok cio fresh now now' item q).0.wal) ≡ some x
unfolding enqueue append_entry
enqueue-keeps_others d cio fresh now now' item q id x ranges whole fits ne h k =
    after_append-keeps d ranges cio ready (record q { wal = add_line d.size e q.wal }) id x
      (lookup-add_line_ne d q.wal e whole fits id ne ∙ h) k
  where
    ready : WorkItem
    ready = prepared fresh now item

    e : WalEntry
    e = pending_entry ready now'

-- An Enqueue that returns an error has sent and counted nothing.
enqueue_error_sends_nothing :
    (d : Disk) (io : AppendIo) (cio : CompactIo) (fresh : String) (now now' : ℕ) (item : WorkItem)
    (q : Queue) (x : WalError)
    → (enqueue d io cio fresh now now' item q).1 ≡ returned (some x)
    → let q' = (enqueue d io cio fresh now now' item q).0 in
      (q'.channel ≡ q.channel) × (q'.enqueue_count ≡ q.enqueue_count)
unfolding enqueue append_entry after_append
enqueue_error_sends_nothing d append_ok cio fresh now now' item q x h = absurd (ground arith)
enqueue_error_sends_nothing d cannot_open cio fresh now now' item q x h = (refl, refl)
enqueue_error_sends_nothing d cannot_sync cio fresh now now' item q x h = (refl, refl)
enqueue_error_sends_nothing d (tear k) cio fresh now now' item q x h = (refl, refl)

pub complete-done :
    (d : Disk) (id : String) (now : ℕ) (q : Queue)
    → IsWhole d.size q.wal
    → too_long d.size (entry (tombstone id done "" now)) ≡ false
    → Later d q.wal id now
    → lookup id (by_id d (complete d append_ok id now q).wal) ≡ some (tombstone id done "" now)
unfolding complete append_entry
complete-done d id now q whole fits later =
    lookup-add_line_self d q.wal (tombstone id done "" now) whole fits later

pub fail-failed :
    (d : Disk) (id error : String) (now : ℕ) (q : Queue)
    → IsWhole d.size q.wal
    → too_long d.size (entry (tombstone id failed error now)) ≡ false
    → Later d q.wal id now
    → lookup id (by_id d (fail d append_ok id error now q).wal)
      ≡ some (tombstone id failed error now)
unfolding fail append_entry
fail-failed d id error now q whole fits later =
    lookup-add_line_self d q.wal (tombstone id failed error now) whole fits later

-- On a whole log with a later clock and entries that fit, after a Complete that is written the id
-- is done in the log, and after such a Fail it failed with the error; other ids stay.
tombstones :
    (d : Disk) (id error : String) (now : ℕ) (q : Queue) (j : String)
    → IsWhole d.size q.wal
    → too_long d.size (entry (tombstone id done "" now)) ≡ false
    → too_long d.size (entry (tombstone id failed error now)) ≡ false
    → Later d q.wal id now
    → id ≢ j
    → (lookup id (by_id d (complete d append_ok id now q).wal) ≡ some (tombstone id done "" now))
      × (lookup id (by_id d (fail d append_ok id error now q).wal)
          ≡ some (tombstone id failed error now))
      × (lookup j (by_id d (complete d append_ok id now q).wal) ≡ lookup j (by_id d q.wal))
      × (lookup j (by_id d (fail d append_ok id error now q).wal) ≡ lookup j (by_id d q.wal))
unfolding complete fail append_entry
tombstones d id error now q j whole fits fits' later ne = (
  complete-done d id now q whole fits later,
  fail-failed d id error now q whole fits' later,
  lookup-add_line_ne d q.wal (tombstone id done "" now) whole fits j ne,
  lookup-add_line_ne d q.wal (tombstone id failed error now) whole fits' j ne,
)

-- A Complete on a whole log whose time is not later than that of the entry of its id is passed
-- over: the log says of the id what it said.
tombstone_of_same_time :
    (d : Disk) (id : String) (now : ℕ) (q : Queue) (e : WalEntry)
    → IsWhole d.size q.wal
    → too_long d.size (entry (tombstone id done "" now)) ≡ false
    → lookup id (by_id d q.wal) ≡ some e
    → now ≤ e.updated_at
    → lookup id (by_id d (complete d append_ok id now q).wal) ≡ some e
unfolding complete append_entry
tombstone_of_same_time d id now q e whole fits h late =
    lookup-add_line d q.wal (tombstone id done "" now) whole fits id
    ∙ ap (λ a. newer id a (entry (tombstone id done "" now))) h
    ∙ ground arith
