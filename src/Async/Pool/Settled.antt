-- ===== src/Async/Pool/Settled.antt =====
-- What the log says of an item after a worker has settled it.
use openclaw_cortex.Base.{
  ◌≤◌, String, false, ◌&&◌, Option, none, some, ◌≡◌, subst, arith, leb, ltb, if◌then◌else◌, lookup,
  str_eq,
}
use openclaw_cortex.Async.Wal.{done, failed, WorkItem, WalEntry, entry, append_ok, too_long}
use openclaw_cortex.Async.Queue.{
  Queue, Disk, Ranges, by_id, prepared, pending_entry, tombstone, enqueue,
}
use openclaw_cortex.Async.Queue.Durability.{
  IsWhole, Later, enqueue-durable, complete-done, fail-failed,
}
use openclaw_cortex.Async.Pool.{
  Pool, Processed, succeeded, refused, panicked_with, process_err, Surroundings, settle,
}

-- What the log must say of the item, by how its processing ended: done; failed with the error, if
-- its attempts are used up; pending with the same attempts; or what it said before, if the context
-- was canceled during the back-off.
pub settled_entry : Pool → Surroundings → Processed → WorkItem → Option WalEntry → Option WalEntry
settled_entry p env r item before = elim (process_err r) [
  | none ↦ some (tombstone item.id done "" env.now)
  | some e ↦
      if leb p.max_retries item.attempts
      then some (tombstone item.id failed e env.now)
      else if ltb 0 p.retry_delay && env.canceled
      then before
      else some (pending_entry (prepared env.fresh env.now item) env.now')
]

abbrev error_text : Processed → String
error_text succeeded = ""
error_text (refused e) = e
error_text (panicked_with e) = e

module _ (d : Disk) (p : Pool) (env : Surroundings) (item : WorkItem) (q : Queue)
    (ranges : Ranges d) (whole : IsWhole d.size q.wal) (open' : q.closed ≡ false)
    (named : str_eq item.id "" ≡ false) (later : Later d q.wal item.id env.now)
    (clock : env.now ≤ env.now') where
  abbrev works : Surroundings
  works = record env { append_io = append_ok }

  prepared_id : (prepared env.fresh env.now item).id ≡ item.id
  prepared_id = ground arith

  re-enqueued :
      too_long d.size (entry (pending_entry (prepared env.fresh env.now item) env.now')) ≡ false
      → lookup item.id
          (by_id d (enqueue d append_ok env.compact_io env.fresh env.now env.now' item q).0.wal)
        ≡ some (pending_entry (prepared env.fresh env.now item) env.now')
  re-enqueued fits =
      subst
        (λ i.
          lookup i
            (by_id d (enqueue d append_ok env.compact_io env.fresh env.now env.now' item q).0.wal)
          ≡ some (pending_entry (prepared env.fresh env.now item) env.now'))
        prepared_id
        (enqueue-durable d env.compact_io env.fresh env.now env.now' item q ranges whole open' fits
          (λ x h.
            omega
              (arith, later x (subst (λ i. lookup i (by_id d q.wal) ≡ some x) prepared_id h)))).1

  settled :
      (r : Processed)
      → too_long d.size (entry (tombstone item.id done "" env.now)) ≡ false
      → too_long d.size (entry (tombstone item.id failed (error_text r) env.now)) ≡ false
      → too_long d.size (entry (pending_entry (prepared env.fresh env.now item) env.now')) ≡ false
      → lookup item.id (by_id d (settle d p works r item q).0.wal)
        ≡ settled_entry p works r item (lookup item.id (by_id d q.wal))
  unfolding settle settled_entry
  settled succeeded fits fits' fits'' = complete-done d item.id env.now q whole fits later
  settled (refused e) fits fits' fits'' =
      ground (arith, fail-failed d item.id e env.now q whole fits' later, re-enqueued fits'')
  settled (panicked_with e) fits fits' fits'' =
      ground (arith, fail-failed d item.id e env.now q whole fits' later, re-enqueued fits'')

-- After a worker settles an item the log says of it what the specification says: done, failed with
-- the error, pending with its attempts, or unchanged. The queue is open, the appends succeed, the
-- lines fit the scanner and the clock goes on.
pub settle-log :
    (d : Disk) (p : Pool) (env : Surroundings) (r : Processed) (item : WorkItem) (q : Queue)
    → Ranges d
    → IsWhole d.size q.wal
    → q.closed ≡ false
    → str_eq item.id "" ≡ false
    → Later d q.wal item.id env.now
    → env.now ≤ env.now'
    → too_long d.size (entry (tombstone item.id done "" env.now)) ≡ false
    → too_long d.size (entry (tombstone item.id failed (error_text r) env.now)) ≡ false
    → too_long d.size (entry (pending_entry (prepared env.fresh env.now item) env.now')) ≡ false
    → let env' = record env { append_io = append_ok } in
      lookup item.id (by_id d (settle d p env' r item q).0.wal)
      ≡ settled_entry p env' r item (lookup item.id (by_id d q.wal))
settle-log d p env r item q ranges whole open' named later clock fits fits' fits'' =
    settled d p env item q ranges whole open' named later clock r fits fits' fits''
