-- ===== src/Async/Queue/Recovery.antt =====
-- A restart: what `NewQueue` puts on the channel, and the log that no restart can read.
use mathlib.Core.List.{Memᴰ, append-nil, append_assoc}
use openclaw_cortex.Base.{
  ℕ, zero, suc, ◌+◌, ◌≤◌, String, true, false, none, some, List, [], ◌∷◌, ◌++◌, map, ◌≡◌, refl, ◌∙◌,
  ◌⊎◌, ap, inl, inr, arith, ◌==◌, if◌then◌else◌, length, length-append, only, Map, str_eq, keep,
  take, take_whole, Bool-cases, lookup, values,
}
use openclaw_cortex.Async.Wal.{
  WorkItem, WalEntry, WalFile, Line, entry, pending, processing, malformed, note_line, too_long,
  max_token, append_ok, append_entry, add_line, scan_lines, scan, token_too_long,
}
use openclaw_cortex.Async.Queue.Compaction.{Distinct-scan, scan-compacted}
use openclaw_cortex.Async.Queue.Durability.{wal-try_send, after_append_open}
use openclaw_cortex.Async.Queue.{
  prepared, pending_entry, returned, enqueue, after_append, Queue, is_live, item_of, try_send,
  CompactIo, compact_ok, cannot_read, Disk, Ranges, by_id, is_kept, after_replay, after_compact,
  resend, replay, compacted, compact_wal, compact, opened, refused, new_queue,
}

try_send_full :
    (item : WorkItem) (q : Queue) → q.capacity ≡ length q.channel + 0 → try_send item q ≡ q
unfolding try_send
try_send_full item q h = ground arith

try_send_room :
    (item : WorkItem) (q : Queue) (n : ℕ)
    → q.capacity ≡ length q.channel + suc n
    → try_send item q ≡ record q { channel = q.channel ++ item ∷ [] }
unfolding try_send
try_send_room item q n h = ground arith

unfoldable pub live_items : List WalEntry → List WorkItem
live_items es = map item_of (keep (λ e. is_live e.state) es)

take-nil : (n : ℕ) → take {A = WorkItem} n [] ≡ []
take-nil zero = refl
take-nil (suc n) = refl

module _ (d : Disk) (e : WalEntry) (es : List WalEntry) (q : Queue) where
  resend_live : is_live e.state ≡ true → resend d (e ∷ es) q ≡ resend d es (try_send (item_of e) q)
  unfolding resend
  resend_live h = ground arith

  resend_skip : is_live e.state ≡ false → resend d (e ∷ es) q ≡ resend d es q
  unfolding resend
  resend_skip h = ground arith

live_items_live :
    (e : WalEntry) (es : List WalEntry)
    → is_live e.state ≡ true
    → live_items (e ∷ es) ≡ item_of e ∷ live_items es
unfolding live_items
live_items_live e es h = ground arith

live_items_skip :
    (e : WalEntry) (es : List WalEntry)
    → is_live e.state ≡ false
    → live_items (e ∷ es) ≡ live_items es
unfolding live_items
live_items_skip e es h = ground arith

-- The channel takes the live items in order until it is full.
channel-resend :
    (d : Disk) (es : List WalEntry) (q : Queue) (n : ℕ)
    → q.capacity ≡ length q.channel + n
    → (resend d es q).channel ≡ q.channel ++ take n (live_items es)
channel-resend d [] q n h = unfold resend live_items in rw (take-nil n, append-nil)
channel-resend d (e ∷ es) q zero h = elim (Bool-cases (is_live e.state)) [
  | inl y ↦
      rw (resend_live d e es q y, try_send_full (item_of e) q h) (channel-resend d es q zero h)
  | inr n' ↦ rw (resend_skip d e es q n') (channel-resend d es q zero h)
]
channel-resend d (e ∷ es) q (suc n) h = elim (Bool-cases (is_live e.state)) [
  | inl y ↦
      rw (resend_live d e es q y, try_send_room (item_of e) q n h, live_items_live e es y)
        (channel-resend d es (record q { channel = q.channel ++ item_of e ∷ [] }) n
            (omega (arith, length-append q.channel (item_of e ∷ [])))
          ∙ append_assoc q.channel (item_of e ∷ []) (take n (live_items es)))
  | inr n' ↦ rw (resend_skip d e es q n', live_items_skip e es n') (channel-resend d es q (suc n) h)
]

wal-resend : (d : Disk) (es : List WalEntry) (q : Queue) → (resend d es q).wal ≡ q.wal
unfolding resend try_send
wal-resend d [] q = refl
wal-resend d (e ∷ es) q =
    wal-resend d es (if is_live e.state then try_send (item_of e) q else q) ∙ ground arith

replay_scans :
    (d : Disk) (q : Queue)
    → (scan d.size q.wal).1 ≡ false
    → replay d true q ≡ (resend d (values (d.order (by_id d q.wal))) q, none)
unfolding replay
replay_scans d q h = rw h

compact_scans :
    (d : Disk) (q : Queue)
    → (scan d.size q.wal).1 ≡ false
    → compact d compact_ok q ≡ (record q { wal = compacted d q.wal }, none)
unfolding compact compact_wal
compact_scans d q h = rw h

abbrev fresh_queue : WalFile → ℕ → ℕ → Queue
fresh_queue w capacity every = record {
  wal = w;
  channel = [];
  capacity = capacity;
  compact_every = every;
  enqueue_count = 0;
  closed = false;
}

-- NewQueue on a log that scans, where every file call succeeds, puts the live items on the channel
-- in the order of the range loop up to its capacity, and compacts the log.
new_queue-delivers :
    (d : Disk) (w : WalFile) (capacity every : ℕ)
    → (scan d.size w).1 ≡ false
    → (q : Queue) × (new_queue d true compact_ok w capacity every ≡ opened q)
      × (q.channel ≡ take capacity (live_items (values (d.order (by_id d w)))))
      × (q.wal ≡ compacted d w)
unfolding new_queue
new_queue-delivers d w capacity every ok =
    let es = values (d.order (by_id d w)) in
    let q' : Queue = resend d es (fresh_queue w capacity every) in
    let same : q'.wal ≡ w = wal-resend d es (fresh_queue w capacity every) in
    let ok' : (scan d.size q'.wal).1 ≡ false = rw same ok in
    (
      record q' { wal = compacted d q'.wal },
      ap (after_replay d compact_ok) (replay_scans d (fresh_queue w capacity every) ok)
          ∙ ap (after_compact d) (compact_scans d q' ok'),
      channel-resend d es (fresh_queue w capacity every) capacity (omega arith),
      ap (compacted d) same,
    )

kept_live : (e : WalEntry) → is_live e.state ≡ true → only (λ x. is_kept x.state) (some e) ≡ some e
kept_live e h = ground arith

unfinished_live :
    (e : WalEntry) → (e.state ≡ pending) ⊎ (e.state ≡ processing) → is_live e.state ≡ true
unfinished_live e (inl h) = rw h refl
unfinished_live e (inr h) = rw h refl

mem-values :
    (id : String) (m : Map WalEntry) (e : WalEntry) → lookup id m ≡ some e → Memᴰ e (values m)
unfolding lookup values
mem-values id [] e h = cc
mem-values id ((j, x) ∷ m) e h = elim (Bool-cases (str_eq j id)) [
  | inl y ↦ Memᴰ.head (ground arith)
  | inr n ↦ Memᴰ.tail (mem-values id m e (ground arith))
]

mem-live_items :
    (es : List WalEntry) (e : WalEntry)
    → is_live e.state ≡ true
    → Memᴰ e es
    → Memᴰ (item_of e) (live_items es)
mem-live_items [] e l m = elim m [ ]
mem-live_items (x ∷ es) e l (Memᴰ.head p) =
    rw (live_items_live x es (rw (← p) l)) (Memᴰ.head (ap item_of p))
mem-live_items (x ∷ es) e l (Memᴰ.tail m) = elim (Bool-cases (is_live x.state)) [
  | inl y ↦ rw (live_items_live x es y) (Memᴰ.tail (mem-live_items es e l m))
  | inr n ↦ rw (live_items_skip x es n) (mem-live_items es e l m)
]

-- On a log whose file can be opened and which scans, with a compaction that runs to its end and
-- room in the channel for every live entry, NewQueue opens a queue whose channel holds the item of
-- every entry in state pending or processing and whose log still has that entry.
pub restart-redelivers :
    (d : Disk) (w : WalFile) (capacity every : ℕ) (id : String) (e : WalEntry)
    → Ranges d
    → (scan d.size w).1 ≡ false
    → length (live_items (values (d.order (by_id d w)))) ≤ capacity
    → lookup id (by_id d w) ≡ some e
    → (e.state ≡ pending) ⊎ (e.state ≡ processing)
    → (q : Queue) × (new_queue d true compact_ok w capacity every ≡ opened q)
      × Memᴰ (item_of e) q.channel
      × (lookup id (by_id d q.wal) ≡ some e)
restart-redelivers d w capacity every id e ranges ok room h state =
    let live = unfinished_live e state in
    let (q, made, sent, kept) = new_queue-delivers d w capacity every ok in
    let same : lookup id (d.order (by_id d w)) ≡ lookup id (by_id d w) =
      (ranges (by_id d w) (Distinct-scan d.size w)).same id in
    (
      q,
      made,
      rw (sent, take_whole _ capacity room)
          (mem-live_items (values (d.order (by_id d w))) e live
            (mem-values id (d.order (by_id d w)) e (same ∙ h))),
      rw kept (
          (scan-compacted d ranges w ok).1 id
          ∙ ap (only (λ x. is_kept x.state)) h
          ∙ kept_live e live),
    )

-- A log with a line that the scanner cannot take.
scan_lines_long :
    (size : WalEntry → ℕ) (m : Map WalEntry) (ls : List Line) (l : Line)
    → too_long size l ≡ true
    → (scan_lines size m (ls ++ l ∷ [])).1 ≡ true
unfolding scan_lines
scan_lines_long size m [] l h = ground arith
scan_lines_long size m (x ∷ ls) l h = ground (arith, scan_lines_long size (note_line m x) ls l h)

line_of_whole :
    (d : Disk) (e : WalEntry) (w : WalFile)
    → w.torn ≡ 0
    → (if w.torn == 0 then entry e else malformed (w.torn + d.size e)) ≡ entry e
line_of_whole d e w t = ground arith

scan-add_line_long :
    (d : Disk) (e : WalEntry) (w : WalFile)
    → w.torn ≡ 0
    → too_long d.size (entry e) ≡ true
    → (scan d.size (add_line d.size e w)).1 ≡ true
unfolding scan
scan-add_line_long d e w t h = ground (
  arith,
  ap (λ l. (scan_lines d.size [] (w.lines ++ l ∷ [])).1) (line_of_whole d e w t),
  scan_lines_long d.size [] w.lines (entry e) h,
)

compact_fails :
    (d : Disk) (io : CompactIo) (q : Queue)
    → (scan d.size q.wal).1 ≡ true
    → (compact d io q).0.wal ≡ q.wal
unfolding compact compact_wal
compact_fails d cannot_read q h = refl
compact_fails d io q h = ground arith

after_append_fails :
    (d : Disk) (io : CompactIo) (item : WorkItem) (q : Queue)
    → (scan d.size q.wal).1 ≡ true
    → (after_append d io item q).0.wal ≡ q.wal
unfolding after_append
after_append_fails d io item q h =
    let sent = record (try_send item q) { enqueue_count = q.enqueue_count + 1 } in
    let same : sent.wal ≡ q.wal = wal-try_send item q in
    ground (arith, same, compact_fails d io sent (rw same h))

new_queue_refused :
    (d : Disk) (io : CompactIo) (w : WalFile) (capacity every : ℕ)
    → (scan d.size w).1 ≡ true
    → new_queue d true io w capacity every ≡ refused w token_too_long
unfolding new_queue replay
new_queue_refused d io w capacity every h = ground arith

-- On an open queue whose log ends in a newline, an item whose entry takes 64 KiB or more and whose
-- append goes through is enqueued without an error, and then NewQueue fails.
pub long_item_blocks_restart :
    (d : Disk) (cio io : CompactIo) (fresh : String) (now now' : ℕ) (item : WorkItem) (q : Queue)
    (capacity every : ℕ)
    → q.wal.torn ≡ 0
    → q.closed ≡ false
    → max_token ≤ d.size (pending_entry (prepared fresh now item) now')
    → let (q', reply) = enqueue d append_ok cio fresh now now' item q in
      (reply ≡ returned none)
      × (new_queue d true io q'.wal capacity every ≡ refused q'.wal token_too_long)
unfolding enqueue append_entry
long_item_blocks_restart d cio io fresh now now' item q capacity every whole open' long =
    let ready = prepared fresh now item in
    let e = pending_entry ready now' in
    let q' : Queue = record q { wal = add_line d.size e q.wal } in
    let bad : (scan d.size q'.wal).1 ≡ true =
      scan-add_line_long d e q.wal whole (unfold too_long in ground arith) in
    let same = after_append_fails d cio ready q' bad in
    (
      after_append_open d cio ready q' open',
      new_queue_refused d io (after_append d cio ready q').0.wal capacity every (rw same bad),
    )
