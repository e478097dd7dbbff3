-- ===== src/Async/Queue/Compaction.antt =====
-- internal/async/queue.go `Compact`: what the log says of each id before and after it.
use mathlib.Core.List.{Memᴰ}
use openclaw_cortex.Base.{
  ◌≤◌, subst, All, ℕ, String, Bool, true, false, Option, none, some, List, [], ◌∷◌, map, ◌≡◌, refl,
  sym, ◌∙◌, ap, inl, inr, arith, Bool-cases, Map, Distinct, only, lookup, values, restrict,
  lookup-restrict, Distinct-restrict, str_eq, eq_iff,
}
use openclaw_cortex.Async.Wal.{
  WalEntry, WalState, pending, processing, done, failed, other, Line, entry, WalFile, too_long,
  scan,
}
use openclaw_cortex.Async.Wal.Newest.{
  newer, newest, newest-IsNewest, NoNewer, IsKeyed, Short, Short-of_scan_lines, lookup-scan_lines,
  scan_lines_total, Distinct-scan_lines, IsKeyed-scan_lines,
}
use openclaw_cortex.Async.Queue.{
  Queue, is_kept, CompactIo, compact_ok, cannot_read, Disk, Ranges, by_id, compacted, compact_wal,
  compact,
}

module _ (size : WalEntry → ℕ) where
  pub Short-of_scan : (w : WalFile) → (scan size w).1 ≡ false → Short size w.lines
  unfolding scan
  Short-of_scan w h = Short-of_scan_lines size [] w.lines (ground arith)

  -- The scan of a file that does not fail keeps the newest entry of each id.
  pub scan-newest :
      (id : String) (w : WalFile)
      → (scan size w).1 ≡ false
      → lookup id (scan size w).0 ≡ newest id none w.lines
  unfolding scan lookup
  scan-newest id w h = lookup-scan_lines size id [] w.lines (Short-of_scan w h)

  pub Distinct-scan : (w : WalFile) → Distinct (scan size w).0
  unfolding scan
  Distinct-scan w = Distinct-scan_lines size [] w.lines tt

  IsKeyed-scan : (w : WalFile) → IsKeyed (scan size w).0
  unfolding scan lookup
  IsKeyed-scan w = IsKeyed-scan_lines size [] w.lines (λ id e h. cc h)

  Short-of_mem : (l : Line) (ls : List Line) → Memᴰ l ls → Short size ls → too_long size l ≡ false
  Short-of_mem l [] m h = elim m [ ]
  Short-of_mem l (x ∷ ls) (Memᴰ.head e) h = rw e h.0
  Short-of_mem l (x ∷ ls) (Memᴰ.tail m) h = Short-of_mem l ls m h.1

  abbrev ShortMap : Map WalEntry → Type 0
  ShortMap m = (id : String) (e : WalEntry) → lookup id m ≡ some e → too_long size (entry e) ≡ false

  ShortMap-scan : (w : WalFile) → (scan size w).1 ≡ false → ShortMap (scan size w).0
  ShortMap-scan w h id e p =
      Short-of_mem (entry e) w.lines (newest-IsNewest id w.lines e (sym (scan-newest id w h) ∙ p)).0
        (Short-of_scan w h)

  -- What the loop of `Compact` writes for a map.
  abbrev written : Map WalEntry → List Line
  written m = map entry (values m)

  tail_fact :
      (k : String) (e : WalEntry) (m : Map WalEntry) (P : WalEntry → Type 0)
      → Distinct ((k, e) ∷ m)
      → ((id : String) (x : WalEntry) → lookup id ((k, e) ∷ m) ≡ some x → P x)
      → (id : String) (x : WalEntry) → lookup id m ≡ some x
      → P x
  unfolding lookup
  tail_fact k e m P d h id x p = h id x (ground (arith, eq_iff k id))

  head_fact : (k : String) (e : WalEntry) (m : Map WalEntry) → lookup k ((k, e) ∷ m) ≡ some e
  unfolding lookup
  head_fact k e m = ground (arith, eq_iff k k)

  Short-written : (m : Map WalEntry) → Distinct m → ShortMap m → Short size (written m)
  unfolding values
  Short-written [] d h = tt
  Short-written ((k, e) ∷ m) d h = (
    h k e (head_fact k e m),
    Short-written m d.1 (tail_fact k e m (λ x. too_long size (entry x) ≡ false) d h),
  )

module _ (j : String) (e : WalEntry) (m : Map WalEntry) (k : IsKeyed ((j, e) ∷ m)) where
  same_test : (id : String) → str_eq e.id id ≡ str_eq j id
  unfolding lookup
  same_test id = ap (λ s. str_eq s id) (k j e (ground (arith, eq_iff j j)))

  IsKeyed-tail : Distinct ((j, e) ∷ m) → IsKeyed m
  unfolding lookup
  IsKeyed-tail d id x p = k id x (ground (arith, eq_iff j id))

newer_miss :
    (id : String) (acc : Option WalEntry) (e : WalEntry)
    → str_eq e.id id ≡ false
    → newer id acc (entry e) ≡ acc
newer_miss id acc e h = ground arith

newer_hit : (id : String) (e : WalEntry) → str_eq e.id id ≡ true → newer id none (entry e) ≡ some e
newer_hit id e h = ground arith

newest-written_absent :
    (id : String) (acc : Option WalEntry) (m : Map WalEntry)
    → Distinct m
    → IsKeyed m
    → lookup id m ≡ none
    → newest id acc (map entry (values m)) ≡ acc
unfolding newest values lookup
newest-written_absent id acc [] d k h = refl
newest-written_absent id acc ((j, e) ∷ m) d k h = elim (Bool-cases (str_eq j id)) [
  | inl y ↦ absurd (ground arith)
  | inr n ↦
      ap (λ a. newest id a (map entry (values m))) (newer_miss id acc e (same_test j e m k id ∙ n))
      ∙ newest-written_absent id acc m d.1 (IsKeyed-tail j e m k d) (ground arith)
]

-- The lines that `Compact` writes for a map say of each id what the map says.
newest-written :
    (id : String) (m : Map WalEntry)
    → Distinct m
    → IsKeyed m
    → newest id none (map entry (values m)) ≡ lookup id m
unfolding newest values lookup
newest-written id [] d k = refl
newest-written id ((j, e) ∷ m) d k = elim (Bool-cases (str_eq j id)) [
  | inl y ↦
      ap (λ a. newest id a (map entry (values m))) (newer_hit id e (same_test j e m k id ∙ y))
      ∙ newest-written_absent id (some e) m d.1 (IsKeyed-tail j e m k d)
          (ground (arith, eq_iff j id))
      ∙ ground (arith, eq_iff j id)
  | inr n ↦
      ap (λ a. newest id a (map entry (values m))) (newer_miss id none e (same_test j e m k id ∙ n))
      ∙ newest-written id m d.1 (IsKeyed-tail j e m k d)
      ∙ ground arith
]

module _ (d : Disk) (ranges : Ranges d) (w : WalFile) (ok : (scan d.size w).1 ≡ false) where
  ordered : Map WalEntry
  ordered = d.order (by_id d w)

  survivors : Map WalEntry
  unfolding ordered
  survivors = restrict (λ e. is_kept e.state) ordered

  Distinct-ordered : Distinct ordered
  unfolding ordered
  Distinct-ordered = (ranges (by_id d w) (Distinct-scan d.size w)).distinct

  lookup-survivors :
      (id : String) → lookup id survivors ≡ only (λ e. is_kept e.state) (lookup id (by_id d w))
  unfolding survivors ordered
  lookup-survivors id =
      lookup-restrict (λ e. is_kept e.state) id (d.order (by_id d w))
        (unfold ordered in Distinct-ordered)
      ∙ ap (only (λ e. is_kept e.state)) ((ranges (by_id d w) (Distinct-scan d.size w)).same id)

  from_log :
      (P : WalEntry → Type 0)
      → ((id : String) (e : WalEntry) → lookup id (by_id d w) ≡ some e → P e)
      → (id : String) (e : WalEntry) → lookup id survivors ≡ some e
      → P e
  from_log P h id e p = h id e (ground (arith, lookup-survivors id))

  IsKeyed-survivors : IsKeyed survivors
  IsKeyed-survivors id e p = IsKeyed-scan d.size w id e (ground (arith, lookup-survivors id))

  Distinct-survivors : Distinct survivors
  unfolding survivors
  Distinct-survivors = Distinct-restrict (λ e. is_kept e.state) ordered Distinct-ordered

  Short-compacted : Short d.size (compacted d w).lines
  unfolding compacted survivors ordered
  Short-compacted =
      Short-written d.size (unfold survivors ordered in survivors) Distinct-survivors
        (from_log (λ e. too_long d.size (entry e) ≡ false) (ShortMap-scan d.size w ok))

  newest-compacted : (id : String) → newest id none (compacted d w).lines ≡ lookup id survivors
  unfolding compacted survivors ordered
  newest-compacted id =
      newest-written id (unfold survivors ordered in survivors) Distinct-survivors IsKeyed-survivors

  fits : (scan d.size (compacted d w)).1 ≡ false
  unfolding scan compacted
  fits = ground (arith, scan_lines_total d.size [] (compacted d w).lines Short-compacted)

  -- The new file scans without an error, and says of each id what the old file said, if its
  -- state is one that is kept.
  pub scan-compacted :
      ((scan d.size (compacted d w)).1 ≡ false)
      × ((id : String)
          → lookup id (by_id d (compacted d w))
            ≡ only (λ e. is_kept e.state) (lookup id (by_id d w)))
  scan-compacted = (
    fits,
    λ id. scan-newest d.size id (compacted d w) fits ∙ newest-compacted id ∙ lookup-survivors id,
  )

-- The states that a compaction has to leave in the log.
abbrev pub is_unfinished : WalState → Bool
is_unfinished pending = true
is_unfinished processing = true
is_unfinished done = false
is_unfinished failed = true
is_unfinished (other name) = false

unfinished_kept : (s : WalState) → is_kept s ≡ is_unfinished s
unfinished_kept pending = refl
unfinished_kept processing = refl
unfinished_kept done = refl
unfinished_kept failed = refl
unfinished_kept (other name) = refl

kept_unfinished :
    (o : Option WalEntry) → only (λ e. is_kept e.state) o ≡ only (λ e. is_unfinished e.state) o
kept_unfinished none = refl
kept_unfinished (some e) = rw (unfinished_kept e.state) refl

-- A compaction of a log that scans, if it runs to its end, returns no error and leaves a log that
-- scans and that says the same of every id whose entry is pending, processing or failed, and
-- nothing of the others: those that are done and those in a state that this version does not know.
pub compact-keeps :
    (d : Disk) (q : Queue)
    → Ranges d
    → (scan d.size q.wal).1 ≡ false
    → let (q', err) = compact d compact_ok q in
      (err ≡ none)
      × (q'.channel ≡ q.channel)
      × ((scan d.size q'.wal).1 ≡ false)
      × ((id : String)
          → lookup id (by_id d q'.wal)
            ≡ only (λ e. is_unfinished e.state) (lookup id (by_id d q.wal)))
unfolding compact compact_wal
compact-keeps d q ranges ok =
    let (good, same) = scan-compacted d ranges q.wal ok in
    rw ok (refl, refl, good, λ id. same id ∙ kept_unfinished (lookup id (by_id d q.wal)))

-- Wherever a compaction stops, the log says the same of every id whose state is one that is kept.
pub compact_any_live :
    (d : Disk) (io : CompactIo) (q : Queue) (id : String) (e : WalEntry)
    → Ranges d
    → lookup id (by_id d q.wal) ≡ some e
    → is_kept e.state ≡ true
    → lookup id (by_id d (compact d io q).0.wal) ≡ some e
unfolding compact compact_wal
compact_any_live d cannot_read q id e ranges h live = h
compact_any_live d io q id e ranges h live = elim (Bool-cases (scan d.size q.wal).1) [
  | inl bad ↦ rw (bad, compact_wal) h
  | inr ok ↦ ground (arith, (scan-compacted d ranges q.wal ok).1 id)
]

NoNewer-of_mem :
    (id : String) (t : ℕ) (x : WalEntry) (ls : List Line)
    → Memᴰ (entry x) ls
    → All (NoNewer id t) ls
    → x.id ≡ id
    → x.updated_at ≤ t
NoNewer-of_mem id t x [] m h = elim m [ ]
NoNewer-of_mem id t x (l ∷ ls) (Memᴰ.head e) h = (subst (NoNewer id t) (sym e) h.0)
NoNewer-of_mem id t x (l ∷ ls) (Memᴰ.tail m) h = NoNewer-of_mem id t x ls m h.1

-- The entry that a scan without an error has for an id is a line of the log with that id, and no
-- line of the log with that id is newer.
pub scan-IsNewest :
    (size : WalEntry → ℕ) (w : WalFile) (id : String) (e x : WalEntry)
    → (scan size w).1 ≡ false
    → lookup id (scan size w).0 ≡ some e
    → Memᴰ (entry x) w.lines
    → x.id ≡ id
    → Memᴰ (entry e) w.lines × (e.id ≡ id) × (x.updated_at ≤ e.updated_at)
scan-IsNewest size w id e x ok h m same =
    let (mem, own, bound) = newest-IsNewest id w.lines e (sym (scan-newest size id w ok) ∙ h) in
    (mem, own, NoNewer-of_mem id e.updated_at x w.lines m bound same)
