-- ===== src/Async/Wal.antt =====
-- internal/async/queue.go: the entries and lines of the write-ahead log, the scan that keeps the
-- newest entry of each id, and the append.
pub mod Newest
use openclaw_cortex.Base.{
  ℕ, ◌+◌, String, Bool, true, false, Option, none, some, List, [], ◌∷◌, ◌++◌, ltb, leb, ◌==◌,
  if◌then◌else◌, Map, lookup, insert, str_eq,
}

-- `other` is a state string that this version does not know.
pub data WalState : Type 0 where
  pending processing done failed : WalState
  other : String → WalState

-- A time is in nanoseconds; 0 is the zero time.
pub record WorkItem : Type 0 where
  pub id : String
  pub memory_id : String
  pub content : String
  pub project : String
  pub session_id : String
  pub enqueued_at : ℕ
  pub attempts : ℕ

pub record WalEntry : Type 0 where
  pub id : String
  pub memory_id : String
  pub content : String
  pub project : String
  pub session_id : String
  pub enqueued_at : ℕ
  pub attempts : ℕ
  pub state : WalState
  pub error : String
  pub updated_at : ℕ

-- A line of the file that ends in a newline: one that decodes to an entry, an empty one, or one of
-- `n` bytes that does not decode.
pub data Line : Type 0 where
  entry : WalEntry → Line
  blank : Line
  malformed : ℕ → Line

-- `torn` counts the bytes after the last newline, which a failed write leaves.
pub record WalFile : Type 0 where
  pub lines : List Line
  pub torn : ℕ

abbrev pub empty_wal : WalFile
empty_wal = record { lines = []; torn = 0 }

pub data WalError : Type 0 where
  open_failed write_failed sync_failed token_too_long create_failed rename_failed dir_sync_failed :
      WalError

-- The keys of `byID` are the ids; an entry replaces the one that is there if it is newer.
unfoldable pub note : Map WalEntry → WalEntry → Map WalEntry
note m e = elim (lookup e.id m) [
  | none ↦ insert e.id e m
  | some x ↦ if ltb x.updated_at e.updated_at then insert e.id e m else m
]

unfoldable pub note_line : Map WalEntry → Line → Map WalEntry
note_line m (entry e) = note m e
note_line m _ = m

-- bufio.Scanner gives up on a line of 64 KiB or more.
abbrev pub max_token : ℕ
max_token = 65536

-- How the calls on the file end. `tear k` has written `k` bytes, fewer than the entry has.
pub data AppendIo : Type 0 where
  append_ok cannot_open cannot_sync : AppendIo
  tear : ℕ → AppendIo

-- `size e` is the number of bytes that encoding/json writes for `e`, without the newline.
module _ (size : WalEntry → ℕ) where
  abbrev line_size : Line → ℕ
  line_size (entry e) = size e
  line_size blank = 0
  line_size (malformed n) = n

  unfoldable pub too_long : Line → Bool
  too_long l = leb max_token (line_size l)

  -- The map that the loop has built when it ends, and whether `scanner.Err()` is set.
  unfoldable pub scan_lines : Map WalEntry → List Line → Map WalEntry × Bool
  scan_lines m [] = (m, false)
  scan_lines m (l ∷ ls) =
      let rest = scan_lines (note_line m l) ls in if too_long l then (m, true) else rest

  -- A torn last line is short of an entry, so it is skipped unless it is too long.
  unfoldable pub scan : WalFile → Map WalEntry × Bool
  unfolding scan_lines
  scan w =
      let (m, stopped) = scan_lines [] w.lines in
      (m, if stopped then true else leb max_token w.torn)

  -- What a write puts after a torn line goes on that line.
  abbrev pub add_line : WalEntry → WalFile → WalFile
  add_line e w = record {
    lines = w.lines ++ (if w.torn == 0 then entry e else malformed (w.torn + size e)) ∷ [];
    torn = 0;
  }

  unfoldable pub append_entry : AppendIo → WalEntry → WalFile → WalFile × Option WalError
  append_entry append_ok e w = (add_line e w, none)
  append_entry cannot_open e w = (w, some open_failed)
  append_entry cannot_sync e w = (add_line e w, some sync_failed)
  append_entry (tear k) e w = (record w { torn = w.torn + k }, some write_failed)
