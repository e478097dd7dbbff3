-- ===== src/Async/Wal/Newest.antt =====
-- internal/async/queue.go, the loop of `replay`: for each id the entry with the greatest UpdatedAt,
-- and of those that tie the first.
use mathlib.Core.List.{Memᴰ}
use openclaw_cortex.Base.{
  ℕ, ◌≤◌, ◌<◌, ◌≢◌, String, Bool, true, false, Option, none, some, List, [], ◌∷◌, ◌++◌, ◌≡◌, refl,
  ◌⊎◌, inl, inr, arith, ltb, if◌then◌else◌, All, Bool-cases, Map, lookup, insert, Distinct,
  lookup-insert, Distinct-insert, str_eq, eq_iff,
}
use openclaw_cortex.Async.Wal.{
  WalEntry, Line, entry, blank, malformed, note, note_line, too_long, scan_lines,
}

-- The entry of one id after one more line, by the rule of the comment on `replay`.
abbrev pub newer : String → Option WalEntry → Line → Option WalEntry
newer id acc (entry e) =
    if str_eq e.id id
    then elim acc [
      | none ↦ some e
      | some x ↦ if ltb x.updated_at e.updated_at then some e else some x
    ]
    else acc
newer id acc blank = acc
newer id acc (malformed n) = acc

unfoldable pub newest : String → Option WalEntry → List Line → Option WalEntry
newest id acc [] = acc
newest id acc (l ∷ ls) = newest id (newer id acc l) ls

pub newest-append :
    (id : String) (acc : Option WalEntry) (ls ms : List Line)
    → newest id acc (ls ++ ms) ≡ newest id (newest id acc ls) ms
unfolding newest
newest-append id acc [] ms = refl
newest-append id acc (l ∷ ls) ms = newest-append id (newer id acc l) ls ms

pub newest_one :
    (id : String) (acc : Option WalEntry) (l : Line) → newest id acc (l ∷ []) ≡ newer id acc l
unfolding newest
newest_one id acc l = refl

-- An entry that is later than the one there takes its place.
pub newer_later :
    (e : WalEntry) (acc : Option WalEntry)
    → ((x : WalEntry) → acc ≡ some x → x.updated_at < e.updated_at)
    → newer e.id acc (entry e) ≡ some e
newer_later e none h = ground (arith, eq_iff e.id e.id)
newer_later e (some x) h = ground (arith, eq_iff e.id e.id, h x refl)

pub newer_ne :
    (e : WalEntry) (acc : Option WalEntry) (id : String) → e.id ≢ id → newer id acc (entry e) ≡ acc
newer_ne e acc id h = ground (arith, eq_iff e.id id)

lookup-note_line :
    (id : String) (m : Map WalEntry) (l : Line)
    → lookup id (note_line m l) ≡ newer id (lookup id m) l
unfolding note_line note
lookup-note_line id m (entry e) = ground (arith, lookup-insert e.id id e m, eq_iff e.id id)
lookup-note_line id m blank = refl
lookup-note_line id m (malformed n) = refl

-- An entry stands under its own id.
abbrev pub IsKeyed : Map WalEntry → Type 0
IsKeyed m = (id : String) (e : WalEntry) → lookup id m ≡ some e → e.id ≡ id

IsKeyed-note_line : (m : Map WalEntry) (l : Line) → IsKeyed m → IsKeyed (note_line m l)
IsKeyed-note_line m (entry e) k =
    λ id x h. ground (arith, lookup-note_line id m (entry e), k id x, eq_iff e.id id)
IsKeyed-note_line m blank k = unfold note_line in k
IsKeyed-note_line m (malformed n) k = unfold note_line in k

Distinct-if :
    (b : Bool) (m n : Map WalEntry) → Distinct m → Distinct n → Distinct (if b then m else n)
Distinct-if true m n d e = d
Distinct-if false m n d e = e

Distinct-note_line : (m : Map WalEntry) (l : Line) → Distinct m → Distinct (note_line m l)
unfolding note_line note
Distinct-note_line m (entry e) d =
    elim (lookup e.id m)
      as (λ o. Distinct (elim o [
        | none ↦ insert e.id e m
        | some x ↦ if ltb x.updated_at e.updated_at then insert e.id e m else m
      ])) [
        | none ↦ Distinct-insert e.id e m d
        | some x ↦ Distinct-if (ltb x.updated_at e.updated_at) _ _ (Distinct-insert e.id e m d) d
      ]
Distinct-note_line m blank d = d
Distinct-note_line m (malformed n) d = d

module _ (size : WalEntry → ℕ) where
  -- No line is too long for the scanner.
  abbrev pub Short : List Line → Type 0
  Short = All (λ l. too_long size l ≡ false)

  pub Short-of_scan_lines :
      (m : Map WalEntry) (ls : List Line) → (scan_lines size m ls).1 ≡ false → Short ls
  unfolding scan_lines
  Short-of_scan_lines m [] h = tt
  Short-of_scan_lines m (l ∷ ls) h = elim (Bool-cases (too_long size l)) [
    | inl e ↦ ground arith
    | inr e ↦ (e, Short-of_scan_lines (note_line m l) ls (ground arith))
  ]

  pub lookup-scan_lines :
      (id : String) (m : Map WalEntry) (ls : List Line)
      → Short ls
      → lookup id (scan_lines size m ls).0 ≡ newest id (lookup id m) ls
  unfolding scan_lines newest
  lookup-scan_lines id m [] h = refl
  lookup-scan_lines id m (l ∷ ls) h =
      rw (h.0, scan_lines) (rw (lookup-scan_lines id (note_line m l) ls h.1, lookup-note_line))

  pub scan_lines_total :
      (m : Map WalEntry) (ls : List Line) → Short ls → (scan_lines size m ls).1 ≡ false
  unfolding scan_lines
  scan_lines_total m [] h = refl
  scan_lines_total m (l ∷ ls) h = rw (h.0, scan_lines) (scan_lines_total (note_line m l) ls h.1)

  pub Distinct-scan_lines :
      (m : Map WalEntry) (ls : List Line) → Distinct m → Distinct (scan_lines size m ls).0
  unfolding scan_lines
  Distinct-scan_lines m [] d = d
  Distinct-scan_lines m (l ∷ ls) d = elim (Bool-cases (too_long size l)) [
    | inl e ↦ rw (e, scan_lines) d
    | inr e ↦ rw (e, scan_lines) (Distinct-scan_lines (note_line m l) ls (Distinct-note_line m l d))
  ]

  pub IsKeyed-scan_lines :
      (m : Map WalEntry) (ls : List Line) → IsKeyed m → IsKeyed (scan_lines size m ls).0
  unfolding scan_lines
  IsKeyed-scan_lines m [] k = k
  IsKeyed-scan_lines m (l ∷ ls) k = elim (Bool-cases (too_long size l)) [
    | inl e ↦ rw (e, scan_lines) k
    | inr e ↦ rw (e, scan_lines) (IsKeyed-scan_lines (note_line m l) ls (IsKeyed-note_line m l k))
  ]

abbrev AccLe : Option WalEntry → ℕ → Type 0
AccLe none t = Unit
AccLe (some x) t = x.updated_at ≤ t

-- A line that has no entry of the id later than `t`.
abbrev pub NoNewer : String → ℕ → Line → Type 0
NoNewer id t (entry e) = e.id ≡ id → e.updated_at ≤ t
NoNewer id t _ = Unit

newer_bound :
    (id : String) (acc : Option WalEntry) (l : Line) (t : ℕ)
    → AccLe (newer id acc l) t
    → AccLe acc t × NoNewer id t l
newer_bound id none (entry e) t h = (tt, λ p. ground (arith, eq_iff e.id id))
newer_bound id (some x) (entry e) t h =
    (ground (arith, eq_iff e.id id), λ p. ground (arith, eq_iff e.id id))
newer_bound id acc blank t h = (h, tt)
newer_bound id acc (malformed n) t h = (h, tt)

newest_bound :
    (id : String) (acc : Option WalEntry) (ls : List Line) (t : ℕ)
    → AccLe (newest id acc ls) t
    → AccLe acc t × All (NoNewer id t) ls
unfolding newest
newest_bound id acc [] t h = (h, tt)
newest_bound id acc (l ∷ ls) t h =
    let (a, rest) = newest_bound id (newer id acc l) ls t h in
    let (b, first) = newer_bound id acc l t a in (b, (first, rest))

newer_source :
    (id : String) (acc : Option WalEntry) (l : Line) (e : WalEntry)
    → newer id acc l ≡ some e
    → (acc ≡ some e) ⊎ ((entry e ≡ l) × (e.id ≡ id))
newer_source id acc (entry x) e h = ground (arith, eq_iff x.id id)
newer_source id acc blank e h = inl h
newer_source id acc (malformed n) e h = inl h

newest_source :
    (id : String) (acc : Option WalEntry) (ls : List Line) (e : WalEntry)
    → newest id acc ls ≡ some e
    → (acc ≡ some e) ⊎ (Memᴰ (entry e) ls × (e.id ≡ id))
unfolding newest
newest_source id acc [] e h = inl h
newest_source id acc (l ∷ ls) e h = elim (newest_source id (newer id acc l) ls e h) [
  | inl p ↦ elim (newer_source id acc l e p) [ inl q ↦ inl q | inr (q, i) ↦ inr (Memᴰ.head q, i) ]
  | inr (m, i) ↦ inr (Memᴰ.tail m, i)
]

-- What the scan keeps for an id is an entry of the file with that id, and no entry of the file with
-- that id has a later UpdatedAt.
pub newest-IsNewest :
    (id : String) (ls : List Line) (e : WalEntry)
    → newest id none ls ≡ some e
    → Memᴰ (entry e) ls × (e.id ≡ id) × All (NoNewer id e.updated_at) ls
newest-IsNewest id ls e h = elim (newest_source id none ls e h) [
  | inl p ↦ absurd (cc p)
  | inr (m, i) ↦ (m, i, (newest_bound id none ls e.updated_at (rw h (omega arith))).1)
]
