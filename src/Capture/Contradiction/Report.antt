-- ===== src/Capture/Contradiction/Report.antt =====
-- internal/capture/contradiction.go `FindContradictions`: what is reported.
use openclaw_cortex.Base.{String, List, ◌≡◌}
use openclaw_cortex.Base.Float.{Float}
use openclaw_cortex.Base.Strings.{Strings}
use openclaw_cortex.Models.{Memory, SearchResult}
use openclaw_cortex.Capture.Contradiction.{Detector}
use openclaw_cortex.Capture.Contradiction.Filter.{Words}
use openclaw_cortex.Capture.Contradiction.Found.{Warned, Confirmed}
use openclaw_cortex.Capture.Contradiction.Candidates.{Origin}

module _ (fl : Float) (st : Strings) (words : Words) (d : Detector (fl.Number)) where
  open fl use {Number, lit}

  -- A memory that is reported: it comes from the search or the graph, the heuristics of the second
  -- stage warn of it, and the third stage confirms it.
  abbrev pub Reported : List (SearchResult Number) → String → String → Type 0
  Reported results new_content id =
      (m : Memory Number) × (x : Number) × (m.id ≡ id)
      × Origin fl st words d results m x
      × Warned fl st words d new_content m
      × Confirmed fl st words d new_content m x
