-- ===== src/Store/Validation.antt =====
-- internal/store/validation.go: the checks of what a caller gives.
use openclaw_cortex.Base.{ℕ, String, Option, none, some, ◌||◌, ltb, if◌then◌else◌}
use openclaw_cortex.Base.Float.{Float}
use openclaw_cortex.Base.Strings.{Strings}

abbrev min_content_len : ℕ
min_content_len = 10

record ErrContentTooShort : Type 0 where
  actual : ℕ
  minimum : ℕ

-- `runes` is utf8.RuneCountInString.
unfoldable validate_content_length : Strings → (String → ℕ) → String → Option ErrContentTooShort
validate_content_length st runes content =
    let count = runes (st.trim_space content) in
    if ltb count min_content_len
    then some (record { actual = count; minimum = min_content_len })
    else none

-- The error is the value that is out of range.
unfoldable validate_dedup_threshold : (fl : Float) → fl.Number → Option (fl.Number)
validate_dedup_threshold fl v =
    if (fl.lt v (fl.lit 0 0) || fl.eq v (fl.lit 0 0)) || fl.lt (fl.lit 1 0) v then some v else none
