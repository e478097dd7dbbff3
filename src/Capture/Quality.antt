-- ===== src/Capture/Quality.antt =====
-- internal/capture/quality.go.
use openclaw_cortex.Base.{ℕ, String, Bool, false, not, ◌||◌, List, any, ltb, if◌then◌else◌}
use openclaw_cortex.Base.Strings.{Strings}

pub record CaptureQualityConfig : Type 0 where
  pub min_user_message_length : ℕ
  pub min_assistant_message_length : ℕ
  pub blocklist_patterns : List String

-- `len` is the length in bytes; the least lengths are not negative here.
unfoldable should_capture : Strings → (String → ℕ) → String → String → CaptureQualityConfig → Bool
should_capture st len user_msg assistant_msg cfg =
    if ltb (len (st.trim_space user_msg)) cfg.min_user_message_length
    then false
    else (if ltb (len (st.trim_space assistant_msg)) cfg.min_assistant_message_length
        then false
        else not (
            any
              (λ pattern.
                st.contains (st.to_lower user_msg) (st.to_lower pattern)
                || st.contains (st.to_lower assistant_msg) (st.to_lower pattern))
              cfg.blocklist_patterns))
