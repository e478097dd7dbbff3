-- ===== src/Indexer/Split.antt =====
-- internal/indexer/indexer.go: splitBySize. Sizes are not negative here.
pub mod Cuts
use openclaw_cortex.Base.{
  ℕ, zero, suc, ◌+◌, String, Bool, true, false, not, ◌&&◌, List, [], ◌∷◌, ◌++◌, leb, ltb,
  if◌then◌else◌,
}
use mathlib.Core.List.{reverse}

-- The length in bytes, strings.Fields and strings.Join(words, " ").
pub record Splitting : Type 0 where
  pub len : String → ℕ
  pub fields : String → List String
  pub join_words : List String → String

pub record Splitter : Type 0 where
  pub chunks : List String
  pub current : List String
  pub current_len : ℕ

abbrev pub is_empty : List String → Bool
is_empty [] = true
is_empty (w ∷ ws) = false

module _ (sp : Splitting) where
  -- A word with the space behind it.
  abbrev pub word_len : String → ℕ
  word_len word = sp.len word + 1

  -- The words of the overlap with their length; the words are walked back from the last one.
  unfoldable pub overlap_back : ℕ → List String → List String → ℕ → List String × ℕ
  overlap_back overlap [] kept overlap_len = (kept, overlap_len)
  overlap_back overlap (word ∷ back) kept overlap_len =
      let more = overlap_back overlap back (word ∷ kept) (overlap_len + word_len word) in
      if ltb overlap_len overlap then more else (kept, overlap_len)

  unfoldable pub cut : ℕ → Splitter → Splitter
  unfolding overlap_back
  cut overlap s =
      let (kept, overlap_len) = overlap_back overlap (reverse s.current) [] 0 in
      record {
        chunks = s.chunks ++ sp.join_words s.current ∷ [];
        current = kept;
        current_len = overlap_len;
      }

  unfoldable pub add_word : ℕ → ℕ → String → Splitter → Splitter
  unfolding cut
  add_word max_size overlap word s =
      let full = ltb max_size (s.current_len + word_len word) && not (is_empty s.current) in
      let t = if full then cut overlap s else s in
      record t { current = t.current ++ word ∷ []; current_len = t.current_len + word_len word }

  unfoldable pub add_words : ℕ → ℕ → List String → Splitter → Splitter
  unfolding add_word
  add_words max_size overlap [] s = s
  add_words max_size overlap (word ∷ words) s =
      add_words max_size overlap words (add_word max_size overlap word s)

  unfoldable pub last_chunk : Splitter → List String
  last_chunk s = if is_empty s.current then s.chunks else s.chunks ++ sp.join_words s.current ∷ []

  unfoldable pub split_by_size : String → ℕ → ℕ → List String
  unfolding add_words last_chunk
  split_by_size text max_size overlap =
      if leb (sp.len text) max_size
      then text ∷ []
      else last_chunk (
          add_words max_size overlap (sp.fields text)
            (record { chunks = []; current = []; current_len = 0 }))
