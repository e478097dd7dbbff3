-- ===== src/Indexer/Split/Cuts.antt =====
-- internal/indexer/indexer.go: what the chunks of splitBySize are.
use mathlib.Core.List.{reverse, reverse-cons, append-nil, append_assoc, reverse-reverse}
use openclaw_cortex.Base.{
  ℕ, ◌+◌, ◌*◌, ◌≤◌, ◌<◌, String, false, List, [], ◌∷◌, ◌++◌, leb, ltb, ◌≡◌, refl, sym, ap, subst,
  ◌∙◌, arith, Bool-cases, inl, inr, All, All-append,
}
use openclaw_cortex.Indexer.Split.{
  Splitting, Splitter, is_empty, word_len, overlap_back, cut, add_word, add_words, last_chunk,
  split_by_size,
}

module _ (sp : Splitting) where
  -- The length of the words, each with a space.
  abbrev width : List String → ℕ
  width [] = 0
  width (w ∷ ws) = word_len sp w + width ws

  -- The chunks of these words, after a chunk that left words behind. Every chunk has words of its own,
  -- in order, behind the last ones of the chunk before it, and is no wider than the limit.
  pub data Cuts (limit : ℕ) : List String → List String → List String → Type 0 where
    last :
        {kept : List String} (word : String) (fresh : List String)
        → width (kept ++ word ∷ fresh) ≤ limit
        → Cuts limit kept (word ∷ fresh) (sp.join_words (kept ++ word ∷ fresh) ∷ [])
    next :
        {kept : List String} (word : String) (fresh rest dropped kept_now : List String)
        {chunks : List String}
        → width (kept ++ word ∷ fresh) ≤ limit
        → kept ++ word ∷ fresh ≡ dropped ++ kept_now
        → Cuts limit kept_now rest chunks
        → Cuts limit kept (word ∷ fresh ++ rest) (sp.join_words (kept ++ word ∷ fresh) ∷ chunks)

  width-append : (xs ys : List String) → width (xs ++ ys) ≡ width xs + width ys
  width-append [] ys = omega arith
  width-append (x ∷ xs) ys = omega (arith, width-append xs ys)

  overlap_back_suffix :
      (overlap : ℕ) (back kept : List String) (n : ℕ)
      → (dropped : List String) × (reverse back ++ kept
          ≡ dropped ++ (overlap_back sp overlap back kept n).0)
  unfolding overlap_back
  overlap_back_suffix overlap [] kept n = ([], refl)
  overlap_back_suffix overlap (w ∷ back) kept n = elim (Bool-cases (ltb n overlap)) [
    | inl e ↦ rw e (
        let (dropped, same) = overlap_back_suffix overlap back (w ∷ kept) (n + word_len sp w) in
        (
          dropped,
          ap (λ l. l ++ kept) (reverse-cons w back)
              ∙ append_assoc (reverse back) (w ∷ []) kept
              ∙ same,
        ))
    | inr e ↦ rw e (reverse (w ∷ back), refl)
  ]

  -- No word is longer than `longest`; the limit is enough for a full chunk and for an overlap with
  -- one more word.
  module _ (max_size overlap longest limit : ℕ) (enough : max_size ≤ limit)
      (room : overlap + 2 * longest ≤ limit) where
    abbrev Short : String → Type 0
    Short w = word_len sp w ≤ longest

    All-reverse : (ws : List String) → All Short ws → All Short (reverse ws)
    All-reverse [] h = h
    All-reverse (w ∷ ws) h =
        subst (All Short) (sym (reverse-cons w ws))
          (All-append Short (reverse ws) (w ∷ []) (All-reverse ws h.1) (h.0, tt))

    overlap_back-width :
        (back kept : List String) (n : ℕ)
        → All Short back
        → All Short kept
        → n ≡ width kept
        → n ≤ overlap + longest
        → let (now, m) = overlap_back sp overlap back kept n in
          All Short now × (m ≡ width now) × (m ≤ overlap + longest)
    unfolding overlap_back
    overlap_back-width [] kept n a k e h = (k, e, h)
    overlap_back-width (w ∷ back) kept n a k e h = elim (Bool-cases (ltb n overlap)) [
      | inl c ↦ rw c (
          overlap_back-width back (w ∷ kept) (n + word_len sp w) a.1 (a.0, k) (omega (arith, e))
            (ground (arith, a.0)))
      | inr c ↦ rw c (k, e, h)
    ]

    -- The current chunk: what the last one left, and words of its own.
    record Filling (kept : List String) (word : String) (fresh : List String) (s : Splitter)
        : Type 0 where
      parts : s.current ≡ kept ++ word ∷ fresh
      wide : s.current_len ≡ width s.current
      within : s.current_len ≤ limit
      short : All Short s.current

    is_empty_parts :
        (kept fresh : List String) (word : String) → is_empty (kept ++ word ∷ fresh) ≡ false
    is_empty_parts [] fresh word = refl
    is_empty_parts (k ∷ kept) fresh word = refl

    Cut : List String → List String → Splitter → List String → Type 0
    Cut kept own s result =
        (chunks : List String) × (result ≡ s.chunks ++ chunks) × Cuts limit kept own chunks

    last_chunk-Cuts :
        (kept fresh : List String) (word : String) (s : Splitter)
        → Filling kept word fresh s
        → Cut kept (word ∷ fresh) s (last_chunk sp s)
    unfolding last_chunk Cut
    last_chunk-Cuts kept fresh word s k =
        let some_words : is_empty s.current ≡ false =
          ap is_empty k.parts ∙ is_empty_parts kept fresh word in
        (
          sp.join_words (kept ++ word ∷ fresh) ∷ [],
          rw some_words (ap (λ l. s.chunks ++ sp.join_words l ∷ []) k.parts),
          last word fresh (omega (arith, k.within, k.wide, ap width k.parts)),
        )

    -- A full chunk is cut, and its last words stay.
    cut-Filling :
        (kept fresh : List String) (word next_word : String) (s : Splitter)
        → Filling kept word fresh s
        → word_len sp next_word ≤ longest
        → let t = cut sp overlap s in
          Filling t.current next_word [] (record t {
            current = t.current ++ next_word ∷ [];
            current_len = t.current_len + word_len sp next_word;
          })
    unfolding cut
    cut-Filling kept fresh word w s k h =
        let (now, m) = overlap_back sp overlap (reverse s.current) [] 0 in
        let (short, wide, less) =
          overlap_back-width (reverse s.current) [] 0 (All-reverse s.current k.short) tt refl
            (omega arith) in
        record {
          parts = refl;
          wide = omega (arith, width-append now (w ∷ []), wide);
          within = omega (arith, h, less);
          short = All-append Short now (w ∷ []) short (h, tt);
        }

    cut_suffix :
        (s : Splitter)
        → (dropped : List String) × (s.current ≡ dropped ++ (cut sp overlap s).current)
    unfolding cut
    cut_suffix s =
        let (dropped, same) = overlap_back_suffix overlap (reverse s.current) [] 0 in
        (dropped, sym (append-nil _ ∙ reverse-reverse s.current) ∙ same)

    add_words-Cuts :
        (words kept fresh : List String) (word : String) (s : Splitter)
        → Filling kept word fresh s
        → All Short words
        → Cut kept (word ∷ fresh ++ words) s (last_chunk sp (add_words sp max_size overlap words s))
    unfolding add_words add_word cut Cut
    add_words-Cuts [] kept fresh word s k h =
        subst (λ l. Cut kept (word ∷ l) s (last_chunk sp s)) (sym (append-nil fresh))
          (last_chunk-Cuts kept fresh word s k)
    add_words-Cuts (w ∷ words) kept fresh word s k h =
        let some_words : is_empty s.current ≡ false =
          ap is_empty k.parts ∙ is_empty_parts kept fresh word in
        elim (Bool-cases (ltb max_size (s.current_len + word_len sp w))) [
          | inl e ↦
              rw (e, add_word, some_words)
                (let (dropped, same) = cut_suffix s in
                  let now = (cut sp overlap s).current in
                  let (chunks, joined, cuts) =
                    add_words-Cuts words now [] w _ (cut-Filling kept fresh word w s k h.0) h.1 in
                  (
                    sp.join_words (kept ++ word ∷ fresh) ∷ chunks,
                    joined
                        ∙ append_assoc s.chunks (sp.join_words s.current ∷ []) chunks
                        ∙ ap (λ l. s.chunks ++ sp.join_words l ∷ chunks) k.parts,
                    next word fresh (w ∷ words) dropped now
                        (omega (arith, k.within, k.wide, ap width k.parts)) (sym k.parts ∙ same)
                        cuts,
                  ))
          | inr e ↦
              rw (e, add_word)
                (let longer : Splitter = record s {
                  current = s.current ++ w ∷ [];
                  current_len = s.current_len + word_len sp w;
                } in
                  let result = last_chunk sp (add_words sp max_size overlap words longer) in
                  subst (λ l. Cut kept (word ∷ l) s result) (append_assoc fresh (w ∷ []) words)
                    (add_words-Cuts words kept (fresh ++ w ∷ []) word longer
                      (record {
                        parts =
                            ap (λ l. l ++ w ∷ []) k.parts
                            ∙ append_assoc kept (word ∷ fresh) (w ∷ []);
                        wide = omega (arith, width-append s.current (w ∷ []), k.wide);
                        within = ground (arith, e, enough);
                        short = All-append Short s.current (w ∷ []) k.short (h.0, tt);
                      })
                      h.1))
        ]

  add_word_first :
      (max_size overlap : ℕ) (word : String)
      → add_word sp max_size overlap word (record { chunks = []; current = []; current_len = 0 })
        ≡ record { chunks = []; current = word ∷ []; current_len = 0 + word_len sp word }
  unfolding add_word
  add_word_first max_size overlap word = elim (Bool-cases (ltb max_size (0 + word_len sp word))) [
    | inl e ↦ rw e refl
    | inr e ↦ rw e refl
  ]

  -- The chunks of a text that is longer than the maximum and has a word: each has words of its own,
  -- in order and until all words are used, behind some of the last words of the chunk before it;
  -- none is wider, with a space behind each word, than the maximum, or the overlap and two of the
  -- longest words, whichever is more.
  pub split_by_size-Cuts :
      (text : String) (max_size overlap longest limit : ℕ) (word : String) (words : List String)
      → max_size < sp.len text
      → sp.fields text ≡ word ∷ words
      → All (λ w. word_len sp w ≤ longest) (word ∷ words)
      → max_size ≤ limit
      → overlap + 2 * longest ≤ limit
      → Cuts limit [] (word ∷ words) (split_by_size sp text max_size overlap)
  unfolding split_by_size add_words add_word Cut
  split_by_size-Cuts text max_size overlap longest limit word words long fields short enough room =
      let is_long : leb (sp.len text) max_size ≡ false = ground (arith, long) in
      let nothing : Splitter = record { chunks = []; current = []; current_len = 0 } in
      let one : Splitter = record {
        chunks = [];
        current = word ∷ [];
        current_len = 0 + word_len sp word;
      } in
      let (chunks, same, cuts) =
        add_words-Cuts max_size overlap longest limit enough room words [] [] word one
          (record {
            parts = refl;
            wide = omega arith;
            within = omega (arith, short.0);
            short = (short.0, tt);
          })
          short.1 in
      let cut_up : split_by_size sp text max_size overlap ≡ chunks = rw is_long (
        ap (λ ws. last_chunk sp (add_words sp max_size overlap ws nothing)) fields
        ∙ ap (λ s. last_chunk sp (add_words sp max_size overlap words s))
            (add_word_first max_size overlap word)
        ∙ same) in
      subst (Cuts limit [] (word ∷ words)) (sym cut_up) cuts
