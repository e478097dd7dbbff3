-- ===== src/Hooks/PostTurn/Duplicates.antt =====
-- internal/hooks/pipeline.go over the store of mock_store.go: memories that are captured twice.
use openclaw_cortex.Base.{
  ℕ, String, Bool, true, false, ◌||◌, Option, none, some, List, [], ◌∷◌, map, keep, any,
  if◌then◌else◌, ◌≡◌, ◌⊎◌, refl, sym, ap, subst, ◌∙◌, arith, Bool-cases, Option-cases, inl, inr,
  Map, lookup, values, lookup-insert, str_eq, eq_iff,
}
use openclaw_cortex.Base.Float.{Float}
use openclaw_cortex.Models.{Memory, SearchResult}
use openclaw_cortex.Store.Mock.{
  Stored, MockStore, modify, supersede, stamped, upsert, search, scored, find_duplicates,
  update_reinforcement, update_conflict_fields, cosine_similarity,
}
use openclaw_cortex.Store.Mock.Laws.{lookup-modify, lookup-modify_same}
use openclaw_cortex.Lifecycle.Pages.InMemory.{is_ok}
use openclaw_cortex.Hooks.PostTurn.{
  CapturedMemory, Embedding, vector, PipelineDeps, skipped, proceed, done, Fresh, reinforce,
  has_duplicate, check_vector, check, tag_conflict, new_memory, commit, process_single_memory,
}

-- Some value of a map passes a test.
any-values :
    {V : Type 0} (p : V → Bool) (id : String) (v : V) (m : Map V)
    → lookup id m ≡ some v
    → p v ≡ true
    → any p (values m) ≡ true
unfolding lookup values
any-values p id v [] h k = cc
any-values p id v ((j, w) ∷ m) h k = elim (Bool-cases (str_eq j id)) [
  | inl e ↦
      (let same : w ≡ v =
          ap (λ o. elim o [ none ↦ w | some x ↦ x ])
            (sym (ap (λ b. if b then some w else lookup id m) e) ∙ h) in
        ground (arith, same, k))
  | inr e ↦ ground (arith, any-values p id v m (ground (arith, e, h)) k)
]

List-cases : {A : Type 0} (xs : List A) → (xs ≡ []) ⊎ ((x : A) × (ys : List A) × (xs ≡ x ∷ ys))
List-cases [] = inl refl
List-cases (x ∷ xs) = inr (x, xs, refl)

keep_some :
    {A B : Type 0} (p : B → Bool) (f : A → B) (xs : List A)
    → any (λ x. p (f x)) xs ≡ true
    → (y : B) × (ys : List B) × (keep p (map f xs) ≡ y ∷ ys)
keep_some p f [] h = cc
keep_some p f (x ∷ xs) h = elim (Bool-cases (p (f x))) [
  | inl e ↦ (f x, keep p (map f xs), rw e refl)
  | inr e ↦ (let (y, ys, k) = keep_some p f xs (ground (arith, e, h)) in (y, ys, rw e k))
]

-- The store has a memory under the id, with the vector.
pub record Holds {F : Type 0} (id : String) (vec : List F) (s : MockStore F) : Type 0 where
  pub entry : Stored F
  pub here : lookup id s.memories ≡ some entry
  pub same : entry.vector ≡ vec

modify-Holds :
    {F : Type 0} (id k : String) (f : Memory F → Memory F) (vec : List F) (s : MockStore F)
    → Holds id vec s
    → Holds id vec (modify k f s).0
modify-Holds id k f vec s h = elim (Bool-cases (str_eq k id)) [
  | inr n ↦ record { entry = h.entry; here = lookup-modify k f s id n ∙ h.here; same = h.same }
  | inl e ↦
      subst (λ j. Holds id vec (modify j f s).0) (sym ((eq_iff k id).0 e))
        (record {
          entry = record (h.entry) { memory = f (h.entry.memory) };
          here = lookup-modify_same id f s (h.entry) (h.here);
          same = h.same;
        })
]

module _ (fl : Float) (now : ℕ) (classify : String → String)
    (embed : String → Embedding (fl.Number))
    (detector : Option (String → List (Memory (fl.Number)) → Option String))
    (dedup reinforcement boost : fl.Number) (project : String) where
  open fl use {Number, lt, eq}

  -- The pipeline's calls of the store in memory.
  abbrev pub in_memory_pipeline : PipelineDeps Number (MockStore Number)
  in_memory_pipeline = record {
    classify = classify;
    embed = embed;
    find_duplicates = λ vec threshold s. some (find_duplicates fl vec threshold s);
    update_reinforcement =
        λ id b s. let (t, r) = update_reinforcement fl now id b s in (t, is_ok r);
    search = λ vec limit s. some (search fl vec limit none s);
    update_conflict_fields = λ id group_id status s.
        let (t, r) = update_conflict_fields id group_id status s in (t, is_ok r);
    upsert = λ m vec s. (upsert now m vec s, true);
    conflict_detector = detector;
    dedup_threshold = dedup;
    reinforcement_threshold = reinforcement;
    reinforcement_boost = boost;
    project = project;
  }

  -- The score of a vector with itself reaches the threshold.
  abbrev Recognised : List Number → Type 0
  Recognised vec =
      let score = cosine_similarity fl vec vec in (lt dedup score || eq dedup score) ≡ true

  has_duplicate-Holds :
      (id : String) (vec : List Number) (s : MockStore Number)
      → Recognised vec
      → Holds id vec s
      → has_duplicate fl in_memory_pipeline vec s ≡ true
  unfolding has_duplicate find_duplicates
  has_duplicate-Holds id vec s r h =
      let found =
        any-values
          (λ sm.
            lt dedup (cosine_similarity fl vec sm.vector)
            || eq dedup (cosine_similarity fl vec sm.vector))
          id (h.entry) s.memories (h.here) (rw (h.same) r) in
      let (y, ys, k) =
        keep_some (λ (sr : SearchResult Number). lt dedup sr.score || eq dedup sr.score)
          (scored fl vec) (values s.memories) found in
      rw (k, has_duplicate) refl

  reinforce-Holds :
      (id : String) (vec new : List Number) (s : MockStore Number)
      → Holds id vec s
      → Holds id vec (reinforce fl in_memory_pipeline new s).0
  unfolding reinforce update_reinforcement
  reinforce-Holds id vec new s h = elim (Bool-cases (lt (fl.lit 0 0) reinforcement)) [
    | inr n ↦ rw (n, reinforce) h
    | inl n ↦ elim (List-cases (find_duplicates fl new reinforcement s)) [
      | inl e ↦ rw (n, reinforce) (rw e h)
      | inr (top, rest, e) ↦ elim (Bool-cases (lt top.score dedup)) [
        | inl k ↦ rw (n, reinforce) (rw e (rw k (modify-Holds id top.memory.id _ vec s h)))
        | inr k ↦ rw (n, reinforce) (rw e (rw k h))
      ]
    ]
  ]

  check-Holds :
      (cm : CapturedMemory Number) (id : String) (vec : List Number) (s : MockStore Number)
      → embed cm.content ≡ vector vec
      → Recognised vec
      → Holds id vec s
      → (check fl in_memory_pipeline cm s).1 ≡ done skipped
  unfolding check check_vector
  check-Holds cm id vec s e r h =
      let t = (reinforce fl in_memory_pipeline vec s).0 in
      let found = has_duplicate-Holds id vec t r (reinforce-Holds id vec vec s h) in
      rw (e, check) (rw (found, check_vector) (ground arith))

  commit-Holds :
      (fresh : Fresh) (cm : CapturedMemory Number) (mem_type : String) (vec : List Number)
      (s : MockStore Number)
      → Holds fresh.id vec (commit fl in_memory_pipeline fresh cm (proceed mem_type vec) s).0
  unfolding commit upsert new_memory
  commit-Holds fresh cm mem_type vec s =
      let (t, group_id) = tag_conflict fl in_memory_pipeline fresh cm vec s in
      let m = new_memory fl in_memory_pipeline fresh cm mem_type group_id in
      record {
        entry = record { memory = stamped now m; vector = vec };
        here =
            lookup-insert m.id fresh.id _ (supersede now m.supersedes_id t).memories
            ∙ ground (arith, eq_iff fresh.id fresh.id);
        same = refl;
      }

  -- A captured memory is skipped if a stored memory has its vector and the duplicate check
  -- recognises that vector.
  pub process_single_memory-skips :
      (fresh : Fresh) (cm : CapturedMemory Number) (id : String) (vec : List Number)
      (s : MockStore Number)
      → embed cm.content ≡ vector vec
      → Recognised vec
      → Holds id vec s
      → (process_single_memory fl in_memory_pipeline fresh cm s).1 ≡ skipped
  unfolding process_single_memory commit
  process_single_memory-skips fresh cm id vec s e r h = rw (check-Holds cm id vec s e r h) refl

  tag_conflict-Holds :
      (fresh : Fresh) (cm : CapturedMemory Number) (id : String) (new vec : List Number)
      (s : MockStore Number)
      → Holds id vec s
      → Holds id vec (tag_conflict fl in_memory_pipeline fresh cm new s).0
  unfolding tag_conflict update_conflict_fields
  tag_conflict-Holds fresh cm id new vec s h = elim (Option-cases detector) [
    | inl e ↦ rw (e, tag_conflict) h
    | inr (detect, e) ↦
        elim (Option-cases (detect cm.content (map (λ c. c.memory) (search fl new 5 none s)))) [
          | inl n ↦ rw (e, tag_conflict) (rw n h)
          | inr (k, n) ↦ elim (Bool-cases (str_eq k "")) [
            | inl w ↦ rw (e, tag_conflict) (rw n (rw w h))
            | inr w ↦ rw (e, tag_conflict) (rw n (rw w (modify-Holds id k _ vec s h)))
          ]
        ]
  ]

  commit-keeps_Holds :
      (fresh : Fresh) (cm : CapturedMemory Number) (id mem_type : String) (new vec : List Number)
      (s : MockStore Number)
      → str_eq fresh.id id ≡ false
      → Holds id vec s
      → Holds id vec (commit fl in_memory_pipeline fresh cm (proceed mem_type new) s).0
  unfolding commit upsert supersede new_memory
  commit-keeps_Holds fresh cm id mem_type new vec s apart h =
      let (t, group_id) = tag_conflict fl in_memory_pipeline fresh cm new s in
      let k = tag_conflict-Holds fresh cm id new vec s h in
      record {
        entry = k.entry;
        here = lookup-insert fresh.id id _ t.memories ∙ ground (arith, apart, k.here);
        same = k.same;
      }

  -- Where two goroutines check the same captured memory before either commits it under its own id,
  -- the store has both with the same vector, although the second of two that run one after the
  -- other would skip it. The first check leaves the store as it is, and the duplicate check
  -- recognises the vector.
  pub commit-race :
      (one two : Fresh) (cm : CapturedMemory Number) (mem_type : String) (vec : List Number)
      (s : MockStore Number)
      → check fl in_memory_pipeline cm s ≡ (s, proceed mem_type vec)
      → str_eq two.id one.id ≡ false
      → embed cm.content ≡ vector vec
      → Recognised vec
      → let d = in_memory_pipeline in
        let first = (process_single_memory fl d one cm s).0 in
        let both = (commit fl d two cm (check fl d cm s).1 first).0 in
        Holds one.id vec both
        × Holds two.id vec both
        × ((process_single_memory fl d two cm first).1 ≡ skipped)
  unfolding process_single_memory
  commit-race one two cm mem_type vec s c apart e r =
      let d = in_memory_pipeline in
      let after = (commit fl d one cm (proceed mem_type vec) s).0 in
      let held = commit-Holds one cm mem_type vec s in
      let first = (process_single_memory fl d one cm s).0 in
      let stored_first : Holds one.id vec first = rw (c, process_single_memory) held in
      let again = process_single_memory-skips two cm one.id vec first e r stored_first in
      (
        rw c (commit-keeps_Holds two cm one.id mem_type vec vec after apart held),
        rw c (commit-Holds two cm mem_type vec after),
        again,
      )
