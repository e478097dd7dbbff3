-- ===== src/Lifecycle/Consolidation/Champion.antt =====
-- internal/lifecycle/lifecycle.go `consolidate`: the memory of the highest confidence.
use openclaw_cortex.Base.{
  ℕ, suc, String, Bool, true, false, not, ◌||◌, List, [], ◌∷◌, ◌≡◌, ◌⊎◌, refl, sym, ap, ◌∙◌, inl,
  inr, arith, subst, All, All-mono, Bool-cases, str_eq,
}
use openclaw_cortex.Base.Float.{Float}
use openclaw_cortex.Lifecycle.{Access}
use openclaw_cortex.Lifecycle.Consolidation.{
  Embedded, near, is_deleted, drop_memory, merge_with, merge_all,
}

module _ {S : Type 0} (fl : Float) (access : Access (fl.Number) S) (dry_run : Bool) where
  open fl use {Number, lt}

  -- `b` is another memory than `t`, of less confidence.
  abbrev Below : Embedded fl access → Embedded fl access → Type 0
  Below t b = (str_eq b.0.id t.0.id ≡ false) × (lt b.0.confidence t.0.confidence ≡ true)

  -- `t` stands once in the list, and every other memory is below it.
  abbrev pub Champion : Embedded fl access → List (Embedded fl access) → Type 0
  Champion t [] = Unit
  Champion t (a ∷ bs) = ((a ≡ t) × All (Below t) bs) ⊎ (Below t a × Champion t bs)

  module _ (a b : Embedded fl access) (bs : List (Embedded fl access)) (deleted : List String)
      (n : ℕ) (s : S) where
    -- One step of the inner loop: nothing is deleted, or the lesser of the anchor and the other one
    -- is, if its delete goes through.
    merge_step :
        (P : S × List String × ℕ → Type 0)
        → P (merge_with fl access dry_run a bs deleted n s)
        → (lt a.0.confidence b.0.confidence ≡ true
            → let s' = (drop_memory fl access dry_run a.0.id s).0 in
              P (s', a.0.id ∷ deleted, suc n) × P (merge_with fl access dry_run a bs deleted n s'))
        → (lt a.0.confidence b.0.confidence ≡ false
            → let s' = (drop_memory fl access dry_run b.0.id s).0 in
              P (merge_with fl access dry_run a bs (b.0.id ∷ deleted) (suc n) s')
              × P (merge_with fl access dry_run a bs deleted n s'))
        → P (merge_with fl access dry_run a (b ∷ bs) deleted n s)
    unfolding merge_with
    merge_step P same anchor other =
        elim (Bool-cases (is_deleted fl access deleted b || not (near fl access a b))) [
          | inl e ↦ rw (e, merge_with) same
          | inr e ↦ elim (Bool-cases (lt a.0.confidence b.0.confidence)) [
            | inl l ↦ elim (Bool-cases (drop_memory fl access dry_run a.0.id s).1) [
              | inl k ↦ rw (e, merge_with) (rw l (rw k ((anchor l).0)))
              | inr k ↦ rw (e, merge_with) (rw l (rw k ((anchor l).1)))
            ]
            | inr l ↦ elim (Bool-cases (drop_memory fl access dry_run b.0.id s).1) [
              | inl k ↦ rw (e, merge_with) (rw l (rw k ((other l).0)))
              | inr k ↦ rw (e, merge_with) (rw l (rw k ((other l).1)))
            ]
          ]
        ]

  abbrev Lower : Embedded fl access → Embedded fl access → Type 0
  Lower t b = (b ≡ t) ⊎ Below t b

  Champion-Lower :
      (t : Embedded fl access) (bs : List (Embedded fl access)) → Champion t bs → All (Lower t) bs
  Champion-Lower t [] c = tt
  Champion-Lower t (b ∷ bs) (inl c) = (inl c.0, All-mono (λ b. inr) bs c.1)
  Champion-Lower t (b ∷ bs) (inr c) = (inr c.0, Champion-Lower t bs c.1)

  merge_all_kept :
      (a : Embedded fl access) (bs : List (Embedded fl access)) (deleted : List String) (n : ℕ)
      (s : S)
      → (P : S × List String × ℕ → Type 0) → P (merge_all fl access dry_run bs deleted n s)
      → ((s' : S) (d : List String) (k : ℕ)
          → merge_with fl access dry_run a bs deleted n s ≡ (s', d, k)
          → P (merge_all fl access dry_run bs d k s'))
      → P (merge_all fl access dry_run (a ∷ bs) deleted n s)
  unfolding merge_all
  merge_all_kept a bs deleted n s P skip next = elim (Bool-cases (is_deleted fl access deleted a)) [
    | inl e ↦ rw (e, merge_all) skip
    | inr e ↦ rw (e, merge_all) (next _ _ _ refl)
  ]

  -- `read` is what the store has under the id of `t`: a delete of another id leaves it, whether it
  -- fails or not.
  module _ {A : Type 0} (t : Embedded fl access) (read : S → A)
      (elsewhere : (id : String) (s : S)
        → str_eq id t.0.id ≡ false
        → read (access.delete id s).0 ≡ read s) where
    -- `t` is not among the deleted, and the store has it as at `v`.
    abbrev Spared : A → S × List String × ℕ → Type 0
    Spared v (s, deleted, n) = (is_deleted fl access deleted t ≡ false) × (read s ≡ v)

    drop-read :
        (dry : Bool) (b : Embedded fl access) (s : S) (v : A)
        → Below t b
        → read s ≡ v
        → read (drop_memory fl access dry b.0.id s).0 ≡ v
    drop-read true b s v below h = h
    drop-read false b s v below h = elsewhere b.0.id s below.0 ∙ h

    merged :
        (deleted : List String) (b : Embedded fl access)
        → Below t b
        → is_deleted fl access deleted t ≡ false
        → is_deleted fl access (b.0.id ∷ deleted) t ≡ false
    merged deleted b below h = ground (arith, h, below.0)

    lesser_anchor_keeps_best :
        (v : A) (a : Embedded fl access) (bs : List (Embedded fl access)) (deleted : List String)
        (n : ℕ) (s : S)
        → Below t a
        → All (Lower t) bs
        → Spared v (s, deleted, n)
        → Spared v (merge_with fl access dry_run a bs deleted n s)
    unfolding merge_with
    lesser_anchor_keeps_best v a [] deleted n s below l h = h
    lesser_anchor_keeps_best v a (b ∷ bs) deleted n s below l h =
        merge_step a b bs deleted n s (Spared v)
          (lesser_anchor_keeps_best v a bs deleted n s below l.1 h)
          (λ less.
            let r = drop-read dry_run a s v below h.1 in
            (
              (merged deleted a below h.0, r),
              lesser_anchor_keeps_best v a bs deleted n _ below l.1 (h.0, r),
            ))
          (λ less. elim (l.0) [
            | inl same ↦
                absurd (
                  ground (arith, less, below, ap (λ (x : Embedded fl access). x.0.confidence) same))
            | inr other ↦
                let r = drop-read dry_run b s v other h.1 in
                (
                  lesser_anchor_keeps_best v a bs (b.0.id ∷ deleted) (suc n) _ below l.1
                      (merged deleted b other h.0, r),
                  lesser_anchor_keeps_best v a bs deleted n _ below l.1 (h.0, r),
                )
          ])

    best_anchor_survives :
        (v : A) (bs : List (Embedded fl access)) (deleted : List String) (n : ℕ) (s : S)
        → ((x y : Number) → lt x y ≡ true → lt y x ≡ false)
        → All (Below t) bs
        → Spared v (s, deleted, n)
        → Spared v (merge_with fl access dry_run t bs deleted n s)
    unfolding merge_with
    best_anchor_survives v [] deleted n s asym l h = h
    best_anchor_survives v (b ∷ bs) deleted n s asym l h =
        let r = drop-read dry_run b s v l.0 h.1 in
        merge_step t b bs deleted n s (Spared v) (best_anchor_survives v bs deleted n s asym l.1 h)
          (λ less. absurd (ground (arith, less, l.0.1, asym b.0.confidence t.0.confidence)))
          (λ less. (
            best_anchor_survives v bs (b.0.id ∷ deleted) (suc n) _ asym l.1
                (merged deleted b l.0 h.0, r),
            best_anchor_survives v bs deleted n _ asym l.1 (h.0, r),
          ))

    lesser_anchors_keep_best :
        (v : A) (bs : List (Embedded fl access)) (deleted : List String) (n : ℕ) (s : S)
        → All (Below t) bs
        → Spared v (s, deleted, n)
        → Spared v (merge_all fl access dry_run bs deleted n s)
    unfolding merge_all
    lesser_anchors_keep_best v [] deleted n s l h = h
    lesser_anchors_keep_best v (a ∷ bs) deleted n s l h =
        merge_all_kept a bs deleted n s (Spared v) (lesser_anchors_keep_best v bs deleted n s l.1 h)
          (λ s' d k e. lesser_anchors_keep_best v bs d k s' l.1 (
            subst (Spared v) e
              (lesser_anchor_keeps_best v a bs deleted n s l.0 (All-mono (λ b. inr) bs l.1) h)))

    best_kept :
        (v : A) (bs : List (Embedded fl access)) (deleted : List String) (n : ℕ) (s : S)
        → ((x y : Number) → lt x y ≡ true → lt y x ≡ false)
        → Champion t bs
        → Spared v (s, deleted, n)
        → Spared v (merge_all fl access dry_run bs deleted n s)
    unfolding merge_all
    best_kept v [] deleted n s asym c h = h
    best_kept v (a ∷ bs) deleted n s asym (inl c) h =
        merge_all_kept a bs deleted n s (Spared v) (lesser_anchors_keep_best v bs deleted n s c.1 h)
          (λ s' d k e. lesser_anchors_keep_best v bs d k s' c.1 (
            subst (Spared v) (ap (λ x. merge_with fl access dry_run x bs deleted n s) (sym c.0) ∙ e)
              (best_anchor_survives v bs deleted n s asym c.1 h)))
    best_kept v (a ∷ bs) deleted n s asym (inr c) h =
        merge_all_kept a bs deleted n s (Spared v) (best_kept v bs deleted n s asym c.1 h)
          (λ s' d k e. best_kept v bs d k s' asym c.1 (
            subst (Spared v) e
              (lesser_anchor_keeps_best v a bs deleted n s c.0 (Champion-Lower t bs c.1) h)))

    -- A memory that stands once in the list and whose confidence is above that of every other one
    -- is never merged away, whichever deletes fail: it is not among the deleted, and what the store
    -- has under its id stays, if a delete leaves what the store has under other ids.
    pub best_survives :
        (bs : List (Embedded fl access)) (deleted : List String) (n : ℕ) (s : S)
        → ((x y : Number) → lt x y ≡ true → lt y x ≡ false)
        → Champion t bs
        → is_deleted fl access deleted t ≡ false
        → (is_deleted fl access (merge_all fl access dry_run bs deleted n s).1 t ≡ false)
          × (read (merge_all fl access dry_run bs deleted n s).0 ≡ read s)
    best_survives bs deleted n s asym c h = best_kept (read s) bs deleted n s asym c (h, refl)
