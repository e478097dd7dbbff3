-- ===== src/Hooks/PostTurn/Tagged.antt =====
-- internal/hooks/pipeline.go with internal/capture/conflict_detector.go: which memory is tagged.
use openclaw_cortex.Base.{
  String, true, some, List, ◌≡◌, refl, inl, inr, ◌⊎◌, map, any, Bool-cases, Option-cases, str_eq,
}
use openclaw_cortex.Base.Float.{Float}
use openclaw_cortex.Base.Strings.{Strings}
use openclaw_cortex.Models.{SearchResult}
use openclaw_cortex.Capture.ConflictDetector.{
  ConflictDetector, contradicted, contradicted-candidate,
}
use openclaw_cortex.Hooks.PostTurn.{
  PipelineDeps, CapturedMemory, Fresh, conflict_candidate_limit, tag_conflict,
}

module _ (fl : Float) (st : Strings) (detector : ConflictDetector) {S : Type 0}
    (d : PipelineDeps (fl.Number) S) where
  open fl use {Number}

  abbrev pub guarded : PipelineDeps Number S
  guarded = record d { conflict_detector = some (contradicted st detector) }

  -- One of the results of the search was tagged with the group, and nothing else was done.
  pub record Tagged (fresh : Fresh) (vec : List Number) (s : S) (tagged : S × String) : Type 0 where
    pub candidates : List (SearchResult Number)
    pub id : String
    pub found : d.search vec conflict_candidate_limit s ≡ some candidates
    pub candidate : any (λ m. str_eq m.id id) (map (λ c. c.memory) candidates) ≡ true
    pub written :
        tagged ≡ ((d.update_conflict_fields id fresh.group_id "active" s).0, fresh.group_id)

  -- Whatever the model answers, the conflict check of the post-turn hook leaves the store and gives
  -- no group, or it tags one memory of the search's results with the group and does nothing else.
  pub tag_conflict-Tagged :
      (fresh : Fresh) (cm : CapturedMemory Number) (vec : List Number) (s : S)
      → let tagged = tag_conflict fl guarded fresh cm vec s in
        (tagged ≡ (s, "")) ⊎ Tagged fresh vec s tagged
  unfolding tag_conflict
  tag_conflict-Tagged fresh cm vec s =
      elim (Option-cases (d.search vec conflict_candidate_limit s)) [
        | inl e ↦ inl (rw (e, tag_conflict) refl)
        | inr (cs, e) ↦
            elim (Option-cases (contradicted st detector cm.content (map (λ c. c.memory) cs))) [
              | inl n ↦ inl (rw (e, tag_conflict) (rw (n, tag_conflict) refl))
              | inr (id, y) ↦ elim (Bool-cases (str_eq id "")) [
                | inl b ↦ inl (rw (e, tag_conflict) (rw (y, tag_conflict) (rw b refl)))
                | inr b ↦ inr (record {
                  candidates = cs;
                  id = id;
                  found = e;
                  candidate = contradicted-candidate st detector cm.content id _ y;
                  written = rw (e, tag_conflict) (rw (y, tag_conflict) (rw b refl));
                })
              ]
            ]
      ]
