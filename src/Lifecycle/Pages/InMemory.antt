-- ===== src/Lifecycle/Pages/InMemory.antt =====
-- internal/lifecycle/lifecycle.go `listAll` over the pages of internal/store/mock_store.go `List`.
use mathlib.Core.List.{append_assoc}
use openclaw_cortex.Base.{
  take-drop, take_whole, ℕ, zero, suc, ◌+◌, ◌≤◌, ◌<◌, String, Bool, true, false, Option, some, List,
  [], ◌∷◌, ◌++◌, ◌≡◌, refl, sym, ap, subst, ◌∙◌, inl, inr, arith, ltb, leb, length, take, drop, All,
  Bool-cases, length-append, str_eq, eq_iff,
}
use openclaw_cortex.Models.{Memory}
use openclaw_cortex.Store.Filters.{SearchFilters}
use openclaw_cortex.Store.Mock.{
  MockStore, Reply, ok, not_found, behind, last_id, cut, page, listed, list, delete,
  update_conflict_fields,
}
use openclaw_cortex.Lifecycle.{Access, max_list_all_memories, page_size, pages, list_all}
use openclaw_cortex.Lifecycle.Pages.{pages_capped, pages_last, pages_more}

abbrev pub is_ok : {A : Type 0} → Reply A → Bool
is_ok (ok a) = true
is_ok not_found = false

-- The store in memory, as the manager sees it.
abbrev pub in_memory : {F : Type 0} → (String → String → Bool) → Access F (MockStore F)
in_memory id_less = record {
  list = λ f limit cursor s. some (list id_less f limit cursor s);
  delete = λ id s. let (t, r) = delete id s in (t, is_ok r);
  update_conflict_fields = λ id group_id status s.
      let (t, r) = update_conflict_fields id group_id status s in (t, is_ok r);
}

below_cap : (n : ℕ) → leb max_list_all_memories n ≡ false → n ≤ max_list_all_memories
below_cap n h = ground arith

under_cap : (n : ℕ) → leb max_list_all_memories n ≡ false → n < max_list_all_memories
under_cap n h = ground arith

above_cap : (n : ℕ) → leb max_list_all_memories n ≡ true → max_list_all_memories ≤ n
above_cap n h = ground arith

module _ {F : Type 0} where
  abbrev Differ : Memory F → Memory F → Type 0
  Differ m n = str_eq m.id n.id ≡ false

  -- The ids are not empty and stand once.
  abbrev pub Identified : List (Memory F) → Type 0
  Identified [] = Unit
  Identified (m ∷ ms) = (str_eq m.id "" ≡ false) × All (Differ m) ms × Identified ms

  last_differs :
      (m n : Memory F) (ms : List (Memory F))
      → All (Differ m) (n ∷ ms)
      → str_eq m.id (last_id (n ∷ ms)) ≡ false
  unfolding last_id
  last_differs m n [] h = h.0
  last_differs m n (o ∷ ms) h = last_differs m o ms h.1

  All-before {κ} : (P : Memory F → Type κ) (xs ys : List (Memory F)) → All P (xs ++ ys) → All P xs
  All-before P [] ys h = tt
  All-before P (x ∷ xs) ys h = (h.0, All-before P xs ys h.1)

  behind-append :
      (n : Memory F) (pre rest : List (Memory F))
      → Identified (n ∷ pre ++ rest)
      → behind (last_id (n ∷ pre)) (n ∷ pre ++ rest) ≡ some rest
  unfolding behind last_id
  behind-append n [] rest h = ground (arith, eq_iff n.id n.id)
  behind-append n (m ∷ pre) rest h =
      let apart = last_differs n m pre (All-before (Differ n) (m ∷ pre) rest h.1) in
      rw (apart, behind) (behind-append m pre rest h.2)

  last_named :
      (m : Memory F) (ms rest : List (Memory F))
      → Identified (m ∷ ms ++ rest)
      → str_eq (last_id (m ∷ ms)) "" ≡ false
  unfolding last_id
  last_named m [] rest h = h.0
  last_named m (n ∷ ms) rest h = last_named n ms rest h.2

  last_id-append :
      (xs : List (Memory F)) (y : Memory F) (ys : List (Memory F))
      → last_id (xs ++ y ∷ ys) ≡ last_id (y ∷ ys)
  unfolding last_id
  last_id-append [] y ys = refl
  last_id-append (x ∷ []) y ys = refl
  last_id-append (x ∷ z ∷ xs) y ys = last_id-append (z ∷ xs) y ys

  page_at :
      (limit : ℕ) (pre rest : List (Memory F))
      → Identified (pre ++ rest)
      → page (pre ++ rest) limit (last_id pre) ≡ cut limit rest
  unfolding page last_id
  page_at limit [] rest h = refl
  page_at limit (n ∷ pre) rest h =
      rw (last_named n pre rest h) (rw (behind-append n pre rest h) refl)

  take-append : (n : ℕ) (xs ys : List (Memory F)) → n ≤ length xs → take n (xs ++ ys) ≡ take n xs
  take-append zero xs ys h = refl
  take-append (suc n) [] ys h = absurd (omega arith)
  take-append (suc n) (x ∷ xs) ys h = ap (λ l. x ∷ l) (take-append n xs ys (omega arith))

  Identified-after : (xs ys : List (Memory F)) → Identified (xs ++ ys) → Identified ys
  Identified-after [] ys h = h
  Identified-after (x ∷ xs) ys h = Identified-after xs ys h.2

  cut_last : (n : ℕ) (xs : List (Memory F)) → ltb n (length xs) ≡ false → cut n xs ≡ (xs, "")
  cut_last n xs h = ground arith

  cut_more :
      (n : ℕ) (xs : List (Memory F))
      → 0 < n
      → ltb n (length xs) ≡ true
      → cut n xs ≡ (take n xs, last_id (take n xs))
  cut_more n xs k h = ground arith

  module _ (id_less : String → String → Bool) (f : Option SearchFilters) (s : MockStore F) where
    list_at :
        (pre rest : List (Memory F))
        → listed id_less f s ≡ pre ++ rest
        → Identified (pre ++ rest)
        → list id_less f page_size (last_id pre) s ≡ cut page_size rest
    unfolding list
    list_at pre rest e h = ap (λ l. page l page_size (last_id pre)) e ∙ page_at page_size pre rest h

    -- What one more page leaves: the loaded part grows by the page, and the rest follows it.
    regroup :
        (pre rest : List (Memory F))
        → (pre ++ take page_size rest) ++ drop page_size rest ≡ pre ++ rest
    regroup pre rest =
        append_assoc pre (take page_size rest) (drop page_size rest)
        ∙ ap (λ l. pre ++ l) (take-drop page_size rest)

    -- `goal pre rest`: with `pre` loaded, the pages give all up to the cap.
    abbrev Loads : ℕ → List (Memory F) → List (Memory F) → Type 0
    Loads fuel pre rest =
        pages (in_memory id_less) fuel f pre (last_id pre) s
        ≡ some (some (take max_list_all_memories (pre ++ rest)))

    last_page :
        (fuel : ℕ) (pre rest : List (Memory F))
        → listed id_less f s ≡ pre ++ rest
        → Identified (pre ++ rest)
        → ltb page_size (length rest) ≡ false
        → Loads (suc fuel) pre rest
    last_page fuel pre rest e h last =
        let here = ap some (list_at pre rest e h ∙ cut_last page_size rest last) in
        elim (Bool-cases (leb max_list_all_memories (length (pre ++ rest)))) [
          | inl c ↦ pages_capped (in_memory id_less) fuel f pre (last_id pre) s rest "" here c
          | inr c ↦
              pages_last (in_memory id_less) fuel f pre (last_id pre) s rest "" here c refl
              ∙ ap (λ l. some (some l))
                  (sym (
                    take_whole (pre ++ rest) max_list_all_memories
                      (below_cap (length (pre ++ rest)) c)))
        ]

    next_page :
        (fuel : ℕ) (pre : List (Memory F)) (r : Memory F) (rest : List (Memory F))
        → listed id_less f s ≡ pre ++ r ∷ rest
        → Identified (pre ++ r ∷ rest)
        → ltb page_size (length (r ∷ rest)) ≡ true
        → (length (pre ++ take page_size (r ∷ rest)) < max_list_all_memories
            → Loads fuel (pre ++ take page_size (r ∷ rest)) (drop page_size (r ∷ rest)))
        → Loads (suc fuel) pre (r ∷ rest)
    next_page fuel pre r rest e h more ih =
        let p = take page_size (r ∷ rest) in
        let q = drop page_size (r ∷ rest) in
        let here =
          ap some (list_at pre (r ∷ rest) e h ∙ cut_more page_size (r ∷ rest) (omega arith) more) in
        elim (Bool-cases (leb max_list_all_memories (length (pre ++ p)))) [
          | inl c ↦
              pages_capped (in_memory id_less) fuel f pre (last_id pre) s p (last_id p) here c
              ∙ ap (λ l. some (some l))
                  (sym (
                      take-append max_list_all_memories (pre ++ p) q
                        (above_cap (length (pre ++ p)) c))
                    ∙ ap (take max_list_all_memories) (regroup pre (r ∷ rest)))
          | inr c ↦
              pages_more (in_memory id_less) fuel f pre (last_id pre) s p (last_id p) here c (
                last_named r (take 499 rest) q (
                  subst Identified (sym (take-drop page_size (r ∷ rest)))
                    (Identified-after pre (r ∷ rest) h)))
              ∙ ap (λ l. pages (in_memory id_less) fuel f (pre ++ p) l s)
                  (sym (last_id-append pre r (take 499 rest)))
              ∙ ih (under_cap (length (pre ++ p)) c)
              ∙ ap (λ l. some (some (take max_list_all_memories l))) (regroup pre (r ∷ rest))
        ]

    pages_listed :
        (fuel : ℕ) (pre rest : List (Memory F))
        → listed id_less f s ≡ pre ++ rest
        → Identified (pre ++ rest)
        → length pre < max_list_all_memories
        → max_list_all_memories < length pre + fuel
        → Loads fuel pre rest
    pages_listed zero pre rest e h k n = absurd (omega arith)
    pages_listed (suc fuel) pre [] e h k n = last_page fuel pre [] e h refl
    pages_listed (suc fuel) pre (r ∷ rest) e h k n =
        elim (Bool-cases (ltb page_size (length (r ∷ rest)))) [
          | inr last ↦ last_page fuel pre (r ∷ rest) e h last
          | inl more ↦ next_page fuel pre r rest e h more (λ below.
              pages_listed fuel (pre ++ take page_size (r ∷ rest)) (drop page_size (r ∷ rest))
                (e ∙ sym (regroup pre (r ∷ rest)))
                (subst Identified (sym (regroup pre (r ∷ rest))) h) below
                (omega (arith, length-append pre (take page_size (r ∷ rest)))))
        ]

    -- listAll over the pages of the store in memory gives the listed memories up to the cap, in
    -- order, where their ids are not empty and stand once.
    pub list_all-listed :
        Identified (listed id_less f s)
        → list_all (in_memory id_less) f s
          ≡ some (some (take max_list_all_memories (listed id_less f s)))
    unfolding list_all last_id
    list_all-listed h =
        pages_listed (suc max_list_all_memories) [] (listed id_less f s) refl h (omega arith)
          (omega arith)
