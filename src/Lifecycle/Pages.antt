-- ===== src/Lifecycle/Pages.antt =====
-- internal/lifecycle/lifecycle.go `listAll`.
pub mod InMemory
use openclaw_cortex.Base.{
  ℕ, zero, suc, ◌+◌, ◌≤◌, ◌<◌, String, Bool, true, false, not, ◌&&◌, ◌||◌, Option, none, some, List,
  [], ◌∷◌, ◌++◌, ◌≡◌, refl, sym, ap, ◌∙◌, inl, inr, arith, if◌then◌else◌, ltb, leb, length, take,
  drop, All, Bool-cases, Option-cases, length-append, length-take-le, str_eq, eq_iff,
}
use openclaw_cortex.Models.{Memory}
use openclaw_cortex.Store.Filters.{SearchFilters}
use openclaw_cortex.Store.Mock.{MockStore, behind, last_id, page, listed, list}
use openclaw_cortex.Lifecycle.{Access, max_list_all_memories, page_size, pages, list_all}

module _ {F S : Type 0} (access : Access F S) where
  module _ (fuel : ℕ) (f : Option SearchFilters) (all : List (Memory F)) (cursor : String)
      (s : S) where
    pages_failed :
        access.list f page_size cursor s ≡ none → pages access (suc fuel) f all cursor s ≡ some none
    unfolding pages
    pages_failed e = rw (e, pages) refl

    pub pages_capped :
        (p : List (Memory F)) (next : String)
        → access.list f page_size cursor s ≡ some (p, next)
        → leb max_list_all_memories (length (all ++ p)) ≡ true
        → pages access (suc fuel) f all cursor s
          ≡ some (some (take max_list_all_memories (all ++ p)))
    unfolding pages
    pages_capped p next e c = rw (e, pages) (rw c refl)

    pub pages_last :
        (p : List (Memory F)) (next : String)
        → access.list f page_size cursor s ≡ some (p, next)
        → leb max_list_all_memories (length (all ++ p)) ≡ false
        → str_eq next "" ≡ true
        → pages access (suc fuel) f all cursor s ≡ some (some (all ++ p))
    unfolding pages
    pages_last p next e c n = rw (e, pages) (rw c (rw n refl))

    pub pages_more :
        (p : List (Memory F)) (next : String)
        → access.list f page_size cursor s ≡ some (p, next)
        → leb max_list_all_memories (length (all ++ p)) ≡ false
        → str_eq next "" ≡ false
        → pages access (suc fuel) f all cursor s ≡ pages access fuel f (all ++ p) next s
    unfolding pages
    pages_more p next e c n = rw (e, pages) (rw c (rw n refl))

  -- A page that is followed by another one is not empty.
  abbrev Advances : Option SearchFilters → S → Type 0
  Advances f s =
      (cursor : String) (p : List (Memory F)) (next : String)
      → access.list f page_size cursor s ≡ some (p, next)
      → str_eq next "" ≡ false
      → 0 < length p

  pages_total :
      (fuel : ℕ) (f : Option SearchFilters) (all : List (Memory F)) (cursor : String) (s : S)
      → Advances f s
      → length all < max_list_all_memories
      → max_list_all_memories < length all + fuel
      → (r : Option (List (Memory F))) × (pages access fuel f all cursor s ≡ some r)
  pages_total zero f all cursor s adv h k = absurd (omega arith)
  pages_total (suc fuel) f all cursor s adv h k =
      elim (Option-cases (access.list f page_size cursor s)) [
        | inl e ↦ (none, pages_failed fuel f all cursor s e)
        | inr ((p, next), e) ↦ elim (Bool-cases (leb max_list_all_memories (length (all ++ p)))) [
          | inl c ↦ (_, pages_capped fuel f all cursor s p next e c)
          | inr c ↦ elim (Bool-cases (str_eq next "")) [
            | inl n ↦ (_, pages_last fuel f all cursor s p next e c n)
            | inr n ↦
                let grown = length-append all p in
                let (r, t) =
                  pages_total fuel f (all ++ p) next s adv (ground arith)
                    (omega (arith, grown, adv cursor p next e n)) in
                (r, pages_more fuel f all cursor s p next e c n ∙ t)
          ]
        ]
      ]

  -- listAll ends over every store whose pages with a cursor are not empty.
  list_all_total :
      (f : Option SearchFilters) (s : S)
      → Advances f s
      → (r : Option (List (Memory F))) × (list_all access f s ≡ some r)
  unfolding list_all
  list_all_total f s adv =
      pages_total (suc max_list_all_memories) f [] "" s adv (omega arith) (omega arith)
