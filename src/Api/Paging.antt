-- ===== src/Api/Paging.antt =====
-- internal/api/server.go `handleList`: the cursors of its pages.
use openclaw_cortex.Base.{
  ℕ, suc, ◌<◌, String, true, false, some, List, [], ◌≡◌, refl, arith, ◌==◌, length, Bool-cases, inl,
  inr, str_eq,
}
use openclaw_cortex.Base.Int.{ℤ, pos}
use openclaw_cortex.Base.Float.{Float}
use openclaw_cortex.Base.Strings.{Strings}
use openclaw_cortex.Models.{Memory, is_valid_memory_type, is_valid_memory_scope}
use openclaw_cortex.Cursor.{verify-sign}
use openclaw_cortex.Serving.{Machine}
use openclaw_cortex.Api.{ListQuery, memories, Texts, Server}
use openclaw_cortex.Api.Queries.{
  invalid, is_nameless, filters_of, tags_of, list_limit, sign_cursor, raw_cursor, answer_page,
  handle_list,
}

-- A MAC has 32 bytes, base64 decodes what it encodes, and strconv reads the numbers that it writes.
pub record Faithful (tx : Texts) : Type 0 where
  pub sized : (secret payload : List ℕ) → length (tx.mac secret payload) ≡ 32
  pub decodes : (bytes : List ℕ) → tx.decode (tx.encode bytes) ≡ some bytes
  pub empty : (text : String) → is_nameless text ≡ true → tx.decode text ≡ some []
  pub parses : (x : ℤ) → tx.parse_int (tx.format_int x) ≡ x
  pub written : (x : ℤ) → str_eq (tx.format_int x) "" ≡ false

module _ (tx : Texts) (faithful : Faithful tx) where
  -- A cursor of the API leads back to the store's cursor of an offset, signed or not.
  raw_cursor-sign_cursor :
      (secret : String) (n : ℕ)
      → suc n < 9223372036854775808
      → let next = tx.format_int (pos (suc n)) in
        raw_cursor tx secret (sign_cursor tx secret next) ≡ some next
  unfolding raw_cursor sign_cursor
  raw_cursor-sign_cursor secret n small =
      let next = tx.format_int (pos (suc n)) in
      let back =
        verify-sign is_nameless (tx.mac) (tx.encode) (tx.decode) (faithful.sized) (faithful.decodes)
          (faithful.empty) (pos (suc n)) (tx.bytes secret) small in
      let some_skip : (suc n == 0) ≡ false = ground arith in
      rw (faithful.written (pos (suc n))) (elim (Bool-cases (str_eq secret "")) [
        | inl e ↦ rw e refl
        | inr e ↦
            rw e (rw (faithful.parses (pos (suc n))) (rw (back, raw_cursor) (rw some_skip refl)))
      ])

module _ (fl : Float) (st : Strings) (tx : Texts) (e : Machine fl) {S : Type 0}
    (v : Server (fl.Number) S) (faithful : Faithful tx) where
  open fl use {Number}

  -- A page of the store whose next cursor is a number from 1 is answered with a cursor that leads the
  -- next request to the store's cursor.
  handle_list-next :
      (q : ListQuery) (limit n : ℕ) (cursor : String) (ms : List (Memory Number)) (s : S)
      → suc n < 9223372036854775808
      → invalid is_valid_memory_type q.type ≡ false
      → invalid is_valid_memory_scope q.scope ≡ false
      → list_limit tx q.limit ≡ some limit
      → raw_cursor tx v.cursor_secret q.cursor ≡ some cursor
      → v.backend.list (filters_of q.type q.scope q.project (tags_of tx q.tags)) limit cursor s
        ≡ some (ms, tx.format_int (pos (suc n)))
      → (c : String) × (handle_list fl st tx e v q s ≡ (s, memories ms c))
        × ((t : S)
            → handle_list fl st tx e v (record q { cursor = c }) t
              ≡ answer_page fl st tx e v q limit (tx.format_int (pos (suc n))) t)
  unfolding handle_list answer_page
  handle_list-next q limit n cursor ms s small a b c d page =
      let next = tx.format_int (pos (suc n)) in
      (
        sign_cursor tx v.cursor_secret next,
        rw (a, b) (rw (c, handle_list) (rw (d, handle_list) (rw (page, answer_page) refl))),
        λ t.
            rw (a, b)
              (rw (c, handle_list)
                (rw (raw_cursor-sign_cursor tx faithful v.cursor_secret n small, handle_list)
                  refl)),
      )
