-- ===== src/Cursor/Tests.antt =====
-- pkg/cursor: the theorems at a concrete cursor, with bytes as the text.
use openclaw_cortex.Base.{ℕ, Bool, true, false, some, List, [], ◌∷◌, ◌≡◌, refl, arith}
use openclaw_cortex.Base.Int.{negsuc}
use openclaw_cortex.Cursor.{sign, verify, verify-sign}

abbrev is_empty : List ℕ → Bool
is_empty [] = true
is_empty (b ∷ bs) = false

abbrev mac : List ℕ → List ℕ → List ℕ
mac secret payload =
    1 ∷ 2 ∷ 3 ∷ 4 ∷ 5 ∷ 6 ∷ 7 ∷ 8 ∷ 9 ∷ 10 ∷ 11 ∷ 12 ∷ 13 ∷ 14 ∷ 15 ∷ 16 ∷ 17 ∷ 18 ∷ 19 ∷ 20 ∷ 21
    ∷ 22 ∷ 23 ∷ 24 ∷ 25 ∷ 26 ∷ 27 ∷ 28 ∷ 29 ∷ 30 ∷ 31 ∷ 32 ∷ []

empty-decodes : (text : List ℕ) → is_empty text ≡ true → some text ≡ some []
empty-decodes [] h = refl
empty-decodes (b ∷ bs) h = cc

verify-sign_example :
    verify is_empty mac
      (λ bytes. bytes)
      (λ text. some text)
      (sign is_empty mac (λ bytes. bytes) (λ text. some text) (negsuc 299) (1 ∷ []))
      (1 ∷ [])
    ≡ some (negsuc 299)
verify-sign_example =
    verify-sign is_empty mac (λ bytes. bytes) (λ text. some text) (λ secret payload. refl)
      (λ bytes. refl) empty-decodes (negsuc 299) (1 ∷ []) (omega arith)
