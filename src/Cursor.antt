-- ===== src/Cursor.antt =====
-- pkg/cursor/cursor.go: cursors that cannot be forged. Bytes are numbers below 256. `mac` is
-- HMAC-SHA256 under a secret, `encode` and `decode` are base64.RawURLEncoding, and `is_empty` is the
-- test of a text against "".
mod Tests
use openclaw_cortex.Base.{
  ℕ, zero, suc, ◌+◌, ◌-◌, ◌*◌, ◌/◌, ◌%◌, ◌<◌, String, Bool, true, false, not, ◌&&◌, Option, none,
  some, List, [], ◌∷◌, ◌++◌, ltb, lt→ltb, ◌==◌, if◌then◌else◌, length, take, drop, length-append,
  str_eq, ◌≡◌, refl, sym, ap, subst, ◌∙◌, arith, Bool-cases, Option-cases, inl, inr, eq_iff,
  take-drop,
}
use openclaw_cortex.Base.Int.{ℤ, pos, negsuc}

-- uint64(skip) and int64(n)
unfoldable pub uint64 : ℤ → ℕ
uint64 (pos n) = n % 18446744073709551616
uint64 (negsuc n) = 18446744073709551615 - n % 18446744073709551616

unfoldable pub int64 : ℕ → ℤ
int64 n = if ltb n 9223372036854775808 then pos n else negsuc (18446744073709551615 - n)

-- The last bytes of a number, the lowest at the end, and the number that bytes stand for.
unfoldable to_bytes : ℕ → ℕ → List ℕ
to_bytes zero n = []
to_bytes (suc k) n = to_bytes k (n / 256) ++ n % 256 ∷ []

unfoldable of_bytes : ℕ → List ℕ → ℕ
of_bytes acc [] = acc
of_bytes acc (b ∷ bs) = of_bytes (acc * 256 + b) bs

unfoldable bytes_eq : List ℕ → List ℕ → Bool
bytes_eq [] [] = true
bytes_eq (a ∷ as') (b ∷ bs) = (a == b) && bytes_eq as' bs
bytes_eq _ _ = false

module _ {Text : Type 0} (is_empty : Text → Bool) (mac : List ℕ → List ℕ → List ℕ)
    (encode : List ℕ → Text) (decode : Text → Option (List ℕ)) where
  unfoldable pub sign : ℤ → List ℕ → Text
  unfolding to_bytes
  sign skip secret =
      let payload = to_bytes 8 (uint64 skip) in encode (payload ++ mac secret payload)

  unfoldable verify_raw : List ℕ → List ℕ → Option ℤ
  unfolding bytes_eq of_bytes int64
  verify_raw raw secret =
      if length raw == 40
      then (if bytes_eq (drop 8 raw) (mac secret (take 8 raw))
          then some (int64 (of_bytes 0 (take 8 raw)))
          else none)
      else none

  -- `none` is an error.
  unfoldable pub verify : Text → List ℕ → Option ℤ
  unfolding verify_raw
  verify encoded secret =
      if is_empty encoded
      then some (pos 0)
      else (elim (decode encoded) [ none ↦ none | some raw ↦ verify_raw raw secret ])

abbrev limit : ℕ → ℕ
limit zero = 1
limit (suc k) = limit k * 256

of_bytes-snoc :
    (acc : ℕ) (bs : List ℕ) (b : ℕ) → of_bytes acc (bs ++ b ∷ []) ≡ of_bytes acc bs * 256 + b
unfolding of_bytes
of_bytes-snoc acc [] b = refl
of_bytes-snoc acc (c ∷ bs) b = of_bytes-snoc (acc * 256 + c) bs b

of_bytes-to_bytes : (k n : ℕ) → n < limit k → of_bytes 0 (to_bytes k n) ≡ n
unfolding of_bytes to_bytes
of_bytes-to_bytes zero n h = omega (arith, h)
of_bytes-to_bytes (suc k) n h =
    of_bytes-snoc 0 (to_bytes k (n / 256)) (n % 256)
    ∙ rw (of_bytes-to_bytes k (n / 256) (omega (arith, h))) (omega arith)

length-to_bytes : (k n : ℕ) → length (to_bytes k n) ≡ k
unfolding to_bytes
length-to_bytes zero n = refl
length-to_bytes (suc k) n =
    length-append (to_bytes k (n / 256)) (n % 256 ∷ [])
    ∙ rw (length-to_bytes k (n / 256)) (omega arith)

split_at :
    (n : ℕ) (xs ys : List ℕ) → length xs ≡ n → (take n (xs ++ ys) ≡ xs) × (drop n (xs ++ ys) ≡ ys)
split_at zero [] ys h = (refl, refl)
split_at (suc n) [] ys h = absurd (omega arith)
split_at zero (x ∷ xs) ys h = absurd (omega arith)
split_at (suc n) (x ∷ xs) ys h = let (a, b) = split_at n xs ys (omega arith) in (ap (◌∷◌ x) a, b)

bytes_eq_refl : (xs : List ℕ) → bytes_eq xs xs ≡ true
unfolding bytes_eq
bytes_eq_refl [] = refl
bytes_eq_refl (x ∷ xs) = ground (arith, bytes_eq_refl xs)

bytes_eq_sound : (xs ys : List ℕ) → bytes_eq xs ys ≡ true → xs ≡ ys
unfolding bytes_eq
bytes_eq_sound [] [] h = refl
bytes_eq_sound [] (y ∷ ys) h = cc
bytes_eq_sound (x ∷ xs) [] h = cc
bytes_eq_sound (x ∷ xs) (y ∷ ys) h = ground (arith, h, bytes_eq_sound xs ys)

-- The numbers of Go's int64.
abbrev InRange : ℤ → Type 0
InRange (pos n) = n < 9223372036854775808
InRange (negsuc n) = n < 9223372036854775808

int64-uint64 : (x : ℤ) → InRange x → int64 (uint64 x) ≡ x
unfolding int64 uint64
int64-uint64 (pos n) h =
    let same : n % 18446744073709551616 ≡ n = omega (arith, h) in
    rw same (rw (lt→ltb n 9223372036854775808 h) refl)
int64-uint64 (negsuc n) h =
    let same : n % 18446744073709551616 ≡ n = omega (arith, h) in
    let high : ltb (18446744073709551615 - n) 9223372036854775808 ≡ false = ground (arith, h) in
    let back : 18446744073709551615 - (18446744073709551615 - n) ≡ n = omega (arith, h) in
    rw same (rw high (ap negsuc back))

uint64_bound : (x : ℤ) → uint64 x < 18446744073709551616
unfolding uint64
uint64_bound (pos n) = omega arith
uint64_bound (negsuc n) = omega arith

-- A MAC has 32 bytes, decoding undoes encoding, and the empty text has no bytes.
module _ {Text : Type 0} (is_empty : Text → Bool) (mac : List ℕ → List ℕ → List ℕ)
    (encode : List ℕ → Text) (decode : Text → Option (List ℕ))
    (sized : (secret payload : List ℕ) → length (mac secret payload) ≡ 32)
    (decodes : (bytes : List ℕ) → decode (encode bytes) ≡ some bytes)
    (empty : (text : Text) → is_empty text ≡ true → decode text ≡ some []) where
  verify_raw-signed :
      (x : ℤ) (secret : List ℕ)
      → InRange x
      → let payload = to_bytes 8 (uint64 x) in
        verify_raw is_empty mac encode decode (payload ++ mac secret payload) secret ≡ some x
  unfolding verify_raw
  verify_raw-signed x secret r =
      let payload = to_bytes 8 (uint64 x) in
      let size : (length (payload ++ mac secret payload) == 40) ≡ true = ground (
        arith,
        length-append payload (mac secret payload),
        length-to_bytes 8 (uint64 x),
        sized secret payload,
      ) in
      let (front, back) = split_at 8 payload (mac secret payload) (length-to_bytes 8 (uint64 x)) in
      let number = of_bytes-to_bytes 8 (uint64 x) (uint64_bound x) in
      rw (size, verify_raw)
        (rw (front, back)
          (rw (bytes_eq_refl (mac secret payload)) (ap some (ap int64 number ∙ int64-uint64 x r))))

  encode_named : (bytes : List ℕ) → length bytes ≡ 40 → is_empty (encode bytes) ≡ false
  encode_named [] h = absurd (omega arith)
  encode_named (b ∷ bs) h = elim (Bool-cases (is_empty (encode (b ∷ bs)))) [
    | inr e ↦ e
    | inl e ↦
        (let same : some (b ∷ bs) ≡ some [] = sym (decodes (b ∷ bs)) ∙ empty (encode (b ∷ bs)) e in
          cc)
  ]

  -- A signed cursor of an int64 is verified under the same secret and gives the number back, if a
  -- MAC has 32 bytes and base64 decodes what it encodes.
  pub verify-sign :
      (x : ℤ) (secret : List ℕ)
      → InRange x
      → verify is_empty mac encode decode (sign is_empty mac encode decode x secret) secret ≡ some x
  unfolding verify sign
  verify-sign x secret r =
      let payload = to_bytes 8 (uint64 x) in
      let bytes = payload ++ mac secret payload in
      let size : length bytes ≡ 40 =
        length-append payload (mac secret payload)
        ∙ rw (length-to_bytes 8 (uint64 x), sized secret payload) refl in
      rw (encode_named bytes size, verify) (rw (decodes bytes) (verify_raw-signed x secret r))

  some-none : {A : Type 0} (a : A) → some a ≡ none → ⊥
  some-none a e = cc

  verify_raw_authentic :
      (raw secret : List ℕ) (x : ℤ)
      → verify_raw is_empty mac encode decode raw secret ≡ some x
      → (payload : List ℕ) × (raw ≡ payload ++ mac secret payload)
  unfolding verify_raw
  verify_raw_authentic raw secret x h =
      elim (Bool-cases (bytes_eq (drop 8 raw) (mac secret (take 8 raw)))) [
        | inl e ↦ (
          take 8 raw,
          sym (take-drop 8 raw)
              ∙ ap (λ l. take 8 raw ++ l) (bytes_eq_sound (drop 8 raw) (mac secret (take 8 raw)) e),
        )
        | inr e ↦
            (let failed : verify_raw is_empty mac encode decode raw secret ≡ none =
                rw (e, verify_raw) (ground arith) in
              absurd (some-none x (sym h ∙ failed)))
      ]

  -- A cursor that is verified, and is not empty, decodes to a payload with its MAC under the
  -- secret.
  verify_authentic :
      (encoded : Text) (secret : List ℕ) (x : ℤ)
      → is_empty encoded ≡ false
      → verify is_empty mac encode decode encoded secret ≡ some x
      → (payload : List ℕ) × (decode encoded ≡ some (payload ++ mac secret payload))
  unfolding verify
  verify_authentic encoded secret x e h = elim (Option-cases (decode encoded)) [
    | inl n ↦
        (let failed : verify is_empty mac encode decode encoded secret ≡ none =
            rw (e, verify) (rw n refl) in
          absurd (some-none x (sym h ∙ failed)))
    | inr (raw, k) ↦
        (let run : verify is_empty mac encode decode encoded secret
              ≡ verify_raw is_empty mac encode decode raw secret =
            rw (e, verify) (rw k refl) in
          let (payload, same) = verify_raw_authentic raw secret x (sym run ∙ h) in
          (payload, k ∙ ap some same))
  ]
