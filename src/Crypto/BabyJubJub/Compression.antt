-- ===== src/Crypto/BabyJubJub/Compression.antt =====
-- `compress_point` and `decompress_point`: 32 bytes and back.
use ocash_sdk.Prelude.{
  ℕ, zero, suc, ◌-◌, ◌*◌, ◌%◌, ◌^◌, ◌≤◌, ◌<◌, ◌≡◌, ◌≢◌, refl, sym, ap, ◌∙◌, Bool, true, false, ◌==◌,
  ltb, leb, List, [], ◌∷◌, length, Option, none, some, Bool-cases, inl, inr, ==_iff, lt→ltb, le→ltb,
  arith, if◌then◌else◌, All,
}
use native.Mathlib.Nat
use ocash_sdk.Prelude.Results.{Result, ok, err}
use ocash_sdk.Crypto.FixedBytes.{fixed_bytes_to_big_int, byte_at}
use ocash_sdk.Crypto.FixedBytes.Values.{bytes_larger_lem}
use ocash_sdk.Crypto.FixedBytes.RoundTrip.{IsByte, big_int_to_fixed_bytes-fixed_bytes_to_big_int}
use ocash_sdk.Crypto.Modular.{CurveError, mod_sqrt}
use ocash_sdk.Crypto.Modular.Roots.Bounds.{FoundRoot, mod_sqrt-lt}
use ocash_sdk.Crypto.BabyJubJub.{
  CurvePoint, with_root, x_from_inverse, is_point_on_curve, is_lexicographically_largest, negated,
  change_byte, set_sign_bit, clear_sign_bit, compress_point, decompress_point, recover_x_coordinate,
  recovered, choose_root, babyjubjub_scalar_field,
}

-- An element of the field is the larger one where it is above its negative.
pub is_lexicographically_largest_lem :
    (x : ℕ)
    → x ≤ babyjubjub_scalar_field
    → is_lexicographically_largest x
      ≡ ltb ((babyjubjub_scalar_field - x) % babyjubjub_scalar_field) x
unfolding is_lexicographically_largest negated
is_lexicographically_largest_lem x h =
    let p = babyjubjub_scalar_field in
    rw (below h) (
      bytes_larger_lem x ((p - x) % p) 32 32 (omega arith)
      ∙ rw (fits x (omega arith), fits ((p - x) % p) (omega arith)) refl)
  where
    below : x ≤ babyjubjub_scalar_field → leb x babyjubjub_scalar_field ≡ true
    below h = ground arith

    fits : (n : ℕ) → n ≤ babyjubjub_scalar_field → n % 256 ^ 32 ≡ n
    fits n h = Nat.mod-eq_of_lt (omega arith)

-- The negative of an element that is not 0, and which of the two is larger.
negative :
    (r : ℕ)
    → r < babyjubjub_scalar_field
    → (babyjubjub_scalar_field - r) % babyjubjub_scalar_field ≢ 0
    → ((babyjubjub_scalar_field - r) % babyjubjub_scalar_field ≡ babyjubjub_scalar_field - r)
      × (0 < r)
negative r h ne = let hr : 0 < r = ground (arith, ne) in (Nat.mod-eq_of_lt (omega (arith, hr)), hr)

above_half :
    (r : ℕ)
    → r < babyjubjub_scalar_field
    → (babyjubjub_scalar_field - r) % babyjubjub_scalar_field ≢ 0
    → ltb ((babyjubjub_scalar_field - r) % babyjubjub_scalar_field) r ≡ false
    → r < (babyjubjub_scalar_field - r) % babyjubjub_scalar_field
above_half r h ne e = let (n, i) = negative r h ne in ground (arith, n, i)

below_half :
    (r : ℕ)
    → r < babyjubjub_scalar_field
    → ltb ((babyjubjub_scalar_field - r) % babyjubjub_scalar_field) r ≡ true
    → (babyjubjub_scalar_field - r) % babyjubjub_scalar_field ≤ r
below_half r h e = ground arith

negative-sign :
    (r : ℕ)
    → r < babyjubjub_scalar_field
    → (babyjubjub_scalar_field - r) % babyjubjub_scalar_field ≢ 0
    → (b : Bool) → ltb r ((babyjubjub_scalar_field - r) % babyjubjub_scalar_field) ≡ b
    → is_lexicographically_largest ((babyjubjub_scalar_field - r) % babyjubjub_scalar_field) ≡ b
negative-sign r h ne b e =
    let p = babyjubjub_scalar_field in
    let (n, i) = negative r h ne in
    is_lexicographically_largest_lem ((p - r) % p) (omega arith)
    ∙ ap (λ (k : ℕ). ltb k ((p - r) % p)) {x = (p - (p - r) % p) % p} {y = r}
        (omega (arith, n, i, h))
    ∙ e

-- The chosen root has the sign that it was chosen by, unless it is 0.
choose_root-sign :
    (largest : Bool) (r : ℕ)
    → r < babyjubjub_scalar_field
    → choose_root largest r ≢ 0
    → is_lexicographically_largest (choose_root largest r) ≡ largest
choose_root-sign true r h ne = elim (Bool-cases (is_lexicographically_largest r)) [
  | inl e ↦ rw (e, choose_root) e
  | inr e ↦
      rw (e, choose_root)
        (negative-sign r h (rw (e, choose_root) at ne) true (
          lt→ltb _ _ (
            above_half r h (rw (e, choose_root) at ne)
              (sym (is_lexicographically_largest_lem r (omega arith)) ∙ e))))
]
choose_root-sign false r h ne = elim (Bool-cases (is_lexicographically_largest r)) [
  | inl e ↦
      rw (e, choose_root)
        (negative-sign r h (rw (e, choose_root) at ne) false (
          le→ltb _ _ (below_half r h (sym (is_lexicographically_largest_lem r (omega arith)) ∙ e))))
  | inr e ↦ rw (e, choose_root) e
]

recover_inv :
    (y : ℕ) (largest : Bool) (x : ℕ)
    → recover_x_coordinate y largest ≡ some (ok x)
    → (r : ℕ) × (r < babyjubjub_scalar_field) × (x ≡ choose_root largest r)
unfolding recover_x_coordinate
recover_inv y largest x e = from_inverse _ _ e
  where
    from_root :
        (o : Option (Option ℕ))
        → FoundRoot babyjubjub_scalar_field o
        → with_root o largest ≡ some (ok x)
        → (r : ℕ) × (r < babyjubjub_scalar_field) × (x ≡ choose_root largest r)
    from_root none h e = absurd (ground arith)
    from_root (some none) h e = absurd (ground arith)
    from_root (some (some r)) h e = (r, h, ground arith)

    from_inverse :
        (numerator : ℕ) (i : Result CurveError ℕ)
        → x_from_inverse babyjubjub_scalar_field numerator largest i ≡ some (ok x)
        → (r : ℕ) × (r < babyjubjub_scalar_field) × (x ≡ choose_root largest r)
    from_inverse numerator (err f) e = absurd (ground arith)
    from_inverse numerator (ok inverse) e =
        from_root (mod_sqrt (numerator * inverse % babyjubjub_scalar_field) babyjubjub_scalar_field)
          (mod_sqrt-lt babyjubjub_scalar_field (omega arith)
            (numerator * inverse % babyjubjub_scalar_field))
          e

point_of : CurvePoint → Option (Result CurveError CurvePoint) → CurvePoint
point_of q (some (ok r)) = r
point_of q (some (err f)) = q
point_of q none = q

recovered_inv :
    (y : ℕ) (o : Option (Result CurveError ℕ)) (q : CurvePoint)
    → recovered y o ≡ some (ok q)
    → (o ≡ some (ok q.x)) × (q.y ≡ y) × (is_point_on_curve q ≡ true)
unfolding point_of
recovered_inv y none q e = absurd (ground arith)
recovered_inv y (some (err f)) q e = absurd (ground arith)
recovered_inv y (some (ok x)) q e =
    elim (Bool-cases (is_point_on_curve (record { x = x; y = y }))) [
      | inl c ↦
          let same : record { x = x; y = y } ≡ q = ap (point_of q) (rw c at e) in
          (
            ap (λ (k : CurvePoint). some (ok k.x)) same,
            sym (ap (λ (k : CurvePoint). k.y) same),
            ap is_point_on_curve (sym same) ∙ c,
          )
      | inr c ↦ absurd (ground (arith, rw c at e))
    ]

-- Changing byte 31 twice, and its top bit there and back.
change-change :
    (bytes : List ℕ) (i : ℕ) (f g : ℕ → ℕ)
    → i < length bytes
    → f (g (byte_at bytes i)) ≡ byte_at bytes i
    → change_byte f i (change_byte g i bytes) ≡ bytes
change-change [] i f g h e = refl
change-change (b ∷ bytes) zero f g h e = ap (λ (c : ℕ). c ∷ bytes) e
change-change (b ∷ bytes) (suc i) f g h e =
    ap (λ (cs : List ℕ). b ∷ cs) (change-change bytes i f g (omega arith) e)

byte_at-IsByte :
    (bytes : List ℕ) (i : ℕ) → All IsByte bytes → i < length bytes → byte_at bytes i < 256
byte_at-IsByte [] i h lt = absurd (omega arith)
byte_at-IsByte (b ∷ bytes) zero (hb, h) lt = hb
byte_at-IsByte (b ∷ bytes) (suc i) (hb, h) lt = byte_at-IsByte bytes i h (omega arith)

change_byte-IsByte :
    (bytes : List ℕ) (i : ℕ) → All IsByte bytes → All IsByte (change_byte clear_sign_bit i bytes)
change_byte-IsByte [] i h = tt
change_byte-IsByte (b ∷ bytes) zero (hb, h) = (omega arith, h)
change_byte-IsByte (b ∷ bytes) (suc i) (hb, h) = (hb, change_byte-IsByte bytes i h)

length-change_byte :
    (bytes : List ℕ) (i : ℕ) (f : ℕ → ℕ) → length (change_byte f i bytes) ≡ length bytes
length-change_byte [] i f = refl
length-change_byte (b ∷ bytes) zero f = refl
length-change_byte (b ∷ bytes) (suc i) f = ap suc (length-change_byte bytes i f)

sign_restored :
    (bytes : List ℕ)
    → All IsByte bytes
    → length bytes ≡ 32
    → (if leb 128 (byte_at bytes 31)
        then change_byte set_sign_bit 31 (change_byte clear_sign_bit 31 bytes)
        else change_byte clear_sign_bit 31 (change_byte clear_sign_bit 31 bytes))
      ≡ bytes
sign_restored bytes h n =
    let small = byte_at-IsByte bytes 31 h (omega arith) in
    elim (Bool-cases (leb 128 (byte_at bytes 31))) [
      | inl e ↦
          rw (e) (change-change bytes 31 set_sign_bit clear_sign_bit (omega arith) (ground arith))
      | inr e ↦
          rw (e) (change-change bytes 31 clear_sign_bit clear_sign_bit (omega arith) (ground arith))
    ]

-- `decompress_point` and then `compress_point` gives the bytes that were read, where they were
-- accepted and the point's `x` is not 0.
pub compress_point-decompress_point :
    (bytes : List ℕ) (q : CurvePoint)
    → All IsByte bytes
    → decompress_point bytes ≡ some (ok q)
    → q.x ≢ 0
    → compress_point q ≡ ok bytes
unfolding decompress_point compress_point
compress_point-decompress_point bytes q h e ne = elim (Bool-cases (length bytes == 32)) [
  | inr other ↦ absurd (ground (arith, rw other at e))
  | inl full ↦ accepted ((==_iff (length bytes) 32).0 full) (rw full at e)
]
  where
    largest : Bool
    largest = leb 128 (byte_at bytes 31)

    cleared : List ℕ
    cleared = change_byte clear_sign_bit 31 bytes

    y : ℕ
    y = fixed_bytes_to_big_int cleared 32

    accepted :
        length bytes ≡ 32
        → recovered y (recover_x_coordinate y largest) ≡ some (ok q)
        → compress_point q ≡ ok bytes
    accepted n e =
        let (ex, ey, curve) = recovered_inv y (recover_x_coordinate y largest) q e in
        let (r, hr, er) = recover_inv y largest q.x ex in
        let sign : is_lexicographically_largest q.x ≡ largest =
          ap is_lexicographically_largest er ∙ choose_root-sign largest r hr (λ z. ne (er ∙ z)) in
        rw
          (
            curve,
            sign,
            ey,
            big_int_to_fixed_bytes-fixed_bytes_to_big_int cleared 32 (change_byte-IsByte bytes 31 h)
                (length-change_byte bytes 31 clear_sign_bit ∙ n),
          )
          (ap ok (sign_restored bytes h n))
