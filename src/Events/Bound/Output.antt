-- ===== src/Events/Bound/Output.antt =====
-- boundOutput and recordable of events/bound.ts. What is redacted, the decoding of bytes and the digest
-- are arguments.
use mr_robot.Common.{
  ℕ, zero, suc, ◌+◌, ◌-◌, ◌≤◌, ◌≡◌, refl, sym, ap, ◌∙◌, subst, Bool, true, false, ◌&&◌, Option,
  none, some, List, [], ◌∷◌, ◌++◌, length, take, ltb, leb, leb→le, arith, Bool-cases, if_both, ◌⊎◌,
  inl, inr, length-append, if◌then◌else◌,
}
use mathlib.Core.List.{append_assoc}
use mr_robot.Common.Text.{Text}
use mr_robot.Events.Bound.Utf8.{
  is_high, is_low, unit_bytes, pair_bytes, encode, utf8_cut_point, kept_bytes,
}
use mr_robot.Events.Bound.Cut.{cut_keeps_points_whole}

pub record BoundedOutput : Type 0 where
  pub text : Text
  pub truncated : Bool
  pub bytes : ℕ
  pub sha256 : Option Text

module _ (redact : Text → Text) (decode : List ℕ → Text) (sha256_hex : Text → Text) where
  unfoldable pub bound_output : Text → ℕ → BoundedOutput
  bound_output raw max =
      let redacted = redact raw in
      let buf = encode redacted in
      if leb (length buf) max
      then record { text = redacted; truncated = false; bytes = length buf; sha256 = none }
      else record {
        text = decode (kept_bytes buf max);
        truncated = true;
        bytes = length buf;
        sha256 = some (sha256_hex redacted);
      }

  -- `…`
  abbrev pub ellipsis : ℕ
  ellipsis = 0x2026

  -- `none` is a thrown RangeError.
  unfoldable pub recordable : Text → ℕ → Option Text
  recordable raw max_bytes =
      let whole = bound_output raw max_bytes in
      if ltb max_bytes 4
      then none
      else some (
          decode (
            encode (
              if whole.truncated
              then (bound_output raw (max_bytes - 3)).text ++ 0x2026 ∷ []
              else whole.text)))

encode-ellipsis : (s : Text) → encode (s ++ 0x2026 ∷ []) ≡ encode s ++ encode (0x2026 ∷ [])
unfolding encode is_low
encode-ellipsis [] = refl
encode-ellipsis (u ∷ []) = ground arith
encode-ellipsis (u ∷ v ∷ t) = elim (Bool-cases (is_high u && is_low v)) [
  | inl pair ↦ rw pair (
      ap (λ l. pair_bytes u v ++ l) (encode-ellipsis t)
      ∙ sym (append_assoc (pair_bytes u v) (encode t) (encode (0x2026 ∷ []))))
  | inr lone ↦ rw lone (
      ap (λ l. unit_bytes u ++ l) (encode-ellipsis (v ∷ t))
      ∙ sym (append_assoc (unit_bytes u) (encode (v ∷ t)) (encode (0x2026 ∷ []))))
]

length-ellipsis : (s : Text) → length (encode (s ++ 0x2026 ∷ [])) ≡ length (encode s) + 3
unfolding encode unit_bytes
length-ellipsis s = rw (encode-ellipsis s) (length-append (encode s) (encode (0x2026 ∷ [])))

length-take : (n : ℕ) (bs : List ℕ) → length (take n bs) ≤ n
length-take zero bs = omega arith
length-take (suc n) [] = omega arith
length-take (suc n) (b ∷ bs) = omega (arith, length-take n bs)

module _ (redact : Text → Text) (decode : List ℕ → Text) (sha256_hex : Text → Text)
    (round_trip : (s : Text) → encode (decode (encode s)) ≡ encode s) where
  cut_fits : (s : Text) (max : ℕ) → length (encode (decode (kept_bytes (encode s) max))) ≤ max
  cut_fits s max = go (cut_keeps_points_whole s max)
    where
      shorter : utf8_cut_point (encode s) max ≤ max → length (kept_bytes (encode s) max) ≤ max
      shorter le =
          unfold kept_bytes in
          omega (arith, le, length-take (utf8_cut_point (encode s) max) (encode s))

      go :
          (p : Text) × (q : Text) × (s ≡ p ++ q)
            × (kept_bytes (encode s) max ≡ encode p)
            × (utf8_cut_point (encode s) max ≤ max)
            × ((q ≡ []) ⊎ (max ≤ utf8_cut_point (encode s) max + 3))
          → length (encode (decode (kept_bytes (encode s) max))) ≤ max
      go (p, q, is, kept, le, near) =
          subst (λ l. length (encode (decode l)) ≤ max) (sym kept)
            (subst (λ l. length l ≤ max) (kept ∙ sym (round_trip p)) (shorter le))

  bounded_fits :
      (raw : Text) (max : ℕ)
      → length (encode (bound_output redact decode sha256_hex raw max).text) ≤ max
  unfolding bound_output
  bounded_fits raw max = elim (Bool-cases (leb (length (encode (redact raw))) max)) [
    | inl fits ↦ rw fits (leb→le (length (encode (redact raw))) max fits)
    | inr long ↦ rw long (cut_fits (redact raw) max)
  ]

  -- A text that may be recorded has at most the bytes that were asked for, and it is given whenever four
  -- are: when a text that is decoded from the bytes of another has the same bytes.
  pub recordable_fits :
      (raw : Text) (max : ℕ)
      → 4 ≤ max
      → (t : Text) × (recordable redact decode sha256_hex raw max ≡ some t)
        × (length (encode t) ≤ max)
  unfolding recordable
  recordable_fits raw max enough =
      (decode (encode written), given, subst (λ l. length l ≤ max) (sym (round_trip written)) fits)
    where
      written : Text
      written =
          if (bound_output redact decode sha256_hex raw max).truncated
          then (bound_output redact decode sha256_hex raw (max - 3)).text ++ 0x2026 ∷ []
          else (bound_output redact decode sha256_hex raw max).text

      marked :
          length
            (encode ((bound_output redact decode sha256_hex raw (max - 3)).text ++ 0x2026 ∷ []))
          ≤ max
      marked = omega (
        arith,
        enough,
        bounded_fits raw (max - 3),
        length-ellipsis (bound_output redact decode sha256_hex raw (max - 3)).text,
      )

      fits : length (encode written) ≤ max
      fits =
          if_both (λ x. length (encode x) ≤ max)
            (bound_output redact decode sha256_hex raw max).truncated marked (bounded_fits raw max)

      given :
          (if ltb max 4 then none else some (decode (encode written)))
          ≡ some (decode (encode written))
      given = ground (arith, enough)
