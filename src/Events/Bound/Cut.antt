-- ===== src/Events/Bound/Cut.antt =====
-- The cut of utf8CutPoint in events/bound.ts falls between code points.
use mr_robot.Common.{
  ℕ, zero, suc, ◌+◌, ◌-◌, ◌/◌, ◌%◌, ◌≤◌, ◌<◌, ◌≡◌, refl, sym, ap, ◌∙◌, subst, ◌⊎◌, inl, inr, true,
  false, ◌&&◌, none, some, List, [], ◌∷◌, ◌++◌, length, take, get_elem?, ltb, leb, arith, All,
  Bool-cases, Option-cases, if_both, leb→le,
}
use mathlib.Core.List.{append_assoc, append-nil, head-eq_of_cons-eq}
use mr_robot.Common.Text.{Text}
use mr_robot.Events.Bound.Utf8.{
  is_high, is_low, unit_bytes, code_point, pair_bytes, encode, is_continuation, back,
  utf8_cut_point, kept_bytes,
}

-- The bytes of one code point: only the first is no continuation, and at most three are.
IsPoint : List ℕ → Type 0
IsPoint [] = ⊥
IsPoint (b ∷ bs) =
    (is_continuation b ≡ false) × All (λ c. is_continuation c ≡ true) bs × (length bs ≤ 3)

-- Bytes that do not go on with a code point.
Starts : List ℕ → Type 0
Starts [] = Unit
Starts (b ∷ bs) = is_continuation b ≡ false

goes_on : (x : ℕ) → is_continuation (0x80 + x % 64) ≡ true
unfolding is_continuation
goes_on x = ground arith

leads : (x : ℕ) → 0xc0 ≤ x → is_continuation x ≡ false
unfolding is_continuation
leads x h = ground (arith, h)

ascii : (u : ℕ) → ltb u 0x80 ≡ true → is_continuation u ≡ false
unfolding is_continuation
ascii u h = ground (arith, h)

unit_bytes-IsPoint : (u : ℕ) → IsPoint (unit_bytes u)
unfolding IsPoint unit_bytes
unit_bytes-IsPoint u = elim (Bool-cases (ltb u 0x80)) [
  | inl e ↦ rw e (ascii u e, tt, omega arith)
  | inr e ↦ rw e (
      if_both IsPoint (ltb u 0x800) {x = (0xc0 + u / 64) ∷ (0x80 + u % 64) ∷ []}
        (leads (0xc0 + u / 64) (omega arith), (goes_on u, tt), omega arith)
        (if_both IsPoint (leb 0xd800 u && leb u 0xdfff) {x = 0xef ∷ 0xbf ∷ 0xbd ∷ []}
          (leads 0xef (omega arith), (goes_on 63, (goes_on 61, tt)), omega arith)
          (
            leads (0xe0 + u / 4096) (omega arith),
            (goes_on (u / 64), (goes_on u, tt)),
            omega arith,
          )))
]

pair_bytes-IsPoint : (u v : ℕ) → IsPoint (pair_bytes u v)
unfolding IsPoint pair_bytes
pair_bytes-IsPoint u v = (
  leads (0xf0 + code_point u v / 262144) (omega arith),
  (
    goes_on (code_point u v / 4096),
    (goes_on (code_point u v / 64), (goes_on (code_point u v), tt)),
  ),
  omega arith,
)

point-Starts : (c rest : List ℕ) → IsPoint c → Starts (c ++ rest)
unfolding IsPoint Starts
point-Starts [] rest h = absurd h
point-Starts (b ∷ bs) rest h = h.0

continued :
    (bs rest : List ℕ) (i : ℕ)
    → All (λ c. is_continuation c ≡ true) bs
    → i < length bs
    → (b : ℕ) × (get_elem? (bs ++ rest) i ≡ some b) × (is_continuation b ≡ true)
continued [] rest i h lt = absurd (omega arith)
continued (b ∷ bs) rest zero h lt = (b, refl, h.0)
continued (b ∷ bs) rest (suc i) h lt = continued bs rest i h.1 (omega (arith, lt))

-- From within a code point the walk goes back to its start.
back_within :
    (b : ℕ) (bs rest : List ℕ) (end : ℕ)
    → All (λ c. is_continuation c ≡ true) bs
    → end ≤ length bs
    → back ((b ∷ bs) ++ rest) end ≡ 0
unfolding back
back_within b bs rest zero h le = refl
back_within b bs rest (suc end) h le =
    let (c, at, goes_on) = continued bs rest end h (omega (arith, le)) in
    ground (arith, at, goes_on, back_within b bs rest end h (omega (arith, le)))

get-past : (c rest : List ℕ) (i : ℕ) → get_elem? (c ++ rest) (length c + i) ≡ get_elem? rest i
get-past [] rest i =
    subst (λ j. get_elem? rest j ≡ get_elem? rest i) {x = i} {y = 0 + i} (omega arith) refl
get-past (b ∷ c) rest i =
    subst (λ j. get_elem? ((b ∷ c) ++ rest) j ≡ get_elem? rest i) {x = suc (length c + i)}
      {y = suc (length c) + i} (omega arith) (get-past c rest i)

back_step :
    (buf rest : List ℕ) (k e : ℕ)
    → get_elem? buf (suc (k + e)) ≡ get_elem? rest (suc e)
    → back buf (k + e) ≡ k + back rest e
    → back buf (suc (k + e)) ≡ k + back rest (suc e)
unfolding back
back_step buf rest k e at ih = elim (Option-cases (get_elem? rest (suc e))) [
  | inl gone ↦ ground (arith, at, gone)
  | inr (b, there) ↦ ground (arith, at, there, ih)
]

back_edge :
    (b : ℕ) (bs rest : List ℕ)
    → Starts rest
    → back ((b ∷ bs) ++ rest) (suc (length bs)) ≡ suc (length bs)
unfolding back Starts
back_edge b bs [] st = ground (
  arith,
  get-past bs [] 0,
  subst (λ j. get_elem? (bs ++ []) j ≡ none) {x = length bs + 0} {y = length bs} (omega arith)
      (get-past bs [] 0),
)
back_edge b bs (x ∷ rest) st = ground (
  arith,
  st,
  subst (λ j. get_elem? (bs ++ x ∷ rest) j ≡ some x) {x = length bs + 0} {y = length bs}
      (omega arith) (get-past bs (x ∷ rest) 0),
)

-- From past a code point the walk stops where it would without it.
back_past :
    (b : ℕ) (bs rest : List ℕ) (end : ℕ)
    → Starts rest
    → back ((b ∷ bs) ++ rest) (suc (length bs) + end) ≡ suc (length bs) + back rest end
unfolding back
back_past b bs rest zero st =
    subst (λ j. back ((b ∷ bs) ++ rest) j ≡ j) {x = suc (length bs)} {y = suc (length bs) + 0}
      (omega arith) (back_edge b bs rest st)
back_past b bs rest (suc end) st =
    subst (λ j. back ((b ∷ bs) ++ rest) j ≡ suc (length bs) + back rest (suc end))
      {x = suc (suc (length bs) + end)} {y = suc (length bs) + suc end} (omega arith)
      (back_step ((b ∷ bs) ++ rest) rest (suc (length bs)) end
        (subst (λ j. get_elem? (bs ++ rest) j ≡ get_elem? rest (suc end)) {x = length bs + suc end}
          {y = suc (length bs) + end} (omega arith) (get-past bs rest (suc end)))
        (back_past b bs rest end st))

take-past : (c rest : List ℕ) (n : ℕ) → take (length c + n) (c ++ rest) ≡ c ++ take n rest
take-past [] rest n = subst (λ j. take j rest ≡ take n rest) {x = n} {y = 0 + n} (omega arith) refl
take-past (b ∷ c) rest n =
    subst (λ j. take j ((b ∷ c) ++ rest) ≡ (b ∷ c) ++ take n rest) {x = suc (length c + n)}
      {y = suc (length c) + n} (omega arith) (ap (λ l. b ∷ l) (take-past c rest n))

-- What stays of the bytes of a text is the bytes of a first part of it, and what goes is less than the
-- bytes of a code point.
Parts : Text → List ℕ → ℕ → Type 0
Parts s buf end =
    (p : Text) × (q : Text) × (s ≡ p ++ q)
    × (take (back buf end) buf ≡ encode p)
    × (back buf end ≤ end)
    × (end ≤ back buf end + 3)

point-Parts :
    (piece t : Text) (c rest : List ℕ)
    → IsPoint c
    → Starts rest
    → ((p q : Text) → t ≡ p ++ q → encode (piece ++ p) ≡ c ++ encode p)
    → ((e : ℕ) → Parts t rest e)
    → (end : ℕ) → Parts (piece ++ t) (c ++ rest) end
unfolding IsPoint Parts encode
point-Parts piece t [] rest h st enc parts end = absurd h
point-Parts piece t (b ∷ bs) rest h st enc parts end = elim (Bool-cases (leb end (length bs))) [
  | inl short ↦ within (leb→le end (length bs) short)
  | inr long ↦
      subst (Parts (piece ++ t) ((b ∷ bs) ++ rest)) {x = suc (length bs) + (end - suc (length bs))}
        {y = end} (ground (arith, long)) (past (end - suc (length bs)))
]
  where
    within : end ≤ length bs → Parts (piece ++ t) ((b ∷ bs) ++ rest) end
    within le = (
      [],
      piece ++ t,
      refl,
      subst (λ k. take k ((b ∷ bs) ++ rest) ≡ []) (sym start) refl,
      omega (arith, start),
      omega (arith, start, h.2, le),
    )
      where
        start : back ((b ∷ bs) ++ rest) end ≡ 0
        start = back_within b bs rest end h.1 le

    past : (e : ℕ) → Parts (piece ++ t) ((b ∷ bs) ++ rest) (suc (length bs) + e)
    past e = go (parts e)
      where
        shift : back ((b ∷ bs) ++ rest) (suc (length bs) + e) ≡ suc (length bs) + back rest e
        shift = back_past b bs rest e st

        go : Parts t rest e → Parts (piece ++ t) ((b ∷ bs) ++ rest) (suc (length bs) + e)
        go (p, q, is, kept, le, near) = (
          piece ++ p,
          q,
          ap (λ l. piece ++ l) is ∙ sym (append_assoc piece p q),
          subst (λ k. take k ((b ∷ bs) ++ rest) ≡ encode (piece ++ p)) (sym shift)
              (take-past (b ∷ bs) rest (back rest e)
                ∙ ap (λ l. (b ∷ bs) ++ l) kept
                ∙ sym (enc p q is)),
          omega (arith, shift, le),
          omega (arith, shift, near),
        )

IsPoint-Starts : (c : List ℕ) → IsPoint c → Starts c
unfolding IsPoint Starts
IsPoint-Starts [] h = tt
IsPoint-Starts (b ∷ bs) h = h.0

encode-Starts : (s : Text) → Starts (encode s)
unfolding encode Starts
encode-Starts [] = tt
encode-Starts (u ∷ []) = IsPoint-Starts (unit_bytes u) (unit_bytes-IsPoint u)
encode-Starts (u ∷ v ∷ t) =
    if_both Starts (is_high u && is_low v) {x = pair_bytes u v ++ encode t}
      {y = unit_bytes u ++ encode (v ∷ t)}
      (point-Starts (pair_bytes u v) (encode t) (pair_bytes-IsPoint u v))
      (point-Starts (unit_bytes u) (encode (v ∷ t)) (unit_bytes-IsPoint u))

none-Parts : (end : ℕ) → Parts [] [] end
unfolding Parts encode back
none-Parts zero = ([], [], refl, refl, omega arith, omega arith)
none-Parts (suc end) = ([], [], refl, refl, omega arith, omega arith)

encode-unit :
    (u v : ℕ) (t p q : Text)
    → (is_high u && is_low v) ≡ false
    → v ∷ t ≡ p ++ q
    → encode (u ∷ p) ≡ unit_bytes u ++ encode p
unfolding encode
encode-unit u v t [] q lone is = sym (append-nil (unit_bytes u))
encode-unit u v t (w ∷ p) q lone is = rw same refl
  where
    same : (is_high u && is_low w) ≡ false
    same = subst (λ x. (is_high u && is_low x) ≡ false) (head-eq_of_cons-eq is) lone

encode-last : (u : ℕ) (p q : Text) → [] ≡ p ++ q → encode (u ∷ p) ≡ unit_bytes u ++ encode p
unfolding encode
encode-last u [] q is = sym (append-nil (unit_bytes u))
encode-last u (w ∷ p) q is = absurd (ground (arith, is))

encode-Parts : (s : Text) (end : ℕ) → Parts s (encode s) end
unfolding encode Starts
encode-Parts [] end = none-Parts end
encode-Parts (u ∷ []) end =
    subst (λ l. Parts (u ∷ []) l end) (append-nil (unit_bytes u))
      (point-Parts (u ∷ []) [] (unit_bytes u) [] (unit_bytes-IsPoint u) (encode-Starts [])
        (λ p q is. encode-last u p q is) none-Parts end)
encode-Parts (u ∷ v ∷ t) end = elim (Bool-cases (is_high u && is_low v)) [
  | inl pair ↦ rw pair (
      point-Parts (u ∷ v ∷ []) t (pair_bytes u v) (encode t) (pair_bytes-IsPoint u v)
        (encode-Starts t) (λ p q is. rw pair refl) (encode-Parts t) end)
  | inr lone ↦ rw lone (
      point-Parts (u ∷ []) (v ∷ t) (unit_bytes u) (encode (v ∷ t)) (unit_bytes-IsPoint u)
        (encode-Starts (v ∷ t)) (λ p q is. encode-unit u v t p q lone is) (encode-Parts (v ∷ t))
        end)
]

take_all : (bs : List ℕ) → take (length bs) bs ≡ bs
take_all [] = refl
take_all (b ∷ bs) = ap (λ l. b ∷ l) (take_all bs)

-- The bytes that a cut keeps are those of a first part of the text, so no code point is halved. They are
-- at most `max`, and when any of the text is lost, at most three fewer.
pub cut_keeps_points_whole :
    (s : Text) (max : ℕ)
    → (p : Text) × (q : Text) × (s ≡ p ++ q)
      × (kept_bytes (encode s) max ≡ encode p)
      × (utf8_cut_point (encode s) max ≤ max)
      × ((q ≡ []) ⊎ (max ≤ utf8_cut_point (encode s) max + 3))
unfolding kept_bytes utf8_cut_point Parts
cut_keeps_points_whole s max = elim (Bool-cases (leb (length (encode s)) max)) [
  | inl fits ↦
      (s, [], sym (append-nil s), rw fits (take_all (encode s)), ground (arith, fits), inl refl)
  | inr long ↦ cut (encode-Parts s max) long
]
  where
    cut :
        Parts s (encode s) max
        → leb (length (encode s)) max ≡ false
        → (p : Text) × (q : Text) × (s ≡ p ++ q)
          × (kept_bytes (encode s) max ≡ encode p)
          × (utf8_cut_point (encode s) max ≤ max)
          × ((q ≡ []) ⊎ (max ≤ utf8_cut_point (encode s) max + 3))
    cut (p, q, is, kept, le, near) long = (p, q, is, rw long kept, rw long le, inr (rw long near))
