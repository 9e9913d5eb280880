-- ===== src/Policy/Gate/Paths.antt =====
-- The protected paths of policy/gate.ts: what `PROTECTED_PATH` and `mentionsProtectedPath` find.
use mr_robot.Common.{
  ◌≡◌, refl, ap, ◌↔◌, inl, inr, Bool, true, false, ◌&&◌, [], ◌∷◌, ◌++◌, map, arith, Bool-cases,
}
use mr_robot.Common.Text.{Text, ◌==◌, is_prefix, lower}
use mr_robot.Events.Canonical.{
  Json, Items, Fields, null, undef, fraction, exotic, unsupported, bool, str, int, arr, obj, nil,
  cons, end, field,
}
use mr_robot.Policy.Gate.{
  is_separator, names_protected, protected_from, is_protected, mentions_protected, mentions_items,
  mentions_fields,
}

-- Whether a text that begins at a boundary, or not, ends at one.
pub at_boundary : Bool → Text → Bool
at_boundary b [] = b
at_boundary b (u ∷ p) = at_boundary (is_separator u) p

pub record Split (b : Bool) (s : Text) : Type 0 where
  pub before : Text
  pub rest : Text
  pub whole : s ≡ before ++ rest
  pub boundary : at_boundary b before ≡ true
  pub name : names_protected rest ≡ true

find-Split : (b : Bool) (s : Text) → protected_from b s ≡ true → Split b s
unfolding protected_from at_boundary
find-Split b [] h = cc
find-Split b (u ∷ t) h = elim (Bool-cases (b && names_protected (u ∷ t))) [
  | inl here ↦ record {
    before = [];
    rest = u ∷ t;
    whole = refl;
    boundary = ground arith;
    name = ground arith;
  }
  | inr no_name ↦
      let later = find-Split (is_separator u) t (ground arith) in
      record {
        before = u ∷ later.before;
        rest = later.rest;
        whole = ap (λ l. u ∷ l) later.whole;
        boundary = later.boundary;
        name = later.name;
      }
]

no_name : names_protected [] ≡ false
unfolding names_protected is_prefix ◌==◌
no_name = refl

split_found :
    (b : Bool) (before rest : Text)
    → at_boundary b before ≡ true
    → names_protected rest ≡ true
    → protected_from b (before ++ rest) ≡ true
unfolding protected_from at_boundary
split_found b [] [] h n = cc no_name
split_found b [] (v ∷ rest) h n = ground arith
split_found b (u ∷ before) rest h n = ground (arith, split_found (is_separator u) before rest h n)

-- A text is protected exactly when, with its letters folded, it has `souls` as a path segment or ends in
-- the segment `agents.md`, at its start or behind a slash or a backslash.
pub is_protected_exactly : (s : Text) → (is_protected s ≡ true) ↔ Split true (map lower s)
unfolding is_protected
is_protected_exactly s = (
  find-Split true (map lower s),
  λ p. rw p.whole (split_found true p.before p.rest p.boundary p.name),
)

-- A string somewhere in a value, at any depth.
mutual
  pub data StringIn (s : Text) : Json → Type 0 where
    itself : StringIn s (str s)
    element : {xs : Items} → InItems s xs → StringIn s (arr xs)
    value : {fs : Fields} → InFields s fs → StringIn s (obj fs)

  pub data InItems (s : Text) : Items → Type 0 where
    first : {x : Json} {xs : Items} → StringIn s x → InItems s (cons x xs)
    later : {x : Json} {xs : Items} → InItems s xs → InItems s (cons x xs)

  pub data InFields (s : Text) : Fields → Type 0 where
    this : {k : Text} {v : Json} {fs : Fields} → StringIn s v → InFields s (field k v fs)
    other : {k : Text} {v : Json} {fs : Fields} → InFields s fs → InFields s (field k v fs)

mutual
  unfolding mentions_protected

  found_in :
      (j : Json) → mentions_protected j ≡ true → (s : Text) × StringIn s j × (is_protected s ≡ true)
  found_in null h = cc
  found_in undef h = cc
  found_in fraction h = cc
  found_in exotic h = cc
  found_in unsupported h = cc
  found_in (bool b) h = cc
  found_in (str s) h = (s, itself, h)
  found_in (int n) h = cc
  found_in (arr xs) h = let (s, i, p) = found_in_items xs h in (s, element i, p)
  found_in (obj fs) h = let (s, i, p) = found_in_fields fs h in (s, value i, p)

  found_in_items :
      (xs : Items) → mentions_items xs ≡ true → (s : Text) × InItems s xs × (is_protected s ≡ true)
  found_in_items nil h = cc
  found_in_items (cons x xs) h = elim (Bool-cases (mentions_protected x)) [
    | inl here ↦ let (s, i, p) = found_in x here in (s, first i, p)
    | inr elsewhere ↦ let (s, i, p) = found_in_items xs (ground arith) in (s, later i, p)
  ]

  found_in_fields :
      (fs : Fields)
      → mentions_fields fs ≡ true
      → (s : Text) × InFields s fs × (is_protected s ≡ true)
  found_in_fields end h = cc
  found_in_fields (field k v fs) h = elim (Bool-cases (mentions_protected v)) [
    | inl here ↦ let (s, i, p) = found_in v here in (s, this i, p)
    | inr elsewhere ↦ let (s, i, p) = found_in_fields fs (ground arith) in (s, other i, p)
  ]

mutual
  unfolding mentions_protected

  mentioned :
      {s : Text} {j : Json} → StringIn s j → is_protected s ≡ true → mentions_protected j ≡ true
  mentioned itself p = p
  mentioned (element i) p = mentioned_items i p
  mentioned (value i) p = mentioned_fields i p

  mentioned_items :
      {s : Text} {xs : Items} → InItems s xs → is_protected s ≡ true → mentions_items xs ≡ true
  mentioned_items (first {x = x} {xs = xs} i) p = ground (arith, mentioned i p)
  mentioned_items (later {x = x} {xs = xs} i) p = ground (arith, mentioned_items i p)

  mentioned_fields :
      {s : Text} {fs : Fields} → InFields s fs → is_protected s ≡ true → mentions_fields fs ≡ true
  mentioned_fields (this {v = v} {fs = fs} i) p = ground (arith, mentioned i p)
  mentioned_fields (other {v = v} {fs = fs} i) p = ground (arith, mentioned_fields i p)

-- The search of the arguments misses nothing and invents nothing: it answers yes exactly when a protected
-- string stands somewhere in the value, at any depth of arrays and objects.
pub mentions_protected_exactly :
    (j : Json)
    → (mentions_protected j ≡ true) ↔ ((s : Text) × StringIn s j × (is_protected s ≡ true))
mentions_protected_exactly j = (found_in j, λ (s, i, p). mentioned i p)
