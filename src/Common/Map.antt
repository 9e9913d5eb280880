-- ===== src/Common/Map.antt =====
-- JavaScript's `Map`: an association list in insertion order. `set` on a present key keeps its
-- place, on a new key appends; `delete` removes. Keys are compared by the test of an `Eq` instance.
use Prim.Native.String.{String}
use mathlib.Core.Path.{◌≡◌, refl}
use mathlib.Core.Logic.{◌↔◌, ◌⊎◌, inl}
use mathlib.Core.Bool.{Bool, true, false, ◌||◌}
use mathlib.Core.List.{List, [], ◌∷◌, ◌++◌, map}
use mathlib.Core.Option.{Option, none, some}
use native.Mathlib.Omega.{arith}
use text.Mathlib.Text.{◌==◌ as str_eq}
use text.Mathlib.TextEquality.{eq_iff as str_eq_iff}
use mr_robot.Common.Tests.{if◌then◌else◌}
use mr_robot.Common.Text.{Text}
use mr_robot.Common.Text

pub record Eq {ℓ} (K : Type ℓ) : Type ℓ where
  pub beq : K → K → Bool
  pub beq_iff : (a b : K) → (beq a b ≡ true) ↔ (a ≡ b)

instance abbrev pub text_eq : Eq Text
text_eq = record { beq = Text.◌==◌; beq_iff = Text.eq_iff }

instance abbrev pub string_eq : Eq String
string_eq = record { beq = str_eq; beq_iff = str_eq_iff }

abbrev pub Map {ℓ} : Type ℓ → Type ℓ → Type ℓ
Map K V = List (K × V)

-- [...map.values()]
unfoldable pub values {ℓ} : {K V : Type ℓ} → Map K V → List V
values [] = []
values ((j, v) ∷ m) = v ∷ values m

module _ {ℓ} {K V : Type ℓ} ⦃e : Eq K⦄ where
  -- map.get(k)
  unfoldable pub get : K → Map K V → Option V
  get k [] = none
  get k ((j, v) ∷ m) = if e.beq j k then some v else get k m

  -- map.set(k, v)
  unfoldable pub set : K → V → Map K V → Map K V
  set k v [] = (k, v) ∷ []
  set k v ((j, w) ∷ m) = if e.beq j k then (j, v) ∷ m else (j, w) ∷ set k v m

  -- map.delete(k)
  unfoldable pub delete : K → Map K V → Map K V
  delete k [] = []
  delete k ((j, w) ∷ m) = let rest = delete k m in if e.beq j k then rest else (j, w) ∷ rest

  pub get-set :
      (k j : K) (v : V) (m : Map K V) → get j (set k v m) ≡ (if e.beq k j then some v else get j m)
  unfolding get set
  get-set k j v [] = refl
  get-set k j v ((i, w) ∷ m) =
      ground (arith, e.beq_iff k j, e.beq_iff i k, e.beq_iff i j, get-set k j v m)

  pub get-delete :
      (k j : K) (m : Map K V) → get j (delete k m) ≡ (if e.beq k j then none else get j m)
  unfolding get delete
  get-delete k j [] = ground arith
  get-delete k j ((i, w) ∷ m) =
      ground (arith, e.beq_iff k j, e.beq_iff i k, e.beq_iff i j, get-delete k j m)

module _ {ℓ} {K : Type ℓ} ⦃e : Eq K⦄ where
  -- set.has(x), list.includes(x)
  unfoldable pub has : K → List K → Bool
  has x [] = false
  has x (y ∷ ys) = e.beq y x || has x ys

  pub has-snoc : (k x : K) (xs : List K) → has k (xs ++ x ∷ []) ≡ (has k xs || e.beq x k)
  unfolding has
  has-snoc k x [] = ground arith
  has-snoc k x (y ∷ xs) = ground (arith, has-snoc k x xs)

module _ {ℓ} {K V : Type ℓ} ⦃e : Eq K⦄ where
  -- [...map.keys()]
  abbrev pub keys : Map K V → List K
  keys m = map (λ (p : K × V). p.0) m

  pub get-keys : (k : K) (m : Map K V) → (get k m ≡ none) ⊎ (has k (keys m) ≡ true)
  unfolding get has
  get-keys k [] = inl refl
  get-keys k ((j, v) ∷ m) = ground (arith, get-keys k m)

  -- A map in which every key is missing is the empty one.
  pub missing_all : (m : Map K V) → ((k : K) → get k m ≡ none) → m ≡ []
  unfolding get
  missing_all [] h = refl
  missing_all ((j, v) ∷ m) h = ground (arith, h j, e.beq_iff j j)

  -- A value with the id of its key is among the values.
  pub has-values :
      (id : V → K) (k : K) (v : V) (m : Map K V)
      → get k m ≡ some v
      → id v ≡ k
      → has k (map id (values m)) ≡ true
  unfolding get has values
  has-values id k v [] g is = ground arith
  has-values id k v ((j, w) ∷ m) g is = ground (arith, has-values id k v m, e.beq_iff (id w) k)
