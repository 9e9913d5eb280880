-- ===== src/Mcp/Names/RoundTrip.antt =====
-- A built table of mcp/names.ts leads from a ref to its name and back.
use mr_robot.Common.{
  ◌≡◌, ◌↔◌, refl, sym, ◌⊎◌, inl, inr, Bool, true, false, ◌||◌, none, some, List, [], ◌∷◌, arith,
  subst, Bool-cases, Option-cases, if◌then◌else◌,
}
use mr_robot.Common.Text.{Text}
use mr_robot.Common.Map.{text_eq, get, set, get-set, has}
use mr_robot.Mcp.Names.{
  NameTable, Built, built, refused, Refusal, tool_name, tool_ref, is_tool_ref, add_ref, add_refs,
  build_name_table,
}

-- The table knows exactly these refs, each by its name.
record Knows (seen : Text → Bool) (table : NameTable) : Type 0 where
  names :
      (ref : Text) → get ref table.name_by_ref ≡ (if seen ref then some (tool_name ref) else none)
  refs_of :
      (name ref : Text)
      → get name table.ref_by_name ≡ some ref
      → (seen ref ≡ true) × (tool_name ref ≡ name)
  known : (ref : Text) → seen ref ≡ true → get (tool_name ref) table.ref_by_name ≡ some ref

Knows-same :
    (p q : Text → Bool) (t : NameTable) → ((ref : Text) → p ref ≡ q ref) → Knows p t → Knows q t
Knows-same p q t same k = record {
  names = λ r. ground (arith, k.names r, same r);
  refs_of = λ n r g. ground (arith, k.refs_of n r, same r);
  known = λ r s. ground (arith, k.known r, same r);
}

abbrev with_ref : Text → (Text → Bool) → Text → Bool
with_ref ref seen r = text_eq.beq ref r || seen r

add_ref-Knows :
    (ref : Text) (seen : Text → Bool) (t u : NameTable)
    → add_ref ref t ≡ built u
    → Knows seen t
    → Knows (with_ref ref seen) u
unfolding add_ref
add_ref-Knows ref seen t u h k = elim (Bool-cases (is_tool_ref ref)) [
  | inr undotted ↦ ground arith
  | inl dotted ↦ elim (Bool-cases (seen ref)) [
    | inl before ↦
        let same : t ≡ u = ground (arith, k.names ref) in
        rw (sym same)
          (Knows-same seen (with_ref ref seen) t (λ r. ground (arith, text_eq.beq_iff ref r)) k)
    | inr new ↦ elim (Option-cases (get (tool_name ref) t.ref_by_name)) [
      | inr (other, taken) ↦ ground (arith, k.names ref)
      | inl free ↦
          let is : u ≡ record {
            name_by_ref = set ref (tool_name ref) t.name_by_ref;
            ref_by_name = set (tool_name ref) ref t.ref_by_name;
          } =
            ground (arith, k.names ref) in
          rw is (record {
            names = λ r. ground (
              arith,
              get-set ref r (tool_name ref) t.name_by_ref,
              text_eq.beq_iff ref r,
              k.names r,
            );
            refs_of = λ n r g. ground (
              arith,
              get-set (tool_name ref) n ref t.ref_by_name,
              text_eq.beq_iff (tool_name ref) n,
              text_eq.beq_iff ref r,
              k.refs_of n r,
            );
            known = λ r s. ground (
              arith,
              get-set (tool_name ref) (tool_name r) ref t.ref_by_name,
              text_eq.beq_iff (tool_name ref) (tool_name r),
              text_eq.beq_iff ref r,
              k.known r,
            );
          })
    ]
  ]
]

Built-cases :
    (b : Built) → ((why : Refusal) × (b ≡ refused why)) ⊎ ((t : NameTable) × (b ≡ built t))
Built-cases (refused why) = inl (why, refl)
Built-cases (built t) = inr (t, refl)

add_refs-Knows :
    (refs : List Text) (seen : Text → Bool) (t u : NameTable)
    → add_refs refs t ≡ built u
    → Knows seen t
    → Knows (λ r. has r refs || seen r) u
unfolding add_refs has
add_refs-Knows [] seen t u h k = subst (Knows seen) (ground arith) k
add_refs-Knows (ref ∷ refs) seen t u h k = elim (Built-cases (add_ref ref t)) [
  | inl (why, e) ↦ ground arith
  | inr (more, e) ↦
      Knows-same (λ r. has r refs || with_ref ref seen r) (λ r. has r (ref ∷ refs) || seen r) u
        (λ r. ground arith)
        (add_refs-Knows refs (with_ref ref seen) more u (ground arith)
          (add_ref-Knows ref seen t more e k))
]

-- A table that is built for some refs resolves a provider's name to a ref exactly when that ref is one of
-- them and the name is its name: every ref comes back from its own name, and no name leads to a
-- tool that was not listed, or to two.
pub names_round_trip :
    (refs : List Text) (t : NameTable) (name ref : Text)
    → build_name_table refs ≡ built t
    → (tool_ref name t ≡ some ref) ↔ ((has ref refs ≡ true) × (tool_name ref ≡ name))
unfolding build_name_table tool_ref
names_round_trip refs t name ref h =
    let k =
      add_refs-Knows refs (λ r. false) (record { name_by_ref = []; ref_by_name = [] }) t h
        nothing in
    (λ g. ground (arith, k.refs_of name ref g), λ (listed, is). ground (arith, k.known ref))
  where
    nothing : Knows (λ r. false) (record { name_by_ref = []; ref_by_name = [] })
    nothing =
        unfold get in
        record { names = λ r. refl; refs_of = λ n r g. ground arith; known = λ r s. ground arith }
