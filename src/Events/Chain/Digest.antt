-- ===== src/Events/Chain/Digest.antt =====
-- `hashRow` of events/chain.ts commits to every field of a row: the canonical text of a row can be
-- read back, so two rows with one digest are one row.
use mathlib.Core.List.{append_assoc}
use mr_robot.Common.{
  ◌≡◌, ◌≢◌, refl, sym, ap, ◌∙◌, ℕ, String, Option, none, some, [], ◌∷◌, ◌++◌, arith,
}
use mr_robot.Common.Int.{pos}
use mr_robot.Common.Text.{Text, text}
use mr_robot.Events.Canonical.{Js, JsLaws}
use mr_robot.Events.Chain.{Unhashed, genesis, hash_row}

module _ (js : Js) where
  open js use {stringify, decimal, sha256}

  abbrev value : Option Text → Text
  value none = text "null"
  value (some t) = stringify t

  abbrev part : String → Text → Text
  part key v = stringify (text key) ++ b':' ∷ v

  -- The text that is hashed.
  unfoldable pub render : Unhashed → Text
  render r =
      b'{'
        ∷ (part "agentId" (value r.agent_id)
            ++ b','
              ∷ (part "id" (stringify r.id)
                  ++ b','
                    ∷ (part "payload" (stringify r.payload)
                        ++ b','
                          ∷ (part "prevHash" (stringify r.prev_hash)
                              ++ b','
                                ∷ (part "runId" (value r.run_id)
                                    ++ b','
                                      ∷ (part "seq" (decimal (pos r.seq))
                                          ++ b','
                                            ∷ (part "ts" (stringify r.ts)
                                                ++ b',' ∷ part "type" (stringify r.type))))))))
      ++ text "}"

  hash_row-render : (r : Unhashed) {h : Text} → hash_row js r ≡ some h → h ≡ sha256 (render r)
  unfolding hash_row render
  hash_row-render r e = ground arith

  module _ (laws : JsLaws js) where
    open laws use {stringify_quoted, stringify_delimits, decimal_delimits, sha256_collision_free}

    -- What stands behind a key, if two parts with the key begin two equal texts.
    after_key : (k u v : Text) → stringify k ++ b':' ∷ u ≡ stringify k ++ b':' ∷ v → u ≡ v
    after_key k u v e = cc (stringify_delimits k k (b':' ∷ u) (b':' ∷ v) e).1

    null_ne_quoted : (s u v : Text) → text "null" ++ u ≢ stringify s ++ v
    null_ne_quoted s u v e = let (t, q) = stringify_quoted s in cc (rw q at e)

    string_part :
        (k s t u v : Text)
        → stringify k ++ b':' ∷ (stringify s ++ u) ≡ stringify k ++ b':' ∷ (stringify t ++ v)
        → (s ≡ t) × (u ≡ v)
    string_part k s t u v e = stringify_delimits s t u v (after_key k _ _ e)

    nullable_part :
        (k : Text) (s t : Option Text) (u v : Text)
        → stringify k ++ b':' ∷ (value s ++ u) ≡ stringify k ++ b':' ∷ (value t ++ v)
        → (s ≡ t) × (u ≡ v)
    nullable_part k none none u v e = (refl, cc (after_key k _ _ e))
    nullable_part k none (some t) u v e = absurd (null_ne_quoted t u v (after_key k _ _ e))
    nullable_part k (some s) none u v e = absurd (null_ne_quoted s v u (sym (after_key k _ _ e)))
    nullable_part k (some s) (some t) u v e = let (p, q) = string_part k s t u v e in (ap some p, q)

    behind : (c : ℕ) (u v : Text) → c ∷ u ≡ c ∷ v → u ≡ v
    behind c u v e = cc

    render-injective : (r s : Unhashed) → render r ≡ render s → r ≡ s
    unfolding render
    render-injective r s e =
        let (agent, e1) =
          nullable_part (text "agentId") r.agent_id s.agent_id _ _
            (behind b'{' _ _ (simp append_assoc at e)) in
        let (id, e2) = string_part (text "id") r.id s.id _ _ (behind b',' _ _ e1) in
        let (payload, e3) =
          string_part (text "payload") r.payload s.payload _ _ (behind b',' _ _ e2) in
        let (prev, e4) =
          string_part (text "prevHash") r.prev_hash s.prev_hash _ _ (behind b',' _ _ e3) in
        let (run, e5) = nullable_part (text "runId") r.run_id s.run_id _ _ (behind b',' _ _ e4) in
        let (seq, e6) =
          decimal_delimits (pos r.seq) (pos s.seq) _ _
            (after_key (text "seq") _ _ (behind b',' _ _ e5)) in
        let (ts, e7) = string_part (text "ts") r.ts s.ts _ _ e6 in
        let (type, _) =
          string_part (text "type") r.type s.type (text "}") (text "}") (behind b',' _ _ e7) in
        ground (arith, agent, id, payload, prev, run, seq, ts, type)

    -- One digest has one row.
    pub hash_row-injective :
        (r s : Unhashed) {h : Text} → hash_row js r ≡ some h → hash_row js s ≡ some h → r ≡ s
    hash_row-injective r s p q =
        render-injective r s
          (sha256_collision_free _ _ (sym (hash_row-render r p) ∙ hash_row-render s q))

    first_unit : Text → ℕ
    first_unit [] = 0
    first_unit (u ∷ t) = u

    -- The genesis is no row's digest.
    pub hash_row_ne_genesis : (r : Unhashed) → hash_row js r ≢ some (genesis js)
    unfolding genesis render first_unit
    hash_row_ne_genesis r e =
        let same =
          sha256_collision_free (text "aos-kernel:events:v1") (render r) (hash_row-render r e) in
        omega (arith, ap first_unit same)
