-- ===== src/Policy/Gate/Allowed.antt =====
-- Which calls policy/gate.ts lets run on their own.
use mr_robot.Common.{
  ◌≡◌, ◌≢◌, refl, sym, ap, ◌∙◌, subst, some-injective, ◌↔◌, ◌⊎◌, inl, inr, true, false, Option,
  none, some, arith, Bool-cases,
}
use mr_robot.Common.Text.{Text, text, ◌==◌, eq_iff}
use mr_robot.Events.Canonical.{
  Json, Fields, null, undef, fraction, exotic, unsupported, bool, str, int, arr, obj, end, field,
}
use mr_robot.Policy.Gate.{
  agent, read, irreversible, clean, allow, GateInput, Verdict, is_protected, mentions_fields,
  mentions_protected, addresses, namespace_refusal, risk_verdict, rule, decide,
}
use mr_robot.Policy.Gate.Laws.{Permitted, rule_denies, Permitted-rule}
use mr_robot.Policy.Gate.Paths.{StringIn, mentions_protected_exactly}

-- The first value under a key.
pub data ValueAt (key : Text) (v : Json) : Fields → Type 0 where
  here : {fs : Fields} → ValueAt key v (field key v fs)
  behind :
      {k : Text} {w : Json} {fs : Fields}
      → k ≢ key
      → ValueAt key v fs
      → ValueAt key v (field k w fs)

-- The tool has no namespace argument, or the argument holds the project of the run.
abbrev pub InOwnNamespace : Option Text → Option Text → Fields → Type 0
InOwnNamespace pinned project args =
    (pinned ≡ none)
    ⊎ (pinned ≡ some (text "none"))
    ⊎ ((key : Text) × (p : Text) × (pinned ≡ some key)
        × (project ≡ some p)
        × ValueAt key (str p) args)

module _ (key p : Text) where
  -- A field under another key is passed over.
  addresses-other :
      (k : Text) (w : Json) (fs : Fields)
      → (k == key) ≡ false
      → addresses key p (field k w fs) ≡ addresses key p fs
  unfolding addresses
  addresses-other k (str s) fs differ = ground (arith, differ)
  addresses-other k null fs differ = ground (arith, differ)
  addresses-other k undef fs differ = ground (arith, differ)
  addresses-other k fraction fs differ = ground (arith, differ)
  addresses-other k exotic fs differ = ground (arith, differ)
  addresses-other k unsupported fs differ = ground (arith, differ)
  addresses-other k (bool b) fs differ = ground (arith, differ)
  addresses-other k (int n) fs differ = ground (arith, differ)
  addresses-other k (arr xs) fs differ = ground (arith, differ)
  addresses-other k (obj gs) fs differ = ground (arith, differ)

  -- A field under the key decides.
  addresses-same :
      (k : Text) (w : Json) (fs : Fields)
      → (k == key) ≡ true
      → addresses key p (field k w fs) ≡ true
      → w ≡ str p
  unfolding addresses
  addresses-same k (str s) fs same h = ap str ((eq_iff s p).0 (ground (arith, same, h)))
  addresses-same k null fs same h = absurd (ground (arith, same, h))
  addresses-same k undef fs same h = absurd (ground (arith, same, h))
  addresses-same k fraction fs same h = absurd (ground (arith, same, h))
  addresses-same k exotic fs same h = absurd (ground (arith, same, h))
  addresses-same k unsupported fs same h = absurd (ground (arith, same, h))
  addresses-same k (bool b) fs same h = absurd (ground (arith, same, h))
  addresses-same k (int n) fs same h = absurd (ground (arith, same, h))
  addresses-same k (arr xs) fs same h = absurd (ground (arith, same, h))
  addresses-same k (obj gs) fs same h = absurd (ground (arith, same, h))

  ValueAt-addresses : {fs : Fields} → ValueAt key (str p) fs → addresses key p fs ≡ true
  unfolding addresses
  ValueAt-addresses here = ground (arith, eq_iff key key, eq_iff p p)
  ValueAt-addresses (behind {k = k} {w = w} {fs = fs} other at) =
      rw (addresses-other k w fs (ground (arith, other, eq_iff k key))) (ValueAt-addresses at)

  addresses-ValueAt : (fs : Fields) → addresses key p fs ≡ true → ValueAt key (str p) fs
  unfolding addresses
  addresses-ValueAt end h = absurd (ground (arith, h))
  addresses-ValueAt (field k w fs) h = elim (Bool-cases (k == key)) [
    | inl same ↦
        subst (λ v. ValueAt key v (field k w fs)) (addresses-same k w fs same h)
          (subst (λ j. ValueAt j w (field k w fs)) ((eq_iff k key).0 same) here)
    | inr differ ↦
        behind (λ same. ground (arith, differ, eq_iff k key, same))
          (addresses-ValueAt fs (sym (addresses-other k w fs differ) ∙ h))
  ]

-- The namespace rule refuses nothing exactly when the call stays in the namespace of its run.
own_namespace :
    (pinned project : Option Text) (args : Fields)
    → (namespace_refusal pinned project args ≡ none) ↔ InOwnNamespace pinned project args
unfolding namespace_refusal
own_namespace none project args = (λ h. inl refl, λ h. refl)
own_namespace (some key) none args = (
  λ h. inr (inl (ap some ((eq_iff key (text "none")).0 (ground (arith, h))))),
  λ h. elim h [
    | inl e ↦ absurd (ground (arith, e))
    | inr (inl e) ↦ ground (arith, e, eq_iff key (text "none"))
    | inr (inr (k, p, e, f, at)) ↦ absurd (ground (arith, f))
  ],
)
own_namespace (some key) (some p) args = (
  λ h. elim (Bool-cases (key == text "none")) [
    | inl same ↦ inr (inl (ap some ((eq_iff key (text "none")).0 same)))
    | inr pins ↦
        inr (inr (key, p, refl, refl, addresses-ValueAt key p args (ground (arith, h, pins))))
  ],
  λ h. elim h [
    | inl e ↦ absurd (ground (arith, e))
    | inr (inl e) ↦ ground (arith, e, eq_iff key (text "none"))
    | inr (inr (k, q, e, f, at)) ↦ ground (
      arith,
      e,
      f,
      ValueAt-addresses key p (
          subst (λ j. ValueAt j (str p) args) (sym (some-injective key k e))
            (subst (λ t. ValueAt k (str t) args) (sym (some-injective p q f)) at)),
    )
  ],
)

-- What the arguments and the tool have to be for a call to run on its own.
pub record RunsAlone (input : GateInput) : Type 0 where
  pub exposed : input.view.exposure ≡ agent
  pub listed : input.manifest_allows ≡ true
  pub unprotected : (s : Text) → StringIn s (obj input.args) → is_protected s ≡ false
  pub own : InOwnNamespace input.view.namespace_arg input.scope.project_id input.args
  pub reversible : input.view.risk ≢ irreversible
  pub safe : (input.scope.taint ≡ clean) ⊎ (input.view.risk ≡ read)
  pub open_output : input.view.quarantine ≡ false

unmentioned :
    (args : Fields)
    → (mentions_fields args ≡ false) ↔ ((s : Text) → StringIn s (obj args) → is_protected s ≡ false)
unfolding mentions_protected
unmentioned args = (
  λ h s i. elim (Bool-cases (is_protected s)) [
    | inl bad ↦ absurd (ground (arith, h, (mentions_protected_exactly (obj args)).1 (s, i, bad)))
    | inr good ↦ good
  ],
  λ h. elim (Bool-cases (mentions_fields args)) [
    | inr clear ↦ clear
    | inl found ↦
        let (s, i, bad) = (mentions_protected_exactly (obj args)).0 found in
        absurd (ground (arith, bad, h s i))
  ],
)

-- When the gate gives a verdict, that is when the strings of the call that it parses are not empty, the verdict
-- is allow exactly when: the tool is exposed to agents; the manifest lists it; no string anywhere in the
-- arguments is a protected path; the tool has no namespace argument, or `none` for one, or the first value
-- under that argument is the project of the run; the tool is not irreversible; the run is clean or the tool
-- only reads; and the output of the tool is not quarantined.
pub allowed_exactly :
    (input : GateInput) (v : Verdict)
    → decide input ≡ some v
    → (v.decision ≡ allow) ↔ RunsAlone input
allowed_exactly input v given = (forth, back)
  where
    is : rule input ≡ v
    is = unfold decide in ground (arith, given)

    forth : v.decision ≡ allow → RunsAlone input
    forth h =
        let (p, e) = rule_denies input (λ d. ground (arith, is, h, d)) in
        record {
          exposed = p.exposed;
          listed = p.listed;
          unprotected = (unmentioned input.args).0 p.unprotected;
          own =
              (own_namespace input.view.namespace_arg input.scope.project_id input.args).0
                p.own_namespace;
          reversible = λ r. unfold risk_verdict in ground (arith, is);
          safe = unfold risk_verdict in ground (arith, is);
          open_output = unfold risk_verdict in ground (arith, is);
        }

    back : RunsAlone input → v.decision ≡ allow
    back r =
        let p : Permitted input = record {
          exposed = r.exposed;
          listed = r.listed;
          unprotected = (unmentioned input.args).1 r.unprotected;
          own_namespace =
              (own_namespace input.view.namespace_arg input.scope.project_id input.args).1 r.own;
        } in
        subst (λ (w : Verdict). w.decision ≡ allow) is
          (rw (Permitted-rule input p)
            (unfold risk_verdict in ground (arith, r.reversible, r.safe, r.open_output)))
