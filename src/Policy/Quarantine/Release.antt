-- ===== src/Policy/Quarantine/Release.antt =====
-- The two ends of `release` in policy/quarantine.ts.
use mr_robot.Common.{
  String, ◌≡◌, refl, ◌⊎◌, inl, inr, Bool, false, some, arith, Bool-cases, Option-cases,
}
use mr_robot.Common.Map.{string_eq, get}
use mr_robot.Policy.Actor.{Actor, human, forged, assert_human}
use mr_robot.Policy.Quarantine.{Entry, Quarantine, let_go, release}

-- A release changes nothing, or it is a human's and lets go of a hold that stood.
pub release-cases :
    (q : Quarantine) (id : String) (actor : Actor) (logged : Bool)
    → ((release q id actor logged).0 ≡ q)
      ⊎ ((c : String) × (e : Entry) × (actor ≡ human c)
          × (get id q.entries ≡ some e)
          × (e.released ≡ false)
          × (release q id actor logged ≡ let_go q e c logged))
unfolding release assert_human
release-cases q id forged logged = inl refl
release-cases q id (human c) logged = elim (Option-cases (get id q.entries)) [
  | inl missing ↦ inl (ground arith)
  | inr (e, found) ↦ elim (Bool-cases e.released) [
    | inl was ↦ inl (ground arith)
    | inr stood ↦ inr (c, e, refl, found, stood, ground arith)
  ]
]
