-- ===== src/Events/Store/Trust.antt =====
-- The trust mark of events/store.ts: who may vouch for the tail of a log.
use mr_robot.Common.{
  ℕ, ◌≡◌, ◌≢◌, refl, ◌∙◌, true, false, Option, none, some, List, arith, ◌-◌, get_elem?, inl, inr,
  Option-cases, subst,
}
use mr_robot.Common.Text.{Text, eq_iff, eq_refl}
use mr_robot.Events.Chain.{
  EventRow, Anchor, genesis, VerifyResult, ok, failed, other_genesis, after_walk, check_anchor,
  verify_chain,
}
use mr_robot.Events.Chain.Accepts.{Anchored, AnchoredIf, walk-Chained, verify_chain_accepts}
use mr_robot.Events.Canonical.{Js}
use mr_robot.Events.Store.{Store, read_anchor, consulted, verify}

module _ (js : Js) (s : Store) (anchor : Option Anchor) where
  -- What a verification that turns an untrusted store into a trusted one has seen.
  earns :
      {t : Store} {result : VerifyResult}
      → verify js s anchor ≡ some (t, result)
      → s.trusted ≡ false
      → t.trusted ≡ true
      → (n : ℕ) × (head : Text) × (verify_chain js s.db anchor ≡ some (ok n head))
        × (consulted (read_anchor s) anchor ≡ true)
  unfolding verify
  earns {t} {result} e before after = elim (Option-cases (verify_chain js s.db anchor)) [
    | inl threw ↦ absurd (ground arith)
    | inr (failed at reason, refused) ↦ absurd (ground arith)
    | inr (ok n head, passed) ↦ (n, head, passed, ground arith)
  ]

  same_position :
      (rows : List EventRow) (a d : Anchor)
      → a.seq ≡ d.seq
      → a.hash ≡ d.hash
      → d.genesis ≡ genesis js
      → Anchored js rows a
      → Anchored js rows d
  same_position rows a d p q g h = record {
    same_chain = g;
    not_behind = omega (arith, h.not_behind);
    not_rewritten = λ positive.
        let (row, found, same) = h.not_rewritten (omega arith) in
        (row, subst (λ i. get_elem? rows (i - 1) ≡ some row) p found, same ∙ q);
  }

  consulted-some :
      (a : Option Anchor) (d : Anchor)
      → consulted (some d) a ≡ true
      → (b : Anchor) × (a ≡ some b) × (b.seq ≡ d.seq) × (b.hash ≡ d.hash)
  unfolding consulted
  consulted-some none d h = cc
  consulted-some (some b) d h = (b, refl, ground arith, ground (arith, eq_iff b.hash d.hash))

  disk_accepts :
      (disk : Option Anchor) (rows : List EventRow)
      → ((d : Anchor) → disk ≡ some d → d.genesis ≡ genesis js)
      → consulted disk anchor ≡ true
      → AnchoredIf js rows anchor
      → AnchoredIf js rows disk
  disk_accepts none rows g c h = tt
  disk_accepts (some d) rows g c h =
      let (b, named, p, q) = consulted-some anchor d c in
      same_position rows b d p q (g d refl) (subst (AnchoredIf js rows) named h)

  -- Trust is earned only by a log that passes against the anchor on disk: when a verification, with
  -- whatever anchor the caller passed, turns an untrusted store into a trusted one, and the anchor on
  -- disk, if there is one, names this chain's genesis, the log verifies against the one on disk.
  pub trust_rests_on_disk :
      {t : Store} {result : VerifyResult}
      → verify js s anchor ≡ some (t, result)
      → s.trusted ≡ false
      → t.trusted ≡ true
      → ((d : Anchor) → read_anchor s ≡ some d → d.genesis ≡ genesis js)
      → (n : ℕ) × (head : Text) × (verify_chain js s.db (read_anchor s) ≡ some (ok n head))
  trust_rests_on_disk e before after g =
      let (n, head, passed, seen) = earns e before after in
      let (c, count, whole, anchored) = (verify_chain_accepts js s.db anchor n head).0 passed in
      (
        n,
        head,
        (verify_chain_accepts js s.db (read_anchor s) n head).1
            (c, count, whole, disk_accepts (read_anchor s) s.db.rows g seen anchored),
      )

abbrev claimed : Js → Anchor → Anchor
claimed js d = record d { genesis = genesis js }

-- The caller's anchor is compared with the one on disk by number and hash only. An untrusted store
-- with a head file, whose anchor names another genesis, is trusted on an anchor that differs from the
-- one on disk in that genesis, although the log is refused against the anchor on disk.
pub trust_ignores_genesis :
    (js : Js) (s : Store) (d : Anchor) (n : ℕ) (head : Text)
    → s.options.has_head_file ≡ true
    → s.disk ≡ some d
    → s.trusted ≡ false
    → s.closed ≡ false
    → d.genesis ≢ genesis js
    → verify_chain js s.db (some (claimed js d)) ≡ some (ok n head)
    → (verify js s (some (claimed js d)) ≡ some (record s { trusted = true }, ok n head))
      × (verify_chain js s.db (some d) ≡ some (failed 0 other_genesis))
unfolding verify read_anchor consulted
trust_ignores_genesis js s d n head file on_disk untrusted opened foreign passed =
    let (c, _, whole, _) = (verify_chain_accepts js s.db (some (claimed js d)) n head).0 passed in
    (
      ground (arith, eq_refl d.hash),
      unfold verify_chain after_walk check_anchor in
          rw (walk-Chained js c) (ground (arith, eq_iff d.genesis (genesis js))),
    )
