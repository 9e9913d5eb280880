-- ===== src/Events/Chain/Accepts.antt =====
-- `verifyChain` of events/chain.ts against a description of a sound log that does not run.
use mr_robot.Common.{
  ℕ, some-injective, ap, sym, ◌∙◌, subst, ◌+◌, ◌-◌, ◌≡◌, refl, ◌≤◌, ◌<◌, ◌↔◌, inl, inr, true,
  Option, none, some, List, [], ◌∷◌, arith, length, get_elem?, ltb, Bool-cases, Option-cases,
}
use mr_robot.Common.Text.{Text, eq_iff, eq_refl}
use mr_robot.Events.Canonical.{Js}
use mr_robot.Events.Chain.{
  EventRow, Db, Anchor, genesis, hash_row, ok, Walk, stopped, reached, after_walk, row_at_anchor,
  check_row, walk, tail_seq, check_anchor, verify_chain,
}

-- Rows `n + 1`, `n + 2`, … behind a row with hash `prev`, of which the last has hash `head`.
pub data Chained (js : Js) : ℕ → Text → List EventRow → Text → Type 0 where
  done : {n : ℕ} {prev : Text} → Chained js n prev [] prev
  then :
      {n : ℕ} {prev head : Text} {row : EventRow} {rest : List EventRow}
      → row.seq ≡ n + 1
      → row.prev_hash ≡ prev
      → hash_row js row.content ≡ some row.hash
      → Chained js (n + 1) row.hash rest head
      → Chained js n prev (row ∷ rest) head

-- The log is not behind the anchor, and the anchored row is the one that it names.
pub record Anchored (js : Js) (rows : List EventRow) (anchor : Anchor) : Type 0 where
  pub same_chain : anchor.genesis ≡ genesis js
  pub not_behind : anchor.seq ≤ tail_seq rows
  pub not_rewritten :
      0 < anchor.seq
      → (row : EventRow) × (get_elem? rows (anchor.seq - 1) ≡ some row) × (row.hash ≡ anchor.hash)

abbrev pub AnchoredIf : Js → List EventRow → Option Anchor → Type 0
AnchoredIf js rows none = Unit
AnchoredIf js rows (some anchor) = Anchored js rows anchor

module _ (js : Js) where
  check_row-passes :
      (i : ℕ) (prev : Text) (row : EventRow)
      → check_row js i prev row ≡ some none
      → (row.seq ≡ i) × (row.prev_hash ≡ prev) × (hash_row js row.content ≡ some row.hash)
  unfolding check_row
  check_row-passes i prev row h = elim (Option-cases (hash_row js row.content)) [
    | inl threw ↦ ground (arith, eq_iff row.prev_hash prev)
    | inr (t, hashed) ↦ ground (arith, eq_iff row.prev_hash prev, eq_iff t row.hash)
  ]

  passes-check_row :
      (i : ℕ) (prev : Text) (row : EventRow)
      → row.seq ≡ i
      → row.prev_hash ≡ prev
      → hash_row js row.content ≡ some row.hash
      → check_row js i prev row ≡ some none
  unfolding check_row
  passes-check_row i prev row s p h = ground (arith, eq_iff row.prev_hash prev, eq_refl row.hash)

  pub Chained-walk :
      (n : ℕ) (prev : Text) (rows : List EventRow) (head : Text)
      → walk js n prev rows ≡ some (reached head)
      → Chained js n prev rows head
  unfolding walk
  Chained-walk n prev [] head h = subst (Chained js n prev []) (cc) done
  Chained-walk n prev (row ∷ rest) head h = elim (Option-cases (check_row js (n + 1) prev row)) [
    | inl e ↦ cc (rw (e, walk) at h)
    | inr (some (at, reason), e) ↦ cc (rw (e, walk) at h)
    | inr (none, e) ↦
        let (s, p, hashed) = check_row-passes (n + 1) prev row e in
        then s p hashed (Chained-walk (n + 1) row.hash rest head (rw (e, walk) at h))
  ]

  pub walk-Chained :
      {n : ℕ} {prev head : Text} {rows : List EventRow}
      → Chained js n prev rows head
      → walk js n prev rows ≡ some (reached head)
  unfolding walk
  walk-Chained done = refl
  walk-Chained (then {n = n} {prev = prev} {row = row} s p h rest) =
      rw (passes-check_row (n + 1) prev row s p h, walk) (walk-Chained rest)

  row_at_anchor-row :
      (rows : List EventRow) (anchor : Anchor)
      → row_at_anchor rows anchor ≡ true
      → (row : EventRow) × (get_elem? rows (anchor.seq - 1) ≡ some row) × (row.hash ≡ anchor.hash)
  unfolding row_at_anchor
  row_at_anchor-row rows anchor h = elim (Option-cases (get_elem? rows (anchor.seq - 1))) [
    | inl absent ↦ cc (rw (absent, row_at_anchor) at h)
    | inr (row, found) ↦
        (row, found, (eq_iff row.hash anchor.hash).0 (rw (found, row_at_anchor) at h))
  ]

  row-row_at_anchor :
      (rows : List EventRow) (anchor : Anchor)
      → ((row : EventRow) × (get_elem? rows (anchor.seq - 1) ≡ some row) × (row.hash ≡ anchor.hash))
      → row_at_anchor rows anchor ≡ true
  unfolding row_at_anchor
  row-row_at_anchor rows anchor (row, found, same) =
      rw (found, row_at_anchor) ((eq_iff row.hash anchor.hash).1 same)

  check_anchor-accepts :
      (rows : List EventRow) (head : Text) (anchor : Option Anchor) {n : ℕ} {t : Text}
      → check_anchor js rows head anchor ≡ ok n t
      → AnchoredIf js rows anchor × (n ≡ length rows) × (t ≡ head)
  unfolding check_anchor
  check_anchor-accepts rows head none h = (tt, cc, cc)
  check_anchor-accepts rows head (some anchor) h = (
    record {
      same_chain = ground (arith, eq_iff anchor.genesis (genesis js));
      not_behind = ground arith;
      not_rewritten = λ positive. row_at_anchor-row rows anchor (ground arith);
    },
    ground arith,
    ground arith,
  )

  accepts-check_anchor :
      (rows : List EventRow) (head : Text) (anchor : Option Anchor)
      → AnchoredIf js rows anchor
      → check_anchor js rows head anchor ≡ ok (length rows) head
  unfolding check_anchor
  accepts-check_anchor rows head none h = refl
  accepts-check_anchor rows head (some anchor) h = elim (Bool-cases (ltb 0 anchor.seq)) [
    | inl positive ↦ ground (
      arith,
      eq_iff anchor.genesis (genesis js),
      h.same_chain,
      h.not_behind,
      row-row_at_anchor rows anchor (h.not_rewritten (ground arith)),
    )
    | inr zero_seq ↦ ground (arith, eq_iff anchor.genesis (genesis js), h.same_chain, h.not_behind)
  ]

  after_walk-accepts :
      (db : Db) (anchor : Option Anchor) (w : Walk) {n : ℕ} {t : Text}
      → after_walk js db anchor w ≡ ok n t
      → (w ≡ reached t)
        × (n ≡ length db.rows)
        × (db.counter ≤ tail_seq db.rows)
        × AnchoredIf js db.rows anchor
  unfolding after_walk
  after_walk-accepts db anchor (stopped at reason) h = cc
  after_walk-accepts db anchor (reached head) h =
      let whole : db.counter ≤ tail_seq db.rows = ground arith in
      let (anchored, count, same) = check_anchor-accepts db.rows head anchor (ground arith) in
      (ap reached (sym same), count, whole, anchored)

  -- `verifyChain` accepts with `n` rows and head `t` exactly when the rows form a chain from the
  -- genesis to `t`, there are `n` of them, no insertion is missing from the table, and the anchor, if
  -- one is given, names this chain's genesis and no number behind the last row, and either has number 0 or
  -- names a row of the log with that row's hash.
  pub verify_chain_accepts :
      (db : Db) (anchor : Option Anchor) (n : ℕ) (t : Text)
      → (verify_chain js db anchor ≡ some (ok n t)) ↔ (
          Chained js 0 (genesis js) db.rows t
          × (n ≡ length db.rows)
          × (db.counter ≤ tail_seq db.rows)
          × AnchoredIf js db.rows anchor)
  unfolding verify_chain after_walk
  verify_chain_accepts db anchor n t = (
    λ h. elim (Option-cases (walk js 0 (genesis js) db.rows)) [
      | inl threw ↦ cc (rw (threw, verify_chain) at h)
      | inr (w, walked) ↦
          let (reaches, count, whole, anchored) =
            after_walk-accepts db anchor w (some-injective _ _ (rw (walked, verify_chain) at h)) in
          (Chained-walk 0 (genesis js) db.rows t (walked ∙ ap some reaches), count, whole, anchored)
    ],
    λ (chained, count, whole, anchored).
        rw (walk-Chained chained, count)
          (ap some (ground (arith, accepts-check_anchor db.rows t anchor anchored))),
  )
