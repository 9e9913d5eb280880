-- ===== src/Events/Chain/Tamper.antt =====
-- What a passed `verifyChain` of events/chain.ts proves about the past of the log.
use mr_robot.Common.{
  ◌≢◌, ℕ, zero, suc, ◌+◌, ◌≡◌, refl, sym, ap, subst, ◌∙◌, ◌≤◌, Option, none, some, List, [], ◌∷◌,
  ◌++◌, arith, length, get_elem?, take, drop, take-append-drop, length-append, some-injective, ap₂,
}
use mr_robot.Common.Text.{Text}
use mr_robot.Events.Canonical.{Js, JsLaws}
use mr_robot.Events.Chain.{Unhashed, EventRow, Db, Anchor, genesis, hash_row, ok, verify_chain}
use mr_robot.Events.Chain.Accepts.{Chained, done, then, Anchored, verify_chain_accepts}
use mr_robot.Events.Chain.Digest.{hash_row-injective, hash_row_ne_genesis}

module _ (js : Js) where
  -- The last row of a chain, and the chain before it.
  record Last (n : ℕ) (prev : Text) (rows : List EventRow) (head : Text) : Type 0 where
    init : List EventRow
    row : EventRow
    split : rows ≡ init ++ row ∷ []
    before : Chained js n prev init row.prev_hash
    hashed : hash_row js row.content ≡ some row.hash
    ends : row.hash ≡ head

  at_the_end :
      {n : ℕ} {prev head : Text} {row : EventRow} {rest : List EventRow}
      → Chained js n prev (row ∷ rest) head
      → Last n prev (row ∷ rest) head
  at_the_end (then {row = row} {rest = []} s p h done) = record {
    init = [];
    row = row;
    split = refl;
    before = subst (Chained js _ _ []) (sym p) done;
    hashed = h;
    ends = refl;
  }
  at_the_end (then {row = row} {rest = next ∷ rest} s p h later) =
      let l = at_the_end later in
      record {
        init = row ∷ l.init;
        row = l.row;
        split = ap (λ t. row ∷ t) l.split;
        before = then s p h l.before;
        hashed = l.hashed;
        ends = l.ends;
      }

  empty_head : {n : ℕ} {prev head : Text} → Chained js n prev [] head → head ≡ prev
  empty_head done = refl

  Chained-take :
      {n : ℕ} {prev head : Text} {rows : List EventRow} (k : ℕ) {row : EventRow}
      → Chained js n prev rows head
      → get_elem? rows k ≡ some row
      → Chained js n prev (take (suc k) rows) row.hash
  Chained-take k done e = cc
  Chained-take zero {row = found} (then {n = n} {row = row} s p h rest) e =
      then s p h
        (subst (λ r. Chained js (n + 1) row.hash [] r.hash) (some-injective row found e) done)
  Chained-take (suc k) (then s p h rest) e = then s p h (Chained-take k rest e)

  module _ (laws : JsLaws js) where
    no_row_at_genesis :
        (row : EventRow) (rest : List EventRow) {n : ℕ} {prev head : Text}
        → Chained js n prev (row ∷ rest) head
        → head ≢ genesis js
    no_row_at_genesis row rest c e =
        let l = at_the_end c in
        hash_row_ne_genesis js laws l.row.content (l.hashed ∙ ap some (l.ends ∙ e))

    EventRow-eq : (r s : EventRow) → r.content ≡ s.content → r.hash ≡ s.hash → r ≡ s
    EventRow-eq r s p q = λ i. record { content = p i; hash = q i }

    same_rows :
        (k : ℕ) (rows others : List EventRow) {head : Text}
        → length rows ≤ k
        → Chained js 0 (genesis js) rows head
        → Chained js 0 (genesis js) others head
        → rows ≡ others
    same_rows k [] [] le c d = refl
    same_rows k [] (s ∷ others) le c d = absurd (no_row_at_genesis s others d (empty_head c))
    same_rows k (r ∷ rows) [] le c d = absurd (no_row_at_genesis r rows c (empty_head d))
    same_rows zero (r ∷ rows) (s ∷ others) le c d = absurd (omega arith)
    same_rows (suc k) (r ∷ rows) (s ∷ others) le c d =
        let l = at_the_end c in
        let m = at_the_end d in
        let same_hash : l.row.hash ≡ m.row.hash = l.ends ∙ sym m.ends in
        let same_content =
          hash_row-injective js laws l.row.content m.row.content l.hashed
            (m.hashed ∙ ap some (sym same_hash)) in
        let same_before =
          same_rows k l.init m.init
            (omega (arith, ap length l.split, length-append l.init (l.row ∷ []))) l.before
            (subst (Chained js 0 (genesis js) m.init)
              (ap (λ (u : Unhashed). u.prev_hash) (sym same_content)) m.before) in
        l.split
        ∙ ap₂ (λ i x. i ++ x ∷ []) same_before (EventRow-eq l.row m.row same_content same_hash)
        ∙ sym m.split

    -- Two logs that pass verification with one head are the same log, whatever their anchors: the
    -- head's digest commits to every field of every row and to the number of rows.
    pub head_determines_rows :
        (db other : Db) (anchor other_anchor : Option Anchor) (n m : ℕ) (head : Text)
        → verify_chain js db anchor ≡ some (ok n head)
        → verify_chain js other other_anchor ≡ some (ok m head)
        → (db.rows ≡ other.rows) × (n ≡ m)
    head_determines_rows db other anchor other_anchor n m head p q =
        let (c, count, _, _) = (verify_chain_accepts js db anchor n head).0 p in
        let (d, other_count, _, _) = (verify_chain_accepts js other other_anchor m head).0 q in
        let same = same_rows (length db.rows) db.rows other.rows (omega arith) c d in
        (same, count ∙ ap length same ∙ sym other_count)

    Anchored-prefix :
        (before rows : List EventRow) (anchor : Anchor) {head : Text}
        → Chained js 0 (genesis js) before anchor.hash
        → anchor.seq ≡ length before
        → Chained js 0 (genesis js) rows head
        → Anchored js rows anchor
        → (later : List EventRow) × (rows ≡ before ++ later)
    Anchored-prefix [] rows anchor c e d a = (rows, refl)
    Anchored-prefix (b ∷ before) rows anchor c e d a =
        let (row, found, same_hash) = a.not_rewritten (omega arith) in
        let at : get_elem? rows (length before) ≡ some row =
          subst (λ i. get_elem? rows i ≡ some row) (omega arith) found in
        let kept =
          same_rows (suc (length before)) (b ∷ before) (take (suc (length before)) rows)
            (omega arith) c
            (subst (Chained js 0 (genesis js) (take (suc (length before)) rows)) same_hash
              (Chained-take (length before) d at)) in
        (
          drop (suc (length before)) rows,
          sym (take-append-drop (suc (length before)) rows)
              ∙ ap (λ l. l ++ drop (suc (length before)) rows) (sym kept),
        )

    -- An anchor was taken of a log that passed verification. Any log that later passes verification
    -- against that anchor begins with exactly the rows that were there then, so no row before an
    -- anchor can be cut, edited, dropped or reordered without the verification failing.
    pub anchored_history_is_fixed :
        (then_db now_db : Db) (anchor : Anchor) (n : ℕ) (head : Text)
        → verify_chain js then_db none ≡ some (ok anchor.seq anchor.hash)
        → verify_chain js now_db (some anchor) ≡ some (ok n head)
        → (later : List EventRow) × (now_db.rows ≡ then_db.rows ++ later)
    anchored_history_is_fixed then_db now_db anchor n head p q =
        let (c, count, _, _) = (verify_chain_accepts js then_db none anchor.seq anchor.hash).0 p in
        let (d, _, _, a) = (verify_chain_accepts js now_db (some anchor) n head).0 q in
        Anchored-prefix then_db.rows now_db.rows anchor c count d a
