-- ===== src/Events/Store/Tail.antt =====
-- The tail of a chained log, as events/store.ts reads it: its number and its hash.
use mr_robot.Common.{
  ℕ, zero, suc, ◌+◌, ◌≡◌, refl, sym, subst, ◌∙◌, some, List, [], ◌∷◌, ◌++◌, arith, length,
  get_elem?,
}
use mr_robot.Common.Text.{Text}
use mr_robot.Events.Canonical.{Js}
use mr_robot.Events.Chain.{EventRow, Anchor, genesis, hash_row, tail_seq}
use mr_robot.Events.Chain.Accepts
use mr_robot.Events.Chain.Accepts.{Chained, Anchored}
use mr_robot.Events.Store.{last_row, head}

module _ (js : Js) where
  tail_seq-Chained :
      (row : EventRow) (rest : List EventRow) {n : ℕ} {prev t : Text}
      → Chained js n prev (row ∷ rest) t
      → tail_seq (row ∷ rest) ≡ n + suc (length rest)
  unfolding tail_seq
  tail_seq-Chained row [] (Accepts.Chained.then s p h c) = omega arith
  tail_seq-Chained row (next ∷ rest) (Accepts.Chained.then s p h c) =
      omega (arith, tail_seq-Chained next rest c)

  pub tail_seq-length :
      {prev t : Text} (rows : List EventRow)
      → Chained js 0 prev rows t
      → tail_seq rows ≡ length rows
  unfolding tail_seq
  tail_seq-length [] c = refl
  tail_seq-length (row ∷ rest) c = omega (arith, tail_seq-Chained row rest c)

  last_row-Chained :
      (row : EventRow) (rest : List EventRow) {n : ℕ} {prev t : Text}
      → Chained js n prev (row ∷ rest) t
      → (r : EventRow) × (last_row (row ∷ rest) ≡ some r) × (r.hash ≡ t)
  unfolding last_row
  last_row-Chained row [] (Accepts.Chained.then s p h Accepts.Chained.done) = (row, refl, refl)
  last_row-Chained row (next ∷ rest) (Accepts.Chained.then s p h c) = last_row-Chained next rest c

  pub head-Chained :
      {t : Text} (rows : List EventRow) → Chained js 0 (genesis js) rows t → head js rows ≡ t
  unfolding head last_row
  head-Chained [] Accepts.Chained.done = refl
  head-Chained (row ∷ rest) c =
      let (r, found, same) = last_row-Chained row rest c in rw (found, head) same

  pub Chained-append :
      (row : EventRow) {n : ℕ} {prev t : Text} {rows : List EventRow}
      → Chained js n prev rows t
      → row.seq ≡ n + length rows + 1
      → row.prev_hash ≡ t
      → hash_row js row.content ≡ some row.hash
      → Chained js n prev (rows ++ row ∷ []) row.hash
  Chained-append row Accepts.Chained.done s p h =
      Accepts.Chained.then (omega arith) p h Accepts.Chained.done
  Chained-append row (Accepts.Chained.then s' p' h' c) s p h =
      Accepts.Chained.then s' p' h' (Chained-append row c (omega arith) p h)

  pub get_elem?-append :
      (rows more : List EventRow) (i : ℕ) {row : EventRow}
      → get_elem? rows i ≡ some row
      → get_elem? (rows ++ more) i ≡ some row
  get_elem?-append [] more i e = cc
  get_elem?-append (r ∷ rows) more zero e = e
  get_elem?-append (r ∷ rows) more (suc i) e = get_elem?-append rows more i e

  last_at-Chained :
      (row : EventRow) (rest : List EventRow) {n : ℕ} {prev t : Text}
      → Chained js n prev (row ∷ rest) t
      → (r : EventRow) × (get_elem? (row ∷ rest) (length rest) ≡ some r) × (r.hash ≡ t)
  last_at-Chained row [] (Accepts.Chained.then s p h Accepts.Chained.done) = (row, refl, refl)
  last_at-Chained row (next ∷ rest) (Accepts.Chained.then s p h c) = last_at-Chained next rest c

  -- The anchor of the tail.
  pub tail-Anchored :
      (rows : List EventRow) (anchor : Anchor) {t : Text}
      → Chained js 0 (genesis js) rows t
      → anchor.genesis ≡ genesis js
      → anchor.seq ≡ length rows
      → anchor.hash ≡ t
      → Anchored js rows anchor
  tail-Anchored [] anchor c g s h = record {
    same_chain = g;
    not_behind = omega (arith, tail_seq-length [] c);
    not_rewritten = λ positive. absurd (omega arith);
  }
  tail-Anchored (row ∷ rest) anchor c g s h =
      let (r, found, same) = last_at-Chained row rest c in
      record {
        same_chain = g;
        not_behind = omega (arith, tail_seq-length (row ∷ rest) c);
        not_rewritten = λ positive.
            (r, subst (λ i. get_elem? (row ∷ rest) i ≡ some r) (omega arith) found, same ∙ sym h);
      }
