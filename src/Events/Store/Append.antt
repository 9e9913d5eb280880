-- ===== src/Events/Store/Append.antt =====
-- What `append` of events/store.ts does to the table, and for whom it writes.
use mr_robot.Common.{
  ◌+◌, ◌≡◌, refl, ◌∙◌, ◌≤◌, false, Option, none, some, [], ◌∷◌, ◌++◌, arith, inl, inr,
}
use mr_robot.Common.Text.{Text, eq_iff}
use mr_robot.Events.Canonical.{Js}
use mr_robot.Events.Chain.{EventRow, Db, hash_row, tail_seq}
use mr_robot.Events.Store.{
  Runtime, Now, AppendInput, Store, Result-cases, done, threw, StoreError, head, insert,
  transaction, committed, append, payload_text, claims_other, or_else,
}

-- What a transaction that commits has done.
pub record Committed (js : Js) (db : Db) (run_id : Option Text) (row : EventRow) (db' : Db)
    : Type 0 where
  pub untruncated : db.counter ≤ tail_seq db.rows
  pub numbered : row.seq ≡ tail_seq db.rows + 1
  pub linked : row.prev_hash ≡ head js db.rows
  pub hashed : hash_row js row.content ≡ some row.hash
  pub owned : row.run_id ≡ run_id
  pub added : db'.rows ≡ db.rows ++ row ∷ []
  pub counted : db'.counter ≡ row.seq

module _ (js : Js) (db : Db) (now : Now) (type : Text) (run_id agent_id : Option Text)
    (payload : Text) where
  transaction_commits :
      {row : EventRow} {db' : Db}
      → transaction js db now type run_id agent_id payload ≡ done (row, db')
      → Committed js db run_id row db'
  unfolding transaction insert
  transaction_commits h = record {
    untruncated = ground arith;
    numbered = ground arith;
    linked = ground arith;
    hashed = ground arith;
    owned = ground arith;
    added = ground arith;
    counted = ground arith;
  }

module _ (rt : Runtime) (s : Store) (now : Now) (input : AppendInput) where
  -- An append that throws, for whatever reason, has changed nothing of the store: no row, no
  -- counter, no anchor, no trust and no delivery.
  pub append_refused_unchanged :
      {e : StoreError} → (append rt s now input).1 ≡ threw e → (append rt s now input).0 ≡ s
  unfolding append
  append_refused_unchanged h = ground arith

  -- What an append that returns a row has done.
  pub append_commits :
      {row : EventRow}
      → (append rt s now input).1 ≡ done row
      → (db : Db) × Committed rt.js s.db (or_else input.run_id now.scope) row db
        × ((append rt s now input).0 ≡ committed rt.js s row db)
        × (claims_other now.scope input.run_id ≡ false)
  unfolding append
  append_commits {row} h = elim (Result-cases (payload_text rt input.type input.payload)) [
    | inr (e, refused) ↦ absurd (ground arith)
    | inl (text, prepared) ↦
        elim (Result-cases (
          transaction rt.js s.db now input.type (or_else input.run_id now.scope) input.agent_id
            text)) [
              | inr (e, aborted) ↦ absurd (ground arith)
              | inl ((written, db), committed_at) ↦ (
                db,
                transaction_commits rt.js s.db now input.type (or_else input.run_id now.scope)
                    input.agent_id text (ground arith),
                ground arith,
                ground arith,
              )
            ]
  ]

  own_run :
      (run : Text) (named : Option Text)
      → claims_other (some run) named ≡ false
      → or_else named (some run) ≡ some run
  unfolding claims_other
  own_run run none h = refl
  own_run run (some named) h = ground (arith, eq_iff named run)

  -- Inside a run, every row that an append writes carries that run's id, whatever the caller named.
  pub append_writer_claim :
      (run : Text) {row : EventRow}
      → now.scope ≡ some run
      → (append rt s now input).1 ≡ done row
      → row.run_id ≡ some run
  append_writer_claim run scoped h =
      let (db, c, _, claim) = append_commits h in
      rw scoped at c.owned ∙ own_run run input.run_id (rw scoped at claim)
