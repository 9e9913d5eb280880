-- ===== src/Events/Store/Sound.antt =====
-- A sound log of events/store.ts, and that a commit and an anchor keep it sound.
use mr_robot.Common.{
  ℕ, ◌-◌, ◌≡◌, refl, ap, ◌∙◌, ◌≤◌, Option, none, some, List, [], ◌∷◌, ◌++◌, arith, ◌⊎◌, inl, inr,
  length, length-append,
}
use mr_robot.Common.Text.{Text}
use mr_robot.Events.Canonical.{Js}
use mr_robot.Events.Chain.{EventRow, Db, Anchor, genesis, tail_seq, ok, verify_chain}
use mr_robot.Events.Chain.Accepts.{Chained, Anchored, AnchoredIf, verify_chain_accepts}
use mr_robot.Events.Store.{Store, head, committed, write_anchor}
use mr_robot.Events.Store.Append.{Committed}
use mr_robot.Events.Store.Tail.{
  tail_seq-length, head-Chained, Chained-append, get_elem?-append, tail-Anchored,
}

module _ (js : Js) where
  -- The rows are a chain, no insertion is missing, and the head file, if written, names a row.
  pub record Sound (db : Db) (disk : Option Anchor) : Type 0 where
    pub last : Text
    pub chained : Chained js 0 (genesis js) db.rows last
    pub counted : db.counter ≡ length db.rows
    pub anchored : AnchoredIf js db.rows disk

  -- A sound log passes verification against the anchor on disk.
  pub Sound-verifies :
      {db : Db} {disk : Option Anchor}
      → (s : Sound db disk) → verify_chain js db disk ≡ some (ok (length db.rows) s.last)
  Sound-verifies {db} {disk} s =
      (verify_chain_accepts js db disk (length db.rows) s.last).1 (
        s.chained,
        refl,
        omega (arith, s.counted, tail_seq-length js db.rows s.chained),
        s.anchored,
      )

  Anchored-append :
      (rows : List EventRow) (row : EventRow) (anchor : Anchor)
      → tail_seq rows ≤ tail_seq (rows ++ row ∷ [])
      → Anchored js rows anchor
      → Anchored js (rows ++ row ∷ []) anchor
  Anchored-append rows row anchor grows a = record {
    same_chain = a.same_chain;
    not_behind = omega (arith, a.not_behind);
    not_rewritten = λ positive.
        let (r, found, same) = a.not_rewritten positive in
        (r, get_elem?-append js rows (row ∷ []) (anchor.seq - 1) found, same);
  }

  AnchoredIf-append :
      (rows : List EventRow) (row : EventRow) (disk : Option Anchor)
      → tail_seq rows ≤ tail_seq (rows ++ row ∷ [])
      → AnchoredIf js rows disk
      → AnchoredIf js (rows ++ row ∷ []) disk
  AnchoredIf-append rows row none grows a = tt
  AnchoredIf-append rows row (some anchor) grows a = Anchored-append rows row anchor grows a

  pub Committed-Sound :
      {db db' : Db} {disk : Option Anchor} {run : Option Text} {row : EventRow}
      → Sound db disk
      → Committed js db run row db'
      → Sound db' disk
  Committed-Sound {db} {db'} {disk} {run} {row} s c = record {
    last = row.hash;
    chained = rw c.added longer;
    counted =
        omega
          (arith, c.counted, c.numbered, here, ap length c.added, length-append db.rows (row ∷ []));
    anchored = rw c.added (
        AnchoredIf-append db.rows row disk
          (omega (arith, here, tail_seq-length js _ longer, length-append db.rows (row ∷ [])))
          s.anchored);
  }
    where
      here : tail_seq db.rows ≡ length db.rows
      here = tail_seq-length js db.rows s.chained

      longer : Chained js 0 (genesis js) (db.rows ++ row ∷ []) row.hash
      longer =
          Chained-append js row s.chained (omega (arith, c.numbered, here))
            (c.linked ∙ head-Chained js db.rows s.chained) c.hashed

  new_anchor : ℕ → Text → Anchor
  new_anchor seq hash = record { genesis = genesis js; seq = seq; hash = hash }

  new_anchor-Sound :
      {db : Db} {disk : Option Anchor} (s : Sound db disk) (seq : ℕ) (hash : Text)
      → seq ≡ length db.rows
      → hash ≡ s.last
      → Sound db (some (new_anchor seq hash))
  unfolding new_anchor
  new_anchor-Sound {db} s seq hash at same = record {
    last = s.last;
    chained = s.chained;
    counted = s.counted;
    anchored = tail-Anchored js db.rows (new_anchor seq hash) s.chained refl at same;
  }

  with_disk : {db : Db} {disk other : Option Anchor} → disk ≡ other → Sound db other → Sound db disk
  with_disk e s = rw e s

  pub committed-db : (s : Store) (row : EventRow) (db : Db) → (committed js s row db).db ≡ db
  unfolding committed write_anchor
  committed-db s row db = ground arith

  committed-disk :
      (s : Store) (row : EventRow) (db : Db)
      → ((committed js s row db).disk ≡ s.disk)
        ⊎ ((committed js s row db).disk ≡ some (new_anchor row.seq row.hash))
  unfolding committed write_anchor new_anchor
  committed-disk s row db = ground arith

  pub committed-Sound :
      (s : Store) (row : EventRow) (db : Db) {run : Option Text}
      → Sound s.db s.disk
      → Committed js s.db run row db
      → Sound (committed js s row db).db (committed js s row db).disk
  unfolding Committed-Sound
  committed-Sound s row db h c =
      let after = Committed-Sound h c in
      rw (committed-db s row db) (elim (committed-disk s row db) [
        | inl kept ↦ with_disk kept after
        | inr written ↦
            with_disk written (
              new_anchor-Sound after row.seq row.hash (omega (arith, after.counted, c.counted))
                refl)
      ])

  write_anchor-disk :
      (s : Store)
      → ((write_anchor js s none).0.disk ≡ s.disk)
        ⊎ ((write_anchor js s none).0.disk
            ≡ some (new_anchor (tail_seq s.db.rows) (head js s.db.rows)))
  unfolding write_anchor new_anchor
  write_anchor-disk s = ground arith

  pub write_anchor-Sound :
      (s : Store) → Sound s.db s.disk → Sound s.db (write_anchor js s none).0.disk
  write_anchor-Sound s h = elim (write_anchor-disk s) [
    | inl kept ↦ with_disk kept h
    | inr written ↦ with_disk written (
        new_anchor-Sound h (tail_seq s.db.rows) (head js s.db.rows)
          (tail_seq-length js s.db.rows h.chained) (head-Chained js s.db.rows h.chained))
  ]
