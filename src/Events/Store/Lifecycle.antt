-- ===== src/Events/Store/Lifecycle.antt =====
-- The life of a log of events/store.ts: appends, anchors, verifications, subscriptions, clean exits
-- and crashes, in any order, by one process after another.
use mr_robot.Common.{ℕ, ◌≡◌, refl, ◌⊎◌, inl, inr, true, Option, none, some, [], arith, length}
use mr_robot.Common.Text.{Text}
use mr_robot.Events.Chain.{Db, Anchor, genesis, ok, VerifyResult, verify_chain}
use mr_robot.Events.Chain.Accepts.{done}
use mr_robot.Events.Store.{
  Runtime, Now, Options, AppendInput, Store, Result, Result-cases, threw, append, committed,
  write_anchor, open_store, verify, close, subscribe, unsubscribe,
}
use mr_robot.Events.Store
use mr_robot.Events.Store.Append.{append_commits, append_refused_unchanged}
use mr_robot.Events.Store.Sound.{
  Sound, Sound-verifies, committed-Sound, write_anchor-Sound, committed-db, Committed-Sound,
}

-- One step of the log's life. A restart is a crash or a clean exit followed by a start, on the
-- database and the head file as they are.
pub data Step (rt : Runtime) (s : Store) : Store → Type 0 where
  appends : (now : Now) (input : AppendInput) → Step rt s (append rt s now input).0
  -- The append has committed, and the process dies or the write of the anchor fails: the rows are there, the
  -- head file is as it was, and no listener is called.
  breaks :
      (now : Now) (input : AppendInput) → Step rt s (record s { db = (append rt s now input).0.db })
  anchors : Step rt s (write_anchor rt.js s none).0
  verifies :
      (anchor : Option Anchor) (result : VerifyResult) {t : Store}
      → verify rt.js s anchor ≡ some (t, result)
      → Step rt s t
  subscribes : (l : ℕ) → Step rt s (subscribe s l)
  unsubscribes : (l : ℕ) → Step rt s (unsubscribe s l)
  closes : Step rt s (close rt.js s)
  restarts :
      (options : Options) {t : Store}
      → open_store options (some s.db) true s.disk ≡ Store.Result.done t
      → Step rt s t

pub data Reaches (rt : Runtime) (s : Store) : Store → Type 0 where
  here : Reaches rt s s
  next : {t u : Store} → Reaches rt s t → Step rt t u → Reaches rt s u

module _ (rt : Runtime) where
  open rt use {js}

  abbrev SoundStore : Store → Type 0
  SoundStore s = Sound js s.db s.disk

  append-SoundStore :
      (s : Store) (now : Now) (input : AppendInput)
      → SoundStore s
      → SoundStore (append rt s now input).0
  append-SoundStore s now input h = elim (Result-cases (append rt s now input).1) [
    | inr (e, refused) ↦ rw (append_refused_unchanged rt s now input refused) h
    | inl (row, returned) ↦
        let (db, c, after, _) = append_commits rt s now input returned in
        rw after (committed-Sound js s row db h c)
  ]

  breaks-SoundStore :
      (s : Store) (now : Now) (input : AppendInput)
      → SoundStore s
      → SoundStore (record s { db = (append rt s now input).0.db })
  breaks-SoundStore s now input h = elim (Result-cases (append rt s now input).1) [
    | inr (e, refused) ↦ rw (append_refused_unchanged rt s now input refused) h
    | inl (row, returned) ↦
        let (db, c, after, _) = append_commits rt s now input returned in
        rw (after, committed-db js s row db) (Committed-Sound js h c)
  ]

  verify_keeps :
      (s : Store) (anchor : Option Anchor) {t : Store} {result : VerifyResult}
      → verify js s anchor ≡ some (t, result)
      → (t.db ≡ s.db) × (t.disk ≡ s.disk)
  unfolding verify
  verify_keeps s anchor h = ground arith

  open_store_keeps :
      (options : Options) (db : Db) (disk : Option Anchor) {t : Store}
      → open_store options (some db) true disk ≡ Store.Result.done t
      → (t.db ≡ db) × (t.disk ≡ disk)
  unfolding open_store
  open_store_keeps options db disk h = ground arith

  write_anchor-db : (s : Store) → (write_anchor js s none).0.db ≡ s.db
  unfolding write_anchor
  write_anchor-db s = ground arith

  close-db : (s : Store) → (close js s).db ≡ s.db
  unfolding close write_anchor
  close-db s = ground arith

  close-disk :
      (s : Store)
      → ((close js s).disk ≡ s.disk) ⊎ ((close js s).disk ≡ (write_anchor js s none).0.disk)
  unfolding close
  close-disk s = ground arith

  close-SoundStore : (s : Store) → SoundStore s → SoundStore (close js s)
  close-SoundStore s h = elim (close-disk s) [
    | inl kept ↦ rw (close-db s, kept) h
    | inr written ↦ rw (close-db s, written) (write_anchor-Sound js s h)
  ]

  Step-SoundStore : {s t : Store} → Step rt s t → SoundStore s → SoundStore t
  unfolding subscribe unsubscribe
  Step-SoundStore {s} (appends now input) h = append-SoundStore s now input h
  Step-SoundStore {s} (breaks now input) h = breaks-SoundStore s now input h
  Step-SoundStore {s} anchors h = rw (write_anchor-db s) (write_anchor-Sound js s h)
  Step-SoundStore {s} (verifies anchor result e) h =
      let (same_db, same_disk) = verify_keeps s anchor e in rw (same_db, same_disk) h
  Step-SoundStore (subscribes l) h = h
  Step-SoundStore (unsubscribes l) h = h
  Step-SoundStore {s} closes h = close-SoundStore s h
  Step-SoundStore {s} (restarts options e) h =
      let (same_db, same_disk) = open_store_keeps options s.db s.disk e in rw (same_db, same_disk) h

  Reaches-SoundStore : {s t : Store} → SoundStore s → Reaches rt s t → SoundStore t
  Reaches-SoundStore h here = h
  Reaches-SoundStore h (next r step) = Step-SoundStore step (Reaches-SoundStore h r)

  created-SoundStore :
      (options : Options) {s : Store}
      → open_store options none true none ≡ Store.Result.done s
      → SoundStore s
  created-SoundStore options {s} h =
      let (empty, undisturbed) = created options h in
      rw (empty, undisturbed)
        (record { last = genesis js; chained = done; counted = refl; anchored = tt })
    where
      created :
          (options : Options) {s : Store}
          → open_store options none true none ≡ Store.Result.done s
          → (s.db ≡ record { rows = []; counter = 0 }) × (s.disk ≡ none)
      created options h = unfold open_store in ground arith

  -- A log that was created where no head file stood verifies against the anchor in its head file after
  -- any sequence of appends, appends that break off between the commit and the anchor, anchors, verifications,
  -- subscriptions, closes and restarts, each restart with its own options, after a clean exit or a crash, and
  -- with the table's triggers in place.
  pub honest_log_verifies :
      (options : Options) {s t : Store}
      → open_store options none true none ≡ Store.Result.done s
      → Reaches rt s t
      → (head : Text) × (verify_chain js t.db t.disk ≡ some (ok (length t.db.rows) head))
  honest_log_verifies options created reached =
      let sound = Reaches-SoundStore (created-SoundStore options created) reached in
      (sound.last, Sound-verifies js sound)
