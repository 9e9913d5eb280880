-- ===== src/Policy/Actor.antt =====
-- control/actor.ts: the proof that a human decided. A value is a HumanActor by its private brand or it
-- is not one, whatever it looks like.
use mr_robot.Common.{String, Option, none, some}

pub data Actor : Type 0 where
  human : String → Actor
  forged : Actor

-- `assertHumanActor`, with the connection of the actor; `none` is a thrown TypeError.
unfoldable pub assert_human : Actor → Option String
assert_human (human connection) = some connection
assert_human forged = none
