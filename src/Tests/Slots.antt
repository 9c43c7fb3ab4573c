-- ===== src/Tests/Slots.antt =====
-- Slots of tagged and untagged keys.
use emberdb.Prelude.{◌<◌, bytes}
use emberdb.Slot.{slot_count, slot_for_key}
use emberdb.Slot.Tag.{slot_for_key-lt}
use emberdb.Tests.Fixture.{toy}

slot_for_key-lt_example : slot_for_key toy (bytes "user:1") < slot_count
slot_for_key-lt_example = slot_for_key-lt toy (bytes "user:1")
