-- ===== src/Iap/Queue/Race/Runs.antt =====
-- A race for a queue with one report.
use esp32_s3_car_adapter.Common.{refl, arith, [], ◌∷◌, replicate}
use esp32_s3_car_adapter.Iap.Queue.{TxQueue, TxReport, no_report}
use esp32_s3_car_adapter.Iap.Queue.Inv.{IsValid}
use esp32_s3_car_adapter.Iap.Queue.Race.{Races, tasks-Races}

abbrev track_changed : TxReport
track_changed = record { id = 1; bytes = 0x00 ∷ 0x55 ∷ 0x04 ∷ [] }

abbrev one_waits : TxQueue
one_waits = record { slots = track_changed ∷ replicate 23 no_report; head = 0; tail = 1; count = 1 }

one_waits-IsValid : IsValid one_waits
one_waits-IsValid = record {
  storage = refl;
  head_in = omega arith;
  count_in = omega arith;
  tail_at = refl;
}

tasks-Races_example : Races track_changed one_waits
tasks-Races_example =
    tasks-Races track_changed one_waits (omega arith) (omega arith) (omega arith) one_waits-IsValid
