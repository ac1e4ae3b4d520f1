-- ===== src/Iap/Delivery/Runs.antt =====
-- A long answer on its way to a host that takes one report in each round.
use esp32_s3_car_adapter.Common.{
  ℕ, zero, suc, refl, ◌+◌, ◌*◌, ◌≢◌, ◌==◌, Bool, true, false, ◌&&◌, List, [], arith, length,
  replicate, All,
}
use esp32_s3_car_adapter.Iap.Queue.{empty_queue}
use esp32_s3_car_adapter.Iap.Queue.Inv.{IsValid}
use esp32_s3_car_adapter.Iap.Queue.Refine.{contents}
use esp32_s3_car_adapter.Iap.Queue.Rounds.{TakesOne}
use esp32_s3_car_adapter.Iap.Command.{put_u8, put_u16, put_bytes}
use esp32_s3_car_adapter.Iap.State.{initial, command_bytes, tx_send}
use esp32_s3_car_adapter.Iap.Delivery.{Delivers, tx_pump_rounds, tx_send-Delivers}

abbrev micros : ℕ → ℕ
micros k = 1000 * (k + 1)

abbrev one_each : List (ℕ → Bool)
one_each = replicate 24 (λ k. k == 0)

abbrev long_answer : List ℕ
long_answer = replicate 300 7

empty-IsValid : IsValid empty_queue
empty-IsValid = record {
  storage = refl;
  head_in = omega arith;
  count_in = omega arith;
  tail_at = refl;
}

not_256 : length (command_bytes false 0 8 5 long_answer) ≢ 256
unfolding command_bytes put_u8 put_u16 put_bytes
not_256 = omega arith

All-replicate : (n : ℕ) → All TakesOne (replicate n (λ k. k == 0))
All-replicate zero = tt
All-replicate (suc n) = (refl, All-replicate n)

tx_send-Delivers_example :
    Delivers
      (contents initial.txq)
      (command_bytes (initial.trx.enabled && true) 0 8 5 long_answer)
      []
      (tx_pump_rounds one_each (tx_send micros 0 8 true 5 long_answer initial))
tx_send-Delivers_example =
    tx_send-Delivers micros 0 8 true 5 long_answer initial one_each [] empty-IsValid (omega arith)
      not_256 (All-replicate 24) (omega arith)
