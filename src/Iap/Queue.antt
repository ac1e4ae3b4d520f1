-- ===== src/Iap/Queue.antt =====
-- The queue of outbound HID reports of iap.c: `txq`, a ring of 24 slots, with `txq_push` and the
-- loop of `iap_tx_pump`.
use esp32_s3_car_adapter.Common.{
  ℕ, zero, suc, ◌+◌, ◌-◌, ◌%◌, Bool, true, false, ◌||◌, List, [], ◌∷◌, Option, none, some,
}
use esp32_s3_car_adapter.Common.{ltb, leb, if◌then◌else◌, length, get_or, set, replicate, u8}
pub mod Inv
pub mod Refine
pub mod Rounds
pub mod Race

-- `TXQ_N`
abbrev pub txq_size : ℕ
txq_size = 24

-- `tx_report_t`: `len` is the length of `bytes`, the part of `data` that is ever read.
pub record TxReport : Type 0 where
  pub id : ℕ
  pub bytes : List ℕ

abbrev pub no_report : TxReport
no_report = record { id = 0; bytes = [] }

-- `txq`, `txq_head`, `txq_tail`, `txq_count`
pub record TxQueue : Type 0 where
  pub slots : List TxReport
  pub head : ℕ
  pub tail : ℕ
  pub count : ℕ

abbrev pub empty_queue : TxQueue
empty_queue = record { slots = replicate txq_size no_report; head = 0; tail = 0; count = 0 }

-- `none` is the `false` of the source, which leaves the queue as it is.
unfoldable pub txq_push : ℕ → List ℕ → TxQueue → Option TxQueue
txq_push id bytes q =
    if leb txq_size q.count || ltb 64 (length bytes)
    then none
    else some (record q {
      slots = set q.slots q.tail (record { id = id; bytes = bytes });
      tail = u8 ((q.tail + 1) % txq_size);
      count = u8 (q.count + 1);
    })

-- One successful round of `iap_tx_pump`: the slot at the head is given up.
unfoldable pub txq_pop : TxQueue → TxQueue
txq_pop q = record q { head = u8 ((q.head + 1) % txq_size); count = q.count - 1 }

-- The loop of `iap_tx_pump` with `fuel` rounds at most. `accepts k` is what the k-th call of
-- `tud_hid_report` answers; the reports that it took are returned, oldest first.
unfoldable pub pump_loop : (ℕ → Bool) → ℕ → ℕ → TxQueue → TxQueue × List TxReport
pump_loop accepts zero k q = (q, [])
pump_loop accepts (suc fuel) k q =
    let report = get_or q.slots q.head no_report in
    let rest = pump_loop accepts fuel (k + 1) (txq_pop q) in
    if ltb 0 q.count then (if accepts k then (rest.0, report ∷ rest.1) else (q, [])) else (q, [])

-- Each round takes one report, so as many rounds as there are reports are enough.
unfoldable pub pump : (ℕ → Bool) → TxQueue → TxQueue × List TxReport
unfolding pump_loop txq_pop
pump accepts q = pump_loop accepts q.count 0 q
