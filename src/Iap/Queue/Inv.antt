-- ===== src/Iap/Queue/Inv.antt =====
-- The representation invariant of the report queue.
use esp32_s3_car_adapter.Common.{ℕ, ◌+◌, ◌%◌, ◌≤◌, ◌<◌, ◌≡◌, List, some, arith, length, length-set}
use esp32_s3_car_adapter.Iap.Queue.{TxQueue, txq_size, txq_push, txq_pop}

pub record IsValid (q : TxQueue) : Type 0 where
  pub storage : length q.slots ≡ txq_size
  pub head_in : q.head < txq_size
  pub count_in : q.count ≤ txq_size
  pub tail_at : q.tail ≡ (q.head + q.count) % txq_size

pub txq_push-IsValid :
    {q q' : TxQueue} (id : ℕ) (bytes : List ℕ)
    → IsValid q
    → txq_push id bytes q ≡ some q'
    → IsValid q'
unfolding txq_push
txq_push-IsValid {q} id bytes v e =
    ground (arith, length-set q.slots q.tail (record { id = id; bytes = bytes }))

pub txq_pop-IsValid : {q : TxQueue} → IsValid q → 0 < q.count → IsValid (txq_pop q)
unfolding txq_pop
txq_pop-IsValid v h = ground arith
