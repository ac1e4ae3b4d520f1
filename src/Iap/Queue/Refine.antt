-- ===== src/Iap/Queue/Refine.antt =====
-- A valid queue behaves as the list of the reports that it holds.
use esp32_s3_car_adapter.Common.{
  ℕ, zero, suc, ◌+◌, ◌-◌, ◌%◌, ◌<◌, ◌≡◌, ◌≢◌, refl, ap, Bool, true, ◌||◌, List, [], ◌∷◌, ◌++◌,
  Option, none, some, arith, inl, inr, ◌≤◌, u8,
}
use esp32_s3_car_adapter.Common.{
  leb, ltb, if◌then◌else◌, length, get_or, set, take, drop, get_or-set_self, get_or-set_ne,
  Bool-cases,
}
use esp32_s3_car_adapter.Iap.Queue.{
  TxQueue, TxReport, no_report, txq_size, txq_push, txq_pop, pump_loop, pump,
}
use esp32_s3_car_adapter.Iap.Queue.Inv.{IsValid, txq_push-IsValid, txq_pop-IsValid}
use mathlib.Core.Option

-- The `n` reports from slot `h` on, going round at 24.
abbrev pub window : List TxReport → ℕ → ℕ → List TxReport
window slots h zero = []
window slots h (suc n) = get_or slots h no_report ∷ window slots ((h + 1) % txq_size) n

abbrev pub contents : TxQueue → List TxReport
contents q = window q.slots q.head q.count

-- The abstract queue: at most 24 reports of at most 64 bytes.
unfoldable pub enqueue : TxReport → List TxReport → Option (List TxReport)
enqueue r q =
    if leb txq_size (length q) || leb 65 (length r.bytes) then none else some (q ++ r ∷ [])

length-window : (slots : List TxReport) (h n : ℕ) → length (window slots h n) ≡ n
length-window slots h zero = refl
length-window slots h (suc n) = ap suc (length-window slots ((h + 1) % txq_size) n)

pub length-contents : (q : TxQueue) → length (contents q) ≡ q.count
length-contents q = length-window q.slots q.head q.count

-- Writing the slot just past a window extends it by that report.
window-set :
    (slots : List TxReport) (r : TxReport) (n h i : ℕ)
    → length slots ≡ txq_size
    → h < txq_size
    → n < txq_size
    → i ≡ (h + n) % txq_size
    → window (set slots i r) h (suc n) ≡ window slots h n ++ r ∷ []
window-set slots r zero h i hs hh hn e =
    let e' : i ≡ h = omega arith in
    ap (λ x. x ∷ []) (ground (arith, get_or-set_self slots h r no_report))
window-set slots r (suc n) h i hs hh hn e =
    let rest : window (set slots i r) ((h + 1) % txq_size) (suc n)
        ≡ window slots ((h + 1) % txq_size) n ++ r ∷ [] =
      window-set slots r n ((h + 1) % txq_size) i hs (omega arith) (omega arith) (omega arith) in
    let ne : i ≢ h = omega arith in
    ground (arith, rest, get_or-set_ne slots {i = i} {j = h} r no_report ne)

-- On a valid queue txq_push is the push of the bounded abstract queue: it fails exactly when that
-- one does, and else the queue holds the same reports with the new one behind them.
pub txq_push_refines :
    {q : TxQueue} (id : ℕ) (bytes : List ℕ)
    → IsValid q
    → Option.map contents (txq_push id bytes q)
      ≡ enqueue (record { id = id; bytes = bytes }) (contents q)
unfolding txq_push enqueue
txq_push_refines {q} id bytes v = ground (
  arith,
  length-contents q,
  window-set q.slots (record { id = id; bytes = bytes }) q.count q.head q.tail,
)

-- `window` matches on `suc`, the code tests `txq_count > 0`.
window_of_pos :
    (slots : List TxReport) (h n : ℕ)
    → 0 < n
    → window slots h n ≡ get_or slots h no_report ∷ window slots ((h + 1) % txq_size) (n - 1)
window_of_pos slots h zero p = absurd (omega arith)
window_of_pos slots h (suc n) p =
    ap (λ k. get_or slots h no_report ∷ window slots ((h + 1) % txq_size) k) (omega arith)

contents_pop :
    (q : TxQueue)
    → 0 < q.count
    → contents q ≡ get_or q.slots q.head no_report ∷ contents (txq_pop q)
unfolding txq_pop
contents_pop q h =
    let e : (q.head + 1) % txq_size % 256 ≡ (q.head + 1) % txq_size = omega arith in
    rw e (window_of_pos q.slots q.head q.count h)

-- How many calls are answered `true` before the first refusal, of `n` calls from the k-th on.
abbrev pub taken : (ℕ → Bool) → ℕ → ℕ → ℕ
taken accepts zero k = 0
taken accepts (suc n) k = if accepts k then suc (taken accepts n (k + 1)) else 0

record Pumped (accepts : ℕ → Bool) (n k : ℕ) (q : TxQueue) (out : TxQueue × List TxReport)
    : Type 0 where
  valid : IsValid out.0
  sent : out.1 ≡ take (taken accepts n k) (contents q)
  left : contents out.0 ≡ drop (taken accepts n k) (contents q)

pump_loop-Pumped :
    (accepts : ℕ → Bool) (n k : ℕ) (q : TxQueue)
    → IsValid q
    → q.count ≡ n
    → Pumped accepts n k q (pump_loop accepts n k q)
unfolding pump_loop
pump_loop-Pumped accepts zero k q v e = record { valid = v; sent = refl; left = refl }
pump_loop-Pumped accepts (suc n) k q v e = elim (Bool-cases (accepts k)) [
  | inl h ↦
      let pos : 0 < q.count = omega arith in
      let lt : ltb 0 q.count ≡ true = ground arith in
      let ih : Pumped accepts n (k + 1) (txq_pop q) (pump_loop accepts n (k + 1) (txq_pop q)) =
        pump_loop-Pumped accepts n (k + 1) (txq_pop q) (txq_pop-IsValid v pos)
          (unfold txq_pop in omega arith) in
      let c : contents q ≡ get_or q.slots q.head no_report ∷ contents (txq_pop q) =
        contents_pop q pos in
      record {
        valid = rw (lt, h) ih.valid;
        sent = rw (lt, h, c, ih.sent);
        left = rw (lt, h, c, ih.left);
      }
  | inr h ↦
      let lt : ltb 0 q.count ≡ true = ground arith in
      record { valid = rw (lt, h) v; sent = rw (lt, h); left = rw (lt, h) }
]

-- On a valid queue iap_tx_pump hands over, in order, the reports up to the first that the host
-- refuses (all of them if it refuses none), and exactly the others stay, in a valid queue.
pub pump_refines :
    {q : TxQueue} (accepts : ℕ → Bool)
    → IsValid q
    → let (q', sent) = pump accepts q in
      IsValid q'
      × (sent ≡ take (taken accepts q.count 0) (contents q))
      × (contents q' ≡ drop (taken accepts q.count 0) (contents q))
unfolding pump
pump_refines {q} accepts v =
    let p : Pumped accepts q.count 0 q (pump_loop accepts q.count 0 q) =
      pump_loop-Pumped accepts q.count 0 q v refl in
    (p.valid, p.sent, p.left)

-- The two outcomes of a push, for the loops that make it.
pub txq_push_full :
    (q : TxQueue) (id : ℕ) (bytes : List ℕ) → txq_size ≤ q.count → txq_push id bytes q ≡ none
unfolding txq_push
txq_push_full q id bytes h = ground arith

pub txq_push_room :
    (q : TxQueue) (id : ℕ) (bytes : List ℕ)
    → IsValid q
    → q.count < txq_size
    → length bytes ≤ 64
    → (q' : TxQueue) × (txq_push id bytes q ≡ some q')
      × IsValid q'
      × (q'.count ≡ suc q.count)
      × (contents q' ≡ contents q ++ record { id = id; bytes = bytes } ∷ [])
unfolding txq_push
txq_push_room q id bytes v h len =
    let report : TxReport = record { id = id; bytes = bytes } in
    let q' : TxQueue = record q {
      slots = set q.slots q.tail report;
      tail = u8 ((q.tail + 1) % txq_size);
      count = u8 (q.count + 1);
    } in
    let pushed : txq_push id bytes q ≡ some q' = ground arith in
    (
      q',
      pushed,
      txq_push-IsValid id bytes v pushed,
      omega arith,
      ground (arith, window-set q.slots report q.count q.head q.tail),
    )
