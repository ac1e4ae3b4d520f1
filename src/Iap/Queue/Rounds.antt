-- ===== src/Iap/Queue/Rounds.antt =====
-- A host that takes a report in every round gets all of the queue.
use esp32_s3_car_adapter.Common.{
  ℕ, zero, suc, ◌-◌, ◌≤◌, ◌<◌, ◌≡◌, sym, ap, ◌∙◌, Bool, true, List, [], ◌∷◌, ◌++◌, arith, length,
  drop, length-drop, drop_all, take-append-drop, All,
}
use esp32_s3_car_adapter.Iap.Queue.{TxQueue, TxReport, pump}
use esp32_s3_car_adapter.Iap.Queue.Inv.{IsValid}
use esp32_s3_car_adapter.Iap.Queue.Refine.{contents, length-contents, taken, pump_refines}

-- Several calls of `iap_tx_pump`, and all the reports that they hand over.
unfoldable pub pump_rounds : List (ℕ → Bool) → TxQueue → TxQueue × List TxReport
pump_rounds [] q = (q, [])
pump_rounds (a ∷ more) q =
    let (q', sent) = pump a q in let (q'', sent') = pump_rounds more q' in (q'', sent ++ sent')

-- The host takes the first report that it is offered.
abbrev pub TakesOne : (ℕ → Bool) → Type 0
TakesOne accepts = accepts 0 ≡ true

taken-positive : (accepts : ℕ → Bool) (n : ℕ) → TakesOne accepts → 0 < n → 0 < taken accepts n 0
taken-positive accepts zero h p = p
taken-positive accepts (suc n) h p = rw h (omega arith)

-- What several rounds leave and hand over.
pub record Drained (q : TxQueue) (run : TxQueue × List TxReport) : Type 0 where
  pub emptied : contents run.0 ≡ []
  pub handed : run.1 ≡ contents q

pub pump_rounds-Drained :
    (rounds : List (ℕ → Bool)) {q : TxQueue}
    → IsValid q
    → All TakesOne rounds
    → q.count ≤ length rounds
    → Drained q (pump_rounds rounds q)
unfolding pump_rounds
pump_rounds-Drained [] {q} v all h =
    let none_left : contents q ≡ [] = drop_all 0 (contents q) (omega (arith, length-contents q)) in
    record { emptied = none_left; handed = sym none_left }
pump_rounds-Drained (a ∷ more) {q} v all h =
    let (v', sent, left) = pump_refines a v in
    let q' : TxQueue = (pump a q).0 in
    let k : ℕ = taken a q.count 0 in
    let counted : q'.count ≡ q.count - k =
      sym (length-contents q')
      ∙ ap length left
      ∙ length-drop k (contents q)
      ∙ ap (λ n. n - k) (length-contents q) in
    let fewer : q'.count ≤ length more =
      ground (arith, counted, taken-positive a q.count all.0, h) in
    let rest : Drained q' (pump_rounds more q') = pump_rounds-Drained more v' all.1 fewer in
    record {
      emptied = rest.emptied;
      handed =
          ap (λ l. (pump a q).1 ++ l) (rest.handed ∙ left)
          ∙ ap (λ l. l ++ drop k (contents q)) sent
          ∙ take-append-drop k (contents q);
    }
