-- ===== src/Iap/Delivery.antt =====
-- From `tx_send` to the host: what a command becomes on the wire, and that all of it arrives.
use esp32_s3_car_adapter.Common.{
  ℕ, zero, suc, ◌+◌, ◌*◌, ◌-◌, ◌≤◌, ◌<◌, ◌≡◌, ◌≢◌, refl, sym, ap, ◌∙◌, Bool, true, ◌&&◌, List, [],
  ◌∷◌, ◌++◌, some, append-nil, arith, length, get_or, All, length-append,
}
use esp32_s3_car_adapter.Iap.Queue.{TxQueue, TxReport, pump, txq_size}
use esp32_s3_car_adapter.Iap.Queue.Inv.{IsValid}
use esp32_s3_car_adapter.Iap.Queue.Refine.{contents, length-contents}
use esp32_s3_car_adapter.Iap.Queue.Rounds.{pump_rounds, TakesOne, Drained, pump_rounds-Drained}
use esp32_s3_car_adapter.Iap.Packet.{pkt_encode, next_packet, Found}
use esp32_s3_car_adapter.Iap.Packet.RoundTrip.{next_packet-pkt_encode}
use esp32_s3_car_adapter.Iap.Report.{tx_frame}
use esp32_s3_car_adapter.Iap.Report.Fragments.{fragments, tx_frame_refines}
use esp32_s3_car_adapter.Iap.Report.Reassembly.{deliver, deliver-fragments, tx_frame-adds}
use esp32_s3_car_adapter.Iap.Report.Chain.{IsChained, fragments-IsChained}
use esp32_s3_car_adapter.Iap.State.{Iap, command_bytes, tx_send}
use esp32_s3_car_adapter.Iap.State.Send.{tx_send_bounds, command_bytes-positive}
use esp32_s3_car_adapter.Iap.Live.{iap_tx_pump}
pub mod Query
pub mod Received
pub mod Exchange
mod Runs

-- Several calls of `iap_tx_pump`, and all the reports that they hand over.
unfoldable pub tx_pump_rounds : List (ℕ → Bool) → Iap → Iap × List TxReport
tx_pump_rounds [] s = (s, [])
tx_pump_rounds (a ∷ more) s =
    let (s', sent) = iap_tx_pump a s in
    let (s'', sent') = tx_pump_rounds more s' in (s'', sent ++ sent')

pub tx_pump_rounds-queue :
    (rounds : List (ℕ → Bool)) (s : Iap)
    → ((tx_pump_rounds rounds s).0.txq ≡ (pump_rounds rounds s.txq).0)
      × ((tx_pump_rounds rounds s).1 ≡ (pump_rounds rounds s.txq).1)
unfolding tx_pump_rounds pump_rounds iap_tx_pump
tx_pump_rounds-queue [] s = (refl, refl)
tx_pump_rounds-queue (a ∷ more) s =
    let (queue, sent) = tx_pump_rounds-queue more (iap_tx_pump a s).0 in
    (queue, ap (λ l. (pump a s.txq).1 ++ l) sent)

-- A command on its way to the host: nothing waits any more, and behind what waited before stand
-- reports that are linked as the protocol wants it and of which the receiver of iap.c, too, makes
-- one frame, whose one packet has the command.
pub record Delivers (waiting : List TxReport) (cmd old : List ℕ) (run : Iap × List TxReport)
    : Type 0 where
  pub emptied : contents (run.0.txq) ≡ []
  pub reports : List TxReport
  pub handed : run.1 ≡ waiting ++ reports
  pub frame : List ℕ
  pub received : deliver reports old ≡ ([], frame ∷ [])
  pub chained : IsChained reports true frame
  pub packet :
      next_packet frame ≡ some (record { payload = cmd; lead = get_or cmd 0 0; sum = 0; rest = [] })

pub pkt_encode-positive : (cmd : List ℕ) → 0 < length (pkt_encode cmd)
unfolding pkt_encode
pkt_encode-positive cmd = omega arith

packet_of :
    (cmd : List ℕ)
    → 0 < length cmd
    → length cmd ≢ 256
    → length cmd ≤ 65530
    → next_packet (pkt_encode cmd)
      ≡ some (record { payload = cmd; lead = get_or cmd 0 0; sum = 0; rest = [] })
packet_of cmd pos ne fits =
    ap next_packet (sym (append-nil (pkt_encode cmd)))
    ∙ next_packet-pkt_encode [] cmd [] tt pos ne fits

module _ (clock : ℕ → ℕ) where
  -- A command that is sent on a valid queue of at most 14 reports reaches a host that takes at
  -- least the first report of each of 24 calls of iap_tx_pump: the queue is empty then, the host
  -- got what waited before and behind it reports that are linked as the protocol wants it (0, or 2,
  -- 3 and 1) and carry one frame, which the receiver of iap.c, too, puts together, and whose one
  -- packet has the command that tx_send built. The command has not 256 bytes.
  pub tx_send-Delivers :
      (lingo cmd : ℕ) (use_trx : Bool) (trx : ℕ) (payload : List ℕ) (s : Iap)
      (rounds : List (ℕ → Bool)) (old : List ℕ)
      → IsValid s.txq
      → s.txq.count ≤ 14
      → length (command_bytes (s.trx.enabled && use_trx) lingo cmd trx payload) ≢ 256
      → All TakesOne rounds
      → txq_size ≤ length rounds
      → Delivers
          (contents s.txq)
          (command_bytes (s.trx.enabled && use_trx) lingo cmd trx payload)
          old
          (tx_pump_rounds rounds (tx_send clock lingo cmd use_trx trx payload s))
  unfolding tx_send
  tx_send-Delivers lingo cmd use_trx trx payload s rounds old v room ne all enough =
      let c : List ℕ = command_bytes (s.trx.enabled && use_trx) lingo cmd trx payload in
      let (small, packet_small) = tx_send_bounds (s.trx.enabled && use_trx) lingo cmd trx payload in
      let pos : 0 < length c =
        command_bytes-positive (s.trx.enabled && use_trx) lingo cmd trx payload in
      let q : TxQueue = tx_frame (pkt_encode c) s.txq in
      let v' : IsValid q = (tx_frame_refines (pkt_encode c) v).0 in
      let frame : List ℕ = pkt_encode c in
      let some_byte : 0 < length frame = pkt_encode-positive c in
      let d : Drained q (pump_rounds rounds q) =
        pump_rounds-Drained rounds v' all (omega (arith, v'.count_in)) in
      let (queue, sent) =
        tx_pump_rounds-queue rounds (tx_send clock lingo cmd use_trx trx payload s) in
      record {
        emptied = ap contents queue ∙ d.emptied;
        reports = fragments (length frame) true frame;
        handed = sent ∙ d.handed ∙ tx_frame-adds frame v (omega arith);
        frame = frame;
        received =
            deliver-fragments (length frame) true frame old (omega arith) some_byte (omega arith);
        chained = fragments-IsChained (length frame) true frame (omega arith) some_byte;
        packet = packet_of c pos ne (omega arith);
      }
