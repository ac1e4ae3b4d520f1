-- ===== src/Usb/Exchange/Answer.antt =====
-- A query of the head unit is answered, from the USB callback to the reports of the task.
use esp32_s3_car_adapter.Common.{
  ℕ, ◌^◌, ◌<◌, ◌≤◌, ◌≡◌, refl, sym, ap, ◌∙◌, Bool, true, List, [], ◌∷◌, ◌++◌, Option, All, length,
}
use esp32_s3_car_adapter.Iap.Queue.{TxReport, pump, txq_size}
use esp32_s3_car_adapter.Iap.Queue.Inv.{IsValid}
use esp32_s3_car_adapter.Iap.Queue.Refine.{contents}
use esp32_s3_car_adapter.Iap.Queue.Rounds.{pump_rounds, TakesOne}
use esp32_s3_car_adapter.Iap.Report.Chain.{chain}
use esp32_s3_car_adapter.Iap.State.{Iap}
use esp32_s3_car_adapter.Iap.Live.{iap_tx_pump}
use esp32_s3_car_adapter.Iap.Dispatch.Reception.{rx_after}
use esp32_s3_car_adapter.Iap.Delivery.{Delivers, tx_pump_rounds-queue}
use esp32_s3_car_adapter.Iap.Delivery.Query.{Query}
use esp32_s3_car_adapter.Iap.Delivery.Exchange.{tuned, answer_bytes, rx_after-Delivers}
use esp32_s3_car_adapter.Iap.Delivery.Received.{query_bytes, IsSent}
use esp32_s3_car_adapter.Usb.Batch.{Floats}
use esp32_s3_car_adapter.Usb.Device.{Usb, with_iap}
use esp32_s3_car_adapter.Usb.Attach.{task_round}
use esp32_s3_car_adapter.Usb.Exchange.{IsPrefix, Round, offers, host_sends, round_sent, task_rounds}
use esp32_s3_car_adapter.Usb.Exchange.Rounds.{audio_pump-IsSame, task_round-pump}
use esp32_s3_car_adapter.Usb.Exchange.Host.{chain-HasLink, host_sends-received}

-- What is delivered is told by the queue and by what was handed over.
Delivers-same :
    {waiting : List TxReport} {cmd old : List ℕ} {run run' : Iap × List TxReport}
    → Delivers waiting cmd old run
    → run'.0.txq ≡ run.0.txq
    → run'.1 ≡ run.1
    → Delivers waiting cmd old run'
Delivers-same d queue sent = record {
  emptied = ap contents queue ∙ d.emptied;
  reports = d.reports;
  handed = sent ∙ d.handed;
  frame = d.frame;
  received = d.received;
  chained = d.chained;
  packet = d.packet;
}

module _ (fl : Floats) (clock : ℕ → ℕ) where
  round_sent-pump :
      (r : Round) (s : Usb fl.F) → round_sent fl clock r s ≡ (pump r.accepts s.audio.iap.txq).1
  unfolding round_sent iap_tx_pump
  round_sent-pump r s =
      ap (λ (i : Iap). (pump r.accepts i.txq).1) (audio_pump-IsSame clock fl r.mounted s).iap.is

  task_rounds-queue :
      (rounds : List Round) (s : Usb fl.F)
      → s.stack_ready ≡ true
      → let o = task_rounds fl clock rounds s in
        (o.0.audio.iap.txq ≡ (pump_rounds (offers rounds) s.audio.iap.txq).0)
        × (o.1 ≡ (pump_rounds (offers rounds) s.audio.iap.txq).1)
  unfolding task_rounds pump_rounds
  task_rounds-queue [] s ready = (refl, refl)
  task_rounds-queue (r ∷ rs) s ready =
      let t = task_round fl clock r.mounted r.mounted' r.accepts s in
      let (queue, ready') = task_round-pump clock fl r.mounted r.mounted' r.accepts s ready in
      let (last, sent) = task_rounds-queue rs t ready' in
      (
        last ∙ ap (λ q. (pump_rounds (offers rs) q).0) queue,
        ap (λ l. l ++ (task_rounds fl clock rs t).1) (round_sent-pump r s)
            ∙ ap (λ l. (pump r.accepts s.audio.iap.txq).1 ++ l)
                (sent ∙ ap (λ q. (pump_rounds (offers rs) q).1) queue),
      )

  -- The host's reports, and rounds of the task behind them.
  abbrev pub exchange : ℕ → Option ℕ → List (List ℕ) → List Round → Usb fl.F → Iap × List TxReport
  exchange report_id prefix chunks rounds s =
      let o =
        task_rounds fl clock rounds (host_sends clock report_id prefix (chain true chunks) s) in
      (o.0.audio.iap, o.1)

  -- After iap_set_track, a query of the title, artist or album (with a transaction below 65536 or
  -- without, and 4 bytes of index) is answered by the rounds of tusb_task with the stack running.
  -- The host may cut the query's packet in chunks of any size up to 64 bytes, each behind its link
  -- byte, and put bytes behind it that hold no packet, such as the zeros that fill its last report,
  -- up to 2048 bytes in all; it gives these reports to tud_hid_set_report_cb one by one, with an ID
  -- of 4 or more in front or without. Where it then takes at least the first report of each of 24
  -- or more rounds, whatever tud_mounted says in them, it gets, behind what waited, reports that
  -- are linked as the protocol wants it (0, or 2, 3 and 1) and carry one frame, which the receiver
  -- of iap.c, too, puts together, and whose one packet has the string given, cut at 191 bytes and
  -- closed by a 0, a null pointer as the empty string; and nothing waits any more. The report queue
  -- is valid and has at most 14 reports at the start.
  pub device-Delivers :
      (a t al : Option (List ℕ)) (s : Usb fl.F) (k : Query) (has_trx : Bool) (trx : ℕ)
      (index tail : List ℕ) (chunks : List (List ℕ)) (report_id : ℕ) (prefix : Option ℕ)
      (rounds : List Round) (old : List ℕ)
      → trx < 2 ^ 16
      → length index ≡ 4
      → IsSent chunks (query_bytes k has_trx trx index) tail
      → IsPrefix prefix
      → s.stack_ready ≡ true
      → IsValid (tuned clock a t al s.audio.iap).txq
      → (tuned clock a t al s.audio.iap).txq.count ≤ 14
      → All TakesOne (offers rounds)
      → txq_size ≤ length (offers rounds)
      → Delivers
          (contents (tuned clock a t al s.audio.iap).txq)
          (answer_bytes clock a t al s.audio.iap k has_trx trx)
          old
          (exchange report_id prefix chunks rounds (with_iap (tuned clock a t al s.audio.iap) s))
  unfolding with_iap
  device-Delivers a t al s k has_trx trx index tail chunks report_id prefix rounds old ht hi host hp
        ready v room all enough =
      let engine : Iap = tuned clock a t al s.audio.iap in
      let reports : List (List ℕ) = chain true chunks in
      let (got, stack) =
        host_sends-received clock report_id prefix reports (with_iap engine s) hp
          (chain-HasLink true chunks) in
      let after = host_sends clock report_id prefix reports (with_iap engine s) in
      let (queue, sent) = task_rounds-queue rounds after (stack ∙ ready) in
      let (queue', sent') =
        tx_pump_rounds-queue (offers rounds) (rx_after clock 1 reports engine) in
      let same : after.audio.iap.txq ≡ (rx_after clock 1 reports engine).txq =
        ap (λ (i : Iap). i.txq) got in
      Delivers-same
        (rx_after-Delivers clock a t al s.audio.iap 1 k has_trx trx index tail chunks
          (offers rounds) old ht hi host v room all enough)
        (queue ∙ ap (λ q. (pump_rounds (offers rounds) q).0) same ∙ sym queue')
        (sent ∙ ap (λ q. (pump_rounds (offers rounds) q).1) same ∙ sym sent')
