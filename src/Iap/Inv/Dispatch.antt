-- ===== src/Iap/Inv/Dispatch.antt =====
-- Reception keeps the invariant.
use esp32_s3_car_adapter.Common.{
  ℕ, zero, suc, ap, arith, List, if_intro, Option-cases, inl, inr, not, ◌==◌,
}
use esp32_s3_car_adapter.Iap.Types.{LogLine}
use esp32_s3_car_adapter.Iap.Packet.{Found, next_packet}
use esp32_s3_car_adapter.Iap.Report.{assemble}
use esp32_s3_car_adapter.Iap.Report.Reassembly.{assemble-le}
use esp32_s3_car_adapter.Iap.Command.{RxCmd, Trx, parse_cmd}
use esp32_s3_car_adapter.Iap.Command.Parse.{parse_cmd-trx_track}
use esp32_s3_car_adapter.Iap.State.{Iap}
use esp32_s3_car_adapter.Iap.Dispatch.{
  handle_cmd, refuse_cmd, accept_packet, handle_packet, dispatch_loop, dispatch_packets,
  iap_rx_report,
}
use esp32_s3_car_adapter.Iap.Inv.Defs.{IsValid, trx_track-counter}
use esp32_s3_car_adapter.Iap.Inv.Handlers.{
  tx_respond-IsValid, handle_general-IsValid, handle_audio-IsValid, handle_extremote-IsValid,
}

module _ (clock : ℕ → ℕ) where
  handle_cmd-IsValid : (c : RxCmd) (s : Iap) → IsValid s → IsValid (handle_cmd clock c s)
  unfolding handle_cmd
  handle_cmd-IsValid c s v = if_intro IsValid _ (handle_general-IsValid clock c s v) (
      if_intro IsValid (c.lingo == 0x0A) (handle_audio-IsValid clock c s v)
        (if_intro IsValid (c.lingo == 0x04) (handle_extremote-IsValid clock c s v) v))

  refuse_cmd-IsValid :
      (lead : ℕ) (payload : List ℕ) (s : Iap)
      → IsValid s
      → IsValid (refuse_cmd clock lead payload s)
  unfolding refuse_cmd
  refuse_cmd-IsValid lead payload s v =
      let logged : IsValid (record s { log = _ }) = record {
        queue = v.queue;
        buffer = v.buffer;
        counter = v.counter;
        strings = v.strings;
      } in
      if_intro IsValid _ (tx_respond-IsValid clock _ _ _ _ logged) logged

  accept_packet-IsValid :
      (lead : ℕ) (payload : List ℕ) (s : Iap)
      → IsValid s
      → IsValid (accept_packet clock lead payload s)
  unfolding accept_packet
  accept_packet-IsValid lead payload s v = elim (Option-cases (parse_cmd payload s.trx)) [
    | inl e ↦
        rw (e, accept_packet)
          (refuse_cmd-IsValid _ _ _ (record {
            queue = v.queue;
            buffer = v.buffer;
            counter = v.counter;
            strings = v.strings;
          }))
    | inr ((c, t), e) ↦
        rw (e, accept_packet)
          (handle_cmd-IsValid c _ (record {
            queue = v.queue;
            buffer = v.buffer;
            counter = omega (
              arith,
              ap (λ (t : Trx). t.counter) (parse_cmd-trx_track payload s.trx t c e),
              trx_track-counter c.lingo c.cmd s.trx v.counter,
            );
            strings = v.strings;
          }))
  ]

  handle_packet-IsValid : (f : Found) (s : Iap) → IsValid s → IsValid (handle_packet clock f s)
  unfolding handle_packet
  handle_packet-IsValid f s v =
      if_intro IsValid (not (f.sum == 0))
        (record { queue = v.queue; buffer = v.buffer; counter = v.counter; strings = v.strings })
        (accept_packet-IsValid f.lead f.payload s v)

  dispatch_loop-IsValid :
      (n : ℕ) (frame : List ℕ) (s : Iap) → IsValid s → IsValid (dispatch_loop clock n frame s)
  unfolding dispatch_loop
  dispatch_loop-IsValid zero frame s v = v
  dispatch_loop-IsValid (suc n) frame s v = elim (Option-cases (next_packet frame)) [
    | inl e ↦ rw (e, dispatch_loop) v
    | inr (f, e) ↦
        rw (e, dispatch_loop)
          (dispatch_loop-IsValid n f.rest (handle_packet clock f s) (handle_packet-IsValid f s v))
  ]

  pub iap_rx_report-IsValid :
      (report : List ℕ) {s : Iap} → IsValid s → IsValid (iap_rx_report clock report s)
  unfolding iap_rx_report dispatch_packets
  iap_rx_report-IsValid report {s} v = elim (Option-cases (assemble report s.frame_buf).frame) [
    | inl e ↦ rw (e, iap_rx_report) received
    | inr (f, e) ↦ rw (e, iap_rx_report) (dispatch_loop-IsValid _ f _ received)
  ]
    where
      received :
          {l : List LogLine}
          → IsValid (record s { frame_buf = (assemble report s.frame_buf).frame_buf; log = l })
      received = record {
        queue = v.queue;
        buffer = assemble-le report s.frame_buf v.buffer;
        counter = v.counter;
        strings = v.strings;
      }
