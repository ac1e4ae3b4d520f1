-- ===== src/Iap/Runs.antt =====
-- Concrete runs of the engine, and its theorems at concrete inputs.
use esp32_s3_car_adapter.Common.{
  ℕ, ◌+◌, ◌-◌, ◌*◌, ◌^◌, ◌≤◌, ◌≡◌, ◌≢◌, refl, true, false, List, [], ◌∷◌, ◌++◌, none, some, length,
  take, arith, replicate, ◌==◌,
}
use mathlib.Core.Option
use esp32_s3_car_adapter.Iap.Types.{LogLine}
use esp32_s3_car_adapter.Iap.Queue
use esp32_s3_car_adapter.Iap.Queue.{TxReport, TxQueue, empty_queue, txq_push, pump, no_report}
use esp32_s3_car_adapter.Iap.Queue.Refine.{contents, enqueue, txq_push_refines, pump_refines}
use esp32_s3_car_adapter.Iap.Packet.{
  Found, sum_from, cksum, length_field, pkt_encode, find_start, cut_packet, read_packet,
  next_packet,
}
use esp32_s3_car_adapter.Iap.Packet.RoundTrip.{next_packet-pkt_encode, next_packet-pkt_encode_256}
use esp32_s3_car_adapter.Iap.Report.{tx_frame, assemble, kept, finish}
use esp32_s3_car_adapter.Iap.Report.Fragments.{fragments, tx_frame_refines}
use esp32_s3_car_adapter.Iap.Report.Reassembly.{deliver, deliver-tx_frame}
use esp32_s3_car_adapter.Iap.Command.{
  RxCmd, Trx, cmd_sizes, find_size, parse_cmd, split_cmd, parse_rest, trx_track,
}
use esp32_s3_car_adapter.Iap.Command.Parse.{parse_cmd-wire, parse_cmd_dead_cases}
use esp32_s3_car_adapter.Iap.State.{Iap, initial, command_bytes}
use esp32_s3_car_adapter.Iap.State.Send.{tx_send_bounds}
use esp32_s3_car_adapter.Iap.Live.{iap_set_track, track_pos_ms}
use esp32_s3_car_adapter.Iap.Live.Position.{note_all, track_pos_ms-note_all}
use esp32_s3_car_adapter.Iap.Dispatch.{dispatch_loop, dispatch_packets, iap_rx_report}
use esp32_s3_car_adapter.Iap.Dispatch.Packets.{
  stream, accept_all, dispatch_loop_fuel, dispatch_packets-stream,
}
use esp32_s3_car_adapter.Iap.Report.Chain.{chain}
use esp32_s3_car_adapter.Iap.Dispatch.Reception.{
  handed_on, rx_all, rx_all-stream, iap_rx_report-incomplete,
}
use esp32_s3_car_adapter.Iap.Inv.{here, next, rx_report, Reach-IsValid}
use esp32_s3_car_adapter.Iap.Inv.Defs.{IsValid}

abbrev micros : ℕ → ℕ
micros k = 1000 * (k + 1)

-- RequestiPodName and StartIDPS.
abbrev ask_name : List ℕ
ask_name = 0x00 ∷ 0x07 ∷ []

abbrev start_idps : List ℕ
start_idps = 0x00 ∷ 0x38 ∷ 0x00 ∷ 0x01 ∷ []

abbrev both : List (List ℕ × List ℕ)
both = ([], ask_name) ∷ (0xFF ∷ 0x00 ∷ [], start_idps) ∷ []

-- A start byte and half a packet.
abbrev cut_off : List ℕ
cut_off = 0x55 ∷ 0x04 ∷ 0x00 ∷ []

ask_name_report : List ℕ
ask_name_report = 0x00 ∷ 0x55 ∷ 0x02 ∷ 0x00 ∷ 0x07 ∷ 0xF7 ∷ []

cut_off-none : next_packet cut_off ≡ none
unfolding next_packet find_start read_packet
cut_off-none = refl

empty_queue-IsValid : Queue.Inv.IsValid empty_queue
empty_queue-IsValid = omega arith

-- The frame of both in three reports of seven bytes.
abbrev both_chunks : List (List ℕ)
both_chunks =
    (0x55 ∷ 0x02 ∷ 0x00 ∷ 0x07 ∷ 0xF7 ∷ 0xFF ∷ 0x00 ∷ [])
    ∷ (0x55 ∷ 0x04 ∷ 0x00 ∷ 0x38 ∷ 0x00 ∷ 0x01 ∷ 0xC3 ∷ [])
    ∷ cut_off
    ∷ []

rx_all-stream_example :
    (l : List LogLine) × (rx_all micros (chain true both_chunks) initial
      ≡ accept_all micros both (handed_on initial l))
unfolding stream pkt_encode cksum sum_from
rx_all-stream_example =
    rx_all-stream micros both cut_off both_chunks initial (omega arith) cut_off-none
      (record { some_chunk = omega arith; sizes = omega arith; whole = refl }) (omega arith)

Reach-IsValid_example : IsValid (iap_rx_report micros (0x00 ∷ cut_off) initial)
Reach-IsValid_example = Reach-IsValid micros (next here (rx_report (0x00 ∷ cut_off)))

abbrev long_frame : List ℕ
long_frame = replicate 100 0x55

deliver-tx_frame_example :
    (reports : List TxReport) × (contents (tx_frame long_frame empty_queue)
      ≡ contents empty_queue ++ reports)
    × (deliver reports (0x01 ∷ 0x02 ∷ []) ≡ ([], long_frame ∷ []))
deliver-tx_frame_example =
    deliver-tx_frame long_frame (0x01 ∷ 0x02 ∷ []) empty_queue-IsValid (omega arith) (omega arith)
      (omega arith)

next_packet-pkt_encode_example :
    next_packet ((0xFF ∷ 0x00 ∷ []) ++ pkt_encode ask_name ++ cut_off)
    ≡ some (record { payload = ask_name; lead = 0x00; sum = 0; rest = cut_off })
next_packet-pkt_encode_example =
    next_packet-pkt_encode (0xFF ∷ 0x00 ∷ []) ask_name cut_off (omega arith) (omega arith)
      (omega arith) (omega arith)

-- A 256-byte command whose packet is read as another one.
abbrev cmd_256 : List ℕ
cmd_256 = 0x00 ∷ 0x02 ∷ replicate 254 0

abbrev misread : Found
misread = record { payload = 0 ∷ 0 ∷ []; lead = 0; sum = 2; rest = replicate 251 0 ++ 254 ∷ [] }

misread_lem : next_packet (pkt_encode cmd_256) ≡ some misread
unfolding next_packet find_start read_packet cut_packet pkt_encode length_field cksum sum_from
misread_lem = refl

next_packet-pkt_encode_256_example : misread.payload ≢ cmd_256
next_packet-pkt_encode_256_example =
    next_packet-pkt_encode_256 cmd_256 misread (omega arith) misread_lem

abbrev plain : Trx
plain = record { enabled = false; counter = 5 }

parse_cmd-wire_example :
    parse_cmd start_idps plain
    ≡ some (
      record { lingo = 0x00; cmd = 0x38; has_trx = true; trx = 1; p = [] },
      trx_track 0x00 0x38 plain,
    )
unfolding find_size cmd_sizes
parse_cmd-wire_example =
    parse_cmd-wire plain true 0x00 0x38 1 [] (omega arith, λ e. omega arith) (omega arith)
      (omega arith) refl

parse_cmd_dead_cases_example :
    (parse_cmd (0x00 ∷ 0x1A ∷ 0x09 ∷ []) plain ≡ none)
    × (parse_cmd (0x04 ∷ 0x00 ∷ 0x02 ∷ 0x09 ∷ []) plain ≡ none)
    × (parse_cmd (0x04 ∷ 0x00 ∷ 0x05 ∷ 0x09 ∷ []) plain ≡ none)
parse_cmd_dead_cases_example = parse_cmd_dead_cases plain (0x09 ∷ [])

abbrev idps_cmd : RxCmd
idps_cmd = record { lingo = 0x00; cmd = 0x38; has_trx = true; trx = 1; p = [] }

idps_parsed : parse_cmd start_idps initial.trx ≡ some (idps_cmd, trx_track 0x00 0x38 initial.trx)
unfolding parse_cmd split_cmd parse_rest find_size cmd_sizes
idps_parsed = refl

-- Two reports, round the end of the slots.
abbrev wrapped : TxQueue
wrapped = record {
  slots =
      record { id = 2; bytes = 7 ∷ [] } ∷ replicate 22 no_report
      ++ record { id = 1; bytes = 6 ∷ [] } ∷ [];
  head = 23;
  tail = 1;
  count = 2;
}

wrapped-IsValid : Queue.Inv.IsValid wrapped
wrapped-IsValid = omega arith

-- The host takes one report only.
pump_refines_example :
    Queue.Inv.IsValid (pump (λ k. k == 0) wrapped).0
    × ((pump (λ k. k == 0) wrapped).1 ≡ record { id = 1; bytes = 6 ∷ [] } ∷ [])
    × (contents (pump (λ k. k == 0) wrapped).0 ≡ record { id = 2; bytes = 7 ∷ [] } ∷ [])
pump_refines_example = pump_refines (λ k. k == 0) wrapped-IsValid

txq_push_refines_example :
    Option.map contents (txq_push 3 (9 ∷ []) wrapped)
    ≡ enqueue (record { id = 3; bytes = 9 ∷ [] }) (contents wrapped)
txq_push_refines_example = txq_push_refines 3 (9 ∷ []) wrapped-IsValid

tx_frame_refines_example :
    Queue.Inv.IsValid (tx_frame long_frame wrapped)
    × (contents (tx_frame long_frame wrapped)
        ≡ contents wrapped ++ take 22 (fragments 100 true long_frame))
tx_frame_refines_example = tx_frame_refines long_frame wrapped-IsValid

dispatch_packets-stream_example :
    dispatch_packets micros (stream both cut_off) initial ≡ accept_all micros both initial
dispatch_packets-stream_example =
    dispatch_packets-stream micros both cut_off initial (omega arith) cut_off-none

dispatch_loop_fuel_example :
    dispatch_loop micros 50 ask_name_report initial
    ≡ dispatch_packets micros ask_name_report initial
unfolding ask_name_report
dispatch_loop_fuel_example = dispatch_loop_fuel micros 50 ask_name_report initial (omega arith)

cut_off_frame : (assemble (0x00 ∷ cut_off) []).frame ≡ some cut_off
unfolding assemble kept finish
cut_off_frame = refl

iap_rx_report-incomplete_example :
    (l : List LogLine) × (iap_rx_report micros (0x00 ∷ cut_off) initial ≡ handed_on initial l)
iap_rx_report-incomplete_example =
    iap_rx_report-incomplete micros (0x00 ∷ cut_off) cut_off initial cut_off_frame cut_off-none

tx_send_bounds_example :
    (length (command_bytes true 0x04 0x21 7 (replicate 600 0)) ≤ 512)
    × (length (pkt_encode (command_bytes true 0x04 0x21 7 (replicate 600 0))) ≤ 600)
tx_send_bounds_example = tx_send_bounds true 0x04 0x21 7 (replicate 600 0)

-- One second of audio, pushed where the byte counter wraps.
abbrev near_wrap : Iap
near_wrap = record initial { np = record (initial.np) { pcm_total_bytes = 2 ^ 64 - 4 } }

track_pos_ms-note_all_example :
    track_pos_ms
      (note_all micros (88200 ∷ 88200 ∷ []) (iap_set_track micros none none none near_wrap))
    ≡ 1000
track_pos_ms-note_all_example =
    track_pos_ms-note_all micros none none none (88200 ∷ 88200 ∷ []) near_wrap (omega arith)
      (omega arith)
