-- ===== src/Iap/Dispatch.antt =====
-- The receiving end of iap.c: `iap_rx_report`, `dispatch_frame` and `dispatch_packets`.
use esp32_s3_car_adapter.Common.{
  ℕ, zero, suc, ◌+◌, Bool, true, false, ◌&&◌, not, List, [], ◌∷◌, ◌++◌, Option, none, some,
}
use esp32_s3_car_adapter.Common.{ltb, leb, ◌==◌, if◌then◌else◌, length, get_or, u32}
use mathlib.Core.List.{reverse}
use esp32_s3_car_adapter.Iap.Types.{rx_line, bad_checksum, unparsed}
use esp32_s3_car_adapter.Iap.Packet.{Found, next_packet}
use esp32_s3_car_adapter.Iap.Report.{assemble}
use esp32_s3_car_adapter.Iap.Command.{
  RxCmd, parse_cmd, put_u8, lingo_general, lingo_extrem, lingo_audio,
}
use esp32_s3_car_adapter.Iap.State.{Iap, tx_respond}
use esp32_s3_car_adapter.Iap.General.{handle_general, ack_unknown_id}
use esp32_s3_car_adapter.Iap.Extremote.{handle_audio, handle_extremote}
pub mod Handshake
pub mod Packets
pub mod Phases
pub mod Ready
pub mod Runs
pub mod Reception

module _ (clock : ℕ → ℕ) where
  -- `switch (c.lingo)`
  unfoldable pub handle_cmd : RxCmd → Iap → Iap
  handle_cmd c s =
      if c.lingo == lingo_general
      then handle_general clock c s
      else if c.lingo == lingo_audio
      then handle_audio clock c s
      else if c.lingo == lingo_extrem
      then handle_extremote clock c s
      else s

  -- `parse_cmd` failed; `lead` is `pkt[hdr]`. An unknown General command is acknowledged as such.
  unfoldable pub refuse_cmd : ℕ → List ℕ → Iap → Iap
  refuse_cmd lead payload s =
      let s' = record s { log = unparsed lead ∷ s.log } in
      let id = get_or payload 1 0 in
      let fake : RxCmd = record {
        lingo = lingo_general;
        cmd = id;
        has_trx = false;
        trx = 0;
        p = [];
      } in
      if lead == lingo_general && leb 2 (length payload)
      then tx_respond clock fake lingo_general 0x02 (put_u8 (put_u8 [] ack_unknown_id) id) s'
      else s'

  -- A packet with the right checksum; `lead` is `pkt[hdr]`.
  unfoldable pub accept_packet : ℕ → List ℕ → Iap → Iap
  accept_packet lead payload s =
      let s' = record s {
        rx_packets = u32 (s.rx_packets + 1);
        pkt_seq = u32 (s.pkt_seq + 1);
        last_rx_us = clock s.reads;
        reads = s.reads + 1;
        stall_dumped = false;
      } in
      elim (parse_cmd payload s'.trx) [
        | none ↦ refuse_cmd lead payload s'
        | some (c, t) ↦
            handle_cmd c
              (record s' { trx = t; log = rx_line c.lingo c.cmd c.has_trx (length c.p) ∷ s'.log })
      ]

  unfoldable pub handle_packet : Found → Iap → Iap
  handle_packet f s =
      if not (f.sum == 0)
      then record s { log = bad_checksum ∷ s.log }
      else accept_packet f.lead f.payload s

  -- The outer loop with `fuel` rounds at most.
  unfoldable pub dispatch_loop : ℕ → List ℕ → Iap → Iap
  dispatch_loop zero frame s = s
  dispatch_loop (suc fuel) frame s = elim (next_packet frame) [
    | none ↦ s
    | some f ↦ dispatch_loop fuel f.rest (handle_packet f s)
  ]

  -- Each round takes a byte or more of the frame, so its length is fuel enough.
  unfoldable pub dispatch_packets : List ℕ → Iap → Iap
  unfolding dispatch_loop
  dispatch_packets frame s = dispatch_loop (length frame) frame s

  unfoldable pub iap_rx_report : List ℕ → Iap → Iap
  iap_rx_report report s =
      let got = assemble report s.frame_buf in
      let s' = record s { frame_buf = got.frame_buf; log = reverse got.logged ++ s.log } in
      elim got.frame [ none ↦ s' | some frame ↦ dispatch_packets frame s' ]
