-- ===== src/Iap/Delivery/Received.antt =====
-- The reports of a query, and what the engine makes of them.
use esp32_s3_car_adapter.Common.{
  ℕ, ◌+◌, ◌^◌, ◌≤◌, ◌<◌, ◌≡◌, refl, Bool, true, false, List, [], ◌∷◌, ◌++◌, some, none, arith,
  length, length-append, get_or, u32, if◌then◌else◌,
}
use esp32_s3_car_adapter.Iap.Types.{LogLine, rx_line}
use esp32_s3_car_adapter.Iap.Packet.{pkt_encode, next_packet}
use esp32_s3_car_adapter.Iap.Report.{frame_max}
use esp32_s3_car_adapter.Iap.Report.Chain.{chain, IsCut}
use esp32_s3_car_adapter.Iap.Command.{RxCmd, trx_track, lingo_extrem, cmd_sizes, find_size, fixed}
use esp32_s3_car_adapter.Iap.Command.Parse.{cmd_field, trx_field, parse_cmd-wire}
use esp32_s3_car_adapter.Iap.State.{Iap}
use esp32_s3_car_adapter.Iap.Extremote.{handle_extremote}
use esp32_s3_car_adapter.Iap.Dispatch.{handle_cmd, accept_packet}
use esp32_s3_car_adapter.Iap.Dispatch.Packets.{stream, accept_all}
use esp32_s3_car_adapter.Iap.Dispatch.Reception.{received, rx_after, rx_after-stream}
use esp32_s3_car_adapter.Iap.Delivery.Query.{Query, title, artist, album, asked}

-- The command of a query; `index` is the track, which the engine does not look at.
abbrev pub query_bytes : Query → Bool → ℕ → List ℕ → List ℕ
query_bytes k has_trx trx index =
    lingo_extrem ∷ (cmd_field lingo_extrem (asked k) ++ (trx_field has_trx trx ++ index))

-- A host's chunks for a command: its packet with `tail` behind it, such as the zeros that fill the
-- last report.
pub record IsSent (chunks : List (List ℕ)) (cmd tail : List ℕ) : Type 0 where
  pub cut : IsCut chunks (pkt_encode cmd ++ tail)
  pub no_packet : next_packet tail ≡ none
  pub fits : length (pkt_encode cmd) + length tail ≤ frame_max

abbrev pub query_cmd : Query → Bool → ℕ → List ℕ → RxCmd
query_cmd k has_trx trx index = record {
  lingo = lingo_extrem;
  cmd = asked k;
  has_trx = has_trx;
  trx = if has_trx then trx else 0;
  p = index;
}

query-size :
    (k : Query) (n : ℕ) → n ≡ 4 → find_size lingo_extrem (asked k) cmd_sizes ≡ some (fixed n)
unfolding find_size cmd_sizes
query-size title n e = rw e refl
query-size artist n e = rw e refl
query-size album n e = rw e refl

asked-lt : (k : Query) → asked k < 256
asked-lt title = omega arith
asked-lt artist = omega arith
asked-lt album = omega arith

module _ (clock : ℕ → ℕ) where
  -- The engine when a handler gets the command.
  abbrev pub noted : RxCmd → Iap → Iap
  noted c s = record s {
    rx_packets = u32 (s.rx_packets + 1);
    pkt_seq = u32 (s.pkt_seq + 1);
    last_rx_us = clock s.reads;
    reads = s.reads + 1;
    stall_dumped = false;
    trx = trx_track c.lingo c.cmd s.trx;
    log = rx_line c.lingo c.cmd c.has_trx (length c.p) ∷ s.log;
  }

  pub accept_packet-query :
      (k : Query) (has_trx : Bool) (trx : ℕ) (index : List ℕ) (lead : ℕ) (s : Iap)
      → trx < 2 ^ 16
      → length index ≡ 4
      → accept_packet clock lead (query_bytes k has_trx trx index) s
        ≡ handle_extremote clock
            (query_cmd k has_trx trx index)
            (noted (query_cmd k has_trx trx index) s)
  unfolding accept_packet handle_cmd
  accept_packet-query k has_trx trx index lead s ht hi =
      let fits : asked k < 2 ^ 16 = omega (arith, asked-lt k) in
      let parsed =
        parse_cmd-wire s.trx has_trx lingo_extrem (asked k) trx index (fits, λ e. asked-lt k) ht
          (omega arith) (query-size k (length index) hi) in
      rw (parsed, accept_packet) refl

  -- A command in its own frame is handled, once, by the state that the frame leaves.
  pub command-received :
      (ticks : ℕ) (q tail : List ℕ) (chunks : List (List ℕ)) (s : Iap)
      → 0 < length q
      → length q ≤ 9
      → IsSent chunks q tail
      → (l : List LogLine) × (m : ℕ) × (rx_after clock ticks (chain true chunks) s
          ≡ accept_packet clock (get_or q 0 0) q (received s l m))
  unfolding stream accept_all
  command-received ticks q tail chunks s pos short sent =
      let (l, m, none_read, e) =
        rx_after-stream clock ticks (([], q) ∷ []) tail chunks s
          ((tt, pos, omega (arith, short), omega (arith, short)), tt) sent.no_packet sent.cut
          (omega (arith, sent.fits, length-append (pkt_encode q) tail)) in
      (l, m, e)
