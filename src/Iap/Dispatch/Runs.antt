-- ===== src/Iap/Dispatch/Runs.antt =====
-- A handshake in two frames, each in its reports.
use esp32_s3_car_adapter.Common.{
  ℕ, ◌*◌, ◌≡◌, refl, arith, false, List, [], ◌∷◌, ◌++◌, All, replicate,
}
use esp32_s3_car_adapter.Iap.Types.{ready}
use esp32_s3_car_adapter.Iap.Packet.{
  pkt_encode, next_packet, find_start, read_packet, cksum, sum_from,
}
use esp32_s3_car_adapter.Iap.State.{initial}
use esp32_s3_car_adapter.Iap.Dispatch.Packets.{stream}
use esp32_s3_car_adapter.Iap.Dispatch.Reception.{rx_all}
use esp32_s3_car_adapter.Iap.Dispatch.Phases.{
  RxFrame, IsRxFrame, phase_of, talk, said, run, rx_all-talk,
}
use esp32_s3_car_adapter.Iap.Dispatch.Ready.{is_handshake, play_query, rx_all-ready}

abbrev millis : ℕ → ℕ
millis k = 1000 * k

-- IdentifyDeviceLingoes, for every lingo.
abbrev identify : List ℕ
identify = 0x00 ∷ 0x13 ∷ replicate 12 0xFF

-- Cut in chunks of seven bytes at most.
abbrev begin_frame : RxFrame
begin_frame = record {
  packets = (0xFF ∷ [], identify) ∷ [];
  tail = [];
  chunks =
      (0xFF ∷ 0x55 ∷ 0x0E ∷ 0x00 ∷ 0x13 ∷ 0xFF ∷ 0xFF ∷ [])
      ∷ replicate 7 0xFF
      ∷ (0xFF ∷ 0xFF ∷ 0xFF ∷ 0xEB ∷ [])
      ∷ [];
}

-- With a byte behind it, and a query of the title after the play status.
abbrev title_query : List ℕ
title_query = 0x04 ∷ 0x00 ∷ 0x20 ∷ replicate 4 0

abbrev ready_frame : RxFrame
ready_frame = record {
  packets = ([], play_query false 0) ∷ ([], title_query) ∷ [];
  tail = 0x01 ∷ [];
  chunks = stream (([], play_query false 0) ∷ ([], title_query) ∷ []) (0x01 ∷ []) ∷ [];
}

begin_frame-IsRxFrame : IsRxFrame begin_frame
unfolding stream pkt_encode next_packet find_start read_packet cksum sum_from
begin_frame-IsRxFrame = record {
  carried = omega arith;
  no_more = refl;
  cut = record { some_chunk = omega arith; sizes = omega arith; whole = refl };
  fits = omega arith;
}

ready_frame-IsRxFrame : IsRxFrame ready_frame
unfolding stream pkt_encode next_packet find_start read_packet cksum sum_from
ready_frame-IsRxFrame = record {
  carried = omega arith;
  no_more = refl;
  cut = record { some_chunk = omega arith; sizes = omega arith; whole = refl };
  fits = omega arith;
}

frames : List RxFrame
frames = begin_frame ∷ ready_frame ∷ []

frames-IsRxFrame : All IsRxFrame frames
unfolding frames
frames-IsRxFrame = (begin_frame-IsRxFrame, (ready_frame-IsRxFrame, tt))

-- The frames, and the commands in them.
test_said : said frames ≡ (identify ∷ []) ++ play_query false 0 ∷ title_query ∷ []
unfolding said frames
test_said = refl

rx_all-talk_example :
    phase_of (rx_all millis (talk frames) initial) ≡ run (said frames) (phase_of initial)
rx_all-talk_example = rx_all-talk millis frames initial frames-IsRxFrame

rx_all-ready_example : (rx_all millis (talk frames) initial).handshake.state ≡ ready
unfolding is_handshake
rx_all-ready_example =
    rx_all-ready millis frames (identify ∷ []) (title_query ∷ []) false 0 initial frames-IsRxFrame
      test_said (omega arith) (refl, tt)
