-- ===== src/Usb/Exchange/Runs.antt =====
-- A query of the title that comes with the ID in front.
use esp32_s3_car_adapter.Common.{
  ℕ, zero, suc, ◌≤◌, refl, arith, true, List, [], ◌∷◌, none, some, All, replicate, ◌==◌,
}
use esp32_s3_car_adapter.Iap.Queue.Inv.{IsValid}
use esp32_s3_car_adapter.Iap.Queue.Refine.{contents}
use esp32_s3_car_adapter.Iap.Queue.Rounds.{TakesOne}
use esp32_s3_car_adapter.Iap.Packet.{
  pkt_encode, next_packet, find_start, read_packet, cksum, sum_from,
}
use esp32_s3_car_adapter.Iap.State.{Iap}
use esp32_s3_car_adapter.Iap.Live.{iap_set_track}
use esp32_s3_car_adapter.Iap.Delivery.{Delivers}
use esp32_s3_car_adapter.Iap.Delivery.Query.{title}
use esp32_s3_car_adapter.Iap.Delivery.Exchange.{answer_bytes}
use esp32_s3_car_adapter.Iap.Delivery.Received.{query_bytes, IsSent}
use esp32_s3_car_adapter.Usb.Device.{with_iap, tick, iap_logf}
use esp32_s3_car_adapter.Usb.Attach.{usb_stack_start, first_attach}
use esp32_s3_car_adapter.Usb.Exchange.{Round, offers}
use esp32_s3_car_adapter.Usb.Exchange.Answer.{exchange, device-Delivers}
use esp32_s3_car_adapter.Usb.Runs.{seconds, whole_floats, waiting, waiting-ready}

-- Three bytes of title, on a device that has just attached.
abbrev name : List ℕ
name = 0x41 ∷ 0x42 ∷ 0x43 ∷ []

abbrev engine : Iap
engine = iap_set_track seconds none (some name) none waiting.audio.iap

engine-IsValid : IsValid engine.txq
unfolding iap_set_track first_attach usb_stack_start iap_logf tick with_iap
engine-IsValid = record {
  storage = refl;
  head_in = omega arith;
  count_in = omega arith;
  tail_at = refl;
}

engine_count : engine.txq.count ≤ 14
unfolding iap_set_track first_attach usb_stack_start iap_logf tick with_iap
engine_count = omega arith

-- The host takes one report in each round.
abbrev one_taken : Round
one_taken = record { mounted = true; mounted' = true; accepts = λ k. k == 0 }

abbrev rounds : List Round
rounds = replicate 24 one_taken

offers-taken : (n : ℕ) → All TakesOne (offers (replicate n one_taken))
offers-taken zero = tt
offers-taken (suc n) = (refl, offers-taken n)

-- The query in reports of eight bytes, the last one filled with zeros.
abbrev chunks : List (List ℕ)
chunks =
    (0x55 ∷ 0x09 ∷ 0x04 ∷ 0x00 ∷ 0x20 ∷ 0x00 ∷ 0x07 ∷ [])
    ∷ (0x00 ∷ 0x00 ∷ 0x00 ∷ 0x00 ∷ 0xCC ∷ 0x00 ∷ 0x00 ∷ [])
    ∷ []

chunks-IsSent : IsSent chunks (query_bytes title true 7 (replicate 4 0)) (0x00 ∷ 0x00 ∷ [])
unfolding pkt_encode next_packet find_start read_packet cksum sum_from
chunks-IsSent = record {
  cut = record { some_chunk = omega arith; sizes = omega arith; whole = refl };
  no_packet = refl;
  fits = omega arith;
}

device-Delivers_example :
    Delivers
      (contents engine.txq)
      (answer_bytes seconds none (some name) none waiting.audio.iap title true 7)
      []
      (exchange whole_floats seconds 0 (some 5) chunks rounds (with_iap engine waiting))
device-Delivers_example =
    device-Delivers whole_floats seconds none (some name) none waiting title true 7 (replicate 4 0)
      (0x00 ∷ 0x00 ∷ []) chunks 0 (some 5) rounds [] (omega arith) refl chunks-IsSent (omega arith)
      waiting-ready engine-IsValid engine_count (offers-taken 24) (omega arith)
