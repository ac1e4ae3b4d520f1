-- ===== src/Usb/Ring/Race/Runs.antt =====
-- A push of two frames, with a batch that begins in the middle of it.
use esp32_s3_car_adapter.Common.{◌≤◌, ◌≡◌, refl, arith, [], ◌∷◌, ◌++◌, length}
use esp32_s3_car_adapter.Usb.Ring.{Frame, avail, ring_frames}
use esp32_s3_car_adapter.Usb.Ring.Refine.{contents}
use esp32_s3_car_adapter.Usb.Ring.Race.{
  Sharing, alone, begin_push, put_frame, end_push, begin_batch, drop_held, RaceReach, at_start,
  onward, consumed, AreHeard, AreBatches, given, pushes, puts, pushed, batches, drops,
}
use esp32_s3_car_adapter.Usb.Ring.Race.Stream.{Oldest, RaceReach-Streams}

abbrev first : Frame
first = record { left = 1; right = 2 }

abbrev second : Frame
second = record { left = 3; right = 4 }

abbrev in_push : Sharing
in_push = begin_batch (put_frame first (second ∷ []) [] (begin_push (first ∷ second ∷ []) alone))

-- The batch found nothing, and drops what the push has published by then.
abbrev at_end : Sharing
at_end = drop_held (end_push (first ∷ second ∷ []) (put_frame second [] (first ∷ []) in_push))

at_end-reached : RaceReach alone at_end
unfolding begin_push put_frame end_push begin_batch avail
at_end-reached =
    onward
      (onward
        (onward
          (onward (onward (onward at_start (pushes (first ∷ second ∷ []) refl)) (puts refl))
            (batches refl))
          (puts refl))
        (pushed refl))
      (drops refl)

RaceReach-Streams_example :
    (at_end.accepted ≡ consumed at_end ++ contents at_end.ring)
    × (AreHeard at_end.gone → at_end.accepted ≡ given at_end.gone ++ contents at_end.ring)
    × AreBatches at_end.gone
    × (length (contents at_end.ring) ≤ ring_frames)
    × Oldest at_end.reader (contents at_end.ring)
unfolding begin_push put_frame end_push begin_batch drop_held
RaceReach-Streams_example = RaceReach-Streams at_end-reached (omega arith)
