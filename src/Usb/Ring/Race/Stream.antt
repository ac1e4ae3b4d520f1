-- ===== src/Usb/Ring/Race/Stream.antt =====
-- Whatever the order of the steps, the batches give what was pushed.
use esp32_s3_car_adapter.Common.{
  ℕ, ◌+◌, ◌-◌, ◌^◌, ◌≤◌, ◌≡◌, refl, sym, ap, ◌∙◌, List, [], ◌∷◌, ◌++◌, arith,
}
use esp32_s3_car_adapter.Common.{length, take, length-append, take-append_length}
use esp32_s3_car_adapter.Usb.Ring.{Frame, PcmRing, ring_frames}
use esp32_s3_car_adapter.Usb.Ring.Refine.{window, contents, length-contents}
use esp32_s3_car_adapter.Usb.Ring.Race.{
  Reader, idle, starving, reading, Sharing, alone, begin_push, put_frame, end_push, begin_batch,
  get_frame, end_batch, drop_held, RaceStep, pushes, puts, pushed, batches, gets, batched, drops,
  RaceReach, at_start, onward, Leaving, batch, dropped, out_frames, consumed, AreBatches, AreHeard,
  given,
}
use esp32_s3_car_adapter.Usb.Ring.Race.Inv.{Read, IsShared, Short, window-append}
use esp32_s3_car_adapter.Usb.Ring.Race.Push.{
  begin_push-IsShared, put_frame-IsShared, end_push-IsShared,
}
use esp32_s3_car_adapter.Usb.Ring.Race.Batch.{
  begin_batch-IsShared, get_frame-IsShared, end_batch-IsShared, drop_held-IsShared,
}

RaceStep-grows : {s t : Sharing} → RaceStep s t → length s.accepted ≤ length t.accepted
unfolding begin_push put_frame end_push begin_batch get_frame end_batch drop_held
RaceStep-grows (pushes frames e) = omega arith
RaceStep-grows (puts e) = omega arith
RaceStep-grows {s} (pushed {done} e) = omega (arith, length-append s.accepted done)
RaceStep-grows (batches e) = omega arith
RaceStep-grows (gets e) = omega arith
RaceStep-grows (batched e) = omega arith
RaceStep-grows (drops e) = omega arith

RaceStep-IsShared : {s t : Sharing} → RaceStep s t → Short s → Short t → IsShared s → IsShared t
RaceStep-IsShared {s} (pushes frames e) h k v = begin_push-IsShared frames s e h v
RaceStep-IsShared {s} (puts {f} {todo} {done} e) h k v = put_frame-IsShared f todo done s e h v
RaceStep-IsShared {s} (pushed {done} e) h k v = end_push-IsShared done s e k v
RaceStep-IsShared {s} (batches e) h k v = begin_batch-IsShared s h v
RaceStep-IsShared {s} (gets {left} {out} e) h k v = get_frame-IsShared left out s e h v
RaceStep-IsShared {s} (batched {out} e) h k v = end_batch-IsShared out s e h v
RaceStep-IsShared {s} (drops e) h k v = drop_held-IsShared s v

alone-IsShared : IsShared alone
alone-IsShared = record {
  storage = refl;
  written = refl;
  behind = omega arith;
  fits = omega arith;
  whole = tt;
  stream = refl;
  wrote = tt;
  got = tt;
}

RaceReach-IsShared : {s : Sharing} → RaceReach alone s → Short s → IsShared s
RaceReach-IsShared at_start h = alone-IsShared
RaceReach-IsShared (onward {t} r st) h =
    let before : Short t = omega (arith, RaceStep-grows st, h) in
    RaceStep-IsShared st before h (RaceReach-IsShared r before)

-- What a batch has read so far are the oldest of the frames held.
pub Oldest : Reader → List Frame → Type 0
Oldest idle held = Unit {0}
Oldest starving held = Unit {0}
Oldest (reading left out) held = out ≡ take (441 - left) held

Read-Oldest : (x : Reader) (r : PcmRing) → Read r x → Oldest x (contents r)
unfolding Oldest
Read-Oldest idle r h = tt
Read-Oldest starving r h = tt
Read-Oldest (reading left out) r (count, enough, read) =
    let n : ℕ = length out in
    let held : ℕ = r.ring_wr - r.ring_rd in
    let rest : List Frame = window r.ring (r.ring_rd + n) (held - n) in
    let split : contents r ≡ out ++ rest =
      window-append r.ring n (held - n) r.ring_rd (r.ring_rd + n) held refl
        (omega (arith, count, enough))
      ∙ ap (λ w. w ++ rest) read in
    sym (
      ap (take (441 - left)) split
      ∙ take-append_length (441 - left) out rest (omega (arith, count)))

-- Where nothing is dropped, what left the ring is what the batches gave.
heard_frames : (ls : List Leaving) → AreHeard ls → out_frames ls ≡ given ls
heard_frames [] h = refl
heard_frames (batch out ∷ ls) h = ap (λ w. w ++ out) (heard_frames ls h)
heard_frames (dropped out ∷ ls) h = elim h [ ]

-- Where one task pushes to the PCM ring and another takes batches at 44.1 kHz, again and again,
-- without a lock and in every order of the steps of their loops: what left the ring, in batches or
-- dropped on an underrun, with what it holds, is what it took, in order, so no frame leaves twice
-- or out of order; where nothing was dropped, the batches have all of it. Every batch has 441
-- frames, the ring holds at most 5292, and a batch under way has read the oldest of them. A drop
-- may also take frames that were pushed after its test found too few. The steps are taken one at a
-- time, the ring is empty at first, and it has taken at most 2^32 - 5292 frames.
pub RaceReach-Streams :
    {s : Sharing}
    → RaceReach alone s
    → length s.accepted + ring_frames ≤ 2 ^ 32
    → (s.accepted ≡ consumed s ++ contents s.ring)
      × (AreHeard s.gone → s.accepted ≡ given s.gone ++ contents s.ring)
      × AreBatches s.gone
      × (length (contents s.ring) ≤ ring_frames)
      × Oldest s.reader (contents s.ring)
RaceReach-Streams {s} r h =
    let v = RaceReach-IsShared r h in
    (
      v.stream,
      λ heard. v.stream ∙ ap (λ w. w ++ contents s.ring) (heard_frames s.gone heard),
      v.whole,
      omega (arith, length-contents s.ring, v.fits),
      Read-Oldest s.reader s.ring v.got,
    )
