-- ===== src/Usb/Ring/Race.antt =====
-- The PCM ring between two tasks, without a lock: `ipod_usb_push_pcm` runs in the AirPlay task and
-- `produce_batch` at 44.1 kHz in the USB task. Each reads the counter of the other, and the steps
-- of their loops interleave in any order.
use esp32_s3_car_adapter.Common.{ℕ, zero, suc, ◌+◌, ◌-◌, ◌%◌, ◌^◌, ◌≡◌, List, [], ◌∷◌, ◌++◌}
use esp32_s3_car_adapter.Common.{ltb, leb, if◌then◌else◌, length, get_or, set, take, u32}
use esp32_s3_car_adapter.Usb.Ring.{Frame, PcmRing, ring_frames, silence, avail, empty_ring}
use esp32_s3_car_adapter.Usb.Ring.Refine.{contents}
pub mod Inv
pub mod Push
pub mod Batch
pub mod Stream
pub mod Runs

-- A push: the frames that it still has to write, and those that it wrote.
pub data Writer : Type 0 where
  resting : Writer
  writing : List Frame → List Frame → Writer

-- A batch: one that found too few frames, or one with the frames that are left and those read.
pub data Reader : Type 0 where
  idle starving : Reader
  reading : ℕ → List Frame → Reader

-- What leaves the ring: the frames of a batch, or frames that are dropped, unheard.
pub data Leaving : Type 0 where
  batch dropped : List Frame → Leaving

-- The frames that left, the last ones first in the argument.
abbrev pub out_frames : List Leaving → List Frame
out_frames [] = []
out_frames (batch out ∷ ls) = out_frames ls ++ out
out_frames (dropped out ∷ ls) = out_frames ls ++ out

-- The ring and both tasks. What the ring took so far is in `accepted`, and what left it in `gone`,
-- the last first; the program has neither.
pub record Sharing : Type 0 where
  pub ring : PcmRing
  pub writer : Writer
  pub reader : Reader
  pub accepted : List Frame
  pub gone : List Leaving

abbrev pub alone : Sharing
alone = record { ring = empty_ring; writer = resting; reader = idle; accepted = []; gone = [] }

-- The test and the space of `ipod_usb_push_pcm`.
unfoldable pub begin_push : List Frame → Sharing → Sharing
begin_push frames s =
    let n = avail s.ring in
    record s {
      writer = writing (if leb ring_frames n then [] else take (ring_frames - n) frames) [];
    }

-- A round of its loop.
unfoldable pub put_frame : Frame → List Frame → List Frame → Sharing → Sharing
put_frame f todo done s = record s {
  ring = record (s.ring) {
    ring = set s.ring.ring (u32 (s.ring.ring_wr + length done) % ring_frames) f;
  };
  writer = writing todo (done ++ f ∷ []);
}

-- `ring_wr += (uint32_t) frames`
unfoldable pub end_push : List Frame → Sharing → Sharing
end_push done s = record s {
  ring = record (s.ring) { ring_wr = u32 (s.ring.ring_wr + length done) };
  writer = resting;
  accepted = s.accepted ++ done;
}

-- The test of `produce_batch`.
unfoldable pub begin_batch : Sharing → Sharing
begin_batch s = record s { reader = if ltb (avail s.ring) 441 then starving else reading 441 [] }

-- A round of its loop.
unfoldable pub get_frame : ℕ → List Frame → Sharing → Sharing
get_frame left out s =
    let f = get_or s.ring.ring (u32 (s.ring.ring_rd + length out) % ring_frames) silence in
    record s { reader = reading left (out ++ f ∷ []) }

-- `ring_rd += 441`
unfoldable pub end_batch : List Frame → Sharing → Sharing
end_batch out s = record s {
  ring = record (s.ring) { ring_rd = u32 (s.ring.ring_rd + 441) };
  reader = idle;
  gone = batch out ∷ s.gone;
}

-- `ring_rd = ring_wr`, with the counter as it is by then.
unfoldable pub drop_held : Sharing → Sharing
drop_held s = record s {
  ring = record (s.ring) { ring_rd = s.ring.ring_wr };
  reader = idle;
  gone = dropped (contents s.ring) ∷ s.gone;
}

-- One step of one of the tasks.
pub data RaceStep (s : Sharing) : Sharing → Type 0 where
  pushes : (frames : List Frame) → s.writer ≡ resting → RaceStep s (begin_push frames s)
  puts :
      {f : Frame} {todo done : List Frame}
      → s.writer ≡ writing (f ∷ todo) done
      → RaceStep s (put_frame f todo done s)
  pushed : {done : List Frame} → s.writer ≡ writing [] done → RaceStep s (end_push done s)
  batches : s.reader ≡ idle → RaceStep s (begin_batch s)
  gets :
      {left : ℕ} {out : List Frame}
      → s.reader ≡ reading (suc left) out
      → RaceStep s (get_frame left out s)
  batched : {out : List Frame} → s.reader ≡ reading 0 out → RaceStep s (end_batch out s)
  drops : s.reader ≡ starving → RaceStep s (drop_held s)

-- What has left the ring, the first ones first.
abbrev pub consumed : Sharing → List Frame
consumed s = out_frames s.gone

-- Every batch that was read has 441 frames.
abbrev pub AreBatches : List Leaving → Type 0
AreBatches [] = Unit {0}
AreBatches (batch out ∷ ls) = (length out ≡ 441) × AreBatches ls
AreBatches (dropped out ∷ ls) = AreBatches ls

-- Nothing was dropped.
abbrev pub AreHeard : List Leaving → Type 0
AreHeard [] = Unit {0}
AreHeard (batch out ∷ ls) = AreHeard ls
AreHeard (dropped out ∷ ls) = ⊥

-- The batches that were given, the first ones first.
abbrev pub given : List Leaving → List Frame
given [] = []
given (batch out ∷ ls) = given ls ++ out
given (dropped out ∷ ls) = given ls

-- Any number of pushes and batches, step by step.
pub data RaceReach (s : Sharing) : Sharing → Type 0 where
  at_start : RaceReach s s
  onward : {t u : Sharing} → RaceReach s t → RaceStep t u → RaceReach s u
