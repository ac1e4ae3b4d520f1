-- ===== src/Usb/Ring/Inv.antt =====
-- The invariant of the PCM ring while its counters have not wrapped.
use esp32_s3_car_adapter.Common.{
  ℕ, ◌+◌, ◌-◌, ◌%◌, ◌^◌, ◌≤◌, ◌<◌, ◌≡◌, List, [], ◌∷◌, arith, length, length-set, length-take, take,
  set, u32,
}
use esp32_s3_car_adapter.Usb.Ring.{
  Frame, PcmRing, ring_frames, avail, write_frames, push_frames, take_batch,
}

pub record IsValid (r : PcmRing) : Type 0 where
  pub storage : length r.ring ≡ ring_frames
  pub behind : r.ring_rd ≤ r.ring_wr
  pub fits : r.ring_wr ≤ r.ring_rd + ring_frames
  pub word : r.ring_wr < 2 ^ 32

pub avail-IsValid : {r : PcmRing} → IsValid r → avail r ≡ r.ring_wr - r.ring_rd
unfolding avail
avail-IsValid v = omega arith

pub length-write_frames :
    (ring : List Frame) (c : ℕ) (fs : List Frame) → length (write_frames ring c fs) ≡ length ring
unfolding write_frames
length-write_frames ring c [] = omega arith
length-write_frames ring c (f ∷ fs) = omega (
  arith,
  length-write_frames (set ring (u32 c % ring_frames) f) (c + 1) fs,
  length-set ring (u32 c % ring_frames) f,
)

pub push_frames-IsValid :
    {r : PcmRing} (frames : List Frame)
    → IsValid r
    → r.ring_wr + length frames < 2 ^ 32
    → IsValid (push_frames frames r)
unfolding push_frames
push_frames-IsValid {r} frames v h = ground (
  arith,
  avail-IsValid v,
  length-write_frames r.ring r.ring_wr (take (ring_frames - avail r) frames),
  length-take (ring_frames - avail r) frames,
)

pub take_batch-IsValid : {r : PcmRing} → IsValid r → IsValid (take_batch r).1
unfolding take_batch
take_batch-IsValid v = ground (arith, avail-IsValid v)
