-- ===== src/Usb/Ring/Race/Batch.antt =====
-- The steps of a batch keep the invariant.
use esp32_s3_car_adapter.Common.{
  ℕ, suc, ◌+◌, ◌-◌, ◌%◌, ◌≤◌, ◌≡◌, refl, sym, ap, ◌∙◌, List, [], ◌∷◌, ◌++◌, arith, append-nil,
  append_assoc, Bool, true, false,
}
use esp32_s3_car_adapter.Common.{if◌then◌else◌, length, get_or, u32, length-append}
use mathlib.Core.Path.{subst}
use esp32_s3_car_adapter.Usb.Ring.{Frame, PcmRing, ring_frames, silence}
use esp32_s3_car_adapter.Usb.Ring.Refine.{window, contents, window-snoc}
use esp32_s3_car_adapter.Usb.Ring.Race.{
  consumed, starving, reading, Sharing, begin_batch, get_frame, end_batch, drop_held,
}
use esp32_s3_car_adapter.Usb.Ring.Inv.{avail-IsValid}
use esp32_s3_car_adapter.Usb.Ring.Race.Inv.{
  Read, IsShared, Short, shared-IsValid, window-append, Wrote-kept,
}

-- A batch begins with nothing read.
started :
    (b : Bool) (r : PcmRing)
    → (b ≡ false → r.ring_rd + 441 ≤ r.ring_wr)
    → Read r (if b then starving else reading 441 [])
started true r h = tt
started false r h = (refl, h refl, refl)

pub begin_batch-IsShared : (s : Sharing) → Short s → IsShared s → IsShared (begin_batch s)
unfolding begin_batch
begin_batch-IsShared s h v = record {
  storage = v.storage;
  written = v.written;
  behind = v.behind;
  fits = v.fits;
  whole = v.whole;
  stream = v.stream;
  wrote = v.wrote;
  got = started _ s.ring (λ e. ground (arith, avail-IsValid (shared-IsValid v h), e));
}

pub get_frame-IsShared :
    (left : ℕ) (out : List Frame) (s : Sharing)
    → s.reader ≡ reading (suc left) out
    → Short s
    → IsShared s
    → IsShared (get_frame left out s)
unfolding get_frame
get_frame-IsShared left out s e h v =
    let r : PcmRing = s.ring in
    let n : ℕ = length out in
    let (count, enough, read) = subst (Read r) e v.got in
    let small : u32 (r.ring_rd + n) ≡ r.ring_rd + n = omega (arith, h, v.written, enough, count) in
    let f : Frame = get_or r.ring (u32 (r.ring_rd + n) % ring_frames) silence in
    let longer : length (out ++ f ∷ []) ≡ suc n = omega (arith, length-append out (f ∷ [])) in
    record {
      storage = v.storage;
      written = v.written;
      behind = v.behind;
      fits = v.fits;
      whole = v.whole;
      stream = v.stream;
      wrote = v.wrote;
      got = (
        omega (arith, longer, count),
        enough,
        ap (window r.ring r.ring_rd) longer
            ∙ window-snoc r.ring n r.ring_rd (r.ring_rd + n) refl
            ∙ ap (λ w. w ++ get_or r.ring ((r.ring_rd + n) % ring_frames) silence ∷ []) read
            ∙ ap (λ d. out ++ get_or r.ring (d % ring_frames) silence ∷ []) (sym small),
      );
    }

-- What a whole batch has read, and what is behind it.
pub contents-split :
    (out : List Frame) (s : Sharing)
    → s.reader ≡ reading 0 out
    → IsShared s
    → contents s.ring
      ≡ out ++ window s.ring.ring (s.ring.ring_rd + 441) (s.ring.ring_wr - (s.ring.ring_rd + 441))
contents-split out s e v =
    let r : PcmRing = s.ring in
    let (count, enough, read) = subst (Read r) e v.got in
    let whole : length out ≡ 441 = omega (arith, count) in
    window-append r.ring 441 (r.ring_wr - (r.ring_rd + 441)) r.ring_rd (r.ring_rd + 441)
      (r.ring_wr - r.ring_rd) refl (omega (arith, enough))
    ∙ ap (λ w. w ++ window r.ring (r.ring_rd + 441) (r.ring_wr - (r.ring_rd + 441)))
        (ap (window r.ring r.ring_rd) (sym whole) ∙ read)

pub end_batch-IsShared :
    (out : List Frame) (s : Sharing)
    → s.reader ≡ reading 0 out
    → Short s
    → IsShared s
    → IsShared (end_batch out s)
unfolding end_batch
end_batch-IsShared out s e h v =
    let r : PcmRing = s.ring in
    let (count, enough, read) = subst (Read r) e v.got in
    let small : u32 (r.ring_rd + 441) ≡ r.ring_rd + 441 = omega (arith, h, v.written, enough) in
    record {
      storage = v.storage;
      written = v.written;
      behind = omega (arith, small, enough);
      fits = omega (arith, small, v.fits);
      whole = (omega (arith, count), v.whole);
      stream =
          v.stream
          ∙ ap (λ w. consumed s ++ w) (contents-split out s e v)
          ∙ sym (append_assoc (consumed s) out _)
          ∙ ap (λ d. (consumed s ++ out) ++ window r.ring d (r.ring_wr - d)) (sym small);
      wrote = Wrote-kept s.writer r (u32 (r.ring_rd + 441)) v.wrote;
      got = tt;
    }

pub drop_held-IsShared : (s : Sharing) → IsShared s → IsShared (drop_held s)
unfolding drop_held
drop_held-IsShared s v =
    let r : PcmRing = s.ring in
    let none_left : r.ring_wr - r.ring_wr ≡ 0 = omega arith in
    record {
      storage = v.storage;
      written = v.written;
      behind = omega arith;
      fits = omega (arith, v.fits, v.behind);
      whole = v.whole;
      stream =
          v.stream
          ∙ sym (append-nil (consumed s ++ contents r))
          ∙ ap (λ k. (consumed s ++ contents r) ++ window r.ring r.ring_wr k) (sym none_left);
      wrote = Wrote-kept s.writer r r.ring_wr v.wrote;
      got = tt;
    }
