-- ===== src/Usb/Ring/Race/Push.antt =====
-- The steps of a push keep the invariant.
use esp32_s3_car_adapter.Common.{
  ℕ, suc, ◌+◌, ◌-◌, ◌%◌, ◌≤◌, ◌≡◌, refl, sym, ap, ◌∙◌, List, [], ◌∷◌, ◌++◌, arith, append_assoc,
}
use esp32_s3_car_adapter.Common.{
  leb, if◌then◌else◌, if_intro, length, get_or, set, take, u32, length-append, length-set,
  length-take, get_or-set_self,
}
use mathlib.Core.Path.{subst}
use esp32_s3_car_adapter.Usb.Ring.{Frame, PcmRing, ring_frames, silence, avail}
use esp32_s3_car_adapter.Usb.Ring.Refine.{window, contents, window-snoc, window-set_later}
use esp32_s3_car_adapter.Usb.Ring.Race.{
  consumed, resting, writing, Sharing, begin_push, put_frame, end_push,
}
use esp32_s3_car_adapter.Usb.Ring.Inv.{avail-IsValid}
use esp32_s3_car_adapter.Usb.Ring.Race.Inv.{
  pending, Wrote, IsShared, Short, shared-IsValid, window-append, Read-kept,
}

pub begin_push-IsShared :
    (frames : List Frame) (s : Sharing)
    → s.writer ≡ resting
    → Short s
    → IsShared s
    → IsShared (begin_push frames s)
unfolding begin_push
begin_push-IsShared frames s e h v =
    let n : ℕ = avail s.ring in
    let short_enough : length (if leb ring_frames n then [] else take (ring_frames - n) frames)
        ≤ ring_frames - n =
      if_intro (λ (l : List Frame). length l ≤ ring_frames - n) (leb ring_frames n) (omega arith)
        (omega (arith, length-take (ring_frames - n) frames)) in
    record {
      storage = v.storage;
      written = v.written;
      behind = v.behind;
      fits = omega (
        arith,
        v.fits,
        v.behind,
        avail-IsValid (shared-IsValid v h),
        length-take (ring_frames - avail s.ring) frames,
        short_enough,
      );
      whole = v.whole;
      stream = v.stream;
      wrote = refl;
      got = v.got;
    }

pub put_frame-IsShared :
    (f : Frame) (todo done : List Frame) (s : Sharing)
    → s.writer ≡ writing (f ∷ todo) done
    → Short s
    → IsShared s
    → IsShared (put_frame f todo done s)
unfolding put_frame
put_frame-IsShared f todo done s e h v =
    let r : PcmRing = s.ring in
    let held : ℕ = r.ring_wr - r.ring_rd in
    let n : ℕ = length done in
    let fits : r.ring_wr + (n + suc (length todo)) ≤ r.ring_rd + ring_frames =
      subst (λ w. r.ring_wr + pending w ≤ r.ring_rd + ring_frames) e v.fits in
    let wrote : window r.ring r.ring_wr n ≡ done = subst (Wrote r) e v.wrote in
    let small : u32 (r.ring_wr + n) ≡ r.ring_wr + n = omega (arith, h, v.written, v.behind) in
    let i : ℕ = u32 (r.ring_wr + n) % ring_frames in
    let later : (c k : ℕ)
        → c + k ≤ r.ring_wr + n
        → r.ring_rd ≤ c
        → window (set r.ring i f) c k ≡ window r.ring c k =
      λ c k before in_ring.
        ap (λ d. window (set r.ring (d % ring_frames) f) c k) small
        ∙ window-set_later r.ring f k c (r.ring_wr + n) before (omega (arith, fits)) in
    let slot : get_or (set r.ring i f) ((r.ring_wr + n) % ring_frames) silence ≡ f =
      ap (λ d. get_or (set r.ring i f) (d % ring_frames) silence) (sym small)
      ∙ get_or-set_self r.ring i f silence (omega (arith, v.storage)) in
    let longer : length (done ++ f ∷ []) ≡ suc n = omega (arith, length-append done (f ∷ [])) in
    record {
      storage = length-set r.ring _ f ∙ v.storage;
      written = v.written;
      behind = v.behind;
      fits = omega (arith, fits, length-append done (f ∷ []));
      whole = v.whole;
      stream =
          v.stream
          ∙ ap (λ w. consumed s ++ w)
              (sym (later r.ring_rd held (omega (arith, v.behind)) (omega arith)));
      wrote =
          ap (window (set r.ring i f) r.ring_wr) longer
          ∙ window-snoc (set r.ring i f) n r.ring_wr (r.ring_wr + n) refl
          ∙ ap (λ w. w ++ get_or (set r.ring i f) ((r.ring_wr + n) % ring_frames) silence ∷ [])
              (later r.ring_wr n (omega arith) v.behind ∙ wrote)
          ∙ ap (λ x. done ++ x ∷ []) slot;
      got =
          Read-kept s.reader r (record r { ring = set r.ring i f }) refl (omega arith)
            (λ k before. later r.ring_rd k (omega (arith, before)) (omega arith)) v.got;
    }

pub end_push-IsShared :
    (done : List Frame) (s : Sharing)
    → s.writer ≡ writing [] done
    → Short (end_push done s)
    → IsShared s
    → IsShared (end_push done s)
unfolding end_push
end_push-IsShared done s e h v =
    let r : PcmRing = s.ring in
    let n : ℕ = length done in
    let fits : r.ring_wr + (n + 0) ≤ r.ring_rd + ring_frames =
      subst (λ w. r.ring_wr + pending w ≤ r.ring_rd + ring_frames) e v.fits in
    let wrote : window r.ring r.ring_wr n ≡ done = subst (Wrote r) e v.wrote in
    let small : u32 (r.ring_wr + n) ≡ r.ring_wr + n =
      omega (arith, h, v.written, length-append s.accepted done) in
    record {
      storage = v.storage;
      written = omega (arith, small, v.written, length-append s.accepted done);
      behind = omega (arith, small, v.behind);
      fits = omega (arith, small, fits);
      whole = v.whole;
      stream =
          ap (λ a. a ++ done) v.stream
          ∙ append_assoc (consumed s) (contents r) done
          ∙ ap (λ w. consumed s ++ w)
              (ap (λ w. contents r ++ w) (sym wrote)
                ∙ sym (
                    window-append r.ring (r.ring_wr - r.ring_rd) n r.ring_rd r.ring_wr
                      (u32 (r.ring_wr + n) - r.ring_rd) (omega (arith, v.behind))
                      (omega (arith, small, v.behind))));
      wrote = tt;
      got =
          Read-kept s.reader r (record r { ring_wr = u32 (r.ring_wr + n) }) refl
            (omega (arith, small)) (λ k before. refl) v.got;
    }
