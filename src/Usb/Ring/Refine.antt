-- ===== src/Usb/Ring/Refine.antt =====
-- While its counters do not wrap, the PCM ring is a queue of at most 5292 frames.
use esp32_s3_car_adapter.Common.{
  ℕ, zero, suc, ◌+◌, ◌-◌, ◌%◌, ◌^◌, ◌≤◌, ◌<◌, ◌≡◌, ◌≢◌, refl, sym, ap, ◌∙◌, List, [], ◌∷◌, ◌++◌,
  none, some, arith, append-nil, append_assoc, min, inl, inr,
}
use esp32_s3_car_adapter.Common.{
  ltb, leb, if◌then◌else◌, length, get_or, set, take, drop, u32, get_or-set_self, get_or-set_ne,
  length-set, length-take, Bool-cases,
}
use esp32_s3_car_adapter.Usb.Ring.{
  Frame, PcmRing, ring_frames, silence, avail, write_frames, push_frames, read_frames, take_batch,
}
use esp32_s3_car_adapter.Usb.Ring.Inv.{
  IsValid, avail-IsValid, push_frames-IsValid, take_batch-IsValid,
}

-- The `n` frames from counter `c` on.
abbrev pub window : List Frame → ℕ → ℕ → List Frame
window ring c zero = []
window ring c (suc n) = get_or ring (c % ring_frames) silence ∷ window ring (c + 1) n

-- The frames that were pushed and not yet read, oldest first.
abbrev pub contents : PcmRing → List Frame
contents r = window r.ring r.ring_rd (r.ring_wr - r.ring_rd)

pub window-snoc :
    (ring : List Frame) (n c d : ℕ)
    → d ≡ c + n
    → window ring c (suc n) ≡ window ring c n ++ get_or ring (d % ring_frames) silence ∷ []
window-snoc ring zero c d e = let e' : d ≡ c = omega arith in rw e'
window-snoc ring (suc n) c d e =
    ap (λ r. get_or ring (c % ring_frames) silence ∷ r) (window-snoc ring n (c + 1) d (omega arith))

-- Writing a later counter's slot, less than a ring away, leaves a window as it is.
pub window-set_later :
    (ring : List Frame) (f : Frame) (n c d : ℕ)
    → c + n ≤ d
    → d < c + ring_frames
    → window (set ring (d % ring_frames) f) c n ≡ window ring c n
window-set_later ring f zero c d h k = refl
window-set_later ring f (suc n) c d h k =
    let ne : d % ring_frames ≢ c % ring_frames = omega arith in
    ground (
      arith,
      get_or-set_ne ring {i = d % ring_frames} {j = c % ring_frames} f silence ne,
      window-set_later ring f n (c + 1) d,
    )

-- The frames written from counter `d` on follow the `n` that the window held.
write_frames-window :
    (fs ring : List Frame) (c n d total : ℕ)
    → length ring ≡ ring_frames
    → d ≡ c + n
    → total ≡ n + length fs
    → total ≤ ring_frames
    → c + total ≤ 2 ^ 32
    → window (write_frames ring d fs) c total ≡ window ring c n ++ fs
unfolding write_frames
write_frames-window [] ring c n d total hl hd ht fits word =
    let e : total ≡ n = omega arith in rw e (sym (append-nil (window ring c n)))
write_frames-window (f ∷ fs) ring c n d total hl hd ht fits word =
    let i : ℕ = d % ring_frames in
    let small : u32 d ≡ d = omega arith in
    let rest : window (write_frames (set ring i f) (d + 1) fs) c total
        ≡ window (set ring i f) c (suc n) ++ fs =
      write_frames-window fs (set ring i f) c (suc n) (d + 1) total
        (omega (arith, length-set ring i f)) (omega arith) (omega arith) fits word in
    let held : window (set ring i f) c (suc n) ≡ window ring c n ++ f ∷ [] =
      window-snoc (set ring i f) n c d hd
      ∙ rw (
        window-set_later ring f n c d (omega arith) (omega arith),
        get_or-set_self ring i f silence (omega arith),
      ) in
    rw small (rest ∙ ap (λ x. x ++ fs) held ∙ append_assoc (window ring c n) (f ∷ []) fs)

push_frames-contents :
    {r : PcmRing} (frames : List Frame)
    → IsValid r
    → r.ring_wr + length frames < 2 ^ 32
    → contents (push_frames frames r)
      ≡ contents r ++ take (ring_frames - (r.ring_wr - r.ring_rd)) frames
unfolding push_frames
push_frames-contents {r} frames v h =
    let held : ℕ = r.ring_wr - r.ring_rd in
    let e : avail r ≡ held = avail-IsValid v in
    elim (Bool-cases (leb ring_frames held)) [
      | inl full ↦
          let none_left : ring_frames - held ≡ 0 = ground arith in
          rw (e, full, none_left) (sym (append-nil (contents r)))
      | inr room ↦
          let written : List Frame = take (ring_frames - held) frames in
          let len : length written ≡ min (ring_frames - held) (length frames) =
            length-take (ring_frames - held) frames in
          let total : ℕ = u32 (r.ring_wr + length written) - r.ring_rd in
          let short : held < ring_frames = ground (arith, room) in
          rw (e, room)
            (write_frames-window written r.ring r.ring_rd held r.ring_wr total v.storage
              (omega (arith, v)) (omega (arith, v)) (omega (arith, v)) (omega (arith, v)))
    ]

-- Pushing to a valid ring whose write counter does not wrap adds the frames behind those held, as
-- many as fit 5292, in order, and keeps the ring valid.
pub push_frames_refines :
    {r : PcmRing} (frames : List Frame)
    → IsValid r
    → r.ring_wr + length frames < 2 ^ 32
    → IsValid (push_frames frames r)
      × (contents (push_frames frames r)
          ≡ contents r ++ take (ring_frames - (r.ring_wr - r.ring_rd)) frames)
push_frames_refines frames v h = (push_frames-IsValid frames v h, push_frames-contents frames v h)

length-window : (ring : List Frame) (c n : ℕ) → length (window ring c n) ≡ n
length-window ring c zero = refl
length-window ring c (suc n) = omega (arith, length-window ring (c + 1) n)

pub length-contents : (r : PcmRing) → length (contents r) ≡ r.ring_wr - r.ring_rd
length-contents r = length-window r.ring r.ring_rd (r.ring_wr - r.ring_rd)

read_frames-window :
    (ring : List Frame) (m c n : ℕ)
    → m ≤ n
    → c + m ≤ 2 ^ 32
    → read_frames ring c m ≡ take m (window ring c n)
unfolding read_frames
read_frames-window ring zero c n le h = refl
read_frames-window ring (suc m) c zero le h = ground arith
read_frames-window ring (suc m) c (suc n) le h =
    let small : u32 c ≡ c = omega arith in
    rw small (
      ap (λ r. get_or ring (c % ring_frames) silence ∷ r)
        (read_frames-window ring m (c + 1) n (omega arith) (omega arith)))

drop-window :
    (ring : List Frame) (m c n k d : ℕ)
    → n ≡ m + k
    → d ≡ c + m
    → drop m (window ring c n) ≡ window ring d k
drop-window ring zero c n k d e f =
    let e' : n ≡ k = omega arith in let f' : d ≡ c = omega arith in rw (e', f')
drop-window ring (suc m) c zero k d e f = ground arith
drop-window ring (suc m) c (suc n) k d e f =
    drop-window ring m (c + 1) n k d (omega arith) (omega arith)

take_batch-contents :
    {r : PcmRing}
    → IsValid r
    → ((take_batch r).0
        ≡ (if ltb (length (contents r)) 441 then none else some (take 441 (contents r))))
      × (contents (take_batch r).1
          ≡ (if ltb (length (contents r)) 441 then [] else drop 441 (contents r)))
unfolding take_batch
take_batch-contents {r} v =
    let held : ℕ = r.ring_wr - r.ring_rd in
    let e : avail r ≡ held = avail-IsValid v in
    let len : length (contents r) ≡ held = length-window r.ring r.ring_rd held in
    elim (Bool-cases (ltb held 441)) [
      | inl short ↦
          let gone : r.ring_wr - r.ring_wr ≡ 0 = omega arith in
          rw (e, len, short, gone) (refl, refl)
      | inr enough ↦
          let more : 441 ≤ held = ground (arith, enough) in
          let next : u32 (r.ring_rd + 441) ≡ r.ring_rd + 441 = omega (arith, v) in
          rw (e, len, enough)
            (
              ap (λ b. some b)
                  (read_frames-window r.ring 441 r.ring_rd held more (omega (arith, v))),
              sym (
                  drop-window r.ring 441 r.ring_rd held (r.ring_wr - u32 (r.ring_rd + 441))
                    (u32 (r.ring_rd + 441)) (omega (arith, v)) next),
            )
    ]

-- A batch of a valid ring is the 441 oldest frames, which leave it; a ring with fewer gives none
-- and is empty afterwards. The ring stays valid.
pub take_batch_refines :
    {r : PcmRing}
    → IsValid r
    → IsValid (take_batch r).1
      × ((take_batch r).0
          ≡ (if ltb (length (contents r)) 441 then none else some (take 441 (contents r))))
      × (contents (take_batch r).1
          ≡ (if ltb (length (contents r)) 441 then [] else drop 441 (contents r)))
take_batch_refines v = let c = take_batch-contents v in (take_batch-IsValid v, c.0, c.1)
