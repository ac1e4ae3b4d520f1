-- ===== src/Usb/Ring/Race/Inv.antt =====
-- The invariant of the shared ring.
use esp32_s3_car_adapter.Common.{
  ℕ, zero, suc, ◌+◌, ◌%◌, ◌^◌, ◌≤◌, ◌≡◌, refl, ap, ◌∙◌, List, ◌∷◌, ◌++◌, arith,
}
use esp32_s3_car_adapter.Common.{length, get_or}
use esp32_s3_car_adapter.Usb.Ring.{Frame, PcmRing, ring_frames, silence}
use esp32_s3_car_adapter.Usb.Ring.Refine.{window, contents}
use esp32_s3_car_adapter.Usb.Ring.Race.{
  Writer, resting, writing, Reader, idle, starving, reading, Sharing, consumed, AreBatches,
}
use esp32_s3_car_adapter.Usb.Ring.Inv.{IsValid}

-- What a push has in hand.
abbrev pub pending : Writer → ℕ
pending resting = 0
pending (writing todo done) = length done + length todo

-- The frames behind the write counter are those written.
abbrev pub Wrote : PcmRing → Writer → Type 0
Wrote r resting = Unit {0}
Wrote r (writing todo done) = window r.ring r.ring_wr (length done) ≡ done

-- The frames read are the oldest, of which there are 441.
abbrev pub Read : PcmRing → Reader → Type 0
Read r idle = Unit {0}
Read r starving = Unit {0}
Read r (reading left out) =
    (length out + left ≡ 441)
    × (r.ring_rd + 441 ≤ r.ring_wr)
    × (window r.ring r.ring_rd (length out) ≡ out)

pub record IsShared (s : Sharing) : Type 0 where
  pub storage : length s.ring.ring ≡ ring_frames
  pub written : s.ring.ring_wr ≡ length s.accepted
  pub behind : s.ring.ring_rd ≤ s.ring.ring_wr
  pub fits : s.ring.ring_wr + pending s.writer ≤ s.ring.ring_rd + ring_frames
  pub whole : AreBatches s.gone
  pub stream : s.accepted ≡ consumed s ++ contents s.ring
  pub wrote : Wrote s.ring s.writer
  pub got : Read s.ring s.reader

-- The counters are words.
abbrev pub Short : Sharing → Type 0
Short s = length s.accepted + ring_frames ≤ 2 ^ 32

pub shared-IsValid : {s : Sharing} → IsShared s → Short s → IsValid s.ring
shared-IsValid v h = record {
  storage = v.storage;
  behind = v.behind;
  fits = omega (arith, v.fits);
  word = omega (arith, v.written, h);
}

pub window-append :
    (ring : List Frame) (m n c d total : ℕ)
    → d ≡ c + m
    → total ≡ m + n
    → window ring c total ≡ window ring c m ++ window ring d n
window-append ring zero n c d total e h =
    let e' : d ≡ c = omega arith in let h' : total ≡ n = omega arith in rw (e', h') refl
window-append ring (suc m) n c d zero e h = absurd (omega arith)
window-append ring (suc m) n c d (suc total) e h =
    ap (λ r. get_or ring (c % ring_frames) silence ∷ r)
      (window-append ring m n (c + 1) d total (omega arith) (omega arith))

-- A batch goes on where the read counter and the frames in front of it stay.
pub Read-kept :
    (x : Reader) (r r' : PcmRing)
    → r'.ring_rd ≡ r.ring_rd
    → r.ring_wr ≤ r'.ring_wr
    → ((k : ℕ)
        → r.ring_rd + k ≤ r.ring_wr
        → window r'.ring r'.ring_rd k ≡ window r.ring r.ring_rd k)
    → Read r x
    → Read r' x
Read-kept idle r r' e h kept v = tt
Read-kept starving r r' e h kept v = tt
Read-kept (reading left out) r r' e h kept (n, enough, w) =
    (n, omega (arith, e, h, enough), kept (length out) (omega (arith, n, enough)) ∙ w)

-- A push does not look at the read counter but at its begin.
pub Wrote-kept : (x : Writer) (r : PcmRing) (n : ℕ) → Wrote r x → Wrote (record r { ring_rd = n }) x
Wrote-kept resting r n h = tt
Wrote-kept (writing todo done) r n h = h
