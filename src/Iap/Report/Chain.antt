-- ===== src/Iap/Report/Chain.antt =====
-- How a host sends a frame, whatever the size of its reports: in chunks, each behind a link byte,
-- as feed_frame of firmware/airplay-receiver/host-test/test_iap.c and the Encoder of
-- research/ipod/hid/hid.go do. The link bytes stand here as the protocol has them, 0 for the only
-- report of a frame, 2 for the first of several, 3 for those between and 1 for the last, and not by
-- the names of iap.c.
use esp32_s3_car_adapter.Common.{
  ℕ, zero, suc, ◌≤◌, ◌<◌, ◌≡◌, refl, ap, ◌∙◌, Bool, false, List, [], ◌∷◌, ◌++◌, arith, append-nil,
  inl, inr, All, concat,
}
use esp32_s3_car_adapter.Common.{
  leb, if◌then◌else◌, length, take, drop, Bool-cases, length-drop, drop_all, length-take,
  take-append-drop,
}
use esp32_s3_car_adapter.Iap.Queue.{TxReport}
use esp32_s3_car_adapter.Iap.Report.Fragments.{room_for, fragments, pick_def_bounds}
use esp32_s3_car_adapter.Iap.Report.Reassembly.{next_report-last, next_report-more, fragments-nil}

-- The reports of a host that has the chunks to send; `first` tells whether none was sent before.
unfoldable pub chain : Bool → List (List ℕ) → List (List ℕ)
chain first [] = []
chain first (c ∷ []) = ((if first then 0 else 1) ∷ c) ∷ []
chain first (c ∷ d ∷ cs) = ((if first then 2 else 3) ∷ c) ∷ chain false (d ∷ cs)

-- What a report of up to 65 bytes carries.
abbrev pub IsChunk : List ℕ → Type 0
IsChunk c = length c ≤ 64

-- A frame in one chunk or more.
pub record IsCut (chunks : List (List ℕ)) (frame : List ℕ) : Type 0 where
  pub some_chunk : 0 < length chunks
  pub sizes : All IsChunk chunks
  pub whole : concat chunks ≡ frame

abbrev pub bytes_of : List TxReport → List (List ℕ)
bytes_of [] = []
bytes_of (r ∷ rs) = r.bytes ∷ bytes_of rs

-- The reports of a frame for any receiver that keeps to the protocol.
pub record IsChained (reports : List TxReport) (first : Bool) (frame : List ℕ) : Type 0 where
  pub chunks : List (List ℕ)
  pub cut : IsCut chunks frame
  pub sent : bytes_of reports ≡ chain first chunks

chain-more :
    (first : Bool) (c : List ℕ) (cs : List (List ℕ))
    → 0 < length cs
    → chain first (c ∷ cs) ≡ ((if first then 2 else 3) ∷ c) ∷ chain false cs
unfolding chain
chain-more first c [] h = absurd (omega (arith, h))
chain-more first c (d ∷ cs) h = refl

-- The reports of `tx_frame` are such ones.
pub fragments-IsChained :
    (fuel : ℕ) (first : Bool) (frame : List ℕ)
    → length frame ≤ fuel
    → 0 < length frame
    → IsChained (fragments fuel first frame) first frame
unfolding fragments chain
fragments-IsChained zero first frame hf pos = absurd (omega arith)
fragments-IsChained (suc fuel) first [] hf pos = absurd (omega arith)
fragments-IsChained (suc fuel) first (x ∷ xs) hf pos = elim (Bool-cases (leb (length f) room)) [
  | inl last ↦
      let le : length f ≤ room = ground arith in
      record {
        chunks = f ∷ [];
        cut = record {
          some_chunk = omega arith;
          sizes = (omega (arith, bounds), tt);
          whole = append-nil f;
        };
        sent = rw (next_report-last first f le, drop_all room f le, fragments-nil) refl;
      }
  | inr more ↦
      let lt : room < length f = ground arith in
      let rest : IsChained (fragments fuel false left) false left =
        fragments-IsChained fuel false left (omega (arith, bounds, length-drop room f))
          (omega (arith, length-drop room f)) in
      record {
        chunks = take room f ∷ rest.chunks;
        cut = record {
          some_chunk = omega arith;
          sizes = (omega (arith, bounds, length-take room f), rest.cut.sizes);
          whole = ap (λ w. take room f ++ w) rest.cut.whole ∙ take-append-drop room f;
        };
        sent =
            rw
              (
                next_report-more first f lt,
                rest.sent,
                chain-more first (take room f) rest.chunks rest.cut.some_chunk,
              )
              refl;
      }
]
  where
    f : List ℕ
    f = x ∷ xs

    room : ℕ
    room = room_for f

    left : List ℕ
    left = drop room f

    bounds : (1 ≤ room) × (room ≤ 62) × (room < length f → room ≡ 62)
    bounds = pick_def_bounds (length f)
