-- ===== src/Iap/Packet/Sums.antt =====
-- Laws of the checksum: it depends on the sum of the bytes alone, and completes it to a multiple
-- of 256.
use esp32_s3_car_adapter.Common.{ℕ, ◌+◌, ◌%◌, ◌≡◌, ◌≢◌, ◌<◌, refl, ◌∙◌, List, [], ◌∷◌, ◌++◌, arith}
use esp32_s3_car_adapter.Iap.Packet.{sum_from, cksum}

pub sum_from-lt : (s : ℕ) (xs : List ℕ) → s < 256 → sum_from s xs < 256
unfolding sum_from
sum_from-lt s [] h = h
sum_from-lt s (x ∷ xs) h = sum_from-lt ((s + x) % 256) xs (omega arith)

pub sum_from-append : (s : ℕ) (xs ys : List ℕ) → sum_from s (xs ++ ys) ≡ sum_from (sum_from s xs) ys
unfolding sum_from
sum_from-append s [] ys = refl
sum_from-append s (x ∷ xs) ys = sum_from-append ((s + x) % 256) xs ys

-- The bytes and their checksum sum to 0.
pub sum_from-cksum : (xs : List ℕ) → sum_from 0 (xs ++ cksum xs ∷ []) ≡ 0
unfolding sum_from cksum
sum_from-cksum xs = sum_from-append 0 xs _ ∙ omega (arith, sum_from-lt 0 xs)

abbrev total : List ℕ → ℕ
total [] = 0
total (x ∷ xs) = x + total xs

sum_from-total : (s : ℕ) (xs : List ℕ) → s < 256 → sum_from s xs ≡ (s + total xs) % 256
unfolding sum_from
sum_from-total s [] h = omega arith
sum_from-total s (x ∷ xs) h = omega (arith, sum_from-total ((s + x) % 256) xs)

total-append : (xs ys : List ℕ) → total (xs ++ ys) ≡ total xs + total ys
total-append [] ys = omega arith
total-append (x ∷ xs) ys = omega (arith, total-append xs ys)

-- Where one byte of a body closed by its cksum, or the checksum itself, arrives as another byte,
-- the sum that dispatch_packets tests is not 0.
pub sum_from-corrupted :
    (body front back : List ℕ) (a b : ℕ)
    → body ++ cksum body ∷ [] ≡ front ++ a ∷ back
    → a < 256
    → b < 256
    → a ≢ b
    → sum_from 0 (front ++ b ∷ back) ≢ 0
sum_from-corrupted body front back a b e ha hb ne = λ zero_sum.
    let good : sum_from 0 (front ++ a ∷ back) ≡ 0 = rw e at (sum_from-cksum body) in
    omega (
      arith,
      good,
      zero_sum,
      sum_from-total 0 (front ++ a ∷ back) (omega arith),
      sum_from-total 0 (front ++ b ∷ back) (omega arith),
      total-append front (a ∷ back),
      total-append front (b ∷ back),
    )
