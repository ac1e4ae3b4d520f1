-- ===== src/Pages/Text.antt =====
-- Text by `snprintf`: what a format gives is a list of pieces.
use Prim.Native.Char.{code}
use Prim.Native.String.{String}
use esp32_s3_car_adapter.Common.{
  ℕ, zero, suc, ◌+◌, ◌-◌, ◌/◌, ◌%◌, ◌≤◌, Bool, List, [], ◌∷◌, ◌++◌, arith, ltb, if◌then◌else◌,
  length, take, length-append, ℤ, pos, negsuc, inl, inr, Bool-cases,
}

-- The characters of a text, which is ASCII.
abbrev pub codes : String → List ℕ
codes String.[] = []
codes (String.◌∷◌ c s) = code c ∷ codes s

-- Decimal digits, `fuel` of them at most.
unfoldable pub digits : ℕ → ℕ → List ℕ
digits zero n = []
digits (suc fuel) n =
    let rest = digits fuel (n / 10) in
    if ltb n 10 then (0x30 + n) ∷ [] else rest ++ (0x30 + n % 10) ∷ []

-- A number of 64 bits has 20 digits at most.
unfoldable pub decimal : ℕ → List ℕ
decimal n = digits 20 n

-- A text between the fields, `%lu` and the like, `%d` of an `int`, `%d` of a `bool`, and `%s`.
pub data Piece : Type 0 where
  lit : String → Piece
  num : ℕ → Piece
  int : ℤ → Piece
  flag : Bool → Piece
  str : List ℕ → Piece

unfoldable pub render : Piece → List ℕ
render (lit t) = codes t
render (num n) = decimal n
render (int (pos n)) = decimal n
render (int (negsuc n)) = 0x2D ∷ decimal (n + 1)
render (flag b) = (if b then 0x31 else 0x30) ∷ []
render (str s) = s

unfoldable pub printf : List Piece → List ℕ
printf [] = []
printf (p ∷ ps) = render p ++ printf ps

-- What `snprintf` leaves in a buffer of `size` bytes.
abbrev pub snprintf : ℕ → List Piece → List ℕ
snprintf size ps = take (size - 1) (printf ps)

-- A bound on the length.
abbrev pub weight : List Piece → ℕ
weight [] = 0
weight (lit t ∷ ps) = length (codes t) + weight ps
weight (num n ∷ ps) = 20 + weight ps
weight (int z ∷ ps) = 21 + weight ps
weight (flag b ∷ ps) = 1 + weight ps
weight (str s ∷ ps) = length s + weight ps

length-digits : (fuel n : ℕ) → length (digits fuel n) ≤ fuel
unfolding digits
length-digits zero n = omega arith
length-digits (suc fuel) n = elim (Bool-cases (ltb n 10)) [
  | inl one ↦ rw one (omega arith)
  | inr more ↦ rw more (
      omega (
        arith,
        length-digits fuel (n / 10),
        length-append (digits fuel (n / 10)) ((0x30 + n % 10) ∷ []),
      ))
]

length-decimal : (n : ℕ) → length (decimal n) ≤ 20
unfolding decimal
length-decimal n = length-digits 20 n

pub length-printf : (ps : List Piece) → length (printf ps) ≤ weight ps
unfolding printf render
length-printf [] = omega arith
length-printf (lit t ∷ ps) = omega (arith, length-append (codes t) (printf ps), length-printf ps)
length-printf (num n ∷ ps) =
    omega (arith, length-append (decimal n) (printf ps), length-decimal n, length-printf ps)
length-printf (int (pos n) ∷ ps) =
    omega (arith, length-append (decimal n) (printf ps), length-decimal n, length-printf ps)
length-printf (int (negsuc n) ∷ ps) =
    omega
      (arith, length-append (decimal (n + 1)) (printf ps), length-decimal (n + 1), length-printf ps)
length-printf (flag b ∷ ps) = omega (arith, length-printf ps)
length-printf (str s ∷ ps) = omega (arith, length-append s (printf ps), length-printf ps)
