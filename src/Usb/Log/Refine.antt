-- ===== src/Usb/Log/Refine.antt =====
-- While its counter does not wrap, the log ring is the list of the last 48 lines.
use esp32_s3_car_adapter.Common.{
  ℕ, zero, suc, ◌+◌, ◌-◌, ◌%◌, ◌^◌, ◌≤◌, ◌<◌, ◌≡◌, ◌≢◌, refl, sym, ap, ◌∙◌, ◌&&◌, List, [], ◌∷◌,
  ◌++◌, arith, inl, inr, min,
}
use esp32_s3_car_adapter.Common.{
  ltb, if◌then◌else◌, length, get_or, set, take, drop, u32, get_or-set_self, get_or-set_ne,
  length-set, length-append, Bool-cases,
}
use esp32_s3_car_adapter.Usb.Log.{
  LogRing, iap_log_lines, ipod_usb_log, read_loop, ipod_usb_read_iap_log,
}

-- The `n` lines from counter `c` on.
abbrev pub lines : List (List ℕ) → ℕ → ℕ → List (List ℕ)
lines slots c zero = []
lines slots c (suc n) = get_or slots (c % iap_log_lines) [] ∷ lines slots (c + 1) n

-- The lines that the ring holds, oldest first.
abbrev pub recent : LogRing → List (List ℕ)
recent r = lines r.iap_log (r.iap_log_head - iap_log_lines) (min iap_log_lines r.iap_log_head)

-- The longest front part of a list of lines that leaves a byte of `room`, a newline for each line
-- counted.
unfoldable pub fitting : ℕ → List (List ℕ) → List (List ℕ)
fitting room [] = []
fitting room (l ∷ ls) =
    let rest = fitting (room - (length l + 1)) ls in
    if ltb (length l + 1) room then l ∷ rest else []

-- The lines as text, a newline behind each.
unfoldable pub unlines : List (List ℕ) → List ℕ
unlines [] = []
unlines (l ∷ ls) = l ++ 10 ∷ unlines ls

lines-snoc :
    (slots : List (List ℕ)) (n c d : ℕ)
    → d ≡ c + n
    → lines slots c (suc n) ≡ lines slots c n ++ get_or slots (d % iap_log_lines) [] ∷ []
lines-snoc slots zero c d e = let e' : d ≡ c = omega arith in rw e'
lines-snoc slots (suc n) c d e =
    ap (λ r. get_or slots (c % iap_log_lines) [] ∷ r) (lines-snoc slots n (c + 1) d (omega arith))

length-lines : (slots : List (List ℕ)) (c n : ℕ) → length (lines slots c n) ≡ n
length-lines slots c zero = refl
length-lines slots c (suc n) = omega (arith, length-lines slots (c + 1) n)

lines-set_later :
    (slots : List (List ℕ)) (l : List ℕ) (n c d : ℕ)
    → c + n ≤ d
    → d < c + iap_log_lines
    → lines (set slots (d % iap_log_lines) l) c n ≡ lines slots c n
lines-set_later slots l zero c d h k = refl
lines-set_later slots l (suc n) c d h k =
    let ne : d % iap_log_lines ≢ c % iap_log_lines = omega arith in
    ground (
      arith,
      get_or-set_ne slots {i = d % iap_log_lines} {j = c % iap_log_lines} l [] ne,
      lines-set_later slots l n (c + 1) d,
    )

both_tests : (u l b : ℕ) → (ltb (u + 1) b && ltb (u + l + 1) b) ≡ ltb (l + 1) (b - u)
both_tests u l b = ground arith

-- Reading stops where the buffer would be full.
read_loop-fitting :
    (slots : List (List ℕ)) (start n i used buf_len c room : ℕ)
    → (start + i) % iap_log_lines ≡ c % iap_log_lines
    → room ≡ buf_len - used
    → read_loop slots start n i used buf_len ≡ unlines (fitting room (lines slots c n))
unfolding read_loop fitting unlines
read_loop-fitting slots start zero i used buf_len c room e f = refl
read_loop-fitting slots start (suc n) i used buf_len c room e f =
    let line : List ℕ = get_or slots (c % iap_log_lines) [] in
    let used' : ℕ = used + length line + 1 in
    let rest : read_loop slots start n (i + 1) used' buf_len
        ≡ unlines (fitting (room - (length line + 1)) (lines slots (c + 1) n)) =
      read_loop-fitting slots start n (i + 1) used' buf_len (c + 1) (room - (length line + 1))
        (omega arith) (omega arith) in
    let tests : (ltb (used + 1) buf_len && ltb used' buf_len) ≡ ltb (length line + 1) room =
      both_tests used (length line) buf_len ∙ ap (λ b. ltb (length line + 1) b) (sym f) in
    rw (e, tests)
      (elim (Bool-cases (ltb (length line + 1) room)) [
        | inl fits ↦ rw fits (ap (λ r. line ++ 10 ∷ r) rest)
        | inr full ↦ rw full refl
      ])

recent-ipod_usb_log :
    (text : List ℕ) (r : LogRing)
    → length r.iap_log ≡ 48
    → r.iap_log_head < 2 ^ 32 - 1
    → let held = recent r ++ take 95 text ∷ [] in
      recent (ipod_usb_log text r) ≡ drop (length held - 48) held
unfolding ipod_usb_log
recent-ipod_usb_log text r h k = elim (Bool-cases (ltb head 48)) [
  | inl few ↦
      let less : head < 48 = ground (arith, few) in
      shorter (u32 (head + 1) - 48) (min 48 (u32 (head + 1))) (head - 48) (min 48 head)
        (omega arith) (omega arith) (omega arith) (omega arith) less
  | inr many ↦
      let more : 48 ≤ head = ground (arith, many) in
      shifted (u32 (head + 1) - 48) (min 48 (u32 (head + 1))) (head - 48) (min 48 head) 47
        (omega arith) (omega arith) (omega arith) (omega arith) (omega arith)
]
  where
    head : ℕ
    head = r.iap_log_head

    line : List ℕ
    line = take 95 text

    grown :
        (c n : ℕ)
        → head ≡ c + n
        → n < 48
        → lines (set r.iap_log (head % iap_log_lines) line) c (suc n)
          ≡ lines r.iap_log c n ++ line ∷ []
    grown c n e small =
        lines-snoc (set r.iap_log (head % iap_log_lines) line) n c head e
        ∙ rw
            (
              lines-set_later r.iap_log line n c head (omega arith) (omega arith),
              get_or-set_self r.iap_log (head % iap_log_lines) line [] (omega arith),
            )
            refl

    shorter :
        (c' n' c n : ℕ)
        → c' ≡ 0
        → n' ≡ suc head
        → c ≡ 0
        → n ≡ head
        → head < 48
        → let held = lines r.iap_log c n ++ line ∷ [] in
          lines (set r.iap_log (head % iap_log_lines) line) c' n' ≡ drop (length held - 48) held
    shorter c' n' c n ec' en' ec en less =
        let none_out : length (lines r.iap_log 0 head ++ line ∷ []) - 48 ≡ 0 = omega (
          arith,
          length-append (lines r.iap_log 0 head) (line ∷ []),
          length-lines r.iap_log 0 head,
        ) in
        rw (ec', en', ec, en, none_out) (grown 0 head (omega arith) less)

    shifted :
        (c' n' c n m : ℕ)
        → c' ≡ c + 1
        → n' ≡ suc m
        → n ≡ suc m
        → m ≡ 47
        → head ≡ c + 48
        → let held = lines r.iap_log c n ++ line ∷ [] in
          lines (set r.iap_log (head % iap_log_lines) line) c' n' ≡ drop (length held - 48) held
    shifted c' n' c n m ec' en' en em eh =
        let one_out : length (lines r.iap_log c (suc m) ++ line ∷ []) - 48 ≡ 1 = omega (
          arith,
          length-append (lines r.iap_log c (suc m)) (line ∷ []),
          length-lines r.iap_log c (suc m),
        ) in
        rw (ec', en', en, one_out) (grown (c + 1) m (omega arith) (omega arith))

-- A line that is logged, cut at 95 bytes, stands behind the lines that a ring of 48 slots holds, of
-- which the last 48 stay, where the counter does not wrap; the ring keeps its slots.
pub ipod_usb_log_refines :
    (text : List ℕ) (r : LogRing)
    → length r.iap_log ≡ 48
    → r.iap_log_head < 2 ^ 32 - 1
    → let held = recent r ++ take 95 text ∷ [] in
      (recent (ipod_usb_log text r) ≡ drop (length held - 48) held)
      × (length (ipod_usb_log text r).iap_log ≡ 48)
unfolding ipod_usb_log
ipod_usb_log_refines text r h k = (
  recent-ipod_usb_log text r h k,
  length-set r.iap_log (r.iap_log_head % iap_log_lines) (take 95 text) ∙ h,
)

pub length-fitting : (room : ℕ) (ls : List (List ℕ)) → length (unlines (fitting room ls)) ≤ room - 1
unfolding fitting unlines
length-fitting room [] = omega arith
length-fitting room (l ∷ ls) = elim (Bool-cases (ltb (length l + 1) room)) [
  | inl fits ↦
      let rest : List ℕ = unlines (fitting (room - (length l + 1)) ls) in
      let less : length l + 1 < room = ground (arith, fits) in
      rw fits
        (omega (arith, length-append l (10 ∷ rest), length-fitting (room - (length l + 1)) ls))
  | inr full ↦ rw full (omega arith)
]

read_iap_log-fitting :
    (buf_len : ℕ) (r : LogRing)
    → ipod_usb_read_iap_log buf_len r ≡ unlines (fitting buf_len (recent r))
unfolding ipod_usb_read_iap_log
read_iap_log-fitting buf_len r = elim (Bool-cases (ltb r.iap_log_head iap_log_lines)) [
  | inl few ↦
      let less : r.iap_log_head < 48 = ground (arith, few) in
      let all : min iap_log_lines r.iap_log_head ≡ r.iap_log_head = omega arith in
      rw (few, all)
        (read_loop-fitting r.iap_log 0 r.iap_log_head 0 0 buf_len (r.iap_log_head - 48) buf_len
          (omega arith) (omega arith))
  | inr many ↦
      let more : 48 ≤ r.iap_log_head = ground (arith, many) in
      let all : min iap_log_lines r.iap_log_head ≡ 48 = omega arith in
      rw (many, all)
        (read_loop-fitting r.iap_log (r.iap_log_head % iap_log_lines) 48 0 0 buf_len
          (r.iap_log_head - 48) buf_len (omega arith) (omega arith))
]

-- What is read is the text of the longest front part of the held lines that leaves a byte of the
-- buffer, oldest first, with a newline behind each line: there is room for the closing 0, if there
-- is a buffer at all.
pub read_iap_log_refines :
    (buf_len : ℕ) (r : LogRing)
    → (ipod_usb_read_iap_log buf_len r ≡ unlines (fitting buf_len (recent r)))
      × (length (ipod_usb_read_iap_log buf_len r) ≤ buf_len - 1)
read_iap_log_refines buf_len r =
    let e = read_iap_log-fitting buf_len r in (e, rw e (length-fitting buf_len (recent r)))
