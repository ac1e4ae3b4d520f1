-- ===== src/Iap/Packet/RoundTrip.antt =====
-- What `pkt_encode` writes, the receiver finds again, and where it does not.
use esp32_s3_car_adapter.Common.{
  ℕ, zero, suc, ◌+◌, ◌*◌, ◌/◌, ◌%◌, ◌^◌, ◌≤◌, ◌<◌, ◌≡◌, ◌≢◌, refl, sym, ap, ◌∙◌, inl, inr, List, [],
  ◌∷◌, ◌++◌, some, arith, append_assoc,
}
use esp32_s3_car_adapter.Common.{
  ltb, length, get_or, take, drop, All, length-append, take-append_length, drop-append_length,
  length-take, length-drop, u8, u16, Bool-cases,
}
use esp32_s3_car_adapter.Iap.Packet.{
  Found, start_byte, sum_from, cksum, length_field, pkt_encode, find_start, cut_packet, read_packet,
  next_packet,
}
use mathlib.Core.Path.{ap₂}
use esp32_s3_car_adapter.Iap.Packet.Sums.{sum_from-cksum}

module _ (header cmd rest : List ℕ) (c : ℕ) where
  abbrev frame : List ℕ
  frame = header ++ cmd ++ c ∷ rest

  length-frame : length frame ≡ length header + length cmd + 1 + length rest
  length-frame = omega (arith, length-append (header ++ cmd) (c ∷ rest), length-append header cmd)

  frame-split : frame ≡ (header ++ cmd ++ c ∷ []) ++ rest
  frame-split = sym (append_assoc (header ++ cmd) (c ∷ []) rest)

  -- Cutting a frame at the sizes of its parts.
  cut_packet-frame :
      (hdr pay_len : ℕ)
      → hdr ≡ length header
      → pay_len ≡ length cmd
      → cut_packet hdr pay_len frame
        ≡ some (record {
          payload = cmd;
          lead = get_or (cmd ++ c ∷ rest) 0 0;
          sum = sum_from 0 (header ++ cmd ++ c ∷ []);
          rest = rest;
        })
  unfolding cut_packet
  cut_packet-frame hdr pay_len eh ep = ground (arith, length-frame, whole, left, inner, behind)
    where
      total : hdr + pay_len + 1 ≡ length (header ++ cmd ++ c ∷ [])
      total = omega (arith, length-append (header ++ cmd) (c ∷ []), length-append header cmd)

      whole : take (hdr + pay_len + 1) frame ≡ header ++ cmd ++ c ∷ []
      whole = rw frame-split (take-append_length (hdr + pay_len + 1) _ rest total)

      left : drop (hdr + pay_len + 1) frame ≡ rest
      left = rw frame-split (drop-append_length (hdr + pay_len + 1) _ rest total)

      behind : drop hdr frame ≡ cmd ++ c ∷ rest
      behind = rw append_assoc (drop-append_length hdr header (cmd ++ c ∷ rest) eh)

      inner : take pay_len (drop hdr frame) ≡ cmd
      inner = rw behind (take-append_length pay_len cmd (c ∷ rest) ep)

-- A one-byte length field that is not 0.
read_packet-short :
    (k : ℕ) (cmd rest : List ℕ) (c : ℕ)
    → suc k ≡ length cmd
    → read_packet (suc k ∷ (cmd ++ c ∷ rest))
      ≡ some (record {
        payload = cmd;
        lead = get_or (cmd ++ c ∷ rest) 0 0;
        sum = sum_from 0 (suc k ∷ (cmd ++ c ∷ []));
        rest = rest;
      })
unfolding read_packet
read_packet-short k cmd rest c e = cut_packet-frame (suc k ∷ []) cmd rest c 1 (suc k) refl e

read_packet-long :
    (hi lo : ℕ) (cmd rest : List ℕ) (c : ℕ)
    → u16 (hi * 256 + lo) ≡ length cmd
    → read_packet (0 ∷ hi ∷ lo ∷ (cmd ++ c ∷ rest))
      ≡ some (record {
        payload = cmd;
        lead = get_or (cmd ++ c ∷ rest) 0 0;
        sum = sum_from 0 (0 ∷ hi ∷ lo ∷ (cmd ++ c ∷ []));
        rest = rest;
      })
unfolding read_packet
read_packet-long hi lo cmd rest c e =
    cut_packet-frame (0 ∷ hi ∷ lo ∷ []) cmd rest c 3 (u16 (hi * 256 + lo)) refl e

read_packet-length_field :
    (n : ℕ) (cmd rest : List ℕ) (c : ℕ)
    → n ≡ length cmd
    → 0 < n
    → n ≢ 256
    → n < 2 ^ 16
    → read_packet ((length_field n ++ cmd) ++ c ∷ rest)
      ≡ some (record {
        payload = cmd;
        lead = get_or (cmd ++ c ∷ rest) 0 0;
        sum = sum_from 0 ((length_field n ++ cmd) ++ c ∷ []);
        rest = rest;
      })
unfolding length_field
read_packet-length_field zero cmd rest c e pos ne fits = absurd (omega arith)
read_packet-length_field (suc k) cmd rest c e pos ne fits = elim (Bool-cases (ltb 256 (suc k))) [
  | inl h ↦ rw h (read_packet-long (u8 (suc k / 256)) (u8 (suc k)) cmd rest c (ground arith))
  | inr h ↦
      let small : suc k % 2 ^ 8 ≡ suc k = ground arith in
      rw (h, small) (read_packet-short k cmd rest c e)
]

find_start-junk :
    (junk f : List ℕ) → All (λ x. x ≢ start_byte) junk → find_start (junk ++ start_byte ∷ f) ≡ f
unfolding find_start
find_start-junk [] f h = refl
find_start-junk (x ∷ junk) f h = ground (arith, find_start-junk junk f h.1)

get_or-append_front : (xs ys : List ℕ) → 0 < length xs → get_or (xs ++ ys) 0 0 ≡ get_or xs 0 0
get_or-append_front [] ys h = absurd (omega arith)
get_or-append_front (x ∷ xs) ys h = refl

-- A packet that pkt_encode wrote for a command of 1 to 65530 bytes, but not of 256, is found behind
-- any bytes that are no start byte: with its command whole, with a sum of 0, and with exactly the
-- bytes behind it left over.
pub next_packet-pkt_encode :
    (junk cmd rest : List ℕ)
    → All (λ x. x ≢ start_byte) junk
    → 0 < length cmd
    → length cmd ≢ 256
    → length cmd ≤ 65530
    → next_packet (junk ++ pkt_encode cmd ++ rest)
      ≡ some (record { payload = cmd; lead = get_or cmd 0 0; sum = 0; rest = rest })
unfolding next_packet pkt_encode
next_packet-pkt_encode junk cmd rest j pos ne fits =
    ap read_packet behind
    ∙ read_packet-length_field (length cmd) cmd rest (cksum body) refl pos ne (omega arith)
    ∙ ap₂ (λ l s. some (record { payload = cmd; lead = l; sum = s; rest = rest }))
        (get_or-append_front cmd (cksum body ∷ rest) pos) (sum_from-cksum body)
  where
    body : List ℕ
    body = length_field (length cmd) ++ cmd

    behind : find_start (junk ++ pkt_encode cmd ++ rest) ≡ body ++ cksum body ∷ rest
    behind =
        ap find_start (append_assoc junk (pkt_encode cmd) rest)
        ∙ find_start-junk junk (body ++ cksum body ∷ [] ++ rest) j
        ∙ append_assoc body (cksum body ∷ []) rest

-- What is cut lies in the frame.
cut_packet-length :
    (hdr pay_len : ℕ) (f : List ℕ) (p : Found)
    → cut_packet hdr pay_len f ≡ some p
    → length p.payload + hdr + 1 ≤ length f
unfolding cut_packet
cut_packet-length hdr pay_len f p e =
    ground (arith, length-take pay_len (drop hdr f), length-drop hdr f)

-- The packet that pkt_encode writes for a command of 256 bytes is never found again with that
-- command as its payload: its length byte is 0, the mark of the long form.
pub next_packet-pkt_encode_256 :
    (cmd : List ℕ) (p : Found)
    → length cmd ≡ 256
    → next_packet (pkt_encode cmd) ≡ some p
    → p.payload ≢ cmd
unfolding next_packet pkt_encode find_start
next_packet-pkt_encode_256 [] p h e = absurd (omega arith)
next_packet-pkt_encode_256 (a ∷ []) p h e = absurd (omega arith)
next_packet-pkt_encode_256 (a ∷ b ∷ cs) p h e =
    let c : ℕ = cksum (0 ∷ a ∷ b ∷ cs) in
    let found : cut_packet 3 (u16 (a * 256 + b)) (0 ∷ a ∷ b ∷ (cs ++ c ∷ [])) ≡ some p =
      rw (h, read_packet) at e in
    λ same. omega (
      arith,
      h,
      ap length same,
      cut_packet-length 3 (u16 (a * 256 + b)) (0 ∷ a ∷ b ∷ (cs ++ c ∷ [])) p found,
      length-append cs (c ∷ []),
    )
