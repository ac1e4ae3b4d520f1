-- ===== src/Iap/Packet.antt =====
-- The packet layer of iap.c: `cksum`, `pkt_encode`, and the part of `dispatch_packets` that finds
-- one packet in a received frame. A C buffer with a fill count is the list of its filled bytes. Offsets are plain
-- numbers: the `uint16_t` of the source does not wrap, a frame has 2048 bytes at most.
use esp32_s3_car_adapter.Common.{
  ℕ, zero, suc, ◌+◌, ◌-◌, ◌*◌, ◌/◌, ◌%◌, ◌^◌, Bool, true, false, List, [], ◌∷◌, ◌++◌, Option, none,
  some,
}
use esp32_s3_car_adapter.Common.{ltb, leb, ◌==◌, if◌then◌else◌, length, get_or, take, drop, u8, u16}
pub mod Sums
pub mod RoundTrip

-- The loop of `cksum` and of the check in `dispatch_packets`: `s += p[i]` in a `uint8_t`.
unfoldable pub sum_from : ℕ → List ℕ → ℕ
sum_from s [] = s
sum_from s (x ∷ xs) = sum_from (u8 (s + x)) xs

-- `(uint8_t) -s`
unfoldable pub cksum : List ℕ → ℕ
cksum p = u8 (256 - sum_from 0 p)

-- The start byte and the length field of `pkt_encode`.
abbrev pub start_byte : ℕ
start_byte = 0x55

unfoldable pub length_field : ℕ → List ℕ
length_field n = if ltb 256 n then 0x00 ∷ u8 (n / 256) ∷ u8 n ∷ [] else u8 n ∷ []

unfoldable pub pkt_encode : List ℕ → List ℕ
unfolding length_field
pkt_encode cmd =
    let body = length_field (length cmd) ++ cmd in start_byte ∷ (body ++ cksum body ∷ [])

-- What one round of the outer loop of `dispatch_packets` finds: the payload, the byte behind the
-- header (`pkt[hdr]`, which is the checksum where there is no payload), the sum of the packet's
-- bytes, and the rest of the frame.
pub record Found : Type 0 where
  pub payload : List ℕ
  pub lead : ℕ
  pub sum : ℕ
  pub rest : List ℕ

-- `while (o < n && f[o] != 0x55) o++`, then `o++`; the empty list is `o >= n`.
unfoldable pub find_start : List ℕ → List ℕ
find_start [] = []
find_start (x ∷ xs) = if x == start_byte then xs else find_start xs

-- The checks on a packet with a header of `hdr` bytes; `none` is `break`.
unfoldable pub cut_packet : ℕ → ℕ → List ℕ → Option Found
cut_packet hdr pay_len f =
    let total = hdr + pay_len + 1 in
    if ltb (length f) total
    then none
    else some (record {
      payload = take pay_len (drop hdr f);
      lead = get_or (drop hdr f) 0 0;
      sum = sum_from 0 (take total f);
      rest = drop total f;
    })

-- The list is `f[o..n)` behind a start byte.
unfoldable pub read_packet : List ℕ → Option Found
unfolding cut_packet
read_packet [] = none
read_packet (zero ∷ []) = none
read_packet (zero ∷ hi ∷ []) = none
read_packet (zero ∷ hi ∷ lo ∷ f) = cut_packet 3 (u16 (hi * 256 + lo)) (zero ∷ hi ∷ lo ∷ f)
read_packet (suc k ∷ f) = cut_packet 1 (suc k) (suc k ∷ f)

unfoldable pub next_packet : List ℕ → Option Found
unfolding find_start read_packet
next_packet f = read_packet (find_start f)
