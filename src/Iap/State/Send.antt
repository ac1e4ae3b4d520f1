-- ===== src/Iap/State/Send.antt =====
-- What `tx_send` puts on the wire: its packet fits every buffer on the way.
use esp32_s3_car_adapter.Common.{
  ℕ, ◌+◌, ◌/◌, ◌≤◌, ◌<◌, ◌≡◌, refl, u8, List, [], ◌∷◌, ◌++◌, arith, Bool,
}
use esp32_s3_car_adapter.Common.{length, length-append}
use esp32_s3_car_adapter.Iap.Packet.{pkt_encode, length_field, cksum}
use esp32_s3_car_adapter.Iap.Command.{CmdBuf, cmd_buf_size, put_u8, put_u16, put_bytes}
use esp32_s3_car_adapter.Iap.Command.Buffer.{length-put_u8, length-put_u16, length-put_bytes}
use esp32_s3_car_adapter.Iap.State.{command_bytes}

pub length-command_bytes :
    (has_trx : Bool) (lingo cmd trx : ℕ) (payload : List ℕ)
    → length (command_bytes has_trx lingo cmd trx payload) ≤ cmd_buf_size
unfolding command_bytes
length-command_bytes has_trx lingo cmd trx payload =
    grind (arith, length-put_u8, length-put_u16, length-put_bytes)

pub length-pkt_encode : (cmd : List ℕ) → length (pkt_encode cmd) ≤ length cmd + 5
unfolding pkt_encode length_field
length-pkt_encode cmd = ground (
  arith,
  length-append (length_field (length cmd)) cmd,
  length-append (length_field (length cmd) ++ cmd) (cksum (length_field (length cmd) ++ cmd) ∷ []),
)

-- The buffer only grows, and the lingo is in it.
length-put_u8_grows : (c : CmdBuf) (v : ℕ) → length c ≤ length (put_u8 c v)
unfolding put_u8
length-put_u8_grows c v = ground (arith, length-append c (v ∷ []))

length-put_u16_grows : (c : CmdBuf) (v : ℕ) → length c ≤ length (put_u16 c v)
unfolding put_u16
length-put_u16_grows c v = omega (
  arith,
  length-put_u8_grows c (u8 (v / 256)),
  length-put_u8_grows (put_u8 c (u8 (v / 256))) (u8 v),
)

length-put_bytes_grows : (c : CmdBuf) (p : List ℕ) → length c ≤ length (put_bytes c p)
unfolding put_bytes
length-put_bytes_grows c [] = omega arith
length-put_bytes_grows c (x ∷ xs) =
    omega (arith, length-put_u8_grows c x, length-put_bytes_grows (put_u8 c x) xs)

length-put_u8_first : (v : ℕ) → length (put_u8 [] v) ≡ 1
unfolding put_u8
length-put_u8_first v = refl

pub command_bytes-positive :
    (has_trx : Bool) (lingo cmd trx : ℕ) (payload : List ℕ)
    → 0 < length (command_bytes has_trx lingo cmd trx payload)
unfolding command_bytes
command_bytes-positive has_trx lingo cmd trx payload =
    grind (
      arith, length-put_u8_first, length-put_u8_grows, length-put_u16_grows, length-put_bytes_grows,
    )

-- Whatever is sent, the command fits cmd_buf_t (512 bytes) and its packet tx_pkt (600 bytes),
-- without any condition on the payload.
pub tx_send_bounds :
    (has_trx : Bool) (lingo cmd trx : ℕ) (payload : List ℕ)
    → let c = command_bytes has_trx lingo cmd trx payload in
      (length c ≤ 512) × (length (pkt_encode c) ≤ 600)
tx_send_bounds has_trx lingo cmd trx payload =
    let c : List ℕ = command_bytes has_trx lingo cmd trx payload in
    let l : length c ≤ 512 = length-command_bytes has_trx lingo cmd trx payload in
    (l, omega (arith, l, length-pkt_encode c))
