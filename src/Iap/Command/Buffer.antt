-- ===== src/Iap/Command/Buffer.antt =====
-- The reply buffer: it never holds more than 512 bytes, and below that nothing is lost.
use esp32_s3_car_adapter.Common.{
  ℕ, ◌+◌, ◌/◌, ◌≤◌, ◌<◌, ◌≡◌, List, [], ◌∷◌, ◌++◌, arith, append-nil, append_assoc, sym, ◌∙◌,
}
use esp32_s3_car_adapter.Common.{length, length-append, u8}
use esp32_s3_car_adapter.Iap.Command.{CmdBuf, cmd_buf_size, put_u8, put_u16, put_bytes}

pub length-put_u8 :
    (c : CmdBuf) (v : ℕ) → length c ≤ cmd_buf_size → length (put_u8 c v) ≤ cmd_buf_size
unfolding put_u8
length-put_u8 c v h = ground (arith, length-append c (v ∷ []))

pub length-put_u16 :
    (c : CmdBuf) (v : ℕ) → length c ≤ cmd_buf_size → length (put_u16 c v) ≤ cmd_buf_size
unfolding put_u16
length-put_u16 c v h = length-put_u8 (put_u8 c (u8 (v / 256))) (u8 v) (length-put_u8 c _ h)

pub length-put_bytes :
    (c : CmdBuf) (p : List ℕ) → length c ≤ cmd_buf_size → length (put_bytes c p) ≤ cmd_buf_size
unfolding put_bytes
length-put_bytes c [] h = h
length-put_bytes c (x ∷ xs) h = length-put_bytes (put_u8 c x) xs (length-put_u8 c x h)

pub put_u8-room : (c : CmdBuf) (v : ℕ) → length c < cmd_buf_size → put_u8 c v ≡ c ++ v ∷ []
unfolding put_u8
put_u8-room c v h = ground arith

pub put_u16-room :
    (c : CmdBuf) (v : ℕ) → length c + 2 ≤ cmd_buf_size → put_u16 c v ≡ c ++ u8 (v / 256) ∷ u8 v ∷ []
unfolding put_u16
put_u16-room c v h =
    let hi : List ℕ = u8 (v / 256) ∷ [] in
    rw (put_u8-room c (u8 (v / 256)) (omega arith))
      (put_u8-room (c ++ hi) (u8 v) (omega (arith, length-append c hi)) ∙ append_assoc c hi _)

pub put_bytes-room :
    (c : CmdBuf) (p : List ℕ) → length c + length p ≤ cmd_buf_size → put_bytes c p ≡ c ++ p
unfolding put_bytes
put_bytes-room c [] h = sym (append-nil c)
put_bytes-room c (x ∷ xs) h = rw (put_u8-room c x (omega arith)) (
    put_bytes-room (c ++ x ∷ []) xs (omega (arith, length-append c (x ∷ [])))
    ∙ append_assoc c (x ∷ []) xs)
