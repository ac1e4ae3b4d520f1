-- ===== src/Iap/General/Tables.antt =====
-- The cases of `handle_general` in iap.c that only build a reply, in two tables.
use esp32_s3_car_adapter.Common.{ℕ, zero, suc, ◌+◌, ◌-◌, ◌&&◌, ◌||◌, List, [], ◌∷◌}
use esp32_s3_car_adapter.Common.{ltb, leb, ◌==◌, if◌then◌else◌, length, get_or, take, drop, u8}
use esp32_s3_car_adapter.Iap.Command.{
  CmdBuf, put_u8, put_u16, put_u32, put_u64, put_bytes, put_cstr, RxCmd, lingo_general,
  lingo_disprem, lingo_extrem, lingo_audio,
}

-- `ACK_OK`, `ACK_FAILED`, `ACK_UNKNOWNID`
abbrev pub ack_ok : ℕ
ack_ok = 0x00

abbrev pub ack_failed : ℕ
ack_failed = 0x02

abbrev pub ack_unknown_id : ℕ
ack_unknown_id = 0x05

-- `respond`, `resp_cmd` and `r` at the end of the switch.
pub data Reply : Type 0 where
  silent : Reply
  reply : ℕ → CmdBuf → Reply

-- `put_u8(&r, status); put_u8(&r, id)` under `resp_cmd = 0x02`
unfoldable pub ack : ℕ → ℕ → Reply
ack status id = reply 0x02 (put_u8 (put_u8 [] status) id)

-- "Volvo AirPlay" and "MC676"
abbrev device_name : List ℕ
device_name =
    0x56 ∷ 0x6F ∷ 0x6C ∷ 0x76 ∷ 0x6F ∷ 0x20 ∷ 0x41 ∷ 0x69 ∷ 0x72 ∷ 0x50 ∷ 0x6C ∷ 0x61 ∷ 0x79 ∷ []

abbrev model_name : List ℕ
model_name = 0x4D ∷ 0x43 ∷ 0x36 ∷ 0x37 ∷ 0x36 ∷ []

-- Case 0x0F: the protocol version of a lingo.
unfoldable pub version_reply : ℕ → Reply
version_reply lingo =
    let r = put_u8 [] lingo in
    let minor =
      if lingo == lingo_general
      then 9
      else if lingo == lingo_disprem
      then 5
      else if lingo == lingo_extrem
      then 12
      else if lingo == lingo_audio
      then 2
      else 1 in
    reply 0x10 (put_u8 (put_u8 r 1) minor)

-- Cases 0x00 to 0x11 and 0x18 to 0x1F; `after` is the answer to any other command.
unfoldable pub reply_identify : ℕ → RxCmd → List ℕ → Reply → Reply
reply_identify cmd c serial after =
    if cmd == 0x00 || cmd == 0x02
    then silent
    else if cmd == 0x03
    then reply 0x04 (put_u8 [] 0x00)
    else if cmd == 0x05
    then ack ack_ok 0x05
    else if cmd == 0x06
    then ack ack_ok 0x06
    else if cmd == 0x07
    then reply 0x08 (put_cstr [] device_name)
    else if cmd == 0x09
    then reply 0x0A (put_u8 (put_u8 (put_u8 [] 7) 1) 2)
    else if cmd == 0x0B
    then reply 0x0C (put_cstr [] serial)
    else if cmd == 0x0D
    then reply 0x0E (put_cstr (put_u32 [] 0x00111349) model_name)
    else if cmd == 0x0F
    then version_reply (if leb 1 (length c.p) then get_or c.p 0 0 else 0x00)
    else if cmd == 0x11
    then reply 0x12 (put_u16 [] 65535)
    else if cmd == 0x18
    then reply 0x19 (put_u8 [] 0x00)
    else if cmd == 0x1A
    then reply 0x1B (put_u8 (put_u8 (put_u8 (put_u8 [] 1) 1) 0) 0)
    else if cmd == 0x1C || cmd == 0x1F
    then silent
    else if cmd == 0x1D
    then reply 0x1E (put_bytes [] (take 20 c.p))
    else after

-- One token of case 0x39: `tlen` is its length, at least 2, and `t` begins with its bytes. The
-- placeholder is put and dropped as in the source, which in a full buffer drops a byte of the
-- reply.
unfoldable pub fid_ack : ℕ → List ℕ → CmdBuf → CmdBuf
fid_ack tlen t r =
    let r' = put_u8 r (u8 (2 + 2)) in
    let r'' = take (length r' - 1) r' in
    let ftype = get_or t 0 0 in
    let fsub = get_or t 1 0 in
    let ack_body =
      if ftype == 0x00 && (fsub == 0x02 || fsub == 0x03 || fsub == 0x04)
      then 0x00 ∷ (if leb 3 tlen then get_or t 2 0 else 0) ∷ []
      else 0x00 ∷ [] in
    put_bytes (put_u8 (put_u8 (put_u8 r'' (u8 (2 + length ack_body))) ftype) fsub) ack_body

-- The loop of case 0x39 over `count` tokens; the list is `c->p[o..len)`.
unfoldable pub fid_loop : ℕ → List ℕ → CmdBuf → CmdBuf
fid_loop zero rest r = r
fid_loop (suc count) [] r = r
fid_loop (suc count) (tlen ∷ []) r = r
fid_loop (suc count) (tlen ∷ a ∷ rest) r =
    let next = fid_loop count (drop tlen (a ∷ rest)) in
    if ltb (length (a ∷ rest)) tlen
    then r
    else next (if ltb tlen 2 then r else fid_ack tlen (a ∷ rest) r)

-- Case 0x39, SetFIDTokenValues.
unfoldable pub fid_reply : List ℕ → Reply
fid_reply [] = silent
fid_reply (count ∷ tokens) = reply 0x3A (fid_loop count tokens (put_u8 [] count))

-- Case 0x4B, GetiPodOptionsForLingo.
unfoldable pub options_reply : ℕ → Reply
options_reply lingo =
    reply 0x4C
      (put_u64 (put_u8 [] lingo) (if lingo == lingo_general then 0x000000063DEF73FF else 0))

-- The other cases that only build a reply, with the `default` case.
unfoldable pub reply_other : ℕ → RxCmd → Reply
reply_other cmd c =
    if cmd == 0x24
    then reply 0x25 (put_u64 [] 0)
    else if cmd == 0x28
    then silent
    else if cmd == 0x29
    then reply 0x2A (put_u8 (put_u8 [] (if leb 1 (length c.p) then get_or c.p 0 0 else 0)) 0)
    else if cmd == 0x2B
    then ack ack_ok 0x2B
    else if cmd == 0x35
    then reply 0x36 (put_u8 [] 0x00)
    else if cmd == 0x37
    then ack ack_ok 0x37
    else if cmd == 0x38
    then ack ack_ok 0x38
    else if cmd == 0x39
    then fid_reply c.p
    else if cmd == 0x46 || cmd == 0x48
    then silent
    else if cmd == 0x49
    then ack ack_ok 0x49
    else if cmd == 0x4B
    then options_reply (if leb 1 (length c.p) then get_or c.p 0 0 else 0x00)
    else if cmd == 0x4D
    then reply 0x4E (put_u64 [] 0)
    else if cmd == 0x50
    then ack ack_ok 0x50
    else if cmd == 0x54 || cmd == 0x41 || cmd == 0x42 || cmd == 0x43
    then silent
    else if cmd == 0x64
    then ack ack_failed 0x64
    else if cmd == 0x65
    then reply 0x66 (put_u8 [] 0)
    else ack ack_unknown_id (u8 cmd)

unfoldable pub general_reply : RxCmd → List ℕ → Reply
general_reply c serial = reply_identify c.cmd c serial (reply_other c.cmd c)
