-- ===== src/Iap/General.antt =====
-- The handler of the General lingo in iap.c, `handle_general`.
-- The cases that only build a reply are in Tables; those that change more have functions of their
-- own. All reads of the payload are behind the source's length checks.
use esp32_s3_car_adapter.Common.{
  ℕ, zero, suc, ◌+◌, ◌-◌, ◌*◌, ◌^◌, Bool, true, false, ◌&&◌, ◌||◌, not, List, [], ◌∷◌, ℤ, pos,
}
use esp32_s3_car_adapter.Common.{
  ltb, leb, ◌==◌, if◌then◌else◌, length, get_or, take, drop, replicate, u8,
}
use esp32_s3_car_adapter.Iap.Types.{identified, auth, auth_ok}
use esp32_s3_car_adapter.Iap.Command.{
  CmdBuf, put_u8, put_u16, put_u32, put_u64, put_bytes, put_cstr, RxCmd, lingo_general,
  lingo_disprem, lingo_extrem, lingo_audio,
}
use esp32_s3_car_adapter.Iap.State.{Iap, set_state, tx_respond, tx_notify}
mod Tables
pub mod Replies
pub mod Handshake
pub use Tables.{ack_ok, ack_failed, ack_unknown_id, Reply, silent, reply}
unfoldable pub use Tables.{
  ack, version_reply, reply_identify, fid_ack, fid_loop, fid_reply, options_reply, reply_other,
  general_reply,
}

-- `dev_id` of case 0x13, from `c->p[8..12)`.
abbrev device_id : List ℕ → ℕ
device_id p = get_or p 8 0 * 2 ^ 24 + get_or p 9 0 * 2 ^ 16 + get_or p 10 0 * 2 ^ 8 + get_or p 11 0

module _ (clock : ℕ → ℕ) where
  -- `if (respond) tx_respond(c, LINGO_GENERAL, resp_cmd, r.b, r.n)`
  unfoldable pub send_reply : RxCmd → Reply → Iap → Iap
  send_reply c silent s = s
  send_reply c (reply cmd r) s = tx_respond clock c lingo_general cmd r s

  -- Case 0x13, IdentifyDeviceLingoes.
  unfoldable pub identify_lingoes : RxCmd → Iap → Iap
  identify_lingoes c s =
      let s' = send_reply c (ack ack_ok 0x13) (set_state identified s) in
      if leb 12 (length c.p) && not (device_id c.p == 0)
      then tx_notify clock lingo_general 0x14 [] s'
      else s'

  -- `cert_cur` and `cert_max` of case 0x15.
  unfoldable pub note_certificate : List ℕ → Iap → Iap
  note_certificate p s =
      if leb 4 (length p)
      then record s {
        handshake = record (s.handshake) {
          cert_cur = pos (get_or p 2 0);
          cert_max = pos (get_or p 3 0);
        };
      }
      else s

  -- The answer of case 0x15 to a payload of version 2 or later.
  unfoldable pub answer_certificate : RxCmd → Iap → Iap
  answer_certificate c s =
      let cur = if leb 3 (length c.p) then get_or c.p 2 0 else 0 in
      let max = if leb 4 (length c.p) then get_or c.p 3 0 else 0 in
      if ltb cur max
      then send_reply c (ack ack_ok 0x15) s
      else tx_notify clock lingo_general 0x17 (replicate 21 0)
          (send_reply c (reply 0x16 (put_u8 [] 0x00)) s)

  -- Case 0x15, RetDevAuthenticationInfo.
  unfoldable pub auth_info : RxCmd → Iap → Iap
  auth_info c s =
      let s' = set_state auth s in
      let s'' =
        if leb 2 (length c.p) && leb 2 (get_or c.p 0 0)
        then answer_certificate c (note_certificate c.p s')
        else send_reply c (reply 0x16 (put_u8 [] 0x00)) s' in
      tx_notify clock lingo_audio 0x02 [] s''

  -- Case 0x3B, EndIDPS.
  unfoldable pub end_idps : RxCmd → Iap → Iap
  end_idps c s =
      let st = if leb 1 (length c.p) then get_or c.p 0 0 else 0x02 in
      if st == 0x00
      then tx_notify clock lingo_general 0x14 [] (send_reply c (reply 0x3C (put_u8 [] 0x00)) s)
      else if st == 0x01
      then send_reply c (reply 0x3C (put_u8 [] 0x04)) s
      else if st == 0x02
      then send_reply c (reply 0x3C (put_u8 [] 0x06)) s
      else s

  -- What cases 0x18 and 0x38 change before they reply.
  unfoldable pub enter_case : ℕ → Iap → Iap
  enter_case cmd s =
      if cmd == 0x18
      then set_state auth_ok s
      else if cmd == 0x38
      then record (set_state identified s) { trx = record (s.trx) { counter = 0 } }
      else s

  unfoldable pub handle_general : RxCmd → Iap → Iap
  handle_general c s =
      if c.cmd == 0x13
      then identify_lingoes c s
      else if c.cmd == 0x15
      then auth_info c s
      else if c.cmd == 0x3B
      then end_idps c s
      else send_reply c (general_reply c s.np.dev_serial) (enter_case c.cmd s)
