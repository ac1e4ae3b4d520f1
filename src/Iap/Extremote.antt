-- ===== src/Iap/Extremote.antt =====
-- The handlers of the DigitalAudio and ExtendedRemote lingos in iap.c: `handle_audio` and
-- `handle_extremote`.
use esp32_s3_car_adapter.Common.{ℕ, ◌+◌, Bool, true, false, ◌&&◌, ◌||◌, List, [], ◌∷◌}
use esp32_s3_car_adapter.Common.{ltb, leb, ◌==◌, if◌then◌else◌, length, get_or}
use esp32_s3_car_adapter.Iap.Types.{ready, acc_ack, play_control}
use esp32_s3_car_adapter.Iap.Command.{
  CmdBuf, put_u8, put_u16, put_u32, put_cstr, RxCmd, lingo_extrem, lingo_audio,
}
use esp32_s3_car_adapter.Iap.State.{Iap, NowPlaying, set_state, tx_respond}
use esp32_s3_car_adapter.Iap.Live.{track_pos_ms, play_state}
pub mod Replies

-- How a case of `handle_extremote` ends: no answer, `xr_ack` with a status, or a reply.
pub data Answer : Type 0 where
  quiet : Answer
  status : ℕ → Answer
  reply : ℕ → CmdBuf → Answer

-- "chapter"
abbrev chapter : List ℕ
chapter = 0x63 ∷ 0x68 ∷ 0x61 ∷ 0x70 ∷ 0x74 ∷ 0x65 ∷ 0x72 ∷ []

-- Case 0x000C, GetIndexedPlayingTrackInfo.
unfoldable pub track_info : List ℕ → Answer
track_info p =
    let type = get_or p 0 0 in
    let r = put_u8 [] type in
    if ltb (length p) 7
    then status 0x02
    else if type == 0x00
    then reply 0x0D (put_u16 (put_u32 (put_u32 r 0) 0) 1)
    else if type == 0x03 || type == 0x04
    then reply 0x0D (put_u8 (put_u16 (put_u8 r 0) 0) 0)
    else if type == 0x07
    then reply 0x0D r
    else reply 0x0D (put_u8 r 0)

-- Cases 0x0001 to 0x001A; `after` is the answer to any other command.
unfoldable pub answer_browse : ℕ → List ℕ → Answer → Answer
answer_browse cmd p after =
    if cmd == 0x01
    then quiet
    else if cmd == 0x02
    then reply 0x03 (put_u32 (put_u32 [] 0) 1)
    else if cmd == 0x04
    then status 0x00
    else if cmd == 0x05
    then reply 0x06 (put_u32 (put_u32 [] 0) 0)
    else if cmd == 0x07
    then reply 0x08 (put_cstr [] chapter)
    else if cmd == 0x09
    then reply 0x0A (put_u8 [] 0)
    else if cmd == 0x0B
    then status 0x00
    else if cmd == 0x0C
    then track_info p
    else if cmd == 0x0E
    then reply 0x0F []
    else if cmd == 0x10
    then status 0x02
    else if cmd == 0x16 || cmd == 0x17
    then status 0x00
    else if cmd == 0x18
    then reply 0x19 (put_u32 [] 1)
    else if cmd == 0x1A
    then reply 0x1B (put_u32 [] 0)
    else after

-- The size of the display: 640 by 960, in format 1.
unfoldable pub display_size : CmdBuf
unfolding put_u16
display_size = put_u8 (put_u16 (put_u16 [] 640) 960) 1

-- Cases 0x001E to 0x0042, with the `default` case.
unfoldable pub answer_player : ℕ → NowPlaying → Answer
answer_player cmd np =
    if cmd == 0x1E
    then reply 0x1F (put_u32 [] 0)
    else if cmd == 0x20
    then reply 0x21 (put_cstr [] np.np_title)
    else if cmd == 0x22
    then reply 0x23 (put_cstr [] np.np_artist)
    else if cmd == 0x24
    then reply 0x25 (put_cstr [] np.np_album)
    else if cmd == 0x28
    then status 0x00
    else if cmd == 0x2A
    then reply 0x2B []
    else if cmd == 0x2C
    then reply 0x2D (put_u8 [] 0)
    else if cmd == 0x2E
    then status 0x00
    else if cmd == 0x2F
    then reply 0x30 (put_u8 [] 0)
    else if cmd == 0x31
    then status 0x00
    else if cmd == 0x33
    then reply 0x34 display_size
    else if cmd == 0x35
    then reply 0x36 (put_u32 [] 1)
    else if cmd == 0x39
    then reply 0x3A display_size
    else if cmd == 0x3B
    then status 0x02
    else if cmd == 0x32
    then status 0x00
    else if cmd == 0x37 || cmd == 0x38 || cmd == 0x3C || cmd == 0x3E || cmd == 0x40 || cmd == 0x42
    then quiet
    else status 0x02

unfoldable pub extremote_answer : RxCmd → NowPlaying → Answer
extremote_answer c np = answer_browse c.cmd c.p (answer_player c.cmd np)

module _ (clock : ℕ → ℕ) where
  unfoldable pub handle_audio : RxCmd → Iap → Iap
  handle_audio c s =
      if c.cmd == 0x03
      then tx_respond clock c lingo_audio 0x04 (put_u32 (put_u32 (put_u32 [] 44100) 0) 0) s
      else if c.cmd == 0x00 && leb 2 (length c.p)
      then record s { log = acc_ack (get_or c.p 0 0) (get_or c.p 1 0) ∷ s.log }
      else s

  unfoldable pub xr_ack : RxCmd → ℕ → Iap → Iap
  xr_ack c st s = tx_respond clock c lingo_extrem 0x01 (put_u16 (put_u8 [] st) c.cmd) s

  unfoldable pub send_answer : RxCmd → Answer → Iap → Iap
  send_answer c quiet s = s
  send_answer c (status st) s = xr_ack c st s
  send_answer c (reply cmd r) s = tx_respond clock c lingo_extrem cmd r s

  -- Case 0x001C, GetPlayStatus.
  unfoldable pub play_status : RxCmd → Iap → Iap
  play_status c s =
      let ready_state = set_state ready s in
      let (playing, s') = play_state clock ready_state in
      send_answer c
        (reply 0x1D (put_u8 (put_u32 (put_u32 [] 0) (track_pos_ms ready_state)) playing)) s'

  unfoldable pub handle_extremote : RxCmd → Iap → Iap
  handle_extremote c s =
      if c.cmd == 0x1C
      then play_status c s
      else if c.cmd == 0x26
      then send_answer c (status 0x00) (record s { np = record (s.np) { notify_armed = true } })
      else if c.cmd == 0x29
      then send_answer c (status 0x00) (record s {
        log = play_control (if leb 1 (length c.p) then get_or c.p 0 0 else 0xFF) ∷ s.log;
      })
      else send_answer c (extremote_answer c s.np) s
