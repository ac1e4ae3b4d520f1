-- ===== src/Iap/Delivery/Query.antt =====
-- The strings of the track on their way from the AirPlay side to the car: `iap_set_track`, a query
-- to `handle_extremote`, and the reports of its answer.
use esp32_s3_car_adapter.Common.{
  ℕ, ◌+◌, ◌/◌, ◌≤◌, ◌≡◌, ◌≢◌, refl, sym, ap, ◌∙◌, Bool, ◌&&◌, List, [], ◌∷◌, Option, none, some,
  arith, length, take, length-take, length-append, u8, All,
}
use mathlib.Core.Path.{subst}
use esp32_s3_car_adapter.Iap.Queue.{txq_size}
use esp32_s3_car_adapter.Iap.Queue.Inv.{IsValid}
use esp32_s3_car_adapter.Iap.Queue.Refine.{contents}
use esp32_s3_car_adapter.Iap.Queue.Rounds.{TakesOne}
use esp32_s3_car_adapter.Iap.Command.{CmdBuf, RxCmd, lingo_extrem, put_u8, put_u16, put_bytes}
use esp32_s3_car_adapter.Iap.State.{Iap, command_bytes, tx_respond, tx_send}
use esp32_s3_car_adapter.Iap.Live.{iap_set_track}
use esp32_s3_car_adapter.Iap.Extremote.{reply, extremote_answer, handle_extremote, send_answer}
use esp32_s3_car_adapter.Iap.Extremote.Replies.{sent_cstr, extremote_answer-iap_set_track}
use esp32_s3_car_adapter.Iap.Delivery.{Delivers, tx_pump_rounds, tx_send-Delivers}

-- GetIndexedPlayingTrackTitle, ArtistName and AlbumName.
pub data Query : Type 0 where
  title artist album : Query

abbrev pub asked : Query → ℕ
asked title = 0x20
asked artist = 0x22
asked album = 0x24

abbrev pub text : Query → Option (List ℕ) → Option (List ℕ) → Option (List ℕ) → Option (List ℕ)
text title a t al = t
text artist a t al = a
text album a t al = al

-- Each part of a command adds at most its size.
put_u8-le : (c : CmdBuf) (v : ℕ) → length (put_u8 c v) ≤ length c + 1
unfolding put_u8
put_u8-le c v = ground (arith, length-append c (v ∷ []))

put_u16-le : (c : CmdBuf) (v : ℕ) → length (put_u16 c v) ≤ length c + 2
unfolding put_u16
put_u16-le c v =
    omega (arith, put_u8-le c (u8 (v / 256)), put_u8-le (put_u8 c (u8 (v / 256))) (u8 v))

put_bytes-le : (c : CmdBuf) (p : List ℕ) → length (put_bytes c p) ≤ length c + length p
unfolding put_bytes
put_bytes-le c [] = omega arith
put_bytes-le c (x ∷ xs) = omega (arith, put_u8-le c x, put_bytes-le (put_u8 c x) xs)

pub command_bytes-le :
    (has_trx : Bool) (lingo cmd trx : ℕ) (payload : List ℕ)
    → length (command_bytes has_trx lingo cmd trx payload) ≤ 5 + length payload
unfolding command_bytes
command_bytes-le has_trx lingo cmd trx payload = grind (arith, put_u8-le, put_u16-le, put_bytes-le)

pub length-sent_cstr : (s : Option (List ℕ)) → length (sent_cstr s) ≤ 192
length-sent_cstr none = omega arith
length-sent_cstr (some s) = omega (arith, length-append (take 191 s) (0 ∷ []), length-take 191 s)

module _ (clock : ℕ → ℕ) (a t al : Option (List ℕ)) (s : Iap) where
  pub answered :
      (k : Query) (c : RxCmd)
      → c.cmd ≡ asked k
      → extremote_answer c (iap_set_track clock a t al s).np
        ≡ reply (asked k + 1) (sent_cstr (text k a t al))
  answered title c e = (extremote_answer-iap_set_track clock a t al s c).0 e
  answered artist c e = (extremote_answer-iap_set_track clock a t al s c).1 e
  answered album c e = (extremote_answer-iap_set_track clock a t al s c).2 e

  -- The answer is sent.
  pub handle_extremote-query :
      (k : Query) (c : RxCmd) (u : Iap)
      → c.cmd ≡ asked k
      → handle_extremote clock c u ≡ send_answer clock c (extremote_answer c u.np) u
  unfolding handle_extremote
  handle_extremote-query title c u e = rw e refl
  handle_extremote-query artist c u e = rw e refl
  handle_extremote-query album c u e = rw e refl

  handle_extremote-sent :
      (k : Query) (c : RxCmd)
      → c.cmd ≡ asked k
      → let u = iap_set_track clock a t al s in
        handle_extremote clock c u
        ≡ tx_send clock lingo_extrem (asked k + 1) c.has_trx c.trx (sent_cstr (text k a t al)) u
  unfolding send_answer tx_respond
  handle_extremote-sent k c e =
      let u : Iap = iap_set_track clock a t al s in
      handle_extremote-query k c u e ∙ ap (λ r. send_answer clock c r u) (answered k c e)

  -- After iap_set_track, a query of the title, artist or album puts the string given, cut at 191
  -- bytes and closed by a 0, a null pointer as the empty string, on its way to the host in one
  -- command: a host that takes at least the first report of each of 24 calls of iap_tx_pump gets,
  -- behind what waited, reports that a receiver puts together to one frame, whose one packet has
  -- that command, and nothing waits any more. The queue is valid and has at most 14 reports before.
  pub query-Delivers :
      (k : Query) (c : RxCmd) (rounds : List (ℕ → Bool)) (old : List ℕ)
      → c.cmd ≡ asked k
      → IsValid (iap_set_track clock a t al s).txq
      → (iap_set_track clock a t al s).txq.count ≤ 14
      → All TakesOne rounds
      → txq_size ≤ length rounds
      → Delivers
          (contents (iap_set_track clock a t al s).txq)
          (command_bytes
            ((iap_set_track clock a t al s).trx.enabled && c.has_trx)
            lingo_extrem
            (asked k + 1)
            c.trx
            (sent_cstr (text k a t al)))
          old
          (tx_pump_rounds rounds (handle_extremote clock c (iap_set_track clock a t al s)))
  query-Delivers k c rounds old e v room all enough =
      let u : Iap = iap_set_track clock a t al s in
      let payload : List ℕ = sent_cstr (text k a t al) in
      let cmd : List ℕ =
        command_bytes (u.trx.enabled && c.has_trx) lingo_extrem (asked k + 1) c.trx payload in
      let short : length cmd ≢ 256 = omega (
        arith,
        command_bytes-le (u.trx.enabled && c.has_trx) lingo_extrem (asked k + 1) c.trx payload,
        length-sent_cstr (text k a t al),
      ) in
      subst (λ w. Delivers (contents u.txq) cmd old (tx_pump_rounds rounds w))
        (sym (handle_extremote-sent k c e))
        (tx_send-Delivers clock lingo_extrem (asked k + 1) c.has_trx c.trx payload u rounds old v
          room short all enough)
