-- ===== src/Iap/Extremote/Replies.antt =====
-- What the car is answered: the numbering of the answers, and the metadata of the track.
use esp32_s3_car_adapter.Common.{
  ℕ, ◌+◌, ◌<◌, ◌≡◌, ◌⊎◌, List, [], ◌∷◌, ◌++◌, Option, none, some, arith, inl, inr,
}
use esp32_s3_car_adapter.Common.{length, take, length-take}
use esp32_s3_car_adapter.Iap.Command.{RxCmd, put_cstr}
use esp32_s3_car_adapter.Iap.Command.Buffer.{put_bytes-room, put_u8-room}
use esp32_s3_car_adapter.Iap.State.{Iap, NowPlaying, tx_notify, tx_send}
use esp32_s3_car_adapter.Iap.Live.{copy_cstr, iap_set_track}
use esp32_s3_car_adapter.Iap.Extremote.{
  Answer, reply, track_info, answer_browse, answer_player, extremote_answer,
}

answer_player-cmd :
    (cmd : ℕ) (np : NowPlaying) (resp : ℕ) (r : List ℕ)
    → answer_player cmd np ≡ reply resp r
    → resp ≡ cmd + 1
unfolding answer_player
answer_player-cmd cmd np resp r e = ground arith

answer_browse-cmd :
    (cmd : ℕ) (p : List ℕ) (after : Answer) (resp : ℕ) (r : List ℕ)
    → answer_browse cmd p after ≡ reply resp r
    → (resp ≡ cmd + 1) ⊎ (after ≡ reply resp r)
unfolding answer_browse track_info
answer_browse-cmd cmd p after resp r e = ground arith

-- Data that the ExtendedRemote tables answer goes back under the number after that of the request.
pub extremote_answer-cmd :
    (c : RxCmd) (np : NowPlaying) (resp : ℕ) (r : List ℕ)
    → extremote_answer c np ≡ reply resp r
    → resp ≡ c.cmd + 1
unfolding extremote_answer
extremote_answer-cmd c np resp r e =
    elim (answer_browse-cmd c.cmd c.p (answer_player c.cmd np) resp r e) [
      | inl h ↦ h
      | inr h ↦ answer_player-cmd c.cmd np resp r h
    ]

-- A C string of the source as the car gets it.
abbrev pub sent_cstr : Option (List ℕ) → List ℕ
sent_cstr none = 0 ∷ []
sent_cstr (some s) = take 191 s ++ 0 ∷ []

put_cstr-room : (s : List ℕ) → length s < 512 → put_cstr [] s ≡ s ++ 0 ∷ []
unfolding put_cstr
put_cstr-room s h = rw (put_bytes-room [] s (omega arith)) (put_u8-room s 0 h)

put_cstr-copy : (s : Option (List ℕ)) → put_cstr [] (copy_cstr 192 s) ≡ sent_cstr s
unfolding copy_cstr
put_cstr-copy none = put_cstr-room [] (omega arith)
put_cstr-copy (some s) = put_cstr-room (take 191 s) (omega (arith, length-take 191 s))

-- After iap_set_track the title, artist and album queries are answered with the strings given, cut
-- at 191 bytes and closed by a 0, a null pointer as the empty string.
pub extremote_answer-iap_set_track :
    (clock : ℕ → ℕ) (artist title album : Option (List ℕ)) (s : Iap) (c : RxCmd)
    → let np = (iap_set_track clock artist title album s).np in
      (c.cmd ≡ 0x20 → extremote_answer c np ≡ reply 0x21 (sent_cstr title))
      × (c.cmd ≡ 0x22 → extremote_answer c np ≡ reply 0x23 (sent_cstr artist))
      × (c.cmd ≡ 0x24 → extremote_answer c np ≡ reply 0x25 (sent_cstr album))
unfolding iap_set_track tx_notify tx_send extremote_answer answer_browse answer_player
extremote_answer-iap_set_track clock artist title album s c = (
  λ h. ground (arith, put_cstr-copy title),
  λ h. ground (arith, put_cstr-copy artist),
  λ h. ground (arith, put_cstr-copy album),
)
