-- ===== src/Pages/Bounds.antt =====
-- The status page in every state that the entry points of the program reach: its length.
use esp32_s3_car_adapter.Common.{
  ℕ, ◌+◌, ◌-◌, ◌≤◌, ◌<◌, ◌≡◌, refl, true, false, List, [], ◌++◌, arith, none, some, length,
  take_all, length-append, ltb,
}
use esp32_s3_car_adapter.Iap.Live.{iap_snapshot, Snapshot}
use esp32_s3_car_adapter.Iap.State.{Iap}
use esp32_s3_car_adapter.Usb.Batch.{Floats}
use esp32_s3_car_adapter.Usb.Device.{Tusb}
use esp32_s3_car_adapter.Usb.Log.{LogRing}
use esp32_s3_car_adapter.Usb.Log.Refine.{
  read_iap_log_refines, unlines, fitting, recent, length-fitting,
}
use esp32_s3_car_adapter.Usb.Status.{Status, ipod_usb_get_status}
use esp32_s3_car_adapter.Airplay.{Player}
use esp32_s3_car_adapter.Pages.{status_pieces, status_text, status_handler, response_sz}
use esp32_s3_car_adapter.Pages.Reach.{PlayerReach, Fits, length-copy_cstr, PlayerReach-Fits}
use esp32_s3_car_adapter.Pages.Text.{printf, length-printf, render, weight}

length-state : (i : Iap) → length (iap_snapshot i).state ≤ 15
unfolding iap_snapshot
length-state i = length-copy_cstr 16 _

weight-status_pieces :
    (name : List ℕ) (psram count bytes nonzero callbacks : ℕ) (a t : List ℕ) (usb : Status)
    (iap : Snapshot)
    → weight (status_pieces name psram count bytes nonzero callbacks a t usb iap)
      ≤ 1100 + length name + length a + length t + length iap.state
weight-status_pieces name psram count bytes nonzero callbacks a t usb iap = omega arith

module _ {F : Type 0} (name : List ℕ) (psram : ℕ) where
  length-status_text :
      (s : Player F)
      → length name ≤ 1000
      → Fits s
      → length (printf (status_text name psram s)) < 4096
  length-status_text s h v =
      let usb = ipod_usb_get_status s.usb in
      let iap = iap_snapshot s.usb.audio.iap in
      omega (
        arith,
        length-printf (status_text name psram s),
        weight-status_pieces name psram s.sessions s.pcm_bytes s.pcm_nonzero s.pcm_callbacks
            s.artist s.title usb iap,
        length-state s.usb.audio.iap,
        v.0,
        v.1,
      )

-- The page has all of its fields and as many of the recent log lines as fit, oldest first, and has room for a closing 0.
pub record IsWhole {F : Type 0} (name : List ℕ) (psram : ℕ) (r : LogRing) (s : Player F)
    : Type 0 where
  head_fits : length (printf (status_text name psram s)) < response_sz
  page : List ℕ
  sent : status_handler name psram true r s ≡ some page
  parts :
      page
      ≡ printf (status_text name psram s)
        ++ unlines (fitting (response_sz - length (printf (status_text name psram s))) (recent r))
  page_fits : length page < response_sz

module _ {F : Type 0} (name : List ℕ) (psram : ℕ) where
  status_text-positive : (s : Player F) → 0 < length (printf (status_text name psram s))
  unfolding printf render
  status_text-positive s = omega (arith, length-append name _)

  status_handler-sent :
      (r : LogRing) (s : Player F)
      → length (printf (status_text name psram s)) < response_sz
      → status_handler name psram true r s
        ≡ some (
            printf (status_text name psram s)
            ++ unlines
                (fitting (response_sz - length (printf (status_text name psram s))) (recent r)))
  unfolding status_handler
  status_handler-sent r s h =
      let text : List ℕ = printf (status_text name psram s) in
      let some_text : ltb 0 (length text) ≡ true = ground (arith, status_text-positive s) in
      let fits : ltb (length text) 4096 ≡ true = ground arith in
      rw
        (
          some_text,
          fits,
          take_all 4095 text (omega arith),
          (read_iap_log_refines (response_sz - length text) r).0,
        )
        refl

  status_handler-IsWhole :
      (r : LogRing) (s : Player F) → length name ≤ 1000 → Fits s → IsWhole name psram r s
  status_handler-IsWhole r s h v =
      let text : List ℕ = printf (status_text name psram s) in
      let room : ℕ = response_sz - length text in
      let less : length text < response_sz = length-status_text name psram s h v in
      record {
        head_fits = less;
        page = text ++ unlines (fitting room (recent r));
        sent = status_handler-sent r s less;
        parts = refl;
        page_fits = omega (
          arith,
          length-append text (unlines (fitting room (recent r))),
          length-fitting room (recent r),
        );
      }

-- In every state that is reached from empty strings by blocks of audio, AirPlay events, the tone
-- page and the device's own calls, with a name of at most 1000 bytes, the status page is refused
-- where there is no memory for it; else no field of it is cut: it is the whole text, then as many
-- of the recent log lines as fit, oldest first, and shorter than its buffer of 4096 bytes.
pub status_page-IsWhole :
    (fl : Floats) (clock : ℕ → ℕ) (tusb : Tusb) (name : List ℕ) (psram : ℕ) (r : LogRing)
    {s t : Player fl.F}
    → length name ≤ 1000
    → s.artist ≡ []
    → s.title ≡ []
    → PlayerReach fl clock tusb s t
    → (status_handler name psram false r t ≡ none) × IsWhole name psram r t
unfolding status_handler
status_page-IsWhole fl clock tusb name psram r {s} {t} h ea et reach =
    let at_start : Fits s = (rw ea (omega arith), rw et (omega arith)) in
    (refl, status_handler-IsWhole name psram r t h (PlayerReach-Fits fl clock tusb at_start reach))
