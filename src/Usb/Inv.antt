-- ===== src/Usb/Inv.antt =====
-- The entry points of ipod_usb.c as a step relation, and what holds in every state that they reach.
use esp32_s3_car_adapter.Common.{
  ℕ, ◌/◌, ◌*◌, ◌≤◌, ◌<◌, ◌≡◌, refl, ◌⊎◌, inl, inr, arith, Bool, true, false, not, ◌||◌, List,
  Option, none, some, length, u16, take, length-take, Bool-cases, if_cases, if◌then◌else◌, ap, ◌∙◌,
  min,
}
use esp32_s3_car_adapter.Iap.State.{Iap}
use esp32_s3_car_adapter.Iap.Inv.{Step, Step-IsValid}
use esp32_s3_car_adapter.Usb.Ring.{Frame}
use esp32_s3_car_adapter.Usb.Batch.{Floats, Phases, produce_batch}
use esp32_s3_car_adapter.Usb.Batch.Bounds.{length-produce_batch}
use esp32_s3_car_adapter.Usb.Device.{
  Usb, Request, Tusb, with_iap, push_pcm, tud_mount_cb, tud_umount_cb, tud_audio_set_itf_cb,
  tud_suspend_cb, tud_resume_cb, tud_audio_set_req_ep_cb, tud_vendor_control_xfer_cb,
  tud_hid_set_report_cb, tud_descriptor_configuration_cb, tud_hid_report_complete_cb,
  ipod_usb_set_tone,
}
use esp32_s3_car_adapter.Usb.Attach.{at_boot, ipod_usb_init, task_start, audio_pump, task_round}
use esp32_s3_car_adapter.Usb.Inv.Defs.{IsSound, at_boot-IsSound, with_iap-IsSound}
use esp32_s3_car_adapter.Usb.Inv.Callbacks.{
  ipod_usb_set_tone-IsSound, report_complete-IsSound, push_pcm-IsSound, tud_mount_cb-IsSound,
  tud_umount_cb-IsSound, set_itf-IsSound, tud_suspend_cb-IsSound, tud_resume_cb-IsSound,
  set_req_ep-IsSound, set_report-IsSound, vendor-IsSound, config_descriptor-IsSound,
}
use esp32_s3_car_adapter.Usb.Inv.Start.{ipod_usb_init-IsSound, task_start-IsSound}
use esp32_s3_car_adapter.Usb.Inv.Attach.{task_round-IsSound}
pub mod Defs
pub mod Pcm
pub mod Callbacks
pub mod Start
pub mod Attach
pub mod Reports

-- One call: an entry point of ipod_usb.c, with any input, the start of the task, which happens once,
-- a round of its loop, or a call of the engine by the AirPlay side or the status page.
pub data UsbStep (fl : Floats) (clock : ℕ → ℕ) (tusb : Tusb) (s : Usb fl.F)
    : Usb fl.F → Type 0 where
  init :
      (serial : List ℕ) (allocated created : Bool)
      → UsbStep fl clock tusb s (ipod_usb_init serial allocated created s).1
  start :
      (delay_ms : ℕ) (phy : Bool)
      → s.retry_idx ≡ 0
      → UsbStep fl clock tusb s (task_start clock delay_ms phy s)
  round :
      (mounted mounted' : Bool) (accepts : ℕ → Bool)
      → UsbStep fl clock tusb s (task_round fl clock mounted mounted' accepts s)
  mount : UsbStep fl clock tusb s (tud_mount_cb clock s)
  umount : UsbStep fl clock tusb s (tud_umount_cb clock s)
  suspend : UsbStep fl clock tusb s (tud_suspend_cb clock s)
  resume : UsbStep fl clock tusb s (tud_resume_cb clock s)
  set_itf : (req : Request) → UsbStep fl clock tusb s (tud_audio_set_itf_cb clock req s)
  set_req_ep :
      (req : Request) (buff : List ℕ)
      → UsbStep fl clock tusb s (tud_audio_set_req_ep_cb clock tusb req buff s).1
  vendor_xfer :
      (status : Bool) (stage : ℕ) (req : Request)
      → UsbStep fl clock tusb s (tud_vendor_control_xfer_cb clock tusb status stage req s).1
  set_report :
      (report_id : ℕ) (buffer : List ℕ)
      → UsbStep fl clock tusb s (tud_hid_set_report_cb clock report_id buffer s)
  report_complete :
      (accepts : ℕ → Bool) → UsbStep fl clock tusb s (tud_hid_report_complete_cb accepts s).0
  config : (index : ℕ) → UsbStep fl clock tusb s (tud_descriptor_configuration_cb clock index s).1
  tone : (on : Bool) → UsbStep fl clock tusb s (ipod_usb_set_tone on s)
  pcm : (frames : List Frame) → UsbStep fl clock tusb s (push_pcm clock frames s)
  engine : {i : Iap} → Step clock s.audio.iap i → UsbStep fl clock tusb s (with_iap i s)

-- Any sequence of calls.
pub data UsbReach (fl : Floats) (clock : ℕ → ℕ) (tusb : Tusb) (s : Usb fl.F)
    : Usb fl.F → Type 0 where
  stay : UsbReach fl clock tusb s s
  go :
      {t u : Usb fl.F}
      → UsbReach fl clock tusb s t
      → UsbStep fl clock tusb t u
      → UsbReach fl clock tusb s u

module _ (fl : Floats) (clock : ℕ → ℕ) (tusb : Tusb) where
  UsbStep-IsSound : {s t : Usb fl.F} → IsSound s → UsbStep fl clock tusb s t → IsSound t
  UsbStep-IsSound v (init serial allocated created) =
      ipod_usb_init-IsSound serial allocated created v
  UsbStep-IsSound v (start delay_ms phy h) = task_start-IsSound clock delay_ms phy h v
  UsbStep-IsSound v (round mounted mounted' accepts) =
      task_round-IsSound fl clock mounted mounted' accepts v
  UsbStep-IsSound v mount = tud_mount_cb-IsSound clock v
  UsbStep-IsSound v umount = tud_umount_cb-IsSound clock v
  UsbStep-IsSound v suspend = tud_suspend_cb-IsSound clock v
  UsbStep-IsSound v resume = tud_resume_cb-IsSound clock v
  UsbStep-IsSound v (set_itf req) = set_itf-IsSound clock req v
  UsbStep-IsSound v (set_req_ep req buff) = set_req_ep-IsSound clock tusb req buff v
  UsbStep-IsSound v (vendor_xfer status stage req) = vendor-IsSound clock tusb status stage req v
  UsbStep-IsSound v (set_report report_id buffer) = set_report-IsSound clock report_id buffer v
  UsbStep-IsSound v (report_complete accepts) = report_complete-IsSound accepts v
  UsbStep-IsSound v (config index) = config_descriptor-IsSound clock index v
  UsbStep-IsSound v (tone on) = ipod_usb_set_tone-IsSound on v
  UsbStep-IsSound v (pcm frames) = push_pcm-IsSound clock frames v
  UsbStep-IsSound v (engine st) = with_iap-IsSound v (Step-IsValid clock v.engine st)

  -- From boot, after any calls of the device's and the engine's entry points in any order and with
  -- any input, the active rate is 44100 or 48000, the device was attached at most 7 times, counted
  -- by the retry index, a running stack at least once, the stack was told to connect or disconnect
  -- at most twice for each retry, a mounted host counts as seen, and the engine's own invariant
  -- holds.
  pub UsbReach-IsSound :
      (ph : Phases fl.F) {t : Usb fl.F} → UsbReach fl clock tusb (at_boot ph) t → IsSound t
  UsbReach-IsSound ph stay = at_boot-IsSound ph
  UsbReach-IsSound ph (go r st) = UsbStep-IsSound (UsbReach-IsSound ph r) st

  -- In every state that is reached from boot, the audio pump writes nothing while the stack is not
  -- mounted, the stream is closed or the bus suspended; else it writes exactly 10 ms at the active
  -- rate: a hundredth of the rate in frames, which is at most the 480 of the stage buffer.
  pub audio_pump-frames :
      (ph : Phases fl.F) {s : Usb fl.F} (mounted : Bool)
      → UsbReach fl clock tusb (at_boot ph) s
      → let closed = not mounted || (not s.audio_streaming || s.usb_suspended) in
        (closed ≡ true → (audio_pump fl clock mounted s).0 ≡ none)
        × (closed ≡ false
            → (b : List Frame) × ((audio_pump fl clock mounted s).0 ≡ some b)
              × (length b ≡ s.usb_rate / 100)
              × (length b ≤ 480))
  unfolding audio_pump
  audio_pump-frames ph {s} mounted r =
      let v = UsbReach-IsSound ph r in
      let b : List Frame = (produce_batch fl clock s.usb_rate s.audio s.phases).0 in
      let len : length b ≡ s.usb_rate / 100 =
        length-produce_batch fl clock s.usb_rate s.audio s.phases v.active in
      let n : ℕ = u16 (s.usb_rate / 100 * 4) / 4 in
      let whole : n ≡ s.usb_rate / 100 = fits v.active in
      (
        λ e. rw e refl,
        λ e. (
          take n b,
          rw e refl,
          omega (arith, len, whole, length-take n b),
          omega (arith, len, whole, length-take n b, small v.active),
        ),
      )
    where
      fits :
          (s.usb_rate ≡ 44100) ⊎ (s.usb_rate ≡ 48000)
          → u16 (s.usb_rate / 100 * 4) / 4 ≡ s.usb_rate / 100
      fits (inl e) = omega arith
      fits (inr e) = omega arith

      small : (s.usb_rate ≡ 44100) ⊎ (s.usb_rate ≡ 48000) → s.usb_rate / 100 ≤ 480
      small (inl e) = omega arith
      small (inr e) = omega arith
