-- ===== src/Probe.antt =====
-- The controller probe, controller-probe/main/probe.c: which modes of the Bluetooth controller an
-- ESP32-S3 accepts. The controller of ESP-IDF is a parameter.
use esp32_s3_car_adapter.Common.{ℕ, Bool, true, false, List, [], ◌∷◌, get_or, ◌==◌, if◌then◌else◌}
pub mod Cleanup
mod Runs

-- `esp_bt_mode_t`, the modes that the probe tries.
pub data BtMode : Type 0 where
  ble classic_bt btdm : BtMode

-- `esp_bt_controller_status_t`; `num` stands for any value beside those that the probe compares
-- with.
pub data BtStatus : Type 0 where
  idle inited enabled num : BtStatus

-- The controller: a call gives an `esp_err_t`, of which 0 is `ESP_OK`, and the next state.
pub record Controller : Type 1 where
  pub State : Type 0
  pub get_status : State → BtStatus
  pub controller_init : BtMode → State → ℕ × State
  pub controller_enable : BtMode → State → ℕ × State
  pub controller_disable : State → ℕ × State
  pub controller_deinit : State → ℕ × State

-- The names of the operations and of the stages as they are printed.
pub data Operation : Type 0 where
  nvs_init init enable disable deinit : Operation

pub data Stage : Type 0 where
  nvs_failure init_failure complete : Stage

-- A printed line, by its fields.
pub data Line : Type 0 where
  target : ℕ → BtMode → BtMode → Line
  outcome : Operation → ℕ → BtStatus → Line
  done : Stage → Line

-- The tables have the cases 0 to 4, which are all that the build takes for `PROBE_CASE`.
abbrev pub init_modes : List BtMode
init_modes = ble ∷ classic_bt ∷ btdm ∷ ble ∷ ble ∷ []

abbrev pub enable_modes : List BtMode
enable_modes = ble ∷ classic_bt ∷ btdm ∷ classic_bt ∷ btdm ∷ []

module _ (c : Controller) where
  abbrev pub result : Operation → ℕ → c.State → Line
  result op err s = outcome op err (c.get_status s)

  -- From `esp_bt_controller_deinit` on.
  unfoldable pub run_deinit : c.State → List Line × c.State
  run_deinit s = elim (c.get_status s) [
    | inited ↦
        let (err, s') = c.controller_deinit s in (result deinit err s' ∷ done complete ∷ [], s')
    | _ ↦ (done complete ∷ [], s)
  ]

  -- From `esp_bt_controller_disable` on.
  unfoldable pub run_disable : c.State → List Line × c.State
  run_disable s = elim (c.get_status s) [
    | enabled ↦
        let (err, s') = c.controller_disable s in
        let (lines, t) = run_deinit s' in (result disable err s' ∷ lines, t)
    | _ ↦ run_deinit s
  ]

  -- From `esp_bt_controller_init` on.
  unfoldable pub run_init : ℕ → c.State → List Line × c.State
  run_init probe_case s =
      let (err, s') = c.controller_init (get_or init_modes probe_case ble) s in
      let (err', s'') = c.controller_enable (get_or enable_modes probe_case ble) s' in
      let (lines, t) = run_disable s'' in
      if err == 0
      then (result init err s' ∷ result enable err' s'' ∷ lines, t)
      else (result init err s' ∷ done init_failure ∷ [], s')

  -- `nvs` is the answer of `nvs_flash_init`. The lines that are printed, and the controller behind
  -- the run.
  unfoldable pub app_main : ℕ → ℕ → c.State → List Line × c.State
  app_main probe_case nvs s =
      let start =
        target probe_case (get_or init_modes probe_case ble) (get_or enable_modes probe_case ble) in
      let (lines, t) = run_init probe_case s in
      if nvs == 0
      then (start ∷ result nvs_init nvs s ∷ lines, t)
      else (start ∷ result nvs_init nvs s ∷ done nvs_failure ∷ [], s)
