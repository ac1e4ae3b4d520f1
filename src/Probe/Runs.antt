-- ===== src/Probe/Runs.antt =====
-- The probe of case 3 with a controller that enables in its own mode only.
use esp32_s3_car_adapter.Common.{ℕ, ◌≡◌, refl, ◌⊎◌, ◌==◌, if◌then◌else◌, true}
use esp32_s3_car_adapter.Probe.{
  BtMode, ble, classic_bt, btdm, BtStatus, idle, inited, enabled, num, Controller, app_main,
}
use esp32_s3_car_adapter.Probe.Cleanup.{IsDocumented, IsLegal, undo_failed, app_main-IsClean}

-- A BLE controller as its status: 259 is `ESP_ERR_INVALID_STATE`, 258 is `ESP_ERR_INVALID_ARG`.
abbrev set_up : BtMode → BtStatus → ℕ × BtStatus
set_up m idle = (0, inited)
set_up m inited = (259, inited)
set_up m enabled = (259, enabled)
set_up m num = (259, num)

abbrev turn_on : BtMode → BtStatus → ℕ × BtStatus
turn_on ble inited = (0, enabled)
turn_on classic_bt inited = (258, inited)
turn_on btdm inited = (258, inited)
turn_on m idle = (259, idle)
turn_on m enabled = (259, enabled)
turn_on m num = (259, num)

abbrev turn_off : BtStatus → ℕ × BtStatus
turn_off enabled = (0, inited)
turn_off idle = (259, idle)
turn_off inited = (259, inited)
turn_off num = (259, num)

abbrev give_back : BtStatus → ℕ × BtStatus
give_back inited = (0, idle)
give_back idle = (259, idle)
give_back enabled = (259, enabled)
give_back num = (259, num)

abbrev ble_only : Controller
ble_only = record {
  State = BtStatus;
  get_status = λ s. s;
  controller_init = set_up;
  controller_enable = turn_on;
  controller_disable = turn_off;
  controller_deinit = give_back;
}

ble_only-IsDocumented : IsDocumented ble_only
ble_only-IsDocumented = record {
  init_law = λ m s e. rw e refl;
  enable_law = enabling;
  disable_law = λ s e. rw e refl;
  deinit_law = λ s e. rw e refl;
}
  where
    enabling :
        (m : BtMode) (s : BtStatus)
        → s ≡ inited
        → (turn_on m s).1 ≡ (if (turn_on m s).0 == 0 then enabled else inited)
    enabling ble s e = rw e refl
    enabling classic_bt s e = rw e refl
    enabling btdm s e = rw e refl

app_main-IsClean_example :
    IsLegal idle (app_main ble_only 3 0 idle).0
    × (((app_main ble_only 3 0 idle).1 ≡ idle)
        ⊎ (undo_failed (app_main ble_only 3 0 idle).0 ≡ true))
app_main-IsClean_example = app_main-IsClean ble_only ble_only-IsDocumented 3 0 idle refl
