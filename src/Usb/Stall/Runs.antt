-- ===== src/Usb/Stall/Runs.antt =====
-- A host that is silent after IdentifyDeviceLingoes, and two rounds.
use esp32_s3_car_adapter.Common.{◌+◌, ◌≡◌, refl, arith, true, false, [], ◌∷◌}
use esp32_s3_car_adapter.Iap.Types.{identified}
use esp32_s3_car_adapter.Iap.State.{Iap, initial}
use esp32_s3_car_adapter.Iap.Live.{is_settled}
use esp32_s3_car_adapter.Usb.Device.{with_iap}
use esp32_s3_car_adapter.Usb.Exchange.{Round, task_rounds}
use esp32_s3_car_adapter.Usb.Stall.{stalls, IsSilent, task_rounds-stalls}
use esp32_s3_car_adapter.Usb.Runs.{seconds, whole_floats, waiting, waiting-ready}

abbrev quiet_host : Iap
quiet_host = record initial {
  handshake = record (initial.handshake) { state = identified };
  last_rx_us = 1;
  reads = 5000;
}

quiet_host-IsSilent : IsSilent seconds quiet_host
unfolding is_settled
quiet_host-IsSilent = record {
  begun = refl;
  unlogged = refl;
  heard = omega arith;
  silent = λ k from. omega (arith, from);
}

abbrev quiet_round : Round
quiet_round = record { mounted = true; mounted' = true; accepts = λ k. false }

task_rounds-stalls_example :
    stalls
      (task_rounds whole_floats seconds
        (quiet_round ∷ quiet_round ∷ [])
        (with_iap quiet_host waiting)).0.audio.iap.log
    ≡ 1 + stalls quiet_host.log
unfolding with_iap
task_rounds-stalls_example =
    task_rounds-stalls seconds whole_floats quiet_round (quiet_round ∷ [])
      (with_iap quiet_host waiting) waiting-ready quiet_host-IsSilent
