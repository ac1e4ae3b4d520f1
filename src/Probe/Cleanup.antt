-- ===== src/Probe/Cleanup.antt =====
-- What the probe leaves behind, with a controller that does what its documentation says.
use esp32_s3_car_adapter.Common.{
  ℕ, ◌≡◌, refl, ◌∙◌, ◌⊎◌, inl, inr, Bool, true, false, ◌||◌, List, [], ◌∷◌, get_or, ◌==◌,
  if◌then◌else◌, Bool-cases, not,
}
use esp32_s3_car_adapter.Probe.{
  BtMode, ble, BtStatus, idle, inited, enabled, Controller, Operation, nvs_init, init, enable,
  disable, deinit, complete, Line, target, outcome, done, init_modes, enable_modes, run_deinit,
  run_disable, run_init, app_main,
}

-- Where a call leaves the controller: `moved` where it answers 0, else `kept`.
abbrev settle : ℕ → BtStatus → BtStatus → BtStatus
settle err moved kept = if err == 0 then moved else kept

-- The documented life of the controller: idle, initialised, enabled and back; a call that fails
-- leaves it where it is.
pub record IsDocumented (c : Controller) : Type 0 where
  pub init_law :
      (m : BtMode) (s : c.State)
      → c.get_status s ≡ idle
      → c.get_status (c.controller_init m s).1 ≡ settle (c.controller_init m s).0 inited idle
  pub enable_law :
      (m : BtMode) (s : c.State)
      → c.get_status s ≡ inited
      → c.get_status (c.controller_enable m s).1 ≡ settle (c.controller_enable m s).0 enabled inited
  pub disable_law :
      (s : c.State)
      → c.get_status s ≡ enabled
      → c.get_status (c.controller_disable s).1 ≡ settle (c.controller_disable s).0 inited enabled
  pub deinit_law :
      (s : c.State)
      → c.get_status s ≡ inited
      → c.get_status (c.controller_deinit s).1 ≡ settle (c.controller_deinit s).0 idle inited

-- The status in which the controller takes a call.
abbrev Allowed : Operation → BtStatus → Type 0
Allowed nvs_init st = Unit
Allowed init st = st ≡ idle
Allowed enable st = st ≡ inited
Allowed disable st = st ≡ enabled
Allowed deinit st = st ≡ inited

-- Each line follows from a call that the controller, which was in status `st`, takes; the last line
-- and no other is `done`.
abbrev pub IsLegal : BtStatus → List Line → Type 0
IsLegal st [] = ⊥
IsLegal st (target n m m' ∷ ls) = IsLegal st ls
IsLegal st (outcome op err st' ∷ ls) = Allowed op st × IsLegal st' ls
IsLegal st (done stage ∷ []) = Unit
IsLegal st (done stage ∷ l ∷ ls) = ⊥

-- A call that should undo another has failed.
abbrev pub undo_failed : List Line → Bool
undo_failed [] = false
undo_failed (outcome disable err st ∷ ls) = not (err == 0) || undo_failed ls
undo_failed (outcome deinit err st ∷ ls) = not (err == 0) || undo_failed ls
undo_failed (l ∷ ls) = undo_failed ls

abbrev IsClean : (c : Controller) → BtStatus → List Line × c.State → Type 0
IsClean c st (lines, t) = IsLegal st lines × ((c.get_status t ≡ idle) ⊎ (undo_failed lines ≡ true))

module _ (c : Controller) (d : IsDocumented c) where
  run_deinit-IsClean : (s : c.State) → c.get_status s ≡ inited → IsClean c inited (run_deinit c s)
  unfolding run_deinit
  run_deinit-IsClean s e = elim (Bool-cases ((c.controller_deinit s).0 == 0)) [
    | inl ok ↦ rw (run_deinit, e) ((refl, tt), inl (d.deinit_law s e ∙ rw ok refl))
    | inr failed ↦ rw (run_deinit, e) ((refl, tt), inr (rw failed refl))
  ]

  -- A controller that is not enabled any more, or never was.
  run_disable-initialised :
      (s : c.State) → c.get_status s ≡ inited → IsClean c inited (run_disable c s)
  unfolding run_disable
  run_disable-initialised s e = rw (run_disable, e) (run_deinit-IsClean s e)

  run_deinit-enabled :
      (s : c.State) → c.get_status s ≡ enabled → run_deinit c s ≡ (done complete ∷ [], s)
  unfolding run_deinit
  run_deinit-enabled s e = rw (run_deinit, e) refl

  run_disable-enabled :
      (s : c.State) → c.get_status s ≡ enabled → IsClean c enabled (run_disable c s)
  unfolding run_disable
  run_disable-enabled s e =
      let err : ℕ = (c.controller_disable s).0 in
      let s' : c.State = (c.controller_disable s).1 in
      elim (Bool-cases (err == 0)) [
        | inl ok ↦
            let off : c.get_status s' ≡ inited = d.disable_law s e ∙ rw ok refl in
            let (legal, over) = run_deinit-IsClean s' off in
            rw (run_disable, e) ((refl, rw off legal), rw ok over)
        | inr failed ↦
            let on : c.get_status s' ≡ enabled = d.disable_law s e ∙ rw failed refl in
            rw (run_disable, e) ((refl, rw (run_deinit-enabled s' on) tt), inr (rw failed refl))
      ]

  run_init-IsClean :
      (probe_case : ℕ) (s : c.State)
      → c.get_status s ≡ idle
      → IsClean c idle (run_init c probe_case s)
  unfolding run_init
  run_init-IsClean probe_case s e =
      let m : BtMode = get_or init_modes probe_case ble in
      let m' : BtMode = get_or enable_modes probe_case ble in
      let err : ℕ = (c.controller_init m s).0 in
      let s' : c.State = (c.controller_init m s).1 in
      let err' : ℕ = (c.controller_enable m' s').0 in
      let s'' : c.State = (c.controller_enable m' s').1 in
      elim (Bool-cases (err == 0)) [
        | inl ok ↦
            let set_up : c.get_status s' ≡ inited = d.init_law m s e ∙ rw ok refl in
            let (legal, over) = run_enabled s'' (err' == 0) (d.enable_law m' s' set_up) in
            rw ok ((refl, (set_up, legal)), over)
        | inr failed ↦
            let still : c.get_status s' ≡ idle = d.init_law m s e ∙ rw failed refl in
            rw failed ((refl, tt), inl still)
      ]
    where
      run_enabled :
          (t : c.State) (on : Bool)
          → c.get_status t ≡ (if on then enabled else inited)
          → IsClean c (c.get_status t) (run_disable c t)
      run_enabled t true h = rw h (run_disable-enabled t h)
      run_enabled t false h = rw h (run_disable-initialised t h)

-- From an idle controller that behaves as documented, in every case and whatever the flash and the
-- controller answer, the probe calls each operation only in a status in which the controller takes
-- it, prints its last line and no other as done, and leaves the controller idle, unless it has
-- printed that a disable or a deinit failed.
pub app_main-IsClean :
    (c : Controller)
    → IsDocumented c
    → (probe_case nvs : ℕ) (s : c.State) → c.get_status s ≡ idle
    → IsLegal idle (app_main c probe_case nvs s).0
      × ((c.get_status (app_main c probe_case nvs s).1 ≡ idle)
          ⊎ (undo_failed (app_main c probe_case nvs s).0 ≡ true))
unfolding app_main
app_main-IsClean c d probe_case nvs s e = elim (Bool-cases (nvs == 0)) [
  | inl ok ↦
      let (legal, over) = run_init-IsClean c d probe_case s e in rw ok ((tt, rw e legal), over)
  | inr failed ↦ rw failed ((tt, tt), inl e)
]
