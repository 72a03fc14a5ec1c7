-- ===== src/Driver/Lifecycle/Examples.antt =====
-- Concrete runs of the driver's lifecycle: one card, one adapter and one pass of probing.
use astral_hwmon.Base.{
  ℕ, ◌≤◌, ◌≡◌, refl, ◌↔◌, inl, inr, true, false, ◌&&◌, none, some, List, [], ◌∷◌, ◌==◌, arith,
  count, Any,
}
use astral_hwmon.Base.Int.{ℤ, pos, negsuc}
use astral_hwmon.Base.Text.{codes}
use astral_hwmon.Base.Scan.{read_digits}
use astral_hwmon.Base.Sscanf.{sscanf_d, skip_blanks, scan_d, read_minus}
use astral_hwmon.Driver.Regs.{ok}
use astral_hwmon.Driver.Detect.{
  Adapter, pci, not_pci, PciDev, PciBus, card_matches, is_sensor_adapter,
}
use astral_hwmon.Driver.Detect.Gate.{IsAllowed, Enumerates}
use astral_hwmon.Driver.Probe.{adapter_selected, I2cDev, adapter, other, empty_ctx, walk}
use astral_hwmon.Driver.Probe.First.{first_eligible, of_card, walk-first_eligible, walk-none}
use astral_hwmon.Driver.Lifecycle.{
  idle, State, claimed, holding, created, published, settling, initial, worker, loaded, move, claim,
  create, publish, attach_result, settle, passes, init, exit,
}
use astral_hwmon.Driver.Lifecycle.Leaks.{exit-NoLeak}
use astral_hwmon.Driver.Lifecycle.Dangling.{Reach-alive}
use astral_hwmon.Driver.Lifecycle.Steps.{
  Reach, first_pass, begin, then_step, get, attach, publish_client, finish, release,
}
use astral_hwmon.Driver.Lifecycle.Safety.{active}
use astral_hwmon.Driver.Lifecycle.Reached.{Reach-exclusive, Reach-IsAllowed}
use astral_hwmon.Driver.Lifecycle.Retry.{
  Failure, none_chosen, attach_failed, failing_passes, IsDue, IsOver, failing_passes-IsOver,
}
use astral_hwmon.Driver.Lifecycle.Init.{init-stays_iff}

abbrev astral_card : PciDev
astral_card = record { vendor = 0x10de; subsystem_vendor = 0x1043; subsystem_device = 0x89e3 }

abbrev first_adapter : Adapter
first_adapter = record {
  id = 3;
  name = codes "NVIDIA i2c adapter 1 at 1:00.0";
  parent = pci astral_card;
}

abbrev display_adapter : Adapter
display_adapter = record {
  id = 2;
  name = codes "NVIDIA i2c adapter 10 at 1:00.0";
  parent = pci astral_card;
}

abbrev foreign_adapter : Adapter
foreign_adapter = record { id = 0; name = codes "NVIDIA i2c adapter 1 at 1:00.0"; parent = not_pci }

abbrev devices : List I2cDev
devices = adapter foreign_adapter ∷ other ∷ adapter display_adapter ∷ adapter first_adapter ∷ []

abbrev automatic : ℤ
automatic = negsuc 0

devices_choice : first_eligible automatic false devices ≡ some 3
unfolding card_matches adapter_selected is_sensor_adapter sscanf_d skip_blanks scan_d read_minus
    read_digits
devices_choice = refl

walk_example :
    (walk automatic false empty_ctx devices).adapter_id ≡ first_eligible automatic false devices
walk_example = walk-first_eligible automatic false devices

display_only : first_eligible automatic false (adapter display_adapter ∷ []) ≡ none
unfolding card_matches adapter_selected is_sensor_adapter sscanf_d skip_blanks scan_d read_minus
    read_digits
display_only = refl

waiting_example :
    ((walk automatic false empty_ctx (adapter display_adapter ∷ [])).card_adapters
      ≡ count (of_card automatic false) (adapter display_adapter ∷ []))
    × ((walk automatic false empty_ctx (adapter display_adapter ∷ [])).candidates ≡ 0)
waiting_example = walk-none automatic false (adapter display_adapter ∷ []) display_only

first_passes : passes automatic false first_adapter ≡ true
unfolding passes card_matches adapter_selected is_sensor_adapter sscanf_d skip_blanks scan_d
    read_minus read_digits
first_passes = refl

-- Module init claims, finds the adapter, makes the client and publishes it.
abbrev got : State
got = move initial (holding first_adapter 0) (claim initial loaded)

abbrev made : State
made = create initial first_adapter got

abbrev shown : State
shown = publish initial first_adapter 0 made

claimed_first : (claim initial loaded).phase initial ≡ claimed 0
unfolding claim
claimed_first = refl

created_first : made.phase initial ≡ created first_adapter 0
unfolding create claim
created_first = refl

abbrev shown-Reach : Reach automatic false shown
shown-Reach =
    then_step
      (then_step
        (then_step (then_step begin (first_pass refl)) (get initial first_adapter claimed_first))
        (attach initial {n = 0} refl first_passes))
      (publish_client initial created_first)

shown_client : shown.client ≡ some 0
unfolding publish
shown_client = refl

shown_phase : shown.phase initial ≡ published first_adapter 0
unfolding publish
shown_phase = refl

shown_active : active (shown.phase initial) ≡ true
unfolding publish
shown_active = refl

alive_example : shown.live 0 ≡ true
alive_example = Reach-alive automatic false shown-Reach ((((tt, tt), tt), tt), tt) 0 shown_client

exclusive_example : active (shown.phase worker) ≡ false
exclusive_example = Reach-exclusive automatic false shown-Reach shown_active

gated_example :
    IsAllowed false (pci astral_card) × (adapter_selected automatic first_adapter ≡ true)
gated_example = Reach-IsAllowed automatic false shown-Reach initial first_adapter 0 shown_phase

-- The chip answers, and the pass ends with the client.
abbrev answered : State
answered = move initial (attach_result true true 0 true 0) shown

abbrev settled_state : State
settled_state = settle initial (some 0) answered

answered_phase : answered.phase initial ≡ settling (some 0)
unfolding attach_result
answered_phase = refl

settled-Reach : Reach automatic false settled_state
settled-Reach =
    then_step (then_step shown-Reach (finish initial true true 0 true shown_phase))
      (release initial answered_phase)

settled_init : active (settled_state.phase initial) ≡ false
unfolding settle
settled_init = refl

settled_worker : active (settled_state.phase worker) ≡ false
unfolding settle publish create claim
settled_worker = refl

exit_example :
    ((exit settled_state).client ≡ none) × ((c : ℕ) → (exit settled_state).live c ≡ false)
exit_example = exit-NoLeak automatic false settled-Reach settled_init settled_worker

-- The hwmon core refuses the device, and the attach gives up.
abbrev refused_state : State
refused_state = move initial (attach_result true true 0 false 0) shown

-- After init's own pass has failed, no adapter is there, then the chip does not answer.
abbrev init_failed : State
init_failed = record (move initial idle loaded) { attempts = 1; pending = true }

abbrev silent_chip : Failure
silent_chip = attach_failed first_adapter true true 5 true

init_failed-IsDue : IsDue automatic false init_failed 1
init_failed-IsDue = record {
  client = refl;
  claiming = refl;
  attempts = refl;
  pending = refl;
  resting = refl;
}

retry_example :
    IsOver automatic false init_failed
      (failing_passes (none_chosen ∷ (silent_chip ∷ [])) init_failed)
      3
retry_example =
    failing_passes-IsOver automatic false none_chosen (silent_chip ∷ []) init_failed 1
      init_failed-IsDue _ ((first_passes, (λ h. omega (arith, h.2))), tt) (omega arith)

-- A machine with this one card.
abbrev card_bus : PciBus
card_bus = record {
  get_subsys = λ vendor sv sd. 0x10de == vendor && (sv == 0x1043 && sd == 0x89e3);
  get_device = λ vendor. 0x10de == vendor;
}

card_bus-Enumerates : Enumerates card_bus (astral_card ∷ [])
card_bus-Enumerates = record {
  subsys = λ vendor sv sd h k l. (
    (λ h. inl (ground arith)),
    (λ h. elim h [ inl e ↦ ground arith | inr none_there ↦ absurd none_there ]),
  );
  device = λ vendor h. (
    (λ h. inl (ground arith)),
    (λ h. elim h [ inl e ↦ ground arith | inr none_there ↦ absurd none_there ]),
  );
}

abbrev fine : ℕ
fine = 0

stays_example : (init card_bus false (pos 0x2b) fine ≡ ok loaded) ↔ (
    ((n : ℕ) × (pos 0x2b ≡ pos n) × (8 ≤ n) × (n ≤ 119))
    × Any (λ d. IsAllowed false (pci d)) (astral_card ∷ [])
    × (fine ≡ 0))
stays_example = init-stays_iff card_bus (astral_card ∷ []) card_bus-Enumerates false (pos 0x2b) fine
