-- ===== src/Driver/Lifecycle.antt =====
-- driver/astral_hwmon.c: attaching, the notifier, the retry worker, init and exit, at the grain of
-- `astral_lock`: each section under the lock, and each call that may block, is one step, where the
-- allocations, the first read and the registration of an attach are taken together; the steps of the
-- threads interleave (Driver/Lifecycle/Steps). A client is a number, given in the order
-- in which clients are made. Log messages are not modelled.
pub mod Steps
pub mod Safety
pub mod Preserved
pub mod Reached
pub mod Attach
pub mod Leaks
pub mod Alive
pub mod Dangling
pub mod Vanished
pub mod Retry
pub mod Init
pub mod Examples
use astral_hwmon.Base.{
  ℕ, suc, Bool, true, false, ◌&&◌, ◌||◌, not, Option, none, some, ltb, ◌==◌, if◌then◌else◌,
}
use astral_hwmon.Base.Int.{ℤ, pos, negsuc}
use astral_hwmon.Driver.Detect.{Adapter, PciBus, card_matches, card_present}
use astral_hwmon.Driver.Probe.{adapter_selected, gated}
use astral_hwmon.Driver.Regs.{Result, ok, err}
use astral_hwmon.Driver.Cache.{einval}

abbrev pub astral_retry_limit : ℕ
astral_retry_limit = 15

abbrev pub enodev : ℕ
enodev = 19

-- Where a thread stands in `astral_probe_once`, and after it in `astral_init` or `astral_probe_worker`.
pub data Phase : Type 0 where
  idle : Phase
  starting : Phase  -- module init, with the notifier registered, before its own pass
  claimed : (attempt : ℕ) → Phase  -- the claim is made; next are the walk and i2c_get_adapter
  holding : Adapter → (attempt : ℕ) → Phase  -- with a reference to the adapter
  created : Adapter → (client : ℕ) → Phase  -- in astral_attach, before the client is published
  published : Adapter → (client : ℕ) → Phase  -- the chip is read and hwmon registered
  withdrawing : (client : ℕ) → Phase  -- err_unregister, before the lock
  withdrawn : (client : ℕ) → Phase  -- before i2c_unregister_device
  settling : Option ℕ → Phase  -- after the attach, with its result
  checking : Phase  -- after astral_probe_once, before astral_attached
  judging : Phase  -- the worker found no client

-- The threads that probe: module init and the one worker.
pub data Thread : Type 0 where
  initial worker : Thread

pub record State : Type 0 where
  pub client : Option ℕ  -- astral_client
  pub claiming : Bool
  pub attempts : ℕ
  pub stage_reported : Bool
  pub pending : Bool  -- astral_probe_work is scheduled
  pub live : ℕ → Bool  -- which clients exist
  pub next : ℕ  -- the next client to be made
  pub phase : Thread → Phase

abbrev pub same_thread : Thread → Thread → Bool
same_thread initial initial = true
same_thread worker worker = true
same_thread _ _ = false

abbrev pub move : Thread → Phase → State → State
move t p s = record s { phase = λ u. if same_thread t u then p else s.phase u }

abbrev pub set_live : ℕ → Bool → State → State
set_live c b s = record s { live = λ d. if c == d then b else s.live d }

abbrev pub is_some : Option ℕ → Bool
is_some none = false
is_some (some c) = true

abbrev pub is_client : Option ℕ → ℕ → Bool
is_client none c = false
is_client (some d) c = d == c

-- The first section of `astral_probe_once`: return at once, or claim.
unfoldable pub claim : Thread → State → State
claim t s =
    if is_some s.client || s.claiming
    then move t checking s
    else move t (claimed s.attempts) (record s { claiming = true })

-- The gate is checked again on the adapter that the reference is to.
unfoldable pub passes : ℤ → Bool → Adapter → Bool
passes bus allow_unknown adap = gated (card_matches adap allow_unknown) && adapter_selected bus adap

-- `i2c_new_client_device` succeeds, and gives a client that is alive.
unfoldable pub create : Thread → Adapter → State → State
create t adap s =
    move t (created adap s.next) (set_live s.next true (record s { next = suc s.next }))

-- `astral_client = client`
unfoldable pub publish : Thread → Adapter → ℕ → State → State
publish t adap c s = move t (published adap c) (record s { client = some c })

-- The rest of `astral_attach`: whether the allocations succeed, what the refresh returns, and whether
-- hwmon registers the device.
unfoldable pub attach_result : Bool → Bool → ℕ → Bool → ℕ → Phase
attach_result zalloc mutex_init ret registered c =
    if not zalloc
    then withdrawing c
    else if not mutex_init
    then withdrawing c
    else if not (ret == 0)
    then withdrawing c
    else if not registered
    then withdrawing c
    else settling (some c)

-- `if (astral_client == client) astral_client = NULL;`
abbrev pub forget : ℕ → State → State
forget c s = record s { client = if is_client s.client c then none else s.client }

unfoldable pub withdraw : Thread → ℕ → State → State
withdraw t c s = move t (withdrawn c) (forget c s)

unfoldable pub unregister : Thread → ℕ → State → State
unregister t c s = move t (settling none) (set_live c false s)

-- The last section of `astral_probe_once`.
unfoldable pub settle : Thread → Option ℕ → State → State
settle t client s = move t checking (record s {
  claiming = false;
  attempts = if is_some client then s.attempts else suc s.attempts;
})

-- `astral_init` schedules the worker if it is not `astral_attached`.
unfoldable pub check_init : State → State
check_init s = move initial idle (if is_some s.client then s else record s { pending = true })

-- `astral_probe_worker` ends if it is `astral_attached`.
unfoldable pub check_worker : State → State
check_worker s = move worker (if is_some s.client then idle else judging) s

-- The rest of the worker: try again, or give up.
unfoldable pub judge : State → State
judge s = move worker idle (record s {
  stage_reported = true;
  pending = if ltb s.attempts astral_retry_limit then true else s.pending;
})

-- BUS_NOTIFY_ADD_DEVICE of an adapter; that of a client is ignored.
unfoldable pub notify_add : Bool → Adapter → State → State
notify_add allow_unknown adap s =
    if not (gated (card_matches adap allow_unknown))
    then s
    else if is_some s.client
    then s
    else record s { attempts = 0; stage_reported = false; pending = true }

-- BUS_NOTIFY_DEL_DEVICE of a client, and the end of the client.
unfoldable pub notify_del : ℕ → State → State
notify_del c s = set_live c false (forget c s)

abbrev pub at_start : Thread → Phase
at_start initial = starting
at_start worker = idle

-- The start of the module: no client, no claim, no work, one thread in `astral_init`.
abbrev pub loaded : State
loaded = record {
  client = none;
  claiming = false;
  attempts = 0;
  stage_reported = false;
  pending = false;
  live = λ c. false;
  next = 0;
  phase = at_start;
}

-- `astral_init` up to the probe: an errno, or the state in which the first pass starts. `registered`
-- is what bus_register_notifier returns.
unfoldable pub init : PciBus → Bool → ℤ → ℕ → Result State
init bus allow_unknown (negsuc n) registered = err einval
init bus allow_unknown (pos addr) registered =
    if ltb addr 0x08 || ltb 0x77 addr
    then err einval
    else if not (gated (card_present bus allow_unknown))
    then err enodev
    else if not (registered == 0)
    then err registered
    else ok loaded

-- `astral_exit`, after the notifier is gone and the worker has ended.
abbrev pub drop_client : Option ℕ → State → State
drop_client none s = s
drop_client (some c) s = set_live c false (record s { client = none })

unfoldable pub exit : State → State
exit s = drop_client s.client (record s { pending = false })
