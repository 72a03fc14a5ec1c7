-- ===== src/Driver/Lifecycle/Steps.antt =====
-- The steps of the driver and of its surroundings, and the states that they reach.
use astral_hwmon.Base.{ℕ, ◌≡◌, Bool, true, false, Option, none}
use astral_hwmon.Base.Int.{ℤ}
use astral_hwmon.Driver.Detect.{Adapter}
use astral_hwmon.Driver.Lifecycle.{
  idle, starting, claimed, holding, created, published, withdrawing, withdrawn, settling, checking,
  judging, Thread, initial, worker, State, move, claim, passes, create, publish, attach_result,
  withdraw, unregister, settle, check_init, check_worker, judge, notify_add, notify_del, loaded,
}

pub data Step (bus : ℤ) (allow_unknown : Bool) : State → State → Type 0 where
  -- Module init makes its own pass.
  first_pass : {s : State} → s.phase initial ≡ starting → Step bus allow_unknown s (claim initial s)
  -- The worker takes up the scheduled work.
  run :
      {s : State}
      → s.pending ≡ true
      → s.phase worker ≡ idle
      → Step bus allow_unknown s (claim worker (record s { pending = false }))
  -- The walk chooses an adapter, to which `i2c_get_adapter` gives a reference; or there is none. By
  -- then any adapter may answer to the number.
  get :
      {s : State} (t : Thread) (adap : Adapter) {n : ℕ}
      → s.phase t ≡ claimed n
      → Step bus allow_unknown s (move t (holding adap n) s)
  no_adapter :
      {s : State} (t : Thread) {n : ℕ}
      → s.phase t ≡ claimed n
      → Step bus allow_unknown s (move t (settling none) s)
  attach :
      {s : State} (t : Thread) {adap : Adapter} {n : ℕ}
      → s.phase t ≡ holding adap n
      → passes bus allow_unknown adap ≡ true
      → Step bus allow_unknown s (create t adap s)
  cannot_claim :
      {s : State} (t : Thread) {adap : Adapter} {n : ℕ}
      → s.phase t ≡ holding adap n
      → passes bus allow_unknown adap ≡ true
      → Step bus allow_unknown s (move t (settling none) s)
  refuse :
      {s : State} (t : Thread) {adap : Adapter} {n : ℕ}
      → s.phase t ≡ holding adap n
      → passes bus allow_unknown adap ≡ false
      → Step bus allow_unknown s (move t (settling none) s)
  publish_client :
      {s : State} (t : Thread) {adap : Adapter} {c : ℕ}
      → s.phase t ≡ created adap c
      → Step bus allow_unknown s (publish t adap c s)
  finish :
      {s : State} (t : Thread) {adap : Adapter} {c : ℕ} (zalloc mutex_init : Bool) (ret : ℕ)
      (registered : Bool)
      → s.phase t ≡ published adap c
      → Step bus allow_unknown s (move t (attach_result zalloc mutex_init ret registered c) s)
  unpublish :
      {s : State} (t : Thread) {c : ℕ}
      → s.phase t ≡ withdrawing c
      → Step bus allow_unknown s (withdraw t c s)
  remove :
      {s : State} (t : Thread) {c : ℕ}
      → s.phase t ≡ withdrawn c
      → Step bus allow_unknown s (unregister t c s)
  release :
      {s : State} (t : Thread) {o : Option ℕ}
      → s.phase t ≡ settling o
      → Step bus allow_unknown s (settle t o s)
  look_init : {s : State} → s.phase initial ≡ checking → Step bus allow_unknown s (check_init s)
  look_worker : {s : State} → s.phase worker ≡ checking → Step bus allow_unknown s (check_worker s)
  decide : {s : State} → s.phase worker ≡ judging → Step bus allow_unknown s (judge s)
  adapter_added :
      {s : State} (adap : Adapter) → Step bus allow_unknown s (notify_add allow_unknown adap s)
  -- An adapter goes away, and a client on it with it: at any time, also in the middle of an attach.
  client_gone : {s : State} (c : ℕ) → Step bus allow_unknown s (notify_del c s)

-- The states that are reached once module init has registered the notifier.
pub data Reach (bus : ℤ) (allow_unknown : Bool) : State → Type 0 where
  begin : Reach bus allow_unknown loaded
  then_step :
      {s s' : State}
      → Reach bus allow_unknown s
      → Step bus allow_unknown s s'
      → Reach bus allow_unknown s'
