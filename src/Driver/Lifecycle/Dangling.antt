-- ===== src/Driver/Lifecycle/Dangling.antt =====
-- That `astral_client` does not dangle, and the one window in which a deletion makes it.
use astral_hwmon.Base.{
  ℕ, suc, ◌≡◌, refl, ap, ◌∙◌, ◌≢◌, Bool, true, false, none, some, if◌then◌else◌, ltb,
}
use astral_hwmon.Base.Int.{ℤ}
use astral_hwmon.Driver.Detect.{Adapter}
use astral_hwmon.Driver.Lifecycle.{
  idle, holding, created, published, withdrawn, settling, checking, Thread, initial, worker, State,
  is_some, publish, attach_result, forget, withdraw, unregister, settle, judge, astral_retry_limit,
  loaded,
}
use astral_hwmon.Driver.Lifecycle.Steps.{
  Step, first_pass, run, get, no_adapter, attach, cannot_claim, refuse, publish_client, finish,
  unpublish, remove, release, look_init, look_worker, decide, adapter_added, client_gone, Reach,
  begin, then_step,
}
use astral_hwmon.Driver.Lifecycle.Safety.{IsSafe, Quiet, at}
use astral_hwmon.Driver.Lifecycle.Reached.{Reach-IsSafe}
use astral_hwmon.Driver.Lifecycle.Alive.{
  unpublished, IsAlive, move-IsAlive, unpublished-attach_result, claim-IsAlive,
  inactive-unpublished, create-IsAlive, forgotten, notify_del-IsAlive, notify_add-IsAlive,
  check_init-IsAlive, check_worker-IsAlive,
}

plain :
    {s : State}
    → IsAlive s
    → (attempts : ℕ) (claiming reported pending : Bool)
    → IsAlive (record s {
      attempts = attempts;
      claiming = claiming;
      stage_reported = reported;
      pending = pending;
    })
plain h attempts claiming reported pending = record { shown = h.shown; hidden = h.hidden }

module _ (bus : ℤ) (allow_unknown : Bool) where
  -- The step is no deletion of a client that a thread has created and not yet published.
  abbrev pub IsOrderly : {s s' : State} → Step bus allow_unknown s s' → Type 0
  IsOrderly {s} (client_gone c) =
      (unpublished (s.phase initial) ≢ some c) × (unpublished (s.phase worker) ≢ some c)
  IsOrderly _ = Unit {0}

  -- No step of the run is.
  abbrev pub AllOrderly : {s : State} → Reach bus allow_unknown s → Type 0
  AllOrderly begin = Unit {0}
  AllOrderly (then_step r st) = AllOrderly r × IsOrderly st

  publish-IsAlive :
      (t : Thread) {adap : Adapter} {c : ℕ} (s : State)
      → s.phase t ≡ created adap c
      → IsAlive s
      → IsAlive (publish t adap c s)
  unfolding publish
  publish-IsAlive t {adap} {c} s e h =
      move-IsAlive t (published adap c) (record s { client = some c }) refl
        (record { shown = λ d k. h.hidden t d (ap unpublished e ∙ k); hidden = h.hidden })

  withdraw-IsAlive : (t : Thread) (c : ℕ) (s : State) → IsAlive s → IsAlive (withdraw t c s)
  unfolding withdraw
  withdraw-IsAlive t c s h =
      move-IsAlive t (withdrawn c) (forget c s) refl
        (record { shown = λ d k. h.shown d (forgotten s.client c d k); hidden = h.hidden })

  unregister-IsAlive :
      (t : Thread) (c : ℕ) (s : State)
      → s.client ≡ none
      → Quiet bus allow_unknown s t
      → IsAlive (unregister t c s)
  unfolding unregister
  unregister-IsAlive t c s absent quiet = record {
    shown = λ d k. cc (k, absent);
    hidden = nobody t quiet;
  }
    where
      nobody :
          (t : Thread)
          → Quiet bus allow_unknown s t
          → (u : Thread) (d : ℕ) → unpublished ((unregister t c s).phase u) ≡ some d
          → (unregister t c s).live d ≡ true
      nobody initial quiet initial d e = cc e
      nobody initial quiet worker d e =
          cc (e, inactive-unpublished (s.phase worker) (quiet worker refl))
      nobody worker quiet initial d e =
          cc (e, inactive-unpublished (s.phase initial) (quiet initial refl))
      nobody worker quiet worker d e = cc e

  Step-IsAlive :
      {s s' : State}
      → IsSafe bus allow_unknown s
      → IsAlive s
      → (st : Step bus allow_unknown s s') → IsOrderly st
      → IsAlive s'
  Step-IsAlive {s} safe h (first_pass e) o = claim-IsAlive initial s h
  Step-IsAlive {s} safe h (run p e) o =
      claim-IsAlive worker (record s { pending = false })
        (plain h s.attempts s.claiming s.stage_reported false)
  Step-IsAlive {s} safe h (get t adap {n} e) o = move-IsAlive t (holding adap n) s refl h
  Step-IsAlive {s} safe h (no_adapter t e) o = move-IsAlive t (settling none) s refl h
  Step-IsAlive {s} safe h (attach t {adap} e ok) o =
      create-IsAlive t adap s (at bus allow_unknown s t safe e refl).0 h
  Step-IsAlive {s} safe h (cannot_claim t e ok) o = move-IsAlive t (settling none) s refl h
  Step-IsAlive {s} safe h (refuse t e bad) o = move-IsAlive t (settling none) s refl h
  Step-IsAlive {s} safe h (publish_client t e) o = publish-IsAlive t s e h
  Step-IsAlive {s} safe h (finish t {adap} {c} z m ret r e) o =
      move-IsAlive t (attach_result z m ret r c) s (unpublished-attach_result z m ret r c) h
  Step-IsAlive {s} safe h (unpublish t {c} e) o = withdraw-IsAlive t c s h
  Step-IsAlive {s} safe h (remove t {c} e) o =
      let (absent, quiet, set) = at bus allow_unknown s t safe e refl in
      unregister-IsAlive t c s absent quiet
  Step-IsAlive {s} safe h (release t {o = result} e) o =
      unfold settle in
      move-IsAlive t checking
        (record s {
          claiming = false;
          attempts = if is_some result then s.attempts else suc s.attempts;
        })
        refl (plain h _ false s.stage_reported s.pending)
  Step-IsAlive {s} safe h (look_init e) o = check_init-IsAlive s h
  Step-IsAlive {s} safe h (look_worker e) o = check_worker-IsAlive s h
  Step-IsAlive {s} safe h (decide e) o =
      unfold judge in
      move-IsAlive worker idle
        (record s {
          stage_reported = true;
          pending = if ltb s.attempts astral_retry_limit then true else s.pending;
        })
        refl (plain h s.attempts s.claiming true _)
  Step-IsAlive {s} safe h (adapter_added adap) o = notify_add-IsAlive allow_unknown adap s h
  Step-IsAlive {s} safe h (client_gone c) o = notify_del-IsAlive c s o.0 o.1 h

  loaded-IsAlive : IsAlive loaded
  loaded-IsAlive = record { shown = λ c e. cc e; hidden = hidden }
    where
      hidden : (t : Thread) (c : ℕ) → unpublished (loaded.phase t) ≡ some c → false ≡ true
      hidden initial c e = cc e
      hidden worker c e = cc e

  Reach-IsAlive : {s : State} (r : Reach bus allow_unknown s) → AllOrderly r → IsAlive s
  Reach-IsAlive begin o = loaded-IsAlive
  Reach-IsAlive (then_step r st) o =
      Step-IsAlive (Reach-IsSafe bus allow_unknown r) (Reach-IsAlive r o.0) st o.1

  -- In every state that is reached, by any interleaving of the threads with adapters that come and
  -- clients that go away, also in the middle of an attach, a published client is one that exists:
  -- `astral_client` does not dangle, if no step of the run deletes a client between its creation and
  -- the section that publishes it.
  pub Reach-alive :
      {s : State} (r : Reach bus allow_unknown s)
      → AllOrderly r
      → (c : ℕ) → s.client ≡ some c
      → s.live c ≡ true
  Reach-alive r o = (Reach-IsAlive r o).shown
