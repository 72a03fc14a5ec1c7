-- ===== src/Driver/Lifecycle/Reached.antt =====
-- What holds in every state that is reached, step by step.
use astral_hwmon.Base.{
  ℕ, suc, ◌≡◌, refl, inl, inr, Bool, true, false, Option, none, some, if◌then◌else◌, arith,
  Bool-cases, ltb,
}
use astral_hwmon.Base.Text.{Bytes}
use astral_hwmon.Base.Int.{ℤ}
use astral_hwmon.Driver.Detect.{Adapter, card_matches}
use astral_hwmon.Driver.Detect.Gate.{IsAllowed, Present, card_matches_iff}
use astral_hwmon.Driver.Probe.{adapter_selected, gated}
use astral_hwmon.Driver.Lifecycle.{
  idle, holding, created, published, withdrawn, settling, checking, Thread, initial, worker, State,
  set_live, is_some, passes, create, publish, attach_result, forget, withdraw, unregister, settle,
  judge, astral_retry_limit,
}
use astral_hwmon.Driver.Lifecycle.Steps.{
  Step, first_pass, run, get, no_adapter, attach, cannot_claim, refuse, publish_client, finish,
  unpublish, remove, release, look_init, look_worker, decide, adapter_added, client_gone, Reach,
  begin, then_step,
}
use astral_hwmon.Driver.Lifecycle.Safety.{
  active, IsSafe, move-IsSafe, pass-IsSafe, at, claim-IsSafe, loaded-IsSafe,
}
use astral_hwmon.Driver.Lifecycle.Preserved.{
  forget-Mine, notify_del-IsSafe, notify_add-IsSafe, check_init-IsSafe, check_worker-IsSafe,
  attach_result-Local,
}

module _ (bus : ℤ) (allow_unknown : Bool) where
  Step-IsSafe :
      {s s' : State}
      → IsSafe bus allow_unknown s
      → Step bus allow_unknown s s'
      → IsSafe bus allow_unknown s'
  Step-IsSafe {s} safe (first_pass e) = claim-IsSafe bus allow_unknown initial s safe
  Step-IsSafe {s} safe (run p e) =
      claim-IsSafe bus allow_unknown worker (record s { pending = false }) safe
  Step-IsSafe {s} safe (get t adap {n} e) =
      let (knows, quiet, set) = at bus allow_unknown s t safe e refl in
      move-IsSafe bus allow_unknown t (holding adap n) s quiet (λ _. set) knows
  Step-IsSafe {s} safe (no_adapter t e) =
      let (knows, quiet, set) = at bus allow_unknown s t safe e refl in
      move-IsSafe bus allow_unknown t (settling none) s quiet (λ _. set) knows
  Step-IsSafe {s} safe (attach t {adap} e ok) =
      unfold create in
      let (knows, quiet, set) = at bus allow_unknown s t safe e refl in
      move-IsSafe bus allow_unknown t (created adap s.next)
        (set_live s.next true (record s { next = suc s.next })) quiet (λ _. set) (knows, ok)
  Step-IsSafe {s} safe (cannot_claim t e ok) =
      let (knows, quiet, set) = at bus allow_unknown s t safe e refl in
      move-IsSafe bus allow_unknown t (settling none) s quiet (λ _. set) knows
  Step-IsSafe {s} safe (refuse t e bad) =
      let (knows, quiet, set) = at bus allow_unknown s t safe e refl in
      move-IsSafe bus allow_unknown t (settling none) s quiet (λ _. set) knows
  Step-IsSafe {s} safe (publish_client t {adap} {c} e) =
      unfold publish in
      let (knows, quiet, set) = at bus allow_unknown s t safe e refl in
      move-IsSafe bus allow_unknown t (published adap c) (record s { client = some c }) quiet
        (λ _. set) (inr refl, knows.1)
  Step-IsSafe {s} safe (finish t {adap} {c} z m ret r e) =
      let (knows, quiet, set) = at bus allow_unknown s t safe e refl in
      move-IsSafe bus allow_unknown t (attach_result z m ret r c) s quiet (λ _. set)
        (attach_result-Local bus allow_unknown s.client s.live z m ret r c knows.0)
  Step-IsSafe {s} safe (unpublish t {c} e) =
      unfold withdraw in
      let (knows, quiet, set) = at bus allow_unknown s t safe e refl in
      let forgotten = forget-Mine s.client s.live c knows in
      move-IsSafe bus allow_unknown t (withdrawn c) (forget c s) quiet (λ _. set) forgotten
  Step-IsSafe {s} safe (remove t {c} e) =
      unfold unregister in
      let (knows, quiet, set) = at bus allow_unknown s t safe e refl in
      move-IsSafe bus allow_unknown t (settling none) (set_live c false s) quiet (λ _. set) knows
  Step-IsSafe {s} safe (release t {o} e) =
      unfold settle in
      let (knows, quiet, set) = at bus allow_unknown s t safe e refl in
      move-IsSafe bus allow_unknown t checking
        (record s { claiming = false; attempts = if is_some o then s.attempts else suc s.attempts })
        quiet (λ h. cc) _
  Step-IsSafe {s} safe (look_init e) = check_init-IsSafe bus allow_unknown s safe
  Step-IsSafe {s} safe (look_worker e) = check_worker-IsSafe bus allow_unknown s safe
  Step-IsSafe {s} safe (decide e) =
      unfold judge in
      pass-IsSafe bus allow_unknown worker idle
        (record s {
          stage_reported = true;
          pending = if ltb s.attempts astral_retry_limit then true else s.pending;
        })
        refl safe
  Step-IsSafe {s} safe (adapter_added adap) = notify_add-IsSafe bus allow_unknown adap s safe
  Step-IsSafe {s} safe (client_gone c) = notify_del-IsSafe bus allow_unknown c s safe

  pub Reach-IsSafe : {s : State} → Reach bus allow_unknown s → IsSafe bus allow_unknown s
  Reach-IsSafe begin = loaded-IsSafe bus allow_unknown
  Reach-IsSafe (then_step r st) = Step-IsSafe (Reach-IsSafe r) st

  -- In every state that is reached, init and the worker are not both between their claim and its release.
  pub Reach-exclusive :
      {s : State}
      → Reach bus allow_unknown s
      → active (s.phase initial) ≡ true
      → active (s.phase worker) ≡ false
  Reach-exclusive {s} r h = elim (Bool-cases (active (s.phase worker))) [
    | inr out ↦ out
    | inl in_it ↦ cc ((Reach-IsSafe r).mutex initial worker h in_it)
  ]

  gated-Present : (o : Option Bytes) → gated o ≡ true → Present o
  gated-Present none h = cc
  gated-Present (some model) h = _

  -- In every state that is reached in which a thread has a published client and is about to read the
  -- chip, the adapter is one of an allowed card and is the one selected: no block read comes before the gate.
  pub Reach-IsAllowed :
      {s : State}
      → Reach bus allow_unknown s
      → (t : Thread) (adap : Adapter) (c : ℕ) → s.phase t ≡ published adap c
      → IsAllowed allow_unknown adap.parent × (adapter_selected bus adap ≡ true)
  Reach-IsAllowed {s} r t adap c e =
      let (knows, quiet, set) = at bus allow_unknown s t (Reach-IsSafe r) e refl in
      let both = passes_both knows.1 in
      (
        (card_matches_iff adap allow_unknown).0
            (gated-Present (card_matches adap allow_unknown) both.0),
        both.1,
      )
    where
      passes_both :
          passes bus allow_unknown adap ≡ true
          → (gated (card_matches adap allow_unknown) ≡ true) × (adapter_selected bus adap ≡ true)
      passes_both h = unfold passes in (ground arith, ground arith)
