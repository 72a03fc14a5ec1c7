-- ===== src/Driver/Lifecycle/Retry.antt =====
-- The retries of the worker: how many failing passes are made before it gives up.
use astral_hwmon.Base.{
  ℕ, suc, ◌+◌, ◌≤◌, ◌≡◌, refl, ap, ◌∙◌, inl, inr, Bool, true, false, none, List, [], ◌∷◌, arith,
  ltb, ◌==◌, if◌then◌else◌, Bool-cases, length, All,
}
use mathlib.Core.Path.{subst}
use astral_hwmon.Base.Int.{ℤ}
use astral_hwmon.Driver.Detect.{Adapter}
use astral_hwmon.Driver.Lifecycle.{
  idle, claimed, holding, withdrawing, settling, worker, State, move, is_some, claim, passes,
  create, publish, attach_result, withdraw, unregister, settle, check_worker, judge,
  astral_retry_limit,
}
use astral_hwmon.Driver.Lifecycle.Steps.{
  Step, run, get, no_adapter, attach, cannot_claim, refuse, publish_client, finish, unpublish,
  remove, release, look_worker, decide,
}
use astral_hwmon.Driver.Lifecycle.Preserved.{same_client}

-- Why a pass fails: there is no adapter to choose, the one that answers to the number does not pass
-- the gate, the address on it is taken, or the attach fails, with these outcomes of its parts.
pub data Failure : Type 0 where
  none_chosen : Failure
  refused not_claimed : Adapter → Failure
  attach_failed : Adapter → (zalloc mutex_init : Bool) (ret : ℕ) (registered : Bool) → Failure

-- A pass from its claim to the last section of `astral_probe_once`.
abbrev pub probe : Failure → State → State
probe none_chosen s = move worker (settling none) s
probe (refused adap) s = move worker (settling none) (move worker (holding adap s.attempts) s)
probe (not_claimed adap) s = move worker (settling none) (move worker (holding adap s.attempts) s)
probe (attach_failed adap zalloc mutex_init ret registered) s =
    let c = s.next in
    unregister worker c (
      withdraw worker c (
        move worker (attach_result zalloc mutex_init ret registered c)
          (publish worker adap c (create worker adap (move worker (holding adap s.attempts) s)))))

-- A pass of the worker that fails, from the scheduled work to the end of `astral_probe_worker`.
abbrev pub failing_pass : Failure → State → State
failing_pass f s =
    judge
      (check_worker (settle worker none (probe f (claim worker (record s { pending = false })))))

abbrev pub failing_passes : List Failure → State → State
failing_passes [] s = s
failing_passes (f ∷ fs) s = failing_passes fs (failing_pass f s)

module _ (bus : ℤ) (allow_unknown : Bool) where
  -- Steps that follow on each other.
  pub data Trace : State → State → Type 0 where
    stay : {s : State} → Trace s s
    onward : {s s' s'' : State} → Trace s s' → Step bus allow_unknown s' s'' → Trace s s''

  -- The pass can fail so.
  abbrev pub CanFail : Failure → Type 0
  CanFail none_chosen = Unit {0}
  CanFail (refused adap) = passes bus allow_unknown adap ≡ false
  CanFail (not_claimed adap) = passes bus allow_unknown adap ≡ true
  CanFail (attach_failed adap zalloc mutex_init ret registered) =
      (passes bus allow_unknown adap ≡ true)
      × (¬ ((zalloc ≡ true) × (mutex_init ≡ true) × (ret ≡ 0) × (registered ≡ true)))

  -- What a pass leaves that ends without a client.
  record Probed (s s' : State) : Type 0 where
    path : Trace s s'
    client : s'.client ≡ none
    attempts : s'.attempts ≡ s.attempts
    pending : s'.pending ≡ s.pending
    phase : s'.phase worker ≡ settling none

  attach_result-withdrawing :
      (z m : Bool) (ret : ℕ) (r : Bool) (c : ℕ)
      → ¬ ((z ≡ true) × (m ≡ true) × (ret ≡ 0) × (r ≡ true))
      → attach_result z m ret r c ≡ withdrawing c
  unfolding attach_result
  attach_result-withdrawing false m ret r c h = refl
  attach_result-withdrawing true false ret r c h = refl
  attach_result-withdrawing true true ret false c h = elim (Bool-cases (ret == 0)) [
    | inl fine ↦ rw fine refl
    | inr failed ↦ rw failed refl
  ]
  attach_result-withdrawing true true ret true c h = elim (Bool-cases (ret == 0)) [
    | inl fine ↦ absurd (h (refl, refl, ground arith, refl))
    | inr failed ↦ rw failed refl
  ]

  -- The six steps of an attach that fails.
  attach_failed_lem :
      (adap : Adapter) (z m : Bool) (ret : ℕ) (r : Bool) (s : State)
      → s.phase worker ≡ claimed s.attempts
      → passes bus allow_unknown adap ≡ true
      → attach_result z m ret r s.next ≡ withdrawing s.next
      → Probed s (probe (attach_failed adap z m ret r) s)
  unfolding create publish withdraw unregister
  attach_failed_lem adap z m ret r s e ok failed = record {
    path =
        onward
          (onward
            (onward
              (onward (onward (onward stay (get worker adap e)) (attach worker refl ok))
                (publish_client worker refl))
              (finish worker z m ret r refl))
            (unpublish worker failed))
          (remove worker refl);
    client = rw (same_client s.next) refl;
    attempts = refl;
    pending = refl;
    phase = refl;
  }

  probe-Probed :
      (f : Failure) (s : State)
      → s.phase worker ≡ claimed s.attempts
      → s.client ≡ none
      → CanFail f
      → Probed s (probe f s)
  probe-Probed none_chosen s e absent ok = record {
    path = onward stay (no_adapter worker e);
    client = absent;
    attempts = refl;
    pending = refl;
    phase = refl;
  }
  probe-Probed (refused adap) s e absent ok = record {
    path = onward (onward stay (get worker adap e)) (refuse worker refl ok);
    client = absent;
    attempts = refl;
    pending = refl;
    phase = refl;
  }
  probe-Probed (not_claimed adap) s e absent ok = record {
    path = onward (onward stay (get worker adap e)) (cannot_claim worker refl ok);
    client = absent;
    attempts = refl;
    pending = refl;
    phase = refl;
  }
  probe-Probed (attach_failed adap z m ret r) s e absent (ok, bad) =
      attach_failed_lem adap z m ret r s e ok (attach_result-withdrawing z m ret r s.next bad)

  joined : {s s' s'' : State} → Trace s s' → Trace s' s'' → Trace s s''
  joined p stay = p
  joined p (onward q st) = onward (joined p q) st

  -- Work is scheduled, the worker rests, and `n` attempts have been made without a client.
  pub record IsDue (s : State) (n : ℕ) : Type 0 where
    pub client : s.client ≡ none
    pub claiming : s.claiming ≡ false
    pub attempts : s.attempts ≡ n
    pub pending : s.pending ≡ true
    pub resting : s.phase worker ≡ idle

  -- What passes leave behind that follow on `s` and end in `s'`.
  pub record IsOver (s s' : State) (n : ℕ) : Type 0 where
    pub path : Trace s s'
    pub client : s'.client ≡ none
    pub claiming : s'.claiming ≡ false
    pub attempts : s'.attempts ≡ n
    pub pending : s'.pending ≡ ltb n astral_retry_limit
    pub resting : s'.phase worker ≡ idle

  claim_free :
      (s : State)
      → s.client ≡ none
      → s.claiming ≡ false
      → claim worker (record s { pending = false })
        ≡ move worker (claimed s.attempts) (record s { pending = false; claiming = true })
  unfolding claim
  claim_free s absent free = rw (absent, free) refl

  if_same : (b : Bool) → (if b then true else false) ≡ b
  if_same true = refl
  if_same false = refl

  after : {s s' s'' : State} {n : ℕ} → Trace s s' → IsOver s' s'' n → IsOver s s'' n
  after p over = record {
    path = joined p over.path;
    client = over.client;
    claiming = over.claiming;
    attempts = over.attempts;
    pending = over.pending;
    resting = over.resting;
  }

  -- From the release of the claim to the end of the worker.
  ending :
      (s : State) (n : ℕ)
      → s.client ≡ none
      → s.attempts ≡ n
      → s.pending ≡ false
      → s.phase worker ≡ settling none
      → IsOver s (judge (check_worker (settle worker none s))) (suc n)
  unfolding judge check_worker settle
  ending s n absent made unscheduled at_end = record {
    path =
        onward (onward (onward stay (release worker at_end)) (look_worker refl))
          (decide (rw (absent, is_some) refl));
    client = absent;
    claiming = refl;
    attempts = ap suc made;
    pending =
        ap (λ b. if ltb (suc s.attempts) astral_retry_limit then true else b) unscheduled
        ∙ if_same (ltb (suc s.attempts) astral_retry_limit)
        ∙ ap (λ m. ltb (suc m) astral_retry_limit) made;
    resting = refl;
  }

  failing_pass-IsOver :
      (f : Failure) (s : State) (n : ℕ)
      → IsDue s n
      → CanFail f
      → IsOver s (failing_pass f s) (suc n)
  failing_pass-IsOver f s n due ok =
      let e = claim_free s due.client due.claiming in
      let got = claim worker (record s { pending = false }) in
      let p = probe-Probed f got (rw e refl) (ap (λ (x : State). x.client) e ∙ due.client) ok in
      let over =
        ending (probe f got) n p.client
          (p.attempts ∙ ap (λ (x : State). x.attempts) e ∙ due.attempts)
          (p.pending ∙ ap (λ (x : State). x.pending) e) p.phase in
      after (onward stay (run due.pending due.resting)) (after p.path over)

  -- From a state in which work is scheduled, the worker rests and no client is there, let any passes
  -- of the worker follow on each other that no other step interrupts and that fail, each for any of
  -- the four reasons, with no more than 15 attempts in all. Then each is a path of steps, no client is
  -- left, every pass has counted one attempt, and the work is scheduled again exactly while fewer than
  -- 15 attempts have been made: at the fifteenth the worker gives up.
  pub failing_passes-IsOver :
      (f : Failure) (fs : List Failure) (s : State) (n : ℕ)
      → IsDue s n
      → CanFail f
      → All CanFail fs
      → n + suc (length fs) ≤ astral_retry_limit
      → IsOver s (failing_passes (f ∷ fs) s) (n + suc (length fs))
  failing_passes-IsOver f [] s n due ok oks few =
      subst (IsOver s (failing_pass f s)) (omega arith) (failing_pass-IsOver f s n due ok)
  failing_passes-IsOver f (g ∷ fs) s n due ok oks few =
      let first = failing_pass-IsOver f s n due ok in
      let more : ltb (suc n) astral_retry_limit ≡ true = ground arith in
      let rest =
        failing_passes-IsOver g fs (failing_pass f s) (suc n)
          (record {
            client = first.client;
            claiming = first.claiming;
            attempts = first.attempts;
            pending = first.pending ∙ more;
            resting = first.resting;
          })
          oks.0 oks.1 (omega arith) in
      subst (IsOver s (failing_passes (f ∷ (g ∷ fs)) s)) (omega arith) (after first.path rest)
