-- ===== src/Driver/Lifecycle/Safety.antt =====
-- The invariant of the lifecycle: one thread probes at a time, and each thread knows at its phase what becomes of the client.
use astral_hwmon.Base.{
  ℕ, ◌≡◌, refl, sym, ap, ◌∙◌, ◌≢◌, ◌⊎◌, inl, inr, Bool, true, false, ◌||◌, Option, none, some,
  arith, Bool-cases,
}
use mathlib.Core.Path.{subst}
use astral_hwmon.Base.Int.{ℤ}
use astral_hwmon.Driver.Lifecycle.{
  Phase, idle, starting, claimed, holding, created, published, withdrawing, withdrawn, settling,
  checking, judging, Thread, initial, worker, State, same_thread, move, is_some, claim, passes,
  loaded,
}

-- Between the claim and its release.
abbrev pub active : Phase → Bool
active idle = false
active starting = false
active checking = false
active judging = false
active _ = true

-- A client that was published is still the published one, or it has gone away, and the pointer to it
-- with it.
abbrev pub Mine : Option ℕ → (ℕ → Bool) → ℕ → Type 0
Mine client live c = ((client ≡ none) × (live c ≡ false)) ⊎ (client ≡ some c)

module _ (bus : ℤ) (allow_unknown : Bool) where
  -- What a thread knows of the client and of its adapter at each point.
  abbrev pub Local : Option ℕ → (ℕ → Bool) → Phase → Type 0
  Local client live (claimed n) = client ≡ none
  Local client live (holding adap n) = client ≡ none
  Local client live (created adap c) = (client ≡ none) × (passes bus allow_unknown adap ≡ true)
  Local client live (published adap c) = Mine client live c × (passes bus allow_unknown adap ≡ true)
  Local client live (withdrawing c) = Mine client live c
  Local client live (withdrawn c) = client ≡ none
  Local client live (settling none) = client ≡ none
  Local client live (settling (some c)) = Mine client live c
  Local client live _ = Unit

  pub record Safe (client : Option ℕ) (live : ℕ → Bool) (claiming : Bool) (phase : Thread → Phase)
      : Type 0 where
    pub mutex : (t u : Thread) → active (phase t) ≡ true → active (phase u) ≡ true → t ≡ u
    pub claim_set : (t : Thread) → active (phase t) ≡ true → claiming ≡ true
    pub local : (t : Thread) → Local client live (phase t)

  abbrev pub IsSafe : State → Type 0
  IsSafe s = Safe s.client s.live s.claiming s.phase

  abbrev pub Quiet : State → Thread → Type 0
  Quiet s t = (u : Thread) → same_thread t u ≡ false → active (s.phase u) ≡ false

  Local-inactive :
      (client : Option ℕ) (live : ℕ → Bool) (p : Phase) → active p ≡ false → Local client live p
  Local-inactive client live idle h = _
  Local-inactive client live starting h = _
  Local-inactive client live checking h = _
  Local-inactive client live judging h = _
  Local-inactive client live (claimed n) h = cc
  Local-inactive client live (holding adap n) h = cc
  Local-inactive client live (created adap c) h = cc
  Local-inactive client live (published adap c) h = cc
  Local-inactive client live (withdrawing c) h = cc
  Local-inactive client live (withdrawn c) h = cc
  Local-inactive client live (settling o) h = cc

  -- The thread that moves may end where it likes, if the other one is out of the way.
  pub move-IsSafe :
      (t : Thread) (p : Phase) (s : State)
      → Quiet s t
      → (active p ≡ true → s.claiming ≡ true)
      → Local s.client s.live p
      → IsSafe (move t p s)
  move-IsSafe t p s quiet set knows = record {
    mutex = both;
    claim_set = flag t quiet;
    local = knows_each t quiet;
  }
    where
      only : (t : Thread) → Quiet s t → (u : Thread) → active ((move t p s).phase u) ≡ true → u ≡ t
      only initial q initial h = refl
      only initial q worker h = cc (h, q worker refl)
      only worker q initial h = cc (h, q initial refl)
      only worker q worker h = refl

      both :
          (u v : Thread)
          → active ((move t p s).phase u) ≡ true
          → active ((move t p s).phase v) ≡ true
          → u ≡ v
      both u v h k = only t quiet u h ∙ sym (only t quiet v k)

      flag :
          (t : Thread)
          → Quiet s t
          → (u : Thread) → active ((move t p s).phase u) ≡ true
          → s.claiming ≡ true
      flag initial q initial h = set h
      flag initial q worker h = cc (h, q worker refl)
      flag worker q initial h = cc (h, q initial refl)
      flag worker q worker h = set h

      knows_each :
          (t : Thread) → Quiet s t → (u : Thread) → Local s.client s.live ((move t p s).phase u)
      knows_each initial q initial = knows
      knows_each initial q worker = Local-inactive _ _ _ (q worker refl)
      knows_each worker q initial = Local-inactive _ _ _ (q initial refl)
      knows_each worker q worker = knows

  -- A thread without a claim may move on, whatever the other one does.
  pub pass-IsSafe :
      (t : Thread) (p : Phase) (s : State) → active p ≡ false → IsSafe s → IsSafe (move t p s)
  pass-IsSafe t p s out safe = record {
    mutex = both;
    claim_set = λ u h. safe.claim_set u (was t u h);
    local = knows_each t;
  }
    where
      was : (t u : Thread) → active ((move t p s).phase u) ≡ true → active (s.phase u) ≡ true
      was initial initial h = cc
      was initial worker h = h
      was worker initial h = h
      was worker worker h = cc

      both :
          (u v : Thread)
          → active ((move t p s).phase u) ≡ true
          → active ((move t p s).phase v) ≡ true
          → u ≡ v
      both u v h k = safe.mutex u v (was t u h) (was t v k)

      knows_each : (t u : Thread) → Local s.client s.live ((move t p s).phase u)
      knows_each initial initial = Local-inactive _ _ p out
      knows_each initial worker = safe.local worker
      knows_each worker initial = safe.local initial
      knows_each worker worker = Local-inactive _ _ p out

  other-Quiet : (s : State) (t : Thread) → IsSafe s → active (s.phase t) ≡ true → Quiet s t
  other-Quiet s t safe h u differs = elim (Bool-cases (active (s.phase u))) [
    | inr out ↦ out
    | inl in_it ↦ absurd (other t u (safe.mutex t u h in_it) differs)
  ]
    where
      other : (t u : Thread) → t ≡ u → same_thread t u ≢ false
      other initial initial e d = cc
      other initial worker e d = cc
      other worker initial e d = cc
      other worker worker e d = cc

  -- What the thread knows at its phase, and that the other one is out of the way.
  pub at :
      (s : State) (t : Thread) {p : Phase}
      → IsSafe s
      → s.phase t ≡ p
      → active p ≡ true
      → Local s.client s.live p × Quiet s t × (s.claiming ≡ true)
  at s t {p} safe e h = (
    subst (Local s.client s.live) e (safe.local t),
    other-Quiet s t safe (ap active e ∙ h),
    safe.claim_set t (ap active e ∙ h),
  )

  pub claim-IsSafe : (t : Thread) (s : State) → IsSafe s → IsSafe (claim t s)
  unfolding claim
  claim-IsSafe t s safe = elim (Bool-cases (is_some s.client || s.claiming)) [
    | inl taken ↦ rw taken (pass-IsSafe t checking s refl safe)
    | inr free ↦ rw free (
        move-IsSafe t (claimed s.attempts) (record s { claiming = true })
          (λ u d. elim (Bool-cases (active (s.phase u))) [
            | inr out ↦ out
            | inl in_it ↦
                cc (safe.claim_set u in_it, not_claiming (is_some s.client) s.claiming free)
          ])
          (λ h. refl) (no_client s.client s.claiming free))
  ]
    where
      not_claiming : (a b : Bool) → (a || b) ≡ false → b ≡ false
      not_claiming a b h = ground arith

      no_client : (o : Option ℕ) (b : Bool) → (is_some o || b) ≡ false → o ≡ none
      no_client none b h = refl
      no_client (some c) b h = ground arith

  pub loaded-IsSafe : IsSafe loaded
  loaded-IsSafe = record {
    mutex = λ t u h k. cc (h, rests t);
    claim_set = λ t h. cc (h, rests t);
    local = local;
  }
    where
      rests : (t : Thread) → active (loaded.phase t) ≡ false
      rests initial = refl
      rests worker = refl

      local : (t : Thread) → Local none (λ c. false) (loaded.phase t)
      local initial = _
      local worker = _
