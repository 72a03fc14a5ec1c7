-- ===== src/Driver/Lifecycle/Preserved.antt =====
-- That the notifier and the ends of a pass keep the invariant.
use astral_hwmon.Base.{
  ℕ, ◌≡◌, refl, inl, inr, Bool, true, false, not, Option, none, some, ◌==◌, if◌then◌else◌, arith,
  Bool-cases,
}
use astral_hwmon.Base.Int.{ℤ}
use astral_hwmon.Driver.Detect.{Adapter, card_matches}
use astral_hwmon.Driver.Probe.{gated}
use astral_hwmon.Driver.Lifecycle.{
  Phase, idle, starting, claimed, holding, created, published, withdrawing, withdrawn, settling,
  checking, judging, Thread, initial, worker, State, is_some, is_client, attach_result, check_init,
  check_worker, notify_add, notify_del,
}
use astral_hwmon.Driver.Lifecycle.Safety.{Mine, Local, IsSafe, pass-IsSafe}

pub same_client : (c : ℕ) → (c == c) ≡ true
same_client c = ground arith

forget_own : (o : Option ℕ) (c : ℕ) → o ≡ some c → (if is_client o c then none else o) ≡ none
forget_own none c h = refl
forget_own (some d) c h = ground arith

pub forget-Mine :
    (o : Option ℕ) (live : ℕ → Bool) (c : ℕ)
    → Mine o live c
    → (if is_client o c then none else o) ≡ none
forget-Mine o live c (inl (gone, dead)) = rw (gone, is_client) refl
forget-Mine o live c (inr own) = forget_own o c own

-- A client that a thread published may go away; any other client may, too.
gone-Mine :
    (client : Option ℕ) (live : ℕ → Bool) (c d : ℕ)
    → Mine client live d
    → Mine (if is_client client c then none else client) (λ e. if c == e then false else live e) d
gone-Mine none live c d (inl (gone, dead)) = inl (refl, ground arith)
gone-Mine none live c d (inr own) = cc own
gone-Mine (some e) live c d (inl (gone, dead)) = cc gone
gone-Mine (some e) live c d (inr own) = elim (Bool-cases (c == d)) [
  | inl same ↦ inl (ground arith, rw same refl)
  | inr other ↦ inr (ground arith)
]

module _ (bus : ℤ) (allow_unknown : Bool) where
  kept_none :
      (client : Option ℕ) (c : ℕ)
      → client ≡ none
      → (if is_client client c then none else client) ≡ none
  kept_none none c h = refl
  kept_none (some e) c h = cc

  gone-Local :
      (client : Option ℕ) (live : ℕ → Bool) (c : ℕ) (p : Phase)
      → Local bus allow_unknown client live p
      → Local bus allow_unknown
          (if is_client client c then none else client)
          (λ d. if c == d then false else live d)
          p
  gone-Local client live c idle k = _
  gone-Local client live c starting k = _
  gone-Local client live c checking k = _
  gone-Local client live c judging k = _
  gone-Local client live c (claimed n) k = kept_none client c k
  gone-Local client live c (holding adap n) k = kept_none client c k
  gone-Local client live c (created adap d) k = (kept_none client c k.0, k.1)
  gone-Local client live c (published adap d) k = (gone-Mine client live c d k.0, k.1)
  gone-Local client live c (withdrawing d) k = gone-Mine client live c d k
  gone-Local client live c (withdrawn d) k = kept_none client c k
  gone-Local client live c (settling none) k = kept_none client c k
  gone-Local client live c (settling (some d)) k = gone-Mine client live c d k

  pub notify_del-IsSafe :
      (c : ℕ) (s : State) → IsSafe bus allow_unknown s → IsSafe bus allow_unknown (notify_del c s)
  unfolding notify_del
  notify_del-IsSafe c s safe = record {
    mutex = safe.mutex;
    claim_set = safe.claim_set;
    local = local;
  }
    where
      local :
          (t : Thread)
          → Local bus allow_unknown
              (if is_client s.client c then none else s.client)
              (λ d. if c == d then false else s.live d)
              (s.phase t)
      local initial = gone-Local s.client s.live c (s.phase initial) (safe.local initial)
      local worker = gone-Local s.client s.live c (s.phase worker) (safe.local worker)

  pub notify_add-IsSafe :
      (adap : Adapter) (s : State)
      → IsSafe bus allow_unknown s
      → IsSafe bus allow_unknown (notify_add allow_unknown adap s)
  unfolding notify_add
  notify_add-IsSafe adap s safe = elim (Bool-cases (gated (card_matches adap allow_unknown))) [
    | inr foreign ↦ rw foreign safe
    | inl ours ↦ elim (Bool-cases (is_some s.client)) [
      | inl there ↦ rw (ours, there) safe
      | inr absent ↦ rw (ours, absent) safe
    ]
  ]

  pub check_init-IsSafe :
      (s : State) → IsSafe bus allow_unknown s → IsSafe bus allow_unknown (check_init s)
  unfolding check_init
  check_init-IsSafe s safe = elim (Bool-cases (is_some s.client)) [
    | inl there ↦ rw there (pass-IsSafe bus allow_unknown initial idle s refl safe)
    | inr absent ↦
        rw absent
          (pass-IsSafe bus allow_unknown initial idle (record s { pending = true }) refl safe)
  ]

  pub check_worker-IsSafe :
      (s : State) → IsSafe bus allow_unknown s → IsSafe bus allow_unknown (check_worker s)
  unfolding check_worker
  check_worker-IsSafe s safe = elim (Bool-cases (is_some s.client)) [
    | inl there ↦ rw there (pass-IsSafe bus allow_unknown worker idle s refl safe)
    | inr absent ↦ rw absent (pass-IsSafe bus allow_unknown worker judging s refl safe)
  ]

  pub attach_result-Local :
      (client : Option ℕ) (live : ℕ → Bool) (z m : Bool) (ret : ℕ) (r : Bool) (c : ℕ)
      → Mine client live c
      → Local bus allow_unknown client live (attach_result z m ret r c)
  unfolding attach_result
  attach_result-Local client live false m ret r c h = h
  attach_result-Local client live true false ret r c h = h
  attach_result-Local client live true true ret r c h = elim (Bool-cases (ret == 0)) [
    | inr failed ↦ rw failed h
    | inl fine ↦ rw fine (registered r)
  ]
    where
      registered :
          (r : Bool)
          → Local bus allow_unknown client live (if not r then withdrawing c else settling (some c))
      registered true = h
      registered false = h
