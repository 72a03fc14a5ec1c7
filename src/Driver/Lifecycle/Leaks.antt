-- ===== src/Driver/Lifecycle/Leaks.antt =====
-- Every client that exists is published or in the hands of a thread, so module exit leaves none.
use astral_hwmon.Base.{
  ℕ, suc, ◌≡◌, refl, sym, ap, ◌∙◌, ◌≢◌, ◌⊎◌, inl, inr, Bool, true, false, ◌||◌, not, Option, none,
  some, ◌==◌, if◌then◌else◌, arith, Bool-cases, ltb,
}
use astral_hwmon.Base.Int.{ℤ}
use astral_hwmon.Driver.Detect.{Adapter, card_matches}
use astral_hwmon.Driver.Probe.{gated}
use astral_hwmon.Driver.Lifecycle.{
  Phase, idle, starting, claimed, holding, created, published, withdrawing, withdrawn, settling,
  checking, judging, Thread, initial, worker, State, move, set_live, is_some, is_client, claim,
  create, publish, attach_result, withdraw, unregister, settle, check_init, check_worker, judge,
  notify_add, notify_del, astral_retry_limit, drop_client, exit,
}
use astral_hwmon.Driver.Lifecycle.Steps.{
  Step, first_pass, run, get, no_adapter, attach, cannot_claim, refuse, publish_client, finish,
  unpublish, remove, release, look_init, look_worker, decide, adapter_added, client_gone, Reach,
  begin, then_step,
}
use astral_hwmon.Driver.Lifecycle.Safety.{active, Mine, Local, IsSafe, at}
use astral_hwmon.Driver.Lifecycle.Reached.{Reach-IsSafe}

-- The client that a thread works on.
abbrev held : Phase → Option ℕ
held (created adap c) = some c
held (published adap c) = some c
held (withdrawing c) = some c
held (withdrawn c) = some c
held (settling o) = o
held _ = none

-- Who answers for a client.
abbrev Owned : Option ℕ → (Thread → Phase) → ℕ → Type 0
Owned client phase c = (client ≡ some c) ⊎ ((t : Thread) × (held (phase t) ≡ some c))

abbrev NoLeak : State → Type 0
NoLeak s = (c : ℕ) → s.live c ≡ true → Owned s.client s.phase c

moved_here :
    (t : Thread) (p : Phase) (s : State) (c : ℕ)
    → held p ≡ some c
    → held ((move t p s).phase t) ≡ some c
moved_here initial p s c k = k
moved_here worker p s c k = k

-- A thread moves on: what it held is published, or still held.
moved :
    (t : Thread) (p : Phase) (client : Option ℕ) (s : State) (c : ℕ)
    → (s.client ≡ some c → client ≡ some c ⊎ (held p ≡ some c))
    → (held (s.phase t) ≡ some c → client ≡ some c ⊎ (held p ≡ some c))
    → Owned s.client s.phase c
    → Owned client (move t p s).phase c
moved t p client s c pub_kept kept (inl e) = elim (pub_kept e) [
  | inl k ↦ inl k
  | inr k ↦ inr (t, moved_here t p s c k)
]
moved initial p client s c pub_kept kept (inr (initial, h)) = elim (kept h) [
  | inl k ↦ inl k
  | inr k ↦ inr (initial, k)
]
moved initial p client s c pub_kept kept (inr (worker, h)) = inr (worker, h)
moved worker p client s c pub_kept kept (inr (initial, h)) = inr (initial, h)
moved worker p client s c pub_kept kept (inr (worker, h)) = elim (kept h) [
  | inl k ↦ inl k
  | inr k ↦ inr (worker, k)
]

-- A thread that holds no client moves on.
empty_handed :
    (t : Thread) (p : Phase) (s : State) → held (s.phase t) ≡ none → NoLeak s → NoLeak (move t p s)
empty_handed t p s nothing kept c h = moved t p s.client s c (λ e. inl e) (λ k. cc) (kept c h)

held_at : (s : State) (t : Thread) {p : Phase} → s.phase t ≡ p → held (s.phase t) ≡ held p
held_at s t e = ap held e

claim-NoLeak : (t : Thread) (s : State) → held (s.phase t) ≡ none → NoLeak s → NoLeak (claim t s)
unfolding claim
claim-NoLeak t s nothing kept = elim (Bool-cases (is_some s.client || s.claiming)) [
  | inl taken ↦ rw taken (empty_handed t checking s nothing kept)
  | inr free ↦
      rw free (empty_handed t (claimed s.attempts) (record s { claiming = true }) nothing kept)
]

check_init-NoLeak : (s : State) → held (s.phase initial) ≡ none → NoLeak s → NoLeak (check_init s)
unfolding check_init
check_init-NoLeak s nothing kept = elim (Bool-cases (is_some s.client)) [
  | inl there ↦ rw there (empty_handed initial idle s nothing kept)
  | inr absent ↦ rw absent (empty_handed initial idle (record s { pending = true }) nothing kept)
]

check_worker-NoLeak :
    (s : State) → held (s.phase worker) ≡ none → NoLeak s → NoLeak (check_worker s)
unfolding check_worker
check_worker-NoLeak s nothing kept = elim (Bool-cases (is_some s.client)) [
  | inl there ↦ rw there (empty_handed worker idle s nothing kept)
  | inr absent ↦ rw absent (empty_handed worker judging s nothing kept)
]

notify_add-NoLeak :
    (allow_unknown : Bool) (adap : Adapter) (s : State)
    → NoLeak s
    → NoLeak (notify_add allow_unknown adap s)
unfolding notify_add
notify_add-NoLeak allow_unknown adap s kept =
    elim (Bool-cases (gated (card_matches adap allow_unknown))) [
      | inr foreign ↦ rw foreign kept
      | inl ours ↦ elim (Bool-cases (is_some s.client)) [
        | inl there ↦ rw (ours, there) kept
        | inr absent ↦ rw (ours, absent) kept
      ]
    ]

was_live :
    (live : ℕ → Bool) (c d : ℕ)
    → (if c == d then false else live d) ≡ true
    → (live d ≡ true) × (d ≢ c)
was_live live c d h = (ground arith, ground arith)

still_client :
    (o : Option ℕ) (c d : ℕ) → d ≢ c → o ≡ some d → (if is_client o c then none else o) ≡ some d
still_client none c d differs h = h
still_client (some e) c d differs h = ground arith

notify_del-NoLeak : (c : ℕ) (s : State) → NoLeak s → NoLeak (notify_del c s)
unfolding notify_del
notify_del-NoLeak c s kept d h =
    let before = was_live s.live c d h in
    elim (kept d before.0) [ inl e ↦ inl (still_client s.client c d before.1 e) | inr k ↦ inr k ]

held-attach_result :
    (z m : Bool) (ret : ℕ) (r : Bool) (c : ℕ) → held (attach_result z m ret r c) ≡ some c
unfolding attach_result
held-attach_result false m ret r c = refl
held-attach_result true false ret r c = refl
held-attach_result true true ret r c = elim (Bool-cases (ret == 0)) [
  | inr failed ↦ rw failed refl
  | inl fine ↦ rw fine (registered r)
]
  where
    registered : (r : Bool) → held (if not r then withdrawing c else settling (some c)) ≡ some c
    registered true = refl
    registered false = refl

created_or :
    (live : ℕ → Bool) (c d : ℕ)
    → (if c == d then true else live d) ≡ true
    → (c ≡ d) ⊎ (live d ≡ true)
created_or live c d h = ground arith

some_same : {c d : ℕ} → some c ≡ some d → c ≡ d
some_same h = cc

module _ (bus : ℤ) (allow_unknown : Bool) where
  settled :
      (s : State) (t : Thread) (o : Option ℕ) (d : ℕ)
      → Local bus allow_unknown s.client s.live (settling o)
      → s.live d ≡ true
      → o ≡ some d
      → s.client ≡ some d
  settled s t none d knows live h = cc
  settled s t (some c) d (inl (gone, dead)) live h = cc (dead, live, ap s.live (some_same h))
  settled s t (some c) d (inr own) live h = own ∙ h

  own_client :
      (o : Option ℕ) (live : ℕ → Bool) (c d : ℕ) → Mine o live c → o ≡ some d → some c ≡ some d
  own_client o live c d (inl (gone, dead)) h = cc
  own_client o live c d (inr own) h = sym own ∙ h

  Step-NoLeak :
      {s s' : State}
      → IsSafe bus allow_unknown s
      → NoLeak s
      → Step bus allow_unknown s s'
      → NoLeak s'
  Step-NoLeak {s} safe kept (first_pass e) = claim-NoLeak initial s (held_at s initial e) kept
  Step-NoLeak {s} safe kept (run p e) =
      claim-NoLeak worker (record s { pending = false }) (held_at s worker e) kept
  Step-NoLeak {s} safe kept (get t adap {n} e) =
      empty_handed t (holding adap n) s (held_at s t e) kept
  Step-NoLeak {s} safe kept (no_adapter t e) = empty_handed t (settling none) s (held_at s t e) kept
  Step-NoLeak {s} safe kept (attach t {adap} e ok) =
      unfold create in
      λ d h. elim (created_or s.live s.next d h) [
        | inl e' ↦ inr (
          t,
          moved_here t (created adap s.next) (set_live s.next true (record s { next = suc s.next }))
              d (ap some e'),
        )
        | inr old ↦
            moved t (created adap s.next) s.client
              (set_live s.next true (record s { next = suc s.next })) d (λ k. inl k) (λ k. cc k)
              (kept d old)
      ]
  Step-NoLeak {s} safe kept (cannot_claim t e ok) =
      empty_handed t (settling none) s (held_at s t e) kept
  Step-NoLeak {s} safe kept (refuse t e bad) = empty_handed t (settling none) s (held_at s t e) kept
  Step-NoLeak {s} safe kept (publish_client t {adap} {c} e) =
      unfold publish in
      λ d h.
        let (knows, quiet, set) = at bus allow_unknown s t safe e refl in
        moved t (published adap c) (some c) s d (λ k. cc (k, knows.0))
          (λ k. inl (sym (held_at s t e) ∙ k)) (kept d h)
  Step-NoLeak {s} safe kept (finish t {adap} {c} z m ret r e) = λ d h.
      moved t (attach_result z m ret r c) s.client s d (λ k. inl k)
        (λ k. inr (held-attach_result z m ret r c ∙ sym (held_at s t e) ∙ k)) (kept d h)
  Step-NoLeak {s} safe kept (unpublish t {c} e) =
      unfold withdraw in
      λ d h.
        let (knows, quiet, set) = at bus allow_unknown s t safe e refl in
        moved t (withdrawn c) (if is_client s.client c then none else s.client) s d
          (λ k. inr (own_client s.client s.live c d knows k)) (λ k. inr (sym (held_at s t e) ∙ k))
          (kept d h)
  Step-NoLeak {s} safe kept (remove t {c} e) =
      unfold unregister in
      λ d h.
        let before = was_live s.live c d h in
        moved t (settling none) s.client s d (λ k. inl k)
          (λ k. absurd (before.1 (sym (some_same (sym (held_at s t e) ∙ k))))) (kept d before.0)
  Step-NoLeak {s} safe kept (release t {o} e) =
      unfold settle in
      λ d h.
        let (knows, quiet, set) = at bus allow_unknown s t safe e refl in
        moved t checking s.client s d (λ k. inl k)
          (λ k. inl (settled s t o d knows h (sym (held_at s t e) ∙ k))) (kept d h)
  Step-NoLeak {s} safe kept (look_init e) = check_init-NoLeak s (held_at s initial e) kept
  Step-NoLeak {s} safe kept (look_worker e) = check_worker-NoLeak s (held_at s worker e) kept
  Step-NoLeak {s} safe kept (decide e) =
      unfold judge in
      empty_handed worker idle
        (record s {
          stage_reported = true;
          pending = if ltb s.attempts astral_retry_limit then true else s.pending;
        })
        (held_at s worker e) kept
  Step-NoLeak {s} safe kept (adapter_added adap) = notify_add-NoLeak allow_unknown adap s kept
  Step-NoLeak {s} safe kept (client_gone c) = notify_del-NoLeak c s kept

  Reach-NoLeak : {s : State} → Reach bus allow_unknown s → NoLeak s
  Reach-NoLeak begin = λ c h. cc
  Reach-NoLeak (then_step r st) = Step-NoLeak (Reach-IsSafe bus allow_unknown r) (Reach-NoLeak r) st

  inactive-held : (p : Phase) → active p ≡ false → held p ≡ none
  inactive-held idle h = refl
  inactive-held starting h = refl
  inactive-held checking h = refl
  inactive-held judging h = refl
  inactive-held (claimed n) h = cc
  inactive-held (holding adap n) h = cc
  inactive-held (created adap c) h = cc
  inactive-held (published adap c) h = cc
  inactive-held (withdrawing c) h = cc
  inactive-held (withdrawn c) h = cc
  inactive-held (settling o) h = cc

  dropped :
      (o : Option ℕ) (s : State)
      → s.client ≡ o
      → ((c : ℕ) → s.live c ≡ true → s.client ≡ some c)
      → ((drop_client o s).client ≡ none) × ((c : ℕ) → (drop_client o s).live c ≡ false)
  dropped none s e only = (
    e,
    (λ c. elim (Bool-cases (s.live c)) [ inr dead ↦ dead | inl alive ↦ cc (only c alive, e) ]),
  )
  dropped (some d) s e only = (
    refl,
    (λ c. elim (Bool-cases (s.live c)) [
      | inr dead ↦ ground (arith, dead)
      | inl alive ↦ let same = some_same (sym e ∙ only c alive) in ground (arith, same)
    ]),
  )

  -- From every state that is reached in which no thread probes, module exit leaves no client
  -- that exists and no pointer to one: no failed or repeated attach has leaked a client.
  pub exit-NoLeak :
      {s : State}
      → Reach bus allow_unknown s
      → active (s.phase initial) ≡ false
      → active (s.phase worker) ≡ false
      → ((exit s).client ≡ none) × ((c : ℕ) → (exit s).live c ≡ false)
  unfolding exit
  exit-NoLeak {s} r quiet_init quiet_worker =
      dropped s.client (record s { pending = false }) refl only
    where
      published_only : (c : ℕ) → Owned s.client s.phase c → s.client ≡ some c
      published_only c (inl e) = e
      published_only c (inr (initial, h)) = cc (h, inactive-held (s.phase initial) quiet_init)
      published_only c (inr (worker, h)) = cc (h, inactive-held (s.phase worker) quiet_worker)

      only : (c : ℕ) → s.live c ≡ true → s.client ≡ some c
      only c h = published_only c (Reach-NoLeak r c h)
