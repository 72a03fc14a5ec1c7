-- ===== src/Driver/Lifecycle/Alive.antt =====
-- The steps that keep `astral_client` from dangling.
use astral_hwmon.Base.{
  ℕ, ◌≡◌, refl, ◌∙◌, ◌≢◌, inl, inr, Bool, true, false, ◌||◌, Option, none, some, arith, ◌==◌,
  if◌then◌else◌, Bool-cases,
}
use astral_hwmon.Driver.Detect.{Adapter, card_matches}
use astral_hwmon.Driver.Probe.{gated}
use astral_hwmon.Driver.Lifecycle.{
  Phase, idle, claimed, created, checking, judging, Thread, initial, worker, State, move, is_some,
  is_client, claim, create, attach_result, check_init, check_worker, notify_add, notify_del,
}
use astral_hwmon.Driver.Lifecycle.Safety.{active}

-- The client of a thread between i2c_new_client_device and the section that publishes it.
abbrev pub unpublished : Phase → Option ℕ
unpublished (created adap c) = some c
unpublished _ = none

-- The published client exists, and so does one that is about to be published.
pub record IsAlive (s : State) : Type 0 where
  pub shown : (c : ℕ) → s.client ≡ some c → s.live c ≡ true
  pub hidden : (t : Thread) (c : ℕ) → unpublished (s.phase t) ≡ some c → s.live c ≡ true

-- A thread moves on, to where it has nothing to publish.
pub move-IsAlive :
    (t : Thread) (p : Phase) (s : State) → unpublished p ≡ none → IsAlive s → IsAlive (move t p s)
move-IsAlive t p s bare h = record { shown = h.shown; hidden = hidden t }
  where
    hidden : (t u : Thread) (c : ℕ) → unpublished ((move t p s).phase u) ≡ some c → s.live c ≡ true
    hidden initial initial c e = cc (e, bare)
    hidden initial worker c e = h.hidden worker c e
    hidden worker initial c e = h.hidden initial c e
    hidden worker worker c e = cc (e, bare)

pub unpublished-attach_result :
    (z m : Bool) (ret : ℕ) (r : Bool) (c : ℕ) → unpublished (attach_result z m ret r c) ≡ none
unfolding attach_result
unpublished-attach_result false m ret r c = refl
unpublished-attach_result true false ret r c = refl
unpublished-attach_result true true ret true c = elim (Bool-cases (ret == 0)) [
  | inr failed ↦ rw failed refl
  | inl fine ↦ rw fine refl
]
unpublished-attach_result true true ret false c = elim (Bool-cases (ret == 0)) [
  | inr failed ↦ rw failed refl
  | inl fine ↦ rw fine refl
]

pub claim-IsAlive : (t : Thread) (s : State) → IsAlive s → IsAlive (claim t s)
unfolding claim
claim-IsAlive t s h = elim (Bool-cases (is_some s.client || s.claiming)) [
  | inl taken ↦ rw taken (move-IsAlive t checking s refl h)
  | inr free ↦ rw free (
      move-IsAlive t (claimed s.attempts) (record s { claiming = true }) refl
        (record { shown = h.shown; hidden = h.hidden }))
]

pub inactive-unpublished : (p : Phase) → active p ≡ false → unpublished p ≡ none
inactive-unpublished (created adap c) h = cc
inactive-unpublished p h = refl

pub create-IsAlive :
    (t : Thread) (adap : Adapter) (s : State)
    → s.client ≡ none
    → IsAlive s
    → IsAlive (create t adap s)
unfolding create
create-IsAlive t adap s absent h = record { shown = λ c e. cc (e, absent); hidden = hidden t }
  where
    still : (c : ℕ) → s.live c ≡ true → (if s.next == c then true else s.live c) ≡ true
    still c k = ground arith

    fresh : (c : ℕ) → some s.next ≡ some c → (if s.next == c then true else s.live c) ≡ true
    fresh c k = ground arith

    hidden :
        (t u : Thread) (c : ℕ)
        → unpublished ((create t adap s).phase u) ≡ some c
        → (create t adap s).live c ≡ true
    hidden initial initial c e = fresh c e
    hidden initial worker c e = still c (h.hidden worker c e)
    hidden worker initial c e = still c (h.hidden initial c e)
    hidden worker worker c e = fresh c e

pub forgotten : (o : Option ℕ) (c d : ℕ) → (if is_client o c then none else o) ≡ some d → o ≡ some d
forgotten none c d h = h
forgotten (some e) c d h = ground arith

kept_live :
    (live : ℕ → Bool) (c d : ℕ)
    → some d ≢ some c
    → live d ≡ true
    → (if c == d then false else live d) ≡ true
kept_live live c d h k = ground arith

-- The pointer after a client has gone away.
kept_shown :
    (client : Option ℕ) (live : ℕ → Bool) (c : ℕ)
    → ((d : ℕ) → client ≡ some d → live d ≡ true)
    → (d : ℕ) → (if is_client client c then none else client) ≡ some d
    → (if c == d then false else live d) ≡ true
kept_shown none live c alive d h = cc
kept_shown (some e) live c alive d h = ground (arith, alive d)

pub notify_del-IsAlive :
    (c : ℕ) (s : State)
    → unpublished (s.phase initial) ≢ some c
    → unpublished (s.phase worker) ≢ some c
    → IsAlive s
    → IsAlive (notify_del c s)
unfolding notify_del
notify_del-IsAlive c s first second h = record {
  shown = kept_shown s.client s.live c h.shown;
  hidden = hidden;
}
  where
    hidden :
        (t : Thread) (d : ℕ)
        → unpublished (s.phase t) ≡ some d
        → (if c == d then false else s.live d) ≡ true
    hidden initial d e = kept_live s.live c d (λ k. first (e ∙ k)) (h.hidden initial d e)
    hidden worker d e = kept_live s.live c d (λ k. second (e ∙ k)) (h.hidden worker d e)

pub notify_add-IsAlive :
    (allow_unknown : Bool) (adap : Adapter) (s : State)
    → IsAlive s
    → IsAlive (notify_add allow_unknown adap s)
unfolding notify_add
notify_add-IsAlive allow_unknown adap s h =
    elim (Bool-cases (gated (card_matches adap allow_unknown))) [
      | inr foreign ↦ rw foreign h
      | inl ours ↦ elim (Bool-cases (is_some s.client)) [
        | inl there ↦ rw (ours, there) h
        | inr absent ↦ rw (ours, absent) (record { shown = h.shown; hidden = h.hidden })
      ]
    ]

pub check_init-IsAlive : (s : State) → IsAlive s → IsAlive (check_init s)
unfolding check_init
check_init-IsAlive s h = elim (Bool-cases (is_some s.client)) [
  | inl there ↦ rw there (move-IsAlive initial idle s refl h)
  | inr absent ↦ rw absent (
      move-IsAlive initial idle (record s { pending = true }) refl
        (record { shown = h.shown; hidden = h.hidden }))
]

pub check_worker-IsAlive : (s : State) → IsAlive s → IsAlive (check_worker s)
unfolding check_worker
check_worker-IsAlive s h = elim (Bool-cases (is_some s.client)) [
  | inl there ↦ rw there (move-IsAlive worker idle s refl h)
  | inr absent ↦ rw absent (move-IsAlive worker judging s refl h)
]
