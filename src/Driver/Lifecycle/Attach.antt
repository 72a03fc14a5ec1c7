-- ===== src/Driver/Lifecycle/Attach.antt =====
-- What an attach that succeeds has seen: the refresh of `astral_attach` reads the chip with the zeroed
-- data of the new client.
use astral_hwmon.Base.{
  ℕ, ◌≡◌, refl, sym, ap, ◌∙◌, inl, inr, Bool, true, false, some, List, ◌==◌, arith, Bool-cases,
  length,
}
use astral_hwmon.Driver.Regs.{
  Frame, Transfer, fault, block, read_frame, decode_frame, frame_plausible, astral_block_len,
}
use astral_hwmon.Driver.Regs.Plausible.{IsPlausible, frame_plausible_iff}
use astral_hwmon.Driver.Cache.{Moment, zeroed, commit, refresh_locked}
use astral_hwmon.Driver.Cache.Traffic.{cache_hit-invalid}
use astral_hwmon.Driver.Lifecycle.{settling, attach_result}

-- The block is whole and every channel of it is in the published range.
abbrev pub IsAnswer : Frame → Transfer → Type 0
IsAnswer u t =
    (buf : List ℕ) × (t ≡ block buf)
    × (length buf ≡ astral_block_len)
    × IsPlausible (decode_frame buf u)

commit-IsAnswer :
    (u : Frame) (m : Moment) (t : Transfer)
    → (commit zeroed m (read_frame t u)).ret ≡ 0
    → IsAnswer u t
unfolding commit read_frame
commit-IsAnswer u m (fault n) h = absurd (ground arith)
commit-IsAnswer u m (block buf) h = elim (Bool-cases (length buf == astral_block_len)) [
  | inr short ↦ absurd (ground arith)
  | inl full ↦ elim (Bool-cases (frame_plausible (decode_frame buf u))) [
    | inr bad ↦ absurd (ground arith)
    | inl good ↦ (buf, refl, ground arith, (frame_plausible_iff (decode_frame buf u)).0 good)
  ]
]

refresh_locked-zeroed :
    (ttl : ℕ) (u : Frame) (m : Moment)
    → refresh_locked ttl u zeroed m ≡ commit zeroed m (read_frame m.transfer u)
unfolding refresh_locked
refresh_locked-zeroed ttl u m = rw (cache_hit-invalid ttl zeroed m.now refl) refl

settled_fine :
    (z mx : Bool) (ret : ℕ) (r : Bool) (c : ℕ)
    → attach_result z mx ret r c ≡ settling (some c)
    → (z ≡ true) × (mx ≡ true) × (ret ≡ 0) × (r ≡ true)
unfolding attach_result
settled_fine false mx ret r c h = cc
settled_fine true false ret r c h = cc
settled_fine true true ret r c h = ground arith

-- An attach keeps its client only if both allocations succeed, hwmon registers the device, and the
-- chip has answered with a whole block whose twelve channels are all in range: a silent or
-- all-zeros chip is never kept.
pub attach_result-IsAnswer :
    (ttl : ℕ) (u : Frame) (m : Moment) (zalloc mutex_init registered : Bool) (c : ℕ)
    → attach_result zalloc mutex_init (refresh_locked ttl u zeroed m).ret registered c
      ≡ settling (some c)
    → (zalloc ≡ true) × (mutex_init ≡ true) × (registered ≡ true) × IsAnswer u m.transfer
attach_result-IsAnswer ttl u m z mx r c h =
    let (a, b, zero_ret, d) = settled_fine z mx (refresh_locked ttl u zeroed m).ret r c h in
    (
      a,
      b,
      d,
      commit-IsAnswer u m m.transfer
          (sym (ap (λ x. x.ret) (refresh_locked-zeroed ttl u m)) ∙ zero_ret),
    )
