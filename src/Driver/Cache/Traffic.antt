-- ===== src/Driver/Cache/Traffic.antt =====
-- How often a read touches the bus, and which frame its reply comes from.
use astral_hwmon.Base.{
  ℕ, suc, ◌≡◌, refl, ◌∙◌, ◌≢◌, inl, inr, true, false, some, List, arith, ◌==◌, if◌then◌else◌,
  Bool-cases, length, Pin,
}
use astral_hwmon.Driver.Regs.{
  Frame, frame_plausible, read_frame, decode_frame, Transfer, fault, block, Result, ok, err, eio,
  astral_block_len,
}
use astral_hwmon.Driver.Cache.{
  eproto, Data, Moment, commit, SensorType, hwmon_in, hwmon_curr, Request, channel_pin, select,
  answer, cache_hit, refresh_locked, read_channel, read_as, read,
}

-- A request for one of the twelve sensor channels.
pub data IsChannel : Request → Pin → Type 0 where
  voltage :
      {q : Request} {p : Pin} → q.type ≡ hwmon_in → channel_pin q.channel ≡ some p → IsChannel q p
  current :
      {q : Request} {p : Pin} → q.type ≡ hwmon_curr → channel_pin q.channel ≡ some p → IsChannel q p

pub cache_hit-invalid :
    (ttl : ℕ) (d : Data) (now : ℕ) → d.valid ≡ false → cache_hit ttl d now ≡ false
unfolding cache_hit
cache_hit-invalid ttl d now h = rw h

module _ (ttl : ℕ) (u : Frame) where
  -- A read of a sensor channel is a refresh and an answer from the frame that it leaves.
  pub read-answer :
      (d : Data) (q : Request) (p : Pin) (m : Moment)
      → IsChannel q p
      → read ttl u d q m ≡ answer q.type p (refresh_locked ttl u d m)
  unfolding read read_as read_channel
  read-answer d q p m (voltage t c) = rw (t, c)
  read-answer d q p m (current t c) = rw (t, c)

  -- While the cached frame is fresh a channel is answered from it, the cache stays as it is and the
  -- bus is left alone.
  pub read-hit :
      (d : Data) (q : Request) (p : Pin) (m : Moment)
      → IsChannel q p
      → cache_hit ttl d m.now ≡ true
      → read ttl u d q m ≡ record { cache = d; result = select q.type d.frame p; traffic = false }
  read-hit d q p m c hit = rw (read-answer d q p m c) (hits d q p m hit)
    where
      hits :
          (d : Data) (q : Request) (p : Pin) (m : Moment)
          → cache_hit ttl d m.now ≡ true
          → answer q.type p (refresh_locked ttl u d m)
            ≡ record { cache = d; result = select q.type d.frame p; traffic = false }
      hits d q p m hit = unfold answer refresh_locked in rw hit

commit_invalid :
    (d : Data) (m : Moment) (r : Result Frame)
    → (commit d m r).ret ≢ 0
    → (commit d m r).cache.valid ≡ false
unfolding commit
commit_invalid d m (err e) h = refl
commit_invalid d m (ok fresh) h = ground arith

-- What a read makes of a transfer, on a cache that is not served.
unfoldable pub reply_of : SensorType → Pin → Frame → Transfer → Result ℕ
reply_of type p u (fault n) = if suc n == eproto then err eio else err (suc n)
reply_of type p u (block buf) =
    if length buf == astral_block_len
    then if frame_plausible (decode_frame buf u)
      then select type (decode_frame buf u) p
      else err eio
    else err eio

module _ (ttl : ℕ) (u : Frame) where
  miss :
      (d : Data) (type : SensorType) (p : Pin) (m : Moment) (t : Transfer)
      → ((answer type p (commit d m (read_frame t u))).result ≡ reply_of type p u t)
        × ((answer type p (commit d m (read_frame t u))).traffic ≡ true)
  unfolding answer commit read_frame reply_of
  miss d type p m (fault n) = (ground arith, refl)
  miss d type p m (block buf) = elim (Bool-cases (length buf == astral_block_len)) [
    | inr short ↦ rw short (refl, refl)
    | inl full ↦ elim (Bool-cases (frame_plausible (decode_frame buf u))) [
      | inl good ↦ rw (full, good) (refl, refl)
      | inr bad ↦ rw (full, bad) (refl, refl)
    ]
  ]

  -- Otherwise one block read is made, and the reply is the channel of the block that it gives: the
  -- errno of a transport error, except that -EPROTO becomes -EIO, and -EIO for a short or an
  -- implausible block.
  pub read-miss :
      (d : Data) (q : Request) (p : Pin) (m : Moment)
      → IsChannel q p
      → cache_hit ttl d m.now ≡ false
      → ((read ttl u d q m).result ≡ reply_of q.type p u m.transfer)
        × ((read ttl u d q m).traffic ≡ true)
  read-miss d q p m c missed = rw (read-answer ttl u d q p m c) (missing missed)
    where
      missing :
          cache_hit ttl d m.now ≡ false
          → ((answer q.type p (refresh_locked ttl u d m)).result ≡ reply_of q.type p u m.transfer)
            × ((answer q.type p (refresh_locked ttl u d m)).traffic ≡ true)
      missing e = unfold refresh_locked in rw e (miss d q.type p m m.transfer)

  -- A good block is committed to the cache, stamped with the time after the transfer.
  pub read-good :
      (d : Data) (q : Request) (p : Pin) (m : Moment) (buf : List ℕ)
      → IsChannel q p
      → cache_hit ttl d m.now ≡ false
      → m.transfer ≡ block buf
      → length buf ≡ astral_block_len
      → frame_plausible (decode_frame buf u) ≡ true
      → read ttl u d q m ≡ record {
        cache = record { frame = decode_frame buf u; last_updated = m.later; valid = true };
        result = select q.type (decode_frame buf u) p;
        traffic = true;
      }
  read-good d q p m buf c missed e full good =
      read-answer ttl u d q p m c
      ∙ unfold answer refresh_locked commit read_frame in rw (missed, e, full, good)

  -- A read that fails leaves an invalid cache, so the next one touches the bus again at any time.
  pub failed_read :
      (d : Data) (q : Request) (p : Pin) (m : Moment)
      → IsChannel q p
      → cache_hit ttl d m.now ≡ false
      → (refresh_locked ttl u d m).ret ≢ 0
      → (read ttl u d q m).cache.valid ≡ false
  failed_read d q p m c missed bad = rw (read-answer ttl u d q p m c) (invalid missed bad)
    where
      invalid :
          cache_hit ttl d m.now ≡ false
          → (refresh_locked ttl u d m).ret ≢ 0
          → (answer q.type p (refresh_locked ttl u d m)).cache.valid ≡ false
      invalid e =
          unfold answer refresh_locked in rw e (commit_invalid d m (read_frame m.transfer u))
