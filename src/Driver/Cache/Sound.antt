-- ===== src/Driver/Cache/Sound.antt =====
-- What a reader can be given: a cache that is valid holds the frame of the last block that the bus
-- gave, which was whole and plausible, and so no operation publishes anything else.
use astral_hwmon.Base.{
  ℕ, zero, suc, ◌≡◌, refl, ◌≢◌, inl, inr, Bool, true, Option, none, some, List, [], ◌∷◌, arith,
  ◌==◌, if◌then◌else◌, length, Bool-cases, All, Pin, pin1, pin2, pin3, pin4, pin5, pin6, index,
  pin_at, ap,
}
use astral_hwmon.Base.Int.{ℤ, pos, negsuc}
use astral_hwmon.Driver.Regs.{
  Frame, astral_block_len, decode_frame, frame_plausible, read_frame, Transfer, fault, block,
  Result, ok, err,
}
use astral_hwmon.Driver.Regs.Plausible.{IsPlausible, frame_plausible_iff}
use astral_hwmon.Driver.Cache.{
  eproto, astral_cache_ttl_ms, Data, zeroed, Moment, Refresh, commit, SensorType, hwmon_chip,
  hwmon_in, hwmon_curr, hwmon_other, Attr, hwmon_chip_update_interval, attr_other, Request,
  channel_pin, Reading, select, answer, cache_hit, refresh_locked, read_channel, read_as, read,
}

pin_at-eq : (n : ℕ) (p : Pin) → pin_at n ≡ some p → n ≡ index p
pin_at-eq zero pin1 h = refl
pin_at-eq (suc zero) pin2 h = refl
pin_at-eq (suc (suc zero)) pin3 h = refl
pin_at-eq (suc (suc (suc zero))) pin4 h = refl
pin_at-eq (suc (suc (suc (suc zero)))) pin5 h = refl
pin_at-eq (suc (suc (suc (suc (suc zero))))) pin6 h = refl
pin_at-eq n p h = cc

-- The channel of index `index p` is that of the pin.
channel_pin-index : (c : ℤ) (p : Pin) → channel_pin c ≡ some p → c ≡ pos (index p)
channel_pin-index (negsuc n) p h = cc
channel_pin-index (pos n) p h = ap pos (pin_at-eq n p h)

-- The bus gave a block, whole and plausible, whose frame has this property.
abbrev pub Gave : Frame → Option Transfer → (Frame → Type 0) → Type 0
Gave u none P = ⊥
Gave u (some (fault n)) P = ⊥
Gave u (some (block buf)) P =
    (length buf ≡ astral_block_len) × IsPlausible (decode_frame buf u) × P (decode_frame buf u)

-- The last outcome of a block read, after an operation that made one or did not.
abbrev pub newest : Bool → Transfer → Option Transfer → Option Transfer
newest traffic t last = if traffic then some t else last

-- A valid cache holds the frame of the last block.
abbrev pub IsSound : Frame → Option Transfer → Data → Type 0
IsSound u last d = d.valid ≡ true → Gave u last (λ f. f ≡ d.frame)

Gave-map :
    (u : Frame) (last : Option Transfer) (P Q : Frame → Type 0)
    → ((f : Frame) → P f → Q f)
    → Gave u last P
    → Gave u last Q
Gave-map u none P Q h g = g
Gave-map u (some (fault n)) P Q h g = g
Gave-map u (some (block buf)) P Q h g = (g.0, g.1, h (decode_frame buf u) g.2)

module _ (ttl : ℕ) (u : Frame) where
  commit-IsSound :
      (d : Data) (m : Moment) (t : Transfer)
      → IsSound u (some t) (commit d m (read_frame t u)).cache
  unfolding commit read_frame
  commit-IsSound d m (fault n) = λ h. cc
  commit-IsSound d m (block buf) = elim (Bool-cases (length buf == astral_block_len)) [
    | inr short ↦ rw short (λ h. cc)
    | inl full ↦ elim (Bool-cases (frame_plausible (decode_frame buf u))) [
      | inl good ↦
          rw (full, good)
            (λ _. (ground arith, (frame_plausible_iff (decode_frame buf u)).0 good, refl))
      | inr bad ↦ rw (full, bad) (λ h. cc)
    ]
  ]

  commit-traffic : (d : Data) (m : Moment) (r : Result Frame) → (commit d m r).traffic ≡ true
  unfolding commit
  commit-traffic d m (err e) = refl
  commit-traffic d m (ok fresh) = ground arith

  -- After a refresh.
  abbrev Refreshed : Option Transfer → Moment → Refresh → Type 0
  Refreshed last m r = IsSound u (newest r.traffic m.transfer last) r.cache

  refresh_locked-IsSound :
      (d : Data) (last : Option Transfer) (m : Moment)
      → IsSound u last d
      → Refreshed last m (refresh_locked ttl u d m)
  unfolding refresh_locked
  refresh_locked-IsSound d last m s = elim (Bool-cases (cache_hit ttl d m.now)) [
    | inl hit ↦ rw hit s
    | inr miss ↦
        rw (miss, commit-traffic d m (read_frame m.transfer u)) (commit-IsSound d m m.transfer)
  ]

  read_frame-ne-zero : (t : Transfer) (e : ℕ) → read_frame t u ≡ err e → e ≢ 0
  unfolding read_frame
  read_frame-ne-zero (fault n) e h = ground arith
  read_frame-ne-zero (block buf) e h = ground arith

  -- A refresh that reports success leaves a valid cache.
  commit_valid :
      (d : Data) (m : Moment) (r : Result Frame)
      → ((e : ℕ) → r ≡ err e → e ≢ 0)
      → (commit d m r).ret ≡ 0
      → (commit d m r).cache.valid ≡ true
  unfolding commit
  commit_valid d m (err e) nonzero h = absurd (nonzero e refl h)
  commit_valid d m (ok fresh) nonzero h = ground arith

  refresh_locked_valid :
      (d : Data) (m : Moment)
      → (refresh_locked ttl u d m).ret ≡ 0
      → (refresh_locked ttl u d m).cache.valid ≡ true
  unfolding refresh_locked cache_hit
  refresh_locked_valid d m = elim (Bool-cases (cache_hit ttl d m.now)) [
    | inl hit ↦ rw (hit, refresh_locked) (λ h. ground arith)
    | inr miss ↦
        rw (miss, refresh_locked)
          (commit_valid d m (read_frame m.transfer u) (λ e. read_frame-ne-zero m.transfer e))
  ]

-- What may be published for a channel of a type, after the last block: the interval, or the value of
-- the pin of that channel in the block.
abbrev pub IsPublished : Frame → Option Transfer → SensorType → ℤ → ℕ → Type 0
IsPublished u last hwmon_chip c v = v ≡ astral_cache_ttl_ms
IsPublished u last hwmon_in c v =
    (p : Pin) × (c ≡ pos (index p)) × Gave u last (λ f. f.millivolts p ≡ v)
IsPublished u last hwmon_curr c v =
    (p : Pin) × (c ≡ pos (index p)) × Gave u last (λ f. f.milliamps p ≡ v)
IsPublished u last hwmon_other c v = ⊥

-- What a reply may be: a published value, or an error other than the internal -EPROTO.
abbrev pub IsReply : Frame → Option Transfer → SensorType → ℤ → Result ℕ → Type 0
IsReply u last type c (ok v) = IsPublished u last type c v
IsReply u last type c (err e) = (e ≢ 0) × (e ≢ eproto)

module _ (u : Frame) (last : Option Transfer) where
  select-IsReply :
      (type : SensorType) (frame : Frame) (c : ℤ) (p : Pin)
      → type ≢ hwmon_chip
      → c ≡ pos (index p)
      → Gave u last (λ f. f ≡ frame)
      → IsReply u last type c (select type frame p)
  unfolding select
  select-IsReply hwmon_chip frame c p h e g = absurd (h refl)
  select-IsReply hwmon_in frame c p h e g =
      (p, e, Gave-map u last (λ f. f ≡ frame) _ (λ f k. ap (λ (x : Frame). x.millivolts p) k) g)
  select-IsReply hwmon_curr frame c p h e g =
      (p, e, Gave-map u last (λ f. f ≡ frame) _ (λ f k. ap (λ (x : Frame). x.milliamps p) k) g)
  select-IsReply hwmon_other frame c p h e g = (ground arith, ground arith)

  answer-IsReply :
      (type : SensorType) (c : ℤ) (p : Pin) (r : Refresh)
      → type ≢ hwmon_chip
      → c ≡ pos (index p)
      → IsSound u last r.cache
      → (r.ret ≡ 0 → r.cache.valid ≡ true)
      → IsReply u last type c (answer type p r).result
  unfolding answer
  answer-IsReply type c p r h e sound valid = elim (Bool-cases (r.ret == 0)) [
    | inl fine ↦ rw fine (select-IsReply type r.cache.frame c p h e (sound (valid (ground arith))))
    | inr failed ↦ elim (Bool-cases (r.ret == eproto)) [
      | inl proto ↦ rw (failed, proto) (ground arith, ground arith)
      | inr other ↦ rw (failed, other) (ground arith, ground arith)
    ]
  ]

module _ (ttl : ℕ) (u : Frame) (d : Data) (last : Option Transfer) (s : IsSound u last d) where
  -- A reply and the cache after it are right, in view of the last block then.
  abbrev pub IsRight : SensorType → ℤ → Moment → Reading → Type 0
  IsRight type c m r =
      IsReply u (newest r.traffic m.transfer last) type c r.result
      × IsSound u (newest r.traffic m.transfer last) r.cache

  read_channel-IsRight :
      (type : SensorType) (c : ℤ) (o : Option Pin) (m : Moment)
      → type ≢ hwmon_chip
      → ((p : Pin) → o ≡ some p → c ≡ pos (index p))
      → IsRight type c m (read_channel ttl u d type o m)
  unfolding read_channel
  read_channel-IsRight type c none m h at = ((ground arith, ground arith), s)
  read_channel-IsRight type c (some p) m h at =
      let sound = refresh_locked-IsSound ttl u d last m s in
      (
        unfold answer in
            answer-IsReply u _ type c p (refresh_locked ttl u d m) h (at p refl) sound
              (refresh_locked_valid ttl u d m),
        unfold answer in sound,
      )

  read_as-IsRight :
      (type : SensorType) (a : Attr) (c : ℤ) (m : Moment)
      → IsRight type c m (read_as ttl u d type a c m)
  unfolding read_as
  read_as-IsRight hwmon_chip hwmon_chip_update_interval c m = (refl, s)
  read_as-IsRight hwmon_chip attr_other c m = ((ground arith, ground arith), s)
  read_as-IsRight type a c m =
      read_channel-IsRight type c (channel_pin c) m (λ e. cc) (channel_pin-index c)

  read-IsRight : (q : Request) (m : Moment) → IsRight q.type q.channel m (read ttl u d q m)
  unfolding read
  read-IsRight q m = read_as-IsRight q.type q.attr q.channel m

-- A request, its reply, and the last outcome of a block read at that time.
pub record Reply : Type 0 where
  pub asked : Request
  pub result : Result ℕ
  pub last : Option Transfer

module _ (ttl : ℕ) (u : Frame) where
  -- The replies to a sequence of reads.
  abbrev pub replies : Data → Option Transfer → List (Request × Moment) → List Reply
  replies d last [] = []
  replies d last ((q, m) ∷ rest) =
      let r = read ttl u d q m in
      let last' = newest r.traffic m.transfer last in
      record { asked = q; result = r.result; last = last' } ∷ replies r.cache last' rest

  replies-IsReply :
      (d : Data) (last : Option Transfer) (qs : List (Request × Moment))
      → IsSound u last d
      → All (λ r. IsReply u r.last r.asked.type r.asked.channel r.result) (replies d last qs)
  replies-IsReply d last [] s = tt
  replies-IsReply d last ((q, m) ∷ rest) s =
      let right = read-IsRight ttl u d last s q m in
      (right.0, replies-IsReply (read ttl u d q m).cache _ rest right.1)

  -- From the zeroed data of a fresh device, in any sequence of reads, at any times and with any
  -- answers of the bus: a voltage or a current that is returned is that of the pin of the channel in
  -- the last block that the bus gave up to then, and this block was whole and its frame plausible;
  -- the chip's own value is the interval of 200 ms, and an error is neither 0 nor the internal
  -- -EPROTO. So nothing of a short, an implausible or an all-zeros block is ever returned.
  pub replies_from_zeroed :
      (qs : List (Request × Moment))
      → All (λ r. IsReply u r.last r.asked.type r.asked.channel r.result) (replies zeroed none qs)
  replies_from_zeroed qs = replies-IsReply zeroed none qs (λ h. cc)
