-- ===== src/Bio/Bread.antt =====
-- `bget` and `bread`: what a caller gets, and what stays as it was.
use model_lib.Base.{
  ℕ, ◌+◌, ◌≤◌, ◌<◌, ◌≡◌, ◌≢◌, refl, sym, ap, ◌∙◌, ◌⊎◌, false≢true, true, false, none, some,
  Option-cases, inl, inr, arith,
}
use model_lib.Base.Outcome.{ok, panic, asleep, Returns, returns, bget_no_buffers}
use model_lib.Base.Family.{
  has, find_last, count-change, count-pos, update, update_ne, update_same, weight, find_last-some,
  find_last-none, find_last-eq_none, count-eq_zero, weight,
}
use model_lib.Bio.{Buf, Cache, set_buf, is_free, recycled, transfer, bread}
use model_lib.Bio.Inv.{IsValid, slot, look-some, look-none, view, held, dirty, room, cost, Owns}
use model_lib.Bio.Slots.{
  slot-some, slot-none, slot-change, look-change, slot-recycle_self, slot-recycle_ne, look-recycle,
}

-- What `bread` of sector `s` gives: the sector's buffer `i`, held, with every sector reading as before,
-- the disk untouched, and no other claim or dirty mark changed. One buffer less is free, if the sector was
-- not dirty.
pub record Read (k : Cache) (s : ℕ) (i : ℕ) (k' : Cache) : Type 0 where
  pub valid : IsValid k'
  pub owns : Owns k' i s
  pub view_same : view k' ≡ view k
  pub held_set : held k' ≡ update (held k) s true
  pub dirty_same : dirty k' ≡ dirty k
  pub disk_same : k'.disk ≡ k.disk
  pub room_less : room k ≤ room k' + cost k s
  pub keeps : (j t : ℕ) → Owns k j t → Owns k' j t

abbrev pub ReadBy : Cache → ℕ → ℕ × Cache → Type 0
ReadBy k s r = Read k s r.0 r.1

-- A change to one buffer takes from the free ones at most that buffer.
room-change :
    (k : Cache) (i : ℕ) (b : Buf)
    → IsValid k
    → has k.order i ≡ true
    → room k ≤ room (set_buf i b k) + weight (is_free (k.buf i))
unfolding room
room-change k i b v h = omega (
  arith,
  count-change (λ j. is_free (k.buf j)) (λ j. is_free (update k.buf i b j)) i k.order v.distinct h
      (λ j ne. ap is_free (sym (update_ne k.buf i j b ne))),
)

-- The sector is in buffer `i`, which nobody holds.
module _ (k : Cache) (v : IsValid k) (s i : ℕ) (at : slot k s ≡ some i)
    (idle : (k.buf i).busy ≡ false) where
  hit : Cache
  hit = set_buf i (record (k.buf i) { busy = true }) k

  hit-IsValid : IsValid hit
  unfolding hit
  hit-IsValid = record {
    distinct = v.distinct;
    unique = λ a b ha hb da db e. v.unique a b ha hb (ground arith) (ground arith) (ground arith);
    loaded = λ a ha da. ground (arith, v.loaded a ha);
    clean = λ a ha da free. ground (arith, v.clean a ha);
    spare = λ a ha da. ground (arith, v.spare a ha, (slot-some k s i at).1);
    total = v.total;
  }

  hit-Read : Read k s i hit
  unfolding hit view held dirty cost
  hit-Read = record {
    valid = hit-IsValid;
    owns = (slot-change k i (record (k.buf i) { busy = true }) refl refl s ∙ at, ground arith);
    view_same =
        look-change k i (record (k.buf i) { busy = true }) refl refl (λ b. b.bytes) k.disk.blocks s
          at
        ∙ update_same (view k) s (k.buf i).bytes (look-some (λ b. b.bytes) k.disk.blocks k s i at);
    held_set =
        look-change k i (record (k.buf i) { busy = true }) refl refl (λ b. b.busy) (λ t. false) s
          at;
    dirty_same =
        look-change k i (record (k.buf i) { busy = true }) refl refl (λ b. b.dirty) (λ t. false) s
          at
        ∙ update_same (dirty k) s (k.buf i).dirty (look-some (λ b. b.dirty) (λ t. false) k s i at);
    disk_same = refl;
    room_less =
        let w : weight (is_free (k.buf i)) ≤ cost k s =
          (let e = look-some (λ b. b.dirty) (λ t. false) k s i at in ground arith) in
        omega
          (arith, w, room-change k i (record (k.buf i) { busy = true }) v (slot-some k s i at).0);
    keeps = λ j t own. (
      slot-change k i (record (k.buf i) { busy = true }) refl refl t ∙ own.0,
      ground (arith, own.1),
    );
  }

-- The sector is in no buffer, and the free buffer `i` is recycled and read in.
module _ (k : Cache) (v : IsValid k) (s i : ℕ) (miss : slot k s ≡ none) (h : has k.order i ≡ true)
    (free : is_free (k.buf i) ≡ true) where
  pub read_in : Buf
  read_in = record (recycled 1 s (k.buf i)) { bytes = k.disk.blocks s; valid = true }

  pub filled : Cache
  unfolding read_in
  filled = set_buf i read_in k

  filled-IsValid : IsValid filled
  unfolding filled
  filled-IsValid = record {
    distinct = v.distinct;
    unique = λ a b ha hb da db e.
        ground (arith, v.unique a b ha hb, slot-none k s a miss ha, slot-none k s b miss hb);
    loaded = λ a ha da. ground (arith, v.loaded a ha);
    clean = λ a ha da f. ground (arith, v.clean a ha);
    spare = λ a ha da. ground (arith, v.spare a ha);
    total = v.total;
  }

  pub filled-Read : Read k s i filled
  unfolding filled view held dirty cost
  filled-Read = record {
    valid = filled-IsValid;
    owns = (slot-recycle_self k v i s read_in h miss refl refl, ground arith);
    view_same =
        look-recycle k v i s read_in h miss refl refl (λ b. b.bytes) k.disk.blocks
          (λ t e.
            let (hi, di, si) = slot-some k t i e in v.clean i hi di free ∙ ap k.disk.blocks si)
        ∙ update_same (view k) s (k.disk.blocks s)
            (look-none (λ b. b.bytes) k.disk.blocks k s miss);
    held_set =
        look-recycle k v i s read_in h miss refl refl (λ b. b.busy) (λ t. false)
          (λ t e. ground arith);
    dirty_same =
        look-recycle k v i s read_in h miss refl refl (λ b. b.dirty) (λ t. false)
          (λ t e. ground arith)
        ∙ update_same (dirty k) s false (look-none (λ b. b.dirty) (λ t. false) k s miss);
    disk_same = refl;
    room_less =
        let e = look-none (λ b. b.dirty) (λ t. false) k s miss in
        let w : weight (is_free (k.buf i)) ≤ cost k s = ground arith in
        omega (arith, w, room-change k i read_in v h);
    keeps = λ j t own.
        let ne : j ≢ i = λ e. ground (arith, own.1) in
        let ts : t ≢ s = λ e. cc (ap (slot k) e, own.0) in
        (slot-recycle_ne k v i s read_in h miss refl refl t j ts ne own.0, ground (arith, own.1));
  }

count_zero : (k : Cache) → room k ≡ 0 → (i : ℕ) → has k.order i ≡ true → is_free (k.buf i) ≡ false
unfolding room
count_zero k e i h = count-eq_zero (λ j. is_free (k.buf j)) k.order e i h

module _ (k : Cache) (v : IsValid k) (s : ℕ) (small : s < k.disk.size) where
  bread-hit :
      (i : ℕ) → slot k s ≡ some i → (k.buf i).busy ≡ false → Returns (ReadBy k s) (bread 1 s k)
  unfolding bread hit
  bread-hit i at idle =
      let (hi, di, si) = slot-some k s i at in
      let e : bread 1 s k ≡ ok (i, hit k v s i at idle) = ground (arith, v.loaded i hi di) in
      rw e (returns (i, hit k v s i at idle) (hit-Read k v s i at idle))

  bread-miss :
      (i : ℕ)
      → slot k s ≡ none
      → find_last (λ j. is_free (k.buf j)) k.order ≡ some i
      → Returns (ReadBy k s) (bread 1 s k)
  unfolding bread filled transfer
  bread-miss i miss last =
      let (free, hi) = find_last-some (λ j. is_free (k.buf j)) k.order last in
      let e : bread 1 s k ≡ ok (i, filled k v s i miss hi free) = ground (arith, small) in
      rw e (returns (i, filled k v s i miss hi free) (filled-Read k v s i miss hi free))

  -- `bread` of a sector of the disk that nobody holds returns, if the sector's buffer is dirty or some
  -- buffer is free.
  pub bread_lem : held k s ≡ false → cost k s ≤ room k → Returns (ReadBy k s) (bread 1 s k)
  unfolding held room dirty cost
  bread_lem idle free = split (Option-cases (slot k s))
    where
      split :
          (slot k s ≡ none) ⊎ ((i : ℕ) × (slot k s ≡ some i)) → Returns (ReadBy k s) (bread 1 s k)
      split (inl miss) = elim (Option-cases (find_last (λ j. is_free (k.buf j)) k.order)) [
        | inl full ↦
            let e = look-none (λ b. b.dirty) (λ t. false) k s miss in
            let (i, t, h) = count-pos (λ j. is_free (k.buf j)) k.order (ground arith) in
            absurd (false≢true (sym (find_last-none (λ j. is_free (k.buf j)) k.order i full h) ∙ t))
        | inr (i, last) ↦ bread-miss i miss last
      ]
      split (inr (i, at)) =
          bread-hit i at (sym (look-some (λ b. b.busy) (λ t. false) k s i at) ∙ idle)

-- A sector that a process holds makes the caller sleep, with nothing changed.
pub bread-asleep : (k : Cache) (s : ℕ) → held k s ≡ true → bread 1 s k ≡ asleep
unfolding held bread
bread-asleep k s busy = elim (Option-cases (slot k s)) [
  | inl miss ↦ absurd (false≢true (sym (look-none (λ b. b.busy) (λ t. false) k s miss) ∙ busy))
  | inr (i, at) ↦
      (let b : (k.buf i).busy ≡ true = sym (look-some (λ b. b.busy) (λ t. false) k s i at) ∙ busy in
        ground arith)
]

-- With every buffer held or dirty, a sector that is in none of them makes `bget` panic.
pub bread-panics :
    (k : Cache) (s : ℕ) → slot k s ≡ none → room k ≡ 0 → bread 1 s k ≡ panic bget_no_buffers
unfolding bread
bread-panics k s miss full =
    ground (arith, find_last-eq_none (λ j. is_free (k.buf j)) k.order (count_zero k full))
