-- ===== src/Bio/Release.antt =====
-- What the holder of a buffer does: it stores into it, marks it dirty, writes it out with `bwrite`
-- and gives it up with `brelse`.
use model_lib.Base.{
  ℕ, ◌+◌, ◌≤◌, ◌<◌, ◌≡◌, ◌≢◌, refl, sym, ap, ◌∙◌, ◌⊎◌, Bool, true, false, none, some, if◌then◌else◌,
  Option-cases, inl, inr, arith, ◌∷◌,
}
use mathlib.Core.Path.{fun_ext}
use model_lib.Base.Outcome.{ok, Returns, returns}
use model_lib.Base.Family.{
  has, count-change, count-move, update, update_self, update_ne, update_same, update-update,
  has-move, move-Distinct, erase, find_unique, find-eq_none, weight,
}
use model_lib.Bio.{
  Block, Buf, Disk, Cache, set_buf, matches, is_free, transfer, bwrite, brelse, set_bytes,
  set_dirty, write_out,
}
use model_lib.Bio.Inv.{
  IsValid, slot, look, look-some, look-none, view, held, dirty, room, cost, Owns, pick,
}
use model_lib.Bio.Slots.{slot-some, slot-none, slot-change, look-change}

-- What a step of the holder of sector `s` makes of the cache: the contents, claims and dirty marks by
-- sector, and the disk. No free buffer is lost, and no claim on another sector.
pub record Becomes (k : Cache) (s : ℕ) (view' : ℕ → Block) (held' dirty' : ℕ → Bool) (disk' : Disk)
    (k' : Cache) : Type 0 where
  pub valid : IsValid k'
  pub view_eq : view k' ≡ view'
  pub held_eq : held k' ≡ held'
  pub dirty_eq : dirty k' ≡ dirty'
  pub disk_eq : k'.disk ≡ disk'
  pub room_le : room k ≤ room k'
  pub keeps : (j t : ℕ) → t ≢ s → Owns k j t → Owns k' j t

-- The disk after a write of sector `s`.
abbrev pub written : ℕ → Block → Disk → Disk
written s v d = record d { blocks = update d.blocks s v; history = (s, v) ∷ d.history }

-- The caller holds sector `s` in buffer `i`.
module _ (k : Cache) (v : IsValid k) (i s : ℕ) (own : Owns k i s) where
  -- A change to the held buffer that leaves it held.
  module _ (b : Buf) (same_dev : b.dev ≡ (k.buf i).dev) (same_sector : b.sector ≡ (k.buf i).sector)
      (busy : b.busy ≡ true) (valid : b.valid ≡ true) where
    change-Becomes :
        Becomes k s
          (update (view k) s b.bytes)
          (held k)
          (update (dirty k) s b.dirty)
          k.disk
          (set_buf i b k)
    unfolding view held dirty room
    change-Becomes =
        let (hi, di, si) = slot-some k s i own.0 in
        record {
          valid = record {
            distinct = v.distinct;
            unique = λ x y hx hy dx dy e.
                v.unique x y hx hy (ground arith) (ground arith) (ground arith);
            loaded = λ x hx dx. ground (arith, v.loaded x hx);
            clean = λ x hx dx f. ground (arith, v.clean x hx);
            spare = λ x hx dx. ground (arith, v.spare x hx);
            total = v.total;
          };
          view_eq = look-change k i b same_dev same_sector (λ b. b.bytes) k.disk.blocks s own.0;
          held_eq =
              look-change k i b same_dev same_sector (λ b. b.busy) (λ t. false) s own.0
              ∙ update_same (held k) s b.busy
                  (look-some (λ b. b.busy) (λ t. false) k s i own.0 ∙ own.1 ∙ sym busy);
          dirty_eq = look-change k i b same_dev same_sector (λ b. b.dirty) (λ t. false) s own.0;
          disk_eq = refl;
          room_le = omega (
            arith,
            count-change (λ j. is_free (k.buf j)) (λ j. is_free (update k.buf i b j)) i k.order
                v.distinct hi (λ j ne. ap is_free (sym (update_ne k.buf i j b ne))),
            held_weight,
          );
          keeps = λ j t ne o. (slot-change k i b same_dev same_sector t ∙ o.0, ground (arith, o.1));
        }
      where
        held_weight : weight (is_free (k.buf i)) ≡ 0
        held_weight = ground (arith, own.1)

  valid_own : (k.buf i).valid ≡ true
  valid_own = let (hi, di, si) = slot-some k s i own.0 in v.loaded i hi di

  -- The bytes of the held buffer are what the sector reads as.
  pub bytes_own : (k.buf i).bytes ≡ view k s
  unfolding view
  bytes_own = sym (look-some (λ b. b.bytes) k.disk.blocks k s i own.0)

  dirty_own : (k.buf i).dirty ≡ dirty k s
  unfolding dirty
  dirty_own = sym (look-some (λ b. b.dirty) (λ t. false) k s i own.0)

  pub set_bytes_lem :
      (c : Block) → Becomes k s (update (view k) s c) (held k) (dirty k) k.disk (set_bytes i c k)
  unfolding set_bytes
  set_bytes_lem c =
      let r = change-Becomes (record (k.buf i) { bytes = c }) refl refl own.1 valid_own in
      rw (update_same (dirty k) s (k.buf i).dirty (sym dirty_own)) at r

  pub set_bytes-Owns : (c : Block) → Owns (set_bytes i c k) i s
  unfolding set_bytes
  set_bytes-Owns c =
      (slot-change k i (record (k.buf i) { bytes = c }) refl refl s ∙ own.0, ground (arith, own.1))

  pub set_dirty_lem : Becomes k s (view k) (held k) (update (dirty k) s true) k.disk (set_dirty i k)
  unfolding set_dirty
  set_dirty_lem =
      let r = change-Becomes (record (k.buf i) { dirty = true }) refl refl own.1 valid_own in
      rw (update_same (view k) s (k.buf i).bytes (sym bytes_own)) at r

  pub set_dirty-Owns : Owns (set_dirty i k) i s
  unfolding set_dirty
  set_dirty-Owns = (
    slot-change k i (record (k.buf i) { dirty = true }) refl refl s ∙ own.0,
    ground (arith, own.1),
  )

  -- The cache after the disk's write of the held buffer.
  flushed : Cache
  flushed = record k {
    buf = update k.buf i (record (k.buf i) { dirty = false; valid = true });
    disk = written s (k.buf i).bytes k.disk;
  }

  flushed-Becomes :
      Becomes k s (view k) (held k) (update (dirty k) s false) (written s (view k s) k.disk) flushed
  unfolding flushed view held dirty room
  flushed-Becomes =
      let b = record (k.buf i) { dirty = false; valid = true } in
      let (hi, di, si) = slot-some k s i own.0 in
      let r = change-Becomes b refl refl own.1 refl in
      record {
        valid = record {
          distinct = v.distinct;
          unique = r.valid.unique;
          loaded = r.valid.loaded;
          spare = r.valid.spare;
          total = r.valid.total;
          clean = λ x hx dx f. ground (arith, v.clean x hx, v.unique x i hx hi);
        };
        view_eq =
            (fun_ext λ t. same_disk t (Option-cases (slot (set_buf i b k) t)))
            ∙ r.view_eq
            ∙ update_same (view k) s (k.buf i).bytes (sym bytes_own);
        held_eq = r.held_eq;
        dirty_eq = r.dirty_eq;
        disk_eq = ap (λ c. written s c k.disk) bytes_own;
        room_le = r.room_le;
        keeps = r.keeps;
      }
    where
      same_disk :
          (t : ℕ)
          → (slot flushed t ≡ none) ⊎ ((j : ℕ) × (slot flushed t ≡ some j))
          → view flushed t ≡ view (set_buf i (record (k.buf i) { dirty = false; valid = true }) k) t
      same_disk t (inl n) =
          let b = record (k.buf i) { dirty = false; valid = true } in
          let e : slot k s ≡ slot flushed s = sym (slot-change k i b refl refl s) in
          let ne : t ≢ s = λ q. cc (ap (slot flushed) q, e, own.0) in
          look-none (λ b. b.bytes) (update k.disk.blocks s (k.buf i).bytes) flushed t n
          ∙ update_ne k.disk.blocks s t (k.buf i).bytes ne
          ∙ sym (look-none (λ b. b.bytes) k.disk.blocks (set_buf i b k) t n)
      same_disk t (inr (j, e)) =
          let b = record (k.buf i) { dirty = false; valid = true } in
          look-some (λ b. b.bytes) (update k.disk.blocks s (k.buf i).bytes) flushed t j e
          ∙ sym (look-some (λ b. b.bytes) k.disk.blocks (set_buf i b k) t j e)

  bwrite-ok : s < k.disk.size → bwrite i k ≡ ok flushed
  unfolding bwrite flushed transfer write_out
  bwrite-ok small =
      let (hi, di, si) = slot-some k s i own.0 in
      ground (
        arith,
        own.1,
        update-update k.buf i (record (k.buf i) { dirty = true })
            (record (k.buf i) { dirty = false; valid = true }),
      )

  -- `brelse` of a held buffer whose contents are on the disk, or which is dirty.
  released : Cache
  released = record k {
    buf = update k.buf i (record (k.buf i) { busy = false });
    order = i ∷ erase i k.order;
  }

  brelse-ok : brelse i k ≡ ok released
  unfolding brelse released
  brelse-ok = rw own.1

  release_order : (j : ℕ) → has released.order j ≡ has k.order j
  unfolding released
  release_order j = has-move i j k.order (slot-some k s i own.0).0

  release_same_dev : (j : ℕ) → (released.buf j).dev ≡ (k.buf j).dev
  unfolding released
  release_same_dev j = ground arith

  release_same_sector : (j : ℕ) → (released.buf j).sector ≡ (k.buf j).sector
  unfolding released
  release_same_sector j = ground arith

  -- The list has changed, and each sector is found in the same buffer.
  release-slot : (t : ℕ) → slot released t ≡ slot k t
  unfolding released
  release-slot t = elim (Option-cases (slot k t)) [
    | inl n ↦
        find-eq_none (matches released.buf 1 t) released.order
          (λ j hj. ground (arith, slot-none k t j n (sym (release_order j) ∙ hj)))
        ∙ sym n
    | inr (j, e) ↦
        let (hj, dj, sj) = slot-some k t j e in
        find_unique (matches released.buf 1 t) released.order j (release_order j ∙ hj)
          (ground arith)
          (λ l hl m. v.unique l j (sym (release_order l) ∙ hl) hj (ground arith) dj (ground arith))
        ∙ sym e
  ]

  module _ (settled : (dirty k s ≡ true) ⊎ (view k s ≡ k.disk.blocks s)) where
    released-IsValid : IsValid released
    unfolding released
    released-IsValid =
        let (hi, di, si) = slot-some k s i own.0 in
        record {
          distinct = move-Distinct i k.order v.distinct;
          unique = λ x y hx hy dx dy e.
              v.unique x y (sym (release_order x) ∙ hx) (sym (release_order y) ∙ hy) (ground arith)
                (ground arith) (ground arith);
          loaded = λ x hx dx. ground (arith, v.loaded x (sym (release_order x) ∙ hx));
          spare = λ x hx dx. ground (arith, v.spare x (sym (release_order x) ∙ hx));
          total = count-move (λ x. true) i k.order hi ∙ v.total;
          clean = λ x hx dx f. ground (
            arith,
            v.clean x (sym (release_order x) ∙ hx),
            v.unique x i (sym (release_order x) ∙ hx) hi,
            bytes_own,
            dirty_own,
          );
        }

    look-release {ℓ} :
        {X : Type ℓ} (f : Buf → X) (d : ℕ → X)
        → look f d released ≡ update (look f d k) s (f (record (k.buf i) { busy = false }))
    unfolding released
    look-release f d =
        let b = record (k.buf i) { busy = false } in
        (fun_ext λ t.
          ap (pick (λ j. f (update k.buf i b j)) (d t))
            (release-slot t ∙ sym (slot-change k i b refl refl t)))
        ∙ look-change k i b refl refl f d s own.0

    room-release : room k + cost k s ≤ room released
    unfolding released room cost
    room-release =
        let b = record (k.buf i) { busy = false } in
        let hi = (slot-some k s i own.0).0 in
        let held_weight : weight (is_free (k.buf i)) ≡ 0 = ground (arith, own.1) in
        let gain : weight (is_free b) ≡ (if dirty k s then 0 else 1) = ground (arith, dirty_own) in
        let at : weight (is_free (update k.buf i b i)) ≡ weight (is_free b) =
          ap (λ x. weight (is_free x)) (update_self k.buf i b) in
        omega (
          arith,
          held_weight,
          gain,
          at,
          count-change (λ j. is_free (k.buf j)) (λ j. is_free (update k.buf i b j)) i k.order
              v.distinct hi (λ j ne. ap is_free (sym (update_ne k.buf i j b ne))),
          count-move (λ j. is_free (update k.buf i b j)) i k.order hi,
        )

    -- `brelse` of a held sector that is dirty, or whose contents are on the disk, returns: the claim on
    -- it is gone, nothing else changes, and its buffer is free again unless it is dirty.
    pub brelse_lem :
        Returns
          (λ k'.
            Becomes k s (view k) (update (held k) s false) (dirty k) k.disk k'
            × (room k + cost k s ≤ room k'))
          (brelse i k)
    unfolding view held dirty released
    brelse_lem = rw brelse-ok (
        returns released (
          record {
            valid = released-IsValid;
            view_eq =
                look-release (λ b. b.bytes) k.disk.blocks
                ∙ update_same (view k) s (k.buf i).bytes (sym bytes_own);
            held_eq = look-release (λ b. b.busy) (λ t. false);
            dirty_eq =
                look-release (λ b. b.dirty) (λ t. false)
                ∙ update_same (dirty k) s (k.buf i).dirty (sym dirty_own);
            disk_eq = refl;
            room_le = omega (arith, room-release);
            keeps = λ j t ne o. kept j t ne o;
          },
          room-release,
        ))
      where
        kept : (j t : ℕ) → t ≢ s → Owns k j t → Owns released j t
        kept j t ne o =
            let ji : j ≢ i = λ e. ne (
              sym (slot-some k t j o.0).2
              ∙ ap (λ x. (k.buf x).sector) e
              ∙ (slot-some k s i own.0).2) in
            (release-slot t ∙ o.0, ground (arith, o.1))

  -- `bwrite` of a held sector of the disk returns: the disk has the contents that the sector reads as,
  -- by one write; the sector is no longer dirty, and the caller still holds it.
  pub bwrite_lem :
      s < k.disk.size
      → Returns
          (λ k'.
            Becomes k s
              (view k)
              (held k)
              (update (dirty k) s false)
              (written s (view k s) k.disk)
              k'
            × Owns k' i s)
          (bwrite i k)
  unfolding flushed
  bwrite_lem small =
      let b = record (k.buf i) { dirty = false; valid = true } in
      rw (bwrite-ok small) (
        returns flushed
          (flushed-Becomes, (slot-change k i b refl refl s ∙ own.0, ground (arith, own.1))))
