-- ===== src/Bio/Store.antt =====
-- The usual round of calls: `bread`, a change of the bytes, `bwrite`, `brelse`. And that a sector which
-- is neither held nor dirty reads as it stands on the disk.
use model_lib.Base.{
  Bool-cases, ◌==◌, ℕ, ◌+◌, ◌≤◌, ◌<◌, ◌≡◌, ◌≢◌, refl, sym, ap, ◌∙◌, true, false, ◌⊎◌, inl, inr,
  Option-cases, arith,
}
use mathlib.Core.Path.{ap₂}
use model_lib.Base.Outcome.{◌>>=◌, Returns, returns, Returns-bind, Returns-mono}
use model_lib.Base.Family.{has, count-ext, update, update_self, update_same, update-update}
use model_lib.Bio.{nbuf, is_free, Block, Cache, bread, bwrite, brelse, set_bytes, rewrite, peek}
use model_lib.Bio.Inv.{
  IsValid, slot, look-some, look-none, view, held, dirty, room, cost, cost-clean, cost-same, Owns,
}
use model_lib.Bio.Slots.{slot-some, slot-eq}
use model_lib.Bio.Bread.{ReadBy, bread_lem}
use model_lib.Bio.Release.{
  written, bytes_own, set_bytes_lem, set_bytes-Owns, bwrite_lem, brelse_lem,
}

-- A sector that is neither held nor dirty reads as it stands on the disk.
pub view_clean :
    (k : Cache)
    → IsValid k
    → (s : ℕ) → held k s ≡ false
    → dirty k s ≡ false
    → view k s ≡ k.disk.blocks s
unfolding view held dirty
view_clean k v s h d = elim (Option-cases (slot k s)) [
  | inl n ↦ look-none (λ b. b.bytes) k.disk.blocks k s n
  | inr (i, e) ↦
      let (hi, di, si) = slot-some k s i e in
      let busy : (k.buf i).busy ≡ false = sym (look-some (λ b. b.busy) (λ t. false) k s i e) ∙ h in
      let mark : (k.buf i).dirty ≡ false =
        sym (look-some (λ b. b.dirty) (λ t. false) k s i e) ∙ d in
      look-some (λ b. b.bytes) k.disk.blocks k s i e
      ∙ v.clean i hi di (ground arith)
      ∙ ap k.disk.blocks si
]

-- One write of the disk, of contents `c` at sector `s`, that leaves nothing held.
pub record Stored (k : Cache) (s : ℕ) (c : Block) (k' : Cache) : Type 0 where
  pub valid : IsValid k'
  pub view_eq : view k' ≡ update (view k) s c
  pub held_eq : held k' ≡ held k
  pub dirty_eq : dirty k' ≡ update (dirty k) s false
  pub disk_eq : k'.disk ≡ written s c k.disk
  pub room_gain : room k + 1 ≤ room k' + cost k s
  pub keeps : (j t : ℕ) → t ≢ s → Owns k j t → Owns k' j t

-- One write of a sector that nobody holds, of `content`, which may depend on the cache after `bread`.
pub write_round :
    (k : Cache) (s : ℕ) (content : ℕ → Cache → Block) (c : Block)
    → IsValid k
    → s < k.disk.size
    → held k s ≡ false
    → cost k s ≤ room k
    → ((r : ℕ × Cache) → ReadBy k s r → content r.0 r.1 ≡ c)
    → Returns
        (Stored k s c)
        (do (i, k₁) ← bread 1 s k; k₂ ← bwrite i (set_bytes i (content i k₁) k₁); brelse i k₂)
write_round k s content c v small idle free reads_as =
    Returns-bind _ (bread_lem k v s small idle free) λ r rd.
      let i : ℕ = r.0 in
      let k₁ : Cache = r.1 in
      let c' : Block = content i k₁ in
      let set = set_bytes_lem k₁ rd.valid i s rd.owns c' in
      let own = set_bytes-Owns k₁ rd.valid i s rd.owns c' in
      let k' : Cache = set_bytes i c' k₁ in
      let disk' : k'.disk ≡ k.disk = set.disk_eq ∙ rd.disk_same in
      let reads : view k' s ≡ c' = ap (λ f. f s) set.view_eq ∙ update_self (view k₁) s c' in
      let same : c' ≡ c = reads_as r rd in
      Returns-bind _ (bwrite_lem k' set.valid i s own (omega (arith, ap (λ d. d.size) disk')))
        λ k₂ w.
          let view₂ : view k₂ ≡ update (view k) s c' =
            w.0.view_eq ∙ set.view_eq ∙ ap (λ f. update f s c') rd.view_same in
          let disk₂ : k₂.disk ≡ written s c' k.disk = w.0.disk_eq ∙ ap₂ (written s) reads disk' in
          let held₂ : held k₂ ≡ update (held k) s true = w.0.held_eq ∙ set.held_eq ∙ rd.held_set in
          let clean₂ : dirty k₂ s ≡ false =
            ap (λ f. f s) w.0.dirty_eq ∙ update_self (dirty k') s false in
          let settled : view k₂ s ≡ k₂.disk.blocks s =
            ap (λ f. f s) view₂
            ∙ update_self (view k) s c'
            ∙ sym (ap (λ d. d.blocks s) disk₂ ∙ update_self k.disk.blocks s c') in
          Returns-mono (brelse_lem k₂ w.0.valid i s w.1 (inr settled)) λ k₃ b. record {
            valid = b.0.valid;
            view_eq = b.0.view_eq ∙ view₂ ∙ ap (update (view k) s) same;
            held_eq =
                b.0.held_eq
                ∙ ap (λ f. update f s false) held₂
                ∙ update-update (held k) s true false
                ∙ update_same (held k) s false idle;
            dirty_eq =
                b.0.dirty_eq
                ∙ w.0.dirty_eq
                ∙ ap (λ f. update f s false) (set.dirty_eq ∙ rd.dirty_same);
            disk_eq = b.0.disk_eq ∙ disk₂ ∙ ap (λ c. written s c k.disk) same;
            room_gain =
                omega (arith, rd.room_less, set.room_le, w.0.room_le, b.1, cost-clean k₂ s clean₂);
            keeps =
                λ j t ne o. b.0.keeps j t ne (w.0.keeps j t ne (set.keeps j t ne (rd.keeps j t o)));
          }

-- The round of calls on a sector that nobody holds returns, and has written the changed bytes.
pub rewrite_lem :
    (k : Cache) (s : ℕ) (g : Block → Block)
    → IsValid k
    → s < k.disk.size
    → held k s ≡ false
    → cost k s ≤ room k
    → Returns (Stored k s (g (view k s))) (rewrite 1 s g k)
unfolding rewrite
rewrite_lem k s g v small idle free =
    write_round k s (λ i k₁. g (k₁.buf i).bytes) (g (view k s)) v small idle free
      λ r rd. ap g (bytes_own r.1 rd.valid r.0 s rd.owns ∙ ap (λ f. f s) rd.view_same)

-- With nothing held and nothing dirty every buffer is free.
pub room_full :
    (k : Cache) → IsValid k → held k ≡ (λ s. false) → dirty k ≡ (λ s. false) → room k ≡ nbuf
unfolding room held dirty
room_full k v idle clean = count-ext (λ i. is_free (k.buf i)) (λ i. true) k.order free ∙ v.total
  where
    free : (i : ℕ) → has k.order i ≡ true → is_free (k.buf i) ≡ true
    free i hi = elim (Bool-cases ((k.buf i).dev == 1)) [
      | inl d ↦
          let s : ℕ = (k.buf i).sector in
          let e = slot-eq k s i v hi (ground arith) refl in
          let b : (k.buf i).busy ≡ false =
            sym (look-some (λ b. b.busy) (λ t. false) k s i e) ∙ ap (λ f. f s) idle in
          let m : (k.buf i).dirty ≡ false =
            sym (look-some (λ b. b.dirty) (λ t. false) k s i e) ∙ ap (λ f. f s) clean in
          ground arith
      | inr d ↦ v.spare i hi (ground arith)
    ]

-- A round that changes nothing.
pub record Same (k k' : Cache) : Type 0 where
  pub valid : IsValid k'
  pub view_same : view k' ≡ view k
  pub held_same : held k' ≡ held k
  pub dirty_same : dirty k' ≡ dirty k
  pub disk_same : k'.disk ≡ k.disk
  pub room_le : room k ≤ room k'

-- Reading a sector that nobody holds gives its contents and changes nothing.
pub peek_lem :
    (k : Cache) (s : ℕ)
    → IsValid k
    → s < k.disk.size
    → held k s ≡ false
    → cost k s ≤ room k
    → Returns (λ r. (r.0 ≡ view k s) × Same k r.1) (peek 1 s k)
unfolding peek
peek_lem k s v small idle free = Returns-bind _ (bread_lem k v s small idle free) λ r rd.
    let i : ℕ = r.0 in
    let k₁ : Cache = r.1 in
    let settled : (dirty k₁ s ≡ true) ⊎ (view k₁ s ≡ k₁.disk.blocks s) =
      elim (Bool-cases (dirty k s)) [
        | inl m ↦ inl (ap (λ f. f s) rd.dirty_same ∙ m)
        | inr m ↦ inr (
            ap (λ f. f s) rd.view_same
            ∙ view_clean k v s idle m
            ∙ sym (ap (λ d. d.blocks s) rd.disk_same))
      ] in
    Returns-bind _ (brelse_lem k₁ rd.valid i s rd.owns settled) λ k₂ b. returns _ (
      bytes_own k₁ rd.valid i s rd.owns ∙ ap (λ f. f s) rd.view_same,
      record {
        valid = b.0.valid;
        view_same = b.0.view_eq ∙ rd.view_same;
        held_same =
            b.0.held_eq
            ∙ ap (λ f. update f s false) rd.held_set
            ∙ update-update (held k) s true false
            ∙ update_same (held k) s false idle;
        dirty_same = b.0.dirty_eq ∙ rd.dirty_same;
        disk_same = b.0.disk_eq ∙ rd.disk_same;
        room_le = omega (arith, rd.room_less, b.1, cost-same k k₁ s rd.dirty_same);
      },
    )
