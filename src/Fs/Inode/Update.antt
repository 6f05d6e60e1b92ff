-- ===== src/Fs/Inode/Update.antt =====
-- An inode written by iupdate and read again by ilock.
use model_lib.Base.{
  ℕ, suc, ◌%◌, ◌<◌, ◌≡◌, ◌≢◌, refl, sym, ap, ◌∙◌, true, false, not, none, some, ◌==◌, ltb,
  if◌then◌else◌, arith,
}
use mathlib.Core.Path.{subst}
use model_lib.Base.Outcome.{
  ok, asleep, ◌>>=◌, ◌>>◌, check, Returns, returns, Returns-bind, ilock_no_type,
}
use model_lib.Base.Family.{update, update_self}
use model_lib.Bio.{Block}
use model_lib.Fs.Store.{BlockStore}
use model_lib.Fs.Dinode.{Dinode, read_dinode, write_dinode}
use model_lib.Fs.Dinode.Fields.{InRange, SameInode, read-write_dinode}
use model_lib.Fs.Inode.{iblock, Inode, Icache, iread, ilock, iupdate}

module _ {S : Type 0} (bs : BlockStore S) where
  pub iupdate_lem :
      (n : ℕ) (v : ℕ → Block) (s : S) (ip : Inode)
      → bs.Holds (suc n) v s
      → ip.dev ≡ 1
      → iblock ip.inum < bs.limit
      → Returns
          (λ s'.
            bs.Holds n
              (update v (iblock ip.inum) (write_dinode (ip.inum % 4) ip.copy (v (iblock ip.inum))))
              s')
          (iupdate bs ip s)
  unfolding iupdate
  iupdate_lem n v s ip h dev lt =
      let a = iblock ip.inum in
      let new = write_dinode (ip.inum % 4) ip.copy in
      subst
        (λ x.
          Returns (λ s'. bs.Holds n (update v a (new (v a))) s')
            (bs.visit x a (λ d. some (new d)) s >>= λ (b, s'). ok s'))
        (sym dev)
        (Returns-bind _
          (bs.visit_write {n = n} {v = v} {s = s} a (λ d. some (new d)) (new (v a)) h lt refl)
          λ r (_, h'). returns _ h')

  -- The entry is locked and holds the inode `d`.
  pub record Locked (i : ℕ) (n : ℕ) (v : ℕ → Block) (d : Dinode) (r : Icache × S) : Type 0 where
    pub busy : (r.0 i).busy ≡ true
    pub valid : (r.0 i).valid ≡ true
    pub copy : SameInode (r.0 i).copy d
    pub holds : bs.Holds n v r.1

  iread_lem :
      (n : ℕ) (v : ℕ → Block) (s : S) (c : Icache) (i : ℕ) (d : Dinode)
      → bs.Holds n v s
      → (c i).dev ≡ 1
      → iblock (c i).inum < bs.limit
      → (c i).busy ≡ true
      → (c i).valid ≡ false
      → SameInode (read_dinode ((c i).inum % 4) (v (iblock (c i).inum))) d
      → d.type ≢ 0
      → Returns (Locked i n v d) (iread bs i (c, s))
  unfolding iread
  iread_lem n v s c i d h dev lt locked stale same typed =
      let j = (c i).inum % 4 in
      let a = iblock (c i).inum in
      let filled = λ (b : Block). record (c i) { copy = read_dinode j b; valid = true } in
      rw stale (
        subst
          (λ x. Returns (Locked i n v d) (
            bs.visit x a (λ d. none) s >>= λ (b, s').
            check (not ((read_dinode j b).type == 0)) ilock_no_type
            >> ok (update c i (filled b), s')))
          (sym dev)
          (Returns-bind _ (bs.visit_read {n = n} {v = v} {s = s} a (λ d. none) h lt refl)
            λ (b, s') (b_eq, h').
              let found : SameInode (read_dinode j b) d =
                subst (λ x. SameInode (read_dinode j x) d) (sym b_eq) same in
              let some_type : ((read_dinode j b).type == 0) ≡ false = ground (arith, found.type) in
              let at : update c i (filled b) i ≡ filled b = update_self c i (filled b) in
              rw some_type (
                returns _ record {
                  busy = ap (λ (p : Inode). p.busy) at ∙ locked;
                  valid = ap (λ (p : Inode). p.valid) at;
                  copy = subst (λ (p : Inode). SameInode p.copy d) (sym at) found;
                  holds = h';
                })))

  pub ilock_lem :
      (n : ℕ) (v : ℕ → Block) (s : S) (c : Icache) (i : ℕ) (d : Dinode)
      → bs.Holds n v s
      → (c i).dev ≡ 1
      → iblock (c i).inum < bs.limit
      → 0 < (c i).ref
      → (c i).busy ≡ false
      → (c i).valid ≡ false
      → SameInode (read_dinode ((c i).inum % 4) (v (iblock (c i).inum))) d
      → d.type ≢ 0
      → Returns (Locked i n v d) (ilock bs i (c, s))
  unfolding ilock
  ilock_lem n v s c i d h dev lt ref idle stale same typed =
      let ip : Inode = record (c i) { busy = true } in
      let at : update c i ip i ≡ ip = update_self c i ip in
      let inum_at : (update c i ip i).inum ≡ (c i).inum = ap (λ (p : Inode). p.inum) at in
      let has_ref : ltb (c i).ref 1 ≡ false = ground arith in
      rw has_ref (
        subst (λ b. Returns (Locked i n v d) (if b then asleep else iread bs i (update c i ip, s)))
          (sym idle)
          (iread_lem n v s (update c i ip) i d h (ap (λ (p : Inode). p.dev) at ∙ dev)
            (subst (λ x. iblock x < bs.limit) (sym inum_at) lt) (ap (λ (p : Inode). p.busy) at)
            (ap (λ (p : Inode). p.valid) at ∙ stale)
            (subst (λ x. SameInode (read_dinode (x % 4) (v (iblock x))) d) (sym inum_at) same)
            typed))

  -- In a transaction with room for one more update, where the inodes lie before the log: `iupdate` of an
  -- inode in range, with a type, writes it, and `ilock` of an entry for that inode that is not locked and
  -- not valid then returns with the entry locked, valid and with the same fields.
  pub iupdate-ilock :
      (n : ℕ) (v : ℕ → Block) (s : S) (ip : Inode) (c : Icache) (i : ℕ)
      → bs.Holds (suc n) v s
      → ip.dev ≡ 1
      → iblock ip.inum < bs.limit
      → InRange ip.copy
      → ip.copy.type ≢ 0
      → (c i).dev ≡ 1
      → (c i).inum ≡ ip.inum
      → 0 < (c i).ref
      → (c i).busy ≡ false
      → (c i).valid ≡ false
      → Returns
          (Locked i n
            (update v (iblock ip.inum) (write_dinode (ip.inum % 4) ip.copy (v (iblock ip.inum))))
            ip.copy)
          (do s' ← iupdate bs ip s; ilock bs i (c, s'))
  iupdate-ilock n v s ip c i h dev lt range typed c_dev c_inum ref idle stale =
      let a = iblock ip.inum in
      let b = write_dinode (ip.inum % 4) ip.copy (v a) in
      Returns-bind _ (iupdate_lem n v s ip h dev lt) λ s' h'.
        ilock_lem n (update v a b) s' c i ip.copy h' c_dev
          (subst (λ x. iblock x < bs.limit) (sym c_inum) lt) ref idle stale
          (subst (λ x. SameInode (read_dinode (x % 4) (update v a b (iblock x))) ip.copy)
            (sym c_inum)
            (subst (λ x. SameInode (read_dinode (ip.inum % 4) x) ip.copy) (sym (update_self v a b))
              (read-write_dinode (ip.inum % 4) ip.copy (v a) range)))
          typed
