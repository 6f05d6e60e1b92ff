-- ===== src/Fs/Inode.antt =====
-- The inode cache of fs.c. Its lock is held throughout `iget`, `idup` and the parts of `ilock` and
-- `iunlock` that change the flags.
pub mod Refs
pub mod Update
use model_lib.Base.{
  ℕ, zero, suc, ◌+◌, ◌-◌, ◌*◌, ◌/◌, ◌%◌, Bool, true, false, not, ◌&&◌, ◌||◌, Option, none, some,
  ◌==◌, ltb, if◌then◌else◌,
}
use model_lib.Base.Outcome.{
  Outcome, ok, panic, asleep, ◌>>=◌, ◌>>◌, check, iget_no_inodes, ilock_no_ref, ilock_no_type,
  iunlock_not_locked, ialloc_no_inodes,
}
use model_lib.Base.Family.{update}
use model_lib.Base.Search.{search_from}
use model_lib.Bio.{Block}
use model_lib.Fs.Store.{BlockStore}
use model_lib.Fs.{readsb}
use model_lib.Fs.Dinode.{Dinode, half_at, set_half, read_dinode, write_dinode}

-- NINODE
abbrev pub ninode : ℕ
ninode = 50

-- Inodes in a block.
abbrev pub iblock : ℕ → ℕ
iblock i = i / 4 + 2

-- `struct inode`, its flags I_BUSY and I_VALID one by one.
pub record Inode : Type 0 where
  pub dev : ℕ
  pub inum : ℕ
  pub ref : ℕ
  pub busy : Bool
  pub valid : Bool
  pub copy : Dinode

-- `icache`
abbrev pub Icache : Type 0
Icache = ℕ → Inode

-- ip->ref > 0 && ip->dev == dev && ip->inum == inum
abbrev pub is_cached : ℕ → ℕ → Inode → Bool
is_cached dev inum ip = ltb 0 ip.ref && ip.dev == dev && ip.inum == inum

-- The entry that `iget` recycles.
abbrev pub fresh_inode : ℕ → ℕ → Inode → Inode
fresh_inode dev inum ip = record ip { dev = dev; inum = inum; ref = 1; busy = false; valid = false }

-- `iget` with what its loop has found: the entry for the inode, and the first that is empty.
pub iget_from : ℕ → ℕ → Option ℕ → Option ℕ → Icache → Outcome (ℕ × Icache)
iget_from dev inum (some i) empty c = ok (i, update c i (record (c i) { ref = (c i).ref + 1 }))
iget_from dev inum none (some i) c = ok (i, update c i (fresh_inode dev inum (c i)))
iget_from dev inum none none c = panic iget_no_inodes

pub iget : ℕ → ℕ → Icache → Outcome (ℕ × Icache)
unfolding iget_from
iget dev inum c =
    iget_from dev inum (search_from (λ i. is_cached dev inum (c i)) ninode 0)
      (search_from (λ i. (c i).ref == 0) ninode 0) c

pub idup : ℕ → Icache → Icache
idup i c = update c i (record (c i) { ref = (c i).ref + 1 })

pub iunlock : ℕ → Icache → Outcome Icache
iunlock i c = do
  check (not (not (c i).busy || ltb (c i).ref 1)) iunlock_not_locked
  ok (update c i (record (c i) { busy = false }))

-- memset(dip, 0, sizeof(*dip)); dip->type = type;
pub new_dinode : ℕ → ℕ → Block → Block
new_dinode j type b = set_half (64 * j) type (λ o. if o / 128 == j then 0 else b o)

module _ {S : Type 0} (bs : BlockStore S) where
  -- The end of `ilock`, with I_BUSY set.
  pub iread : ℕ → Icache × S → Outcome (Icache × S)
  iread i (c, s) = if (c i).valid then ok (c, s) else (do
    (b, s') ← bs.visit (c i).dev (iblock (c i).inum) (λ d. none) s
    let ip = record (c i) { copy = read_dinode ((c i).inum % 4) b; valid = true }
    check (not (ip.copy.type == 0)) ilock_no_type
    ok (update c i ip, s'))

  -- `asleep`: the inode is locked, and the call waits with nothing changed.
  pub ilock : ℕ → Icache × S → Outcome (Icache × S)
  unfolding iread
  ilock i (c, s) = do
    check (not (ltb (c i).ref 1)) ilock_no_ref
    if (c i).busy then asleep else iread i (update c i (record (c i) { busy = true }), s)

  pub iupdate : Inode → S → Outcome S
  iupdate ip s = do
    (b, s') ← bs.visit ip.dev (iblock ip.inum) (λ d. some (write_dinode (ip.inum % 4) ip.copy d)) s
    ok s'

  -- The loop of `ialloc` from inode `inum` on, with the rounds that are left.
  pub ialloc_from : ℕ → ℕ → ℕ → ℕ → Icache × S → Outcome (ℕ × (Icache × S))
  unfolding iget new_dinode
  ialloc_from zero inum dev type (c, s) = panic ialloc_no_inodes
  ialloc_from (suc r) inum dev type (c, s) = do
    (b, s') ←
        bs.visit dev (iblock inum)
          (λ d.
            if half_at d (64 * (inum % 4)) == 0 then some (new_dinode (inum % 4) type d) else none)
          s
    let rest = ialloc_from r (inum + 1) dev type (c, s')
    (if half_at b (64 * (inum % 4)) == 0
        then (do (i, c') ← iget dev inum c; ok (i, (c', s')))
        else rest)

  pub ialloc : ℕ → ℕ → Icache × S → Outcome (ℕ × (Icache × S))
  unfolding ialloc_from
  ialloc dev type (c, s) = do
    (sb, s') ← readsb bs dev s
    ialloc_from (sb.ninodes - 1) 1 dev type (c, s')
