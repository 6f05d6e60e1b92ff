-- ===== src/Dirs/Buffers.antt =====
-- `dirlookup` and `dirlink` over the inode cache of fs.c and the buffer cache of bio.c.
use model_lib.Base.{
  ℕ, ◌+◌, ◌*◌, ◌/◌, ◌^◌, ◌<◌, ◌≡◌, ◌≢◌, sym, ap, ◌∙◌, some, ltb, leb, ◌&&◌, if-true, if-false,
  arith,
}
use mathlib.Core.Path.{subst}
use model_lib.Base.Outcome.{Outcome, ok, ◌>>=◌, Returns, returns, Returns-bind}
use model_lib.Base.Family.{update, update_self}
use model_lib.Bio.{Cache}
use model_lib.Bio.Inv.{view}
use model_lib.Bio.Store.{Same}
use model_lib.Fs.Inode.{Inode, Icache, iget}
use model_lib.Fs.Contents.{t_dev, readi, writei, iput}
use model_lib.Fs.Contents.Services.{ContentServices}
use model_lib.Fs.Contents.Reading.{IsMapped, byte_at, clipped, readi-reads}
use model_lib.Fs.Contents.Buffers.{buffered, IsReady, unchanged, block_reads}
use model_lib.Dirs.{dirlookup, dirlink}
use model_lib.Dirs.Services.{EntryServices}
use model_lib.Dirs.Entries.{entry, find_entry}
use model_lib.Dirs.Contents.{EntryReads, LooksUp, Links, dirlookup-LooksUp, dirlink-Links}

-- The inode is written back to its entry of the cache.
abbrev pub kept : {A : Type 0} → ℕ → Icache → A × (Inode × Cache) → Outcome (A × (Icache × Cache))
kept i c (a, (ip, k)) = ok (a, (update c i ip, k))

-- `readi`, `writei`, `iget` and `iput` of fs.c, over `bread` and `brelse` of bio.c and any other services.
abbrev pub dir_services : ContentServices Cache → EntryServices (Icache × Cache)
dir_services cs = record {
  inode = λ i (c, k). c i;
  iget = λ dev inum (c, k). iget dev inum c >>= λ (i, c'). ok (i, (c', k));
  iput = λ i (c, k). iput (buffered cs) i c k;
  readi = λ i off n (c, k). readi (buffered cs) (c i) (λ x. 0) off n k >>= kept i c;
  writei = λ i src off n (c, k). writei (buffered cs) (c i) src off n k >>= kept i c;
}

-- A directory of `n` entries in memory and on the disk, whose blocks are all there.
pub record IsDirectory (dir : Inode) (n : ℕ) (k : Cache) : Type 0 where
  pub dev : dir.dev ≡ 1
  pub type : dir.copy.type ≡ 1
  pub size : dir.copy.size ≡ 16 * n
  pub small : 16 * n < 2 ^ 32
  pub mapped : (o : ℕ) → o < dir.copy.size → IsMapped k.disk.size dir.copy (view k) (o / 512)

module _ (cs : ContentServices Cache) (k₀ : Cache) (ready : IsReady k₀) (dp n : ℕ) (dir : Inode)
    (is_dir : IsDirectory dir n k₀) where
  -- The directory is as it was, and so is the contents of the cache and of the disk.
  abbrev pub Unchanged : Icache × Cache → Type 0
  Unchanged (c, k) = (c dp ≡ dir) × Same k₀ k

  pub read_entry :
      (c : Icache) (k : Cache) (j off : ℕ)
      → Unchanged (c, k)
      → off ≡ 16 * j
      → j < n
      → Returns
          (λ r.
            (r.0.0 ≡ some 16)
            × ((x : ℕ) → x < 16 → r.0.1 x ≡ entry (byte_at dir.copy (view k₀)) j x)
            × Unchanged r.1)
          ((dir_services cs).readi dp off 16 (c, k))
  read_entry c k j off (at, same) e lt =
      let size = is_dir.size in
      let small = is_dir.small in
      let v = byte_at dir.copy (view k₀) in
      let whole : clipped dir off 16 ≡ 16 =
        if-false {b = ltb dir.copy.size (off + 16)} _ _ (ground (arith, size)) in
      let not_dev : dir.copy.type ≢ t_dev = λ z. absurd (omega (arith, is_dir.type, z)) in
      subst
        (λ d.
          Returns
            (λ r. (r.0.0 ≡ some 16) × ((x : ℕ) → x < 16 → r.0.1 x ≡ entry v j x) × Unchanged r.1)
            (readi (buffered cs) d (λ x. 0) off 16 k >>= kept dp c))
        (sym at)
        (Returns-bind (kept dp c)
          (readi-reads dir k₀.disk.size (view k₀) (block_reads cs k₀ ready dir.dev is_dir.dev)
            (λ x. 0) off 16 k same not_dev (omega (arith, size)) (omega (arith, size, small))
            is_dir.mapped)
          λ (r, (ip, k')) (e_r, (e_ip, same')). returns _ (
            ap (λ q. q.0) e_r ∙ ap some whole,
            (λ x x_lt.
                ap (λ q. q.1 x) e_r
                ∙ if-true {b = leb 0 x && ltb x (clipped dir off 16)} _ _ (ground (arith, whole))
                ∙ ap (λ o. v (o + x)) e),
            (update_self c dp ip ∙ e_ip, same'),
          ))

  abbrev pub entry_reads : EntryReads (dir_services cs) dp n (byte_at dir.copy (view k₀))
  entry_reads = record {
    Holds = Unchanged;
    types = λ {s} (at, same). ap (λ (d : Inode). d.copy.type) at ∙ is_dir.type;
    sizes = λ {s} (at, same). ap (λ (d : Inode). d.copy.size) at ∙ is_dir.size;
    reads = λ {s} j off held e lt. read_entry s.0 s.1 j off held e lt;
  }

  -- `dirlookup` over the inode cache of fs.c and the buffer cache of bio.c, for a directory of `n` entries in memory, whose
  -- blocks are there, with no buffer held and one free. Where no entry in use has the name by `namecmp`, it
  -- returns a null pointer. Otherwise the first such entry decides: the outcome is that of `iget` of the number
  -- in it, which may panic, with the offset of the entry. The directory, the disk and the contents of the cache
  -- are as before.
  pub dirlookup_lem :
      (name : ℕ → ℕ) (c : Icache)
      → c dp ≡ dir
      → LooksUp entry_reads
          (find_entry name (byte_at dir.copy (view k₀)) n)
          (dirlookup (dir_services cs) dp name (c, k₀))
  dirlookup_lem name c at = dirlookup-LooksUp entry_reads name (c, k₀) (at, unchanged cs k₀ ready)

  -- `dirlink` of an inode number from 1 to 2^16 - 1 in such a directory. Where an entry has the name, its inode is got and
  -- put back, and the answer is -1. Otherwise there is one write, of 16 bytes at the entry `k` by `writei`: the
  -- answer is 0 if it writes them all. The contents with these bytes have the name and the number in the entry
  -- `k`, the first that was free or a new one at the end, and it is the one that a lookup of the name then
  -- finds; no other byte differs. Until that write the directory, the disk and the contents of the cache are as
  -- before.
  pub dirlink_lem :
      (name : ℕ → ℕ) (inum : ℕ) (de : ℕ → ℕ) (c : Icache)
      → c dp ≡ dir
      → 0 < inum
      → inum < 2 ^ 16
      → Links entry_reads name inum
          (find_entry name (byte_at dir.copy (view k₀)) n)
          (dirlink (dir_services cs) dp name inum de (c, k₀))
  dirlink_lem name inum de c at pos lt =
      dirlink-Links entry_reads name inum de (c, k₀) (at, unchanged cs k₀ ready) pos lt
