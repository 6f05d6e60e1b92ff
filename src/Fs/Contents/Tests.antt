-- ===== src/Fs/Contents/Tests.antt =====
-- An inode of 13 blocks, the last by the block 21 of addresses, and with a block by two blocks of addresses, in a state
-- of the buffers that are locked, the blocks in use, the bytes of all blocks and the inodes that are stored.
use model_lib.Base.{
  ℕ, ◌+◌, ◌-◌, ◌*◌, ◌/◌, ◌%◌, ◌<◌, ◌≡◌, refl, ap, sym, true, false, Option, none, some, List, [],
  ◌∷◌, ◌==◌, if◌then◌else◌, arith,
}
use mathlib.Core.Path.{subst}
use model_lib.Base.Outcome.{
  asleep, Outcome, ok, ◌>>◌, check, bfree_free_block, balloc_out_of_blocks, panic, Returns,
}
use model_lib.Base.Family.{has, erase, update}
use model_lib.Base.Words.{word_at, set_word}
use model_lib.Bio.{Block, Disk, Cache, binit}
use model_lib.Fs.Dinode.{Dinode}
use model_lib.Fs.Inode.{Inode, Icache}
use model_lib.Fs.Contents.{iput, readi, writei}
use model_lib.Fs.Contents.Services.{ContentServices}
use model_lib.Fs.Contents.Reading.{IsMapped, with_bytes, clipped}
use model_lib.Fs.Contents.Buffers.{buffered, IsReady, readi_lem}
use model_lib.Bio.Inv.{view}
use model_lib.Bio.Init.{binit-IsValid, held-binit, view-binit, room-binit}
use model_lib.Bio.Store.{Same}

abbrev State : Type 0
State = List ℕ × (List ℕ × ((ℕ → Block) × List Inode))

abbrev services : ContentServices State
services = record {
  bread = λ dev t s. ok (s.1.1.0 t, (t ∷ s.0, s.1));
  log_write = λ dev t b s. ok (s.0, (s.1.0, (update s.1.1.0 t b, s.1.1.1)));
  brelse = λ dev t s. ok (erase t s.0, s.1);
  balloc = λ dev s.
      if has s.1.0 90 then panic balloc_out_of_blocks else ok (90, (s.0, (90 ∷ s.1.0, s.1.1)));
  bfree = λ dev t s. check (has s.1.0 t) bfree_free_block >> ok (s.0, (erase t s.1.0, s.1.1));
  iupdate = λ ip s. ok (s.0, (s.1.0, (s.1.1.0, ip ∷ s.1.1.1)));
  can_read = λ major. false;
  dev_read = λ major ip n s. ok ((none, λ i. 0), s);
  can_write = λ major. false;
  dev_write = λ major ip src n s. ok (none, s);
}

abbrev disk : ℕ → Block
disk t o =
    if t == 21
    then (if o == 0 then 22 else (if o == 12 then 23 else 0))
    else (if t == 24
        then (if o == 4 then 25 else 0)
        else (if t == 25 then (if o == 8 then 26 else 0) else (t + o) % 256))

abbrev file_copy : Dinode
file_copy = record {
  type = 2;
  major = 0;
  minor = 0;
  nlink = 0;
  size = 13 * 512;
  addrs = λ i. if i == 12 then 21 else 30 + i;
  indirect2 = 24;
  password = λ i. 0;
}

abbrev file : Inode
file = record { dev = 1; inum = 7; ref = 1; busy = false; valid = true; copy = file_copy }

abbrev cache : Icache
cache i = file

abbrev in_use : List ℕ
in_use =
    30 ∷ 31 ∷ 32 ∷ 33 ∷ 34 ∷ 35 ∷ 36 ∷ 37 ∷ 38 ∷ 39 ∷ 40 ∷ 41 ∷ 22 ∷ 23 ∷ 21 ∷ 26 ∷ 25 ∷ 24 ∷ 50
    ∷ []

abbrev state : State
state = ([], (in_use, (disk, [])))

-- iput of the last reference frees each block once, and those of addresses last.
abbrev left_in_use : Outcome (Icache × State) → List ℕ
left_in_use (ok (c, s)) = (c 3).ref ∷ (c 3).copy.size ∷ s.1.0
left_in_use (panic m) = []
left_in_use asleep = []

inode_freed : left_in_use (iput services 3 cache state) ≡ 0 ∷ 0 ∷ 50 ∷ []
unfolding iput word_at has erase
inode_freed = refl

single_block : (bn : ℕ) → bn ≡ 12 → word_at (disk 21) (bn - 12) ≡ 22
unfolding word_at
single_block bn e = ap (λ x. word_at (disk 21) (x - 12)) e

mapped : (o : ℕ) → o < 13 * 512 → IsMapped 100 file_copy disk (o / 512)
mapped o lt = record {
  direct = λ l. ((λ z. absurd (ground (arith, z, l))), ground arith);
  table = λ ge l. ((λ z. absurd (omega (arith, z))), omega arith);
  single = λ ge l.
      let e = single_block (o / 512) (omega arith) in
      ((λ z. absurd (omega (arith, z, e))), omega (arith, e));
  tables = λ ge. absurd (omega arith);
  second = λ ge. absurd (omega arith);
  double = λ ge. absurd (omega arith);
  in_range = omega arith;
}

abbrev nothing : ℕ → ℕ
nothing i = 0

abbrev hard_disk : Disk
hard_disk = record { blocks = disk; size = 100; history = [] }

-- The cache that bio.c starts with; its buffers are all free.
abbrev buffers : Cache
buffers = binit hard_disk

abbrev others : ContentServices Cache
others = record {
  bread = λ dev t k. asleep;
  log_write = λ dev t b k. asleep;
  brelse = λ dev t k. asleep;
  balloc = λ dev k. asleep;
  bfree = λ dev t k. asleep;
  iupdate = λ ip k. asleep;
  can_read = λ major. false;
  dev_read = λ major ip n k. asleep;
  can_write = λ major. false;
  dev_write = λ major ip src n k. asleep;
}

buffers-IsReady : IsReady buffers
buffers-IsReady = record {
  valid = binit-IsValid hard_disk;
  idle = λ t. ap (λ f. f t) (held-binit hard_disk);
  spare = omega (arith, room-binit hard_disk);
}

disk_size : buffers.disk.size ≡ 100
unfolding binit
disk_size = refl

blocks_there :
    (o : ℕ) → o < 13 * 512 → IsMapped buffers.disk.size file_copy (view buffers) (o / 512)
blocks_there o lt =
    subst (λ z. IsMapped z file_copy (view buffers) (o / 512)) (sym disk_size)
      (subst (λ v. IsMapped 100 file_copy v (o / 512)) (sym (view-binit hard_disk)) (mapped o lt))

readi_lem_example :
    Returns
      (λ q.
        (q.0 ≡ (
          some (clipped file 6140 600),
          with_bytes file_copy (view buffers) 6140 0 (clipped file 6140 600) nothing,
        ))
        × ((q.1.0 ≡ file) × Same buffers q.1.1))
      (readi (buffered others) file nothing 6140 600 buffers)
readi_lem_example =
    readi_lem others buffers buffers-IsReady file nothing 6140 600 refl (omega arith) (omega arith)
      (omega arith) blocks_there

abbrev bytes_read : Outcome ((Option ℕ × (ℕ → ℕ)) × (Inode × State)) → Option ℕ × List ℕ
bytes_read (ok ((n, v), r)) = (n, v 0 ∷ v 3 ∷ v 4 ∷ v 5 ∷ v 9 ∷ v 10 ∷ [])
bytes_read (panic m) = (none, [])
bytes_read asleep = (none, [])

-- The last four bytes of block 41, and the first six of block 22.
across_blocks :
    bytes_read (readi services file nothing 6140 10 state)
    ≡ (some 10, 37 ∷ 40 ∷ 22 ∷ 23 ∷ 27 ∷ 0 ∷ [])
unfolding readi word_at
across_blocks = refl

behind_end :
    bytes_read (readi services file nothing 7000 10 state) ≡ (none, 0 ∷ 0 ∷ 0 ∷ 0 ∷ 0 ∷ 0 ∷ [])
unfolding readi
behind_end = refl

abbrev bytes_written : Outcome (Option ℕ × (Inode × State)) → Option ℕ × List ℕ
bytes_written (ok (n, (ip, (l, (u, (v, sv)))))) =
    (n, ip.copy.size ∷ v 21 4 ∷ v 22 509 ∷ v 22 510 ∷ v 22 511 ∷ v 90 0 ∷ v 90 1 ∷ v 90 2 ∷ [])
bytes_written (panic m) = (none, [])
bytes_written asleep = (none, [])

-- Two bytes at the end of the last block, and two in a new one.
file_extended :
    bytes_written (writei services file (λ i. 200 + i) 6654 4 state)
    ≡ (some 4, 6658 ∷ 90 ∷ 19 ∷ 200 ∷ 201 ∷ 202 ∷ 203 ∷ 92 ∷ [])
unfolding writei word_at set_word has
file_extended = refl
