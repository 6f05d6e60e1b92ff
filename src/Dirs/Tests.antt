-- ===== src/Dirs/Tests.antt =====
-- A directory with the entries a, node 5, and a free one, in a state of the references of the caller, the number of
-- entries and the contents.
use model_lib.Base.{
  ◌<◌, ℕ, ◌+◌, ◌*◌, ◌/◌, ◌≡◌, refl, ap, Bool, true, false, Option, none, some, List, [], ◌∷◌, ◌==◌,
  if◌then◌else◌, arith,
}
use model_lib.Base.Outcome.{asleep, Outcome, ok}
use model_lib.Fs.Dinode.{Dinode}
use model_lib.Fs.Inode.{Inode, Icache}
use model_lib.Dirs.{same_name, dirlookup, dirlink}
use model_lib.Dirs.Services.{EntryServices}
use model_lib.Dirs.Entries.{with_entry, find_entry}
use model_lib.Dirs.Contents.{LooksUp, Links}
use model_lib.Dirs.Buffers.{dir_services, IsDirectory, entry_reads, dirlookup_lem, dirlink_lem}
use model_lib.Bio.{Block, Disk, Cache, binit}
use model_lib.Bio.Inv.{view}
use model_lib.Bio.Init.{binit-IsValid, held-binit, room-binit}
use model_lib.Fs.Contents.Services.{ContentServices}
use model_lib.Fs.Contents.Reading.{IsMapped, byte_at}
use model_lib.Fs.Contents.Buffers.{IsReady}

abbrev State : Type 0
State = List (ℕ × ℕ) × (ℕ × (ℕ → ℕ))

abbrev without_first : List (ℕ × ℕ) → List (ℕ × ℕ)
without_first [] = []
without_first (r ∷ refs) = refs

abbrev put_at : ℕ → (ℕ → ℕ) → State → State
put_at k src (refs, (n, v)) = (refs, ((if k == n then n + 1 else n), with_entry v k src))

abbrev dir_copy : ℕ → Dinode
dir_copy n = record {
  type = 1;
  major = 0;
  minor = 0;
  nlink = 1;
  size = 16 * n;
  addrs = λ i. 0;
  indirect2 = 0;
  password = λ i. 0;
}

abbrev dir : State → Inode
dir (refs, (n, v)) = record {
  dev = 1;
  inum = 3;
  ref = 1;
  busy = true;
  valid = true;
  copy = dir_copy n;
}

abbrev services : EntryServices State
services = record {
  inode = λ ip s. dir s;
  iget = λ dev inum s. ok (inum, ((inum, inum) ∷ s.0, s.1));
  iput = λ ip s. ok (without_first s.0, s.1);
  readi = λ ip off n s. ok ((some n, λ x. s.1.1 (off + x)), s);
  writei = λ ip src off n s. ok (some n, put_at (off / 16) src s);
}

-- The entry (a, 5), and 16 zeros.
abbrev contents : ℕ → ℕ
contents o = if o == 0 then 5 else (if o == 2 then 97 else 0)

abbrev one_letter : ℕ → ℕ → ℕ
one_letter c i = if i == 0 then c else 0

abbrev state : State
state = ((2, 9) ∷ [], (2, contents))

abbrev junk : ℕ → ℕ
junk i = 7

-- The value of a call that returns.
abbrev value {ℓ} : {A : Type ℓ} → Outcome A → Option A
value (ok a) = some a
value o = none

abbrev answer : Option (Bool × State) → Bool × (ℕ × (List (ℕ × ℕ) × List ℕ))
answer none = (false, (0, ([], [])))
answer (some (b, (refs, (n, v)))) = (b, (n, (refs, v 16 ∷ v 17 ∷ v 18 ∷ v 19 ∷ v 31 ∷ [])))

dirlink-adds :
    answer (value (dirlink services 0 (one_letter 98) 259 junk state))
    ≡ (true, (2, ((2, 9) ∷ [], 3 ∷ 1 ∷ 98 ∷ 0 ∷ 0 ∷ [])))
unfolding dirlink same_name
dirlink-adds = refl

dirlink-refuses :
    answer (value (dirlink services 0 (one_letter 97) 259 junk state))
    ≡ (false, (2, ((2, 9) ∷ [], 0 ∷ 0 ∷ 0 ∷ 0 ∷ 0 ∷ [])))
unfolding dirlink same_name
dirlink-refuses = refl

-- The same directory on a disk, in block 30.
abbrev blocks : ℕ → Block
blocks s o = if s == 30 then contents o else 0

abbrev disk : Disk
disk = record { blocks = blocks; size = 100; history = [] }

abbrev buffers : Cache
buffers = binit disk

abbrev directory : Inode
directory = record {
  dev = 1;
  inum = 3;
  ref = 1;
  busy = true;
  valid = true;
  copy = record (dir_copy 2) { addrs = λ i. if i == 0 then 30 else 0 };
}

abbrev inodes : Icache
inodes i = directory

abbrev others : ContentServices Cache
others = record {
  bread = λ dev t k. asleep;
  log_write = λ dev t b k. asleep;
  brelse = λ dev t k. asleep;
  balloc = λ dev k. asleep;
  bfree = λ dev t k. asleep;
  iupdate = λ ip k. asleep;
  can_read = λ major. false;
  dev_read = λ major ip n k. asleep;
  can_write = λ major. false;
  dev_write = λ major ip src n k. asleep;
}

ready : IsReady buffers
ready = record {
  valid = binit-IsValid disk;
  idle = λ t. ap (λ f. f t) (held-binit disk);
  spare = omega (arith, room-binit disk);
}

first_block : (v : ℕ → Block) (o : ℕ) → o < 32 → IsMapped 100 directory.copy v (o / 512)
first_block v o lt = record {
  direct = λ l. ((λ z. absurd (ground (arith, z, lt))), ground arith);
  table = λ ge l. absurd (omega arith);
  single = λ ge l. absurd (omega arith);
  tables = λ ge. absurd (omega arith);
  second = λ ge. absurd (omega arith);
  double = λ ge. absurd (omega arith);
  in_range = omega arith;
}

directory-IsDirectory : IsDirectory directory 2 buffers
unfolding binit
directory-IsDirectory = record {
  dev = refl;
  type = refl;
  size = refl;
  small = omega arith;
  mapped = first_block (view buffers);
}

abbrev bytes : ℕ → ℕ
bytes = byte_at directory.copy (view buffers)

dirlookup_lem_example :
    LooksUp
      (entry_reads others buffers ready 0 2 directory directory-IsDirectory)
      (find_entry (one_letter 97) bytes 2)
      (dirlookup (dir_services others) 0 (one_letter 97) (inodes, buffers))
dirlookup_lem_example =
    dirlookup_lem others buffers ready 0 2 directory directory-IsDirectory (one_letter 97) inodes
      refl

dirlink_lem_example :
    Links
      (entry_reads others buffers ready 0 2 directory directory-IsDirectory)
      (one_letter 98)
      259
      (find_entry (one_letter 98) bytes 2)
      (dirlink (dir_services others) 0 (one_letter 98) 259 junk (inodes, buffers))
dirlink_lem_example =
    dirlink_lem others buffers ready 0 2 directory directory-IsDirectory (one_letter 98) 259 junk
      inodes refl (omega arith) (omega arith)
