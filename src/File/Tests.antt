-- ===== src/File/Tests.antt =====
-- The file table over one inode with five bytes. Two descriptors share the file 0, open for reading and
-- writing at offset 2.
use model_lib.Base.{
  ltb, ℕ, ◌+◌, ◌↔◌, ◌≢◌, ◌<◌, ◌≡◌, refl, Bool, true, false, Option, none, some, List, [], ◌∷◌, ◌==◌,
  ◌&&◌, leb, if◌then◌else◌, arith,
}
use model_lib.Base.Outcome.{Outcome, ok, asleep}
use model_lib.Base.Family.{count, has, erase}
use model_lib.Base.Search.{search_from}
use model_lib.File.{fd_none, fd_inode, File, Ftable, filealloc, fileclose, fileread, write_rounds}
use model_lib.File.Services.{FileServices}
use model_lib.File.Holders.{IsCounted, Step, Step-IsCounted, Found, filealloc_lem}
use model_lib.File.Rounds.{write_rounds-enough}
use model_lib.Fs.Dinode.{Dinode, passlen}
use model_lib.File.Passwords.{
  has_password, is_password, set_password, is_password-set_password, accepts-set_password,
}
use model_lib.File.Whole.{spliced, moved}

record Store : Type 0 where
  opened : Bool
  locked : Bool
  size : ℕ
  bytes : ℕ → ℕ

abbrev memory : ℕ → ℕ
memory a = a + 7

-- The size of a file of `size` bytes that has been written up to `end`.
abbrev grown : ℕ → ℕ → ℕ
grown size end = if ltb size end then end else size

abbrev limit : ℕ
limit = 71680

abbrev wrote : Bool → ℕ → ℕ → ℕ → Store → Outcome (Option ℕ × Store)
wrote true addr off n s = ok (
  some n,
  record s {
    size = grown s.size (off + n);
    bytes = spliced s.bytes off n (λ k. memory (addr + k));
  },
)
wrote false addr off n s = ok (none, s)

abbrev services : FileServices Store
services = record {
  piperead = λ pipe addr n s. ok (none, s);
  pipewrite = λ pipe addr n s. ok (none, s);
  pipeclose = λ pipe writable s. ok s;
  begin_trans = λ s. if s.opened then asleep else ok (record s { opened = true });
  commit_trans = λ s. ok (record s { opened = false });
  ilock = λ ip s. if s.locked then asleep else ok (record s { locked = true });
  iunlock = λ ip s. ok (record s { locked = false });
  iput = λ ip s. ok s;
  stati = λ ip st s. ok s;
  readi = λ ip addr off n s. ok (some (if leb (off + n) s.size then n else 0), s);
  writei = λ ip addr off n s. wrote (leb off s.size && leb (off + n) limit) addr off n s;
}

abbrev store_at : Bool → Bool → ℕ → (ℕ → ℕ) → Store
store_at opened locked size bytes = record {
  opened = opened;
  locked = locked;
  size = size;
  bytes = bytes;
}

abbrev empty_file : File
empty_file = record {
  type = fd_none;
  ref = 0;
  readable = false;
  writable = false;
  pipe = 0;
  ip = 0;
  off = 0;
}

abbrev open_file : File
open_file = record {
  type = fd_inode;
  ref = 2;
  readable = true;
  writable = true;
  pipe = 0;
  ip = 4;
  off = 2;
}

abbrev table : Ftable
table i = if i == 0 then open_file else empty_file

abbrev holders : List ℕ
holders = 0 ∷ 0 ∷ []

abbrev store : Store
store = store_at false false 5 (λ o. 1)

table-IsCounted : IsCounted holders table
unfolding count
table-IsCounted = record { counted = λ i. ground arith; closed = λ i z. ground arith }

write_rounds-enough_example :
    write_rounds services 2000 0 100 2000 0 table store
    ≡ write_rounds services 5000 0 100 2000 0 table store
write_rounds-enough_example =
    write_rounds-enough services 0 100 2000 2000 5000 0 table store (omega arith) (omega arith)

spare_file : Found holders table (filealloc table)
spare_file = filealloc_lem holders table table-IsCounted

-- One of the descriptors is closed.
Step-IsCounted_example :
    IsCounted (0 ∷ []) (λ i. if i == 0 then record open_file { ref = 1 } else table i)
unfolding has erase fileclose
Step-IsCounted_example =
    Step-IsCounted services holders (0 ∷ []) table
      (λ i. if i == 0 then record open_file { ref = 1 } else table i)
      (Step.close 0 store store refl refl) table-IsCounted

-- The new file is file 1; three bytes are left to read of the shared file.
new_file : (filealloc table).0 ≡ some 1
unfolding filealloc search_from
new_file = refl

three_bytes : fileread services 0 50 3 table store ≡ ok (some 3, (moved table 0 5, store))
unfolding fileread
three_bytes = refl

abbrev dinode : Dinode
dinode = record {
  type = 2;
  major = 0;
  minor = 0;
  nlink = 1;
  size = 0;
  addrs = λ i. 0;
  indirect2 = 0;
  password = λ i. 0;
}

-- "abc", and a password without a NUL among its first ten characters.
abbrev abc : ℕ → ℕ
abc i = if leb 3 i then 0 else 97 + i

abbrev long : ℕ → ℕ
long i = if leb 12 i then 0 else 97

stored_password :
    (is_password (set_password abc dinode) abc ≡ true) ↔ ((k : ℕ) × (k < passlen) × (abc k ≡ 0))
stored_password = is_password-set_password dinode abc

accepts-set_password_example :
    (has_password (set_password abc dinode) && is_password (set_password abc dinode) abc ≡ true)
    ↔ ((abc 0 ≢ 0) × ((k : ℕ) × (k < passlen) × (abc k ≡ 0)))
accepts-set_password_example = accepts-set_password dinode abc

long_refused : is_password (set_password long dinode) long ≢ true
long_refused h = (let (k, lt, z) = (is_password-set_password dinode long).0 h in ground arith)
