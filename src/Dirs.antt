-- ===== src/Dirs.antt =====
-- Directories, fs.c: `namecmp`, `dirlookup` and `dirlink`. A `struct dirent` is its 16 bytes, the number of the inode
-- in the first two, and a name is its DIRSIZ bytes. The directory is locked, so that its size stays during a loop.
pub mod Services
pub mod Entries
pub mod Contents
pub mod Buffers
mod Tests
use model_lib.Base.{
  ℕ, zero, suc, ◌+◌, ◌-◌, ◌*◌, ◌/◌, ◌%◌, Bool, true, false, Option, none, some, ◌==◌, ltb,
  if◌then◌else◌,
}
use model_lib.Base.Outcome.{
  Outcome, ok, panic, ◌>>=◌, ◌>>◌, check, dirlookup_not_dir, dirlookup_read, dirlink_read,
  dirlink_write,
}
use model_lib.Base.Family.{update}
use model_lib.Strings.{strncmp, is_zero, strncpy}
use model_lib.Dirs.Services.{EntryServices}

-- namecmp(s, t) == 0
unfoldable pub same_name : (ℕ → ℕ) → (ℕ → ℕ) → Bool
unfolding strncmp
same_name s t = is_zero (strncmp s t 14)

-- de.inum
abbrev pub dirent_inum : (ℕ → ℕ) → ℕ
dirent_inum de = de 0 + 256 * de 1

-- de.name
abbrev pub dirent_name : (ℕ → ℕ) → ℕ → ℕ
dirent_name de i = de (2 + i)

-- strncpy(de.name, name, DIRSIZ); de.inum = inum;
pub filled : (ℕ → ℕ) → ℕ → (ℕ → ℕ) → ℕ → ℕ
unfolding strncpy
filled name inum de i =
    if i == 0
    then inum % 256
    else (if i == 1 then (inum / 256) % 256 else strncpy (dirent_name de) name 14 (i - 2))

abbrev pub is_count : ℕ → Option ℕ → Bool
is_count n none = false
is_count n (some r) = r == n

module _ {S : Type 0} (es : EntryServices S) where
  -- The rounds of a loop over the entries.
  abbrev pub rounds : ℕ → S → ℕ
  rounds dp s = ((es.inode dp s).copy.size + 15) / 16

  -- The loop of `dirlookup` from `off` on: the inode, and the offset of its entry.
  pub lookup_from : ℕ → ℕ → ℕ → (ℕ → ℕ) → S → Outcome (Option (ℕ × ℕ) × S)
  lookup_from zero off dp name s = ok (none, s)
  lookup_from (suc r) off dp name s = do
    ((n, de), s₁) ← es.readi dp off 16 s
    check (is_count 16 n) dirlookup_read
    let rest = lookup_from r (off + 16) dp name s₁
    (if dirent_inum de == 0
        then rest
        else (if same_name name (dirent_name de)
            then (do
              (ip, s₂) ← es.iget (es.inode dp s₁).dev (dirent_inum de) s₁
              ok (some (ip, off), s₂))
            else rest))

  pub dirlookup : ℕ → (ℕ → ℕ) → S → Outcome (Option (ℕ × ℕ) × S)
  unfolding lookup_from
  dirlookup dp name s = do
    check ((es.inode dp s).copy.type == 1) dirlookup_not_dir
    lookup_from (rounds dp s) 0 dp name s

  -- The loop of `dirlink` from `off` on: the offset that it stops at, and `de` as it is then.
  pub free_from : ℕ → ℕ → ℕ → (ℕ → ℕ) → S → Outcome ((ℕ × (ℕ → ℕ)) × S)
  free_from zero off dp de s = ok ((off, de), s)
  free_from (suc r) off dp de s = do
    ((n, de'), s₁) ← es.readi dp off 16 s
    check (is_count 16 n) dirlink_read
    let rest = free_from r (off + 16) dp de' s₁
    (if dirent_inum de' == 0 then ok ((off, de'), s₁) else rest)

  -- `dirlink` with what `dirlookup` has found. The bytes of `de` are what the stack holds.
  pub link_new : ℕ → (ℕ → ℕ) → ℕ → (ℕ → ℕ) → Option (ℕ × ℕ) → S → Outcome (Bool × S)
  unfolding free_from filled
  link_new dp name inum de (some (ip, off)) s = do s₁ ← es.iput ip s; ok (false, s₁)
  link_new dp name inum de none s = do
    ((off, de'), s₁) ← free_from (rounds dp s) 0 dp de s
    (n, s₂) ← es.writei dp (filled name inum de') off 16 s₁
    check (is_count 16 n) dirlink_write
    ok (true, s₂)

  pub dirlink : ℕ → (ℕ → ℕ) → ℕ → (ℕ → ℕ) → S → Outcome (Bool × S)
  unfolding dirlookup link_new
  dirlink dp name inum de s = do (o, s₁) ← dirlookup dp name s; link_new dp name inum de o s₁
