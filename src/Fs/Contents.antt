-- ===== src/Fs/Contents.antt =====
-- The contents of inodes, fs.c: `bmap`, `itrunc`, `iput`, `readi` and `writei`. The caller has locked the inode, so
-- that its fields are a value. An address of a block is 0 where there is none.
pub mod Services
pub mod Reading
pub mod Buffers
mod Tests
use model_lib.Base.{
  ℕ, zero, suc, ◌+◌, ◌-◌, ◌*◌, ◌/◌, ◌%◌, ◌^◌, Bool, true, false, not, ◌&&◌, ◌||◌, Option, none,
  some, ◌==◌, ltb, leb, if◌then◌else◌,
}
use model_lib.Base.Outcome.{Outcome, ok, panic, ◌>>=◌, ◌>>◌, check, bmap_out_of_range, iput_busy}
use model_lib.Base.Family.{update}
use model_lib.Base.Words.{word_at, set_word}
use model_lib.Bio.{Block}
use model_lib.Fs.Dinode.{Dinode}
use model_lib.Fs.Inode.{Inode, Icache}
use model_lib.Fs.Contents.Services.{ContentServices}

-- NDIRECT
abbrev pub ndirect : ℕ
ndirect = 12

-- NINDIRECT
abbrev pub nindirect : ℕ
nindirect = 128

-- MAXFILE * BSIZE
abbrev pub max_size : ℕ
max_size = (12 + 128 + 128 * 128) * 512

-- NDEV
abbrev pub ndev : ℕ
ndev = 10

-- T_DEV
abbrev pub t_dev : ℕ
t_dev = 3

abbrev pub set_addr : ℕ → ℕ → Inode → Inode
set_addr i addr ip = record ip { copy = record ip.copy { addrs = update ip.copy.addrs i addr } }

abbrev pub set_indirect2 : ℕ → Inode → Inode
set_indirect2 addr ip = record ip { copy = record ip.copy { indirect2 = addr } }

abbrev pub set_size : ℕ → Inode → Inode
set_size n ip = record ip { copy = record ip.copy { size = n } }

-- min(n - tot, BSIZE - off%BSIZE)
abbrev pub part : ℕ → ℕ → ℕ → ℕ
part n tot off = if ltb (n - tot) (512 - off % 512) then n - tot else 512 - off % 512

-- memmove(to + i, from + j, m)
abbrev pub moved : (ℕ → ℕ) → ℕ → (ℕ → ℕ) → ℕ → ℕ → ℕ → ℕ
moved to i from j m k = if leb i k && ltb k (i + m) then from (j + (k - i)) else to k

module _ {S : Type 0} (cs : ContentServices S) where
  -- ip->addrs[i], allocated if there is none.
  pub own_addr : ℕ → Inode → S → Outcome (ℕ × (Inode × S))
  own_addr i ip s =
      if ip.copy.addrs i == 0
      then (do (addr, s₁) ← cs.balloc ip.dev s; ok (addr, (set_addr i addr ip, s₁)))
      else ok (ip.copy.addrs i, (ip, s))

  -- ip->indirect2, allocated if there is none.
  pub own_indirect2 : Inode → S → Outcome (ℕ × (Inode × S))
  own_indirect2 ip s =
      if ip.copy.indirect2 == 0
      then (do (addr, s₁) ← cs.balloc ip.dev s; ok (addr, (set_indirect2 addr ip, s₁)))
      else ok (ip.copy.indirect2, (ip, s))

  -- a[i] in the bytes `b` of the block `t`, allocated if there is none.
  pub entry_addr : ℕ → ℕ → ℕ → Block → S → Outcome (ℕ × S)
  entry_addr dev t i b s =
      if word_at b i == 0
      then (do
        (addr, s₁) ← cs.balloc dev s
        s₂ ← cs.log_write dev t (set_word i addr b) s₁
        ok (addr, s₂))
      else ok (word_at b i, s)

  pub table_addr : ℕ → ℕ → ℕ → S → Outcome (ℕ × S)
  unfolding entry_addr
  table_addr dev t i s = do
    (b, s₁) ← cs.bread dev t s
    (addr, s₂) ← entry_addr dev t i b s₁
    s₃ ← cs.brelse dev t s₂
    ok (addr, s₃)

  pub bmap : Inode → ℕ → S → Outcome (ℕ × (Inode × S))
  unfolding own_addr own_indirect2 table_addr
  bmap ip bn s =
      if ltb bn ndirect
      then own_addr bn ip s
      else (if ltb (bn - ndirect) nindirect
          then (do
            (t, (ip₁, s₁)) ← own_addr ndirect ip s
            (addr, s₂) ← table_addr ip.dev t (bn - ndirect) s₁
            ok (addr, (ip₁, s₂)))
          else (if ltb (bn - ndirect - nindirect) (nindirect * nindirect)
              then (do
                (t, (ip₁, s₁)) ← own_indirect2 ip s
                (t', s₂) ← table_addr ip.dev t ((bn - ndirect - nindirect) / nindirect) s₁
                (addr, s₃) ← table_addr ip.dev t' ((bn - ndirect - nindirect) % nindirect) s₂
                ok (addr, (ip₁, s₃)))
              else panic bmap_out_of_range))

  -- The loop of `readi` for at most `fuel` rounds.
  pub read_from : ℕ → ℕ → ℕ → ℕ → (ℕ → ℕ) → Inode → S → Outcome ((ℕ → ℕ) × (Inode × S))
  unfolding bmap
  read_from zero tot off n dst ip s = ok (dst, (ip, s))
  read_from (suc fuel) tot off n dst ip s =
      if ltb tot n
      then (do
        (t, (ip₁, s₁)) ← bmap ip (off / 512) s
        (b, s₂) ← cs.bread ip.dev t s₁
        let m = part n tot off
        s₃ ← cs.brelse ip.dev t s₂
        read_from fuel (tot + m) (off + m) n (moved dst tot b (off % 512) m) ip₁ s₃)
      else ok (dst, (ip, s))

  -- The device of `readi`.
  pub read_device : Inode → (ℕ → ℕ) → ℕ → S → Outcome ((Option ℕ × (ℕ → ℕ)) × (Inode × S))
  read_device ip dst n s =
      if not (ltb ip.copy.major ndev) || not (cs.can_read ip.copy.major)
      then ok ((none, dst), (ip, s))
      else (do (r, s₁) ← cs.dev_read ip.copy.major ip n s; ok (r, (ip, s₁)))

  pub read_file : Inode → (ℕ → ℕ) → ℕ → ℕ → S → Outcome ((Option ℕ × (ℕ → ℕ)) × (Inode × S))
  unfolding read_from
  read_file ip dst off n s = do
    (dst', (ip₁, s₁)) ← read_from n 0 off n dst ip s
    ok ((some n, dst'), (ip₁, s₁))

  -- `dst` is the memory at the pointer, and none is -1.
  pub readi : Inode → (ℕ → ℕ) → ℕ → ℕ → S → Outcome ((Option ℕ × (ℕ → ℕ)) × (Inode × S))
  unfolding read_device read_file
  readi ip dst off n s =
      if ip.copy.type == t_dev
      then read_device ip dst n s
      else (if ltb ip.copy.size off || ltb ((off + n) % 2 ^ 32) off
          then ok ((none, dst), (ip, s))
          else read_file ip dst off (if ltb ip.copy.size (off + n) then ip.copy.size - off else n)
              s)

  -- The loop of `writei` for at most `fuel` rounds, with `off` as it is then.
  pub write_from : ℕ → ℕ → ℕ → ℕ → (ℕ → ℕ) → Inode → S → Outcome (ℕ × (Inode × S))
  unfolding bmap
  write_from zero tot off n src ip s = ok (off, (ip, s))
  write_from (suc fuel) tot off n src ip s =
      if ltb tot n
      then (do
        (t, (ip₁, s₁)) ← bmap ip (off / 512) s
        (b, s₂) ← cs.bread ip.dev t s₁
        let m = part n tot off
        s₃ ← cs.log_write ip.dev t (moved b (off % 512) src tot m) s₂
        s₄ ← cs.brelse ip.dev t s₃
        write_from fuel (tot + m) (off + m) n src ip₁ s₄)
      else ok (off, (ip, s))

  -- if(n > 0 && off > ip->size)
  pub write_end : ℕ → ℕ → Inode → S → Outcome (Option ℕ × (Inode × S))
  write_end n off ip s =
      if ltb 0 n && ltb ip.copy.size off
      then (do s₁ ← cs.iupdate (set_size off ip) s; ok (some n, (set_size off ip, s₁)))
      else ok (some n, (ip, s))

  pub write_device : Inode → (ℕ → ℕ) → ℕ → S → Outcome (Option ℕ × (Inode × S))
  write_device ip src n s =
      if not (ltb ip.copy.major ndev) || not (cs.can_write ip.copy.major)
      then ok (none, (ip, s))
      else (do (r, s₁) ← cs.dev_write ip.copy.major ip src n s; ok (r, (ip, s₁)))

  pub writei : Inode → (ℕ → ℕ) → ℕ → ℕ → S → Outcome (Option ℕ × (Inode × S))
  unfolding write_device write_from write_end
  writei ip src off n s =
      if ip.copy.type == t_dev
      then write_device ip src n s
      else (if ltb ip.copy.size off || ltb ((off + n) % 2 ^ 32) off
          then ok (none, (ip, s))
          else (if ltb max_size (off + n)
              then ok (none, (ip, s))
              else (do (off', (ip₁, s₁)) ← write_from n 0 off n src ip s; write_end n off' ip₁ s₁)))

  -- The loop of `itrunc` over the addresses in the inode, from `i` on.
  pub free_own : ℕ → ℕ → Inode → S → Outcome (Inode × S)
  free_own zero i ip s = ok (ip, s)
  free_own (suc r) i ip s =
      if ip.copy.addrs i == 0
      then free_own r (i + 1) ip s
      else (do s₁ ← cs.bfree ip.dev (ip.copy.addrs i) s; free_own r (i + 1) (set_addr i 0 ip) s₁)

  -- A loop over the addresses in a block, from `j` on.
  pub free_entries : ℕ → ℕ → ℕ → Block → S → Outcome S
  free_entries zero j dev a s = ok s
  free_entries (suc r) j dev a s = do
    s₁ ← (if word_at a j == 0 then ok s else cs.bfree dev (word_at a j) s)
    free_entries r (j + 1) dev a s₁

  -- A block of addresses, and what they lead to.
  pub free_table : ℕ → ℕ → S → Outcome S
  unfolding free_entries
  free_table dev t s = do
    (a, s₁) ← cs.bread dev t s
    s₂ ← free_entries nindirect 0 dev a s₁
    s₃ ← cs.brelse dev t s₂
    cs.bfree dev t s₃

  -- The loop over the block `indirect2`, from `i` on.
  pub free_tables : ℕ → ℕ → ℕ → Block → S → Outcome S
  unfolding free_table
  free_tables zero i dev a s = ok s
  free_tables (suc r) i dev a s = do
    s₁ ← (if word_at a i == 0 then ok s else free_table dev (word_at a i) s)
    free_tables r (i + 1) dev a s₁

  pub free_indirect : Inode → S → Outcome (Inode × S)
  unfolding free_table
  free_indirect ip s =
      if ip.copy.addrs ndirect == 0
      then ok (ip, s)
      else (do s₁ ← free_table ip.dev (ip.copy.addrs ndirect) s; ok (set_addr ndirect 0 ip, s₁))

  pub free_indirect2 : Inode → S → Outcome (Inode × S)
  unfolding free_tables
  free_indirect2 ip s = if ip.copy.indirect2 == 0 then ok (ip, s) else (do
    (a, s₁) ← cs.bread ip.dev ip.copy.indirect2 s
    s₂ ← free_tables nindirect 0 ip.dev a s₁
    s₃ ← cs.brelse ip.dev ip.copy.indirect2 s₂
    s₄ ← cs.bfree ip.dev ip.copy.indirect2 s₃
    ok (set_indirect2 0 ip, s₄))

  pub itrunc : Inode → S → Outcome (Inode × S)
  unfolding free_own free_indirect free_indirect2
  itrunc ip s = do
    (ip₁, s₁) ← free_own ndirect 0 ip s
    (ip₂, s₂) ← free_indirect ip₁ s₁
    (ip₃, s₃) ← free_indirect2 ip₂ s₂
    s₄ ← cs.iupdate (set_size 0 ip₃) s₃
    ok (set_size 0 ip₃, s₄)

  -- Give back a reference, so that `ref` is positive. Of the cache only this entry changes by the call.
  pub iput : ℕ → Icache → S → Outcome (Icache × S)
  unfolding itrunc
  iput i c s =
      if (c i).ref == 1 && (c i).valid && (c i).copy.nlink == 0
      then (do
        check (not (c i).busy) iput_busy
        (ip, s₁) ← itrunc (record (c i) { busy = true }) s
        let ip₁ = record ip { copy = record ip.copy { type = 0 } }
        s₂ ← cs.iupdate ip₁ s₁
        ok (update c i (record ip₁ { busy = false; valid = false; ref = ip₁.ref - 1 }), s₂))
      else ok (update c i (record (c i) { ref = (c i).ref - 1 }), s)
