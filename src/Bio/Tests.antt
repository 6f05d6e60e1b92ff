-- ===== src/Bio/Tests.antt =====
-- bio.c and memide.c at concrete inputs.
use model_lib.Base.{◌+◌, ◌<◌, ◌≤◌, ◌≡◌, refl, sym, ap, ◌∙◌, true, false, none, inr, arith, [], ◌∷◌}
use model_lib.Base.Outcome.{panic, asleep, Returns, bget_no_buffers}
use model_lib.Base.Family.{update, find, count, has}
use model_lib.Bio.{Buf, Disk, Cache, binit, bread, bwrite, brelse, is_free}
use model_lib.Bio.Inv.{view, held, dirty, room, cost, cost-le_one, slot, Owns}
use model_lib.Bio.Init.{binit-IsValid, held-binit, room-binit, view-binit}
use model_lib.Bio.Bread.{Read, ReadBy, filled, filled-Read, bread_lem, bread-asleep, bread-panics}
use model_lib.Bio.Release.{Becomes, written, bwrite_lem, brelse_lem}

abbrev disk : Disk
disk = record { blocks = λ s o. s; size = 40; history = [] }

bread_lem_example : Returns (ReadBy (binit disk) 3) (bread 1 3 (binit disk))
bread_lem_example =
    bread_lem (binit disk) (binit-IsValid disk) 3 (unfold binit in omega arith)
      (ap (λ f. f 3) (held-binit disk)) (omega (arith, room-binit disk, cost-le_one (binit disk) 3))

-- A cache in which buffer 4 holds sector 3 for a caller, as `bread` leaves it.
abbrev busy_buf : Buf
busy_buf = record { dev = 1; sector = 3; busy = true; valid = true; dirty = false; bytes = λ o. 3 }

abbrev one_held : Cache
one_held = record { buf = λ i. busy_buf; order = 4 ∷ []; disk = disk }

busy_sector : bread 1 3 one_held ≡ asleep
unfolding held find
busy_sector = bread-asleep one_held 3 refl

no_buffer_left : bread 1 5 one_held ≡ panic bget_no_buffers
unfolding room find count
no_buffer_left = bread-panics one_held 5 refl refl

-- The cache after `bread` of sector 3.
miss : slot (binit disk) 3 ≡ none
unfolding binit find
miss = refl

in_order : has (binit disk).order 0 ≡ true
unfolding binit has
in_order = refl

is_idle : is_free ((binit disk).buf 0) ≡ true
unfolding binit
is_idle = refl

abbrev after_read : Cache
after_read = filled (binit disk) (binit-IsValid disk) 3 0 miss in_order is_idle

after_read-Read : Read (binit disk) 3 0 after_read
after_read-Read = filled-Read (binit disk) (binit-IsValid disk) 3 0 miss in_order is_idle

size_after : 3 < after_read.disk.size
unfolding binit
size_after = omega (arith, ap (λ d. d.size) after_read-Read.disk_same)

one_written :
    Returns
      (λ k'.
        Becomes after_read 3
          (view after_read)
          (held after_read)
          (update (dirty after_read) 3 false)
          (written 3 (view after_read 3) after_read.disk)
          k'
        × Owns k' 0 3)
      (bwrite 0 after_read)
one_written = bwrite_lem after_read after_read-Read.valid 0 3 after_read-Read.owns size_after

on_disk : view after_read 3 ≡ after_read.disk.blocks 3
on_disk =
    ap (λ f. f 3) (after_read-Read.view_same ∙ view-binit disk)
    ∙ unfold binit in sym (ap (λ d. d.blocks 3) after_read-Read.disk_same)

brelse_lem_example :
    Returns
      (λ k'.
        Becomes after_read 3
          (view after_read)
          (update (held after_read) 3 false)
          (dirty after_read)
          after_read.disk
          k'
        × (room after_read + cost after_read 3 ≤ room k'))
      (brelse 0 after_read)
brelse_lem_example =
    brelse_lem after_read after_read-Read.valid 0 3 after_read-Read.owns (inr on_disk)
