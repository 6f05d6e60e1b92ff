-- ===== src/Unlocked/Tests.antt =====
-- The table of unlocked inodes at concrete contents.
use model_lib.Base.{
  ℕ, ◌≡◌, ◌≢◌, refl, true, false, ◌||◌, ◌&&◌, ◌==◌, ◌<◌, if◌then◌else◌, not, arith,
}
use model_lib.Base.Outcome.{Returns}
use model_lib.Base.Search.{search_from, any_below, any_below-intro}
use model_lib.Unlocked.{
  ninodes, nproc, Pids, unlock_inode, is_inode_unlocked, free_inode_locks, fork_pids,
}
use model_lib.Unlocked.Table.{has_room, unlock_inode_lem, free_inode_locks_lem, fork_pids_lem}

-- Processes 4 and 5 have unlocked inode 2, and process 4 has unlocked inode 9.
abbrev sample : Pids
sample i j =
    if i == 2
    then (if j == 0 then 4 else if j == 2 then 5 else 0)
    else if i == 9 && j == 1
    then 4
    else 0

unlocked_by_5 : is_inode_unlocked 2 5 sample ≡ true
unfolding is_inode_unlocked search_from any_below
unlocked_by_5 = refl

locked_for_6 : is_inode_unlocked 2 6 sample ≡ false
unfolding is_inode_unlocked search_from any_below
locked_for_6 = refl

one_unlocked :
    Returns
      (λ t'.
        (i p : ℕ)
        → p ≢ 0
        → is_inode_unlocked i p t' ≡ (is_inode_unlocked i p sample || i == 2 && p == 6))
      (unlock_inode 2 6 sample)
unfolding search_from any_below
one_unlocked = unlock_inode_lem 2 6 sample refl

all_locked :
    is_inode_unlocked 2 5 (free_inode_locks 4 sample)
    ≡ (is_inode_unlocked 2 5 sample && not (5 == 4))
all_locked = free_inode_locks_lem 4 2 5 sample (omega arith) (omega arith)

sample_room : (i : ℕ) → has_room (sample i) ≡ true
sample_room i = any_below-intro (λ j. sample i j == 0) nproc 3 (omega arith) (ground arith)

fork_pids_lem_example :
    Returns
      (λ t'.
        (i p : ℕ)
        → i < ninodes
        → p ≢ 0
        → is_inode_unlocked i p t'
          ≡ (is_inode_unlocked i p sample || is_inode_unlocked i 4 sample && p == 7))
      (fork_pids 4 7 sample)
fork_pids_lem_example = fork_pids_lem 4 7 sample (λ i lt. ground (arith, sample_room i))
