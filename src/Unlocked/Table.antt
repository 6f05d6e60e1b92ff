-- ===== src/Unlocked/Table.antt =====
-- Which processes have unlocked which inodes, before and after each operation on the table.
use mathlib.Core.Path.{subst}
use model_lib.Base.{
  ℕ, zero, suc, ◌≤◌, ◌<◌, ◌≡◌, ◌≢◌, refl, sym, ap, ◌∙◌, inl, inr, Bool, true, false, not, ◌&&◌,
  ◌||◌, Option, none, some, ◌==◌, ltb, lt→ltb, if◌then◌else◌, Bool-cases, arith,
}
use model_lib.Base.Outcome.{Returns, returns, Returns-bind, Returns-mono, Returns-mono}
use model_lib.Base.Family.{update}
use model_lib.Base.Search.{
  search_from, search_from-some, any_below, any_below-intro, any_below-elim, Bool-ext, is_found,
}
use model_lib.Unlocked.{
  ninodes, nproc, Pids, in_row, add_pid, unlock_inode, is_inode_unlocked, clear_row, clear_rows,
  free_inode_locks, fork_row, fork_rows, fork_pids,
}

-- Is there a free slot in the row?
abbrev pub has_room : (ℕ → ℕ) → Bool
has_room row = any_below (λ j. row j == 0) nproc

-- A pid put into a free slot is in the row, and all others are as before.
in_row-put :
    (row : ℕ → ℕ) (j pid : ℕ)
    → j < nproc
    → row j ≡ 0
    → (p : ℕ) → p ≢ 0
    → in_row (update row j pid) p ≡ (in_row row p || p == pid)
in_row-put row j pid lt e p ne =
    Bool-ext (in_row (update row j pid) p) (in_row row p || p == pid) there back
  where
    there : in_row (update row j pid) p ≡ true → (in_row row p || p == pid) ≡ true
    there h =
        let (x, x_lt, t) = any_below-elim (λ x. update row j pid x == p) nproc h in
        elim (Bool-cases (x == j)) [
          | inl q ↦ (let e' : (p == pid) ≡ true = ground arith in ground arith)
          | inr q ↦
              let h' : in_row row p ≡ true =
                any_below-intro (λ x. row x == p) nproc x x_lt (ground arith) in
              ground arith
        ]

    back : (in_row row p || p == pid) ≡ true → in_row (update row j pid) p ≡ true
    back h = elim (Bool-cases (p == pid)) [
      | inl q ↦ any_below-intro (λ x. update row j pid x == p) nproc j lt (ground arith)
      | inr q ↦
          let (x, x_lt, t) = any_below-elim (λ x. row x == p) nproc (ground arith) in
          let x_ne : x ≢ j = λ x_eq. ne (ground (arith, ap row x_eq)) in
          any_below-intro (λ x. update row j pid x == p) nproc x x_lt (ground arith)
    ]

add_pid-some :
    (row : ℕ → ℕ) (pid : ℕ) {row' : ℕ → ℕ}
    → add_pid row pid ≡ some row'
    → (p : ℕ) → p ≢ 0
    → in_row row' p ≡ (in_row row p || p == pid)
unfolding add_pid
add_pid-some row pid {row'} e p ne = by_search (search_from (λ j. row j == 0) nproc 0) refl e
  where
    by_search :
        (o : Option ℕ)
        → search_from (λ j. row j == 0) nproc 0 ≡ o
        → elim o [ some j ↦ some (update row j pid) | none ↦ none ] ≡ some row'
        → in_row row' p ≡ (in_row row p || p == pid)
    by_search none s h = cc
    by_search (some j) s h =
        let (t, le, lt) = search_from-some (λ j. row j == 0) nproc 0 {j = j} s in
        let same : update row j pid ≡ row' = cc in
        ap (λ r. in_row r p) (sym same) ∙ in_row-put row j pid (omega arith) (ground arith) p ne

-- A row with a free slot takes a pid.
add_pid-room :
    (row : ℕ → ℕ) (pid : ℕ)
    → has_room row ≡ true
    → (row' : ℕ → ℕ) × (add_pid row pid ≡ some row')
      × ((p : ℕ) → p ≢ 0 → in_row row' p ≡ (in_row row p || p == pid))
unfolding add_pid any_below
add_pid-room row pid room = by_result (add_pid row pid) refl
  where
    by_search :
        (o : Option ℕ)
        → is_found o ≡ true
        → elim o [ some j ↦ some (update row j pid) | none ↦ none ] ≢ none
    by_search none h e = cc
    by_search (some j) h e = cc

    by_result :
        (o : Option (ℕ → ℕ))
        → add_pid row pid ≡ o
        → (row' : ℕ → ℕ) × (add_pid row pid ≡ some row')
          × ((p : ℕ) → p ≢ 0 → in_row row' p ≡ (in_row row p || p == pid))
    by_result none e = absurd (by_search (search_from (λ j. row j == 0) nproc 0) room e)
    by_result (some row') e = (row', e, add_pid-some row pid e)

-- `unlock_inode` returns when the process has unlocked the inode or a slot of the inode's row is
-- free. Then the process has unlocked that inode, and each process that has a pid has unlocked
-- what it had unlocked before and nothing else.
pub unlock_inode_lem :
    (inum pid : ℕ) (t : Pids)
    → (in_row (t inum) pid || has_room (t inum)) ≡ true
    → Returns
        (λ t'.
          (i p : ℕ)
          → p ≢ 0
          → is_inode_unlocked i p t' ≡ (is_inode_unlocked i p t || i == inum && p == pid))
        (unlock_inode inum pid t)
unfolding unlock_inode is_inode_unlocked
unlock_inode_lem inum pid t can = elim (Bool-cases (in_row (t inum) pid)) [
  | inl there ↦ rw there (returns t (λ i p ne. known there i p))
  | inr f ↦
      let (row, e, all) = add_pid-room (t inum) pid (ground arith) in
      rw f (rw e (returns (update t inum row) (λ i p ne. added row all i p ne)))
]
  where
    known :
        in_row (t inum) pid ≡ true
        → (i p : ℕ) → in_row (t i) p ≡ (in_row (t i) p || i == inum && p == pid)
    known there i p = elim (Bool-cases (i == inum && p == pid)) [
      | inl q ↦
          let i_eq : i ≡ inum = ground arith in
          let p_eq : p ≡ pid = ground arith in ground (arith, ap t i_eq, there)
      | inr q ↦ ground arith
    ]

    added :
        (row : ℕ → ℕ)
        → ((p : ℕ) → p ≢ 0 → in_row row p ≡ (in_row (t inum) p || p == pid))
        → (i p : ℕ) → p ≢ 0
        → in_row (update t inum row i) p ≡ (in_row (t i) p || i == inum && p == pid)
    added row all i p ne = elim (Bool-cases (i == inum)) [
      | inl q ↦ (let i_eq : i ≡ inum = ground arith in rw q (rw i_eq (all p ne)))
      | inr q ↦ rw q (ground arith)
    ]

clear_row_at :
    (pid n : ℕ) (row : ℕ → ℕ) (j : ℕ)
    → clear_row pid n row j ≡ (if ltb j n && row j == pid then 0 else row j)
unfolding clear_row
clear_row_at pid zero row j = ground arith
clear_row_at pid (suc n) row j = ground (arith, clear_row_at pid n row j, clear_row_at pid n row n)

in_row-clear :
    (pid p : ℕ) (row : ℕ → ℕ)
    → p ≢ 0
    → in_row (clear_row pid nproc row) p ≡ (in_row row p && not (p == pid))
in_row-clear pid p row ne =
    Bool-ext (in_row (clear_row pid nproc row) p) (in_row row p && not (p == pid)) there back
  where
    there : in_row (clear_row pid nproc row) p ≡ true → (in_row row p && not (p == pid)) ≡ true
    there h =
        let (x, x_lt, t) = any_below-elim (λ x. clear_row pid nproc row x == p) nproc h in
        let at : (row x ≡ p) × (p ≢ pid) = ground (arith, clear_row_at pid nproc row x) in
        let h' : in_row row p ≡ true =
          any_below-intro (λ x. row x == p) nproc x x_lt (ground (arith, at.0)) in
        ground (arith, at.1)

    back : (in_row row p && not (p == pid)) ≡ true → in_row (clear_row pid nproc row) p ≡ true
    back h =
        let (x, x_lt, t) = any_below-elim (λ x. row x == p) nproc (ground arith) in
        any_below-intro (λ x. clear_row pid nproc row x == p) nproc x x_lt
          (ground (arith, clear_row_at pid nproc row x))

ltb-false : (i n : ℕ) → n ≤ i → ltb i n ≡ false
ltb-false i n le = ground arith

ltb-suc : (i n : ℕ) → (i == n) ≡ false → ltb i n ≡ ltb i (suc n)
ltb-suc i n ne = ground arith

clear_rows_at :
    (pid n : ℕ) (t : Pids) (i : ℕ)
    → clear_rows pid n t i ≡ (if ltb i n then clear_row pid nproc (t i) else t i)
unfolding clear_rows
clear_rows_at pid zero t i = rw (ltb-false i 0 (omega arith)) refl
clear_rows_at pid (suc n) t i = elim (Bool-cases (i == n)) [
  | inl q ↦
      let i_eq : i ≡ n = ground arith in
      let before : clear_rows pid n t n ≡ t n =
        clear_rows_at pid n t n
        ∙ ap (λ b. if b then clear_row pid nproc (t n) else t n) (ltb-false n n (omega arith)) in
      rw q (rw (lt→ltb i (suc n) (omega arith)) (rw i_eq (ap (clear_row pid nproc) before)))
  | inr q ↦ rw q (
      clear_rows_at pid n t i
      ∙ ap (λ b. if b then clear_row pid nproc (t i) else t i) (ltb-suc i n q))
]

-- After `free_inode_locks` of a pid that process has unlocked no inode below NINODES, and each
-- other process has unlocked what it had unlocked before.
pub free_inode_locks_lem :
    (pid i p : ℕ) (t : Pids)
    → i < ninodes
    → p ≢ 0
    → is_inode_unlocked i p (free_inode_locks pid t) ≡ (is_inode_unlocked i p t && not (p == pid))
unfolding free_inode_locks is_inode_unlocked
free_inode_locks_lem pid i p t lt ne =
    let row : clear_rows pid ninodes t i ≡ clear_row pid nproc (t i) =
      clear_rows_at pid ninodes t i
      ∙ ap (λ b. if b then clear_row pid nproc (t i) else t i) (lt→ltb i ninodes lt) in
    ap (λ r. in_row r p) row ∙ in_row-clear pid p (t i) ne

fork_row_lem :
    (old new : ℕ) (row : ℕ → ℕ)
    → (not (in_row row old) || has_room row) ≡ true
    → Returns
        (λ (row' : ℕ → ℕ).
          (p : ℕ) → p ≢ 0 → in_row row' p ≡ (in_row row p || in_row row old && p == new))
        (fork_row old new row)
unfolding fork_row
fork_row_lem old new row can = elim (Bool-cases (in_row row old)) [
  | inl there ↦
      let (row', e, all) = add_pid-room row new (ground arith) in
      rw there (rw e (returns row' (λ p ne. all p ne)))
  | inr f ↦ rw f (returns row (λ p ne. ground arith))
]

-- What `fork_pids` leaves unlocked, after the rows below `n`.
abbrev forked : ℕ → ℕ → ℕ → Pids → ℕ → ℕ → Bool
forked old new n t i p = in_row (t i) p || ltb i n && in_row (t i) old && p == new

abbrev Roomy : ℕ → ℕ → Pids → Type 0
Roomy old n t = (i : ℕ) → i < n → (not (in_row (t i) old) || has_room (t i)) ≡ true

-- The loop has not yet touched the rows from `n` on.
abbrev Forked : ℕ → ℕ → ℕ → Pids → Pids → Type 0
Forked old new n t t' =
    ((i p : ℕ) → p ≢ 0 → in_row (t' i) p ≡ forked old new n t i p) × ((i : ℕ) → n ≤ i → t' i ≡ t i)

Forked-next :
    (old new n : ℕ) (t t' : Pids) (row : ℕ → ℕ)
    → Forked old new n t t'
    → ((p : ℕ) → p ≢ 0 → in_row row p ≡ (in_row (t n) p || in_row (t n) old && p == new))
    → Forked old new (suc n) t (update t' n row)
Forked-next old new n t t' row (below, above) here = (rows, rest)
  where
    rows : (i p : ℕ) → p ≢ 0 → in_row (update t' n row i) p ≡ forked old new (suc n) t i p
    rows i p ne = elim (Bool-cases (i == n)) [
      | inl q ↦
          let i_eq : i ≡ n = ground arith in
          rw q (rw (lt→ltb i (suc n) (omega arith)) (rw i_eq (here p ne)))
      | inr q ↦ rw q (rw (← ltb-suc i n q) (below i p ne))
    ]

    rest : (i : ℕ) → suc n ≤ i → update t' n row i ≡ t i
    rest i le = let q : (i == n) ≡ false = ground arith in rw q (above i (omega arith))

fork_rows_lem :
    (old new n : ℕ) (t : Pids)
    → Roomy old n t
    → Returns (λ t'. Forked old new n t t') (fork_rows old new n t)
unfolding fork_rows
fork_rows_lem old new zero t roomy =
    returns t ((λ i p ne. rw (ltb-false i 0 (omega arith)) (ground arith)), λ i le. refl)
fork_rows_lem old new (suc n) t roomy =
    Returns-bind _ (fork_rows_lem old new n t (λ i lt. roomy i (omega arith))) λ t' done.
      Returns-bind _
        (subst
          (λ (r : ℕ → ℕ).
            Returns
              (λ (row' : ℕ → ℕ).
                (p : ℕ) → p ≢ 0 → in_row row' p ≡ (in_row (t n) p || in_row (t n) old && p == new))
              (fork_row old new r))
          (sym (done.1 n (omega arith))) (fork_row_lem old new (t n) (roomy n (omega arith))))
        λ row here. returns (update t' n row) (Forked-next old new n t t' row done here)

-- If each inode below NINODES that the old process has unlocked has a free slot, `fork_pids`
-- returns. Then the new process has also unlocked what the old one had, and apart from that each
-- process that has a pid has unlocked what it had unlocked before.
pub fork_pids_lem :
    (old new : ℕ) (t : Pids)
    → ((i : ℕ) → i < ninodes → (not (in_row (t i) old) || has_room (t i)) ≡ true)
    → Returns
        (λ t'.
          (i p : ℕ)
          → i < ninodes
          → p ≢ 0
          → is_inode_unlocked i p t'
            ≡ (is_inode_unlocked i p t || is_inode_unlocked i old t && p == new))
        (fork_pids old new t)
unfolding fork_pids is_inode_unlocked
fork_pids_lem old new t roomy =
    Returns-mono (fork_rows_lem old new ninodes t roomy) λ t' done i p lt ne.
      done.0 i p ne
      ∙ ap (λ b. in_row (t i) p || b && in_row (t i) old && p == new) (lt→ltb i ninodes lt)
