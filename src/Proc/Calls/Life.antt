-- ===== src/Proc/Calls/Life.antt =====
-- Each function of proc.c keeps the invariant of the process table.
use model_lib.Base.{
  ℕ, zero, suc, ◌+◌, ◌<◌, ◌≡◌, ◌≢◌, ◌⊎◌, refl, sym, ap, ◌∙◌, inl, inr, Bool, true, false,
  false≢true, Option, none, some, Option-cases, ◌==◌, if◌then◌else◌, Bool-cases, arith,
}
use mathlib.Core.Path.{subst}
use model_lib.Base.Outcome.{Yields, yields, panics, Yields-then, Yields-bind}
use model_lib.Base.Search.{search_from, search_from-some}
use model_lib.Proc.{
  nproc, nofile, ProcState, unused, embryo, sleeping, runnable, running, zombie, Proc, Ptable,
  set_proc, is_unused, is_zombie, claim, claim_slot,
}
use model_lib.Proc.Services.{Services}
use model_lib.Proc.Valid.{alive, IsValid, Fits, set_proc-IsValid}
use model_lib.Proc.Calls.{
  copied, with_stack, allocproc, dup_files, fill, fork_on, fork, close_files, exit,
}
use model_lib.Proc.Calls.Parents.{Passed-IsValid, finish-IsValid, Kept, Kept-refl}

unused-eq : (s : ProcState) → is_unused s ≡ true → unused ≡ s
unused-eq unused h = refl
unused-eq embryo h = cc
unused-eq sleeping h = cc
unused-eq runnable h = cc
unused-eq running h = cc
unused-eq zombie h = cc

pub zombie-eq : (s : ProcState) → is_zombie s ≡ true → zombie ≡ s
zombie-eq zombie h = refl
zombie-eq embryo h = cc
zombie-eq sleeping h = cc
zombie-eq runnable h = cc
zombie-eq running h = cc
zombie-eq unused h = cc

pub alive_used : (s : ProcState) → alive s ≡ true → is_unused s ≡ false
alive_used unused h = cc
alive_used embryo h = refl
alive_used sleeping h = refl
alive_used runnable h = refl
alive_used running h = refl
alive_used zombie h = refl

-- What is not alive is not init, and no process has it as its parent.
dead_alone :
    (t : Ptable) (i : ℕ)
    → IsValid t
    → alive (t.proc i).state ≡ false
    → (i ≢ t.initproc) × ((j : ℕ) → j < nproc → (t.proc j).parent ≢ some i)
dead_alone t i v dead = (
  (λ e. false≢true (sym dead ∙ ap (λ x. alive (t.proc x).state) e ∙ v.init_alive)),
  λ j lt e. false≢true (sym dead ∙ (v.parents j i lt e).1),
)

-- A slot that changes but keeps its pid, its parent and its files, and stays alive.
pub touch-IsValid :
    (t : Ptable) (i : ℕ) (p : Proc)
    → IsValid t
    → i < nproc
    → alive (t.proc i).state ≡ true
    → alive p.state ≡ true
    → p.pid ≡ (t.proc i).pid
    → p.parent ≡ (t.proc i).parent
    → IsValid (set_proc i p t)
touch-IsValid t i p v slot was is same_pid same_parent =
    let used = alive_used (t.proc i).state was in
    set_proc-IsValid t i p t.nextpid v record {
      slot = slot;
      later = omega arith;
      keeps = inl is;
      pid = λ _.
          (let (pos, low) = v.pids i slot used in
            (omega (arith, pos, same_pid), omega (arith, low, same_pid)));
      fresh = λ j lt far _ used_j e. far (v.distinct j i lt slot used_j used (e ∙ same_pid));
      parent = λ j e. let (lt, a) = v.parents i j slot (sym same_parent ∙ e) in (lt, a, inr is);
      files = λ k dead _. absurd (false≢true (sym dead ∙ is));
    }

-- A slot that is not alive and becomes one without a process.
pub free-IsValid :
    (t : Ptable) (i : ℕ) (p : Proc)
    → IsValid t
    → i < nproc
    → alive (t.proc i).state ≡ false
    → p.state ≡ unused
    → p.ofile ≡ (t.proc i).ofile
    → (p.parent ≡ none) ⊎ (p.parent ≡ (t.proc i).parent)
    → IsValid (set_proc i p t)
free-IsValid t i p v slot dead is_free files parent =
    let is : is_unused p.state ≡ true = ap is_unused is_free in
    let alone = dead_alone t i v dead in
    set_proc-IsValid t i p t.nextpid v record {
      slot = slot;
      later = omega arith;
      keeps = inr alone;
      pid = λ h. absurd (false≢true (sym h ∙ is));
      fresh = λ j lt far h. absurd (false≢true (sym h ∙ is));
      parent = λ j e. elim parent [
        | inl e' ↦ cc
        | inr e' ↦
            let (lt, a) = v.parents i j slot (sym e' ∙ e) in
            (lt, a, inl λ j_eq. alone.1 i slot (sym e' ∙ e ∙ ap some j_eq))
      ];
      files = λ k _ small. ap (λ o. o k) files ∙ v.closed i k slot dead small;
    }

-- A slot that `claim_slot` has claimed: all other slots are as before.
pub record Claimed (t : Ptable) (i : ℕ) (t' : Ptable) : Type 0 where
  pub valid : IsValid t'
  pub slot : i < nproc
  pub was : (t.proc i).state ≡ unused
  pub state : (t'.proc i).state ≡ embryo
  pub pid : (t'.proc i).pid ≡ t.nextpid
  pub files : (t'.proc i).ofile ≡ (t.proc i).ofile
  pub others : (j : ℕ) → j ≢ i → t'.proc j ≡ t.proc j
  pub init : t'.initproc ≡ t.initproc

pub claim_slot_lem :
    (t : Ptable)
    → IsValid t
    → (claim_slot t ≡ none)
      ⊎ ((i : ℕ) × (t' : Ptable) × (claim_slot t ≡ some (i, t')) × Claimed t i t')
unfolding claim_slot claim
claim_slot_lem t v = elim (Option-cases (search_from (λ i. is_unused (t.proc i).state) nproc 0)) [
  | inl e ↦ inl (ap (λ o. elim o [ some i ↦ some (i, claim i t) | none ↦ none ]) e)
  | inr (i, e) ↦
      let (free, _, lt) = search_from-some (λ i. is_unused (t.proc i).state) nproc 0 {j = i} e in
      let is : unused ≡ (t.proc i).state = unused-eq (t.proc i).state free in
      let dead : alive (t.proc i).state ≡ false = sym (ap alive is) in
      let alone = dead_alone t i v dead in
      let p : Proc = record (t.proc i) { state = embryo; pid = t.nextpid } in
      let fits : Fits t i p (t.nextpid + 1) = record {
        slot = omega arith;
        later = omega arith;
        keeps = inr alone;
        pid = λ _. (v.next, omega arith);
        fresh = λ j lt far _ used e'. omega (arith, (v.pids j lt used).1, e');
        parent = λ j e'.
            let (lt', a) = v.parents i j (omega arith) e' in
            (lt', a, inl λ j_eq. alone.1 i (omega arith) (e' ∙ ap some j_eq));
        files = λ k _ small. v.closed i k (omega arith) dead small;
      } in
      inr (
        i,
        claim i t,
        ap (λ o. elim o [ some i ↦ some (i, claim i t) | none ↦ none ]) e,
        record {
          valid = set_proc-IsValid t i p (t.nextpid + 1) v fits;
          slot = omega arith;
          was = sym is;
          state = ground arith;
          pid = ground arith;
          files = ground arith;
          others = λ j ne. ground arith;
          init = refl;
        },
      )
]

-- A slot that keeps all that the invariant reads.
pub keep-IsValid :
    (t : Ptable) (i : ℕ) (p : Proc)
    → IsValid t
    → Kept (t.proc i) p
    → p.parent ≡ (t.proc i).parent
    → IsValid (set_proc i p t)
keep-IsValid t i p v k same = Passed-IsValid 0 i t (set_proc i p t) v record {
  next = refl;
  init = refl;
  kept = λ j. elim (Bool-cases (j == i)) [
    | inl q ↦ (let j_eq : j ≡ i = ground arith in rw q (rw j_eq k))
    | inr q ↦ rw q (Kept-refl (t.proc j))
  ];
  parent = λ j. elim (Bool-cases (j == i)) [
    | inl q ↦ (let j_eq : j ≡ i = ground arith in rw q (rw j_eq (ground arith)))
    | inr q ↦ rw q (ground arith)
  ];
}

module _ {S : Type 0} (os : Services S) where
  -- With a kernel stack the claimed slot stays as it was in all else.
  pub stack-Claimed :
      (t t' : Ptable) (i stack : ℕ)
      → Claimed t i t'
      → Claimed t i (set_proc i (record (t'.proc i) { kstack = stack }) t')
  stack-Claimed t t' i stack c = record {
    valid =
        keep-IsValid t' i (record (t'.proc i) { kstack = stack }) c.valid
          record {
            pid = refl;
            files = refl;
            living = refl;
            used = refl;
            zombies = refl;
            ready = λ h. h;
          }
          refl;
    slot = c.slot;
    was = c.was;
    state = ground (arith, c.state);
    pid = ground (arith, c.pid);
    files = ground (arith, c.files);
    others = λ j ne. ground (arith, c.others j ne);
    init = c.init;
  }

  pub allocproc_lem :
      (t : Ptable) (s : S)
      → IsValid t
      → ((t' : Ptable) × (s' : S) × (allocproc os t s ≡ (none, t', s')) × IsValid t')
        ⊎ ((i : ℕ) × (t' : Ptable) × (s' : S) × (allocproc os t s ≡ (some i, t', s'))
            × Claimed t i t')
  unfolding allocproc with_stack
  allocproc_lem t s v = elim (claim_slot_lem t v) [
    | inl e ↦ inl (t, s, ap (λ o. with_stack os o t s) e, v)
    | inr (i, t', e, c) ↦ elim (Bool-cases ((os.kalloc s).0 == 0)) [
      | inl q ↦ inl (
        set_proc i (record (t'.proc i) { kstack = (os.kalloc s).0; state = unused }) t',
        (os.kalloc s).1,
        ap (λ o. with_stack os o t s) e ∙ ap (chosen t' i) q,
        free-IsValid t' i (record (t'.proc i) { kstack = (os.kalloc s).0; state = unused }) c.valid
            c.slot (ap alive c.state) refl refl (inr refl),
      )
      | inr q ↦ inr (
        i,
        set_proc i (record (t'.proc i) { kstack = (os.kalloc s).0 }) t',
        (os.kalloc s).1,
        ap (λ o. with_stack os o t s) e ∙ ap (chosen t' i) q,
        stack-Claimed t t' i (os.kalloc s).0 c,
      )
    ]
  ]
    where
      chosen : Ptable → ℕ → Bool → Option ℕ × Ptable × S
      chosen t' i b =
          if b
          then (
            none,
            set_proc i (record (t'.proc i) { kstack = (os.kalloc s).0; state = unused }) t',
            (os.kalloc s).1,
          )
          else (
            some i,
            set_proc i (record (t'.proc i) { kstack = (os.kalloc s).0 }) t',
            (os.kalloc s).1,
          )

  module _ (self i : ℕ) (t₀ t : Ptable) (c : Claimed t₀ i t) (slot : self < nproc)
      (lives : alive (t.proc self).state ≡ true) where
    copied-Fits :
        (pgdir : ℕ) (files : ℕ → ℕ)
        → Fits t i (copied self (t.proc self) pgdir files (t.proc i)) t.nextpid
    unfolding copied
    copied-Fits pgdir files =
        let used : is_unused (t.proc i).state ≡ false = ap is_unused c.state in
        record {
          slot = c.slot;
          later = omega arith;
          keeps = inl refl;
          pid = λ _. c.valid.pids i c.slot used;
          fresh = λ j lt far _ used_j e. far (c.valid.distinct j i lt c.slot used_j used e);
          parent = λ j e.
              let e' : self ≡ j = cc in
              (
                omega (arith, slot, e'),
                ap (λ x. alive (t.proc x).state) (sym e') ∙ lives,
                inr refl,
              );
          files = λ k dead _. absurd (false≢true (sym dead));
        }

    fill-IsValid :
        (pgdir : ℕ) (s : S)
        → Yields (λ (r : Option ℕ × Ptable × S). IsValid r.1) (fill os self i pgdir t s)
    unfolding fill
    fill-IsValid pgdir s = Yields-then (os.fork_pids (t.proc self).pid (t.proc i).pid s) _ λ s₁.
        Yields-then (dup_files os nofile (t.proc self).ofile (t.proc i).ofile s₁) _ λ (files, s₂).
          yields _ (
            set_proc-IsValid t i (copied self (t.proc self) pgdir files (t.proc i)) t.nextpid
              c.valid (copied-Fits pgdir files))

  pub fork-IsValid :
      (self : ℕ) (t : Ptable) (s : S)
      → IsValid t
      → self < nproc
      → alive (t.proc self).state ≡ true
      → Yields (λ (r : Option ℕ × Ptable × S). IsValid r.1) (fork os self t s)
  unfolding fork fork_on
  fork-IsValid self t s v slot lives = elim (allocproc_lem t s v) [
    | inl (t', s', e, v') ↦
        subst (λ r. Yields (λ (q : Option ℕ × Ptable × S). IsValid q.1) (fork_on os self r)) (sym e)
          (yields _ v')
    | inr (i, t', s', e, c) ↦
        let far : self ≢ i = λ self_eq.
          false≢true
            (sym (ap alive c.was) ∙ ap (λ x. alive (t.proc x).state) (sym self_eq) ∙ lives) in
        let lives' : alive (t'.proc self).state ≡ true =
          ap (λ p. alive p.state) (c.others self far) ∙ lives in
        subst (λ r. Yields (λ (q : Option ℕ × Ptable × S). IsValid q.1) (fork_on os self r)) (sym e)
          (branch i t' s' c lives')
  ]
    where
      branch :
          (i : ℕ) (t' : Ptable) (s' : S)
          → Claimed t i t'
          → alive (t'.proc self).state ≡ true
          → Yields (λ (q : Option ℕ × Ptable × S). IsValid q.1) (fork_on os self (some i, t', s'))
      branch i t' s' c lives' =
          let copy = os.copyuvm (t'.proc self).pgdir (t'.proc self).sz s' in
          elim (Bool-cases (copy.0 == 0)) [
            | inl q ↦ rw q (
                Yields-then (os.kfree (t'.proc i).kstack copy.1) _ λ s₂. yields _ (
                  free-IsValid t' i (record (t'.proc i) { pgdir = 0; kstack = 0; state = unused })
                    c.valid c.slot (ap alive c.state) refl refl (inr refl)))
            | inr q ↦ rw q (fill-IsValid self i t t' c slot lives' copy.0 copy.1)
          ]

  close_files_lem :
      (n : ℕ) (files : ℕ → ℕ) (s : S)
      → Yields (λ (r : (ℕ → ℕ) × S). (k : ℕ) → k < n → r.0 k ≡ 0) (close_files os n files s)
  unfolding close_files
  close_files_lem zero files s = yields _ (λ k lt. absurd (omega arith))
  close_files_lem (suc fd) files s = Yields-bind _ (close_files_lem fd files s) λ (files', s') done.
      elim (Bool-cases (files' fd == 0)) [
        | inl q ↦ rw q (
            yields _ (λ k lt. elim (Bool-cases (k == fd)) [
              | inl e ↦ (let k_eq : k ≡ fd = ground arith in rw k_eq (ground arith))
              | inr e ↦ done k (ground arith)
            ]))
        | inr q ↦ rw q (
            Yields-then (os.fileclose (files' fd) s') _ λ s''. yields _ (λ k lt.
              elim (Bool-cases (k == fd)) [
                | inl e ↦ ground arith
                | inr e ↦ rw e (done k (ground arith))
              ]))
      ]

  pub exit-IsValid :
      (self : ℕ) (t : Ptable) (s : S)
      → IsValid t
      → self < nproc
      → alive (t.proc self).state ≡ true
      → Yields (λ (r : Ptable × S). IsValid r.0) (exit os self t s)
  unfolding exit
  exit-IsValid self t s v slot lives = elim (Bool-cases (self == t.initproc)) [
    | inl q ↦ rw q (panics _)
    | inr q ↦ rw q (
        Yields-bind _ (close_files_lem nofile (t.proc self).ofile s) λ (files, s₁) none_open.
          Yields-then (os.iput (t.proc self).cwd (os.free_inode_locks (t.proc self).pid s₁)) _ λ s₃.
            let p : Proc = record (t.proc self) { ofile = files; cwd = 0 } in
            let used = alive_used (t.proc self).state lives in
            yields _ (
              finish-IsValid self (set_proc self p t)
                (touch-IsValid t self p v slot lives lives refl refl) slot (ground arith)
                (ground (arith, used)) (λ k lt. ground (arith, none_open k lt))))
  ]
