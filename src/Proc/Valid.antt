-- ===== src/Proc/Valid.antt =====
-- The invariant of the process table, and changes of one slot.
use model_lib.Base.{
  ℕ, ◌≤◌, ◌<◌, ◌≡◌, ◌≢◌, ◌⊎◌, refl, sym, ap, ◌∙◌, inl, inr, Bool, true, false, some, ◌==◌,
  Bool-cases, arith,
}
use model_lib.Base.Family.{update}
use model_lib.Proc.{
  nproc, nofile, ProcState, unused, embryo, sleeping, runnable, running, zombie, Proc, Ptable,
  set_proc, is_unused,
}

-- A process that runs, now or later.
abbrev pub alive : ProcState → Bool
alive sleeping = true
alive runnable = true
alive running = true
alive unused = false
alive embryo = false
alive zombie = false

-- The pids of processes are positive, different and already given out; each parent is alive, so that
-- it can wait; what is not alive has no open file; and init is alive.
pub record IsValid (t : Ptable) : Type 0 where
  pub next : 0 < t.nextpid
  pub init_slot : t.initproc < nproc
  pub init_alive : alive (t.proc t.initproc).state ≡ true
  pub pids :
      (i : ℕ)
      → i < nproc
      → is_unused (t.proc i).state ≡ false
      → (0 < (t.proc i).pid) × ((t.proc i).pid < t.nextpid)
  pub distinct :
      (i j : ℕ)
      → i < nproc
      → j < nproc
      → is_unused (t.proc i).state ≡ false
      → is_unused (t.proc j).state ≡ false
      → (t.proc i).pid ≡ (t.proc j).pid
      → i ≡ j
  pub parents :
      (i j : ℕ)
      → i < nproc
      → (t.proc i).parent ≡ some j
      → (j < nproc) × (alive (t.proc j).state ≡ true)
  pub closed :
      (i k : ℕ) → i < nproc → alive (t.proc i).state ≡ false → k < nofile → (t.proc i).ofile k ≡ 0

-- When slot `i` may be set to `p`, with `m` the next pid.
pub record Fits (t : Ptable) (i : ℕ) (p : Proc) (m : ℕ) : Type 0 where
  pub slot : i < nproc
  pub later : t.nextpid ≤ m
  pub keeps :
      (alive p.state ≡ true)
      ⊎ ((i ≢ t.initproc) × ((j : ℕ) → j < nproc → (t.proc j).parent ≢ some i))
  pub pid : is_unused p.state ≡ false → (0 < p.pid) × (p.pid < m)
  pub fresh :
      (j : ℕ)
      → j < nproc
      → j ≢ i
      → is_unused p.state ≡ false
      → is_unused (t.proc j).state ≡ false
      → (t.proc j).pid ≢ p.pid
  pub parent :
      (j : ℕ)
      → p.parent ≡ some j
      → (j < nproc) × (alive (t.proc j).state ≡ true) × ((j ≢ i) ⊎ (alive p.state ≡ true))
  pub files : (k : ℕ) → alive p.state ≡ false → k < nofile → p.ofile k ≡ 0

module _ (t : Ptable) (i : ℕ) (p : Proc) (m : ℕ) (v : IsValid t) (f : Fits t i p m) where
  stays_alive :
      (j : ℕ)
      → alive (t.proc j).state ≡ true
      → (j ≢ i) ⊎ (alive p.state ≡ true)
      → alive (update t.proc i p j).state ≡ true
  stays_alive j a far = elim (Bool-cases (j == i)) [
    | inl q ↦ rw q (elim far [ inl ne ↦ absurd (ne (ground arith)) | inr h ↦ h ])
    | inr q ↦ rw q a
  ]

  not_left :
      (j : ℕ)
      → (j ≡ t.initproc) ⊎ ((x : ℕ) × (x < nproc) × ((t.proc x).parent ≡ some j))
      → (j ≢ i) ⊎ (alive p.state ≡ true)
  not_left j h = elim f.keeps [
    | inl a ↦ inr a
    | inr (ne, none_left) ↦
        inl λ e. elim h [
          | inl e' ↦ ne (sym e ∙ e')
          | inr (x, lt, e') ↦ none_left x lt (e' ∙ ap some e)
        ]
  ]

  pub set_proc-IsValid : IsValid (record (set_proc i p t) { nextpid = m })
  set_proc-IsValid = record {
    next = omega (arith, v.next, f.later);
    init_slot = v.init_slot;
    init_alive = stays_alive t.initproc v.init_alive (not_left t.initproc (inl refl));
    pids = λ j lt used. elim (Bool-cases (j == i)) [
      | inl q ↦ ground (arith, f.pid)
      | inr q ↦ ground (arith, v.pids j lt, f.later)
    ];
    distinct = λ j k lj lk uj uk e. elim (Bool-cases (j == i)) [
      | inl qj ↦ elim (Bool-cases (k == i)) [
        | inl qk ↦ ground arith
        | inr qk ↦ ground (arith, f.fresh k lk)
      ]
      | inr qj ↦ elim (Bool-cases (k == i)) [
        | inl qk ↦ ground (arith, f.fresh j lj)
        | inr qk ↦ ground (arith, v.distinct j k lj lk)
      ]
    ];
    parents = λ j k lt e. elim (Bool-cases (j == i)) [
      | inl q ↦ let (lt', a, far) = f.parent k (ground arith) in (lt', stays_alive k a far)
      | inr q ↦
          let e' : (t.proc j).parent ≡ some k = ground arith in
          let (lt', a) = v.parents j k lt e' in
          (lt', stays_alive k a (not_left k (inr (j, lt, e'))))
    ];
    closed = λ j k lt dead small. elim (Bool-cases (j == i)) [
      | inl q ↦ ground (arith, f.files k)
      | inr q ↦ ground (arith, v.closed j k lt)
    ];
  }
