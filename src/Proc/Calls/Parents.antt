-- ===== src/Proc/Calls/Parents.antt =====
-- What waking processes and passing children on leaves as it was.
use model_lib.Base.{
  ℕ, zero, suc, ◌<◌, ◌≡◌, ◌≢◌, refl, sym, ap, ◌∙◌, inl, inr, true, false, false≢true, none, some,
  ◌==◌, ltb, ◌&&◌, if◌then◌else◌, Bool-cases, arith,
}
use model_lib.Proc.{
  nproc, nofile, ProcState, unused, embryo, sleeping, runnable, running, zombie, Channel, proc_chan,
  same_chan, Proc, Ptable, set_proc, is_unused, is_sleeping, is_zombie, is_runnable, wake, wakeup1,
}
use model_lib.Proc.Calls.{is_child, parent_chan, adopt, pass_on, finish}
use model_lib.Proc.Valid.{alive, IsValid, Fits, set_proc-IsValid}

-- `p'` is the same process as `p` as far as the invariant reads it, but for its parent.
pub record Kept (p p' : Proc) : Type 0 where
  pub pid : p'.pid ≡ p.pid
  pub files : p'.ofile ≡ p.ofile
  pub living : alive p'.state ≡ alive p.state
  pub used : is_unused p'.state ≡ is_unused p.state
  pub zombies : is_zombie p'.state ≡ is_zombie p.state
  pub ready : is_runnable p.state ≡ true → is_runnable p'.state ≡ true

pub Kept-refl : (p : Proc) → Kept p p
Kept-refl p = record {
  pid = refl;
  files = refl;
  living = refl;
  used = refl;
  zombies = refl;
  ready = λ h. h;
}

pub Kept-trans : {p q r : Proc} → Kept p q → Kept q r → Kept p r
Kept-trans a b = record {
  pid = b.pid ∙ a.pid;
  files = b.files ∙ a.files;
  living = b.living ∙ a.living;
  used = b.used ∙ a.used;
  zombies = b.zombies ∙ a.zombies;
  ready = λ h. b.ready (a.ready h);
}

pub is_sleeping-eq : (s : ProcState) → is_sleeping s ≡ true → sleeping ≡ s
is_sleeping-eq sleeping h = refl
is_sleeping-eq unused h = cc
is_sleeping-eq embryo h = cc
is_sleeping-eq runnable h = cc
is_sleeping-eq running h = cc
is_sleeping-eq zombie h = cc

wake-Kept : (c : Channel) (p : Proc) → Kept p (wake c p)
unfolding wake
wake-Kept c p = elim (Bool-cases (is_sleeping p.state && same_chan p.chan c)) [
  | inl q ↦
      let e : sleeping ≡ p.state = is_sleeping-eq p.state (ground arith) in
      rw q record {
        pid = refl;
        files = refl;
        living = ap alive e;
        used = ap is_unused e;
        zombies = ap is_zombie e;
        ready = λ _. refl;
      }
  | inr q ↦ rw q (Kept-refl p)
]

wake-parent : (c : Channel) (p : Proc) → (wake c p).parent ≡ p.parent
unfolding wake
wake-parent c p = ground arith

wakeup1-Kept : (c : Channel) (t : Ptable) (i : ℕ) → Kept (t.proc i) ((wakeup1 c t).proc i)
unfolding wakeup1
wakeup1-Kept c t i = elim (Bool-cases (ltb i nproc)) [
  | inl q ↦ rw q (wake-Kept c (t.proc i))
  | inr q ↦ rw q (Kept-refl (t.proc i))
]

wakeup1-parent :
    (c : Channel) (t : Ptable) (i : ℕ) → ((wakeup1 c t).proc i).parent ≡ (t.proc i).parent
unfolding wakeup1
wakeup1-parent c t i = ground (arith, wake-parent c (t.proc i))

-- The children of `self` in the first `n` slots have come to init, and the rest is kept.
pub record Passed (n self : ℕ) (t t' : Ptable) : Type 0 where
  pub next : t'.nextpid ≡ t.nextpid
  pub init : t'.initproc ≡ t.initproc
  pub kept : (i : ℕ) → Kept (t.proc i) (t'.proc i)
  pub parent :
      (i : ℕ)
      → (t'.proc i).parent
        ≡ (if ltb i n && is_child self (t.proc i) then some t.initproc else (t.proc i).parent)

-- Without children to pass on, this says that all is kept.
pub wakeup1-Passed : (self : ℕ) (c : Channel) (t : Ptable) → Passed 0 self t (wakeup1 c t)
unfolding wakeup1
wakeup1-Passed self c t = record {
  next = refl;
  init = refl;
  kept = wakeup1-Kept c t;
  parent = λ i. ground (arith, wakeup1-parent c t i);
}

adopt_parent :
    (i self : ℕ) (t : Ptable) (x : ℕ)
    → ((adopt i self t).proc x).parent
      ≡ (if x == i && is_child self (t.proc i) then some t.initproc else (t.proc x).parent)
unfolding adopt
adopt_parent i self t x =
    let t' = set_proc i (record (t.proc i) { parent = some t.initproc }) t in
    ground (arith, wakeup1-parent (proc_chan t.initproc) t' x)

adopt_next : (i self : ℕ) (t : Ptable) → (adopt i self t).nextpid ≡ t.nextpid
unfolding adopt wakeup1
adopt_next i self t = ground arith

adopt_init : (i self : ℕ) (t : Ptable) → (adopt i self t).initproc ≡ t.initproc
unfolding adopt wakeup1
adopt_init i self t = ground arith

adopt-Kept : (i self : ℕ) (t : Ptable) (x : ℕ) → Kept (t.proc x) ((adopt i self t).proc x)
unfolding adopt
adopt-Kept i self t x = elim (Bool-cases (is_child self (t.proc i))) [
  | inr q ↦ rw q (Kept-refl (t.proc x))
  | inl q ↦
      let t' : Ptable = set_proc i (record (t.proc i) { parent = some t.initproc }) t in
      let moved : Kept (t.proc x) (t'.proc x) = elim (Bool-cases (x == i)) [
        | inl e ↦
            let x_eq : x ≡ i = ground arith in
            rw e (
              rw x_eq record {
                pid = refl;
                files = refl;
                living = refl;
                used = refl;
                zombies = refl;
                ready = λ h. h;
              })
        | inr e ↦ rw e (Kept-refl (t.proc x))
      ] in
      rw q (elim (Bool-cases (is_zombie (t.proc i).state)) [
        | inl z ↦ rw z (Kept-trans moved (wakeup1-Kept (proc_chan t.initproc) t' x))
        | inr z ↦ rw z moved
      ])
]

is_child-eq : (self : ℕ) (p p' : Proc) → p'.parent ≡ p.parent → is_child self p' ≡ is_child self p
is_child-eq self p p' e = ap (λ o. elim o [ some i ↦ i == self | none ↦ false ]) e

pub pass_on-Passed : (n self : ℕ) (t : Ptable) → Passed n self t (pass_on n self t)
unfolding pass_on
pass_on-Passed zero self t = record {
  next = refl;
  init = refl;
  kept = λ i. Kept-refl (t.proc i);
  parent = λ i. ground arith;
}
pass_on-Passed (suc n) self t =
    let done = pass_on-Passed n self t in
    let mid = pass_on n self t in
    let same_n : (mid.proc n).parent ≡ (t.proc n).parent = ground (arith, done.parent n) in
    let child_n = is_child-eq self (t.proc n) (mid.proc n) same_n in
    record {
      next = adopt_next n self mid ∙ done.next;
      init = adopt_init n self mid ∙ done.init;
      kept = λ i. Kept-trans (done.kept i) (adopt-Kept n self mid i);
      parent = λ i. elim (Bool-cases (i == n)) [
        | inl q ↦
            let i_eq : i ≡ n = ground arith in
            rw i_eq (ground (arith, adopt_parent n self mid n, same_n, child_n, done.init))
        | inr q ↦ ground (arith, adopt_parent n self mid i, done.parent i)
      ];
    }

pub Passed-IsValid : (n self : ℕ) (t t' : Ptable) → IsValid t → Passed n self t t' → IsValid t'
Passed-IsValid n self t t' v p = record {
  next = omega (arith, v.next, p.next);
  init_slot = omega (arith, v.init_slot, p.init);
  init_alive = ap (λ x. alive (t'.proc x).state) p.init ∙ (p.kept t.initproc).living ∙ v.init_alive;
  pids = λ i lt used.
      let k = p.kept i in
      let (pos, low) = v.pids i lt (sym k.used ∙ used) in
      (omega (arith, pos, k.pid), omega (arith, low, k.pid, p.next));
  distinct = λ i j li lj ui uj e.
      v.distinct i j li lj (sym (p.kept i).used ∙ ui) (sym (p.kept j).used ∙ uj)
        (sym (p.kept i).pid ∙ e ∙ (p.kept j).pid);
  parents = λ i j lt e. elim (Bool-cases (ltb i n && is_child self (t.proc i))) [
    | inl q ↦
        let j_eq : t.initproc ≡ j = ground (arith, p.parent i) in
        (
          omega (arith, v.init_slot, j_eq),
          (p.kept j).living ∙ ap (λ x. alive (t.proc x).state) (sym j_eq) ∙ v.init_alive,
        )
    | inr q ↦
        let (lt', a) = v.parents i j lt (ground (arith, p.parent i)) in (lt', (p.kept j).living ∙ a)
  ];
  closed = λ i k lt dead small.
      ap (λ o. o k) (p.kept i).files ∙ v.closed i k lt (sym (p.kept i).living ∙ dead) small;
}

-- No child of `self` is left when all have been passed on.
none_left :
    (self : ℕ) (t t' : Ptable)
    → Passed nproc self t t'
    → self ≢ t.initproc
    → (i : ℕ) → i < nproc
    → (t'.proc i).parent ≢ some self
none_left self t t' p ne i lt e = elim (Bool-cases (is_child self (t.proc i))) [
  | inl q ↦ ne (ground (arith, p.parent i))
  | inr q ↦
      let e' : (t.proc i).parent ≡ some self = ground (arith, p.parent i) in
      false≢true (sym q ∙ ap (λ o. elim o [ some i ↦ i == self | none ↦ false ]) e' ∙ ground arith)
]

-- The slot of a process that has closed its files may become a zombie once its children are gone.
module _ (self : ℕ) (t t' : Ptable) (v : IsValid t') (p : Passed nproc self t t')
    (slot : self < nproc) (ne : self ≢ t.initproc) (used : is_unused (t'.proc self).state ≡ false)
    (files : (k : ℕ) → k < nofile → (t'.proc self).ofile k ≡ 0) where
  zombie-Fits : Fits t' self (record (t'.proc self) { state = zombie }) t'.nextpid
  zombie-Fits = record {
    slot = slot;
    later = omega arith;
    keeps = inr ((λ e. ne (e ∙ p.init)), none_left self t t' p ne);
    pid = λ _. v.pids self slot used;
    fresh = λ j lt far _ used_j e. far (v.distinct j self lt slot used_j used e);
    parent = λ j e.
        let (lt, a) = v.parents self j slot e in
        (lt, a, inl λ j_eq. none_left self t t' p ne self slot (e ∙ ap some j_eq));
    files = λ k _ small. files k small;
  }

pub finish-IsValid :
    (self : ℕ) (t : Ptable)
    → IsValid t
    → self < nproc
    → self ≢ t.initproc
    → is_unused (t.proc self).state ≡ false
    → ((k : ℕ) → k < nofile → (t.proc self).ofile k ≡ 0)
    → IsValid (finish self t)
unfolding finish
finish-IsValid self t v slot ne used files =
    let t₁ = wakeup1 (parent_chan (t.proc self).parent) t in
    let woken : Passed 0 self t t₁ = wakeup1-Passed self (parent_chan (t.proc self).parent) t in
    let v₁ = Passed-IsValid 0 self t t₁ v woken in
    let t₂ = pass_on nproc self t₁ in
    let passed = pass_on-Passed nproc self t₁ in
    let v₂ = Passed-IsValid nproc self t₁ t₂ v₁ passed in
    let kept = Kept-trans (woken.kept self) (passed.kept self) in
    set_proc-IsValid t₂ self (record (t₂.proc self) { state = zombie }) t₂.nextpid v₂
      (zombie-Fits self t₁ t₂ v₂ passed slot (λ e. ne (e ∙ woken.init)) (kept.used ∙ used)
        (λ k small. ap (λ o. o k) kept.files ∙ files k small))
