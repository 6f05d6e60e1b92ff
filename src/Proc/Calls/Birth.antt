-- ===== src/Proc/Calls/Birth.antt =====
-- The process that `fork` creates.
use model_lib.Base.{
  ℕ, zero, suc, ◌≤◌, ◌<◌, ◌≡◌, ◌≢◌, refl, sym, ap, ◌∙◌, inl, inr, true, false, false≢true, Option,
  none, some, ◌==◌, Bool-cases, arith,
}
use mathlib.Core.Path.{subst}
use model_lib.Base.Outcome.{Returns, returns, Returns-bind, Returns-mono}
use model_lib.Base.Search.{search_from, any_below, any_below-elim, search_from-none}
use model_lib.Proc.{
  nproc, nofile, unused, runnable, Proc, Ptable, set_proc, is_unused, claim, claim_slot,
}
use model_lib.Proc.Services.{Services}
use model_lib.Proc.Valid.{alive, IsValid}
use model_lib.Proc.Calls.{copied, with_stack, allocproc, dup_files, fill, fork_on, fork}
use model_lib.Proc.Calls.Life.{Claimed, claim_slot_lem, stack-Claimed}

-- The new process in slot `i`: ready, with the next pid, and else like its parent, for which fork returns
-- another value. All other processes are as before.
pub record Born (self i : ℕ) (t t' : Ptable) : Type 0 where
  pub was_free : (t.proc i).state ≡ unused
  pub state : (t'.proc i).state ≡ runnable
  pub pid : (t'.proc i).pid ≡ t.nextpid
  pub parent : (t'.proc i).parent ≡ some self
  pub sz : (t'.proc i).sz ≡ (t.proc self).sz
  pub eax : (t'.proc i).tf 7 ≡ 0
  pub tf : (w : ℕ) → w ≢ 7 → (t'.proc i).tf w ≡ (t.proc self).tf w
  pub files : (k : ℕ) → k < nofile → (t'.proc i).ofile k ≡ (t.proc self).ofile k
  pub cwd : (t'.proc i).cwd ≡ (t.proc self).cwd
  pub others : (j : ℕ) → j ≢ i → t'.proc j ≡ t.proc j

-- A free slot is found.
free_slot :
    (t : Ptable) → any_below (λ i. is_unused (t.proc i).state) nproc ≡ true → claim_slot t ≢ none
unfolding claim_slot
free_slot t free e =
    let (i, lt, u) = any_below-elim (λ i. is_unused (t.proc i).state) nproc free in
    by_search (search_from (λ i. is_unused (t.proc i).state) nproc 0) refl e i lt u
  where
    by_search :
        (o : Option ℕ)
        → search_from (λ i. is_unused (t.proc i).state) nproc 0 ≡ o
        → elim o as (λ _. Option (ℕ × Ptable)) [ some i ↦ some (i, claim i t) | none ↦ none ] ≡ none
        → (i : ℕ) → i < nproc
        → is_unused (t.proc i).state ≡ true
        → ⊥
    by_search (some x) s e i lt u = cc
    by_search none s e i lt u = false≢true (
        sym (
          search_from-none (λ i. is_unused (t.proc i).state) nproc 0 i s (omega arith)
            (omega arith))
        ∙ u)

module _ {S : Type 0} (os : Services S) where
  dup_files_lem :
      (Open : S → Type 0) (n : ℕ) (from to : ℕ → ℕ) (s : S)
      → Open s
      → ((k : ℕ) (s : S) → Open s → from k ≢ 0 → Returns Open (os.filedup (from k) s))
      → Returns
          (λ (r : (ℕ → ℕ) × S).
            ((k : ℕ) → k < n → to k ≡ 0 → r.0 k ≡ from k)
            × ((k : ℕ) → n ≤ k → r.0 k ≡ to k)
            × Open r.1)
          (dup_files os n from to s)
  unfolding dup_files
  dup_files_lem Open zero from to s opened dup =
      returns _ ((λ k lt. absurd (omega arith)), (λ k le. refl), opened)
  dup_files_lem Open (suc i) from to s opened dup =
      Returns-bind _ (dup_files_lem Open i from to s opened dup) λ (to', s') (done, rest, opened').
        elim (Bool-cases (from i == 0)) [
          | inl q ↦ rw q (
              returns _ (
                (λ k lt z. elim (Bool-cases (k == i)) [
                  | inl e ↦
                      let k_eq : k ≡ i = ground arith in
                      let z' : to i ≡ 0 = ap to (sym k_eq) ∙ z in
                      rw k_eq (rest i (omega arith) ∙ z' ∙ ground arith)
                  | inr e ↦ done k (ground arith) z
                ]),
                (λ k le. rest k (omega arith)),
                opened',
              ))
          | inr q ↦ rw q (
              Returns-bind _ (dup i s' opened' (ground arith)) λ s'' opened''. returns _ (
                (λ k lt z. elim (Bool-cases (k == i)) [
                  | inl e ↦ let k_eq : k ≡ i = ground arith in rw k_eq (ground arith)
                  | inr e ↦ rw e (done k (ground arith) z)
                ]),
                (λ k le. ground (arith, rest k (omega arith))),
                opened'',
              ))
        ]

  fill_lem :
      (Open : S → Type 0) (self i pgdir : ℕ) (t₀ t : Ptable) (s : S)
      → IsValid t₀
      → Claimed t₀ i t
      → self ≢ i
      → ((old new : ℕ) → Returns Open (os.fork_pids old new s))
      → ((k : ℕ) (s : S)
          → Open s
          → (t₀.proc self).ofile k ≢ 0
          → Returns Open (os.filedup ((t₀.proc self).ofile k) s))
      → Returns
          (λ (r : Option ℕ × Ptable × S). (r.0 ≡ some t₀.nextpid) × Born self i t₀ r.1)
          (fill os self i pgdir t s)
  unfolding fill copied
  fill_lem Open self i pgdir t₀ t s v c far pids dup =
      let same : t.proc self ≡ t₀.proc self = c.others self far in
      Returns-bind _ (pids (t.proc self).pid (t.proc i).pid) λ s₁ opened.
        Returns-bind _
          (dup_files_lem Open nofile (t.proc self).ofile (t.proc i).ofile s₁ opened (
            subst
              (λ (p : Proc).
                (k : ℕ) (s : S) → Open s → p.ofile k ≢ 0 → Returns Open (os.filedup (p.ofile k) s))
              (sym same) dup))
          λ (files, s₂) (got, _, _). returns _ (
            ap some c.pid,
            record {
              was_free = c.was;
              state = ground arith;
              pid = ground (arith, c.pid);
              parent = ground arith;
              sz = ground (arith, ap (λ (p : Proc). p.sz) same);
              eax = ground arith;
              tf = λ w ne. ground (arith, ap (λ (p : Proc). p.tf w) same);
              files = λ k lt.
                  let clean = c.valid.closed i k c.slot (ap alive c.state) lt in
                  ground (arith, got k lt clean, ap (λ (p : Proc). p.ofile k) same);
              cwd = ground (arith, ap (λ (p : Proc). p.cwd) same);
              others = λ j ne. ground (arith, c.others j ne);
            },
          )

  -- With a free slot, and where neither memory nor slots for pids run out and the parent's files are open
  -- (`Open`, which holds after `fork_pids` and lets `filedup` of each of these files return and holds again), `fork` by a process that is alive returns the next pid. It has made a process with
  -- that pid in a slot that was free: ready, with the parent's size, registers, open files and
  -- directory, but 0 in eax. All other processes are as before.
  pub fork_lem :
      (Open : S → Type 0) (self : ℕ) (t : Ptable) (s : S)
      → IsValid t
      → alive (t.proc self).state ≡ true
      → any_below (λ i. is_unused (t.proc i).state) nproc ≡ true
      → (os.kalloc s).0 ≢ 0
      → (os.copyuvm (t.proc self).pgdir (t.proc self).sz (os.kalloc s).1).0 ≢ 0
      → ((old new : ℕ)
          → Returns Open (
              os.fork_pids old new
                (os.copyuvm (t.proc self).pgdir (t.proc self).sz (os.kalloc s).1).1))
      → ((k : ℕ) (s : S)
          → Open s
          → (t.proc self).ofile k ≢ 0
          → Returns Open (os.filedup ((t.proc self).ofile k) s))
      → Returns
          (λ (r : Option ℕ × Ptable × S). (r.0 ≡ some t.nextpid) × ((i : ℕ) × Born self i t r.1))
          (fork os self t s)
  unfolding fork allocproc with_stack fork_on
  fork_lem Open self t s v lives free mem copies pids dup = elim (claim_slot_lem t v) [
    | inl e ↦ absurd (free_slot t free e)
    | inr (i, t', e, c) ↦
        let far : self ≢ i = λ self_eq.
          false≢true
            (sym (ap alive c.was) ∙ ap (λ x. alive (t.proc x).state) (sym self_eq) ∙ lives) in
        subst
          (λ o.
            Returns
              (λ (r : Option ℕ × Ptable × S).
                (r.0 ≡ some t.nextpid) × ((i : ℕ) × Born self i t r.1))
              (fork_on os self (with_stack os o t s)))
          (sym e) (branch i t' c far)
  ]
    where
      branch :
          (i : ℕ) (t' : Ptable)
          → Claimed t i t'
          → self ≢ i
          → Returns
              (λ (r : Option ℕ × Ptable × S).
                (r.0 ≡ some t.nextpid) × ((i : ℕ) × Born self i t r.1))
              (fork_on os self (with_stack os (some (i, t')) t s))
      branch i t' c far =
          let stack : ((os.kalloc s).0 == 0) ≡ false = ground (arith, mem) in
          let t'' : Ptable = set_proc i (record (t'.proc i) { kstack = (os.kalloc s).0 }) t' in
          let c' : Claimed t i t'' = stack-Claimed os t t' i (os.kalloc s).0 c in
          let same = sym (c'.others self far) in
          let copy = λ (p : Proc). os.copyuvm p.pgdir p.sz (os.kalloc s).1 in
          let some_copy : (copy (t''.proc self)).0 ≢ 0 =
            subst (λ (p : Proc). (copy p).0 ≢ 0) same copies in
          let room : ((copy (t''.proc self)).0 == 0) ≡ false = ground (arith, some_copy) in
          let pids' : (old new : ℕ) → Returns Open (os.fork_pids old new (copy (t''.proc self)).1) =
            subst (λ (p : Proc). (old new : ℕ) → Returns Open (os.fork_pids old new (copy p).1))
              same pids in
          rw stack (
            rw room (
              Returns-mono
                (fill_lem Open self i (copy (t''.proc self)).0 t t'' (copy (t''.proc self)).1 v c'
                  far pids' dup)
                λ r (e, b). (e, (i, b))))
