-- ===== src/Log/Transaction.antt =====
-- `begin_trans`, any block updates, `commit_trans`: all of the updates or none, whenever the crash comes.
use model_lib.Base.{
  ℕ, ◌+◌, ◌≤◌, ◌<◌, ◌≡◌, ◌≢◌, refl, sym, ap, ◌∙◌, ◌⊎◌, true, false, inl, inr, arith, false≢true,
  Bool-cases, ◌==◌, ltb,
}
use mathlib.Core.Path.{fun_ext, subst}
use model_lib.Base.Outcome.{Returns, returns, Returns-bind}
use model_lib.Base.Family.{update, update_self, update_ne}
use model_lib.Base.Words.{word_at}
use model_lib.Bio.{Block, Cache, rewrite}
use model_lib.Bio.Inv.{view, dirty, cost-le_one, cost-dirty}
use model_lib.Bio.Store.{Stored, view_clean, rewrite_lem}
use model_lib.Log.{Log, rounds, head_block, write_head, install_trans, commit_trans}
use model_lib.Log.Header.{IsHeader, rounds-small, head_block-n, head_block-sector}
use model_lib.Log.Recoverable.{IsRecoverable, Steps, stay, Steps-trans, Steps-one, Steps-mono}
use model_lib.Log.Loop.{Installing, install_from_lem}
use model_lib.Log.Recovery.{IsReady, clear_lem}
use model_lib.Log.Open.{IsOpen}

-- The disk stands for the contents before the transaction or for those after it.
abbrev pub OldOrNew : ℕ → (old new : ℕ → Block) → (ℕ → Block) → Type 0
OldOrNew start old new f = IsRecoverable start f old ⊎ IsRecoverable start f new

module _ (l : Log) (old : ℕ → Block) (k : Cache) (g : IsOpen l old k) where
  log_clean : (s : ℕ) → l.start ≤ s → dirty k s ≡ false
  log_clean s h = elim (Bool-cases (dirty k s)) [
    | inr clean ↦ clean
    | inl mark ↦ (let (i, lt, e) = g.named s mark in absurd (omega (arith, e, g.home i lt)))
  ]

  is_header : IsHeader l
  is_header = record {
    small = omega (arith, g.count);
    words = λ i lt. omega (arith, g.home i lt, g.small);
  }

  -- After the header is written: the disk stands for what the cache reads as.
  module _ (k' : Cache) (s : Stored k l.start (head_block l (view k l.start)) k') where
    c : Block
    c = head_block l (view k l.start)

    head_is : k'.disk.blocks l.start ≡ c
    unfolding c
    head_is =
        ap (λ d. d.blocks l.start) s.disk_eq
        ∙ update_self k.disk.blocks l.start (head_block l (view k l.start))

    head_n : word_at (k'.disk.blocks l.start) 0 ≡ l.n
    unfolding c
    head_n = ap (λ b. word_at b 0) head_is ∙ head_block-n l (view k l.start) is_header

    head_sector : (i : ℕ) → i < l.n → word_at (k'.disk.blocks l.start) (i + 1) ≡ l.sector i
    unfolding c
    head_sector i lt =
        ap (λ b. word_at b (i + 1)) head_is ∙ head_block-sector l (view k l.start) is_header i lt

    rest_is : (t : ℕ) → t ≢ l.start → k'.disk.blocks t ≡ k.disk.blocks t
    rest_is t ne =
        ap (λ d. d.blocks t) s.disk_eq
        ∙ update_ne k.disk.blocks l.start t (head_block l (view k l.start)) ne

    settled :
        (t : ℕ)
        → t < l.start
        → (k'.disk.blocks t ≡ view k t) ⊎ ((i : ℕ) × (i < l.n) × (l.sector i ≡ t))
    settled t lt = elim (Bool-cases (dirty k t)) [
      | inl m ↦ inr (g.named t m)
      | inr m ↦
          inl (rest_is t (λ e. omega arith) ∙ sym (view_clean k g.valid t (ap (λ f. f t) g.idle) m))
    ]

    committed : IsRecoverable l.start k'.disk.blocks (view k)
    committed = record {
      count = omega (arith, head_n, g.count);
      home = λ i lt.
          omega (arith, head_sector i (omega (arith, head_n)), g.home i (omega (arith, head_n)));
      logged = λ i lt.
          rest_is (l.start + i + 1) (λ e. omega arith)
          ∙ g.logged i (omega (arith, head_n))
          ∙ ap (view k) (sym (head_sector i (omega (arith, head_n))));
      settled = λ t lt. elim (settled t lt) [
        | inl e ↦ inl e
        | inr (i, lt', e) ↦ inr (i, omega (arith, head_n), head_sector i lt' ∙ e)
      ];
    }

    committed-Installing : Installing l (view k) 0 k'
    committed-Installing = record {
      valid = s.valid;
      idle = s.held_eq ∙ g.idle;
      size = omega (arith, g.size, ap (λ d. d.size) s.disk_eq);
      recoverable = committed;
      header_n = head_n;
      header_sector = head_sector;
      marks = λ t m. elim (Bool-cases (t == l.start)) [
        | inl q ↦
            let e : t ≡ l.start = ground arith in
            absurd (
              false≢true (
                sym (
                  ap (λ f. f t) s.dirty_eq
                  ∙ ap (update (dirty k) l.start false) e
                  ∙ update_self (dirty k) l.start false)
                ∙ m))
        | inr q ↦
            let ne : t ≢ l.start = ground arith in
            let (i, lt, e) =
              g.named t
                (sym (ap (λ f. f t) s.dirty_eq ∙ update_ne (dirty k) l.start t false ne) ∙ m) in
            (i, omega arith, lt, e)
      ];
      space = λ i le lt.
          let ne : l.sector i ≢ l.start = λ e. omega (arith, g.home i lt) in
          let m : dirty k' (l.sector i) ≡ true =
            ap (λ f. f (l.sector i)) s.dirty_eq
            ∙ update_ne (dirty k) l.start (l.sector i) false ne
            ∙ g.marked i lt in
          omega (
            arith,
            cost-dirty k' (l.sector i) m,
            s.room_gain,
            cost-le_one k l.start,
            g.space,
            g.count,
          );
      placed = λ t lt. elim (settled t lt) [
        | inl e ↦ inl e
        | inr (i, lt', e) ↦ inr (i, omega arith, lt', e)
      ];
    }

-- What the end of a transaction leaves: the log ready with `new` in place, in the same place of the
-- disk, which stood for `old` or for `new` after every write.
pub record Committed (start : ℕ) (old new : ℕ → Block) (k : Cache) (r : Log × Cache) : Type 0 where
  pub ready : IsReady r.0 new r.1
  pub start_same : r.0.start ≡ start
  pub steps : Steps (OldOrNew start old new) k.disk r.1.disk

end_IsReady :
    (l : Log) (new : ℕ → Block) (k : Cache)
    → IsReady l new k
    → IsReady (record l { busy = false }) new k
end_IsReady l new k r = record {
  valid = r.valid;
  idle = r.idle;
  clean = r.clean;
  size = r.size;
  dev = r.dev;
  n = r.n;
  header = r.header;
  placed = r.placed;
}

-- `commit_trans` returns; the contents that the cache reads as are then on the disk.
pub commit_lem :
    (l : Log) (old : ℕ → Block) (k : Cache)
    → IsOpen l old k
    → Returns (Committed l.start old (view k) k) (commit_trans l k)
unfolding commit_trans
commit_lem l old k g = elim (Bool-cases (ltb 0 l.n)) [
  | inr none ↦
      let n : rounds l.n ≡ l.n = rounds-small l.n (omega (arith, g.count)) in
      let no_n : l.n ≡ 0 = ground arith in
      let clean : (t : ℕ) → dirty k t ≡ false = all_clean no_n in
      rw (n, none)
        (returns (record l { busy = false }, k)
          (record {
            ready = record {
              valid = g.valid;
              idle = g.idle;
              clean = fun_ext clean;
              size = g.size;
              dev = g.dev;
              n = no_n;
              header = g.header;
              placed = λ t lt. sym (view_clean k g.valid t (ap (λ f. f t) g.idle) (clean t));
            };
            start_same = refl;
            steps = stay;
          }))
  | inl some_n ↦
      let n : rounds l.n ≡ l.n = rounds-small l.n (omega (arith, g.count)) in
      let P = OldOrNew l.start old (view k) in
      let weaken = λ (f : ℕ → Block) (r : IsRecoverable l.start f (view k)). inr r in
      let test : ltb 0 (rounds l.n) ≡ true = ap (ltb 0) n ∙ some_n in
      rw test (
        Returns-bind _ heads λ k₁ s.
          Returns-bind _ (installs k₁ (committed-Installing l old k g k₁ s)) λ k₂ q.
            Returns-bind _ (clear_lem l (view k) k₂ g.dev q.0) λ k₃ c.
              let at_head =
                subst (λ d. IsRecoverable l.start d.blocks (view k)) s.disk_eq
                  (committed l old k g k₁ s) in
              returns (record l { n = 0; busy = false }, k₃)
                (record {
                  ready = end_IsReady (record l { n = 0 }) (view k) k₃ c.0;
                  start_same = refl;
                  steps =
                      Steps-trans P
                        (Steps-trans P
                          (Steps-one P k.disk k₁.disk l.start (head_block l (view k l.start))
                            s.disk_eq (inr at_head))
                          (Steps-mono (λ f. IsRecoverable l.start f (view k)) P weaken q.1))
                        (Steps-mono (λ f. IsRecoverable l.start f (view k)) P weaken c.1);
                }))
]
  where
    all_clean : l.n ≡ 0 → (t : ℕ) → dirty k t ≡ false
    all_clean no_n t = elim (Bool-cases (dirty k t)) [
      | inr m ↦ m
      | inl m ↦ (let (i, lt, _) = g.named t m in absurd (omega arith))
    ]

    heads : Returns (Stored k l.start (head_block l (view k l.start))) (write_head l k)
    heads =
        unfold write_head in
        subst
          (λ d.
            Returns (Stored k l.start (head_block l (view k l.start)))
              (rewrite d l.start (head_block l) k))
          (sym g.dev)
          (rewrite_lem k l.start (head_block l) g.valid (omega (arith, g.size))
            (ap (λ f. f l.start) g.idle) (omega (arith, cost-le_one k l.start, g.space, g.count)))

    installs :
        (k' : Cache)
        → Installing l (view k) 0 k'
        → Returns
            (λ k₂.
              Installing l (view k) l.n k₂
              × Steps (λ f. IsRecoverable l.start f (view k)) k'.disk k₂.disk)
            (install_trans l k')
    installs k' i =
        unfold install_trans in
        install_from_lem l (view k) (rounds l.n) 0 k' g.dev
          (omega (arith, rounds-small l.n (omega (arith, g.count)))) i
