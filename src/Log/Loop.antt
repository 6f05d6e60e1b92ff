-- ===== src/Log/Loop.antt =====
-- The loop of `install_trans`: from a recoverable disk to the new contents, recoverable at each write.
use model_lib.Base.{
  ℕ, zero, suc, ◌+◌, ◌≤◌, ◌<◌, ◌≡◌, ◌≢◌, sym, ap, ◌∙◌, ◌⊎◌, Bool, true, false, inl, inr, arith,
  false≢true, if◌then◌else◌, Bool-cases, ◌==◌,
}
use mathlib.Core.Path.{subst}
use model_lib.Base.Outcome.{Returns, returns, Returns-bind, Returns-mono}
use model_lib.Base.Family.{update, update_self, update_ne}
use model_lib.Base.Words.{word_at}
use model_lib.Bio.{Block, Cache}
use model_lib.Bio.Inv.{IsValid, view, held, dirty, room, cost, cost-le_one}
use model_lib.Bio.Store.{Stored, view_clean}
use model_lib.Log.{Log, logsize, install_from, install_one}
use model_lib.Log.Install.{install_one_lem}
use model_lib.Log.Recoverable.{
  IsRecoverable, Steps, stay, Steps-trans, Steps-one, copy-IsRecoverable,
}

-- The state of the loop before round `tail`: nothing is held, what is dirty or not yet in place has a
-- round to come, the header on the disk is that of the log, and there is room for the round's buffers.
pub record Installing (l : Log) (new : ℕ → Block) (tail : ℕ) (k : Cache) : Type 0 where
  pub valid : IsValid k
  pub idle : held k ≡ (λ s. false)
  pub size : l.start + logsize < k.disk.size
  pub recoverable : IsRecoverable l.start k.disk.blocks new
  pub header_n : word_at (k.disk.blocks l.start) 0 ≡ l.n
  pub header_sector : (i : ℕ) → i < l.n → word_at (k.disk.blocks l.start) (i + 1) ≡ l.sector i
  pub marks : (t : ℕ) → dirty k t ≡ true → (i : ℕ) × (tail ≤ i) × (i < l.n) × (l.sector i ≡ t)
  pub space : (i : ℕ) → tail ≤ i → i < l.n → cost k (l.sector i) + 1 ≤ room k
  pub placed :
      (t : ℕ)
      → t < l.start
      → (k.disk.blocks t ≡ new t) ⊎ ((i : ℕ) × (tail ≤ i) × (i < l.n) × (l.sector i ≡ t))

module _ (l : Log) (new : ℕ → Block) (tail : ℕ) (k : Cache) (g : Installing l new tail k) where
  pub home_lt : (i : ℕ) → i < l.n → l.sector i < l.start
  home_lt i lt =
      omega
        (arith, g.header_sector i lt, g.header_n, g.recoverable.home i (omega (arith, g.header_n)))

  count_le : l.n ≤ logsize
  count_le = omega (arith, g.header_n, g.recoverable.count)

  log_clean : (t : ℕ) → l.start ≤ t → dirty k t ≡ false
  log_clean t h = elim (Bool-cases (dirty k t)) [
    | inr clean ↦ clean
    | inl mark ↦ let (i, _, lt, e) = g.marks t mark in absurd (omega (arith, e, home_lt i lt))
  ]

  -- A log block reads as the new contents of its home.
  log_reads : (i : ℕ) → i < l.n → view k (l.start + i + 1) ≡ new (l.sector i)
  log_reads i lt =
      view_clean k g.valid (l.start + i + 1) (ap (λ f. f (l.start + i + 1)) g.idle)
        (log_clean (l.start + i + 1) (omega arith))
      ∙ g.recoverable.logged i (omega (arith, g.header_n))
      ∙ ap new (g.header_sector i lt)

  module _ (more : tail < l.n) (k' : Cache)
      (s : Stored k (l.sector tail) (new (l.sector tail)) k') where
    head_same : (j : ℕ) → word_at (k'.disk.blocks l.start) j ≡ word_at (k.disk.blocks l.start) j
    head_same j =
        ap (λ d. word_at (d.blocks l.start) j) s.disk_eq
        ∙ ap (λ b. word_at b j)
            (update_ne k.disk.blocks (l.sector tail) l.start (new (l.sector tail))
              (λ e. omega (arith, e, home_lt tail more)))

    -- A sector with a round to come at `tail` or later, but not the one of round `tail`, has it later.
    later :
        (t : ℕ)
        → t ≢ l.sector tail
        → (i : ℕ) × (tail ≤ i) × (i < l.n) × (l.sector i ≡ t)
        → (i : ℕ) × (tail + 1 ≤ i) × (i < l.n) × (l.sector i ≡ t)
    later t ne (i, le, lt, e) = (i, le_suc i le e, lt, e)
      where
        le_suc : (i : ℕ) → tail ≤ i → l.sector i ≡ t → tail + 1 ≤ i
        le_suc i le e = elim (Bool-cases (i == tail)) [
          | inl q ↦ (let it : i ≡ tail = ground arith in absurd (ne (sym e ∙ ap l.sector it)))
          | inr q ↦ ground arith
        ]

    dirty' : (t : ℕ) → t ≢ l.sector tail → dirty k' t ≡ dirty k t
    dirty' t ne = ap (λ f. f t) s.dirty_eq ∙ update_ne (dirty k) (l.sector tail) t false ne

    clean' : dirty k' (l.sector tail) ≡ false
    clean' = ap (λ f. f (l.sector tail)) s.dirty_eq ∙ update_self (dirty k) (l.sector tail) false

    space' : (i : ℕ) → tail + 1 ≤ i → i < l.n → cost k' (l.sector i) + 1 ≤ room k'
    unfolding cost
    space' i le lt = elim (Bool-cases (l.sector i == l.sector tail)) [
      | inl q ↦
          omega (arith, cost-le_one k' (l.sector i), s.room_gain, g.space tail (omega arith) more)
      | inr q ↦
          let ne : l.sector i ≢ l.sector tail = ground arith in
          let same : cost k' (l.sector i) ≡ cost k (l.sector i) =
            ap (λ (b : Bool). if b then 0 else 1) (dirty' (l.sector i) ne) in
          omega
            (arith, same, s.room_gain, g.space i (omega arith) lt, cost-le_one k (l.sector tail))
    ]

    installed : Installing l new (tail + 1) k'
    installed = record {
      valid = s.valid;
      idle = s.held_eq ∙ g.idle;
      size = omega (arith, ap (λ d. d.size) s.disk_eq, g.size);
      recoverable = rw s.disk_eq (
          copy-IsRecoverable l.start k.disk.blocks new g.recoverable (l.sector tail)
            (home_lt tail more));
      header_n = head_same 0 ∙ g.header_n;
      header_sector = λ i lt. head_same (i + 1) ∙ g.header_sector i lt;
      marks = λ t m.
          let ne : t ≢ l.sector tail = λ e. false≢true (sym clean' ∙ ap (dirty k') (sym e) ∙ m) in
          later t ne (g.marks t (sym (dirty' t ne) ∙ m));
      space = space';
      placed = λ t ht. elim (Bool-cases (t == l.sector tail)) [
        | inl q ↦
            let e : t ≡ l.sector tail = ground arith in
            inl (
              ap (λ d. d.blocks t) s.disk_eq
              ∙ ap (update k.disk.blocks (l.sector tail) (new (l.sector tail))) e
              ∙ update_self k.disk.blocks (l.sector tail) (new (l.sector tail))
              ∙ ap new (sym e))
        | inr q ↦
            let ne : t ≢ l.sector tail = ground arith in
            elim (g.placed t ht) [
              | inl p ↦ inl (
                  ap (λ d. d.blocks t) s.disk_eq
                  ∙ update_ne k.disk.blocks (l.sector tail) t (new (l.sector tail)) ne
                  ∙ p)
              | inr p ↦ inr (later t ne p)
            ]
      ];
    }

  round_lem :
      l.dev ≡ 1
      → tail < l.n
      → Returns
          (Stored k (l.sector tail) (new (l.sector tail)))
          (install_one l.dev (l.start + tail + 1) (l.sector tail) k)
  round_lem on_disk more =
      let ht = home_lt tail more in
      let a = l.start + tail + 1 in
      let t = l.sector tail in
      subst (λ d. Returns (Stored k t (new t)) (install_one d a t k)) (sym on_disk)
        (rw (← log_reads tail more) (
          install_one_lem k g.valid (l.start + tail + 1) (l.sector tail) (λ e. omega arith)
            (omega (arith, g.size, count_le)) (omega (arith, g.size))
            (ap (λ f. f (l.start + tail + 1)) g.idle) (ap (λ f. f (l.sector tail)) g.idle)
            (log_clean (l.start + tail + 1) (omega arith)) (g.space tail (omega arith) more)))

-- From round `tail` on the loop returns, with every sector in place, and the disk is recoverable after
-- each of its writes.
pub install_from_lem :
    (l : Log) (new : ℕ → Block) (r tail : ℕ) (k : Cache)
    → l.dev ≡ 1
    → tail + r ≡ l.n
    → Installing l new tail k
    → Returns
        (λ k'. Installing l new l.n k' × Steps (λ f. IsRecoverable l.start f new) k.disk k'.disk)
        (install_from r tail l k)
unfolding install_from
install_from_lem l new zero tail k d e g =
    let e' : tail ≡ l.n = omega arith in returns k (rw e' at g, stay)
install_from_lem l new (suc r) tail k d e g =
    let more : tail < l.n = omega arith in
    let t = l.sector tail in
    Returns-bind (install_from r (tail + 1) l) (round_lem l new tail k g d more) λ k' s.
      let g' = installed l new tail k g more k' s in
      Returns-mono (install_from_lem l new r (tail + 1) k' d (omega arith) g') λ k'' p. (
        p.0,
        Steps-trans (λ f. IsRecoverable l.start f new)
            (Steps-one (λ f. IsRecoverable l.start f new) k.disk k'.disk t (new t) s.disk_eq
              (copy-IsRecoverable l.start k.disk.blocks new g.recoverable t
                (home_lt l new tail k g tail more)))
            p.1,
      )
