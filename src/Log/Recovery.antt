-- ===== src/Log/Recovery.antt =====
-- `recover_from_log`: whatever moment the crash came at, recovery brings a recoverable disk to the
-- contents that it stands for.
use model_lib.Base.{
  ℕ, ◌+◌, ◌<◌, ◌≡◌, refl, sym, ap, ◌∙◌, Bool, false, inl, inr, arith, false≢true, Bool-cases,
}
use mathlib.Core.Path.{fun_ext, subst}
use model_lib.Base.Outcome.{ok, ◌>>=◌, Returns, returns, Returns-bind, Returns-mono}
use model_lib.Base.Family.{update, update_self, update_ne}
use model_lib.Base.Words.{word_at}
use model_lib.Bio.{Block, Cache, rewrite, peek, nbuf}
use model_lib.Bio.Inv.{IsValid, view, held, dirty, room, cost-le_one}
use model_lib.Bio.Store.{Same, view_clean, rewrite_lem, peek_lem, room_full}
use model_lib.Log.{
  Log, logsize, rounds, read_sectors, head_block, read_head, write_head, install_trans,
  recover_from_log,
}
use model_lib.Log.Header.{rounds-small, read_sectors_lem, head_block-n}
use model_lib.Log.Recoverable.{IsRecoverable, Steps, Steps-trans, Steps-one}
use model_lib.Log.Loop.{Installing, install_from_lem}

-- Between transactions: nothing is held or dirty, the log is empty in memory and on the disk, and the
-- sectors before the log hold `new`.
pub record IsReady (l : Log) (new : ℕ → Block) (k : Cache) : Type 0 where
  pub valid : IsValid k
  pub idle : held k ≡ (λ s. false)
  pub clean : dirty k ≡ (λ s. false)
  pub size : l.start + logsize < k.disk.size
  pub dev : l.dev ≡ 1
  pub n : l.n ≡ 0
  pub header : word_at (k.disk.blocks l.start) 0 ≡ 0
  pub placed : (t : ℕ) → t < l.start → k.disk.blocks t ≡ new t

-- A disk with an empty header stands for what it holds.
pub empty-IsRecoverable :
    (start : ℕ) (f new : ℕ → Block)
    → word_at (f start) 0 ≡ 0
    → ((t : ℕ) → t < start → f t ≡ new t)
    → IsRecoverable start f new
empty-IsRecoverable start f new e same = record {
  count = omega arith;
  home = λ i lt. absurd (omega arith);
  logged = λ i lt. absurd (omega arith);
  settled = λ t lt. inl (same t lt);
}

-- The log is ready again with `new` in place, and the disk was recoverable to `new` after every write.
abbrev pub Settles : Log → (ℕ → Block) → Cache → Cache → Type 0
Settles l new k k' = IsReady l new k' × Steps (λ f. IsRecoverable l.start f new) k.disk k'.disk

-- The same of a call that returns the log too, whose place on the disk has not changed.
abbrev pub Recovered : Log → (ℕ → Block) → Cache → Log × Cache → Type 0
Recovered l new k r = (r.0.start ≡ l.start) × Settles r.0 new k r.1

-- Clearing the header, once every sector is in place.
module _ (l : Log) (new : ℕ → Block) (k : Cache) (on_disk : l.dev ≡ 1)
    (g : Installing l new l.n k) where
  all_clean : dirty k ≡ (λ s. false)
  all_clean = fun_ext λ t. elim (Bool-cases (dirty k t)) [
    | inl m ↦ (let (i, le, lt, _) = g.marks t m in absurd (omega arith))
    | inr m ↦ m
  ]

  all_placed : (t : ℕ) → t < l.start → k.disk.blocks t ≡ new t
  all_placed t lt = elim (g.placed t lt) [ inl e ↦ e | inr (i, le, lt', _) ↦ absurd (omega arith) ]

  pub clear_lem : Returns (Settles (record l { n = 0 }) new k) (write_head (record l { n = 0 }) k)
  unfolding write_head
  clear_lem =
      let c : Block = head_block (record l { n = 0 }) (view k l.start) in
      let zero_n : word_at c 0 ≡ 0 =
        head_block-n (record l { n = 0 }) (view k l.start)
          (record { small = omega arith; words = λ i lt. absurd (omega arith) }) in
      let full = room_full k g.valid g.idle all_clean in
      subst
        (λ d.
          Returns (Settles (record l { n = 0 }) new k)
            (rewrite d l.start (head_block (record l { n = 0 })) k))
        (sym on_disk)
        (Returns-mono
          (rewrite_lem k l.start (head_block (record l { n = 0 })) g.valid (omega (arith, g.size))
            (ap (λ f. f l.start) g.idle) (omega (arith, full, cost-le_one k l.start)))
          λ k' s.
            let head : k'.disk.blocks l.start ≡ c =
              ap (λ d. d.blocks l.start) s.disk_eq ∙ update_self k.disk.blocks l.start c in
            let rest : (t : ℕ) → t < l.start → update k.disk.blocks l.start c t ≡ new t =
              λ t lt. update_ne k.disk.blocks l.start t c (λ e. omega arith) ∙ all_placed t lt in
            (
              record {
                valid = s.valid;
                idle = s.held_eq ∙ g.idle;
                clean =
                    s.dirty_eq
                    ∙ ap (λ f. update f l.start false) all_clean
                    ∙ fun_ext (λ t. ground arith);
                size = omega (arith, g.size, ap (λ d. d.size) s.disk_eq);
                dev = on_disk;
                n = refl;
                header = ap (λ b. word_at b 0) head ∙ zero_n;
                placed = λ t lt. ap (λ d. d.blocks t) s.disk_eq ∙ rest t lt;
              },
              Steps-one (λ f. IsRecoverable l.start f new) k.disk k'.disk l.start c s.disk_eq
                  (empty-IsRecoverable l.start (update k.disk.blocks l.start c) new
                    (ap (λ b. word_at b 0) (update_self k.disk.blocks l.start c) ∙ zero_n) rest),
            ))

module _ (l : Log) (new : ℕ → Block) (k : Cache) (v : IsValid k) (idle : held k ≡ (λ s. false))
    (clean : dirty k ≡ (λ s. false)) (size : l.start + logsize < k.disk.size) (on_disk : l.dev ≡ 1)
    (rec : IsRecoverable l.start k.disk.blocks new) where
  -- The log as `read_head` reads it from a block.
  abbrev read_log : Block → Log
  read_log b = record l { n = word_at b 0; sector = read_sectors (rounds (word_at b 0)) b l.sector }

  read_Installing :
      (k' : Cache) → Same k k' → Installing (read_log (k.disk.blocks l.start)) new 0 k'
  read_Installing k' s =
      let b : Block = k.disk.blocks l.start in
      let few : rounds (word_at b 0) ≡ word_at b 0 =
        rounds-small (word_at b 0) (omega (arith, rec.count)) in
      let clean' : dirty k' ≡ (λ t. false) = s.dirty_same ∙ clean in
      let full : room k' ≡ nbuf = room_full k' s.valid (s.held_same ∙ idle) clean' in
      record {
        valid = s.valid;
        idle = s.held_same ∙ idle;
        size = omega (arith, size, ap (λ d. d.size) s.disk_same);
        recoverable = rw s.disk_same rec;
        header_n = ap (λ d. word_at (d.blocks l.start) 0) s.disk_same;
        header_sector = λ i lt.
            ap (λ d. word_at (d.blocks l.start) (i + 1)) s.disk_same
            ∙ sym (read_sectors_lem (rounds (word_at b 0)) b l.sector i (omega (arith, few)));
        marks = λ t m. absurd (false≢true (sym (ap (λ f. f t) clean') ∙ m));
        space = λ i le lt.
            omega (arith, full, cost-le_one k' (read_sectors (rounds (word_at b 0)) b l.sector i));
        placed = λ t lt. elim (rec.settled t lt) [
          | inl e ↦ inl (ap (λ d. d.blocks t) s.disk_same ∙ e)
          | inr (i, lt', e) ↦ inr (
            i,
            omega arith,
            lt',
            read_sectors_lem (rounds (word_at b 0)) b l.sector i (omega (arith, few)) ∙ e,
          )
        ];
      }

  read_head_lem :
      Returns (λ r. (r.0 ≡ read_log (k.disk.blocks l.start)) × Same k r.1) (read_head l k)
  unfolding read_head
  read_head_lem =
      let at_start : (f : ℕ → Bool) → f ≡ (λ s. false) → f l.start ≡ false =
        λ f e. ap (λ h. h l.start) e in
      let full = room_full k v idle clean in
      let peeked =
        peek_lem k l.start v (omega (arith, size)) (at_start (held k) idle)
          (omega (arith, full, cost-le_one k l.start)) in
      Returns-bind _
        (subst (λ d. Returns (λ r. (r.0 ≡ view k l.start) × Same k r.1) (peek d l.start k))
          (sym on_disk) peeked)
        λ r p. returns _ (
          ap read_log
              (p.0 ∙ view_clean k v l.start (at_start (held k) idle) (at_start (dirty k) clean)),
          p.1,
        )

  -- `recover_from_log` with every buffer free returns from any recoverable disk. It leaves the log ready
  -- and each sector before the log with the contents `new` that the disk stood for. At every moment on
  -- the way the disk is recoverable to the same contents, so that a crash of the recovery loses nothing.
  pub recover_lem : Returns (Recovered l new k) (recover_from_log l k)
  unfolding recover_from_log
  recover_lem =
      let P = λ (f : ℕ → Block). IsRecoverable l.start f new in
      let l₁ : Log = read_log (k.disk.blocks l.start) in
      Returns-bind _ read_head_lem λ r p.
        subst
          (λ (l' : Log). Returns (Recovered l new k) (do
            k₂ ← install_trans l' r.1
            k₃ ← write_head (record l' { n = 0 }) k₂
            ok (record l' { n = 0 }, k₃)))
          (sym p.0)
          (Returns-bind _ (installs r.1 (read_Installing r.1 p.1)) λ k₂ q.
            Returns-bind _ (clear_lem l₁ new k₂ on_disk q.0) λ k₃ c.
              let whole : Steps P r.1.disk k₃.disk = Steps-trans P q.1 c.1 in
              returns (record l₁ { n = 0 }, k₃) (refl, (c.0, rw p.1.disk_same at whole)))
    where
      installs :
          (k' : Cache)
          → Installing (read_log (k.disk.blocks l.start)) new 0 k'
          → Returns
              (λ k₂.
                Installing
                  (read_log (k.disk.blocks l.start))
                  new
                  (word_at (k.disk.blocks l.start) 0)
                  k₂
                × Steps (λ f. IsRecoverable l.start f new) k'.disk k₂.disk)
              (install_trans (read_log (k.disk.blocks l.start)) k')
      installs k' g =
          unfold install_trans in
          install_from_lem (read_log (k.disk.blocks l.start)) new
            (rounds (word_at (k.disk.blocks l.start) 0)) 0 k' on_disk
            (omega
              (arith, rounds-small (word_at (k.disk.blocks l.start) 0) (omega (arith, rec.count))))
            g
