-- ===== src/Log/Visit.antt =====
-- The log and the buffer cache as the blocks of fs.c.
use model_lib.Base.{
  ℕ, suc, ◌+◌, ◌≤◌, ◌<◌, ◌≡◌, refl, sym, ap, ◌∙◌, inl, inr, Option, none, some, Bool-cases, ◌==◌,
  arith,
}
use mathlib.Core.Path.{subst}
use model_lib.Base.Outcome.{
  Outcome, ok, ◌>>=◌, Returns, returns, Returns-bind, Returns-mono, Returns-value,
}
use model_lib.Base.Family.{update}
use model_lib.Base.Words.{word_at}
use model_lib.Bio.{Block, Cache, nbuf, bread, brelse, set_bytes, peek}
use model_lib.Bio.Inv.{view, room, cost, cost-le_one}
use model_lib.Bio.Bread.{bread_lem}
use model_lib.Bio.Release.{bytes_own}
use model_lib.Bio.Store.{Same, peek_lem}
use model_lib.Log.{Log, log_write, update_block}
use model_lib.Log.Open.{IsOpen}
use model_lib.Log.Write.{Logs, update_block_lem}
use model_lib.Fs.Store.{BlockStore}

-- The end of a visit, with the buffer `i` held.
pub leave : ℕ → Option Block → Log → Cache → Outcome (Log × Cache)
leave i none l k = do k' ← brelse i k; ok (l, k')
leave i (some c) l k = do (l', k₁) ← log_write i l (set_bytes i c k); k₂ ← brelse i k₁; ok (l', k₂)

pub visit : ℕ → ℕ → (Block → Option Block) → Log × Cache → Outcome (Block × (Log × Cache))
unfolding leave
visit dev t f (l, k) = do
  (i, k₁) ← bread dev t k
  s ← leave i (f (k₁.buf i).bytes) l k₁
  ok ((k₁.buf i).bytes, s)

-- The transaction that began with the contents `old` on a disk whose log begins at `start`.
pub record Holds (start : ℕ) (old : ℕ → Block) (n : ℕ) (v : ℕ → Block) (s : Log × Cache)
    : Type 0 where
  pub opened : IsOpen s.0 old s.1
  pub start_at : s.0.start ≡ start
  pub log_space : s.0.n + n < s.0.size
  pub buffers : s.0.n + n < nbuf
  pub reads : (t : ℕ) → t < start → view s.1 t ≡ v t

Same-IsOpen :
    (l : Log) (old : ℕ → Block) (k k' : Cache) → IsOpen l old k → Same k k' → IsOpen l old k'
Same-IsOpen l old k k' g s = record {
  valid = s.valid;
  idle = s.held_same ∙ g.idle;
  size = omega (arith, g.size, ap (λ d. d.size) s.disk_same);
  small = g.small;
  dev = g.dev;
  busy = g.busy;
  header = ap (λ d. word_at (d.blocks l.start) 0) s.disk_same ∙ g.header;
  untouched = λ t lt. ap (λ d. d.blocks t) s.disk_same ∙ g.untouched t lt;
  count = g.count;
  home = g.home;
  distinct = g.distinct;
  logged = λ i lt.
      ap (λ d. d.blocks (l.start + i + 1)) s.disk_same
      ∙ g.logged i lt
      ∙ sym (ap (λ w. w (l.sector i)) s.view_same);
  marked = λ i lt. ap (λ d. d (l.sector i)) s.dirty_same ∙ g.marked i lt;
  named = λ t m. g.named t (sym (ap (λ d. d t) s.dirty_same) ∙ m);
  space = omega (arith, g.space, s.room_le);
}

-- A release, whatever is returned besides the cache.
release_pair :
    {A B : Type 0} (P : Cache → Type 0) (a : A) (b : B) (m : Outcome Cache)
    → Returns (λ (r : A × Cache). P r.1) (m >>= λ k. ok (a, k))
    → Returns (λ (r : B × Cache). (r.0 ≡ b) × P r.1) (m >>= λ k. ok (b, k))
release_pair P a b (ok k) (returns r p) = returns (b, k) (refl, p)
release_pair P a b (Outcome.panic m) h = elim h [ ]
release_pair P a b Outcome.asleep h = elim h [ ]

-- What `bread` of a block below the log gives in an open transaction, with a buffer to spare.
visit-bread :
    (start : ℕ) (old : ℕ → Block) (n : ℕ) (v : ℕ → Block) (l : Log) (k : Cache) (t : ℕ)
    → Holds start old n v (l, k)
    → t < start
    → (i : ℕ) × (k₁ : Cache) × (bread 1 t k ≡ ok (i, k₁)) × ((k₁.buf i).bytes ≡ v t)
visit-bread start old n v l k t h lt =
    let g = h.opened in
    let free : cost k t ≤ room k = omega (arith, cost-le_one k t, g.space, g.count) in
    let ((i, k₁), e, rd) =
      Returns-value
        (bread_lem k g.valid t (omega (arith, g.size, h.start_at)) (ap (λ f. f t) g.idle) free) in
    (i, k₁, e, bytes_own k₁ rd.valid i t rd.owns ∙ ap (λ f. f t) rd.view_same ∙ h.reads t lt)

module _ (start : ℕ) (old : ℕ → Block) (n : ℕ) (v : ℕ → Block) (l : Log) (k : Cache) (t : ℕ)
    (f : Block → Option Block) (lt : t < start) where
  after_bread :
      (Q : Log × Cache → Type 0) (o : Option Block) (i : ℕ) (k₁ : Cache)
      → bread 1 t k ≡ ok (i, k₁)
      → (k₁.buf i).bytes ≡ v t
      → f (v t) ≡ o
      → Returns Q (leave i o l k₁)
      → Returns (λ r. (r.0 ≡ v t) × Q r.1) (visit 1 t f (l, k))
  unfolding visit
  after_bread Q o i k₁ e bytes given left =
      subst
        (λ (m : Outcome (ℕ × Cache)).
          Returns (λ (r : Block × (Log × Cache)). (r.0 ≡ v t) × Q r.1)
            (m >>= λ (i, k₁). leave i (f (k₁.buf i).bytes) l k₁ >>= λ s. ok ((k₁.buf i).bytes, s)))
        (sym e)
        (subst
          (λ o.
            Returns (λ (r : Block × (Log × Cache)). (r.0 ≡ v t) × Q r.1)
              (leave i o l k₁ >>= λ s. ok ((k₁.buf i).bytes, s)))
          (sym (ap f bytes ∙ given)) (Returns-bind _ left λ s q. returns _ (bytes, q)))

  pub visit-read :
      Holds start old n v (l, k)
      → f (v t) ≡ none
      → Returns (λ r. (r.0 ≡ v t) × Holds start old n v r.1) (visit 1 t f (l, k))
  unfolding leave peek
  visit-read h given =
      let g = h.opened in
      let (i, k₁, e, bytes) = visit-bread start old n v l k t h lt in
      let free : cost k t ≤ room k = omega (arith, cost-le_one k t, g.space, g.count) in
      let peeked =
        subst
          (λ (m : Outcome (ℕ × Cache)).
            Returns (λ (r : Block × Cache). (r.0 ≡ view k t) × Same k r.1)
              (m >>= λ (i, k₁). brelse i k₁ >>= λ k₂. ok ((k₁.buf i).bytes, k₂)))
          e
          (peek_lem k t g.valid (omega (arith, g.size, h.start_at)) (ap (λ f. f t) g.idle) free) in
      after_bread (Holds start old n v) none i k₁ e bytes given (
        Returns-mono
          (release_pair (λ k'. Same k k') (k₁.buf i).bytes l (brelse i k₁)
            (Returns-mono peeked λ r p. p.1))
          λ r (l_eq, s).
            subst (λ l'. Holds start old n v (l', r.1)) (sym l_eq)
              record {
                opened = Same-IsOpen l old k r.1 g s;
                start_at = h.start_at;
                log_space = h.log_space;
                buffers = h.buffers;
                reads = λ x x_lt. ap (λ w. w x) s.view_same ∙ h.reads x x_lt;
              })

  pub visit-write :
      (c : Block)
      → Holds start old (suc n) v (l, k)
      → f (v t) ≡ some c
      → Returns (λ r. (r.0 ≡ v t) × Holds start old n (update v t c) r.1) (visit 1 t f (l, k))
  unfolding leave update_block
  visit-write c h given =
      let g = h.opened in
      let (i, k₁, e, bytes) = visit-bread start old (suc n) v l k t h lt in
      let logged =
        subst
          (λ (m : Outcome (ℕ × Cache)). Returns (Logs l old k t c) (
            m >>= λ (i, k₁).
            log_write i l (set_bytes i c k₁) >>= λ (l', k₂). brelse i k₂ >>= λ k₃. ok (l', k₃)))
          e
          (update_block_lem l old k t (λ _. c) g (omega (arith, h.start_at))
            (omega (arith, h.log_space)) (inl (omega (arith, h.buffers)))) in
      after_bread (Holds start old n (update v t c)) (some c) i k₁ e bytes given (
        Returns-mono logged λ r w. record {
          opened = w.opened;
          start_at = w.start_same ∙ h.start_at;
          log_space = omega (arith, h.log_space, w.n_le, w.size_same);
          buffers = omega (arith, h.buffers, w.n_le);
          reads = λ x x_lt.
              w.view_eq x (omega (arith, h.start_at))
              ∙ elim (Bool-cases (x == t)) [ inl q ↦ rw q refl | inr q ↦ rw q (h.reads x x_lt) ];
        })

-- In a transaction that began with the contents `old` the log and the buffer cache are such blocks, up
-- to where the log begins.
abbrev pub log_store : ℕ → (ℕ → Block) → BlockStore (Log × Cache)
log_store start old = record {
  visit = visit;
  limit = start;
  Holds = Holds start old;
  visit_read = λ {n} {v} {s} t f h lt given. visit-read start old n v s.0 s.1 t f lt h given;
  visit_write = λ {n} {v} {s} t f c h lt given. visit-write start old n v s.0 s.1 t f lt c h given;
}
