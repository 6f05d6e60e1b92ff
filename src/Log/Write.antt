-- ===== src/Log/Write.antt =====
-- A block update inside a transaction: the log takes the new contents, the home block waits in the
-- cache, and the disk still stands for the old contents.
use model_lib.Base.{
  ℕ, ◌+◌, ◌≤◌, ◌<◌, ◌≡◌, ◌≢◌, refl, sym, ap, ◌∙◌, ◌⊎◌, true, false, inl, inr, arith, false≢true,
  Bool-cases, ◌==◌,
}
use mathlib.Core.Path.{ap₂, subst}
use model_lib.Base.Outcome.{ok, ◌>>=◌, Returns, returns, Returns-bind, Returns-mono}
use model_lib.Base.Family.{update, update_self, update_ne, update_same, update-update}
use model_lib.Base.Words.{word_at}
use model_lib.Bio.{Block, Cache, nbuf, brelse, set_bytes, set_dirty}
use model_lib.Bio.Inv.{IsValid, view, held, dirty, room, cost, cost-le_one, cost-dirty, Owns}
use model_lib.Bio.Slots.{slot-some}
use model_lib.Bio.Bread.{bread_lem}
use model_lib.Bio.Release.{
  written, bytes_own, set_bytes_lem, set_bytes-Owns, set_dirty_lem, set_dirty-Owns, brelse_lem,
}
use model_lib.Bio.Store.{Stored}
use model_lib.Log.{Log, find_sector, log_write, update_block}
use model_lib.Log.Recoverable.{IsRecoverable, Steps, Steps-one}
use model_lib.Log.Recovery.{empty-IsRecoverable}
use model_lib.Log.Open.{IsOpen, find_sector_lem, append_log_lem, logged_at, log_write-eq}

module _ (l : Log) (old : ℕ → Block) (k : Cache) (g : IsOpen l old k) (t : ℕ) (home : t < l.start)
    (c : Block) (fits : l.n + 1 < l.size) (space : (l.n + 1 < nbuf) ⊎ (dirty k t ≡ true)) where
  place : ℕ
  place = find_sector l.n 0 l.sector t

  placed :
      ((place < l.n) × (l.sector place ≡ t))
      ⊎ ((place ≡ l.n) × ((x : ℕ) → x < l.n → l.sector x ≢ t))
  unfolding place
  placed = elim (find_sector_lem l.n 0 l.sector t) [
    | inl (_, lt, e) ↦ inl (omega arith, e)
    | inr (e, all) ↦ inr (omega arith, λ x lt. all x (omega arith) (omega arith))
  ]

  place_le : place ≤ l.n
  place_le = elim placed [ inl (lt, _) ↦ omega arith | inr (e, _) ↦ omega arith ]

  log_clean : (s : ℕ) → l.start ≤ s → dirty k s ≡ false
  log_clean s h = elim (Bool-cases (dirty k s)) [
    | inr clean ↦ clean
    | inl mark ↦ (let (i, lt, e) = g.named s mark in absurd (omega (arith, e, g.home i lt)))
  ]

  -- A sector that is not dirty has no place yet, and the other way round.
  absorbed : place < l.n → dirty k t ≡ true
  absorbed lt = elim placed [
    | inl (lt', e) ↦ rw (← e) (g.marked place lt')
    | inr (e, _) ↦ absurd (omega arith)
  ]

  appended : dirty k t ≡ true → place < l.n
  appended mark = elim placed [
    | inl (lt, _) ↦ lt
    | inr (_, all) ↦ (let (i, lt, e) = g.named t mark in absurd (all i lt e))
  ]

  -- The new log names the old sectors and `t`, each once.
  sector_old : (x : ℕ) → x ≢ place → (logged_at l t).sector x ≡ l.sector x
  unfolding place
  sector_old x ne = update_ne l.sector place x t ne

  sector_new : (logged_at l t).sector place ≡ t
  unfolding place
  sector_new = update_self l.sector place t

  n_new :
      ((logged_at l t).n ≡ l.n) × (place < l.n) ⊎ (((logged_at l t).n ≡ l.n + 1) × (place ≡ l.n))
  unfolding place
  n_new = ground (arith, place_le)

  below : (x : ℕ) → x < (logged_at l t).n → x ≢ place → x < l.n
  below x lt ne = elim n_new [ inl (e, _) ↦ omega arith | inr (e, e') ↦ omega arith ]

  place_lt : place < (logged_at l t).n
  place_lt = elim n_new [ inl (e, lt) ↦ omega arith | inr (e, e') ↦ omega arith ]

  sector_ne : (x : ℕ) → x < l.n → x ≢ place → l.sector x ≢ t
  sector_ne x lt ne e = elim placed [
    | inl (lt', e') ↦ ne (g.distinct x place lt lt' (e ∙ sym e'))
    | inr (_, all) ↦ all x lt e
  ]

  -- The state once the home buffer is given up.
  record Updated (k' : Cache) : Type 0 where
    valid : IsValid k'
    view_eq : (s : ℕ) → s < l.start → view k' s ≡ update (view k) t c s
    held_eq : held k' ≡ held k
    dirty_eq : dirty k' ≡ update (dirty k) t true
    disk_eq : k'.disk ≡ written (l.start + place + 1) c k.disk
    room_le : room k ≤ room k' + cost k t

  module _ (k' : Cache) (u : Updated k') where
    disk_other : (s : ℕ) → s ≢ l.start + place + 1 → k'.disk.blocks s ≡ k.disk.blocks s
    disk_other s ne =
        ap (λ d. d.blocks s) u.disk_eq ∙ update_ne k.disk.blocks (l.start + place + 1) s c ne

    logged' :
        (x : ℕ)
        → x < (logged_at l t).n
        → k'.disk.blocks (l.start + x + 1) ≡ view k' ((logged_at l t).sector x)
    logged' x lt = elim (Bool-cases (x == place)) [
      | inl q ↦
          let e : x ≡ place = ground arith in
          ap (λ y. k'.disk.blocks (l.start + y + 1)) e
          ∙ ap (λ d. d.blocks (l.start + place + 1)) u.disk_eq
          ∙ update_self k.disk.blocks (l.start + place + 1) c
          ∙ sym (
              ap (λ y. view k' ((logged_at l t).sector y)) e
              ∙ ap (view k') sector_new
              ∙ u.view_eq t home
              ∙ update_self (view k) t c)
      | inr q ↦
          let ne : x ≢ place = ground arith in
          let old_x = below x lt ne in
          disk_other (l.start + x + 1) (λ e. ne (omega arith))
          ∙ g.logged x old_x
          ∙ sym (
              ap (view k') (sector_old x ne)
              ∙ u.view_eq (l.sector x) (g.home x old_x)
              ∙ update_ne (view k) t (l.sector x) c (sector_ne x old_x ne))
    ]

    marked' : (x : ℕ) → x < (logged_at l t).n → dirty k' ((logged_at l t).sector x) ≡ true
    marked' x lt = elim (Bool-cases (x == place)) [
      | inl q ↦
          let e : x ≡ place = ground arith in
          ap (λ y. dirty k' ((logged_at l t).sector y)) e
          ∙ ap (dirty k') sector_new
          ∙ ap (λ f. f t) u.dirty_eq
          ∙ update_self (dirty k) t true
      | inr q ↦
          let ne : x ≢ place = ground arith in
          let old_x = below x lt ne in
          ap (dirty k') (sector_old x ne)
          ∙ ap (λ f. f (l.sector x)) u.dirty_eq
          ∙ update_ne (dirty k) t (l.sector x) true (sector_ne x old_x ne)
          ∙ g.marked x old_x
    ]

    named' :
        (s : ℕ)
        → dirty k' s ≡ true
        → (x : ℕ) × (x < (logged_at l t).n) × ((logged_at l t).sector x ≡ s)
    named' s m = elim (Bool-cases (s == t)) [
      | inl q ↦ (place, place_lt, sector_new ∙ (let e : t ≡ s = ground arith in e))
      | inr q ↦
          let ne : s ≢ t = ground arith in
          let (x, lt, e) =
            g.named s (sym (ap (λ f. f s) u.dirty_eq ∙ update_ne (dirty k) t s true ne) ∙ m) in
          let far : x ≢ place = λ p. not_place x p e ne lt in
          (
            x,
            elim n_new [ inl (n, _) ↦ omega arith | inr (n, _) ↦ omega arith ],
            sector_old x far ∙ e,
          )
    ]
      where
        not_place : (x : ℕ) → x ≡ place → l.sector x ≡ s → s ≢ t → x < l.n → ⊥
        not_place x p e ne lt = elim placed [
          | inl (_, e') ↦ ne (sym e ∙ ap l.sector p ∙ e')
          | inr (e', _) ↦ absurd (omega arith)
        ]

    distinct' :
        (x y : ℕ)
        → x < (logged_at l t).n
        → y < (logged_at l t).n
        → (logged_at l t).sector x ≡ (logged_at l t).sector y
        → x ≡ y
    distinct' x y lx ly e = elim (Bool-cases (x == place)) [
      | inl qx ↦ elim (Bool-cases (y == place)) [
        | inl qy ↦ ground arith
        | inr qy ↦
            let ny : y ≢ place = ground arith in
            let xp : x ≡ place = ground arith in
            absurd (
              sector_ne y (below y ly ny) ny
                (sym (sector_old y ny) ∙ sym e ∙ ap (logged_at l t).sector xp ∙ sector_new))
      ]
      | inr qx ↦ elim (Bool-cases (y == place)) [
        | inl qy ↦
            let nx : x ≢ place = ground arith in
            let yp : y ≡ place = ground arith in
            absurd (
              sector_ne x (below x lx nx) nx
                (sym (sector_old x nx) ∙ e ∙ ap (logged_at l t).sector yp ∙ sector_new))
        | inr qy ↦
            let nx : x ≢ place = ground arith in
            let ny : y ≢ place = ground arith in
            g.distinct x y (below x lx nx) (below y ly ny)
              (sym (sector_old x nx) ∙ e ∙ sector_old y ny)
      ]
    ]

    home' : (x : ℕ) → x < (logged_at l t).n → (logged_at l t).sector x < l.start
    home' x lt = elim (Bool-cases (x == place)) [
      | inl q ↦
          let e : x ≡ place = ground arith in omega (arith, ap (logged_at l t).sector e, sector_new)
      | inr q ↦
          let ne : x ≢ place = ground arith in
          omega (arith, sector_old x ne, g.home x (below x lt ne))
    ]

    counts : ((logged_at l t).n < nbuf) × (nbuf ≤ room k' + (logged_at l t).n)
    counts = elim n_new [
      | inl (e, lt) ↦
          let none_lost : cost k t ≡ 0 = cost-dirty k t (absorbed lt) in
          (omega (arith, g.count), omega (arith, u.room_le, g.space))
      | inr (e, last) ↦
          let few : l.n + 1 < nbuf = elim space [
            | inl h ↦ h
            | inr m ↦ absurd (omega (arith, appended m))
          ] in
          (omega arith, omega (arith, u.room_le, g.space, cost-le_one k t))
    ]

    updated-IsOpen : IsOpen (logged_at l t) old k'
    updated-IsOpen = record {
      valid = u.valid;
      idle = u.held_eq ∙ g.idle;
      size = omega (arith, g.size, ap (λ d. d.size) u.disk_eq);
      small = g.small;
      dev = g.dev;
      busy = g.busy;
      header = ap (λ b. word_at b 0) (disk_other l.start (λ e. omega arith)) ∙ g.header;
      untouched = λ s lt. disk_other s (λ e. omega arith) ∙ g.untouched s lt;
      count = counts.0;
      home = home';
      distinct = distinct';
      logged = logged';
      marked = marked';
      named = named';
      space = counts.1;
    }

    updated-Steps : Steps (λ f. IsRecoverable l.start f old) k.disk k'.disk
    updated-Steps =
        let a = l.start + place + 1 in
        Steps-one (λ f. IsRecoverable l.start f old) k.disk k'.disk a c u.disk_eq
          (empty-IsRecoverable l.start (update k.disk.blocks a c) old
            (ap (λ b. word_at b 0) (update_ne k.disk.blocks a l.start c (λ e. omega arith))
              ∙ g.header)
            (λ s lt. update_ne k.disk.blocks a s c (λ e. omega arith) ∙ g.untouched s lt))

  -- From the buffer of `t`, held with its new contents, to the end of the round.
  module _ (i : ℕ) (k₂ : Cache) (v₂ : IsValid k₂) (own : Owns k₂ i t)
      (view₂ : view k₂ ≡ update (view k) t c) (held₂ : held k₂ ≡ update (held k) t true)
      (dirty₂ : dirty k₂ ≡ dirty k) (disk₂ : k₂.disk ≡ k.disk)
      (room₂ : room k ≤ room k₂ + cost k t) where
    has_room : 1 ≤ room k₂
    has_room = elim (Bool-cases (dirty k t)) [
      | inl m ↦ omega (arith, room₂, cost-dirty k t m, g.space, g.count)
      | inr m ↦
          let few : l.n + 1 < nbuf = elim space [
            | inl h ↦ h
            | inr m' ↦ absurd (false≢true (sym m ∙ m'))
          ] in
          omega (arith, room₂, cost-le_one k t, g.space)
    ]

    -- The state between `log_write` and `brelse`.
    record Appended (r : Log × Cache) : Type 0 where
      log_eq : r.0 ≡ logged_at l t
      valid : IsValid r.1
      owns : Owns r.1 i t
      view_eq : (s : ℕ) → s < l.start → view r.1 s ≡ update (view k) t c s
      held_eq : held r.1 ≡ update (held k) t true
      dirty_eq : dirty r.1 ≡ update (dirty k) t true
      disk_eq : r.1.disk ≡ written (l.start + place + 1) c k.disk
      room_le : room k ≤ room r.1 + cost k t

    set_dirty-Appended :
        (k₃ : Cache)
        → Stored k₂ (l.start + place + 1) (view k₂ t) k₃
        → Appended (logged_at l t, set_dirty i k₃)
    set_dirty-Appended k₃ s =
        let a = l.start + place + 1 in
        let own₃ : Owns k₃ i t = s.keeps i t (λ e. omega arith) own in
        let d = set_dirty_lem k₃ s.valid i t own₃ in
        let reads : view k₂ t ≡ c = ap (λ f. f t) view₂ ∙ update_self (view k) t c in
        record {
          log_eq = refl;
          valid = d.valid;
          owns = set_dirty-Owns k₃ s.valid i t own₃;
          view_eq = λ x lt.
              ap (λ f. f x) d.view_eq
              ∙ ap (λ f. f x) s.view_eq
              ∙ update_ne (view k₂) a x (view k₂ t) (λ e. omega arith)
              ∙ ap (λ f. f x) view₂;
          held_eq = d.held_eq ∙ s.held_eq ∙ held₂;
          dirty_eq =
              d.dirty_eq
              ∙ ap (λ f. update f t true)
                  (s.dirty_eq
                    ∙ ap (λ f. update f a false) dirty₂
                    ∙ update_same (dirty k) a false (log_clean a (omega arith)));
          disk_eq = d.disk_eq ∙ s.disk_eq ∙ ap₂ (written a) reads disk₂;
          room_le = omega (arith, room₂, s.room_gain, d.room_le, cost-le_one k₂ a);
        }

    log_write_lem : Returns Appended (log_write i l k₂)
    unfolding place
    log_write_lem =
        let (hi, di, si) = slot-some k₂ t i own.0 in
        let a = l.start + place + 1 in
        let idle_a : held k₂ a ≡ false =
          ap (λ f. f a) held₂
          ∙ update_ne (held k) t a true (λ e. omega arith)
          ∙ ap (λ f. f a) g.idle in
        rw (log_write-eq i t l k₂ di si g.busy (omega (arith, g.count)) fits) (
          Returns-bind _
            (append_log_lem k₂ a i t v₂ own
              (omega (arith, ap (λ d. d.size) disk₂, g.size, place_le, g.count)) idle_a
              (omega (arith, cost-le_one k₂ a, has_room)))
            λ k₃ s. returns (logged_at l t, set_dirty i k₃) (set_dirty-Appended k₃ s))

    release_lem : (r : Log × Cache) → Appended r → Returns (λ k'. Updated k') (brelse i r.1)
    release_lem r p =
        let marked_t : dirty r.1 t ≡ true =
          ap (λ f. f t) p.dirty_eq ∙ update_self (dirty k) t true in
        Returns-mono (brelse_lem r.1 p.valid i t p.owns (inl marked_t)) λ k' b. record {
          valid = b.0.valid;
          view_eq = λ s lt. ap (λ f. f s) b.0.view_eq ∙ p.view_eq s lt;
          held_eq =
              b.0.held_eq
              ∙ ap (λ f. update f t false) p.held_eq
              ∙ update-update (held k) t true false
              ∙ update_same (held k) t false (ap (λ f. f t) g.idle);
          dirty_eq = b.0.dirty_eq ∙ p.dirty_eq;
          disk_eq = b.0.disk_eq ∙ p.disk_eq;
          room_le = omega (arith, p.room_le, b.1);
        }

    finish :
        Returns
          (λ (r : Log × Cache). (r.0 ≡ logged_at l t) × Updated r.1)
          (do (l', k₃) ← log_write i l k₂; k₄ ← brelse i k₃; ok (l', k₄))
    finish =
        Returns-bind _ log_write_lem
          λ r p. Returns-bind _ (release_lem r p) λ k₄ u. returns (r.0, k₄) (p.log_eq, u)

-- What a block update in a transaction leaves: the transaction is still open from the same contents,
-- the sector reads as updated and the others before the log as before, and after every write the disk
-- still stood for the old contents.
pub record Logs (l : Log) (old : ℕ → Block) (k : Cache) (t : ℕ) (c : Block) (r : Log × Cache)
    : Type 0 where
  pub opened : IsOpen r.0 old r.1
  pub start_same : r.0.start ≡ l.start
  pub size_same : r.0.size ≡ l.size
  pub n_le : r.0.n ≤ l.n + 1
  pub view_eq : (s : ℕ) → s < l.start → view r.1 s ≡ update (view k) t c s
  pub steps : Steps (λ f. IsRecoverable l.start f old) k.disk r.1.disk

-- In a transaction of fewer than NBUF blocks an update of a block before the log returns, and nothing
-- of it can be seen on the disk but in the log: the disk stands for the old contents after each write.
pub update_block_lem :
    (l : Log) (old : ℕ → Block) (k : Cache) (t : ℕ) (f : Block → Block)
    → IsOpen l old k
    → t < l.start
    → l.n + 1 < l.size
    → (l.n + 1 < nbuf) ⊎ (dirty k t ≡ true)
    → Returns (Logs l old k t (f (view k t))) (update_block 1 t f l k)
unfolding update_block
update_block_lem l old k t f g home fits space =
    let free : cost k t ≤ room k = elim space [
      | inl few ↦ omega (arith, cost-le_one k t, g.space)
      | inr m ↦ omega (arith, cost-dirty k t m)
    ] in
    let c : Block = f (view k t) in
    Returns-bind _ (bread_lem k g.valid t (omega (arith, g.size)) (ap (λ h. h t) g.idle) free)
      λ r rd.
        let set = set_bytes_lem r.1 rd.valid r.0 t rd.owns (f (r.1.buf r.0).bytes) in
        let own = set_bytes-Owns r.1 rd.valid r.0 t rd.owns (f (r.1.buf r.0).bytes) in
        let same : f (r.1.buf r.0).bytes ≡ c =
          ap f (bytes_own r.1 rd.valid r.0 t rd.owns ∙ ap (λ h. h t) rd.view_same) in
        Returns-mono
          (finish l old k g t home c fits space r.0 (set_bytes r.0 (f (r.1.buf r.0).bytes) r.1)
            set.valid own (set.view_eq ∙ ap₂ (λ h b. update h t b) rd.view_same same)
            (set.held_eq ∙ rd.held_set) (set.dirty_eq ∙ rd.dirty_same) (set.disk_eq ∙ rd.disk_same)
            (omega (arith, set.room_le, rd.room_less)))
          λ q p.
            let u = updated-IsOpen l old k g t home c fits space q.1 p.1 in
            let n' = n_new l old k g t home c fits space in
            subst (λ l'. Logs l old k t c (l', q.1)) (sym p.0)
              (record {
                opened = u;
                start_same = refl;
                size_same = refl;
                n_le = elim n' [ inl (e, _) ↦ omega arith | inr (e, _) ↦ omega arith ];
                view_eq = p.1.view_eq;
                steps = updated-Steps l old k g t home c fits space q.1 p.1;
              })
