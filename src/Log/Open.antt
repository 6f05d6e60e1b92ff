-- ===== src/Log/Open.antt =====
-- A transaction that is open, and the steps of `log_write` inside it.
use model_lib.Base.{
  ℕ, zero, suc, ◌+◌, ◌-◌, ◌^◌, ◌≤◌, ◌<◌, ◌≡◌, ◌≢◌, ap, ◌∙◌, ◌⊎◌, true, false, inl, inr, arith,
  Bool-cases, ◌==◌, if◌then◌else◌, leb, ◌||◌,
}
use model_lib.Base.Outcome.{ok, ◌>>=◌, Returns}
use model_lib.Base.Family.{update}
use model_lib.Base.Words.{word_at}
use model_lib.Bio.{Block, Cache, nbuf, set_dirty}
use model_lib.Bio.Inv.{IsValid, view, held, dirty, room, cost, Owns}
use model_lib.Bio.Release.{bytes_own}
use model_lib.Bio.Store.{Stored, write_round}
use model_lib.Log.{Log, logsize, rounds, find_sector, append_log, log_write}
use model_lib.Log.Header.{rounds-small}

-- Inside a transaction that began with the contents `old`: the header on the disk is empty and the
-- sectors before the log are as they were; each logged sector is dirty in the cache and its contents
-- are in its log block; nothing else is dirty.
pub record IsOpen (l : Log) (old : ℕ → Block) (k : Cache) : Type 0 where
  pub valid : IsValid k
  pub idle : held k ≡ (λ s. false)
  pub size : l.start + logsize < k.disk.size
  pub small : l.start < 2 ^ 31
  pub dev : l.dev ≡ 1
  pub busy : l.busy ≡ true
  pub header : word_at (k.disk.blocks l.start) 0 ≡ 0
  pub untouched : (t : ℕ) → t < l.start → k.disk.blocks t ≡ old t
  pub count : l.n < nbuf
  pub home : (i : ℕ) → i < l.n → l.sector i < l.start
  pub distinct : (i j : ℕ) → i < l.n → j < l.n → l.sector i ≡ l.sector j → i ≡ j
  pub logged : (i : ℕ) → i < l.n → k.disk.blocks (l.start + i + 1) ≡ view k (l.sector i)
  pub marked : (i : ℕ) → i < l.n → dirty k (l.sector i) ≡ true
  pub named : (t : ℕ) → dirty k t ≡ true → (i : ℕ) × (i < l.n) × (l.sector i ≡ t)
  pub space : nbuf ≤ room k + l.n

-- The search of `log_write` finds the sector's place, or the end if it has none.
pub find_sector_lem :
    (r i : ℕ) (sector : ℕ → ℕ) (s : ℕ)
    → let j = find_sector r i sector s in
      ((i ≤ j) × (j < i + r) × (sector j ≡ s))
      ⊎ ((j ≡ i + r) × ((x : ℕ) → i ≤ x → x < i + r → sector x ≢ s))
unfolding find_sector
find_sector_lem zero i sector s = inr (omega arith, λ x le lt. absurd (omega arith))
find_sector_lem (suc r) i sector s = elim (Bool-cases (sector i == s)) [
  | inl q ↦ rw q (inl (omega arith, omega arith, ground arith))
  | inr q ↦ rw q (elim (find_sector_lem r (i + 1) sector s) [
    | inl (le, lt, e) ↦ inl (omega arith, omega arith, e)
    | inr (e, all) ↦ inr (
      omega arith,
      λ x le lt. elim (Bool-cases (x == i)) [
        | inl xi ↦ (let e' : x ≡ i = ground arith in λ h. ground (arith, ap sector e'))
        | inr xi ↦ all x (ground arith) (omega arith)
      ],
    )
  ])
]

-- The copy of held buffer `b`, whose sector is `t`, to log block `s`.
pub append_log_lem :
    (k : Cache) (s b t : ℕ)
    → IsValid k
    → Owns k b t
    → s < k.disk.size
    → held k s ≡ false
    → cost k s ≤ room k
    → Returns (Stored k s (view k t)) (append_log 1 s b k)
unfolding append_log
append_log_lem k s b t v own small idle free =
    write_round k s (λ i k₁. (k₁.buf b).bytes) (view k t) v small idle free
      λ r rd. bytes_own r.1 rd.valid b t (rd.keeps b t own) ∙ ap (λ f. f t) rd.view_same

-- The log after `log_write` of sector `t`.
abbrev pub logged_at : Log → ℕ → Log
logged_at l t =
    let i = find_sector l.n 0 l.sector t in
    record l { sector = update l.sector i t; n = if i == l.n then l.n + 1 else l.n }

-- `log_write` of buffer `b` for sector `t`, where neither of its checks panics.
pub log_write-eq :
    (b t : ℕ) (l : Log) (k : Cache)
    → (k.buf b).dev ≡ 1
    → (k.buf b).sector ≡ t
    → l.busy ≡ true
    → l.n < logsize
    → l.n + 1 < l.size
    → log_write b l k ≡ (
        append_log 1 (l.start + find_sector l.n 0 l.sector t + 1) b k >>= λ k₁.
        ok (logged_at l t, set_dirty b k₁))
unfolding log_write
log_write-eq b t l k d s busy few fits =
    let n : rounds l.n ≡ l.n = rounds-small l.n (omega arith) in
    let room : (leb logsize l.n || leb (l.size - 1) l.n) ≡ false = ground arith in
    rw (n, room, busy, d, s)
