-- ===== src/Fs/Contents/Reading.antt =====
-- `bmap` of blocks that are there, and `readi` of a file without holes.
use model_lib.Base.{
  ℕ, zero, suc, ◌+◌, ◌-◌, ◌*◌, ◌/◌, ◌%◌, ◌^◌, ◌≤◌, ◌<◌, ◌≡◌, ◌≢◌, refl, sym, ap, ◌∙◌, inl, inr,
  ◌&&◌, ◌||◌, some, ◌==◌, ltb, leb, if◌then◌else◌, Bool-cases, if-true, if-false, arith,
}
use mathlib.Core.Path.{subst, fun_ext}
use model_lib.Base.Outcome.{
  Outcome, ◌>>=◌, Returns, returns, Returns-bind, Returns-if, Returns-mono, Returns-known,
}
use model_lib.Base.Words.{word_at}
use model_lib.Bio.{Block}
use model_lib.Fs.Dinode.{Dinode}
use model_lib.Fs.Inode.{Inode}
use model_lib.Fs.Contents.{
  ndirect, nindirect, t_dev, part, moved, own_addr, own_indirect2, entry_addr, table_addr, bmap,
  read_from, read_file, readi,
}
use model_lib.Fs.Contents.Services.{ContentServices, BlockReads}

-- The address of the block `bn` of the inode, by the blocks of addresses in `v`.
abbrev pub addr_of : Dinode → (ℕ → Block) → ℕ → ℕ
addr_of d v bn =
    if ltb bn ndirect
    then d.addrs bn
    else (if ltb (bn - ndirect) nindirect
        then word_at (v (d.addrs ndirect)) (bn - ndirect)
        else word_at (v (word_at (v d.indirect2) ((bn - ndirect - nindirect) / nindirect)))
            ((bn - ndirect - nindirect) % nindirect))

abbrev pub IsBlock : ℕ → ℕ → Type 0
IsBlock limit a = (a ≢ 0) × (a < limit)

-- The block `bn` and the blocks of addresses on the way to it are there, below `limit`.
pub record IsMapped (limit : ℕ) (d : Dinode) (v : ℕ → Block) (bn : ℕ) : Type 0 where
  pub direct : bn < 12 → IsBlock limit (d.addrs bn)
  pub table : 12 ≤ bn → bn < 140 → IsBlock limit (d.addrs ndirect)
  pub single : 12 ≤ bn → bn < 140 → IsBlock limit (word_at (v (d.addrs ndirect)) (bn - ndirect))
  pub tables : 140 ≤ bn → IsBlock limit d.indirect2
  pub second :
      140 ≤ bn → IsBlock limit (word_at (v d.indirect2) ((bn - ndirect - nindirect) / nindirect))
  pub double :
      140 ≤ bn
      → IsBlock limit (
          word_at
            (v (word_at (v d.indirect2) ((bn - ndirect - nindirect) / nindirect)))
            ((bn - ndirect - nindirect) % nindirect))
  pub in_range : bn < 140 + 128 * 128

addr_of_lt :
    (limit : ℕ) (d : Dinode) (v : ℕ → Block) (bn : ℕ)
    → IsMapped limit d v bn
    → addr_of d v bn < limit
addr_of_lt limit d v bn at = elim (Bool-cases (ltb bn ndirect)) [
  | inl y ↦ subst (λ a. a < limit) (sym (if-true _ _ y)) (at.direct (ground arith)).1
  | inr n ↦ elim (Bool-cases (ltb (bn - ndirect) nindirect)) [
    | inl y ↦
        subst (λ a. a < limit) (sym (if-false _ _ n ∙ if-true _ _ y))
          (at.single (ground arith) (ground arith)).1
    | inr n₁ ↦
        subst (λ a. a < limit) (sym (if-false _ _ n ∙ if-false _ _ n₁)) (at.double (ground arith)).1
  ]
]

-- The byte of the file at an offset.
abbrev pub byte_at : Dinode → (ℕ → Block) → ℕ → ℕ
byte_at d v o = v (addr_of d v (o / 512)) (o % 512)

-- `dst` with the bytes of the file from `base + i` on at the offsets from `i` to `n - 1`.
abbrev pub with_bytes : Dinode → (ℕ → Block) → ℕ → ℕ → ℕ → (ℕ → ℕ) → ℕ → ℕ
with_bytes d v base i n dst k = if leb i k && ltb k n then byte_at d v (base + k) else dst k

-- A stretch of a file within a block.
within_block :
    (off base tot m k : ℕ)
    → off ≡ base + tot
    → off % 512 + m ≤ 512
    → tot ≤ k
    → k < tot + m
    → (off / 512 ≡ (base + k) / 512) × (off % 512 + (k - tot) ≡ (base + k) % 512)
within_block off base tot m k e le ge lt = (omega arith, omega arith)

part_lem :
    (n tot off : ℕ)
    → tot < n
    → (0 < part n tot off) × (tot + part n tot off ≤ n) × (off % 512 + part n tot off ≤ 512)
part_lem n tot off lt = (ground arith, ground arith, ground arith)

-- One round, and those behind it.
with_bytes-moved :
    (d : Dinode) (v : ℕ → Block) (base tot off n : ℕ) (dst : ℕ → ℕ)
    → off ≡ base + tot
    → tot < n
    → with_bytes d v base
        (tot + part n tot off)
        n
        (moved dst tot (v (addr_of d v (off / 512))) (off % 512) (part n tot off))
      ≡ with_bytes d v base tot n dst
with_bytes-moved d v base tot off n dst e lt = fun_ext λ k.
    let (pos, le, fits) = part_lem n tot off lt in
    let later = leb (tot + part n tot off) k && ltb k n in
    elim (Bool-cases (leb tot k && ltb k (tot + part n tot off))) [
      | inl y ↦
          let (block, byte) =
            within_block off base tot (part n tot off) k e fits (ground arith) (ground arith) in
          let same : v (addr_of d v (off / 512)) (off % 512 + (k - tot)) ≡ byte_at d v (base + k) =
            ap (λ b. v (addr_of d v b) (off % 512 + (k - tot))) block
            ∙ ap (v (addr_of d v ((base + k) / 512))) byte in
          if-false {b = later} _ _ (ground arith)
          ∙ if-true _ _ y
          ∙ same
          ∙ sym (if-true {b = leb tot k && ltb k n} _ _ (ground arith))
      | inr away ↦ elim (Bool-cases (leb tot k && ltb k n)) [
        | inl y ↦ if-true {b = later} _ _ (ground arith) ∙ sym (if-true _ _ y)
        | inr out ↦
            if-false {b = later} _ _ (ground arith) ∙ if-false _ _ away ∙ sym (if-false _ _ out)
      ]
    ]

-- The number of bytes at `off`, at most `n`.
abbrev pub clipped : Inode → ℕ → ℕ → ℕ
clipped ip off n = if ltb ip.copy.size (off + n) then ip.copy.size - off else n

Returns-kept :
    {A B C S : Type 0} {a : A} {b : B} {P : S → Type 0} {Q : C → Type 0} {m : Outcome (A × (B × S))}
    (f : A × (B × S) → Outcome C)
    → Returns (λ r. (r.0 ≡ a) × ((r.1.0 ≡ b) × P r.1.1)) m
    → ((s : S) → P s → Returns Q (f (a, (b, s))))
    → Returns Q (m >>= f)
Returns-kept {a} {Q} f (returns (x, (y, s)) (e, (e', p))) next =
    subst (λ z. Returns Q (f (z, (y, s)))) (sym e)
      (subst (λ z. Returns Q (f (a, (z, s)))) (sym e') (next s p))

module _ {S : Type 0} {cs : ContentServices S} (ip : Inode) (limit : ℕ) (v : ℕ → Block)
    (st : BlockReads cs ip.dev limit v) where
  -- The call gives `addr` and leaves the inode and the blocks as they are.
  abbrev Gives : ℕ → ℕ × (Inode × S) → Type 0
  Gives addr q = (q.0 ≡ addr) × ((q.1.0 ≡ ip) × st.Idle q.1.1)

  own_addr-Gives :
      (i : ℕ) (s : S)
      → st.Idle s
      → ip.copy.addrs i ≢ 0
      → Returns (Gives (ip.copy.addrs i)) (own_addr cs i ip s)
  unfolding own_addr
  own_addr-Gives i s held ne =
      Returns-if (ip.copy.addrs i == 0) _ _ (λ z. absurd (ne (ground arith)))
        (λ nz. returns _ (refl, (refl, held)))

  own_indirect2-Gives :
      (s : S)
      → st.Idle s
      → ip.copy.indirect2 ≢ 0
      → Returns (Gives ip.copy.indirect2) (own_indirect2 cs ip s)
  unfolding own_indirect2
  own_indirect2-Gives s held ne =
      Returns-if (ip.copy.indirect2 == 0) _ _ (λ z. absurd (ne (ground arith)))
        (λ nz. returns _ (refl, (refl, held)))

  table_addr_lem :
      (t i : ℕ) (s : S)
      → st.Idle s
      → t < limit
      → word_at (v t) i ≢ 0
      → Returns (λ q. (q.0 ≡ word_at (v t) i) × st.Idle q.1) (table_addr cs ip.dev t i s)
  unfolding table_addr entry_addr
  table_addr_lem t i s held inside ne = Returns-known _ (st.reads t held inside) λ s₁ held₁.
      Returns-known {P = st.Has t} _
        (Returns-if (word_at (v t) i == 0) _ _ (λ z. absurd (ne (ground arith)))
          (λ nz. returns _ (refl, held₁)))
        λ s₂ held₂. Returns-bind _ (st.releases held₂) λ s₃ held₃. returns _ (refl, held₃)

  bmap-Gives :
      (bn : ℕ) (s : S)
      → st.Idle s
      → IsMapped limit ip.copy v bn
      → Returns (Gives (addr_of ip.copy v bn)) (bmap cs ip bn s)
  unfolding bmap
  bmap-Gives bn s held at =
      Returns-if (ltb bn ndirect) _ _
        (λ y.
          Returns-mono (own_addr-Gives bn s held (at.direct (ground arith)).0)
            λ q (e, kept). (e ∙ sym (if-true _ _ y), kept))
        (λ n.
          Returns-if (ltb (bn - ndirect) nindirect) _ _
            (λ y.
              let (own, inside) = at.table (ground arith) (ground arith) in
              let (leaf, _) = at.single (ground arith) (ground arith) in
              Returns-kept _ (own_addr-Gives ndirect s held own) λ s₁ held₁.
                Returns-known _
                  (table_addr_lem (ip.copy.addrs ndirect) (bn - ndirect) s₁ held₁ inside leaf)
                  λ s₂ held₂. returns _ (sym (if-false _ _ n ∙ if-true _ _ y), (refl, held₂)))
            (λ n₁.
              Returns-if (ltb (bn - ndirect - nindirect) (nindirect * nindirect)) _ _
                (λ y.
                  let (own, inside) = at.tables (ground arith) in
                  let (mid, inside₁) = at.second (ground arith) in
                  let (leaf, _) = at.double (ground arith) in
                  Returns-kept _ (own_indirect2-Gives s held own) λ s₁ held₁.
                    Returns-known _ (table_addr_lem ip.copy.indirect2 _ s₁ held₁ inside mid)
                      λ s₂ held₂.
                        Returns-known _ (table_addr_lem _ _ s₂ held₂ inside₁ leaf) λ s₃ held₃.
                          returns _ (sym (if-false _ _ n ∙ if-false _ _ n₁), (refl, held₃)))
                (λ out. let lt = at.in_range in absurd (ground (arith, lt, out, n, n₁)))))

  -- The loop has copied `tot` bytes of those from `base` on.
  read_from_lem :
      (fuel tot off base n : ℕ) (dst : ℕ → ℕ) (s : S)
      → st.Idle s
      → off ≡ base + tot
      → n ≤ tot + fuel
      → ((o : ℕ) → o < base + n → IsMapped limit ip.copy v (o / 512))
      → Returns
          (λ q. (q.0 ≡ with_bytes ip.copy v base tot n dst) × ((q.1.0 ≡ ip) × st.Idle q.1.1))
          (read_from cs fuel tot off n dst ip s)
  unfolding read_from
  read_from_lem zero tot off base n dst s held at enough mapped =
      returns _ (fun_ext (λ k. ground arith), (refl, held))
  read_from_lem (suc fuel) tot off base n dst s held at enough mapped =
      Returns-if (ltb tot n) _ _
        (λ y.
          let (pos, le, fits) = part_lem n tot off (ground arith) in
          let at_block = mapped off (ground arith) in
          let inside = addr_of_lt limit ip.copy v (off / 512) at_block in
          Returns-kept _ (bmap-Gives (off / 512) s held at_block) λ s₁ held₁.
            Returns-known _ (st.reads (addr_of ip.copy v (off / 512)) held₁ inside) λ s₂ held₂.
              Returns-bind _ (st.releases held₂) λ s₃ held₃.
                let m = part n tot off in
                Returns-mono
                  (read_from_lem fuel (tot + m) (off + m) base n
                    (moved dst tot (v (addr_of ip.copy v (off / 512))) (off % 512) m) s₃ held₃
                    (omega arith) (omega arith) mapped)
                  λ q (e, kept).
                    (e ∙ with_bytes-moved ip.copy v base tot off n dst at (ground arith), kept))
        (λ done. returns _ (fun_ext (λ k. ground arith), (refl, held)))

  -- `readi` over any blocks that can be read.
  pub readi-reads :
      (dst : ℕ → ℕ) (off n : ℕ) (s : S)
      → st.Idle s
      → ip.copy.type ≢ t_dev
      → off ≤ ip.copy.size
      → off + n < 2 ^ 32
      → ((o : ℕ) → o < ip.copy.size → IsMapped limit ip.copy v (o / 512))
      → Returns
          (λ q.
            (q.0 ≡ (some (clipped ip off n), with_bytes ip.copy v off 0 (clipped ip off n) dst))
            × ((q.1.0 ≡ ip) × st.Idle q.1.1))
          (readi cs ip dst off n s)
  unfolding readi read_file
  readi-reads dst off n s held file le no_wrap mapped =
      Returns-if (ip.copy.type == t_dev) _ _ (λ y. absurd (file (ground arith)))
        (λ other.
          Returns-if (ltb ip.copy.size off || ltb ((off + n) % 2 ^ 32) off) _ _
            (λ y. absurd (ground arith))
            (λ fine.
              Returns-kept _
                (read_from_lem (clipped ip off n) 0 off off (clipped ip off n) dst s held
                  (omega arith) (omega arith) (λ o lt. mapped o (ground arith)))
                λ s₁ held₁. returns _ (refl, (refl, held₁))))
