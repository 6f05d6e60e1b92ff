-- ===== src/File/Whole.antt =====
-- What `filewrite` of a file on an inode writes, in transactions of a few blocks, by the books of an inode.
use model_lib.Base.{
  ℕ, zero, suc, ◌+◌, ◌-◌, ◌^◌, ◌%◌, ◌≤◌, ◌<◌, ◌≡◌, refl, sym, ap, ◌∙◌, inl, inr, Bool, true, false,
  not, Option, none, some, ◌==◌, ltb, leb, ◌&&◌, if◌then◌else◌, Bool-cases, if-true, arith,
}
use mathlib.Core.Path.{subst, fun_ext}
use model_lib.Base.Outcome.{Outcome, ok, ◌>>=◌, Yields, yields, panics, Yields-bind, Yields-if}
use model_lib.Base.Family.{update, update_self, update_same, update-update}
use model_lib.File.{
  fd_inode, File, Ftable, max, advance, chunk, written, after_write, write_round, write_rounds,
  write_on, filewrite,
}
use model_lib.File.Services.{FileServices}

-- The bytes `v` with the first `n` of `from` at `off`.
abbrev pub spliced : (ℕ → ℕ) → ℕ → ℕ → (ℕ → ℕ) → ℕ → ℕ
spliced v off n from o = if leb off o && ltb o (off + n) then from (o - off) else v o

-- After `writei` at `off` has returned the number of bytes, or none.
abbrev pub reported : (ℕ → ℕ) → ℕ → Option ℕ → (ℕ → ℕ) → ℕ → ℕ
reported v off none from = v
reported v off (some n) from = spliced v off n from

-- What a round of `filewrite` does to the books of an inode `ip`, with the caller's bytes in `memory`; File/Shadow
-- fills it for any services. `Holds opened locked v s`: a transaction of the caller is open or not, the caller has
-- the inode locked or not, and the bytes that `writei` has reported as written make `v` of the contents.
pub record InodeStore {S : Type 0} (os : FileServices S) (ip : ℕ) (memory : ℕ → ℕ) : Type 1 where
  pub Holds : (opened locked : Bool) → (ℕ → ℕ) → S → Type 0
  pub begins :
      {v : ℕ → ℕ} {s : S} → Holds false false v s → Yields (Holds true false v) (os.begin_trans s)
  pub locks :
      {v : ℕ → ℕ} {s : S} → Holds true false v s → Yields (Holds true true v) (os.ilock ip s)
  pub writes :
      {v : ℕ → ℕ} {s : S} (addr off n : ℕ)
      → Holds true true v s
      → n ≤ max
      → Yields
          (λ r. Holds true true (reported v off r.0 (λ k. memory (addr + k))) r.1)
          (os.writei ip addr off n s)
  pub unlocks :
      {v : ℕ → ℕ} {s : S} → Holds true true v s → Yields (Holds true false v) (os.iunlock ip s)
  pub commits :
      {v : ℕ → ℕ} {s : S} → Holds true false v s → Yields (Holds false false v) (os.commit_trans s)

the_same : (o : ℕ) → o ≡ o + 0
the_same o = omega arith

-- The file `i` with the offset `o`.
abbrev pub moved : Ftable → ℕ → ℕ → Ftable
moved t i o = update t i (record (t i) { off = o })

spliced-spliced :
    (v from : ℕ → ℕ) (off d c addr : ℕ)
    → spliced (spliced v off d (λ k. from (addr + k))) (off + d) c (λ k. from (addr + d + k))
      ≡ spliced v off (d + c) (λ k. from (addr + k))
spliced-spliced v from off d c addr = fun_ext λ o. elim (Bool-cases (leb (off + d) o)) [
  | inl q ↦
      let e : addr + d + (o - (off + d)) ≡ addr + (o - off) = ground arith in
      ground (arith, ap from e)
  | inr q ↦ ground arith
]

advance-some :
    (t : Ftable) (i c : ℕ)
    → (t i).off + c < 2 ^ 32
    → advance i (some c) t ≡ moved t i ((t i).off + c)
unfolding advance
advance-some t i zero lt =
    let e : (t i).off ≡ (t i).off + 0 = omega arith in
    sym (update_same t i _ (ap (λ o. record (t i) { off = o }) e))
advance-some t i (suc c) lt =
    let e : ((t i).off + suc c) % 2 ^ 32 ≡ (t i).off + suc c = omega (arith, lt) in
    let q : ltb 0 (suc c) ≡ true = ground arith in
    subst
      (λ b.
        (if b then moved t i (((t i).off + suc c) % 2 ^ 32) else t) ≡ moved t i ((t i).off + suc c))
      (sym q) (ap (moved t i) e)

advance-moved :
    (t : Ftable) (i o c : ℕ) → o + c < 2 ^ 32 → advance i (some c) (moved t i o) ≡ moved t i (o + c)
advance-moved t i o c lt =
    let f : File = record (t i) { off = o } in
    let self : moved t i o i ≡ f = update_self t i f in
    advance-some (moved t i o) i c (subst (λ (g : File). g.off + c < 2 ^ 32) (sym self) lt)
    ∙ ap (λ (g : File). update (moved t i o) i (record g { off = g.off + c })) self
    ∙ update-update t i f (record (t i) { off = o + c })

module _ {S : Type 0} (os : FileServices S) (t : Ftable) (i addr n : ℕ) (memory v : ℕ → ℕ)
    (st : InodeStore os (t i).ip memory) (fits : (t i).off + n < 2 ^ 32) where
  -- With `d` bytes written.
  Partly : ℕ → S → Type 0
  Partly d s = st.Holds false false (spliced v (t i).off d (λ k. memory (addr + k))) s

  -- All bytes are written and no more, or only the first `d`; the offset is behind them.
  pub Ended : Option ℕ × (Ftable × S) → Type 0
  unfolding Partly
  Ended (some r, (t', s)) = (r ≡ n) × (t' ≡ moved t i ((t i).off + n)) × Partly n s
  Ended (none, (t', s)) = (d : ℕ) × (d < n) × (t' ≡ moved t i ((t i).off + d)) × Partly d s

  at_file : (d : ℕ) → moved t i ((t i).off + d) i ≡ record (t i) { off = (t i).off + d }
  at_file d = update_self t i (record (t i) { off = (t i).off + d })

  after-Ended :
      (d c : ℕ) (next : ℕ → Ftable → S → Outcome (Option ℕ × (Ftable × S))) (r : Option ℕ) (s : S)
      → d < n
      → d + c ≤ n
      → (r ≡ none → Partly d s)
      → (r ≡ some c → Yields Ended (next (d + c) (moved t i ((t i).off + (d + c))) s))
      → Yields Ended (after_write os c d next r (advance i r (moved t i ((t i).off + d))) s)
  unfolding after_write Ended advance
  after-Ended d c next none s lt le stopped rest = yields _ (d, lt, refl, stopped refl)
  after-Ended d c next (some r) s lt le stopped rest =
      let o : ℕ = (t i).off in
      Yields-if (r == c) _ _
        (λ same.
          let e : r ≡ c = ground arith in
          let there : advance i (some r) (moved t i (o + d)) ≡ moved t i (o + (d + r)) =
            advance-moved t i (o + d) r (omega (arith, le, e, fits))
            ∙ ap (moved t i) (omega arith) in
          subst (λ t'. Yields Ended (next (d + r) t' s)) (sym there)
            (subst (λ m. Yields Ended (next (d + m) (moved t i (o + (d + m))) s)) (sym e)
              (rest (ap some e))))
        (λ other. panics _)

  round-Ended :
      (d : ℕ) (next : ℕ → Ftable → S → Outcome (Option ℕ × (Ftable × S))) (s : S)
      → d < n
      → Partly d s
      → ((s' : S)
          → Partly (d + chunk n d) s'
          → Yields Ended (next (d + chunk n d) (moved t i ((t i).off + (d + chunk n d))) s'))
      → Yields Ended (write_round os i addr n d next (moved t i ((t i).off + d)) s)
  unfolding write_round Partly
  round-Ended d next s lt holds rest =
      let c = chunk n d in
      let done = spliced v (t i).off d (λ k. memory (addr + k)) in
      subst
        (λ (f : File). Yields Ended (do
          s₁ ← os.begin_trans s
          s₂ ← os.ilock f.ip s₁
          (r, s₃) ← os.writei f.ip (addr + d) f.off (chunk n d) s₂
          s₄ ← os.iunlock f.ip s₃
          s₅ ← os.commit_trans s₄
          after_write os (chunk n d) d next r (advance i r (moved t i ((t i).off + d))) s₅))
        (sym (at_file d))
        (Yields-bind _ (st.begins holds) λ s₁ h₁. Yields-bind _ (st.locks h₁) λ s₂ h₂.
          Yields-bind _ (st.writes (addr + d) ((t i).off + d) c h₂ (ground arith)) λ (r, s₃) h₃.
            Yields-bind _ (st.unlocks h₃) λ s₄ h₄. Yields-bind _ (st.commits h₄) λ s₅ h₅.
              let answered : (q : Option ℕ)
                  → r ≡ q
                  → st.Holds false false
                      (reported done ((t i).off + d) q (λ k. memory (addr + d + k))) s₅ =
                λ q e.
                  subst
                    (λ q.
                      st.Holds false false
                        (reported done ((t i).off + d) q (λ k. memory (addr + d + k))) s₅)
                    e h₅ in
              after-Ended d c next r s₅ lt (ground arith) (answered none) (λ e. rest s₅ (
                subst (λ w. st.Holds false false w s₅) (spliced-spliced v memory (t i).off d c addr)
                  (answered (some c) e))))

  done-Ended :
      (d : ℕ) (s : S)
      → d ≡ n
      → Partly d s
      → Yields Ended (ok (written n d, (moved t i ((t i).off + d), s)))
  unfolding Ended
  done-Ended d s e holds =
      subst (λ r. Yields Ended (ok (r, (moved t i ((t i).off + d), s))))
        (sym (if-true {b = d == n} _ _ (ground arith)))
        (yields _ (refl, ap (λ m. moved t i ((t i).off + m)) e, subst (λ m. Partly m s) e holds))

  rounds-Ended :
      (fuel d : ℕ) (s : S)
      → n ≤ fuel + d
      → d ≤ n
      → Partly d s
      → Yields Ended (write_rounds os fuel i addr n d (moved t i ((t i).off + d)) s)
  unfolding write_rounds
  rounds-Ended zero d s le le' holds = done-Ended d s (omega arith) holds
  rounds-Ended (suc fuel) d s le le' holds =
      Yields-if (ltb d n) _ _
        (λ more.
          round-Ended d (write_rounds os fuel i addr n) s (ground arith) holds
            λ s' holds'. rounds-Ended fuel (d + chunk n d) s' (ground arith) (ground arith) holds')
        (λ last. done-Ended d s (ground arith) holds)

  pub filewrite-Ended :
      (s : S)
      → (t i).writable ≡ true
      → (t i).type ≡ fd_inode
      → n < 2 ^ 31
      → st.Holds false false v s
      → Yields Ended (filewrite os i addr n t s)
  unfolding filewrite write_on Partly
  filewrite-Ended s w ty few_at holds =
      let o : ℕ = (t i).off in
      let stays : moved t i (o + 0) ≡ t =
        update_same t i _ (ap (λ m. record (t i) { off = m }) (the_same o)) in
      let contents : spliced v o 0 (λ k. memory (addr + k)) ≡ v = fun_ext λ x. ground arith in
      let start : Partly 0 s = subst (λ w'. st.Holds false false w' s) (sym contents) holds in
      let few : ltb n (2 ^ 31) ≡ true = ground arith in
      let rounds : Yields Ended (write_rounds os n i addr n 0 t s) =
        subst (λ t'. Yields Ended (write_rounds os n i addr n 0 t' s)) stays
          (rounds-Ended n 0 s (omega arith) (omega arith) start) in
      subst
        (λ b.
          Yields Ended (if not b then ok (none, (t, s)) else write_on os (t i).type i addr n t s))
        (sym w)
        (subst (λ k. Yields Ended (write_on os k i addr n t s)) (sym ty)
          (subst
            (λ b. Yields Ended (if b then write_rounds os n i addr n 0 t s else ok (none, (t, s))))
            (sym few) rounds))
