-- ===== src/Log/Install.antt =====
-- `install_trans`: one round copies a log block to its home, and the loop copies them all.
use model_lib.Base.{ℕ, ◌+◌, ◌≤◌, ◌<◌, ◌≡◌, ◌≢◌, sym, ap, ◌∙◌, false≢true, true, false, inr, arith}
use mathlib.Core.Path.{ap₂, fun_ext}
use model_lib.Base.Outcome.{◌>>=◌, Returns, Returns-bind, Returns-mono}
use model_lib.Base.Family.{update, update_self, update_ne}
use model_lib.Bio.{Block, Cache, bwrite, brelse, set_bytes}
use model_lib.Bio.Inv.{
  IsValid, view, held, dirty, room, cost, cost-le_one, cost-clean, cost-same, Owns, Owns-held,
}
use model_lib.Bio.Bread.{bread_lem}
use model_lib.Bio.Release.{
  written, bytes_own, set_bytes_lem, set_bytes-Owns, bwrite_lem, brelse_lem,
}
use model_lib.Bio.Store.{Stored, view_clean}
use model_lib.Log.{install_one}

module _ (k : Cache) (v : IsValid k) (a t : ℕ) (ne : a ≢ t) (small_a : a < k.disk.size)
    (small_t : t < k.disk.size) (idle_a : held k a ≡ false) (idle_t : held k t ≡ false)
    (clean : dirty k a ≡ false) (space : cost k t + 1 ≤ room k) where
  -- Both buffers are held: the home is written and both are given up.
  copy_held :
      (i j : ℕ) (k₂ : Cache)
      → IsValid k₂
      → Owns k₂ i a
      → Owns k₂ j t
      → view k₂ ≡ view k
      → held k₂ ≡ update (update (held k) a true) t true
      → dirty k₂ ≡ dirty k
      → k₂.disk ≡ k.disk
      → room k ≤ room k₂ + 1 + cost k t
      → ((x s : ℕ) → Owns k x s → Owns k₂ x s)
      → Returns
          (Stored k t (view k a))
          (do k₃ ← bwrite j (set_bytes j (k₂.buf i).bytes k₂); k₄ ← brelse i k₃; brelse j k₄)
  copy_held i j k₂ v₂ own_a own_t view₂ held₂ dirty₂ disk₂ room₂ keeps₂ =
      let c : Block = (k₂.buf i).bytes in
      let c_eq : c ≡ view k a = bytes_own k₂ v₂ i a own_a ∙ ap (λ f. f a) view₂ in
      let k' : Cache = set_bytes j c k₂ in
      let set = set_bytes_lem k₂ v₂ j t own_t c in
      let own = set_bytes-Owns k₂ v₂ j t own_t c in
      let disk' : k'.disk ≡ k.disk = set.disk_eq ∙ disk₂ in
      let reads : view k' t ≡ c = ap (λ f. f t) set.view_eq ∙ update_self (view k₂) t c in
      Returns-bind _ (bwrite_lem k' set.valid j t own (omega (arith, ap (λ d. d.size) disk')))
        λ k₃ w.
          let view₃ : view k₃ ≡ update (view k) t c =
            w.0.view_eq ∙ set.view_eq ∙ ap (λ f. update f t c) view₂ in
          let disk₃ : k₃.disk ≡ written t c k.disk = w.0.disk_eq ∙ ap₂ (written t) reads disk' in
          let dirty₃ : dirty k₃ ≡ update (dirty k) t false =
            w.0.dirty_eq ∙ ap (λ f. update f t false) (set.dirty_eq ∙ dirty₂) in
          let clean_a : dirty k₃ a ≡ false =
            ap (λ f. f a) dirty₃ ∙ update_ne (dirty k) t a false ne ∙ clean in
          let own_a₃ : Owns k₃ i a = w.0.keeps i a ne (set.keeps i a ne own_a) in
          let settled_a : view k₃ a ≡ k₃.disk.blocks a =
            ap (λ f. f a) view₃
            ∙ update_ne (view k) t a c ne
            ∙ view_clean k v a idle_a clean
            ∙ sym (ap (λ d. d.blocks a) disk₃ ∙ update_ne k.disk.blocks t a c ne) in
          Returns-bind _ (brelse_lem k₃ w.0.valid i a own_a₃ (inr settled_a)) λ k₄ b.
            let own_t₄ : Owns k₄ j t = b.0.keeps j t (λ e. ne (sym e)) w.1 in
            let view₄ : view k₄ ≡ update (view k) t c = b.0.view_eq ∙ view₃ in
            let disk₄ : k₄.disk ≡ written t c k.disk = b.0.disk_eq ∙ disk₃ in
            let dirty₄ : dirty k₄ ≡ update (dirty k) t false = b.0.dirty_eq ∙ dirty₃ in
            let held₄ : held k₄ ≡ update (update (update (held k) a true) t true) a false =
              b.0.held_eq ∙ ap (λ f. update f a false) (w.0.held_eq ∙ set.held_eq ∙ held₂) in
            let clean_t : dirty k₄ t ≡ false =
              ap (λ f. f t) dirty₄ ∙ update_self (dirty k) t false in
            let settled_t : view k₄ t ≡ k₄.disk.blocks t =
              ap (λ f. f t) view₄
              ∙ update_self (view k) t c
              ∙ sym (ap (λ d. d.blocks t) disk₄ ∙ update_self k.disk.blocks t c) in
            Returns-mono (brelse_lem k₄ b.0.valid j t own_t₄ (inr settled_t)) λ k₅ e. record {
              valid = e.0.valid;
              view_eq = e.0.view_eq ∙ view₄ ∙ ap (update (view k) t) c_eq;
              held_eq = e.0.held_eq ∙ ap (λ f. update f t false) held₄ ∙ given_up;
              dirty_eq = e.0.dirty_eq ∙ dirty₄;
              disk_eq = e.0.disk_eq ∙ disk₄ ∙ ap (λ c. written t c k.disk) c_eq;
              room_gain = omega (
                arith,
                room₂,
                set.room_le,
                w.0.room_le,
                b.1,
                e.1,
                cost-clean k₃ a clean_a,
                cost-clean k₄ t clean_t,
                cost-le_one k t,
              );
              keeps = λ x s ns o.
                  let na : s ≢ a =
                    λ q. false≢true (sym idle_a ∙ ap (held k) (sym q) ∙ Owns-held k x s o) in
                  e.0.keeps x s ns
                    (b.0.keeps x s na (w.0.keeps x s ns (set.keeps x s ns (keeps₂ x s o))));
            }
    where
      given_up : update (update (update (update (held k) a true) t true) a false) t false ≡ held k
      given_up = fun_ext λ x. ground (arith, idle_a, idle_t)

  pub install_one_lem : Returns (Stored k t (view k a)) (install_one 1 a t k)
  unfolding install_one
  install_one_lem =
      Returns-bind _ (bread_lem k v a small_a idle_a (omega (arith, cost-le_one k a))) λ r rd.
        let i : ℕ = r.0 in
        let k₁ : Cache = r.1 in
        let idle₁ : held k₁ t ≡ false =
          ap (λ f. f t) rd.held_set ∙ update_ne (held k) a t true (λ e. ne (sym e)) ∙ idle_t in
        let cost₁ : cost k₁ t ≡ cost k t = cost-same k k₁ t rd.dirty_same in
        Returns-bind _
          (bread_lem k₁ rd.valid t (omega (arith, ap (λ d. d.size) rd.disk_same)) idle₁
            (omega (arith, cost₁, rd.room_less, cost-le_one k a)))
          λ q rq.
            copy_held i q.0 q.1 rq.valid (rq.keeps i a rd.owns) rq.owns
              (rq.view_same ∙ rd.view_same) (rq.held_set ∙ ap (λ f. update f t true) rd.held_set)
              (rq.dirty_same ∙ rd.dirty_same) (rq.disk_same ∙ rd.disk_same)
              (omega (arith, rq.room_less, rd.room_less, cost₁, cost-le_one k a))
              (λ x s o. rq.keeps x s (rd.keeps x s o))
