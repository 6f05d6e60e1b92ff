-- ===== src/File/Shadow.antt =====
-- Books of what `filewrite` has written, kept beside the state of any services. Nothing is assumed of the services: the
-- books follow from the calls and their values alone. A call out of place is a fault: a transaction inside another or
-- ended where none is open, a lock of an inode that is locked or of another one, an unlock of one that is not locked,
-- a write without a lock, outside a transaction or of more bytes than a transaction has room for.
use model_lib.Base.{ℕ, ◌+◌, ◌≡◌, refl, sym, Bool, true, false, not, ◌||◌, Option, ◌==◌, leb, arith}
use mathlib.Core.Path.{subst}
use model_lib.Base.Outcome.{Outcome, ok, ◌>>=◌, yields, Yields-then}
use model_lib.File.{max}
use model_lib.File.Services.{FileServices}
use model_lib.File.Whole.{reported, InodeStore}

-- The contents are those before the call, with the bytes that `writei` has reported as written.
pub record Shadow : Type 0 where
  pub opened : Bool
  pub locked : Bool
  pub contents : ℕ → ℕ
  pub fault : Bool

abbrev pub before : (ℕ → ℕ) → Shadow
before v = record { opened = false; locked = false; contents = v; fault = false }

abbrev pub fault_if : Bool → Shadow → Shadow
fault_if x b = record b { fault = b.fault || x }

abbrev pub is_other : ℕ → ℕ → Bool
is_other ip ip' = not (ip' == ip)

abbrev pub write : ℕ → (ℕ → ℕ) → ℕ → ℕ → ℕ → ℕ → Option ℕ → Shadow → Shadow
write ip memory ip' addr off n r b =
    fault_if (not b.opened || not b.locked || is_other ip ip' || not (leb n max))
      (record b { contents = reported b.contents off r (λ k. memory (addr + k)) })

module _ {S : Type 0} where
  abbrev pub noted : (S → Outcome S) → (Shadow → Shadow) → S × Shadow → Outcome (S × Shadow)
  noted f g (s, b) = do s' ← f s; ok (s', g b)

  abbrev pub noted_value :
      {A : Type 0}
      → (S → Outcome (A × S))
      → (A → Shadow → Shadow)
      → S × Shadow
      → Outcome (A × (S × Shadow))
  noted_value f g (s, b) = do (a, s') ← f s; ok (a, (s', g a b))

  -- The services with books for the inode `ip`.
  abbrev pub shadowed : FileServices S → ℕ → (ℕ → ℕ) → FileServices (S × Shadow)
  shadowed os ip memory = record {
    piperead = λ pipe addr n. noted_value (os.piperead pipe addr n) (λ r b. b);
    pipewrite = λ pipe addr n. noted_value (os.pipewrite pipe addr n) (λ r b. b);
    pipeclose = λ pipe writable. noted (os.pipeclose pipe writable) (λ b. b);
    begin_trans = noted os.begin_trans (λ b. fault_if b.opened (record b { opened = true }));
    commit_trans =
        noted os.commit_trans (λ b. fault_if (not b.opened) (record b { opened = false }));
    ilock = λ ip'.
        noted (os.ilock ip')
          (λ b. fault_if (b.locked || is_other ip ip') (record b { locked = true }));
    iunlock = λ ip'.
        noted (os.iunlock ip')
          (λ b. fault_if (not b.locked || is_other ip ip') (record b { locked = false }));
    iput = λ ip'. noted (os.iput ip') (λ b. b);
    stati = λ ip' st. noted (os.stati ip' st) (λ b. b);
    readi = λ ip' addr off n. noted_value (os.readi ip' addr off n) (λ r b. b);
    writei =
        λ ip' addr off n. noted_value (os.writei ip' addr off n) (write ip memory ip' addr off n);
  }

-- The books say exactly this, and no fault.
pub record Says (opened locked : Bool) (v : ℕ → ℕ) (b : Shadow) : Type 0 where
  pub opened_at : b.opened ≡ opened
  pub locked_at : b.locked ≡ locked
  pub contents_at : b.contents ≡ v
  pub no_fault : b.fault ≡ false

pub self_same : (ip : ℕ) → is_other ip ip ≡ false
self_same ip = ground arith

module _ {S : Type 0} (os : FileServices S) (ip : ℕ) (memory : ℕ → ℕ) where
  -- The laws hold for the books.
  abbrev pub books : InodeStore (shadowed os ip memory) ip memory
  books = record {
    Holds = λ opened locked v (s, b). Says opened locked v b;
    begins = λ {v} {s} h. Yields-then (os.begin_trans s.0) _ λ s'. yields _ record {
      opened_at = refl;
      locked_at = h.locked_at;
      contents_at = h.contents_at;
      no_fault = cc (h.no_fault, h.opened_at);
    };
    locks = λ {v} {s} h. Yields-then (os.ilock ip s.0) _ λ s'. yields _ record {
      opened_at = h.opened_at;
      locked_at = refl;
      contents_at = h.contents_at;
      no_fault = cc (h.no_fault, h.locked_at, self_same ip);
    };
    writes = λ {v} {s} addr off n h le. Yields-then (os.writei ip addr off n s.0) _ λ (r, s').
        let small : not (leb n max) ≡ false = ground arith in
        yields _ record {
          opened_at = h.opened_at;
          locked_at = h.locked_at;
          contents_at =
              subst
                (λ w.
                  reported w off r (λ k. memory (addr + k))
                  ≡ reported v off r (λ k. memory (addr + k)))
                (sym h.contents_at) refl;
          no_fault = cc (h.no_fault, h.opened_at, h.locked_at, self_same ip, small);
        };
    unlocks = λ {v} {s} h. Yields-then (os.iunlock ip s.0) _ λ s'. yields _ record {
      opened_at = h.opened_at;
      locked_at = refl;
      contents_at = h.contents_at;
      no_fault = cc (h.no_fault, h.locked_at, self_same ip);
    };
    commits = λ {v} {s} h. Yields-then (os.commit_trans s.0) _ λ s'. yields _ record {
      opened_at = refl;
      locked_at = h.locked_at;
      contents_at = h.contents_at;
      no_fault = cc (h.no_fault, h.opened_at);
    };
  }
