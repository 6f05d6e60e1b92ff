-- ===== src/Sysfile/Books.antt =====
-- Books of what a system call takes and gives back, kept beside the state of any services. Nothing is assumed of the
-- services: the books follow from the calls and their values alone. A call out of place is a fault: a lock or a
-- reference given back that is not held, a lock of an inode without a reference to it, contents, entries or fields of
-- an inode that is not locked, a change outside a transaction, a transaction inside another.
use model_lib.Base.{
  ℕ, ◌+◌, ◌-◌, ◌≡◌, refl, ◌∙◌, Bool, true, false, not, ◌||◌, Option, none, some, List, ◌∷◌, ◌==◌,
  arith,
}
use model_lib.Base.Outcome.{Outcome, ok, ◌>>=◌, yields, Yields-then}
use model_lib.Base.Family.{update, count}
use model_lib.File.Services.{FileServices}
use model_lib.File.Holders.{held}
use model_lib.Sysfile.Services.{PathServices}
use model_lib.Sysfile.Ledger.{Ledger, with_ref, first, found}

pub record Books : Type 0 where
  pub opened : Bool
  pub locks : ℕ → ℕ
  pub refs : ℕ → ℕ
  pub written : Option ℕ
  pub fault : Bool

-- Nothing is held.
abbrev pub clean : Books
clean = record { opened = false; locks = λ i. 0; refs = λ i. 0; written = none; fault = false }

abbrev pub fault_if : Bool → Books → Books
fault_if x b = record b { fault = b.fault || x }

abbrev pub begin : Books → Books
begin b = fault_if b.opened (record b { opened = true })

abbrev pub commit : Books → Books
commit b = fault_if (not b.opened) (record b { opened = false })

abbrev pub take_lock : ℕ → Books → Books
take_lock ip b = fault_if (b.refs ip == 0) (record b { locks = update b.locks ip (b.locks ip + 1) })

abbrev pub give_lock : ℕ → Books → Books
give_lock ip b =
    fault_if (b.locks ip == 0) (record b { locks = update b.locks ip (b.locks ip - 1) })

abbrev pub take_ref : Option ℕ → Books → Books
take_ref none b = b
take_ref (some ip) b = record b { refs = update b.refs ip (b.refs ip + 1) }

abbrev pub give_ref : ℕ → Books → Books
give_ref ip b = fault_if (b.refs ip == 0) (record b { refs = update b.refs ip (b.refs ip - 1) })

-- Use of a locked inode, and a change.
abbrev pub use_inode : ℕ → Books → Books
use_inode ip b = fault_if (b.locks ip == 0) b

abbrev pub change : ℕ → Books → Books
change ip b = fault_if (not b.opened) (use_inode ip b)

abbrev pub write : ℕ → Books → Books
write ip b = change ip (record b { written = some ip })

module _ {S : Type 0} where
  abbrev pub booked : (S → Outcome S) → (Books → Books) → S × Books → Outcome (S × Books)
  booked f g (s, b) = do s' ← f s; ok (s', g b)

  abbrev pub booked_value :
      {A : Type 0}
      → (S → Outcome (A × S))
      → (A → Books → Books)
      → S × Books
      → Outcome (A × (S × Books))
  booked_value f g (s, b) = do (a, s') ← f s; ok (a, (s', g a b))

  abbrev pub files_booked : FileServices S → FileServices (S × Books)
  files_booked os = record {
    piperead = λ pipe addr n. booked_value (os.piperead pipe addr n) (λ r b. b);
    pipewrite = λ pipe addr n. booked_value (os.pipewrite pipe addr n) (λ r b. b);
    pipeclose = λ pipe writable. booked (os.pipeclose pipe writable) (λ b. b);
    begin_trans = booked os.begin_trans begin;
    commit_trans = booked os.commit_trans commit;
    ilock = λ ip. booked (os.ilock ip) (take_lock ip);
    iunlock = λ ip. booked (os.iunlock ip) (give_lock ip);
    iput = λ ip. booked (os.iput ip) (give_ref ip);
    stati = λ ip st. booked (os.stati ip st) (use_inode ip);
    readi = λ ip addr off n. booked_value (os.readi ip addr off n) (λ r. use_inode ip);
    writei = λ ip addr off n. booked_value (os.writei ip addr off n) (λ r. write ip);
  }

  abbrev pub paths_booked : PathServices S → PathServices (S × Books)
  paths_booked ps = record {
    namei = λ path. booked_value (ps.namei path) take_ref;
    nameiparent = λ path. booked_value (ps.nameiparent path) (λ o. take_ref (first o));
    filereadlink = λ path n. booked_value (ps.filereadlink path n) (λ r b. b);
    filereadlinki = λ path n. booked_value (ps.filereadlinki path n) (λ r b. b);
    inode = λ ip (s, b). ps.inode ip s;
    set_copy = λ ip d (s, b). (ps.set_copy ip d s, use_inode ip b);
    iupdate = λ ip. booked (ps.iupdate ip) (change ip);
    ialloc = λ dev type.
        booked_value (ps.ialloc dev type) (λ o b. fault_if (not b.opened) (take_ref o b));
    dirlookup =
        λ dp name. booked_value (ps.dirlookup dp name) (λ o b. take_ref (found o) (use_inode dp b));
    dirlink = λ dp name inum. booked_value (ps.dirlink dp name inum) (λ r. change dp);
    read_bytes = λ ip off n. booked_value (ps.read_bytes ip off n) (λ r. use_inode ip);
    write_bytes = λ ip src off n. booked_value (ps.write_bytes ip src off n) (λ r. write ip);
    is_inode_unlocked = λ inum (s, b). ps.is_inode_unlocked inum s;
  }

-- The books say that exactly this is held, and no fault.
pub record Says (opened : Bool) (locks refs : List ℕ) (b : Books) : Type 0 where
  pub opened_at : b.opened ≡ opened
  pub locks_at : (i : ℕ) → b.locks i ≡ held locks i
  pub refs_at : (i : ℕ) → b.refs i ≡ held refs i
  pub no_fault : b.fault ≡ false

pub held-swap : (a b i : ℕ) (xs : List ℕ) → held (a ∷ b ∷ xs) i ≡ held (b ∷ a ∷ xs) i
unfolding count
held-swap a b i xs = omega arith

-- One of `x` more, and one less.
more :
    (f : ℕ → ℕ) (xs : List ℕ) (x : ℕ)
    → ((i : ℕ) → f i ≡ held xs i)
    → (i : ℕ) → update f x (f x + 1) i ≡ held (x ∷ xs) i
unfolding count
more f xs x e i = ground (arith, e i)

fewer :
    (f : ℕ → ℕ) (xs : List ℕ) (x : ℕ)
    → ((i : ℕ) → f i ≡ held (x ∷ xs) i)
    → (i : ℕ) → update f x (f x - 1) i ≡ held xs i
unfolding count
fewer f xs x e i = ground (arith, e i)

held_first :
    (f : ℕ → ℕ) (xs : List ℕ) (x : ℕ) → ((i : ℕ) → f i ≡ held (x ∷ xs) i) → (f x == 0) ≡ false
unfolding count
held_first f xs x e = ground (arith, e x)

no_new : (a b : Bool) → a ≡ false → b ≡ false → (a || b) ≡ false
no_new a b e e' = cc (e, e')

module _ {opened : Bool} {locks refs : List ℕ} {b : Books} where
  pub use_inode-Says :
      (ip : ℕ) → Says opened (ip ∷ locks) refs b → Says opened (ip ∷ locks) refs (use_inode ip b)
  use_inode-Says ip h = record {
    opened_at = h.opened_at;
    locks_at = h.locks_at;
    refs_at = h.refs_at;
    no_fault = no_new _ _ h.no_fault (held_first b.locks locks ip h.locks_at);
  }

  pub take_ref-Says :
      (o : Option ℕ) → Says opened locks refs b → Says opened locks (with_ref o refs) (take_ref o b)
  take_ref-Says none h = h
  take_ref-Says (some ip) h = record {
    opened_at = h.opened_at;
    locks_at = h.locks_at;
    refs_at = more b.refs refs ip h.refs_at;
    no_fault = h.no_fault;
  }

  pub take_lock-Says :
      (ip : ℕ)
      → Says opened locks (ip ∷ refs) b
      → Says opened (ip ∷ locks) (ip ∷ refs) (take_lock ip b)
  take_lock-Says ip h = record {
    opened_at = h.opened_at;
    locks_at = more b.locks locks ip h.locks_at;
    refs_at = h.refs_at;
    no_fault = no_new _ _ h.no_fault (held_first b.refs refs ip h.refs_at);
  }

  pub give_lock-Says :
      (ip : ℕ) → Says opened (ip ∷ locks) refs b → Says opened locks refs (give_lock ip b)
  give_lock-Says ip h = record {
    opened_at = h.opened_at;
    locks_at = fewer b.locks locks ip h.locks_at;
    refs_at = h.refs_at;
    no_fault = no_new _ _ h.no_fault (held_first b.locks locks ip h.locks_at);
  }

  pub give_ref-Says :
      (ip : ℕ) → Says opened locks (ip ∷ refs) b → Says opened locks refs (give_ref ip b)
  give_ref-Says ip h = record {
    opened_at = h.opened_at;
    locks_at = h.locks_at;
    refs_at = fewer b.refs refs ip h.refs_at;
    no_fault = no_new _ _ h.no_fault (held_first b.refs refs ip h.refs_at);
  }

module _ {locks refs : List ℕ} {b : Books} where
  pub begin-Says : Says false locks refs b → Says true locks refs (begin b)
  begin-Says h = record {
    opened_at = refl;
    locks_at = h.locks_at;
    refs_at = h.refs_at;
    no_fault = no_new _ _ h.no_fault h.opened_at;
  }

  pub commit-Says : Says true locks refs b → Says false locks refs (commit b)
  commit-Says h = record {
    opened_at = refl;
    locks_at = h.locks_at;
    refs_at = h.refs_at;
    no_fault = cc (h.no_fault, h.opened_at);
  }

  pub change-Says :
      (ip : ℕ) → Says true (ip ∷ locks) refs b → Says true (ip ∷ locks) refs (change ip b)
  change-Says ip h =
      let u = use_inode-Says ip h in
      record {
        opened_at = h.opened_at;
        locks_at = h.locks_at;
        refs_at = h.refs_at;
        no_fault = cc (u.no_fault, h.opened_at);
      }

  pub write-Says :
      (ip : ℕ) → Says true (ip ∷ locks) refs b → Says true (ip ∷ locks) refs (write ip b)
  write-Says ip h =
      let u = use_inode-Says ip h in
      record {
        opened_at = h.opened_at;
        locks_at = h.locks_at;
        refs_at = h.refs_at;
        no_fault = cc (u.no_fault, h.opened_at);
      }

  pub allocate-Says :
      (o : Option ℕ)
      → Says true locks refs b
      → Says true locks (with_ref o refs) (fault_if (not b.opened) (take_ref o b))
  allocate-Says o h =
      let t = take_ref-Says o h in
      record {
        opened_at = t.opened_at;
        locks_at = t.locks_at;
        refs_at = t.refs_at;
        no_fault = cc (t.no_fault, h.opened_at);
      }

-- The laws hold for the books.
module _ {S : Type 0} (os : FileServices S) (ps : PathServices S) where
  abbrev pub ledger : Ledger (files_booked os) (paths_booked ps)
  ledger = record {
    Holds = λ opened locks refs (s, b). Says opened locks refs b;
    Wrote = λ ip (s, b). b.written ≡ some ip;
    swap_locks = λ {opened} {a} {b = c} {locks} h. record {
      opened_at = h.opened_at;
      locks_at = λ i. h.locks_at i ∙ held-swap a c i locks;
      refs_at = h.refs_at;
      no_fault = h.no_fault;
    };
    swap_refs = λ {opened} {a} {b = c} {locks} {refs} h. record {
      opened_at = h.opened_at;
      locks_at = h.locks_at;
      refs_at = λ i. h.refs_at i ∙ held-swap a c i refs;
      no_fault = h.no_fault;
    };
    begins =
        λ {locks} {refs} {s} h. Yields-then (os.begin_trans s.0) _ λ s'. yields _ (begin-Says h);
    commits =
        λ {locks} {refs} {s} h. Yields-then (os.commit_trans s.0) _ λ s'. yields _ (commit-Says h);
    takes_lock = λ {opened} {ip} {locks} {refs} {s} h.
        Yields-then (os.ilock ip s.0) _ λ s'. yields _ (take_lock-Says ip h);
    gives_lock = λ {opened} {ip} {locks} {refs} {s} h.
        Yields-then (os.iunlock ip s.0) _ λ s'. yields _ (give_lock-Says ip h);
    puts = λ {opened} {ip} {locks} {refs} {s} h.
        Yields-then (os.iput ip s.0) _ λ s'. yields _ (give_ref-Says ip h);
    sets = λ {opened} {ip} d h. use_inode-Says ip h;
    updates = λ {ip} {locks} {refs} {s} h.
        Yields-then (ps.iupdate ip s.0) _ λ s'. yields _ (change-Says ip h);
    names = λ {opened} {locks} {refs} {s} path h.
        Yields-then (ps.namei path s.0) _ λ (o, s'). yields _ (take_ref-Says o h);
    names_parent = λ {opened} {locks} {refs} {s} path h.
        Yields-then (ps.nameiparent path s.0) _ λ (o, s'). yields _ (take_ref-Says (first o) h);
    allocates = λ {locks} {refs} {s} dev type h.
        Yields-then (ps.ialloc dev type s.0) _ λ (o, s'). yields _ (allocate-Says o h);
    looks_up = λ {opened} {dp} {locks} {refs} {s} name h.
        Yields-then (ps.dirlookup dp name s.0) _
          λ (o, s'). yields _ (take_ref-Says (found o) (use_inode-Says dp h));
    links = λ {dp} {locks} {refs} {s} name inum h.
        Yields-then (ps.dirlink dp name inum s.0) _ λ (r, s'). yields _ (change-Says dp h);
    reads = λ {opened} {ip} {locks} {refs} {s} off n h.
        Yields-then (ps.read_bytes ip off n s.0) _ λ (r, s'). yields _ (use_inode-Says ip h);
    writes = λ {ip} {locks} {refs} {s} src off n h.
        Yields-then (ps.write_bytes ip src off n s.0) _ λ (r, s'). yields _ (write-Says ip h, refl);
    unlocks_after = λ {opened} {ip} {w} {locks} {refs} {s} h e.
        Yields-then (os.iunlock ip s.0) _ λ s'. yields _ (give_lock-Says ip h, e);
    commits_after = λ {w} {locks} {refs} {s} h e.
        Yields-then (os.commit_trans s.0) _ λ s'. yields _ (commit-Says h, e);
  }
