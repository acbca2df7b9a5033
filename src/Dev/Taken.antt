-- ===== src/Dev/Taken.antt =====
-- What the module has taken from the kernel and not given back: the bytes that LBZ_ALLOC_MEM and
-- LBZ_FREE_MEM count in `lbz_mem_bytes` (src/include/lbz-common.h), and how many there are of each other
-- kind of thing.
use lbz.Config.{Errno}
use lbz.Prelude.{◌⊎◌, inl, inr, ℕ, zero, suc, ◌+◌, ◌-◌, ◌%◌, ◌<◌, ◌≡◌, refl, ap, ◌∙◌, arith}
use lbz.Prelude.Words.{long_word}

-- `mem_bytes` is the 64-bit pattern of an `atomic64_t`; the other fields are plain counts.
pub record Ledger : Type 0 where
  pub mem_bytes : ℕ
  pub pages : ℕ
  pub disks : ℕ
  pub proc_entries : ℕ
  pub work_queues : ℕ
  pub timers : ℕ
  pub threads : ℕ
  pub bio_sets : ℕ
  pub phy_bdevs : ℕ

abbrev pub nothing : Ledger
nothing = record {
  mem_bytes = 0;
  pages = 0;
  disks = 0;
  proc_entries = 0;
  work_queues = 0;
  timers = 0;
  threads = 0;
  bio_sets = 0;
  phy_bdevs = 0;
}

unfoldable pub take : Ledger → Ledger → Ledger
take a l = record {
  mem_bytes = (l.mem_bytes + a.mem_bytes) % long_word;
  pages = l.pages + a.pages;
  disks = l.disks + a.disks;
  proc_entries = l.proc_entries + a.proc_entries;
  work_queues = l.work_queues + a.work_queues;
  timers = l.timers + a.timers;
  threads = l.threads + a.threads;
  bio_sets = l.bio_sets + a.bio_sets;
  phy_bdevs = l.phy_bdevs + a.phy_bdevs;
}

unfoldable pub give : Ledger → Ledger → Ledger
give a l = record {
  mem_bytes = (l.mem_bytes + (long_word - a.mem_bytes % long_word)) % long_word;
  pages = l.pages - a.pages;
  disks = l.disks - a.disks;
  proc_entries = l.proc_entries - a.proc_entries;
  work_queues = l.work_queues - a.work_queues;
  timers = l.timers - a.timers;
  threads = l.threads - a.threads;
  bio_sets = l.bio_sets - a.bio_sets;
  phy_bdevs = l.phy_bdevs - a.phy_bdevs;
}

-- What `create_singlethread_workqueue` may put in a pointer; IS_ERR is true of `err_ptr` only.
pub data Queue : Type 0 where
  queue : Queue
  null : Queue
  err_ptr : Errno → Queue

pub Queue-cases :
    (q : Queue) → (q ≡ Queue.queue) ⊎ ((q ≡ Queue.null) ⊎ (e : Errno) × (q ≡ Queue.err_ptr e))
Queue-cases Queue.queue = inl refl
Queue-cases Queue.null = inr (inl refl)
Queue-cases (Queue.err_ptr e) = inr (inr (e, refl))

-- LBZ_ALLOC_MEM and LBZ_FREE_MEM of `n` bytes.
abbrev pub bytes : ℕ → Ledger
bytes n = record nothing { mem_bytes = n }

-- The same thing taken, or given back, several times.
unfoldable pub take_times : ℕ → Ledger → Ledger → Ledger
take_times zero a l = l
take_times (suc n) a l = take_times n a (take a l)

unfoldable pub give_times : ℕ → Ledger → Ledger → Ledger
give_times zero a l = l
give_times (suc n) a l = give_times n a (give a l)

-- The atomic counter is in range.
abbrev pub InRange : Ledger → Type 0
InRange l = l.mem_bytes < long_word

pub take-InRange : (a l : Ledger) → InRange (take a l)
unfolding take
take-InRange a l = omega arith

pub give-take : (a l : Ledger) → InRange l → give a (take a l) ≡ l
unfolding take give
give-take a l h = ground arith

pub take_comm : (a b l : Ledger) → take a (take b l) ≡ take b (take a l)
unfolding take
take_comm a b l = ground arith

pub give-give : (a b l : Ledger) → give a (give b l) ≡ give (take a b) l
unfolding take give
give-give a b l = ground arith

pub take-take : (a b l : Ledger) → take a (take b l) ≡ take (take a b) l
unfolding take
take-take a b l = ground arith

pub take_times-take :
    (n : ℕ) (a b l : Ledger) → take_times n a (take b l) ≡ take b (take_times n a l)
unfolding take_times
take_times-take zero a b l = refl
take_times-take (suc n) a b l =
    ap (take_times n a) (take_comm a b l) ∙ take_times-take n a b (take a l)

pub take_times-InRange : (n : ℕ) (a l : Ledger) → InRange l → InRange (take_times n a l)
unfolding take_times
take_times-InRange zero a l h = h
take_times-InRange (suc n) a l h = take_times-InRange n a (take a l) (take-InRange a l)

pub give_times-take_times :
    (n : ℕ) (a l : Ledger) → InRange l → give_times n a (take_times n a l) ≡ l
unfolding take_times give_times
give_times-take_times zero a l h = refl
give_times-take_times (suc n) a l h =
    ap (λ k. give_times n a (give a k)) (take_times-take n a a l)
    ∙ ap (give_times n a) (give-take a (take_times n a l) (take_times-InRange n a l h))
    ∙ give_times-take_times n a l h

-- What was taken in between stays.
pub give-take_under : (a b l : Ledger) → give a (take b (take a l)) ≡ take b l
give-take_under a b l = ap (give a) (take_comm b a l) ∙ give-take a (take b l) (take-InRange b l)

pub give-take_under_two :
    (a b c l : Ledger) → give a (take b (take c (take a l))) ≡ take b (take c l)
give-take_under_two a b c l =
    ap (λ x. give a (take b x)) (take_comm c a l) ∙ give-take_under a b (take c l)
