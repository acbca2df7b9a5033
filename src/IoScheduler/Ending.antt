-- ===== src/IoScheduler/Ending.antt =====
-- The end of a write's task: `task_put` on its last reference, with the callback for the collector's task
-- that waits for it.
use lbz.Prelude.{
  ℕ, ◌≡◌, ◌≢◌, ◌⊎◌, inl, inr, refl, ◌∙◌, Option, some, none, Bool, false, true, ◌==◌, ◌>>=◌,
  Bool-cases, arith,
}
use lbz.Prelude.Words.{dec32, dec64}
use lbz.Config.{Errno}
use lbz.Mapping.{invalid_pbid}
use lbz.IoScheduler.{Integrity, Task, Device, Env, modify_task}
use lbz.IoScheduler.Tasks.{drop_ref, task_destroy}
use lbz.IoScheduler.Callback.{is_none, call_pending, last_put, task_put}
use lbz.IoScheduler.Gc.{is_gc}
use lbz.IoScheduler.Quiet.{Quiet, Quiet-trans, modify_task-Quiet, Waiting, gc_task_callback-Waiting}

abbrev pub is_failed : Integrity → Bool
is_failed (Integrity.failed e) = true
is_failed _ = false

-- What waits for the task is a task of the collector, or nothing.
abbrev pub WaitedBy : Device → ℕ → Type 0
WaitedBy d i =
    ((d.tasks i).pending_gc_node ≡ none)
    ⊎ ((g : ℕ) × ((d.tasks i).pending_gc_node ≡ some g) × (g ≢ i) × Waiting d g)

-- A write's task with `n` references.
pub record Held (n : ℕ) (d : Device) (i : ℕ) : Type 0 where
  pub type_eq : is_gc (d.tasks i).type ≡ false
  pub refcount : (d.tasks i).refcount ≡ n
  pub integrity_buf : is_failed (d.tasks i).integrity_buf ≡ false
  pub waited : WaitedBy d i

Waiting-same : {d d' : Device} {g : ℕ} → Waiting d g → d'.tasks g ≡ d.tasks g → Waiting d' g
Waiting-same w e = record {
  error = ground (arith, e, w.error);
  status = ground (arith, e, w.status);
  read_zone = let (z, r) = w.read_zone in (z, ground (arith, e, r));
  refcount = ground (arith, e, w.refcount);
  integrity_buf = ground (arith, e, w.integrity_buf);
}

task_destroy-some :
    (d : Device) (i : ℕ)
    → is_failed (d.tasks i).integrity_buf ≡ false
    → task_destroy d i ≡ some (modify_task d i (λ t. record t { freed = true }))
unfolding task_destroy
task_destroy-some d i h = ground (arith, h)

-- A reference that is not the last just goes.
pub task_put_first :
    (env : Env) (d : Device) (i : ℕ)
    → (d.tasks i).refcount ≡ 2
    → task_put env d i ≡ some (drop_ref d i)
unfolding task_put drop_ref dec32
task_put_first env d i h = ground (arith, h)

pub Held-same : {n : ℕ} {d d' : Device} (i : ℕ) → Held n d i → d'.tasks ≡ d.tasks → Held n d' i
Held-same i v e = record {
  type_eq = ground (arith, e, v.type_eq);
  refcount = ground (arith, e, v.refcount);
  integrity_buf = ground (arith, e, v.integrity_buf);
  waited = elim v.waited [
    | inl h ↦ inl (ground (arith, e, h))
    | inr (g, h, n, w) ↦ inr (g, ground (arith, e, h), n, Waiting-same w (ground (arith, e)))
  ];
}

pub Held-drop_ref : (d : Device) (i : ℕ) → Held 2 d i → Held 1 (drop_ref d i) i
unfolding drop_ref dec32
Held-drop_ref d i v = record {
  type_eq = ground (arith, v.type_eq);
  refcount = ground (arith, v.refcount);
  integrity_buf = ground (arith, v.integrity_buf);
  waited = elim v.waited [
    | inl e ↦ inl (ground (arith, e))
    | inr (g, e, n, w) ↦ inr (g, ground (arith, e), n, Waiting-same w (ground (arith, n)))
  ];
}

module _ (env : Env) where
  last_put_alone :
      (d : Device) (i : ℕ) (t : Task)
      → is_gc t.type ≡ false
      → t.pending_gc_node ≡ none
      → last_put env d i t ≡ task_destroy d i
  unfolding last_put
  last_put_alone d i t h e = ground (arith, h, e)

  last_put_waited :
      (d : Device) (i g : ℕ) (t : Task)
      → is_gc t.type ≡ false
      → t.pending_gc_node ≡ some g
      → last_put env d i t ≡ (call_pending env d t g >>= λ d'. task_destroy d' i)
  unfolding last_put
  last_put_waited d i g t h e = ground (arith, h, e)

  Waiting-error :
      {d : Device} {g : ℕ} (e : Option Errno)
      → Waiting d g
      → is_none e ≡ false
      → Waiting (modify_task d g (λ u. record u { error = e })) g
  Waiting-error e w h = record {
    error = ground (arith, h);
    status = ground (arith, w.status);
    read_zone = let (z, r) = w.read_zone in (z, ground (arith, r));
    refcount = ground (arith, w.refcount);
    integrity_buf = ground (arith, w.integrity_buf);
  }

  -- The callback on the task that waits.
  call_pending-some :
      (d : Device) (t : Task) (i g : ℕ)
      → g ≢ i
      → Waiting d g
      → (d' : Device) × (call_pending env d t g ≡ some d')
        × Quiet env.zone_no d d'
        × (d'.tasks i ≡ d.tasks i)
  unfolding call_pending
  call_pending-some d t i g n w = elim (Bool-cases (is_none t.error)) [
    | inl ok ↦
        let (d₁, e, q, _, same) = gc_task_callback-Waiting env d g invalid_pbid w in
        (
          record d₁ {
            stats = record (d₁.stats) { gc_inflight_io_cnt = dec64 d₁.stats.gc_inflight_io_cnt };
          },
          rw (ok, e) refl,
          record { mapping = q.mapping; reverse = q.reverse; events = q.events; faulty = q.faulty },
          same i n,
        )
    | inr bad ↦
        let d₀ = modify_task d g (λ u. record u { error = t.error }) in
        let (d₁, e, q, _, same) =
          gc_task_callback-Waiting env d₀ g invalid_pbid (Waiting-error t.error w bad) in
        (
          record d₁ {
            stats = record (d₁.stats) { gc_inflight_io_cnt = dec64 d₁.stats.gc_inflight_io_cnt };
          },
          rw (bad, e) refl,
          record { mapping = q.mapping; reverse = q.reverse; events = q.events; faulty = q.faulty },
          same i n ∙ ground (arith, n),
        )
  ]

  task_put-last_put :
      (d : Device) (i : ℕ)
      → (d.tasks i).refcount ≡ 1
      → task_put env d i ≡ last_put env (drop_ref d i) i ((drop_ref d i).tasks i)
  unfolding task_put drop_ref dec32
  task_put-last_put d i h =
      let zero : ((drop_ref d i).tasks i).refcount == 0 ≡ true = ground (arith, h) in rw zero refl

  -- The last reference of a write's task: the task is freed, after the callback on the collector's task
  -- that waits for it, and the maps stay.
  pub task_put_last :
      (d : Device) (i : ℕ)
      → Held 1 d i
      → (d' : Device) × (task_put env d i ≡ some d')
        × Quiet env.zone_no d d'
        × ((d'.tasks i).freed ≡ true)
  unfolding drop_ref
  task_put_last d i v =
      let d₁ = drop_ref d i in
      let q₁ : Quiet env.zone_no d d₁ =
        modify_task-Quiet env.zone_no d i (λ t. record t { refcount = dec32 t.refcount }) in
      let last = task_put-last_put d i v.refcount in
      let writer : is_gc (d₁.tasks i).type ≡ false = ground (arith, v.type_eq) in
      elim v.waited [
        | inl e ↦
            let gone = task_destroy-some d₁ i (ground (arith, v.integrity_buf)) in
            let none_waits : (d₁.tasks i).pending_gc_node ≡ none = ground (arith, e) in
            (
              modify_task d₁ i (λ t. record t { freed = true }),
              last ∙ last_put_alone d₁ i (d₁.tasks i) writer none_waits ∙ gone,
              Quiet-trans env.zone_no q₁
                  (modify_task-Quiet env.zone_no d₁ i (λ t. record t { freed = true })),
              ground arith,
            )
        | inr (g, e, n, w) ↦
            let (d₂, c, q₂, same) =
              call_pending-some d₁ (d₁.tasks i) i g n (Waiting-same w (ground (arith, n))) in
            let gone = task_destroy-some d₂ i (ground (arith, same, v.integrity_buf)) in
            let waits : (d₁.tasks i).pending_gc_node ≡ some g = ground (arith, e) in
            (
              modify_task d₂ i (λ t. record t { freed = true }),
              last ∙ last_put_waited d₁ i g (d₁.tasks i) writer waits ∙ rw c gone,
              Quiet-trans env.zone_no q₁ (
                  Quiet-trans env.zone_no q₂
                    (modify_task-Quiet env.zone_no d₂ i (λ t. record t { freed = true }))),
              ground arith,
            )
      ]
