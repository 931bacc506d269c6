-- ===== src/Event/Status.antt =====
-- The status of an event, against the set of subqueues that have signalled it.
use pan_vk_kbase.Prelude.{
  ℕ, ◌<◌, ◌≡◌, refl, sym, ap, ◌∙◌, Bool, true, false, not, ◌&&◌, Option, none, some, List, [], ◌∷◌,
  ◌==◌, if◌then◌else◌, arith,
}
use pan_vk_kbase.Kernel.{Kernel, Log, Call, Reply, ok, fail}
use pan_vk_kbase.PrivBo.{PanvkDev, PrivBo, VkResult, vk_event_set, vk_event_reset}
use pan_vk_kbase.Pool.{Pool, Refs, PrivMem}
use pan_vk_kbase.Event.{
  CsSync32, Event, create_with, create_event_at, create_event, status_from, get_event_status,
  set_event, reset_event,
}

-- what happens to an event: two calls of the application, and the GPU's store of a sequence number
-- for a subqueue
pub data EventOp : Type 0 where
  set_op reset_op : EventOp
  signal_op : (subqueue seqno : ℕ) → EventOp

unfoldable pub event_step : EventOp → Event → Event
unfolding set_event reset_event
event_step set_op e = set_event e
event_step reset_op e = reset_event e
event_step (signal_op q n) e = record e {
  sync = λ i. if i == q then record (e.sync i) { seqno = n } else e.sync i;
}

unfoldable pub event_run : List EventOp → Event → Event
unfolding event_step
event_run [] e = e
event_run (o ∷ os) e = event_run os (event_step o e)

-- the same on the set of subqueues
unfoldable pub set_step : EventOp → (ℕ → Bool) → ℕ → Bool
set_step set_op f i = true
set_step reset_op f i = false
set_step (signal_op q n) f i = if i == q then not (n == 0) else f i

unfoldable pub set_run : List EventOp → (ℕ → Bool) → ℕ → Bool
unfolding set_step
set_run [] f = f
set_run (o ∷ os) f = set_run os (set_step o f)

-- an event is set when all subqueues have signalled it
unfoldable pub status_of : (ℕ → Bool) → VkResult
status_of f = if f 0 && f 1 && f 2 then vk_event_set else vk_event_reset

-- The set is what the sequence numbers say.
Refines : Event → (ℕ → Bool) → Type 0
Refines e f = (i : ℕ) → i < 3 → f i ≡ not ((e.sync i).seqno == 0)

step-Refines :
    (o : EventOp) (e : Event) (f : ℕ → Bool) → Refines e f → Refines (event_step o e) (set_step o f)
unfolding event_step set_step set_event reset_event Refines
step-Refines set_op e f h i l = ground arith
step-Refines reset_op e f h i l = ground arith
step-Refines (signal_op q n) e f h i l = ground (arith, h i l)

run-Refines :
    (os : List EventOp) (e : Event) (f : ℕ → Bool)
    → Refines e f
    → Refines (event_run os e) (set_run os f)
unfolding event_run set_run
run-Refines [] e f h = h
run-Refines (o ∷ os) e f h = run-Refines os (event_step o e) (set_step o f) (step-Refines o e f h)

status-Refines : (e : Event) (f : ℕ → Bool) → Refines e f → get_event_status e ≡ status_of f
unfolding get_event_status status_from status_of Refines
status-Refines e f h = ground (arith, h 0 (omega arith), h 1 (omega arith), h 2 (omega arith))

abbrev seqno_at : Option Event → ℕ → ℕ
seqno_at none i = 0
seqno_at (some e) i = (e.sync i).seqno

-- A new event has no sequence number but 0.
module _ (k : Kernel) (dev : PanvkDev) (atom : ℕ) (sync : ℕ → CsSync32) where
  with-seqno :
      (b : Option PrivBo) (self : ℕ) (mem : PrivMem) (l : Log) (i : ℕ)
      → i < 3
      → seqno_at (create_with b self mem sync k l).0.1 i ≡ 0
  unfolding create_with
  with-seqno none self mem l i h = refl
  with-seqno (some b) self mem l i h = ground (arith, h)

  at-seqno :
      (a : Reply) (p : Pool) (refs : Refs) (l : Log) (i : ℕ)
      → i < 3
      → seqno_at (create_event_at a dev atom p refs sync k l).0.0.1 i ≡ 0
  unfolding create_event_at
  at-seqno (fail e) p refs l i h = refl
  at-seqno (ok o) p refs l i h = with-seqno _ o.value _ _ i h

  -- After any run of SetEvent, ResetEvent and stores of the GPU to single subqueues, the status of
  -- an event that CreateEvent made is the one of the set of subqueues that have signalled it: set
  -- if that is all three.
  pub get_event_status-event_run :
      (p : Pool) (refs : Refs) (l : Log) (e : Event) (os : List EventOp)
      → (create_event dev atom p refs sync k l).0.0.1 ≡ some e
      → get_event_status (event_run os e) ≡ status_of (set_run os (λ i. false))
  unfolding create_event Refines
  get_event_status-event_run p refs l e os q =
      status-Refines (event_run os e) (set_run os (λ i. false)) (
        run-Refines os e (λ i. false)
          (λ i h.
            let z : (e.sync i).seqno ≡ 0 =
              sym (ap (λ r. seqno_at r i) q) ∙ at-seqno (k l Call.alloc) p refs _ i h in
            ground (arith, z)))
