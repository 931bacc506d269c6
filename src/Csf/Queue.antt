-- ===== src/Csf/Queue.antt =====
-- A queue that cannot be bound is not left registered, and a bound one is given back whole.
use pan_vk_kbase.Prelude.{ℕ, ◌+◌, ◌≡◌, Option, none, some, arith}
use pan_vk_kbase.Kernel.{Kernel, Log}
use pan_vk_kbase.Kernel.Ledger.{Kind, held, one, queue, mapping, group, heap}
use pan_vk_kbase.Device.{Device}
use pan_vk_kbase.Csf.{
  queue_bind, queue_term, group_create, group_destroy, tiler_heap_create, tiler_heap_destroy,
}

-- what a bound queue takes
abbrev pub bound : (ringbuf_va : ℕ) → Option ℕ → Kind → ℕ → ℕ
bound va none κ x = 0
bound va (some p) κ x = one queue va κ x + one mapping p κ x

-- Binding a queue holds its registration and its USER_IO mapping; if it fails, neither.
held-queue_bind :
    (g csi va size : ℕ) (k : Kernel) (l : Log) (κ : Kind) (x : ℕ)
    → held (queue_bind g csi va size k l).1 κ x
      ≡ held l κ x + bound va (queue_bind g csi va size k l).0 κ x
unfolding queue_bind
held-queue_bind g csi va size k l κ x = ground arith

-- A queue that was bound and then terminated leaves nothing behind, and so does a failed binding
-- with no termination.
queue_term-queue_bind :
    (g csi va size : ℕ) (k : Kernel) (l : Log) (κ : Kind) (x : ℕ)
    → let (user_io, l') = queue_bind g csi va size k l in
      held (elim user_io [ none ↦ l' | some p ↦ (queue_term va (some p) k l').1 ]) κ x ≡ held l κ x
unfolding queue_term
queue_term-queue_bind g csi va size k l κ x = ground (arith, held-queue_bind g csi va size k l κ x)

-- A queue group is held once it is made, by either layout, and not otherwise; destroying it gives
-- it back.
group_destroy-group_create :
    (d : Device) (n : ℕ) (k : Kernel) (l : Log) (κ : Kind) (x : ℕ)
    → let (g, l') = group_create d n k l in
      (held l' κ x ≡ held l κ x + (elim g [ none ↦ 0 | some h ↦ one group h κ x ]))
      × (held (elim g [ none ↦ l' | some h ↦ (group_destroy h k l').1 ]) κ x ≡ held l κ x)
unfolding group_create group_destroy
group_destroy-group_create d n k l κ x = ground arith

-- A tiler heap is held once it is made, and not otherwise; destroying it gives it back.
tiler_heap_destroy-tiler_heap_create :
    (chunk initial most flight mem : ℕ) (k : Kernel) (l : Log) (κ : Kind) (x : ℕ)
    → let (h, l') = tiler_heap_create chunk initial most flight mem k l in
      (held l' κ x ≡ held l κ x + (elim h [ none ↦ 0 | some (c, first) ↦ one heap c κ x ]))
      × (held (elim h [ none ↦ l' | some (c, first) ↦ (tiler_heap_destroy c k l').1 ]) κ x
          ≡ held l κ x)
unfolding tiler_heap_create tiler_heap_destroy
tiler_heap_destroy-tiler_heap_create chunk initial most flight mem k l κ x = ground arith
