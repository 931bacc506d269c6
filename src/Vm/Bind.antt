-- ===== src/Vm/Bind.antt =====
-- What a binding that succeeds has done, and what one that fails says.
use pan_vk_kbase.Prelude.{
  ℕ, ◌+◌, ◌-◌, ◌%◌, ◌^◌, ◌≤◌, ◌<◌, ◌≡◌, ◌≢◌, refl, ◌⊎◌, inl, inr, true, List, [], ◌∷◌, arith, ◌==◌,
  ltb, Bool-cases, map, ap, ◌↔◌, max, ◌∙◌,
}
use native.Mathlib.Nat.{pow-le-pow_right}
use pan_vk_kbase.Kernel.{Kernel, Log}
use pan_vk_kbase.Device.{Device}
use pan_vk_kbase.Vm.{
  Op, map_bo, unmap, sync_only, Mode, immediate, async, defer_to_next_idle_point, auto_va, map_va,
  bind_loop, vm_bind, query_user_va_range, user_va_end, va_reserve, BoSync, sync_call,
  flush_bo_map_syncs,
}

-- the operation with the kernel's address in it
abbrev pub resolved : Op → Op
resolved (map_bo b offset va) = map_bo b offset (map_va b offset)
resolved (unmap va size) = unmap va size
resolved sync_only = sync_only

-- whether the caller left the address open, or named the one that the kernel gave
abbrev pub IsMappable : Op → Type 0
IsMappable (map_bo b offset va) = (va ≡ auto_va) ⊎ (va ≡ map_va b offset)
IsMappable (unmap va size) = Unit
IsMappable sync_only = Unit

abbrev pub AllMappable : List Op → Type 0
AllMappable [] = Unit
AllMappable (op ∷ ops) = IsMappable op × AllMappable ops

bind_loop-resolved : (ops : List Op) → AllMappable ops → bind_loop ops ≡ (true, map resolved ops)
unfolding bind_loop
bind_loop-resolved [] a = refl
bind_loop-resolved (map_bo b offset va ∷ ops) a = ground (arith, bind_loop-resolved ops a.1)
bind_loop-resolved (unmap va size ∷ ops) a = ground (arith, bind_loop-resolved ops a.1)
bind_loop-resolved (sync_only ∷ ops) a = ground (arith, bind_loop-resolved ops a.1)

bind_loop-AllMappable : (ops : List Op) → (bind_loop ops).0 ≡ true → AllMappable ops
unfolding bind_loop
bind_loop-AllMappable [] h = tt
bind_loop-AllMappable (map_bo b offset va ∷ ops) h = ground (arith, bind_loop-AllMappable ops)
bind_loop-AllMappable (unmap va size ∷ ops) h = (tt, bind_loop-AllMappable ops h)
bind_loop-AllMappable (sync_only ∷ ops) h = (tt, bind_loop-AllMappable ops h)

-- A binding that is not asynchronous succeeds exactly when each mapping leaves its address open or
-- names the one that the kernel gave.
pub vm_bind-AllMappable :
    (mode : Mode) (ops : List Op) → mode ≢ async → ((vm_bind mode ops).0 ≡ true) ↔ AllMappable ops
unfolding vm_bind
vm_bind-AllMappable immediate ops h =
    (bind_loop-AllMappable ops, λ a. ap (λ r. r.0) (bind_loop-resolved ops a))
vm_bind-AllMappable async ops h = absurd (h refl)
vm_bind-AllMappable defer_to_next_idle_point ops h =
    (bind_loop-AllMappable ops, λ a. ap (λ r. r.0) (bind_loop-resolved ops a))

vm_bind-bind_loop :
    (mode : Mode) (ops : List Op) → (vm_bind mode ops).0 ≡ true → vm_bind mode ops ≡ bind_loop ops
unfolding vm_bind
vm_bind-bind_loop immediate ops h = refl
vm_bind-bind_loop async ops h = cc
vm_bind-bind_loop defer_to_next_idle_point ops h = refl

resolved_twice : (ops : List Op) → map resolved (map resolved ops) ≡ map resolved ops
resolved_twice [] = refl
resolved_twice (map_bo b offset va ∷ ops) =
    ap (λ t. map_bo b offset (map_va b offset) ∷ t) (resolved_twice ops)
resolved_twice (unmap va size ∷ ops) = ap (λ t. unmap va size ∷ t) (resolved_twice ops)
resolved_twice (sync_only ∷ ops) = ap (λ t. sync_only ∷ t) (resolved_twice ops)

AllMappable-resolved : (ops : List Op) → AllMappable (map resolved ops)
AllMappable-resolved [] = tt
AllMappable-resolved (map_bo b offset va ∷ ops) = (inr refl, AllMappable-resolved ops)
AllMappable-resolved (unmap va size ∷ ops) = (tt, AllMappable-resolved ops)
AllMappable-resolved (sync_only ∷ ops) = (tt, AllMappable-resolved ops)

vm_bind-resolved :
    (mode : Mode) (ops : List Op)
    → mode ≢ async
    → AllMappable ops
    → vm_bind mode ops ≡ (true, map resolved ops)
unfolding vm_bind
vm_bind-resolved immediate ops h a = bind_loop-resolved ops a
vm_bind-resolved async ops h a = absurd (h refl)
vm_bind-resolved defer_to_next_idle_point ops h a = bind_loop-resolved ops a

ne_async_of_true : (mode : Mode) (ops : List Op) → (vm_bind mode ops).0 ≡ true → mode ≢ async
unfolding vm_bind
ne_async_of_true immediate ops h = cc
ne_async_of_true async ops h = cc
ne_async_of_true defer_to_next_idle_point ops h = cc

-- After a binding that succeeds every mapping names the kernel's address, and binding the updated
-- operations once more succeeds and changes nothing.
vm_bind_stable :
    (mode : Mode) (ops : List Op)
    → (vm_bind mode ops).0 ≡ true
    → (vm_bind mode ops ≡ (true, map resolved ops))
      × (vm_bind mode (map resolved ops) ≡ (true, map resolved ops))
vm_bind_stable mode ops h =
    let ne = ne_async_of_true mode ops h in
    (
      vm_bind-resolved mode ops ne ((vm_bind-AllMappable mode ops ne).0 h),
      vm_bind-resolved mode (map resolved ops) ne (AllMappable-resolved ops)
          ∙ ap (λ t. (true, t)) (resolved_twice ops),
    )

pow_eq : (a b : ℕ) → a ≡ b → 2 ^ a ≡ 2 ^ b
pow_eq a b e = ap (λ n. 2 ^ n) e

user_va_end-max : (mmu : ℕ) → user_va_end mmu ≡ 2 ^ max 32 (mmu % 256 - 1)
unfolding user_va_end
user_va_end-max mmu = elim (Bool-cases (ltb (mmu % 256) 32)) [
  | inl t ↦ rw t (pow_eq 32 (max 32 (mmu % 256 - 1)) (ground arith))
  | inr t ↦ rw t (elim (Bool-cases (mmu % 256 == 32)) [
    | inl u ↦ rw u (pow_eq 32 (max 32 (mmu % 256 - 1)) (ground arith))
    | inr u ↦ rw u (pow_eq (mmu % 256 - 1) (max 32 (mmu % 256 - 1)) (ground arith))
  ])
]

-- The user's address range starts behind the reserve, is not empty, and ends at 2 ^ 32 or at half
-- of what more address bits reach.
query_user_va_range_lem :
    (d : Device)
    → let r = query_user_va_range d in
      (r.start ≡ va_reserve)
      × (r.start + r.size ≡ 2 ^ max 32 (d.props.mmu_features % 256 - 1))
      × (0 < r.size)
unfolding query_user_va_range
query_user_va_range_lem d =
    let grows : 2 ^ 32 ≤ 2 ^ max 32 (d.props.mmu_features % 256 - 1) =
      pow-le-pow_right {n = 2} (omega arith) {i = 32} {j = max 32 (d.props.mmu_features % 256 - 1)}
        (omega arith) in
    (
      refl,
      omega (arith, user_va_end-max d.props.mmu_features, grows),
      omega (arith, user_va_end-max d.props.mmu_features, grows),
    )

-- the calls of a flush that goes through
abbrev pub sync_log : Kernel → List BoSync → Log → Log
sync_log k [] l = l
sync_log k (s ∷ ss) l = sync_log k ss ((sync_call s, k l (sync_call s)) ∷ l)

-- A flush that succeeds has made one MEM_SYNC for each pending entry, in order, and no other call.
flush_bo_map_syncs-sync_log :
    (ss : List BoSync) (k : Kernel) (l : Log)
    → (flush_bo_map_syncs ss k l).0 ≡ true
    → (flush_bo_map_syncs ss k l).1 ≡ sync_log k ss l
unfolding flush_bo_map_syncs
flush_bo_map_syncs-sync_log [] k l h = refl
flush_bo_map_syncs-sync_log (s ∷ ss) k l h =
    ground (arith, flush_bo_map_syncs-sync_log ss k ((sync_call s, k l (sync_call s)) ∷ l))
