-- ===== src/Kernel/Sample.antt =====
-- A kernel to run the definitions on: every call succeeds, and a new resource has a name above all
-- names that it gave before.
use pan_vk_kbase.Prelude.{ℕ, zero, ◌+◌, ◌<◌, ◌≡◌, arith, max, true, some, List, [], ◌∷◌}
use pan_vk_kbase.Flags.{MemFlags, no_mem_flags}
use pan_vk_kbase.Kernel
use pan_vk_kbase.Kernel.{Call, Kernel, Log, Out, ok, fail, Notification, fatal}
use pan_vk_kbase.Kernel.Ledger.{held, mapping, memory, one, weight, acquired}

-- the highest name so far
abbrev pub top : Log → ℕ
top [] = 0
top ((c, fail e) ∷ l) = top l
top ((c, ok o) ∷ l) = max o.value (top l)

abbrev pub fresh : Log → ℕ
fresh l = top l + 4096

abbrev value_of : Log → Call → ℕ
value_of l Call.read_event = 64
value_of l (Call.ppoll fd s ns) = 1
value_of l (Call.read32 a) = 0x12345678
value_of l _ = fresh l

-- GPU id 0xa8670000, then three bytes that hold no entry. The key is 1.
abbrev pub blob : List ℕ
blob = 6 ∷ 0 ∷ 0 ∷ 0 ∷ 0 ∷ 0 ∷ 0x67 ∷ 0xa8 ∷ 9 ∷ 9 ∷ 9 ∷ []

abbrev pub out_of : MemFlags → Log → Call → Out
out_of f l c = record {
  value = value_of l c;
  second = 1;
  third = 0;
  fd = some (fresh l);
  flags = f;
  bytes = blob;
  notification = Notification.gpu_queue_group_error 0 fatal;
}

abbrev pub same_va_flags : MemFlags
same_va_flags = record no_mem_flags { same_va = true }

abbrev pub sample : Kernel
sample l c = ok (out_of same_va_flags l c)

-- the same with zone regions
abbrev pub zone_sample : Kernel
zone_sample l c = ok (out_of no_mem_flags l c)

-- the same with a signal in every interruptible call
abbrev pub interrupted_sample : Kernel
interrupted_sample l Call.read_event = fail Kernel.eintr
interrupted_sample l c = sample l c

acquired_above : (c : Call) (o : Out) (x : ℕ) → o.value < x → weight (acquired c o) mapping x ≡ 0
unfolding one
acquired_above c o x h = ground arith

-- a name above all others is no mapping
pub held-mapping_above : (l : Log) (x : ℕ) → top l < x → held l mapping x ≡ zero
unfolding one
held-mapping_above [] x h = omega arith
held-mapping_above ((c, fail e) ∷ l) x h = ground (arith, held-mapping_above l x)
held-mapping_above ((c, ok o) ∷ l) x h =
    omega (arith, acquired_above c o x (omega arith), held-mapping_above l x (omega arith))

acquired_memory_above :
    (c : Call) (o : Out) (x : ℕ) → o.value < x → weight (acquired c o) memory x ≡ 0
unfolding one
acquired_memory_above c o x h = ground arith

-- and no object of the memory allocator
pub held-memory_above : (l : Log) (x : ℕ) → top l < x → held l memory x ≡ zero
unfolding one
held-memory_above [] x h = omega arith
held-memory_above ((c, fail e) ∷ l) x h = ground (arith, held-memory_above l x)
held-memory_above ((c, ok o) ∷ l) x h =
    omega (arith, acquired_memory_above c o x (omega arith), held-memory_above l x (omega arith))
