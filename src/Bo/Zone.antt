-- ===== src/Bo/Zone.antt =====
-- An imported dma-buf that the kernel placed in a zone, that is, not as a SAME_VA region. The kernel
-- forces SAME_VA on what a 64-bit process imports, says kbase_kmod.c, so this path is a fall-back.
use pan_vk_kbase.Prelude.{ℕ, suc, ◌≡◌, ◌≢◌, ◌||◌, Bool, false, Option, some, arith}
use pan_vk_kbase.Flags.{BoFlags}
use pan_vk_kbase.Kernel.{Kernel, Log, Call, Out, ok}
use pan_vk_kbase.Kernel.Ledger.{held, one, one_self, region}
use pan_vk_kbase.Device.{Device, Bo}
use pan_vk_kbase.Dmabuf.{import_flags, import_cpu, import_region}
use pan_vk_kbase.Bo.{bo_free}
use pan_vk_kbase.Bo.Owned.{owned, held-bo_free}

region_at_cpu :
    (d : Device) (vm : Option ℕ) (f : BoFlags) (ext : Bool) (self dmabuf : ℕ) (o : Out) (gpu : ℕ)
    (k : Kernel) (l : Log) (b : Bo) (x : ℕ)
    → (import_cpu d vm f ext self dmabuf o gpu k l).0.0 ≡ some b
    → (o.flags.same_va || o.flags.need_mmap) ≡ false
    → b.gpu_va ≢ x
    → (held (import_cpu d vm f ext self dmabuf o gpu k l).1 region x ≡ held l region x)
      × (owned b region x ≡ 0)
unfolding import_cpu one
region_at_cpu d vm f ext self dmabuf o gpu k l b x e z ne = (ground arith, ground arith)

-- An imported object whose region is no SAME_VA one and is mapped at another address than its own
-- leaves that region held once more than before the import, after kbase_kmod_bo_free.
bo_free-leaves_zone_region :
    (d : Device) (vm : Option ℕ) (f : BoFlags) (ext : Bool) (self dmabuf : ℕ) (k : Kernel) (l : Log)
    (o : Out) (b : Bo)
    → k l (Call.mem_import dmabuf (import_flags f)) ≡ ok o
    → (o.flags.same_va || o.flags.need_mmap) ≡ false
    → let (made, l') = import_region d vm f ext self dmabuf k l in
      made.0 ≡ some b
      → b.gpu_va ≢ o.value
      → held (bo_free b k l').1 region o.value ≡ suc (held l region o.value)
unfolding import_region
bo_free-leaves_zone_region d vm f ext self dmabuf k l o b r z e ne =
    let l' = (import_region d vm f ext self dmabuf k l).1 in
    grind (arith, region_at_cpu, held-bo_free b k l' region o.value, one_self)
