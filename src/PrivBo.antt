-- ===== src/PrivBo.antt =====
-- The driver's own buffers: mesa_src/mesa_vulkan/panvk_priv_bo.c over the kbase backend of
-- pan_kmod.c, whose binding returns 0 in every case, so that the label err_return_va is not
-- reached. Reports to the application and to the command decoder, and log messages, are left out.
-- An assertion is no code: a release build has none.
pub mod Lifetime
pub mod Outcome
pub mod Tests
use pan_vk_kbase.Prelude.{
  ℕ, ◌+◌, ◌-◌, ◌%◌, ◌^◌, Bool, true, false, not, ◌&&◌, Option, none, some, List, [], ◌∷◌, leb, ◌==◌,
}
use pan_vk_kbase.Flags.{BoFlags}
use pan_vk_kbase.Kernel
use pan_vk_kbase.Kernel.{Call, Reply, ok, fail, M, call, own_call, pure, ◌>>=◌, ◌>>◌}
use pan_vk_kbase.Device.{munmap_opt}
use pan_vk_kbase.Pan.{PanBo, bo_put, kbase_bo_get_mmap_offset}
use pan_vk_kbase.Pan.Space.{pan_bo_alloc, PanVm, VmOp, op_map, op_unmap, pan_auto_va, pan_vm_bind}

-- struct panvk_device, the parts that are read here: its address space, the heap of its private
-- addresses, and pan_choose_gpu_va_alignment(), which is not in the repository
pub record PanvkDev : Type 0 where
  pub vm : PanVm
  pub priv_heap : ℕ
  pub choose_alignment : (size : ℕ) → ℕ

-- struct panvk_priv_bo
pub record PrivBo : Type 0 where
  pub self : ℕ
  pub refcnt : ℕ
  pub bo : PanBo
  pub dev_addr : ℕ
  pub host : Option ℕ

pub data VkResult : Type 0 where
  vk_success vk_error_out_of_host_memory vk_error_out_of_device_memory : VkResult
  vk_error_invalid_external_handle vk_error_memory_map_failed : VkResult
  vk_error_out_of_pool_memory vk_error_fragmented_pool : VkResult
  vk_error_device_lost vk_not_ready vk_event_set vk_event_reset : VkResult

-- pan_kmod_bo_mmap: `none` is MAP_FAILED. An offset is signed.
unfoldable pub bo_mmap : PanBo → M (Option ℕ)
unfolding kbase_bo_get_mmap_offset
bo_mmap b = elim b.flags.no_mmap [
  | true ↦ pure none
  | false ↦ elim (leb (2 ^ 63) (kbase_bo_get_mmap_offset b)) [
    | true ↦ pure none
    | false ↦ do
      m ← call (Call.mmap b.size Kernel.rd_wr (Kernel.at (kbase_bo_get_mmap_offset b)))
      elim m [ fail e ↦ pure none | ok p ↦ pure (some p.value) ]
  ]
]

-- 0x12345678
abbrev pub test_word : ℕ
test_word = 0x12345678

-- The zeroing, then the test of the mapping: whether the word is read back.
unfoldable pub cpu_test : (host size : ℕ) → M Bool
cpu_test host size = do
  own_call (Call.memset0 host size)
  own_call (Call.write32 host test_word)
  r ← call (Call.read32 host)
  elim r [ fail e ↦ pure false | ok o ↦ pure (o.value == test_word) ]

-- The start of the mapping. Without AUTO_VA the statement ends behind the message, whose number of
-- characters becomes the address; the address that panvk_as_alloc gives is dropped.
unfoldable pub priv_va : PanvkDev → (size : ℕ) → M ℕ
priv_va dev size = elim dev.vm.auto_va [
  | true ↦ pure pan_auto_va
  | false ↦ do
    n ← call Call.fprintf
    call (Call.vma_alloc dev.priv_heap size (dev.choose_alignment size))
    elim n [ fail e ↦ pure (2 ^ 64 - 1) | ok o ↦ pure o.value ]
]

-- the address of the one operation
abbrev pub first_start : List VmOp → ℕ
first_start [] = 0
first_start (op ∷ ops) = op.start

-- err_free_priv_bo
abbrev pub free_priv_bo : (self : ℕ) → VkResult → M (VkResult × Option PrivBo)
free_priv_bo self r = call (Call.free self) >> pure (r, none)

-- err_put_bo
abbrev pub put_bo : (self : ℕ) → PanBo → VkResult → M (VkResult × Option PrivBo)
unfolding bo_put
put_bo self b r = bo_put b >> free_priv_bo self r

-- The mapping in the address space. The object was zeroed when it was allocated, and nothing sets
-- its reference count.
unfoldable pub create_tested :
    PanvkDev → (self : ℕ) → PanBo → (host : ℕ) → M (VkResult × Option PrivBo)
unfolding priv_va pan_vm_bind
create_tested dev self b host = do
  start ← priv_va dev b.size
  elim (not dev.vm.auto_va && (start == 0)) [
    | true ↦ call (Call.munmap host b.size) >> put_bo self b vk_error_out_of_device_memory
    | false ↦ do
      ops ← pan_vm_bind dev.vm (record { type = op_map; start = start; size = b.size } ∷ [])
      pure (
        vk_success,
        some (record {
          self = self;
          refcnt = 0;
          bo = b;
          dev_addr = first_start ops;
          host = some host;
        }),
      )
  ]

-- by whether the test of the mapping passed
unfoldable pub create_passed :
    (passed : Bool) → PanvkDev → (self : ℕ) → PanBo → (host : ℕ) → M (VkResult × Option PrivBo)
unfolding create_tested
create_passed true dev self b host = create_tested dev self b host
create_passed false dev self b host = put_bo self b vk_error_out_of_host_memory

-- by whether the mapping is at NULL
unfoldable pub create_unless_null :
    (is_null : Bool) → PanvkDev → (self : ℕ) → PanBo → (host : ℕ) → M (VkResult × Option PrivBo)
unfolding cpu_test create_passed
create_unless_null true dev self b host = put_bo self b vk_error_out_of_host_memory
create_unless_null false dev self b host = do
  passed ← cpu_test host b.size
  create_passed passed dev self b host

-- the checks of the CPU mapping
unfoldable pub create_mapped :
    PanvkDev → (self : ℕ) → PanBo → Option ℕ → M (VkResult × Option PrivBo)
unfolding create_unless_null
create_mapped dev self b none = put_bo self b vk_error_out_of_host_memory
create_mapped dev self b (some host) = create_unless_null (host == 0) dev self b host

-- by the object that pan_kmod_bo_alloc returned
unfoldable pub create_from : PanvkDev → (self : ℕ) → Option PanBo → M (VkResult × Option PrivBo)
unfolding bo_mmap create_mapped
create_from dev self none = free_priv_bo self vk_error_out_of_device_memory
create_from dev self (some b) = do host ← bo_mmap b; create_mapped dev self b host

-- by the reply of the memory allocator, with NO_MMAP taken off the flags
unfoldable pub create_at : Reply → PanvkDev → (size : ℕ) → BoFlags → M (VkResult × Option PrivBo)
unfolding pan_bo_alloc create_from
create_at (fail e) dev size f = pure (vk_error_out_of_host_memory, none)
create_at (ok p) dev size f = do
  b ← pan_bo_alloc size (record f { no_mmap = false })
  create_from dev p.value b

-- panvk_priv_bo_create
unfoldable pub priv_bo_create : PanvkDev → (size : ℕ) → BoFlags → M (VkResult × Option PrivBo)
unfolding create_at
priv_bo_create dev size f = do a ← call Call.alloc; create_at a dev size f

-- panvk_priv_bo_destroy
unfoldable pub priv_bo_destroy : PanvkDev → PrivBo → M (Unit {0})
unfolding pan_vm_bind bo_put
priv_bo_destroy dev p = do
  pan_vm_bind dev.vm (record { type = op_unmap; start = p.dev_addr; size = p.bo.size } ∷ [])
  elim dev.vm.auto_va as (λ x. M (Unit {0})) [
    | true ↦ pure tt
    | false ↦ call (Call.vma_free dev.priv_heap p.dev_addr p.bo.size) >> pure tt
  ]
  munmap_opt p.host p.bo.size
  bo_put p.bo
  call (Call.free p.self)
  pure tt

-- panvk_priv_bo_ref
unfoldable pub priv_bo_ref : PrivBo → PrivBo
priv_bo_ref p = record p { refcnt = (p.refcnt + 1) % 2 ^ 64 }

-- panvk_priv_bo_unref of an object: what is left of it
unfoldable pub priv_bo_unref : PanvkDev → PrivBo → M (Option PrivBo)
unfolding priv_bo_destroy
priv_bo_unref dev p = elim ((p.refcnt + 2 ^ 64 - 1) % 2 ^ 64 == 0) [
  | true ↦ priv_bo_destroy dev p >> pure none
  | false ↦ pure (some (record p { refcnt = (p.refcnt + 2 ^ 64 - 1) % 2 ^ 64 }))
]
