-- ===== src/Pan/Device.antt =====
-- The device of pan_kmod.c's own backend: kbase_dev_create with its three queries,
-- kbase_dev_destroy, and pan_kmod_dev_create with its fall-back to /dev/mali0. The driver's version
-- comes from the stub of drmGetVersion in the same file, which answers "kbase" 1.20 for every
-- descriptor, so that no other backend is picked. Log messages are left out.
use pan_vk_kbase.Prelude.{
  ℕ, zero, suc, ◌+◌, ◌*◌, ◌/◌, ◌%◌, ◌-◌, ◌^◌, Bool, true, false, Option, none, some, List, [], ◌∷◌,
  leb, ◌==◌, if◌then◌else◌, length, take, drop,
}
use pan_vk_kbase.Flags.{BoFlags, no_bo_flags}
use pan_vk_kbase.Kernel.{Call, ok, fail, M, call, pure, ◌>>=◌, ◌>>◌, GroupReq}
use pan_vk_kbase.Device.{Csif, Version}
use pan_vk_kbase.GpuProps.{le_value, val_size}

-- struct pan_kmod_dev_props, less the fields that this backend leaves zero
pub record PanProps : Type 0 where
  pub gpu_id : ℕ
  pub shader_present : ℕ
  pub pgsize_bitmap : ℕ
  pub is_io_coherent : Bool
  pub supported_bo_flags : BoFlags
  pub allow_priority_medium : Bool
  pub max_threads_per_core : ℕ
  pub max_threads_per_wg : ℕ
  pub num_registers_per_core : ℕ
  pub max_tasks_per_core : ℕ
  pub l2_features : ℕ
  pub mem_features : ℕ
  pub mmu_features : ℕ
  pub tiler_features : ℕ
  pub texture_features_0 : ℕ
  pub texture_features_1 : ℕ
  pub texture_features_2 : ℕ
  pub texture_features_3 : ℕ

-- struct kbase_dev, less its queue
pub record PanDev : Type 0 where
  pub self : ℕ
  pub fd : ℕ
  pub owns_fd : Bool
  pub driver : Version
  pub group : ℕ
  pub ctx : ℕ
  pub csif : Csif
  pub props : PanProps

-- struct kbase_gpu_info
pub record GpuInfo : Type 0 where
  pub gpu_id : ℕ
  pub shader_present : ℕ

abbrev pub default_info : GpuInfo
default_info = record { gpu_id = 0xA8070000; shader_present = 0x3F }

-- What is read from the buffer, which calloc() zeroed. The ioctl returns how many bytes it wrote.
abbrev pub info_of : (bytes : List ℕ) → GpuInfo
info_of bytes =
    if length bytes == 0
    then record {
      gpu_id = le_value (take 4 (drop 48 bytes)) * 2 ^ 32;
      shader_present = le_value (take 4 (drop 80 bytes));
    }
    else default_info

-- kbase_query_gpu_info
unfoldable pub query_gpu_info : M GpuInfo
query_gpu_info = do
  a ← call Call.alloc
  elim a [
    | fail e ↦ pure default_info
    | ok b ↦ do
      r ← call (Call.gpuprops_fill 65536)
      call (Call.free b.value)
      elim r [ fail e ↦ pure default_info | ok o ↦ pure (info_of o.bytes) ]
  ]

-- kbase_query_csif: the register count and the scoreboard count
unfoldable pub pan_query_csif : M (ℕ × ℕ)
pan_query_csif = do
  r ← call Call.glb_iface_probe
  elim r [ fail e ↦ pure (96, 8) | ok o ↦ pure (o.third % 256 + 1, o.third / 2 ^ 8 % 16 + 1) ]

-- the switch of kbase_query_props
unfoldable pub set_prop : (type value : ℕ) → PanProps → PanProps
set_prop t v p =
    if t == 18
    then record p { max_threads_per_core = v }
    else if t == 19
    then record p { max_threads_per_wg = v }
    else if t == 21
    then record p { num_registers_per_core = v }
    else if t == 22
    then record p { max_tasks_per_core = v }
    else if t == 29
    then record p { l2_features = v }
    else if t == 31
    then record p { mem_features = v }
    else if t == 32
    then record p { mmu_features = v }
    else if t == 51
    then record p { tiler_features = v }
    else if t == 52
    then record p { texture_features_0 = v }
    else if t == 53
    then record p { texture_features_1 = v }
    else if t == 54
    then record p { texture_features_2 = v }
    else if t == 56
    then (if p.max_threads_per_core == 0 then record p { max_threads_per_core = v } else p)
    else if t == 57
    then (if p.max_threads_per_wg == 0 then record p { max_threads_per_wg = v } else p)
    else if t == 80
    then record p { texture_features_3 = v }
    else p

-- value32: the low word of a value of four bytes or more, and 0 for a shorter one
abbrev pub value32 : (width : ℕ) → List ℕ → ℕ
value32 width vals = if leb 4 width then le_value (take 4 vals) else 0

-- The loop of kbase_query_props on what is left of the blob, behind which the buffer holds zeros.
-- Each round takes at least the header, so that a number of rounds above the length is enough;
-- `none` means that they ran out. There is no check that the last entry is whole.
unfoldable pub props_loop : ℕ → (rest : List ℕ) → PanProps → Option PanProps
props_loop zero rest p = none
props_loop (suc n) [] p = some p
props_loop (suc n) (b ∷ bs) p =
    let header = le_value (take 4 (b ∷ bs)) in
    let vals = drop 4 (b ∷ bs) in
    props_loop n (drop (val_size (header % 4)) vals)
      (set_prop (header / 4) (value32 (val_size (header % 4)) vals) p)

-- kbase_query_props on a blob
unfoldable pub props_of : (bytes : List ℕ) → PanProps → Option PanProps
props_of bytes p = props_loop (suc (length bytes)) bytes p

-- the properties, where the loop is known to return
abbrev pub props_or : PanProps → Option PanProps → PanProps
props_or p none = p
props_or p (some q) = q

-- kbase_query_props, whose answer the code does not look at
unfoldable pub pan_query_props : PanProps → M PanProps
pan_query_props p = do
  a ← call Call.alloc
  elim a [
    | fail e ↦ pure p
    | ok b ↦ do
      r ← call (Call.gpuprops_fill 65536)
      call (Call.free b.value)
      elim r [ fail e ↦ pure p | ok o ↦ pure (props_or p (props_of o.bytes p)) ]
  ]

abbrev pub or_default : (value default : ℕ) → ℕ
or_default v d = if v == 0 then d else v

-- the properties before the blob is read
abbrev pub first_props : GpuInfo → PanProps
first_props i = record {
  gpu_id = or_default i.gpu_id 0xA8070000;
  shader_present = or_default i.shader_present 0x3F;
  pgsize_bitmap = 1;
  is_io_coherent = true;
  supported_bo_flags = record no_bo_flags { wb_mmap = true };
  allow_priority_medium = false;
  max_threads_per_core = 0;
  max_threads_per_wg = 0;
  num_registers_per_core = 0;
  max_tasks_per_core = 0;
  l2_features = 0;
  mem_features = 0;
  mmu_features = 0;
  tiler_features = 0;
  texture_features_0 = 0;
  texture_features_1 = 0;
  texture_features_2 = 0;
  texture_features_3 = 0;
}

-- the queue group, which may use all cores
abbrev pub pan_group_req : GroupReq
pan_group_req = record {
  tiler_mask = 2 ^ 64 - 1;
  fragment_mask = 2 ^ 64 - 1;
  compute_mask = 2 ^ 64 - 1;
  cs_min = 1;
  priority = 0;
  tiler_max = 8;
  fragment_max = 8;
  compute_max = 8;
}

-- the rest of kbase_dev_create, once there is a group
unfoldable pub dev_grouped :
    (self fd : ℕ) (owns_fd : Bool) (version : Version) (ctx group : ℕ) → M (Option PanDev)
unfolding pan_query_csif query_gpu_info pan_query_props
dev_grouped self fd owns_fd version ctx group = do
  (regs, scoreboards) ← pan_query_csif
  info ← query_gpu_info
  props ← pan_query_props (first_props info)
  pure (
      some (record {
        self = self;
        fd = fd;
        owns_fd = owns_fd;
        driver = version;
        group = group;
        ctx = ctx;
        csif = record {
          csg_slot_count = 8;
          cs_slot_count = 8;
          cs_reg_count = regs;
          scoreboard_slot_count = scoreboards;
          unpreserved_cs_reg_count = 4;
        };
        props = record props { allow_priority_medium = true };
      }))

-- pan_kmod_free() and NULL
abbrev pub give_up : (self : ℕ) → M (Option PanDev)
give_up self = call (Call.free self) >> pure none

-- the context id, 0 if the ioctl fails, and the group
unfoldable pub dev_flagged : (self fd : ℕ) (owns_fd : Bool) (version : Version) → M (Option PanDev)
unfolding dev_grouped
dev_flagged self fd owns_fd version = do
  c ← call Call.context_id
  g ← call (Call.group_create_1_6 pan_group_req)
  elim g [
    | fail e ↦ give_up self
    | ok o ↦ dev_grouped self fd owns_fd version (elim c [ fail e ↦ 0 | ok i ↦ i.value ]) o.value
  ]

-- kbase_dev_create
unfoldable pub pan_dev_new : (fd : ℕ) (owns_fd : Bool) (version : Version) → M (Option PanDev)
unfolding dev_flagged
pan_dev_new fd owns_fd version = do
  a ← call Call.alloc
  elim a [
    | fail e ↦ pure none
    | ok p ↦ do
      v ← call Call.version_check_csf
      elim v [
        | fail e ↦ give_up p.value
        | ok _ ↦ do
          f ← call (Call.set_flags 0)
          elim f [ fail e ↦ give_up p.value | ok _ ↦ dev_flagged p.value fd owns_fd version ]
      ]
  ]

-- kbase_dev_destroy, with pan_kmod_dev_cleanup
unfoldable pub pan_dev_destroy : PanDev → M (Unit {0})
pan_dev_destroy d = do
  call (Call.close d.fd)
  elim d.owns_fd as (λ x. M (Unit {0})) [
    | true ↦ call (Call.close d.fd) >> pure tt
    | false ↦ pure tt
  ]
  call (Call.free d.self)
  pure tt

-- pan_kmod_dev_create
unfoldable pub pan_dev_create : (fd : ℕ) (owns_fd : Bool) → M (Option PanDev)
unfolding pan_dev_new
pan_dev_create fd owns_fd = do
  d ← pan_dev_new fd owns_fd (record { major = 1; minor = 20 })
  elim d [
    | some dev ↦ pure (some dev)
    | none ↦ do
      f ← call Call.open_mali
      elim f [
        | fail e ↦ pure none
        | ok o ↦ do
          d' ← pan_dev_new o.value owns_fd (record { major = 1; minor = 0 })
          elim d' [
            | some dev ↦ pure (some (record dev { owns_fd = true }))
            | none ↦ call (Call.close o.value) >> pure none
          ]
      ]
  ]
