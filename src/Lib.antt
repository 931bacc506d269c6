-- ===== src/Lib.antt =====
-- The kbase backend of PanVK: a verification library for kbase_kmod.c, pan_kmod.c and parts of
-- pan_kmod_syncobj.c, of mesa_src/lib/mesa_kmod, and for the parts of the Vulkan driver
-- mesa_src/mesa_vulkan that stand right on them: private buffers, memory pools, the application's
-- memory and buffers, descriptor sets, queries, events, and the submission.
--
-- The backend drives a Mali GPU through the kernel driver kbase. A device (`Dev`) opens the driver,
-- reads the GPU's properties (`GpuProps`) and, on a GPU with command streams, the firmware interface
-- (`Csf`). Buffer objects (`Bo`) are allocated from the driver or from a dma-heap, imported and
-- exported as dma-bufs, and stay mapped for life, since the address of the mapping is the one that
-- the GPU has. Binding (`Vm`) therefore only reports addresses. Queue groups, queues, tiler heaps
-- and the notification stream (`Csf`), the alias mappings of ring buffers (`Alias`) and the kernel
-- CPU queue that turns a GPU counter into a fence (`Kcpu`) complete the backend. pan_kmod.c holds a
-- second, smaller backend of its own (`Pan`), whose queue the sync objects (`Syncobj`) poll. The
-- driver allocates its private buffers (`PrivBo`) from that backend, cuts them up in pools (`Pool`)
-- and submits command buffers to its queue (`GpuQueue`). The application's memory (`DeviceMemory`) is
-- an object of that backend too, and its buffers (`Buffer`) are bound to it. Descriptor sets are laid
-- out (`DescriptorLayout`) and cut from pools (`DescriptorPool`) in private buffers, where the
-- application writes to them (`DescriptorWrite`). Queries (`QueryPool`) and events (`Event`) are words
-- in memory of the driver's pools, which the GPU writes.
--
-- The files:
--   Prelude        names that all share, Boolean tests, lists measured by native numbers
--   Flags          enum pan_kmod_bo_flags, BASE_MEM_*
--   Kernel         the system calls of kbase_kmod.c and what it can see of their outcome
--   Kernel/Ledger  what a process holds after a log of calls
--   Kernel/Sample  a kernel to run the definitions on
--   Device         struct kbase_kmod_dev and kbase_kmod_bo, pan_kmod_driver_version_at_least,
--                  pan_kmod_bo_init, kbase_kmod_supports_dmabuf, kbase_kmod_csf_has_error
--   GpuProps       kbase_gpuprop_get, kbase_get_gpuprops, kbase_dev_query_props, pan_arch of
--                  mesa_src/model/pan_model.h
--   Dev            kbase_kmod_dev_create, kbase_kmod_dev_destroy
--   Dmabuf         kbase_kmod_import_dmabuf
--   Bo             to_kbase_mem_flags, kbase_kmod_bo_alloc and kbase_kmod_bo_alloc_dmabuf,
--                  kbase_kmod_bo_free, _bo_import_fd, _bo_export_fd, _bo_get_mmap_offset, _bo_mmap
--   Vm             kbase_kmod_dev_query_user_va_range, kbase_kmod_vm_create, _vm_destroy, _vm_bind,
--                  _vm_query_state, _flush_bo_map_syncs, _query_timestamp
--   Alias          kbase_kmod_alias_create, kbase_kmod_alias_destroy
--   Csf            kbase_query_csif_info, kbase_kmod_csf_group_create and _destroy, _queue_bind,
--                  _queue_term, _queue_kick, _wait_event, _tiler_heap_create and _destroy,
--                  kbase_log_csf_notification
--   Kcpu           kbase_kcpu_poll_fence, kbase_kmod_csf_wait_cqs64
--   Pan            mesa_src/lib/mesa_kmod/pan_kmod.c: kbase_bo_alloc, kbase_bo_free, pan_kmod_bo_put,
--                  kbase_cs_queue_create, _submit and _destroy
--   Pan/Device     kbase_dev_create, kbase_query_gpu_info, _csif and _props, kbase_dev_destroy,
--                  pan_kmod_dev_create
--   Pan/Space      pan_kmod_bo_alloc, kbase_vm_create, _destroy and _bind
--   Pan/Sparse     the sparse mappings of mesa_src/lib/mesa_kmod/pan_kmod.h: pan_kmod_vm_bind,
--                  pan_kmod_get_dummy_object, pan_kmod_vm_multi_op_emulate_sparse, _push and _flush
--   Syncobj        mesa_src/lib/mesa_kmod/pan_kmod_syncobj.c: kbase_drm_syncobj_create, _wait
--   PrivBo         mesa_src/mesa_vulkan/panvk_priv_bo.c: panvk_priv_bo_create, _destroy, _ref and
--                  _unref, with pan_kmod_bo_mmap
--   Pool           mesa_src/mesa_vulkan/panvk_mempool.c: panvk_pool_alloc_backing and _alloc_mem
--   Pool/Reset     panvk_pool_init, _reset, _cleanup and _get_bo_handles
--   DeviceMemory   mesa_src/mesa_vulkan/panvk_device_memory.c: panvk_AllocateMemory, _FreeMemory,
--                  _MapMemory2KHR and _UnmapMemory2KHR
--   Buffer         mesa_src/mesa_vulkan/panvk_buffer.c: panvk_CreateBuffer, _DestroyBuffer,
--                  _GetDeviceBufferMemoryRequirements and _BindBufferMemory2
--   Buffer/Copy    the CPU path of CmdCopyBuffer2, mesa_src/mesa_vulkan/panvk_vX_cmd_meta.c
--   DescriptorLayout   mesa_src/mesa_vulkan/panvk_vX_descriptor_set_layout.c and
--                  panvk_descriptor_set_layout.h: CreateDescriptorSetLayout, panvk_get_desc_index
--   DescriptorLayout/Support   GetDescriptorSetLayoutSupport
--   DescriptorPool   the pools of mesa_src/mesa_vulkan/panvk_vX_descriptor_set.c:
--                  panvk_desc_pool_allocate_set, panvk_desc_pool_free_set, AllocateDescriptorSets,
--                  FreeDescriptorSets and ResetDescriptorPool
--   DescriptorPool/Create   CreateDescriptorPool and DestroyDescriptorPool
--   DescriptorWrite   the writes of the same file: write_desc_data, write_sampler_desc,
--                  write_image_view_desc and the others by what they write
--   DescriptorWrite/Update   descriptor_set_write, descriptor_set_flush
--   DescriptorWrite/Copy   panvk_descriptor_set_copy, UpdateDescriptorSets
--   QueryPool      mesa_src/mesa_vulkan/panvk_vX_query_pool.c and panvk_query_pool.h: the memory of
--                  queries, its reset, and panvk_query_wait_for_available
--   QueryPool/Results   GetQueryPoolResults, with the info words of panvk_cmd_ts.h
--   QueryPool/Create   CreateQueryPool and DestroyQueryPool
--   Event          mesa_src/mesa_vulkan/csf/panvk_vX_event.c: CreateEvent, DestroyEvent,
--                  GetEventStatus, SetEvent and ResetEvent
--   Pool/Free      panvk_pool_free_mem
--   GpuQueue       mesa_src/mesa_vulkan/csf/panvk_vX_gpu_queue.c: panvk_queue_submit_init_storage,
--                  _init_req_resource, _init_waits, _init_cmdbufs and _init_signals
--   GpuQueue/Submit, /Status   panvk_queue_submit_ioctl, gpu_queue_submit, gpu_queue_check_status
--
-- The kernel is a parameter: any function of the log of calls so far and the call at hand. An
-- operation takes a kernel and a log and returns its result with the longer log, so every order of
-- successes and failures is some kernel. `Kernel/Ledger` reads a log as the resources that are held:
-- memory, descriptors, regions, mappings, groups, queues, heaps, kernel CPU queues and the address
-- ranges of util/vma.h, whose calls stand in the log too. Where a theorem needs more of the kernel it
-- says so by name: `Assumed` of Bo/Alloc, `MapsNonzero` of Alias/Create, `HeapLaw` of Pan/Binding,
-- `SameVaLaw` of PrivBo/Lifetime, `AllocLaw` of Pool/Backing, `InsideLaw` of Buffer/Lifetime.
--
-- Bounds: a machine integer keeps its wrap-around, written out. The loop over the property blob
-- runs on one round more than the blob has bytes, and each round takes four at least. The two loops
-- that repeat an interrupted call run on a number of retries that the caller of the definition
-- gives; in the code they have no bound, and the theorems on them say that they answer if the
-- kernel interrupts fewer times. The alias loop has its sixteen attempts from the code. The wait
-- for a sync object sleeps a millisecond a round and a second at most, so 1001 rounds are enough.
-- The other loop over the property blob runs on one round more than its bytes too. The pools'
-- buffers and requests are below 2 GiB in the theorems, so that offsets of 32 bits do not wrap. The
-- wait for a query runs on a number of rounds that the caller of the definition gives, and ends by
-- the moment at which the clock reaches the deadline. The loop over a sparse range runs on as many
-- rounds as the range has bytes, and each round covers one at least. A submission of more entries
-- than the eight elements of stream_cpus is undefined behaviour in C, for which the model has no
-- result.
--
-- Not modelled: log messages; the operations that do nothing; the allocator and the mutexes but for
-- their balance; the handle table of pan_kmod_dev_init; what the kernel does behind a call. The
-- numbers of flags and property keys come from a kernel header that is not in the repository: a flag
-- word is the set of its named bits, and the keys are a parameter. In pan_kmod.c
-- kbase_sync_create and kbase_group_submit have no caller. Of the driver, reports to the application
-- and to the command decoder are left out, as are the trace paths, and the flushes that end in an
-- empty function; the masks of subqueues come from tables of the Vulkan runtime and are arguments.
-- Descriptors are those of architecture 9 and later, queries and events those of 10 and later; the
-- packing of a descriptor is generated code and an argument. The templates of descriptor writes, what
-- a new set is filled with, the commands that the GPU runs, the creation of a GPU queue and the rest of
-- the driver are no part of the model.
pub mod Prelude
pub mod Flags
pub mod Kernel
pub mod Device
pub mod DeviceMemory
pub mod DescriptorLayout
pub mod DescriptorPool
pub mod DescriptorWrite
pub mod QueryPool
pub mod Event
pub mod Dmabuf
pub mod Bo
pub mod Buffer
pub mod GpuProps
pub mod Vm
pub mod Alias
pub mod Csf
pub mod Kcpu
pub mod Dev
pub mod Pan
pub mod Syncobj
pub mod PrivBo
pub mod Pool
pub mod GpuQueue
