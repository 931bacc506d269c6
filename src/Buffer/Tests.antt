-- ===== src/Buffer/Tests.antt =====
-- Runs of the definitions of Buffer, and its theorems at concrete inputs.
use pan_vk_kbase.Prelude.{
  ℕ, ◌+◌, ◌^◌, ◌%◌, ◌≡◌, refl, inl, true, false, none, some, List, [], ◌∷◌, arith,
}
use pan_vk_kbase.Kernel
use pan_vk_kbase.Kernel.{Kernel, Call, ok, fail, no_out}
use pan_vk_kbase.Kernel.Ledger.{held, range, memory}
use pan_vk_kbase.Kernel.Sample.{sample}
use pan_vk_kbase.Flags.{no_bo_flags}
use pan_vk_kbase.Pan.{kbase_bo_alloc}
use pan_vk_kbase.Pan.Space.{pan_bo_alloc, pan_vm_bind, bind_type}
use pan_vk_kbase.Pan.Sparse.{
  make_dummy, get_dummy_object, multi_op_flush, push_by, multi_op_push, sparse_loop, emulate_sparse,
  bind_sparse,
}
use pan_vk_kbase.Pan.Sparse.Held.{kept_dummy}
use pan_vk_kbase.PrivBo.{vk_success, vk_error_out_of_device_memory}
use pan_vk_kbase.DeviceMemory.{as_alloc, as_free}
use pan_vk_kbase.Buffer.{
  BufferDev, BufferInfo, Buffer, max_buffer_size, map_sparse, create_if_bound, create_sparse_at,
  create_bound, create_sized, create_object, create_buffer, destroy_buffer,
}
use pan_vk_kbase.Buffer.Lifetime.{
  InsideLaw, IsOutcome, create_buffer-IsOutcome, destroy_buffer-create_buffer,
}
use pan_vk_kbase.Pan.Memory.{read_from}
use pan_vk_kbase.Buffer.Copy.{Region, cmd_copy_buffer, AreCopied, cmd_copy_buffer-AreCopied}

-- the sample with a heap that has one address
abbrev heap_sample : Kernel
heap_sample l (Call.vma_alloc h s a) = ok (record no_out { value = 65536 })
heap_sample l c = sample l c

heap_sample-InsideLaw : InsideLaw heap_sample
heap_sample-InsideLaw l heap size alignment = (omega arith, omega arith)

abbrev buffer_dev : BufferDev
buffer_dev = record {
  mem = record {
    vm = record { self = 1; auto_va = true; pgsize_bitmap = 0x1000; sparse_dummy = none };
    heap = 2;
    fixed_heap = 3;
    arch = 10;
    choose_alignment = λ size. 4096;
    supports_wb_mmap = true;
    supports_gpu_uncached = false;
    debug_dump = false;
    debug_trace = false;
    debug_no_wb_mmap = false;
  };
  max_supported_va = 2 ^ 48;
  type_count = 2;
  force_blackhole = false;
}

abbrev sparse_info : BufferInfo
sparse_info = record { size = 5000; sparse_binding = true; sparse_residency = true }

abbrev sparse_buffer : Buffer
sparse_buffer = record { self = 4096; info = sparse_info; device_address = 65536; host_ptr = 0 }

-- The first sparse mapping makes the dummy object.
abbrev made_dev : BufferDev
made_dev = record buffer_dev {
  mem = record buffer_dev.mem {
    vm = record buffer_dev.mem.vm {
      sparse_dummy = some (record {
        self = 73728;
        size = 2 ^ 21;
        flags = record no_bo_flags { no_mmap = true; io_coherent = true };
        handle = 69632;
        refcnt = 1;
        priv = 69632;
      });
    };
  };
}

create-sparse_buffer :
    (create_buffer buffer_dev sparse_info heap_sample []).0
    ≡ (vk_success, some sparse_buffer, made_dev)
unfolding create_buffer create_object create_sized create_bound create_sparse_at map_sparse
    create_if_bound as_alloc bind_sparse get_dummy_object make_dummy emulate_sparse sparse_loop
    multi_op_push push_by multi_op_flush pan_bo_alloc kbase_bo_alloc pan_vm_bind bind_type
    max_buffer_size
create-sparse_buffer = refl

-- Without memory for the dummy object the buffer is destroyed again.
abbrev no_region : Kernel
no_region l (Call.mem_alloc r) = fail Kernel.other
no_region l c = heap_sample l c

create-no_dummy :
    (create_buffer buffer_dev sparse_info no_region []).0
    ≡ (vk_error_out_of_device_memory, none, buffer_dev)
unfolding create_buffer create_object create_sized create_bound create_sparse_at map_sparse
    create_if_bound as_alloc as_free bind_sparse get_dummy_object make_dummy emulate_sparse
    pan_bo_alloc kbase_bo_alloc max_buffer_size
create-no_dummy = refl

create_buffer-IsOutcome_example :
    let r = create_buffer made_dev sparse_info heap_sample [] in
    IsOutcome made_dev.mem.vm.sparse_dummy r.0 [] r.1 range 65536
create_buffer-IsOutcome_example =
    create_buffer-IsOutcome heap_sample range 65536 heap_sample-InsideLaw made_dev refl sparse_info
      []

destroy_buffer-create_buffer_example :
    held
      (destroy_buffer made_dev sparse_buffer heap_sample
        (create_buffer buffer_dev sparse_info heap_sample []).1).1
      memory
      73728
    ≡ held [] memory 73728
      + kept_dummy buffer_dev.mem.vm.sparse_dummy made_dev.mem.vm.sparse_dummy memory 73728
destroy_buffer-create_buffer_example =
    destroy_buffer-create_buffer heap_sample memory 73728 heap_sample-InsideLaw buffer_dev tt
      sparse_info [] sparse_buffer made_dev create-sparse_buffer

abbrev mapped_at : ℕ → Buffer
mapped_at host = record sparse_buffer { host_ptr = host }

abbrev two_regions : List Region
two_regions =
    record { src_offset = 0; dst_offset = 4; size = 2 }
    ∷ record { src_offset = 1; dst_offset = 6; size = 3 }
    ∷ []

cmd_copy_buffer-AreCopied_example :
    (mem' : ℕ → ℕ) × (cmd_copy_buffer (mapped_at 100) (mapped_at 200) two_regions (λ a. a % 256)
      ≡ some mem')
    × AreCopied 100 200 two_regions (λ a. a % 256) mem'
    × (read_from mem' 100 10 ≡ read_from (λ a. a % 256) 100 10)
cmd_copy_buffer-AreCopied_example =
    cmd_copy_buffer-AreCopied (mapped_at 100) (mapped_at 200) two_regions (λ a. a % 256) 100 10
      (omega arith) (omega arith) (omega arith)
      (
        (inl (omega arith), tt),
        (inl (omega arith), (inl (omega arith), tt)),
        (tt, (inl (omega arith), tt), tt),
      )
      (inl (omega arith), (inl (omega arith), tt))
