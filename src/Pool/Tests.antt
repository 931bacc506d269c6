-- ===== src/Pool/Tests.antt =====
-- Runs of the definitions of Pool, and its theorems at concrete inputs.
use pan_vk_kbase.Prelude.{◌+◌, refl, true, false, none, some, List, [], ◌∷◌, arith}
use pan_vk_kbase.Flags.{no_bo_flags}
use pan_vk_kbase.Kernel.Sample.{sample, top, held-memory_above}
use pan_vk_kbase.Pan.Space.{PanVm}
use pan_vk_kbase.PrivBo.{PanvkDev, PrivBo}
use pan_vk_kbase.Pool.{Pool, Refs, AllocInfo, used_alignment, alloc_mem}
use pan_vk_kbase.Pool.Reset.{PoolProps, empty_pool}
use pan_vk_kbase.Pool.Backing.{AllocLaw}
use pan_vk_kbase.Pool.Pieces.{IsSound}
use pan_vk_kbase.Pool.Disjoint.{IsCut}
use pan_vk_kbase.Pool.Safe.{IsRequest, alloc_mem-IsCut}
use pan_vk_kbase.Pool.Run.{alloc_run, alloc_run-IsSound}

abbrev sample_vm : PanVm
sample_vm = record { self = 1; auto_va = true; pgsize_bitmap = 1; sparse_dummy = none }

abbrev sample_panvk : PanvkDev
sample_panvk = record { vm = sample_vm; priv_heap = 2; choose_alignment = λ size. 4096 }

sample-AllocLaw : AllocLaw sample
sample-AllocLaw l = held-memory_above l (top l + 4096) (omega arith)

abbrev props : PoolProps
props = record {
  create_flags = no_bo_flags;
  slab_size = 8192;
  owns_bos = true;
  needs_locking = false;
  prealloc = false;
}

abbrev fresh_pool : Pool
fresh_pool = empty_pool none none props

fresh_pool-IsSound : IsSound [] fresh_pool []
fresh_pool-IsSound = record {
  owns = refl;
  sized = record { slabs = tt; small = tt; within = omega arith };
  free = λ y. (omega arith, omega arith);
  current = tt;
  issued = tt;
  apart = tt;
}

abbrev request : AllocInfo
request = record { size = 100; alignment = 64 }

request-IsRequest : IsRequest sample_panvk fresh_pool (used_alignment 64 fresh_pool request) 100
request-IsRequest = record {
  page = omega arith;
  slab_fits = omega arith;
  size_fits = omega arith;
  aligned = omega arith;
  alignment_fits = omega arith;
}

abbrev no_refs : Refs
no_refs x = 0

alloc_mem-IsCut_example :
    IsCut 64 100 [] (alloc_mem sample_panvk 64 request fresh_pool no_refs sample [])
alloc_mem-IsCut_example =
    alloc_mem-IsCut sample_panvk sample sample-AllocLaw 64 request [] fresh_pool [] no_refs
      fresh_pool-IsSound request-IsRequest

abbrev requests : List AllocInfo
requests = request ∷ record { size = 9000; alignment = 4 } ∷ request ∷ []

alloc_run-IsSound_example :
    let r = alloc_run sample_panvk 64 requests fresh_pool no_refs [] sample [] in
    IsSound r.1 r.0.0 r.0.2
alloc_run-IsSound_example =
    alloc_run-IsSound sample_panvk sample sample-AllocLaw 64 requests fresh_pool no_refs [] []
      fresh_pool-IsSound (omega arith) (omega arith)
      (
        omega arith,
        omega arith,
        omega arith,
        (omega arith, omega arith, omega arith, (omega arith, omega arith, omega arith, tt)),
      )

abbrev some_bo : PrivBo
some_bo = record {
  self = 4096;
  refcnt = 0;
  bo = record {
    self = 12288;
    size = 8192;
    flags = no_bo_flags;
    handle = 8192;
    refcnt = 1;
    priv = 8192;
  };
  dev_addr = 65536;
  host = some 16384;
}

abbrev used_pool : Pool
used_pool = record fresh_pool {
  bos = some_bo ∷ [];
  bo_count = 1;
  transient_bo = some some_bo;
  transient_offset = 100;
}

abbrev shared_pool : Pool
shared_pool = record used_pool { owns_bos = false; bos = [] }
