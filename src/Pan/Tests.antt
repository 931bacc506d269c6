-- ===== src/Pan/Tests.antt =====
-- Runs of the definitions of Pan, and its theorems at concrete inputs.
use pan_vk_kbase.Prelude.{ℕ, ◌*◌, ◌≡◌, refl, true, false, none, some, List, [], ◌∷◌, arith}
use pan_vk_kbase.Flags.{no_bo_flags}
use pan_vk_kbase.Kernel.Sample.{sample, zone_sample}
use pan_vk_kbase.Pan.{
  PanBo, CsQueue, cs_queue_submit, submit_from, submit_created, submit_fitting, advanced,
}
use pan_vk_kbase.Pan.Ring.{IsRing, written, logged, submit_all, submit_all-logged}

abbrev no_queue : CsQueue
no_queue = record {
  ring = none;
  ring_gpu_va = 0;
  ring_size = 0;
  user_io = none;
  user_io_gpu_va = 0;
  mmap_handle = 0;
  created = false;
  ring_bytes = λ i. 0;
  input_page = 0;
  doorbell = 0;
}

-- what `cs_queue_create` makes of it on `zone_sample`
abbrev some_queue : CsQueue
some_queue = record {
  ring = some 8192;
  ring_gpu_va = 4096;
  ring_size = 64 * 1024;
  user_io = some 28672;
  user_io_gpu_va = 12288;
  mmap_handle = 24576;
  created = true;
  ring_bytes = λ i. 0;
  input_page = 0;
  doorbell = 0;
}

some_queue-IsRing : IsRing some_queue
some_queue-IsRing = record { created = refl; ring_size = refl; inside = omega arith }

-- the second is empty, and is refused
abbrev streams : List (List ℕ)
streams = (1 ∷ 2 ∷ []) ∷ [] ∷ (3 ∷ []) ∷ []

logged-streams : logged 0 streams ≡ 1 ∷ 2 ∷ 3 ∷ []
logged-streams = refl

cs_queue_submit-doorbell :
    (cs_queue_submit 1 some_queue (7 ∷ 8 ∷ []) zone_sample []).0.1.doorbell ≡ 2
unfolding cs_queue_submit submit_from submit_created submit_fitting advanced
cs_queue_submit-doorbell = refl

submit_all-logged_example :
    IsRing (submit_all 1 some_queue streams sample []).0
    × (written (submit_all 1 some_queue streams sample []).0 ≡ logged 0 streams)
submit_all-logged_example = submit_all-logged 1 some_queue streams sample [] some_queue-IsRing

abbrev shared_bo : PanBo
shared_bo = record {
  self = 8192;
  size = 5000;
  flags = record no_bo_flags { io_coherent = true };
  handle = 4096;
  refcnt = 1;
  priv = 4096;
}

abbrev thrice : PanBo
thrice = record shared_bo { refcnt = 3 }
