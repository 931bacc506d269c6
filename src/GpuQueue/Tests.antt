-- ===== src/GpuQueue/Tests.antt =====
-- Runs of the definitions of GpuQueue, and its theorems at concrete inputs.
use pan_vk_kbase.Prelude.{
  ℕ, ◌*◌, ◌≡◌, ◌≤◌, refl, true, ◌&&◌, none, some, List, [], ◌∷◌, ◌++◌, ◌==◌, inl, inr, length,
}
use pan_vk_kbase.Kernel.{Call, call}
use pan_vk_kbase.Kernel.Sample.{sample}
use pan_vk_kbase.Pan.{CsQueue}
use pan_vk_kbase.GpuQueue.{
  PerSubqueue, Mask, no_mask, Resources, no_resources, Builder, CmdBuffer, ReqStreams, counted,
  stream_entries, entries, room,
}
use pan_vk_kbase.GpuQueue.Count.{entries-room}
use pan_vk_kbase.GpuQueue.Submit.{Source, submit_inside, gpu_queue_submit}
use pan_vk_kbase.GpuQueue.Status.{check_status, word, check_status-verdict}

abbrev no_builder : Builder
no_builder = record { gpu = 0; cpu = 0; words = 0; req_resource = no_resources }

abbrev a_builder : Builder
a_builder = record {
  gpu = 4096;
  cpu = 8192;
  words = 2;
  req_resource = record no_resources { comp = true };
}

abbrev a_cmdbuf : CmdBuffer
a_cmdbuf = record { vertex_tiler = no_builder; fragment = no_builder; compute = a_builder }

abbrev two : List CmdBuffer
two = a_cmdbuf ∷ a_cmdbuf ∷ []

abbrev none_granted : PerSubqueue Resources
none_granted = record {
  vertex_tiler = no_resources;
  fragment = no_resources;
  compute = no_resources;
}

abbrev reqs : ReqStreams
reqs = record { vertex_tiler = (1, 8); fragment = (2, 8); compute = (3, 8) }

abbrev all : Mask
all = record { vertex_tiler = true; fragment = true; compute = true }

-- both streams, and one request for the resources
counted-two : (counted none_granted two).qsubmit_count ≡ 3
counted-two = refl

-- Nine command buffers of one stream each come to more entries than `stream_cpus` has.
nine-length : length (stream_entries (two ++ two ++ two ++ two ++ a_cmdbuf ∷ [])) ≡ 9
nine-length = refl

entries-room_example :
    length (entries none_granted reqs two all all) ≤ room none_granted two all all
entries-room_example =
    entries-room none_granted reqs two all all
      (inr refl, inr refl, inl refl, (inr refl, inr refl, inl refl, tt))

abbrev a_queue : CsQueue
a_queue = record {
  ring = some 8192;
  ring_gpu_va = 4096;
  ring_size = 64 * 1024;
  user_io = some 28672;
  user_io_gpu_va = 12288;
  mmap_handle = 24576;
  created = true;
  ring_bytes = λ i. 0;
  input_page = 0;
  doorbell = 0;
}

abbrev a_source : Source
a_source = record { mem = λ i. i; tiler_gpu = 0; tiler_host = 0; dummy = 100; group = 1 }

-- Nine streams go behind `stream_cpus`.
nine-undefined :
    (gpu_queue_submit a_source a_queue none_granted reqs
      (two ++ two ++ two ++ two ++ a_cmdbuf ∷ [])
      no_mask
      no_mask
      sample
      []).0
    ≡ none
unfolding gpu_queue_submit submit_inside
nine-undefined = refl

abbrev errors : PerSubqueue ℕ
errors = record { vertex_tiler = 16; fragment = 32; compute = 48 }

check_status-verdict_example :
    let r1 = call (Call.read32 16) sample [] in
    let r2 = call (Call.read32 32) sample r1.1 in
    let r3 = call (Call.read32 48) sample r2.1 in
    (check_status errors (some 4096) sample []).0
    ≡ ((word r1.0 == 0) && (word r2.0 == 0) && (word r3.0 == 0))
check_status-verdict_example = check_status-verdict errors (some 4096) sample []
