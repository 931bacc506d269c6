-- ===== src/GpuQueue.antt =====
-- Submission to the CSF GPU queue, mesa_src/mesa_vulkan/csf/panvk_vX_gpu_queue.c, over the command
-- stream queue of pan_kmod.c. The trace path (utrace) is not taken: it asks for a timestamp
-- frequency, which that backend leaves zero. The two masks of subqueues that wait and that signal
-- come from the pipeline stages by the tables of the Vulkan runtime, and are arguments. Log messages
-- are left out.
pub mod Count
pub mod Submit
pub mod Sync
pub mod Status
pub mod Tests
use pan_vk_kbase.Prelude.{
  ℕ, zero, suc, ◌+◌, ◌-◌, ◌*◌, ◌^◌, ◌%◌, Bool, true, false, not, ◌&&◌, ◌||◌, Option, none, some,
  List, [], ◌∷◌, ◌++◌, leb, ltb, ◌==◌, if◌then◌else◌,
}
use pan_vk_kbase.Kernel.{M, pure, ◌>>=◌}
use pan_vk_kbase.Pan.{CsQueue, cs_queue_submit}
use pan_vk_kbase.Pan.Memory.{read_from}

-- enum panvk_subqueue_id
pub data Subqueue : Type 0 where
  vertex_tiler fragment compute : Subqueue

abbrev pub code : Subqueue → ℕ
code vertex_tiler = 0
code fragment = 1
code compute = 2

-- a mask of subqueues, or what each of them has
pub record PerSubqueue (A : Type 0) : Type 0 where
  pub vertex_tiler : A
  pub fragment : A
  pub compute : A

abbrev pub Mask : Type 0
Mask = PerSubqueue Bool

abbrev pub at : {A : Type 0} → Subqueue → PerSubqueue A → A
at vertex_tiler p = p.vertex_tiler
at fragment p = p.fragment
at compute p = p.compute

abbrev pub set_at : {A : Type 0} → Subqueue → A → PerSubqueue A → PerSubqueue A
set_at vertex_tiler a p = record p { vertex_tiler = a }
set_at fragment a p = record p { fragment = a }
set_at compute a p = record p { compute = a }

abbrev pub no_mask : Mask
no_mask = record { vertex_tiler = false; fragment = false; compute = false }

abbrev pub bit : Bool → ℕ
bit true = 1
bit false = 0

-- util_bitcount()
abbrev pub bitcount : Mask → ℕ
bitcount m = bit m.vertex_tiler + bit m.fragment + bit m.compute

-- CS_IDVS_RES and its like
pub record Resources : Type 0 where
  pub idvs : Bool
  pub tiler : Bool
  pub frag : Bool
  pub comp : Bool

abbrev pub no_resources : Resources
no_resources = record { idvs = false; tiler = false; frag = false; comp = false }

-- get_resource_mask
abbrev pub get_resource_mask : Subqueue → Resources
get_resource_mask vertex_tiler = record no_resources { idvs = true; tiler = true }
get_resource_mask fragment = record no_resources { frag = true }
get_resource_mask compute = record no_resources { comp = true }

-- whether something is wanted that was not granted
abbrev pub wants_more : (wanted granted : Resources) → Bool
wants_more w g =
    w.idvs && not g.idvs || w.tiler && not g.tiler || w.frag && not g.frag || w.comp && not g.comp

-- struct cs_builder, finished by cs_end(), which leaves no current chunk: the root chunk's GPU and
-- CPU addresses, NULL being 0, its size in words, and the resources it needs
pub record Builder : Type 0 where
  pub gpu : ℕ
  pub cpu : ℕ
  pub words : ℕ
  pub req_resource : Resources

-- cs_is_empty, of a builder without a current chunk
abbrev pub cs_is_empty : Builder → Bool
cs_is_empty b = b.gpu == 0

-- cs_root_chunk_size
abbrev pub cs_root_chunk_size : Builder → ℕ
cs_root_chunk_size b = b.words * 8 % 2 ^ 32

-- the streams of a command buffer
abbrev pub CmdBuffer : Type 0
CmdBuffer = PerSubqueue Builder

-- What panvk_queue_submit_init_storage counts, and the resources that the subqueues asked for.
pub record Counted : Type 0 where
  pub qsubmit_count : ℕ
  pub req_mask : Mask
  pub granted : PerSubqueue Resources

-- a stream, by whether it needs a resource that its subqueue has not asked for
abbrev pub count_stream : (more : Bool) → Subqueue → Counted → Counted
count_stream false j c = record c { qsubmit_count = c.qsubmit_count + 1 }
count_stream true j c = record {
  qsubmit_count = c.qsubmit_count + 2;
  req_mask = set_at j true c.req_mask;
  granted = set_at j (get_resource_mask j) c.granted;
}

-- one stream of a command buffer, by whether it is empty
abbrev pub count_unless : (empty : Bool) → Subqueue → Builder → Counted → Counted
count_unless true j b c = c
count_unless false j b c = count_stream (wants_more b.req_resource (at j c.granted)) j c

abbrev pub count_builder : Subqueue → Builder → Counted → Counted
count_builder j b c = count_unless (cs_is_empty b) j b c

abbrev pub count_cmdbuf : CmdBuffer → Counted → Counted
count_cmdbuf b c =
    count_builder compute b.compute
      (count_builder fragment b.fragment (count_builder vertex_tiler b.vertex_tiler c))

abbrev pub count_cmdbufs : List CmdBuffer → Counted → Counted
count_cmdbufs [] c = c
count_cmdbufs (b ∷ bs) c = count_cmdbufs bs (count_cmdbuf b c)

-- the loop of panvk_queue_submit_init_storage over the command buffers
abbrev pub counted : PerSubqueue Resources → List CmdBuffer → Counted
counted granted bs =
    count_cmdbufs bs (record { qsubmit_count = 0; req_mask = no_mask; granted = granted })

-- the number of entries that panvk_queue_submit_init_storage makes room for
abbrev pub room : PerSubqueue Resources → List CmdBuffer → (waits signals : Mask) → ℕ
room granted bs waits signals =
    (counted granted bs).qsubmit_count + bitcount waits + bitcount signals

-- struct drm_panthor_queue_submit, the parts that are read here, with the entry of `stream_cpus` at
-- its place, 0 where none is set. The array has eight elements; `submit_inside` of GpuQueue/Submit
-- says which lists of entries it is enough for.
pub record Qsubmit : Type 0 where
  pub queue_index : Subqueue
  pub stream_size : ℕ
  pub stream_addr : ℕ
  pub stream_cpu : ℕ

-- the entry of a subqueue that is in the mask
abbrev pub bit_entry : (Subqueue → Qsubmit) → Subqueue → Bool → List Qsubmit
bit_entry f j false = []
bit_entry f j true = f j ∷ []

-- u_foreach_bit()
abbrev pub for_bits : (Subqueue → Qsubmit) → Mask → List Qsubmit
for_bits f m =
    bit_entry f vertex_tiler m.vertex_tiler
    ++ bit_entry f fragment m.fragment
    ++ bit_entry f compute m.compute

-- an entry with no stream, which is there for its waits or its signal
abbrev pub sync_entry : Subqueue → Qsubmit
sync_entry j = record { queue_index = j; stream_size = 0; stream_addr = 0; stream_cpu = 0 }

-- the stream that asks for a subqueue's resources: its address and its size
abbrev pub ReqStreams : Type 0
ReqStreams = PerSubqueue (ℕ × ℕ)

-- panvk_queue_submit_init_req_resource
abbrev pub req_entry : ReqStreams → Subqueue → Qsubmit
req_entry r j = record {
  queue_index = j;
  stream_size = (at j r).1;
  stream_addr = (at j r).0;
  stream_cpu = 0;
}

-- the entry of a stream, by its size
abbrev pub stream_entry : Subqueue → Builder → List Qsubmit
stream_entry j b =
    if cs_root_chunk_size b == 0
    then []
    else (record {
      queue_index = j;
      stream_size = cs_root_chunk_size b;
      stream_addr = b.gpu;
      stream_cpu = b.cpu;
    }
        ∷ [])

abbrev pub cmdbuf_entries : CmdBuffer → List Qsubmit
cmdbuf_entries b =
    stream_entry vertex_tiler b.vertex_tiler
    ++ stream_entry fragment b.fragment
    ++ stream_entry compute b.compute

-- panvk_queue_submit_init_cmdbufs
abbrev pub stream_entries : List CmdBuffer → List Qsubmit
stream_entries [] = []
stream_entries (b ∷ bs) = cmdbuf_entries b ++ stream_entries bs

-- The entries in the order of panvk_queue_submit_init_req_resource, _init_waits, _init_cmdbufs and
-- _init_signals.
abbrev pub entries :
    PerSubqueue Resources → ReqStreams → List CmdBuffer → (waits signals : Mask) → List Qsubmit
entries granted reqs bs waits signals =
    for_bits (req_entry reqs) (counted granted bs).req_mask
    ++ for_bits sync_entry waits
    ++ stream_entries bs
    ++ for_bits sync_entry signals
