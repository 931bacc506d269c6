-- ===== src/GpuQueue/Submit.antt =====
-- panvk_queue_submit_ioctl: the entries go to the kbase queue one by one, and what the ring holds
-- afterwards.
use mathlib.Core.List.{append_assoc, append-nil}
use pan_vk_kbase.Prelude.{
  ℕ, ◌+◌, ◌-◌, ◌^◌, ◌%◌, ◌≡◌, refl, sym, ap, ◌∙◌, Bool, true, false, not, ◌&&◌, ◌||◌, ◌<◌, ◌≤◌,
  Option, none, some, length, List, [], ◌∷◌, ◌++◌, leb, ◌==◌, if◌then◌else◌,
}
use pan_vk_kbase.Kernel.{M, Kernel, Log, pure, ◌>>=◌}
use pan_vk_kbase.Pan.{CsQueue, cs_queue_submit}
use pan_vk_kbase.Pan.Memory.{read_from}
use pan_vk_kbase.Pan.Ring.{IsRing, written, cs_queue_submit-appends, cs_queue_submit-IsRing}
use pan_vk_kbase.GpuQueue.{PerSubqueue, Mask, Resources, CmdBuffer, Qsubmit, ReqStreams, entries}

-- What the loop reads: the process's memory, the tiler heap's descriptor, with NULL as 0, the
-- static buffer `dummy`, and the group of the queue.
pub record Source : Type 0 where
  pub mem : ℕ → ℕ
  pub tiler_gpu : ℕ
  pub tiler_host : ℕ
  pub dummy : ℕ
  pub group : ℕ

-- where an entry's bytes are read: at its own address, in the tiler heap or in the static buffer
abbrev pub stream_cpu_of : Source → Qsubmit → ℕ
stream_cpu_of s e =
    if e.stream_cpu == 0
    then (if not (s.tiler_host == 0) && leb s.tiler_gpu e.stream_addr
        then (s.tiler_host + (e.stream_addr - s.tiler_gpu)) % 2 ^ 64
        else s.dummy)
    else e.stream_cpu

abbrev pub bytes_of : Source → Qsubmit → List ℕ
bytes_of s e = read_from s.mem (stream_cpu_of s e) e.stream_size

-- an entry that is skipped
abbrev pub is_skipped : Qsubmit → Bool
is_skipped e = (e.stream_size == 0) || (e.stream_addr == 0)

-- one round of the loop of panvk_queue_submit_ioctl
unfoldable pub submit_entry : (skipped : Bool) → Source → CsQueue → Qsubmit → M (Bool × CsQueue)
submit_entry true s q e = pure (true, q)
submit_entry false s q e = cs_queue_submit s.group q (bytes_of s e)

-- what follows a round, by whether it went well
abbrev pub go_on : (done : Bool) → M (Bool × CsQueue) → CsQueue → M (Bool × CsQueue)
go_on true rest q = rest
go_on false rest q = pure (false, q)

-- The loop: whether it returned VK_SUCCESS; otherwise the queue is lost.
unfoldable pub submit_entries : Source → CsQueue → List Qsubmit → M (Bool × CsQueue)
unfolding submit_entry
submit_entries s q [] = pure (true, q)
submit_entries s q (e ∷ es) = do
  r ← submit_entry (is_skipped e) s q e
  go_on r.0 (submit_entries s r.1 es) r.1

-- The elements of `stream_cpus`: an entry's address is stored and loaded at the entry's index.
abbrev pub stream_cpus_size : ℕ
stream_cpus_size = 8

-- By whether each entry has an element of `stream_cpus`. `none` stands for the undefined behaviour
-- of an access behind the array.
unfoldable pub submit_inside :
    (inside : Bool) → Source → CsQueue → List Qsubmit → M (Option (Bool × CsQueue))
unfolding submit_entries
submit_inside false s q es = pure none
submit_inside true s q es = do r ← submit_entries s q es; pure (some r)

-- panvk_per_arch(gpu_queue_submit) of a queue that is not lost, up to the ioctl
unfoldable pub gpu_queue_submit :
    Source
    → CsQueue
    → PerSubqueue Resources
    → ReqStreams
    → List CmdBuffer
    → (waits signals : Mask) → M (Option (Bool × CsQueue))
unfolding submit_inside
gpu_queue_submit s q granted reqs bs waits signals =
    let es = entries granted reqs bs waits signals in
    submit_inside (leb (length es) stream_cpus_size) s q es

-- the bytes of the entries that are not skipped, one behind the other
abbrev pub all_bytes : Source → List Qsubmit → List ℕ
all_bytes s [] = []
all_bytes s (e ∷ es) = (if is_skipped e then [] else bytes_of s e) ++ all_bytes s es

-- The outcome: success means that all bytes were appended, in order.
abbrev pub IsSubmitted : CsQueue → List ℕ → Bool × CsQueue → Type 0
IsSubmitted q bytes (false, q') = IsRing q'
IsSubmitted q bytes (true, q') = IsRing q' × (written q' ≡ written q ++ bytes)

-- Undefined behaviour belongs to more entries than `stream_cpus` has elements, and to no others.
abbrev pub IsEnded : (count : ℕ) → CsQueue → List ℕ → Option (Bool × CsQueue) → Type 0
IsEnded count q bytes none = stream_cpus_size < count
IsEnded count q bytes (some r) = (count ≤ stream_cpus_size) × IsSubmitted q bytes r

IsSubmitted-of_success :
    (q : CsQueue) (b : List ℕ) (r : Bool × CsQueue)
    → IsRing r.1
    → (r.0 ≡ true → IsRing r.1 × (written r.1 ≡ written q ++ b))
    → IsSubmitted q b r
IsSubmitted-of_success q b (false, q') i h = i
IsSubmitted-of_success q b (true, q') i h = h refl

submit_entry-IsSubmitted :
    (skipped : Bool) (s : Source) (q : CsQueue) (e : Qsubmit) (k : Kernel) (l : Log)
    → IsRing q
    → IsSubmitted q (if skipped then [] else bytes_of s e) (submit_entry skipped s q e k l).0
unfolding submit_entry
submit_entry-IsSubmitted true s q e k l i = (i, sym (append-nil (written q)))
submit_entry-IsSubmitted false s q e k l i =
    let b = bytes_of s e in
    IsSubmitted-of_success q b (cs_queue_submit s.group q b k l).0
      (cs_queue_submit-IsRing s.group q b k l i) (cs_queue_submit-appends s.group q b k l i)

IsSubmitted-append :
    (q q' : CsQueue) (b c : List ℕ) (r : Bool × CsQueue)
    → written q' ≡ written q ++ b
    → IsSubmitted q' c r
    → IsSubmitted q (b ++ c) r
IsSubmitted-append q q' b c (false, q'') e h = h
IsSubmitted-append q q' b c (true, q'') e h =
    (h.0, h.1 ∙ ap (λ w. w ++ c) e ∙ append_assoc (written q) b c)

go_on-IsSubmitted :
    (q : CsQueue) (b c : List ℕ) (r : (Bool × CsQueue) × Log) (rest : CsQueue → M (Bool × CsQueue))
    (k : Kernel)
    → IsSubmitted q b r.0
    → ((q' : CsQueue) (l : Log) → IsRing q' → IsSubmitted q' c (rest q' k l).0)
    → IsSubmitted q (b ++ c) (go_on r.0.0 (rest r.0.1) r.0.1 k r.1).0
go_on-IsSubmitted q b c ((false, q'), l) rest k h t = h
go_on-IsSubmitted q b c ((true, q'), l) rest k h t =
    IsSubmitted-append q q' b c (rest q' k l).0 h.1 (t q' l h.0)

-- A submission writes the calls of its entries in their order, up to the first one that fails.
pub submit_entries-IsSubmitted :
    (s : Source) (q : CsQueue) (es : List Qsubmit) (k : Kernel) (l : Log)
    → IsRing q
    → IsSubmitted q (all_bytes s es) (submit_entries s q es k l).0
unfolding submit_entries
submit_entries-IsSubmitted s q [] k l i = (i, sym (append-nil (written q)))
submit_entries-IsSubmitted s q (e ∷ es) k l i =
    go_on-IsSubmitted q (if is_skipped e then [] else bytes_of s e) (all_bytes s es)
      (submit_entry (is_skipped e) s q e k l) (λ q'. submit_entries s q' es) k
      (submit_entry-IsSubmitted (is_skipped e) s q e k l i)
      (λ q' l'. submit_entries-IsSubmitted s q' es k l')
