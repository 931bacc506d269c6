-- ===== src/GpuQueue/Count.antt =====
-- The room that panvk_queue_submit_init_storage makes is enough for the entries that the other
-- steps write.
use pan_vk_kbase.Prelude.{
  ◌+◌, ◌≡◌, ◌≤◌, ◌⊎◌, inl, inr, Bool, true, false, List, [], ◌∷◌, ◌++◌, length, length-append,
  arith,
}
use pan_vk_kbase.GpuQueue.{
  Subqueue, PerSubqueue, Mask, no_mask, at, bitcount, Resources, wants_more, Builder, cs_is_empty,
  CmdBuffer, Counted, count_stream, count_unless, count_builder, count_cmdbuf, count_cmdbufs,
  counted, room, Qsubmit, for_bits, sync_entry, ReqStreams, req_entry, stream_entry, cmdbuf_entries,
  stream_entries, entries,
}

-- A builder without a chunk has no words.
abbrev pub IsFinished : Builder → Type 0
IsFinished b = (cs_is_empty b ≡ false) ⊎ (b.words ≡ 0)

abbrev pub AllFinished : List CmdBuffer → Type 0
AllFinished [] = Unit {0}
AllFinished (b ∷ bs) =
    IsFinished b.vertex_tiler × IsFinished b.fragment × IsFinished b.compute × AllFinished bs

-- What an entry is counted: one more for each subqueue that is new in the mask.
count_stream-room :
    (more : Bool) (j : Subqueue) (c : Counted)
    → c.qsubmit_count + 1 + bitcount (count_stream more j c).req_mask
      ≤ (count_stream more j c).qsubmit_count + bitcount c.req_mask
count_stream-room false j c = omega arith
count_stream-room true Subqueue.vertex_tiler c = ground arith
count_stream-room true Subqueue.fragment c = ground arith
count_stream-room true Subqueue.compute c = ground arith

length-stream_entry : (j : Subqueue) (b : Builder) → length (stream_entry j b) ≤ 1
length-stream_entry j b = ground arith

length-no_words : (j : Subqueue) (b : Builder) → b.words ≡ 0 → length (stream_entry j b) ≡ 0
length-no_words j b e = ground (arith, e)

count_unless-room :
    (empty : Bool) (j : Subqueue) (b : Builder) (c : Counted)
    → (empty ≡ false) ⊎ (b.words ≡ 0)
    → c.qsubmit_count + length (stream_entry j b) + bitcount (count_unless empty j b c).req_mask
      ≤ (count_unless empty j b c).qsubmit_count + bitcount c.req_mask
count_unless-room true j b c (inl e) = absurd (ground (arith, e))
count_unless-room true j b c (inr e) = omega (arith, length-no_words j b e)
count_unless-room false j b c f =
    let more = wants_more b.req_resource (at j c.granted) in
    omega (arith, length-stream_entry j b, count_stream-room more j c)

length-for_bits : (f : Subqueue → Qsubmit) (m : Mask) → length (for_bits f m) ≡ bitcount m
length-for_bits f m = ground arith

count_cmdbuf-room :
    (b : CmdBuffer) (c : Counted)
    → IsFinished b.vertex_tiler
    → IsFinished b.fragment
    → IsFinished b.compute
    → c.qsubmit_count + length (cmdbuf_entries b) + bitcount (count_cmdbuf b c).req_mask
      ≤ (count_cmdbuf b c).qsubmit_count + bitcount c.req_mask
count_cmdbuf-room b c f g h =
    let u = Subqueue.vertex_tiler in
    let v = Subqueue.fragment in
    let w = Subqueue.compute in
    let c1 = count_builder u b.vertex_tiler c in
    let c2 = count_builder v b.fragment c1 in
    let x = stream_entry u b.vertex_tiler in
    let y = stream_entry v b.fragment in
    omega (
      arith,
      length-append (x ++ y) (stream_entry w b.compute),
      length-append x y,
      count_unless-room (cs_is_empty b.vertex_tiler) u b.vertex_tiler c f,
      count_unless-room (cs_is_empty b.fragment) v b.fragment c1 g,
      count_unless-room (cs_is_empty b.compute) w b.compute c2 h,
    )

count_cmdbufs-room :
    (bs : List CmdBuffer) (c : Counted)
    → AllFinished bs
    → c.qsubmit_count + length (stream_entries bs) + bitcount (count_cmdbufs bs c).req_mask
      ≤ (count_cmdbufs bs c).qsubmit_count + bitcount c.req_mask
count_cmdbufs-room [] c f = omega arith
count_cmdbufs-room (b ∷ bs) c f =
    let c1 = count_cmdbuf b c in
    omega (
      arith,
      length-append (cmdbuf_entries b) (stream_entries bs),
      count_cmdbuf-room b c f.0 f.1 f.2,
      count_cmdbufs-room bs c1 f.3,
    )

-- Where a builder without a chunk has no words, the entries that a submission writes are no more
-- than panvk_queue_submit_init_storage counted, with those for resources, waits and signals.
pub entries-room :
    (granted : PerSubqueue Resources) (reqs : ReqStreams) (bs : List CmdBuffer)
    (waits signals : Mask)
    → AllFinished bs
    → length (entries granted reqs bs waits signals) ≤ room granted bs waits signals
entries-room granted reqs bs waits signals f =
    let req = for_bits (req_entry reqs) (counted granted bs).req_mask in
    let w = for_bits sync_entry waits in
    let st = stream_entries bs in
    let sg = for_bits sync_entry signals in
    omega (
      arith,
      length-append (req ++ w ++ st) sg,
      length-append (req ++ w) st,
      length-append req w,
      length-for_bits (req_entry reqs) (counted granted bs).req_mask,
      length-for_bits sync_entry waits,
      length-for_bits sync_entry signals,
      count_cmdbufs-room bs (record { qsubmit_count = 0; req_mask = no_mask; granted = granted }) f,
    )
