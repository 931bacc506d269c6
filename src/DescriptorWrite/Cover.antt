-- ===== src/DescriptorWrite/Cover.antt =====
-- The flushes of UpdateDescriptorSets cover all that it wrote and copied.
use pan_vk_kbase.Prelude.{
  ℕ, zero, suc, ◌+◌, ◌*◌, ◌%◌, ◌^◌, ◌≡◌, ◌≢◌, refl, sym, ap, ◌∙◌, subst, Bool, true, false, ◌&&◌,
  ◌||◌, Option, List, [], ◌∷◌, leb, ◌==◌, if◌then◌else◌, arith,
}
use native.Mathlib.Decide.{ℕ_discrete}
use pan_vk_kbase.DescriptorLayout.{DescriptorType, Subdesc, descriptor_size, stride_in}
use pan_vk_kbase.DescriptorWrite.{Bytes, Packing, WrittenSet, write_desc_data}
use pan_vk_kbase.DescriptorWrite.Update.{descriptor_set_write, flush_if, descriptor_set_flush}
use pan_vk_kbase.DescriptorWrite.Copy.{
  Sets, change_set, CopySet, slot_bytes, src_layout, copy_elems, with_entries, copy_dynamic,
  copy_inline, copy_typed, descriptor_set_copy, SetWrite, write_sets, copy_sets, flush_sets,
  names_of, update_sets,
}
use pan_vk_kbase.DescriptorWrite.Flush.{
  Kept, write_desc_data-Kept, write_typed-Kept, covers, flush_if-Kept,
}

-- Each set is kept outside of its dirty range.
AllKept : (old : ℕ → Bytes) → Sets → Type 0
AllKept old sets = (x : ℕ) → Kept (old x) (sets x)

module _ (old : ℕ → Bytes) where
  choose-Kept :
      (b : Bool) (x : ℕ) (f : WrittenSet → WrittenSet) (s : WrittenSet)
      → ((was : Bytes) (s : WrittenSet) → Kept was s → Kept was (f s))
      → Kept (old x) s
      → Kept (old x) (if b then f s else s)
  choose-Kept true x f s g h = g (old x) s h
  choose-Kept false x f s g h = h

  change_set-AllKept :
      (d : ℕ) (f : WrittenSet → WrittenSet) (sets : Sets)
      → ((was : Bytes) (s : WrittenSet) → Kept was s → Kept was (f s))
      → AllKept old sets
      → AllKept old (change_set d f sets)
  unfolding AllKept change_set
  change_set-AllKept d f sets g h x = choose-Kept (x == d) x f (sets x) g (h x)

  write_sets-AllKept :
      (k : Packing) (ws : List SetWrite) (sets : Sets)
      → AllKept old sets
      → AllKept old (write_sets k ws sets)
  unfolding write_sets descriptor_set_write
  write_sets-AllKept k [] sets h = h
  write_sets-AllKept k (w ∷ ws) sets h =
      write_sets-AllKept k ws (change_set w.dst_set (descriptor_set_write k w.write false) sets) (
        change_set-AllKept w.dst_set (descriptor_set_write k w.write false) sets
          (λ was s g. write_typed-Kept was k w.write.type w.write false s g) h)

  copy_elems-AllKept :
      (n i : ℕ) (c : CopySet) (sets : Sets) → AllKept old sets → AllKept old (copy_elems n i c sets)
  unfolding copy_elems
  copy_elems-AllKept zero i c sets h = h
  copy_elems-AllKept (suc n) i c sets h =
      let e = (c.dst_elem + i) % 2 ^ 32 in
      let src = slot_bytes (sets c.src_set) c.src_binding ((c.src_elem + i) % 2 ^ 32) in
      let size = descriptor_size * stride_in (src_layout c sets) % 2 ^ 32 in
      let f = write_desc_data c.dst_binding e Subdesc.no_subdesc 0 src size in
      copy_elems-AllKept n (suc i) c (change_set c.dst_set f sets) (
        change_set-AllKept c.dst_set f sets
          (λ was s g. write_desc_data-Kept was c.dst_binding e Subdesc.no_subdesc 0 src size s g) h)

  copy_dynamic-AllKept :
      (c : CopySet) (sets : Sets) → AllKept old sets → AllKept old (copy_dynamic c sets)
  unfolding copy_dynamic Kept
  copy_dynamic-AllKept c sets h =
      change_set-AllKept c.dst_set (with_entries c sets) sets (λ was s g. g) h

  copy_inline-AllKept :
      (c : CopySet) (sets : Sets) → AllKept old sets → AllKept old (copy_inline c sets)
  unfolding copy_inline
  copy_inline-AllKept c sets h =
      let src =
        λ (o : ℕ). slot_bytes (sets c.src_set) c.src_binding 0 (descriptor_size + c.src_elem + o) in
      change_set-AllKept c.dst_set
        (write_desc_data c.dst_binding 1 Subdesc.no_subdesc c.dst_elem src c.count) sets
        (λ was s g.
          write_desc_data-Kept was c.dst_binding 1 Subdesc.no_subdesc c.dst_elem src c.count s g)
        h

  copy_typed-AllKept :
      (t : DescriptorType) (c : CopySet) (sets : Sets)
      → AllKept old sets
      → AllKept old (copy_typed t c sets)
  unfolding copy_typed
  copy_typed-AllKept DescriptorType.uniform_buffer_dynamic c sets h = copy_dynamic-AllKept c sets h
  copy_typed-AllKept DescriptorType.storage_buffer_dynamic c sets h = copy_dynamic-AllKept c sets h
  copy_typed-AllKept DescriptorType.inline_uniform_block c sets h = copy_inline-AllKept c sets h
  copy_typed-AllKept t c sets h = copy_elems-AllKept c.count 0 c sets h

  copy_sets-AllKept :
      (cs : List CopySet) (sets : Sets) → AllKept old sets → AllKept old (copy_sets cs sets)
  unfolding copy_sets descriptor_set_copy
  copy_sets-AllKept [] sets h = h
  copy_sets-AllKept (c ∷ cs) sets h =
      copy_sets-AllKept cs (descriptor_set_copy c sets)
        (copy_typed-AllKept (src_layout c sets).type c sets h)

abbrev pub is_in : ℕ → List ℕ → Bool
is_in x [] = false
is_in x (d ∷ ds) = (x == d) || is_in x ds

-- One of the ranges is of this set and holds this byte.
abbrev pub covered : List (ℕ × Option (ℕ × ℕ)) → (set byte : ℕ) → Bool
covered [] x o = false
covered ((d, r) ∷ rs) x o = ((x == d) && covers r o) || covered rs x o

-- A flush leaves the bytes.
flush_if-bytes : (b : Bool) (s : WrittenSet) → (flush_if b true s).set.bytes ≡ s.bytes
unfolding flush_if
flush_if-bytes true s = refl
flush_if-bytes false s = refl

flushed_if-bytes :
    (b : Bool) (s : WrittenSet)
    → (if b then (descriptor_set_flush true s).set else s).bytes ≡ s.bytes
unfolding descriptor_set_flush
flushed_if-bytes true s = flush_if-bytes (leb s.dirty_max s.dirty_min) s
flushed_if-bytes false s = refl

flushed-bytes :
    (d x : ℕ) (sets : Sets)
    → (change_set d (λ s. (descriptor_set_flush true s).set) sets x).bytes ≡ (sets x).bytes
unfolding change_set
flushed-bytes d x sets = flushed_if-bytes (x == d) (sets x)

flush_sets-bytes :
    (ds : List ℕ) (sets : Sets) (x : ℕ) → ((flush_sets ds sets).sets x).bytes ≡ (sets x).bytes
unfolding flush_sets
flush_sets-bytes [] sets x = refl
flush_sets-bytes (d ∷ ds) sets x =
    flush_sets-bytes ds (change_set d (λ s. (descriptor_set_flush true s).set) sets) x
    ∙ flushed-bytes d x sets

flush-covered :
    (s : WrittenSet) (was : Bytes) (o : ℕ)
    → Kept was s
    → covers (descriptor_set_flush true s).range o ≡ false
    → s.bytes o ≡ was o
unfolding descriptor_set_flush
flush-covered s was o h c = flush_if-Kept (leb s.dirty_max s.dirty_min) was s o refl h c

not_first : (a b c : Bool) → a ≡ true → ((a && b) || c) ≡ false → b ≡ false
not_first a b c h q = ground (arith, h, q)

not_rest : (a b c : Bool) → ((a && b) || c) ≡ false → c ≡ false
not_rest a b c q = ground (arith, q)

other_set :
    (d x : ℕ) (f : WrittenSet → WrittenSet) (sets : Sets) → x ≢ d → change_set d f sets x ≡ sets x
unfolding change_set
other_set d x f sets n = ground (arith, n)

flush_sets-covered :
    (ds : List ℕ) (sets : Sets) (was : Bytes) (x o : ℕ)
    → is_in x ds ≡ true
    → Kept was (sets x)
    → covered (flush_sets ds sets).ranges x o ≡ false
    → (sets x).bytes o ≡ was o
unfolding flush_sets
flush_sets-covered [] sets was x o i h c = ground (arith, i)
flush_sets-covered (d ∷ ds) sets was x o i h c = elim (ℕ_discrete x d) [
  | yes e ↦
      let q =
        not_first (x == d) (covers (descriptor_set_flush true (sets d)).range o)
          (covered
            (flush_sets ds (change_set d (λ s. (descriptor_set_flush true s).set) sets)).ranges x o)
          (ground (arith, e)) c in
      flush-covered (sets x) was o h
        (ap (λ y. covers (descriptor_set_flush true (sets y)).range o) e ∙ q)
  | no n ↦
      let sets' = change_set d (λ s. (descriptor_set_flush true s).set) sets in
      let same = other_set d x (λ s. (descriptor_set_flush true s).set) sets n in
      ap (λ s. s.bytes o) (sym same)
      ∙ flush_sets-covered ds sets' was x o (ground (arith, i, n)) (subst (Kept was) (sym same) h) (
          not_rest (x == d) (covers (descriptor_set_flush true (sets d)).range o)
            (covered (flush_sets ds sets').ranges x o) c)
]

-- After UpdateDescriptorSets with any writes and copies, on pools with a buffer, a byte of a set
-- that it writes or copies to, which no flush of that set covers, is as it was before.
pub update_sets-covered :
    (k : Packing) (ws : List SetWrite) (cs : List CopySet) (sets : Sets) (x o : ℕ)
    → is_in x (names_of ws cs) ≡ true
    → covered (update_sets k ws cs sets).ranges x o ≡ false
    → ((update_sets k ws cs sets).sets x).bytes o ≡ (sets x).bytes o
unfolding update_sets AllKept Kept
update_sets-covered k ws cs sets x o i c =
    let old : ℕ → Bytes = λ y. (sets y).bytes in
    let mid = copy_sets cs (write_sets k ws sets) in
    let kept =
      copy_sets-AllKept old cs (write_sets k ws sets)
        (write_sets-AllKept old k ws sets (λ y p q. refl)) in
    ap (λ f. f o) (flush_sets-bytes (names_of ws cs) mid x)
    ∙ flush_sets-covered (names_of ws cs) mid (old x) x o i (kept x) c
