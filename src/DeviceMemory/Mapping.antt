-- ===== src/DeviceMemory/Mapping.antt =====
-- The application's memory under any sequence of mappings and unmappings.
use pan_vk_kbase.Prelude.{
  ℕ, ◌+◌, ◌≡◌, refl, subst, sym, Bool, true, false, Option, none, some, List, [], ◌∷◌, ◌==◌,
  if◌then◌else◌, arith,
}
use pan_vk_kbase.Kernel.{Kernel, Log, Call, Reply, ok, fail, M, pure, ◌>>=◌}
use pan_vk_kbase.Kernel.Ledger.{Kind, held, one, region, mapping}
use pan_vk_kbase.Pan.{PanBo, kbase_bo_get_mmap_offset}
use pan_vk_kbase.PrivBo.{bo_mmap}
use pan_vk_kbase.DeviceMemory.{
  DeviceMemory, mapped, bo_mmap_placed, mmap_for, map_if, map_memory, unmap_memory,
}

-- What the host pointer stands for.
abbrev pub host_of : (host : ℕ) → Kind → ℕ → ℕ
host_of host κ x = if host == 0 then 0 else one mapping host κ x

pub data MapOp : Type 0 where
  map_op : (placed : Option ℕ) (offset : ℕ) → MapOp
  unmap_op : (reserve : Bool) → MapOp

-- the memory after one call of the application, successful or not
unfoldable pub map_step : MapOp → DeviceMemory → M DeviceMemory
unfolding map_memory unmap_memory
map_step (map_op placed offset) m = do r ← map_memory placed offset m; pure r.2
map_step (unmap_op reserve) m = do r ← unmap_memory reserve m; pure r.1

unfoldable pub map_run : List MapOp → DeviceMemory → M DeviceMemory
unfolding map_step
map_run [] m = pure m
map_run (o ∷ os) m = do m' ← map_step o m; map_run os m'

-- The anonymous mapping that an unmapping with a reservation leaves, by the kernel's reply: with
-- MAP_FIXED the address is that of the mapping.
abbrev pub reservation : Reply → Kind → ℕ → ℕ
reservation (fail e) κ x = 0
reservation (ok o) κ x = one mapping o.value κ x

-- the anonymous mappings that the unmappings of a run leave
abbrev pub reserved_by : Kernel → List MapOp → DeviceMemory → Log → Kind → ℕ → ℕ
reserved_by k [] m l κ x = 0
reserved_by k (map_op placed offset ∷ os) m l κ x =
    let s = map_memory placed offset m k l in reserved_by k os s.0.2 s.1 κ x
reserved_by k (unmap_op false ∷ os) m l κ x =
    let s = unmap_memory false m k l in reserved_by k os s.0.1 s.1 κ x
reserved_by k (unmap_op true ∷ os) m l κ x =
    let s = unmap_memory true m k l in
    reservation (k l (Call.mmap_reserve m.host m.bo.size)) κ x + reserved_by k os s.0.1 s.1 κ x

-- No mapping of the run is placed at this name.
abbrev pub IsElsewhere : List MapOp → Kind → ℕ → Type 0
IsElsewhere [] κ x = Unit {0}
IsElsewhere (map_op none offset ∷ os) κ x = IsElsewhere os κ x
IsElsewhere (map_op (some p) offset ∷ os) κ x = (one mapping p κ x ≡ 0) × IsElsewhere os κ x
IsElsewhere (unmap_op reserve ∷ os) κ x = IsElsewhere os κ x

-- not placed at this name
abbrev IsApart : (placed : Option ℕ) → Kind → ℕ → Type 0
IsApart none κ x = Unit {0}
IsApart (some p) κ x = one mapping p κ x ≡ 0

-- The memory is the one that `m0` was, but for its host pointer, and holds `base` and its mapping.
abbrev pub IsOf : (m0 : DeviceMemory) (base : ℕ) → DeviceMemory → Log → Kind → ℕ → Type 0
IsOf m0 base m l κ x =
    (m.self ≡ m0.self)
    × (m.bo ≡ m0.bo)
    × (m.dev_addr ≡ m0.dev_addr)
    × (m.replay ≡ m0.replay)
    × (held l κ x ≡ base + host_of m.host κ x)

module _ (k : Kernel) (κ : Kind) (x : ℕ) (not_null : one mapping 0 κ x ≡ 0) where
  one-host_of : (v : ℕ) → one mapping v κ x ≡ host_of v κ x
  one-host_of v = ground (arith, not_null)

  host_of_null : (host : ℕ) → (host == 0) ≡ true → host_of host κ x ≡ 0
  host_of_null host z = rw z refl

  module _ (m0 : DeviceMemory) (not_region : one region m0.bo.priv κ x ≡ 0) (base : ℕ) where
    mapped-IsOf :
        (a : Option ℕ) (offset : ℕ) (m : DeviceMemory) (l l' : Log)
        → (m.host == 0) ≡ true
        → IsOf m0 base m l κ x
        → held l' κ x ≡ held l κ x + elim a [ none ↦ 0 | some v ↦ one mapping v κ x ]
        → IsOf m0 base (mapped a offset m).2 l' κ x
    mapped-IsOf none offset m l l' z h e = (h.0, h.1, h.2, h.3, omega (arith, h.4, e))
    mapped-IsOf (some v) offset m l l' z h e =
        (h.0, h.1, h.2, h.3, omega (arith, h.4, e, one-host_of v, host_of_null m.host z))

    held-bo_mmap :
        (b : PanBo) (l : Log)
        → one region b.priv κ x ≡ 0
        → held (bo_mmap b k l).1 κ x
          ≡ held l κ x + elim (bo_mmap b k l).0 [ none ↦ 0 | some v ↦ one mapping v κ x ]
    unfolding bo_mmap kbase_bo_get_mmap_offset
    held-bo_mmap b l h = ground (arith, h)

    held-bo_mmap_placed :
        (p : ℕ) (b : PanBo) (l : Log)
        → one mapping p κ x ≡ 0
        → one region b.priv κ x ≡ 0
        → held (bo_mmap_placed p b k l).1 κ x
          ≡ held l κ x + elim (bo_mmap_placed p b k l).0 [ none ↦ 0 | some v ↦ one mapping v κ x ]
    unfolding bo_mmap_placed kbase_bo_get_mmap_offset
    held-bo_mmap_placed p b l e h = ground (arith, e, h)

    held-mmap_for :
        (placed : Option ℕ) (b : PanBo) (l : Log)
        → IsApart placed κ x
        → one region b.priv κ x ≡ 0
        → held (mmap_for placed b k l).1 κ x
          ≡ held l κ x + elim (mmap_for placed b k l).0 [ none ↦ 0 | some v ↦ one mapping v κ x ]
    unfolding mmap_for
    held-mmap_for none b l e h = held-bo_mmap b l h
    held-mmap_for (some p) b l e h = held-bo_mmap_placed p b l e h

    map_if-IsOf :
        (is_null : Bool) (placed : Option ℕ) (offset : ℕ) (m : DeviceMemory) (l : Log)
        → IsApart placed κ x
        → (m.host == 0) ≡ is_null
        → IsOf m0 base m l κ x
        → IsOf m0 base
            (map_if is_null placed offset m k l).0.2
            (map_if is_null placed offset m k l).1
            κ
            x
    unfolding map_if
    map_if-IsOf false placed offset m l p z h = h
    map_if-IsOf true placed offset m l p z h =
        let a = mmap_for placed m.bo k l in
        mapped-IsOf a.0 offset m l a.1 z h (
          held-mmap_for placed m.bo l p
            (subst (λ (b : PanBo). one region b.priv κ x ≡ 0) (sym h.1) not_region))

    held-map_memory :
        (placed : Option ℕ) (offset : ℕ) (m : DeviceMemory) (l : Log)
        → IsApart placed κ x
        → IsOf m0 base m l κ x
        → IsOf m0 base (map_memory placed offset m k l).0.2 (map_memory placed offset m k l).1 κ x
    unfolding map_memory
    held-map_memory placed offset m l p h = map_if-IsOf (m.host == 0) placed offset m l p refl h

    held-unmap_memory :
        (m : DeviceMemory) (l : Log)
        → IsOf m0 base m l κ x
        → IsOf m0 base (unmap_memory false m k l).0.1 (unmap_memory false m k l).1 κ x
    unfolding unmap_memory
    held-unmap_memory m l h = ground (arith, h, not_null)

    held-unmap_reserve :
        (m : DeviceMemory) (l : Log)
        → IsOf m0 base m l κ x
        → let u = unmap_memory true m k l in
          IsOf m0 (base + reservation (k l (Call.mmap_reserve m.host m.bo.size)) κ x) u.0.1 u.1 κ x
    unfolding unmap_memory
    held-unmap_reserve m l h = ground (arith, h, not_null)

  module _ (m0 : DeviceMemory) (not_region : one region m0.bo.priv κ x ≡ 0) where
    pub map_run-IsOf :
        (os : List MapOp) (m : DeviceMemory) (l : Log) (base : ℕ)
        → IsElsewhere os κ x
        → IsOf m0 base m l κ x
        → IsOf m0 (base + reserved_by k os m l κ x) (map_run os m k l).0 (map_run os m k l).1 κ x
    unfolding map_run map_step
    map_run-IsOf [] m l base p h = (h.0, h.1, h.2, h.3, omega (arith, h.4))
    map_run-IsOf (map_op none o ∷ os) m l base p h =
        let r = map_memory none o m k l in
        map_run-IsOf os r.0.2 r.1 base p (held-map_memory m0 not_region base none o m l tt h)
    map_run-IsOf (map_op (some a) o ∷ os) m l base p h =
        let r = map_memory (some a) o m k l in
        map_run-IsOf os r.0.2 r.1 base p.1 (held-map_memory m0 not_region base (some a) o m l p.0 h)
    map_run-IsOf (unmap_op false ∷ os) m l base p h =
        let s = unmap_memory false m k l in
        map_run-IsOf os s.0.1 s.1 base p (held-unmap_memory m0 not_region base m l h)
    map_run-IsOf (unmap_op true ∷ os) m l base p h =
        let s = unmap_memory true m k l in
        let r =
          map_run-IsOf os s.0.1 s.1
            (base + reservation (k l (Call.mmap_reserve m.host m.bo.size)) κ x) p
            (held-unmap_reserve m0 not_region base m l h) in
        (r.0, r.1, r.2, r.3, omega (arith, r.4))
