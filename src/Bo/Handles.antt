-- ===== src/Bo/Handles.antt =====
-- Handles: each object gets the next one, and no two of a run of allocations are equal.
use pan_vk_kbase.Prelude.{
  ℕ, suc, ◌+◌, ◌%◌, ◌^◌, ◌<◌, ◌≡◌, refl, ap, sym, ◌∙◌, subst, ◌||◌, Bool, Option, none, some, List,
  [], ◌∷◌, arith, inl, inr, Bool-cases, length,
}
use pan_vk_kbase.Flags.{BoFlags}
use pan_vk_kbase.Kernel.{Kernel, Log, M, pure, ◌>>=◌}
use pan_vk_kbase.Device.{Device, Bo, next_handle}
use pan_vk_kbase.Dmabuf.{Made, import_dmabuf}
use pan_vk_kbase.Bo.{bo_alloc_dmabuf, bo_alloc_kbase, bo_alloc_from, bo_alloc}

-- An object has the next handle, which the counter then stands at; on failure the device is the same.
pub record TakesHandle (d : Device) (m : Made) : Type 0 where
  pub kept : m.0 ≡ none → m.1 ≡ d
  pub handle : (b : Bo) → m.0 ≡ some b → b.handle ≡ (d.next_handle + 1) % 2 ^ 32
  pub counter :
      (b : Bo) → m.0 ≡ some b → m.1 ≡ record d { next_handle = (d.next_handle + 1) % 2 ^ 32 }

module _ (d : Device) (k : Kernel) where
  TakesHandle-bo_alloc_kbase :
      (vm : Option ℕ) (size : ℕ) (f : BoFlags) (l : Log)
      → TakesHandle d (bo_alloc_kbase d vm size f k l).0
  unfolding bo_alloc_kbase next_handle
  TakesHandle-bo_alloc_kbase vm size f l = record {
    kept = λ h. ground arith;
    handle = λ b h. ground arith;
    counter = λ b h. ground arith;
  }

  TakesHandle-import_dmabuf :
      (n : ℕ) (f : BoFlags) (ext : Bool) (l : Log)
      → TakesHandle d (import_dmabuf d none n f ext k l).0
  unfolding import_dmabuf next_handle
  TakesHandle-import_dmabuf n f ext l = record {
    kept = λ h. ground arith;
    handle = λ b h. ground arith;
    counter = λ b h. ground arith;
  }

  TakesHandle-bo_alloc_dmabuf :
      (heap_fd size : ℕ) (f : BoFlags) (l : Log)
      → TakesHandle d (bo_alloc_dmabuf d heap_fd size f k l).0
  unfolding bo_alloc_dmabuf next_handle
  TakesHandle-bo_alloc_dmabuf heap_fd size f l = record {
    kept = λ h. ground arith;
    handle = λ b h. ground arith;
    counter = λ b h. ground arith;
  }

  TakesHandle-bo_alloc_from :
      (heap vm : Option ℕ) (size : ℕ) (f : BoFlags) (l : Log)
      → TakesHandle d (bo_alloc_from heap d vm size f k l).0
  unfolding bo_alloc_from
  TakesHandle-bo_alloc_from (some h) none size f l =
      elim (Bool-cases (f.executable || f.alloc_on_fault || f.csf_event)) [
        | inl t ↦ rw t (TakesHandle-bo_alloc_kbase none size f l)
        | inr t ↦ rw t (TakesHandle-bo_alloc_dmabuf h size f l)
      ]
  TakesHandle-bo_alloc_from none none size f l = TakesHandle-bo_alloc_kbase none size f l
  TakesHandle-bo_alloc_from (some h) (some vm) size f l =
      TakesHandle-bo_alloc_kbase (some vm) size f l
  TakesHandle-bo_alloc_from none (some vm) size f l = TakesHandle-bo_alloc_kbase (some vm) size f l

  TakesHandle-bo_alloc :
      (vm : Option ℕ) (size : ℕ) (f : BoFlags) (l : Log)
      → TakesHandle d (bo_alloc d vm size f k l).0
  unfolding bo_alloc
  TakesHandle-bo_alloc vm size f l = TakesHandle-bo_alloc_from d.dma_heap_fd vm size f l

pub record Request : Type 0 where
  pub vm : Option ℕ
  pub size : ℕ
  pub flags : BoFlags

abbrev keep : Option Bo → List Bo → List Bo
keep none bs = bs
keep (some b) bs = b ∷ bs

-- A client's allocations one after another, and the objects that it gets.
bo_allocs : Device → List Request → M (List Bo)
bo_allocs d [] = pure []
bo_allocs d (r ∷ rs) = do
  (b, d') ← bo_alloc d r.vm r.size r.flags
  bs ← bo_allocs d' rs
  pure (keep b bs)

-- each handle above `n` and above those before it
abbrev pub Increasing : ℕ → List Bo → Type 0
Increasing n [] = Unit
Increasing n (b ∷ bs) = (n < b.handle) × Increasing b.handle bs

Increasing-keep :
    (d : Device) (m : Made) (bs : List Bo)
    → TakesHandle d m
    → d.next_handle + 1 < 2 ^ 32
    → Increasing m.1.next_handle bs
    → Increasing d.next_handle (keep m.0 bs)
Increasing-keep d (none, d') bs t h i =
    subst (λ (c : Device). Increasing c.next_handle bs) (t.kept refl) i
Increasing-keep d (some b, d') bs t h i = (
  omega (arith, t.handle b refl),
  subst (λ n. Increasing n bs)
      (ap (λ (c : Device). c.next_handle) (t.counter b refl) ∙ sym (t.handle b refl)) i,
)

-- the counter after one allocation
next_handle-made :
    (d : Device) (m : Made) (n : ℕ)
    → TakesHandle d m
    → d.next_handle + suc n < 2 ^ 32
    → m.1.next_handle + n < 2 ^ 32
next_handle-made d (none, d') n t h =
    omega (arith, ap (λ (c : Device). c.next_handle) (t.kept refl))
next_handle-made d (some b, d') n t h =
    omega (arith, ap (λ (c : Device). c.next_handle) (t.counter b refl))

-- In a run of fewer than 2 ^ 32 allocations, counted with those before, every object's handle is
-- above all handles before it.
bo_allocs-Increasing :
    (rs : List Request) (d : Device) (k : Kernel) (l : Log)
    → d.next_handle + length rs < 2 ^ 32
    → Increasing d.next_handle (bo_allocs d rs k l).0
unfolding bo_allocs
bo_allocs-Increasing [] d k l h = tt
bo_allocs-Increasing (r ∷ rs) d k l h =
    let t = TakesHandle-bo_alloc d k r.vm r.size r.flags l in
    Increasing-keep d (bo_alloc d r.vm r.size r.flags k l).0 _ t (omega (arith))
      (bo_allocs-Increasing rs _ k _ (next_handle-made d _ (length rs) t h))
