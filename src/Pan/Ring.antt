-- ===== src/Pan/Ring.antt =====
-- The queue of pan_kmod.c as a log of bounded size: what was submitted stands in the ring in order,
-- and nothing of it is overwritten.
use mathlib.Core.List.{append_assoc, append-nil}
use pan_vk_kbase.Prelude.{
  ℕ, ◌+◌, ◌*◌, ◌≤◌, ◌≡◌, refl, sym, ◌∙◌, Bool, true, false, ◌&&◌, not, List, [], ◌∷◌, ◌++◌, arith,
  ◌==◌, leb, if◌then◌else◌, length,
}
use pan_vk_kbase.Kernel.{Kernel, Log, M, pure, ◌>>=◌}
use pan_vk_kbase.Pan.{
  CsQueue, submit_created, submit_fitting, advanced, submit_from, cs_queue_submit, cs_queue_create,
  create_user_io, create_bound, kbase_bo_alloc,
}
use pan_vk_kbase.Pan.Memory.{read_from, read_from-append}

-- A queue that was created: its ring has 64 KiB, and the input page does not point behind it.
pub record IsRing (q : CsQueue) : Type 0 where
  pub created : q.created ≡ true
  pub ring_size : q.ring_size ≡ 64 * 1024
  pub inside : q.input_page ≤ 64 * 1024

-- all bytes that were submitted
abbrev pub written : CsQueue → List ℕ
written q = read_from q.ring_bytes 0 q.input_page

-- a stream that is not empty and for which there is room
abbrev pub fits : (used : ℕ) → List ℕ → Bool
fits used s = not (length s == 0) && leb (used + length s) (64 * 1024)

-- The log: the streams that fit, one behind the other.
abbrev pub logged : (used : ℕ) → List (List ℕ) → List ℕ
logged used [] = []
logged used (s ∷ ss) = if fits used s then s ++ logged (used + length s) ss else logged used ss

pub record Submitted (q : CsQueue) (s : List ℕ) (q' : CsQueue) : Type 0 where
  pub sound : IsRing q'
  pub used : q'.input_page ≡ (if fits q.input_page s then q.input_page + length s else q.input_page)
  pub appended : written q' ≡ (if fits q.input_page s then written q ++ s else written q)

Submitted-submit_created :
    (q : CsQueue) (s : List ℕ) (k : Kernel) (l : Log)
    → IsRing q
    → Submitted q s (submit_created q s k l).0.1
unfolding submit_created submit_fitting advanced
Submitted-submit_created q s k l i =
    let size = i.ring_size in
    let inside = i.inside in
    let made = i.created in
    record {
      sound = record { created = ground arith; ring_size = ground arith; inside = ground arith };
      used = ground arith;
      appended = ground (arith, read_from-append q.input_page s q.ring_bytes);
    }

Submitted-submit_from :
    (created : Bool) (group : ℕ) (q : CsQueue) (s : List ℕ) (k : Kernel) (l : Log)
    → created ≡ true
    → IsRing q
    → Submitted q s (submit_from created group q s k l).0.1
unfolding submit_from
Submitted-submit_from true group q s k l c i = Submitted-submit_created q s k l i
Submitted-submit_from false group q s k l c i = absurd (ground arith)

Submitted-cs_queue_submit :
    (group : ℕ) (q : CsQueue) (s : List ℕ) (k : Kernel) (l : Log)
    → IsRing q
    → Submitted q s (cs_queue_submit group q s k l).0.1
unfolding cs_queue_submit
Submitted-cs_queue_submit group q s k l i =
    Submitted-submit_from q.created group q s k l i.created i

-- submissions one after another, whatever each returns
pub submit_all : (group : ℕ) → CsQueue → List (List ℕ) → M CsQueue
submit_all group q [] = pure q
submit_all group q (s ∷ ss) = do (done, q') ← cs_queue_submit group q s; submit_all group q' ss

logged-if :
    (fit : Bool) (used : ℕ) (s : List ℕ) (ss : List (List ℕ)) (w w' : List ℕ) (used' : ℕ)
    → used' ≡ (if fit then used + length s else used)
    → w' ≡ (if fit then w ++ s else w)
    → w' ++ logged used' ss
      ≡ w ++ (if fit then s ++ logged (used + length s) ss else logged used ss)
logged-if true used s ss w w' used' u a = rw (u, a) (append_assoc w s (logged (used + length s) ss))
logged-if false used s ss w w' used' u a = rw (u, a) refl

-- However the submissions end, the kernel's refusals included, the ring of a created queue holds
-- what it held, and behind it the streams that were not empty and had room, whole and in order;
-- the queue stays within its 64 KiB.
pub submit_all-logged :
    (group : ℕ) (q : CsQueue) (ss : List (List ℕ)) (k : Kernel) (l : Log)
    → IsRing q
    → let q' = (submit_all group q ss k l).0 in
      IsRing q' × (written q' ≡ written q ++ logged q.input_page ss)
unfolding submit_all
submit_all-logged group q [] k l i = (i, sym (append-nil (written q)))
submit_all-logged group q (s ∷ ss) k l i =
    let t = Submitted-cs_queue_submit group q s k l i in
    let q' = (cs_queue_submit group q s k l).0.1 in
    let rest = submit_all-logged group q' ss k (cs_queue_submit group q s k l).1 t.sound in
    (
      rest.0,
      rest.1
          ∙ logged-if (fits q.input_page s) q.input_page s ss (written q) (written q') q'.input_page
              t.used t.appended,
    )

-- A queue that was not there and whose creation returns 0 is a created queue of 64 KiB, and an
-- empty one.
cs_queue_create-IsRing :
    (group : ℕ) (q q' : CsQueue) (k : Kernel) (l : Log)
    → q.created ≡ false
    → (cs_queue_create group q k l).0 ≡ (true, q')
    → IsRing q' × (written q' ≡ [])
unfolding cs_queue_create create_user_io create_bound kbase_bo_alloc
cs_queue_create-IsRing group q q' k l c e = (
  record { created = ground arith; ring_size = ground arith; inside = ground arith },
  ground arith,
)

fits-submit_created :
    (q : CsQueue) (s : List ℕ) (k : Kernel) (l : Log)
    → IsRing q
    → (submit_created q s k l).0.0 ≡ true
    → fits q.input_page s ≡ true
unfolding submit_created submit_fitting
fits-submit_created q s k l i e = let z = i.ring_size in let n = i.inside in ground (arith, e)

fits-submit_from :
    (created : Bool) (group : ℕ) (q : CsQueue) (s : List ℕ) (k : Kernel) (l : Log)
    → created ≡ true
    → IsRing q
    → (submit_from created group q s k l).0.0 ≡ true
    → fits q.input_page s ≡ true
unfolding submit_from
fits-submit_from true group q s k l c i e = fits-submit_created q s k l i e
fits-submit_from false group q s k l c i e = absurd (ground arith)

-- A submission that returns 0 has appended the stream.
pub cs_queue_submit-appends :
    (group : ℕ) (q : CsQueue) (s : List ℕ) (k : Kernel) (l : Log)
    → IsRing q
    → (cs_queue_submit group q s k l).0.0 ≡ true
    → let q' = (cs_queue_submit group q s k l).0.1 in IsRing q' × (written q' ≡ written q ++ s)
unfolding cs_queue_submit
cs_queue_submit-appends group q s k l i e =
    let t = Submitted-cs_queue_submit group q s k l i in
    let f = fits-submit_from q.created group q s k l i.created i e in
    (t.sound, t.appended ∙ rw f refl)

-- Whether it returns 0 or not, the queue stays one.
pub cs_queue_submit-IsRing :
    (group : ℕ) (q : CsQueue) (s : List ℕ) (k : Kernel) (l : Log)
    → IsRing q
    → IsRing (cs_queue_submit group q s k l).0.1
cs_queue_submit-IsRing group q s k l i = (Submitted-cs_queue_submit group q s k l i).sound
