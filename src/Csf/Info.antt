-- ===== src/Csf/Info.antt =====
-- The interface information: its scoreboard count is always usable, and the query leaves no memory.
use pan_vk_kbase.Prelude.{
  ℕ, ◌/◌, ◌%◌, ◌^◌, ◌≤◌, ◌<◌, ◌≡◌, Option, some, arith, leb, ◌&&◌, if◌then◌else◌,
}
use pan_vk_kbase.Kernel.{Kernel, Log}
use pan_vk_kbase.Kernel.Ledger.{Kind, held}
use pan_vk_kbase.Device.{Csif}
use pan_vk_kbase.Csf.{scoreboard_slots, csif_fill, query_csif_info}

-- The scoreboard count lies in 1 to 16 whatever the firmware reports: it is the reported one where
-- that lies in the range, and 8 otherwise.
scoreboard_slots_lem :
    (features : ℕ)
    → let count = features / 2 ^ 8 % 256 in
      (1 ≤ scoreboard_slots features)
      × (scoreboard_slots features ≤ 16)
      × (scoreboard_slots features ≡ (if leb 1 count && leb count 16 then count else 8))
unfolding scoreboard_slots
scoreboard_slots_lem features = (ground arith, ground arith, ground arith)

-- The query frees both tables on every path, so it holds no more than before.
pub held-query_csif_info :
    (k : Kernel) (l : Log) (κ : Kind) (x : ℕ) → held (query_csif_info k l).1 κ x ≡ held l κ x
unfolding query_csif_info
held-query_csif_info k l κ x = ground arith

pub record IsCsif (c : Csif) : Type 0 where
  pub groups : 1 ≤ c.csg_slot_count
  pub scoreboards : (1 ≤ c.scoreboard_slot_count) × (c.scoreboard_slot_count ≤ 16)
  pub registers : c.unpreserved_cs_reg_count < c.cs_reg_count

csif_fill-IsCsif :
    (g s : ℕ) (a b : Option ℕ) (c : Csif) (k : Kernel) (l : Log)
    → (csif_fill g s a b k l).0 ≡ some c
    → 1 ≤ g
    → IsCsif c
unfolding csif_fill
csif_fill-IsCsif g s a b c k l e h = ground arith

-- A query of the firmware interface that succeeds reports at least one group, a scoreboard count
-- in 1 to 16, and fewer registers that the firmware may clobber than there are.
query_csif_info-IsCsif :
    (k : Kernel) (l : Log) (c : Csif) → (query_csif_info k l).0 ≡ some c → IsCsif c
unfolding query_csif_info
query_csif_info-IsCsif k l c e = ground arith
