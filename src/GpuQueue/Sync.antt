-- ===== src/GpuQueue/Sync.antt =====
-- The entries that carry no stream, for the waits and the signals of a submission.
use pan_vk_kbase.Prelude.{List}
use pan_vk_kbase.Kernel.{Kernel}
