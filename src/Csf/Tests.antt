-- ===== src/Csf/Tests.antt =====
-- Runs of the definitions of Csf, and its theorems at concrete inputs.
use pan_vk_kbase.Prelude.{◌≡◌, refl, true, []}
use pan_vk_kbase.Kernel.Sample.{sample, interrupted_sample}
use pan_vk_kbase.Device.{Csif, csf_has_error}
use pan_vk_kbase.Device.Sample.{sample_device}
use pan_vk_kbase.Csf.{wait_event, read_loop, after_read, out_of_retries, latch_notification}

abbrev sampled_csif : Csif
sampled_csif = record {
  csg_slot_count = 4096;
  cs_slot_count = 16384;
  cs_reg_count = 96;
  scoreboard_slot_count = 8;
  unpreserved_cs_reg_count = 4;
}

wait_event_latches : csf_has_error (wait_event 1 sample_device 1000 sample []).0.1 ≡ true
unfolding wait_event read_loop after_read latch_notification csf_has_error
wait_event_latches = refl

wait_event_interrupted :
    (wait_event 3 sample_device 1000 interrupted_sample []).0.0 ≡ out_of_retries
unfolding wait_event read_loop after_read
wait_event_interrupted = refl
