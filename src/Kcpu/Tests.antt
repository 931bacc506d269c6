-- ===== src/Kcpu/Tests.antt =====
-- Runs of the definitions of Kcpu, and its theorems at concrete inputs.
use pan_vk_kbase.Prelude.{◌+◌, ◌≡◌, refl, true, some, [], arith}
use pan_vk_kbase.Kernel.Ledger.{held, fd, one}
use pan_vk_kbase.Kernel.Sample.{sample}
use pan_vk_kbase.Device.Sample.{sample_device, sample_kcpu}
use pan_vk_kbase.Kcpu.{
  wait_cqs64, wait_if, wait_locked, wait_state, enqueue, poll_new, poll_fence, satisfied,
}
use pan_vk_kbase.Kcpu.Held.{IsKcpu, owned, held-wait_cqs64}
use pan_vk_kbase.Device.{Device}
use pan_vk_kbase.Kcpu.Outcome.{Means, wait_cqs64-Means}

sample_kcpu-IsKcpu : IsKcpu sample_kcpu
sample_kcpu-IsKcpu = record { idle = λ e. refl; busy = λ e. refl; fenced = λ e. ground arith }

wait_cqs64_satisfied : (wait_cqs64 1 sample_device 0x40 6 1000 sample []).0.0 ≡ satisfied
unfolding wait_cqs64 wait_if wait_locked wait_state enqueue poll_new poll_fence
wait_cqs64_satisfied = refl

held-wait_cqs64_example :
    held (wait_cqs64 1 sample_device 0x40 6 1000 sample []).1 fd 12288 + owned sample_kcpu fd 12288
    ≡ held [] fd 12288 + owned (wait_cqs64 1 sample_device 0x40 6 1000 sample []).0.1.kcpu fd 12288
unfolding one
held-wait_cqs64_example =
    held-wait_cqs64 1 sample_device 0x40 6 1000 sample [] fd 12288 sample_kcpu-IsKcpu (omega arith)

wait_cqs64-Means_example :
    let (r, d') = (wait_cqs64 1 sample_device 0x40 6 1000 sample []).0 in
    Means sample_kcpu 0x40 6 r d'.kcpu
wait_cqs64-Means_example = wait_cqs64-Means 1 sample_device 0x40 6 1000 sample [] sample_kcpu-IsKcpu

-- a device with a wait left pending
abbrev pending_device : Device
pending_device = record sample_device {
  kcpu = record sample_kcpu {
    pending = true;
    addr = 0x40;
    target_minus_one = 6;
    fence_fd = some 9;
  };
}
