-- ===== src/FmePr/Tests.antt =====
-- A run of a partial reconfiguration, and the theorem at it.
use opae_intel_fpga_driver.Base.{ℕ, ◌≡◌, refl, arith, replicate, false, List, [], ◌∷◌, ◌++◌, ok}
use opae_intel_fpga_driver.Csr.{get_field, set_field}
use opae_intel_fpga_driver.Mmio.{Reg, Bus, ccip_fme_pr_data}
use opae_intel_fpga_driver.FmePr.{
  Fme, fme_pr_write, push, put, copy512, await_credit, change_control, word_at,
}
use opae_intel_fpga_driver.FmePr.Device.{PrDevice, bytes4}
use opae_intel_fpga_driver.FmePr.Write.{Sends, fme_pr_write-Sends}
use opae_intel_fpga_driver.Base.{true, some}
use opae_intel_fpga_driver.FmePr.Request.{Loader, PrEnv, fme_pr, fme_pr-disable_count}

-- A device that keeps what it takes in and always has room for five more pushes.
abbrev take_in : Reg → ℕ → List ℕ → List ℕ
take_in ccip_fme_pr_data v h = h ++ bytes4 v
take_in _ v h = h

abbrev roomy : Bus (List ℕ)
roomy = record { readq = λ r h. (5, h); writeq = take_in; udelay = λ t h. h }

abbrev copy_all : List ℕ → List ℕ → List ℕ
copy_all c h = h ++ c

roomy_laws : PrDevice roomy copy_all (λ h. h) (λ h. 5) (λ h. 0)
unfolding get_field
roomy_laws = record {
  credit_lem = λ h. omega arith;
  sent-readq = λ r h. refl;
  lost-readq = λ r h. refl;
  sent-udelay = λ t h. refl;
  lost-udelay = λ t h. refl;
  sent-control = λ v h. refl;
  lost-control = λ v h. refl;
  sent-err = λ v h. refl;
  lost-err = λ v h. refl;
  sent-data = λ v h room. refl;
  lost-data = λ v h room. refl;
  free-data = λ v h. omega arith;
  sent-store512 = λ c h room. refl;
  lost-store512 = λ c h room. refl;
  free-store512 = λ c h. omega arith;
}

abbrev narrow : Fme (List ℕ)
narrow = record { port_id = 1; pr_err = 0; pr_bandwidth = 4; hw = [] }

abbrev image : List ℕ
image = 1 ∷ 2 ∷ 3 ∷ 4 ∷ 250 ∷ 251 ∷ 252 ∷ 253 ∷ []

written : fme_pr_write roomy false copy_all image narrow ≡ (ok, record narrow { hw = image })
unfolding fme_pr_write push put await_credit change_control word_at get_field set_field
written = refl

-- The same device at 64 bytes a push.
abbrev wide : Fme (List ℕ)
wide = record narrow { pr_bandwidth = 64 }

abbrev wide_image : List ℕ
wide_image = replicate 64 7

written_wide :
    fme_pr_write roomy true copy_all wide_image wide ≡ (ok, record wide { hw = wide_image })
unfolding fme_pr_write push put copy512 await_credit change_control get_field set_field
written_wide = refl

-- Without AVX512 the same write returns 0, and the device has taken in nothing.
nothing_sent : fme_pr_write roomy false copy_all wide_image wide ≡ (ok, wide)
unfolding fme_pr_write push put copy512 await_credit change_control get_field set_field
nothing_sent = refl

fme_pr_write-Sends_example :
    Sends roomy true copy_all
      (λ h. h)
      (λ h. 5)
      (λ h. 0)
      roomy_laws
      wide_image
      []
      (fme_pr_write roomy true copy_all wide_image wide)
fme_pr_write-Sends_example =
    fme_pr_write-Sends roomy true copy_all (λ h. h) (λ h. 5) (λ h. 0) roomy_laws wide_image wide
      (λ _. refl) (omega arith)

-- The FPGA manager runs the write alone.
abbrev writing : PrEnv (List ℕ)
writing = record {
  request =
      some
        (record { argsz = 32; flags = 0; port_id = 0; buffer_size = 8; buffer_address = 0x1000 });
  access_ok = λ addr size. true;
  registered = true;
  vzalloc = λ n. true;
  image = λ addr. some image;
  fpga_mgr_get = ok;
  fpga_mgr_buf_load = fme_pr_write roomy false copy_all;
  copy_to_user = true;
}

abbrev loader : Loader (List ℕ)
loader = record { fme = narrow; disable_count = 1 }

fme_pr-disable_count_example : (fme_pr roomy writing loader).1.disable_count ≡ 1
fme_pr-disable_count_example = fme_pr-disable_count roomy writing loader (omega arith)
