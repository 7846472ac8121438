-- ===== src/FmePr/Request.antt =====
-- fme-pr.c, the ioctl `fme_pr`: takes an image from the user, holds the port in reset and has the
-- FPGA manager load the image.
use opae_intel_fpga_driver.Base.{
  ℕ, ◌+◌, ◌-◌, ◌*◌, ◌/◌, ◌^◌, ◌<◌, ◌≡◌, refl, arith, Bool, not, ◌||◌, Option, none, some, List,
  ◌++◌, replicate, if◌then◌else◌, ◌==◌, ltb, leb, u8, u32, Status, ok, err, einval, efault, enomem,
}
use opae_intel_fpga_driver.Csr.{get_field, num_ports}
use opae_intel_fpga_driver.Mmio.{Bus, fme_capability}
use opae_intel_fpga_driver.FeatureDev.PortReset.{PortDev, fpga_port_disable, fpga_port_enable}
use opae_intel_fpga_driver.FmePr.{Fme}

-- `struct fpga_fme_port_pr` as the user fills it in.
pub record PortPr : Type 0 where
  pub argsz : ℕ
  pub flags : ℕ
  pub port_id : ℕ
  pub buffer_size : ℕ
  pub buffer_address : ℕ

-- The FME with the disable count of the port that is reconfigured.
pub record Loader (H : Type 0) : Type 0 where
  pub fme : Fme H
  pub disable_count : ℕ

-- The answers of the kernel: `copy_from_user` of the request (`none` if it fails) and of the image,
-- `access_ok`, `vzalloc`, whether the private data is there, `fpga_mgr_get`, `copy_to_user`; and
-- `fpga_mgr_buf_load`, which calls the operations of the FPGA manager.
pub record PrEnv (H : Type 0) : Type 0 where
  pub request : Option PortPr
  pub access_ok : ℕ → ℕ → Bool
  pub registered : Bool
  pub vzalloc : ℕ → Bool
  pub image : ℕ → Option (List ℕ)
  pub fpga_mgr_get : Status
  pub fpga_mgr_buf_load : List ℕ → Fme H → Status × Fme H
  pub copy_to_user : Bool

-- ALIGN(buffer_size, pr_bandwidth) in 32 bits; the bandwidth is a power of two.
unfoldable pub aligned : ℕ → ℕ → ℕ
aligned size bandwidth = u32 (size + (bandwidth - 1)) / bandwidth * bandwidth

module _ {H : Type 0} (bus : Bus H) (env : PrEnv H) where
  -- From `fpga_port_disable` to `fpga_port_enable`; the result of the former is ignored.
  unfoldable pub load_image : List ℕ → Loader H → Status × Loader H
  load_image buf s =
      let down =
        (fpga_port_disable bus (record { disable_count = s.disable_count; hw = s.fme.hw })).1 in
      let (ret, fme) = env.fpga_mgr_buf_load buf (record s.fme { hw = down.hw }) in
      let up = fpga_port_enable bus (record { disable_count = down.disable_count; hw = fme.hw }) in
      (ret, record { fme = record fme { hw = up.hw }; disable_count = up.disable_count })

  -- From `fpga_mgr_get` on.
  unfoldable pub after_get : ℕ → List ℕ → Status → Loader H → Status × Loader H
  after_get port_id buf (err e) s = (err e, s)
  after_get port_id buf ok s =
      load_image buf (record s { fme = record s.fme { pr_err = 0; port_id = u8 port_id } })

  -- From the copy of the image on; the rest of the buffer is zero.
  unfoldable pub after_copy : PortPr → ℕ → Option (List ℕ) → Loader H → Status × Loader H
  after_copy req length none s = (err efault, s)
  after_copy req length (some image) s =
      after_get req.port_id (image ++ replicate (length - req.buffer_size) 0) env.fpga_mgr_get s

  -- What stands between the lock and the label `unlock_exit`.
  unfoldable pub locked : PortPr → Loader H → Status × Loader H
  locked req s =
      let length = aligned req.buffer_size s.fme.pr_bandwidth in
      if not env.registered
      then (err einval, s)
      else if not (env.vzalloc length)
      then (err enomem, s)
      else after_copy req length (env.image req.buffer_address) s

  -- The end of the ioctl: the request goes back to the user with its status.
  unfoldable pub reply : Status × Loader H → Status × Loader H
  reply (ret, s) = if env.copy_to_user then (ret, s) else (err efault, s)

  -- The checks before the lock, for a request that could be read.
  unfoldable pub fme_pr_request : PortPr → Loader H → Status × Loader H
  fme_pr_request req s =
      let (csr, h) = bus.readq fme_capability s.fme.hw in
      let s' = record s { fme = record s.fme { hw = h } } in
      let done = reply (locked req s') in
      if ltb req.argsz 32 || not (req.flags == 0)
      then (err einval, s)
      else if leb (get_field num_ports csr) req.port_id
      then (err einval, s')
      else if not (env.access_ok req.buffer_address req.buffer_size)
      then (err efault, s')
      else done

  unfoldable pub with_request : Option PortPr → Loader H → Status × Loader H
  with_request none s = (err efault, s)
  with_request (some req) s = fme_pr_request req s

  unfoldable pub fme_pr : Loader H → Status × Loader H
  unfolding with_request
  fme_pr s = with_request env.request s

  disable_raises :
      (p : PortDev H) → (fpga_port_disable bus p).1.disable_count ≡ u32 (p.disable_count + 1)
  unfolding fpga_port_disable
  disable_raises p = ground arith

  enable_lowers :
      (p : PortDev H)
      → (fpga_port_enable bus p).disable_count ≡ u32 (p.disable_count + (2 ^ 32 - 1))
  unfolding fpga_port_enable
  enable_lowers p = ground arith

  -- The disable count of the port is as in the other state.
  abbrev Balanced : Loader H → Status × Loader H → Type 0
  Balanced s r = r.1.disable_count ≡ s.disable_count

  load_image-Balanced :
      (buf : List ℕ) (s : Loader H) → s.disable_count + 1 < 2 ^ 32 → Balanced s (load_image buf s)
  unfolding load_image
  load_image-Balanced buf s small =
      let p : PortDev H = record { disable_count = s.disable_count; hw = s.fme.hw } in
      let down = (fpga_port_disable bus p).1 in
      let hw = (env.fpga_mgr_buf_load buf (record s.fme { hw = down.hw })).1.hw in
      omega (
        arith,
        disable_raises p,
        enable_lowers (record { disable_count = down.disable_count; hw = hw }),
        small,
      )

  after_get-Balanced :
      (port_id : ℕ) (buf : List ℕ) (got : Status) (s : Loader H)
      → s.disable_count + 1 < 2 ^ 32
      → Balanced s (after_get port_id buf got s)
  unfolding after_get
  after_get-Balanced port_id buf (err e) s small = refl
  after_get-Balanced port_id buf ok s small =
      load_image-Balanced buf (record s { fme = record s.fme { pr_err = 0; port_id = u8 port_id } })
        small

  after_copy-Balanced :
      (req : PortPr) (length : ℕ) (image : Option (List ℕ)) (s : Loader H)
      → s.disable_count + 1 < 2 ^ 32
      → Balanced s (after_copy req length image s)
  unfolding after_copy
  after_copy-Balanced req length none s small = refl
  after_copy-Balanced req length (some image) s small =
      after_get-Balanced req.port_id (image ++ replicate (length - req.buffer_size) 0)
        env.fpga_mgr_get s small

  locked-Balanced :
      (req : PortPr) (s : Loader H) → s.disable_count + 1 < 2 ^ 32 → Balanced s (locked req s)
  unfolding locked
  locked-Balanced req s small =
      let length = aligned req.buffer_size s.fme.pr_bandwidth in
      ground (arith, after_copy-Balanced req length (env.image req.buffer_address) s small)

  reply-Balanced : (s : Loader H) (r : Status × Loader H) → Balanced s r → Balanced s (reply r)
  unfolding reply
  reply-Balanced s (ret, s') e = ground (arith, e)

  request-Balanced :
      (req : PortPr) (s : Loader H)
      → s.disable_count + 1 < 2 ^ 32
      → Balanced s (fme_pr_request req s)
  unfolding fme_pr_request
  request-Balanced req s small =
      let s' : Loader H = record s {
        fme = record s.fme { hw = (bus.readq fme_capability s.fme.hw).1 };
      } in
      ground (arith, reply-Balanced s' (locked req s') (locked-Balanced req s' small))

  with_request-Balanced :
      (req : Option PortPr) (s : Loader H)
      → s.disable_count + 1 < 2 ^ 32
      → Balanced s (with_request req s)
  unfolding with_request
  with_request-Balanced none s small = refl
  with_request-Balanced (some req) s small = request-Balanced req s small

  -- Whichever way a partial reconfiguration ends, and whatever the FPGA manager does to the FME, the
  -- disable count of the port is afterwards what it was before, if fewer than 2^32 - 1 disables were
  -- outstanding.
  pub fme_pr-disable_count :
      (s : Loader H) → s.disable_count + 1 < 2 ^ 32 → (fme_pr s).1.disable_count ≡ s.disable_count
  unfolding fme_pr
  fme_pr-disable_count s small = with_request-Balanced env.request s small
