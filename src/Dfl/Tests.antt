-- ===== src/Dfl/Tests.antt =====
-- Concrete runs of the enumeration: an FME with thermal management in BAR 0, and a port in BAR 2.
use opae_intel_fpga_driver.Base.{
  ℕ, ◌+◌, ◌*◌, ◌^◌, ◌≤◌, ◌≡◌, refl, true, Option, none, some, List, [], ◌∷◌, if◌then◌else◌, ◌==◌,
  inl, map, All, Status, ok, and_then,
}
use opae_intel_fpga_driver.Dfl.{BuildInfo, Platform, Slot}
use opae_intel_fpga_driver.Csr.{get_field}
use opae_intel_fpga_driver.Dfl.Build.{
  parse_start_from, build_info_create_dev, build_info_commit_dev, create_next, fill_dev,
  create_feature_instance, build_info_add_sub_feature, add_in, add_to, cci_pci_ioremap_bar,
  commit_result, commit_some, known_or_new, map_new, start_at,
}
use opae_intel_fpga_driver.Dfl.Parse.{
  parse_feature_list, list_from, parse_feature, parse_feature_fiu, parse_fme_at, parse_feature_fme,
  parse_feature_private, parse_feature_fme_private, parse_feature_irqs, add_private, afus_from,
  build_info_free, enable_port_uafu, forget_uafu, note_fme, parse_afu, parse_feature_afus,
  parse_feature_port, parse_feature_port_private, parse_feature_port_uafu, parse_port_at,
  parse_ports_from_fme, ports_from, ports_of, private_by, private_of, with_uafu, empty_info,
  cci_pci_create_feature_devs,
}
use opae_intel_fpga_driver.Dfl.OneFme.{fmes, create_feature_devs-AtMostOne}
use opae_intel_fpga_driver.Dfl.Placed.{Placed, create_feature_devs-Placed}
use opae_intel_fpga_driver.Dfl.Walk.{Chain, parse_all, parse_feature_list-Chain}

-- A header of a type with an id, the distance to the next one, and whether it is the last.
abbrev header : ℕ → ℕ → ℕ → ℕ → ℕ
header type id next eol = type * 2 ^ 60 + eol * 2 ^ 40 + next * 2 ^ 16 + id

-- BAR 0 is at 4096, BAR 2 at 65536, where the port is at offset 256 and its UAFU follows.
abbrev registers : List (ℕ × ℕ)
registers =
    (4096, header 4 0 1024 0)
    ∷ (4096 + 56, 2 ^ 60 + 2 * 2 ^ 32 + 256)
    ∷ (5120, header 3 1 0 1)
    ∷ (65792, header 4 1 512 0)
    ∷ (65792 + 24, 1024)
    ∷ (65792 + 48, 4 * 2 ^ 8)
    ∷ (66304, header 3 0x10 0 1)
    ∷ []

abbrev lookup : List (ℕ × ℕ) → ℕ → ℕ
lookup [] addr = 0
lookup ((a, v) ∷ rs) addr = if a == addr then v else lookup rs addr

abbrev board : Platform
board = record {
  readq = lookup registers;
  guid = λ _. 0;
  fme_guid = 1;
  port_guid = 2;
  pci_ioremap_bar = λ bar. some (if bar == 0 then 4096 else 65536);
  region_alloc = true;
  pci_resource_len = λ bar. if bar == 0 then 4096 else 8192;
  pci_msix_vec_count = 8;
  platform_device_alloc = λ _. true;
  alloc_fpga_id = λ n. inl n;
  pdata_alloc = λ _. true;
  resource_alloc = λ _. true;
  ctx_alloc = λ _. true;
  platform_device_add = λ _. ok;
}

-- The places of the entries that are there.
abbrev places : List (Option Slot) → List (ℕ × ℕ)
places [] = []
places (none ∷ slots) = places slots
places (some slot ∷ slots) = (slot.offset, slot.size) ∷ places slots

abbrev places_of : Option (List (Option Slot)) → List (ℕ × ℕ)
places_of none = []
places_of (some slots) = places slots

-- The port is registered last.
enumeration :
    map (λ dev. places_of dev.slots) (cci_pci_create_feature_devs board (empty_info 0)).1.registered
    ≡ ((256, 112) ∷ (768, 64) ∷ (1280, 4096) ∷ []) ∷ ((0, 208) ∷ (1024, 32) ∷ []) ∷ []
unfolding cci_pci_create_feature_devs parse_start_from parse_feature_list list_from parse_feature
    get_field parse_feature_fiu parse_fme_at parse_feature_fme build_info_create_dev
    build_info_commit_dev create_next fill_dev create_feature_instance build_info_add_sub_feature
    parse_feature_private parse_feature_fme_private parse_feature_irqs add_in add_to
    cci_pci_ioremap_bar commit_result commit_some known_or_new map_new start_at add_private
    afus_from build_info_free enable_port_uafu forget_uafu note_fme parse_afu parse_feature_afus
    parse_feature_port parse_feature_port_private parse_feature_port_uafu parse_port_at
    parse_ports_from_fme ports_from ports_of private_by private_of with_uafu
enumeration = refl

create_feature_devs-AtMostOne_example :
    fmes (cci_pci_create_feature_devs board (empty_info 0)).1.registered ≤ 1
create_feature_devs-AtMostOne_example = create_feature_devs-AtMostOne board 0

create_feature_devs-Placed_example :
    All (Placed board) (cci_pci_create_feature_devs board (empty_info 0)).1.registered
create_feature_devs-Placed_example = create_feature_devs-Placed board 0

-- BAR 0 is mapped at 4096.
abbrev mapped : BuildInfo
mapped = record (empty_info 0) { ioaddr = 4096; ioend = 8192 }

parse_feature_list-Chain_example :
    (hdrs : List ℕ) × (s : Status) × Chain board 8192 4096 hdrs s
    × (parse_feature_list board 4096 mapped ≡ and_then (parse_all board hdrs mapped) (λ b. (s, b)))
parse_feature_list-Chain_example = parse_feature_list-Chain board 4096 mapped
