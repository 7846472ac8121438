-- ===== src/FmePerf/Tree/Balance.antt =====
-- What is live after the start and the stop of the performance counters.
use opae_intel_fpga_driver.Base.{
  ℕ, zero, suc, ◌+◌, ◌-◌, ◌≡◌, refl, ap, ◌∙◌, arith, inl, inr, Bool, true, Bool-cases, Option, none,
  some, if◌then◌else◌, ◌==◌, Status, ok, err, err-ne-ok,
}
use mathlib.Core.Path.{subst}
use opae_intel_fpga_driver.Csr.{get_field, iommu_support}
use opae_intel_fpga_driver.FmePerf.{ObjId, root, instance_of}
use opae_intel_fpga_driver.FmePerf.Tree.{
  PerfObj, perf_obj, Children, no_child, child, Kind, iperf, iommu, afu, fabric, port, Kobjects,
  Live, Created, object, error_ptr, list_add, destroy_perf_obj, destroy_children, after_groups,
  after_kobject, create_perf_obj, create_instances, create_group, create_perf_iommu_obj,
  create_perf_fabric_obj, create_perf_dev, after_fabric, after_iommu, after_dev, fme_iperf_init,
  fme_iperf_uinit,
}

abbrev own_groups : Bool → ℕ
own_groups groups = if groups then 1 else 0

-- The objects of a tree, and how many of them have groups.
abbrev mutual
  objects_of : PerfObj → ℕ
  objects_of (perf_obj id groups children) = 1 + objects_in children

  objects_in : Children → ℕ
  objects_in no_child = 0
  objects_in (child obj more) = objects_of obj + objects_in more

abbrev mutual
  groups_of : PerfObj → ℕ
  groups_of (perf_obj id groups children) = own_groups groups + groups_in children

  groups_in : Children → ℕ
  groups_in no_child = 0
  groups_in (child obj more) = groups_of obj + groups_in more

abbrev pub Same : Live → Live → Type 0
Same w w' = (w'.objects ≡ w.objects) × (w'.attributes ≡ w.attributes)

-- The tree is all that was added.
abbrev Owns : PerfObj → Live → Live → Type 0
Owns t w w' = (w'.objects ≡ w.objects + objects_of t) × (w'.attributes ≡ w.attributes + groups_of t)

mutual
  destroyed :
      (t : PerfObj) (w : Live)
      → let w' = destroy_perf_obj t w in
        (w'.objects ≡ w.objects - objects_of t) × (w'.attributes ≡ w.attributes - groups_of t)
  destroyed (perf_obj id groups children) w =
      let (a, b) = destroyed_children children w in
      elim (Bool-cases groups) [
        | inl e ↦ rw e (omega (arith, a), omega (arith, b))
        | inr e ↦ rw e (omega (arith, a), omega (arith, b))
      ]

  destroyed_children :
      (c : Children) (w : Live)
      → let w' = destroy_children c w in
        (w'.objects ≡ w.objects - objects_in c) × (w'.attributes ≡ w.attributes - groups_in c)
  destroyed_children no_child w = (omega arith, omega arith)
  destroyed_children (child obj more) w =
      let (a, b) = destroyed obj w in
      let (c, d) = destroyed_children more (destroy_perf_obj obj w) in
      (omega (arith, a, c), omega (arith, b, d))

destroy-Owns : (t : PerfObj) (w w' : Live) → Owns t w w' → Same w (destroy_perf_obj t w')
destroy-Owns t w w' (a, b) =
    let (c, d) = destroyed t w' in (omega (arith, a, c), omega (arith, b, d))

list_add-Owns :
    (obj t : PerfObj) (w0 w w' : Live) → Owns t w0 w → Owns obj w w' → Owns (list_add obj t) w0 w'
list_add-Owns obj (perf_obj id groups children) w0 w w' (a, b) (c, d) =
    (omega (arith, a, c), omega (arith, b, d))

-- An object without children comes to the live ones, or nothing does.
abbrev CreateEnds : ObjId → Live → Created × Live → Type 0
CreateEnds id w (error_ptr e, w') = Same w w'
CreateEnds id w (object t, w') = (t ≡ perf_obj id true no_child) × Owns t w w'

module _ (kernel : Kobjects) where
  create_perf_obj-CreateEnds :
      (kind : Kind) (id : ObjId) (w : Live)
      → CreateEnds id w (create_perf_obj kernel kind id true w)
  unfolding create_perf_obj
  create_perf_obj-CreateEnds kind id w = elim (Bool-cases (kernel.kzalloc kind id)) [
    | inr e ↦ rw e (refl, refl)
    | inl e ↦ rw e (added (kernel.kobject_init_and_add kind id))
  ]
    where
      grouped :
          (s : Status)
          → CreateEnds id w
              (after_groups s id (record { objects = w.objects + 1; attributes = w.attributes }))
      grouped ok = (refl, (refl, refl))
      grouped (err e) = (omega arith, refl)

      added :
          (s : Status)
          → CreateEnds id w (
              after_kobject kernel s kind id true
                (record { objects = w.objects + 1; attributes = w.attributes }))
      added ok = grouped (kernel.sysfs_create_groups kind id)
      added (err e) = (omega arith, refl)

  -- The tree with the instances that a loop adds.
  abbrev add_instances : ℕ → ℕ → PerfObj → PerfObj
  add_instances zero i t = t
  add_instances (suc n) i t =
      add_instances n (suc i) (list_add (perf_obj (instance_of i) true no_child) t)

  -- Whatever the result, the tree is what was added; after 0 it has all that was asked for.
  abbrev Grows : Live → PerfObj → Status × PerfObj × Live → Type 0
  Grows w0 whole (ret, t, w) = Owns t w0 w × ((ret ≡ ok) → t ≡ whole)

  create_instances-Grows :
      (n i : ℕ) (kind : Kind) (t : PerfObj) (w0 w : Live)
      → Owns t w0 w
      → Grows w0 (add_instances n i t) (create_instances kernel n i kind t w)
  unfolding create_instances
  create_instances-Grows zero i kind t w0 w owns = (owns, λ _. refl)
  create_instances-Grows (suc n) i kind t w0 w owns =
      let id = instance_of i in
      let r = create_perf_obj kernel kind id true w in
      elim r.0
          as (λ c.
            CreateEnds id w (c, r.1)
            → Grows w0 (add_instances (suc n) i t) (elim c [
              | error_ptr e ↦ (err e, t, r.1)
              | object obj ↦ create_instances kernel n (suc i) kind (list_add obj t) r.1
            ])) [
              | error_ptr e ↦ λ same. (
                (omega (arith, same.0, owns.0), omega (arith, same.1, owns.1)),
                λ h. absurd (err-ne-ok e h),
              )
              | object obj ↦ λ (is, more).
                  subst
                    (λ o.
                      Grows w0 (add_instances n (suc i) (list_add o t))
                        (create_instances kernel n (suc i) kind (list_add obj t) r.1))
                    is
                    (create_instances-Grows n (suc i) kind (list_add obj t) w0 r.1
                      (list_add-Owns obj t w0 w r.1 owns more))
            ]
        (create_perf_obj-CreateEnds kind id w)

  -- A group with its instances, as the code asks for it.
  abbrev pub group : PerfObj
  group = perf_obj root true (child (perf_obj (instance_of 0) true no_child) no_child)

  create_group-Grows :
      (kind instances : Kind) (t : PerfObj) (w0 w : Live)
      → Owns t w0 w
      → Grows w0 (list_add group t) (create_group kernel kind instances t w)
  unfolding create_group
  create_group-Grows kind instances t w0 w owns =
      let r = create_perf_obj kernel kind root true w in
      elim r.0
          as (λ c.
            CreateEnds root w (c, r.1)
            → Grows w0 (list_add group t) (elim c [
              | error_ptr e ↦ (err e, t, r.1)
              | object pobj ↦
                  let (ret, pobj', w'') = create_instances kernel 1 0 instances pobj r.1 in
                  (ret, list_add pobj' t, w'')
            ])) [
              | error_ptr e ↦ λ same. (
                (omega (arith, same.0, owns.0), omega (arith, same.1, owns.1)),
                λ h. absurd (err-ne-ok e h),
              )
              | object pobj ↦ λ (is, more).
                  let (ret, pobj', w'') = create_instances kernel 1 0 instances pobj r.1 in
                  let (grown, whole) = create_instances-Grows 1 0 instances pobj w r.1 more in
                  (
                    list_add-Owns pobj' t w0 w w'' owns grown,
                    λ h. ap (λ o. list_add o t) (whole h ∙ ap (add_instances 1 0) is),
                  )
            ]
        (create_perf_obj-CreateEnds kind root w)

  -- The tree that a start builds: the fabric's group, and before it the IOMMU's if the device has one.
  abbrev with_iommu : ℕ → PerfObj → PerfObj
  with_iommu capability t = if get_field iommu_support capability == 0 then t else list_add group t

  abbrev pub whole_tree : ℕ → PerfObj
  whole_tree capability = list_add group (with_iommu capability (perf_obj root true no_child))

  create_perf_iommu_obj-Grows :
      (capability : ℕ) (t : PerfObj) (w0 w : Live)
      → Owns t w0 w
      → Grows w0 (with_iommu capability t) (create_perf_iommu_obj kernel capability t w)
  unfolding create_perf_iommu_obj
  create_perf_iommu_obj-Grows capability t w0 w owns =
      elim (Bool-cases (get_field iommu_support capability == 0)) [
        | inl e ↦ rw e (owns, λ _. refl)
        | inr e ↦ rw e (create_group-Grows iommu afu t w0 w owns)
      ]

  -- The ways in which a start ends.
  abbrev pub StartEnds : ℕ → Option PerfObj → Live → Status × Option PerfObj × Live → Type 0
  StartEnds capability dev w (err e, dev', w') = (dev' ≡ dev) × Same w w'
  StartEnds capability dev w (ok, dev', w') =
      (dev' ≡ some (whole_tree capability))
      × (let (none_left, w'') = fme_iperf_uinit dev' w' in (none_left ≡ none) × Same w w'')

  after_fabric-StartEnds :
      (capability : ℕ) (dev : Option PerfObj) (w : Live) (r : Status × PerfObj × Live)
      → Grows w (whole_tree capability) r
      → StartEnds capability dev w (after_fabric r dev)
  unfolding after_fabric fme_iperf_uinit
  after_fabric-StartEnds capability dev w (err e, t, w') (owns, _) =
      (refl, destroy-Owns t w w' owns)
  after_fabric-StartEnds capability dev w (ok, t, w') (owns, whole) =
      (ap some (whole refl), (refl, destroy-Owns t w w' owns))

  after_iommu-StartEnds :
      (capability : ℕ) (dev : Option PerfObj) (w : Live) (r : Status × PerfObj × Live)
      → Grows w (with_iommu capability (perf_obj root true no_child)) r
      → StartEnds capability dev w (after_iommu kernel r dev)
  unfolding after_iommu create_perf_fabric_obj
  after_iommu-StartEnds capability dev w (err e, t, w') (owns, _) = (refl, destroy-Owns t w w' owns)
  after_iommu-StartEnds capability dev w (ok, t, w') (owns, whole) =
      after_fabric-StartEnds capability dev w (create_group kernel fabric port t w') (
        subst (λ u. Grows w (list_add group u) (create_group kernel fabric port t w')) (whole refl)
          (create_group-Grows fabric port t w w' owns))

  -- The start of the performance counters, whatever the kernel answers to the creation of each
  -- object: when it fails, every object that it created is destroyed with its groups, and the
  -- device keeps what it had; when it returns 0, the device has the whole tree, with the IOMMU's
  -- group exactly when the capability register says so, and the stop brings the live objects and
  -- groups back to what they were before the start.
  pub fme_iperf_init-StartEnds :
      (capability : ℕ) (dev : Option PerfObj) (w : Live)
      → StartEnds capability dev w (fme_iperf_init kernel capability dev w)
  unfolding fme_iperf_init create_perf_dev
  fme_iperf_init-StartEnds capability dev w =
      started (create_perf_obj kernel iperf root true w) (create_perf_obj-CreateEnds iperf root w)
    where
      started :
          (r : Created × Live)
          → CreateEnds root w r
          → StartEnds capability dev w (after_dev kernel capability r dev)
      started (error_ptr e, w') same = (refl, same)
      started (object t, w') (is, owns) =
          after_iommu-StartEnds capability dev w (create_perf_iommu_obj kernel capability t w') (
            subst
              (λ u.
                Grows w (with_iommu capability u) (create_perf_iommu_obj kernel capability t w'))
              is (create_perf_iommu_obj-Grows capability t w w' owns))
