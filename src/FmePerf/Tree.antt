-- ===== src/FmePerf/Tree.antt =====
-- The tree of kobjects of the performance counters, fme-iperf.c: from create_perf_obj to
-- fme_iperf_uinit.
pub mod Balance
use opae_intel_fpga_driver.Base.{
  ℕ, zero, suc, ◌+◌, ◌-◌, Bool, true, false, Option, none, some, if◌then◌else◌, ◌==◌, Status, ok,
  err, enomem,
}
use opae_intel_fpga_driver.Csr.{get_field, iommu_support}
use opae_intel_fpga_driver.FmePerf.{ObjId, root, instance_of}

-- `struct perf_object`: its id, whether it has attribute groups, and its list of children.
mutual
  pub data PerfObj : Type 0 where
    perf_obj : ObjId → Bool → Children → PerfObj

  pub data Children : Type 0 where
    no_child : Children
    child : PerfObj → Children → Children

-- The names of the objects, without the number of an instance.
pub data Kind : Type 0 where
  iperf iommu afu fabric port : Kind

-- The answers of the kernel to the creation of an object.
pub record Kobjects : Type 0 where
  pub kzalloc : Kind → ObjId → Bool
  pub kobject_init_and_add : Kind → ObjId → Status
  pub sysfs_create_groups : Kind → ObjId → Status

-- How many objects are allocated, and how many of them have their groups in sysfs.
pub record Live : Type 0 where
  pub objects : ℕ
  pub attributes : ℕ

-- What `create_perf_obj` returns.
pub data Created : Type 0 where
  object : PerfObj → Created
  error_ptr : ℕ → Created

-- PERF_MAX_PORT_NUM
abbrev pub perf_max_port_num : ℕ
perf_max_port_num = 1

-- The last `kobject_put` frees the object.
abbrev pub kobject_put : Live → Live
kobject_put w = record { objects = w.objects - 1; attributes = w.attributes }

-- `list_add(&obj->node, &pobj->children)`
abbrev pub list_add : PerfObj → PerfObj → PerfObj
list_add obj (perf_obj id groups children) = perf_obj id groups (child obj children)

-- Taking an object out of the list of its parent is the business of the caller, which drops it.
abbrev mutual
  pub destroy_perf_obj : PerfObj → Live → Live
  destroy_perf_obj (perf_obj id groups children) w =
      let w' = destroy_children children w in
      let attributes' = if groups then w'.attributes - 1 else w'.attributes in
      kobject_put (record { objects = w'.objects; attributes = attributes' })

  pub destroy_children : Children → Live → Live
  destroy_children no_child w = w
  destroy_children (child obj more) w = destroy_children more (destroy_perf_obj obj w)

-- From `sysfs_create_groups` on.
unfoldable pub after_groups : Status → ObjId → Live → Created × Live
after_groups (err e) id w = (error_ptr e, kobject_put w)
after_groups ok id w = (
  object (perf_obj id true no_child),
  record { objects = w.objects; attributes = w.attributes + 1 },
)

-- The state is `fme->iperf_dev` and what is live.
unfoldable pub after_fabric :
    Status × PerfObj × Live → Option PerfObj → Status × Option PerfObj × Live
after_fabric (err e, perf_dev, w) dev = (err e, dev, destroy_perf_obj perf_dev w)
after_fabric (ok, perf_dev, w) dev = (ok, some perf_dev, w)

-- The code passes on a null pointer when there is no tree; the driver core calls this after a
-- successful `fme_iperf_init` only.
unfoldable pub fme_iperf_uinit : Option PerfObj → Live → Option PerfObj × Live
fme_iperf_uinit none w = (none, w)
fme_iperf_uinit (some perf_dev) w = (none, destroy_perf_obj perf_dev w)

module _ (kernel : Kobjects) where
  -- From `kobject_init_and_add` on.
  unfoldable pub after_kobject : Status → Kind → ObjId → Bool → Live → Created × Live
  unfolding after_groups
  after_kobject (err e) kind id groups w = (error_ptr e, kobject_put w)
  after_kobject ok kind id groups w =
      let bare : Created × Live = (object (perf_obj id false no_child), w) in
      if groups then after_groups (kernel.sysfs_create_groups kind id) id w else bare

  unfoldable pub create_perf_obj : Kind → ObjId → Bool → Live → Created × Live
  unfolding after_kobject
  create_perf_obj kind id groups w =
      let w' : Live = record { objects = w.objects + 1; attributes = w.attributes } in
      if kernel.kzalloc kind id
      then after_kobject (kernel.kobject_init_and_add kind id) kind id groups w'
      else (error_ptr enomem, w)

  -- The loop over the instances, from `i` on with `n` to go.
  unfoldable pub create_instances : ℕ → ℕ → Kind → PerfObj → Live → Status × PerfObj × Live
  create_instances zero i kind pobj w = (ok, pobj, w)
  create_instances (suc n) i kind pobj w =
      let (created, w') = create_perf_obj kind (instance_of i) true w in
      elim created [
        | error_ptr e ↦ (err e, pobj, w')
        | object obj ↦ create_instances n (suc i) kind (list_add obj pobj) w'
      ]

  -- The text that `create_perf_iommu_obj` and `create_perf_fabric_obj` share. The object is put into
  -- the list before its instances are created, so it is there when they fail.
  unfoldable pub create_group : Kind → Kind → PerfObj → Live → Status × PerfObj × Live
  unfolding create_instances
  create_group kind instances perf_dev w =
      let (created, w') = create_perf_obj kind root true w in
      elim created [
        | error_ptr e ↦ (err e, perf_dev, w')
        | object pobj ↦
            let (ret, pobj', w'') = create_instances perf_max_port_num 0 instances pobj w' in
            (ret, list_add pobj' perf_dev, w'')
      ]

  -- `capability` is what the register of the FME's header reads as.
  unfoldable pub create_perf_iommu_obj : ℕ → PerfObj → Live → Status × PerfObj × Live
  create_perf_iommu_obj capability perf_dev w =
      let created = create_group iommu afu perf_dev w in
      if get_field iommu_support capability == 0 then (ok, perf_dev, w) else created

  unfoldable pub create_perf_fabric_obj : PerfObj → Live → Status × PerfObj × Live
  create_perf_fabric_obj perf_dev w = create_group fabric port perf_dev w

  unfoldable pub create_perf_dev : Live → Created × Live
  create_perf_dev w = create_perf_obj iperf root true w

  unfoldable pub after_iommu :
      Status × PerfObj × Live → Option PerfObj → Status × Option PerfObj × Live
  unfolding after_fabric
  after_iommu (err e, perf_dev, w) dev = (err e, dev, destroy_perf_obj perf_dev w)
  after_iommu (ok, perf_dev, w) dev = after_fabric (create_perf_fabric_obj perf_dev w) dev

  unfoldable pub after_dev : ℕ → Created × Live → Option PerfObj → Status × Option PerfObj × Live
  unfolding after_iommu
  after_dev capability (error_ptr e, w) dev = (err e, dev, w)
  after_dev capability (object perf_dev, w) dev =
      after_iommu (create_perf_iommu_obj capability perf_dev w) dev

  unfoldable pub fme_iperf_init : ℕ → Option PerfObj → Live → Status × Option PerfObj × Live
  unfolding after_dev
  fme_iperf_init capability dev w = after_dev capability (create_perf_dev w) dev
