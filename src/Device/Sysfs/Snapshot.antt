-- ===== src/Device/Sysfs/Snapshot.antt =====
-- From the files of a device to its architecture and its physical array.
use xdna_cpp.Base.{
  ◌≡◌, refl, ap, ◌∙◌, ◌↔◌, Bool, true, false, ◌||◌, Bytes, [], none, some, ◌⊎◌, inl, inr,
  if◌then◌else◌, arith,
}
use xdna_cpp.Base.Text.{bytes, ◌=ˢ◌, =ˢ_sound, =ˢ_refl}
use xdna_cpp.Device.{lowercase}
use xdna_cpp.Device.Contains.{Contains, split_first-Contains, Contains-split_first}
use xdna_cpp.Device.Sysfs.{
  FileSystem, Architecture, unknown_architecture, xdna1_aie2, DiscoveryPaths, SysfsSnapshot,
  classify_architecture, with_topology, start_snapshot, device_fields, read_device, if_present,
  discover_sysfs, read_attr,
}

-- The board is an NPU1, or the PCI device is 0x1502, in letters of either case.
abbrev pub IsNpu1 : (vbnv pci_device_id : Bytes) → Type 0
IsNpu1 vbnv pci_device_id =
    Contains (bytes "npu1") (lowercase vbnv)
    ⊎ ((lowercase pci_device_id ≡ bytes "1502") ⊎ (lowercase pci_device_id ≡ bytes "0x1502"))

npu1-cases :
    (board short long : Bool) (A B C : Type 0)
    → board ≡ true ↔ A
    → short ≡ true ↔ B
    → long ≡ true ↔ C
    → ((if board || short || long then xdna1_aie2 else unknown_architecture) ≡ xdna1_aie2)
      ↔ (A ⊎ (B ⊎ C))
npu1-cases true short long A B C a b c = (λ _. inl (a.0 refl), λ _. refl)
npu1-cases false true long A B C a b c = (λ _. inr (inl (b.0 refl)), λ _. refl)
npu1-cases false false true A B C a b c = (λ _. inr (inr (c.0 refl)), λ _. refl)
npu1-cases false false false A B C a b c = (
  λ e. ground (arith, e),
  λ npu1. elim npu1 [
    | inl x ↦ ground (arith, a.1 x)
    | inr (inl x) ↦ ground (arith, b.1 x)
    | inr (inr x) ↦ ground (arith, c.1 x)
  ],
)

=ˢ_iff : (s t : Bytes) → (s =ˢ t) ≡ true ↔ s ≡ t
=ˢ_iff s t = (=ˢ_sound s t, λ e. ap (λ u. u =ˢ t) e ∙ =ˢ_refl t)

-- What the classification says of a board name and a device id.
classify_architecture-IsNpu1 :
    (vbnv pci_device_id : Bytes)
    → (classify_architecture vbnv pci_device_id ≡ xdna1_aie2) ↔ IsNpu1 vbnv pci_device_id
unfolding classify_architecture
classify_architecture-IsNpu1 vbnv pci_device_id =
    npu1-cases _ _ _ _ _ _
      (
        split_first-Contains (bytes "npu1") [] (lowercase vbnv),
        Contains-split_first b'n' (bytes "pu1") [] (lowercase vbnv),
      )
      (=ˢ_iff (lowercase pci_device_id) (bytes "1502"))
      (=ˢ_iff (lowercase pci_device_id) (bytes "0x1502"))

-- A snapshot of a device. It is of the XDNA1 architecture exactly when the device is present and its files `vbnv` and
-- `device` say so, and it has the array of six rows and five columns exactly then, and none otherwise.
pub record IsSnapshot (files : FileSystem) (paths : DiscoveryPaths) (snapshot : SysfsSnapshot)
    : Type 0 where
  pub present : snapshot.sysfs_device_present ≡ files.exists paths.sysfs_device
  pub classified : (snapshot.architecture ≡ xdna1_aie2) ↔ (
      (files.exists paths.sysfs_device ≡ true)
      × IsNpu1
          (read_attr files paths.sysfs_device (bytes "vbnv"))
          (read_attr files paths.sysfs_device (bytes "device")))
  pub topology :
      snapshot.architecture ≡ xdna1_aie2
      → snapshot.physical_topology ≡ some (record { rows = 6; columns = 5 })
  pub no_topology : ¬ (snapshot.architecture ≡ xdna1_aie2) → snapshot.physical_topology ≡ none

module _ (files : FileSystem) (paths : DiscoveryPaths) where
  by_kind :
      (kind : Architecture)
      → files.exists paths.sysfs_device ≡ true
      → classify_architecture
          (read_attr files paths.sysfs_device (bytes "vbnv"))
          (read_attr files paths.sysfs_device (bytes "device"))
        ≡ kind
      → (kind ≡ xdna1_aie2)
        ↔ IsNpu1
            (read_attr files paths.sysfs_device (bytes "vbnv"))
            (read_attr files paths.sysfs_device (bytes "device"))
      → IsSnapshot files paths
          (with_topology kind (device_fields files (start_snapshot files paths) kind))
  by_kind unknown_architecture e h npu1 = record {
    present = refl;
    classified = (λ k. (e, npu1.0 k), λ (_, is). npu1.1 is);
    topology = λ k. ground (arith, k);
    no_topology = λ _. refl;
  }
  by_kind xdna1_aie2 e h npu1 = record {
    present = refl;
    classified = (λ k. (e, npu1.0 k), λ (_, is). npu1.1 is);
    topology = λ _. refl;
    no_topology = λ never. absurd (never refl);
  }

  by_presence :
      (b : Bool)
      → files.exists paths.sysfs_device ≡ b
      → IsSnapshot files paths (if_present files b (start_snapshot files paths))
  unfolding read_device
  by_presence true e = by_kind _ e refl (
      classify_architecture-IsNpu1 (read_attr files paths.sysfs_device (bytes "vbnv"))
        (read_attr files paths.sysfs_device (bytes "device")))
  by_presence false e = record {
    present = refl;
    classified = (λ k. ground (arith, k), λ (there, _). ground (arith, e, there));
    topology = λ k. ground (arith, k);
    no_topology = λ _. refl;
  }

-- For every file system, `discover_sysfs` reports the XDNA1 architecture exactly when the device is
-- present, and its file `vbnv` has `npu1` somewhere or its file `device` is `1502` or `0x1502`, in
-- letters of either case. It reports the physical array of six rows and five columns exactly then,
-- and none otherwise; and the device as present as the file system says.
pub discover_sysfs-IsSnapshot :
    (files : FileSystem) (paths : DiscoveryPaths)
    → IsSnapshot files paths (discover_sysfs files paths)
unfolding discover_sysfs
discover_sysfs-IsSnapshot files paths =
    by_presence files paths (files.exists paths.sysfs_device) refl
