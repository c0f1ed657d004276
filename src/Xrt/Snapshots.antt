-- ===== src/Xrt/Snapshots.antt =====
-- What the probe of XRT reports.
use mathlib.Core.List.{append_assoc, append-nil}
use xdna_cpp.Base.{
  ℕ, zero, suc, ◌+◌, ◌≡◌, refl, sym, ap, ◌∙◌, Bool, true, false, ◌&&◌, List, [], ◌∷◌, ◌++◌, some,
  ◌⊎◌, inl, inr, map, arith, length, ◌<◌, ◌≤◌, ◌↔◌, Bool-cases, subst, ==_iff, ◌==◌,
}
use xdna_cpp.Base.Outcome.{Exception}
use xdna_cpp.Xrt.Devices.{IsDevice, probe_device-IsDevice}
use xdna_cpp.Xrt.{
  XrtDeviceSnapshot, XrtProbe, XrtSystem, probe_device, push_device, probe_devices, enumerated,
  probe_xrt, strict_succeeded, has_value,
}

-- The indices from `first`.
abbrev pub up_from : (left first : ℕ) → List ℕ
up_from zero first = []
up_from (suc left) first = first ∷ up_from left (first + 1)

abbrev pub some_opened : List XrtDeviceSnapshot → Bool
some_opened [] = false
some_opened (device ∷ devices) = elim device.opened [ true ↦ true | false ↦ some_opened devices ]

-- The number of devices that XRT enumerated.
abbrev pub enumerated_count : Exception ⊎ ℕ → ℕ
enumerated_count (inl e) = 0
enumerated_count (inr count) = count

-- The devices are those of the indices from `first`.
abbrev pub AreDevices : XrtSystem → (first : ℕ) → List XrtDeviceSnapshot → Type 0
AreDevices xrt first [] = Unit {0}
AreDevices xrt first (device ∷ devices) =
    IsDevice xrt first device × AreDevices xrt (first + 1) devices

-- An index that XRT enumerated opens.
abbrev pub SomeOpens : XrtSystem → Type 0
SomeOpens xrt =
    (index : ℕ) × (index < enumerated_count xrt.enumerate_devices) × (xrt.open_index index ≡ inr tt)

pub record IsXrtProbe (xrt : XrtSystem) (probe : XrtProbe) : Type 0 where
  pub count : length probe.devices ≡ enumerated_count xrt.enumerate_devices
  pub snapshots : AreDevices xrt 0 probe.devices
  pub any_opened : probe.any_device_opened ≡ true ↔ SomeOpens xrt
  pub strict : strict_succeeded probe ≡ probe.any_device_opened

module _ (xrt : XrtSystem) where
  devices-probe_devices :
      (left index : ℕ) (probe : XrtProbe)
      → (probe_devices xrt left index probe).devices
        ≡ probe.devices ++ map (probe_device xrt) (up_from left index)
  unfolding probe_devices
  devices-probe_devices zero index probe = sym (append-nil probe.devices)
  devices-probe_devices (suc left) index probe =
      devices-probe_devices left (index + 1) (push_device xrt probe (probe_device xrt index))
      ∙ append_assoc probe.devices (probe_device xrt index ∷ [])
          (map (probe_device xrt) (up_from left (index + 1)))

  some_opened-append :
      (devices : List XrtDeviceSnapshot) (device : XrtDeviceSnapshot)
      → some_opened (devices ++ device ∷ [])
        ≡ elim device.opened [ true ↦ true | false ↦ some_opened devices ]
  some_opened-append [] device = refl
  some_opened-append (first ∷ devices) device = ground (arith, some_opened-append devices device)

  -- The flag says that a snapshot is opened, and the count is kept.
  probe_devices-keeps :
      (left index : ℕ) (probe : XrtProbe)
      → probe.any_device_opened ≡ some_opened probe.devices
      → ((probe_devices xrt left index probe).any_device_opened
          ≡ some_opened (probe_devices xrt left index probe).devices)
        × ((probe_devices xrt left index probe).device_count ≡ probe.device_count)
  unfolding probe_devices
  probe_devices-keeps zero index probe agrees = (agrees, refl)
  probe_devices-keeps (suc left) index probe agrees =
      probe_devices-keeps left (index + 1) (push_device xrt probe (probe_device xrt index))
        (ground (arith, agrees, some_opened-append probe.devices (probe_device xrt index)))

  up_from-AreDevices :
      (left first : ℕ) → AreDevices xrt first (map (probe_device xrt) (up_from left first))
  up_from-AreDevices zero first = tt
  up_from-AreDevices (suc left) first =
      (probe_device-IsDevice xrt first, up_from-AreDevices left (first + 1))

  length-up_from : (left first : ℕ) → length (map (probe_device xrt) (up_from left first)) ≡ left
  length-up_from zero first = refl
  length-up_from (suc left) first = ap suc (length-up_from left (first + 1))

  some_opened-index :
      (devices : List XrtDeviceSnapshot) (first : ℕ)
      → AreDevices xrt first devices
      → some_opened devices ≡ true
      → (index : ℕ) × (index < first + length devices) × (xrt.open_index index ≡ inr tt)
  some_opened-index [] first are opened = ground (arith, opened)
  some_opened-index (device ∷ devices) first (is, are) opened = elim (Bool-cases device.opened) [
    | inl here ↦ (first, omega arith, is.opened_if.0 here)
    | inr not_here ↦
        let (index, below, opens) =
          some_opened-index devices (first + 1) are (ground (arith, opened, not_here)) in
        (index, omega (arith, below), opens)
  ]

  index-some_opened :
      (devices : List XrtDeviceSnapshot) (first index : ℕ)
      → AreDevices xrt first devices
      → first ≤ index
      → index < first + length devices
      → xrt.open_index index ≡ inr tt
      → some_opened devices ≡ true
  index-some_opened [] first index are from below opens = absurd (omega (arith, from, below))
  index-some_opened (device ∷ devices) first index (is, are) from below opens =
      elim (Bool-cases (first == index)) [
        | inl same ↦
            rw
              (is.opened_if.1
                (subst (λ (i : ℕ). xrt.open_index i ≡ inr tt) (sym ((==_iff _ _).0 same)) opens))
              refl
        | inr apart ↦
            let later =
              index-some_opened devices (first + 1) index are (ground (arith, from, apart))
                (omega (arith, below)) opens in
            ground (arith, later)
      ]

  enumerated-IsXrtProbe :
      (answer : Exception ⊎ ℕ)
      → xrt.enumerate_devices ≡ answer
      → IsXrtProbe xrt (enumerated xrt answer)
  unfolding probe_devices
  enumerated-IsXrtProbe (inl e) h = record {
    count = rw h refl;
    snapshots = tt;
    any_opened =
        (λ opened. ground (arith, opened), λ (index, below, opens). ground (arith, h, below));
    strict = refl;
  }
  enumerated-IsXrtProbe (inr count) h =
      let started = record (enumerated xrt (inr 0)) { device_count = some count } in
      let (agrees, counted) = probe_devices-keeps count 0 started refl in
      let devices = devices-probe_devices count 0 started in
      let are = subst (AreDevices xrt 0) (sym devices) (up_from-AreDevices count 0) in
      let counted_all : enumerated_count xrt.enumerate_devices ≡ count = ap enumerated_count h in
      let many = ap length devices ∙ length-up_from count 0 in
      record {
        count = many ∙ sym counted_all;
        snapshots = are;
        any_opened = (
          λ opened.
              let (index, below, opens) = some_opened-index _ 0 are (sym agrees ∙ opened) in
              (index, omega (arith, below, many, counted_all), opens),
          λ (index, below, opens).
              agrees
              ∙ index-some_opened _ 0 index are (omega arith)
                  (omega (arith, below, many, counted_all)) opens,
        );
        strict =
            ap (λ c. has_value c && (probe_devices xrt count 0 started).any_device_opened) counted;
      }

-- For every XRT, `probe_xrt` has one snapshot for each enumerated index, in order, and none where
-- the enumeration threw. A snapshot is opened exactly when its device opens; it has the texts that
-- XRT gives of an opened device, and as its error the message of the first call that threw. The
-- flag says whether an enumerated device opens, and the strict status is that flag.
pub probe_xrt-IsXrtProbe : (xrt : XrtSystem) → IsXrtProbe xrt (probe_xrt xrt)
unfolding probe_xrt
probe_xrt-IsXrtProbe xrt = enumerated-IsXrtProbe xrt xrt.enumerate_devices refl
