-- ===== src/Xrt/Devices.antt =====
-- The snapshot of one device in `probe_xrt`.
use xdna_cpp.Base.{ℕ, ◌≡◌, refl, true, [], ◌⊎◌, inl, inr, arith, Bytes, ◌↔◌}
use xdna_cpp.Base.Outcome.{Exception, message_of}
use xdna_cpp.Base.Text.{bytes}
use xdna_cpp.Xrt.{XrtDeviceSnapshot, XrtSystem, probe_device, with_name, with_bdf, with_opening}

-- What the snapshot of an index says. It is opened exactly when the device opens; it has the texts of a device that
-- opens, as far as XRT gives them, and as its error the message of the first call that threw.
pub record IsDevice (xrt : XrtSystem) (index : ℕ) (device : XrtDeviceSnapshot) : Type 0 where
  pub same_index : device.index ≡ index
  pub opened_if : device.opened ≡ true ↔ xrt.open_index index ≡ inr tt
  pub not_opened :
      (e : Exception)
      → xrt.open_index index ≡ inl e
      → (device.bdf ≡ [])
        × (device.name ≡ [])
        × (device.error ≡ message_of e (bytes "unknown exception while opening XRT device"))
  pub no_bdf :
      (e : Exception)
      → xrt.open_index index ≡ inr tt
      → xrt.info_bdf index ≡ inl e
      → (device.bdf ≡ [])
        × (device.name ≡ [])
        × (device.error ≡ message_of e (bytes "unknown exception while opening XRT device"))
  pub no_name :
      (bdf : Bytes) (e : Exception)
      → xrt.open_index index ≡ inr tt
      → xrt.info_bdf index ≡ inr bdf
      → xrt.info_name index ≡ inl e
      → (device.bdf ≡ bdf)
        × (device.name ≡ [])
        × (device.error ≡ message_of e (bytes "unknown exception while opening XRT device"))
  pub complete :
      (bdf name : Bytes)
      → xrt.open_index index ≡ inr tt
      → xrt.info_bdf index ≡ inr bdf
      → xrt.info_name index ≡ inr name
      → (device.bdf ≡ bdf) × (device.name ≡ name) × (device.error ≡ [])

module _ (xrt : XrtSystem) where
  by_name :
      (index : ℕ) (bdf : Bytes) (answer : Exception ⊎ Bytes)
      → xrt.open_index index ≡ inr tt
      → xrt.info_bdf index ≡ inr bdf
      → xrt.info_name index ≡ answer
      → IsDevice xrt index (with_name index bdf answer)
  by_name index bdf (inl e) o b n = record {
    same_index = refl;
    opened_if = (λ _. o, λ _. refl);
    not_opened = λ e' o'.
        (ground (arith, o', o, b, n), ground (arith, o', o, b, n), ground (arith, o', o, b, n));
    no_bdf = λ e' o' b'. (
      ground (arith, o', b', o, b, n),
      ground (arith, o', b', o, b, n),
      ground (arith, o', b', o, b, n),
    );
    no_name = λ bdf' e' o' b' n'. (
      ground (arith, o', b', n', o, b, n),
      ground (arith, o', b', n', o, b, n),
      ground (arith, o', b', n', o, b, n),
    );
    complete = λ bdf' name' o' b' n'. (
      ground (arith, o', b', n', o, b, n),
      ground (arith, o', b', n', o, b, n),
      ground (arith, o', b', n', o, b, n),
    );
  }
  by_name index bdf (inr name) o b n = record {
    same_index = refl;
    opened_if = (λ _. o, λ _. refl);
    not_opened = λ e' o'.
        (ground (arith, o', o, b, n), ground (arith, o', o, b, n), ground (arith, o', o, b, n));
    no_bdf = λ e' o' b'. (
      ground (arith, o', b', o, b, n),
      ground (arith, o', b', o, b, n),
      ground (arith, o', b', o, b, n),
    );
    no_name = λ bdf' e' o' b' n'. (
      ground (arith, o', b', n', o, b, n),
      ground (arith, o', b', n', o, b, n),
      ground (arith, o', b', n', o, b, n),
    );
    complete = λ bdf' name' o' b' n'. (
      ground (arith, o', b', n', o, b, n),
      ground (arith, o', b', n', o, b, n),
      ground (arith, o', b', n', o, b, n),
    );
  }

  by_bdf :
      (index : ℕ) (answer : Exception ⊎ Bytes)
      → xrt.open_index index ≡ inr tt
      → xrt.info_bdf index ≡ answer
      → IsDevice xrt index (with_bdf xrt index answer)
  by_bdf index (inr bdf) o b = by_name index bdf (xrt.info_name index) o b refl
  by_bdf index (inl e) o b = record {
    same_index = refl;
    opened_if = (λ _. o, λ _. refl);
    not_opened =
        λ e' o'. (ground (arith, o', o, b), ground (arith, o', o, b), ground (arith, o', o, b));
    no_bdf = λ e' o' b'.
        (ground (arith, o', b', o, b), ground (arith, o', b', o, b), ground (arith, o', b', o, b));
    no_name = λ bdf' e' o' b' n'. (
      ground (arith, o', b', n', o, b),
      ground (arith, o', b', n', o, b),
      ground (arith, o', b', n', o, b),
    );
    complete = λ bdf' name' o' b' n'. (
      ground (arith, o', b', n', o, b),
      ground (arith, o', b', n', o, b),
      ground (arith, o', b', n', o, b),
    );
  }

  by_opening :
      (index : ℕ) (answer : Exception ⊎ Unit {0})
      → xrt.open_index index ≡ answer
      → IsDevice xrt index (with_opening xrt index answer)
  by_opening index (inr tt) o = by_bdf index (xrt.info_bdf index) o refl
  by_opening index (inl e) o = record {
    same_index = refl;
    opened_if = (λ w. ground (arith, w), λ o'. ground (arith, o, o'));
    not_opened = λ e' o'. (ground (arith, o', o), ground (arith, o', o), ground (arith, o', o));
    no_bdf = λ e' o' b'.
        (ground (arith, o', b', o), ground (arith, o', b', o), ground (arith, o', b', o));
    no_name = λ bdf' e' o' b' n'. (
      ground (arith, o', b', n', o),
      ground (arith, o', b', n', o),
      ground (arith, o', b', n', o),
    );
    complete = λ bdf' name' o' b' n'. (
      ground (arith, o', b', n', o),
      ground (arith, o', b', n', o),
      ground (arith, o', b', n', o),
    );
  }

  pub probe_device-IsDevice : (index : ℕ) → IsDevice xrt index (probe_device xrt index)
  unfolding probe_device
  probe_device-IsDevice index = by_opening index (xrt.open_index index) refl
