-- ===== src/Precheck/Ports.antt =====
-- src/factory_precheck/precheck_model.cpp, run_usb_port_check_: when a port passes.
use factory_test.Common.{
  true, false, ==_iff, Bool-cases, both_true, Option-cases, inl, inr, ℕ, String, str_eq_iff,
  is_empty, List, [], ◌∷◌, none, some, ◌≡◌, ◌↔◌, refl, sym, ◌∙◌,
}
use factory_test.Precheck.{CheckItem}
use factory_test.Precheck.Devices.{UsbDevice, Devices, is_usb_device_at_port}
use factory_test.Precheck.Watches.{at_port, run_usb_port_check}

-- One of the devices is at the port.
pub data IsPlugged (bus : ℕ) (path : String) : List UsbDevice → Type 0 where
  here :
      {device : UsbDevice} {devices : List UsbDevice}
      → device.bus ≡ bus
      → device.port_path ≡ path
      → IsPlugged bus path (device ∷ devices)
  later :
      {device : UsbDevice} {devices : List UsbDevice}
      → IsPlugged bus path devices
      → IsPlugged bus path (device ∷ devices)

at_port-IsPlugged :
    (devices : List UsbDevice) (bus : ℕ) (path : String) (device : UsbDevice)
    → at_port devices bus path ≡ some device
    → IsPlugged bus path devices
unfolding at_port
at_port-IsPlugged [] bus path device e = absurd (let bad : none ≡ some device = e in cc)
at_port-IsPlugged (first ∷ devices) bus path device e =
    elim (Bool-cases (is_usb_device_at_port first bus path)) [
      | inl there ↦
          let (on_bus, on_path) = both_true _ _ there in
          here ((==_iff first.bus bus).0 on_bus) ((str_eq_iff first.port_path path).0 on_path)
      | inr other ↦ later (at_port-IsPlugged devices bus path device (rw (other, at_port) at e))
    ]

IsPlugged-at_port :
    (devices : List UsbDevice) (bus : ℕ) (path : String)
    → IsPlugged bus path devices
    → (device : UsbDevice) × (at_port devices bus path ≡ some device)
unfolding at_port
IsPlugged-at_port [] bus path plugged = elim plugged [ ]
IsPlugged-at_port (first ∷ devices) bus path (here on_bus on_path) = (
  first,
  rw ((==_iff first.bus bus).1 on_bus, (str_eq_iff first.port_path path).1 on_path, at_port) refl,
)
IsPlugged-at_port (first ∷ devices) bus path (later rest) =
    elim (Bool-cases (is_usb_device_at_port first bus path)) [
      | inl there ↦ (first, rw (there, at_port) refl)
      | inr other ↦
          let (device, e) = IsPlugged-at_port devices bus path rest in
          (device, rw (other, at_port) e)
    ]

module _ (d : Devices) where
  -- The check of a port passes exactly when the devices can be listed and one of them is at the port.
  pub run_usb_port_check_iff :
      (bus : ℕ) (path : String) (item : CheckItem) (w : d.World)
      → ((run_usb_port_check d bus path item w).0.success ≡ true) ↔ (
          (is_empty (d.list_usb_port_devices w).0.1 ≡ true)
          × IsPlugged bus path (d.list_usb_port_devices w).0.0)
  unfolding run_usb_port_check
  run_usb_port_check_iff bus path item w =
      elim (Bool-cases (is_empty (d.list_usb_port_devices w).0.1)) [
        | inr error ↦ (
          (λ e. absurd (let bad : false ≡ true = rw (error, run_usb_port_check) at e in cc)),
          (λ (empty, plugged). absurd (let bad : true ≡ false = sym empty ∙ error in cc)),
        )
        | inl empty ↦ elim (Option-cases (at_port (d.list_usb_port_devices w).0.0 bus path)) [
          | inl none_there ↦ (
            (λ e.
                absurd
                  (let bad : false ≡ true = rw (empty, none_there, run_usb_port_check) at e in cc)),
            (λ (_, plugged).
                let (device, there) = IsPlugged-at_port _ bus path plugged in
                absurd (let bad : none ≡ some device = sym none_there ∙ there in cc)),
          )
          | inr (device, there) ↦ (
            (λ e. (empty, at_port-IsPlugged _ bus path device there)),
            (λ both_hold. rw (empty, there, run_usb_port_check) refl),
          )
        ]
      ]
