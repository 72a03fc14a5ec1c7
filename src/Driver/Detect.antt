-- ===== src/Driver/Detect.antt =====
-- driver/astral_detect.c: which cards and which adapters the driver may talk to.
-- What the PCI core answers is a parameter (`PciBus`); an adapter is what the code inspects of it.
pub mod Gate
pub mod Names
use astral_hwmon.Base.{
  ℕ, Bool, false, ◌&&◌, not, Option, none, some, List, [], ◌∷◌, ◌==◌, if◌then◌else◌,
}
use astral_hwmon.Base.Int.{ℤ, pos, negsuc}
use astral_hwmon.Base.Text.{Bytes, codes}
use astral_hwmon.Base.Sscanf.{sscanf_d}

abbrev pub pci_vendor_nvidia : ℕ
pci_vendor_nvidia = 0x10de

pub record Model : Type 0 where
  pub subsystem_vendor : ℕ
  pub subsystem_device : ℕ
  pub name : Bytes

abbrev pub row : ℕ → ℕ → Bytes → Model
row sv sd name = record { subsystem_vendor = sv; subsystem_device = sd; name = name }

-- ASTRAL_MODEL_LIST
unfoldable pub astral_models : List Model
astral_models =
    row 0x1043 0x89ea (codes "ROG Astral RTX 5090D OC")
    ∷ row 0x1043 0x8a61 (codes "ROG Astral RTX 5090 Matrix")
    ∷ row 0x1043 0x89ec (codes "ROG Astral RTX 5090 LC")
    ∷ row 0x1043 0x89e3 (codes "ROG Astral RTX 5090 OC")
    ∷ row 0x1043 0x89de (codes "ROG Astral RTX 5080 OC")
    ∷ row 0x1043 0x8a2e (codes "ROG Astral RTX 5090 OC White")
    ∷ row 0x1043 0x8a2b (codes "ROG Astral RTX 5080 OC White")
    ∷ row 0x1043 0x8a45 (codes "ROG Astral RTX 5080 OC Hatsune Miku")
    ∷ []

-- `struct pci_dev`, as far as it is read.
pub record PciDev : Type 0 where
  pub vendor : ℕ
  pub subsystem_vendor : ℕ
  pub subsystem_device : ℕ

-- `adap->dev.parent`: none, a device of another bus, or a PCI device.
pub data Parent : Type 0 where
  no_parent not_pci : Parent
  pci : PciDev → Parent

pub record Adapter : Type 0 where
  pub id : ℕ
  pub name : Bytes
  pub parent : Parent

-- The test of one row.
abbrev pub is_model : PciDev → Model → Bool
is_model pdev m =
    m.subsystem_vendor == pdev.subsystem_vendor && m.subsystem_device == pdev.subsystem_device

unfoldable pub model_name_from : List Model → PciDev → Option Bytes
model_name_from [] pdev = none
model_name_from (m ∷ rest) pdev = if is_model pdev m then some m.name else model_name_from rest pdev

-- `astral_model_name`
unfoldable pub model_name : PciDev → Option Bytes
unfolding model_name_from astral_models
model_name pdev = model_name_from astral_models pdev

-- Whether `pci_get_subsys(vendor, PCI_ANY_ID, sv, sd, NULL)` and
-- `pci_get_device(vendor, PCI_ANY_ID, NULL)` find a device.
pub record PciBus : Type 0 where
  pub get_subsys : (vendor sv sd : ℕ) → Bool
  pub get_device : (vendor : ℕ) → Bool

unfoldable pub card_present_from : List Model → PciBus → Option Bytes
card_present_from [] bus = none
card_present_from (m ∷ rest) bus =
    if bus.get_subsys pci_vendor_nvidia m.subsystem_vendor m.subsystem_device
    then some m.name
    else card_present_from rest bus

-- After the loop over the models.
unfoldable pub card_unknown : PciBus → Bool → Option Bytes
card_unknown bus allow_unknown =
    if not allow_unknown
    then none
    else if bus.get_device pci_vendor_nvidia
    then some (codes "unrecognised NVIDIA GPU (allow_unknown)")
    else none

abbrev pub or_else : Option Bytes → Option Bytes → Option Bytes
or_else (some a) b = some a
or_else none b = b

-- `astral_card_present`: the model stored for the caller, or `none` for false.
unfoldable pub card_present : PciBus → Bool → Option Bytes
unfolding card_present_from card_unknown astral_models
card_present bus allow_unknown =
    or_else (card_present_from astral_models bus) (card_unknown bus allow_unknown)

-- ASTRAL_ADAPTER_FMT, without its %d.
abbrev pub adapter_format : Bytes
adapter_format = codes "NVIDIA i2c adapter "

abbrev pub astral_adapter_index : ℕ
astral_adapter_index = 1

-- The test of the result of `sscanf`, and of the index that it stored.
abbrev pub selected : Option ℤ → Bool
selected none = false
selected (some (pos n)) = n == astral_adapter_index
selected (some (negsuc n)) = false

-- `astral_is_sensor_adapter`
unfoldable pub is_sensor_adapter : Adapter → Bool
is_sensor_adapter adap = selected (sscanf_d adapter_format adap.name)

-- `model ? model : "unknown Astral variant"`, where the card is accepted.
unfoldable pub accept : Option Bytes → Bool → Option Bytes
accept (some model) allow_unknown = some model
accept none allow_unknown = if allow_unknown then some (codes "unknown Astral variant") else none

unfoldable pub parent_matches : Parent → Bool → Option Bytes
unfolding accept model_name
parent_matches no_parent allow_unknown = none
parent_matches not_pci allow_unknown = none
parent_matches (pci pdev) allow_unknown =
    if pdev.vendor == pci_vendor_nvidia then accept (model_name pdev) allow_unknown else none

-- `astral_card_matches`: the model stored for the caller, or `none` for false.
unfoldable pub card_matches : Adapter → Bool → Option Bytes
unfolding parent_matches
card_matches adap allow_unknown = parent_matches adap.parent allow_unknown
