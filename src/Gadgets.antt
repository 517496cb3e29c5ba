-- ===== src/Gadgets.antt =====
-- `DigitalInterface` and `AnalogInterface` of vrjugglua/Internal_DigitalInterface.cpp and
-- vrjugglua/Internal_AnalogInterface.cpp: what scripts read from the buttons and axes of Gadgeteer.
pub mod Pressing
use vr_jugglua.Prelude.{Bool, true, false, ◌||◌, Bytes}

-- `gadget::Digital::State`, in the order of its header.
pub data DigitalState : Type 0 where
  off on toggle_on toggle_off : DigitalState

abbrev pub is_on : DigitalState → Bool
is_on on = true
is_on state = false

abbrev pub is_toggle_on : DigitalState → Bool
is_toggle_on toggle_on = true
is_toggle_on state = false

abbrev pub is_toggle_off : DigitalState → Bool
is_toggle_off toggle_off = true
is_toggle_off state = false

-- What the first call of `getData` gives, and a second one.
unfoldable pub pressed : DigitalState → DigitalState → Bool
pressed first second = is_toggle_on first || is_on second

unfoldable pub just_changed : DigitalState → DigitalState → Bool
just_changed first second = is_toggle_on first || is_toggle_off second

unfoldable pub just_pressed : DigitalState → Bool
just_pressed state = is_toggle_on state

unfoldable pub just_released : DigitalState → Bool
just_released state = is_toggle_off state

-- Gadgeteer, another project's code: the devices by name, and the state of one as `getData` gives it; and
-- the machine's floating-point numbers.
pub record Gadgeteer : Type 1 where
  pub Double : Type 0
  pub times : Double → Double → Double
  pub minus : Double → Double → Double
  pub one : Double
  pub two : Double
  pub AnalogDevice : Type 0
  pub analog_init : Bytes → AnalogDevice
  pub analog_data : AnalogDevice → Double

module _ (gadget : Gadgeteer) where
  open gadget use {Double, times, minus, one, two, AnalogDevice, analog_init, analog_data}

  unfoldable pub new_analog_interface : Bytes → AnalogDevice
  new_analog_interface device = analog_init device

  unfoldable pub get_data : AnalogDevice → Double
  get_data iface = analog_data iface

  unfoldable pub get_centered : AnalogDevice → Double
  get_centered iface = minus (times (analog_data iface) two) one
