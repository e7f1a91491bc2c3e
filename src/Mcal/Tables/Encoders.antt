-- ===== src/Mcal/Tables/Encoders.antt =====
-- src/module/mcal/src/encoder_interface.c: what the encoder service reads, through the driver's
-- interface.
use robofw.Common.{ℕ, Bool, false, not, if◌then◌else◌}
use robofw.Stm32.{EncoderDriverApi, encoder_get_counts, encoder_is_counting_up}

-- `EncoderDescriptor`, with the interface of its device.
pub record EncoderDescriptor : Type 0 where
  pub active : Bool
  pub api : EncoderDriverApi

unfoldable pub get_encoder_count : EncoderDescriptor → ℕ
unfolding encoder_get_counts
get_encoder_count dd = if not dd.active then 0 else (encoder_get_counts dd.api 0).1

unfoldable pub is_encoder_counting_up : EncoderDescriptor → Bool
unfolding encoder_is_counting_up
is_encoder_counting_up dd = if not dd.active then false else (encoder_is_counting_up dd.api false).1
