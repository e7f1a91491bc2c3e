-- ===== src/Can.antt =====
-- src/module/mcal/src/can_interface.c: the CAN devices. The frame and the driver calls are Zephyr's.
pub mod Configure
use robofw.Common.{ℕ, Bool, true, false, List, ◌==◌, if◌then◌else◌, take, not}
use robofw.Common.Int.{ℤ, pos, negsuc, ltb_ℤ, ◌-ℤ◌}

-- The fields of a `struct zcan_frame` that the firmware sets.
pub data IdType : Type 0 where
  standard extended : IdType

pub record CanFrame : Type 0 where
  pub id_type : IdType
  pub id : ℕ
  pub rtr : ℕ
  pub dlc : ℕ
  pub bytes : List ℕ

pub record CanFilter : Type 0 where
  pub id_type : IdType
  pub rtr : ℕ
  pub rtr_mask : ℕ
  pub id_mask : ℕ

-- CAN_TX_OK, CAN_DATAFRAME and CAN_NO_FREE_FILTER of Zephyr's drivers/can.h.
abbrev pub can_tx_ok : ℤ
can_tx_ok = pos 0

abbrev pub can_dataframe : ℕ
can_dataframe = 0

abbrev pub can_no_free_filter : ℤ
can_no_free_filter = negsuc 0

-- The driver of one device: a state of its own, and what each call returns. The timing that
-- `can_calc_timing` computes is passed to `can_set_timing`.
pub record CanDriver : Type 1 where
  pub State : Type 0
  pub Timing : Type 0
  pub calc_timing : State → ℕ → ℕ → ℤ × Timing
  pub set_timing : State → Timing → ℤ × State
  pub configure : State → ℕ → ℕ → ℤ × State
  pub attach_msgq : State → CanFilter → ℤ × State
  pub send : State → CanFrame → ℤ × State

-- `CanDescriptor`; the device stands in the driver's state, and the queue with its owner.
pub record CanDescriptor : Type 0 where
  pub active : Bool
  pub bitrate : ℕ

abbrev pub can_sampling_point : ℕ
can_sampling_point = 875

abbrev pub is_zero : ℤ → Bool
is_zero (pos n) = n == 0
is_zero (negsuc n) = false

module _ (d : CanDriver) where
  open d use {State, Timing, calc_timing, set_timing, configure, attach_msgq, send}

  -- `ConfigureCan`, on the device's descriptor and driver state.
  unfoldable pub configure_can :
      CanDescriptor → State → ℕ → ℕ → CanFilter → Bool × CanDescriptor × State
  configure_can dd s mode bitrate zfilter =
      if not dd.active
      then (false, dd, s)
      else (let (ret, timing) = calc_timing s bitrate can_sampling_point in
          if ltb_ℤ ret (pos 0)
          then (false, dd, s)
          else (let (ret2, s2) = set_timing s timing in
              if not (is_zero ret2)
              then (false, dd, s2)
              else (let (ret3, s3) = configure s2 mode bitrate in
                  if not (is_zero ret3)
                  then (false, dd, s3)
                  else (let dd' = record dd { bitrate = bitrate } in
                      let (ret4, s4) = attach_msgq s3 zfilter in
                      if is_zero (ret4 -ℤ can_no_free_filter)
                      then (false, dd', s4)
                      else (true, dd', s4)))))

  -- `SendCanFrame`. An inactive device returns `false`, which the result type makes 0.
  unfoldable pub send_can_frame : CanDescriptor → State → ℕ → Bool → List ℕ → ℕ → ℤ × State
  send_can_frame dd s id is_std_id bytes dlc =
      if not dd.active
      then (pos 0, s)
      else send s (record {
        id_type = if is_std_id then standard else extended;
        id = id;
        rtr = can_dataframe;
        dlc = dlc;
        bytes = take dlc bytes;
      })
