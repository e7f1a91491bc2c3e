-- ===== src/Can/Configure.antt =====
-- When `ConfigureCan` succeeds, and what it leaves in the device's descriptor.
use robofw.Common.{ℕ, ◌≡◌, Bool, true, false, ◌&&◌, not, if◌then◌else◌, arith}
use robofw.Common.Int.{pos, ltb_ℤ, ◌-ℤ◌}
use robofw.Can.{
  CanDriver, CanDescriptor, CanFilter, can_no_free_filter, can_sampling_point, is_zero,
  configure_can,
}

module _ (d : CanDriver) (dd : CanDescriptor) (s : d.State) (mode bitrate : ℕ)
    (filter : CanFilter) where
  open d use {State, Timing, calc_timing, set_timing, configure, attach_msgq}

  -- The driver's state after each of its calls.
  abbrev timing : Timing
  timing = (calc_timing s bitrate can_sampling_point).1

  abbrev timed : State
  timed = (set_timing s timing).1

  abbrev configured : State
  configured = (configure timed mode bitrate).1

  -- The timing can be computed and set, and the mode can be set.
  abbrev pub takes_timing : Bool
  takes_timing =
      not (ltb_ℤ (calc_timing s bitrate can_sampling_point).0 (pos 0))
      && is_zero (set_timing s timing).0
      && is_zero (configure timed mode bitrate).0

  -- And a filter is free.
  abbrev pub has_filter : Bool
  has_filter = not (is_zero ((attach_msgq configured filter).0 -ℤ can_no_free_filter))

  pub record Configured (out : Bool × CanDescriptor × State) : Type 0 where
    pub result : out.0 ≡ (dd.active && takes_timing && has_filter)
    pub bitrate_set : out.1.bitrate ≡ (if dd.active && takes_timing then bitrate else dd.bitrate)
    pub still_active : out.1.active ≡ dd.active
    pub untouched : dd.active ≡ false → out.2 ≡ s
    pub attached :
        dd.active ≡ true → takes_timing ≡ true → out.2 ≡ (attach_msgq configured filter).1

  -- The configuration of a device succeeds exactly when it is active, its timing can be computed and
  -- set, its mode can be set, and a filter is free. The bit rate is stored where only a filter may be
  -- missing; an inactive device is left alone.
  pub configure_can-Configured : Configured (configure_can d dd s mode bitrate filter)
  unfolding configure_can
  configure_can-Configured = ground arith
