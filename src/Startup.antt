-- ===== src/Startup.antt =====
-- The start functions of the services, `Start...Service` in src/service, and the order in which
-- src/app/tbot/tbot_interface.c calls them. A queue's pointer is an `Option`, with `none` for NULL; a
-- pointer to a structure that is only tested is a `Bool`, true where it is not NULL.
pub mod Receiver
pub mod Threads
pub mod Robot
pub mod Car
pub mod Main
use robofw.Common.{
  ℕ, Bool, true, false, ◌&&◌, ◌||◌, not, Option, none, some, List, [], ◌∷◌, ◌++◌, ltb, ◌==◌,
  if◌then◌else◌,
}
use robofw.Can.{CanDriver, CanDescriptor, CanFilter, standard, can_dataframe, configure_can}

pub data Thread : Type 0 where
  receiver_loop tbot_actuator_loop rccar_actuator_loop encoder_loop speed_loop : Thread
  motion_loop messenger_rx_loop messenger_tx_loop coordinator_loop : Thread

-- What a start function returns, what it leaves in `def->interface`, and the threads it creates.
pub record Started (I : Type 0) : Type 0 where
  pub ok : Bool
  pub interface : I
  pub threads : List Thread

abbrev pub refused : {I : Type 0} → I → Started I
refused i = record { ok = false; interface = i; threads = [] }

-- The `interface` member of each service's definition, with `Q` for what a pointer to a queue names.
pub record QueueOut (Q : Type 0) : Type 0 where
  pub msgq_out : Option Q

pub record QueueIn (Q : Type 0) : Type 0 where
  pub msgq_in : Option Q

pub record ControlInterface (Q : Type 0) : Type 0 where
  pub command_in : Option Q
  pub feedback_out : Option Q

pub record MessengerInterface (Q : Type 0) : Type 0 where
  pub robot_state_in : Option Q
  pub desired_motion_out : Option Q
  pub supervisor_cmd_out : Option Q

pub data ActuatorType : Type 0 where
  actr_tbot actr_rccar actr_other : ActuatorType

abbrev actuator_thread : ActuatorType → List Thread
actuator_thread actr_tbot = tbot_actuator_loop ∷ []
actuator_thread actr_rccar = rccar_actuator_loop ∷ []
actuator_thread actr_other = []

abbrev is_known : ActuatorType → Bool
is_known actr_other = false
is_known _ = true

-- What every data frame passes, and CAN_NORMAL_MODE of Zephyr.
abbrev pub can_filter : CanFilter
can_filter = record { id_type = standard; rtr = can_dataframe; rtr_mask = 1; id_mask = 0 }

abbrev pub can_normal_mode : ℕ
can_normal_mode = 0

-- The loop over `dd_encoders`.
abbrev pub all_set : ℕ → Bool → Bool → Bool
all_set active_encoder_num has_0 has_1 = has_0 && (if ltb 1 active_encoder_num then has_1 else true)

module _ {Q : Type 0} where
  -- `InitTbotActuators` and `InitRcCarActuators` return true.
  unfoldable pub start_actuator_service :
      Option Q → ℕ → Bool → ActuatorType → QueueIn Q → Started (QueueIn Q)
  start_actuator_service none active_motor_num has_cfg type i = refused i
  start_actuator_service (some q) active_motor_num has_cfg type i =
      let set : QueueIn Q = record { msgq_in = some q } in
      if active_motor_num == 0 || ltb 2 active_motor_num
      then refused set
      else (if not has_cfg
          then refused set
          else record { ok = is_known type; interface = set; threads = actuator_thread type })

  unfoldable pub start_encoder_service :
      Option Q → ℕ → Bool → Bool → QueueOut Q → Started (QueueOut Q)
  start_encoder_service none active_encoder_num has_0 has_1 i = refused i
  start_encoder_service (some q) active_encoder_num has_0 has_1 i =
      let set : QueueOut Q = record { msgq_out = some q } in
      if active_encoder_num == 0 || ltb 2 active_encoder_num
      then refused set
      else (if all_set active_encoder_num has_0 has_1
          then record { ok = true; interface = set; threads = encoder_loop ∷ [] }
          else refused set)

  -- `StartSpeedControlService` and `StartMotionService`.
  abbrev start_control :
      Thread → Option Q → Option Q → Bool → Bool → ControlInterface Q → Started (ControlInterface Q)
  start_control thread none feedback dep_0 dep_1 i = refused i
  start_control thread (some q) none dep_0 dep_1 i = refused (record i { command_in = some q })
  start_control thread (some q) (some q2) dep_0 dep_1 i =
      let set : ControlInterface Q = record { command_in = some q; feedback_out = some q2 } in
      if not dep_0 || not dep_1
      then refused set
      else record { ok = true; interface = set; threads = thread ∷ [] }

  unfoldable pub start_speed_control_service :
      Option Q → Option Q → Bool → Bool → ControlInterface Q → Started (ControlInterface Q)
  start_speed_control_service desired_rpm feedback has_actuator has_encoder i =
      start_control speed_loop desired_rpm feedback has_actuator has_encoder i

  unfoldable pub start_motion_service :
      Option Q → Option Q → Bool → Bool → ControlInterface Q → Started (ControlInterface Q)
  start_motion_service desired_motion feedback has_coordinator has_speed_control i =
      start_control motion_loop desired_motion feedback has_coordinator has_speed_control i

  -- The rest of `StartMessengerService` of the robot, from its queues on.
  abbrev pub set_messenger_queues :
      Option Q → Option Q → Option Q → Bool → MessengerInterface Q → Started (MessengerInterface Q)
  set_messenger_queues none motion supervisor has_all i = refused i
  set_messenger_queues (some q) none supervisor has_all i =
      refused (record i { robot_state_in = some q })
  set_messenger_queues (some q) (some q2) none has_all i =
      refused (record i { robot_state_in = some q; desired_motion_out = some q2 })
  set_messenger_queues (some q) (some q2) (some q3) has_all i =
      let set : MessengerInterface Q = record {
        robot_state_in = some q;
        desired_motion_out = some q2;
        supervisor_cmd_out = some q3;
      } in
      if not has_all then refused set else record {
        ok = true;
        interface = set;
        threads = messenger_rx_loop ∷ messenger_tx_loop ∷ [];
      }

  module _ (d : CanDriver) where
    open d use {State}

    -- The messenger of the robot configures its CAN device before it tests the pointer to it: `none`
    -- where that follows NULL. The result of `ConfigureCan` is not read.
    unfoldable pub start_messenger_service :
        Option (CanDescriptor × State)
        → Option Q
        → Option Q
        → Option Q
        → Bool
        → Bool
        → Bool
        → MessengerInterface Q
        → Option (Started (MessengerInterface Q) × CanDescriptor × State)
    start_messenger_service none state motion supervisor has_receiver has_actuator has_speed i =
        none
    start_messenger_service (some (dd, s)) state motion supervisor has_receiver has_actuator
          has_speed i =
        let (done, dd2, s2) = configure_can d dd s can_normal_mode 500000 can_filter in
        some (
          set_messenger_queues state motion supervisor (has_receiver && has_actuator && has_speed)
              i,
          dd2,
          s2,
        )

-- The coordinator of the robot has no interface.
unfoldable pub start_coordinator_service : Bool → Bool → Bool → Started Unit
start_coordinator_service has_receiver has_messenger has_motion =
    if not has_receiver || (not has_messenger || not has_motion)
    then refused tt
    else record { ok = true; interface = tt; threads = coordinator_loop ∷ [] }
