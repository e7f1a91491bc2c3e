-- ===== src/Examples/Uplink.antt =====
-- The robot's CAN uplink on concrete frames.
use robofw.Common.{◌≡◌, refl, true, false, List, [], arith}
use robofw.Common.Int.{ℤ, pos, negsuc}
use robofw.Common.Floats.{fixed}
use robofw.Common.Msgq.Bounded.{Bounded, bounded, bounded-MsgqLaws}
use robofw.Can.{CanFrame, standard}
use robofw.Types.{k_control_mode_can}
use robofw.Tbot.Codec.{TbotMsg, supervisor_command, decode_can_message, encode_can_message}
use robofw.Tbot.Codec.Laws.{
  set_rpm, command_bytes, feedback_msg, raw_of, ReadFeedback, encode-feedback,
}
use robofw.Tbot.Messenger.{CommandPorts, ReportPorts}
use robofw.Tbot.Messenger.Receive.{CommandPortsUsable, Received, receive_frame-Received}
use robofw.Tbot.Messenger.Transmit.{Transmitted, transmit_turn-Transmitted}
use robofw.Examples.Data.{queue, holding, queue-IsUsable, logging, can, blank, speeds}

abbrev rpm_frame : CanFrame
rpm_frame = record {
  id_type = standard;
  id = 0x102;
  rtr = 0;
  dlc = 8;
  bytes = command_bytes (set_rpm (negsuc 999) (pos 70000));
}

abbrev old : TbotMsg ℤ
old = supervisor_command 1

abbrev command_ports : CommandPorts Bounded ℤ
command_ports = record {
  supervisor_cmd_out = queue;
  actuator_cmd_in = queue;
  desired_rpm_in = queue;
  desired_motion_out = queue;
}

command_ports-usable : CommandPortsUsable fixed bounded bounded-MsgqLaws command_ports
command_ports-usable = record {
  supervisor = queue-IsUsable;
  actuator = queue-IsUsable;
  rpm = queue-IsUsable;
  motion = queue-IsUsable;
}

receive_frame-Received_example :
    (out : CommandPorts Bounded ℤ) × Received fixed bounded bounded-MsgqLaws
      (set_rpm (negsuc 999) (pos 70000))
      rpm_frame
      old
      command_ports
      out
receive_frame-Received_example =
    receive_frame-Received fixed bounded bounded-MsgqLaws (set_rpm (negsuc 999) (pos 70000))
      rpm_frame old command_ports (omega arith) refl refl command_ports-usable

encode-feedback_example :
    ReadFeedback
      (encode_can_message (feedback_msg ℤ (raw_of (negsuc 4) (pos 70000))) blank)
      (raw_of (negsuc 4) (pos 70000))
    × (decode_can_message fixed
          (encode_can_message (feedback_msg ℤ (raw_of (negsuc 4) (pos 70000))) blank)
          old
        ≡ (false, old))
encode-feedback_example =
    encode-feedback fixed (raw_of (negsuc 4) (pos 70000)) blank old (omega arith) (omega arith)

abbrev reports : ReportPorts Bounded
reports = record {
  control_feedback_out = holding (record {
    target_speed = record { motor_0 = pos 3; motor_1 = negsuc 2 };
    measured_speed = speeds;
  });
  robot_state_in = holding (record {
    rc_connected = true;
    estop_triggered = false;
    control_mode = k_control_mode_can;
    sup_mode = 2;
  });
}

transmit_turn-Transmitted_example :
    (out : ReportPorts Bounded × CanFrame × List CanFrame) × Transmitted fixed bounded logging can
      refl bounded-MsgqLaws 2 reports blank [] out
transmit_turn-Transmitted_example =
    transmit_turn-Transmitted fixed bounded logging can refl bounded-MsgqLaws 2 reports blank []
      (omega arith) (omega arith) refl
