-- ===== src/Lib.antt =====
-- The firmware of small robots (robofw, C on Zephyr): a tracked robot, "tbot", and an RC car,
-- "rccar". A program is a set of services, each one thread with a loop, joined by message
-- queues.
--
-- On the tracked robot the receiver service decodes SBUS frames of a remote control and posts
-- scaled channels; the messenger decodes the commands of a CAN uplink; the coordinator chooses
-- between the two and posts a desired motion, with timeouts and an emergency stop; the motion
-- control limits it to motor speeds; the speed control runs two PID controllers on the speeds
-- that the encoder service measures, and posts a command to the actuators, which drive pins and
-- PWM channels. Feedback and state go back to the messenger. On the car the coordinator's
-- motions go to a messenger that drives a VESC motor controller by CAN frames.
--
-- Which file is about which code:
-- - Sbus and its children: src/module/sbus/src/sbus.c, the decoder `sbus_decode_message`,
--   `sbus_build_message` and ValidateSbusMessage, on the frame layout of include/sbus/sbus.h.
-- - Can, Mcal: src/module/mcal/src, `configure_can` and `send_can_frame` on a device's
--   descriptor, and the LED, DIO and PWM operations as lists of driver calls; Mcal.Uart, the
--   UART device with its callback; Mcal.Tables, the tables of devices that `init_hardware`
--   fills from the nodes of the device tree. Wire: the byte order that every encoder and
--   decoder of the firmware writes out.
-- - Stm32: drivers/encoder/encoder_stm32.c behind the interface of include/drivers/encoder.h,
--   with what the vendor's code answers as a record and what it is asked as a list of calls.
-- - Types: src/service/interface/include/interface/type.h, the messages between the services.
-- - Receiver: src/service/common/receiver/src/sbus_receiver.c, with Receiver.Loop for the turn
--   of its loop. Encoder: src/service/common/encoder/src/encoder_service.c, with Encoder.Loop
--   for the turn of its loop. Actuator: src/service/common/actuator/src, one module for each
--   kind of actuators.
-- - Tbot: src/service/robot_tbot; Coordinator, Motion, Speed, Messenger and Codec are its
--   coordinator, motion_control, speed_control, messenger and the messages of
--   messenger/src/tbot. Tbot.System puts the services on the queues by which
--   src/app/tbot/tbot_interface.c joins them: a run is any list of turns of its threads, and
--   Tbot.System.Start is the state in which they begin. Rccar: src/service/robot_rccar, its
--   coordinator and messenger, and Rccar.System, the car's services on their queues.
-- - Vesc: src/module/vesc, the commands of the controller as CAN frames, and their decoder.
-- - Startup: the start functions of the services, and InitRobot of
--   src/app/tbot/tbot_interface.c and of src/app/rccar/rccar_interface.c, in Startup.Robot and
--   Startup.Car; Startup.Receiver is the start of the receiver, with its UART, and Startup.Main
--   is `main` of src/app/tbot and src/app/rccar with ShowRobotPanic.
-- - Common: signed numbers, lists, bit operations as arithmetic, and the two parameters below
--   that all services share. Examples: every theorem with conditions, at concrete inputs.
--
-- How the code corresponds: a struct is a record, an enum a data type or the named constants
-- that the code compares; a function that writes through a pointer returns the new value beside
-- its result; the turn of a loop is a function from the service's local variables and the
-- queues that it touches to their new values and to the calls that it makes to drivers, in
-- order. A pointer that may be NULL is an Option. Unsigned fields keep their wrap-around; a
-- signed field is an integer, converted where the code assigns it to a narrower type.
--
-- Fuel: the loop by which a service posts to a queue, `while (k_msgq_put(...) != 0)
-- k_msgq_purge(...)`, takes fuel 2, for one put, one purge and one more put; the loops that
-- empty a queue or the ring buffer take fuel, and one unit more than it holds is enough, which
-- is what a turn of Tbot.System gives the messenger. `none` means that the fuel ran out, and in
-- a turn of the encoder service also that the code would divide by 0, by the time since the
-- last estimate, by the pulses per round of an active encoder, or by the sampling of the
-- configuration; the theorems on turns give a turn that ends, and do not assume that it does.
--
-- Parameters, for what is not code of the repository: `Floats`, the arithmetic of float and
-- double, with the few laws of comparison that a proof names (`FloatLaws`) and on what is a
-- number and no NaN (`NumberLaws`); `Msgq`, Zephyr's message queues, with the documented
-- behaviour of put, get and purge (`MsgqLaws`); the CAN and UART drivers, steps on states of
-- their own; `UartKernel`, a ring buffer and a semaphore with their documented behaviour
-- (`UartKernelLaws`); and the width of a frame's identifier. Common.Floats,
-- Common.Msgq.Bounded, Examples.Data and Examples.Uart give concrete ones that meet the laws.
--
-- Not modelled: sleeping and the clock, so a turn is one passage of its loop and the timeouts
-- count turns; the contents of the UART's two buffers, which the driver writes; the timer's
-- registers, which the vendor's library writes, and the prescaler of the F0 and G0 series; what
-- the initialisation of devices prints; the samples and the hardware tests, which only call
-- what is modelled and print; the ICM sensor's driver, copied from another project, and the
-- CANopen object dictionary, which is generated. A 32-bit product that would overflow in the
-- encoder service, and a float that is a NaN or beyond the range of the integer type that it is
-- converted to, are undefined in C and taken as wrapping. A turn of one service is never
-- interrupted by that of another: they share nothing but the queues.
pub mod Common
pub mod Sbus
pub mod Wire
pub mod Can
pub mod Types
pub mod Tbot
pub mod Mcal
pub mod Vesc
pub mod Actuator
pub mod Encoder
pub mod Rccar
pub mod Receiver
pub mod Stm32
pub mod Startup
pub mod Examples
