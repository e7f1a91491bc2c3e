-- ===== src/Examples/Hardware.antt =====
-- The drivers and the tables of devices on concrete values.
use robofw.Common.{◌*◌, ◌≡◌, refl, min, true, false, none, some, [], ◌∷◌, inl, inr, arith}
use robofw.Common.Int.{pos, negsuc}
use robofw.Can.{configure_can}
use robofw.Can.Configure.{Configured, configure_can-Configured}
use robofw.Mcal.{LedDescriptor, DioDescriptor, PwmDescriptor}
use robofw.Mcal.Tables.{Nodes, Descriptions, init_hardware}
use robofw.Mcal.Tables.Hardware.{SameSizes, HardwareFilled, init_hardware-HardwareFilled}
use robofw.Stm32.{
  Soc, Pclken, EncoderStm32Config, get_tim_clk, encoder_stm32_init, encoder_stm32_driver_api,
}
use robofw.Stm32.Clock.{get_tim_clk-min}
use robofw.Stm32.Init.{Initialised, encoder_stm32_init-Initialised}
use robofw.Startup.{can_filter}
use robofw.Examples.Data.{logging, can}
use robofw.Startup.Main.{tbot_main, rccar_main}
use robofw.Startup.Main.Boot.{hardware_works, TbotBooted, tbot_main-TbotBooted}
use robofw.Startup.Main.CarBoot.{CarBooted, rccar_main-CarBooted}
use robofw.Examples.Uart.{plain, counting, uart}

-- A processor at 168 MHz, with buses at a quarter and a half of that.
abbrev soc : Soc
soc = record {
  apb1_prescaler = 4;
  apb2_prescaler = 2;
  has_timpre = false;
  timpre_twice = true;
  hclk = 168000000;
  clock_control_on = λ p. pos 0;
  clock_control_get_rate = λ p. (pos 0, 42000000);
  pinctrl_configure = pos 0;
  tim_init = λ init. true;
}

abbrev pclken : Pclken
pclken = record { is_apb1 = true; enr = 1 }

abbrev config : EncoderStm32Config
config = record { encoder_mode = 2; prescaler = 0; pclken = pclken }

get_tim_clk-min_example : get_tim_clk soc pclken 0 ≡ (pos 0, min 168000000 (2 * 42000000))
get_tim_clk-min_example =
    get_tim_clk-min soc pclken 0 refl (inr (inr (inl refl))) (omega arith) (omega arith)

encoder_stm32_init-Initialised_example : Initialised soc config 0 (encoder_stm32_init soc config 0)
encoder_stm32_init-Initialised_example = encoder_stm32_init-Initialised soc config 0

configure_can-Configured_example :
    Configured logging can [] 0 500000 can_filter (configure_can logging can [] 0 500000 can_filter)
configure_can-Configured_example = configure_can-Configured logging can [] 0 500000 can_filter

abbrev light : LedDescriptor
light = record { active = true; pin = 0 }

abbrev pin : DioDescriptor
pin = record { active = false; pin = 0; flags = 0 }

abbrev motor : PwmDescriptor
motor = record { active = false; channel = 0; period = 0; flags = 0 }

-- The second light's pin cannot be configured, and the table of encoders has no node.
abbrev nodes : Nodes plain
nodes = record {
  dio = some (record { found = true; pin = 4; flags = 1 }) ∷ none ∷ [];
  led =
      some (record { found = true; pin = 5; flags = 0; configured = pos 0 })
      ∷ some (record { found = true; pin = 6; flags = 0; configured = negsuc 21 })
      ∷ [];
  pwm = some (record { found = true; channel = 1; period = 20; flags = 0 }) ∷ [];
  uart = some (record { found = true }) ∷ [];
  can = some (record { found = true; bus_speed = 500000 }) ∷ [];
  encoder = none ∷ [];
}

abbrev before : Descriptions plain
before = record {
  dio = pin ∷ pin ∷ [];
  led = light ∷ light ∷ [];
  pwm = motor ∷ [];
  uart = uart ∷ [];
  can = can ∷ [];
  encoder = record { active = true; api = encoder_stm32_driver_api 0 true } ∷ [];
}

before-SameSizes : SameSizes plain nodes before
before-SameSizes = record {
  dio = refl;
  led = refl;
  pwm = refl;
  uart = refl;
  can = refl;
  encoder = refl;
}

init_hardware-HardwareFilled_example :
    HardwareFilled plain 2 nodes (init_hardware plain 2 nodes before)
init_hardware-HardwareFilled_example =
    init_hardware-HardwareFilled plain 2 nodes before before-SameSizes

-- A robot whose second light cannot be configured, and its three lights.
abbrev dark_nodes : Nodes plain
dark_nodes = record nodes {
  led =
      some (record { found = true; pin = 5; flags = 0; configured = pos 0 })
      ∷ some (record { found = true; pin = 6; flags = 0; configured = negsuc 21 })
      ∷ none
      ∷ [];
}

abbrev dark_before : Descriptions plain
dark_before = record before { led = light ∷ light ∷ light ∷ [] }

dark-SameSizes : SameSizes plain dark_nodes dark_before
dark-SameSizes = record {
  dio = refl;
  led = refl;
  pwm = refl;
  uart = refl;
  can = refl;
  encoder = refl;
}

tbot_main-TbotBooted_example :
    (out : _) × (tbot_main plain counting logging 2 2 3 dark_nodes dark_before 0 [] ≡ some out)
    × TbotBooted plain counting logging (hardware_works plain 2 dark_nodes) out
tbot_main-TbotBooted_example =
    tbot_main-TbotBooted plain counting logging 2 2 3 dark_nodes dark_before 0 [] dark-SameSizes
      (omega arith) (omega arith) (omega arith)

rccar_main-CarBooted_example :
    (out : _) × (rccar_main plain counting logging 2 2 3 nodes before 0 [] ≡ some out)
    × CarBooted plain counting logging (hardware_works plain 2 nodes) out
rccar_main-CarBooted_example =
    rccar_main-CarBooted plain counting logging 2 2 3 nodes before 0 [] before-SameSizes
      (omega arith) (omega arith) (omega arith)
