-- ===== src/Main/Tests.antt =====
-- A process without arguments on its command line but the listener's port, and a loop that is about
-- to reset its io_service.
use serialmux.Prelude.{◌≡◌, ◌↔◌, refl, Bool, true, false, [], ◌∷◌}
use serialmux.Options.{is_digit}
use serialmux.Options.Config.{SerialMuxOptions, new_options, is_given}
use serialmux.Options.Config
use serialmux.Options.Parse.{parse_configuration, atoi, digits_value, parse_port}
use serialmux.Options.Precedence.{settings, config_contents}
use serialmux.Options.Tests.{from_arguments, two_sources, everywhere, empty_file, chosen}
use serialmux.Server.Loop.{LoopOptions, start_server}
use serialmux.Main.{
  loops, start_program, main, loop_options, resetting, MuxLoop, serial_mux_stop, Turns,
}
use serialmux.Main.Start.{StartsAs, main-starts}
use serialmux.Main.Stop.{IsLost, serial_mux_stop-IsLost}

abbrev always_open : SerialMuxOptions → Bool
always_open o = true

looping : main two_sources everywhere empty_file always_open false [] ≡ loops chosen
unfolding main start_program parse_configuration atoi digits_value new_options is_digit parse_port
looping = refl

main-starts_example :
    (always_open chosen ≡ true)
    × (is_given (
          settings two_sources from_arguments
            (config_contents two_sources everywhere empty_file from_arguments)
            Config.daemon)
        ≡ false)
    × StartsAs
        (settings two_sources from_arguments
          (config_contents two_sources everywhere empty_file from_arguments))
        (start_server (loop_options chosen))
main-starts_example =
    main-starts two_sources everywhere empty_file always_open false [] from_arguments chosen refl
      looping

abbrev loop_settings : LoopOptions
loop_settings = record {
  picard_retries = 3;
  listener_port = 9900;
  accept_anyhost = false;
  auth_token = 1 ∷ 2 ∷ 3 ∷ 4 ∷ 5 ∷ 6 ∷ 7 ∷ 8 ∷ [];
}

abbrev at_reset : MuxLoop
at_reset = record { mux_running = true; io_stopped = false; place = resetting }

serial_mux_stop-IsLost_example :
    ((n : MuxLoop) × Turns loop_settings (serial_mux_stop at_reset) n × IsLost n)
    ↔ (at_reset.place ≡ resetting)
serial_mux_stop-IsLost_example = serial_mux_stop-IsLost loop_settings at_reset
