-- ===== src/Device/Accepted.antt =====
-- `configure_all` of the client itself, on an accepted configuration.
use Prim.Native.String.{String}
use teensy_io.Base.{ℕ, List, Option, true, ◌≡◌, ◌≢◌, refl}
use teensy_io.Base.Floats.{Float}
use teensy_io.Base.Int.{ℤ}
use teensy_io.Protocol.Errors.{Error, ok, err}
use teensy_io.Transport.{Transport}
use teensy_io.Client.Session.{Session}
use teensy_io.Client.Session.Lookups.{is_lookup_error, command-Never}
use teensy_io.Resources.Session.{Board, session_channel}
use teensy_io.Config.{Entries}
use teensy_io.Config.Loader.{Files, load_config, load_config-valid}
use teensy_io.Device.Configure.{configure_all}
use teensy_io.Device.Never.{is_config_error}
use teensy_io.Device.Valid.{configure_all-valid}

lookup_error-config : (x : Error) → is_lookup_error x ≡ true → is_config_error x ≡ true
lookup_error-config Error.key_error h = refl
lookup_error-config Error.attribute_error h = refl
lookup_error-config _ h = absurd (cc)

-- On a link whose methods do not raise it: `configure_all` of a client in any state raises neither a
-- `KeyError` nor an `AttributeError` for a configuration that `load_config` gave, whatever stands in
-- the file, whatever comes from the link, and whatever `int` and `float` make of the texts in the
-- configuration.
pub configure_all-accepted :
    {T : Type 0} (io : Transport T) (parse_int : String → Option ℤ)
    (parse_float : String → Option Float) (x : Error) (files : Files) (path : String)
    (config : Entries) (b : Board (Session T))
    → is_lookup_error x ≡ true
    → ((bytes : List ℕ) (t : T) → (io.write bytes t).0 ≢ err x)
    → ((n : ℕ) (t : T) → (io.read n t).0 ≢ err x)
    → ((n : ℕ) (t : T) → (io.read_available n t).0 ≢ err x)
    → load_config files path ≡ ok config
    → (configure_all (session_channel io) parse_int parse_float config b).0 ≢ err x
unfolding session_channel
configure_all-accepted io parse_int parse_float x files path config b lookup writes reads available
      loaded =
    configure_all-valid (session_channel io) parse_int parse_float x config b
      (lookup_error-config x lookup) (command-Never x lookup io writes reads available)
      (load_config-valid files path config loaded)
