-- ===== src/Device/Valid/Named.antt =====
-- The steps that configuring an entry of any section has.
use Prim.Native.String.{String}
use teensy_io.Base.{ℕ, Bool, true, List, map, ◌≡◌, ◌≢◌, refl, ◌∙◌, ap}
use teensy_io.Protocol.Commands.{CommandId}
use teensy_io.Protocol.Errors.{Error, ok, err}
use teensy_io.Protocol.Exec.Never.{Never}
use teensy_io.Protocol.Exec.{Exec}
use teensy_io.Resources.{Held, lookup}
use teensy_io.Resources.Session.{Board, Channel, board_io}
use teensy_io.Config.{Value}
use teensy_io.Config.Schema.{require_member}
use teensy_io.Device.{named}
use teensy_io.Device.Configure.{text_key}
use teensy_io.Device.Never.{is_config_error}
use teensy_io.Device.Checked.{require_member-text, lookup-Never}

-- A method on an entry of a dictionary raises what the method raises.
pub named-Never :
    {S : Type 0} (x : Error) {P A : Type 0} (items : Board S → List (String × P))
    (put : Board S → List (String × P) → Board S) (new : P) (name : String)
    (method : Exec (Held P (Board S)) A)
    → Never x method
    → Never x (named items put new name method)
unfolding named
named-Never x items put new name method h b = h _

-- The board sends a command as the channel does.
pub command-Never :
    {S : Type 0} (io : Channel S) (x : Error)
    → ((code : CommandId) (payload : List ℕ) (expect : Bool)
        → Never x (io.send code payload expect))
    → (code : CommandId) (payload : List ℕ) (expect : Bool)
    → Never x ((board_io io).command code payload expect)
unfolding board_io
command-Never io x sends code payload expect b = sends code payload expect b.session

-- A word that was checked, as the key for its code.
pub known_key :
    (x : Error) (config : is_config_error x ≡ true) (value : Value) (codes : List (String × ℕ))
    → require_member value (map (λ c. c.0) codes) ≡ ok tt
    → (s : String) × (text_key value ≡ ok s) × (lookup s codes ≢ err x)
known_key x config value codes h =
    let (s, is_s, known) = require_member-text value (map (λ c. c.0) codes) h in
    (s, ap text_key is_s ∙ (unfold text_key in refl), lookup-Never x config s codes known)

module _ {S : Type 0} (io : Channel S) (x : Error) (config : is_config_error x ≡ true)
    (name : String) where
  pub counter_id-Never : Never x ((board_io io).counter_id name)
  unfolding board_io
  counter_id-Never b e = cc

  pub encoder_id-Never : Never x ((board_io io).encoder_id name)
  unfolding board_io
  encoder_id-Never b e = cc

  pub dac_id-Never : Never x ((board_io io).dac_id name)
  unfolding board_io
  dac_id-Never b e = cc

  pub pin_number-Never : Never x ((board_io io).pin_number name)
  unfolding board_io
  pin_number-Never b e = cc
