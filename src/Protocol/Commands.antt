-- ===== src/Protocol/Commands.antt =====
-- The enumerations of protocol/commands.py with their numbers.
use teensy_io.Base.{ℕ, ◌≡◌, refl, Option, none, some, ◌==◌, if◌then◌else◌, ◌<◌, arith}
use teensy_io.Base.{List, [], ◌∷◌}

-- `E(n)` of an `IntEnum` looks for the member with that value; `none` stands for its `ValueError`.
abbrev pub member {ℓ} : {A : Type ℓ} → (A → ℕ) → List A → ℕ → Option A
member code [] n = none
member code (a ∷ rest) n = if code a == n then some a else member code rest n

pub code-member {ℓ} :
    {A : Type ℓ} (code : A → ℕ) (members : List A) (n : ℕ) (a : A)
    → member code members n ≡ some a
    → code a ≡ n
code-member code [] n a h = cc
code-member code (b ∷ rest) n a h = ground (arith, code-member code rest n a)

pub data PacketType : Type 0 where
  command ack nack data_ event telemetry error : PacketType

-- `int(packet.type)`
unfoldable pub type_code : PacketType → ℕ
type_code PacketType.command = 0x01
type_code PacketType.ack = 0x02
type_code PacketType.nack = 0x03
type_code PacketType.data_ = 0x04
type_code PacketType.event = 0x05
type_code PacketType.telemetry = 0x06
type_code PacketType.error = 0x07

abbrev packet_types : List PacketType
packet_types =
    PacketType.command ∷ PacketType.ack ∷ PacketType.nack ∷ PacketType.data_ ∷ PacketType.event
    ∷ PacketType.telemetry ∷ PacketType.error ∷ []

-- `PacketType(n)`
unfoldable pub packet_type : ℕ → Option PacketType
unfolding type_code
packet_type = member type_code packet_types

pub data CommandId : Type 0 where
  ping get_info heartbeat reset_config : CommandId
  config_digital_input config_digital_output digital_read digital_write : CommandId
  config_pwm pwm_write pwm_disable : CommandId
  config_analog analog_read : CommandId
  config_counter counter_read counter_reset counter_frequency : CommandId
  config_encoder encoder_read encoder_reset : CommandId
  subscribe unsubscribe telemetry_frame : CommandId
  config_i2c_bus i2c_write i2c_read config_dac dac_write_raw dac_write_normalized : CommandId
  emergency_stop clear_emergency_stop : CommandId

unfoldable pub command_code : CommandId → ℕ
command_code CommandId.ping = 0x01
command_code CommandId.get_info = 0x02
command_code CommandId.heartbeat = 0x03
command_code CommandId.reset_config = 0x04
command_code CommandId.config_digital_input = 0x10
command_code CommandId.config_digital_output = 0x11
command_code CommandId.digital_read = 0x12
command_code CommandId.digital_write = 0x13
command_code CommandId.config_pwm = 0x20
command_code CommandId.pwm_write = 0x21
command_code CommandId.pwm_disable = 0x22
command_code CommandId.config_analog = 0x30
command_code CommandId.analog_read = 0x31
command_code CommandId.config_counter = 0x40
command_code CommandId.counter_read = 0x41
command_code CommandId.counter_reset = 0x42
command_code CommandId.counter_frequency = 0x43
command_code CommandId.config_encoder = 0x50
command_code CommandId.encoder_read = 0x51
command_code CommandId.encoder_reset = 0x52
command_code CommandId.subscribe = 0x60
command_code CommandId.unsubscribe = 0x61
command_code CommandId.telemetry_frame = 0x62
command_code CommandId.config_i2c_bus = 0x70
command_code CommandId.i2c_write = 0x71
command_code CommandId.i2c_read = 0x72
command_code CommandId.config_dac = 0x73
command_code CommandId.dac_write_raw = 0x74
command_code CommandId.dac_write_normalized = 0x75
command_code CommandId.emergency_stop = 0xF0
command_code CommandId.clear_emergency_stop = 0xF1

pub data ErrorCode : Type 0 where
  success unknown_command invalid_payload invalid_pin invalid_mode : ErrorCode
  emergency_stop_active resource_unavailable : ErrorCode

unfoldable pub error_value : ErrorCode → ℕ
error_value ErrorCode.success = 0x00
error_value ErrorCode.unknown_command = 0x01
error_value ErrorCode.invalid_payload = 0x02
error_value ErrorCode.invalid_pin = 0x03
error_value ErrorCode.invalid_mode = 0x04
error_value ErrorCode.emergency_stop_active = 0x05
error_value ErrorCode.resource_unavailable = 0x06

abbrev error_codes : List ErrorCode
error_codes =
    ErrorCode.success ∷ ErrorCode.unknown_command ∷ ErrorCode.invalid_payload
    ∷ ErrorCode.invalid_pin ∷ ErrorCode.invalid_mode ∷ ErrorCode.emergency_stop_active
    ∷ ErrorCode.resource_unavailable ∷ []

-- `ErrorCode(n)`
unfoldable pub error_code : ℕ → Option ErrorCode
unfolding error_value
error_code = member error_value error_codes

pub data ResourceKind : Type 0 where
  digital analog counter encoder dac : ResourceKind

unfoldable pub kind_code : ResourceKind → ℕ
kind_code ResourceKind.digital = 1
kind_code ResourceKind.analog = 2
kind_code ResourceKind.counter = 3
kind_code ResourceKind.encoder = 4
kind_code ResourceKind.dac = 5

abbrev resource_kinds : List ResourceKind
resource_kinds =
    ResourceKind.digital ∷ ResourceKind.analog ∷ ResourceKind.counter ∷ ResourceKind.encoder
    ∷ ResourceKind.dac ∷ []

-- `ResourceKind(n)`
unfoldable pub resource_kind : ℕ → Option ResourceKind
unfolding kind_code
resource_kind = member kind_code resource_kinds

pub packet_type-type_code : (t : PacketType) → packet_type (type_code t) ≡ some t
unfolding packet_type
packet_type-type_code PacketType.command = refl
packet_type-type_code _ = refl

-- A number is the code of the member that it names.
pub type_code-packet_type : (n : ℕ) (t : PacketType) → packet_type n ≡ some t → type_code t ≡ n
unfolding packet_type
type_code-packet_type n t h = code-member type_code packet_types n t h

pub type_code-lt : (t : PacketType) → type_code t < 256
unfolding type_code
type_code-lt PacketType.command = omega arith
type_code-lt _ = omega arith

pub resource_kind-kind_code : (k : ResourceKind) → resource_kind (kind_code k) ≡ some k
unfolding resource_kind
resource_kind-kind_code ResourceKind.digital = refl
resource_kind-kind_code _ = refl
