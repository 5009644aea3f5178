-- ===== src/Icd.antt =====
-- banc-icd/src/lib.rs: what a host and a node say to one another.
-- A `heapless::Vec` or `String` is its elements; what its capacity rules out is said where one is made.
pub mod Paths
use banc.Common.{ℕ, Bool, List, Result, ◌⊎◌, inl, inr}
use banc.Common.Text.{Text, codes}

abbrev pub protocol_version : ℕ
protocol_version = 0

pub data NodeRole : Type 0 where
  assistant custom : NodeRole

pub record Identity : Type 0 where
  pub role : NodeRole
  pub protocol_version : ℕ
  pub unique_id : ℕ
  pub fw_name : Text
  pub fw_version : Text

abbrev pub chunk : ℕ
chunk = 64

abbrev pub events_per_chunk : ℕ
events_per_chunk = 16

pub data Level : Type 0 where
  low high : Level

pub data Pull : Type 0 where
  none up down : Pull

pub data PinMode : Type 0 where
  input : Pull → PinMode
  output : PinMode

pub data Error : Type 0 where
  unsupported busy hardware invalid : Error

pub record GpioConfig : Type 0 where
  pub pin : ℕ
  pub mode : PinMode

pub record GpioSet : Type 0 where
  pub pin : ℕ
  pub level : Level

pub record GpioRead : Type 0 where
  pub pin : ℕ

pub record PinEvent : Type 0 where
  pub pin : ℕ
  pub level : Level
  pub timestamp_us : ℕ

pub record PinMonitor : Type 0 where
  pub pin : ℕ
  pub enable : Bool

pub record UartConfig : Type 0 where
  pub baud : ℕ

pub record Chunk : Type 0 where
  pub bytes : List ℕ

pub record UartRxChunk : Type 0 where
  pub timestamp_us : ℕ
  pub bytes : List ℕ

pub record SpiTransfer : Type 0 where
  pub write : List ℕ

pub record I2cTransaction : Type 0 where
  pub addr : ℕ
  pub write : List ℕ
  pub read_len : ℕ

pub data CaptureAction : Type 0 where
  start stop : CaptureAction

pub record CaptureControl : Type 0 where
  pub pin : ℕ
  pub action : CaptureAction

pub record CaptureStatus : Type 0 where
  pub count : ℕ
  pub dropped : ℕ

pub record CaptureRead : Type 0 where
  pub offset : ℕ

pub record CaptureChunk : Type 0 where
  pub events : List PinEvent
  pub remaining : ℕ

abbrev pub AckResult : Type 0
AckResult = Result Error (Unit {0})

abbrev pub LevelResult : Type 0
LevelResult = Result Error Level

abbrev pub ChunkResult : Type 0
ChunkResult = Result Error Chunk

abbrev pub CaptureStatusResult : Type 0
CaptureStatusResult = Result Error CaptureStatus

abbrev pub CaptureChunkResult : Type 0
CaptureChunkResult = Result Error CaptureChunk

-- The table of `endpoints!`, without `Endpoint` at the end of each name.
pub data Endpoint : Type 0 where
  identify reset : Endpoint
  gpio_config gpio_set gpio_read pin_monitor : Endpoint
  uart_config uart_tx spi_transfer i2c_transaction : Endpoint
  capture_control capture_read : Endpoint

abbrev pub RequestTy : Endpoint → Type 0
RequestTy identify = Unit {0}
RequestTy reset = Unit {0}
RequestTy gpio_config = GpioConfig
RequestTy gpio_set = GpioSet
RequestTy gpio_read = GpioRead
RequestTy pin_monitor = PinMonitor
RequestTy uart_config = UartConfig
RequestTy uart_tx = Chunk
RequestTy spi_transfer = SpiTransfer
RequestTy i2c_transaction = I2cTransaction
RequestTy capture_control = CaptureControl
RequestTy capture_read = CaptureRead

abbrev pub ResponseTy : Endpoint → Type 0
ResponseTy identify = Identity
ResponseTy reset = Unit {0}
ResponseTy gpio_config = AckResult
ResponseTy gpio_set = AckResult
ResponseTy gpio_read = LevelResult
ResponseTy pin_monitor = AckResult
ResponseTy uart_config = AckResult
ResponseTy uart_tx = AckResult
ResponseTy spi_transfer = ChunkResult
ResponseTy i2c_transaction = ChunkResult
ResponseTy capture_control = CaptureStatusResult
ResponseTy capture_read = CaptureChunkResult

unfoldable pub path : Endpoint → Text
path identify = codes "banc/node/identify"
path reset = codes "banc/node/reset"
path gpio_config = codes "banc/assistant/gpio/config"
path gpio_set = codes "banc/assistant/gpio/set"
path gpio_read = codes "banc/assistant/gpio/read"
path pin_monitor = codes "banc/assistant/pin/monitor"
path uart_config = codes "banc/assistant/uart/config"
path uart_tx = codes "banc/assistant/uart/tx"
path spi_transfer = codes "banc/assistant/spi/transfer"
path i2c_transaction = codes "banc/assistant/i2c/transaction"
path capture_control = codes "banc/assistant/capture/control"
path capture_read = codes "banc/assistant/capture/read"

-- The topics to the client; there are none to the server.
pub data Topic : Type 0 where
  pin_edge uart_rx : Topic

abbrev pub MessageTy : Topic → Type 0
MessageTy pin_edge = PinEvent
MessageTy uart_rx = UartRxChunk

unfoldable pub topic_path : Topic → Text
topic_path pin_edge = codes "banc/assistant/pin/edge"
topic_path uart_rx = codes "banc/assistant/uart/rx"

-- An entry of one of the tables, and its path there.
abbrev pub Entry : Type 0
Entry = Endpoint ⊎ Topic

abbrev pub entry_path : Entry → Text
entry_path (inl e) = path e
entry_path (inr t) = topic_path t

-- The constants of `paths`, each for the entry that it is named after.
unfoldable pub paths : Entry → Text
paths (inl identify) = codes "banc/node/identify"
paths (inl reset) = codes "banc/node/reset"
paths (inl gpio_config) = codes "banc/assistant/gpio/config"
paths (inl gpio_set) = codes "banc/assistant/gpio/set"
paths (inl gpio_read) = codes "banc/assistant/gpio/read"
paths (inl pin_monitor) = codes "banc/assistant/pin/monitor"
paths (inl uart_config) = codes "banc/assistant/uart/config"
paths (inl uart_tx) = codes "banc/assistant/uart/tx"
paths (inl spi_transfer) = codes "banc/assistant/spi/transfer"
paths (inl i2c_transaction) = codes "banc/assistant/i2c/transaction"
paths (inl capture_control) = codes "banc/assistant/capture/control"
paths (inl capture_read) = codes "banc/assistant/capture/read"
paths (inr pin_edge) = codes "banc/assistant/pin/edge"
paths (inr uart_rx) = codes "banc/assistant/uart/rx"
