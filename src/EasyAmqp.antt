-- ===== src/EasyAmqp.antt =====
-- The set-up of exchanges, queues and consumers: ofborg/src/easyamqp.rs.
use ofborg.Base.{ℕ, Bool, Option, none, some, List, [], ◌∷◌, ◌++◌, Text, text, unwrap_or}

-- T is the type of the broker's tables of arguments.
pub record ConsumeConfig (T : Type 0) : Type 0 where
  pub queue : Text
  pub consumer_tag : Text
  pub no_local : Bool
  pub no_ack : Bool
  pub exclusive : Bool
  pub no_wait : Bool
  pub arguments : Option T

pub record BindQueueConfig (T : Type 0) : Type 0 where
  pub queue : Text
  pub exchange : Text
  pub routing_key : Option Text
  pub no_wait : Bool
  pub arguments : Option T

pub data ExchangeType : Type 0 where
  topic headers fanout direct : ExchangeType
  custom : Text → ExchangeType

unfoldable pub exchange_type_name : ExchangeType → Text
exchange_type_name topic = text "topic"
exchange_type_name headers = text "headers"
exchange_type_name fanout = text "fanout"
exchange_type_name direct = text "direct"
exchange_type_name (custom x) = x

pub record ExchangeConfig (T : Type 0) : Type 0 where
  pub exchange : Text
  pub exchange_type : ExchangeType
  pub passive : Bool
  pub durable : Bool
  pub auto_delete : Bool
  pub internal : Bool
  pub no_wait : Bool
  pub arguments : Option T

pub record QueueConfig (T : Type 0) : Type 0 where
  pub queue : Text
  pub passive : Bool
  pub durable : Bool
  pub exclusive : Bool
  pub auto_delete : Bool
  pub no_wait : Bool
  pub arguments : Option T

-- A call of the library on the channel, with its arguments in the library's order.
pub data ChannelCall (T : Type 0) : Type 0 where
  basic_prefetch : ℕ → ChannelCall T
  basic_consume :
      (queue consumer_tag : Text) → (no_local no_ack exclusive no_wait : Bool) → T → ChannelCall T
  exchange_declare :
      (exchange kind : Text)
      → (passive durable auto_delete internal no_wait : Bool) → T
      → ChannelCall T
  queue_declare :
      (queue : Text) → (passive durable exclusive auto_delete no_wait : Bool) → T → ChannelCall T
  queue_bind : (queue exchange routing_key : Text) → (no_wait : Bool) → T → ChannelCall T

-- A part of a set-up: the calls it makes, and what it gives, `none` where it panics.
abbrev pub SetUp : Type 0 → Type 0 → Type 0
SetUp T A = List (ChannelCall T) × Option A

unfoldable pub and_then : {T A B : Type 0} → SetUp T A → (A → SetUp T B) → SetUp T B
and_then (calls, none) next = (calls, none)
and_then (calls, some a) next = let p = next a in (calls ++ p.0, p.1)

-- `answers` is what the broker says to a call, the queue's name where one is declared and the
-- consumer's tag where one is set up, and none for an error, which every program unwraps. `new` is
-- the empty table.
module _ {T : Type 0} (answers : ChannelCall T → Option Text) (new : T) where
  unfoldable pub called : ChannelCall T → SetUp T Text
  called c = (c ∷ [], answers c)

  unfoldable pub prefetch : ℕ → SetUp T Text
  unfolding called
  prefetch n = called (basic_prefetch n)

  unfoldable pub consume : ConsumeConfig T → SetUp T Text
  unfolding called
  consume c = called (
      basic_consume c.queue c.consumer_tag c.no_local c.no_ack c.exclusive c.no_wait
        (unwrap_or c.arguments new))

  unfoldable pub declare_exchange : ExchangeConfig T → SetUp T Text
  unfolding called
  declare_exchange c = called (
      exchange_declare c.exchange (exchange_type_name c.exchange_type) c.passive c.durable
        c.auto_delete c.internal c.no_wait (unwrap_or c.arguments new))

  unfoldable pub declare_queue : QueueConfig T → SetUp T Text
  unfolding called
  declare_queue c = called (
      queue_declare c.queue c.passive c.durable c.exclusive c.auto_delete c.no_wait
        (unwrap_or c.arguments new))

  unfoldable pub bind_queue : BindQueueConfig T → SetUp T Text
  unfolding called
  bind_queue c = called (
      queue_bind c.queue c.exchange (unwrap_or c.routing_key []) c.no_wait
        (unwrap_or c.arguments new))
