-- ===== src/Domain/Trades.antt =====
-- domain/models.py: trade events and alerts. A time is the
-- number of its unit since a fixed one, since times are subtracted here.
use sep.Base.{ℕ, String, Option}
use sep.Base.Decimal.{Decimal}

pub data EventType : Type 0 where
  new amend cancel : EventType

pub data Side : Type 0 where
  buy sell : Side

pub record TradeEvent : Type 0 where
  pub trade_id : String
  pub version : ℕ
  pub event_type : EventType
  pub event_time : ℕ
  pub record_time : ℕ
  pub book : String
  pub desk : String
  pub instrument_id : String
  pub product_type : String
  pub side : Option Side
  pub quantity : Option Decimal
  pub price : Option Decimal
  pub currency : String
  pub notional_usd : Option Decimal
  pub original_trade_id : Option String
  pub alternate_trade_id : Option String
  pub urn_ref : Option String
  pub source : String

pub record Alert : Type 0 where
  pub alert_id : String
  pub rule_id : String
  pub subrule_id : String
  pub alert_time : ℕ
  pub record_time : ℕ
  pub trade_id : String
  pub trade_version : Option ℕ
  pub book : String
  pub desk : String
  pub instrument_id : String
  pub explanation : Option String
