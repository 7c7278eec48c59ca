-- ===== src/Harness/Trader.antt =====
-- internal/harness/trader.go: the state of the trade loop and the steps that `Tick` is made of. The
-- broker and the channel are seen through the calls that reach them, newest first; what they and
-- the clocks answer during one call is a `Moment`. Log and alert texts are left out.
pub mod Tick
pub mod Clearance
pub mod Frame
pub mod Effects
use bucks.Common.{
  false, if◌then◌else◌, true, List, ◌∷◌, [], ℕ, ◌++◌, String, Bool, Option, some, none, ◌&&◌, ◌||◌,
  not,
}
use bucks.Common.Int.{ℤ}
use bucks.Orders.ClientOrderId.{Hashing, client_order_id}
use bucks.Orders.{SideValue, side_buy, side_sell, other_side}
use bucks.Risk.KillSwitch.{halt, max_daily_loss, KillSwitch, KillSwitchError, Disk, BrokerLayer}
use bucks.Risk.Engine.{Engine, OrderProposal, drawdown_breached}
use bucks.Money.{DecimalOps, is_gt}

pub data Outcome : Type 0 where
  no_signal risk_rejected auto_placed approved_placed denied halted market_closed : Outcome

-- `Placed`
abbrev pub placed : Outcome → Bool
placed auto_placed = true
placed approved_placed = true
placed no_signal = false
placed risk_rejected = false
placed denied = false
placed halted = false
placed market_closed = false

-- The errors that the loop returns.
pub data TradeError : Type 0 where
  halt_failed : KillSwitchError → TradeError
  alert_failed real_money_refused broker_failed report_failed : TradeError

pub data AlertLevel : Type 0 where
  info warn critical : AlertLevel

-- Which text an alert carries.
pub data AlertText : Type 0 where
  drawdown_halt trading_halted daily_loss_hit heartbeat_pulse : AlertText

pub record Alert : Type 0 where
  pub level : AlertLevel
  pub text : AlertText
  pub time : ℤ

-- What the surroundings answer during one call of the loop: the clock as it is read first, by the
-- kill switch and for an alert; the disk and the broker's layer of the kill switch; whether the
-- channel delivers an alert; whether the operator's answer is an approval; and whether the broker
-- accepts an order.
pub record Moment : Type 0 where
  pub now : ℤ
  pub now_at_halt : ℤ
  pub now_at_alert : ℤ
  pub disk : Disk
  pub layer : BrokerLayer
  pub alert_delivered : Bool
  pub operator_approves : Bool
  pub broker_accepts : Bool

-- `sideIntent`
abbrev pub side_intent : SideValue → String
side_intent side_sell = "sell"
side_intent side_buy = "buy"
side_intent (other_side n) = "buy"

module _ (M : DecimalOps) where
  open M use {Decimal, zero_decimal, sub, mul, cmp, sign, abs}

  pub record HybridBandConfig : Type 0 where
    pub max_auto_risk_amount : Decimal
    pub max_auto_notional : Decimal

  unfoldable pub within_band : HybridBandConfig → (risk_amt notional : Decimal) → Bool
  within_band b risk_amt notional =
      if is_gt (sign b.max_auto_risk_amount) && is_gt (cmp risk_amt b.max_auto_risk_amount)
      then false
      else if is_gt (sign b.max_auto_notional) && is_gt (cmp notional b.max_auto_notional)
      then false
      else true

  pub record TradeDecision : Type 0 where
    pub has_proposal : Bool
    pub proposal : OrderProposal M
    pub reason : String
    pub seq : ℕ

  pub record TradeRecord : Type 0 where
    pub time : ℤ
    pub symbol : String
    pub side : SideValue
    pub qty : Decimal
    pub entry_px : Decimal
    pub outcome : Outcome
    pub cl_ord_id : String
    pub reason : String

  -- `Market` is `is_open`. `hashing` and `drawdown_text` are the libraries behind the order ids and
  -- the wording of a drawdown halt.
  pub record TraderConfig : Type 0 where
    pub strategy_name : String
    pub engine : Engine M
    pub band : HybridBandConfig
    pub is_open : ℤ → Bool
    pub heartbeat_every : ℤ
    pub report_every : ℤ
    pub live_enabled : Bool
    pub real_money_venue : Bool
    pub hashing : Hashing
    pub drawdown_text : (peak equity : Decimal) → String

  pub record Trader : Type 0 where
    pub peak_equity : Decimal
    pub have_peak : Bool
    pub ledger : List TradeRecord
    pub last_heartbeat : ℤ
    pub have_heartbeat : Bool
    pub last_report : ℤ
    pub have_report : Bool
    pub halted : Bool
    pub daily_loss_hit : Bool

  -- A market order, as the loop sends it.
  pub record OrderRequest : Type 0 where
    pub cl_ord_id : String
    pub symbol : String
    pub side : SideValue
    pub qty : Decimal

  pub record ApprovalRequest : Type 0 where
    pub symbol : String
    pub side : SideValue
    pub qty : Decimal
    pub entry_px : Decimal
    pub stop_px : Decimal
    pub risk_amount : Decimal

  -- The trader, its kill switch, and the calls to the broker and to the channel: each request with
  -- whether the broker accepted it, and each alert with whether the channel delivered it.
  pub record World : Type 0 where
    pub trader : Trader
    pub switch : KillSwitch
    pub sent : List (OrderRequest × Bool)
    pub asked : List ApprovalRequest
    pub alerts : List (Alert × Bool)

  -- `Channel.SendAlert`
  abbrev pub send_alert : (delivered : Bool) → Alert → World → World × Option TradeError
  send_alert delivered alert w = (
    record w { alerts = (alert, delivered) ∷ w.alerts },
    if delivered then none else some alert_failed,
  )

  abbrev pub append_record : TradeRecord → World → World
  append_record rec w = record w {
    trader = record w.trader { ledger = w.trader.ledger ++ rec ∷ [] };
  }

  -- `updatePeakAndCheck`: the trader, and whether its peak is breached.
  unfoldable pub update_peak_and_check : TraderConfig → Decimal → Trader → Trader × Bool
  update_peak_and_check cfg equity t =
      let t' : Trader =
        if not t.have_peak || is_gt (cmp equity t.peak_equity)
        then record t { peak_equity = equity; have_peak = true }
        else t in
      (t', drawdown_breached M cfg.engine t'.peak_equity equity)

  -- The latch and the alert of `haltForDrawdown`, once the switch has answered.
  abbrev pub latch_drawdown :
      Moment → World → KillSwitch × Option KillSwitchError → World × Option TradeError
  latch_drawdown m w (k, some e) = (record w { switch = k }, some (halt_failed e))
  latch_drawdown m w (k, none) =
      let w' = record w { switch = k; trader = record w.trader { halted = true } } in
      if w.trader.halted
      then (w', none)
      else send_alert m.alert_delivered
          (record { level = critical; text = drawdown_halt; time = m.now_at_alert }) w'

  -- `haltForDrawdown`
  unfoldable pub halt_for_drawdown :
      TraderConfig → Moment → (peak equity : Decimal) → World → World × Option TradeError
  halt_for_drawdown cfg m peak equity w =
      latch_drawdown m w
        (halt m.disk m.now_at_halt (cfg.drawdown_text peak equity) max_daily_loss w.switch)

  -- `recordAndMaybeAlertHalt`; the channel's error is dropped.
  unfoldable pub record_and_maybe_alert_halt : Moment → TradeRecord → World → World
  record_and_maybe_alert_halt m rec w =
      let w' = append_record rec w in
      let latched = record w' { trader = record w'.trader { halted = true } } in
      if w'.trader.halted
      then latched
      else (send_alert m.alert_delivered
          (record { level = critical; text = trading_halted; time = rec.time }) latched).0

  unfoldable pub alert_daily_loss_hit : Moment → World → World × Option TradeError
  alert_daily_loss_hit m w =
      let w' = record w { trader = record w.trader { daily_loss_hit = true } } in
      if w.trader.daily_loss_hit
      then (w', none)
      else send_alert m.alert_delivered
          (record { level = critical; text = daily_loss_hit; time = m.now }) w'

  abbrev pub clear_daily_loss_hit : World → World
  clear_daily_loss_hit w = record w { trader = record w.trader { daily_loss_hit = false } }

  -- `tradeMagnitude`: the risk amount and the notional.
  unfoldable pub trade_magnitude : OrderProposal M → Option (Decimal × Decimal)
  trade_magnitude p = elim (mul p.qty p.entry_px) [
    | none ↦ none
    | some notional ↦
        if not (is_gt (sign p.stop_px))
        then some (zero_decimal, notional)
        else elim (sub p.entry_px p.stop_px) [
          | none ↦ none
          | some diff ↦ elim (mul p.qty (abs diff)) [
            | none ↦ none
            | some risk_amt ↦ some (risk_amt, notional)
          ]
        ]
  ]
