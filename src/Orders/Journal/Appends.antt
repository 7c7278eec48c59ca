-- ===== src/Orders/Journal/Appends.antt =====
-- The typed appends of the journal, and what a restart finds behind `AppendIntent`.
use bucks.Orders.Journal.InFlight.{recover-intent}
use bucks.Common.Text.{same}
use bucks.Orders.Journal.Recovery.{append_record-Atomic, recover, Written, Encodes}
use bucks.Orders.{new_order, buy, Side}
use bucks.Orders.Journal.{
  file, replay, cancel_event, reject_event, fill, ack, sent, append_record, ReplayResult,
  JournalError, Journal, Device, intent, Record, EventType,
}
use bucks.Money.{DecimalOps}
use bucks.Common.{
  refl, inr, inl, ◌∙◌, [], ◌∷◌, false, ◌++◌, true, All, ok, ◌≡◌, ℕ, some, none, Option, String,
  List,
}

module _ (M : DecimalOps) where
  open M use {Decimal}

  pub record IntentRecord : Type 0 where
    pub cl_ord_id : String
    pub strategy : String
    pub symbol : String
    pub side : Side
    pub qty : Decimal
    pub px : Decimal

  -- `Record{Type: ..., ClOrdID: ...}`: the fields that are not given have their zero values.
  abbrev pub bare_record : EventType → String → Record M
  bare_record kind cl_ord_id = record {
    type = kind;
    cl_ord_id = cl_ord_id;
    strategy = "";
    symbol = "";
    side = buy;
    qty = none;
    px = none;
    fill_id = "";
    reason = "";
  }

  unfoldable pub intent_record_of : IntentRecord → Record M
  intent_record_of rec = record {
    type = intent;
    cl_ord_id = rec.cl_ord_id;
    strategy = rec.strategy;
    symbol = rec.symbol;
    side = rec.side;
    qty = some rec.qty;
    px = some rec.px;
    fill_id = "";
    reason = "";
  }

  module _ (marshal : Record M → Option (List ℕ)) where
    unfoldable pub append_intent :
        Device → IntentRecord → Journal M → Journal M × Option JournalError
    append_intent device rec j = append_record M marshal device (intent_record_of rec) j

    unfoldable pub append_sent : Device → String → Journal M → Journal M × Option JournalError
    append_sent device cl_ord_id j = append_record M marshal device (bare_record sent cl_ord_id) j

    unfoldable pub append_ack : Device → String → Journal M → Journal M × Option JournalError
    append_ack device cl_ord_id j = append_record M marshal device (bare_record ack cl_ord_id) j

    unfoldable pub append_fill :
        Device
        → (cl_ord_id fill_id : String) → (qty px : Decimal) → Journal M
        → Journal M × Option JournalError
    append_fill device cl_ord_id fill_id qty px j =
        append_record M marshal device
          (record (bare_record fill cl_ord_id) { fill_id = fill_id; qty = some qty; px = some px })
          j

    unfoldable pub append_reject :
        Device → (cl_ord_id reason : String) → Journal M → Journal M × Option JournalError
    append_reject device cl_ord_id reason j =
        append_record M marshal device
          (record (bare_record reject_event cl_ord_id) { reason = reason }) j

    unfoldable pub append_cancel : Device → String → Journal M → Journal M × Option JournalError
    append_cancel device cl_ord_id j =
        append_record M marshal device (bare_record cancel_event cl_ord_id) j

    module _ (unmarshal : List ℕ → Option (Record M)) where
      -- What was written, when the append returned no error.
      append_record-Written :
          (device : Device) (rec : Record M) (text : List ℕ) (recs : List (Record M))
          (j : Journal M)
          → Encodes M marshal unmarshal rec text
          → Written M marshal unmarshal recs j.disk
          → (append_record M marshal device rec j).1 ≡ none
          → replay M unmarshal (file (append_record M marshal device rec j).0.disk true)
            ≡ recover M marshal unmarshal (recs ++ rec ∷ [])
      append_record-Written device rec text recs j enc w h =
          elim (append_record-Atomic M marshal unmarshal device rec text recs j enc w) [
            | inl all ↦ all
            | inr (_, failed) ↦ absurd (failed h)
          ]

      -- Write-ahead: once `AppendIntent` has returned no error for an order whose id is new, a
      -- replay of the disk as it then is finds the order, as a new order in flight, behind the
      -- orders that a replay found before.
      pub append_intent-in_flight :
          (device : Device) (rec : IntentRecord) (text : List ℕ) (recs : List (Record M))
          (j : Journal M) (results : List (ReplayResult M))
          → Encodes M marshal unmarshal (intent_record_of rec) text
          → Written M marshal unmarshal recs j.disk
          → recover M marshal unmarshal recs ≡ ok results
          → All (λ earlier. same earlier.cl_ord_id rec.cl_ord_id ≡ false) recs
          → (append_intent device rec j).1 ≡ none
          → replay M unmarshal (file (append_intent device rec j).0.disk true)
            ≡ ok (
                results
                ++ record {
                  order = new_order M rec.cl_ord_id rec.strategy rec.symbol rec.side rec.qty rec.px;
                  in_flight = true;
                }
                  ∷ [])
      unfolding append_intent intent_record_of
      append_intent-in_flight device rec text recs j results enc w found others h =
          append_record-Written device (intent_record_of rec) text recs j enc w h
          ∙ recover-intent M marshal unmarshal recs (intent_record_of rec) rec.qty rec.px results
              found refl refl refl others
