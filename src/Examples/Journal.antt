-- ===== src/Examples/Journal.antt =====
-- Runs of the journal, under an encoding of one byte for each record.
use bucks.Orders.Journal.Roundtrip.{replay-journaled, journaled}
use bucks.Orders.Journal.Appends.{
  append_intent-in_flight, append_intent, intent_record_of, IntentRecord,
}
use bucks.Orders.Journal.Reopened.{replay-reopened}
use bucks.Orders.Journal.InFlight.{recover-intent}
use bucks.Common.Text.{same, insert, lookup}
use bucks.Common.Int.{◌-ℤ◌, ◌*ℤ◌, ◌+ℤ◌, pos}
use bucks.Orders.{
  is_terminal, can_transition, seen, transition, fill_amounts, apply_fill, buy, new_order,
}
use bucks.Money.Whole.{whole}
use bucks.Orders.Journal.Recovery.{
  replay-torn, append_record-Atomic, start, line, fold_records, recover, Atomic, Written, Encodes,
}
use bucks.Orders.Journal.{
  fsync_failed, unsynced, write_line, cancel_event, reject_event, corrupt_record, collect, ack,
  sent, unknown, apply_event, torn, open_journal, apply_record, newline, durable, fold_record, file,
  fill, intent, append_record, ReplayResult, replay, Record,
}
use bucks.Orders.Lifecycle.{Call, fills, step, run}
use bucks.Common.{
  not, err, ok, ◌≡◌, true, if◌then◌else◌, ◌++◌, refl, ◌==◌, none, [], false, some, ◌∷◌, Bool,
  Option, ℕ, List,
}

abbrev intent_record : Record whole
intent_record = record {
  type = intent;
  cl_ord_id = "c-1";
  strategy = "trend";
  symbol = "AAPL";
  side = buy;
  qty = some (pos 10);
  px = some (pos 100);
  fill_id = "";
  reason = "";
}

abbrev fill_record : Record whole
fill_record = record {
  type = fill;
  cl_ord_id = "c-1";
  strategy = "";
  symbol = "";
  side = buy;
  qty = some (pos 4);
  px = some (pos 90);
  fill_id = "f-1";
  reason = "";
}

abbrev second_intent : Record whole
second_intent = record intent_record { cl_ord_id = "c-2"; symbol = "MSFT" }

abbrev marshal : Record whole → Option (List ℕ)
marshal rec = elim rec.type [
  | intent ↦ some ((if same rec.cl_ord_id "c-1" then 105 else 106) ∷ [])
  | fill ↦ some (102 ∷ [])
  | sent ↦ none
  | ack ↦ none
  | reject_event ↦ none
  | cancel_event ↦ none
  | unknown name ↦ none
]

abbrev unmarshal : List ℕ → Option (Record whole)
unmarshal bytes =
    if is_byte 105 bytes
    then some intent_record
    else if is_byte 102 bytes
    then some fill_record
    else if is_byte 106 bytes
    then some second_intent
    else none
  where
    is_byte : ℕ → List ℕ → Bool
    is_byte b [] = false
    is_byte b (x ∷ []) = x == b
    is_byte b (x ∷ y ∷ ys) = false

intent_line : Encodes whole marshal unmarshal intent_record (105 ∷ [])
intent_line = record { written = refl; read_back = refl; one_line = (refl, tt); some_bytes = refl }

fill_line : Encodes whole marshal unmarshal fill_record (102 ∷ [])
fill_line = record { written = refl; read_back = refl; one_line = (refl, tt); some_bytes = refl }

intent-Written : Written whole marshal unmarshal (intent_record ∷ []) (105 ∷ newline ∷ [])
intent-Written = line (105 ∷ []) intent_line start

-- The crash came after the first byte of the fill.
replay-torn_example :
    replay whole unmarshal (file ((105 ∷ newline ∷ []) ++ 102 ∷ []) true)
    ≡ recover whole marshal unmarshal (intent_record ∷ [])
replay-torn_example =
    replay-torn whole marshal unmarshal (intent_record ∷ []) (105 ∷ newline ∷ []) (102 ∷ [])
      intent-Written (refl, tt)

append_record-Atomic_example :
    Atomic whole marshal unmarshal
      (intent_record ∷ [])
      fill_record
      (append_record whole marshal (torn 1) fill_record (open_journal whole (105 ∷ newline ∷ [])))
append_record-Atomic_example =
    append_record-Atomic whole marshal unmarshal (torn 1) fill_record (102 ∷ [])
      (intent_record ∷ []) (open_journal whole (105 ∷ newline ∷ [])) fill_line intent-Written

-- What the intent alone comes back as.
abbrev first_result : ReplayResult whole
first_result = record {
  order = new_order whole "c-1" "trend" "AAPL" buy (pos 10) (pos 100);
  in_flight = true;
}

recovered_intent : recover whole marshal unmarshal (intent_record ∷ []) ≡ ok (first_result ∷ [])
unfolding recover fold_records fold_record apply_record apply_event lookup insert collect new_order
recovered_intent = refl

second_intent_in_flight :
    recover whole marshal unmarshal ((intent_record ∷ []) ++ second_intent ∷ [])
    ≡ ok (
        (first_result ∷ [])
        ++ record {
          order = new_order whole "c-2" "trend" "MSFT" buy (pos 10) (pos 100);
          in_flight = true;
        }
          ∷ [])
second_intent_in_flight =
    recover-intent whole marshal unmarshal (intent_record ∷ []) second_intent (pos 10) (pos 100)
      (first_result ∷ []) recovered_intent refl refl refl (refl, tt)

-- The program was started again behind the torn fill and appended it once more.
replay-reopened_example :
    let (after, failure) =
      append_record whole marshal durable fill_record
        (open_journal whole ((105 ∷ newline ∷ []) ++ 102 ∷ [])) in
    (failure ≡ none) × (replay whole unmarshal (file after.disk true) ≡ err corrupt_record)
replay-reopened_example =
    replay-reopened whole marshal unmarshal (intent_record ∷ []) (105 ∷ newline ∷ []) (102 ∷ [])
      (102 ∷ []) fill_record (first_result ∷ []) intent-Written recovered_intent (refl, tt) refl
      fill_line refl

-- A journal of both records recovers the order with its fill.
both_records :
    recover whole marshal unmarshal (intent_record ∷ fill_record ∷ fill_record ∷ [])
    ≡ ok (
        record {
          order = (apply_fill whole "f-1" (pos 4) (pos 90) first_result.order).0;
          in_flight = true;
        }
        ∷ [])
unfolding recover fold_records fold_record apply_record apply_event lookup insert collect new_order
    apply_fill fill_amounts transition seen can_transition ◌+ℤ◌ ◌*ℤ◌ ◌-ℤ◌
both_records = refl

abbrev second_order : IntentRecord whole
second_order = record {
  cl_ord_id = "c-2";
  strategy = "trend";
  symbol = "MSFT";
  side = buy;
  qty = pos 10;
  px = pos 100;
}

second_line : Encodes whole marshal unmarshal (intent_record_of whole second_order) (106 ∷ [])
unfolding intent_record_of
second_line = record { written = refl; read_back = refl; one_line = (refl, tt); some_bytes = refl }

second_appended :
    (append_intent whole marshal unsynced second_order (open_journal whole (105 ∷ newline ∷ []))).1
    ≡ some fsync_failed
unfolding append_intent append_record write_line intent_record_of
second_appended = refl

third_appended :
    (append_intent whole marshal durable second_order (open_journal whole (105 ∷ newline ∷ []))).1
    ≡ none
unfolding append_intent append_record write_line intent_record_of
third_appended = refl

append_intent-in_flight_example :
    replay whole unmarshal (
      file
        (append_intent whole marshal durable second_order
          (open_journal whole (105 ∷ newline ∷ []))).0.disk
        true)
    ≡ ok (
        (first_result ∷ [])
        ++ record {
          order = new_order whole "c-2" "trend" "MSFT" buy (pos 10) (pos 100);
          in_flight = true;
        }
          ∷ [])
append_intent-in_flight_example =
    append_intent-in_flight whole marshal unmarshal durable second_order (106 ∷ [])
      (intent_record ∷ []) (open_journal whole (105 ∷ newline ∷ [])) (first_result ∷ []) second_line
      intent-Written recovered_intent (refl, tt) third_appended

abbrev first_order : IntentRecord whole
first_order = record {
  cl_ord_id = "c-1";
  strategy = "trend";
  symbol = "AAPL";
  side = buy;
  qty = pos 10;
  px = pos 100;
}

-- The fill is delivered twice and journaled once.
abbrev double_fill : List (Call whole)
double_fill = fills "f-1" (pos 4) (pos 90) ∷ fills "f-1" (pos 4) (pos 90) ∷ []

double_fill-Written :
    Written whole marshal unmarshal
      (intent_record_of whole first_order
        ∷ journaled whole double_fill (new_order whole "c-1" "trend" "AAPL" buy (pos 10) (pos 100)))
      (105 ∷ newline ∷ 102 ∷ newline ∷ [])
unfolding intent_record_of journaled step new_order apply_fill fill_amounts transition seen
    can_transition ◌+ℤ◌ ◌*ℤ◌ ◌-ℤ◌
double_fill-Written =
    line {rec = intent_record} {recs = fill_record ∷ []} {bytes = 102 ∷ newline ∷ []} (105 ∷ [])
      intent_line (line {rec = fill_record} {recs = []} {bytes = []} (102 ∷ []) fill_line start)

replay-journaled_example :
    replay whole unmarshal (file ((105 ∷ newline ∷ 102 ∷ newline ∷ []) ++ 106 ∷ []) true)
    ≡ ok (
        record {
          order =
              run whole double_fill (new_order whole "c-1" "trend" "AAPL" buy (pos 10) (pos 100));
          in_flight = not (
              is_terminal
                (run whole double_fill
                  (new_order whole "c-1" "trend" "AAPL" buy (pos 10) (pos 100))).state);
        }
        ∷ [])
replay-journaled_example =
    replay-journaled whole marshal unmarshal double_fill first_order
      (105 ∷ newline ∷ 102 ∷ newline ∷ []) (106 ∷ []) double_fill-Written (refl, tt)
