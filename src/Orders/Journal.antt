-- ===== src/Orders/Journal.antt =====
-- internal/orders/journal.go: the append-only journal of order events, and its replay.
pub mod Appends
pub mod Recovery
pub mod InFlight
pub mod Reopened
pub mod Roundtrip
use bucks.Common.Text.{insert, lookup}
use bucks.Orders.{
  cancel, reject, apply_fill, new_order, is_terminal, fill_already_applied, Side, Order, OrderError,
}
use bucks.Common.{
  or_fail, ◌>>=◌, ◌==◌, not, ◌>>◌, take, err, false, if◌then◌else◌, [], none, ◌++◌, some, ok, true,
  ◌∷◌, Bool, Result, Option, ℕ, List, String,
}
use bucks.Money.{DecimalOps}

pub data EventType : Type 0 where
  intent sent ack fill reject_event cancel_event : EventType
  -- any other string
  unknown : String → EventType

pub data JournalError : Type 0 where
  missing_amounts before_intent unknown_event corrupt_record no_intent read_failed open_failed :
      JournalError
  marshal_failed closed_journal flush_failed fsync_failed : JournalError
  refused : OrderError → JournalError

-- What the operating system hands `Replay`: no file, an error, or the bytes of the file, at whose
-- end the reader says end-of-file or fails.
pub data Source : Type 0 where
  missing_file unreadable_file : Source
  file : List ℕ → Bool → Source

-- How one write, flush and sync ends: durable, torn after some bytes, or written but not synced.
pub data Device : Type 0 where
  durable : Device
  torn : ℕ → Device
  unsynced : Device

abbrev pub newline : ℕ
newline = 10

-- Puts a byte in front of the first of the lines, or of the rest.
unfoldable pub prepend : ℕ → List (List ℕ) × List ℕ → List (List ℕ) × List ℕ
prepend b ([], rest) = ([], b ∷ rest)
prepend b (line ∷ lines, rest) = ((b ∷ line) ∷ lines, rest)

-- What the calls of `ReadBytes('\n')` return: the lines that a newline ends, and the rest.
unfoldable pub read_lines : List ℕ → List (List ℕ) × List ℕ
unfolding prepend
read_lines [] = ([], [])
read_lines (b ∷ bs) =
    let (lines, rest) = read_lines bs in
    if b == newline then ([] ∷ lines, rest) else prepend b (lines, rest)

abbrev pub is_empty {ℓ} : {A : Type ℓ} → List A → Bool
is_empty [] = true
is_empty (x ∷ xs) = false

module _ (M : DecimalOps) where
  open M use {Decimal}

  pub record Record : Type 0 where
    pub type : EventType
    pub cl_ord_id : String
    pub strategy : String
    pub symbol : String
    pub side : Side
    pub qty : Option Decimal
    pub px : Option Decimal
    pub fill_id : String
    pub reason : String

  -- A fill that was applied before is no error on replay.
  abbrev pub replayed_fill : Order M × Option OrderError → Result JournalError (Option (Order M))
  replayed_fill (o, none) = ok (some o)
  replayed_fill (o, some fill_already_applied) = ok (some o)
  replayed_fill (o, some e) = err (refused e)

  abbrev pub replayed : Order M × Option OrderError → Result JournalError (Option (Order M))
  replayed (o, none) = ok (some o)
  replayed (o, some e) = err (refused e)

  -- `applyRecord`, by the type of the record: `res.Order` before and after.
  unfoldable pub apply_event :
      EventType → Record → Option (Order M) → Result JournalError (Option (Order M))
  apply_event intent rec order = do
    qty ← or_fail rec.qty missing_amounts
    px ← or_fail rec.px missing_amounts
    ok (some (new_order M rec.cl_ord_id rec.strategy rec.symbol rec.side qty px))
  apply_event sent rec order = do o ← or_fail order before_intent; ok (some o)
  apply_event ack rec order = do o ← or_fail order before_intent; ok (some o)
  apply_event fill rec order = do
    o ← or_fail order before_intent
    qty ← or_fail rec.qty missing_amounts
    px ← or_fail rec.px missing_amounts
    replayed_fill (apply_fill M rec.fill_id qty px o)
  apply_event reject_event rec order = do o ← or_fail order before_intent; replayed (reject M o)
  apply_event cancel_event rec order = do o ← or_fail order before_intent; replayed (cancel M o)
  apply_event (unknown name) rec order = err unknown_event

  unfoldable pub apply_record : Option (Order M) → Record → Result JournalError (Option (Order M))
  unfolding apply_event
  apply_record order rec = apply_event rec.type rec order

  -- `byID` in the first-seen order that the slice `order` keeps.
  abbrev pub Entries : Type 0
  Entries = List (String × Option (Order M))

  abbrev pub entry : Option (Option (Order M)) → Option (Order M)
  entry none = none
  entry (some o) = o

  unfoldable pub fold_record : Entries → Record → Result JournalError Entries
  fold_record entries rec = do
    o ← apply_record (entry (lookup rec.cl_ord_id entries)) rec
    ok (insert rec.cl_ord_id o entries)

  pub record ReplayResult : Type 0 where
    pub order : Order M
    pub in_flight : Bool

  -- The loop that builds `out`.
  unfoldable pub collect : Entries → Result JournalError (List ReplayResult)
  collect [] = ok []
  collect ((id, none) ∷ entries) = err no_intent
  collect ((id, some o) ∷ entries) = do
    results ← collect entries
    ok (record { order = o; in_flight = not (is_terminal o.state) } ∷ results)

  module _ (unmarshal : List ℕ → Option Record) where
    unfoldable pub read_record : List ℕ → Entries → Result JournalError Entries
    read_record line entries = do
      rec ← or_fail (unmarshal line) corrupt_record
      fold_record entries rec

    -- The last round of the loop, on the bytes behind the last newline.
    unfoldable pub last_line : List ℕ → Bool → Entries → Result JournalError Entries
    last_line [] true entries = ok entries
    last_line [] false entries = err read_failed
    last_line (b ∷ bs) true entries = ok entries
    last_line (b ∷ bs) false entries = read_record (b ∷ bs) entries >>= λ discarded. err read_failed

    unfoldable pub replay_lines :
        List (List ℕ) → List ℕ → Bool → Entries → Result JournalError Entries
    replay_lines [] rest at_eof entries = last_line rest at_eof entries
    replay_lines ([] ∷ lines) rest at_eof entries = replay_lines lines rest at_eof entries
    replay_lines ((b ∷ bs) ∷ lines) rest at_eof entries = do
      entries' ← read_record (b ∷ bs) entries
      replay_lines lines rest at_eof entries'

    -- `Replay`
    unfoldable pub replay : Source → Result JournalError (List ReplayResult)
    replay missing_file = ok []
    replay unreadable_file = err open_failed
    replay (file bytes at_eof) = do
      entries ← replay_lines (read_lines bytes).0 (read_lines bytes).1 at_eof []
      collect entries

  -- The open file with what stands on the disk. A buffered writer that failed once keeps failing.
  pub record Journal : Type 0 where
    pub is_open : Bool
    pub broken : Bool
    pub disk : List ℕ

  -- `Open` on a file with these bytes, in append mode.
  abbrev pub open_journal : List ℕ → Journal
  open_journal bytes = record { is_open = true; broken = false; disk = bytes }

  module _ (marshal : Record → Option (List ℕ)) where
    unfoldable pub write_line : List ℕ → Device → Journal → Journal × Option JournalError
    write_line line durable j = (record j { disk = j.disk ++ line }, none)
    write_line line (torn n) j =
        (record j { disk = j.disk ++ take n line; broken = true }, some flush_failed)
    write_line line unsynced j = (record j { disk = j.disk ++ line }, some fsync_failed)

    -- `appendRecord`
    unfoldable pub append_record : Device → Record → Journal → Journal × Option JournalError
    append_record device rec j = elim (marshal rec) [
      | none ↦ (j, some marshal_failed)
      | some line ↦
          if not j.is_open
          then (j, some closed_journal)
          else if j.broken
          then (j, some flush_failed)
          else write_line (line ++ newline ∷ []) device j
    ]
