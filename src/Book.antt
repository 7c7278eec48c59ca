-- ===== src/Book.antt =====
-- internal/data/book.go: an order book kept from a snapshot and a stream of absolute updates, and its
-- recovery after a gap.
pub mod Levels
pub mod Contents
pub mod Invariant
pub mod Recovery
pub mod Replay
use bucks.Common.Int.{pos, leb_ℤ, ltb_ℤ, ℤ}
use bucks.Money.{is_lt, is_eq, DecimalOps}
use bucks.Common.{
  ◌&&◌, err, ◌-◌, drop, length, ok, ltb, not, some, false, ℕ, none, if◌then◌else◌, ◌∷◌, true, ◌++◌,
  Result, [], Option, List, Bool, String,
}

pub data BookSide : Type 0 where
  bid ask : BookSide

abbrev pub same_side : BookSide → BookSide → Bool
same_side bid bid = true
same_side bid ask = false
same_side ask ask = true
same_side ask bid = false

pub data GapReason : Type 0 where
  not_seeded sequence_gap : GapReason

pub record GapError : Type 0 where
  pub symbol : String
  pub expected_pu : ℤ
  pub got_pu : ℤ
  pub got_u : ℤ
  pub reason : GapReason

pub data ResyncReason : Type 0 where
  resync_gap resync_reconnect : ResyncReason

pub record ResyncEvent : Type 0 where
  pub symbol : String
  pub reason : ResyncReason
  pub last_update_id : ℤ
  pub ts : ℤ

module _ (M : DecimalOps) where
  open M use {Decimal, cmp, sign}

  abbrev pub is_zero : Decimal → Bool
  is_zero a = is_eq (sign a)

  pub record Delta : Type 0 where
    pub side : BookSide
    pub price : Decimal
    pub qty : Decimal
    pub pu : ℤ
    pub u : ℤ

  -- `level`, and `Level` of a snapshot.
  pub record Level : Type 0 where
    pub price : Decimal
    pub qty : Decimal

  pub record SequencedBook : Type 0 where
    pub symbol : String
    pub bids : List Level
    pub asks : List Level
    pub last_u : ℤ
    pub ready : Bool

  pub record Snapshot : Type 0 where
    pub symbol : String
    pub last_update_id : ℤ
    pub bids : List Level
    pub asks : List Level

  -- `levels[:idx]` for the index of `sort.Search`, before which every price is lower.
  unfoldable pub levels_below : Decimal → List Level → List Level
  levels_below price [] = []
  levels_below price (l ∷ levels) =
      let rest = levels_below price levels in if is_lt (cmp l.price price) then l ∷ rest else []

  -- `levels[idx:]`
  unfoldable pub levels_from : Decimal → List Level → List Level
  levels_from price [] = []
  levels_from price (l ∷ levels) =
      let rest = levels_from price levels in if is_lt (cmp l.price price) then rest else l ∷ levels

  -- What becomes of `levels[idx:]`: a level is removed, updated in place or inserted.
  abbrev pub edit_level : (price qty : Decimal) → List Level → List Level
  edit_level price qty [] = if is_zero qty then [] else record { price = price; qty = qty } ∷ []
  edit_level price qty (l ∷ levels) =
      if is_eq (cmp l.price price)
      then (if is_zero qty then levels else record { price = l.price; qty = qty } ∷ levels)
      else if is_zero qty
      then l ∷ levels
      else record { price = price; qty = qty } ∷ l ∷ levels

  unfoldable pub set_levels : (price qty : Decimal) → List Level → List Level
  set_levels price qty levels =
      levels_below price levels ++ edit_level price qty (levels_from price levels)

  -- `setLevel`
  abbrev pub set_level : BookSide → (price qty : Decimal) → SequencedBook → SequencedBook
  set_level bid price qty b = record b { bids = set_levels price qty b.bids }
  set_level ask price qty b = record b { asks = set_levels price qty b.asks }

  abbrev pub levels_of : BookSide → SequencedBook → List Level
  levels_of bid b = b.bids
  levels_of ask b = b.asks

  -- The level that is found at `levels[idx]`.
  abbrev pub qty_found : Decimal → List Level → Option Decimal
  qty_found price [] = none
  qty_found price (l ∷ levels) = if is_eq (cmp l.price price) then some l.qty else none

  -- `QtyAt`, where no level is `none`.
  abbrev pub qty_at : BookSide → Decimal → SequencedBook → Option Decimal
  qty_at side price b = qty_found price (levels_from price (levels_of side b))

  -- One loop of `ApplySnapshot`.
  unfoldable pub seed_levels : BookSide → List Level → SequencedBook → SequencedBook
  seed_levels side [] b = b
  seed_levels side (lv ∷ levels) b =
      seed_levels side levels (if is_zero lv.qty then b else set_level side lv.price lv.qty b)

  -- `ApplySnapshot`
  unfoldable pub apply_snapshot : Snapshot → SequencedBook → SequencedBook
  apply_snapshot snap b =
      let seeded =
        seed_levels ask snap.asks (seed_levels bid snap.bids (record b { bids = []; asks = [] })) in
      record seeded { last_u = snap.last_update_id; ready = true }

  abbrev pub gap_error : Delta → SequencedBook → GapReason → GapError
  gap_error d b reason = record {
    symbol = b.symbol;
    expected_pu = b.last_u;
    got_pu = d.pu;
    got_u = d.u;
    reason = reason;
  }

  abbrev pub write_delta : Delta → SequencedBook → SequencedBook
  write_delta d b = record (set_level d.side d.price d.qty b) { last_u = d.u }

  -- `ApplyDelta`
  unfoldable pub apply_delta : Delta → SequencedBook → SequencedBook × Result GapError Bool
  apply_delta d b =
      if not b.ready
      then (b, err (gap_error d b not_seeded))
      else if leb_ℤ d.u b.last_u
      then (b, ok false)
      else if leb_ℤ d.pu b.last_u && leb_ℤ b.last_u d.pu
      then (write_delta d b, ok true)
      else if leb_ℤ d.pu b.last_u && ltb_ℤ b.last_u d.u
      then (write_delta d b, ok true)
      else (b, err (gap_error d b sequence_gap))

  -- `GapRecoverer`, with the events that it has submitted to the kernel.
  pub record GapRecoverer : Type 0 where
    pub book : SequencedBook
    pub symbol : String
    pub buffer : List Delta
    pub max_buffer : ℕ
    pub submitted : List ResyncEvent

  -- `NewSequencedBook`
  abbrev pub new_sequenced_book : String → SequencedBook
  new_sequenced_book symbol = record {
    symbol = symbol;
    bids = [];
    asks = [];
    last_u = pos 0;
    ready = false;
  }

  -- `NewGapRecoverer`
  abbrev pub new_gap_recoverer : String → SequencedBook → GapRecoverer
  new_gap_recoverer symbol book = record {
    book = book;
    symbol = symbol;
    buffer = [];
    max_buffer = 4096;
    submitted = [];
  }

  -- `bufferDelta`
  unfoldable pub buffer_delta : Delta → GapRecoverer → GapRecoverer
  buffer_delta d g =
      let grown = g.buffer ++ d ∷ [] in
      record g {
        buffer =
            if ltb g.max_buffer (length grown)
            then drop (length grown - g.max_buffer) grown
            else grown;
      }

  unfoldable pub kept_above : ℤ → List Delta → List Delta
  kept_above through [] = []
  kept_above through (d ∷ ds) =
      let rest = kept_above through ds in if ltb_ℤ through d.u then d ∷ rest else rest

  -- `pruneBufferThrough`
  abbrev pub prune_buffer_through : ℤ → GapRecoverer → GapRecoverer
  prune_buffer_through through g = record g { buffer = kept_above through g.buffer }

  -- `sort.SliceStable` by `U`.
  unfoldable pub place_delta : Delta → List Delta → List Delta
  place_delta d [] = d ∷ []
  place_delta d (e ∷ es) =
      let rest = place_delta d es in if ltb_ℤ e.u d.u then e ∷ rest else d ∷ e ∷ es

  unfoldable pub sort_deltas : List Delta → List Delta
  sort_deltas [] = []
  sort_deltas (d ∷ ds) = place_delta d (sort_deltas ds)

  -- The replay loop of `resync`.
  unfoldable pub replay_deltas : List Delta → GapRecoverer → GapRecoverer
  replay_deltas [] g = g
  replay_deltas (d ∷ ds) g =
      let (book, outcome) = apply_delta d g.book in
      elim outcome [
        | err gap ↦ g
        | ok true ↦ replay_deltas ds (buffer_delta d (record g { book = book }))
        | ok false ↦ replay_deltas ds g
      ]

  -- `resync`. `fetched` is what the snapshot function answers; the flag says whether it returns no error.
  unfoldable pub resync : ResyncReason → ℤ → Option Snapshot → GapRecoverer → GapRecoverer × Bool
  resync reason at none g = (g, false)
  resync reason at (some snap) g =
      let replayed =
        replay_deltas (sort_deltas g.buffer)
          (record g { book = apply_snapshot snap g.book; buffer = [] }) in
      let event : ResyncEvent = record {
        symbol = g.symbol;
        reason = reason;
        last_update_id = replayed.book.last_u;
        ts = at;
      } in
      (
        record replayed {
          buffer = kept_above replayed.book.last_u replayed.buffer;
          submitted = replayed.submitted ++ event ∷ [];
        },
        true,
      )

  -- `Apply`
  unfoldable pub apply_live : Delta → ℤ → Option Snapshot → GapRecoverer → GapRecoverer × Bool
  apply_live d at fetched g =
      let g' = buffer_delta d g in
      if g'.book.ready
      then (let (book, outcome) = apply_delta d g'.book in
          elim outcome [
            | ok true ↦ (prune_buffer_through book.last_u (record g' { book = book }), true)
            | ok false ↦ (g', true)
            | err gap ↦ resync resync_gap at fetched g'
          ])
      else resync resync_gap at fetched g'

  -- `Reconnect`
  abbrev pub reconnect : ℤ → Option Snapshot → GapRecoverer → GapRecoverer × Bool
  reconnect at fetched g = resync resync_reconnect at fetched g
