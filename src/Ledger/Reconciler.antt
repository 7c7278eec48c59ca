-- ===== src/Ledger/Reconciler.antt =====
-- internal/ledger/reconciler.go: broker fills applied once each, with a durable store
-- (internal/memory/store.go). Instants are nanoseconds; a store call fails where its flag says so,
-- and a call that fails has rolled its transaction back.
pub mod Once
pub mod Synced
use bucks.Common.Text.{lookup, insert, erase, same}
use bucks.Ledger.{apply, LedgerError, Position, Accountant}
use bucks.Ledger.Basis.{BasisError, restore_basis, encode_basis, BasisState}
use bucks.Orders.{seen, Side}
use bucks.Money.{is_eq, is_lt, DecimalOps}
use bucks.Common.Int.{ltb_ℤ, leb_ℤ, ℤ}
use bucks.Common.{
  false, ok, [], err, ◌||◌, some, true, ◌∷◌, none, Result, ℕ, Option, ◌&&◌, if◌then◌else◌, Bool,
  String, List,
}
use Prim.Native.String.{compare as compare_text}

-- `Fill`, the fields that the reconciler reads.
pub record Fill (Decimal : Type 0) : Type 0 where
  pub id : String
  pub symbol : String
  pub side : Side
  pub qty : Decimal
  pub px : Decimal
  pub at : ℤ

-- Which calls of the store fail while a fill is reconciled.
pub record Faults : Type 0 where
  pub seen_fails : Bool
  pub remember_fails : Bool
  pub save_fails : Bool

pub data ReconcileError : Type 0 where
  missing_id store_failed encode_failed decode_failed apply_failed not_finished : ReconcileError

-- `nextCursor`
unfoldable pub next_cursor : (at after : ℤ) → ℤ
next_cursor at after = if ltb_ℤ after at then at else after

abbrev same_time : ℤ → ℤ → Bool
same_time a b = leb_ℤ a b && leb_ℤ b a

module _ (M : DecimalOps) (text_of : M.Decimal → String)
    (marshal : BasisState → Option (List ℕ)) where
  open M use {Decimal, sign}

  -- The tables: the ids of broker_fills, the realized rows, and the reconcile state.
  pub record Store : Type 0 where
    pub fill_ids : List String
    pub trades : List (String × Decimal)
    pub state : Option (ℤ × List ℕ)

  pub record Reconciler : Type 0 where
    pub store : Store
    pub acct : Accountant M
    pub after : ℤ
    pub state_loaded : Bool
    pub loaded_from_store : Bool

  -- `RememberBrokerFill`: the store and whether the id was inserted.
  unfoldable pub remember_broker_fill :
      (fails : Bool) (id symbol : String) (realized : Decimal) (cursor : ℤ) (basis : List ℕ)
      → Store
      → Result ReconcileError (Store × Bool)
  remember_broker_fill fails id symbol realized cursor basis st =
      if same id "" || same symbol "" || fails
      then err store_failed
      else if seen id st.fill_ids
      then ok (st, false)
      else ok (
        record {
          fill_ids = id ∷ st.fill_ids;
          trades = if is_eq (sign realized) then st.trades else (symbol, realized) ∷ st.trades;
          state = some (cursor, basis);
        },
        true,
      )

  -- `saveCurrentState`
  unfoldable pub save_current_state :
      Faults → (at : ℤ) → Reconciler → Reconciler × Option ReconcileError
  unfolding next_cursor
  save_current_state db at r =
      if same_time (next_cursor at r.after) r.after
      then (r, none)
      else elim (encode_basis M text_of marshal r.acct) [
        | none ↦ (r, some encode_failed)
        | some basis ↦ if db.save_fails then (r, some store_failed) else (
          record r {
            after = next_cursor at r.after;
            store = record r.store { state = some (next_cursor at r.after, basis) };
          },
          none,
        )
      ]

  -- `restore`, with what `snapshot` returned.
  unfoldable pub restore : String → Option (Position M) → Accountant M → Accountant M
  restore symbol none a = erase symbol a
  restore symbol (some p) a = insert symbol p a

  abbrev rolled_back : String → Option (Position M) → Reconciler → Reconciler
  rolled_back symbol prev r = record r { acct = restore symbol prev r.acct }

  -- The end of a round, behind `RememberBrokerFill`.
  abbrev remembered :
      String
      → Option (Position M)
      → ℤ
      → Reconciler
      → Result ReconcileError (Store × Bool)
      → Reconciler × Option ReconcileError
  remembered symbol prev cursor r (err e) = (rolled_back symbol prev r, some e)
  remembered symbol prev cursor r (ok (st, false)) = (rolled_back symbol prev r, none)
  remembered symbol prev cursor r (ok (st, true)) = (record r { store = st; after = cursor }, none)

  -- A round behind `Apply`, on the accountant as it left it.
  unfoldable pub remember_fill :
      Faults
      → Fill Decimal
      → Option (Position M)
      → Decimal
      → Reconciler
      → Reconciler × Option ReconcileError
  unfolding next_cursor remember_broker_fill restore
  remember_fill db f prev realized r = elim (encode_basis M text_of marshal r.acct) [
    | none ↦ (rolled_back f.symbol prev r, some encode_failed)
    | some basis ↦ remembered f.symbol prev (next_cursor f.at r.after) r (
        remember_broker_fill db.remember_fails f.id f.symbol realized (next_cursor f.at r.after)
          basis r.store)
  ]

  -- What `Apply` returned. `none` stands for fuel that ran out.
  unfoldable pub applied_fill :
      Faults
      → Fill Decimal
      → Reconciler
      → Option (Accountant M × Result LedgerError Decimal)
      → Reconciler × Option ReconcileError
  unfolding remember_fill
  applied_fill db f r none = (r, some not_finished)
  applied_fill db f r (some (acct, err e)) = (record r { acct = acct }, some apply_failed)
  applied_fill db f r (some (acct, ok realized)) =
      remember_fill db f (lookup f.symbol r.acct) realized (record r { acct = acct })

  -- A round of the loop of `Reconcile`.
  unfoldable pub reconcile_fill :
      Faults → Fill Decimal → Reconciler → Reconciler × Option ReconcileError
  unfolding save_current_state applied_fill
  reconcile_fill db f r =
      if same f.id ""
      then (r, some missing_id)
      else if db.seen_fails
      then (r, some store_failed)
      else if seen f.id r.store.fill_ids
      then save_current_state db f.at r
      else applied_fill db f r (apply M f.symbol f.side f.qty f.px r.acct)

  -- The loop, which the first error ends.
  unfoldable pub reconcile_fills :
      List (Fill Decimal × Faults) → Reconciler → Reconciler × Option ReconcileError
  unfolding reconcile_fill
  reconcile_fills [] r = (r, none)
  reconcile_fills ((f, db) ∷ fills) r =
      let (r', e) = reconcile_fill db f r in
      let rest = reconcile_fills fills r' in
      elim e [ some failure ↦ (r', some failure) | none ↦ rest ]

  -- The order of `sort.SliceStable`: by time, then by id.
  abbrev fill_before : Fill Decimal → Fill Decimal → Bool
  fill_before f g = if same_time f.at g.at then is_lt (compare_text f.id g.id) else ltb_ℤ f.at g.at

  unfoldable pub place_fill :
      Fill Decimal × Faults → List (Fill Decimal × Faults) → List (Fill Decimal × Faults)
  place_fill f [] = f ∷ []
  place_fill f (g ∷ gs) =
      let later = place_fill f gs in if fill_before g.0 f.0 then g ∷ later else f ∷ g ∷ gs

  unfoldable pub sort_fills : List (Fill Decimal × Faults) → List (Fill Decimal × Faults)
  unfolding place_fill
  sort_fills [] = []
  sort_fills (f ∷ fs) = place_fill f (sort_fills fs)

  abbrev loaded_basis :
      Reconciler → ℤ → Result BasisError (Accountant M) → Reconciler × Option ReconcileError
  loaded_basis r cursor (err e) = (r, some decode_failed)
  loaded_basis r cursor (ok acct) = (
    record r { acct = acct; after = cursor; state_loaded = true; loaded_from_store = true },
    none,
  )

  -- `LoadState`, without the value that it returns beside the error.
  unfoldable pub load_state :
      (parse : String → Option Decimal) (unmarshal : List ℕ → Option BasisState) (fails : Bool)
      → Reconciler
      → Reconciler × Option ReconcileError
  load_state parse unmarshal fails r =
      if r.state_loaded
      then (r, none)
      else if fails
      then (r, some store_failed)
      else elim r.store.state [
        | none ↦ (record r { state_loaded = true }, none)
        | some (cursor, basis) ↦ loaded_basis r cursor (restore_basis M parse unmarshal basis)
      ]

  -- `Reconcile`, on what `FillsSince` returned.
  unfoldable pub reconcile :
      (parse : String → Option Decimal) (unmarshal : List ℕ → Option BasisState) (fails : Bool)
      → List (Fill Decimal × Faults)
      → Reconciler
      → Reconciler × Option ReconcileError
  unfolding load_state reconcile_fills sort_fills
  reconcile parse unmarshal fails fills r =
      let (r', e) = load_state parse unmarshal fails r in
      let all = reconcile_fills (sort_fills fills) r' in
      elim e [ some failure ↦ (r', some failure) | none ↦ all ]
