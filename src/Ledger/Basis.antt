-- ===== src/Ledger/Basis.antt =====
-- internal/ledger/ledger.go: the durable form of the accountant, encoded and restored.
use bucks.Orders.Journal.{is_empty}
use bucks.Common.Text.{same, insert}
use bucks.Money.{is_gt, DecimalOps}
use bucks.Ledger.{short, flat, long, same_dir, Position, Accountant, Lot, Dir}
use bucks.Common.Int.{leb_ℤ, negsuc, pos, ℤ}
use bucks.Common.{
  >>-eq-ok, inr, inl, refl, Bool-cases, >>=-eq-ok, ok-injective, false, not, none, arith, fail_if,
  or_fail, ◌||◌, some, ◌≢◌, true, ◌>>◌, ok, ◌>>=◌, ◌&&◌, ◌≡◌, All, Bool, Result, ℕ, [],
  if◌then◌else◌, Option, ◌∷◌, String, List,
}
use Prim.Native.String.{compare as compare_text}

-- `basisLot`, whose amounts are texts.
pub record BasisLot : Type 0 where
  pub qty : String
  pub px : String

pub record BasisPosition : Type 0 where
  pub symbol : String
  pub dir : ℤ
  pub lots : List BasisLot

pub record BasisState : Type 0 where
  pub version : ℤ
  pub positions : List BasisPosition

pub data BasisError : Type 0 where
  not_decoded unsupported_version missing_symbol invalid_dir no_lots bad_qty bad_px : BasisError

abbrev dir_code : Dir → ℤ
dir_code long = pos 1
dir_code short = negsuc 0
dir_code flat = pos 0

abbrev dir_decoded : ℤ → Option Dir
dir_decoded d =
    if leb_ℤ d (pos 1) && leb_ℤ (pos 1) d
    then some long
    else if leb_ℤ d (negsuc 0) && leb_ℤ (negsuc 0) d
    then some short
    else none

-- `sort.Strings` on the symbols: one position put in its place.
unfoldable pub place : BasisPosition → List BasisPosition → List BasisPosition
place p [] = p ∷ []
place p (q ∷ qs) =
    let later = place p qs in
    if is_gt (compare_text p.symbol q.symbol) then q ∷ later else p ∷ q ∷ qs

module _ (M : DecimalOps) where
  open M use {Decimal, sign}

  module _ (text_of : Decimal → String) where
    abbrev basis_lots : List (Lot M) → List BasisLot
    basis_lots [] = []
    basis_lots (l ∷ lots) = record { qty = text_of l.qty; px = text_of l.px } ∷ basis_lots lots

    -- The positions of `encodeBasis`: flat and empty ones are left out, the others are sorted.
    unfoldable pub basis_positions : Accountant M → List BasisPosition
    unfolding place
    basis_positions [] = []
    basis_positions ((symbol, p) ∷ a) =
        let rest = basis_positions a in
        if same_dir p.dir flat || is_empty p.lots
        then rest
        else place (record { symbol = symbol; dir = dir_code p.dir; lots = basis_lots p.lots }) rest

    unfoldable pub encode_basis :
        (marshal : BasisState → Option (List ℕ)) → Accountant M → Option (List ℕ)
    unfolding basis_positions
    encode_basis marshal a = marshal (record { version = pos 1; positions = basis_positions a })

  module _ (parse : String → Option Decimal) where
    -- An amount of a lot: it parses and is positive.
    unfoldable pub restore_amount : BasisError → String → Result BasisError Decimal
    restore_amount e text = do d ← or_fail (parse text) e; fail_if (not (is_gt (sign d))) e; ok d

    unfoldable pub restore_lots : List BasisLot → Result BasisError (List (Lot M))
    unfolding restore_amount
    restore_lots [] = ok []
    restore_lots (l ∷ ls) = do
      qty ← restore_amount bad_qty l.qty
      px ← restore_amount bad_px l.px
      lots ← restore_lots ls
      ok (record { qty = qty; px = px } ∷ lots)

    unfoldable pub restore_position : BasisPosition → Result BasisError (Position M)
    unfolding restore_lots
    restore_position bp = do
      fail_if (same bp.symbol "") missing_symbol
      dir ← or_fail (dir_decoded bp.dir) invalid_dir
      fail_if (is_empty bp.lots) no_lots
      lots ← restore_lots bp.lots
      ok (record { dir = dir; lots = lots })

    -- The loop of `restoreBasis`, on the map built so far.
    unfoldable pub restore_positions :
        Accountant M → List BasisPosition → Result BasisError (Accountant M)
    unfolding restore_position
    restore_positions next [] = ok next
    restore_positions next (bp ∷ bps) = do
      p ← restore_position bp
      restore_positions (insert bp.symbol p next) bps

    abbrev version_one : ℤ → Bool
    version_one v = leb_ℤ v (pos 1) && leb_ℤ (pos 1) v

    unfoldable pub restore_basis :
        (unmarshal : List ℕ → Option BasisState) → List ℕ → Result BasisError (Accountant M)
    unfolding restore_positions
    restore_basis unmarshal [] = ok []
    restore_basis unmarshal (b ∷ bs) = do
      state ← or_fail (unmarshal (b ∷ bs)) not_decoded
      fail_if (not (version_one state.version)) unsupported_version
      restore_positions [] state.positions

    -- A restored lot has a positive quantity and a positive price.
    abbrev pub PositiveLot : Lot M → Type 0
    PositiveLot l = (is_gt (sign l.qty) ≡ true) × (is_gt (sign l.px) ≡ true)

    abbrev pub OpenPosition : Position M → Type 0
    OpenPosition p = (p.dir ≢ flat) × (p.lots ≢ []) × All PositiveLot p.lots

    abbrev pub AllOpen : Accountant M → Type 0
    AllOpen a = All (λ entry. OpenPosition entry.1) a

    restore_amount-positive :
        (e : BasisError) (text : String) (d : Decimal)
        → restore_amount e text ≡ ok d
        → is_gt (sign d) ≡ true
    unfolding restore_amount
    restore_amount-positive e text d h = ground arith

    restore_lots-Positive :
        (ls : List BasisLot) (lots : List (Lot M))
        → restore_lots ls ≡ ok lots
        → All PositiveLot lots × ((is_empty lots) ≡ (is_empty ls))
    unfolding restore_lots
    restore_lots-Positive [] lots h = rw (← ok-injective h) (tt, refl)
    restore_lots-Positive (l ∷ ls) lots h =
        let (qty, eq, h1) = >>=-eq-ok (restore_amount bad_qty l.qty) _ h in
        let (px, ep, h2) = >>=-eq-ok (restore_amount bad_px l.px) _ h1 in
        let (more, el, h3) = >>=-eq-ok (restore_lots ls) _ h2 in
        rw (← ok-injective h3) (
          (
            (
              restore_amount-positive bad_qty l.qty qty eq,
              restore_amount-positive bad_px l.px px ep,
            ),
            (restore_lots-Positive ls more el).0,
          ),
          refl,
        )

    dir_decoded-open : (d : ℤ) (dir : Dir) → dir_decoded d ≡ some dir → dir ≢ flat
    dir_decoded-open d dir h = λ e. ground (arith, e)

    not_empty : {A : Type 0} (xs : List A) → is_empty xs ≡ false → xs ≢ []
    not_empty [] h = cc h
    not_empty (x ∷ xs) h = λ e. cc e

    restore_position-Open :
        (bp : BasisPosition) (p : Position M) → restore_position bp ≡ ok p → OpenPosition p
    unfolding restore_position
    restore_position-Open bp p h =
        let (_, h1) = >>-eq-ok (fail_if (same bp.symbol "") missing_symbol) _ h in
        let (dir, ed, h2) = >>=-eq-ok (or_fail (dir_decoded bp.dir) invalid_dir) _ h1 in
        let (en, h3) = >>-eq-ok (fail_if (is_empty bp.lots) no_lots) _ h2 in
        let (lots, el, h4) = >>=-eq-ok (restore_lots bp.lots) _ h3 in
        let (good, size) = restore_lots-Positive bp.lots lots el in
        rw (← ok-injective h4) (
          dir_decoded-open bp.dir dir (ground arith),
          not_empty lots (ground (arith, size, en)),
          good,
        )

    insert-AllOpen :
        (symbol : String) (p : Position M) (a : Accountant M)
        → OpenPosition p
        → AllOpen a
        → AllOpen (insert symbol p a)
    unfolding insert
    insert-AllOpen symbol p [] good all = (good, tt)
    insert-AllOpen symbol p ((name, q) ∷ a) good all = elim (Bool-cases (same name symbol)) [
      | inl here ↦ rw here (good, all.1)
      | inr there ↦ rw there (all.0, insert-AllOpen symbol p a good all.1)
    ]

    restore_positions-AllOpen :
        (bps : List BasisPosition) (next a : Accountant M)
        → restore_positions next bps ≡ ok a
        → AllOpen next
        → AllOpen a
    unfolding restore_positions
    restore_positions-AllOpen [] next a h all = rw (← ok-injective h) all
    restore_positions-AllOpen (bp ∷ bps) next a h all =
        let (p, ep, h1) = >>=-eq-ok (restore_position bp) _ h in
        restore_positions-AllOpen bps (insert bp.symbol p next) a h1
          (insert-AllOpen bp.symbol p next (restore_position-Open bp p ep) all)

    -- Whatever the stored bytes are, a basis that `restoreBasis` accepts holds open positions only:
    -- each with a direction and at least one lot, and each lot with a positive quantity and a
    -- positive price.
    pub restore_basis-AllOpen :
        (unmarshal : List ℕ → Option BasisState) (bytes : List ℕ) (a : Accountant M)
        → restore_basis unmarshal bytes ≡ ok a
        → AllOpen a
    unfolding restore_basis
    restore_basis-AllOpen unmarshal [] a h = rw (← ok-injective h) tt
    restore_basis-AllOpen unmarshal (b ∷ bs) a h =
        let (state, es, h1) = >>=-eq-ok (or_fail (unmarshal (b ∷ bs)) not_decoded) _ h in
        let (ev, h2) =
          >>-eq-ok (fail_if (not (version_one state.version)) unsupported_version) _ h1 in
        restore_positions-AllOpen state.positions [] a h2 tt
