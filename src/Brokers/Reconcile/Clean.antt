-- ===== src/Brokers/Reconcile/Clean.antt =====
-- The verdict of `ReconcileOnBoot` against the positions of the two sides.
use bucks.Money.Laws.{OrderLaws}
use bucks.Orders.Journal.{ReplayResult}
use bucks.Brokers.Reconcile.{
  resolve_all, ReconcileResult, GetOrder, reconcile_on_boot, signed_qty, compare_text, symbols_of,
  is_empty, qty_of, broker_positions, journal_positions, discrepancies_of, Quantities, add_symbols,
  is_seen, sort_strings, place_string,
}
use bucks.Money.{is_eq, is_lt, DecimalOps}
use mathlib.Core.Option.{some-injective}
use bucks.Common.{
  >>=-eq-ok, sym, ap, ◌∙◌, false, ◌⊎◌, ok-injective, Option-cases, Bool, none, not, arith, subst,
  inr, ◌||◌, ◌↔◌, inl, refl, ok, Ordering, some, true, if◌then◌else◌, Option, ◌≡◌, ◌++◌, Bool-cases,
  All, String, List, ◌∷◌, [],
}
use bucks.Common.Text.{lookup-insert, insert, same, lookup, same_iff}

module _ (P : String → Type 0) where
  place_string-All : (s : String) (xs : List String) → All P (place_string s xs) → P s × All P xs
  unfolding place_string
  place_string-All s [] (h, all) = (h, tt)
  place_string-All s (x ∷ xs) all = split (place_string-All s xs) (is_lt (compare_text x s)) all
    where
      split :
          (All P (place_string s xs) → P s × All P xs)
          → (before : Bool) → All P (if before then x ∷ place_string s xs else s ∷ x ∷ xs)
          → P s × (P x × All P xs)
      split ih true (hx, rest) = let (hs, hxs) = ih rest in (hs, (hx, hxs))
      split ih false (hs, (hx, hxs)) = (hs, (hx, hxs))

  sort_strings-All : (xs : List String) → All P (sort_strings xs) → All P xs
  unfolding sort_strings
  sort_strings-All [] all = tt
  sort_strings-All (x ∷ xs) all =
      let (h, rest) = place_string-All x (sort_strings xs) all in (h, sort_strings-All xs rest)

  All-append : (xs ys : List String) → All P (xs ++ ys) → All P xs × All P ys
  All-append [] ys all = (tt, all)
  All-append (x ∷ xs) ys (h, all) = let (hx, hy) = All-append xs ys all in ((h, hx), hy)

  is_seen-All : (s : String) (xs : List String) → is_seen s xs ≡ true → All P xs → P s
  unfolding is_seen
  is_seen-All s [] seen all = absurd (cc seen)
  is_seen-All s (x ∷ xs) seen (h, all) = elim (Bool-cases (same x s)) [
    | inl e ↦ subst P ((same_iff x s).0 e) h
    | inr e ↦ is_seen-All s xs (ground (arith, seen, e)) all
  ]

module _ (M : DecimalOps) where
  open M use {Decimal, zero_decimal, add, cmp, sign, neg}

  -- Every symbol of a map, and every one that was seen before, is among the symbols.
  add_symbols-All :
      (P : String → Type 0) (symbols : List String) (quantities : Quantities M)
      → All P (add_symbols M symbols quantities)
      → All P symbols × ((s : String) (qty : Decimal) → lookup s quantities ≡ some qty → P s)
  unfolding add_symbols lookup
  add_symbols-All P symbols [] all = (all, λ s qty h. absurd (cc h))
  add_symbols-All P symbols ((x, q) ∷ rest) all =
      split (add_symbols-All P symbols rest) (add_symbols-All P (symbols ++ x ∷ []) rest)
        (is_seen x symbols) refl all
    where
      found :
          P x
          → ((s : String) (qty : Decimal) → lookup s rest ≡ some qty → P s)
          → (s : String) (qty : Decimal) → (if same x s then some q else lookup s rest) ≡ some qty
          → P s
      found hx later s qty h = elim (Bool-cases (same x s)) [
        | inl e ↦ subst P ((same_iff x s).0 e) hx
        | inr e ↦ later s qty (ground (arith, h, e))
      ]

      Gives : List String → Type 0
      Gives before =
          All P (add_symbols M before rest)
          → All P before × ((s : String) (qty : Decimal) → lookup s rest ≡ some qty → P s)

      split :
          Gives symbols
          → Gives (symbols ++ x ∷ [])
          → (seen : Bool) → is_seen x symbols ≡ seen
          → All P
              (if seen then add_symbols M symbols rest else add_symbols M (symbols ++ x ∷ []) rest)
          → All P symbols
            × ((s : String) (qty : Decimal)
                → (if same x s then some q else lookup s rest) ≡ some qty
                → P s)
      split old new true e h =
          let (before, later) = old h in (before, found (is_seen-All P x symbols e before) later)
      split old new false e h =
          let (before, later) = new h in
          let (kept, (hx, _)) = All-append P symbols (x ∷ []) before in (kept, found hx later)

  -- The two sides agree on a symbol.
  abbrev Agree : (journal broker : Quantities M) → String → Type 0
  Agree journal broker s = cmp (qty_of M s journal) (qty_of M s broker) ≡ Ordering.eq

  discrepancies_of-empty :
      (journal broker : Quantities M) (symbols : List String)
      → (is_empty M (discrepancies_of M journal broker symbols) ≡ true)
        ↔ All (Agree journal broker) symbols
  unfolding discrepancies_of
  discrepancies_of-empty journal broker [] = ((λ h. tt), (λ h. refl))
  discrepancies_of-empty journal broker (s ∷ symbols) =
      split (discrepancies_of-empty journal broker symbols)
        (is_eq (cmp (qty_of M s journal) (qty_of M s broker))) refl
    where
      same_eq : (o : Ordering) → (is_eq o ≡ true) ↔ (o ≡ Ordering.eq)
      same_eq o = ground arith

      split :
          (is_empty M (discrepancies_of M journal broker symbols) ≡ true)
            ↔ All (Agree journal broker) symbols
          → (agrees : Bool) → is_eq (cmp (qty_of M s journal) (qty_of M s broker)) ≡ agrees
          → (is_empty M (
                if agrees
                then discrepancies_of M journal broker symbols
                else (record {
                  symbol = s;
                  journal_qty = qty_of M s journal;
                  broker_qty = qty_of M s broker;
                })
                  ∷ discrepancies_of M journal broker symbols)
              ≡ true)
            ↔ (Agree journal broker s × All (Agree journal broker) symbols)
      split (there, back) true e = ((λ h. ((same_eq _).0 e, there h)), (λ h. back h.1))
      split ih false e = ((λ h. absurd (cc h)), (λ h. absurd (cc (e, (same_eq _).1 h.0))))

  -- Where they agree on the symbols of both maps, they agree on all.
  symbols_of-Agree :
      (journal broker : Quantities M)
      → OrderLaws M
      → All (Agree journal broker) (symbols_of M journal broker)
      → (s : String) → Agree journal broker s
  symbols_of-Agree journal broker laws all s =
      let (of_journal, of_broker) =
        add_symbols-All (Agree journal broker) (add_symbols M [] journal) broker (
          sort_strings-All (Agree journal broker) (add_symbols M (add_symbols M [] journal) broker)
            all) in
      let listed = add_symbols-All (Agree journal broker) [] journal of_journal in
      elim (Option-cases (lookup s journal)) [
        | inr (q, e) ↦ listed.1 s q e
        | inl e ↦ elim (Option-cases (lookup s broker)) [
          | inr (q, e') ↦ of_broker s q e'
          | inl e' ↦ rw (e, e') (laws.cmp_refl zero_decimal)
        ]
      ]

  -- The signed quantity that terminal orders of a symbol filled, added up in the journal's order.
  unfoldable pub net : String → Decimal → List (ReplayResult M) → Option Decimal
  net s total [] = some total
  net s total (r ∷ rs) =
      if (r.in_flight || is_eq (sign r.order.cum_qty)) || not (same r.order.symbol s)
      then net s total rs
      else elim (add total (signed_qty M r.order)) [ none ↦ none | some total' ↦ net s total' rs ]

  -- The last quantity that the broker lists for a symbol.
  unfoldable pub held : String → Decimal → Quantities M → Decimal
  held s qty [] = qty
  held s qty ((symbol, q) ∷ rest) = if same symbol s then held s q rest else held s qty rest

  qty_of-insert :
      (s symbol : String) (qty : Decimal) (quantities : Quantities M)
      → qty_of M s (insert symbol qty quantities)
        ≡ (if same symbol s then qty else qty_of M s quantities)
  qty_of-insert s symbol qty quantities = elim (Bool-cases (same symbol s)) [
    | inl e ↦ rw (lookup-insert symbol s qty quantities, e) refl
    | inr e ↦ rw (lookup-insert symbol s qty quantities, e) refl
  ]

  -- One round of the loop over the journal: the order is skipped, or its sum is stored.
  journal_positions-round :
      (positions after : Quantities M) (r : ReplayResult M) (rs : List (ReplayResult M))
      → journal_positions M positions (r ∷ rs) ≡ ok after
      → ((r.in_flight || is_eq (sign r.order.cum_qty) ≡ true)
          × (journal_positions M positions rs ≡ ok after))
        ⊎ ((r.in_flight || is_eq (sign r.order.cum_qty) ≡ false)
            × ((sum : Decimal) × (add (qty_of M r.order.symbol positions) (signed_qty M r.order)
                  ≡ some sum)
                × (journal_positions M (insert r.order.symbol sum positions) rs ≡ ok after)))
  unfolding journal_positions
  journal_positions-round positions after r rs e = elim (Bool-cases r.in_flight) [
    | inl e1 ↦ inl (ground arith, ground arith)
    | inr e1 ↦ ground arith
  ]

  journal_positions-net :
      (s : String) (positions after : Quantities M) (rs : List (ReplayResult M))
      → journal_positions M positions rs ≡ ok after
      → net s (qty_of M s positions) rs ≡ some (qty_of M s after)
  unfolding journal_positions net
  journal_positions-net s positions after [] e = rw (ok-injective e) refl
  journal_positions-net s positions after (r ∷ rs) e =
      elim (journal_positions-round positions after r rs e) [
        | inl (skipped, rest) ↦ rw skipped (journal_positions-net s positions after rs rest)
        | inr (counted, (sum, added, rest)) ↦ elim (Bool-cases (same r.order.symbol s)) [
          | inl e' ↦
              let added' : add (qty_of M s positions) (signed_qty M r.order) ≡ some sum =
                subst (λ x. add (qty_of M x positions) (signed_qty M r.order) ≡ some sum)
                  ((same_iff r.order.symbol s).0 e') added in
              rw (counted, e', added')
                (sym (
                    ap (λ x. net s x rs)
                      (qty_of-insert s r.order.symbol sum positions ∙ rw e' refl))
                  ∙ journal_positions-net s (insert r.order.symbol sum positions) after rs rest)
          | inr e' ↦
              rw (counted, e')
                (sym (
                    ap (λ x. net s x rs)
                      (qty_of-insert s r.order.symbol sum positions ∙ rw e' refl))
                  ∙ journal_positions-net s (insert r.order.symbol sum positions) after rs rest)
        ]
      ]

  broker_positions-held :
      (s : String) (positions listed : Quantities M)
      → qty_of M s (broker_positions M positions listed) ≡ held s (qty_of M s positions) listed
  unfolding broker_positions held
  broker_positions-held s positions [] = refl
  broker_positions-held s positions ((symbol, q) ∷ rest) = elim (Bool-cases (same symbol s)) [
    | inl e ↦ rw e (
        broker_positions-held s (insert symbol q positions) rest
        ∙ ap (λ x. held s x rest) (qty_of-insert s symbol q positions ∙ rw e refl))
    | inr e ↦ rw e (
        broker_positions-held s (insert symbol q positions) rest
        ∙ ap (λ x. held s x rest) (qty_of-insert s symbol q positions ∙ rw e refl))
  ]

  -- The journal's and the broker's quantities of a symbol are computed and equal.
  abbrev pub Matches : List (ReplayResult M) → Quantities M → String → Type 0
  Matches replayed listed s =
      (qty : Decimal) × (net s zero_decimal replayed ≡ some qty)
      × (cmp qty (held s zero_decimal listed) ≡ Ordering.eq)

  everywhere : (P : String → Type 0) (xs : List String) → ((s : String) → P s) → All P xs
  everywhere P [] h = tt
  everywhere P (x ∷ xs) h = (h x, everywhere P xs h)

  -- The maps agree on a symbol exactly if the quantities that they stand for do.
  Agree-Matches :
      (replayed : List (ReplayResult M)) (journal listed : Quantities M) (s : String)
      → journal_positions M [] replayed ≡ ok journal
      → Agree journal (broker_positions M [] listed) s ↔ Matches replayed listed s
  unfolding lookup
  Agree-Matches replayed journal listed s e =
      let of_journal : net s zero_decimal replayed ≡ some (qty_of M s journal) =
        journal_positions-net s [] journal replayed e in
      let of_broker : qty_of M s (broker_positions M [] listed) ≡ held s zero_decimal listed =
        broker_positions-held s [] listed in
      (
        (λ agree. (qty_of M s journal, of_journal, rw (← of_broker) agree)),
        (λ (qty, n, same_qty). rw of_broker (
            subst (λ q. cmp q (held s zero_decimal listed) ≡ Ordering.eq)
              (some-injective qty (qty_of M s journal) (sym n ∙ of_journal)) same_qty)),
      )

  -- A reconciliation that succeeds is clean exactly if, for every symbol there is, what the terminal
  -- orders of the journal filled, bought less sold, equals what the broker holds, zero where it lists
  -- none.
  pub reconcile_on_boot-clean :
      (replayed : List (ReplayResult M)) (get_order : String → GetOrder M) (listed : Quantities M)
      (result : ReconcileResult M)
      → OrderLaws M
      → reconcile_on_boot M (ok replayed) get_order (some listed) ≡ ok result
      → (result.clean ≡ true) ↔ ((s : String) → Matches replayed listed s)
  unfolding reconcile_on_boot
  reconcile_on_boot-clean replayed get_order listed result laws e =
      let (resolved, e1, rest) = >>=-eq-ok (resolve_all M get_order replayed) _ e in
      let (journal, e2, last) = >>=-eq-ok (journal_positions M [] replayed) _ rest in
      let clean_eq = ap (λ r. r.clean) (ok-injective last) in
      let broker = broker_positions M [] listed in
      let (there, back) = discrepancies_of-empty journal broker (symbols_of M journal broker) in
      (
        (λ clean s.
            (Agree-Matches replayed journal listed s e2).0
              (symbols_of-Agree journal broker laws (there (clean_eq ∙ clean)) s)),
        (λ h.
            sym clean_eq
            ∙ back (
                everywhere (Agree journal broker) (symbols_of M journal broker)
                  (λ s. (Agree-Matches replayed journal listed s e2).1 (h s)))),
      )
