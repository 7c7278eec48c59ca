-- ===== src/Harness/Run/Script.antt =====
-- `Run` against the flat sequence of the calls that it is to make.
use bucks.Common.{
  sym, subst, refl, ap, inr, ◌++◌, some, ◌∷◌, ◌⊎◌, none, inl, ◌≡◌, [], List, Option, Bool,
}
use bucks.Harness.Run.{
  TickInput, Turn, canceled, stopped, supplied, Ended, going, clean, context_done, failed, after_ok,
  iterate, go_on, run_loop,
}
use bucks.Harness.Trader.Tick.{heartbeat, tick}
use bucks.Harness.Trader.{TraderConfig, World, TradeError, Moment}
use bucks.Harness.Report.{BrokerPosition, maybe_report}
use bucks.Money.{DecimalOps}

module _ (M : DecimalOps) where
  open M use {Decimal}

  -- A call of the loop, with its input and what the surroundings answer during it.
  pub data Call : Type 0 where
    tick_call : TickInput M → Moment → Call
    beat_call : TickInput M → Moment → (pulse_delivered : Bool) → Call
    report_call :
        TickInput M
        → Moment
        → (account : Option Decimal) → (positions : Option (List (BrokerPosition M)))
        → (by_symbol : List (BrokerPosition M) → List (BrokerPosition M)) → Call

  -- The world after a call, and the error that it returns.
  abbrev pub perform : TraderConfig M → Call → World M → World M × Option TradeError
  perform cfg (tick_call x m) w =
      let r = tick M cfg m x.decision x.portfolio x.equity w in (r.0, r.1.1)
  perform cfg (beat_call x m delivered) w =
      let r = heartbeat M cfg m delivered x.equity w in (r.0, r.1.1)
  perform cfg (report_call x m account positions by_symbol) w =
      let r = maybe_report M cfg m account positions by_symbol x.realized_pl x.marks w in
      (r.0, r.1.1)

  -- The calls for some turns: a tick, a heartbeat and a report for each input, up to a canceled
  -- context or the end of the source.
  abbrev pub script : List (Turn M) → List Call
  script [] = []
  script (canceled ∷ turns) = []
  script (stopped ∷ turns) = []
  script (supplied x at_tick at_beat delivered at_report account positions by_symbol ∷ turns) =
      tick_call x at_tick
      ∷ beat_call x at_beat delivered
      ∷ report_call x at_report account positions by_symbol
      ∷ script turns

  -- How the turns end if no call fails.
  abbrev pub ending : List (Turn M) → Ended M
  ending [] = going
  ending (canceled ∷ turns) = context_done
  ending (stopped ∷ turns) = clean
  ending (supplied x at_tick at_beat delivered at_report account positions by_symbol ∷ turns) =
      ending turns

  -- Calls that are made one after another and return no error.
  pub data Performed (cfg : TraderConfig M) : World M → List Call → World M → Type 0 where
    nothing : {w : World M} → Performed cfg w [] w
    next :
        {w v u : World M} {calls : List Call} (c : Call)
        → perform cfg c w ≡ (v, none)
        → Performed cfg v calls u
        → Performed cfg w (c ∷ calls) u

  -- All calls return no error, or the first one that does not ends the run.
  abbrev pub UpToError : TraderConfig M → List Call → Ended M → World M → World M × Ended M → Type 0
  UpToError cfg calls end w r =
      (Performed cfg w calls r.0 × (r.1 ≡ end))
      ⊎ ((before : List Call) × (c : Call) × (after : List Call) × (v : World M) × (e : TradeError)
          × (calls ≡ before ++ c ∷ after)
          × Performed cfg w before v
          × (perform cfg c v ≡ (r.0, some e))
          × (r.1 ≡ failed e))

  one_before :
      (cfg : TraderConfig M) (calls : List Call) (end : Ended M) (w v : World M) (c : Call)
      (r : World M × Ended M)
      → perform cfg c w ≡ (v, none)
      → UpToError cfg calls end v r
      → UpToError cfg (c ∷ calls) end w r
  one_before cfg calls end w v c r e (inl (all, ended)) = inl (next c e all, ended)
  one_before cfg calls end w v c r e (inr (before, d, after, u, f, split, all, fails, ended)) =
      inr (c ∷ before, d, after, u, f, ap (λ cs. c ∷ cs) split, next c e all, fails, ended)

  -- What follows a call: an error ends it, and otherwise the rest is made from the world after it.
  after_call :
      (cfg : TraderConfig M) (calls : List Call) (end : Ended M) (w : World M) (c : Call)
      (s : World M × Option TradeError) (rest : World M → World M × Ended M)
      → perform cfg c w ≡ s
      → ((v : World M) → UpToError cfg calls end v (rest v))
      → UpToError cfg (c ∷ calls) end w (go_on M rest s)
  after_call cfg calls end w c (v, none) rest e on =
      one_before cfg calls end w v c (rest v) e (on v)
  after_call cfg calls end w c (v, some f) rest e on =
      inr ([], c, calls, w, f, refl, nothing, e, refl)

  go_on-after_ok :
      (s : World M × Option TradeError) (following : World M → World M × Option TradeError)
      (rest : World M → World M × Ended M)
      → go_on M rest (after_ok M s following) ≡ go_on M (λ v. go_on M rest (following v)) s
  go_on-after_ok (w, none) following rest = refl
  go_on-after_ok (w, some e) following rest = refl

  -- Whatever the source supplies and the surroundings answer, `Run` makes the calls of its turns, a
  -- tick, a heartbeat and a report for each input in this order, each from the world that the one
  -- before it left: either all of them, none with an error, and it ends as the turns do; or those up to
  -- the first one that returns an error, and it returns that error.
  pub run_loop-UpToError :
      (cfg : TraderConfig M) (turns : List (Turn M)) (w : World M)
      → UpToError cfg (script turns) (ending turns) w (run_loop M cfg turns w)
  unfolding run_loop iterate
  run_loop-UpToError cfg [] w = inl (nothing, refl)
  run_loop-UpToError cfg (canceled ∷ turns) w = inl (nothing, refl)
  run_loop-UpToError cfg (stopped ∷ turns) w = inl (nothing, refl)
  run_loop-UpToError cfg
        (supplied x at_tick at_beat delivered at_report account positions by_symbol ∷ turns) w =
      let rest : World M → World M × Ended M = run_loop M cfg turns in
      let first = tick_call x at_tick in
      let second = beat_call x at_beat delivered in
      let third = report_call x at_report account positions by_symbol in
      subst (UpToError cfg (first ∷ second ∷ third ∷ script turns) (ending turns) w)
        (sym (
          go_on-after_ok (perform cfg first w)
            (λ v. after_ok M (perform cfg second v) (perform cfg third)) rest))
        (after_call cfg (second ∷ third ∷ script turns) (ending turns) w first (perform cfg first w)
          _ refl
          (λ v.
            subst (UpToError cfg (second ∷ third ∷ script turns) (ending turns) v)
              (sym (go_on-after_ok (perform cfg second v) (perform cfg third) rest))
              (after_call cfg (third ∷ script turns) (ending turns) v second (perform cfg second v)
                _ refl
                (λ u.
                  after_call cfg (script turns) (ending turns) u third (perform cfg third u) rest
                    refl (run_loop-UpToError cfg turns)))))
