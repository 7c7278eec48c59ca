-- ===== src/Orders/Journal/Reopened.antt =====
-- A journal that is opened again after a crash: `Open` appends behind a torn line.
use bucks.Orders.Journal.Recovery.{
  fold_records, replay_bytes-Written, read_lines-line, replay_bytes, NoNewline, Written, Encodes,
  recover,
}
use bucks.Orders.Journal.{
  collect, JournalError, open_journal, corrupt_record, file, durable, newline, ReplayResult,
  is_empty, replay, Entries, write_line, read_record, append_record, replay_lines, Record,
}
use bucks.Money.{DecimalOps}
use bucks.Common.{
  ◌>>=◌, Result, refl, err, true, none, ok, false, ◌≡◌, [], ◌∷◌, ◌++◌, Option, ℕ, List,
}
use mathlib.Core.List.{append_assoc}

NoNewline-append : (xs ys : List ℕ) → NoNewline xs → NoNewline ys → NoNewline (xs ++ ys)
NoNewline-append [] ys hx hy = hy
NoNewline-append (x ∷ xs) ys hx hy = (hx.0, NoNewline-append xs ys hx.1 hy)

module _ (M : DecimalOps) (marshal : Record M → Option (List ℕ))
    (unmarshal : List ℕ → Option (Record M)) where
  bad_line :
      (text : List ℕ) (entries : Entries M)
      → is_empty text ≡ false
      → NoNewline text
      → unmarshal text ≡ none
      → replay_bytes M marshal unmarshal (text ++ newline ∷ []) entries ≡ err corrupt_record
  unfolding replay_lines read_record
  bad_line [] entries e h bad = cc e
  bad_line (b ∷ bs) entries e h bad =
      rw (read_lines-line (b ∷ bs) [] h) (rw (bad, read_record) refl)

  -- A line that fails on all entries fails behind entries that could be collected.
  fails_behind :
      (m : Result JournalError (Entries M)) (f : Entries M → Result JournalError (Entries M))
      (results : List (ReplayResult M))
      → (m >>= collect M) ≡ ok results
      → ((entries : Entries M) → f entries ≡ err corrupt_record)
      → ((m >>= f) >>= collect M) ≡ err corrupt_record
  fails_behind (ok entries) f results found h = rw (h entries) refl
  fails_behind (err e) f results found h = cc found

  torn_line :
      (tail text : List ℕ) (entries : Entries M)
      → NoNewline tail
      → NoNewline text
      → is_empty tail ≡ false
      → unmarshal (tail ++ text) ≡ none
      → replay_bytes M marshal unmarshal (tail ++ (text ++ newline ∷ [])) entries
        ≡ err corrupt_record
  torn_line [] text entries h k e bad = cc e
  torn_line (b ∷ bs) text entries h k e bad =
      rw (← append_assoc bs text (newline ∷ []))
        (bad_line ((b ∷ bs) ++ text) entries refl (NoNewline-append (b ∷ bs) text h k) bad)

  -- A torn line is not cut off when the journal is opened again: the next record goes behind it on
  -- one line. If that line does not parse, then after an append that returned no error, `Replay`
  -- fails on the whole journal, for all that it read before.
  pub replay-reopened :
      (recs : List (Record M)) (bytes tail text : List ℕ) (rec : Record M)
      (results : List (ReplayResult M))
      → Written M marshal unmarshal recs bytes
      → recover M marshal unmarshal recs ≡ ok results
      → NoNewline tail
      → is_empty tail ≡ false
      → Encodes M marshal unmarshal rec text
      → unmarshal (tail ++ text) ≡ none
      → let (after, failure) =
          append_record M marshal durable rec (open_journal M (bytes ++ tail)) in
        (failure ≡ none) × (replay M unmarshal (file after.disk true) ≡ err corrupt_record)
  unfolding append_record write_line replay recover
  replay-reopened recs bytes tail text rec results w found h e enc bad =
      rw (enc.written, append_record)
        (
          refl,
          rw (append_assoc bytes tail (text ++ newline ∷ [])) (
              rw
                (replay_bytes-Written M marshal unmarshal recs bytes
                  (tail ++ (text ++ newline ∷ [])) [] w)
                (fails_behind (fold_records M marshal unmarshal recs []) _ results found
                  (λ entries. torn_line tail text entries h enc.one_line e bad))),
        )
