-- ===== src/Orders/Journal/Recovery.antt =====
-- What `Replay` recovers from a journal after a crash.
use bucks.Orders.Journal.{
  unsynced, durable, torn, write_line, Journal, Device, append_record, file, replay, last_line,
  collect, is_empty, fold_record, ReplayResult, read_record, JournalError, newline, replay_lines,
  Entries, read_lines, prepend, Record,
}
use bucks.Money.{DecimalOps}
use mathlib.Core.List.{append_assoc, append-nil}
use bucks.Common.{
  if◌then◌else◌, not, Bool, zero, none, inl, ◌≢◌, suc, inr, ◌⊎◌, take, sym, ◌∙◌, err, false, refl,
  ◌>>=◌, ◌==◌, true, ok, some, Result, [], ◌≡◌, ◌++◌, ◌∷◌, Option, ℕ, List,
}

abbrev pub NoNewline : List ℕ → Type 0
NoNewline [] = Unit
NoNewline (b ∷ bs) = ((b == newline) ≡ false) × NoNewline bs

prepend-append :
    (b : ℕ) (line : List ℕ) (r : List (List ℕ) × List ℕ)
    → prepend b (line ∷ r.0, r.1) ≡ ((b ∷ line) ∷ r.0, r.1)
unfolding prepend
prepend-append b line r = refl

-- A line and its newline come off first.
pub read_lines-line :
    (line bytes : List ℕ)
    → NoNewline line
    → read_lines (line ++ newline ∷ bytes) ≡ (line ∷ (read_lines bytes).0, (read_lines bytes).1)
unfolding read_lines
read_lines-line [] bytes h = refl
read_lines-line (b ∷ line) bytes h = rw (h.0, read_lines-line line bytes h.1) refl

-- Bytes without a newline are the rest.
read_lines-tail : (tail : List ℕ) → NoNewline tail → read_lines tail ≡ ([], tail)
unfolding read_lines
read_lines-tail [] h = refl
read_lines-tail (b ∷ tail) h = rw (h.0, read_lines-tail tail h.1) refl

module _ (M : DecimalOps) (marshal : Record M → Option (List ℕ))
    (unmarshal : List ℕ → Option (Record M)) where
  -- `json.Marshal` writes the record as one line that is not empty, and `json.Unmarshal` reads it
  -- back.
  pub record Encodes (rec : Record M) (line : List ℕ) : Type 0 where
    pub written : marshal rec ≡ some line
    pub read_back : unmarshal line ≡ some rec
    pub one_line : NoNewline line
    pub some_bytes : is_empty line ≡ false

  -- The bytes of a journal that holds these records, each on its line.
  pub data Written : List (Record M) → List ℕ → Type 0 where
    start : Written [] []
    line :
        {rec : Record M} {recs : List (Record M)} {bytes : List ℕ} (text : List ℕ)
        → Encodes rec text
        → Written recs bytes
        → Written (rec ∷ recs) (text ++ newline ∷ bytes)

  -- The records applied one by one.
  unfoldable pub fold_records : List (Record M) → Entries M → Result JournalError (Entries M)
  fold_records [] entries = ok entries
  fold_records (rec ∷ recs) entries = fold_record M entries rec >>= fold_records recs

  -- The orders that a list of records stands for.
  unfoldable pub recover : List (Record M) → Result JournalError (List (ReplayResult M))
  recover recs = fold_records recs [] >>= collect M

  replay_lines-line :
      (rec : Record M) (text : List ℕ) (lines : List (List ℕ)) (rest : List ℕ) (entries : Entries M)
      → Encodes rec text
      → replay_lines M unmarshal (text ∷ lines) rest true entries
        ≡ (fold_record M entries rec >>= replay_lines M unmarshal lines rest true)
  unfolding replay_lines read_record
  replay_lines-line rec [] lines rest entries h = cc (h.some_bytes)
  replay_lines-line rec (b ∷ bs) lines rest entries h = rw (h.read_back, read_record) refl

  bind_cong :
      {A B : Type 0} (m : Result JournalError A) (f g : A → Result JournalError B)
      → ((a : A) → f a ≡ g a)
      → (m >>= f) ≡ (m >>= g)
  bind_cong (ok a) f g h = h a
  bind_cong (err e) f g h = refl

  bind_assoc :
      {A B C : Type 0} (m : Result JournalError A) (f : A → Result JournalError B)
      (g : B → Result JournalError C)
      → ((m >>= f) >>= g) ≡ (m >>= λ a. f a >>= g)
  bind_assoc (ok a) f g = refl
  bind_assoc (err e) f g = refl

  -- The loop of `Replay` over all of the bytes.
  abbrev pub replay_bytes : List ℕ → Entries M → Result JournalError (Entries M)
  replay_bytes bytes entries =
      replay_lines M unmarshal (read_lines bytes).0 (read_lines bytes).1 true entries

  replay_bytes-tail :
      (tail : List ℕ) (entries : Entries M)
      → NoNewline tail
      → replay_bytes tail entries ≡ ok entries
  unfolding replay_lines last_line
  replay_bytes-tail [] entries h = rw (read_lines-tail [] h)
  replay_bytes-tail (b ∷ bs) entries h = rw (read_lines-tail (b ∷ bs) h)

  -- The loop on a record's line, followed by anything.
  replay_bytes-line :
      (rec : Record M) (text bytes : List ℕ) (entries : Entries M)
      → Encodes rec text
      → replay_bytes (text ++ newline ∷ bytes) entries
        ≡ (fold_record M entries rec >>= replay_bytes bytes)
  replay_bytes-line rec text bytes entries h =
      rw (read_lines-line text bytes h.one_line)
        (replay_lines-line rec text (read_lines bytes).0 (read_lines bytes).1 entries h)

  pub replay_bytes-Written :
      (recs : List (Record M)) (bytes more : List ℕ) (entries : Entries M)
      → Written recs bytes
      → replay_bytes (bytes ++ more) entries ≡ (fold_records recs entries >>= replay_bytes more)
  unfolding fold_records
  replay_bytes-Written _ _ more entries start = refl
  replay_bytes-Written _ _ more entries (line {rec} {recs} {bytes} text h w) =
      rw (append_assoc text (newline ∷ bytes) more) (
        replay_bytes-line rec text (bytes ++ more) entries h
        ∙ bind_cong (fold_record M entries rec) (replay_bytes (bytes ++ more))
            (λ next. fold_records recs next >>= replay_bytes more)
            (λ next. replay_bytes-Written recs bytes more next w)
        ∙ sym (bind_assoc (fold_record M entries rec) (fold_records recs) (replay_bytes more)))

  bind-ok : {A : Type 0} (m : Result JournalError A) → (m >>= ok) ≡ m
  bind-ok (ok a) = refl
  bind-ok (err e) = refl

  -- A journal that a crash cut off within its last line, at whatever byte, replays to exactly the
  -- orders of its complete records.
  pub replay-torn :
      (recs : List (Record M)) (bytes tail : List ℕ)
      → Written recs bytes
      → NoNewline tail
      → replay M unmarshal (file (bytes ++ tail) true) ≡ recover recs
  unfolding replay recover
  replay-torn recs bytes tail w h = rw (
    replay_bytes-Written recs bytes tail [] w,
    bind_cong (fold_records recs []) (replay_bytes tail) ok
        (λ entries. replay_bytes-tail tail entries h),
    bind-ok (fold_records recs []),
  )

  pub fold_records-append :
      (recs more : List (Record M)) (entries : Entries M)
      → fold_records (recs ++ more) entries ≡ (fold_records recs entries >>= fold_records more)
  unfolding fold_records
  fold_records-append [] more entries = refl
  fold_records-append (rec ∷ recs) more entries =
      bind_cong (fold_record M entries rec) (fold_records (recs ++ more))
        (λ next. fold_records recs next >>= fold_records more)
        (λ next. fold_records-append recs more next)
      ∙ sym (bind_assoc (fold_record M entries rec) (fold_records recs) (fold_records more))

  Written-append :
      (recs : List (Record M)) (bytes : List ℕ) (rec : Record M) (text : List ℕ)
      → Written recs bytes
      → Encodes rec text
      → Written (recs ++ rec ∷ []) (bytes ++ (text ++ newline ∷ []))
  Written-append _ _ rec text start h = line text h start
  Written-append _ _ rec text (line {rec = r} {recs} {bytes} t e w) h =
      rw (append_assoc t (newline ∷ bytes) (text ++ newline ∷ []))
        (line t e (Written-append recs bytes rec text w h))

  -- The first bytes of a line and its newline are the whole of it or hold no newline.
  take-line :
      (n : ℕ) (text : List ℕ)
      → NoNewline text
      → (take n (text ++ newline ∷ []) ≡ text ++ newline ∷ [])
        ⊎ NoNewline (take n (text ++ newline ∷ []))
  take-line zero text h = inr tt
  take-line (suc zero) [] h = inl refl
  take-line (suc (suc n)) [] h = inl refl
  take-line (suc n) (b ∷ text) h = elim (take-line n text h.1) [
    | inl whole ↦ inl (rw whole)
    | inr part ↦ inr (h.0, part)
  ]

  replay-Written :
      (recs : List (Record M)) (bytes : List ℕ)
      → Written recs bytes
      → replay M unmarshal (file bytes true) ≡ recover recs
  replay-Written recs bytes w = rw (← append-nil bytes) (replay-torn recs bytes [] w tt)

  replay-appended :
      (recs : List (Record M)) (bytes : List ℕ) (rec : Record M) (text : List ℕ)
      → Written recs bytes
      → Encodes rec text
      → replay M unmarshal (file (bytes ++ (text ++ newline ∷ [])) true)
        ≡ recover (recs ++ rec ∷ [])
  replay-appended recs bytes rec text w h =
      replay-Written (recs ++ rec ∷ []) (bytes ++ (text ++ newline ∷ []))
        (Written-append recs bytes rec text w h)

  -- A later replay sees the record, or an error was returned and it sees none of it.
  abbrev pub Atomic : List (Record M) → Record M → Journal M × Option JournalError → Type 0
  Atomic recs rec (after, failure) =
      (replay M unmarshal (file after.disk true) ≡ recover (recs ++ rec ∷ []))
      ⊎ ((replay M unmarshal (file after.disk true) ≡ recover recs) × (failure ≢ none))

  write_line-Atomic :
      (device : Device) (rec : Record M) (text : List ℕ) (recs : List (Record M)) (j : Journal M)
      → Encodes rec text
      → Written recs j.disk
      → Atomic recs rec (write_line M marshal (text ++ newline ∷ []) device j)
  unfolding write_line
  write_line-Atomic durable rec text recs j h w = inl (replay-appended recs j.disk rec text w h)
  write_line-Atomic unsynced rec text recs j h w = inl (replay-appended recs j.disk rec text w h)
  write_line-Atomic (torn n) rec text recs j h w = elim (take-line n text h.one_line) [
    | inl whole ↦ inl (rw whole (replay-appended recs j.disk rec text w h))
    | inr part ↦ inr (replay-torn recs j.disk _ w part, λ e. cc e)
  ]

  Atomic-if :
      (recs : List (Record M)) (rec : Record M) (test : Bool)
      (x y : Journal M × Option JournalError)
      → Atomic recs rec x
      → Atomic recs rec y
      → Atomic recs rec (if test then x else y)
  Atomic-if recs rec true x y hx hy = hx
  Atomic-if recs rec false x y hx hy = hy

  -- However the append of a record ends, a later replay sees all of the record or nothing of it;
  -- it can miss the record only if the append returned an error.
  pub append_record-Atomic :
      (device : Device) (rec : Record M) (text : List ℕ) (recs : List (Record M)) (j : Journal M)
      → Encodes rec text
      → Written recs j.disk
      → Atomic recs rec (append_record M marshal device rec j)
  unfolding append_record
  append_record-Atomic device rec text recs j h w =
      rw (h.written, append_record)
        (Atomic-if recs rec (not j.is_open) _ _ (inr (replay-Written recs j.disk w, λ e. cc e)) (
          Atomic-if recs rec j.broken _ _ (inr (replay-Written recs j.disk w, λ e. cc e))
            (write_line-Atomic device rec text recs j h w)))
