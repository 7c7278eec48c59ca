-- ===== src/Orders/ClientOrderId/Unambiguous.antt =====
-- The bytes that different intents write into the hash.
use bucks.Orders.ClientOrderId.{Hashing, pre_image, write_field, put_uint64}
use mathlib.Core.List.{append_assoc}
use bucks.Common.{
  refl, ◌∷◌, [], ◌∙◌, String, sym, ap, length, ◌++◌, List, arith, ◌+◌, ◌*◌, ◌≡◌, ◌^◌, ◌<◌, ℕ,
}

-- The number that eight bytes spell.
spelled : List ℕ → ℕ
spelled (a ∷ b ∷ c ∷ d ∷ e ∷ f ∷ g ∷ h ∷ rest) =
    ((((((a * 256 + b) * 256 + c) * 256 + d) * 256 + e) * 256 + f) * 256 + g) * 256 + h
spelled _ = 0

put_uint64-injective :
    (n n' : ℕ) (rest rest' : List ℕ)
    → n < 2 ^ 64
    → n' < 2 ^ 64
    → put_uint64 n ++ rest ≡ put_uint64 n' ++ rest'
    → (n ≡ n') × (rest ≡ rest')
unfolding put_uint64 spelled
put_uint64-injective n n' rest rest' h h' e =
    let same : spelled (put_uint64 n ++ rest) ≡ spelled (put_uint64 n' ++ rest') = ap spelled e in
    (omega arith, cc e)

append-injective :
    (xs ys rest rest' : List ℕ)
    → length xs ≡ length ys
    → xs ++ rest ≡ ys ++ rest'
    → (xs ≡ ys) × (rest ≡ rest')
append-injective [] [] rest rest' l e = (refl, e)
append-injective [] (y ∷ ys) rest rest' l e = absurd (omega arith)
append-injective (x ∷ xs) [] rest rest' l e = absurd (omega arith)
append-injective (x ∷ xs) (y ∷ ys) rest rest' l e =
    let (same, after) = append-injective xs ys rest rest' (omega arith) (cc e) in
    (cc (e, same), after)

-- A field and what follows it are read back from the bytes.
write_field-injective :
    (field field' rest rest' : List ℕ)
    → length field < 2 ^ 64
    → length field' < 2 ^ 64
    → write_field field ++ rest ≡ write_field field' ++ rest'
    → (field ≡ field') × (rest ≡ rest')
unfolding write_field
write_field-injective field field' rest rest' h h' e =
    let (size, after) =
      put_uint64-injective (length field) (length field') (field ++ rest) (field' ++ rest') h h' (
        sym (append_assoc (put_uint64 (length field)) field rest)
        ∙ e
        ∙ append_assoc (put_uint64 (length field')) field' rest') in
    append-injective field field' rest rest' size after

-- The length of a Go string is below 2 ^ 64.
abbrev pub IsShort : Hashing → String → Type 0
IsShort h s = length (h.bytes_of s) < 2 ^ 64

-- Two intents that write the same bytes into the hash are the same intent: the lengths of their
-- fields and their sequence numbers being below 2 ^ 64, strategy, symbol and intent agree byte by
-- byte, and so do the sequence numbers.
pub pre_image-injective :
    (h : Hashing) (strategy strategy' symbol symbol' intent intent' : String) (seq seq' : ℕ)
    → IsShort h strategy × IsShort h symbol × IsShort h intent × (seq < 2 ^ 64)
    → IsShort h strategy' × IsShort h symbol' × IsShort h intent' × (seq' < 2 ^ 64)
    → pre_image h strategy symbol intent seq ≡ pre_image h strategy' symbol' intent' seq'
    → (h.bytes_of strategy ≡ h.bytes_of strategy')
      × (h.bytes_of symbol ≡ h.bytes_of symbol')
      × (h.bytes_of intent ≡ h.bytes_of intent')
      × (seq ≡ seq')
unfolding pre_image
pre_image-injective h strategy strategy' symbol symbol' intent intent' seq seq' (a, b, c, d)
      (a', b', c', d') e =
    let (e1, r1) = write_field-injective (h.bytes_of strategy) (h.bytes_of strategy') _ _ a a' e in
    let (e2, r2) = write_field-injective (h.bytes_of symbol) (h.bytes_of symbol') _ _ b b' r1 in
    let (e3, r3) = write_field-injective (h.bytes_of intent) (h.bytes_of intent') _ _ c c' r2 in
    (e1, e2, e3, (put_uint64-injective seq seq' [] [] d d' (ap (λ xs. xs ++ []) r3)).0)
