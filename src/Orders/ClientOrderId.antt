-- ===== src/Orders/ClientOrderId.antt =====
-- internal/orders/clordid.go: the id of an order intent. A byte is a number below 256; the digest,
-- its text and the bytes of a string are not this package's code and are arguments.
pub mod Unambiguous
use bucks.Common.{◌%◌, ◌^◌, ◌/◌, List, ◌∷◌, [], ℕ, ◌++◌, String, length, take}

-- crypto/sha256, encoding/base32 and the bytes of a Go string.
pub record Hashing : Type 0 where
  pub bytes_of : String → List ℕ
  pub sha256 : List ℕ → List ℕ
  pub base32 : List ℕ → String

abbrev pub cl_ord_id_bytes : ℕ
cl_ord_id_bytes = 20

-- `binary.BigEndian.PutUint64`, of a number below 2 ^ 64.
unfoldable pub put_uint64 : ℕ → List ℕ
put_uint64 n =
    n / 2 ^ 56 % 256
    ∷ n / 2 ^ 48 % 256
    ∷ n / 2 ^ 40 % 256
    ∷ n / 2 ^ 32 % 256
    ∷ n / 2 ^ 24 % 256
    ∷ n / 2 ^ 16 % 256
    ∷ n / 2 ^ 8 % 256
    ∷ n % 256
    ∷ []

-- `writeField`: what it writes into the hash.
unfoldable pub write_field : List ℕ → List ℕ
write_field field = put_uint64 (length field) ++ field

-- All that `ClientOrderID` writes into the hash.
unfoldable pub pre_image : Hashing → (strategy symbol intent : String) → ℕ → List ℕ
pre_image h strategy symbol intent seq =
    write_field (h.bytes_of strategy)
    ++ (write_field (h.bytes_of symbol) ++ (write_field (h.bytes_of intent) ++ put_uint64 seq))

-- `ClientOrderID`
unfoldable pub client_order_id : Hashing → (strategy symbol intent : String) → ℕ → String
client_order_id h strategy symbol intent seq =
    h.base32 (take cl_ord_id_bytes (h.sha256 (pre_image h strategy symbol intent seq)))
