-- ===== src/VerifyTool/Encoding.antt =====
-- Encoded texts: prefixes, bytes, and signed numbers of eight bytes.
use stellar_kraal_contract.Common.{ℕ, zero, suc, ◌≡◌, refl, [], ◌∷◌, ◌++◌, arith, length, take}
use stellar_kraal_contract.Common.Result.{ok, >>=-eq-ok}
use stellar_kraal_contract.Common.Text.{Str}
use stellar_kraal_contract.Common.Utf8.{encode_char, encode_utf8}
use stellar_kraal_contract.Attestation.BigEndian.{Bytes, unpack_q, of_word}
use stellar_kraal_contract.VerifyTool.Checks.{int_from_bytes}

pub encode_utf8-take :
    (n : ℕ) (s : Str) {b : Bytes}
    → encode_utf8 s ≡ ok b
    → (x : Bytes) × (encode_utf8 (take n s) ≡ ok x)
unfolding encode_utf8
encode_utf8-take zero s h = ([], refl)
encode_utf8-take (suc n) [] h = ([], refl)
encode_utf8-take (suc n) (k ∷ s) h =
    let (bytes, first, h1) = >>=-eq-ok (encode_char k) _ h in
    let (rest, encoded, _) = >>=-eq-ok (encode_utf8 s) _ h1 in
    let (x, prefix) = encode_utf8-take n s encoded in (bytes ++ x, rw (first, prefix) refl)

pub int_from_bytes-unpack_q : (bs : Bytes) → length bs ≡ 8 → int_from_bytes bs ≡ unpack_q bs
unfolding int_from_bytes unpack_q of_word
int_from_bytes-unpack_q bs size = ground (arith, size)
