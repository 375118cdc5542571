-- ===== src/Mbserver/Server/RtuOverTcp/Requests.antt =====
-- A request is read with exactly its bytes.
use virtual_bess.Prelude.{
  ℕ, ◌+◌, ◌-◌, ◌≤◌, List, [], ◌∷◌, ◌++◌, ◌≡◌, refl, arith, ◌==◌, ◌||◌, if◌then◌else◌, length,
  replicate,
}
use virtual_bess.Mbserver.Server.Mbap.{received, read_full}
use virtual_bess.Mbserver.Server.Mbap.Framing.{read_full_append}
use virtual_bess.Mbserver.Server.RtuOverTcp.{whole_request, read_rtu_request}

-- The number of bytes behind the first seven of a request: the announced data and the CRC for a
-- write of several elements, the last byte of the CRC otherwise.
abbrev pub remaining : ℕ → ℕ → ℕ
remaining fn byte_count = if fn == 15 || (fn == 16) then byte_count + 2 else 1

whole_request_append :
    (prefix bytes rest : List ℕ) (n : ℕ)
    → length bytes ≡ n
    → whole_request prefix (read_full n (bytes ++ rest))
      ≡ received
          (record { vals = prefix ++ bytes; spare = replicate (256 - (7 + length bytes)) 0 })
          rest
whole_request_append prefix bytes rest n e = rw (read_full_append bytes rest n e) refl

module _ (dev fn a b c d byte_count : ℕ) where
  abbrev pub seven : List ℕ
  seven = dev ∷ (fn ∷ (a ∷ (b ∷ (c ∷ (d ∷ (byte_count ∷ []))))))

  -- A request of any function code is read with exactly its own bytes: the next request starts
  -- where it ends. Its length is the one that the function code and the byte count give, at most
  -- 256 bytes.
  pub read_rtu_request_exact :
      (bytes rest : List ℕ)
      → length bytes ≡ remaining fn byte_count
      → 7 + length bytes ≤ 256
      → read_rtu_request (seven ++ (bytes ++ rest))
        ≡ received
            (record { vals = seven ++ bytes; spare = replicate (256 - (7 + length bytes)) 0 })
            rest
  unfolding read_rtu_request
  read_rtu_request_exact bytes rest e fits =
      let more : 7 + byte_count + 2 - 7 ≡ byte_count + 2 = omega arith in
      let p = whole_request_append seven bytes rest (length bytes) refl in
      rw (read_full_append seven (bytes ++ rest) 7 refl, more) (ground (arith, e, p))
